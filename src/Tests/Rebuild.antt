-- ===== src/Tests/Rebuild.antt =====
-- Tests of the table of probers.
use plasma_network_health.Prelude.{
  ℕ, zero, suc, u32_mod, ◌+◌, ◌*◌, ◌<◌, ◌≤◌, ◌≡◌, ◌⊎◌, refl, ap, false, List, [], ◌∷◌, map, arith,
  some, none, codes, get_elem?, bytes_eq, AllDifferent, All,
}
use plasma_network_health.Util.Decimal.{to_string, digits}
use plasma_network_health.Pinger.Endpoint.{af_inet}
use plasma_network_health.Pinger.Lookup.{
  Names, gai_results, parse_numeric_address, lookup, choose, endpoint_of,
}
use plasma_network_health.Monitor.State.{Client, Prober, Monitor}
use plasma_network_health.Monitor.Replies.Routing.{Indexed}
use plasma_network_health.Monitor.Rebuild.{
  key_of, find_key, emplace, index_previous, fresh_prober, obtain, push_prober, subscribe, ensure,
  add_destination, add_destinations, add_clients, assign, window, finish_prober, finish_probers,
  index_probers, shortest_interval, start_build, rebuild_probers,
}
use plasma_network_health.Monitor.Rebuild.Key.{prober_key}
use plasma_network_health.Monitor.Rebuild.Serving.{Served}
use plasma_network_health.Monitor.Rebuild.Table.{keys}
use plasma_network_health.Monitor.Rebuild.Service.{
  rebuild_probers-Served, rebuild_probers_share, without_probers,
}
use plasma_network_health.Monitor.Rebuild.Uids.{uids}
use plasma_network_health.Monitor.Rebuild.Numbering.{total_destinations}
use plasma_network_health.Monitor.Rebuild.Indexing.{rebuild_probers-Indexed}
use plasma_network_health.Monitor.Rebuild.Keeping.{rebuild_probers_keeps}
use plasma_network_health.Monitor.Rebuild.Windows.{window_enough}
use plasma_network_health.Tests.Data.{
  gateway, desktop, gateway_addr, widget, second, prober, monitor,
}

-- Every text is the gateway's address.
abbrev pub names : Names
names = record {
  numeric_info = λ text.
      gai_results (record { ai_family = af_inet; ai_addr = gateway_addr; ai_addrlen = 16 } ∷ []);
  format_address = λ addr len. codes "192.168.1.1";
}

-- The two destinations of the widget share the earlier prober, and a second client brings a new one.
abbrev slow_widget : Client
slow_widget = record widget {
  interval_us = 2000000;
  destinations = gateway ∷ record desktop { enabled = false } ∷ [];
}

abbrev reloaded : Monitor
reloaded = record monitor { clients = widget ∷ slow_widget ∷ [] }

abbrev rebuilt : Monitor
rebuilt = rebuild_probers names 2000000 reloaded

rebuilt_uids : uids rebuilt.probers ≡ 5 ∷ 6 ∷ []
unfolding key_of find_key emplace index_previous fresh_prober obtain push_prober subscribe ensure
    add_destination add_destinations add_clients assign window finish_prober finish_probers
    index_probers shortest_interval start_build rebuild_probers prober_key to_string digits bytes_eq
    parse_numeric_address lookup choose endpoint_of
rebuilt_uids = refl

rebuilt_windows : map (λ (p : Prober). p.max_in_flight) rebuilt.probers ≡ 8 ∷ 2 ∷ []
unfolding key_of find_key emplace index_previous fresh_prober obtain push_prober subscribe ensure
    add_destination add_destinations add_clients assign window finish_prober finish_probers
    index_probers shortest_interval start_build rebuild_probers prober_key to_string digits bytes_eq
    parse_numeric_address lookup choose endpoint_of
rebuilt_windows = refl

abbrev rebuilt_slow_widget : Client
rebuilt_slow_widget = record slow_widget {
  destinations =
      record gateway { prober = some 1 } ∷ record desktop { enabled = false; prober = none } ∷ [];
}

rebuilt_clients : rebuilt.clients ≡ widget ∷ rebuilt_slow_widget ∷ []
unfolding key_of find_key emplace index_previous fresh_prober obtain push_prober subscribe ensure
    add_destination add_destinations add_clients assign window finish_prober finish_probers
    index_probers shortest_interval start_build rebuild_probers prober_key to_string digits bytes_eq
    parse_numeric_address lookup choose endpoint_of
rebuilt_clients = refl

rebuilt_prober : get_elem? rebuilt.probers 0 ≡ some prober
unfolding key_of find_key emplace index_previous fresh_prober obtain push_prober subscribe ensure
    add_destination add_destinations add_clients assign window finish_prober finish_probers
    index_probers shortest_interval start_build rebuild_probers prober_key to_string digits bytes_eq
    parse_numeric_address lookup choose endpoint_of
rebuilt_prober = refl

rebuild_probers-Served_example :
    (get_elem? (map without_probers reloaded.clients) 0 ≡ some (without_probers widget))
    × Served rebuilt.probers widget second desktop
rebuild_probers-Served_example =
    rebuild_probers-Served names 2000000 reloaded (omega arith) (omega arith) 0 1 widget desktop
      (ap (λ (cs : List Client). get_elem? cs 0) rebuilt_clients) refl

rebuild_probers_share_example : ◌≡◌ {A = ℕ} 0 0
rebuild_probers_share_example =
    rebuild_probers_share names 2000000 reloaded (omega arith) (omega arith) 0 0 prober prober
      rebuilt_prober rebuilt_prober refl refl refl

few_destinations : reloaded.next_uid + total_destinations reloaded.clients < u32_mod
unfolding total_destinations
few_destinations = omega arith

one_uid : AllDifferent (uids reloaded.probers)
one_uid zero zero u h k = refl
one_uid zero (suc j) u h k = cc
one_uid (suc i) j u h k = cc

rebuild_probers-Indexed_example :
    Indexed rebuilt.prober_by_uid rebuilt.probers
    × AllDifferent (uids rebuilt.probers)
    × All (λ (u : ℕ). u < rebuilt.next_uid) (uids rebuilt.probers)
rebuild_probers-Indexed_example =
    rebuild_probers-Indexed names 2000000 reloaded one_uid (omega arith) few_destinations

one_key : AllDifferent (keys reloaded.probers)
one_key zero zero key h k = refl
one_key zero (suc j) key h k = cc
one_key (suc i) j key h k = cc

rebuild_probers_keeps_example :
    prober
    ≡ record prober { subscribers = prober.subscribers; max_in_flight = prober.max_in_flight }
rebuild_probers_keeps_example =
    rebuild_probers_keeps names 2000000 reloaded one_key 0 0 prober prober rebuilt_prober refl refl
      refl refl

window_enough_example :
    (0 < window 3000000 2000000)
    × (window 3000000 2000000 ≤ 8)
    × ((3000000 ≤ window 3000000 2000000 * 2000000) ⊎ (window 3000000 2000000 ≡ 8))
    × ((window 3000000 2000000 * 2000000 < 3000000 + 2000000) ⊎ (window 3000000 2000000 ≡ 1))
window_enough_example = window_enough 3000000 2000000 (omega arith) (omega arith)
