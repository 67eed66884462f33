-- ===== src/Monitor/Rebuild.antt =====
-- `proberKey` and `Monitor::rebuildProbers` (daemon/src/monitor.cpp): the probers that the clients'
-- destinations need, made anew with the state of the earlier ones kept.
pub mod Key
pub mod Entries
pub mod Serving
pub mod Table
pub mod Ensuring
pub mod Loops
pub mod Service
pub mod Uids
pub mod Numbering
pub mod Indexing
pub mod Recycling
pub mod Keeping
pub mod Windows
use plasma_network_health.Prelude.{
  ℕ, ◌+◌, ◌/◌, min, max, ◌≡◌, Bool, true, false, not, ◌&&◌, ◌||◌, List, [], ◌∷◌, ◌++◌, Option, none,
  some, Bytes, codes, if◌then◌else◌, ltb, ◌==◌, bytes_eq, length, get_elem?, set, replicate, add64,
  sub64, inc32,
}
use plasma_network_health.Health.{Destination}
use plasma_network_health.Pinger.Endpoint.{Endpoint, no_endpoint}
use plasma_network_health.Pinger.Lookup.{Names, parse_numeric_address}
use plasma_network_health.Monitor.State.{Client, Subscriber, Prober, Monitor, k_max_in_flight}
use plasma_network_health.Monitor.Rebuild.Key.{prober_key}

unfoldable pub key_of : Prober → Bytes
key_of p = prober_key p.host p.interval_us p.timeout_us

-- A std::unordered_map from keys to places is the list of its entries.
unfoldable pub find_key : Bytes → List (Bytes × ℕ) → Option ℕ
find_key key [] = none
find_key key ((k, i) ∷ entries) = if bytes_eq k key then some i else find_key key entries

abbrev pub insert_absent : Option ℕ → Bytes → ℕ → List (Bytes × ℕ) → List (Bytes × ℕ)
insert_absent none key i entries = (key, i) ∷ entries
insert_absent (some j) key i entries = entries

-- `emplace`, which leaves a key that is there alone.
unfoldable pub emplace : Bytes → ℕ → List (Bytes × ℕ) → List (Bytes × ℕ)
emplace key i entries = insert_absent (find_key key entries) key i entries

-- The loop that fills `previousByKey`, from place `i` on.
unfoldable pub index_previous : ℕ → List Prober → List (Bytes × ℕ) → List (Bytes × ℕ)
index_previous i [] entries = entries
index_previous i (p ∷ ps) entries = index_previous (i + 1) ps (emplace (key_of p) i entries)

-- The variables of the loop over the destinations.
pub record Build : Type 0 where
  pub previous : List Prober
  pub consumed : List Bool
  pub previous_by_key : List (Bytes × ℕ)
  pub current_by_key : List (Bytes × ℕ)
  pub probers : List Prober
  pub next_uid : ℕ

abbrev with_address : Option Endpoint → ℕ → Prober → Prober
with_address (some endpoint) now p = record p { endpoint = endpoint; numeric = true }
with_address none now p = record p { next_resolve_us = now; last_error = codes "resolving" }

unfoldable pub fresh_prober : Names → ℕ → Client → Bytes → ℕ → Prober
fresh_prober names now client address uid =
    with_address (parse_numeric_address names address) now (record {
      host = address;
      interval_us = client.interval_us;
      timeout_us = client.timeout_us;
      uid = uid;
      endpoint = no_endpoint;
      numeric = false;
      resolving = false;
      last_error = [];
      next_resolve_us = 0;
      resolve_failures = 0;
      next_send_us = now;
      sequence = 0;
      in_flight = [];
      max_in_flight = 1;
      sent = 0;
      received = 0;
      subscribers = [];
    })

-- The earlier prober at a place, unless it has been taken already.
abbrev pub available : List Prober → List Bool → Option ℕ → Option (ℕ × Prober)
available previous consumed none = none
available previous consumed (some i) = elim (get_elem? consumed i) [
  | some false ↦ elim (get_elem? previous i) [ some p ↦ some (i, p) | none ↦ none ]
  | other ↦ none
]

-- A recycled prober or a fresh one, and the loop's variables after it.
unfoldable pub obtain : Names → ℕ → Client → Bytes → Option (ℕ × Prober) → Build → Prober × Build
obtain names now client address (some (i, p)) b =
    (record p { subscribers = [] }, record b { consumed = set b.consumed i true })
obtain names now client address none b =
    (fresh_prober names now client address b.next_uid, record b { next_uid = inc32 b.next_uid })

-- The end of the list of probers, and its key.
unfoldable pub push_prober : Bytes → Prober → Build → Build
push_prober key p b = record b {
  probers = b.probers ++ (p ∷ []);
  current_by_key = emplace key (length b.probers) b.current_by_key;
}

abbrev subscribe_found : Option Prober → ℕ → Subscriber → List Prober → List Prober
subscribe_found none i s probers = probers
subscribe_found (some p) i s probers =
    set probers i (record p { subscribers = p.subscribers ++ (s ∷ []) })

unfoldable pub subscribe : ℕ → Subscriber → List Prober → List Prober
subscribe i s probers = subscribe_found (get_elem? probers i) i s probers

-- The place of the prober with a key, made if there is none yet.
unfoldable pub ensure : Names → ℕ → Client → Bytes → Bytes → Option ℕ → Build → ℕ × Build
ensure names now client address key (some i) b = (i, b)
ensure names now client address key none b =
    let (p, c) =
      obtain names now client address
        (available b.previous b.consumed (find_key key b.previous_by_key)) b in
    (length c.probers, push_prober key p c)

unfoldable pub add_destination :
    Names → ℕ → Client → Subscriber → Destination → Build → Destination × Build
unfolding ensure subscribe
add_destination names now client s d b =
    let key = prober_key d.address client.interval_us client.timeout_us in
    let (i, c) = ensure names now client d.address key (find_key key b.current_by_key) b in
    if not d.enabled
    then (record d { prober = none }, b)
    else (record d { prober = some i }, record c { probers = subscribe i s c.probers })

unfoldable pub add_destinations :
    Names → ℕ → Client → ℕ → ℕ → List Destination → Build → List Destination × Build
add_destinations names now client c i [] b = ([], b)
add_destinations names now client c i (d ∷ ds) b =
    let (e, b1) = add_destination names now client (record { client = c; destination = i }) d b in
    let (es, b2) = add_destinations names now client c (i + 1) ds b1 in (e ∷ es, b2)

unfoldable pub add_clients : Names → ℕ → ℕ → List Client → Build → List Client × Build
add_clients names now i [] b = ([], b)
add_clients names now i (c ∷ cs) b =
    let (ds, b1) = add_destinations names now c i 0 c.destinations b in
    let (es, b2) = add_clients names now (i + 1) cs b1 in (record c { destinations = ds } ∷ es, b2)

-- `map[uid] = i`.
unfoldable pub assign : ℕ → ℕ → List (ℕ × ℕ) → List (ℕ × ℕ)
assign uid i [] = (uid, i) ∷ []
assign uid i ((u, j) ∷ entries) =
    let rest = assign uid i entries in if u == uid then (uid, i) ∷ entries else (u, j) ∷ rest

unfoldable pub window : ℕ → ℕ → ℕ
window timeout_us interval_us =
    min (max (sub64 (add64 timeout_us interval_us) 1 / interval_us) 1) k_max_in_flight

unfoldable pub finish_prober : Prober → Prober
finish_prober p = record p { max_in_flight = window p.timeout_us p.interval_us }

unfoldable pub index_probers : ℕ → List Prober → List (ℕ × ℕ) → List (ℕ × ℕ)
index_probers i [] entries = entries
index_probers i (p ∷ ps) entries = index_probers (i + 1) ps (assign p.uid i entries)

unfoldable pub shortest_interval : ℕ → List Prober → ℕ
shortest_interval shortest [] = shortest
shortest_interval shortest (p ∷ ps) =
    shortest_interval
      (if shortest == 0 || ltb p.interval_us shortest then p.interval_us else shortest) ps

unfoldable pub finish_probers : List Prober → List Prober
finish_probers [] = []
finish_probers (p ∷ ps) = finish_prober p ∷ finish_probers ps

unfoldable pub start_build : Monitor → Build
start_build m = record {
  previous = m.probers;
  consumed = replicate (length m.probers) false;
  previous_by_key = index_previous 0 m.probers [];
  current_by_key = [];
  probers = [];
  next_uid = m.next_uid;
}

-- The last loop of the source is three here, since no round reads what another one writes.
unfoldable pub rebuild_probers : Names → ℕ → Monitor → Monitor
unfolding start_build
rebuild_probers names now m =
    let (clients, b) = add_clients names now 0 m.clients (start_build m) in
    record m {
      clients = clients;
      probers = finish_probers b.probers;
      prober_by_uid = index_probers 0 b.probers [];
      next_uid = b.next_uid;
      min_interval_us = shortest_interval 0 b.probers;
    }
