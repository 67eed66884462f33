-- ===== src/Loop/Reloading.antt =====
-- A reload puts a new table of probers in order.
use plasma_network_health.Prelude.{
  ℕ, ◌+◌, ◌<◌, ◌≤◌, ◌≡◌, refl, false, List, [], ◌∷◌, map, Option, none, some, arith, length,
  length-map, u32_mod,
}
use plasma_network_health.Json.Double.{Doubles}
use plasma_network_health.Pinger.Lookup.{Names}
use plasma_network_health.Monitor.State.{Client, MonitorOptions, Monitor}
use plasma_network_health.Monitor.Rebuild.{rebuild_probers}
use plasma_network_health.Monitor.Rebuild.Numbering.{total_destinations}
use plasma_network_health.Monitor.Rebuild.Indexing.{
  rebuild_probers-Indexed, rebuild_probers-next_uid,
}
use plasma_network_health.Monitor.Rebuild.Service.{rebuild_probers_share, rebuild_probers-IsTimed}
use plasma_network_health.Config.Reload.{
  Directory, load_directory, sort_clients, find_client, carry_destination, carry_from, carry_client,
  reloaded_clients, reload_clients,
}
use plasma_network_health.Config.Files.{files, reloaded_clients-IsTimed}
use plasma_network_health.Config.Carry.{reload_clients-Carried}
use plasma_network_health.Loop.Sound.{IsSound}

-- How many destinations the files of the directory have.
unfoldable pub read_destinations : Doubles → MonitorOptions → Directory → ℕ
read_destinations ds o directory = total_destinations (sort_clients (load_directory ds o directory))

carry_from-length :
    (o : Option Client) (c : Client) → length (carry_from o c).destinations ≡ length c.destinations
carry_from-length none c = refl
carry_from-length (some e) c = length-map (carry_destination e.destinations) c.destinations

carried-total :
    (earlier cs : List Client)
    → total_destinations (map (carry_client earlier) cs) ≡ total_destinations cs
unfolding total_destinations carry_client
carried-total earlier [] = refl
carried-total earlier (c ∷ cs) =
    omega (arith, carry_from-length (find_client c.id earlier) c, carried-total earlier cs)

module _ (ds : Doubles) (names : Names) (now : ℕ) (directory : Directory) (m : Monitor)
    (x : IsSound m) (room : m.next_uid + read_destinations ds m.options directory < u32_mod) where
  abbrev pub before : Monitor
  before = record m { config_dirty = false; clients = reloaded_clients ds directory m }

  before-total : total_destinations before.clients ≡ read_destinations ds m.options directory
  unfolding reloaded_clients read_destinations
  before-total = carried-total m.clients (files ds directory m)

  before-room : before.next_uid + total_destinations before.clients < u32_mod
  before-room = rw before-total room

  pub reload_clients-IsSound : IsSound (reload_clients ds names now directory m)
  unfolding reload_clients
  reload_clients-IsSound =
      let timed = reloaded_clients-IsTimed ds directory m in
      let numbered = rebuild_probers-Indexed names now before x.different x.below before-room in
      record {
        indexed = numbered.0;
        different = numbered.1;
        below = numbered.2;
        timed = rebuild_probers-IsTimed names now before timed x.timed;
        shared = rebuild_probers_share names now before timed x.timed;
        served = λ c d client dest h k.
            (reload_clients-Carried ds names now directory m x.timed c d client dest h k).served;
      }

  pub reload_clients-next_uid :
      (reload_clients ds names now directory m).next_uid
      ≤ m.next_uid + read_destinations ds m.options directory
  unfolding reload_clients
  reload_clients-next_uid =
      let most = rebuild_probers-next_uid names now before x.different x.below before-room in
      omega (arith, most, before-total)

  pub reload_clients-options : (reload_clients ds names now directory m).options ≡ m.options
  unfolding reload_clients rebuild_probers
  reload_clients-options = refl
