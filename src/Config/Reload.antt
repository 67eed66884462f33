-- ===== src/Config/Reload.antt =====
-- `Monitor::reloadClients`: the clients of the directory, with the state of the earlier ones.
use plasma_network_health.Prelude.{
  ℕ, ◌-◌, Bool, true, false, not, ◌&&◌, ◌||◌, List, [], ◌∷◌, ◌++◌, map, Option, none, some, Bytes,
  codes, ltb, ◌==◌, if◌then◌else◌, is_empty, length, take, bytes_eq,
}
use plasma_network_health.Util.Text.{has_suffix}
use plasma_network_health.Json.Double.{Doubles}
use plasma_network_health.Health.{Destination}
use plasma_network_health.Pinger.Lookup.{Names}
use plasma_network_health.Monitor.State.{Client, MonitorOptions, Monitor}
use plasma_network_health.Monitor.Rebuild.{rebuild_probers}
use plasma_network_health.Config.Load.{load_client_file}

-- What opendir and readdir answer: the names in order, each with what readWholeFile gives of the
-- file, or that there is no directory. One that is missing is made and watched again, which leaves
-- the monitor's state alone.
pub data Directory : Type 0 where
  listing : List (Bytes × Option Bytes) → Directory
  no_directory : Directory

unfoldable pub clients_dir_path : MonitorOptions → Bytes
clients_dir_path o = o.runtime_dir ++ codes "/clients"

abbrev starts_with_dot : Bytes → Bool
starts_with_dot [] = false
starts_with_dot (c ∷ cs) = c == b'.'

unfoldable pub is_client_name : Bytes → Bool
is_client_name name =
    not (is_empty name || starts_with_dot name || not (has_suffix name (codes ".json")))

abbrev pub append_found : Option Client → List Client → List Client
append_found none clients = clients
append_found (some c) clients = c ∷ clients

module _ (ds : Doubles) where
  unfoldable pub load_entries : MonitorOptions → List (Bytes × Option Bytes) → List Client
  unfolding clients_dir_path is_client_name
  load_entries o [] = []
  load_entries o ((name, text) ∷ more) =
      let rest = load_entries o more in
      let id = take (length name - 5) name in
      let path = clients_dir_path o ++ (b'/' ∷ name) in
      if is_client_name name
      then append_found (load_client_file ds o.max_destinations path id text) rest
      else rest

  unfoldable pub load_directory : MonitorOptions → Directory → List Client
  unfolding load_entries
  load_directory o (listing entries) = load_entries o entries
  load_directory o no_directory = []

-- `operator<` of std::string.
unfoldable pub bytes_lt : Bytes → Bytes → Bool
bytes_lt xs [] = false
bytes_lt [] (y ∷ ys) = true
bytes_lt (x ∷ xs) (y ∷ ys) = ltb x y || (x == y && bytes_lt xs ys)

unfoldable pub insert_client : Client → List Client → List Client
insert_client c [] = c ∷ []
insert_client c (d ∷ ds) = if bytes_lt d.id c.id then d ∷ insert_client c ds else c ∷ d ∷ ds

-- std::sort by identifier; the files of a directory have different names.
unfoldable pub sort_clients : List Client → List Client
unfolding insert_client
sort_clients [] = []
sort_clients (c ∷ cs) = insert_client c (sort_clients cs)

unfoldable pub find_client : Bytes → List Client → Option Client
find_client id [] = none
find_client id (c ∷ cs) = if bytes_eq c.id id then some c else find_client id cs

unfoldable pub find_destination : Bytes → Bytes → List Destination → Option Destination
find_destination id address [] = none
find_destination id address (d ∷ ds) =
    if bytes_eq d.id id && bytes_eq d.address address
    then some d
    else find_destination id address ds

-- The evaluated state of an earlier destination, if there is one.
abbrev pub take_state : Option Destination → Destination → Destination
take_state none d = d
take_state (some old) d = record d {
  state = old.state;
  candidate = old.candidate;
  candidate_streak = old.candidate_streak;
  have_rtt = old.have_rtt;
  rtt_us = old.rtt_us;
  sent = old.sent;
  received = old.received;
  last_reply_real_us = old.last_reply_real_us;
  last_change_real_us = old.last_change_real_us;
}

unfoldable pub carry_destination : List Destination → Destination → Destination
carry_destination earlier d = take_state (find_destination d.id d.address earlier) d

abbrev pub carry_from : Option Client → Client → Client
carry_from none c = c
carry_from (some earlier) c = record c {
  destinations = map (carry_destination earlier.destinations) c.destinations;
}

unfoldable pub carry_client : List Client → Client → Client
carry_client earlier c = carry_from (find_client c.id earlier) c

module _ (ds : Doubles) where
  -- The clients that replace the earlier ones.
  unfoldable pub reloaded_clients : Directory → Monitor → List Client
  unfolding load_directory sort_clients carry_client
  reloaded_clients directory m =
      map (carry_client m.clients) (sort_clients (load_directory ds m.options directory))

  unfoldable pub reload_clients : Names → ℕ → Directory → Monitor → Monitor
  unfolding reloaded_clients
  reload_clients names now directory m =
      let n =
        rebuild_probers names now
          (record m { config_dirty = false; clients = reloaded_clients directory m }) in
      record n { state_dirty = true }
