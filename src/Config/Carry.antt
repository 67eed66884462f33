-- ===== src/Config/Carry.antt =====
-- reloadClients gives each destination the state of the earlier one that it stands for.
use plasma_network_health.Prelude.{
  ℕ, ◌≡◌, refl, sym, ap, ◌∙◌, false, List, [], ◌∷◌, map, Option, none, some, Bytes, get_elem?,
  get_elem?-map, get_elem?-map_inv, All, All-get_elem?,
}
use plasma_network_health.Json.Double.{Doubles}
use plasma_network_health.Health.{Destination}
use plasma_network_health.Pinger.Lookup.{Names}
use plasma_network_health.Monitor.State.{Client, Monitor}
use plasma_network_health.Monitor.Rebuild.Serving.{Served}
use plasma_network_health.Monitor.Rebuild.Table.{IsTimed}
use plasma_network_health.Monitor.Rebuild.Service.{
  without_prober, without_probers, rebuild_probers-Served,
}
use plasma_network_health.Config.Bounds.{IsFresh, IsLoaded}
use plasma_network_health.Config.Reload.{
  Directory, find_client, find_destination, take_state, carry_destination, carry_from, carry_client,
  reloaded_clients, reload_clients,
}
use plasma_network_health.Config.First.{First, Stands, find_client-First, find_destination-First}
use plasma_network_health.Config.Files.{files, files-IsLoaded, reloaded_clients-IsTimed}

-- The destination of an earlier client with an identifier and an address.
abbrev pub in_client : Option Client → Bytes → Bytes → Option Destination
in_client none id address = none
in_client (some c) id address = find_destination id address c.destinations

abbrev pub earlier_of : List Client → Bytes → Bytes → Bytes → Option Destination
earlier_of clients client_id id address = in_client (find_client client_id clients) id address

carried_destinations :
    (o : Option Client) (c : Client)
    → (carry_from o c).destinations
      ≡ map (λ d. take_state (in_client o d.id d.address) d) c.destinations
unfolding carry_destination
carried_destinations none c = all_same c.destinations
  where
    all_same : (ds : List Destination) → ds ≡ map (λ d. d) ds
    all_same [] = refl
    all_same (d ∷ ds) = ap (λ (es : List Destination). d ∷ es) (all_same ds)
carried_destinations (some e) c = refl

carry_from-id : (o : Option Client) (c : Client) → (carry_from o c).id ≡ c.id
carry_from-id none c = refl
carry_from-id (some e) c = refl

-- What a client's file says of a destination.
pub record SameSettings (d e : Destination) : Type 0 where
  pub id : e.id ≡ d.id
  pub name : e.name ≡ d.name
  pub address : e.address ≡ d.address
  pub order : e.order ≡ d.order
  pub threshold_us : e.threshold_us ≡ d.threshold_us
  pub sensitivity : e.sensitivity ≡ d.sensitivity
  pub enabled : e.enabled ≡ d.enabled
  pub part_time : e.part_time ≡ d.part_time

-- What the samples say of a destination.
pub record SameState (d e : Destination) : Type 0 where
  pub state : e.state ≡ d.state
  pub candidate : e.candidate ≡ d.candidate
  pub candidate_streak : e.candidate_streak ≡ d.candidate_streak
  pub have_rtt : e.have_rtt ≡ d.have_rtt
  pub rtt_us : e.rtt_us ≡ d.rtt_us
  pub sent : e.sent ≡ d.sent
  pub received : e.received ≡ d.received
  pub last_reply_real_us : e.last_reply_real_us ≡ d.last_reply_real_us
  pub last_change_real_us : e.last_change_real_us ≡ d.last_change_real_us

abbrev pub or_fresh : Option Destination → Destination → Destination
or_fresh none fresh = fresh
or_fresh (some old) fresh = old

settings_of :
    (o : Option Destination) (d e : Destination)
    → without_prober e ≡ without_prober (take_state o d)
    → SameSettings d e
settings_of none d e h = record {
  id = cc;
  name = cc;
  address = cc;
  order = cc;
  threshold_us = cc;
  sensitivity = cc;
  enabled = cc;
  part_time = cc;
}
settings_of (some old) d e h = record {
  id = cc;
  name = cc;
  address = cc;
  order = cc;
  threshold_us = cc;
  sensitivity = cc;
  enabled = cc;
  part_time = cc;
}

state_of :
    (o : Option Destination) (d e : Destination)
    → without_prober e ≡ without_prober (take_state o d)
    → SameState (or_fresh o d) e
state_of none d e h = record {
  state = cc;
  candidate = cc;
  candidate_streak = cc;
  have_rtt = cc;
  rtt_us = cc;
  sent = cc;
  received = cc;
  last_reply_real_us = cc;
  last_change_real_us = cc;
}
state_of (some old) d e h = record {
  state = cc;
  candidate = cc;
  candidate_streak = cc;
  have_rtt = cc;
  rtt_us = cc;
  sent = cc;
  received = cc;
  last_reply_real_us = cc;
  last_change_real_us = cc;
}

-- The first destination of a client, if there is one, with an identifier and an address.
abbrev pub FirstIn : Option Client → Bytes → Bytes → Option Destination → Type 0
FirstIn none id address o = o ≡ none
FirstIn (some c) id address o = First (Stands id address) c.destinations o

in_client-FirstIn :
    (o : Option Client) (id address : Bytes) → FirstIn o id address (in_client o id address)
in_client-FirstIn none id address = refl
in_client-FirstIn (some c) id address = find_destination-First id address c.destinations

-- A destination of a reloaded monitor, the file's client and destination that it comes from.
pub record Carried (ds : Doubles) (directory : Directory) (m n : Monitor) (c d : ℕ)
    (client : Client) (dest : Destination) : Type 0 where
  pub file : Client
  pub fresh : Destination
  pub of_file : get_elem? (files ds directory m) c ≡ some file
  pub same_id : file.id ≡ client.id
  pub of_client : get_elem? file.destinations d ≡ some fresh
  pub is_fresh : IsFresh fresh
  pub settings : SameSettings fresh dest
  pub old_client : Option Client
  pub is_old_client : First (λ (c : Client). c.id ≡ client.id) m.clients old_client
  pub old : Option Destination
  pub is_old : FirstIn old_client fresh.id fresh.address old
  pub state : SameState (or_fresh old fresh) dest
  pub served : Served n.probers client (record { client = c; destination = d }) dest

abbrev take_over : Option Client → Destination → Destination
take_over o d = take_state (in_client o d.id d.address) d

-- After reloadClients each destination of each client has the settings of the one at the same place
-- of the sorted files, which are in range. Its state, streak, round-trip time, counters and times are
-- those of the first destination with its identifier and address in the first earlier client with its
-- client's identifier, or the initial ones if there was none; and it is served by the new table of
-- probers. Intervals and waits of the earlier probers fit in 64 bits.
pub reload_clients-Carried :
    (ds : Doubles) (names : Names) (now : ℕ) (directory : Directory) (m : Monitor)
    → All IsTimed m.probers
    → (c d : ℕ) (client : Client) (dest : Destination)
    → get_elem? (reload_clients ds names now directory m).clients c ≡ some client
    → get_elem? client.destinations d ≡ some dest
    → Carried ds directory m (reload_clients ds names now directory m) c d client dest
unfolding reload_clients reloaded_clients carry_client
reload_clients-Carried ds names now directory m hp c d client dest h k =
    let start : Monitor = record m {
      config_dirty = false;
      clients = reloaded_clients ds directory m;
    } in
    let (frame, served) =
      rebuild_probers-Served names now start (reloaded_clients-IsTimed ds directory m) hp c d client
        dest h k in
    let (x, at_x, like_x) = get_elem?-map_inv without_probers start.clients c frame in
    let (file, at_file, carried) =
      get_elem?-map_inv (carry_client m.clients) (files ds directory m) c at_x in
    let found = find_client file.id m.clients in
    let same : file.id ≡ client.id =
      sym (carry_from-id found file)
      ∙ ap (λ (y : Client). y.id) carried
      ∙ ap (λ (y : Client). y.id) like_x in
    let lists : map without_prober (map (take_over found) file.destinations)
        ≡ map without_prober client.destinations =
      ap (map without_prober)
        (sym (carried_destinations found file) ∙ ap (λ (y : Client). y.destinations) carried)
      ∙ ap (λ (y : Client). y.destinations) like_x in
    let at_dest : get_elem? (map without_prober (map (take_over found) file.destinations)) d
        ≡ some (without_prober dest) =
      rw lists (get_elem?-map without_prober client.destinations d k) in
    let (y, at_y, like_y) =
      get_elem?-map_inv without_prober (map (take_over found) file.destinations) d at_dest in
    let (fresh, at_fresh, taken) = get_elem?-map_inv (take_over found) file.destinations d at_y in
    let earlier = earlier_of m.clients client.id fresh.id fresh.address in
    let same_dest : without_prober dest ≡ without_prober (take_state earlier fresh) =
      sym like_y
      ∙ ap without_prober (sym taken)
      ∙ ap
          (λ (id : Bytes).
            without_prober (take_state (earlier_of m.clients id fresh.id fresh.address) fresh))
          same in
    record {
      file = file;
      fresh = fresh;
      of_file = at_file;
      same_id = same;
      of_client = at_fresh;
      is_fresh =
          All-get_elem? IsFresh file.destinations d
            (All-get_elem? (IsLoaded m.options.max_destinations) (files ds directory m) c
              (files-IsLoaded ds directory m) at_file).fresh
            at_fresh;
      settings = settings_of earlier fresh dest same_dest;
      old_client = find_client client.id m.clients;
      is_old_client = find_client-First client.id m.clients;
      old = earlier;
      is_old = in_client-FirstIn (find_client client.id m.clients) fresh.id fresh.address;
      state = state_of earlier fresh dest same_dest;
      served = served;
    }
