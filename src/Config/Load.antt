-- ===== src/Config/Load.antt =====
-- `clampValue` and `Monitor::loadClientFile`: a client of the document in its file.
use plasma_network_health.Prelude.{
  ℕ, ◌+◌, ◌-◌, ◌*◌, ◌%◌, Bool, true, false, not, List, [], ◌∷◌, ◌++◌, Option, none, some, Bytes,
  codes, ℤ, pos, negsuc, ltb, if◌then◌else◌, is_empty, length, u32_mod,
}
use plasma_network_health.Util.Decimal.{to_string}
use plasma_network_health.Util.Text.{trimmed}
use plasma_network_health.Json.Double.{Doubles}
use plasma_network_health.Json.Value.{
  Json, null, Items, nil, cons, is_null, is_array, is_object, items, get, to_text, to_bool, to_int,
}
use plasma_network_health.Json.Parse.{Document, value, error, stuck, parse}
use plasma_network_health.Health.{Destination, unknown}
use plasma_network_health.Monitor.State.{Client}

-- `clampValue<long long>` between two bounds that are not negative.
unfoldable pub clamp : ℤ → ℕ → ℕ → ℕ
clamp (negsuc n) low high = low
clamp (pos n) low high = if ltb n low then low else if ltb high n then high else n

-- The cast of a `long long` to `int`, modulo 2^32.
unfoldable pub to_int32 : ℤ → ℤ
to_int32 (pos n) =
    let u = n % u32_mod in if ltb u 0x80000000 then pos u else negsuc (u32_mod - 1 - u)
to_int32 (negsuc n) =
    let u = n % u32_mod in if ltb u 0x80000000 then negsuc u else pos (u32_mod - 1 - u)

abbrev pub default_id : ℕ → Bytes → Bytes
default_id i id = if is_empty id then b'd' ∷ to_string i else id

abbrev pub add_found : Option Destination → List Destination → List Destination
add_found none out = out
add_found (some d) out = out ++ (d ∷ [])

module _ (ds : Doubles) where
  abbrev enabled_of : Json ds.Double → Bool
  enabled_of j = if is_null j then true else to_bool ds j true

  -- The destination of an entry that is an object, at a place of the list.
  unfoldable pub load_destination : ℕ → Bytes → Json ds.Double → Destination
  unfolding clamp to_int32
  load_destination i address entry = record {
    id = default_id i (to_text (get entry (codes "id")) []);
    name = to_text (get entry (codes "name")) address;
    address = address;
    order = to_int32 (to_int ds (get entry (codes "order")) (pos i));
    threshold_us = clamp (to_int ds (get entry (codes "threshold_us")) (pos 1000)) 1 60000000;
    sensitivity = clamp (to_int ds (get entry (codes "sensitivity")) (pos 3)) 0 1000;
    enabled = enabled_of (get entry (codes "enabled"));
    part_time = to_bool ds (get entry (codes "part_time")) false;
    prober = none;
    state = unknown;
    candidate = unknown;
    candidate_streak = 0;
    have_rtt = false;
    rtt_us = 0;
    sent = 0;
    received = 0;
    last_reply_real_us = 0;
    last_change_real_us = 0;
  }

  -- What an entry adds: nothing, if it is no object or has no address.
  unfoldable pub load_entry : ℕ → Json ds.Double → Option Destination
  unfolding load_destination
  load_entry i entry =
      let address = trimmed (to_text (get entry (codes "address")) []) in
      if not (is_object entry)
      then none
      else if is_empty address
      then none
      else some (load_destination i address entry)

  -- The loop over the list, at a place, with the destinations so far.
  unfoldable pub load_destinations : ℕ → ℕ → Items ds.Double → List Destination → List Destination
  load_destinations max_destinations i nil out = out
  load_destinations max_destinations i (cons entry more) out =
      let rest =
        load_destinations max_destinations (i + 1) more (add_found (load_entry i entry) out) in
      if ltb (length out) max_destinations then rest else out

  abbrev pub document_of : Document ds → Json ds.Double
  document_of (value j) = j
  document_of (error e) = null
  document_of stuck = null

  unfoldable pub client_of : ℕ → Bytes → Bytes → Json ds.Double → Client
  unfolding load_destinations clamp
  client_of max_destinations path id document = record {
    id = id;
    path = path;
    interval_us =
        clamp (to_int ds (get document (codes "interval_ms")) (pos 1000)) 100 3600000 * 1000;
    timeout_us = clamp (to_int ds (get document (codes "timeout_ms")) (pos 3000)) 50 60000 * 1000;
    destinations =
        let list = get document (codes "destinations") in
        if not (is_array list) then [] else load_destinations max_destinations 0 (items list) [];
    error = [];
  }

  abbrev loaded_text : ℕ → Bytes → Bytes → Option Bytes → Option Client
  loaded_text max_destinations path id none = none
  loaded_text max_destinations path id (some text) =
      let document = document_of (parse ds text) in
      if not (is_object document) then none else some (client_of max_destinations path id document)

  -- `text` is what readWholeFile gives of the path.
  unfoldable pub load_client_file : ℕ → Bytes → Bytes → Option Bytes → Option Client
  unfolding client_of
  load_client_file max_destinations path id text = loaded_text max_destinations path id text
