-- ===== src/Published.antt =====
-- `Monitor::buildStateJson` (daemon/src/monitor.cpp) and the texts that `publish` writes.
pub mod Payload
use plasma_network_health.Prelude.{
  ℕ, ◌/◌, Bool, true, false, List, [], ◌∷◌, ◌++◌, Option, none, some, Bytes, codes, ltb, ◌==◌,
  if◌then◌else◌, length, get_elem?, sub64, pos,
}
use plasma_network_health.Util.Decimal.{to_string}
use plasma_network_health.Util.Base64.{base64_encode}
use plasma_network_health.Json.Double.{Doubles}
use plasma_network_health.Json.Value.{
  Json, boolean, number, string, array, object, Items, nil, cons, end, set_key,
}
use plasma_network_health.Json.Write.{dump}
use plasma_network_health.Health.{Destination, health_state_name, reported_state}
use plasma_network_health.Health.Overall.{no_counts, shown, count_destinations, overall}
use plasma_network_health.Pinger.Endpoint.{af_inet6, valid}
use plasma_network_health.Pinger.Socket.{IcmpSocket}
use plasma_network_health.Monitor.State.{Client, Prober, Monitor}

-- The prober at the destination's index, if the index is in range.
abbrev pub prober_at : List Prober → Option ℕ → Option Prober
prober_at probers none = none
prober_at probers (some i) = get_elem? probers i

abbrev resolved_text : Option Prober → Bytes
resolved_text none = []
resolved_text (some p) = if valid p.endpoint then p.endpoint.text else []

abbrev error_of : Option Prober → Bytes
error_of none = []
error_of (some p) = p.last_error

abbrev family_of : Option Prober → ℕ
family_of none = 0
family_of (some p) =
    if valid p.endpoint then (if p.endpoint.family == af_inet6 then 6 else 4) else 0

abbrev in_flight_of : Option Prober → ℕ
in_flight_of none = 0
in_flight_of (some p) = length p.in_flight

-- `percent a b` is `100.0 * double(a) / double(b)`.
module _ (ds : Doubles) (percent : ℕ → ℕ → ds.Double) where
  abbrev pub Value : Type 0
  Value = Json ds.Double

  abbrev pub amount : ℕ → Value
  amount n = number (ds.of_ℤ (pos n))

  -- A chain of calls of `set`.
  unfoldable pub with_fields : List (Bytes × Value) → Value → Value
  unfolding set_key
  with_fields [] j = j
  with_fields ((key, v) ∷ fields) j = with_fields fields (set_key key v j)

  abbrev pub new_object : Value
  new_object = object end

  unfoldable pub socket_json : IcmpSocket → Bytes → Value
  unfolding with_fields
  socket_json socket error =
      with_fields
        ((codes "available", boolean socket.is_open)
          ∷ (codes "raw", boolean socket.is_raw)
          ∷ (codes "error", string error)
          ∷ [])
        new_object

  abbrev loss_percent : Destination → ds.Double
  loss_percent d =
      if ltb 0 d.sent then percent (sub64 d.sent d.received) d.sent else ds.of_ℤ (pos 0)

  unfoldable pub shown_fields : Destination → Option Prober → List (Bytes × Value)
  unfolding shown
  shown_fields d p =
      (codes "id", string d.id)
      ∷ (codes "state", string (health_state_name (shown d)))
      ∷ (codes "resolved", string (resolved_text p))
      ∷ (codes "have_rtt", boolean d.have_rtt)
      ∷ (codes "rtt_us", amount d.rtt_us)
      ∷ (codes "sent", amount d.sent)
      ∷ (codes "received", amount d.received)
      ∷ (codes "loss_percent", number (loss_percent d))
      ∷ (codes "error", string (error_of p))
      ∷ []

  unfoldable pub verbose_fields : Destination → Option Prober → List (Bytes × Value)
  verbose_fields d p =
      (codes "name", string d.name)
      ∷ (codes "address", string d.address)
      ∷ (codes "family", amount (family_of p))
      ∷ (codes "enabled", boolean d.enabled)
      ∷ (codes "part_time", boolean d.part_time)
      ∷ (codes "order", number (ds.of_ℤ d.order))
      ∷ (codes "threshold_us", amount d.threshold_us)
      ∷ (codes "sensitivity", amount d.sensitivity)
      ∷ (codes "candidate", string (health_state_name (reported_state d.candidate d.part_time)))
      ∷ (codes "candidate_streak", amount d.candidate_streak)
      ∷ (codes "in_flight", amount (in_flight_of p))
      ∷ (codes "last_reply_us", amount d.last_reply_real_us)
      ∷ (codes "last_change_us", amount d.last_change_real_us)
      ∷ []

  abbrev if_verbose : Bool → List (Bytes × Value) → List (Bytes × Value)
  if_verbose verbose fields = if verbose then fields else []

  unfoldable pub destination_json : Bool → List Prober → Destination → Value
  unfolding shown_fields verbose_fields
  destination_json verbose probers d =
      let p = prober_at probers d.prober in
      with_fields (shown_fields d p ++ if_verbose verbose (verbose_fields d p)) new_object

  unfoldable pub destination_items : Bool → List Prober → List Destination → Items ds.Double
  unfolding destination_json
  destination_items verbose probers [] = nil
  destination_items verbose probers (d ∷ dests) =
      cons (destination_json verbose probers d) (destination_items verbose probers dests)

  unfoldable pub counts_json : List Destination → Value
  counts_json dests =
      let c = count_destinations dests no_counts in
      with_fields
        ((codes "enabled", amount c.enabled)
          ∷ (codes "good", amount c.good_count)
          ∷ (codes "warn", amount c.warn_count)
          ∷ (codes "bad", amount c.bad_count)
          ∷ (codes "offline", amount c.offline_count)
          ∷ (codes "unknown", amount c.unknown_count)
          ∷ (codes "total", amount (length dests))
          ∷ [])
        new_object

  unfoldable pub client_json : Bool → List Prober → Client → Value
  unfolding counts_json destination_items
  client_json verbose probers c =
      with_fields
        ((codes "overall", string (overall c.destinations))
          ∷ (codes "counts", counts_json c.destinations)
          ∷ (if_verbose verbose (
                (codes "interval_ms", amount (c.interval_us / 1000))
                ∷ (codes "timeout_ms", amount (c.timeout_us / 1000))
                ∷ [])
              ++ ((codes "destinations", array (destination_items verbose probers c.destinations))
                  ∷ [])))
        new_object

  -- The loop over the clients, with `clients` so far.
  unfoldable pub clients_json : Bool → List Prober → List Client → Value → Value
  unfolding client_json
  clients_json verbose probers [] out = out
  clients_json verbose probers (c ∷ cs) out =
      clients_json verbose probers cs (set_key c.id (client_json verbose probers c) out)

  -- `now` is the argument, `pid` and `timestamp_us` what getpid and the wall clock answer.
  unfoldable pub build_state_json : ℕ → ℕ → ℕ → Bool → Monitor → Value
  unfolding socket_json clients_json
  build_state_json pid timestamp_us now verbose m =
      let engine =
        with_fields
          ((codes "ipv4", socket_json m.socket4 m.error4)
            ∷ (codes "ipv6", socket_json m.socket6 m.error6)
            ∷ [])
          new_object in
      with_fields
        ((codes "version", amount 1)
          ∷ (codes "generation", amount m.generation)
          ∷ (codes "pid", amount pid)
          ∷ (codes "timestamp_us", amount timestamp_us)
          ∷ (codes "probers", amount (length m.probers))
          ∷ (codes "engine", engine)
          ∷ (if_verbose verbose (
                (codes "started_us", amount m.started_real_us)
                ∷ (codes "uptime_us", amount now)
                ∷ [])
              ++ ((codes "clients", clients_json verbose m.probers m.clients new_object) ∷ [])))
        new_object

  unfoldable pub payload : ℕ → ℕ → ℕ → Monitor → Bytes
  unfolding build_state_json
  payload pid timestamp_us now m =
      base64_encode (dump ds none true (build_state_json pid timestamp_us now false m))

  -- The text of state.ini; `m` has the new generation already.
  unfoldable pub ini_text : ℕ → ℕ → ℕ → Monitor → Bytes
  unfolding payload
  ini_text pid timestamp_us now m =
      codes "[State]\n"
      ++ ((codes "generation=" ++ (to_string m.generation ++ codes "\n"))
          ++ (codes "payload=" ++ (payload pid timestamp_us now m ++ codes "\n")))

  -- The text of state.json.
  unfoldable pub readable_text : ℕ → ℕ → ℕ → Monitor → Bytes
  readable_text pid timestamp_us now m =
      dump ds (some 2) false (build_state_json pid timestamp_us now true m)
