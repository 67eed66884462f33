-- ===== src/Monitor/Replies.antt =====
-- `Monitor::handleReplies`: the replies drained from both sockets, each matched to its prober by the
-- identifier that it carries and to an outstanding probe by its sequence.
pub mod Once
pub mod GivenUp
pub mod Routing
use plasma_network_health.Prelude.{
  ℕ, ◌-◌, Bool, true, false, not, ◌||◌, List, [], ◌∷◌, ◌++◌, Option, none, some, ltb, ◌==◌,
  if◌then◌else◌, get_elem?, set,
}
use plasma_network_health.Pinger.Endpoint.{Reply, matches}
use plasma_network_health.Pinger.Socket.{ReceiveCalls, receive}
use plasma_network_health.Monitor.State.{InFlight, Prober, Monitor, Env}
use plasma_network_health.Monitor.Sampling.{apply_sample}

-- A lookup in `prober_by_uid`.
unfoldable pub find_uid : ℕ → List (ℕ × ℕ) → Option ℕ
find_uid uid [] = none
find_uid uid ((u, i) ∷ rest) = if u == uid then some i else find_uid uid rest

unfoldable pub has_seq : ℕ → List InFlight → Bool
has_seq seq [] = false
has_seq seq (f ∷ fs) = f.seq == seq || has_seq seq fs

-- The outstanding probes without the first that has the sequence.
unfoldable pub erase_seq : ℕ → List InFlight → List InFlight
erase_seq seq [] = []
erase_seq seq (f ∷ fs) = if f.seq == seq then fs else f ∷ erase_seq seq fs

unfoldable pub accepts : Prober → Reply → Bool
accepts p reply =
    if not (has_seq reply.seq p.in_flight)
    then false
    else matches p.endpoint reply.from reply.from_len

abbrev pub rtt_of : ℕ → Reply → ℕ
rtt_of now reply = if ltb reply.sent_us now then now - reply.sent_us else 0

unfoldable pub answer : Env → ℕ → Reply → Prober → Monitor → Prober × Monitor
unfolding accepts
answer env now reply p m =
    let answered = record p { in_flight = erase_seq reply.seq p.in_flight; last_error = [] } in
    if accepts p reply then apply_sample env answered true (rtt_of now reply) m else (p, m)

-- An index in the map is always that of a prober.
answer_at : Env → ℕ → Reply → ℕ → Option Prober → Monitor → Monitor
answer_at env now reply i none m = m
answer_at env now reply i (some p) m =
    let (q, n) = answer env now reply p m in record n { probers = set n.probers i q }

answer_found : Env → ℕ → Reply → Option ℕ → Monitor → Monitor
answer_found env now reply none m = m
answer_found env now reply (some i) m = answer_at env now reply i (get_elem? m.probers i) m

unfoldable pub handle_reply : Env → ℕ → Reply → Monitor → Monitor
unfolding answer_found answer_at
handle_reply env now reply m = answer_found env now reply (find_uid reply.uid m.prober_by_uid) m

unfoldable pub handle_each : Env → ℕ → List Reply → Monitor → Monitor
handle_each env now [] m = m
handle_each env now (r ∷ rs) m = handle_each env now rs (handle_reply env now r m)

unfoldable pub handle_replies : Env → ℕ → ReceiveCalls → ReceiveCalls → Monitor → Monitor
unfolding handle_each
handle_replies env now calls4 calls6 m =
    handle_each env now (receive m.socket6 m.cookie calls6 (receive m.socket4 m.cookie calls4 [])) m
