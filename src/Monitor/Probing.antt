-- ===== src/Monitor/Probing.antt =====
-- `Monitor::sendProbe` and `Monitor::tick`. A prober is handled apart from the monitor that holds it,
-- as the source's reference to it; nothing on the way looks at the list of probers.
pub mod Frame
pub mod Accounting
pub mod Window
pub mod Order
pub mod Spinning
pub mod Lost
use plasma_network_health.Prelude.{
  ℕ, ◌+◌, Bool, true, false, not, ◌&&◌, ◌||◌, List, [], ◌∷◌, ◌++◌, Option, none, some, Bytes, codes,
  ltb, leb, ◌==◌, if◌then◌else◌, bytes_eq, is_empty, length, add64, inc32,
}
use plasma_network_health.Pinger.Endpoint.{
  af_inet6, Endpoint, valid, SendResult, sent, unreachable, failed,
}
use plasma_network_health.Pinger.Socket.{IcmpSocket, send}
use plasma_network_health.Resolver.{request}
use plasma_network_health.Monitor.State.{InFlight, Prober, Monitor, Env, k_send_slack_us}
use plasma_network_health.Monitor.Sampling.{apply_sample}

abbrev pub socket_for : Endpoint → Monitor → IcmpSocket
socket_for e m = if e.family == af_inet6 then m.socket6 else m.socket4

abbrev text_of : Option Bytes → Bytes
text_of none = []
text_of (some why) = why

abbrev pub unresolved : Bytes
unresolved = codes "unresolved address"

-- The error that a prober shows when it has no address or no socket.
unfoldable pub blocked_error : Prober → Monitor → Bytes
blocked_error p m =
    if not (valid p.endpoint) && is_empty p.last_error
    then unresolved
    else if not (socket_for p.endpoint m).is_open
    then (if p.endpoint.family == af_inet6 then m.error6 else m.error4)
    else p.last_error

-- The three cases of the result, after the sequence has been counted.
unfoldable pub after_send :
    Env → ℕ → Prober → Monitor → SendResult × Option Bytes → Prober × Monitor
after_send env now p m (sent, why) = (
  record p {
    in_flight =
        p.in_flight
        ++ record { seq = p.sequence; sent_us = now; deadline_us = add64 now p.timeout_us } ∷ [];
    last_error = if bytes_eq p.last_error unresolved then [] else p.last_error;
  },
  m,
)
after_send env now p m (unreachable, why) =
    apply_sample env (record p { last_error = text_of why }) false 0 m
after_send env now p m (failed, why) =
    apply_sample env (record p { last_error = text_of why }) false 0 m

unfoldable pub send_probe : Env → Prober → ℕ → Monitor → Prober × Monitor
unfolding after_send blocked_error
send_probe env p now m =
    let socket = socket_for p.endpoint m in
    let counted = record p { sequence = inc32 p.sequence } in
    if not (valid p.endpoint) || not socket.is_open
    then apply_sample env (record p { last_error = blocked_error p m }) false 0 m
    else after_send env now counted m
        (send env.strerror env.sendto socket p.endpoint p.uid counted.sequence now m.cookie)

-- The loop over the probes that have waited long enough, oldest first.
unfoldable pub expire : Env → ℕ → List InFlight → Prober → Monitor → Prober × Monitor
expire env now [] p m = (record p { in_flight = [] }, m)
expire env now (f ∷ rest) p m =
    let (q, n) =
      apply_sample env (record p { in_flight = rest; last_error = codes "timeout" }) false 0 m in
    let later = expire env now rest q n in
    if leb f.deadline_us (add64 now k_send_slack_us)
    then later
    else (record p { in_flight = f ∷ rest }, m)

unfoldable pub ask_resolver : ℕ → Prober → Monitor → Prober × Monitor
ask_resolver now p m =
    if not p.numeric && not p.resolving && leb p.next_resolve_us (add64 now k_send_slack_us)
    then (record p { resolving = true }, record m { resolver = request p.uid p.host m.resolver })
    else (p, m)

-- The time of the next probe, resynchronised if it has already passed.
unfoldable pub reschedule : ℕ → Prober → Prober
reschedule now p =
    let next = add64 p.next_send_us p.interval_us in
    record p { next_send_us = if leb next now then add64 now p.interval_us else next }

unfoldable pub is_due : ℕ → Prober → Bool
is_due now p =
    ltb (length p.in_flight) p.max_in_flight && leb p.next_send_us (add64 now k_send_slack_us)

unfoldable pub send_if_due : Env → ℕ → Prober → Monitor → Prober × Monitor
unfolding is_due reschedule
send_if_due env now p m =
    let (q, n) = send_probe env p now m in if is_due now p then (reschedule now q, n) else (p, m)

unfoldable pub tick_prober : Env → ℕ → Prober → Monitor → Prober × Monitor
tick_prober env now p m =
    let (p1, m1) = expire env now p.in_flight p m in
    let (p2, m2) = ask_resolver now p1 m1 in send_if_due env now p2 m2

unfoldable pub tick_probers : Env → ℕ → List Prober → Monitor → List Prober × Monitor
tick_probers env now [] m = ([], m)
tick_probers env now (p ∷ ps) m =
    let (q, n) = tick_prober env now p m in
    let (qs, last) = tick_probers env now ps n in (q ∷ qs, last)

unfoldable pub tick : Env → ℕ → Monitor → Monitor
unfolding tick_probers
tick env now m =
    let (probers, n) = tick_probers env now m.probers m in record n { probers = probers }
