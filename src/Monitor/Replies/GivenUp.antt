-- ===== src/Monitor/Replies/GivenUp.antt =====
-- A reply to a probe that has been given up is ignored.
use plasma_network_health.Prelude.{
  ℕ, ◌+◌, ◌≤◌, ◌<◌, ◌≡◌, inl, inr, false, List, [], ◌∷◌, ◌++◌, arith, add64, inc32, u32_mod,
  u64_mod, length, In, head, later,
}
use plasma_network_health.Pinger.Endpoint.{Reply}
use plasma_network_health.Monitor.State.{InFlight, Prober, Monitor, Env, k_send_slack_us}
use plasma_network_health.Monitor.Probing.{tick_prober}
use plasma_network_health.Monitor.Probing.Frame.{waiting}
use plasma_network_health.Monitor.Probing.Window.{tick_prober-Ticked}
use plasma_network_health.Monitor.Probing.Order.{Ascending, InOrder}
use plasma_network_health.Monitor.Probing.Lost.{over, over-In, CountsLost, tick_prober-CountsLost}
use plasma_network_health.Monitor.Replies.{has_seq, accepts}
use plasma_network_health.Monitor.Replies.Once.{Numbered, has_seq-below, waiting-Numbered}

Ascending-In :
    {f : InFlight} (low : ℕ) {fs : List InFlight} → Ascending low fs → In f fs → low ≤ f.deadline_us
Ascending-In low a head = a.0
Ascending-In low a (later {x = g} i) = omega (arith, Ascending-In g.deadline_us a.1 i)

Numbered-le : (low last : ℕ) (fs : List InFlight) → Numbered low fs last → low ≤ last
Numbered-le low last [] n = n
Numbered-le low last (g ∷ fs) n = omega (arith, Numbered-le g.seq last fs n.1, n.0)

Numbered-In :
    {f : InFlight} (low last : ℕ) {fs : List InFlight}
    → Numbered low fs last
    → In f fs
    → f.seq ≤ last
Numbered-In {f} low last n (head {xs = fs}) = Numbered-le f.seq last fs n.1
Numbered-In low last n (later {x = g} i) = Numbered-In g.seq last n.1 i

has_seq-waiting :
    {f : InFlight} (now low from last : ℕ) {fs : List InFlight}
    → In f fs
    → Ascending low fs
    → Numbered from fs last
    → f.deadline_us ≤ now + k_send_slack_us
    → now + k_send_slack_us < u64_mod
    → has_seq f.seq (waiting now fs) ≡ false
unfolding waiting
has_seq-waiting {f} now low from last (head {xs = fs}) a n h b = ground (
  arith,
  has_seq-below f.seq f.seq last (waiting now fs) (omega arith)
      (waiting-Numbered now f.seq last fs n.1),
)
has_seq-waiting {f} now low from last (later {x = g} {xs = fs} i) a n h b = ground (
  arith,
  Ascending-In g.deadline_us a.1 i,
  has_seq-waiting now g.deadline_us g.seq last i a.1 n.1 h b,
)

has_seq-concat :
    (s : ℕ) (fs : List InFlight) (g : InFlight)
    → has_seq s fs ≡ false
    → s < g.seq
    → has_seq s (fs ++ g ∷ []) ≡ false
unfolding has_seq
has_seq-concat s [] g h k = ground arith
has_seq-concat s (f ∷ fs) g h k = ground (arith, has_seq-concat s fs g)

given_up_ignored :
    (env : Env) (t now : ℕ) (p : Prober) (m : Monitor) (f : InFlight) (reply : Reply)
    → InOrder t p
    → Numbered 0 p.in_flight p.sequence
    → In f p.in_flight
    → f.deadline_us ≤ now + k_send_slack_us
    → now + k_send_slack_us < u64_mod
    → p.sequence + 1 < u32_mod
    → reply.seq ≡ f.seq
    → accepts (tick_prober env now p m).0 reply ≡ false
unfolding accepts
given_up_ignored env t now p m f reply o n i h b c e =
    let gone = has_seq-waiting now 0 0 p.sequence i o.ascending n h b in
    let new : InFlight = record {
      seq = inc32 p.sequence;
      sent_us = now;
      deadline_us = add64 now p.timeout_us;
    } in
    let old = Numbered-In 0 p.sequence n i in
    elim (tick_prober-Ticked env now p m).outstanding [
      | inl k ↦ rw (k, e) (ground (arith, gone))
      | inr (k, _, _) ↦
          rw (k, e, has_seq-concat f.seq (waiting now p.in_flight) new gone (omega (arith, old)))
    ]

-- Once a tick has given a probe up, at a time when its wait is over but for the slack, the prober that
-- it leaves accepts no reply to that probe, and every probe whose wait was over, this one among them,
-- has been counted as sent and not as received. The outstanding probes are in the order of their
-- deadlines and numbered upwards to the prober's sequence, and no time, sequence or counter wraps.
pub given_up_not_answered :
    (env : Env) (t now : ℕ) (p : Prober) (m : Monitor) (f : InFlight) (reply : Reply)
    → InOrder t p
    → Numbered 0 p.in_flight p.sequence
    → In f p.in_flight
    → f.deadline_us ≤ now + k_send_slack_us
    → now + k_send_slack_us < u64_mod
    → p.sequence + 1 < u32_mod
    → p.sent + length p.in_flight + 1 < u64_mod
    → reply.seq ≡ f.seq
    → let q = (tick_prober env now p m).0 in
      (accepts q reply ≡ false)
      × CountsLost (now + k_send_slack_us) p q
      × (1 ≤ over (now + k_send_slack_us) p.in_flight)
given_up_not_answered env t now p m f reply o n i h b c room e = (
  given_up_ignored env t now p m f reply o n i h b c e,
  tick_prober-CountsLost env now p m o.ascending b room,
  over-In (now + k_send_slack_us) i h,
)
