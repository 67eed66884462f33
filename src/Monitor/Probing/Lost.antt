-- ===== src/Monitor/Probing/Lost.antt =====
-- The probes that a tick gives up are counted as lost.
use plasma_network_health.Prelude.{
  ℕ, ◌+◌, ◌≤◌, ◌<◌, ◌≡◌, refl, sym, ◌∙◌, ◌||◌, not, inl, inr, ap, true, false, List, [], ◌∷◌, arith,
  codes, Option, Bytes, leb, if◌then◌else◌, if-cases, Bool-cases, add64, inc32, u64_mod, length,
  length-append, In, head, later,
}
use plasma_network_health.Pinger.Endpoint.{valid, SendResult, sent, unreachable, failed}
use plasma_network_health.Monitor.State.{InFlight, Prober, Monitor, Env, k_send_slack_us}
use plasma_network_health.Monitor.Sampling.{apply_sample}
use plasma_network_health.Monitor.Probing.{
  socket_for, expire, ask_resolver, after_send, send_probe, send_if_due, reschedule, is_due,
  tick_prober,
}
use plasma_network_health.Monitor.Probing.Frame.{waiting}
use plasma_network_health.Monitor.Probing.Accounting.{
  ready-Ready, due_at, due-ready, tick_prober-cases, tick_prober_accounts,
}
use plasma_network_health.Monitor.Probing.Window.{tick_prober-Ticked}
use plasma_network_health.Monitor.Probing.Order.{
  Ascending, AllAfter, Ascending-AllAfter, InOrder, tick_prober-InOrder,
}

-- How many of the probes have a deadline that is at most `limit`.
pub over : ℕ → List InFlight → ℕ
over limit [] = 0
over limit (f ∷ fs) = (if leb f.deadline_us limit then 1 else 0) + over limit fs

over-AllAfter : (limit : ℕ) (fs : List InFlight) → AllAfter limit fs → over limit fs ≡ 0
unfolding over
over-AllAfter limit [] h = refl
over-AllAfter limit (f ∷ fs) h = ground (arith, h.0, over-AllAfter limit fs h.1)

over-waiting :
    (now low : ℕ) (fs : List InFlight)
    → Ascending low fs
    → now + k_send_slack_us < u64_mod
    → over (now + k_send_slack_us) fs + length (waiting now fs) ≡ length fs
unfolding over waiting
over-waiting now low [] a b = refl
over-waiting now low (f ∷ fs) a b = elim (Bool-cases (leb f.deadline_us (now + k_send_slack_us))) [
  | inl e ↦ ground (arith, e, over-waiting now f.deadline_us fs a.1 b)
  | inr e ↦ ground (
    arith,
    e,
    over-AllAfter (now + k_send_slack_us) fs
        (Ascending-AllAfter (now + k_send_slack_us) fs (ground arith) a.1),
  )
]

pub over-In :
    {f : InFlight} (limit : ℕ) {fs : List InFlight}
    → In f fs
    → f.deadline_us ≤ limit
    → 1 ≤ over limit fs
unfolding over
over-In limit (head {xs = fs}) h = ground arith
over-In limit (later {x = g} {xs = fs} i) h = ground (arith, over-In limit i h)

expire-received :
    (env : Env) (now : ℕ) (fs : List InFlight) (p : Prober) (m : Monitor)
    → (expire env now fs p m).0.received ≡ p.received
unfolding expire apply_sample
expire-received env now [] p m = refl
expire-received env now (f ∷ rest) p m =
    let lost =
      apply_sample env (record p { in_flight = rest; last_error = codes "timeout" }) false 0 m in
    ground (arith, expire-received env now rest lost.0 lost.1)

after_send-received :
    (env : Env) (now : ℕ) (p : Prober) (m : Monitor) (r : SendResult × Option Bytes)
    → (after_send env now p m r).0.received ≡ p.received
unfolding after_send apply_sample
after_send-received env now p m (sent, why) = refl
after_send-received env now p m (unreachable, why) = refl
after_send-received env now p m (failed, why) = refl

send_probe-received :
    (env : Env) (p : Prober) (now : ℕ) (m : Monitor)
    → (send_probe env p now m).0.received ≡ p.received
unfolding send_probe apply_sample
send_probe-received env p now m =
    if-cases (λ (r : Prober × Monitor). r.0.received ≡ p.received)
      (not (valid p.endpoint) || not (socket_for p.endpoint m).is_open) _ _ (λ h. refl)
      (λ h. after_send-received env now _ m _)

send_if_due-received :
    (env : Env) (now : ℕ) (p : Prober) (m : Monitor)
    → (send_if_due env now p m).0.received ≡ p.received
unfolding send_if_due reschedule
send_if_due-received env now p m =
    if-cases (λ (r : Prober × Monitor). r.0.received ≡ p.received) (is_due now p) _ _
      (λ h. send_probe-received env p now m) (λ h. refl)

ask_resolver-received :
    (now : ℕ) (p : Prober) (m : Monitor) → (ask_resolver now p m).0.received ≡ p.received
unfolding ask_resolver
ask_resolver-received now p m = ground arith

tick_prober-received :
    (env : Env) (now : ℕ) (p : Prober) (m : Monitor)
    → (tick_prober env now p m).0.received ≡ p.received
unfolding tick_prober
tick_prober-received env now p m =
    let gone = expire env now p.in_flight p m in
    let asked = ask_resolver now gone.0 gone.1 in
    send_if_due-received env now asked.0 asked.1
    ∙ ask_resolver-received now gone.0 gone.1
    ∙ expire-received env now p.in_flight p m

-- Each probe that is over has been counted as sent and not as received, and besides at most the one
-- that could not be sent at all.
pub record CountsLost (limit : ℕ) (p q : Prober) : Type 0 where
  pub least : p.sent + over limit p.in_flight ≤ q.sent
  pub most : q.sent ≤ p.sent + over limit p.in_flight + 1
  pub received : q.received ≡ p.received

pub tick_prober-CountsLost :
    (env : Env) (now : ℕ) (p : Prober) (m : Monitor)
    → Ascending 0 p.in_flight
    → now + k_send_slack_us < u64_mod
    → p.sent + length p.in_flight + 1 < u64_mod
    → CountsLost (now + k_send_slack_us) p (tick_prober env now p m).0
tick_prober-CountsLost env now p m a b room =
    let accounts = tick_prober_accounts env now p m room in
    let gone = over-waiting now 0 p.in_flight a b in
    let counted : (p.sent + over (now + k_send_slack_us) p.in_flight
          ≤ (tick_prober env now p m).0.sent)
        × ((tick_prober env now p m).0.sent
            ≤ p.sent + over (now + k_send_slack_us) p.in_flight + 1) =
      elim (tick_prober-cases env now p m) [
        | inl (no_probe, e) ↦
            let none_due : due_at now p ≡ false = sym (due-ready env now p m) ∙ no_probe in
            let same = ap (λ (r : Prober × Monitor). length r.0.in_flight) e in
            let kept = ap length (ready-Ready env now p m).in_flight in
            ground (arith, accounts, gone, none_due, same, kept)
        | inr (due, e) ↦
            let is_due : due_at now p ≡ true = sym (due-ready env now p m) ∙ due in
            elim (tick_prober-Ticked env now p m).outstanding [
              | inl k ↦ let l = ap length k in ground (arith, accounts, gone, is_due, l)
              | inr (k, _, _) ↦
                  let l = ap length k in
                  let s = length-append {0} (waiting now p.in_flight) (
                    record {
                      seq = inc32 p.sequence;
                      sent_us = now;
                      deadline_us = add64 now p.timeout_us;
                    }
                    ∷ []) in
                  ground (arith, accounts, gone, is_due, l, s)
            ]
      ] in
    record { least = counted.0; most = counted.1; received = tick_prober-received env now p m }

-- After a tick at a time that is not before the earlier sends, the outstanding probes are again in
-- order and every one of them is still within its wait. Each probe whose wait was over, but for the
-- slack, has been counted as sent and not as received, and besides these at most one probe that could
-- not be sent. The prober's wait is longer than the slack, and no time and no counter wraps.
pub tick_prober_gives_up :
    (env : Env) (t now : ℕ) (p : Prober) (m : Monitor)
    → InOrder t p
    → t ≤ now
    → k_send_slack_us < p.timeout_us
    → now + k_send_slack_us + p.timeout_us < u64_mod
    → p.sent + length p.in_flight + 1 < u64_mod
    → let q = (tick_prober env now p m).0 in
      InOrder now q
      × AllAfter (now + k_send_slack_us) q.in_flight
      × CountsLost (now + k_send_slack_us) p q
tick_prober_gives_up env t now p m o h s b room =
    let order = tick_prober-InOrder env t now p m o h s b in
    (order.0, order.1, tick_prober-CountsLost env now p m o.ascending (omega (arith, b)) room)
