-- ===== src/Monitor/Probing/Window.antt =====
-- The number of probes outstanding, and the times at which a prober sends.
use plasma_network_health.Prelude.{
  ℕ, ◌+◌, ◌≤◌, ◌<◌, ◌≡◌, ◌⊎◌, inl, inr, ap, true, false, [], ◌∷◌, ◌++◌, arith, add64, inc32,
  u64_mod, length, length-append,
}
use plasma_network_health.Monitor.State.{Prober, Monitor, Env, k_send_slack_us}
use plasma_network_health.Monitor.Probing.{send_probe, reschedule, is_due, tick_prober}
use plasma_network_health.Monitor.Probing.Frame.{waiting, Attempt, send_probe-Attempt}
use plasma_network_health.Monitor.Probing.Accounting.{
  length-waiting, ready, Ready, ready-Ready, tick_prober-cases, due_at, due-ready,
}

-- What a tick makes of a prober, seen from the prober before it.
pub record Ticked (now : ℕ) (p q : Prober) : Type 0 where
  pub interval_us : q.interval_us ≡ p.interval_us
  pub timeout_us : q.timeout_us ≡ p.timeout_us
  pub max_in_flight : q.max_in_flight ≡ p.max_in_flight
  pub outstanding :
      (q.in_flight ≡ waiting now p.in_flight)
      ⊎ ((q.in_flight
            ≡ waiting now p.in_flight
              ++ record {
                seq = inc32 p.sequence;
                sent_us = now;
                deadline_us = add64 now p.timeout_us;
              }
                ∷ [])
          × (q.sequence ≡ inc32 p.sequence)
          × (length (waiting now p.in_flight) < p.max_in_flight))
  pub sequence : (q.sequence ≡ p.sequence) ⊎ (q.sequence ≡ inc32 p.sequence)

reschedule-kept : (now : ℕ) (p q : Prober) → Ticked now p q → Ticked now p (reschedule now q)
unfolding reschedule
reschedule-kept now p q t = ground (arith, t)

Attempt-Ticked :
    (now : ℕ) (p r q : Prober)
    → Ready now p r
    → is_due now r ≡ true
    → Attempt now r q
    → Ticked now p q
unfolding is_due
Attempt-Ticked now p r q h d (inl o, s, _, _) = record {
  interval_us = ground arith;
  timeout_us = ground arith;
  max_in_flight = ground arith;
  outstanding = inr (ground arith, ground arith, ground (arith, ap length h.in_flight));
  sequence = inr (ground arith);
}
Attempt-Ticked now p r q h d (inr l, s, _, _) = record {
  interval_us = ground arith;
  timeout_us = ground arith;
  max_in_flight = ground arith;
  outstanding = inl (ground arith);
  sequence = ground arith;
}

pub tick_prober-Ticked :
    (env : Env) (now : ℕ) (p : Prober) (m : Monitor) → Ticked now p (tick_prober env now p m).0
tick_prober-Ticked env now p m =
    let r = ready env now p m in
    let h = ready-Ready env now p m in
    elim (tick_prober-cases env now p m) [
      | inl (_, e) ↦ rw e (ground (arith, h))
      | inr (due, e) ↦ rw e (
          reschedule-kept now p (send_probe env r.0 now r.1).0
            (Attempt-Ticked now p r.0 _ h due (send_probe-Attempt env now r.0 r.1)))
    ]

-- If no more probes are outstanding than the prober's limit allows, then a tick leaves no more than
-- that outstanding, and the limit as it is.
pub tick_prober-within :
    (env : Env) (now : ℕ) (p : Prober) (m : Monitor)
    → length p.in_flight ≤ p.max_in_flight
    → let q = (tick_prober env now p m).0 in
      (length q.in_flight ≤ q.max_in_flight) × (q.max_in_flight ≡ p.max_in_flight)
tick_prober-within env now p m h = elim (tick_prober-Ticked env now p m).outstanding [
  | inl e ↦ (
    omega (
      arith,
      ap length e,
      length-waiting now p.in_flight,
      (tick_prober-Ticked env now p m).max_in_flight,
    ),
    (tick_prober-Ticked env now p m).max_in_flight,
  )
  | inr (e, _, room) ↦ (
    omega (
      arith,
      ap length e,
      length-append {0} (waiting now p.in_flight),
      room,
      (tick_prober-Ticked env now p m).max_in_flight,
    ),
    (tick_prober-Ticked env now p m).max_in_flight,
  )
]

reschedule-next_send :
    (now : ℕ) (q : Prober)
    → 0 < q.interval_us
    → q.next_send_us ≤ now + k_send_slack_us
    → now + k_send_slack_us + q.interval_us < u64_mod
    → (now < (reschedule now q).next_send_us)
      × ((reschedule now q).next_send_us ≤ now + k_send_slack_us + q.interval_us)
unfolding reschedule
reschedule-next_send now q h d b = ground arith

-- A tick that finds a probe due moves the next one past `now`, however late it comes, so that lost
-- time is never made up by a burst, and by no more than an interval and the slack; any other tick
-- leaves the time alone.
pub tick_prober-next_send :
    (env : Env) (now : ℕ) (p : Prober) (m : Monitor)
    → 0 < p.interval_us
    → now + k_send_slack_us + p.interval_us < u64_mod
    → let q = (tick_prober env now p m).0 in
      ((due_at now p ≡ true)
        × (now < q.next_send_us)
        × (q.next_send_us ≤ now + k_send_slack_us + p.interval_us))
      ⊎ ((due_at now p ≡ false) × (q.next_send_us ≡ p.next_send_us))
unfolding due_at is_due
tick_prober-next_send env now p m i b =
    let r = ready env now p m in
    let h = ready-Ready env now p m in
    elim (tick_prober-cases env now p m) [
      | inl (n, e) ↦ rw e (inr (ground (arith, due-ready env now p m), ground (arith, h)))
      | inr (due, e) ↦
          let a = send_probe-Attempt env now r.0 r.1 in
          let t =
            reschedule-next_send now (send_probe env r.0 now r.1).0 (ground (arith, a, h))
              (ground (arith, a, h)) (ground (arith, a, h)) in
          rw e (inl (ground (arith, due-ready env now p m), t.0, ground (arith, t, a, h)))
    ]
