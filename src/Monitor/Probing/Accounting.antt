-- ===== src/Monitor/Probing/Accounting.antt =====
-- A tick accounts for every probe: none is forgotten and none is counted twice.
use plasma_network_health.Prelude.{
  ℕ, ◌+◌, ◌≤◌, ◌<◌, ◌≡◌, refl, ◌⊎◌, inl, inr, ap, Bool, true, false, List, [], ◌∷◌, arith, codes,
  if◌then◌else◌, add64, u64_mod, length, length-append,
}
use plasma_network_health.Monitor.State.{InFlight, Prober, Monitor, Env}
use plasma_network_health.Monitor.Sampling.{apply_sample}
use plasma_network_health.Monitor.Probing.{
  expire, ask_resolver, send_probe, reschedule, is_due, send_if_due, tick_prober,
}
use plasma_network_health.Monitor.Probing.Frame.{
  Same, waiting, expire-Expired, expire-in_flight, Attempt, send_probe-Attempt, ask_resolver-Kept,
}

pub length-waiting : (now : ℕ) (fs : List InFlight) → length (waiting now fs) ≤ length fs
unfolding waiting
length-waiting now [] = omega arith
length-waiting now (f ∷ fs) = ground (arith, length-waiting now fs)

lost-sent :
    (env : Env) (p : Prober) (m : Monitor) → (apply_sample env p false 0 m).0.sent ≡ add64 p.sent 1
unfolding apply_sample
lost-sent env p m = refl

expire-sent :
    (env : Env) (now : ℕ) (fs : List InFlight) (p : Prober) (m : Monitor)
    → p.sent + length fs < u64_mod
    → (expire env now fs p m).0.sent + length (waiting now fs) ≡ p.sent + length fs
unfolding expire waiting
expire-sent env now [] p m b = omega arith
expire-sent env now (f ∷ rest) p m b =
    let q = record p { in_flight = rest; last_error = codes "timeout" } in
    let lost = apply_sample env q false 0 m in
    ground (arith, lost-sent env q m, expire-sent env now rest lost.0 lost.1)

-- The prober when the time comes to look whether a probe is due.
pub ready : Env → ℕ → Prober → Monitor → Prober × Monitor
ready env now p m = let (q, n) = expire env now p.in_flight p m in ask_resolver now q n

pub record Ready (now : ℕ) (p q : Prober) : Type 0 where
  pub same : Same p q
  pub in_flight : q.in_flight ≡ waiting now p.in_flight
  pub next_send_us : q.next_send_us ≡ p.next_send_us
  pub sequence : q.sequence ≡ p.sequence

pub ready-Ready :
    (env : Env) (now : ℕ) (p : Prober) (m : Monitor) → Ready now p (ready env now p m).0
unfolding ready
ready-Ready env now p m =
    let e = expire env now p.in_flight p m in
    ground (
      arith,
      expire-Expired env now p.in_flight p m,
      expire-in_flight env now p.in_flight p m,
      ask_resolver-Kept now e.0 e.1,
    )

ready-sent :
    (env : Env) (now : ℕ) (p : Prober) (m : Monitor)
    → p.sent + length p.in_flight < u64_mod
    → (ready env now p m).0.sent + length (waiting now p.in_flight) ≡ p.sent + length p.in_flight
unfolding ready
ready-sent env now p m b =
    let e = expire env now p.in_flight p m in
    omega (arith, expire-sent env now p.in_flight p m b, ask_resolver-Kept now e.0 e.1)

-- A tick in terms of the prober that is ready: untouched, or one attempt and a new time.
pub tick_prober-cases :
    (env : Env) (now : ℕ) (p : Prober) (m : Monitor)
    → let r = ready env now p m in
      ((is_due now r.0 ≡ false) × (tick_prober env now p m ≡ r))
      ⊎ ((is_due now r.0 ≡ true)
          × ((tick_prober env now p m).0 ≡ reschedule now (send_probe env r.0 now r.1).0))
unfolding tick_prober send_if_due ready
tick_prober-cases env now p m = ground arith

reschedule-counts :
    (now : ℕ) (q : Prober)
    → ((reschedule now q).sent ≡ q.sent) × ((reschedule now q).in_flight ≡ q.in_flight)
unfolding reschedule
reschedule-counts now q = (refl, refl)

Attempt-counts :
    (now : ℕ) (p q : Prober)
    → Attempt now p q
    → p.sent + 1 < u64_mod
    → q.sent + length q.in_flight ≡ p.sent + length p.in_flight + 1
Attempt-counts now p q (inl o, _, _, _) b =
    omega (arith, ap length o.in_flight, length-append {0} p.in_flight, o.sent)
Attempt-counts now p q (inr l, _, _, _) b = ground (arith, l)

-- The prober as `is_due` sees it after the expiry.
unfoldable pub due_at : ℕ → Prober → Bool
due_at now p = is_due now (record p { in_flight = waiting now p.in_flight })

pub due-ready :
    (env : Env) (now : ℕ) (p : Prober) (m : Monitor)
    → is_due now (ready env now p m).0 ≡ due_at now p
unfolding is_due due_at
due-ready env now p m = ground (arith, ready-Ready env now p m)

-- A tick accounts for every probe: the samples counted and the probes outstanding are together what
-- they were, and one more if a probe was due.
pub tick_prober_accounts :
    (env : Env) (now : ℕ) (p : Prober) (m : Monitor)
    → p.sent + length p.in_flight + 1 < u64_mod
    → let q = (tick_prober env now p m).0 in
      q.sent + length q.in_flight ≡ p.sent + length p.in_flight + (if due_at now p then 1 else 0)
tick_prober_accounts env now p m b =
    let r = ready env now p m in
    let before : r.0.sent + length r.0.in_flight ≡ p.sent + length p.in_flight =
      ground (arith, ready-sent env now p m, ap length (ready-Ready env now p m).in_flight) in
    elim (tick_prober-cases env now p m) [
      | inl (no_probe, e) ↦ rw (e, ← due-ready env now p m, no_probe) (omega (arith, before))
      | inr (due, e) ↦
          let a = send_probe env r.0 now r.1 in
          rw (e, ← due-ready env now p m, due)
            (omega (
              arith,
              before,
              reschedule-counts now a.0,
              ap length (reschedule-counts now a.0).1,
              Attempt-counts now r.0 a.0 (send_probe-Attempt env now r.0 r.1),
            ))
    ]
