-- ===== src/Monitor/Probing/Order.antt =====
-- Outstanding probes stand in the order of their deadlines, so that the loop over the front of the
-- queue finds every one that is over.
use plasma_network_health.Prelude.{
  ℕ, ◌+◌, ◌≤◌, ◌<◌, ◌≡◌, inl, inr, List, [], ◌∷◌, ◌++◌, arith, leb, add64, u64_mod, All, All-append,
  Bool-cases, inc32,
}
use plasma_network_health.Monitor.State.{InFlight, Prober, Monitor, Env, k_send_slack_us}
use plasma_network_health.Monitor.Probing.{tick_prober}
use plasma_network_health.Monitor.Probing.Frame.{waiting}
use plasma_network_health.Monitor.Probing.Window.{Ticked, tick_prober-Ticked}

-- The deadlines ascend from `low`.
abbrev pub Ascending : ℕ → List InFlight → Type 0
Ascending low [] = Unit
Ascending low (f ∷ fs) = (low ≤ f.deadline_us) × Ascending f.deadline_us fs

abbrev pub AllBy : ℕ → List InFlight → Type 0
AllBy limit = All (λ f. f.deadline_us ≤ limit)

abbrev pub AllAfter : ℕ → List InFlight → Type 0
AllAfter limit = All (λ f. limit < f.deadline_us)

-- A prober whose probes were sent up to the time `t`, oldest first.
pub record InOrder (t : ℕ) (p : Prober) : Type 0 where
  pub ascending : Ascending 0 p.in_flight
  pub by : AllBy (t + p.timeout_us) p.in_flight

Ascending-lower :
    {low lower : ℕ} (fs : List InFlight) → lower ≤ low → Ascending low fs → Ascending lower fs
Ascending-lower [] h a = tt
Ascending-lower (f ∷ fs) h a = (omega arith, a.1)

pub Ascending-AllAfter :
    {low : ℕ} (limit : ℕ) (fs : List InFlight) → limit < low → Ascending low fs → AllAfter limit fs
Ascending-AllAfter limit [] h a = tt
Ascending-AllAfter limit (f ∷ fs) h a = (omega arith, Ascending-AllAfter limit fs (omega arith) a.1)

Ascending-concat :
    {low limit : ℕ} (fs : List InFlight) (g : InFlight)
    → Ascending low fs
    → AllBy limit fs
    → low ≤ g.deadline_us
    → limit ≤ g.deadline_us
    → Ascending low (fs ++ g ∷ [])
Ascending-concat [] g a b h k = (h, tt)
Ascending-concat (f ∷ fs) g a b h k = (a.0, Ascending-concat fs g a.1 b.1 (omega arith) k)

AllBy-mono : {n m : ℕ} (fs : List InFlight) → n ≤ m → AllBy n fs → AllBy m fs
AllBy-mono [] h b = tt
AllBy-mono (f ∷ fs) h b = (omega arith, AllBy-mono fs h b.1)

waiting-AllBy : (n now : ℕ) (fs : List InFlight) → AllBy n fs → AllBy n (waiting now fs)
unfolding waiting
waiting-AllBy n now [] b = tt
waiting-AllBy n now (f ∷ fs) b = ground (arith, waiting-AllBy n now fs b.1)

waiting-Ascending :
    (now low : ℕ) (fs : List InFlight) → Ascending low fs → Ascending low (waiting now fs)
unfolding waiting
waiting-Ascending now low [] a = tt
waiting-Ascending now low (f ∷ fs) a =
    let rest = waiting-Ascending now f.deadline_us fs a.1 in
    ground (arith, Ascending-lower {low = f.deadline_us} {lower = low} (waiting now fs) a.0 rest)

waiting-AllAfter :
    (now low : ℕ) (fs : List InFlight)
    → Ascending low fs
    → now + k_send_slack_us < u64_mod
    → AllAfter (now + k_send_slack_us) (waiting now fs)
unfolding waiting
waiting-AllAfter now low [] a b = tt
waiting-AllAfter now low (f ∷ fs) a b =
    let rest = waiting-AllAfter now f.deadline_us fs a.1 b in
    elim (Bool-cases (leb f.deadline_us (add64 now k_send_slack_us))) [
      | inl e ↦ ground (arith, rest)
      | inr e ↦ rw e (ground arith, Ascending-AllAfter _ fs (ground arith) a.1)
    ]

-- The orders of a list `fs` of outstanding probes after a tick.
record Fresh (now timeout : ℕ) (fs : List InFlight) : Type 0 where
  ascending : Ascending 0 fs
  by : AllBy (now + timeout) fs
  after : AllAfter (now + k_send_slack_us) fs

waiting-Fresh :
    (t now : ℕ) (p : Prober)
    → InOrder t p
    → t ≤ now
    → now + k_send_slack_us < u64_mod
    → Fresh now p.timeout_us (waiting now p.in_flight)
waiting-Fresh t now p o h b = record {
  ascending = waiting-Ascending now 0 p.in_flight o.ascending;
  by =
      AllBy-mono {n = t + p.timeout_us} {m = now + p.timeout_us} _ (omega arith)
        (waiting-AllBy (t + p.timeout_us) now p.in_flight o.by);
  after = waiting-AllAfter now 0 p.in_flight o.ascending b;
}

concat-Fresh :
    (now timeout seq : ℕ) (fs : List InFlight)
    → Fresh now timeout fs
    → k_send_slack_us < timeout
    → now + timeout < u64_mod
    → Fresh now timeout
        (fs ++ record { seq = seq; sent_us = now; deadline_us = add64 now timeout } ∷ [])
concat-Fresh now timeout seq fs h s b =
    let g : InFlight = record { seq = seq; sent_us = now; deadline_us = add64 now timeout } in
    let due : g.deadline_us ≡ now + timeout = omega arith in
    record {
      ascending =
          Ascending-concat {low = 0} {limit = now + timeout} fs g h.ascending h.by (omega arith)
            (omega (arith, due));
      by = All-append _ fs (g ∷ []) h.by (omega (arith, due), tt);
      after = All-append _ fs (g ∷ []) h.after (omega (arith, due), tt);
    }

Ticked-Fresh :
    (t now : ℕ) (p q : Prober)
    → Ticked now p q
    → InOrder t p
    → t ≤ now
    → k_send_slack_us < p.timeout_us
    → now + k_send_slack_us + p.timeout_us < u64_mod
    → Fresh now p.timeout_us q.in_flight
Ticked-Fresh t now p q k o h s b =
    let w = waiting-Fresh t now p o h (omega arith) in
    elim k.outstanding [
      | inl e ↦ rw e w
      | inr (e, _, _) ↦ rw e (concat-Fresh now p.timeout_us (inc32 p.sequence) _ w s (omega arith))
    ]

-- After a tick at a time that is not before the earlier sends, the outstanding probes are again in
-- order and every one of them is still within its wait. The prober's wait is longer than the slack, and no time wraps.
pub tick_prober-InOrder :
    (env : Env) (t now : ℕ) (p : Prober) (m : Monitor)
    → InOrder t p
    → t ≤ now
    → k_send_slack_us < p.timeout_us
    → now + k_send_slack_us + p.timeout_us < u64_mod
    → let q = (tick_prober env now p m).0 in
      InOrder now q × AllAfter (now + k_send_slack_us) q.in_flight
tick_prober-InOrder env t now p m o h s b =
    let k = tick_prober-Ticked env now p m in
    let f = Ticked-Fresh t now p _ k o h s b in
    (record { ascending = f.ascending; by = rw (k.timeout_us) f.by }, f.after)
