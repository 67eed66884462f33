-- ===== src/Health/Sensitivity.antt =====
-- The sensitivity rule: a shown state changes only after more than `sensitivity` samples in a row
-- that disagree with it and agree with each other.
use native.Mathlib.Numerals.{add-one}
use plasma_network_health.Prelude.{
  ℕ, zero, suc, ◌+◌, ◌≤◌, ◌<◌, ◌≡◌, ◌≢◌, refl, sym, ap, true, false, List, [], ◌∷◌, arith, take,
  replicate,
}
use plasma_network_health.Health.{HealthState, unknown, state_eq, Destination, judge}

-- The destination after a history of samples, the newest first.
unfoldable pub verdicts : Destination → List HealthState → Destination
verdicts d [] = d
verdicts d (x ∷ older) = judge x (verdicts d older)

pub state_eq_sound : (x y : HealthState) → state_eq x y ≡ true → x ≡ y
state_eq_sound unknown unknown h = refl
state_eq_sound x y h = ground arith

pub judge-sensitivity :
    (x : HealthState) (d : Destination) → (judge x d).sensitivity ≡ d.sensitivity
unfolding judge
judge-sensitivity x d = ground arith

pub verdicts-sensitivity :
    (d : Destination) (h : List HealthState) → (verdicts d h).sensitivity ≡ d.sensitivity
unfolding verdicts
verdicts-sensitivity d [] = refl
verdicts-sensitivity d (x ∷ h) =
    ground (arith, judge-sensitivity x (verdicts d h), verdicts-sensitivity d h)

-- The streak is a run at the front of the history, no longer than the sensitivity.
record Tracks (d : Destination) (h : List HealthState) : Type 0 where
  run : take d.candidate_streak h ≡ replicate d.candidate_streak d.candidate
  bounded : d.candidate_streak ≤ d.sensitivity

run_extend :
    (n : ℕ) (x c : HealthState) (h : List HealthState)
    → take n h ≡ replicate n c
    → x ≡ c
    → take (n + 1) (x ∷ h) ≡ replicate (n + 1) x
run_extend n x c h r e = rw (add-one n) (ap (◌∷◌ x) (rw e r))

pub state_eq_refl : (x : HealthState) → state_eq x x ≡ true
state_eq_refl unknown = refl
state_eq_refl x = ground arith

judge-Tracks :
    (x : HealthState) (d : Destination) (h : List HealthState)
    → Tracks d h
    → Tracks (judge x d) (x ∷ h)
unfolding judge
judge-Tracks x d h t =
    ground
      (arith, state_eq_sound x d.candidate, run_extend d.candidate_streak x d.candidate h t.run)

verdicts-Tracks :
    (d : Destination) (h : List HealthState) → d.candidate_streak ≡ 0 → Tracks (verdicts d h) h
unfolding verdicts
verdicts-Tracks d [] e = ground arith
verdicts-Tracks d (x ∷ h) e = judge-Tracks x (verdicts d h) h (verdicts-Tracks d h e)

judge_switch :
    (x : HealthState) (d : Destination) (h : List HealthState)
    → Tracks d h
    → d.state ≢ unknown
    → (judge x d).state ≢ d.state
    → take (suc d.sensitivity) (x ∷ h) ≡ replicate (suc d.sensitivity) x
unfolding judge
judge_switch x d h t k c = ground (
  arith,
  state_eq_sound x d.candidate,
  state_eq_sound x d.state,
  state_eq_sound d.state unknown,
  run_extend d.candidate_streak x d.candidate h t.run,
)

-- After any history, a sample changes a known state only if it and the samples before it, one more
-- than the sensitivity together, all say the same.
pub judge-verdicts_needs_run :
    (d : Destination) (h : List HealthState) (x : HealthState)
    → d.candidate_streak ≡ 0
    → (verdicts d h).state ≢ unknown
    → (judge x (verdicts d h)).state ≢ (verdicts d h).state
    → take (suc d.sensitivity) (x ∷ h) ≡ replicate (suc d.sensitivity) x
judge-verdicts_needs_run d h x e k c =
    rw (← verdicts-sensitivity d h) (judge_switch x (verdicts d h) h (verdicts-Tracks d h e) k c)

state_eq_ne : (x y : HealthState) → x ≢ y → state_eq x y ≡ false
state_eq_ne unknown unknown h = absurd (h refl)
state_eq_ne x y h = ground arith

module _ (d : Destination) (x : HealthState) (known : d.state ≢ unknown) (odd : x ≢ d.state) where
  judge_first :
      d.candidate_streak ≡ 0
      → 0 < d.sensitivity
      → judge x d ≡ record d { candidate = x; candidate_streak = 1 }
  unfolding judge
  judge_first e l = ground (
    arith,
    state_eq_ne x d.state odd,
    state_eq_ne d.state unknown known,
    state_eq_sound x d.candidate,
  )

  judge_next :
      (n : ℕ)
      → n < d.sensitivity
      → judge x (record d { candidate = x; candidate_streak = n })
        ≡ record d { candidate = x; candidate_streak = suc n }
  unfolding judge
  judge_next n l =
      ground (arith, state_eq_ne x d.state odd, state_eq_ne d.state unknown known, state_eq_refl x)

  judge_last :
      (n : ℕ)
      → d.sensitivity ≤ n
      → (judge x (record d { candidate = x; candidate_streak = n })).state ≡ x
  unfolding judge
  judge_last n l =
      ground (arith, state_eq_ne x d.state odd, state_eq_ne d.state unknown known, state_eq_refl x)

  judge_insensitive : d.sensitivity ≡ 0 → (judge x d).state ≡ x
  unfolding judge
  judge_insensitive l = ground (arith, state_eq_ne x d.state odd, state_eq_ne d.state unknown known)

  -- A run that stays within the sensitivity moves only the candidate and its streak.
  verdicts-replicate :
      (n : ℕ)
      → d.candidate_streak ≡ 0
      → n < d.sensitivity
      → verdicts d (replicate (suc n) x) ≡ record d { candidate = x; candidate_streak = suc n }
  unfolding verdicts
  verdicts-replicate zero e l = judge_first e l
  verdicts-replicate (suc n) e l = rw (verdicts-replicate n e (omega arith)) (judge_next (suc n) l)

  within-state :
      (n : ℕ)
      → d.candidate_streak ≡ 0
      → n ≤ d.sensitivity
      → (verdicts d (replicate n x)).state ≡ d.state
  unfolding verdicts
  within-state zero e l = refl
  within-state (suc n) e l = rw (verdicts-replicate n e l)

  beyond-state :
      (n : ℕ)
      → d.candidate_streak ≡ 0
      → n ≡ d.sensitivity
      → (verdicts d (replicate (suc n) x)).state ≡ x
  unfolding verdicts
  beyond-state zero e l = judge_insensitive (sym l)
  beyond-state (suc n) e l =
      rw (verdicts-replicate n e (omega arith)) (judge_last (suc n) (omega arith))

-- From a shown state with no streak, samples that all say another state leave it alone for as many
-- of them as the sensitivity, and the next one makes the destination show what they say.
pub verdicts-replicate_exact :
    (d : Destination) (x : HealthState) (n : ℕ)
    → d.candidate_streak ≡ 0
    → d.state ≢ unknown
    → x ≢ d.state
    → n ≤ d.sensitivity
    → ((verdicts d (replicate n x)).state ≡ d.state)
      × ((verdicts d (replicate (suc d.sensitivity) x)).state ≡ x)
verdicts-replicate_exact d x n e k c l =
    (within-state d x k c n e l, beyond-state d x k c d.sensitivity e refl)

-- The streak never grows past the sensitivity by a sample, whatever it was before.
pub judge-streak-le :
    (x : HealthState) (d : Destination) → (judge x d).candidate_streak ≤ d.sensitivity
unfolding judge
judge-streak-le x d = ground arith
