-- ===== src/Monitor/Rebuild/Windows.antt =====
-- The size of a prober's window, in the last loop of rebuildProbers.
use native.Mathlib.Nat.{le-div_iff_mul-le, div-lt_iff_lt-mul}
use plasma_network_health.Prelude.{
  ℕ, ◌+◌, ◌-◌, ◌*◌, ◌/◌, ◌<◌, ◌≤◌, ◌≡◌, ◌⊎◌, inl, inr, min, max, arith, add64, sub64, u64_mod,
}
use plasma_network_health.Monitor.Rebuild.{window}

clamped :
    (n : ℕ)
    → let w = min (max n 1) 8 in (0 < w) × (w ≤ 8) × ((n ≤ w) ⊎ (w ≡ 8)) × ((w ≤ n) ⊎ (w ≡ 1))
clamped n = (omega arith, omega arith, ground arith, ground arith)

module _ (t i w : ℕ) (h : 0 < i) where
  window_covers : (t + i - 1) / i ≤ w → t ≤ w * i
  window_covers k =
      let l : t + i - 1 < (w + 1) * i = (div-lt_iff_lt-mul h).0 (omega (arith, k)) in
      let m : (w + 1) * i ≡ w * i + i = omega arith in omega (arith, l, m)

  window_needed : w ≤ (t + i - 1) / i → w * i < t + i
  window_needed k = let l : w * i ≤ t + i - 1 = (le-div_iff_mul-le h).0 k in omega (arith, l)

-- The window of a prober is between 1 and 8. Unless it is 8, so many intervals cover the maximum
-- wait; and unless it is 1, one interval fewer falls short of the wait. The interval is not 0, and
-- the sum of the two fits in 64 bits.
pub window_enough :
    (timeout_us interval_us : ℕ)
    → 0 < interval_us
    → timeout_us + interval_us < u64_mod
    → let w = window timeout_us interval_us in
      (0 < w)
      × (w ≤ 8)
      × ((timeout_us ≤ w * interval_us) ⊎ (w ≡ 8))
      × ((w * interval_us < timeout_us + interval_us) ⊎ (w ≡ 1))
unfolding window
window_enough t i h room =
    let sum : sub64 (add64 t i) 1 ≡ t + i - 1 = omega arith in
    let n = (t + i - 1) / i in
    let w = min (max n 1) 8 in
    let (positive, bounded, enough, needed) = clamped n in
    rw sum (
      positive,
      bounded,
      elim enough [ inl k ↦ inl (window_covers t i w h k) | inr e ↦ inr e ],
      elim needed [ inl k ↦ inl (window_needed t i w h k) | inr e ↦ inr e ],
    )
