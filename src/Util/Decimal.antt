-- ===== src/Util/Decimal.antt =====
-- std::to_string of an unsigned number, on fuel: twenty digits are enough for a uint64_t.
use plasma_network_health.Prelude.{
  ℕ, zero, suc, ◌+◌, ◌-◌, ◌*◌, ◌/◌, ◌%◌, ◌≤◌, ◌<◌, ◌≡◌, refl, sym, ap, ◌∙◌, inl, inr, [], ◌∷◌,
  arith, Bytes, ltb, if◌then◌else◌, All, Bool-cases, u64_mod,
}

-- The digits of `n` in front of `out`.
unfoldable pub digits : ℕ → ℕ → Bytes → Bytes
digits zero n out = out
digits (suc fuel) n out =
    let more = digits fuel (n / 10) ((b'0' + n % 10) ∷ out) in
    if ltb n 10 then (b'0' + n) ∷ out else more

unfoldable pub to_string : ℕ → Bytes
unfolding digits
to_string n = digits 20 n []

-- The number that digits stand for, after a number that has been read.
unfoldable pub read : ℕ → Bytes → ℕ
read n [] = n
read n (c ∷ cs) = read (n * 10 + (c - b'0')) cs

-- The numbers that have at most so many digits.
bound : ℕ → ℕ
bound zero = 1
bound (suc fuel) = 10 * bound fuel

read-digits : (fuel n : ℕ) (out : Bytes) → n < bound fuel → read 0 (digits fuel n out) ≡ read n out
unfolding read digits bound
read-digits zero n out h = let e : n ≡ 0 = omega arith in rw e refl
read-digits (suc fuel) n out h = elim (Bool-cases (ltb n 10)) [
  | inl e ↦
      let k : 0 * 10 + (b'0' + n - b'0') ≡ n = omega arith in rw e (ap (λ (i : ℕ). read i out) k)
  | inr e ↦
      let k : n / 10 * 10 + (b'0' + n % 10 - b'0') ≡ n = omega arith in
      rw e (read-digits fuel (n / 10) _ (omega arith) ∙ ap (λ (i : ℕ). read i out) k)
]

u64-bound : u64_mod ≤ bound 20
unfolding bound
u64-bound = omega arith

-- The digits of a number below 2^64 stand for it.
pub read-to_string : (n : ℕ) → n < u64_mod → read 0 (to_string n) ≡ n
unfolding to_string read
read-to_string n h = read-digits 20 n [] (omega (arith, u64-bound))

-- Two numbers below 2^64 with the same digits are the same.
pub to_string-injective : (a b : ℕ) → a < u64_mod → b < u64_mod → to_string a ≡ to_string b → a ≡ b
unfolding to_string read
to_string-injective a b ha hb e =
    sym (read-digits 20 a [] (omega (arith, u64-bound)))
    ∙ (ap (read 0) e ∙ read-digits 20 b [] (omega (arith, u64-bound)))

abbrev pub IsDigits : Bytes → Type 0
IsDigits = All (λ c. (b'0' ≤ c) × (c ≤ b'9'))

digits-IsDigits : (fuel n : ℕ) (out : Bytes) → IsDigits out → IsDigits (digits fuel n out)
unfolding digits
digits-IsDigits zero n out h = h
digits-IsDigits (suc fuel) n out h = elim (Bool-cases (ltb n 10)) [
  | inl e ↦ rw e ((omega arith, ground arith), h)
  | inr e ↦ rw e (digits-IsDigits fuel (n / 10) _ ((omega arith, omega arith), h))
]

pub to_string-IsDigits : (n : ℕ) → IsDigits (to_string n)
unfolding to_string
to_string-IsDigits n = digits-IsDigits 20 n [] tt
