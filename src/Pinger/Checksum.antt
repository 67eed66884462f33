-- ===== src/Pinger/Checksum.antt =====
-- The Internet checksum: the carry loop ends, and a packet that carries its own checksum sums to
-- zero, which is what a receiver tests.
use native.Mathlib.Nat.{zero-add}
use plasma_network_health.Prelude.{
  ℕ, zero, suc, ◌+◌, ◌-◌, ◌*◌, ◌/◌, ◌%◌, ◌≤◌, ◌<◌, ◌≡◌, refl, ap, [], ◌∷◌, ◌++◌, arith, Bytes,
  length, u16_mod, u32_mod, All,
}
use plasma_network_health.Pinger.Packet.{sum_words, fold_carries, internet_checksum, le_bytes}

abbrev pub IsBytes : Bytes → Type 0
IsBytes = All (λ b. b < 256)

-- The sum of the 16-bit words as a number, with no wrap.
words : Bytes → ℕ
words [] = 0
words (b ∷ []) = b
words (b ∷ c ∷ bytes) = b + 256 * c + words bytes

words-le : (bytes : Bytes) → IsBytes bytes → words bytes ≤ 65535 * length bytes
unfolding words
words-le [] h = omega arith
words-le (b ∷ []) h = omega (arith, h.0)
words-le (b ∷ c ∷ bytes) h = omega (arith, h.0, h.1.0, words-le bytes h.1.1)

sum_words-words :
    (bytes : Bytes) (sum : ℕ)
    → sum + words bytes < u32_mod
    → sum_words bytes sum ≡ sum + words bytes
unfolding words sum_words
sum_words-words [] sum h = omega arith
sum_words-words (b ∷ []) sum h = omega arith
sum_words-words (b ∷ c ∷ bytes) sum h =
    omega (arith, sum_words-words bytes ((sum + (b + 256 * c)) % u32_mod) (omega arith))

words-append :
    (pre post : Bytes) → length pre % 2 ≡ 0 → words (pre ++ post) ≡ words pre + words post
unfolding words
words-append [] post h = omega arith
words-append (b ∷ []) post h = absurd (omega arith)
words-append (b ∷ c ∷ pre) post h = omega (arith, words-append pre post (omega arith))

-- The folded sum is a 16-bit number with the sum's remainder, and zero only for the sum zero.
record Folds (sum folded : ℕ) : Type 0 where
  small : folded < u16_mod
  remainder : folded % 65535 ≡ sum % 65535
  positive : 0 < sum → 0 < folded
  below : folded ≤ sum

fold_carries-Folds : (sum : ℕ) → sum < u32_mod → Folds sum (fold_carries 3 sum)
unfolding fold_carries
fold_carries-Folds sum h = ground arith

fold_carries-small : (fuel sum : ℕ) → sum < u16_mod → fold_carries fuel sum ≡ sum
unfolding fold_carries
fold_carries-small zero sum h = refl
fold_carries-small (suc fuel) sum h = ground arith

-- Three rounds of the carry loop leave no carry of a uint32_t, so more of them change nothing.
pub fold_carries_enough :
    (sum fuel : ℕ)
    → sum < u32_mod
    → (fold_carries 3 sum < u16_mod)
      × (fold_carries (suc (suc (suc fuel))) sum ≡ fold_carries 3 sum)
unfolding fold_carries
fold_carries_enough sum fuel h = (
  (fold_carries-Folds sum h).small,
  ground (
    arith,
    fold_carries-small fuel
        ((sum % u16_mod + sum / u16_mod) % u16_mod + (sum % u16_mod + sum / u16_mod) / u16_mod),
    fold_carries-small fuel (
        ((sum % u16_mod + sum / u16_mod) % u16_mod + (sum % u16_mod + sum / u16_mod) / u16_mod)
          % u16_mod
        + ((sum % u16_mod + sum / u16_mod) % u16_mod + (sum % u16_mod + sum / u16_mod) / u16_mod)
          / u16_mod),
  ),
)

internet_checksum-words :
    (bytes : Bytes)
    → words bytes < u32_mod
    → internet_checksum bytes ≡ u16_mod - 1 - fold_carries 3 (words bytes) % u16_mod
unfolding internet_checksum
internet_checksum-words bytes h = omega (
  arith,
  ap (fold_carries 3) (sum_words-words bytes 0 (omega arith)),
  zero-add (words bytes),
  ap (fold_carries 3) (zero-add (words bytes)),
)

words-le_bytes :
    (x : ℕ) (post : Bytes) → x < u16_mod → words (le_bytes 2 x ++ post) ≡ x + words post
unfolding words
words-le_bytes x post h = omega arith

checksum_with :
    (pre post : Bytes) (x sum : ℕ)
    → length pre % 2 ≡ 0
    → x < u16_mod
    → sum ≡ words pre + words post + x
    → sum < u32_mod
    → internet_checksum (pre ++ (le_bytes 2 x ++ post)) ≡ u16_mod - 1 - fold_carries 3 sum % u16_mod
checksum_with pre post x sum e h total l =
    let same : words (pre ++ (le_bytes 2 x ++ post)) ≡ sum =
      omega (arith, words-append pre (le_bytes 2 x ++ post) e, words-le_bytes x post h) in
    rw (← same) (internet_checksum-words _ (omega (arith, same)))

complement_sum : (s f c g : ℕ) → Folds s f → c ≡ 65535 - f → Folds (s + c) g → g ≡ 65535
complement_sum s f c g p e q = grind arith

-- A packet of bytes whose checksum field, at an even offset, is zero: once its checksum is written
-- there, the checksum of the whole packet is zero.
pub internet_checksum_verifies :
    (pre post : Bytes)
    → IsBytes pre
    → IsBytes post
    → length pre % 2 ≡ 0
    → length pre + length post < u16_mod - 2
    → let sum = internet_checksum (pre ++ (le_bytes 2 0 ++ post)) in
      (sum < u16_mod) × (internet_checksum (pre ++ (le_bytes 2 sum ++ post)) ≡ 0)
internet_checksum_verifies pre post hp hq e n =
    let s = words pre + words post in
    let bounds : s < u32_mod - u16_mod = omega (arith, words-le pre hp, words-le post hq) in
    let c = u16_mod - 1 - fold_carries 3 s % u16_mod in
    let folds = fold_carries-Folds s (omega arith) in
    let before : internet_checksum (pre ++ (le_bytes 2 0 ++ post)) ≡ c =
      checksum_with pre post 0 s e (omega arith) (omega arith) (omega arith) in
    let after : internet_checksum (pre ++ (le_bytes 2 c ++ post))
        ≡ u16_mod - 1 - fold_carries 3 (s + c) % u16_mod =
      checksum_with pre post c (s + c) e (omega arith) (omega arith) (omega arith) in
    let full =
      complement_sum s (fold_carries 3 s) c (fold_carries 3 (s + c)) folds (omega (arith, folds))
        (fold_carries-Folds (s + c) (omega arith)) in
    rw before (omega arith, omega (arith, after, full))
