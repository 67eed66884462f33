-- ===== src/Util/Base64.antt =====
-- `base64Encode` (daemon/src/util.cpp).
use plasma_network_health.Prelude.{
  ℕ, zero, suc, ◌+◌, ◌-◌, ◌*◌, ◌/◌, ◌%◌, ◌<◌, ◌≡◌, refl, ap, ◌∙◌, Bool, true, false, not, ◌&&◌, [],
  ◌∷◌, none, some, arith, Bytes, codes, leb, ◌==◌, if◌then◌else◌, get_elem?, All, inl, inr,
  Bool-cases,
}

abbrev pub alphabet : Bytes
alphabet = codes "ABCDEFGHIJKLMNOPQRSTUVWXYZabcdefghijklmnopqrstuvwxyz0123456789+/"

-- `alphabet[i]`, for an index in range.
unfoldable pub alphabet_at : ℕ → ℕ
alphabet_at i = elim (get_elem? alphabet i) [ some c ↦ c | none ↦ 0 ]

-- The four groups of six bits of a 24-bit number, from the left.
unfoldable pub sextet : ℕ → ℕ → ℕ
sextet zero triple = triple / 262144 % 64
sextet (suc zero) triple = triple / 4096 % 64
sextet (suc (suc zero)) triple = triple / 64 % 64
sextet other triple = triple % 64

-- A triple of bytes is `(a << 16) | (b << 8) | c`.
unfoldable pub base64_encode : Bytes → Bytes
base64_encode [] = []
base64_encode (a ∷ []) =
    let triple = a * 65536 in
    alphabet_at (sextet 0 triple) ∷ alphabet_at (sextet 1 triple) ∷ b'=' ∷ b'=' ∷ []
base64_encode (a ∷ b ∷ []) =
    let triple = a * 65536 + b * 256 in
    alphabet_at (sextet 0 triple)
    ∷ alphabet_at (sextet 1 triple)
    ∷ alphabet_at (sextet 2 triple)
    ∷ b'='
    ∷ []
base64_encode (a ∷ b ∷ c ∷ rest) =
    let triple = a * 65536 + b * 256 + c in
    alphabet_at (sextet 0 triple)
    ∷ alphabet_at (sextet 1 triple)
    ∷ alphabet_at (sextet 2 triple)
    ∷ alphabet_at (sextet 3 triple)
    ∷ base64_encode rest

-- The value of a digit, by the ranges of RFC 4648.
digit_value : ℕ → ℕ
digit_value c =
    if leb b'a' c
    then c - b'a' + 26
    else if leb b'A' c
    then c - b'A'
    else if leb b'0' c
    then c - b'0' + 52
    else if c == b'+'
    then 62
    else 63

-- An independent decoder of padded base64.
pub base64_decode : Bytes → Bytes
unfolding digit_value
base64_decode (p ∷ q ∷ r ∷ s ∷ rest) =
    let later = base64_decode rest in
    let left = digit_value p * 262144 + digit_value q * 4096 in
    let two = left + digit_value r * 64 in
    if r == b'='
    then left / 65536 ∷ []
    else if s == b'='
    then two / 65536 ∷ (two / 256 % 256) ∷ []
    else two / 65536 ∷ (two / 256 % 256) ∷ ((two + digit_value s) % 256) ∷ later
base64_decode other = []

-- The digits stand for themselves and none of them is the padding.
readable : ℕ → Bool
unfolding digit_value alphabet_at
readable i = digit_value (alphabet_at i) == i && not (alphabet_at i == b'=')

all_below : ℕ → Bool
all_below zero = true
all_below (suc n) = readable n && all_below n

all_readable : all_below 64 ≡ true
unfolding all_below readable digit_value alphabet_at
all_readable = refl

below-readable : (n i : ℕ) → all_below n ≡ true → i < n → readable i ≡ true
unfolding all_below
below-readable zero i e h = elim h [ ]
below-readable (suc n) i e h = elim (Bool-cases (i == n)) [
  | inl same ↦ ground (arith, e)
  | inr other ↦ below-readable n i (ground (arith, e)) (ground arith)
]

digit_value-alphabet_at : (i : ℕ) → i < 64 → digit_value (alphabet_at i) ≡ i
unfolding readable
digit_value-alphabet_at i h = let k = below-readable 64 i all_readable h in ground (arith, k)

alphabet_at-pad : (i : ℕ) → i < 64 → (alphabet_at i == b'=') ≡ false
unfolding readable
alphabet_at-pad i h = let k = below-readable 64 i all_readable h in ground (arith, k)

-- Reading a group of four digits back.
module _ (p q r s : ℕ) (rest : Bytes) (hp : p < 64) (hq : q < 64) where
  decode-two :
      base64_decode (alphabet_at p ∷ alphabet_at q ∷ b'=' ∷ b'=' ∷ rest)
      ≡ (p * 262144 + q * 4096) / 65536 ∷ []
  unfolding base64_decode
  decode-two = rw (digit_value-alphabet_at p hp, digit_value-alphabet_at q hq) refl

  module _ (hr : r < 64) where
    decode-three :
        base64_decode (alphabet_at p ∷ alphabet_at q ∷ alphabet_at r ∷ b'=' ∷ rest)
        ≡ (p * 262144 + q * 4096 + r * 64) / 65536
          ∷ ((p * 262144 + q * 4096 + r * 64) / 256 % 256)
          ∷ []
    unfolding base64_decode
    decode-three =
        rw
          (
            digit_value-alphabet_at p hp,
            digit_value-alphabet_at q hq,
            digit_value-alphabet_at r hr,
            alphabet_at-pad r hr,
          )
          refl

    decode-four :
        s < 64
        → base64_decode (alphabet_at p ∷ alphabet_at q ∷ alphabet_at r ∷ alphabet_at s ∷ rest)
          ≡ (p * 262144 + q * 4096 + r * 64) / 65536
            ∷ ((p * 262144 + q * 4096 + r * 64) / 256 % 256)
            ∷ ((p * 262144 + q * 4096 + r * 64 + s) % 256)
            ∷ base64_decode rest
    unfolding base64_decode
    decode-four hs =
        rw
          (
            digit_value-alphabet_at p hp,
            digit_value-alphabet_at q hq,
            digit_value-alphabet_at r hr,
            digit_value-alphabet_at s hs,
            alphabet_at-pad r hr,
            alphabet_at-pad s hs,
          )
          refl

-- Whatever bytes base64_encode is given, a decoder written from the ranges of RFC 4648 reads them
-- back from what it writes.
pub base64_decode-base64_encode :
    (bytes : Bytes) → All (λ b. b < 256) bytes → base64_decode (base64_encode bytes) ≡ bytes
unfolding base64_encode sextet
base64_decode-base64_encode [] h = unfold base64_decode in refl
base64_decode-base64_encode (a ∷ []) h =
    let t = a * 65536 in
    let e : (t / 262144 % 64 * 262144 + t / 4096 % 64 * 4096) / 65536 ≡ a = omega arith in
    decode-two (t / 262144 % 64) (t / 4096 % 64) 0 0 [] (omega arith) (omega arith)
    ∙ ap (λ (n : ℕ). n ∷ []) e
base64_decode-base64_encode (a ∷ b ∷ []) h =
    let t = a * 65536 + b * 256 in
    let n = t / 262144 % 64 * 262144 + t / 4096 % 64 * 4096 + t / 64 % 64 * 64 in
    let one : n / 65536 ≡ a = omega arith in
    let two : n / 256 % 256 ≡ b = omega arith in
    decode-three (t / 262144 % 64) (t / 4096 % 64) (t / 64 % 64) 0 [] (omega arith) (omega arith)
      (omega arith)
    ∙ ap (λ (x : ℕ). x ∷ (n / 256 % 256) ∷ []) one
    ∙ ap (λ (y : ℕ). a ∷ y ∷ []) two
base64_decode-base64_encode (a ∷ b ∷ c ∷ rest) h =
    let t = a * 65536 + b * 256 + c in
    let n = t / 262144 % 64 * 262144 + t / 4096 % 64 * 4096 + t / 64 % 64 * 64 in
    let one : n / 65536 ≡ a = omega arith in
    let two : n / 256 % 256 ≡ b = omega arith in
    let three : (n + t % 64) % 256 ≡ c = omega arith in
    let tail = base64_decode-base64_encode rest h.1.1.1 in
    decode-four (t / 262144 % 64) (t / 4096 % 64) (t / 64 % 64) (t % 64) (base64_encode rest)
      (omega arith) (omega arith) (omega arith) (omega arith)
    ∙ ap
        (λ (x : ℕ). x ∷ (n / 256 % 256) ∷ ((n + t % 64) % 256) ∷ base64_decode (base64_encode rest))
        one
    ∙ ap (λ (y : ℕ). a ∷ y ∷ ((n + t % 64) % 256) ∷ base64_decode (base64_encode rest)) two
    ∙ ap (λ (z : ℕ). a ∷ b ∷ z ∷ base64_decode (base64_encode rest)) three
    ∙ ap (λ (zs : Bytes). a ∷ b ∷ c ∷ zs) tail
