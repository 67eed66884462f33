-- ===== src/Json/Strings.antt =====
-- Reading one piece of a written string back.
use plasma_network_health.Prelude.{
  ℕ, suc, ◌+◌, ◌-◌, ◌*◌, ◌/◌, ◌%◌, ◌<◌, ◌≤◌, ◌≡◌, ◌⊎◌, inl, inr, refl, sym, ap, ◌∙◌, true, false,
  ◌&&◌, some, [], ◌∷◌, ◌++◌, arith, Bytes, ltb, leb, ◌==◌, length, Bool-cases, if-cases, ==_iff,
}
use plasma_network_health.Json.Text.{hex_char, escape_unit, write_escaped_code_point, write_char}
use plasma_network_health.Json.Reader.{
  Parsed, ok, Round, again, leave, loop, hex_value, hex_digits, parse_hex4, append_utf8,
  parse_unicode, simple_escape, parse_escape, string_round,
}

module _ {ℓ} {A : Type ℓ} (round : A → Bytes → Round A) (f : ℕ) (a : A) (text : Bytes) where
  pub loop-again :
      (b : A) (left : Bytes)
      → round a text ≡ again b left
      → loop round (suc f) a text ≡ loop round f b left
  unfolding loop
  loop-again b left e = rw (e, loop) refl

  pub loop-leave : (r : Parsed A) → round a text ≡ leave r → loop round (suc f) a text ≡ r
  unfolding loop
  loop-leave r e = rw (e, loop) refl

hex_value-hex_char : (d : ℕ) → d < 16 → hex_value (hex_char d) ≡ some d
unfolding hex_value
hex_value-hex_char d h = ground arith

-- The four digits of a value in front of a text.
abbrev four : ℕ → Bytes → Bytes
four v rest =
    hex_char (v / 4096 % 16)
    ∷ hex_char (v / 256 % 16)
    ∷ hex_char (v / 16 % 16)
    ∷ hex_char (v % 16)
    ∷ rest

parse_hex4-four : (v : ℕ) (rest : Bytes) → v < 65536 → parse_hex4 (four v rest) ≡ ok v rest
unfolding parse_hex4 hex_digits
parse_hex4-four v rest h =
    let long : ltb (length (four v rest)) 4 ≡ false = ground arith in
    let a = hex_value-hex_char (v / 4096 % 16) (omega arith) in
    let b = hex_value-hex_char (v / 256 % 16) (omega arith) in
    let c = hex_value-hex_char (v / 16 % 16) (omega arith) in
    let d = hex_value-hex_char (v % 16) (omega arith) in
    let e : (((0 * 16 + v / 4096 % 16) * 16 + v / 256 % 16) * 16 + v / 16 % 16) * 16 + v % 16 ≡ v =
      omega arith in
    rw (long, a, b, c, d) (ap (λ (n : ℕ). ok n rest) e)

-- What an escape is read as, if it is no leading surrogate.
parse_unicode-four :
    (v : ℕ) (rest : Bytes)
    → v < 65536
    → (leb 0xd800 v && leb v 0xdbff) ≡ false
    → parse_unicode (four v rest) ≡ ok (append_utf8 v) rest
unfolding parse_unicode
parse_unicode-four v rest h e = rw (parse_hex4-four v rest h, e) refl

parse_unicode-pair :
    (value : ℕ) (rest : Bytes)
    → value < 1048576
    → parse_unicode (four (0xd800 + value / 1024) (escape_unit (0xdc00 + value % 1024) ++ rest))
      ≡ ok (append_utf8 (0x10000 + value)) rest
unfolding parse_unicode escape_unit
parse_unicode-pair value rest h =
    let low = 0xdc00 + value % 1024 in
    let high = 0xd800 + value / 1024 in
    let leading : (leb 0xd800 high && leb high 0xdbff) ≡ true = ground arith in
    let trailing : (leb 0xdc00 low && leb low 0xdfff) ≡ true = ground arith in
    let whole : 0x10000 + (high - 0xd800) * 1024 + (low - 0xdc00) ≡ 0x10000 + value = omega arith in
    rw
      (
        parse_hex4-four high (b'\\' ∷ b'u' ∷ four low rest) (omega arith),
        leading,
        parse_hex4-four low rest (omega arith),
        trailing,
      )
      (ap (λ (n : ℕ). ok (append_utf8 n) rest) whole)

string_round-unicode :
    (out text more left : Bytes)
    → parse_unicode text ≡ ok more left
    → string_round out (b'\\' ∷ b'u' ∷ text) ≡ again (out ++ more) left
unfolding string_round parse_escape
string_round-unicode out text more left e = rw e refl

-- A scalar value that has no leading surrogate in it.
abbrev pub IsScalar : ℕ → Type 0
IsScalar cp = (cp < 0x110000) × ((cp < 0xd800) ⊎ (0xe000 ≤ cp))

pub string_round-escaped :
    (cp : ℕ) (out rest : Bytes)
    → IsScalar cp
    → string_round out (write_escaped_code_point cp ++ rest) ≡ again (out ++ append_utf8 cp) rest
unfolding write_escaped_code_point
string_round-escaped cp out rest h = elim (Bool-cases (ltb cp 0x10000)) [
  | inl small ↦ rw small (
      unfold escape_unit in
      string_round-unicode out (four cp rest) (append_utf8 cp) rest
        (parse_unicode-four cp rest (ground arith) (ground arith)))
  | inr large ↦
      let value = cp - 0x10000 in
      let e : 0x10000 + value ≡ cp = ground arith in
      rw large (
        unfold escape_unit in
        string_round-unicode out
          (four (0xd800 + value / 1024) (escape_unit (0xdc00 + value % 1024) ++ rest))
          (append_utf8 cp) rest
          (parse_unicode-pair value rest (omega (arith, h.0))
            ∙ ap (λ (n : ℕ). ok (append_utf8 n) rest) e))
]

append_utf8_small : (c : ℕ) → c < 128 → append_utf8 c ≡ c ∷ []
unfolding append_utf8
append_utf8_small c h = ground arith

module _ (out rest : Bytes) where
  string_round_simple :
      (letter c : ℕ)
      → simple_escape letter ≡ some c
      → (letter == b'u') ≡ false
      → string_round out (b'\\' ∷ letter ∷ rest) ≡ again (out ++ (c ∷ [])) rest
  unfolding string_round parse_escape
  string_round_simple letter c e k = rw (k, e) refl

  string_round_plain :
      (c : ℕ)
      → (c == b'"') ≡ false
      → (c == b'\\') ≡ false
      → string_round out (c ∷ rest) ≡ again (out ++ (c ∷ [])) rest
  unfolding string_round
  string_round_plain c h k = rw (h, k) refl

-- One byte that is written as it is or by an escape.
pub string_round-write_char :
    (c : ℕ) (out rest : Bytes)
    → string_round out (write_char c ++ rest) ≡ again (out ++ (c ∷ [])) rest
unfolding write_char simple_escape
string_round-write_char c out rest =
    let Reads : Bytes → Type 0 = λ t. string_round out (t ++ rest) ≡ again (out ++ (c ∷ [])) rest in
    let at : (letter value : ℕ)
        → simple_escape letter ≡ some value
        → (letter == b'u') ≡ false
        → (c == value) ≡ true
        → Reads (b'\\' ∷ letter ∷ []) =
      λ letter value e k h.
        string_round_simple out rest letter c
          (e ∙ ap (λ (n : ℕ). some n) (sym ((==_iff c value).0 h))) k in
    if-cases Reads (c == b'"') _ _ (at b'"' b'"' refl refl) (λ h1.
      if-cases Reads (c == b'\\') _ _ (at b'\\' b'\\' refl refl) (λ h2.
        if-cases Reads (c == 8) _ _ (at b'b' 8 refl refl) (λ h3.
          if-cases Reads (c == 12) _ _ (at b'f' 12 refl refl) (λ h4.
            if-cases Reads (c == 10) _ _ (at b'n' 10 refl refl) (λ h5.
              if-cases Reads (c == 13) _ _ (at b'r' 13 refl refl) (λ h6.
                if-cases Reads (c == 9) _ _ (at b't' 9 refl refl) (λ h7.
                  if-cases Reads (ltb c 0x20) _ _
                    (λ low.
                      string_round-escaped c out rest (ground arith, inl (ground arith))
                      ∙ ap (λ (t : Bytes). again (out ++ t) rest)
                          (append_utf8_small c (ground arith)))
                    (λ high. string_round_plain out rest c h1 h2))))))))
