-- ===== src/Json/Progress.antt =====
-- The parser's loops have fuel enough, and no reading goes back.
use plasma_network_health.Prelude.{
  ℕ, zero, suc, ◌+◌, ◌*◌, ◌<◌, ◌≤◌, ◌≡◌, inl, inr, not, ◌&&◌, Option, some, none, [], ◌∷◌, ◌++◌,
  arith, Bytes, ltb, leb, ◌==◌, length, if-cases, Option-cases,
}
use plasma_network_health.Json.Reader.{
  Parsed, ok, failed, out_of_fuel, Round, again, leave, loop, after_round, bind, bind_round,
  skip_whitespace, strip, literal, hex_value, hex_digits, parse_hex4, second_unit, surrogates,
  parse_unicode, simple_escape, escape_found, parse_escape, string_round, parse_string,
}

-- A reading that ends, not before the position it began at.
abbrev pub Within {ℓ} : {A : Type ℓ} → Bytes → Parsed A → Type 0
Within text (ok a left) = length left ≤ length text
Within text (failed message left) = length left ≤ length text
Within text out_of_fuel = ⊥

abbrev pub Advances {ℓ} : {A : Type ℓ} → Bytes → Round A → Type 0
Advances text (again a left) = length left < length text
Advances text (leave r) = Within text r

pub Within-le {ℓ} :
    {A : Type ℓ} (text more : Bytes) (r : Parsed A)
    → length text ≤ length more
    → Within text r
    → Within more r
Within-le text more (ok a left) h w = omega arith
Within-le text more (failed message left) h w = omega arith
Within-le text more out_of_fuel h w = w

pub Advances-lt {ℓ} :
    {A : Type ℓ} (text more : Bytes) (r : Round A)
    → length text ≤ length more
    → Advances text r
    → Advances more r
Advances-lt text more (again a left) h w = omega arith
Advances-lt text more (leave r) h w = Within-le text more r h w

pub bind-Within {ℓ κ} :
    {A : Type ℓ} {B : Type κ} (text : Bytes) (r : Parsed A) (f : A → Bytes → Parsed B)
    → Within text r
    → ((a : A) (left : Bytes) → Within left (f a left))
    → Within text (bind r f)
bind-Within text (ok a left) f w h = Within-le left text (f a left) w (h a left)
bind-Within text (failed message left) f w h = w
bind-Within text out_of_fuel f w h = w

pub bind_round-Advances {ℓ κ} :
    {A : Type ℓ} {B : Type κ} (text : Bytes) (r : Parsed A) (f : A → Bytes → Round B)
    → Within text r
    → ((a : A) (left : Bytes) → Advances left (f a left))
    → Advances text (bind_round r f)
bind_round-Advances text (ok a left) f w h = Advances-lt left text (f a left) w (h a left)
bind_round-Advances text (failed message left) f w h = w
bind_round-Advances text out_of_fuel f w h = w

module _ {ℓ} {A : Type ℓ} (round : A → Bytes → Round A)
    (advances : (a : A) (text : Bytes) → Advances text (round a text)) where
  after_round-Within :
      (fuel : ℕ) (text : Bytes) (r : Round A)
      → Advances text r
      → ((b : A) (left : Bytes) → length left < length text → Within left (loop round fuel b left))
      → Within text (after_round (loop round fuel) r)
  after_round-Within fuel text (again b left) h k =
      Within-le left text (loop round fuel b left) (omega arith) (k b left h)
  after_round-Within fuel text (leave r) h k = h

  pub loop-Within :
      (fuel : ℕ) (a : A) (text : Bytes) → length text < fuel → Within text (loop round fuel a text)
  unfolding loop
  loop-Within zero a text h = absurd (omega arith)
  loop-Within (suc fuel) a text h =
      after_round-Within fuel text (round a text) (advances a text)
        (λ b left k. loop-Within fuel b left (omega arith))

pub length-skip_whitespace : (text : Bytes) → length (skip_whitespace text) ≤ length text
unfolding skip_whitespace
length-skip_whitespace [] = omega arith
length-skip_whitespace (c ∷ text) = ground (arith, length-skip_whitespace text)

length-strip : (word text left : Bytes) → strip word text ≡ some left → length left ≤ length text
unfolding strip
length-strip [] text left h = let e : text ≡ left = cc in rw e (omega arith)
length-strip (w ∷ word) [] left h = cc
length-strip (w ∷ word) (c ∷ text) left h = ground (arith, length-strip word text left)

pub literal-Within {ℓ} :
    {A : Type ℓ} (word : Bytes) (a : A) (text : Bytes) → Within text (literal word a text)
unfolding literal
literal-Within word a text = elim (Option-cases (strip word text)) [
  | inl e ↦ rw e (omega arith)
  | inr (left, e) ↦ rw e (length-strip word text left e)
]

hex_digits-Within : (n v : ℕ) (text : Bytes) → Within text (hex_digits n v text)
unfolding hex_digits
hex_digits-Within zero v text = omega arith
hex_digits-Within (suc n) v [] = omega arith
hex_digits-Within (suc n) v (c ∷ text) = elim (Option-cases (hex_value c)) [
  | inl e ↦ rw e (omega arith)
  | inr (d, e) ↦ rw e (
      Within-le text (c ∷ text) (hex_digits n (v * 16 + d) text) (omega arith)
        (hex_digits-Within n (v * 16 + d) text))
]

parse_hex4-Within : (text : Bytes) → Within text (parse_hex4 text)
unfolding parse_hex4
parse_hex4-Within text =
    if-cases (Within text) (ltb (length text) 4) _ _ (λ h. omega arith)
      (λ h. hex_digits-Within 4 0 text)

second_unit-Within : (cp : ℕ) (text : Bytes) → Within text (second_unit cp text)
second_unit-Within cp [] = omega arith
second_unit-Within cp (b ∷ []) = omega arith
second_unit-Within cp (b ∷ u ∷ text) =
    if-cases (Within (b ∷ u ∷ text)) (b == b'\\' && u == b'u') _ _
      (λ h. Within-le text (b ∷ u ∷ text) _ (omega arith) (
        bind-Within text (parse_hex4 text) (λ low left. ok (surrogates cp low) left)
          (parse_hex4-Within text) (λ low left. omega arith)))
      (λ h. omega arith)

parse_unicode-Within : (text : Bytes) → Within text (parse_unicode text)
unfolding parse_unicode
parse_unicode-Within text =
    bind-Within text (parse_hex4 text) _ (parse_hex4-Within text) (λ cp left.
      if-cases (Within left) (leb 0xd800 cp && leb cp 0xdbff) _ _ (λ h. second_unit-Within cp left)
        (λ h. omega arith))

escape_found-Advances :
    (o : Option ℕ) (out text : Bytes) (e : ℕ) → Advances (e ∷ text) (escape_found o out text)
escape_found-Advances none out text e = omega arith
escape_found-Advances (some c) out text e = omega arith

parse_escape-Advances : (out text : Bytes) → Advances text (parse_escape out text)
unfolding parse_escape
parse_escape-Advances out [] = omega arith
parse_escape-Advances out (e ∷ text) =
    if-cases (Advances (e ∷ text)) (e == b'u') _ _
      (λ h. unicode (parse_unicode text) (parse_unicode-Within text))
      (λ h. escape_found-Advances (simple_escape e) out text e)
  where
    unicode :
        (r : Parsed Bytes)
        → Within text r
        → Advances (e ∷ text) (bind_round r (λ more left. again (out ++ more) left))
    unicode (ok more left) w = omega arith
    unicode (failed message left) w = omega arith
    unicode out_of_fuel w = w

string_round-Advances : (out text : Bytes) → Advances text (string_round out text)
unfolding string_round
string_round-Advances out [] = omega arith
string_round-Advances out (c ∷ text) =
    if-cases (Advances (c ∷ text)) (c == b'"') _ _ (λ h. omega arith)
      (λ h.
        if-cases (Advances (c ∷ text)) (not (c == b'\\')) _ _ (λ k. omega arith)
          (λ k.
            Advances-lt text (c ∷ text) (parse_escape out text) (omega arith)
              (parse_escape-Advances out text)))

pub parse_string-Within : (text : Bytes) → Within text (parse_string text)
unfolding parse_string
parse_string-Within [] = omega arith
parse_string-Within (c ∷ text) =
    if-cases (Within (c ∷ text)) (c == b'"') _ _
      (λ h.
        Within-le text (c ∷ text) (loop string_round (suc (length text)) [] text) (omega arith) (
          loop-Within string_round string_round-Advances (suc (length text)) [] text (omega arith)))
      (λ h. omega arith)
