-- ===== src/Tests/Json.antt =====
-- Tests of the JSON reader and writer, over doubles that are numerals or end in a half.
use plasma_network_health.Prelude.{
  ℕ, zero, suc, ◌+◌, ◌-◌, ◌∙◌, ◌<◌, ◌≡◌, refl, true, false, Option, some, none, List, [], ◌∷◌, ◌++◌,
  arith, Bytes, codes, ltb, ◌==◌, if◌then◌else◌, length, is_empty, All, All-append, replicate, Bool,
  ℤ, pos, negsuc, inl, ap, bytes_eq,
}
use plasma_network_health.Util.Decimal.{
  read, digits, to_string, to_string-IsDigits, IsDigits, read-to_string,
}
use plasma_network_health.Json.Double.{
  Doubles, Documented, show_ℤ, reads_whole, IsNumberText, is_number_char,
}
use plasma_network_health.Json.Value.{
  Json, null, number, string, array, object, nil, cons, end, member, push_item, set_member,
}
use plasma_network_health.Json.Text.{
  write_string, write_chars, piece, write_wide, lead, continue_code_point, write_char,
  write_escaped_code_point, escape_unit,
}
use plasma_network_health.Json.Reader.{
  loop, skip_whitespace, strip, literal, parse_string, string_round, parse_escape, parse_unicode,
  parse_hex4, hex_digits, hex_value, append_utf8, simple_escape,
}
use plasma_network_health.Json.Write.{dump, write, write_number, new_line}
use plasma_network_health.Json.Parse.{
  parse, value, error, parse_value, parse_value_inner, parse_array, array_round, parse_object,
  object_round, parse_number, number_token,
}
use plasma_network_health.Json.Printed.{Fits, IsBlank, reread, to_string-IsNumberText}
use plasma_network_health.Json.Strings.{IsScalar}
use plasma_network_health.Json.RoundTrip.{parse-dump}
use plasma_network_health.Json.Outcome.{IsDecided, parse-IsDecided}
use plasma_network_health.Json.Nesting.{opened, parse-nesting_too_deep}
use plasma_network_health.Json.Ascii.{IsAscii, dump-IsAscii}

abbrev negated : ℕ → ℤ
negated zero = pos 0
negated (suc n) = negsuc n

abbrev magnitude : ℤ → ℕ
magnitude (pos n) = n
magnitude (negsuc n) = n + 1

unfoldable pub read_ℤ : Bytes → Option (ℤ × ℕ)
unfolding read
read_ℤ [] = none
read_ℤ (c ∷ cs) =
    if c == b'-'
    then some (negated (read 0 cs), suc (length cs))
    else some (pos (read 0 (c ∷ cs)), suc (length cs))

-- An integer, or a half more than a natural number.
pub data Numeral : Type 0 where
  whole : ℤ → Numeral
  half : ℕ → Numeral

abbrev pub in_front : ℕ → Option Bytes → Option Bytes
in_front c none = none
in_front c (some s) = some (c ∷ s)

-- What stands before the point, if there is one.
unfoldable pub before_point : Bytes → Option Bytes
before_point [] = none
before_point (c ∷ cs) = let rest = before_point cs in if c == b'.' then some [] else in_front c rest

abbrev pub numeral_of : Option (ℤ × ℕ) → Option (Numeral × ℕ)
numeral_of none = none
numeral_of (some (z, consumed)) = some (whole z, consumed)

abbrev pub read_from : Bytes → Option Bytes → Option (Numeral × ℕ)
read_from text none = numeral_of (read_ℤ text)
read_from text (some cs) = some (half (read 0 cs), length text)

unfoldable pub read_numeral : Bytes → Option (Numeral × ℕ)
unfolding before_point read_ℤ
read_numeral text = read_from text (before_point text)

abbrev is_finite : Numeral → Bool
is_finite (whole z) = ltb (magnitude z) 9000000000000000
is_finite (half n) = ltb n 1000000000

abbrev is_integral : Numeral → Bool
is_integral (whole z) = true
is_integral (half n) = false

abbrev is_zero : Numeral → Bool
is_zero (whole z) = magnitude z == 0
is_zero (half n) = false

abbrev to_long : Numeral → ℤ
to_long (whole z) = z
to_long (half n) = pos n

abbrev round : Numeral → ℤ
round (whole z) = z
round (half n) = pos (n + 1)

abbrev print_g : Numeral → Bytes
print_g (whole z) = show_ℤ z
print_g (half n) = to_string n ++ codes ".5"

-- Doubles that hold numerals below 9.0e15 in size, and halves that ten digits can print; all others
-- count as infinite.
abbrev pub numerals : Doubles
numerals = record {
  Double = Numeral;
  is_finite = is_finite;
  is_integral = is_integral;
  is_zero = is_zero;
  of_ℤ = whole;
  to_long = to_long;
  round = round;
  print_g = print_g;
  read = read_numeral;
}

read_ℤ-digits :
    (text : Bytes) (n : ℕ)
    → IsDigits text
    → is_empty text ≡ false
    → read 0 text ≡ n
    → read_ℤ text ≡ some (pos n, length text)
unfolding read_ℤ
read_ℤ-digits [] n h e k = cc
read_ℤ-digits (c ∷ cs) n h e k =
    let digit : (c == b'-') ≡ false = ground arith in
    rw digit (ap (λ (m : ℕ). some (pos m, suc (length cs))) k)

read_ℤ-show_ℤ :
    (z : ℤ)
    → ltb (magnitude z) 9000000000000000 ≡ true
    → read_ℤ (show_ℤ z) ≡ some (z, length (show_ℤ z))
unfolding show_ℤ
read_ℤ-show_ℤ (pos n) h =
    read_ℤ-digits (to_string n) n (to_string-IsDigits n) (to_string-IsNumberText n).0
      (read-to_string n (ground arith))
read_ℤ-show_ℤ (negsuc n) h =
    let e : n + 1 ≡ suc n = omega arith in
    let k : negated (n + 1) ≡ negsuc n = rw e refl in
    unfold read_ℤ in
    rw (read-to_string (n + 1) (ground arith))
      (ap (λ (z : ℤ). some (z, suc (length (to_string (n + 1))))) k)

before_point-digits : (text : Bytes) → IsDigits text → before_point text ≡ none
unfolding before_point
before_point-digits [] h = refl
before_point-digits (c ∷ cs) h =
    let digit : (c == b'.') ≡ false = ground arith in rw (digit, before_point-digits cs h.1) refl

before_point-show_ℤ : (z : ℤ) → before_point (show_ℤ z) ≡ none
unfolding show_ℤ before_point
before_point-show_ℤ (pos n) = before_point-digits (to_string n) (to_string-IsDigits n)
before_point-show_ℤ (negsuc n) =
    rw (before_point-digits (to_string (n + 1)) (to_string-IsDigits (n + 1))) refl

read_numeral-whole :
    (text : Bytes) (z : ℤ) (k : ℕ)
    → before_point text ≡ none
    → read_ℤ text ≡ some (z, k)
    → read_numeral text ≡ some (whole z, k)
unfolding read_numeral
read_numeral-whole text z k e r = ap (read_from text) e ∙ ap numeral_of r

read_whole :
    (v : Numeral)
    → is_finite v ≡ true
    → is_integral v ≡ true
    → read_numeral (show_ℤ (to_long v)) ≡ some (whole (to_long v), length (show_ℤ (to_long v)))
read_whole (whole z) h k =
    read_numeral-whole (show_ℤ z) z (length (show_ℤ z)) (before_point-show_ℤ z) (read_ℤ-show_ℤ z h)
read_whole (half n) h k = cc

print_half : (v : Numeral) → is_finite v ≡ true → is_integral v ≡ false → IsNumberText (print_g v)
print_half (whole z) h k = cc
print_half (half n) h k =
    let (some_digit, numbers) = to_string-IsNumberText n in
    (
      nonempty (to_string n) some_digit,
      All-append (λ c. is_number_char c ≡ true) (to_string n) (codes ".5") numbers
          (refl, (refl, tt)),
    )
  where
    nonempty : (s : Bytes) → is_empty s ≡ false → is_empty (s ++ codes ".5") ≡ false
    nonempty [] e = refl
    nonempty (c ∷ cs) e = refl

pub numerals-Documented : Documented numerals
numerals-Documented = record { read_integer = read_whole; print_g-IsNumberText = print_half }

-- {"name": "é\n", "list": [-42, {}, 12.5]}
abbrev sample : Json Numeral
sample = object (
    member (codes "name") (string (0xc3 ∷ 0xa9 ∷ 10 ∷ [])) (
      member (codes "list")
        (array
          (cons (number (whole (negsuc 41))) (cons (object end) (cons (number (half 12)) nil))))
        end))

sample_text :
    dump numerals none true sample ≡ codes "{\"name\":\"\\u00e9\\n\",\"list\":[-42,{},12.5]}"
unfolding dump write write_string write_chars piece write_wide lead continue_code_point write_char
    write_escaped_code_point escape_unit write_number show_ℤ to_string digits new_line
sample_text = refl

text_sample :
    parse numerals (codes "{\"a\": [1.5, \"x\\u00e9\"], \"a\": null }")
    ≡ value (object (member (codes "a") null end))
unfolding parse parse_value parse_value_inner parse_array array_round parse_object object_round
    parse_number number_token loop skip_whitespace strip literal parse_string string_round
    parse_escape parse_unicode parse_hex4 hex_digits hex_value append_utf8 simple_escape push_item
    set_member bytes_eq read_numeral before_point read_ℤ read
text_sample = refl

below_surrogates : (cps : List ℕ) → All (λ c. c < 0xd800) cps → All IsScalar cps
below_surrogates [] h = tt
below_surrogates (c ∷ cps) h = ((omega arith, inl h.0), below_surrogates cps h.1)

sample-Fits : Fits numerals true sample 64
unfolding Fits bytes_eq append_utf8 reads_whole read_numeral before_point read_ℤ read to_string
    digits
sample-Fits = (
  (codes "name", below_surrogates (codes "name") (omega arith), refl),
  (0xe9 ∷ 10 ∷ [], below_surrogates (0xe9 ∷ 10 ∷ []) (omega arith), refl),
  (refl, tt),
  (
    (codes "list", below_surrogates (codes "list") (omega arith), refl),
    (refl, (tt, (refl, tt))),
    tt,
    tt,
  ),
)

parse-dump_example :
    parse numerals (dump numerals (some 2) true sample) ≡ value (reread numerals sample)
parse-dump_example = parse-dump numerals numerals-Documented (some 2) true sample sample-Fits

parse-IsDecided_example : IsDecided numerals (codes "[1,") (parse numerals (codes "[1,"))
parse-IsDecided_example = parse-IsDecided numerals (codes "[1,")

lines-IsBlank : (n : ℕ) → All IsBlank (replicate n (10 ∷ []))
lines-IsBlank zero = tt
lines-IsBlank (suc n) = ((refl, tt), lines-IsBlank n)

-- Each bracket is on a line of its own.
parse-nesting_too_deep_example :
    parse numerals (opened (replicate 64 (10 ∷ [])) (32 ∷ 49 ∷ codes "]"))
    ≡ error (
        codes "nesting too deep at offset "
        ++ to_string (
            length (opened (replicate 64 (10 ∷ [])) (32 ∷ 49 ∷ codes "]"))
            - length (49 ∷ codes "]")))
parse-nesting_too_deep_example =
    parse-nesting_too_deep numerals (32 ∷ []) 49 (codes "]") (refl, tt) refl refl
      (replicate 64 (10 ∷ [])) (lines-IsBlank 64) refl

dump-IsAscii_example : IsAscii (dump numerals none true sample)
dump-IsAscii_example = dump-IsAscii numerals print_half none sample
