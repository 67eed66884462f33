-- ===== src/Json/Reader.antt =====
-- The `Parser` of daemon/src/json.hpp: its result, its loops, and the reading of literals and strings.
use plasma_network_health.Prelude.{
  ℕ, zero, suc, ◌+◌, ◌-◌, ◌*◌, ◌/◌, ◌%◌, Bool, not, ◌&&◌, ◌||◌, Option, some, none, [], ◌∷◌, ◌++◌,
  Bytes, codes, ltb, leb, ◌==◌, if◌then◌else◌, length,
}

-- The parser's position is what is left of the text. A failure is the message and the position that
-- `fail` takes; since every failure is passed on, the first is the only one.
pub data Parsed {ℓ} (A : Type ℓ) : Type ℓ where
  ok : A → Bytes → Parsed A
  failed : Bytes → Bytes → Parsed A
  out_of_fuel : Parsed A

-- One round of a `while (true)`: on with new variables, or out of the loop.
pub data Round {ℓ} (A : Type ℓ) : Type ℓ where
  again : A → Bytes → Round A
  leave : Parsed A → Round A

abbrev pub after_round {ℓ} : {A : Type ℓ} → (A → Bytes → Parsed A) → Round A → Parsed A
after_round next (again b left) = next b left
after_round next (leave r) = r

unfoldable pub loop {ℓ} : {A : Type ℓ} → (A → Bytes → Round A) → ℕ → A → Bytes → Parsed A
loop round zero a rest = out_of_fuel
loop round (suc fuel) a rest = after_round (loop round fuel) (round a rest)

abbrev pub bind {ℓ κ} : {A : Type ℓ} {B : Type κ} → Parsed A → (A → Bytes → Parsed B) → Parsed B
bind (ok a rest) f = f a rest
bind (failed message rest) f = failed message rest
bind out_of_fuel f = out_of_fuel

abbrev pub bind_round {ℓ κ} : {A : Type ℓ} {B : Type κ} → Parsed A → (A → Bytes → Round B) → Round B
bind_round (ok a rest) f = f a rest
bind_round (failed message rest) f = leave (failed message rest)
bind_round out_of_fuel f = leave out_of_fuel

abbrev pub is_space : ℕ → Bool
is_space c = c == 32 || c == 9 || c == 10 || c == 13

unfoldable pub skip_whitespace : Bytes → Bytes
skip_whitespace [] = []
skip_whitespace (c ∷ rest) =
    let more = skip_whitespace rest in if is_space c then more else c ∷ rest

unfoldable pub strip : Bytes → Bytes → Option Bytes
strip [] text = some text
strip (w ∷ ws) [] = none
strip (w ∷ ws) (c ∷ text) = if c == w then strip ws text else none

abbrev literal_from {ℓ} : {A : Type ℓ} → A → Bytes → Option Bytes → Parsed A
literal_from a text none = failed (codes "invalid literal") text
literal_from a text (some rest) = ok a rest

unfoldable pub literal {ℓ} : {A : Type ℓ} → Bytes → A → Bytes → Parsed A
unfolding strip
literal word a text = literal_from a text (strip word text)

unfoldable pub append_utf8 : ℕ → Bytes
append_utf8 cp =
    if ltb cp 0x80
    then cp ∷ []
    else if ltb cp 0x800
    then (0xc0 + cp / 64) ∷ (0x80 + cp % 64) ∷ []
    else if ltb cp 0x10000
    then (0xe0 + cp / 4096) ∷ (0x80 + cp / 64 % 64) ∷ (0x80 + cp % 64) ∷ []
    else (0xf0 + cp / 262144)
      ∷ (0x80 + cp / 4096 % 64)
      ∷ (0x80 + cp / 64 % 64)
      ∷ (0x80 + cp % 64)
      ∷ []

unfoldable pub hex_value : ℕ → Option ℕ
hex_value c =
    if leb b'0' c && leb c b'9'
    then some (c - b'0')
    else if leb b'a' c && leb c b'f'
    then some (c - b'a' + 10)
    else if leb b'A' c && leb c b'F'
    then some (c - b'A' + 10)
    else none

abbrev pub hex_next : Option ℕ → Bytes → (ℕ → Parsed ℕ) → Parsed ℕ
hex_next none rest next = failed (codes "invalid hex digit") rest
hex_next (some d) rest next = next d

-- The loop of parseHex4, with the value so far, on a text that is long enough.
unfoldable pub hex_digits : ℕ → ℕ → Bytes → Parsed ℕ
hex_digits zero value rest = ok value rest
hex_digits (suc n) value [] = failed (codes "invalid hex digit") []
hex_digits (suc n) value (c ∷ rest) =
    hex_next (hex_value c) rest (λ d. hex_digits n (value * 16 + d) rest)

unfoldable pub parse_hex4 : Bytes → Parsed ℕ
unfolding hex_digits
parse_hex4 rest =
    if ltb (length rest) 4 then failed (codes "truncated \\u escape") rest else hex_digits 4 0 rest

-- A second unit after a leading surrogate: one code point together, or two.
abbrev pub surrogates : ℕ → ℕ → Bytes
surrogates cp low =
    if leb 0xdc00 low && leb low 0xdfff
    then append_utf8 (0x10000 + (cp - 0xd800) * 1024 + (low - 0xdc00))
    else append_utf8 cp ++ append_utf8 low

abbrev pub second_unit : ℕ → Bytes → Parsed Bytes
second_unit cp (b ∷ u ∷ rest) =
    if b == b'\\' && u == b'u'
    then bind (parse_hex4 rest) (λ low left. ok (surrogates cp low) left)
    else ok (append_utf8 cp) (b ∷ u ∷ rest)
second_unit cp rest = ok (append_utf8 cp) rest

-- The rest of a `\u` escape: the bytes that it stands for.
unfoldable pub parse_unicode : Bytes → Parsed Bytes
parse_unicode rest = bind (parse_hex4 rest) (λ cp left.
    if leb 0xd800 cp && leb cp 0xdbff then second_unit cp left else ok (append_utf8 cp) left)

unfoldable pub simple_escape : ℕ → Option ℕ
simple_escape c =
    if c == b'"' || c == b'\\' || c == b'/'
    then some c
    else if c == b'b'
    then some 8
    else if c == b'f'
    then some 12
    else if c == b'n'
    then some 10
    else if c == b'r'
    then some 13
    else if c == b't'
    then some 9
    else none

abbrev pub escape_found : Option ℕ → Bytes → Bytes → Round Bytes
escape_found (some c) out rest = again (out ++ (c ∷ [])) rest
escape_found none out rest = leave (failed (codes "invalid escape") rest)

unfoldable pub parse_escape : Bytes → Bytes → Round Bytes
unfolding parse_unicode simple_escape
parse_escape out [] = leave (failed (codes "unterminated escape") [])
parse_escape out (e ∷ rest) =
    if e == b'u'
    then bind_round (parse_unicode rest) (λ more left. again (out ++ more) left)
    else escape_found (simple_escape e) out rest

unfoldable pub string_round : Bytes → Bytes → Round Bytes
unfolding parse_escape
string_round out [] = leave (failed (codes "unterminated string") [])
string_round out (c ∷ rest) =
    if c == b'"'
    then leave (ok out rest)
    else if not (c == b'\\')
    then again (out ++ (c ∷ [])) rest
    else parse_escape out rest

unfoldable pub parse_string : Bytes → Parsed Bytes
unfolding string_round
parse_string [] = failed (codes "expected string") []
parse_string (c ∷ rest) =
    if c == b'"'
    then loop string_round (suc (length rest)) [] rest
    else failed (codes "expected string") (c ∷ rest)
