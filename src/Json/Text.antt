-- ===== src/Json/Text.antt =====
-- `writeEscapedCodePoint` and `writeString` of daemon/src/json.hpp.
use plasma_network_health.Prelude.{
  ℕ, zero, suc, ◌+◌, ◌-◌, ◌*◌, ◌/◌, ◌%◌, Bool, true, false, ◌&&◌, Option, some, none, [], ◌∷◌, ◌++◌,
  Bytes, codes, ltb, leb, ◌==◌, if◌then◌else◌, length,
}

-- A digit of `%x`.
abbrev pub hex_char : ℕ → ℕ
hex_char d = if ltb d 10 then b'0' + d else b'a' + d - 10

-- `\u%04x` of a value below 0x10000.
unfoldable pub escape_unit : ℕ → Bytes
escape_unit v =
    b'\\'
    ∷ b'u'
    ∷ hex_char (v / 4096 % 16)
    ∷ hex_char (v / 256 % 16)
    ∷ hex_char (v / 16 % 16)
    ∷ hex_char (v % 16)
    ∷ []

unfoldable pub write_escaped_code_point : ℕ → Bytes
unfolding escape_unit
write_escaped_code_point cp =
    let value = cp - 0x10000 in
    if ltb cp 0x10000
    then escape_unit cp
    else escape_unit (0xd800 + value / 1024) ++ escape_unit (0xdc00 + value % 1024)

-- The `switch` of writeString.
unfoldable pub write_char : ℕ → Bytes
unfolding write_escaped_code_point
write_char c =
    if c == b'"'
    then b'\\' ∷ b'"' ∷ []
    else if c == b'\\'
    then b'\\' ∷ b'\\' ∷ []
    else if c == 8
    then b'\\' ∷ b'b' ∷ []
    else if c == 12
    then b'\\' ∷ b'f' ∷ []
    else if c == 10
    then b'\\' ∷ b'n' ∷ []
    else if c == 13
    then b'\\' ∷ b'r' ∷ []
    else if c == 9
    then b'\\' ∷ b't' ∷ []
    else if ltb c 0x20
    then write_escaped_code_point c
    else c ∷ []

-- The bits of a leading byte that belong to the code point, and how many bytes follow it.
unfoldable pub lead : ℕ → Option (ℕ × ℕ)
lead c =
    if leb 0xc0 c && ltb c 0xe0
    then some (c % 32, 1)
    else if leb 0xe0 c && ltb c 0xf0
    then some (c % 16, 2)
    else if leb 0xf0 c && ltb c 0xf8
    then some (c % 8, 3)
    else none

-- The loop over `extra` continuation bytes, on a text that is long enough.
unfoldable pub continue_code_point : ℕ → ℕ → Bytes → Option ℕ
continue_code_point zero cp rest = some cp
continue_code_point (suc extra) cp [] = none
continue_code_point (suc extra) cp (b ∷ rest) =
    let more = continue_code_point extra (cp * 64 + b % 64) rest in
    if leb 0x80 b && ltb b 0xc0 then more else none

abbrev pub replacement : Bytes
replacement = codes "\\ufffd"

-- What is written for a byte, how many of the bytes after it are done with, and whether the loop
-- breaks.
pub record Piece : Type 0 where
  pub text : Bytes
  pub skip : ℕ
  pub stop : Bool

abbrev continued : ℕ → Option ℕ → Piece
continued extra none = record { text = replacement; skip = 0; stop = false }
continued extra (some cp) = record {
  text = write_escaped_code_point cp;
  skip = extra;
  stop = false;
}

abbrev wide_from : Option (ℕ × ℕ) → Bytes → Piece
wide_from none rest = record { text = replacement; skip = 0; stop = false }
wide_from (some (bits, extra)) rest =
    if ltb (length rest) extra
    then record { text = replacement; skip = 0; stop = true }
    else continued extra (continue_code_point extra bits rest)

unfoldable pub write_wide : ℕ → Bytes → Piece
unfolding lead
write_wide c rest = wide_from (lead c) rest

unfoldable pub piece : Bool → ℕ → Bytes → Piece
unfolding write_wide write_char
piece ascii_only c rest =
    if ascii_only && leb 0x80 c
    then write_wide c rest
    else record { text = write_char c; skip = 0; stop = false }

-- The loop of writeString; the number counts the bytes that `i += extra` passes over.
unfoldable pub write_chars : Bool → ℕ → Bytes → Bytes
write_chars ascii_only skip [] = []
write_chars ascii_only (suc skip) (c ∷ rest) = write_chars ascii_only skip rest
write_chars ascii_only zero (c ∷ rest) =
    let p = piece ascii_only c rest in
    p.text ++ elim p.stop [ true ↦ [] | false ↦ write_chars ascii_only p.skip rest ]

unfoldable pub write_string : Bool → Bytes → Bytes
unfolding write_chars
write_string ascii_only s = b'"' ∷ (write_chars ascii_only 0 s ++ (b'"' ∷ []))
