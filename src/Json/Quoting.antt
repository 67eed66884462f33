-- ===== src/Json/Quoting.antt =====
-- A written string is read back: any bytes as they are, and UTF-8 through escapes.
use plasma_network_health.Prelude.{
  ℕ, zero, suc, ◌<◌, ◌≤◌, ◌≡◌, inl, inr, refl, ap, ◌∙◌, Bool, true, false, List, [], ◌∷◌, ◌++◌,
  append_assoc, append-nil, arith, Bytes, ltb, length, length-append, All, Bool-cases,
}
use plasma_network_health.Json.Text.{
  write_escaped_code_point, escape_unit, write_char, piece, write_chars, write_string,
}
use plasma_network_health.Json.Reader.{ok, again, loop, append_utf8, string_round, parse_string}
use plasma_network_health.Json.Strings.{
  loop-again, loop-leave, IsScalar, string_round-escaped, string_round-write_char,
}
use plasma_network_health.Json.Escaping.{escaped, escaped_wide, write_chars-utf8}

-- The bytes of a text in UTF-8.
abbrev pub utf8 : List ℕ → Bytes
utf8 [] = []
utf8 (cp ∷ cps) = append_utf8 cp ++ utf8 cps

-- What writeString can write: any bytes, or UTF-8 if only ASCII may come out.
abbrev pub IsWritable : Bool → Bytes → Type 0
IsWritable false s = Unit
IsWritable true s = (cps : List ℕ) × All IsScalar cps × (s ≡ utf8 cps)

-- The quote ends the loop.
closing : (f : ℕ) (out rest : Bytes) → loop string_round (suc f) out (b'"' ∷ rest) ≡ ok out rest
unfolding string_round
closing f out rest = loop-leave string_round f out (b'"' ∷ rest) (ok out rest) refl

-- Pieces, each of which one round reads.
Pieces-step :
    (f : ℕ) (out p more rest : Bytes) (text : Bytes)
    → string_round out (p ++ (text ++ rest)) ≡ again (out ++ more) (text ++ rest)
    → loop string_round (suc f) out ((p ++ text) ++ rest)
      ≡ loop string_round f (out ++ more) (text ++ rest)
Pieces-step f out p more rest text e =
    rw (append_assoc p text rest)
      (loop-again string_round f out (p ++ (text ++ rest)) (out ++ more) (text ++ rest) e)

write_chars-raw :
    (c : ℕ) (s : Bytes) → write_chars false 0 (c ∷ s) ≡ write_char c ++ write_chars false 0 s
unfolding write_chars piece
write_chars-raw c s = refl

raw-Reads :
    (s out rest : Bytes) (f : ℕ)
    → length s < f
    → loop string_round f out (write_chars false 0 s ++ (b'"' ∷ rest)) ≡ ok (out ++ s) rest
raw-Reads s out rest zero h = absurd (omega arith)
raw-Reads [] out rest (suc f) h = unfold write_chars in rw (append-nil out) (closing f out rest)
raw-Reads (c ∷ s) out rest (suc f) h =
    let text = write_chars false 0 s in
    rw (write_chars-raw c s) (
      Pieces-step f out (write_char c) (c ∷ []) (b'"' ∷ rest) text
        (string_round-write_char c out (text ++ (b'"' ∷ rest)))
      ∙ (raw-Reads s (out ++ (c ∷ [])) rest f (omega arith)
          ∙ ap (λ (t : Bytes). ok t rest) (append_assoc out (c ∷ []) s)))

-- The escape of a code point is read as its bytes.
string_round-escaped_utf8 :
    (cp : ℕ) (out rest : Bytes)
    → IsScalar cp
    → string_round out (escaped cp ++ rest) ≡ again (out ++ append_utf8 cp) rest
unfolding escaped append_utf8
string_round-escaped_utf8 cp out rest h = elim (Bool-cases (ltb cp 0x80)) [
  | inl one ↦ rw one (string_round-write_char cp out rest)
  | inr more ↦
      ap (λ (t : Bytes). string_round out (t ++ rest)) (escaped_wide cp more)
      ∙ string_round-escaped cp out rest h
]

utf8-Reads :
    (cps : List ℕ) (out rest : Bytes) (f : ℕ)
    → All IsScalar cps
    → length cps < f
    → loop string_round f out (write_chars true 0 (utf8 cps) ++ (b'"' ∷ rest))
      ≡ ok (out ++ utf8 cps) rest
utf8-Reads cps out rest zero x h = absurd (omega arith)
utf8-Reads [] out rest (suc f) x h = unfold write_chars in rw (append-nil out) (closing f out rest)
utf8-Reads (cp ∷ cps) out rest (suc f) x h =
    let text = write_chars true 0 (utf8 cps) in
    rw (write_chars-utf8 cp (utf8 cps) x.0.0) (
      Pieces-step f out (escaped cp) (append_utf8 cp) (b'"' ∷ rest) text
        (string_round-escaped_utf8 cp out (text ++ (b'"' ∷ rest)) x.0)
      ∙ (utf8-Reads cps (out ++ append_utf8 cp) rest f x.1 (omega arith)
          ∙ ap (λ (t : Bytes). ok t rest) (append_assoc out (append_utf8 cp) (utf8 cps))))

write_char_nonempty : (c : ℕ) → 0 < length (write_char c)
unfolding write_char
write_char_nonempty c = ground arith

escaped_nonempty : (cp : ℕ) → 0 < length (escaped cp)
unfolding escaped write_escaped_code_point escape_unit
escaped_nonempty cp = ground (arith, write_char_nonempty cp)

length-write_chars_raw : (s : Bytes) → length s ≤ length (write_chars false 0 s)
length-write_chars_raw [] = omega arith
length-write_chars_raw (c ∷ s) = rw (write_chars-raw c s) (
    omega (
      arith,
      length-append (write_char c) (write_chars false 0 s),
      write_char_nonempty c,
      length-write_chars_raw s,
    ))

length-write_chars-utf8 :
    (cps : List ℕ) → All IsScalar cps → length cps ≤ length (write_chars true 0 (utf8 cps))
length-write_chars-utf8 [] h = omega arith
length-write_chars-utf8 (cp ∷ cps) h = rw (write_chars-utf8 cp (utf8 cps) h.0.0) (
    omega (
      arith,
      length-append (escaped cp) (write_chars true 0 (utf8 cps)),
      escaped_nonempty cp,
      length-write_chars-utf8 cps h.1,
    ))

-- The loop with the fuel that parseString has.
chars-Reads :
    (ascii_only : Bool) (s rest : Bytes)
    → IsWritable ascii_only s
    → let text = write_chars ascii_only 0 s ++ (b'"' ∷ rest) in
      loop string_round (suc (length text)) [] text ≡ ok s rest
chars-Reads false s rest h =
    raw-Reads s [] rest (suc (length (write_chars false 0 s ++ (b'"' ∷ rest))))
      (omega (arith, length-write_chars_raw s, length-append (write_chars false 0 s) (b'"' ∷ rest)))
chars-Reads true s rest (cps, scalar, e) =
    let text = write_chars true 0 (utf8 cps) ++ (b'"' ∷ rest) in
    rw e (
      utf8-Reads cps [] rest (suc (length text)) scalar (
        omega (
          arith,
          length-write_chars-utf8 cps scalar,
          length-append (write_chars true 0 (utf8 cps)) (b'"' ∷ rest),
        )))

pub parse_string-write_string :
    (ascii_only : Bool) (s rest : Bytes)
    → IsWritable ascii_only s
    → parse_string (write_string ascii_only s ++ rest) ≡ ok s rest
unfolding parse_string write_string
parse_string-write_string ascii_only s rest h =
    rw (append_assoc (write_chars ascii_only 0 s) (b'"' ∷ []) rest)
      (chars-Reads ascii_only s rest h)
