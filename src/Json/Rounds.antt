-- ===== src/Json/Rounds.antt =====
-- One round of the loops of parseArray and parseObject, and the first characters of what is written.
use plasma_network_health.Prelude.{
  ℕ, zero, suc, ◌≡◌, refl, inl, inr, Bool, true, false, Option, some, [], ◌∷◌, ◌++◌, arith, Bytes,
  codes, ◌==◌, length, Bool-cases,
}
use plasma_network_health.Json.Double.{
  Doubles, Documented, reads_whole, reads_whole-read, show_ℤ, is_number_char, IsNumberText,
}
use plasma_network_health.Json.Value.{
  Json, null, boolean, number, string, array, object, nil, cons, end, member,
}
use plasma_network_health.Json.Text.{write_string}
use plasma_network_health.Json.Reader.{ok, skip_whitespace, is_space, literal}
use plasma_network_health.Json.Write.{write_number, write}
use plasma_network_health.Json.Parse.{parse_number, parse_value_inner, parse_value}
use plasma_network_health.Json.Printed.{
  reread_number, IsBlank, skip_whitespace-blank, Stops, parse_number-append, show_ℤ-IsNumberText,
}

-- A text begins with a character that no white space, comma or bracket is.
pub record Begins (text : Bytes) : Type 0 where
  pub first : ℕ
  pub others : Bytes
  pub split : text ≡ first ∷ others
  pub no_space : is_space first ≡ false
  pub no_bracket : (first == b']') ≡ false

abbrev begins :
    (c : ℕ) (others : Bytes) → is_space c ≡ false → (c == b']') ≡ false → Begins (c ∷ others)
begins c others h k = record {
  first = c;
  others = others;
  split = refl;
  no_space = h;
  no_bracket = k;
}

module _ (ds : Doubles) where
  pub parse_value-blank :
      (n : ℕ) (ws text rest : Bytes) (v : Json ds.Double)
      → IsBlank ws
      → parse_value ds n text ≡ ok v rest
      → parse_value ds n (ws ++ text) ≡ ok v rest
  unfolding parse_value parse_value_inner
  parse_value-blank zero ws text rest v h e = cc
  parse_value-blank (suc n) ws text rest v h e = rw (skip_whitespace-blank ws text h) e

  number_inner :
      (n c : ℕ) (text rest : Bytes) (v : Json ds.Double)
      → is_number_char c ≡ true
      → parse_number ds (c ∷ text) ≡ ok v rest
      → parse_value ds (suc n) (c ∷ text) ≡ ok v rest
  unfolding parse_value parse_value_inner skip_whitespace
  number_inner n c text rest v h e =
      let space : is_space c ≡ false = ground arith in
      let a : (c == b'n') ≡ false = ground arith in
      let b : (c == b't') ≡ false = ground arith in
      let d : (c == b'f') ≡ false = ground arith in
      let q : (c == b'"') ≡ false = ground arith in
      let l : (c == b'[') ≡ false = ground arith in
      let o : (c == b'{') ≡ false = ground arith in rw (space, a, b, d, q, l, o) e

  number_text-Reads :
      (n : ℕ) (text rest : Bytes) (v : ds.Double)
      → IsNumberText text
      → ds.read text ≡ some (v, length text)
      → Stops rest
      → parse_value ds (suc n) (text ++ rest) ≡ ok (number v) rest
  number_text-Reads n [] rest v h e k = let x : true ≡ false = h.0 in cc
  number_text-Reads n (c ∷ text) rest v h e k =
      number_inner n c (text ++ rest) rest (number v) h.1.0
        (parse_number-append ds (c ∷ text) rest v h e k)

  null-Reads : (n : ℕ) (rest : Bytes) → parse_value ds (suc n) (codes "null" ++ rest) ≡ ok null rest
  unfolding parse_value parse_value_inner skip_whitespace literal
  null-Reads n rest = refl

  module _ (docs : Documented ds) where
    pub write_number-Reads :
        (n : ℕ) (v : ds.Double) (rest : Bytes)
        → reads_whole ds v ≡ true
        → Stops rest
        → parse_value ds (suc n) (write_number ds v ++ rest) ≡ ok (reread_number ds v) rest
    unfolding write_number reread_number
    write_number-Reads n v rest whole k = elim (Bool-cases (ds.is_finite v)) [
      | inr e ↦ rw e (null-Reads n rest)
      | inl e ↦ elim (Bool-cases (ds.is_integral v)) [
        | inl i ↦
            rw (e, i, docs.read_integer v e i)
              (number_text-Reads n (show_ℤ (ds.to_long v)) rest (ds.of_ℤ (ds.to_long v))
                (show_ℤ-IsNumberText (ds.to_long v)) (docs.read_integer v e i) k)
        | inr i ↦
            let (w, r) = reads_whole-read ds v e i whole in
            rw (e, i, r)
              (number_text-Reads n (ds.print_g v) rest w (docs.print_g-IsNumberText v e i) r k)
      ]
    ]

    IsNumberText-Begins : (text : Bytes) → IsNumberText text → Begins text
    IsNumberText-Begins [] h = let x : true ≡ false = h.0 in cc
    IsNumberText-Begins (c ∷ text) h = record {
      first = c;
      others = text;
      split = refl;
      no_space = ground arith;
      no_bracket = ground arith;
    }

    write_number-Begins : (v : ds.Double) → Begins (write_number ds v)
    unfolding write_number
    write_number-Begins v = elim (Bool-cases (ds.is_finite v)) [
      | inr e ↦ rw e (begins b'n' (codes "ull") refl refl)
      | inl e ↦ elim (Bool-cases (ds.is_integral v)) [
        | inl i ↦ rw (e, i) (IsNumberText-Begins _ (show_ℤ-IsNumberText (ds.to_long v)))
        | inr i ↦ rw (e, i) (IsNumberText-Begins _ (docs.print_g-IsNumberText v e i))
      ]
    ]

    pub write-Begins :
        (indent : Option ℕ) (ascii_only : Bool) (depth : ℕ) (v : Json ds.Double)
        → Begins (write ds indent ascii_only depth v)
    unfolding write write_string
    write-Begins indent ascii_only depth null = begins b'n' (codes "ull") refl refl
    write-Begins indent ascii_only depth (boolean true) = begins b't' (codes "rue") refl refl
    write-Begins indent ascii_only depth (boolean false) = begins b'f' (codes "alse") refl refl
    write-Begins indent ascii_only depth (number v) = write_number-Begins v
    write-Begins indent ascii_only depth (string s) = begins b'"' (_) refl refl
    write-Begins indent ascii_only depth (array nil) = begins b'[' (_) refl refl
    write-Begins indent ascii_only depth (array (cons x xs)) = begins b'[' (_) refl refl
    write-Begins indent ascii_only depth (object end) = begins b'{' (_) refl refl
    write-Begins indent ascii_only depth (object (member k v ms)) = begins b'{' (_) refl refl
