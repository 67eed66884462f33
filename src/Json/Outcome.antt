-- ===== src/Json/Outcome.antt =====
-- Every text has a value or an error.
use plasma_network_health.Prelude.{
  ℕ, zero, suc, ◌-◌, ◌≤◌, ◌≡◌, ◌⊎◌, inl, inr, refl, true, false, not, Option, some, none, [], ◌∷◌,
  ◌++◌, arith, Bytes, codes, ◌==◌, length, is_empty, if-cases, All, Bool-cases,
}
use plasma_network_health.Util.Decimal.{to_string}
use plasma_network_health.Json.Double.{Doubles}
use plasma_network_health.Json.Value.{
  Json, null, boolean, Items, nil, Members, end, push_item, set_member,
}
use plasma_network_health.Json.Reader.{
  Parsed, ok, failed, out_of_fuel, is_space, skip_whitespace, parse_string,
}
use plasma_network_health.Json.Parse.{
  number_token, number_read, parse_number, array_next, array_round, array_from, as_array,
  parse_array, object_next, object_value, object_round, object_from, as_object, parse_object,
  inner_at, parse_value_inner, parse_value, parse, finish, error_text, Document, value, error,
  stuck,
}
use plasma_network_health.Json.Progress.{
  Within, Advances, Within-le, Advances-lt, bind-Within, bind_round-Advances, loop-Within,
  length-skip_whitespace, literal-Within, parse_string-Within,
}

length-number_token : (text : Bytes) → length (number_token text).1 ≤ length text
unfolding number_token
length-number_token [] = omega arith
length-number_token (c ∷ text) = ground (arith, length-number_token text)

skip_whitespace-empty :
    (left : Bytes) → is_empty (skip_whitespace left) ≡ true → All (λ c. is_space c ≡ true) left
unfolding skip_whitespace
skip_whitespace-empty [] h = tt
skip_whitespace-empty (c ∷ left) h = elim (Bool-cases (is_space c)) [
  | inl e ↦ (e, skip_whitespace-empty left (ground (h, e, arith)))
  | inr e ↦ ground (arith, h, e)
]

skip_whitespace-nonempty :
    (left : Bytes) → is_empty (skip_whitespace left) ≡ false → ¬ All (λ c. is_space c ≡ true) left
unfolding skip_whitespace
skip_whitespace-nonempty [] h blank = cc
skip_whitespace-nonempty (c ∷ left) h blank =
    let e = blank.0 in skip_whitespace-nonempty left (ground (arith, h, e)) blank.1

module _ (ds : Doubles) where
  number_read-Within :
      (text token left : Bytes) (o : Option (ds.Double × ℕ))
      → length left ≤ length text
      → Within text (number_read ds token left o)
  number_read-Within text token left none h = h
  number_read-Within text token left (some (v, consumed)) h =
      if-cases (Within text) (not (consumed == length token)) _ _ (λ k. h) (λ k. h)

  parse_number-Within : (text : Bytes) → Within text (parse_number ds text)
  unfolding parse_number
  parse_number-Within text =
      let (token, left) = number_token text in
      if-cases (Within text) (is_empty token) _ _ (λ h. omega arith)
        (λ h. number_read-Within text token left (ds.read token) (length-number_token text))

  module _ (parse_next : Bytes → Parsed (Json ds.Double))
      (next : (text : Bytes) → Within text (parse_next text)) where
    array_next-Advances :
        (acc : Items ds.Double) (text : Bytes) → Advances text (array_next ds parse_next acc text)
    array_next-Advances acc [] = omega arith
    array_next-Advances acc (c ∷ text) =
        if-cases (Advances (c ∷ text)) (c == b',') _ _ (λ h. omega arith)
          (λ h.
            if-cases (Advances (c ∷ text)) (c == b']') _ _ (λ k. omega arith) (λ k. omega arith))

    array_round-Advances :
        (acc : Items ds.Double) (text : Bytes) → Advances text (array_round ds parse_next acc text)
    unfolding array_round
    array_round-Advances acc text =
        bind_round-Advances text (parse_next text) _ (next text) (λ v left.
          Advances-lt (skip_whitespace left) left _ (length-skip_whitespace left)
            (array_next-Advances (push_item v acc) (skip_whitespace left)))

    as_array-Within :
        (text : Bytes) (r : Parsed (Items ds.Double))
        → Within text r
        → Within text (as_array ds parse_next r)
    as_array-Within text r h = bind-Within text r _ h (λ xs left. omega arith)

    array_from-Within : (text : Bytes) → Within text (array_from ds parse_next text)
    array_from-Within [] =
        as_array-Within [] _ (loop-Within _ array_round-Advances 1 nil [] (omega arith))
    array_from-Within (c ∷ text) =
        if-cases (Within (c ∷ text)) (c == b']') _ _ (λ h. omega arith)
          (λ h. as_array-Within (c ∷ text) _ (
            loop-Within _ array_round-Advances (suc (length (c ∷ text))) nil (c ∷ text)
              (omega arith)))

    object_next-Advances :
        (acc : Members ds.Double) (text : Bytes)
        → Advances text (object_next ds parse_next acc text)
    object_next-Advances acc [] = omega arith
    object_next-Advances acc (c ∷ text) =
        if-cases (Advances (c ∷ text)) (c == b',') _ _ (λ h. omega arith)
          (λ h.
            if-cases (Advances (c ∷ text)) (c == b'}') _ _ (λ k. omega arith) (λ k. omega arith))

    object_value-Advances :
        (acc : Members ds.Double) (key text : Bytes)
        → Advances text (object_value ds parse_next acc key text)
    object_value-Advances acc key [] = omega arith
    object_value-Advances acc key (c ∷ text) =
        if-cases (Advances (c ∷ text)) (not (c == b':')) _ _ (λ h. omega arith)
          (λ h. Advances-lt text (c ∷ text) _ (omega arith) (
            bind_round-Advances text (parse_next text) _ (next text) (λ v left.
              Advances-lt (skip_whitespace left) left _ (length-skip_whitespace left)
                (object_next-Advances (set_member key v acc) (skip_whitespace left)))))

    object_round-Advances :
        (acc : Members ds.Double) (text : Bytes)
        → Advances text (object_round ds parse_next acc text)
    unfolding object_round
    object_round-Advances acc text =
        Advances-lt (skip_whitespace text) text _ (length-skip_whitespace text) (
          bind_round-Advances (skip_whitespace text) (parse_string (skip_whitespace text)) _
            (parse_string-Within (skip_whitespace text))
            (λ key left.
              Advances-lt (skip_whitespace left) left _ (length-skip_whitespace left)
                (object_value-Advances acc key (skip_whitespace left))))

    as_object-Within :
        (text : Bytes) (r : Parsed (Members ds.Double))
        → Within text r
        → Within text (as_object ds parse_next r)
    as_object-Within text r h = bind-Within text r _ h (λ ms left. omega arith)

    object_from-Within : (text : Bytes) → Within text (object_from ds parse_next text)
    object_from-Within [] =
        as_object-Within [] _ (loop-Within _ object_round-Advances 1 end [] (omega arith))
    object_from-Within (c ∷ text) =
        if-cases (Within (c ∷ text)) (c == b'}') _ _ (λ h. omega arith)
          (λ h. as_object-Within (c ∷ text) _ (
            loop-Within _ object_round-Advances (suc (length (c ∷ text))) end (c ∷ text)
              (omega arith)))

    inner_at-Within : (text : Bytes) → Within text (inner_at ds parse_next text)
    unfolding parse_array parse_object
    inner_at-Within [] = omega arith
    inner_at-Within (c ∷ text) =
        let whole : Bytes = c ∷ text in
        let after : (r : Parsed (Json ds.Double))
            → Within (skip_whitespace text) r
            → Within whole r =
          λ r w.
            Within-le (skip_whitespace text) whole r (omega (arith, length-skip_whitespace text))
              w in
        if-cases (Within whole) (c == b'n') _ _ (λ h. literal-Within (codes "null") null whole)
          (λ h1.
            if-cases (Within whole) (c == b't') _ _
              (λ h. literal-Within (codes "true") (boolean true) whole)
              (λ h2.
                if-cases (Within whole) (c == b'f') _ _
                  (λ h. literal-Within (codes "false") (boolean false) whole)
                  (λ h3.
                    if-cases (Within whole) (c == b'"') _ _
                      (λ h.
                        bind-Within whole (parse_string whole) _ (parse_string-Within whole)
                          (λ s left. omega arith))
                      (λ h4.
                        if-cases (Within whole) (c == b'[') _ _
                          (λ h. after _ (array_from-Within (skip_whitespace text)))
                          (λ h5.
                            if-cases (Within whole) (c == b'{') _ _
                              (λ h. after _ (object_from-Within (skip_whitespace text)))
                              (λ h6. parse_number-Within whole))))))

  parse_value-Within : (n : ℕ) (text : Bytes) → Within text (parse_value ds n text)
  unfolding parse_value parse_value_inner
  parse_value-Within zero text = omega arith
  parse_value-Within (suc n) text =
      Within-le (skip_whitespace text) text _ (length-skip_whitespace text)
        (inner_at-Within (parse_value ds n) (parse_value-Within n) (skip_whitespace text))

  -- A message with the offset of a position in the text, or what is said of trailing data.
  abbrev pub IsErrorOf : Bytes → Bytes → Type 0
  IsErrorOf text e =
      ((message : Bytes) × (offset : ℕ) × (offset ≤ length text)
        × (e ≡ message ++ (codes " at offset " ++ to_string offset)))
      ⊎ (e ≡ codes "trailing data after JSON document")

  -- A value that is followed by white space alone.
  abbrev pub IsWhole : Bytes → Json ds.Double → Type 0
  IsWhole text v =
      (blank : Bytes) × (parse_value ds 64 text ≡ ok v blank) × All (λ c. is_space c ≡ true) blank

  -- A value that is followed by something else.
  abbrev pub HasTrailing : Bytes → Type 0
  HasTrailing text =
      (v : Json ds.Double) × (left : Bytes) × (parse_value ds 64 text ≡ ok v left)
      × ¬ All (λ c. is_space c ≡ true) left

  -- A message with the offset of the position at which the reading of the value stopped.
  abbrev pub HasStopped : Bytes → Bytes → Type 0
  HasStopped text e =
      (message : Bytes) × (left : Bytes) × (parse_value ds 64 text ≡ failed message left)
      × (length left ≤ length text)
      × (e ≡ message ++ (codes " at offset " ++ to_string (length text - length left)))

  abbrev pub IsDecided : Bytes → Document ds → Type 0
  IsDecided text (value v) = IsWhole text v
  IsDecided text (error e) =
      HasStopped text e ⊎ (HasTrailing text × (e ≡ codes "trailing data after JSON document"))
  IsDecided text stuck = ⊥

  finish-IsDecided :
      (text : Bytes) (r : Parsed (Json ds.Double))
      → parse_value ds 64 text ≡ r
      → Within text r
      → IsDecided text (finish ds text r)
  unfolding error_text
  finish-IsDecided text (ok v left) e h =
      if-cases (IsDecided text) (is_empty (skip_whitespace left)) _ _
        (λ k. (left, e, skip_whitespace-empty left k))
        (λ k. inr ((v, left, e, λ blank. skip_whitespace-nonempty left k blank), refl))
  finish-IsDecided text (failed message left) e h = inl (message, left, e, h, refl)
  finish-IsDecided text out_of_fuel e h = h

  -- No loop is cut short: the document of a text is a value, which the text holds with nothing but
  -- white space behind it; or the message about trailing data, if a value is followed by something
  -- else; or the message with which the reading of the value failed, with the offset of a position in
  -- the text, the one at which it failed.
  pub parse-IsDecided : (text : Bytes) → IsDecided text (parse ds text)
  unfolding parse
  parse-IsDecided text =
      finish-IsDecided text (parse_value ds 64 text) refl (parse_value-Within 64 text)
