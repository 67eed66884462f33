-- ===== src/Json/Parse.antt =====
-- `parseValue`, `parseNumber`, `parseArray`, `parseObject` and `parse` of daemon/src/json.hpp.
use plasma_network_health.Prelude.{
  ℕ, zero, suc, ◌-◌, true, false, not, Option, some, none, [], ◌∷◌, ◌++◌, Bytes, codes, ◌==◌,
  if◌then◌else◌, length, is_empty,
}
use plasma_network_health.Util.Decimal.{to_string}
use plasma_network_health.Json.Double.{Doubles, is_number_char}
use plasma_network_health.Json.Value.{
  Json, null, boolean, number, string, array, object, Items, nil, Members, end, push_item,
  set_member,
}
use plasma_network_health.Json.Reader.{
  Parsed, ok, failed, out_of_fuel, Round, again, leave, loop, bind, bind_round, skip_whitespace,
  literal, parse_string,
}

-- The characters of a number in front of a text, and what follows them. The sign that the source looks for
-- first is one of those characters.
unfoldable pub number_token : Bytes → Bytes × Bytes
number_token [] = ([], [])
number_token (c ∷ rest) =
    let (token, left) = number_token rest in
    if is_number_char c then (c ∷ token, left) else ([], c ∷ rest)

module _ (ds : Doubles) where
  abbrev pub Value : Type 0
  Value = Json ds.Double

  abbrev pub number_read : Bytes → Bytes → Option (ds.Double × ℕ) → Parsed Value
  number_read token left none = failed (codes "malformed number") left
  number_read token left (some (v, consumed)) =
      if not (consumed == length token)
      then failed (codes "malformed number") left
      else ok (number v) left

  unfoldable pub parse_number : Bytes → Parsed Value
  unfolding number_token
  parse_number text =
      let (token, left) = number_token text in
      if is_empty token
      then failed (codes "unexpected character") text
      else number_read token left (ds.read token)

  -- The loops take parseValue for the next depth.
  module _ (parse_next : Bytes → Parsed Value) where
    abbrev pub array_next : Items ds.Double → Bytes → Round (Items ds.Double)
    array_next acc [] = leave (failed (codes "unterminated array") [])
    array_next acc (c ∷ rest) =
        if c == b','
        then again acc rest
        else if c == b']'
        then leave (ok acc rest)
        else leave (failed (codes "expected ',' or ']'") (c ∷ rest))

    unfoldable pub array_round : Items ds.Double → Bytes → Round (Items ds.Double)
    array_round acc text =
        bind_round (parse_next text) (λ v rest. array_next (push_item v acc) (skip_whitespace rest))

    abbrev pub as_array : Parsed (Items ds.Double) → Parsed Value
    as_array r = bind r (λ xs rest. ok (array xs) rest)

    abbrev pub array_from : Bytes → Parsed Value
    array_from [] = as_array (loop array_round 1 nil [])
    array_from (c ∷ rest) =
        if c == b']'
        then ok (array nil) rest
        else as_array (loop array_round (suc (length (c ∷ rest))) nil (c ∷ rest))

    unfoldable pub parse_array : Bytes → Parsed Value
    unfolding array_round
    parse_array rest = array_from (skip_whitespace rest)

    abbrev pub object_next : Members ds.Double → Bytes → Round (Members ds.Double)
    object_next acc [] = leave (failed (codes "unterminated object") [])
    object_next acc (c ∷ rest) =
        if c == b','
        then again acc rest
        else if c == b'}'
        then leave (ok acc rest)
        else leave (failed (codes "expected ',' or '}'") (c ∷ rest))

    abbrev pub object_value : Members ds.Double → Bytes → Bytes → Round (Members ds.Double)
    object_value acc key [] = leave (failed (codes "expected ':'") [])
    object_value acc key (c ∷ rest) =
        if not (c == b':')
        then leave (failed (codes "expected ':'") (c ∷ rest))
        else bind_round (parse_next rest)
            (λ v left. object_next (set_member key v acc) (skip_whitespace left))

    unfoldable pub object_round : Members ds.Double → Bytes → Round (Members ds.Double)
    object_round acc text =
        bind_round (parse_string (skip_whitespace text))
          (λ key rest. object_value acc key (skip_whitespace rest))

    abbrev pub as_object : Parsed (Members ds.Double) → Parsed Value
    as_object r = bind r (λ ms rest. ok (object ms) rest)

    abbrev pub object_from : Bytes → Parsed Value
    object_from [] = as_object (loop object_round 1 end [])
    object_from (c ∷ rest) =
        if c == b'}'
        then ok (object end) rest
        else as_object (loop object_round (suc (length (c ∷ rest))) end (c ∷ rest))

    unfoldable pub parse_object : Bytes → Parsed Value
    unfolding object_round
    parse_object rest = object_from (skip_whitespace rest)

    abbrev pub inner_at : Bytes → Parsed Value
    inner_at [] = failed (codes "unexpected end of input") []
    inner_at (c ∷ rest) =
        if c == b'n'
        then literal (codes "null") null (c ∷ rest)
        else if c == b't'
        then literal (codes "true") (boolean true) (c ∷ rest)
        else if c == b'f'
        then literal (codes "false") (boolean false) (c ∷ rest)
        else if c == b'"'
        then bind (parse_string (c ∷ rest)) (λ s left. ok (string s) left)
        else if c == b'['
        then parse_array rest
        else if c == b'{'
        then parse_object rest
        else parse_number (c ∷ rest)

    unfoldable pub parse_value_inner : Bytes → Parsed Value
    unfolding parse_array parse_object parse_number
    parse_value_inner text = inner_at (skip_whitespace text)

  -- The number is how much deeper `depth` may go: 64 at the start.
  unfoldable pub parse_value : ℕ → Bytes → Parsed Value
  unfolding parse_value_inner
  parse_value zero text = failed (codes "nesting too deep") text
  parse_value (suc depth) text = parse_value_inner (parse_value depth) text

  -- A document, or the text of the error.
  pub data Document : Type 0 where
    value : Value → Document
    error : Bytes → Document
    stuck : Document

  -- `fail` adds the offset of the position.
  unfoldable pub error_text : Bytes → Bytes → Bytes → Bytes
  error_text text message rest =
      message ++ (codes " at offset " ++ to_string (length text - length rest))

  abbrev pub finish : Bytes → Parsed Value → Document
  finish text (ok v rest) =
      if is_empty (skip_whitespace rest)
      then value v
      else error (codes "trailing data after JSON document")
  finish text (failed message rest) = error (error_text text message rest)
  finish text out_of_fuel = stuck

  unfoldable pub parse : Bytes → Document
  unfolding parse_value
  parse text = finish text (parse_value 64 text)
