-- ===== src/Json/Write.antt =====
-- `writeNumber`, `write` and `dump` of daemon/src/json.hpp.
use plasma_network_health.Prelude.{
  ℕ, suc, ◌*◌, Bool, true, false, not, Option, some, none, [], ◌∷◌, ◌++◌, Bytes, codes,
  if◌then◌else◌, replicate,
}
use plasma_network_health.Json.Double.{Doubles, show_ℤ}
use plasma_network_health.Json.Value.{
  Json, null, boolean, number, string, array, object, Items, nil, cons, Members, end, member,
}
use plasma_network_health.Json.Text.{write_string}

-- A line break and the padding for a depth; nothing if the indent is negative.
unfoldable pub new_line : Option ℕ → ℕ → Bytes
new_line none depth = []
new_line (some indent) depth = 10 ∷ replicate (indent * depth) 32

abbrev pub gap : Option ℕ → Bytes
gap none = []
gap (some indent) = 32 ∷ []

-- The comma before all but the first.
abbrev pub comma : Bool → Bytes
comma first = if first then [] else b',' ∷ []

module _ (ds : Doubles) where
  unfoldable pub write_number : ds.Double → Bytes
  write_number v =
      if not (ds.is_finite v)
      then codes "null"
      else if ds.is_integral v
      then show_ℤ (ds.to_long v)
      else ds.print_g v

  module _ (indent : Option ℕ) (ascii_only : Bool) where
    unfoldable mutual
      pub write : ℕ → Json ds.Double → Bytes
      write depth null = codes "null"
      write depth (boolean b) = if b then codes "true" else codes "false"
      write depth (number v) = write_number v
      write depth (string s) = write_string ascii_only s
      write depth (array nil) = codes "[]"
      write depth (array (cons x xs)) =
          b'['
          ∷ (write_items true (suc depth) (cons x xs) ++ (new_line indent depth ++ (b']' ∷ [])))
      write depth (object end) = codes "{}"
      write depth (object (member k v ms)) =
          b'{'
          ∷ (write_members true (suc depth) (member k v ms)
              ++ (new_line indent depth ++ (b'}' ∷ [])))

      pub write_items : Bool → ℕ → Items ds.Double → Bytes
      write_items first depth nil = []
      write_items first depth (cons x xs) =
          comma first ++ (new_line indent depth ++ (write depth x ++ write_items false depth xs))

      pub write_members : Bool → ℕ → Members ds.Double → Bytes
      write_members first depth end = []
      write_members first depth (member k v ms) =
          comma first
          ++ (new_line indent depth
              ++ (write_string ascii_only k
                  ++ (b':' ∷ (gap indent ++ (write depth v ++ write_members false depth ms)))))

    unfoldable pub dump : Json ds.Double → Bytes
    unfolding write
    dump j = write 0 j
