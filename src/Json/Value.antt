-- ===== src/Json/Value.antt =====
-- `Json` (daemon/src/json.hpp): its values, their accessors and `set` and `push`.
use plasma_network_health.Prelude.{
  ℕ, zero, suc, Bool, true, false, Bytes, ℤ, bytes_eq, if◌then◌else◌, not,
}
use plasma_network_health.Json.Double.{Doubles}

-- A `Json` holds one member for each type; only that of its `m_type` counts. `Items` and `Members` are its
-- vectors.
mutual
  pub data Json (D : Type 0) : Type 0 where
    null : Json D
    boolean : Bool → Json D
    number : D → Json D
    string : Bytes → Json D
    array : Items D → Json D
    object : Members D → Json D

  pub data Items (D : Type 0) : Type 0 where
    nil : Items D
    cons : Json D → Items D → Items D

  pub data Members (D : Type 0) : Type 0 where
    end : Members D
    member : Bytes → Json D → Members D → Members D

module _ {D : Type 0} where
  unfoldable pub is_null : Json D → Bool
  is_null null = true
  is_null other = false

  unfoldable pub is_array : Json D → Bool
  is_array (array xs) = true
  is_array other = false

  unfoldable pub is_object : Json D → Bool
  is_object (object ms) = true
  is_object other = false

  unfoldable pub to_text : Json D → Bytes → Bytes
  to_text (string s) default = s
  to_text other default = default

  -- `items()`, empty for all but an array.
  unfoldable pub items : Json D → Items D
  items (array xs) = xs
  items other = nil

  unfoldable pub size_items : Items D → ℕ
  size_items nil = 0
  size_items (cons x xs) = suc (size_items xs)

  unfoldable pub at_items : Items D → ℕ → Json D
  at_items nil i = null
  at_items (cons x xs) zero = x
  at_items (cons x xs) (suc i) = at_items xs i

  unfoldable pub find_member : Bytes → Members D → Json D
  find_member key end = null
  find_member key (member k v ms) = if bytes_eq k key then v else find_member key ms

  -- `operator[]`.
  unfoldable pub get : Json D → Bytes → Json D
  unfolding find_member
  get (object ms) key = find_member key ms
  get other key = null

  unfoldable pub set_member : Bytes → Json D → Members D → Members D
  set_member key v end = member key v end
  set_member key v (member k w ms) =
      if bytes_eq k key then member k v ms else member k w (set_member key v ms)

  unfoldable pub members : Json D → Members D
  members (object ms) = ms
  members other = end

  -- `set`, which makes an empty object of anything else first.
  unfoldable pub set_key : Bytes → Json D → Json D → Json D
  unfolding set_member members
  set_key key v j = object (set_member key v (members j))

  unfoldable pub push_item : Json D → Items D → Items D
  push_item v nil = cons v nil
  push_item v (cons x xs) = cons x (push_item v xs)

-- The conversions of a number.
module _ (ds : Doubles) where
  unfoldable pub to_bool : Json ds.Double → Bool → Bool
  to_bool (boolean b) default = b
  to_bool (number v) default = not (ds.is_zero v)
  to_bool other default = default

  unfoldable pub to_int : Json ds.Double → ℤ → ℤ
  to_int (number v) default = if ds.is_finite v then ds.round v else default
  to_int other default = default
