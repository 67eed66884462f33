-- ===== src/Json/ItemRounds.antt =====
-- The loop of parseArray reads the items that `write` has written.
use plasma_network_health.Prelude.{
  ℕ, zero, suc, ◌<◌, ◌≡◌, refl, sym, ap, ◌∙◌, Bool, false, Option, some, none, ◌∷◌, ◌++◌,
  append_assoc, arith, Bytes,
}
use plasma_network_health.Json.Double.{Doubles, Documented, is_number_char}
use plasma_network_health.Json.Value.{Json, Items, nil, cons, push_item, size_items}
use plasma_network_health.Json.Reader.{ok, loop, after_round, skip_whitespace}
use plasma_network_health.Json.Write.{new_line, write, write_items}
use plasma_network_health.Json.Parse.{array_next, array_round, parse_value}
use plasma_network_health.Json.Printed.{
  Fits, FitsItems, reread, reread_items, IsBlank, skip_whitespace-blank, skip_whitespace-stop,
  new_line-IsBlank, Stops,
}
use plasma_network_health.Json.Rounds.{parse_value-blank}

unfoldable pub append_items : {D : Type 0} → Items D → Items D → Items D
append_items nil ys = ys
append_items (cons x xs) ys = cons x (append_items xs ys)

push-append_items :
    {D : Type 0} (v : Json D) (acc ys : Items D)
    → append_items (push_item v acc) ys ≡ append_items acc (cons v ys)
unfolding append_items push_item
push-append_items v nil ys = refl
push-append_items v (cons x acc) ys = ap (cons x) (push-append_items v acc ys)

pub append_items-nil : {D : Type 0} (xs : Items D) → append_items xs nil ≡ xs
unfolding append_items
append_items-nil nil = refl
append_items-nil (cons x xs) = ap (cons x) (append_items-nil xs)

pub new_line-Stops :
    (indent : Option ℕ) (depth c : ℕ) (rest : Bytes)
    → is_number_char c ≡ false
    → Stops (new_line indent depth ++ (c ∷ rest))
unfolding new_line
new_line-Stops none depth c rest h = h
new_line-Stops (some i) depth c rest h = refl

module _ (ds : Doubles) (docs : Documented ds) (indent : Option ℕ) (ascii_only : Bool) where
  -- What follows an item: the other items and the bracket.
  abbrev pub items_tail : ℕ → Items ds.Double → Bytes → Bytes
  items_tail depth xs rest =
      write_items ds indent ascii_only false (suc depth) xs
      ++ (new_line indent depth ++ (b']' ∷ rest))

  abbrev pub ReadsValue : Json ds.Double → Type 0
  ReadsValue v =
      (n depth : ℕ) (rest : Bytes)
      → Fits ds ascii_only v n
      → Stops rest
      → parse_value ds n (write ds indent ascii_only depth v ++ rest) ≡ ok (reread ds v) rest

  abbrev pub FirstReads : Items ds.Double → Type 0
  FirstReads nil = Unit
  FirstReads (cons x xs) =
      (n depth f : ℕ) (acc : Items ds.Double) (ws rest : Bytes)
      → IsBlank ws
      → FitsItems ds ascii_only (cons x xs) n
      → size_items xs < f
      → loop (array_round ds (parse_value ds n)) f acc
          (ws ++ (write ds indent ascii_only (suc depth) x ++ items_tail depth xs rest))
        ≡ ok (append_items acc (reread_items ds (cons x xs))) rest

  -- The loop goes on after an item.
  abbrev pub ReadsItems : Items ds.Double → Type 0
  ReadsItems xs =
      ((n depth f : ℕ) (acc : Items ds.Double) (rest : Bytes)
        → FitsItems ds ascii_only xs n
        → size_items xs < suc f
        → after_round (loop (array_round ds (parse_value ds n)) f)
            (array_next ds (parse_value ds n) acc (skip_whitespace (items_tail depth xs rest)))
          ≡ ok (append_items acc (reread_items ds xs)) rest)
      × FirstReads xs

  items_tail-Stops :
      (depth : ℕ) (xs : Items ds.Double) (rest : Bytes) → Stops (items_tail depth xs rest)
  unfolding write_items new_line
  items_tail-Stops depth (cons x xs) rest = refl
  items_tail-Stops depth nil rest = new_line-Stops indent depth b']' rest refl

  pub nil-Reads : ReadsItems nil
  unfolding write_items append_items reread_items
  nil-Reads = (
    λ n depth f acc rest h k.
        let blank =
          skip_whitespace-blank (new_line indent depth) (b']' ∷ rest)
            (new_line-IsBlank indent depth) in
        let stop = skip_whitespace-stop b']' rest refl in
        rw (blank, stop) (ap (λ (xs : Items ds.Double). ok xs rest) (sym (append_items-nil acc))),
    tt,
  )

  module _ (x : Json ds.Double) (xs : Items ds.Double) (ih : ReadsValue x)
      (ihs : ReadsItems xs) where
    first-Reads : FirstReads (cons x xs)
    unfolding array_round loop append_items reread_items
    first-Reads n depth zero acc ws rest blank h k = absurd (omega arith)
    first-Reads n depth (suc f) acc ws rest blank h k =
        let tail = items_tail depth xs rest in
        let e =
          parse_value-blank ds n ws (write ds indent ascii_only (suc depth) x ++ tail) tail
            (reread ds x) blank
            (ih n (suc depth) tail (unfold Fits in h.0) (items_tail-Stops depth xs rest)) in
        rw e (
          ihs.0 n depth f (push_item (reread ds x) acc) rest (unfold Fits in h.1)
            (unfold size_items in omega arith)
          ∙ ap (λ (ys : Items ds.Double). ok ys rest)
              (push-append_items (reread ds x) acc (reread_items ds xs)))

    pub cons-Reads : ReadsItems (cons x xs)
    cons-Reads = (
      λ n depth f acc rest h k.
          let text = write ds indent ascii_only (suc depth) x ++ items_tail depth xs rest in
          let ws = new_line indent (suc depth) in
          let split : items_tail depth (cons x xs) rest ≡ b',' ∷ (ws ++ text) =
            unfold write_items in simp (append_assoc) in
          let stop = skip_whitespace-stop b',' (ws ++ text) refl in
          rw (split, stop)
            (first-Reads n depth f acc ws rest (new_line-IsBlank indent (suc depth)) h
              (unfold size_items in omega arith)),
      first-Reads,
    )
