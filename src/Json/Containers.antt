-- ===== src/Json/Containers.antt =====
-- A written array or object is read back, if what it holds is.
use plasma_network_health.Prelude.{
  ℕ, zero, suc, ◌<◌, ◌≤◌, ◌≡◌, refl, ap, ◌∙◌, Bool, false, Option, [], ◌∷◌, ◌++◌, append_assoc,
  arith, Bytes, length, length-append,
}
use plasma_network_health.Json.Double.{Doubles, Documented}
use plasma_network_health.Json.Value.{
  Json, array, object, Items, nil, cons, Members, end, member, size_items,
}
use plasma_network_health.Json.Text.{write_string}
use plasma_network_health.Json.Reader.{loop, skip_whitespace}
use plasma_network_health.Json.Write.{new_line, gap, write, write_items, write_members}
use plasma_network_health.Json.Parse.{
  array_round, array_from, parse_array, object_round, object_from, parse_object, parse_value_inner,
  parse_value, as_array, as_object,
}
use plasma_network_health.Json.Printed.{
  Fits, reread, skip_whitespace-blank, skip_whitespace-stop, new_line-IsBlank, IsBlank,
}
use plasma_network_health.Json.Rounds.{Begins, write-Begins}
use plasma_network_health.Json.ItemRounds.{ReadsValue, ReadsItems, items_tail, append_items}
use plasma_network_health.Json.MemberRounds.{
  ReadsMembers, members_tail, member_text, append_members, size_members, skip_whitespace-string,
}

module _ (ds : Doubles) (docs : Documented ds) (indent : Option ℕ) (ascii_only : Bool) where
  length-write_items :
      (depth : ℕ) (xs : Items ds.Double)
      → size_items xs ≤ length (write_items ds indent ascii_only false depth xs)
  unfolding write_items size_items
  length-write_items depth nil = omega arith
  length-write_items depth (cons x xs) =
      let w = write ds indent ascii_only depth x in
      let more = write_items ds indent ascii_only false depth xs in
      omega (
        arith,
        length-write_items depth xs,
        length-append (new_line indent depth) (w ++ more),
        length-append w more,
      )

  length-write_members :
      (depth : ℕ) (ms : Members ds.Double)
      → size_members ms ≤ length (write_members ds indent ascii_only false depth ms)
  unfolding write_members size_members
  length-write_members depth end = omega arith
  length-write_members depth (member k v ms) =
      let w = write ds indent ascii_only depth v in
      let more = write_members ds indent ascii_only false depth ms in
      let body = b':' ∷ (gap indent ++ (w ++ more)) in
      omega (
        arith,
        length-write_members depth ms,
        length-append (new_line indent depth) (write_string ascii_only k ++ body),
        length-append (write_string ascii_only k) body,
        length-append (gap indent) (w ++ more),
        length-append w more,
      )

  -- The loop of parseArray on a text that does not begin with the bracket.
  array_from-Begins :
      (n : ℕ) (text : Bytes) (more : Bytes)
      → Begins text
      → array_from ds (parse_value ds n) (text ++ more)
        ≡ as_array ds (parse_value ds n) (
            loop
              (array_round ds (parse_value ds n))
              (suc (length (text ++ more)))
              nil
              (text ++ more))
  array_from-Begins n text more b = rw (b.split, b.no_bracket) refl

  skip_whitespace-Begins :
      (ws text more : Bytes)
      → IsBlank ws
      → Begins text
      → skip_whitespace (ws ++ (text ++ more)) ≡ text ++ more
  skip_whitespace-Begins ws text more h b =
      skip_whitespace-blank ws (text ++ more) h
      ∙ rw (b.split) (skip_whitespace-stop b.first (b.others ++ more) b.no_space)

  parse_value-array :
      (n : ℕ) (text : Bytes)
      → parse_value ds (suc n) (b'[' ∷ text)
        ≡ array_from ds (parse_value ds n) (skip_whitespace text)
  unfolding parse_value parse_value_inner parse_array
  parse_value-array n text = rw (skip_whitespace-stop b'[' text refl) refl

  parse_value-object :
      (n : ℕ) (text : Bytes)
      → parse_value ds (suc n) (b'{' ∷ text)
        ≡ object_from ds (parse_value ds n) (skip_whitespace text)
  unfolding parse_value parse_value_inner parse_object
  parse_value-object n text = rw (skip_whitespace-stop b'{' text refl) refl

  write-array :
      (depth : ℕ) (x : Json ds.Double) (xs : Items ds.Double) (rest : Bytes)
      → write ds indent ascii_only depth (array (cons x xs)) ++ rest
        ≡ b'['
          ∷ (new_line indent (suc depth)
              ++ (write ds indent ascii_only (suc depth) x
                  ++ items_tail ds docs indent ascii_only depth xs rest))
  unfolding write
  write-array depth x xs rest = simp (append_assoc)

  write-object :
      (depth : ℕ) (k : Bytes) (v : Json ds.Double) (ms : Members ds.Double) (rest : Bytes)
      → write ds indent ascii_only depth (object (member k v ms)) ++ rest
        ≡ b'{'
          ∷ (new_line indent (suc depth)
              ++ member_text ds docs indent ascii_only depth k v
                  (members_tail ds docs indent ascii_only depth ms rest))
  unfolding write
  write-object depth k v ms rest = simp (append_assoc)

  pub array-Reads :
      (xs : Items ds.Double)
      → ReadsItems ds docs indent ascii_only xs
      → ReadsValue ds docs indent ascii_only (array xs)
  array-Reads xs r zero depth rest h k = absurd (unfold Fits in h)
  array-Reads nil r (suc n) depth rest h k =
      unfold write in
      unfold reread in
      parse_value-array n (b']' ∷ rest)
      ∙ ap (array_from ds (parse_value ds n)) (skip_whitespace-stop b']' rest refl)
  array-Reads (cons x xs) r (suc n) depth rest h k =
      let w = write ds indent ascii_only (suc depth) x in
      let tail = items_tail ds docs indent ascii_only depth xs rest in
      let begins = write-Begins ds docs indent ascii_only (suc depth) x in
      let fuel : size_items xs < suc (length (w ++ tail)) = omega (
        arith,
        length-write_items (suc depth) xs,
        length-append w tail,
        length-append (write_items ds indent ascii_only false (suc depth) xs)
            (new_line indent depth ++ (b']' ∷ rest)),
      ) in
      let items = r.1 n depth (suc (length (w ++ tail))) nil [] rest tt (unfold Fits in h) fuel in
      rw (write-array depth x xs rest) (
        parse_value-array n (new_line indent (suc depth) ++ (w ++ tail))
        ∙ (ap (array_from ds (parse_value ds n)) (
              skip_whitespace-Begins (new_line indent (suc depth)) w tail
                (new_line-IsBlank indent (suc depth)) begins)
            ∙ (array_from-Begins n w tail begins
                ∙ (ap (as_array ds (parse_value ds n)) items
                    ∙ unfold append_items in unfold reread in refl))))

  object_from-string :
      (n : ℕ) (s more : Bytes)
      → object_from ds (parse_value ds n) (write_string ascii_only s ++ more)
        ≡ as_object ds (parse_value ds n) (
            loop
              (object_round ds (parse_value ds n))
              (suc (length (write_string ascii_only s ++ more)))
              end
              (write_string ascii_only s ++ more))
  unfolding write_string
  object_from-string n s more = refl

  pub object-Reads :
      (ms : Members ds.Double)
      → ReadsMembers ds docs indent ascii_only ms
      → ReadsValue ds docs indent ascii_only (object ms)
  object-Reads ms r zero depth rest h k = absurd (unfold Fits in h)
  object-Reads end r (suc n) depth rest h k =
      unfold write in
      unfold reread in
      parse_value-object n (b'}' ∷ rest)
      ∙ ap (object_from ds (parse_value ds n)) (skip_whitespace-stop b'}' rest refl)
  object-Reads (member k v ms) r (suc n) depth rest h stops =
      let tail = members_tail ds docs indent ascii_only depth ms rest in
      let body = b':' ∷ (gap indent ++ (write ds indent ascii_only (suc depth) v ++ tail)) in
      let text = write_string ascii_only k ++ body in
      let fuel : size_members ms < suc (length text) = omega (
        arith,
        length-write_members (suc depth) ms,
        length-append (write_string ascii_only k) body,
        length-append (gap indent) (write ds indent ascii_only (suc depth) v ++ tail),
        length-append (write ds indent ascii_only (suc depth) v) tail,
        length-append (write_members ds indent ascii_only false (suc depth) ms)
            (new_line indent depth ++ (b'}' ∷ rest)),
      ) in
      let members = r.1 n depth (suc (length text)) end [] rest tt (unfold Fits in h) tt fuel in
      rw (write-object depth k v ms rest) (
        parse_value-object n (new_line indent (suc depth) ++ text)
        ∙ (ap (object_from ds (parse_value ds n)) (
              skip_whitespace-string ds docs indent ascii_only (new_line indent (suc depth)) k body
                (new_line-IsBlank indent (suc depth)))
            ∙ (object_from-string n k body
                ∙ (ap (as_object ds (parse_value ds n)) members
                    ∙ unfold append_members in unfold reread in refl))))
