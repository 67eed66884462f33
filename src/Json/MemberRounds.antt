-- ===== src/Json/MemberRounds.antt =====
-- The loop of parseObject reads the members that `write` has written.
use plasma_network_health.Prelude.{
  ℕ, zero, suc, ◌<◌, ◌≡◌, refl, sym, ap, ◌∙◌, Bool, false, Option, some, none, ◌∷◌, ◌++◌,
  append_assoc, arith, Bytes,
}
use plasma_network_health.Json.Double.{Doubles, Documented}
use plasma_network_health.Json.Value.{Json, Members, end, member, set_member}
use plasma_network_health.Json.Text.{write_string}
use plasma_network_health.Json.Reader.{ok, loop, after_round, skip_whitespace}
use plasma_network_health.Json.Write.{new_line, gap, write, write_members}
use plasma_network_health.Json.Parse.{object_next, object_round, parse_value}
use plasma_network_health.Json.Printed.{
  Absent, Fits, FitsMembers, reread, reread_members, IsBlank, skip_whitespace-blank,
  skip_whitespace-stop, new_line-IsBlank, Stops,
}
use plasma_network_health.Json.Rounds.{parse_value-blank}
use plasma_network_health.Json.Quoting.{parse_string-write_string}
use plasma_network_health.Json.ItemRounds.{new_line-Stops, ReadsValue}

unfoldable pub append_members : {D : Type 0} → Members D → Members D → Members D
append_members end ns = ns
append_members (member k v ms) ns = member k v (append_members ms ns)

unfoldable pub size_members : {D : Type 0} → Members D → ℕ
size_members end = 0
size_members (member k v ms) = suc (size_members ms)

pub append_members-end : {D : Type 0} (ms : Members D) → append_members ms end ≡ ms
unfolding append_members
append_members-end end = refl
append_members-end (member k v ms) = ap (member k v) (append_members-end ms)

-- No key of the first is a key of the second.
abbrev pub Apart : {D : Type 0} → Members D → Members D → Type 0
Apart end ms = Unit
Apart (member j w acc) ms = Absent j ms × Apart acc ms

set-append_members :
    {D : Type 0} (k : Bytes) (v w : Json D) (acc ms ns : Members D)
    → Apart acc (member k w ms)
    → append_members (set_member k v acc) ns ≡ append_members acc (member k v ns)
unfolding append_members set_member
set-append_members k v w end ms ns h = refl
set-append_members k v w (member j u acc) ms ns h =
    rw (h.0.0) (ap (member j u) (set-append_members k v w acc ms ns h.1))

Apart-set :
    {D : Type 0} (k : Bytes) (v w : Json D) (acc ms : Members D)
    → Apart acc (member k w ms)
    → Absent k ms
    → Apart (set_member k v acc) ms
unfolding set_member
Apart-set k v w end ms h a = (a, tt)
Apart-set k v w (member j u acc) ms h a = rw (h.0.0) (h.0.1, Apart-set k v w acc ms h.1 a)

gap-IsBlank : (indent : Option ℕ) → IsBlank (gap indent)
gap-IsBlank none = tt
gap-IsBlank (some i) = (refl, tt)

module _ (ds : Doubles) (docs : Documented ds) (indent : Option ℕ) (ascii_only : Bool) where
  abbrev pub members_tail : ℕ → Members ds.Double → Bytes → Bytes
  members_tail depth ms rest =
      write_members ds indent ascii_only false (suc depth) ms
      ++ (new_line indent depth ++ (b'}' ∷ rest))

  abbrev pub member_text : ℕ → Bytes → Json ds.Double → Bytes → Bytes
  member_text depth k v tail =
      write_string ascii_only k
      ++ (b':' ∷ (gap indent ++ (write ds indent ascii_only (suc depth) v ++ tail)))

  abbrev pub FirstReads : Members ds.Double → Type 0
  FirstReads end = Unit
  FirstReads (member k v ms) =
      (n depth f : ℕ) (acc : Members ds.Double) (ws rest : Bytes)
      → IsBlank ws
      → FitsMembers ds ascii_only (member k v ms) n
      → Apart acc (member k v ms)
      → size_members ms < f
      → loop (object_round ds (parse_value ds n)) f acc
          (ws ++ member_text depth k v (members_tail depth ms rest))
        ≡ ok (append_members acc (reread_members ds (member k v ms))) rest

  -- The loop goes on after a member.
  abbrev pub ReadsMembers : Members ds.Double → Type 0
  ReadsMembers ms =
      ((n depth f : ℕ) (acc : Members ds.Double) (rest : Bytes)
        → FitsMembers ds ascii_only ms n
        → Apart acc ms
        → size_members ms < suc f
        → after_round (loop (object_round ds (parse_value ds n)) f)
            (object_next ds (parse_value ds n) acc (skip_whitespace (members_tail depth ms rest)))
          ≡ ok (append_members acc (reread_members ds ms)) rest)
      × FirstReads ms

  members_tail-Stops :
      (depth : ℕ) (ms : Members ds.Double) (rest : Bytes) → Stops (members_tail depth ms rest)
  unfolding write_members new_line
  members_tail-Stops depth (member k v ms) rest = refl
  members_tail-Stops depth end rest = new_line-Stops indent depth b'}' rest refl

  pub end-Reads : ReadsMembers end
  unfolding write_members append_members reread_members
  end-Reads = (
    λ n depth f acc rest h a k.
        let blank =
          skip_whitespace-blank (new_line indent depth) (b'}' ∷ rest)
            (new_line-IsBlank indent depth) in
        let stop = skip_whitespace-stop b'}' rest refl in
        rw (blank, stop)
          (ap (λ (ms : Members ds.Double). ok ms rest) (sym (append_members-end acc))),
    tt,
  )

  -- A string begins with its quote.
  pub skip_whitespace-string :
      (ws s rest : Bytes)
      → IsBlank ws
      → skip_whitespace (ws ++ (write_string ascii_only s ++ rest))
        ≡ write_string ascii_only s ++ rest
  unfolding write_string
  skip_whitespace-string ws s rest h =
      skip_whitespace-blank ws (write_string ascii_only s ++ rest) h
      ∙ skip_whitespace-stop b'"' _ refl

  module _ (k : Bytes) (v : Json ds.Double) (ms : Members ds.Double)
      (ih : ReadsValue ds docs indent ascii_only v) (ihs : ReadsMembers ms) where
    round-Reads :
        (n depth : ℕ) (acc : Members ds.Double) (ws rest : Bytes)
        → IsBlank ws
        → FitsMembers ds ascii_only (member k v ms) n
        → object_round ds
            (parse_value ds n)
            acc
            (ws ++ member_text depth k v (members_tail depth ms rest))
          ≡ object_next ds
              (parse_value ds n)
              (set_member k (reread ds v) acc)
              (skip_whitespace (members_tail depth ms rest))
    unfolding object_round
    round-Reads n depth acc ws rest blank h =
        let tail = members_tail depth ms rest in
        let body = gap indent ++ (write ds indent ascii_only (suc depth) v ++ tail) in
        let e =
          parse_value-blank ds n (gap indent) (write ds indent ascii_only (suc depth) v ++ tail)
            tail (reread ds v) (gap-IsBlank indent)
            (ih n (suc depth) tail (unfold Fits in h.1) (members_tail-Stops depth ms rest)) in
        let key = parse_string-write_string ascii_only k (b':' ∷ body) (unfold Fits in h.0) in
        let colon = skip_whitespace-stop b':' body refl in
        rw (skip_whitespace-string ws k (b':' ∷ body) blank, key, colon, e) refl

    first-Reads : FirstReads (member k v ms)
    unfolding loop append_members reread_members
    first-Reads n depth zero acc ws rest blank h a m = absurd (omega arith)
    first-Reads n depth (suc f) acc ws rest blank h a m =
        rw (round-Reads n depth acc ws rest blank h) (
          ihs.0 n depth f (set_member k (reread ds v) acc) rest (unfold Fits in h.3)
            (Apart-set k (reread ds v) v acc ms a (unfold Fits in h.2))
            (unfold size_members in omega arith)
          ∙ ap (λ (ns : Members ds.Double). ok ns rest)
              (set-append_members k (reread ds v) v acc ms (reread_members ds ms) a))

    pub member-Reads : ReadsMembers (member k v ms)
    member-Reads = (
      λ n depth f acc rest h a m.
          let text = member_text depth k v (members_tail depth ms rest) in
          let ws = new_line indent (suc depth) in
          let split : members_tail depth (member k v ms) rest ≡ b',' ∷ (ws ++ text) =
            unfold write_members in simp (append_assoc) in
          let stop = skip_whitespace-stop b',' (ws ++ text) refl in
          rw (split, stop)
            (first-Reads n depth f acc ws rest (new_line-IsBlank indent (suc depth)) h a
              (unfold size_members in omega arith)),
      first-Reads,
    )
