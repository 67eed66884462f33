-- ===== src/Json/RoundTrip.antt =====
-- What `dump` writes, `parse` reads.
use plasma_network_health.Prelude.{
  ℕ, zero, suc, ◌≡◌, refl, sym, ap, ◌∙◌, Bool, true, false, Option, [], ◌++◌, append-nil, Bytes,
}
use plasma_network_health.Json.Double.{Doubles, Documented}
use plasma_network_health.Json.Value.{
  Json, null, boolean, number, string, array, object, nil, cons, end, member,
}
use plasma_network_health.Json.Text.{write_string}
use plasma_network_health.Json.Reader.{ok, skip_whitespace, literal, parse_string, bind}
use plasma_network_health.Json.Write.{write, dump}
use plasma_network_health.Json.Parse.{parse_value_inner, parse_value, parse, value}
use plasma_network_health.Json.Printed.{Fits, reread, skip_whitespace-stop}
use plasma_network_health.Json.Quoting.{parse_string-write_string}
use plasma_network_health.Json.Rounds.{write_number-Reads}
use plasma_network_health.Json.ItemRounds.{ReadsValue, ReadsItems, nil-Reads, cons-Reads}
use plasma_network_health.Json.MemberRounds.{ReadsMembers, end-Reads, member-Reads}
use plasma_network_health.Json.Containers.{array-Reads, object-Reads}

module _ (ds : Doubles) (docs : Documented ds) (indent : Option ℕ) (ascii_only : Bool) where
  leaf-Reads : (b : Bool) → ReadsValue ds docs indent ascii_only (boolean b)
  unfolding parse_value parse_value_inner skip_whitespace literal reread write
  leaf-Reads b zero depth rest h k = absurd (unfold Fits in h)
  leaf-Reads true (suc n) depth rest h k = refl
  leaf-Reads false (suc n) depth rest h k = refl

  null-Reads : ReadsValue ds docs indent ascii_only null
  unfolding parse_value parse_value_inner skip_whitespace literal reread write
  null-Reads zero depth rest h k = absurd (unfold Fits in h)
  null-Reads (suc n) depth rest h k = refl

  number-Reads : (v : ds.Double) → ReadsValue ds docs indent ascii_only (number v)
  unfolding reread write
  number-Reads v zero depth rest h k = absurd (unfold Fits in h)
  number-Reads v (suc n) depth rest h k = write_number-Reads ds docs n v rest (unfold Fits in h) k

  parse_value-string :
      (n : ℕ) (s more : Bytes)
      → parse_value ds (suc n) (write_string ascii_only s ++ more)
        ≡ bind (parse_string (write_string ascii_only s ++ more)) (λ t left. ok (string t) left)
  unfolding parse_value parse_value_inner write_string
  parse_value-string n s more = rw (skip_whitespace-stop b'"' _ refl) refl

  string-Reads : (s : Bytes) → ReadsValue ds docs indent ascii_only (string s)
  unfolding reread write
  string-Reads s zero depth rest h k = absurd (unfold Fits in h)
  string-Reads s (suc n) depth rest h k =
      parse_value-string n s rest
      ∙ rw (parse_string-write_string ascii_only s rest (unfold Fits in h)) refl

  value-Reads : (v : Json ds.Double) → ReadsValue ds docs indent ascii_only v
  value-Reads v =
      elim v
        as (ReadsValue ds docs indent ascii_only) (ReadsItems ds docs indent
          ascii_only) (ReadsMembers ds docs indent ascii_only) [
            | null ↦ null-Reads
            | boolean b ↦ leaf-Reads b
            | number w ↦ number-Reads w
            | string s ↦ string-Reads s
            | array (xs → ih) ↦ array-Reads ds docs indent ascii_only xs ih
            | object (ms → ih) ↦ object-Reads ds docs indent ascii_only ms ih
            | nil ↦ nil-Reads ds docs indent ascii_only
            | cons (x → ih) (xs → ihs) ↦ cons-Reads ds docs indent ascii_only x xs ih ihs
            | end ↦ end-Reads ds docs indent ascii_only
            | member k (w → ih) (ms → ihs) ↦ member-Reads ds docs indent ascii_only k w ms ih ihs
          ]

  -- Reading what was written, compact or with any indentation, gives the value back, each number as
  -- std::stod reads its text and null for one that is not finite. The value is at most 64 deep and
  -- has no key twice in an object, std::stod reads whole what `%.10g` prints of each of its numbers
  -- that is finite and not an integer, and if only ASCII is written, its strings are in UTF-8.
  pub parse-dump :
      (v : Json ds.Double)
      → Fits ds ascii_only v 64
      → parse ds (dump ds indent ascii_only v) ≡ value (reread ds v)
  unfolding parse dump skip_whitespace
  parse-dump v h =
      let whole = value-Reads v 64 0 [] h tt in
      let text : write ds indent ascii_only 0 v ++ [] ≡ write ds indent ascii_only 0 v =
        append-nil (write ds indent ascii_only 0 v) in
      let read : parse_value ds 64 (write ds indent ascii_only 0 v) ≡ ok (reread ds v) [] =
        ap (parse_value ds 64) (sym text) ∙ whole in
      rw read refl
