-- ===== src/Json/Plain.antt =====
-- A test whether a document has only ASCII strings, numbers that std::stod reads whole, no key twice
-- in an object, and is not too deep.
use plasma_network_health.Prelude.{
  ℕ, zero, suc, ◌<◌, ◌≡◌, refl, ap, inl, Bool, true, false, not, ◌&&◌, [], ◌∷◌, arith, Bytes, ltb,
  bytes_eq, All,
}
use plasma_network_health.Json.Double.{Doubles, reads_whole}
use plasma_network_health.Json.Value.{
  Json, null, boolean, number, string, array, object, Items, nil, cons, Members, end, member,
}
use plasma_network_health.Json.Reader.{append_utf8}
use plasma_network_health.Json.Strings.{IsScalar}
use plasma_network_health.Json.Quoting.{IsWritable, utf8}
use plasma_network_health.Json.Printed.{Fits, FitsItems, FitsMembers, Absent}

unfoldable pub is_ascii : Bytes → Bool
is_ascii [] = true
is_ascii (c ∷ cs) = ltb c 0x80 && is_ascii cs

unfoldable pub is_absent : {D : Type 0} → Bytes → Members D → Bool
is_absent key end = true
is_absent key (member k v ms) = not (bytes_eq key k) && is_absent key ms

module _ (ds : Doubles) where
  unfoldable mutual
    pub is_plain : Json ds.Double → ℕ → Bool
    is_plain v zero = false
    is_plain null (suc depth) = true
    is_plain (boolean b) (suc depth) = true
    is_plain (number v) (suc depth) = reads_whole ds v
    is_plain (string s) (suc depth) = is_ascii s
    is_plain (array xs) (suc depth) = are_plain xs depth
    is_plain (object ms) (suc depth) = are_plain_members ms depth

    pub are_plain : Items ds.Double → ℕ → Bool
    are_plain nil depth = true
    are_plain (cons x xs) depth = is_plain x depth && are_plain xs depth

    pub are_plain_members : Members ds.Double → ℕ → Bool
    are_plain_members end depth = true
    are_plain_members (member k v ms) depth =
        is_ascii k && (is_plain v depth && (is_absent k ms && are_plain_members ms depth))

both : (a b : Bool) → (a && b) ≡ true → (a ≡ true) × (b ≡ true)
both true b h = (refl, h)
both false b h = cc

is_ascii-utf8 : (s : Bytes) → is_ascii s ≡ true → All IsScalar s × (s ≡ utf8 s)
unfolding is_ascii append_utf8
is_ascii-utf8 [] h = (tt, refl)
is_ascii-utf8 (c ∷ cs) h =
    let (here, more) = both (ltb c 0x80) (is_ascii cs) h in
    let (scalars, same) = is_ascii-utf8 cs more in
    let below : c < 0x80 = ground arith in
    (
      ((omega (arith, below), inl (omega (arith, below))), scalars),
      rw here (ap (λ (s : Bytes). c ∷ s) same),
    )

is_ascii-IsWritable : (s : Bytes) → is_ascii s ≡ true → IsWritable true s
is_ascii-IsWritable s h = let (scalars, same) = is_ascii-utf8 s h in (s, scalars, same)

is_absent-Absent :
    {D : Type 0} (key : Bytes) (ms : Members D) → is_absent key ms ≡ true → Absent key ms
unfolding is_absent
is_absent-Absent key end h = tt
is_absent-Absent key (member k v ms) h =
    let (other, more) = both (not (bytes_eq key k)) (is_absent key ms) h in
    (ground arith, is_absent-Absent key ms more)

module _ (ds : Doubles) where
  mutual
    unfolding is_plain are_plain are_plain_members Fits FitsItems FitsMembers

    pub is_plain-Fits :
        (v : Json ds.Double) (depth : ℕ) → is_plain ds v depth ≡ true → Fits ds true v depth
    is_plain-Fits v zero h = cc
    is_plain-Fits null (suc depth) h = tt
    is_plain-Fits (boolean b) (suc depth) h = tt
    is_plain-Fits (number v) (suc depth) h = h
    is_plain-Fits (string s) (suc depth) h = is_ascii-IsWritable s h
    is_plain-Fits (array xs) (suc depth) h = are_plain-FitsItems xs depth h
    is_plain-Fits (object ms) (suc depth) h = are_plain_members-FitsMembers ms depth h

    are_plain-FitsItems :
        (xs : Items ds.Double) (depth : ℕ)
        → are_plain ds xs depth ≡ true
        → FitsItems ds true xs depth
    are_plain-FitsItems nil depth h = tt
    are_plain-FitsItems (cons x xs) depth h =
        let (here, more) = both (is_plain ds x depth) (are_plain ds xs depth) h in
        (is_plain-Fits x depth here, are_plain-FitsItems xs depth more)

    are_plain_members-FitsMembers :
        (ms : Members ds.Double) (depth : ℕ)
        → are_plain_members ds ms depth ≡ true
        → FitsMembers ds true ms depth
    are_plain_members-FitsMembers end depth h = tt
    are_plain_members-FitsMembers (member k v ms) depth h =
        let (key, more) = both (is_ascii k) _ h in
        let (val, rest) = both (is_plain ds v depth) _ more in
        let (absent, last) = both (is_absent k ms) _ rest in
        (
          is_ascii-IsWritable k key,
          is_plain-Fits v depth val,
          is_absent-Absent k ms absent,
          are_plain_members-FitsMembers ms depth last,
        )
