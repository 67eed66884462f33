-- ===== src/Monitor/Rebuild/Entries.antt =====
-- The maps `previousByKey` and `currentByKey` of rebuildProbers send each key to its place.
use plasma_network_health.Prelude.{
  ℕ, ◌+◌, ◌≡◌, refl, sym, ap, subst, inl, inr, List, [], ◌∷◌, ◌++◌, none, some, map, append-nil,
  append_assoc, arith, Bytes, ◌==◌, if◌then◌else◌, bytes_eq, bytes_eq_refl, bytes_eq_sound,
  Bool-cases, Option-cases, length, get_elem?, get_elem?-snoc, get_elem?-length,
  get_elem?-append_left, get_elem?-append_length, length-append, AllDifferent,
}
use plasma_network_health.Monitor.State.{Prober}
use plasma_network_health.Monitor.Rebuild.{key_of, find_key, emplace, index_previous}

-- An entry is the place of its key.
abbrev pub Sound : List (Bytes × ℕ) → List Bytes → Type 0
Sound entries keys =
    (key : Bytes) (i : ℕ) → find_key key entries ≡ some i → get_elem? keys i ≡ some key

-- The place of a key is its entry, so that no two places have the same key.
abbrev pub Complete : List (Bytes × ℕ) → List Bytes → Type 0
Complete entries keys =
    (key : Bytes) (i : ℕ) → get_elem? keys i ≡ some key → find_key key entries ≡ some i

pub find_key-emplace :
    (key other : Bytes) (i : ℕ) (entries : List (Bytes × ℕ))
    → find_key key entries ≡ none
    → find_key other (emplace key i entries)
      ≡ (if bytes_eq key other then some i else find_key other entries)
unfolding emplace find_key
find_key-emplace key other i entries h = rw h refl

emplace_present :
    (key : Bytes) (i : ℕ) {j : ℕ} (entries : List (Bytes × ℕ))
    → find_key key entries ≡ some j
    → emplace key i entries ≡ entries
unfolding emplace
emplace_present key i entries h = rw h refl

module _ (key : Bytes) (entries : List (Bytes × ℕ)) (keys : List Bytes)
    (absent : find_key key entries ≡ none) where
  pub Sound-emplace :
      Sound entries keys → Sound (emplace key (length keys) entries) (keys ++ (key ∷ []))
  Sound-emplace x other i h = elim (Bool-cases (bytes_eq key other)) [
    | inl same ↦
        let k : other ≡ key = sym (bytes_eq_sound key other same) in
        let e : i ≡ length keys =
          ground (arith, find_key-emplace key other (length keys) entries absent) in
        ground (arith, get_elem?-snoc keys key i)
    | inr differs ↦
        let k : find_key other entries ≡ some i =
          ground (arith, find_key-emplace key other (length keys) entries absent) in
        let e = x other i k in
        let l = get_elem?-length keys e in ground (arith, get_elem?-snoc keys key i)
  ]

  pub Complete-emplace :
      Complete entries keys → Complete (emplace key (length keys) entries) (keys ++ (key ∷ []))
  Complete-emplace x other i h = elim (Bool-cases (i == length keys)) [
    | inl last ↦
        let k : key ≡ other = ground (arith, get_elem?-snoc keys key i) in
        ground (
          arith,
          find_key-emplace key other (length keys) entries absent,
          ap (bytes_eq key) k,
          bytes_eq_refl key,
        )
    | inr before ↦
        let k : get_elem? keys i ≡ some other = ground (arith, get_elem?-snoc keys key i) in
        let e = x other i k in
        ground
          (arith, find_key-emplace key other (length keys) entries absent, bytes_eq_sound key other)
  ]

-- A key that is there already keeps its first place.
Sound-later :
    (key : Bytes) (entries : List (Bytes × ℕ)) (keys : List Bytes)
    → Sound entries keys
    → Sound entries (keys ++ (key ∷ []))
Sound-later key entries keys x other i h =
    let e = x other i h in
    let l = get_elem?-length keys e in ground (arith, get_elem?-snoc keys key i)

Sound-next :
    (p : Prober) (entries : List (Bytes × ℕ)) (keys : List Bytes)
    → Sound entries keys
    → Sound (emplace (key_of p) (length keys) entries) (keys ++ (key_of p ∷ []))
Sound-next p entries keys x = elim (Option-cases (find_key (key_of p) entries)) [
  | inl absent ↦ Sound-emplace (key_of p) entries keys absent x
  | inr (j, there) ↦
      rw (emplace_present (key_of p) (length keys) entries there)
        (Sound-later (key_of p) entries keys x)
]

index_previous-Sound_from :
    (i : ℕ) (ps : List Prober) (entries : List (Bytes × ℕ)) (keys : List Bytes)
    → i ≡ length keys
    → Sound entries keys
    → Sound (index_previous i ps entries) (keys ++ map key_of ps)
unfolding index_previous
index_previous-Sound_from i [] entries keys e x = rw (append-nil keys) x
index_previous-Sound_from i (p ∷ ps) entries keys e x =
    let next : Sound (emplace (key_of p) i entries) (keys ++ (key_of p ∷ [])) =
      rw e (Sound-next p entries keys x) in
    let k : i + 1 ≡ length (keys ++ (key_of p ∷ [])) =
      omega (arith, e, length-append keys (key_of p ∷ [])) in
    let rest =
      index_previous-Sound_from (i + 1) ps (emplace (key_of p) i entries) (keys ++ (key_of p ∷ []))
        k next in
    subst (Sound (index_previous (i + 1) ps (emplace (key_of p) i entries)))
      (append_assoc keys (key_of p ∷ []) (map key_of ps)) rest

pub index_previous-Sound : (ps : List Prober) → Sound (index_previous 0 ps []) (map key_of ps)
unfolding find_key
index_previous-Sound ps = index_previous-Sound_from 0 ps [] [] refl (λ key i h. cc)

index_previous-Complete_from :
    (i : ℕ) (ps : List Prober) (entries : List (Bytes × ℕ)) (keys : List Bytes)
    → i ≡ length keys
    → AllDifferent (keys ++ map key_of ps)
    → Sound entries keys
    → Complete entries keys
    → Complete (index_previous i ps entries) (keys ++ map key_of ps)
unfolding index_previous
index_previous-Complete_from i [] entries keys e different x y = rw (append-nil keys) y
index_previous-Complete_from i (p ∷ ps) entries keys e different x y =
    let key = key_of p in
    let absent : find_key key entries ≡ none = elim (Option-cases (find_key key entries)) [
      | inl h ↦ h
      | inr (j, h) ↦
          let k = x key j h in
          let l = get_elem?-length keys k in
          let same =
            different j (length keys) key (get_elem?-append_left keys (key ∷ map key_of ps) j k)
              (get_elem?-append_length keys key (map key_of ps)) in
          absurd (omega arith)
    ] in
    let assoc = append_assoc keys (key ∷ []) (map key_of ps) in
    let k : i + 1 ≡ length (keys ++ (key ∷ [])) = omega (arith, e, length-append keys (key ∷ [])) in
    let rest =
      index_previous-Complete_from (i + 1) ps (emplace key i entries) (keys ++ (key ∷ [])) k
        (subst AllDifferent (sym assoc) different) (rw e (Sound-emplace key entries keys absent x))
        (rw e (Complete-emplace key entries keys absent y)) in
    subst (Complete (index_previous (i + 1) ps (emplace key i entries))) assoc rest

pub index_previous-Complete :
    (ps : List Prober)
    → AllDifferent (map key_of ps)
    → Complete (index_previous 0 ps []) (map key_of ps)
unfolding find_key
index_previous-Complete ps different =
    index_previous-Complete_from 0 ps [] [] refl different (λ key i h. cc) (λ key i h. cc)
