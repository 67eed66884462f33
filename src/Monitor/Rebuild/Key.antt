-- ===== src/Monitor/Rebuild/Key.antt =====
-- `proberKey` (daemon/src/monitor.cpp) tells probers apart.
use plasma_network_health.Prelude.{
  ℕ, ◌<◌, ◌≡◌, ◌≢◌, refl, sym, subst, [], ◌∷◌, ◌++◌, append_assoc, arith, Bytes, All, u64_mod,
}
use plasma_network_health.Util.Decimal.{
  to_string, to_string-injective, to_string-IsDigits, IsDigits,
}

abbrev pub separator : ℕ
separator = 31

unfoldable pub prober_key : Bytes → ℕ → ℕ → Bytes
prober_key host interval_us timeout_us =
    host ++ (separator ∷ (to_string interval_us ++ (separator ∷ to_string timeout_us)))

abbrev HasNoSeparator : Bytes → Type 0
HasNoSeparator = All (λ c. c ≢ separator)

IsDigits-HasNoSeparator : (xs : Bytes) → IsDigits xs → HasNoSeparator xs
IsDigits-HasNoSeparator [] h = tt
IsDigits-HasNoSeparator (x ∷ xs) h = (omega arith, IsDigits-HasNoSeparator xs h.1)

separator-absent : (xs ys : Bytes) → ¬ HasNoSeparator (xs ++ (separator ∷ ys))
separator-absent [] ys h = h.0 refl
separator-absent (x ∷ xs) ys h = separator-absent xs ys h.1

-- The text before the last separator and the text after it.
split_last :
    (xs ys us vs : Bytes)
    → HasNoSeparator us
    → HasNoSeparator vs
    → xs ++ (separator ∷ us) ≡ ys ++ (separator ∷ vs)
    → (xs ≡ ys) × (us ≡ vs)
split_last [] [] us vs ha hb e = (refl, cc)
split_last [] (y ∷ ys) us vs ha hb e =
    let k : us ≡ ys ++ (separator ∷ vs) = cc in
    absurd (separator-absent ys vs (subst HasNoSeparator k ha))
split_last (x ∷ xs) [] us vs ha hb e =
    let k : xs ++ (separator ∷ us) ≡ vs = cc in
    absurd (separator-absent xs us (subst HasNoSeparator (sym k) hb))
split_last (x ∷ xs) (y ∷ ys) us vs ha hb e =
    let k : xs ++ (separator ∷ us) ≡ ys ++ (separator ∷ vs) = cc in
    let l = split_last xs ys us vs ha hb k in (cc, l.1)

-- A host may hold the separator; the numbers cannot.
pub prober_key-injective :
    (h h' : Bytes) (i i' t t' : ℕ)
    → i < u64_mod
    → i' < u64_mod
    → t < u64_mod
    → t' < u64_mod
    → prober_key h i t ≡ prober_key h' i' t'
    → (h ≡ h') × (i ≡ i') × (t ≡ t')
unfolding prober_key
prober_key-injective h h' i i' t t' hi hi' ht ht' e =
    let digits : (n : ℕ) → HasNoSeparator (to_string n) =
      λ n. IsDigits-HasNoSeparator (to_string n) (to_string-IsDigits n) in
    let k : (h ++ (separator ∷ to_string i)) ++ (separator ∷ to_string t)
        ≡ (h' ++ (separator ∷ to_string i')) ++ (separator ∷ to_string t') =
      simp (append_assoc) e in
    let outer = split_last _ _ _ _ (digits t) (digits t') k in
    let inner = split_last h h' _ _ (digits i) (digits i') outer.0 in
    (inner.0, to_string-injective i i' hi hi' inner.1, to_string-injective t t' ht ht' outer.1)
