-- ===== src/Config/First.antt =====
-- std::find_if in reloadClients finds the first that has the identifier, or the identifier and the
-- address.
use plasma_network_health.Prelude.{
  ◌≡◌, sym, subst, true, false, ◌&&◌, List, [], ◌∷◌, Option, none, some, arith, Bytes, bytes_eq,
  bytes_eq_sound, bytes_eq_refl, if-cases, Bool-cases, inl, inr,
}
use plasma_network_health.Health.{Destination}
use plasma_network_health.Monitor.State.{Client}
use plasma_network_health.Config.Reload.{find_client, find_destination}

-- The first element with a property, or none if there is none.
pub data First {ℓ κ} {A : Type ℓ} (P : A → Type κ) : List A → Option A → Type (ℓ ⊔ κ) where
  missing : First P [] none
  here : {x : A} {xs : List A} → P x → First P (x ∷ xs) (some x)
  skipped : {x : A} {xs : List A} {o : Option A} → ¬ P x → First P xs o → First P (x ∷ xs) o

different : (xs ys : Bytes) → bytes_eq xs ys ≡ false → ¬ (xs ≡ ys)
different xs ys h e =
    let same : bytes_eq xs xs ≡ false = subst (λ (zs : Bytes). bytes_eq xs zs ≡ false) (sym e) h in
    let k = bytes_eq_refl xs in cc

pub find_client-First :
    (id : Bytes) (cs : List Client) → First (λ (c : Client). c.id ≡ id) cs (find_client id cs)
unfolding find_client
find_client-First id [] = missing
find_client-First id (c ∷ cs) =
    if-cases (First (λ (c : Client). c.id ≡ id) (c ∷ cs)) (bytes_eq c.id id) _ _
      (λ h. here (bytes_eq_sound c.id id h))
      (λ h. skipped (different c.id id h) (find_client-First id cs))

abbrev pub Stands : Bytes → Bytes → Destination → Type 0
Stands id address d = (d.id ≡ id) × (d.address ≡ address)

not_Stands :
    (id address : Bytes) (d : Destination)
    → (bytes_eq d.id id && bytes_eq d.address address) ≡ false
    → ¬ Stands id address d
not_Stands id address d h (e, k) = elim (Bool-cases (bytes_eq d.id id)) [
  | inl one ↦ different d.address address (ground (arith, h, one)) k
  | inr other ↦ different d.id id other e
]

pub find_destination-First :
    (id address : Bytes) (ds : List Destination)
    → First (Stands id address) ds (find_destination id address ds)
unfolding find_destination
find_destination-First id address [] = missing
find_destination-First id address (d ∷ ds) =
    if-cases (First (Stands id address) (d ∷ ds)) (bytes_eq d.id id && bytes_eq d.address address) _
      _
      (λ h.
        let one : bytes_eq d.id id ≡ true = ground (arith, h) in
        let two : bytes_eq d.address address ≡ true = ground (arith, h) in
        here (bytes_eq_sound d.id id one, bytes_eq_sound d.address address two))
      (λ h. skipped (not_Stands id address d h) (find_destination-First id address ds))
