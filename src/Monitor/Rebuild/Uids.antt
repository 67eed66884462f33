-- ===== src/Monitor/Rebuild/Uids.antt =====
-- The identifiers that rebuildProbers gives, and the map from them to the probers' places.
use plasma_network_health.Prelude.{
  ℕ, ◌+◌, ◌<◌, ◌≤◌, ◌≡◌, ◌≢◌, refl, sym, ap, ◌∙◌, ◌⊎◌, inl, inr, true, false, List, [], ◌∷◌, ◌++◌,
  Option, none, some, map, arith, Bytes, Option-cases, length, get_elem?, set, get_elem?-set,
  get_elem?-snoc, get_elem?-map, map-snoc, u32_mod, inc32, AllDifferent,
}
use plasma_network_health.Pinger.Lookup.{Names, parse_numeric_address}
use plasma_network_health.Monitor.State.{Client, Prober}
use plasma_network_health.Monitor.Rebuild.{Build, fresh_prober, available, obtain, push_prober}
use plasma_network_health.Monitor.Rebuild.Table.{available_lem}

abbrev pub uid_of : Prober → ℕ
uid_of p = p.uid

abbrev pub uids : List Prober → List ℕ
uids = map uid_of

-- Identifiers are below the next one and all different, and an earlier prober that may still be
-- taken has none of the new ones.
pub record Numbered (b : Build) : Type 0 where
  pub below : (i u : ℕ) → get_elem? (uids b.probers) i ≡ some u → u < b.next_uid
  pub previous_below : (i u : ℕ) → get_elem? (uids b.previous) i ≡ some u → u < b.next_uid
  pub different : AllDifferent (uids b.probers)
  pub previous_different : AllDifferent (uids b.previous)
  pub apart :
      (i j u : ℕ)
      → get_elem? (uids b.probers) i ≡ some u
      → get_elem? b.consumed j ≡ some false
      → get_elem? (uids b.previous) j ≢ some u

-- The identifier may be added.
pub record IsNew (b : Build) (u : ℕ) : Type 0 where
  below : u < b.next_uid
  different : (i : ℕ) → get_elem? (uids b.probers) i ≢ some u
  apart : (j : ℕ) → get_elem? b.consumed j ≡ some false → get_elem? (uids b.previous) j ≢ some u

fresh_prober-uid :
    (names : Names) (now : ℕ) (client : Client) (address : Bytes) (uid : ℕ)
    → (fresh_prober names now client address uid).uid ≡ uid
unfolding fresh_prober
fresh_prober-uid names now client address uid =
    elim (Option-cases (parse_numeric_address names address)) [
      | inl e ↦ rw e refl
      | inr (endpoint, e) ↦ rw e refl
    ]

abbrev pub Obtained : Build → Prober × Build → Type 0
Obtained b r = Numbered r.1 × IsNew r.1 r.0.uid × (r.1.next_uid ≤ b.next_uid + 1)

module _ (names : Names) (now : ℕ) (client : Client) (address : Bytes) (b : Build) (x : Numbered b)
    (room : b.next_uid + 1 < u32_mod) where
  obtain_fresh-Obtained : Obtained b (obtain names now client address none b)
  unfolding obtain
  obtain_fresh-Obtained =
      let next : inc32 b.next_uid ≡ b.next_uid + 1 = omega arith in
      let same = fresh_prober-uid names now client address b.next_uid in
      (
        record {
          below = λ i u h. let k = x.below i u h in omega arith;
          previous_below = λ i u h. let k = x.previous_below i u h in omega arith;
          different = x.different;
          previous_different = x.previous_different;
          apart = x.apart;
        },
        rw same (record {
          below = omega arith;
          different = λ i h. let k = x.below i b.next_uid h in omega arith;
          apart = λ j f h. let k = x.previous_below j b.next_uid h in omega arith;
        }),
        omega arith,
      )

  obtain_recycled-Obtained :
      (i : ℕ) (p : Prober)
      → get_elem? b.previous i ≡ some p
      → get_elem? b.consumed i ≡ some false
      → Obtained b (obtain names now client address (some (i, p)) b)
  unfolding obtain
  obtain_recycled-Obtained i p at free =
      let there : get_elem? (uids b.previous) i ≡ some p.uid =
        get_elem?-map uid_of b.previous i at in
      let still : (j : ℕ)
          → get_elem? (set b.consumed i true) j ≡ some false
          → (get_elem? b.consumed j ≡ some false) × (j ≢ i) =
        λ j h. ground (arith, get_elem?-set b.consumed i j true, free) in
      (
        record {
          below = x.below;
          previous_below = x.previous_below;
          different = x.different;
          previous_different = x.previous_different;
          apart = λ k j u h f. x.apart k j u h (still j f).0;
        },
        record {
          below = x.previous_below i p.uid there;
          different = λ k h. x.apart k i p.uid h free there;
          apart = λ j f h. (still j f).1 (x.previous_different j i p.uid h there);
        },
        omega arith,
      )

  pub obtain-Obtained :
      (o : Option ℕ)
      → Obtained b (obtain names now client address (available b.previous b.consumed o) b)
  obtain-Obtained o = elim (Option-cases (available b.previous b.consumed o)) [
    | inl e ↦ rw e obtain_fresh-Obtained
    | inr ((i, p), e) ↦
        let l = available_lem b.previous b.consumed o i p e in
        rw e (obtain_recycled-Obtained i p l.1 l.2)
  ]

pub push_prober-Numbered :
    (key : Bytes) (p : Prober) (b : Build)
    → Numbered b
    → IsNew b p.uid
    → Numbered (push_prober key p b)
unfolding push_prober
push_prober-Numbered key p b x y =
    let us = uids b.probers in
    let same : uids (b.probers ++ (p ∷ [])) ≡ us ++ (p.uid ∷ []) = map-snoc uid_of b.probers p in
    let cases : (i u : ℕ)
        → get_elem? (uids (b.probers ++ (p ∷ []))) i ≡ some u
        → ((i ≡ length us) × (u ≡ p.uid)) ⊎ (get_elem? us i ≡ some u) =
      λ i u h. ground (arith, h, same, get_elem?-snoc us p.uid i) in
    record {
      below = λ i u h. elim (cases i u h) [ inl e ↦ rw (e.1) y.below | inr k ↦ x.below i u k ];
      previous_below = x.previous_below;
      different = λ i j u h k. elim (cases i u h) [
        | inl (ei, eu) ↦ elim (cases j u k) [
          | inl (ej, _) ↦ ei ∙ sym ej
          | inr kj ↦ absurd (y.different j (kj ∙ ap some eu))
        ]
        | inr ki ↦ elim (cases j u k) [
          | inl (ej, eu) ↦ absurd (y.different i (ki ∙ ap some eu))
          | inr kj ↦ x.different i j u ki kj
        ]
      ];
      previous_different = x.previous_different;
      apart = λ i j u h f k. elim (cases i u h) [
        | inl (ei, eu) ↦ y.apart j f (k ∙ ap some eu)
        | inr ki ↦ x.apart i j u ki f k
      ];
    }
