-- ===== src/Monitor/Rebuild/Indexing.antt =====
-- After rebuildProbers the map `m_proberByUid` is in step with the probers.
use plasma_network_health.Prelude.{
  ℕ, ◌+◌, ◌<◌, ◌≤◌, ◌≡◌, refl, sym, ap, subst, ◌↔◌, inl, inr, List, [], ◌∷◌, ◌++◌, some,
  append_assoc, append-nil, arith, ◌==◌, if◌then◌else◌, Bool-cases, length, length-append,
  get_elem?, get_elem?-snoc, get_elem?-length, get_elem?-append_left, get_elem?-append_length,
  get_elem?-map, get_elem?-map_inv, u32_mod, AllDifferent, All, All-get_elem?, All-of_get_elem?,
}
use plasma_network_health.Pinger.Lookup.{Names}
use plasma_network_health.Monitor.State.{Prober, Monitor}
use plasma_network_health.Monitor.Replies.{find_uid}
use plasma_network_health.Monitor.Replies.Routing.{Indexed}
use plasma_network_health.Monitor.Rebuild.{
  add_clients, assign, index_probers, finish_probers, finish_prober, start_build, rebuild_probers,
}
use plasma_network_health.Monitor.Rebuild.Uids.{uid_of, uids, Numbered}
use plasma_network_health.Monitor.Rebuild.Numbering.{total_destinations, add_clients-Uses}

find_uid-assign :
    (u v i : ℕ) (entries : List (ℕ × ℕ))
    → find_uid u (assign v i entries) ≡ (if v == u then some i else find_uid u entries)
unfolding find_uid assign
find_uid-assign u v i [] = refl
find_uid-assign u v i ((w, j) ∷ entries) = ground (arith, find_uid-assign u v i entries)

-- The entries are the places of the identifiers.
Places : List (ℕ × ℕ) → List ℕ → Type 0
Places entries us = (u i : ℕ) → (find_uid u entries ≡ some i) ↔ (get_elem? us i ≡ some u)

assign-Places :
    (v : ℕ) (entries : List (ℕ × ℕ)) (us rest : List ℕ)
    → AllDifferent (us ++ (v ∷ rest))
    → Places entries us
    → Places (assign v (length us) entries) (us ++ (v ∷ []))
unfolding Places
assign-Places v entries us rest different x u i =
    let law = find_uid-assign u v (length us) entries in
    let snoc = get_elem?-snoc us v i in
    let last = get_elem?-append_length us v rest in
    (
      λ h. elim (Bool-cases (v == u)) [
        | inl same ↦ ground (arith, h, law, snoc)
        | inr other ↦
            let k = (x u i).0 (ground (arith, h, law)) in
            let l = get_elem?-length us k in ground (arith, k, snoc)
      ],
      λ h. elim (Bool-cases (i == length us)) [
        | inl same ↦ ground (arith, h, law, snoc)
        | inr other ↦
            let k : get_elem? us i ≡ some u = ground (arith, h, snoc) in
            let e = (x u i).1 k in
            let there = get_elem?-append_left us (v ∷ rest) i k in
            ground (arith, e, law, different i (length us) u there, last)
      ],
    )

index_probers-Places_from :
    (i : ℕ) (ps : List Prober) (entries : List (ℕ × ℕ)) (us : List ℕ)
    → i ≡ length us
    → AllDifferent (us ++ uids ps)
    → Places entries us
    → Places (index_probers i ps entries) (us ++ uids ps)
unfolding index_probers
index_probers-Places_from i [] entries us e different x = rw (append-nil us) x
index_probers-Places_from i (p ∷ ps) entries us e different x =
    let next : Places (assign p.uid i entries) (us ++ (p.uid ∷ [])) =
      rw e (assign-Places p.uid entries us (uids ps) different x) in
    let k : i + 1 ≡ length (us ++ (p.uid ∷ [])) = omega (arith, e, length-append us (p.uid ∷ [])) in
    let same = append_assoc us (p.uid ∷ []) (uids ps) in
    let rest =
      index_probers-Places_from (i + 1) ps (assign p.uid i entries) (us ++ (p.uid ∷ [])) k
        (subst AllDifferent (sym same) different) next in
    subst (Places (index_probers (i + 1) ps (assign p.uid i entries))) same rest

index_probers-Places :
    (ps : List Prober) → AllDifferent (uids ps) → Places (index_probers 0 ps []) (uids ps)
unfolding Places find_uid
index_probers-Places ps different =
    index_probers-Places_from 0 ps [] [] refl different (λ u i. (λ h. cc, λ h. cc))

uids-finish_probers : (ps : List Prober) → uids (finish_probers ps) ≡ uids ps
unfolding finish_probers finish_prober
uids-finish_probers [] = refl
uids-finish_probers (p ∷ ps) = ap (λ (us : List ℕ). p.uid ∷ us) (uids-finish_probers ps)

Places-Indexed :
    (entries : List (ℕ × ℕ)) (ps : List Prober) → Places entries (uids ps) → Indexed entries ps
unfolding Places
Places-Indexed entries ps x = record {
  place = λ i p h. (x p.uid i).1 (get_elem?-map uid_of ps i h);
  back = λ u i h. get_elem?-map_inv uid_of ps i ((x u i).0 h);
}

start_build-Numbered :
    (m : Monitor)
    → AllDifferent (uids m.probers)
    → ((i u : ℕ) → get_elem? (uids m.probers) i ≡ some u → u < m.next_uid)
    → Numbered (start_build m)
unfolding start_build
start_build-Numbered m different below = record {
  below = λ i u h. cc;
  previous_below = below;
  different = λ i j u h k. cc;
  previous_different = different;
  apart = λ i j u h f k. cc;
}

-- A monitor whose probers have different identifiers, each below the next one, and that has
-- identifiers left for as many probers as there are destinations: after a rebuild the identifiers
-- are again different and below the next one, and the map takes each prober's identifier to its
-- place and nothing else anywhere.
pub rebuild_probers-Indexed :
    (names : Names) (now : ℕ) (m : Monitor)
    → AllDifferent (uids m.probers)
    → All (λ (u : ℕ). u < m.next_uid) (uids m.probers)
    → m.next_uid + total_destinations m.clients < u32_mod
    → let n = rebuild_probers names now m in
      Indexed n.prober_by_uid n.probers
      × AllDifferent (uids n.probers)
      × All (λ (u : ℕ). u < n.next_uid) (uids n.probers)
unfolding rebuild_probers start_build
rebuild_probers-Indexed names now m different below room =
    let pointwise : (i u : ℕ) → get_elem? (uids m.probers) i ≡ some u → u < m.next_uid =
      λ i u h. All-get_elem? (λ (u : ℕ). u < m.next_uid) (uids m.probers) i below h in
    let x =
      add_clients-Uses names now 0 m.clients (start_build m)
        (start_build-Numbered m different pointwise) room in
    let b = (add_clients names now 0 m.clients (start_build m)).1 in
    let same = uids-finish_probers b.probers in
    (
      Places-Indexed (index_probers 0 b.probers []) (finish_probers b.probers)
          (rw same (index_probers-Places b.probers x.0.different)),
      rw same x.0.different,
      rw same (All-of_get_elem? (λ (u : ℕ). u < b.next_uid) (uids b.probers) x.0.below),
    )

-- As many identifiers are used up as there are destinations, at most.
pub rebuild_probers-next_uid :
    (names : Names) (now : ℕ) (m : Monitor)
    → AllDifferent (uids m.probers)
    → All (λ (u : ℕ). u < m.next_uid) (uids m.probers)
    → m.next_uid + total_destinations m.clients < u32_mod
    → (rebuild_probers names now m).next_uid ≤ m.next_uid + total_destinations m.clients
unfolding rebuild_probers start_build
rebuild_probers-next_uid names now m different below room =
    (add_clients-Uses names now 0 m.clients (start_build m)
      (start_build-Numbered m different
        (λ i u h. All-get_elem? (λ (u : ℕ). u < m.next_uid) (uids m.probers) i below h))
      room).1
