-- ===== src/Monitor/Replies/Routing.antt =====
-- A reply reaches the prober that carries its identifier, and no other.
use plasma_network_health.Prelude.{
  ℕ, ◌≡◌, ◌≢◌, ap, ◌∙◌, inl, inr, List, none, some, arith, ◌==◌, get_elem?, set, get_elem?-set,
  Option-cases, Bool-cases,
}
use plasma_network_health.Pinger.Endpoint.{Reply}
use plasma_network_health.Monitor.State.{Prober, Monitor, Env}
use plasma_network_health.Monitor.Sampling.{apply_sample}
use plasma_network_health.Monitor.Replies.{find_uid, answer, handle_reply}

-- The map sends the identifier of each prober to its place, and nothing else anywhere.
pub record Indexed (map : List (ℕ × ℕ)) (probers : List Prober) : Type 0 where
  pub place : (i : ℕ) (p : Prober) → get_elem? probers i ≡ some p → find_uid p.uid map ≡ some i
  pub back :
      (uid i : ℕ)
      → find_uid uid map ≡ some i
      → (p : Prober) × (get_elem? probers i ≡ some p) × (p.uid ≡ uid)

module _ (map : List (ℕ × ℕ)) (probers : List Prober) (i : ℕ) (p q : Prober)
    (h : get_elem? probers i ≡ some p) (e : q.uid ≡ p.uid) (x : Indexed map probers) where
  set-place :
      (j : ℕ) (r : Prober) → get_elem? (set probers i q) j ≡ some r → find_uid r.uid map ≡ some j
  set-place j r k = elim (Bool-cases (i == j)) [
    | inl same ↦
        let place : find_uid p.uid map ≡ some i = x.place i p h in
        ground (arith, get_elem?-set probers i j q, place, h, e)
    | inr other ↦ x.place j r (ground (arith, get_elem?-set probers i j q))
  ]

  set-back :
      (uid j : ℕ)
      → find_uid uid map ≡ some j
      → (r : Prober) × (get_elem? (set probers i q) j ≡ some r) × (r.uid ≡ uid)
  set-back uid j k = elim (Bool-cases (i == j)) [
    | inl same ↦
        let b = x.back uid j k in
        (q, ground (arith, get_elem?-set probers i j q, h), ground (arith, b, h, e))
    | inr other ↦
        let b = x.back uid j k in (b.0, ground (arith, get_elem?-set probers i j q, b), b.2)
  ]

  Indexed-set : Indexed map (set probers i q)
  Indexed-set = record { place = set-place; back = set-back }

answer-kept :
    (env : Env) (now : ℕ) (reply : Reply) (p : Prober) (m : Monitor)
    → ((answer env now reply p m).0.uid ≡ p.uid)
      × ((answer env now reply p m).1.probers ≡ m.probers)
      × ((answer env now reply p m).1.prober_by_uid ≡ m.prober_by_uid)
unfolding answer apply_sample
answer-kept env now reply p m = ground arith

-- The monitor after the prober at a place has had the reply.
handle_reply_at :
    (env : Env) (now : ℕ) (reply : Reply) (m : Monitor) (i : ℕ) (p : Prober)
    → find_uid reply.uid m.prober_by_uid ≡ some i
    → get_elem? m.probers i ≡ some p
    → ((handle_reply env now reply m).probers ≡ set m.probers i (answer env now reply p m).0)
      × ((handle_reply env now reply m).prober_by_uid ≡ m.prober_by_uid)
unfolding handle_reply
handle_reply_at env now reply m i p h k = ground (arith, h, k, answer-kept env now reply p m)

handle_reply_missing :
    (env : Env) (now : ℕ) (reply : Reply) (m : Monitor)
    → find_uid reply.uid m.prober_by_uid ≡ none
    → handle_reply env now reply m ≡ m
unfolding handle_reply
handle_reply_missing env now reply m h = ground (arith, h)

-- With the map in step with the probers, the prober that has the reply's identifier is the one that
-- gets the reply, every other one stays as it was, and the map stays in step.
pub handle_reply_routes :
    (env : Env) (now : ℕ) (reply : Reply) (m : Monitor) (i : ℕ) (p : Prober)
    → Indexed m.prober_by_uid m.probers
    → get_elem? m.probers i ≡ some p
    → let n = handle_reply env now reply m in
      (p.uid ≡ reply.uid → get_elem? n.probers i ≡ some (answer env now reply p m).0)
      × (p.uid ≢ reply.uid → get_elem? n.probers i ≡ some p)
      × Indexed n.prober_by_uid n.probers
handle_reply_routes env now reply m i p x h =
    elim (Option-cases (find_uid reply.uid m.prober_by_uid)) [
      | inl missing ↦
          let same = handle_reply_missing env now reply m missing in
          let place = x.place i p h in
          (
            λ e. absurd (ground (arith, place, ap (λ u. find_uid u m.prober_by_uid) e, missing)),
            λ e. rw same h,
            rw same x,
          )
      | inr (j, there) ↦
          let (q, at_j, owns) = x.back reply.uid j there in
          let r = handle_reply_at env now reply m j q there at_j in
          let kept = answer-kept env now reply q m in
          let place = x.place i p h in
          (
            λ e.
                let same : j ≡ i =
                  ground (arith, place, ap (λ u. find_uid u m.prober_by_uid) e, there) in
                let whole : q ≡ p = ground (arith, at_j, h, ap (get_elem? m.probers) same) in
                rw (r.0, ← whole)
                  (ground
                    (arith, same, get_elem?-set m.probers j i (answer env now reply q m).0, at_j)),
            λ e.
                let apart : j ≢ i = λ same.
                  let whole : p ≡ q = ground (arith, at_j, h, ap (get_elem? m.probers) same) in
                  e (ap (λ (z : Prober). z.uid) whole ∙ owns) in
                rw (r.0)
                  (ground (arith, apart, get_elem?-set m.probers j i (answer env now reply q m).0)),
            rw (r.0, r.1) (Indexed-set m.prober_by_uid m.probers j q _ at_j kept.0 x),
          )
    ]
