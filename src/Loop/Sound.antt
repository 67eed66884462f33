-- ===== src/Loop/Sound.antt =====
-- A monitor whose table of probers is in order, whatever the probers have sent and found.
use plasma_network_health.Prelude.{
  ℕ, ◌<◌, ◌≡◌, refl, sym, ap, subst, ◌∙◌, Bool, true, false, List, [], ◌∷◌, map, some, get_elem?,
  get_elem?-map, get_elem?-map_inv, AllDifferent, u64_mod, All, All-get_elem?, All-of_get_elem?, In,
}
use plasma_network_health.Health.{Destination}
use plasma_network_health.Monitor.State.{Client, Subscriber, Prober, Monitor}
use plasma_network_health.Monitor.Replies.{find_uid}
use plasma_network_health.Monitor.Replies.Routing.{Indexed}
use plasma_network_health.Monitor.Rebuild.Serving.{HasProber, ServedIf, Served}
use plasma_network_health.Monitor.Rebuild.Table.{IsTimed}
use plasma_network_health.Monitor.Rebuild.Uids.{uids}
use plasma_network_health.Loop.Table.{Identity, identity, bare, bare_client, SameTable}

-- Identifiers are all different, below the next one, and found in the map at their probers' places;
-- times fit in 64 bits; no two probers do the same work; and each destination is served.
pub record IsSound (m : Monitor) : Type 0 where
  pub indexed : Indexed m.prober_by_uid m.probers
  pub different : AllDifferent (uids m.probers)
  pub below : All (λ (u : ℕ). u < m.next_uid) (uids m.probers)
  pub timed : All IsTimed m.probers
  pub shared :
      (i j : ℕ) (p q : Prober)
      → get_elem? m.probers i ≡ some p
      → get_elem? m.probers j ≡ some q
      → p.host ≡ q.host
      → p.interval_us ≡ q.interval_us
      → p.timeout_us ≡ q.timeout_us
      → i ≡ j
  pub served :
      (c d : ℕ) (client : Client) (dest : Destination)
      → get_elem? m.clients c ≡ some client
      → get_elem? client.destinations d ≡ some dest
      → Served m.probers client (record { client = c; destination = d }) dest

-- The prober at a place of a list with the same identities.
like :
    (ps qs : List Prober) (i : ℕ) (q : Prober)
    → map identity qs ≡ map identity ps
    → get_elem? qs i ≡ some q
    → (p : Prober) × (get_elem? ps i ≡ some p) × (identity p ≡ identity q)
like ps qs i q same h =
    get_elem?-map_inv identity ps i (rw (sym same) (get_elem?-map identity qs i h))

uids-identity : (ps : List Prober) → uids ps ≡ map (λ (i : Identity). i.uid) (map identity ps)
uids-identity [] = refl
uids-identity (p ∷ ps) = ap (λ (us : List ℕ). p.uid ∷ us) (uids-identity ps)

same-uids : (ps qs : List Prober) → map identity qs ≡ map identity ps → uids qs ≡ uids ps
same-uids ps qs h = uids-identity qs ∙ ap (map (λ (i : Identity). i.uid)) h ∙ sym (uids-identity ps)

HasProber-like :
    (ps qs : List Prober) (c e : Client) (s : Subscriber) (d f : Destination)
    → map identity qs ≡ map identity ps
    → bare_client c ≡ bare_client e
    → bare d ≡ bare f
    → HasProber ps c s d
    → HasProber qs e s f
HasProber-like ps qs c e s d f same client dest h =
    let (q, found, k) = like qs ps h.place h.prober (sym same) h.found in
    let held = h.held in
    let host = h.pings.host in
    let interval = h.pings.interval_us in
    let timeout = h.pings.timeout_us in
    let subscribers : q.subscribers ≡ h.prober.subscribers =
      ap (λ (i : Identity). i.subscribers) k in
    record {
      place = h.place;
      prober = q;
      held = ap (λ (x : Destination). x.prober) (sym dest) ∙ held;
      found = found;
      pings = record {
        host = ap (λ (i : Identity). i.host) k ∙ host ∙ ap (λ (x : Destination). x.address) dest;
        interval_us =
            ap (λ (i : Identity). i.interval_us) k
            ∙ interval
            ∙ ap (λ (x : Client). x.interval_us) client;
        timeout_us =
            ap (λ (i : Identity). i.timeout_us) k
            ∙ timeout
            ∙ ap (λ (x : Client). x.timeout_us) client;
      };
      subscribed = subst (In s) (sym subscribers) h.subscribed;
    }

ServedIf-like :
    (b : Bool) (ps qs : List Prober) (c e : Client) (s : Subscriber) (d f : Destination)
    → map identity qs ≡ map identity ps
    → bare_client c ≡ bare_client e
    → bare d ≡ bare f
    → ServedIf b ps c s d
    → ServedIf b qs e s f
ServedIf-like true ps qs c e s d f same client dest h =
    HasProber-like ps qs c e s d f same client dest h
ServedIf-like false ps qs c e s d f same client dest h =
    ap (λ (x : Destination). x.prober) (sym dest) ∙ h

module _ (m n : Monitor) (same : SameTable m n) (x : IsSound m) where
  Indexed-kept : Indexed n.prober_by_uid n.probers
  Indexed-kept = record {
    place = λ i q h.
        let (p, found, k) = like m.probers n.probers i q same.probers h in
        let place = x.indexed.place i p found in
        rw (same.by_uid) (
          subst (λ (u : ℕ). find_uid u m.prober_by_uid ≡ some i) (ap (λ (i : Identity). i.uid) k)
            place);
    back = λ uid i h.
        let (p, found, k) = x.indexed.back uid i (rw (sym same.by_uid) h) in
        let (q, there, l) = like n.probers m.probers i p (sym same.probers) found in
        (q, there, ap (λ (i : Identity). i.uid) l ∙ k);
  }

  below-kept : All (λ (u : ℕ). u < n.next_uid) (uids n.probers)
  below-kept = rw (same.next_uid, same-uids m.probers n.probers same.probers) x.below

  IsTimed-kept : All IsTimed n.probers
  IsTimed-kept = All-of_get_elem? IsTimed n.probers (λ i q h.
      let (p, found, k) = like m.probers n.probers i q same.probers h in
      let timed = All-get_elem? IsTimed m.probers i x.timed found in
      (
        subst (λ (i : Identity). i.interval_us < u64_mod) k timed.0,
        subst (λ (i : Identity). i.timeout_us < u64_mod) k timed.1,
      ))

  Served-kept :
      (c d : ℕ) (client : Client) (dest : Destination)
      → get_elem? n.clients c ≡ some client
      → get_elem? client.destinations d ≡ some dest
      → Served n.probers client (record { client = c; destination = d }) dest
  Served-kept c d client dest h k =
      let (e, at_e, same_e) =
        get_elem?-map_inv bare_client m.clients c
          (rw (sym same.clients) (get_elem?-map bare_client n.clients c h)) in
      let ds : map bare e.destinations ≡ map bare client.destinations =
        ap (λ (x : Client). x.destinations) same_e in
      let (f, at_f, same_f) =
        get_elem?-map_inv bare e.destinations d
          (rw ds (get_elem?-map bare client.destinations d k)) in
      let s : Subscriber = record { client = c; destination = d } in
      let served =
        ServedIf-like f.enabled m.probers n.probers e client s f dest same.probers same_e same_f
          (x.served c d e f at_e at_f) in
      subst (λ (b : Bool). ServedIf b n.probers client s dest)
        (ap (λ (x : Destination). x.enabled) same_f) served

  pub IsSound-kept : IsSound n
  IsSound-kept = record {
    indexed = Indexed-kept;
    different = subst AllDifferent (sym (same-uids m.probers n.probers same.probers)) x.different;
    below = below-kept;
    timed = IsTimed-kept;
    shared = λ i j p q hi hj host interval timeout.
        let (v, at_v, like_v) = like m.probers n.probers i p same.probers hi in
        let (w, at_w, like_w) = like m.probers n.probers j q same.probers hj in
        x.shared i j v w at_v at_w
          (ap (λ (i : Identity). i.host) like_v ∙ host ∙ sym (ap (λ (i : Identity). i.host) like_w))
          (ap (λ (i : Identity). i.interval_us) like_v
            ∙ interval
            ∙ sym (ap (λ (i : Identity). i.interval_us) like_w))
          (ap (λ (i : Identity). i.timeout_us) like_v
            ∙ timeout
            ∙ sym (ap (λ (i : Identity). i.timeout_us) like_w));
    served = Served-kept;
  }
