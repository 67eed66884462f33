-- ===== src/Monitor/Rebuild/Recycling.antt =====
-- rebuildProbers keeps the state of the probers that are still needed.
use plasma_network_health.Prelude.{
  ℕ, ◌≡◌, ◌≢◌, refl, sym, ap, subst, ◌∙◌, inl, inr, true, false, List, [], ◌∷◌, ◌++◌, Option, none,
  some, arith, Bytes, ◌==◌, Bool-cases, Option-cases, length, get_elem?, set, get_elem?-set,
  get_elem?-snoc, get_elem?-map_inv, bytes_eq, bytes_eq_refl,
}
use plasma_network_health.Pinger.Lookup.{Names}
use plasma_network_health.Monitor.State.{Client, Subscriber, Prober}
use plasma_network_health.Monitor.Rebuild.{
  key_of, find_key, emplace, Build, available, fresh_prober, obtain, push_prober, subscribe,
}
use plasma_network_health.Monitor.Rebuild.Key.{prober_key}
use plasma_network_health.Monitor.Rebuild.Entries.{Sound, find_key-emplace}
use plasma_network_health.Monitor.Rebuild.Table.{
  keys, Pings-key_of, fresh_prober-Pings, available_lem,
}

-- Only the subscribers differ.
abbrev pub Keeps : Prober → Prober → Type 0
Keeps q p = p ≡ record q { subscribers = p.subscribers }

-- An earlier prober is free until its key is in use, and then its state is in use.
pub record Recycling (b : Build) : Type 0 where
  pub known : Sound b.previous_by_key (keys b.previous)
  pub free :
      (key : Bytes) (j : ℕ)
      → find_key key b.previous_by_key ≡ some j
      → find_key key b.current_by_key ≡ none
      → get_elem? b.consumed j ≡ some false
  pub keeps :
      (i j : ℕ) (p q : Prober)
      → get_elem? b.probers i ≡ some p
      → find_key (key_of p) b.previous_by_key ≡ some j
      → get_elem? b.previous j ≡ some q
      → Keeps q p

emplaced :
    (key other : Bytes) (i : ℕ) (entries : List (Bytes × ℕ))
    → find_key key entries ≡ none
    → find_key other (emplace key i entries) ≡ none
    → (other ≢ key) × (find_key other entries ≡ none)
emplaced key other i entries absent h = elim (Bool-cases (bytes_eq key other)) [
  | inl same ↦ ground (arith, h, find_key-emplace key other i entries absent)
  | inr differs ↦
      let k : find_key other entries ≡ none =
        ground (arith, h, find_key-emplace key other i entries absent) in
      (
        λ e.
            let t : bytes_eq key other ≡ true =
              subst (λ (o : Bytes). bytes_eq key o ≡ true) (sym e) (bytes_eq_refl key) in
            cc,
        k,
      )
]

-- A prober that is not yet in the table.
pub record Incoming (b : Build) (key : Bytes) (p : Prober) : Type 0 where
  pub known : Sound b.previous_by_key (keys b.previous)
  pub free :
      (other : Bytes) (j : ℕ)
      → find_key other b.previous_by_key ≡ some j
      → other ≢ key
      → find_key other b.current_by_key ≡ none
      → get_elem? b.consumed j ≡ some false
  pub keeps :
      (i j : ℕ) (r q : Prober)
      → get_elem? b.probers i ≡ some r
      → find_key (key_of r) b.previous_by_key ≡ some j
      → get_elem? b.previous j ≡ some q
      → Keeps q r
  pub new :
      (j : ℕ) (q : Prober)
      → find_key key b.previous_by_key ≡ some j
      → get_elem? b.previous j ≡ some q
      → Keeps q p

pub push_prober-Recycling :
    (key : Bytes) (p : Prober) (b : Build)
    → find_key key b.current_by_key ≡ none
    → key_of p ≡ key
    → Incoming b key p
    → Recycling (push_prober key p b)
unfolding push_prober
push_prober-Recycling key p b absent e x = record {
  known = x.known;
  free = λ other j h k.
      let (differs, gone) = emplaced key other (length b.probers) b.current_by_key absent k in
      x.free other j h differs gone;
  keeps = λ i j r q h k l. elim (Bool-cases (i == length b.probers)) [
    | inl last ↦
        let same : p ≡ r = ground (arith, h, get_elem?-snoc b.probers p i) in
        subst (Keeps q) same (
          x.new j q (ap (λ (t : Bytes). find_key t b.previous_by_key) (sym e ∙ ap key_of same) ∙ k)
            l)
    | inr before ↦
        let there : get_elem? b.probers i ≡ some r =
          ground (arith, h, get_elem?-snoc b.probers p i) in
        x.keeps i j r q there k l
  ];
}

module _ (names : Names) (now : ℕ) (client : Client) (address key : Bytes) (b : Build)
    (x : Recycling b) (absent : find_key key b.current_by_key ≡ none) where
  -- There is no earlier prober with the key.
  fresh-Incoming :
      find_key key b.previous_by_key ≡ none
      → Incoming
          (obtain names now client address none b).1
          key
          (obtain names now client address none b).0
  unfolding obtain
  fresh-Incoming e = record {
    known = x.known;
    free = λ other j h differs k. x.free other j h k;
    keeps = x.keeps;
    new = λ j q h k. cc;
  }

  recycled-Incoming :
      (i : ℕ) (p : Prober)
      → find_key key b.previous_by_key ≡ some i
      → get_elem? b.previous i ≡ some p
      → Incoming
          (obtain names now client address (some (i, p)) b).1
          key
          (obtain names now client address (some (i, p)) b).0
  unfolding obtain
  recycled-Incoming i p e at = record {
    known = x.known;
    free = λ other j h differs k.
        let apart : i ≢ j = λ same.
          let one : get_elem? (keys b.previous) j ≡ some other = x.known other j h in
          let two : get_elem? (keys b.previous) j ≡ some key = x.known key j (e ∙ ap some same) in
          let o : other ≡ key = cc in differs o in
        let f = x.free other j h k in ground (arith, get_elem?-set b.consumed i j true, f);
    keeps = x.keeps;
    new = λ j q h k.
        let same : i ≡ j = cc in
        let pq : p ≡ q = ground (arith, at, k) in
        ap (λ (r : Prober). record r { subscribers = [] }) pq;
  }

  pub obtain-Incoming :
      let r =
        obtain names now client address
          (available b.previous b.consumed (find_key key b.previous_by_key))
          b in
      Incoming r.1 key r.0
  obtain-Incoming = elim (Option-cases (find_key key b.previous_by_key)) [
    | inl e ↦ rw e (fresh-Incoming e)
    | inr (i, e) ↦
        let (p, at, kp) = get_elem?-map_inv key_of b.previous i (x.known key i e) in
        let free = x.free key i e absent in
        let o : available b.previous b.consumed (find_key key b.previous_by_key) ≡ some (i, p) =
          ground (arith, e, at, free) in
        rw o (recycled-Incoming i p e at)
  ]

  pub obtain-current :
      (o : Option (ℕ × Prober))
      → (obtain names now client address o b).1.current_by_key ≡ b.current_by_key
  unfolding obtain
  obtain-current none = refl
  obtain-current (some (i, p)) = refl

  pub obtain-key :
      key ≡ prober_key address client.interval_us client.timeout_us
      → key_of
          (obtain names now client address
            (available b.previous b.consumed (find_key key b.previous_by_key))
            b).0
        ≡ key
  unfolding obtain
  obtain-key e =
      elim (Option-cases (available b.previous b.consumed (find_key key b.previous_by_key))) [
        | inl o ↦ rw o (
            Pings-key_of (fresh_prober names now client address b.next_uid) address client
              (fresh_prober-Pings names now client address b.next_uid)
            ∙ sym e)
        | inr ((i, p), o) ↦
            let l = available_lem b.previous b.consumed _ i p o in
            let (q, at, kq) = get_elem?-map_inv key_of b.previous i (x.known key i l.0) in
            let same : p ≡ q = ground (arith, at, l.1) in
            rw o (unfold key_of in (ap key_of same ∙ kq))
      ]

Keeps-key_of : (q p : Prober) → Keeps q p → key_of p ≡ key_of q
unfolding key_of
Keeps-key_of q p h = ap key_of h

Keeps-trans : (p q r : Prober) → Keeps p q → Keeps q r → Keeps p r
Keeps-trans p q r h k = k ∙ ap (λ (t : Prober). record t { subscribers = r.subscribers }) h

subscribe-inv :
    (i : ℕ) (s : Subscriber) (ps : List Prober) (j : ℕ) (r : Prober)
    → get_elem? (subscribe i s ps) j ≡ some r
    → (q : Prober) × (get_elem? ps j ≡ some q) × Keeps q r
unfolding subscribe
subscribe-inv i s ps j r h = elim (Option-cases (get_elem? ps i)) [
  | inl e ↦
      let same : subscribe i s ps ≡ ps = rw e refl in
      (r, ap (λ (l : List Prober). get_elem? l j) (sym same) ∙ h, refl)
  | inr (p, e) ↦
      let v : Prober = record p { subscribers = p.subscribers ++ (s ∷ []) } in
      let same : subscribe i s ps ≡ set ps i v = rw e refl in
      let k : get_elem? (set ps i v) j ≡ some r =
        ap (λ (l : List Prober). get_elem? l j) (sym same) ∙ h in
      elim (Bool-cases (i == j)) [
        | inl at ↦
            let l : v ≡ r = ground (arith, k, e, get_elem?-set ps i j v) in
            (p, ground (arith, at, e), subst (Keeps p) l refl)
        | inr other ↦ (r, ground (arith, k, other, get_elem?-set ps i j v), refl)
      ]
]

pub subscribe-Recycling :
    (i : ℕ) (s : Subscriber) (b : Build)
    → Recycling b
    → Recycling (record b { probers = subscribe i s b.probers })
subscribe-Recycling i s b x = record {
  known = x.known;
  free = x.free;
  keeps = λ j k r q h l at.
      let (t, there, keeps) = subscribe-inv i s b.probers j r h in
      let found =
        ap (λ (key : Bytes). find_key key b.previous_by_key) (sym (Keeps-key_of t r keeps)) ∙ l in
      Keeps-trans q t r (x.keeps j k t q there found at) keeps;
}
