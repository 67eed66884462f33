-- ===== src/Monitor/Rebuild/Serving.antt =====
-- What it is for a destination to be served by the table of probers.
use plasma_network_health.Prelude.{
  ℕ, zero, suc, ◌≡◌, refl, subst, ◌∙◌, inl, inr, Bool, true, false, List, [], ◌∷◌, ◌++◌, none, some,
  arith, Bytes, ◌==◌, Bool-cases, get_elem?, set, get_elem?-set, get_elem?-snoc, get_elem?-length,
  In, head, later,
}
use plasma_network_health.Health.{Destination}
use plasma_network_health.Monitor.State.{Client, Subscriber, Prober}
use plasma_network_health.Monitor.Rebuild.{subscribe, finish_prober, finish_probers}

-- The prober pings the address at the client's interval and timeout.
pub record Pings (p : Prober) (address : Bytes) (client : Client) : Type 0 where
  pub host : p.host ≡ address
  pub interval_us : p.interval_us ≡ client.interval_us
  pub timeout_us : p.timeout_us ≡ client.timeout_us

-- An enabled destination holds the place of a prober that pings it and that it is subscribed to.
pub record HasProber (probers : List Prober) (client : Client) (s : Subscriber) (d : Destination)
    : Type 0 where
  pub place : ℕ
  pub prober : Prober
  pub held : d.prober ≡ some place
  pub found : get_elem? probers place ≡ some prober
  pub pings : Pings prober d.address client
  pub subscribed : In s prober.subscribers

abbrev pub ServedIf : Bool → List Prober → Client → Subscriber → Destination → Type 0
ServedIf true probers client s d = HasProber probers client s d
ServedIf false probers client s d = d.prober ≡ none

abbrev pub Served : List Prober → Client → Subscriber → Destination → Type 0
Served probers client s d = ServedIf d.enabled probers client s d

-- The same prober with no subscriber lost.
pub record Continues (p q : Prober) : Type 0 where
  pub host : q.host ≡ p.host
  pub interval_us : q.interval_us ≡ p.interval_us
  pub timeout_us : q.timeout_us ≡ p.timeout_us
  pub kept : (s : Subscriber) → In s p.subscribers → In s q.subscribers

abbrev pub Extends : List Prober → List Prober → Type 0
Extends ps qs =
    (i : ℕ) (p : Prober)
    → get_elem? ps i ≡ some p
    → (q : Prober) × (get_elem? qs i ≡ some q) × Continues p q

Continues-self : (p : Prober) → Continues p p
Continues-self p = record { host = refl; interval_us = refl; timeout_us = refl; kept = λ s h. h }

pub Extends-self : (ps : List Prober) → Extends ps ps
Extends-self ps i p h = (p, h, Continues-self p)

Continues-trans : (p q r : Prober) → Continues p q → Continues q r → Continues p r
Continues-trans p q r x y = record {
  host = y.host ∙ x.host;
  interval_us = y.interval_us ∙ x.interval_us;
  timeout_us = y.timeout_us ∙ x.timeout_us;
  kept = λ s h. y.kept s (x.kept s h);
}

pub Extends-trans : (ps qs rs : List Prober) → Extends ps qs → Extends qs rs → Extends ps rs
Extends-trans ps qs rs x y i p h =
    let (q, hq, cq) = x i p h in let (r, hr, cr) = y i q hq in (r, hr, Continues-trans p q r cq cr)

pub Extends-snoc : (ps : List Prober) (p : Prober) → Extends ps (ps ++ (p ∷ []))
Extends-snoc ps p i q h =
    let l = get_elem?-length ps h in (q, ground (arith, get_elem?-snoc ps p i), Continues-self q)

In-append :
    {s : Subscriber} {xs : List Subscriber} (ys : List Subscriber) → In s xs → In s (xs ++ ys)
In-append ys head = head
In-append ys (later h) = later (In-append ys h)

In-last : (s : Subscriber) (xs : List Subscriber) → In s (xs ++ (s ∷ []))
In-last s [] = head
In-last s (x ∷ xs) = later (In-last s xs)

subscribe_at :
    (i : ℕ) (s : Subscriber) (ps : List Prober) (p : Prober)
    → get_elem? ps i ≡ some p
    → subscribe i s ps ≡ set ps i (record p { subscribers = p.subscribers ++ (s ∷ []) })
unfolding subscribe
subscribe_at i s ps p h = rw h refl

Continues-subscribe :
    (s : Subscriber) (p : Prober)
    → Continues p (record p { subscribers = p.subscribers ++ (s ∷ []) })
Continues-subscribe s p = record {
  host = refl;
  interval_us = refl;
  timeout_us = refl;
  kept = λ t h. In-append (s ∷ []) h;
}

module _ (i : ℕ) (s : Subscriber) (ps : List Prober) (p : Prober)
    (h : get_elem? ps i ≡ some p) where
  pub Extends-subscribe : Extends ps (subscribe i s ps)
  Extends-subscribe j q k = elim (Bool-cases (i == j)) [
    | inl same ↦ (
      record p { subscribers = p.subscribers ++ (s ∷ []) },
      rw (subscribe_at i s ps p h) (
          ground (
            arith,
            h,
            get_elem?-set ps i j (record p { subscribers = p.subscribers ++ (s ∷ []) }),
          )),
      let e : p ≡ q = ground (arith, h, k) in
          subst (λ (r : Prober). Continues r (record p { subscribers = p.subscribers ++ (s ∷ []) }))
            e (Continues-subscribe s p),
    )
    | inr other ↦ (
      q,
      rw (subscribe_at i s ps p h) (
          ground (
            arith,
            k,
            get_elem?-set ps i j (record p { subscribers = p.subscribers ++ (s ∷ []) }),
          )),
      Continues-self q,
    )
  ]

  pub subscribe-HasProber :
      (client : Client) (d : Destination)
      → Pings p d.address client
      → HasProber (subscribe i s ps) client s (record d { prober = some i })
  subscribe-HasProber client d x = record {
    place = i;
    prober = record p { subscribers = p.subscribers ++ (s ∷ []) };
    held = refl;
    found = rw (subscribe_at i s ps p h) (
        ground
          (arith, h, get_elem?-set ps i i (record p { subscribers = p.subscribers ++ (s ∷ []) })));
    pings = record { host = x.host; interval_us = x.interval_us; timeout_us = x.timeout_us };
    subscribed = In-last s p.subscribers;
  }

pub HasProber-Extends :
    (ps qs : List Prober) (client : Client) (s : Subscriber) (d : Destination)
    → Extends ps qs
    → HasProber ps client s d
    → HasProber qs client s d
HasProber-Extends ps qs client s d x y =
    let (q, hq, c) = x y.place y.prober y.found in
    record {
      place = y.place;
      prober = q;
      held = y.held;
      found = hq;
      pings = record {
        host = c.host ∙ y.pings.host;
        interval_us = c.interval_us ∙ y.pings.interval_us;
        timeout_us = c.timeout_us ∙ y.pings.timeout_us;
      };
      subscribed = c.kept s y.subscribed;
    }

ServedIf-Extends :
    (b : Bool) (ps qs : List Prober) (client : Client) (s : Subscriber) (d : Destination)
    → Extends ps qs
    → ServedIf b ps client s d
    → ServedIf b qs client s d
ServedIf-Extends true ps qs client s d x y = HasProber-Extends ps qs client s d x y
ServedIf-Extends false ps qs client s d x y = y

pub Served-Extends :
    (ps qs : List Prober) (client : Client) (s : Subscriber) (d : Destination)
    → Extends ps qs
    → Served ps client s d
    → Served qs client s d
Served-Extends ps qs client s d = ServedIf-Extends d.enabled ps qs client s d

pub Extends-finish : (ps : List Prober) → Extends ps (finish_probers ps)
unfolding finish_probers finish_prober
Extends-finish [] i q h = cc
Extends-finish (p ∷ ps) zero q h =
    let e : p ≡ q = cc in
    (
      finish_prober p,
      refl,
      subst (λ (r : Prober). Continues r (finish_prober p)) e
          (record { host = refl; interval_us = refl; timeout_us = refl; kept = λ s k. k }),
    )
Extends-finish (p ∷ ps) (suc i) q h = Extends-finish ps i q h
