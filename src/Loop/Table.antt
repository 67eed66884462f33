-- ===== src/Loop/Table.antt =====
-- What the handlers of the event loop leave alone: which probers there are, and who uses them.
use plasma_network_health.Prelude.{
  ℕ, ◌≡◌, refl, ap, ◌∙◌, inl, inr, Bool, false, List, [], ◌∷◌, map, map-set_same, some, arith,
  Bytes, Option-cases, get_elem?, set,
}
use plasma_network_health.Health.{
  Destination, unknown, count_sample, argue, settle, judge, sample_destination,
}
use plasma_network_health.Monitor.State.{Client, Subscriber, Prober, Monitor, Env}
use plasma_network_health.Monitor.Sampling.{
  destination_at, put_destination, sample_subscriber, sample_subscribers, apply_sample,
}

-- A destination without what samples change.
abbrev pub bare : Destination → Destination
bare d = record d {
  state = unknown;
  candidate = unknown;
  candidate_streak = 0;
  have_rtt = false;
  rtt_us = 0;
  sent = 0;
  received = 0;
  last_reply_real_us = 0;
  last_change_real_us = 0;
}

abbrev pub bare_client : Client → Client
bare_client c = record c { destinations = map bare c.destinations }

-- What a prober is, whatever it has sent and found.
pub record Identity : Type 0 where
  pub uid : ℕ
  pub host : Bytes
  pub interval_us : ℕ
  pub timeout_us : ℕ
  pub subscribers : List Subscriber

abbrev pub identity : Prober → Identity
identity p = record {
  uid = p.uid;
  host = p.host;
  interval_us = p.interval_us;
  timeout_us = p.timeout_us;
  subscribers = p.subscribers;
}

pub record SameTable (m n : Monitor) : Type 0 where
  pub options : n.options ≡ m.options
  pub probers : map identity n.probers ≡ map identity m.probers
  pub by_uid : n.prober_by_uid ≡ m.prober_by_uid
  pub next_uid : n.next_uid ≡ m.next_uid
  pub clients : map bare_client n.clients ≡ map bare_client m.clients

pub SameTable-self : (m : Monitor) → SameTable m m
SameTable-self m = record {
  options = refl;
  probers = refl;
  by_uid = refl;
  next_uid = refl;
  clients = refl;
}

pub SameTable-trans : (m n o : Monitor) → SameTable m n → SameTable n o → SameTable m o
SameTable-trans m n o h k = record {
  options = k.options ∙ h.options;
  probers = k.probers ∙ h.probers;
  by_uid = k.by_uid ∙ h.by_uid;
  next_uid = k.next_uid ∙ h.next_uid;
  clients = k.clients ∙ h.clients;
}

sample_destination-bare :
    (received : Bool) (rtt_us real_now : ℕ) (d : Destination)
    → bare (sample_destination received rtt_us real_now d) ≡ bare d
unfolding sample_destination count_sample judge argue settle
sample_destination-bare received rtt_us real_now d = ground arith

put_destination-bare :
    (clients : List Client) (s : Subscriber) (d e : Destination)
    → destination_at clients s ≡ some d
    → bare e ≡ bare d
    → map bare_client (put_destination clients s e) ≡ map bare_client clients
unfolding destination_at put_destination
put_destination-bare clients s d e h same = elim (Option-cases (get_elem? clients s.client)) [
  | inl missing ↦ rw missing refl
  | inr (c, found) ↦
      let at_d : get_elem? c.destinations s.destination ≡ some d = ground (arith, h, found) in
      let inside : map bare (set c.destinations s.destination e) ≡ map bare c.destinations =
        map-set_same bare c.destinations s.destination e at_d same in
      rw found (
        map-set_same bare_client clients s.client
          (record c { destinations = set c.destinations s.destination e }) found
          (ap (λ (ds : List Destination). record c { destinations = ds }) inside))
]

sample_subscriber-bare :
    (received : Bool) (rtt_us real_now : ℕ) (clients : List Client) (s : Subscriber)
    → map bare_client (sample_subscriber received rtt_us real_now clients s).0
      ≡ map bare_client clients
unfolding sample_subscriber
sample_subscriber-bare received rtt_us real_now clients s =
    elim (Option-cases (destination_at clients s)) [
      | inl missing ↦ rw missing refl
      | inr (d, found) ↦ rw found (
          put_destination-bare clients s d (sample_destination received rtt_us real_now d) found
            (sample_destination-bare received rtt_us real_now d))
    ]

sample_subscribers-bare :
    (received : Bool) (rtt_us real_now : ℕ) (clients : List Client) (ss : List Subscriber)
    → map bare_client (sample_subscribers received rtt_us real_now clients ss).0
      ≡ map bare_client clients
unfolding sample_subscribers
sample_subscribers-bare received rtt_us real_now clients [] = refl
sample_subscribers-bare received rtt_us real_now clients (s ∷ ss) =
    sample_subscribers-bare received rtt_us real_now
      (sample_subscriber received rtt_us real_now clients s).0 ss
    ∙ sample_subscriber-bare received rtt_us real_now clients s

-- A step on one prober and the monitor that holds the others.
abbrev pub Framed : Prober → Monitor → Prober × Monitor → Type 0
Framed p m r = (identity r.0 ≡ identity p) × SameTable m r.1 × (r.1.probers ≡ m.probers)

pub apply_sample-Framed :
    (env : Env) (p : Prober) (received : Bool) (rtt_us : ℕ) (m : Monitor)
    → Framed p m (apply_sample env p received rtt_us m)
unfolding apply_sample
apply_sample-Framed env p received rtt_us m = (
  refl,
  record {
    options = refl;
    probers = refl;
    by_uid = refl;
    next_uid = refl;
    clients =
        sample_subscribers-bare received rtt_us (env.real_time m.real_reads) m.clients
          p.subscribers;
  },
  refl,
)

pub Framed-trans :
    (p : Prober) (m : Monitor) (r s : Prober × Monitor)
    → Framed p m r
    → Framed r.0 r.1 s
    → Framed p m s
Framed-trans p m r s h k = (k.0 ∙ h.0, SameTable-trans m r.1 s.1 h.1 k.1, k.2 ∙ h.2)
