-- ===== src/Monitor/Rebuild/Table.antt =====
-- The loops of rebuildProbers over clients and destinations, with the invariant of their variables.
use plasma_network_health.Prelude.{
  ℕ, zero, suc, ◌<◌, ◌≡◌, refl, sym, inl, inr, Bool, false, List, [], ◌∷◌, ◌++◌, Option, none, some,
  map, arith, Bytes, Option-cases, get_elem?, set, length-map, map-snoc, map-set_same, All,
  All-append, All-get_elem?, u64_mod,
}
use plasma_network_health.Pinger.Lookup.{Names, parse_numeric_address}
use plasma_network_health.Monitor.State.{Client, Subscriber, Prober}
use plasma_network_health.Monitor.Rebuild.{
  key_of, find_key, Build, fresh_prober, available, obtain, push_prober, subscribe,
}
use plasma_network_health.Monitor.Rebuild.Key.{prober_key, prober_key-injective}
use plasma_network_health.Monitor.Rebuild.Entries.{Sound, Complete, Sound-emplace, Complete-emplace}
use plasma_network_health.Monitor.Rebuild.Serving.{Pings}

-- The times are those of a uint64_t.
abbrev pub IsTimed : Prober → Type 0
IsTimed p = (p.interval_us < u64_mod) × (p.timeout_us < u64_mod)

abbrev pub IsTimedClient : Client → Type 0
IsTimedClient c = (c.interval_us < u64_mod) × (c.timeout_us < u64_mod)

abbrev pub keys : List Prober → List Bytes
keys = map key_of

pub record Ready (b : Build) : Type 0 where
  pub sound : Sound b.current_by_key (keys b.probers)
  pub complete : Complete b.current_by_key (keys b.probers)
  pub known : Sound b.previous_by_key (keys b.previous)
  pub timed : All IsTimed b.probers
  pub previous_timed : All IsTimed b.previous

-- The key of the right name belongs to a prober that pings it.
pub key_of-Pings :
    (p : Prober) (address : Bytes) (client : Client)
    → IsTimed p
    → IsTimedClient client
    → key_of p ≡ prober_key address client.interval_us client.timeout_us
    → Pings p address client
unfolding key_of
key_of-Pings p address client hp hc e =
    let k = prober_key-injective p.host address _ _ _ _ hp.0 hc.0 hp.1 hc.1 e in
    record { host = k.0; interval_us = k.1; timeout_us = k.2 }

pub Pings-key_of :
    (p : Prober) (address : Bytes) (client : Client)
    → Pings p address client
    → key_of p ≡ prober_key address client.interval_us client.timeout_us
unfolding key_of
Pings-key_of p address client x = rw (x.host, x.interval_us, x.timeout_us) refl

pub Pings-IsTimed :
    (p : Prober) (address : Bytes) (client : Client)
    → IsTimedClient client
    → Pings p address client
    → IsTimed p
Pings-IsTimed p address client h x = rw (x.interval_us, x.timeout_us) h

pub fresh_prober-Pings :
    (names : Names) (now : ℕ) (client : Client) (address : Bytes) (uid : ℕ)
    → Pings (fresh_prober names now client address uid) address client
unfolding fresh_prober
fresh_prober-Pings names now client address uid =
    elim (Option-cases (parse_numeric_address names address)) [
      | inl e ↦ rw e (record { host = refl; interval_us = refl; timeout_us = refl })
      | inr (endpoint, e) ↦ rw e (record { host = refl; interval_us = refl; timeout_us = refl })
    ]

pub available_lem :
    (previous : List Prober) (consumed : List Bool) (o : Option ℕ) (i : ℕ) (p : Prober)
    → available previous consumed o ≡ some (i, p)
    → (o ≡ some i) × (get_elem? previous i ≡ some p) × (get_elem? consumed i ≡ some false)
available_lem previous consumed none i p h = cc
available_lem previous consumed (some j) i p h = ground (arith)

module _ (names : Names) (now : ℕ) (client : Client) (address : Bytes)
    (timed : IsTimedClient client) where
  pub obtain-Pings :
      (b : Build) (o : Option (ℕ × Prober))
      → ((i : ℕ) (p : Prober) → o ≡ some (i, p) → Pings p address client)
      → Pings (obtain names now client address o b).0 address client
  unfolding obtain
  obtain-Pings b none h = fresh_prober-Pings names now client address b.next_uid
  obtain-Pings b (some (i, p)) h =
      let x = h i p refl in
      record { host = x.host; interval_us = x.interval_us; timeout_us = x.timeout_us }

  pub obtain-Ready :
      (b : Build) (o : Option (ℕ × Prober))
      → Ready b
      → Ready (obtain names now client address o b).1
  unfolding obtain
  obtain-Ready b none x = record {
    sound = x.sound;
    complete = x.complete;
    known = x.known;
    timed = x.timed;
    previous_timed = x.previous_timed;
  }
  obtain-Ready b (some (i, p)) x = record {
    sound = x.sound;
    complete = x.complete;
    known = x.known;
    timed = x.timed;
    previous_timed = x.previous_timed;
  }

  pub obtain-kept :
      (b : Build) (o : Option (ℕ × Prober))
      → ((obtain names now client address o b).1.probers ≡ b.probers)
        × ((obtain names now client address o b).1.current_by_key ≡ b.current_by_key)
  unfolding obtain
  obtain-kept b none = (refl, refl)
  obtain-kept b (some (i, p)) = (refl, refl)

pub push_prober-Ready :
    (key : Bytes) (p : Prober) (b : Build)
    → find_key key b.current_by_key ≡ none
    → key_of p ≡ key
    → IsTimed p
    → Ready b
    → Ready (push_prober key p b)
unfolding push_prober
push_prober-Ready key p b absent e h x = record {
  sound =
      rw (map-snoc key_of b.probers p, e, sym (length-map key_of b.probers))
        (Sound-emplace key b.current_by_key (keys b.probers) absent x.sound);
  complete =
      rw (map-snoc key_of b.probers p, e, sym (length-map key_of b.probers))
        (Complete-emplace key b.current_by_key (keys b.probers) absent x.complete);
  known = x.known;
  timed = All-append IsTimed b.probers (p ∷ []) x.timed (h, tt);
  previous_timed = x.previous_timed;
}

All-set :
    (ps : List Prober) (i : ℕ) (q : Prober) → IsTimed q → All IsTimed ps → All IsTimed (set ps i q)
All-set [] i q h x = tt
All-set (p ∷ ps) zero q h x = (h, x.1)
All-set (p ∷ ps) (suc i) q h x = (x.0, All-set ps i q h x.1)

pub subscribe-Ready :
    (i : ℕ) (s : Subscriber) (b : Build) (p : Prober)
    → get_elem? b.probers i ≡ some p
    → Ready b
    → Ready (record b { probers = subscribe i s b.probers })
unfolding subscribe key_of
subscribe-Ready i s b p h x =
    let q : Prober = record p { subscribers = p.subscribers ++ (s ∷ []) } in
    let k : subscribe i s b.probers ≡ set b.probers i q = rw h refl in
    let same : keys (subscribe i s b.probers) ≡ keys b.probers =
      rw k (map-set_same key_of b.probers i q h refl) in
    record {
      sound = rw same x.sound;
      complete = rw same x.complete;
      known = x.known;
      timed = rw k (All-set b.probers i q (All-get_elem? IsTimed b.probers i x.timed h) x.timed);
      previous_timed = x.previous_timed;
    }
