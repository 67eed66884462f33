-- ===== src/Monitor/Rebuild/Keeping.antt =====
-- rebuildProbers takes over the state of every prober that is still needed.
use plasma_network_health.Prelude.{
  ℕ, zero, suc, ◌+◌, ◌<◌, ◌≡◌, refl, sym, ap, subst, ◌∙◌, false, not, List, [], ◌∷◌, Option, none,
  some, arith, Bytes, if-cases, length, get_elem?, replicate, get_elem?-length, get_elem?-map,
  length-map, AllDifferent,
}
use plasma_network_health.Health.{Destination}
use plasma_network_health.Pinger.Lookup.{Names}
use plasma_network_health.Monitor.State.{Client, Subscriber, Prober, Monitor}
use plasma_network_health.Monitor.Rebuild.{
  key_of, find_key, Build, available, obtain, push_prober, subscribe, ensure, add_destination,
  add_destinations, add_clients, index_previous, finish_probers, finish_prober, start_build,
  rebuild_probers,
}
use plasma_network_health.Monitor.Rebuild.Key.{prober_key}
use plasma_network_health.Monitor.Rebuild.Entries.{index_previous-Sound, index_previous-Complete}
use plasma_network_health.Monitor.Rebuild.Table.{keys}
use plasma_network_health.Monitor.Rebuild.Recycling.{
  Keeps, Recycling, push_prober-Recycling, subscribe-Recycling, obtain-Incoming, obtain-key,
  obtain-current,
}

module _ (names : Names) (now : ℕ) (client : Client) where
  ensure-Recycling :
      (address : Bytes) (o : Option ℕ) (b : Build)
      → Recycling b
      → find_key (prober_key address client.interval_us client.timeout_us) b.current_by_key ≡ o
      → Recycling
          (ensure names now client address
            (prober_key address client.interval_us client.timeout_us)
            o
            b).1
  unfolding ensure
  ensure-Recycling address (some i) b x h = x
  ensure-Recycling address none b x h =
      let key = prober_key address client.interval_us client.timeout_us in
      let o = available b.previous b.consumed (find_key key b.previous_by_key) in
      let (p, c) = obtain names now client address o b in
      push_prober-Recycling key p c
        (ap (find_key key) (obtain-current names now client address key b x h o) ∙ h)
        (obtain-key names now client address key b x h refl)
        (obtain-Incoming names now client address key b x h)

  add_destination-Recycling :
      (s : Subscriber) (d : Destination) (b : Build)
      → Recycling b
      → Recycling (add_destination names now client s d b).1
  unfolding add_destination
  add_destination-Recycling s d b x =
      let key = prober_key d.address client.interval_us client.timeout_us in
      let r = ensure names now client d.address key (find_key key b.current_by_key) b in
      if-cases (λ (t : Destination × Build). Recycling t.1) (not d.enabled)
        (record d { prober = none }, b)
        (record d { prober = some r.0 }, record r.1 { probers = subscribe r.0 s r.1.probers })
        (λ e. x)
        (λ e.
          subscribe-Recycling r.0 s r.1
            (ensure-Recycling d.address (find_key key b.current_by_key) b x refl))

  add_destinations-Recycling :
      (c i : ℕ) (ds : List Destination) (b : Build)
      → Recycling b
      → Recycling (add_destinations names now client c i ds b).1
  unfolding add_destinations
  add_destinations-Recycling c i [] b x = x
  add_destinations-Recycling c i (d ∷ ds) b x =
      let s : Subscriber = record { client = c; destination = i } in
      add_destinations-Recycling c (i + 1) ds (add_destination names now client s d b).1
        (add_destination-Recycling s d b x)

add_clients-Recycling :
    (names : Names) (now i : ℕ) (cs : List Client) (b : Build)
    → Recycling b
    → Recycling (add_clients names now i cs b).1
unfolding add_clients
add_clients-Recycling names now i [] b x = x
add_clients-Recycling names now i (c ∷ cs) b x =
    add_clients-Recycling names now (i + 1) cs (add_destinations names now c i 0 c.destinations b).1
      (add_destinations-Recycling names now c i 0 c.destinations b x)

-- The earlier probers and the map to them stay.
abbrev SameEarlier : Build → Build → Type 0
SameEarlier b c = (c.previous ≡ b.previous) × (c.previous_by_key ≡ b.previous_by_key)

SameEarlier-trans : (b c d : Build) → SameEarlier b c → SameEarlier c d → SameEarlier b d
SameEarlier-trans b c d x y = (y.0 ∙ x.0, y.1 ∙ x.1)

obtain-SameEarlier :
    (names : Names) (now : ℕ) (client : Client) (address : Bytes) (o : Option (ℕ × Prober))
    (b : Build)
    → SameEarlier b (obtain names now client address o b).1
unfolding obtain
obtain-SameEarlier names now client address none b = (refl, refl)
obtain-SameEarlier names now client address (some (i, p)) b = (refl, refl)

ensure-SameEarlier :
    (names : Names) (now : ℕ) (client : Client) (address key : Bytes) (o : Option ℕ) (b : Build)
    → SameEarlier b (ensure names now client address key o b).1
unfolding ensure push_prober
ensure-SameEarlier names now client address key (some i) b = (refl, refl)
ensure-SameEarlier names now client address key none b =
    obtain-SameEarlier names now client address
      (available b.previous b.consumed (find_key key b.previous_by_key)) b

add_destination-SameEarlier :
    (names : Names) (now : ℕ) (client : Client) (s : Subscriber) (d : Destination) (b : Build)
    → SameEarlier b (add_destination names now client s d b).1
unfolding add_destination
add_destination-SameEarlier names now client s d b =
    let key = prober_key d.address client.interval_us client.timeout_us in
    let r = ensure names now client d.address key (find_key key b.current_by_key) b in
    if-cases (λ (t : Destination × Build). SameEarlier b t.1) (not d.enabled)
      (record d { prober = none }, b)
      (record d { prober = some r.0 }, record r.1 { probers = subscribe r.0 s r.1.probers })
      (λ e. (refl, refl))
      (λ e. ensure-SameEarlier names now client d.address key (find_key key b.current_by_key) b)

add_destinations-SameEarlier :
    (names : Names) (now : ℕ) (client : Client) (c i : ℕ) (ds : List Destination) (b : Build)
    → SameEarlier b (add_destinations names now client c i ds b).1
unfolding add_destinations
add_destinations-SameEarlier names now client c i [] b = (refl, refl)
add_destinations-SameEarlier names now client c i (d ∷ ds) b =
    let s : Subscriber = record { client = c; destination = i } in
    let b1 = (add_destination names now client s d b).1 in
    SameEarlier-trans b b1 (add_destinations names now client c (i + 1) ds b1).1
      (add_destination-SameEarlier names now client s d b)
      (add_destinations-SameEarlier names now client c (i + 1) ds b1)

add_clients-SameEarlier :
    (names : Names) (now i : ℕ) (cs : List Client) (b : Build)
    → SameEarlier b (add_clients names now i cs b).1
unfolding add_clients
add_clients-SameEarlier names now i [] b = (refl, refl)
add_clients-SameEarlier names now i (c ∷ cs) b =
    let b1 = (add_destinations names now c i 0 c.destinations b).1 in
    SameEarlier-trans b b1 (add_clients names now (i + 1) cs b1).1
      (add_destinations-SameEarlier names now c i 0 c.destinations b)
      (add_clients-SameEarlier names now (i + 1) cs b1)

replicate-false : (n i : ℕ) → i < n → get_elem? (replicate n false) i ≡ some false
replicate-false zero i h = elim h [ ]
replicate-false (suc n) zero h = refl
replicate-false (suc n) (suc i) h = replicate-false n i (omega arith)

start_build-Recycling : (m : Monitor) → Recycling (start_build m)
unfolding start_build
start_build-Recycling m = record {
  known = index_previous-Sound m.probers;
  free = λ key j h k.
      let l = get_elem?-length (keys m.probers) (index_previous-Sound m.probers key j h) in
      replicate-false (length m.probers) j (omega (arith, l, length-map key_of m.probers));
  keeps = λ i j p q h k at. cc;
}

finish_probers-inv :
    (ps : List Prober) (i : ℕ) (p : Prober)
    → get_elem? (finish_probers ps) i ≡ some p
    → (q : Prober) × (get_elem? ps i ≡ some q) × (p ≡ finish_prober q)
unfolding finish_probers
finish_probers-inv [] i p h = cc
finish_probers-inv (q ∷ ps) zero p h = (q, refl, cc)
finish_probers-inv (q ∷ ps) (suc i) p h = finish_probers-inv ps i p h

finish_prober-key : (p r : Prober) → p ≡ finish_prober r → key_of p ≡ key_of r
unfolding finish_prober key_of
finish_prober-key p r e = ap key_of e

finish_prober-Keeps :
    (p q r : Prober)
    → Keeps q r
    → p ≡ finish_prober r
    → p ≡ record q { subscribers = p.subscribers; max_in_flight = p.max_in_flight }
unfolding finish_prober
finish_prober-Keeps p q r h e =
    let w = (finish_prober r).max_in_flight in
    subst
      (λ (t : Prober).
        t ≡ record q { subscribers = t.subscribers; max_in_flight = t.max_in_flight })
      (sym e) (ap (λ (t : Prober). record t { max_in_flight = w }) h)

-- If no two earlier probers have the same host, interval and maximum wait, then a prober of the
-- rebuilt table that has those of an earlier one is that one, with only its subscribers and the
-- size of its window made anew: identifier, outstanding probes, times, address and counters stay.
pub rebuild_probers_keeps :
    (names : Names) (now : ℕ) (m : Monitor)
    → AllDifferent (keys m.probers)
    → (i j : ℕ) (p q : Prober) → get_elem? (rebuild_probers names now m).probers i ≡ some p
    → get_elem? m.probers j ≡ some q
    → p.host ≡ q.host
    → p.interval_us ≡ q.interval_us
    → p.timeout_us ≡ q.timeout_us
    → p ≡ record q { subscribers = p.subscribers; max_in_flight = p.max_in_flight }
unfolding rebuild_probers key_of start_build
rebuild_probers_keeps names now m different i j p q hp hq host interval timeout =
    let x = add_clients-Recycling names now 0 m.clients (start_build m) (start_build-Recycling m) in
    let b = (add_clients names now 0 m.clients (start_build m)).1 in
    let (r, there, finished) = finish_probers-inv b.probers i p hp in
    let found : find_key (key_of q) (index_previous 0 m.probers []) ≡ some j =
      index_previous-Complete m.probers different (key_of q) j
        (get_elem?-map key_of m.probers j hq) in
    let named : key_of p ≡ key_of q = rw (host, interval, timeout) refl in
    let same : key_of r ≡ key_of q = sym (finish_prober-key p r finished) ∙ named in
    let earlier = add_clients-SameEarlier names now 0 m.clients (start_build m) in
    let known : find_key (key_of r) b.previous_by_key ≡ some j =
      ap (find_key (key_of r)) earlier.1
      ∙ (ap (λ (key : Bytes). find_key key (index_previous 0 m.probers [])) same ∙ found) in
    let at : get_elem? b.previous j ≡ some q =
      ap (λ (ps : List Prober). get_elem? ps j) earlier.0 ∙ hq in
    finish_prober-Keeps p q r (x.keeps i j r q there known at) finished
