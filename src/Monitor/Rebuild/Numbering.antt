-- ===== src/Monitor/Rebuild/Numbering.antt =====
-- The loops of rebuildProbers keep the identifiers apart, and the last loop maps them to places.
use plasma_network_health.Prelude.{
  ℕ, ◌+◌, ◌<◌, ◌≤◌, ◌≡◌, refl, inl, inr, not, List, [], ◌∷◌, ◌++◌, Option, none, some, arith, Bytes,
  if-cases, Option-cases, length, get_elem?, map-set_same, u32_mod,
}
use plasma_network_health.Health.{Destination}
use plasma_network_health.Pinger.Lookup.{Names}
use plasma_network_health.Monitor.State.{Client, Subscriber, Prober}
use plasma_network_health.Monitor.Rebuild.{
  find_key, Build, available, obtain, push_prober, subscribe, ensure, add_destination,
  add_destinations, add_clients,
}
use plasma_network_health.Monitor.Rebuild.Key.{prober_key}
use plasma_network_health.Monitor.Rebuild.Uids.{
  uid_of, uids, Numbered, obtain-Obtained, push_prober-Numbered,
}

-- At most `n` identifiers are used up.
abbrev pub Uses : ℕ → Build → Build → Type 0
Uses n b c = Numbered c × (c.next_uid ≤ b.next_uid + n)

subscribe-uids : (i : ℕ) (s : Subscriber) (ps : List Prober) → uids (subscribe i s ps) ≡ uids ps
unfolding subscribe
subscribe-uids i s ps = elim (Option-cases (get_elem? ps i)) [
  | inl e ↦ rw e refl
  | inr (p, e) ↦
      rw e (map-set_same uid_of ps i (record p { subscribers = p.subscribers ++ (s ∷ []) }) e refl)
]

subscribe-Numbered :
    (i : ℕ) (s : Subscriber) (b : Build)
    → Numbered b
    → Numbered (record b { probers = subscribe i s b.probers })
subscribe-Numbered i s b x =
    let same = subscribe-uids i s b.probers in
    record {
      below = rw same x.below;
      previous_below = x.previous_below;
      different = rw same x.different;
      previous_different = x.previous_different;
      apart = rw same x.apart;
    }

module _ (names : Names) (now : ℕ) (client : Client) where
  ensure-Uses :
      (address key : Bytes) (o : Option ℕ) (b : Build)
      → Numbered b
      → b.next_uid + 1 < u32_mod
      → Uses 1 b (ensure names now client address key o b).1
  unfolding ensure push_prober
  ensure-Uses address key (some i) b x room = (x, omega arith)
  ensure-Uses address key none b x room =
      let o = find_key key b.previous_by_key in
      let (p, c) = obtain names now client address (available b.previous b.consumed o) b in
      let y = obtain-Obtained names now client address b x room o in
      (push_prober-Numbered key p c y.0 y.1, y.2)

  add_destination-Uses :
      (s : Subscriber) (d : Destination) (b : Build)
      → Numbered b
      → b.next_uid + 1 < u32_mod
      → Uses 1 b (add_destination names now client s d b).1
  unfolding add_destination
  add_destination-Uses s d b x room =
      let key = prober_key d.address client.interval_us client.timeout_us in
      let r = ensure names now client d.address key (find_key key b.current_by_key) b in
      let y = ensure-Uses d.address key (find_key key b.current_by_key) b x room in
      if-cases (λ (t : Destination × Build). Uses 1 b t.1) (not d.enabled)
        (record d { prober = none }, b)
        (record d { prober = some r.0 }, record r.1 { probers = subscribe r.0 s r.1.probers })
        (λ e. (x, omega arith)) (λ e. (subscribe-Numbered r.0 s r.1 y.0, y.1))

  add_destinations-Uses :
      (c i : ℕ) (ds : List Destination) (b : Build)
      → Numbered b
      → b.next_uid + length ds < u32_mod
      → Uses (length ds) b (add_destinations names now client c i ds b).1
  unfolding add_destinations
  add_destinations-Uses c i [] b x room = (x, omega arith)
  add_destinations-Uses c i (d ∷ ds) b x room =
      let s : Subscriber = record { client = c; destination = i } in
      let one = add_destination-Uses s d b x (omega arith) in
      let b1 = (add_destination names now client s d b).1 in
      let rest = add_destinations-Uses c (i + 1) ds b1 one.0 (omega arith) in (rest.0, omega arith)

-- How many destinations there are.
unfoldable pub total_destinations : List Client → ℕ
total_destinations [] = 0
total_destinations (c ∷ cs) = length c.destinations + total_destinations cs

pub add_clients-Uses :
    (names : Names) (now i : ℕ) (cs : List Client) (b : Build)
    → Numbered b
    → b.next_uid + total_destinations cs < u32_mod
    → Uses (total_destinations cs) b (add_clients names now i cs b).1
unfolding add_clients total_destinations
add_clients-Uses names now i [] b x room = (x, omega arith)
add_clients-Uses names now i (c ∷ cs) b x room =
    let one = add_destinations-Uses names now c i 0 c.destinations b x (omega arith) in
    let b1 = (add_destinations names now c i 0 c.destinations b).1 in
    let rest = add_clients-Uses names now (i + 1) cs b1 one.0 (omega arith) in (rest.0, omega arith)
