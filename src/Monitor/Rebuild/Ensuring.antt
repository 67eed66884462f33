-- ===== src/Monitor/Rebuild/Ensuring.antt =====
-- The prober that a destination's key finds or makes pings the destination.
use plasma_network_health.Prelude.{
  ℕ, ◌≡◌, ap, subst, ◌∙◌, List, [], ◌∷◌, ◌++◌, Option, none, some, arith, Bytes, length, get_elem?,
  get_elem?-snoc, get_elem?-map_inv, All-get_elem?,
}
use plasma_network_health.Pinger.Lookup.{Names}
use plasma_network_health.Monitor.State.{Client, Prober}
use plasma_network_health.Monitor.Rebuild.{
  key_of, find_key, Build, available, obtain, push_prober, ensure,
}
use plasma_network_health.Monitor.Rebuild.Key.{prober_key}
use plasma_network_health.Monitor.Rebuild.Serving.{Pings, Extends, Extends-self, Extends-snoc}
use plasma_network_health.Monitor.Rebuild.Table.{
  IsTimed, IsTimedClient, Ready, key_of-Pings, Pings-key_of, Pings-IsTimed, available_lem,
  obtain-Pings, obtain-Ready, obtain-kept, push_prober-Ready,
}

-- What `ensure` gives: the place of a prober that pings the address.
pub record Ensured (b : Build) (client : Client) (address : Bytes) (r : ℕ × Build) : Type 0 where
  pub ready : Ready r.1
  pub extends : Extends b.probers r.1.probers
  pub prober : Prober
  pub found : get_elem? r.1.probers r.0 ≡ some prober
  pub pings : Pings prober address client

module _ (names : Names) (now : ℕ) (client : Client) (timed : IsTimedClient client) where
  recycled-Pings :
      (b : Build) (address : Bytes)
      → Ready b
      → (i : ℕ) (p : Prober)
      → available b.previous b.consumed
          (find_key (prober_key address client.interval_us client.timeout_us) b.previous_by_key)
        ≡ some (i, p)
      → Pings p address client
  recycled-Pings b address x i p h =
      let (there, at, free) = available_lem b.previous b.consumed _ i p h in
      let (q, hq, kq) = get_elem?-map_inv key_of b.previous i (x.known _ i there) in
      let same : q ≡ p = ground (arith, hq, at) in
      subst (λ (r : Prober). Pings r address client) same
        (key_of-Pings q address client (All-get_elem? IsTimed b.previous i x.previous_timed hq)
          timed kq)

  pub ensure-Ensured :
      (b : Build) (address : Bytes)
      → Ready b
      → (o : Option ℕ)
      → find_key (prober_key address client.interval_us client.timeout_us) b.current_by_key ≡ o
      → Ensured b client address (
          ensure names now client address
            (prober_key address client.interval_us client.timeout_us)
            o
            b)
  unfolding ensure push_prober
  ensure-Ensured b address x (some i) h =
      let (p, hp, kp) = get_elem?-map_inv key_of b.probers i (x.sound _ i h) in
      record {
        ready = x;
        extends = Extends-self b.probers;
        prober = p;
        found = hp;
        pings =
            key_of-Pings p address client (All-get_elem? IsTimed b.probers i x.timed hp) timed kp;
      }
  ensure-Ensured b address x none h =
      let key = prober_key address client.interval_us client.timeout_us in
      let o = available b.previous b.consumed (find_key key b.previous_by_key) in
      let (p, c) = obtain names now client address o b in
      let pings : Pings p address client =
        obtain-Pings names now client address timed b o (recycled-Pings b address x) in
      let (same, current) = obtain-kept names now client address timed b o in
      record {
        ready =
            push_prober-Ready key p c (ap (find_key key) current ∙ h)
              (Pings-key_of p address client pings) (Pings-IsTimed p address client timed pings)
              (obtain-Ready names now client address timed b o x);
        extends =
            subst (λ (ps : List Prober). Extends ps (c.probers ++ (p ∷ []))) same
              (Extends-snoc c.probers p);
        prober = p;
        found = ground (arith, get_elem?-snoc c.probers p (length c.probers));
        pings = pings;
      }
