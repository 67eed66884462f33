-- ===== src/Monitor/Rebuild/Loops.antt =====
-- The loops of rebuildProbers serve every destination that they go over.
use plasma_network_health.Prelude.{
  ℕ, ◌+◌, ◌≡◌, refl, sym, subst, Bool, true, false, not, List, [], ◌∷◌, none, some, arith, if-cases,
  All,
}
use plasma_network_health.Health.{Destination}
use plasma_network_health.Pinger.Lookup.{Names}
use plasma_network_health.Monitor.State.{Client, Subscriber, Prober}
use plasma_network_health.Monitor.Rebuild.{
  find_key, Build, subscribe, ensure, add_destination, add_destinations, add_clients,
}
use plasma_network_health.Monitor.Rebuild.Key.{prober_key}
use plasma_network_health.Monitor.Rebuild.Serving.{
  ServedIf, Served, Extends, Extends-self, Extends-trans, Extends-subscribe, subscribe-HasProber,
  Served-Extends,
}
use plasma_network_health.Monitor.Rebuild.Table.{IsTimedClient, Ready, subscribe-Ready}
use plasma_network_health.Monitor.Rebuild.Ensuring.{Ensured, ensure-Ensured}

record Step (b : Build) (client : Client) (s : Subscriber) (r : Destination × Build) : Type 0 where
  ready : Ready r.1
  extends : Extends b.probers r.1.probers
  served : Served r.1.probers client s r.0

-- Destinations from a place of a client on.
abbrev pub ServedFrom : List Prober → Client → ℕ → ℕ → List Destination → Type 0
ServedFrom probers client c i [] = Unit
ServedFrom probers client c i (d ∷ ds) =
    Served probers client (record { client = c; destination = i }) d
    × ServedFrom probers client c (i + 1) ds

ServedFrom-Extends :
    (ps qs : List Prober) (client : Client) (c i : ℕ) (ds : List Destination)
    → Extends ps qs
    → ServedFrom ps client c i ds
    → ServedFrom qs client c i ds
ServedFrom-Extends ps qs client c i [] x h = tt
ServedFrom-Extends ps qs client c i (d ∷ ds) x h = (
  Served-Extends ps qs client (record { client = c; destination = i }) d x h.0,
  ServedFrom-Extends ps qs client c (i + 1) ds x h.1,
)

record Steps (b : Build) (client : Client) (c i : ℕ) (r : List Destination × Build) : Type 0 where
  ready : Ready r.1
  extends : Extends b.probers r.1.probers
  served : ServedFrom r.1.probers client c i r.0

module _ (names : Names) (now : ℕ) (client : Client) (timed : IsTimedClient client) where
  add_enabled-Step :
      (s : Subscriber) (d : Destination) (b : Build) (r : ℕ × Build)
      → d.enabled ≡ true
      → Ensured b client d.address r
      → Step b client s
          (record d { prober = some r.0 }, record r.1 { probers = subscribe r.0 s r.1.probers })
  add_enabled-Step s d b (i, c) e x = record {
    ready = subscribe-Ready i s c x.prober x.found x.ready;
    extends =
        Extends-trans b.probers c.probers (subscribe i s c.probers) x.extends
          (Extends-subscribe i s c.probers x.prober x.found);
    served =
        subst
          (λ (t : Bool).
            ServedIf t (subscribe i s c.probers) client s (record d { prober = some i }))
          (sym e) (subscribe-HasProber i s c.probers x.prober x.found client d x.pings);
  }

  add_destination-Step :
      (s : Subscriber) (d : Destination) (b : Build)
      → Ready b
      → Step b client s (add_destination names now client s d b)
  unfolding add_destination
  add_destination-Step s d b x =
      let key = prober_key d.address client.interval_us client.timeout_us in
      let r = ensure names now client d.address key (find_key key b.current_by_key) b in
      let y =
        ensure-Ensured names now client timed b d.address x (find_key key b.current_by_key) refl in
      if-cases (Step b client s) (not d.enabled) (record d { prober = none }, b)
        (record d { prober = some r.0 }, record r.1 { probers = subscribe r.0 s r.1.probers })
        (λ e. record {
          ready = x;
          extends = Extends-self b.probers;
          served =
              let off : false ≡ d.enabled = ground (arith, e) in
              subst (λ (t : Bool). ServedIf t b.probers client s (record d { prober = none })) off
                refl;
        })
        (λ e. add_enabled-Step s d b r (ground (arith, e)) y)

  add_destinations-Steps :
      (c i : ℕ) (ds : List Destination) (b : Build)
      → Ready b
      → Steps b client c i (add_destinations names now client c i ds b)
  unfolding add_destinations
  add_destinations-Steps c i [] b x = record {
    ready = x;
    extends = Extends-self b.probers;
    served = tt;
  }
  add_destinations-Steps c i (d ∷ ds) b x =
      let s : Subscriber = record { client = c; destination = i } in
      let one = add_destination-Step s d b x in
      let (e, b1) = add_destination names now client s d b in
      let rest = add_destinations-Steps c (i + 1) ds b1 one.ready in
      let (es, b2) = add_destinations names now client c (i + 1) ds b1 in
      record {
        ready = rest.ready;
        extends = Extends-trans b.probers b1.probers b2.probers one.extends rest.extends;
        served =
            (Served-Extends b1.probers b2.probers client s e rest.extends one.served, rest.served);
      }

abbrev pub ServedClients : List Prober → ℕ → List Client → Type 0
ServedClients probers i [] = Unit
ServedClients probers i (c ∷ cs) =
    ServedFrom probers c i 0 c.destinations × ServedClients probers (i + 1) cs

ServedIf-client :
    (b : Bool) (ps : List Prober) (client : Client) (ds : List Destination) (s : Subscriber)
    (d : Destination)
    → ServedIf b ps client s d
    → ServedIf b ps (record client { destinations = ds }) s d
ServedIf-client true ps client ds s d h = record {
  place = h.place;
  prober = h.prober;
  held = h.held;
  found = h.found;
  pings = record {
    host = h.pings.host;
    interval_us = h.pings.interval_us;
    timeout_us = h.pings.timeout_us;
  };
  subscribed = h.subscribed;
}
ServedIf-client false ps client ds s d h = h

ServedFrom-client :
    (ps : List Prober) (client : Client) (ds : List Destination) (c i : ℕ) (es : List Destination)
    → ServedFrom ps client c i es
    → ServedFrom ps (record client { destinations = ds }) c i es
ServedFrom-client ps client ds c i [] h = tt
ServedFrom-client ps client ds c i (e ∷ es) h = (
  ServedIf-client e.enabled ps client ds (record { client = c; destination = i }) e h.0,
  ServedFrom-client ps client ds c (i + 1) es h.1,
)

pub record Built (b : Build) (i : ℕ) (r : List Client × Build) : Type 0 where
  pub ready : Ready r.1
  pub extends : Extends b.probers r.1.probers
  pub served : ServedClients r.1.probers i r.0

pub add_clients-Built :
    (names : Names) (now i : ℕ) (cs : List Client) (b : Build)
    → All IsTimedClient cs
    → Ready b
    → Built b i (add_clients names now i cs b)
unfolding add_clients
add_clients-Built names now i [] b h x = record {
  ready = x;
  extends = Extends-self b.probers;
  served = tt;
}
add_clients-Built names now i (c ∷ cs) b h x =
    let one = add_destinations-Steps names now c h.0 i 0 c.destinations b x in
    let (ds, b1) = add_destinations names now c i 0 c.destinations b in
    let rest = add_clients-Built names now (i + 1) cs b1 h.1 one.ready in
    let (es, b2) = add_clients names now (i + 1) cs b1 in
    record {
      ready = rest.ready;
      extends = Extends-trans b.probers b1.probers b2.probers one.extends rest.extends;
      served = (
        ServedFrom-client b2.probers c ds i 0 ds
            (ServedFrom-Extends b1.probers b2.probers c i 0 ds rest.extends one.served),
        rest.served,
      );
    }

pub ServedClients-Extends :
    (ps qs : List Prober) (i : ℕ) (cs : List Client)
    → Extends ps qs
    → ServedClients ps i cs
    → ServedClients qs i cs
ServedClients-Extends ps qs i [] x h = tt
ServedClients-Extends ps qs i (c ∷ cs) x h = (
  ServedFrom-Extends ps qs c i 0 c.destinations x h.0,
  ServedClients-Extends ps qs (i + 1) cs x h.1,
)
