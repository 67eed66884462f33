-- ===== src/Monitor/Rebuild/Service.antt =====
-- After rebuildProbers each enabled destination has a prober, and no two probers do the same work.
use plasma_network_health.Prelude.{
  ℕ, zero, suc, ◌+◌, ◌≡◌, refl, sym, ap, subst, ◌∙◌, List, [], ◌∷◌, none, some, map, arith, Bytes,
  get_elem?, get_elem?-map, All,
}
use plasma_network_health.Health.{Destination}
use plasma_network_health.Pinger.Lookup.{Names}
use plasma_network_health.Monitor.State.{Client, Subscriber, Prober, Monitor}
use plasma_network_health.Monitor.Rebuild.{
  key_of, find_key, Build, add_destination, add_destinations, add_clients, start_build,
  finish_prober, finish_probers, rebuild_probers,
}
use plasma_network_health.Monitor.Rebuild.Entries.{index_previous-Sound}
use plasma_network_health.Monitor.Rebuild.Serving.{Served, Extends-finish}
use plasma_network_health.Monitor.Rebuild.Table.{IsTimed, IsTimedClient, Ready, keys}
use plasma_network_health.Monitor.Rebuild.Loops.{
  ServedFrom, ServedClients, ServedClients-Extends, Built, add_clients-Built,
}

start_build-Ready : (m : Monitor) → All IsTimed m.probers → Ready (start_build m)
unfolding start_build find_key
start_build-Ready m h = record {
  sound = λ key i e. cc;
  complete = λ key i e. cc;
  known = index_previous-Sound m.probers;
  timed = tt;
  previous_timed = h;
}

ServedFrom-at :
    (ps : List Prober) (client : Client) (c i : ℕ) (ds : List Destination) (j : ℕ) (d : Destination)
    → ServedFrom ps client c i ds
    → get_elem? ds j ≡ some d
    → Served ps client (record { client = c; destination = i + j }) d
ServedFrom-at ps client c i [] j d h e = cc
ServedFrom-at ps client c i (x ∷ ds) zero d h e =
    let k : x ≡ d = cc in
    let l : i ≡ i + 0 = omega arith in
    subst (λ (n : ℕ). Served ps client (record { client = c; destination = n }) d) l
      (subst (Served ps client (record { client = c; destination = i })) k h.0)
ServedFrom-at ps client c i (x ∷ ds) (suc j) d h e =
    let l : i + 1 + j ≡ i + suc j = omega arith in
    subst (λ (n : ℕ). Served ps client (record { client = c; destination = n }) d) l
      (ServedFrom-at ps client c (i + 1) ds j d h.1 e)

ServedClients-at :
    (ps : List Prober) (i : ℕ) (cs : List Client) (j : ℕ) (client : Client)
    → ServedClients ps i cs
    → get_elem? cs j ≡ some client
    → ServedFrom ps client (i + j) 0 client.destinations
ServedClients-at ps i [] j client h e = cc
ServedClients-at ps i (x ∷ cs) zero client h e =
    let k : x ≡ client = cc in
    let l : i ≡ i + 0 = omega arith in
    subst (λ (n : ℕ). ServedFrom ps client n 0 client.destinations) l
      (subst (λ (c : Client). ServedFrom ps c i 0 c.destinations) k h.0)
ServedClients-at ps i (x ∷ cs) (suc j) client h e =
    let l : i + 1 + j ≡ i + suc j = omega arith in
    subst (λ (n : ℕ). ServedFrom ps client n 0 client.destinations) l
      (ServedClients-at ps (i + 1) cs j client h.1 e)

-- Everything but the prober of each destination.
abbrev pub without_prober : Destination → Destination
without_prober d = record d { prober = none }

abbrev pub without_probers : Client → Client
without_probers c = record c { destinations = map without_prober c.destinations }

add_destinations-without_prober :
    (names : Names) (now : ℕ) (client : Client) (c i : ℕ) (ds : List Destination) (b : Build)
    → map without_prober (add_destinations names now client c i ds b).0 ≡ map without_prober ds
unfolding add_destinations add_destination
add_destinations-without_prober names now client c i [] b = refl
add_destinations-without_prober names now client c i (d ∷ ds) b =
    let s : Subscriber = record { client = c; destination = i } in
    let r = add_destination names now client s d b in
    let head : without_prober r.0 ≡ without_prober d = ground arith in
    let rest = add_destinations-without_prober names now client c (i + 1) ds r.1 in
    ap
      (λ (e : Destination).
        e ∷ map without_prober (add_destinations names now client c (i + 1) ds r.1).0)
      head
    ∙ ap (λ (es : List Destination). without_prober d ∷ es) rest

add_clients-without_probers :
    (names : Names) (now i : ℕ) (cs : List Client) (b : Build)
    → map without_probers (add_clients names now i cs b).0 ≡ map without_probers cs
unfolding add_clients
add_clients-without_probers names now i [] b = refl
add_clients-without_probers names now i (c ∷ cs) b =
    let r = add_destinations names now c i 0 c.destinations b in
    let ds = add_destinations-without_prober names now c i 0 c.destinations b in
    let rest = add_clients-without_probers names now (i + 1) cs r.1 in
    ap
      (λ (es : List Destination).
        record c { destinations = es }
        ∷ map without_probers (add_clients names now (i + 1) cs r.1).0)
      ds
    ∙ ap (λ (es : List Client). without_probers c ∷ es) rest

zero_plus : (n : ℕ) → 0 + n ≡ n
zero_plus n = omega arith

module _ (names : Names) (now : ℕ) (m : Monitor) (hc : All IsTimedClient m.clients)
    (hp : All IsTimed m.probers) where
  rebuild_probers-Built :
      Built (start_build m) 0 (add_clients names now 0 m.clients (start_build m))
  rebuild_probers-Built =
      add_clients-Built names now 0 m.clients (start_build m) hc (start_build-Ready m hp)

  rebuild_probers-Served_at :
      (c d : ℕ) (client : Client) (dest : Destination)
      → get_elem? (rebuild_probers names now m).clients c ≡ some client
      → get_elem? client.destinations d ≡ some dest
      → Served
          (rebuild_probers names now m).probers
          client
          (record { client = c; destination = d })
          dest
  unfolding rebuild_probers
  rebuild_probers-Served_at c d client dest k e =
      let (clients, b) = add_clients names now 0 m.clients (start_build m) in
      let served =
        ServedClients-Extends b.probers (finish_probers b.probers) 0 clients
          (Extends-finish b.probers) rebuild_probers-Built.served in
      let ps = finish_probers b.probers in
      let of_client : ServedFrom ps client c 0 client.destinations =
        subst (λ (n : ℕ). ServedFrom ps client n 0 client.destinations) (zero_plus c)
          (ServedClients-at ps 0 clients c client served k) in
      subst (λ (n : ℕ). Served ps client (record { client = c; destination = n }) dest)
        (zero_plus d) (ServedFrom-at ps client c 0 client.destinations d dest of_client e)

-- A client of the monitor after a rebuild is the one that stood at its place before but for the
-- probers of its destinations. Each of these is served: if it is enabled, it holds the place of a
-- prober that pings its address with the interval and the maximum wait of the client and has it
-- among its subscribers; if it is disabled, it holds no prober. Intervals and waits, of the clients
-- and of the earlier probers, fit in 64 bits.
pub rebuild_probers-Served :
    (names : Names) (now : ℕ) (m : Monitor)
    → All IsTimedClient m.clients
    → All IsTimed m.probers
    → (c d : ℕ) (client : Client) (dest : Destination)
    → get_elem? (rebuild_probers names now m).clients c ≡ some client
    → get_elem? client.destinations d ≡ some dest
    → (get_elem? (map without_probers m.clients) c ≡ some (without_probers client))
      × Served
          (rebuild_probers names now m).probers
          client
          (record { client = c; destination = d })
          dest
unfolding rebuild_probers
rebuild_probers-Served names now m hc hp c d client dest h k = (
  ap (λ (cs : List Client). get_elem? cs c)
        (sym (add_clients-without_probers names now 0 m.clients (start_build m)))
      ∙ get_elem?-map without_probers (rebuild_probers names now m).clients c h,
  rebuild_probers-Served_at names now m hc hp c d client dest h k,
)

keys-finish_probers : (ps : List Prober) → keys (finish_probers ps) ≡ keys ps
unfolding finish_probers finish_prober key_of
keys-finish_probers [] = refl
keys-finish_probers (p ∷ ps) = ap (λ (ks : List Bytes). key_of p ∷ ks) (keys-finish_probers ps)

-- After a rebuild no two probers have the same host, interval and maximum wait: destinations that
-- agree on all three share one, whichever clients they are in. Intervals and waits fit in 64 bits.
pub rebuild_probers_share :
    (names : Names) (now : ℕ) (m : Monitor)
    → All IsTimedClient m.clients
    → All IsTimed m.probers
    → (i j : ℕ) (p q : Prober) → get_elem? (rebuild_probers names now m).probers i ≡ some p
    → get_elem? (rebuild_probers names now m).probers j ≡ some q
    → p.host ≡ q.host
    → p.interval_us ≡ q.interval_us
    → p.timeout_us ≡ q.timeout_us
    → i ≡ j
unfolding rebuild_probers key_of
rebuild_probers_share names now m hc hp i j p q hi hj host interval timeout =
    let b = (add_clients names now 0 m.clients (start_build m)).1 in
    let built = rebuild_probers-Built names now m hc hp in
    let same : key_of q ≡ key_of p = rw (host, interval, timeout) refl in
    let ki : get_elem? (keys b.probers) i ≡ some (key_of p) =
      rw (sym (keys-finish_probers b.probers))
        (get_elem?-map key_of (finish_probers b.probers) i hi) in
    let kj : get_elem? (keys b.probers) j ≡ some (key_of p) =
      rw (sym (keys-finish_probers b.probers))
        (get_elem?-map key_of (finish_probers b.probers) j hj ∙ ap some same) in
    let e : some i ≡ some j =
      sym (built.ready.complete (key_of p) i ki) ∙ built.ready.complete (key_of p) j kj in
    cc

finish_probers-IsTimed : (ps : List Prober) → All IsTimed ps → All IsTimed (finish_probers ps)
unfolding finish_probers finish_prober
finish_probers-IsTimed [] h = tt
finish_probers-IsTimed (p ∷ ps) h = (h.0, finish_probers-IsTimed ps h.1)

pub rebuild_probers-IsTimed :
    (names : Names) (now : ℕ) (m : Monitor)
    → All IsTimedClient m.clients
    → All IsTimed m.probers
    → All IsTimed (rebuild_probers names now m).probers
unfolding rebuild_probers
rebuild_probers-IsTimed names now m hc hp =
    finish_probers-IsTimed (add_clients names now 0 m.clients (start_build m)).1.probers
      (rebuild_probers-Built names now m hc hp).ready.timed
