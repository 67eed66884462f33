-- ===== src/Monitor/Schedule/Waiting.antt =====
-- The event loop wakes in time for whatever is due, and not before.
use plasma_network_health.Prelude.{
  ℕ, ◌+◌, ◌-◌, ◌*◌, ◌/◌, ◌≤◌, ◌<◌, ◌≡◌, ◌≢◌, min, true, false, All, is_empty, ◌||◌, List, [], ◌∷◌,
  some, arith, add64, u64_mod, In, head, later,
}
use plasma_network_health.Monitor.State.{InFlight, Prober, Monitor, k_never_us}
use plasma_network_health.Monitor.Probing.Order.{Ascending}
use plasma_network_health.Monitor.Schedule.{
  front_deadline, prober_deadline, probers_deadline, next_deadline, timeout_ms, publish_interval_us,
  client_check_interval_us,
}

-- No deadline is earlier than `from`.
abbrev pub AllFrom : ℕ → List InFlight → Type 0
AllFrom from = All (λ f. from ≤ f.deadline_us)

-- Nothing that a prober waits for is earlier than `deadline`.
pub record Covers (deadline : ℕ) (p : Prober) : Type 0 where
  pub sending : deadline ≤ p.next_send_us
  pub expiring : AllFrom deadline p.in_flight
  pub resolving : p.numeric ≡ false → p.resolving ≡ false → deadline ≤ p.next_resolve_us

front_deadline-le : (d : ℕ) (fs : List InFlight) → front_deadline d fs ≤ d
front_deadline-le d [] = omega arith
front_deadline-le d (f ∷ fs) = omega arith

prober_deadline-le : (d : ℕ) (p : Prober) → prober_deadline d p ≤ d
unfolding prober_deadline
prober_deadline-le d p = ground (arith, front_deadline-le d p.in_flight)

probers_deadline-le : (d : ℕ) (ps : List Prober) → probers_deadline d ps ≤ d
unfolding probers_deadline
probers_deadline-le d [] = omega arith
probers_deadline-le d (p ∷ ps) =
    omega (arith, probers_deadline-le (prober_deadline d p) ps, prober_deadline-le d p)

AllFrom-mono : (d e : ℕ) (fs : List InFlight) → e ≤ d → AllFrom d fs → AllFrom e fs
AllFrom-mono d e [] h k = tt
AllFrom-mono d e (f ∷ fs) h k = (omega (arith, k.0), AllFrom-mono d e fs h k.1)

Ascending-AllFrom : (low : ℕ) (fs : List InFlight) → Ascending low fs → AllFrom low fs
Ascending-AllFrom low [] a = tt
Ascending-AllFrom low (f ∷ fs) a =
    (a.0, AllFrom-mono f.deadline_us low fs a.0 (Ascending-AllFrom f.deadline_us fs a.1))

front_deadline-AllFrom :
    (d : ℕ) (fs : List InFlight) → Ascending 0 fs → AllFrom (front_deadline d fs) fs
front_deadline-AllFrom d [] a = tt
front_deadline-AllFrom d (f ∷ fs) a = (
  omega arith,
  AllFrom-mono f.deadline_us _ fs (omega arith) (Ascending-AllFrom f.deadline_us fs a.1),
)

Covers-mono : (d e : ℕ) (p : Prober) → e ≤ d → Covers d p → Covers e p
Covers-mono d e p h c = record {
  sending = omega (arith, c.sending);
  expiring = AllFrom-mono d e p.in_flight h c.expiring;
  resolving = λ a b. omega (arith, c.resolving a b);
}

prober_deadline-front : (d : ℕ) (p : Prober) → prober_deadline d p ≤ front_deadline d p.in_flight
unfolding prober_deadline
prober_deadline-front d p = ground arith

prober_deadline-Covers :
    (d : ℕ) (p : Prober) → Ascending 0 p.in_flight → Covers (prober_deadline d p) p
prober_deadline-Covers d p a = record {
  sending = unfold prober_deadline in ground arith;
  expiring =
      AllFrom-mono (front_deadline d p.in_flight) (prober_deadline d p) p.in_flight
        (prober_deadline-front d p) (front_deadline-AllFrom d p.in_flight a);
  resolving = λ x y. unfold prober_deadline in ground arith;
}

AllCovers-mono : (d e : ℕ) (ps : List Prober) → e ≤ d → All (Covers d) ps → All (Covers e) ps
AllCovers-mono d e [] h k = tt
AllCovers-mono d e (p ∷ ps) h k = (Covers-mono d e p h k.0, AllCovers-mono d e ps h k.1)

probers_deadline-Covers :
    (d : ℕ) (ps : List Prober)
    → All (λ p. Ascending 0 p.in_flight) ps
    → All (Covers (probers_deadline d ps)) ps
unfolding probers_deadline
probers_deadline-Covers d [] a = tt
probers_deadline-Covers d (p ∷ ps) a = (
  Covers-mono (prober_deadline d p) _ p (probers_deadline-le (prober_deadline d p) ps)
      (prober_deadline-Covers d p a.0),
  probers_deadline-Covers (prober_deadline d p) ps a.1,
)

next_deadline-le : (m : Monitor) → next_deadline m ≤ probers_deadline k_never_us m.probers
unfolding next_deadline
next_deadline-le m = ground arith

-- The deadline of the loop is not after any probe that is to be sent, any outstanding probe that is to
-- be given up, nor any lookup that is to be made, if each prober's outstanding probes are in the order
-- of their deadlines. Whether there are probers or not, with something to publish it is not after the
-- time at which that may be published, with clients that can expire not after the next look at their
-- files, and with an idle clock that runs not after the idle exit.
pub next_deadline-Covers :
    (m : Monitor)
    → All (λ p. Ascending 0 p.in_flight) m.probers
    → All (Covers (next_deadline m)) m.probers
      × ((m.data_dirty || m.state_dirty) ≡ true
          → next_deadline m ≤ add64 m.last_publish_us (publish_interval_us m))
      × (m.options.client_timeout_us ≢ 0
          → is_empty m.clients ≡ false
          → next_deadline m ≤ add64 m.last_client_check_us (client_check_interval_us m))
      × (m.options.idle_exit_us ≢ 0
          → m.idle_since_us ≢ 0
          → next_deadline m ≤ add64 m.idle_since_us m.options.idle_exit_us)
next_deadline-Covers m a = (
  AllCovers-mono (probers_deadline k_never_us m.probers) (next_deadline m) m.probers
      (next_deadline-le m) (probers_deadline-Covers k_never_us m.probers a),
  λ d. unfold next_deadline in ground arith,
  λ t c. unfold next_deadline in ground arith,
  λ t s. unfold next_deadline in ground arith,
)

prober_deadline-next_send : (d : ℕ) (p : Prober) → prober_deadline d p ≤ p.next_send_us
unfolding prober_deadline
prober_deadline-next_send d p = ground arith

probers_deadline-next_send :
    {p : Prober} (d : ℕ) {ps : List Prober} → In p ps → probers_deadline d ps ≤ p.next_send_us
unfolding probers_deadline
probers_deadline-next_send {p} d (head {xs = ps}) =
    omega (arith, prober_deadline-next_send d p, probers_deadline-le (prober_deadline d p) ps)
probers_deadline-next_send d (later {x = q} {xs = ps} i) =
    probers_deadline-next_send (prober_deadline d q) i

pub next_deadline-next_send :
    (m : Monitor) {p : Prober} → In p m.probers → next_deadline m ≤ p.next_send_us
next_deadline-next_send m i =
    omega (arith, next_deadline-le m, probers_deadline-next_send k_never_us i)

-- Rounding up: unless the deadline is more than an hour away, the wait ends at the deadline or less
-- than a millisecond after it, and never before; with no deadline there is no limit, and one that has
-- passed is not waited for.
pub timeout_ms_rounds_up :
    (deadline now : ℕ)
    → deadline < k_never_us
    → deadline + 999 < u64_mod
    → (t : ℕ) × (timeout_ms deadline now ≡ some t)
      × (t ≤ 3600000)
      × (1000 * t ≤ deadline - now + 999)
      × (t < 3600000 → deadline ≤ now + 1000 * t)
unfolding timeout_ms
timeout_ms_rounds_up deadline now h b = (
  min ((deadline - now + 999) / 1000) 3600000,
  ground arith,
  omega arith,
  omega arith,
  λ l. omega arith,
)
