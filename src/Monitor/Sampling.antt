-- ===== src/Monitor/Sampling.antt =====
-- `Monitor::applySample`: one result of a probe, for every subscriber of its prober.
pub mod Effects
use plasma_network_health.Prelude.{
  ℕ, ◌+◌, Bool, true, false, not, ◌||◌, List, [], ◌∷◌, Option, none, some, if◌then◌else◌, get_elem?,
  set, add64,
}
use plasma_network_health.Health.{Destination, state_eq, sample_destination}
use plasma_network_health.Monitor.State.{Client, Subscriber, Prober, Monitor, Env}

abbrev pub destination_of : Option Client → ℕ → Option Destination
destination_of none i = none
destination_of (some c) i = get_elem? c.destinations i

-- The two bounds checks and the two lookups.
unfoldable pub destination_at : List Client → Subscriber → Option Destination
destination_at clients s = destination_of (get_elem? clients s.client) s.destination

abbrev put_in : Option Client → List Client → Subscriber → Destination → List Client
put_in none clients s d = clients
put_in (some c) clients s d =
    set clients s.client (record c { destinations = set c.destinations s.destination d })

unfoldable pub put_destination : List Client → Subscriber → Destination → List Client
put_destination clients s d = put_in (get_elem? clients s.client) clients s d

sample_found : Bool → ℕ → ℕ → List Client → Subscriber → Option Destination → List Client × Bool
sample_found received rtt_us real_now clients s none = (clients, false)
sample_found received rtt_us real_now clients s (some d) =
    let e = sample_destination received rtt_us real_now d in
    (put_destination clients s e, not (state_eq e.state d.state))

-- The clients after one subscriber, and whether its state has changed.
unfoldable pub sample_subscriber : Bool → ℕ → ℕ → List Client → Subscriber → List Client × Bool
unfolding sample_found
sample_subscriber received rtt_us real_now clients s =
    sample_found received rtt_us real_now clients s (destination_at clients s)

unfoldable pub sample_subscribers :
    Bool → ℕ → ℕ → List Client → List Subscriber → List Client × Bool
sample_subscribers received rtt_us real_now clients [] = (clients, false)
sample_subscribers received rtt_us real_now clients (s ∷ rest) =
    let (after, changed) = sample_subscriber received rtt_us real_now clients s in
    let (last, more) = sample_subscribers received rtt_us real_now after rest in
    (last, changed || more)

unfoldable pub apply_sample : Env → Prober → Bool → ℕ → Monitor → Prober × Monitor
apply_sample env p received rtt_us m =
    let (clients, changed) =
      sample_subscribers received rtt_us (env.real_time m.real_reads) m.clients p.subscribers in
    (
      record p {
        sent = add64 p.sent 1;
        received = if received then add64 p.received 1 else p.received;
      },
      record m {
        clients = clients;
        state_dirty = m.state_dirty || changed;
        data_dirty = true;
        real_reads = m.real_reads + 1;
      },
    )
