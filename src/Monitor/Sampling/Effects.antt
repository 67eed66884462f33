-- ===== src/Monitor/Sampling/Effects.antt =====
-- What a sample does to the clients: exactly the subscribed destinations are fed, once each.
use plasma_network_health.Prelude.{ℕ, ◌≢◌, Bool, List, [], ◌∷◌, Option, none, some, All}
use plasma_network_health.Health.{Destination, sample_destination}
use plasma_network_health.Monitor.State.{Subscriber, Monitor}

-- Whether a subscriber stands in the list is left to two predicates that compute.
abbrev pub Absent : Subscriber → List Subscriber → Type 0
Absent s = All (λ t. t ≢ s)

-- No destination subscribes twice.
abbrev pub Distinct : List Subscriber → Type 0
Distinct [] = Unit
Distinct (s ∷ rest) = Absent s rest × Distinct rest

module _ (received : Bool) (rtt_us real_now : ℕ) where
  pub sampled : Option Destination → Option Destination
  sampled none = none
  sampled (some d) = some (sample_destination received rtt_us real_now d)
