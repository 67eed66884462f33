-- ===== src/Resolver.antt =====
-- The resolver's two queues (daemon/src/resolver.h, daemon/src/resolver.cpp): what the event loop
-- does to them, and what the worker thread does while it holds the mutex. Each function is one
-- critical section.
pub mod Interleaving
use plasma_network_health.Prelude.{
  ℕ, Bool, true, false, ◌||◌, List, [], ◌∷◌, ◌++◌, Option, none, some, Bytes, ◌==◌, if◌then◌else◌,
}
use plasma_network_health.Pinger.Endpoint.{Endpoint, no_endpoint}
use plasma_network_health.Pinger.Lookup.{LookupResult, found, lookup_error}

pub record Request : Type 0 where
  pub uid : ℕ
  pub host : Bytes

pub record Resolution : Type 0 where
  pub uid : ℕ
  pub host : Bytes
  pub ok : Bool
  pub endpoint : Endpoint
  pub error : Bytes

-- The two queues, and the request that the worker thread holds between its two critical sections.
pub record Resolver : Type 0 where
  pub pending : List Request
  pub held : Option Request
  pub completed : List Resolution
  pub stop : Bool

abbrev pub new_resolver : Resolver
new_resolver = record { pending = []; held = none; completed = []; stop = false }

unfoldable pub is_pending : ℕ → List Request → Bool
is_pending uid [] = false
is_pending uid (r ∷ rs) = r.uid == uid || is_pending uid rs

-- Duplicate requests for the same target collapse while the first waits.
unfoldable pub request : ℕ → Bytes → Resolver → Resolver
unfolding is_pending
request uid host r =
    if is_pending uid r.pending
    then r
    else record r { pending = r.pending ++ record { uid = uid; host = host } ∷ [] }

-- The completed lookups, and the resolver without them.
unfoldable pub collect : Resolver → List Resolution × Resolver
collect r = (r.completed, record r { completed = [] })

take_front : List Request → Resolver → Option (Request × Resolver)
take_front [] r = none
take_front (q ∷ rest) r = some (q, record r { pending = rest })

-- The worker's first critical section: nothing while it has to wait, or once it has to stop.
unfoldable pub take_request : Resolver → Option (Request × Resolver)
unfolding take_front
take_request r = if r.stop then none else take_front r.pending r

unfoldable pub resolution_of : Request → LookupResult → Resolution
resolution_of q (found e) = record {
  uid = q.uid;
  host = q.host;
  ok = true;
  endpoint = e;
  error = [];
}
resolution_of q (lookup_error why) = record {
  uid = q.uid;
  host = q.host;
  ok = false;
  endpoint = no_endpoint;
  error = why;
}

-- The worker's second critical section, with what resolve_host_name found.
unfoldable pub complete : Request → LookupResult → Resolver → Resolver
unfolding resolution_of
complete q result r = record r { completed = r.completed ++ resolution_of q result ∷ [] }

-- What the worker thread does next: it takes a request, or finishes the one that it holds.
pub data WorkerStep : Type 0 where
  takes : WorkerStep
  finishes : LookupResult → WorkerStep

abbrev pub taken : Resolver → Option (Request × Resolver) → Resolver
taken r none = r
taken r (some (q, s)) = record s { held = some q }

abbrev pub with_held : Option Request → WorkerStep → Resolver → Resolver
with_held none takes r = taken r (take_request r)
with_held none (finishes result) r = r
with_held (some q) takes r = r
with_held (some q) (finishes result) r = complete q result (record r { held = none })

-- It takes a request only while it holds none, and finishes one only while it holds it.
unfoldable pub worker_step : WorkerStep → Resolver → Resolver
unfolding take_request complete
worker_step step r = with_held r.held step r

unfoldable pub worker_steps : List WorkerStep → Resolver → Resolver
unfolding worker_step
worker_steps [] r = r
worker_steps (s ∷ rest) r = worker_steps rest (worker_step s r)

unfoldable pub shut_down : Resolver → Resolver
shut_down r = record r { stop = true }
