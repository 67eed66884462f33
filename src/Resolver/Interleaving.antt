-- ===== src/Resolver/Interleaving.antt =====
-- The event loop and the worker thread as steps in any order; each step is what one of them does while
-- it holds the mutex.
use plasma_network_health.Prelude.{
  ℕ, ◌≡◌, refl, false, List, [], ◌∷◌, ◌++◌, map, append_assoc, append-nil, Option, none, some,
  Bytes, if◌then◌else◌,
}
use mathlib.Core.List.{map-append}
use plasma_network_health.Pinger.Lookup.{LookupResult, found, lookup_error}
use plasma_network_health.Resolver.{
  Request, Resolution, Resolver, new_resolver, is_pending, request, collect, resolution_of,
  shut_down, WorkerStep, worker_step,
}

-- The resolver, and what has gone in and come out so far.
pub record World : Type 0 where
  pub resolver : Resolver
  pub asked : List Request
  pub delivered : List Resolution

abbrev pub start : World
start = record { resolver = new_resolver; asked = []; delivered = [] }

pub data Step (w : World) : World → Type 0 where
  ask :
      (uid : ℕ) (host : Bytes)
      → Step w (record w {
        resolver = request uid host w.resolver;
        asked =
            if is_pending uid w.resolver.pending
            then w.asked
            else w.asked ++ record { uid = uid; host = host } ∷ [];
      })
  work : (step : WorkerStep) → Step w (record w { resolver = worker_step step w.resolver })
  drain : Step w (record w {
    resolver = (collect w.resolver).1;
    delivered = w.delivered ++ (collect w.resolver).0;
  })
  halt : Step w (record w { resolver = shut_down w.resolver })

pub data Reach : World → Type 0 where
  here : Reach start
  next : {w v : World} → Reach w → Step w v → Reach v

-- The request that a result answers.
abbrev pub answers : Resolution → Request
answers r = record { uid = r.uid; host = r.host }

abbrev pub held_list : Option Request → List Request
held_list none = []
held_list (some q) = q ∷ []

-- No identifier waits twice.
abbrev pub Single : List Request → Type 0
Single [] = Unit
Single (q ∷ qs) = (is_pending q.uid qs ≡ false) × Single qs

-- Every accepted request is in exactly one place, and the places follow one another in the order of
-- the requests: delivered, completed, held by the worker, waiting.
pub record IsOrderly (w : World) : Type 0 where
  pub order :
      map answers w.delivered
        ++ (map answers w.resolver.completed ++ (held_list w.resolver.held ++ w.resolver.pending))
      ≡ w.asked
  pub single : Single w.resolver.pending

answers-resolution_of : (q : Request) (result : LookupResult) → answers (resolution_of q result) ≡ q
unfolding resolution_of
answers-resolution_of q (found e) = refl
answers-resolution_of q (lookup_error why) = refl

ruleset regroup = (append_assoc, append-nil, map-append, answers-resolution_of)

-- The requests that the resolver still has, the oldest first.
abbrev line : Resolver → List Request
line r = map answers r.completed ++ (held_list r.held ++ r.pending)
