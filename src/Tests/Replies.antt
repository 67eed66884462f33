-- ===== src/Tests/Replies.antt =====
-- Tests of replies and lookups.
use plasma_network_health.Prelude.{
  ℕ, map, zero, suc, bytes_eq, if◌then◌else◌, ◌+◌, ◌≤◌, ◌≡◌, ◌≢◌, refl, ◌⊎◌, true, false, [], ◌∷◌,
  arith, some, codes, length, get_elem?, head, later,
}
use plasma_network_health.Pinger.Endpoint.{Reply, no_endpoint, matches}
use plasma_network_health.Resolver.{
  Resolution, Resolver, collect, request, new_resolver, is_pending, take_request, complete,
  resolution_of, takes, finishes, worker_step, worker_steps,
}
use plasma_network_health.Pinger.Lookup.{lookup_error}
use plasma_network_health.Resolver.Interleaving.{World, answers}
use plasma_network_health.Monitor.State.{Prober}
use plasma_network_health.Monitor.Probing.{tick_prober}
use plasma_network_health.Monitor.Replies.{
  accepts, answer, handle_reply, find_uid, erase_seq, has_seq,
}
use plasma_network_health.Monitor.Sampling.{apply_sample}
use plasma_network_health.Monitor.Replies.Once.{Numbered, answer_once}
use plasma_network_health.Monitor.Replies.GivenUp.{given_up_not_answered}
use plasma_network_health.Monitor.Probing.Lost.{over, CountsLost}
use plasma_network_health.Monitor.Replies.Routing.{Indexed, handle_reply_routes}
use plasma_network_health.Monitor.Resolutions.{backoff_us, resolve_prober}
use plasma_network_health.Monitor.Resolutions.Backoff.{resolve_prober_waits}
use plasma_network_health.Tests.Data.{env, prober, monitor, probe, gateway_addr}

abbrev reply : Reply
reply = record { uid = 5; seq = 2; sent_us = 1100000; from = gateway_addr; from_len = 16 }

abbrev no_such_host : Resolution
no_such_host = record {
  uid = 5;
  host = codes "nas";
  ok = false;
  endpoint = no_endpoint;
  error = codes "Name or service not known";
}

answered_at_once :
    (handle_reply env 1100700 reply monitor).probers
    ≡ record prober { in_flight = probe 1 1000000 ∷ []; sent = 1; received = 1 } ∷ []
unfolding handle_reply answer find_uid apply_sample erase_seq has_seq matches bytes_eq
answered_at_once = refl

answer_once_example :
    let q = (answer env 1100700 reply prober monitor).0 in
    ((accepts prober reply ≡ false) × (answer env 1100700 reply prober monitor ≡ (prober, monitor)))
    ⊎ ((accepts prober reply ≡ true)
        × (q.sent + length q.in_flight ≡ 2)
        × (q.received ≡ 1)
        × (accepts q reply ≡ false)
        × Numbered 0 q.in_flight q.sequence)
answer_once_example =
    answer_once env 1100700 reply reply prober monitor (omega arith) (omega arith) (omega arith)
      refl

given_up_not_answered_example :
    let q = (tick_prober env 4100000 prober monitor).0 in
    (accepts q reply ≡ false) × CountsLost 4102000 prober q × (1 ≤ over 4102000 prober.in_flight)
given_up_not_answered_example =
    given_up_not_answered env 1200000 4100000 prober monitor (probe 2 1100000) reply
      (record { ascending = omega arith; by = omega arith }) (omega arith) (later head)
      (omega arith) (omega arith) (omega arith) (omega arith) refl

prober-place :
    (i : ℕ) (p : Prober)
    → get_elem? (prober ∷ []) i ≡ some p
    → find_uid p.uid ((5, 0) ∷ []) ≡ some i
unfolding find_uid
prober-place zero p h = ground arith
prober-place (suc i) p h = cc

prober-back :
    (uid i : ℕ)
    → find_uid uid ((5, 0) ∷ []) ≡ some i
    → (p : Prober) × (get_elem? (prober ∷ []) i ≡ some p) × (p.uid ≡ uid)
unfolding find_uid
prober-back uid i h = (prober, ground arith, ground arith)

prober-Indexed : Indexed ((5, 0) ∷ []) (prober ∷ [])
prober-Indexed = record { place = prober-place; back = prober-back }

handle_reply_routes_example :
    let n = handle_reply env 1100700 reply monitor in
    (◌≡◌ {A = ℕ} 5 5 → get_elem? n.probers 0 ≡ some (answer env 1100700 reply prober monitor).0)
    × (◌≢◌ {A = ℕ} 5 5 → get_elem? n.probers 0 ≡ some prober)
    × Indexed n.prober_by_uid n.probers
handle_reply_routes_example =
    handle_reply_routes env 1100700 reply monitor 0 prober prober-Indexed refl

resolve_prober_waits_example :
    let (q, changed) = resolve_prober 1000000 no_such_host prober in
    (q.resolving ≡ false)
    × (q.next_resolve_us ≡ 1000000 + backoff_us q.resolve_failures)
    × (6000000 ≤ q.next_resolve_us)
    × (q.next_resolve_us ≤ 301000000)
    × (q.resolve_failures ≤ 16)
    × (q.resolve_failures ≡ 1)
    × (q.endpoint ≡ prober.endpoint)
resolve_prober_waits_example =
    resolve_prober_waits 1000000 no_such_host prober (omega arith) (omega arith)

-- The loop has asked for a name, the worker has looked it up, and the loop has collected the result.
abbrev worked : Resolver
worked =
    worker_steps (takes ∷ finishes (lookup_error (codes "no such host")) ∷ [])
      (request 5 (codes "nas") new_resolver)

answered_once : map answers (collect worked).0 ≡ record { uid = 5; host = codes "nas" } ∷ []
unfolding collect worker_steps worker_step take_request complete resolution_of request is_pending
answered_once = refl

abbrev asked_once : World
asked_once = record {
  resolver = (collect worked).1;
  asked = if is_pending 5 [] then [] else record { uid = 5; host = codes "nas" } ∷ [];
  delivered = (collect worked).0;
}
