-- ===== src/Loop/Handlers.antt =====
-- The remaining handlers keep the table of probers and who uses them.
use plasma_network_health.Prelude.{
  ℤ, ℕ, ◌≡◌, refl, inl, inr, Bool, true, false, ◌||◌, List, [], ◌∷◌, map-set_same, Option, arith,
  Bytes, ◌==◌, is_empty, Option-cases, get_elem?, if-cases,
}
use plasma_network_health.Resolver.{Resolution, WorkerStep, collect}
use plasma_network_health.Monitor.State.{Prober, Monitor, Env}
use plasma_network_health.Monitor.Replies.{find_uid}
use plasma_network_health.Monitor.Resolutions.{
  resolve_ok, resolve_failed, resolve_prober, handle_resolution, handle_each_resolution,
  handle_resolutions,
}
use plasma_network_health.Monitor.Schedule.{FileWrite, must_publish, publish}
use plasma_network_health.Config.Watch.{
  InotifyReads, got_events, interrupted, nothing, any_concerns, handle_inotify,
  drop_expired_clients,
}
use plasma_network_health.Loop.{
  Event, signals, inotify, resolved, socket, other_event, sighup, handle_signals, handle_event,
  handle_events, check_idle, worker_runs,
}
use plasma_network_health.Loop.Table.{identity, SameTable, SameTable-self, SameTable-trans}

resolve_prober-identity :
    (now : ℕ) (result : Resolution) (p : Prober)
    → identity (resolve_prober now result p).0 ≡ identity p
unfolding resolve_prober resolve_ok resolve_failed
resolve_prober-identity now result p = ground arith

handle_resolution-SameTable :
    (now : ℕ) (result : Resolution) (m : Monitor) → SameTable m (handle_resolution now result m)
unfolding handle_resolution
handle_resolution-SameTable now result m =
    elim (Option-cases (find_uid result.uid m.prober_by_uid)) [
      | inl missing ↦ rw missing (SameTable-self m)
      | inr (i, found) ↦ elim (Option-cases (get_elem? m.probers i)) [
        | inl absent ↦ rw found (rw absent (SameTable-self m))
        | inr (p, present) ↦
            let r = resolve_prober now result p in
            rw found (
              rw present (record {
                options = refl;
                probers =
                    map-set_same identity m.probers i r.0 present
                      (resolve_prober-identity now result p);
                by_uid = refl;
                next_uid = refl;
                clients = refl;
              }))
      ]
    ]

handle_each_resolution-SameTable :
    (now : ℕ) (results : List Resolution) (m : Monitor)
    → SameTable m (handle_each_resolution now results m)
unfolding handle_each_resolution
handle_each_resolution-SameTable now [] m = SameTable-self m
handle_each_resolution-SameTable now (r ∷ rs) m =
    let n = handle_resolution now r m in
    SameTable-trans m n (handle_each_resolution now rs n) (handle_resolution-SameTable now r m)
      (handle_each_resolution-SameTable now rs n)

with_resolver : Monitor → Monitor
with_resolver m = record m { resolver = (collect m.resolver).1 }

pub handle_resolutions-SameTable : (now : ℕ) (m : Monitor) → SameTable m (handle_resolutions now m)
unfolding handle_resolutions with_resolver
handle_resolutions-SameTable now m =
    let all = handle_each_resolution-SameTable now (collect m.resolver).0 (with_resolver m) in
    record {
      options = all.options;
      probers = all.probers;
      by_uid = all.by_uid;
      next_uid = all.next_uid;
      clients = all.clients;
    }

pub worker_runs-SameTable :
    (steps : List WorkerStep) (m : Monitor) → SameTable m (worker_runs steps m)
unfolding worker_runs
worker_runs-SameTable steps m = record {
  options = refl;
  probers = refl;
  by_uid = refl;
  next_uid = refl;
  clients = refl;
}

pub handle_signals-SameTable : (list : List ℕ) (m : Monitor) → SameTable m (handle_signals list m)
unfolding handle_signals
handle_signals-SameTable [] m = SameTable-self m
handle_signals-SameTable (s ∷ rest) m =
    if-cases (λ (n : Monitor). SameTable m (handle_signals rest n)) (s == sighup) _ _
      (λ h.
        let all = handle_signals-SameTable rest (record m { config_dirty = true }) in
        record {
          options = all.options;
          probers = all.probers;
          by_uid = all.by_uid;
          next_uid = all.next_uid;
          clients = all.clients;
        })
      (λ h.
        let all = handle_signals-SameTable rest (record m { running = false }) in
        record {
          options = all.options;
          probers = all.probers;
          by_uid = all.by_uid;
          next_uid = all.next_uid;
          clients = all.clients;
        })

pub handle_inotify-SameTable :
    (reads : InotifyReads) (m : Monitor) → SameTable m (handle_inotify reads m)
unfolding handle_inotify
handle_inotify-SameTable nothing m = SameTable-self m
handle_inotify-SameTable (interrupted more) m = handle_inotify-SameTable more m
handle_inotify-SameTable (got_events es more) m =
    let all =
      handle_inotify-SameTable more
        (record m { config_dirty = m.config_dirty || any_concerns es }) in
    record {
      options = all.options;
      probers = all.probers;
      by_uid = all.by_uid;
      next_uid = all.next_uid;
      clients = all.clients;
    }

pub handle_event-SameTable :
    (after : ℕ) (e : Event) (m : Monitor) (readable : Bool)
    → SameTable m (handle_event after e (m, readable)).0
unfolding handle_event
handle_event-SameTable after (signals list) m readable = handle_signals-SameTable list m
handle_event-SameTable after (inotify reads) m readable = handle_inotify-SameTable reads m
handle_event-SameTable after resolved m readable = handle_resolutions-SameTable after m
handle_event-SameTable after socket m readable = SameTable-self m
handle_event-SameTable after other_event m readable = SameTable-self m

pub handle_events-SameTable :
    (after : ℕ) (es : List Event) (m : Monitor) (readable : Bool)
    → SameTable m (handle_events after es (m, readable)).0
unfolding handle_events
handle_events-SameTable after [] m readable = SameTable-self m
handle_events-SameTable after (e ∷ es) m readable =
    let (n, more) = handle_event after e (m, readable) in
    SameTable-trans m n (handle_events after es (n, more)).0
      (handle_event-SameTable after e m readable) (handle_events-SameTable after es n more)

pub drop_expired_clients-SameTable :
    (env : Env) (stat : Bytes → Option (ℤ × ℕ)) (now : ℕ) (m : Monitor)
    → SameTable m (drop_expired_clients env stat now m).0
unfolding drop_expired_clients
drop_expired_clients-SameTable env stat now m =
    if-cases (λ (r : Monitor × List Bytes). SameTable m r.0) _ _ _ (λ h. SameTable-self m)
      (λ h. record {
        options = refl;
        probers = refl;
        by_uid = refl;
        next_uid = refl;
        clients = refl;
      })

pub check_idle-SameTable : (after : ℕ) (m : Monitor) → SameTable m (check_idle after m)
unfolding check_idle
check_idle-SameTable after m =
    if-cases (SameTable m) (is_empty m.probers) _ _
      (λ h. record {
        options = refl;
        probers = refl;
        by_uid = refl;
        next_uid = refl;
        clients = refl;
      })
      (λ h. record {
        options = refl;
        probers = refl;
        by_uid = refl;
        next_uid = refl;
        clients = refl;
      })

pub publish-SameTable : (now : ℕ) (force : Bool) (m : Monitor) → SameTable m (publish now force m).0
unfolding publish
publish-SameTable now force m =
    if-cases (λ (r : Monitor × List FileWrite). SameTable m r.0) (must_publish now force m) _ _
      (λ h. record {
        options = refl;
        probers = refl;
        by_uid = refl;
        next_uid = refl;
        clients = refl;
      })
      (λ h. SameTable-self m)
