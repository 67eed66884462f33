-- ===== src/Loop/Stopping.antt =====
-- A signal that is not SIGHUP ends the event loop.
use plasma_network_health.Prelude.{
  ℕ, ◌≡◌, ◌≢◌, refl, ap, ◌∙◌, inl, inr, Bool, true, false, ◌||◌, List, [], ◌∷◌, arith, ◌==◌,
  if◌then◌else◌, if-cases, Option-cases, get_elem?, In, head, later,
}
use plasma_network_health.Json.Double.{Doubles}
use plasma_network_health.Pinger.Lookup.{Names}
use plasma_network_health.Resolver.{Resolution, collect}
use plasma_network_health.Monitor.State.{Monitor, Env}
use plasma_network_health.Monitor.Replies.{find_uid}
use plasma_network_health.Monitor.Resolutions.{
  handle_resolution, handle_each_resolution, handle_resolutions,
}
use plasma_network_health.Monitor.Schedule.{FileWrite, state_ini, must_publish, publish}
use plasma_network_health.Config.Watch.{
  InotifyReads, got_events, interrupted, nothing, any_concerns, handle_inotify,
}
use plasma_network_health.Loop.{
  Event, signals, inotify, resolved, socket, other_event, sighup, ready, Answers, handle_signals,
  handle_event, handle_events, worker_runs, EpollAnswer, serve, next, left, left_with, answered,
  run_round, exited, continue_with, run_rounds,
}

handle_inotify-running :
    (reads : InotifyReads) (m : Monitor) → (handle_inotify reads m).running ≡ m.running
unfolding handle_inotify
handle_inotify-running nothing m = refl
handle_inotify-running (interrupted more) m = handle_inotify-running more m
handle_inotify-running (got_events es more) m =
    handle_inotify-running more (record m { config_dirty = m.config_dirty || any_concerns es })

handle_resolution-running :
    (now : ℕ) (result : Resolution) (m : Monitor)
    → (handle_resolution now result m).running ≡ m.running
unfolding handle_resolution
handle_resolution-running now result m = elim (Option-cases (find_uid result.uid m.prober_by_uid)) [
  | inl missing ↦ rw missing refl
  | inr (i, found) ↦ elim (Option-cases (get_elem? m.probers i)) [
    | inl absent ↦ rw found (rw absent refl)
    | inr (p, present) ↦ rw found (rw present refl)
  ]
]

handle_each_resolution-running :
    (now : ℕ) (results : List Resolution) (m : Monitor)
    → (handle_each_resolution now results m).running ≡ m.running
unfolding handle_each_resolution
handle_each_resolution-running now [] m = refl
handle_each_resolution-running now (r ∷ rs) m =
    handle_each_resolution-running now rs (handle_resolution now r m)
    ∙ handle_resolution-running now r m

handle_signals-stopped :
    (list : List ℕ) (m : Monitor) → m.running ≡ false → (handle_signals list m).running ≡ false
unfolding handle_signals
handle_signals-stopped [] m h = h
handle_signals-stopped (s ∷ rest) m h =
    if-cases (λ (n : Monitor). (handle_signals rest n).running ≡ false) (s == sighup) _ _
      (λ e. handle_signals-stopped rest (record m { config_dirty = true }) h)
      (λ e. handle_signals-stopped rest (record m { running = false }) refl)

handle_event-stopped :
    (after : ℕ) (e : Event) (m : Monitor) (readable : Bool)
    → m.running ≡ false
    → (handle_event after e (m, readable)).0.running ≡ false
unfolding handle_event handle_resolutions
handle_event-stopped after (signals list) m readable h = handle_signals-stopped list m h
handle_event-stopped after (inotify reads) m readable h = handle_inotify-running reads m ∙ h
handle_event-stopped after resolved m readable h =
    handle_each_resolution-running after (collect m.resolver).0
      (record m { resolver = (collect m.resolver).1 })
    ∙ h
handle_event-stopped after socket m readable h = h
handle_event-stopped after other_event m readable h = h

handle_events-stopped :
    (after : ℕ) (es : List Event) (m : Monitor) (readable : Bool)
    → m.running ≡ false
    → (handle_events after es (m, readable)).0.running ≡ false
unfolding handle_events
handle_events-stopped after [] m readable h = h
handle_events-stopped after (e ∷ es) m readable h =
    let (n, more) = handle_event after e (m, readable) in
    handle_events-stopped after es n more (handle_event-stopped after e m readable h)

handle_signals-stops :
    (s : ℕ) (list : List ℕ) (m : Monitor)
    → s ≢ sighup
    → In s list
    → (handle_signals list m).running ≡ false
unfolding handle_signals
handle_signals-stops s [] m other k = elim k [ ]
handle_signals-stops s (t ∷ list) m other head =
    if-cases (λ (n : Monitor). (handle_signals list n).running ≡ false) (s == sighup) _ _
      (λ e. absurd (other (ground arith)))
      (λ e. handle_signals-stopped list (record m { running = false }) refl)
handle_signals-stops s (t ∷ list) m other (later k) = handle_signals-stops s list _ other k

handle_events-stops :
    (after s : ℕ) (list : List ℕ) (es : List Event) (m : Monitor) (readable : Bool)
    → s ≢ sighup
    → In s list
    → In (signals list) es
    → (handle_events after es (m, readable)).0.running ≡ false
unfolding handle_events handle_event
handle_events-stops after s list [] m readable other k place = elim place [ ]
handle_events-stops after s list (e ∷ es) m readable other k head =
    handle_events-stopped after es (handle_signals list m) readable
      (handle_signals-stops s list m other k)
handle_events-stops after s list (e ∷ es) m readable other k (later place) =
    let (n, more) = handle_event after e (m, readable) in
    handle_events-stops after s list es n more other k place

-- If epoll_wait reports the signals of the daemon and one that is read is not SIGHUP, the loop ends
-- in that round with exit code 0, whatever else was reported before or after it, and the state is
-- written once more, with the generation that the monitor ends with.
pub run_rounds_stops :
    (ds : Doubles) (names : Names) (env : Env) (last : ℕ) (a : Answers) (more : List Answers)
    (m : Monitor) (events : List Event) (list : List ℕ) (s : ℕ)
    → m.running ≡ true
    → a.epoll ≡ ready events
    → In (signals list) events
    → In s list
    → s ≢ sighup
    → (n : Monitor) × (written : List FileWrite) × (run_rounds ds names env last (a ∷ more) m
        ≡ exited 0 n written)
      × In (state_ini n.generation) written
unfolding run_rounds run_round publish must_publish
run_rounds_stops ds names env last a more m events list s on answer place k other =
    let begun = worker_runs a.before_events m in
    let (n, readable) = handle_events a.after events (begun, false) in
    let stopped = handle_events-stops a.after s list events begun false other k place in
    let rest = run_rounds ds names env last more in
    let (served, effects) = serve ds names env a n readable in
    let goes_on : run_rounds ds names env last (a ∷ more) m
        ≡ continue_with ds names env last rest (run_round ds names env a m) =
      ap
        (λ (b : Bool).
          if b
          then continue_with ds names env last rest (run_round ds names env a m)
          else left_with ds names env last m)
        on in
    let reports : continue_with ds names env last rest (run_round ds names env a m)
        ≡ continue_with ds names env last rest (if n.running then next served effects else left n) =
      ap
        (λ (e : EpollAnswer).
          continue_with ds names env last rest (answered ds names env a e begun))
        answer in
    let leaves : continue_with ds names env last rest
          (if n.running then next served effects else left n)
        ≡ left_with ds names env last n =
      ap
        (λ (b : Bool).
          continue_with ds names env last rest (if b then next served effects else left n))
        stopped in
    ((publish last true n).0, (publish last true n).1, goes_on ∙ reports ∙ leaves, head)
