-- ===== src/Loop.antt =====
-- `Monitor::run` (daemon/src/monitor.cpp): the rounds of the event loop.
pub mod Table
pub mod Frames
pub mod Handlers
pub mod Sound
pub mod Reloading
pub mod Rounds
pub mod Start
pub mod Stopping
pub mod Life
use plasma_network_health.Prelude.{
  ℤ, ℕ, Bool, true, false, not, ◌&&◌, List, [], ◌∷◌, Option, leb, ◌==◌, if◌then◌else◌, Bytes,
  is_empty, sub64,
}
use plasma_network_health.Json.Double.{Doubles}
use plasma_network_health.Pinger.Lookup.{Names}
use plasma_network_health.Pinger.Socket.{ReceiveCalls}
use plasma_network_health.Resolver.{WorkerStep, worker_steps}
use plasma_network_health.Monitor.State.{Monitor, Env}
use plasma_network_health.Monitor.Probing.{tick}
use plasma_network_health.Monitor.Replies.{handle_replies}
use plasma_network_health.Monitor.Resolutions.{handle_resolutions}
use plasma_network_health.Monitor.Schedule.{FileWrite, publish}
use plasma_network_health.Config.Reload.{Directory, reload_clients}
use plasma_network_health.Config.Watch.{InotifyReads, handle_inotify, drop_expired_clients}

-- SIGHUP of signal(7).
abbrev pub sighup : ℕ
sighup = 1

-- A descriptor that is ready, with what its reads answer: the signals that are read before a read
-- fails, or the inotify events; the one of the resolver, one of the sockets, or another.
pub data Event : Type 0 where
  signals : List ℕ → Event
  inotify : InotifyReads → Event
  resolved : Event
  socket : Event
  other_event : Event

-- What epoll_wait answers.
pub data EpollAnswer : Type 0 where
  ready : List Event → EpollAnswer
  interrupted : EpollAnswer
  epoll_failed : EpollAnswer

-- What the system answers in one round, in the order of the questions: epoll_wait, the clock after
-- it, the two sockets, the clock in rebuildProbers and the clients' directory if there is a reload,
-- the clock before tick, stat, and the clock before publish. With them comes what the resolver's
-- worker thread has done before the events, before a reload and before tick: the loop uses the
-- resolver only there, and one pass asks for no prober twice.
pub record Answers : Type 0 where
  pub epoll : EpollAnswer
  pub after : ℕ
  pub calls4 : ReceiveCalls
  pub calls6 : ReceiveCalls
  pub rebuild_now : ℕ
  pub directory : Directory
  pub tick_now : ℕ
  pub stat : Bytes → Option (ℤ × ℕ)
  pub publish_now : ℕ
  pub before_events : List WorkerStep
  pub before_reload : List WorkerStep
  pub before_tick : List WorkerStep

unfoldable pub worker_runs : List WorkerStep → Monitor → Monitor
unfolding worker_steps
worker_runs steps m = record m { resolver = worker_steps steps m.resolver }

unfoldable pub handle_signals : List ℕ → Monitor → Monitor
handle_signals [] m = m
handle_signals (s ∷ rest) m =
    handle_signals rest
      (if s == sighup then record m { config_dirty = true } else record m { running = false })

-- The monitor, and `socketReadable`.
unfoldable pub handle_event : ℕ → Event → Monitor × Bool → Monitor × Bool
unfolding handle_signals
handle_event after (signals list) (m, readable) = (handle_signals list m, readable)
handle_event after (inotify reads) (m, readable) = (handle_inotify reads m, readable)
handle_event after resolved (m, readable) = (handle_resolutions after m, readable)
handle_event after socket (m, readable) = (m, true)
handle_event after other_event (m, readable) = (m, readable)

unfoldable pub handle_events : ℕ → List Event → Monitor × Bool → Monitor × Bool
unfolding handle_event
handle_events after [] state = state
handle_events after (e ∷ es) state = handle_events after es (handle_event after e state)

-- The idle clock and the exit when nothing has been probed for long enough.
unfoldable pub check_idle : ℕ → Monitor → Monitor
check_idle after m =
    let since = if m.idle_since_us == 0 then after else m.idle_since_us in
    let expired =
      not (m.options.idle_exit_us == 0) && leb m.options.idle_exit_us (sub64 after since) in
    if is_empty m.probers
    then record m { idle_since_us = since; running = if expired then false else m.running }
    else record m { idle_since_us = 0 }

-- The files that a round unlinks and replaces.
pub record Effects : Type 0 where
  pub unlinked : List Bytes
  pub written : List FileWrite

-- How a round ends: with the next one, with the loop left, or with the error of epoll_wait.
pub data RoundEnd : Type 0 where
  next : Monitor → Effects → RoundEnd
  left : Monitor → RoundEnd
  error_exit : Monitor → RoundEnd

-- The loop's outcome: the exit code, the monitor and the last files written, or the monitor that
-- waits for more answers.
pub data Run : Type 0 where
  exited : ℕ → Monitor → List FileWrite → Run
  waiting : Monitor → Run

module _ (ds : Doubles) (names : Names) (env : Env) where
  unfoldable pub reload_if_dirty : Answers → Monitor → Monitor
  reload_if_dirty a m =
      if m.config_dirty then reload_clients ds names a.rebuild_now a.directory m else m

  unfoldable pub replies_if_readable : Answers → Bool → Monitor → Monitor
  replies_if_readable a readable m =
      if readable then handle_replies env a.after a.calls4 a.calls6 m else m

  -- The rest of a round, after its events.
  unfoldable pub serve : Answers → Monitor → Bool → Monitor × Effects
  unfolding reload_if_dirty replies_if_readable check_idle worker_runs
  serve a m readable =
      let answered = worker_runs a.before_reload (replies_if_readable a readable m) in
      let loaded = worker_runs a.before_tick (reload_if_dirty a answered) in
      let ticked = tick env a.tick_now loaded in
      let (kept, unlinked) = drop_expired_clients env a.stat a.after ticked in
      let (last, written) = publish a.publish_now false (check_idle a.after kept) in
      (last, record { unlinked = unlinked; written = written })

  abbrev pub after_events : Answers → Monitor × Bool → RoundEnd
  after_events a (m, readable) =
      let (n, effects) = serve a m readable in if m.running then next n effects else left m

  abbrev pub answered : Answers → EpollAnswer → Monitor → RoundEnd
  answered a interrupted m = next m (record { unlinked = []; written = [] })
  answered a epoll_failed m = error_exit m
  answered a (ready events) m = after_events a (handle_events a.after events (m, false))

  unfoldable pub run_round : Answers → Monitor → RoundEnd
  unfolding serve handle_events worker_runs
  run_round a m = answered a a.epoll (worker_runs a.before_events m)

  -- `publish(nowMonotonicUs(), true)` and `return 0`.
  abbrev pub left_with : ℕ → Monitor → Run
  left_with now m = let (n, written) = publish now true m in exited 0 n written

  abbrev pub continue_with : ℕ → (Monitor → Run) → RoundEnd → Run
  continue_with now more (next m effects) = more m
  continue_with now more (left m) = left_with now m
  continue_with now more (error_exit m) = exited 1 m []

  -- The loop over the rounds that the answers are for.
  unfoldable pub run_rounds : ℕ → List Answers → Monitor → Run
  unfolding run_round
  run_rounds now [] m = if m.running then waiting m else left_with now m
  run_rounds now (a ∷ more) m =
      let rest = run_rounds now more in
      if m.running then continue_with now rest (run_round a m) else left_with now m

  -- `now` is the clock's reading before the loop, `last` the one before the last publish.
  unfoldable pub run : ℕ → ℕ → List Answers → Monitor → Run
  unfolding run_rounds
  run now last rounds m = run_rounds last rounds (record m { running = true; idle_since_us = now })
