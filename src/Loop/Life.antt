-- ===== src/Loop/Life.antt =====
-- The monitor is in order from the start of the daemon on.
use plasma_network_health.Prelude.{
  ℕ, ◌+◌, ◌<◌, ◌≤◌, ◌≡◌, refl, ◌∙◌, true, not, List, [], Option, none, some, arith, Bytes, if-cases,
  u32_mod,
}
use plasma_network_health.Json.Double.{Doubles}
use plasma_network_health.Pinger.Lookup.{Names}
use plasma_network_health.Monitor.State.{MonitorOptions, Monitor, Env}
use plasma_network_health.Monitor.Replies.{find_uid}
use plasma_network_health.Monitor.Schedule.{FileWrite, publish}
use plasma_network_health.Config.Reload.{reload_clients}
use plasma_network_health.Loop.{Answers, run}
use plasma_network_health.Loop.Handlers.{publish-SameTable}
use plasma_network_health.Loop.Sound.{IsSound, IsSound-kept}
use plasma_network_health.Loop.Reloading.{
  read_destinations, reload_clients-IsSound, reload_clients-next_uid, reload_clients-options,
}
use plasma_network_health.Loop.Rounds.{read_total, monitor_of, run_rounds-IsSound}
use plasma_network_health.Loop.Start.{
  new_monitor, StartAnswers, open_sockets, start_error, start_from, start, run_started, run_daemon,
}

-- A monitor that has no clients and no probers yet.
abbrev IsBlank : MonitorOptions → Monitor → Type 0
IsBlank o m =
    (m.options ≡ o)
    × (m.clients ≡ [])
    × (m.probers ≡ [])
    × (m.prober_by_uid ≡ [])
    × (m.next_uid ≡ 1)

blank-IsSound : (o : MonitorOptions) (m : Monitor) → IsBlank o m → IsSound m
unfolding find_uid
blank-IsSound o m (options, clients, probers, by_uid, next_uid) = record {
  indexed = record { place = λ i p h. cc; back = λ uid i h. cc };
  different = λ i j a h k. cc;
  below = rw probers tt;
  timed = rw probers tt;
  shared = λ i j p q hi hj. cc;
  served = λ c d client dest h k. cc;
}

module _ (ds : Doubles) (names : Names) (env : Env) (o : MonitorOptions) (a : StartAnswers)
    (now last : ℕ) (answers : List Answers)
    (room : 1 + (read_destinations ds o a.directory + read_total ds o answers) < u32_mod) where
  run_started-IsSound :
      (e : Option Bytes) (m : Monitor)
      → IsBlank o m
      → IsSound
          (monitor_of (run_started ds names env now last answers (start_from ds names env a e m)))
  unfolding run
  run_started-IsSound (some error) m blank = blank-IsSound o m blank
  run_started-IsSound none m blank =
      let (options, clients, probers, by_uid, next_uid) = blank in
      let sound = blank-IsSound o m blank in
      let loaded = reload_clients ds names a.rebuild_now a.directory m in
      let room_m : m.next_uid + read_destinations ds m.options a.directory < u32_mod =
        rw (next_uid, options) (omega (arith, room)) in
      let most = reload_clients-next_uid ds names a.rebuild_now a.directory m sound room_m in
      let most_ids : m.next_uid + read_destinations ds m.options a.directory
          ≤ 1 + read_destinations ds o a.directory =
        rw (next_uid, options) (omega arith) in
      let same_options =
        reload_clients-options ds names a.rebuild_now a.directory m sound room_m ∙ options in
      let published = (publish a.publish_now true loaded).0 in
      let same = publish-SameTable a.publish_now true loaded in
      let ready =
        IsSound-kept loaded published same
          (reload_clients-IsSound ds names a.rebuild_now a.directory m sound room_m) in
      let begun : Monitor = record published { running = true; idle_since_us = now } in
      run_rounds-IsSound ds names env last answers begun
        (IsSound-kept published begun
          (record {
            options = refl;
            probers = refl;
            by_uid = refl;
            next_uid = refl;
            clients = refl;
          })
          ready)
        (rw (same.options ∙ same_options) (omega (arith, room, most, most_ids, same.next_uid)))

  -- From the start of the daemon to its end, or to any moment at which the loop waits, the monitor is
  -- in order: the identifiers are different and lead to the places of their probers, no two probers
  -- do the same work, and each enabled destination is subscribed to a prober that pings its address
  -- at its client's interval, whatever the system answers and however the resolver's worker thread runs
  -- beside it. The directories that are read have fewer than 2^32 - 1 destinations
  -- together.
  pub run_daemon-IsSound : IsSound (monitor_of (run_daemon ds names env o a now last answers))
  unfolding run_daemon start new_monitor open_sockets
  run_daemon-IsSound =
      if-cases
        (λ (r : Option Bytes × Monitor × List FileWrite).
          IsSound (monitor_of (run_started ds names env now last answers r)))
        (not a.has_directories) _ _ (λ h. blank-IsSound o _ (refl, refl, refl, refl, refl))
        (λ h.
          run_started-IsSound
            (start_error a.epoll_error a.mask_fails a.signalfd_error a.inotify_error) _
            (refl, refl, refl, refl, refl))
