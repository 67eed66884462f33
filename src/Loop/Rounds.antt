-- ===== src/Loop/Rounds.antt =====
-- The event loop keeps the monitor in order, through any sequence of rounds.
use plasma_network_health.Prelude.{
  ℕ, ◌+◌, ◌<◌, ◌≤◌, ◌≡◌, refl, ◌∙◌, Bool, true, false, List, [], ◌∷◌, arith, if-cases, u32_mod,
}
use plasma_network_health.Json.Double.{Doubles}
use plasma_network_health.Pinger.Lookup.{Names}
use plasma_network_health.Monitor.State.{MonitorOptions, Monitor, Env}
use plasma_network_health.Monitor.Probing.{tick}
use plasma_network_health.Monitor.Schedule.{publish}
use plasma_network_health.Config.Watch.{drop_expired_clients}
use plasma_network_health.Loop.{
  EpollAnswer, ready, interrupted, epoll_failed, Answers, handle_events, check_idle, worker_runs,
  reload_if_dirty, replies_if_readable, serve, RoundEnd, next, left, error_exit, answered,
  run_round, Run, exited, waiting, left_with, continue_with, run_rounds,
}
use plasma_network_health.Loop.Table.{SameTable, SameTable-self}
use plasma_network_health.Loop.Frames.{tick-SameTable, handle_replies-SameTable}
use plasma_network_health.Loop.Handlers.{
  worker_runs-SameTable, handle_events-SameTable, drop_expired_clients-SameTable,
  check_idle-SameTable, publish-SameTable,
}
use plasma_network_health.Loop.Sound.{IsSound, IsSound-kept}
use plasma_network_health.Loop.Reloading.{
  read_destinations, reload_clients-IsSound, reload_clients-next_uid, reload_clients-options,
}

-- Sound, with an identifier at most `k` next and the options `o`.
record IsWithin (k : ℕ) (o : MonitorOptions) (m : Monitor) : Type 0 where
  sound : IsSound m
  next_uid : m.next_uid ≤ k
  options : m.options ≡ o

-- How many destinations the rounds' directories have together.
unfoldable pub read_total : Doubles → MonitorOptions → List Answers → ℕ
read_total ds o [] = 0
read_total ds o (a ∷ more) = read_destinations ds o a.directory + read_total ds o more

abbrev pub monitor_of : Run → Monitor
monitor_of (exited code m written) = m
monitor_of (waiting m) = m

IsWithin-kept :
    (k : ℕ) (o : MonitorOptions) (m n : Monitor) → SameTable m n → IsWithin k o m → IsWithin k o n
IsWithin-kept k o m n same x = record {
  sound = IsSound-kept m n same x.sound;
  next_uid = rw (same.next_uid) x.next_uid;
  options = same.options ∙ x.options;
}

IsWithin-more :
    (j k : ℕ) (o : MonitorOptions) (m : Monitor) → j ≤ k → IsWithin j o m → IsWithin k o m
IsWithin-more j k o m h x = record {
  sound = x.sound;
  next_uid = let l = x.next_uid in omega (arith, l);
  options = x.options;
}

abbrev EndsWithin : ℕ → MonitorOptions → RoundEnd → Type 0
EndsWithin k o (next m effects) = IsWithin k o m
EndsWithin k o (left m) = IsWithin k o m
EndsWithin k o (error_exit m) = IsWithin k o m

module _ (ds : Doubles) (names : Names) (env : Env) where
  reload_if_dirty-IsWithin :
      (k : ℕ) (o : MonitorOptions) (a : Answers) (m : Monitor)
      → k + read_destinations ds o a.directory < u32_mod
      → IsWithin k o m
      → IsWithin (k + read_destinations ds o a.directory) o (reload_if_dirty ds names env a m)
  unfolding reload_if_dirty
  reload_if_dirty-IsWithin k o a m room x =
      let room_m : m.next_uid + read_destinations ds m.options a.directory < u32_mod =
        (let l = x.next_uid in rw (x.options) (omega (arith, l, room))) in
      let most : m.next_uid + read_destinations ds m.options a.directory
          ≤ k + read_destinations ds o a.directory =
        (let l = x.next_uid in rw (x.options) (omega (arith, l))) in
      if-cases (IsWithin (k + read_destinations ds o a.directory) o) m.config_dirty _ _
        (λ h. record {
          sound = reload_clients-IsSound ds names a.rebuild_now a.directory m x.sound room_m;
          next_uid =
              let l = reload_clients-next_uid ds names a.rebuild_now a.directory m x.sound room_m in
              omega (arith, l, most);
          options =
              reload_clients-options ds names a.rebuild_now a.directory m x.sound room_m
              ∙ x.options;
        })
        (λ h. IsWithin-more k _ o m (omega arith) x)

  serve-IsWithin :
      (k : ℕ) (o : MonitorOptions) (a : Answers) (m : Monitor) (readable : Bool)
      → k + read_destinations ds o a.directory < u32_mod
      → IsWithin k o m
      → IsWithin (k + read_destinations ds o a.directory) o (serve ds names env a m readable).0
  unfolding serve replies_if_readable
  serve-IsWithin k o a m readable room x =
      let most = k + read_destinations ds o a.directory in
      let read = replies_if_readable ds names env a readable m in
      let read_same : SameTable m read =
        if-cases (SameTable m) readable _ _
          (λ h. handle_replies-SameTable env a.after a.calls4 a.calls6 m) (λ h. SameTable-self m) in
      let asked = worker_runs a.before_reload read in
      let reloaded = reload_if_dirty ds names env a asked in
      let loaded = worker_runs a.before_tick reloaded in
      let ticked = tick env a.tick_now loaded in
      let kept = (drop_expired_clients env a.stat a.after ticked).0 in
      let idle = check_idle a.after kept in
      IsWithin-kept most o idle (publish a.publish_now false idle).0
        (publish-SameTable a.publish_now false idle)
        (IsWithin-kept most o kept idle (check_idle-SameTable a.after kept) (
          IsWithin-kept most o ticked kept
            (drop_expired_clients-SameTable env a.stat a.after ticked)
            (IsWithin-kept most o loaded ticked (tick-SameTable env a.tick_now loaded) (
              IsWithin-kept most o reloaded loaded (worker_runs-SameTable a.before_tick reloaded) (
                reload_if_dirty-IsWithin k o a asked room (
                  IsWithin-kept k o read asked (worker_runs-SameTable a.before_reload read)
                    (IsWithin-kept k o m read read_same x)))))))

  answered-IsWithin :
      (k : ℕ) (o : MonitorOptions) (a : Answers) (e : EpollAnswer) (m : Monitor)
      → k + read_destinations ds o a.directory < u32_mod
      → IsWithin k o m
      → EndsWithin (k + read_destinations ds o a.directory) o (answered ds names env a e m)
  answered-IsWithin k o a interrupted m room x = IsWithin-more k _ o m (omega arith) x
  answered-IsWithin k o a epoll_failed m room x = IsWithin-more k _ o m (omega arith) x
  answered-IsWithin k o a (ready events) m room x =
      let (n, readable) = handle_events a.after events (m, false) in
      let y = IsWithin-kept k o m n (handle_events-SameTable a.after events m false) x in
      if-cases (EndsWithin (k + read_destinations ds o a.directory) o) n.running _ _
        (λ h. serve-IsWithin k o a n readable room y) (λ h. IsWithin-more k _ o n (omega arith) y)

  left-IsSound :
      (k : ℕ) (o : MonitorOptions) (now : ℕ) (m : Monitor)
      → IsWithin k o m
      → IsSound (monitor_of (left_with ds names env now m))
  left-IsSound k o now m x =
      IsSound-kept m (publish now true m).0 (publish-SameTable now true m) x.sound

  module _ (now : ℕ) (o : MonitorOptions) where
    after_end :
        (k : ℕ) (more : Monitor → Run) (e : RoundEnd)
        → ((m : Monitor) → IsWithin k o m → IsSound (monitor_of (more m)))
        → EndsWithin k o e
        → IsSound (monitor_of (continue_with ds names env now more e))
    after_end k more (next m effects) h x = h m x
    after_end k more (left m) h x = left-IsSound k o now m x
    after_end k more (error_exit m) h x = x.sound

    run_rounds-IsWithin :
        (k : ℕ) (answers : List Answers) (m : Monitor)
        → k + read_total ds o answers < u32_mod
        → IsWithin k o m
        → IsSound (monitor_of (run_rounds ds names env now answers m))
    unfolding run_rounds run_round read_total
    run_rounds-IsWithin k [] m room x =
        if-cases (λ (r : Run). IsSound (monitor_of r)) m.running _ _ (λ h. x.sound)
          (λ h. left-IsSound k o now m x)
    run_rounds-IsWithin k (a ∷ more) m room x =
        if-cases (λ (r : Run). IsSound (monitor_of r)) m.running _ _
          (λ on.
            after_end (k + read_destinations ds o a.directory) (run_rounds ds names env now more)
              (run_round ds names env a m)
              (λ n y.
                run_rounds-IsWithin (k + read_destinations ds o a.directory) more n
                  (omega (arith, room)) y)
              (answered-IsWithin k o a a.epoll (worker_runs a.before_events m) (omega (arith, room))
                (IsWithin-kept k o m (worker_runs a.before_events m)
                  (worker_runs-SameTable a.before_events m) x)))
          (λ off. left-IsSound k o now m x)

-- A monitor in order stays so through any number of rounds of the event loop, whatever epoll_wait,
-- the clock, the sockets, the resolver, the directory of the clients and stat answer, and also when
-- the loop has been left: the identifiers are different and lead to the places of their probers, no
-- two probers do the same work, and each enabled destination is subscribed to a prober that pings
-- its address at its client's interval. It needs as many unused identifiers as the directories that
-- are read have destinations together.
pub run_rounds-IsSound :
    (ds : Doubles) (names : Names) (env : Env) (now : ℕ) (answers : List Answers) (m : Monitor)
    → IsSound m
    → m.next_uid + read_total ds m.options answers < u32_mod
    → IsSound (monitor_of (run_rounds ds names env now answers m))
run_rounds-IsSound ds names env now answers m x room =
    run_rounds-IsWithin ds names env now m.options m.next_uid answers m room
      (record { sound = x; next_uid = omega arith; options = refl })
