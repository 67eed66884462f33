-- ===== src/Monitor/Schedule.antt =====
-- The timetable of the event loop (daemon/src/monitor.cpp): `publishIntervalUs`, `publish`,
-- `clientCheckIntervalUs`, `nextDeadline`, and the timeout that `run` hands to epoll_wait.
pub mod Publishing
pub mod Waiting
use plasma_network_health.Prelude.{
  ℕ, ◌+◌, ◌-◌, ◌/◌, min, max, Bool, true, false, not, ◌&&◌, ◌||◌, List, [], ◌∷◌, ◌++◌, Option, none,
  some, ltb, leb, ◌==◌, if◌then◌else◌, add64, sub64, is_empty,
}
use plasma_network_health.Monitor.State.{
  InFlight, Prober, Client, Monitor, k_never_us, k_client_check_interval_us,
  k_readable_publish_interval_us,
}

unfoldable pub publish_interval_us : Monitor → ℕ
publish_interval_us m = max m.options.publish_interval_us m.min_interval_us

-- The early returns of `publish`: whether it goes on to write.
unfoldable pub must_publish : ℕ → Bool → Monitor → Bool
unfolding publish_interval_us
must_publish now force m =
    if not force && not m.state_dirty
    then (if not m.data_dirty
        then false
        else not (ltb (sub64 now m.last_publish_us) (publish_interval_us m)))
    else true

unfoldable pub must_write_readable : ℕ → Monitor → Bool
must_write_readable now m =
    m.state_dirty
    || m.last_readable_publish_us == 0
    || leb k_readable_publish_interval_us (sub64 now m.last_readable_publish_us)

-- The two files that are replaced, in order; `generation` is the one written into them.
pub data FileWrite : Type 0 where
  state_ini : ℕ → FileWrite
  state_json : ℕ → FileWrite

unfoldable pub publish : ℕ → Bool → Monitor → Monitor × List FileWrite
unfolding must_publish must_write_readable
publish now force m =
    let generation = add64 m.generation 1 in
    let readable = must_write_readable now m in
    if must_publish now force m
    then (
      record m {
        generation = generation;
        last_readable_publish_us = if readable then now else m.last_readable_publish_us;
        last_publish_us = now;
        data_dirty = false;
        state_dirty = false;
      },
      state_ini generation ∷ (if readable then state_json generation ∷ [] else []),
    )
    else (m, [])

unfoldable pub client_check_interval_us : Monitor → ℕ
client_check_interval_us m =
    if m.options.client_timeout_us == 0
    then k_client_check_interval_us
    else min k_client_check_interval_us (max (m.options.client_timeout_us / 2) 1000000)

abbrev pub front_deadline : ℕ → List InFlight → ℕ
front_deadline deadline [] = deadline
front_deadline deadline (f ∷ fs) = min deadline f.deadline_us

unfoldable pub prober_deadline : ℕ → Prober → ℕ
prober_deadline deadline p =
    let sending = min (front_deadline deadline p.in_flight) p.next_send_us in
    if not p.numeric && not p.resolving then min sending p.next_resolve_us else sending

unfoldable pub probers_deadline : ℕ → List Prober → ℕ
probers_deadline deadline [] = deadline
probers_deadline deadline (p ∷ ps) = probers_deadline (prober_deadline deadline p) ps

unfoldable pub next_deadline : Monitor → ℕ
unfolding probers_deadline prober_deadline
next_deadline m =
    let probing = probers_deadline k_never_us m.probers in
    let publishing =
      if m.data_dirty || m.state_dirty
      then min probing (add64 m.last_publish_us (publish_interval_us m))
      else probing in
    let checking =
      if not (m.options.client_timeout_us == 0) && not (is_empty m.clients)
      then min publishing (add64 m.last_client_check_us (client_check_interval_us m))
      else publishing in
    if not (m.options.idle_exit_us == 0) && not (m.idle_since_us == 0)
    then min checking (add64 m.idle_since_us m.options.idle_exit_us)
    else checking

-- The timeout of epoll_wait in milliseconds, `none` where the source has -1.
unfoldable pub timeout_ms : ℕ → ℕ → Option ℕ
timeout_ms deadline now =
    if deadline == k_never_us
    then none
    else if leb deadline now
    then some 0
    else some (min (add64 (deadline - now) 999 / 1000) 3600000)
