-- ===== src/Loop/Start.antt =====
-- The constructor of Monitor, `Monitor::openSockets` and `Monitor::start`.
use plasma_network_health.Prelude.{
  ℕ, ◌+◌, ◌*◌, ◌/◌, ◌%◌, Bool, true, false, not, List, [], ◌++◌, Option, none, some, Bytes, codes,
  if◌then◌else◌, u32_mod,
}
use plasma_network_health.Json.Double.{Doubles}
use plasma_network_health.Pinger.Endpoint.{af_inet, af_inet6}
use plasma_network_health.Pinger.Lookup.{Names}
use plasma_network_health.Pinger.Socket.{SocketCall, closed, open_socket}
use plasma_network_health.Resolver.{new_resolver}
use plasma_network_health.Monitor.State.{MonitorOptions, Monitor, Env}
use plasma_network_health.Monitor.Schedule.{FileWrite, publish}
use plasma_network_health.Config.Reload.{Directory, reload_clients}
use plasma_network_health.Loop.{Answers, Run, exited, run}

-- `Monitor(options)`, with the initial values of the members.
unfoldable pub new_monitor : MonitorOptions → Monitor
new_monitor o = record {
  options = o;
  socket4 = closed;
  socket6 = closed;
  error4 = [];
  error6 = [];
  resolver = new_resolver;
  clients = [];
  probers = [];
  prober_by_uid = [];
  next_uid = 1;
  min_interval_us = 0;
  cookie = 0;
  running = false;
  config_dirty = false;
  data_dirty = true;
  state_dirty = true;
  last_publish_us = 0;
  last_readable_publish_us = 0;
  generation = 0;
  started_real_us = 0;
  last_client_check_us = 0;
  idle_since_us = 0;
  real_reads = 0;
}

-- What the system answers to `start`: whether both directories can be made, the random device, the
-- socket calls for each family, the error texts of epoll_create1, pthread_sigmask, signalfd and
-- inotify_init1 if they fail, and the rest as in a round.
pub record StartAnswers : Type 0 where
  pub has_directories : Bool
  pub device : ℕ
  pub datagram4 : SocketCall
  pub raw4 : SocketCall
  pub datagram6 : SocketCall
  pub raw6 : SocketCall
  pub epoll_error : Option Bytes
  pub mask_fails : Bool
  pub signalfd_error : Option Bytes
  pub inotify_error : Option Bytes
  pub rebuild_now : ℕ
  pub directory : Directory
  pub publish_now : ℕ

unfoldable pub open_sockets : StartAnswers → Monitor → Monitor
unfolding open_socket
open_sockets a m =
    let (socket4, error4) = open_socket af_inet a.datagram4 a.raw4 in
    let (socket6, error6) = open_socket af_inet6 a.datagram6 a.raw6 in
    record m { socket4 = socket4; error4 = error4; socket6 = socket6; error6 = error6 }

-- The first error of the calls that `start` gives up after, in the order of the calls.
unfoldable pub start_error : Option Bytes → Bool → Option Bytes → Option Bytes → Option Bytes
start_error (some why) mask_fails signalfd inotify = some (codes "epoll_create1: " ++ why)
start_error none true signalfd inotify = some (codes "pthread_sigmask failed")
start_error none false (some why) inotify = some (codes "signalfd: " ++ why)
start_error none false none (some why) = some (codes "inotify_init1: " ++ why)
start_error none false none none = none

-- `m_cookie = uint32_t(device()) | 1u`.
unfoldable pub cookie_of : ℕ → ℕ
cookie_of device = device % u32_mod / 2 * 2 + 1

module _ (ds : Doubles) (names : Names) (env : Env) where
  abbrev pub start_from :
      StartAnswers → Option Bytes → Monitor → Option Bytes × Monitor × List FileWrite
  start_from a (some error) m = (some error, m, [])
  start_from a none m =
      let (n, written) =
        publish a.publish_now true (reload_clients ds names a.rebuild_now a.directory m) in
      (none, n, written)

  -- The error if there is one, the monitor, and the files that are written.
  unfoldable pub start : StartAnswers → Monitor → Option Bytes × Monitor × List FileWrite
  unfolding open_sockets start_error cookie_of
  start a m =
      let timed = record m {
        started_real_us = env.real_time m.real_reads;
        real_reads = m.real_reads + 1;
      } in
      let opened = open_sockets a (record timed { cookie = cookie_of a.device }) in
      if not a.has_directories
      then (some (codes "cannot create runtime directory " ++ m.options.runtime_dir), timed, [])
      else start_from a (start_error a.epoll_error a.mask_fails a.signalfd_error a.inotify_error)
          opened

  abbrev pub run_started : ℕ → ℕ → List Answers → Option Bytes × Monitor × List FileWrite → Run
  run_started now last answers (some error, m, written) = exited 1 m written
  run_started now last answers (none, m, written) = run ds names env now last answers m

  -- The end of `main`: a monitor is made, started and run.
  unfoldable pub run_daemon : MonitorOptions → StartAnswers → ℕ → ℕ → List Answers → Run
  unfolding new_monitor start
  run_daemon o a now last answers = run_started now last answers (start a (new_monitor o))
