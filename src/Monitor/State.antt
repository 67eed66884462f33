-- ===== src/Monitor/State.antt =====
-- `Client`, `Prober`, `MonitorOptions` and the members of `Monitor` (daemon/src/monitor.h), with the
-- constants of daemon/src/monitor.cpp. Times are uint64_t microseconds.
use plasma_network_health.Prelude.{ℕ, ◌*◌, ◌-◌, Bool, List, Bytes, u64_mod}
use plasma_network_health.Health.{Destination}
use plasma_network_health.Pinger.Endpoint.{Endpoint}
use plasma_network_health.Pinger.Socket.{Errno, IcmpSocket, SendtoCalls}
use plasma_network_health.Resolver.{Resolver}

abbrev pub k_send_slack_us : ℕ
k_send_slack_us = 2000

abbrev pub k_resolve_ttl_us : ℕ
k_resolve_ttl_us = 300 * 1000000

abbrev pub k_resolve_backoff_base_us : ℕ
k_resolve_backoff_base_us = 5 * 1000000

abbrev pub k_resolve_backoff_max_us : ℕ
k_resolve_backoff_max_us = 300 * 1000000

abbrev pub k_client_check_interval_us : ℕ
k_client_check_interval_us = 60 * 1000000

abbrev pub k_readable_publish_interval_us : ℕ
k_readable_publish_interval_us = 5 * 1000000

abbrev pub k_never_us : ℕ
k_never_us = u64_mod - 1

abbrev pub k_max_in_flight : ℕ
k_max_in_flight = 8

pub record Client : Type 0 where
  pub id : Bytes
  pub path : Bytes
  pub interval_us : ℕ
  pub timeout_us : ℕ
  pub destinations : List Destination
  pub error : Bytes

pub record InFlight : Type 0 where
  pub seq : ℕ
  pub sent_us : ℕ
  pub deadline_us : ℕ

pub record Subscriber : Type 0 where
  pub client : ℕ
  pub destination : ℕ

pub record Prober : Type 0 where
  pub host : Bytes
  pub interval_us : ℕ
  pub timeout_us : ℕ
  pub uid : ℕ
  pub endpoint : Endpoint
  pub numeric : Bool
  pub resolving : Bool
  pub last_error : Bytes
  pub next_resolve_us : ℕ
  pub resolve_failures : ℕ
  pub next_send_us : ℕ
  pub sequence : ℕ
  pub in_flight : List InFlight
  pub max_in_flight : ℕ
  pub sent : ℕ
  pub received : ℕ
  pub subscribers : List Subscriber

pub record MonitorOptions : Type 0 where
  pub runtime_dir : Bytes
  pub publish_interval_us : ℕ
  pub client_timeout_us : ℕ
  pub idle_exit_us : ℕ
  pub max_destinations : ℕ

-- `prober_by_uid` lists the map's entries. `real_reads` counts the readings of the wall clock.
pub record Monitor : Type 0 where
  pub options : MonitorOptions
  pub socket4 : IcmpSocket
  pub socket6 : IcmpSocket
  pub error4 : Bytes
  pub error6 : Bytes
  pub resolver : Resolver
  pub clients : List Client
  pub probers : List Prober
  pub prober_by_uid : List (ℕ × ℕ)
  pub next_uid : ℕ
  pub min_interval_us : ℕ
  pub cookie : ℕ
  pub running : Bool
  pub config_dirty : Bool
  pub data_dirty : Bool
  pub state_dirty : Bool
  pub last_publish_us : ℕ
  pub last_readable_publish_us : ℕ
  pub generation : ℕ
  pub started_real_us : ℕ
  pub last_client_check_us : ℕ
  pub idle_since_us : ℕ
  pub real_reads : ℕ

-- What the daemon asks of the system: the wall clock's n-th reading, strerror(3), and what sendto(2)
-- answers to a packet. Packets differ in their sequence and send time, so a function is no limit.
pub record Env : Type 0 where
  pub real_time : ℕ → ℕ
  pub strerror : Errno → Bytes
  pub sendto : Bytes → Endpoint → SendtoCalls
