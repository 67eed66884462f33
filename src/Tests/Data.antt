-- ===== src/Tests/Data.antt =====
-- Inputs of the tests: a destination on a LAN, its client and prober, and a monitor that holds them.
use plasma_network_health.Prelude.{ℕ, ◌+◌, true, false, [], ◌∷◌, some, codes, pos}
use plasma_network_health.Health.{Destination, unknown, good}
use plasma_network_health.Health.Verdict.{Sample}
use plasma_network_health.Pinger.Endpoint.{af_inet, SockAddr, Endpoint}
use plasma_network_health.Pinger.Socket.{IcmpSocket, wrote, einval, closed}
use plasma_network_health.Resolver.{new_resolver}
use plasma_network_health.Monitor.State.{Client, InFlight, Subscriber, Prober, Monitor, Env}

abbrev pub gateway : Destination
gateway = record {
  id = codes "a";
  name = codes "Gateway";
  address = codes "192.168.1.1";
  order = pos 0;
  threshold_us = 1000;
  sensitivity = 1;
  enabled = true;
  part_time = false;
  prober = some 0;
  state = good;
  candidate = good;
  candidate_streak = 0;
  have_rtt = false;
  rtt_us = 0;
  sent = 0;
  received = 0;
  last_reply_real_us = 0;
  last_change_real_us = 0;
}

abbrev pub fresh_gateway : Destination
fresh_gateway = record gateway { state = unknown; candidate = unknown }

abbrev pub desktop : Destination
desktop = record gateway { id = codes "b"; part_time = true }

abbrev pub slow_reply : Sample
slow_reply = record { received = true; rtt_us = 2500; real_now = 7 }

abbrev pub gateway_addr : SockAddr
gateway_addr = record { ss_family = af_inet; address = 192 ∷ 168 ∷ 1 ∷ 1 ∷ [] }

abbrev pub gateway_endpoint : Endpoint
gateway_endpoint = record {
  family = af_inet;
  addr = gateway_addr;
  len = 16;
  text = codes "192.168.1.1";
}

abbrev pub widget : Client
widget = record {
  id = codes "w";
  path = codes "/run/w.json";
  interval_us = 100000;
  timeout_us = 3000000;
  destinations = gateway ∷ desktop ∷ [];
  error = [];
}

abbrev pub probe : ℕ → ℕ → InFlight
probe seq sent_us = record { seq = seq; sent_us = sent_us; deadline_us = sent_us + 3000000 }

abbrev pub first : Subscriber
first = record { client = 0; destination = 0 }

abbrev pub second : Subscriber
second = record { client = 0; destination = 1 }

-- Two probes are outstanding, and a third is due at 1200000.
abbrev pub prober : Prober
prober = record {
  host = codes "192.168.1.1";
  interval_us = 100000;
  timeout_us = 3000000;
  uid = 5;
  endpoint = gateway_endpoint;
  numeric = true;
  resolving = false;
  last_error = [];
  next_resolve_us = 0;
  resolve_failures = 0;
  next_send_us = 1200000;
  sequence = 2;
  in_flight = probe 1 1000000 ∷ probe 2 1100000 ∷ [];
  max_in_flight = 8;
  sent = 0;
  received = 0;
  subscribers = first ∷ second ∷ [];
}

-- Eight probes are outstanding, and the next one is overdue at 1900000.
abbrev pub full_prober : Prober
full_prober = record prober {
  in_flight =
      probe 1 1000000
      ∷ probe 2 1100000
      ∷ probe 3 1200000
      ∷ probe 4 1300000
      ∷ probe 5 1400000
      ∷ probe 6 1500000
      ∷ probe 7 1600000
      ∷ probe 8 1700000
      ∷ [];
  sequence = 8;
  next_send_us = 1800000;
}

abbrev pub datagram_socket : IcmpSocket
datagram_socket = record { is_open = true; family = af_inet; is_raw = false }

abbrev pub raw_socket : IcmpSocket
raw_socket = record { is_open = true; family = af_inet; is_raw = true }

abbrev pub monitor : Monitor
monitor = record {
  options = record {
    runtime_dir = codes "/run/nh";
    publish_interval_us = 250000;
    client_timeout_us = 900000000;
    idle_exit_us = 0;
    max_destinations = 128;
  };
  socket4 = datagram_socket;
  socket6 = closed;
  error4 = [];
  error6 = codes "off";
  resolver = new_resolver;
  clients = widget ∷ [];
  probers = prober ∷ [];
  prober_by_uid = (5, 0) ∷ [];
  next_uid = 6;
  min_interval_us = 100000;
  cookie = 77;
  running = true;
  config_dirty = false;
  data_dirty = true;
  state_dirty = false;
  last_publish_us = 1000000;
  last_readable_publish_us = 1000000;
  generation = 3;
  started_real_us = 0;
  last_client_check_us = 0;
  idle_since_us = 0;
  real_reads = 0;
}

-- The clock ticks once a reading, and every packet is sent.
abbrev pub env : Env
env = record {
  real_time = λ n. n;
  strerror = λ e. codes "error";
  sendto = λ packet endpoint. wrote 32 einval;
}
