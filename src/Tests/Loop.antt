-- ===== src/Tests/Loop.antt =====
-- Tests of the event loop: a start with one file, a reload of it, and a signal that ends the daemon.
use plasma_network_health.Prelude.{
  ◌≡◌, refl, true, false, List, [], ◌∷◌, none, arith, codes, bytes_eq, In, head, later,
}
use plasma_network_health.Util.Decimal.{read, digits, to_string}
use plasma_network_health.Util.Text.{trim_front, trim_back, trimmed, has_suffix}
use plasma_network_health.Json.Reader.{
  loop, skip_whitespace, strip, literal, parse_string, string_round, parse_escape, parse_unicode,
  parse_hex4, hex_digits, hex_value, append_utf8, simple_escape,
}
use plasma_network_health.Json.Value.{
  push_item, set_member, find_member, get, is_object, to_int, is_array, items, to_text, is_null,
  to_bool,
}
use plasma_network_health.Json.Parse.{
  parse, parse_value, parse_value_inner, parse_array, array_round, parse_object, object_round,
  parse_number, number_token,
}
use plasma_network_health.Pinger.Lookup.{lookup_error}
use plasma_network_health.Resolver.{takes, finishes}
use plasma_network_health.Pinger.Socket.{opened, receive_error}
use plasma_network_health.Monitor.State.{MonitorOptions, Monitor}
use plasma_network_health.Monitor.Rebuild.Numbering.{total_destinations}
use plasma_network_health.Monitor.Schedule.{FileWrite, state_ini}
use plasma_network_health.Config.Load.{
  clamp, to_int32, load_client_file, load_destination, load_entry, load_destinations, client_of,
}
use plasma_network_health.Config.Reload.{
  clients_dir_path, is_client_name, load_entries, load_directory, bytes_lt, insert_client,
  sort_clients,
}
use plasma_network_health.Loop.{signals, socket, resolved, ready, Answers, exited, run_rounds}
use plasma_network_health.Loop.Sound.{IsSound}
use plasma_network_health.Loop.Reloading.{read_destinations}
use plasma_network_health.Loop.Rounds.{read_total, monitor_of}
use plasma_network_health.Loop.Start.{StartAnswers, run_daemon}
use plasma_network_health.Loop.Life.{run_daemon-IsSound}
use plasma_network_health.Loop.Stopping.{run_rounds_stops}
use plasma_network_health.Tests.Data.{monitor, env}
use plasma_network_health.Tests.Json.{numerals, read_numeral, before_point, read_ℤ}
use plasma_network_health.Tests.Rebuild.{names}
use plasma_network_health.Tests.Config.{directory}

abbrev options : MonitorOptions
options = monitor.options

abbrev start_answers : StartAnswers
start_answers = record {
  has_directories = true;
  device = 76;
  datagram4 = opened;
  raw4 = opened;
  datagram6 = opened;
  raw6 = opened;
  epoll_error = none;
  mask_fails = false;
  signalfd_error = none;
  inotify_error = none;
  rebuild_now = 1000;
  directory = directory;
  publish_now = 2000;
}

-- A round with a SIGHUP, in which a lookup that has failed is reported.
abbrev hangup : Answers
hangup = record {
  epoll = ready (resolved ∷ signals (1 ∷ []) ∷ socket ∷ []);
  after = 100000;
  calls4 = receive_error;
  calls6 = receive_error;
  rebuild_now = 100001;
  directory = directory;
  tick_now = 100002;
  stat = λ path. none;
  publish_now = 100003;
  before_events = takes ∷ finishes (lookup_error (codes "no such host")) ∷ [];
  before_reload = [];
  before_tick = takes ∷ [];
}

one_destination : read_destinations numerals options directory ≡ 1
unfolding read_destinations total_destinations load_directory sort_clients clients_dir_path
    is_client_name load_entries load_client_file client_of load_destinations load_entry
    load_destination clamp to_int32 insert_client bytes_lt trimmed trim_front trim_back has_suffix
    parse parse_value parse_value_inner parse_array array_round parse_object object_round
    parse_number number_token loop skip_whitespace strip literal parse_string string_round
    parse_escape parse_unicode parse_hex4 hex_digits hex_value append_utf8 simple_escape push_item
    set_member find_member get is_object to_int is_array items to_text is_null to_bool bytes_eq
    read_numeral before_point read_ℤ read to_string digits
one_destination = refl

run_daemon-IsSound_example :
    IsSound
      (monitor_of (run_daemon numerals names env options start_answers 3000 9000 (hangup ∷ [])))
run_daemon-IsSound_example =
    run_daemon-IsSound numerals names env options start_answers 3000 9000 (hangup ∷ [])
      (unfold read_total in omega (arith, one_destination))

-- A round with a SIGTERM after a SIGHUP.
abbrev termination : Answers
termination = record hangup { epoll = ready (socket ∷ signals (1 ∷ 15 ∷ []) ∷ []) }

run_rounds_stops_example :
    (n : Monitor) × (written : List FileWrite) × (run_rounds numerals names env 9000
        (termination ∷ hangup ∷ [])
        monitor
      ≡ exited 0 n written)
    × In (state_ini n.generation) written
run_rounds_stops_example =
    run_rounds_stops numerals names env 9000 termination (hangup ∷ []) monitor
      (socket ∷ signals (1 ∷ 15 ∷ []) ∷ []) (1 ∷ 15 ∷ []) 15 refl refl (later head) (later head)
      (omega arith)
