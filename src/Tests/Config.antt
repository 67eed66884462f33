-- ===== src/Tests/Config.antt =====
-- Tests of the configuration: one file that is read again, and a client whose file grew old.
use plasma_network_health.Prelude.{
  ℤ, ℕ, ◌≡◌, pos, ◌↔◌, sym, refl, false, not, ◌||◌, [], ◌∷◌, Option, some, arith, Bytes, codes,
  get_elem?, is_empty, bytes_eq, In,
}
use plasma_network_health.Util.Decimal.{read, digits, to_string}
use plasma_network_health.Util.Text.{trim_front, trim_back, trimmed, has_suffix}
use plasma_network_health.Json.Reader.{
  loop, skip_whitespace, strip, literal, parse_string, string_round, parse_escape, parse_unicode,
  parse_hex4, hex_digits, hex_value, append_utf8, simple_escape,
}
use plasma_network_health.Json.Value.{
  push_item, set_member, find_member, get, is_object, to_int, is_array, items, to_text, is_null,
  to_bool,
}
use plasma_network_health.Json.Parse.{
  parse, parse_value, parse_value_inner, parse_array, array_round, parse_object, object_round,
  parse_number, number_token,
}
use plasma_network_health.Health.{Destination}
use plasma_network_health.Monitor.State.{Client, Monitor}
use plasma_network_health.Monitor.Schedule.{client_check_interval_us}
use plasma_network_health.Monitor.Rebuild.{
  key_of, find_key, emplace, index_previous, fresh_prober, obtain, push_prober, subscribe, ensure,
  add_destination, add_destinations, add_clients, assign, window, finish_prober, finish_probers,
  index_probers, shortest_interval, start_build, rebuild_probers,
}
use plasma_network_health.Monitor.Rebuild.Key.{prober_key}
use plasma_network_health.Config.Load.{
  clamp, to_int32, load_client_file, load_destination, load_entry, load_destinations, client_of,
}
use plasma_network_health.Config.Bounds.{LoadedIf, load_client_file-IsLoaded}
use plasma_network_health.Config.Reload.{
  Directory, listing, clients_dir_path, is_client_name, load_entries, load_directory, bytes_lt,
  insert_client, sort_clients, find_client, find_destination, carry_destination, carry_client,
  reloaded_clients, reload_clients,
}
use plasma_network_health.Config.Carry.{Carried, reload_clients-Carried}
use plasma_network_health.Config.Watch.{mtime_us, stale_paths, drop_expired_clients}
use plasma_network_health.Config.Expiry.{StaleClient, SinceEpoch, drop_expired_clients-Stale}
use plasma_network_health.Tests.Data.{gateway, widget, monitor, env}
use plasma_network_health.Tests.Json.{numerals, read_numeral, before_point, read_ℤ}
use plasma_network_health.Tests.Rebuild.{names}

abbrev widget_text : Bytes
widget_text =
    codes
      "{\"interval_ms\": 5, \"destinations\": [{\"id\": \"a\", \"address\": \" 192.168.1.1 \"}, 7]}"

load_client_file-IsLoaded_example :
    LoadedIf 128
      (load_client_file numerals 128 (codes "/run/w.json") (codes "w") (some widget_text))
load_client_file-IsLoaded_example =
    load_client_file-IsLoaded numerals 128 (codes "/run/w.json") (codes "w") (some widget_text)

abbrev pub directory : Directory
directory = listing ((codes ".hidden.json", some []) ∷ (codes "w.json", some widget_text) ∷ [])

abbrev reloaded_gateway : Destination
reloaded_gateway = record gateway { name = codes "192.168.1.1"; sensitivity = 3 }

abbrev reloaded_widget : Client
reloaded_widget = record widget {
  path = codes "/run/nh/clients/w.json";
  destinations = reloaded_gateway ∷ [];
}

reloaded_client :
    get_elem? (reload_clients numerals names 1500000 directory monitor).clients 0
    ≡ some reloaded_widget
unfolding reload_clients reloaded_clients load_directory sort_clients carry_client clients_dir_path
    is_client_name load_entries load_client_file client_of load_destinations load_entry
    load_destination clamp to_int32 insert_client find_client find_destination carry_destination
    bytes_lt trimmed trim_front trim_back has_suffix parse parse_value parse_value_inner parse_array
    array_round parse_object object_round parse_number number_token loop skip_whitespace strip
    literal parse_string string_round parse_escape parse_unicode parse_hex4 hex_digits hex_value
    append_utf8 simple_escape push_item set_member find_member get is_object to_int is_array items
    to_text is_null to_bool bytes_eq read_numeral before_point read_ℤ read key_of find_key emplace
    index_previous fresh_prober obtain push_prober subscribe ensure add_destination add_destinations
    add_clients assign window finish_prober finish_probers index_probers shortest_interval
    start_build rebuild_probers prober_key to_string digits
reloaded_client = refl

reload_clients-Carried_example :
    Carried numerals directory monitor
      (reload_clients numerals names 1500000 directory monitor)
      0
      0
      reloaded_widget
      reloaded_gateway
reload_clients-Carried_example =
    reload_clients-Carried numerals names 1500000 directory monitor (omega arith) 0 0
      reloaded_widget reloaded_gateway reloaded_client refl

abbrev old_file : Bytes → Option (ℤ × ℕ)
old_file path = some (pos 5, 1000)

-- The wall clock reads 2000 seconds at the first reading.
abbrev late_monitor : Monitor
late_monitor = record monitor { real_reads = 2000000000 }

unlinked : (drop_expired_clients env old_file 60000000 late_monitor).1 ≡ codes "/run/w.json" ∷ []
unfolding drop_expired_clients stale_paths mtime_us client_check_interval_us
unlinked = refl

old_file-SinceEpoch : SinceEpoch old_file
old_file-SinceEpoch path z nanoseconds h =
    let s : pos 5 ≡ z = cc in let n : 1000 ≡ nanoseconds = cc in (5, sym s, rw⁻¹ n (omega arith))

drop_expired_clients-Stale_example :
    ((path : Bytes)
      → In path (drop_expired_clients env old_file 60000000 late_monitor).1
        ↔ StaleClient old_file 2000000000 900000000 (widget ∷ []) path)
    × ((drop_expired_clients env old_file 60000000 late_monitor).0.config_dirty
        ≡ (false || not (is_empty (drop_expired_clients env old_file 60000000 late_monitor).1)))
    × ((drop_expired_clients env old_file 60000000 late_monitor).0.clients ≡ widget ∷ [])
drop_expired_clients-Stale_example =
    drop_expired_clients-Stale env old_file 60000000 late_monitor
      (record {
        has_timeout = omega arith;
        waited = unfold client_check_interval_us in omega arith;
      })
      old_file-SinceEpoch
