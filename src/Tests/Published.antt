-- ===== src/Tests/Published.antt =====
-- Tests of the published state, of the files it is written to, and of the command line.
use plasma_network_health.Prelude.{
  ℕ, ◌*◌, ◌/◌, ◌%◌, ◌==◌, ◌≡◌, if◌then◌else◌, some, none, refl, true, false, List, [], ◌∷◌, arith,
  codes, pos, bytes_eq,
}
use plasma_network_health.Util.Files.{
  took, write_interrupted, write_failed, write_loop, write_file_atomically,
  write_file_atomically-replaced,
}
use plasma_network_health.Util.Decimal.{read, digits, to_string}
use plasma_network_health.Json.Double.{reads_whole}
use plasma_network_health.Util.Base64.{base64_decode}
use plasma_network_health.Json.Value.{Json, set_key, set_member, members}
use plasma_network_health.Json.Parse.{parse, value}
use plasma_network_health.Json.Printed.{reread}
use plasma_network_health.Json.Plain.{
  is_ascii, is_absent, is_plain, are_plain, are_plain_members, is_plain-Fits,
}
use plasma_network_health.Health.{health_state_name, reported_state}
use plasma_network_health.Health.Overall.{
  shown, count_destinations, count_shown, overall, overall_of,
}
use plasma_network_health.Options.{log_debug, proceed, default_settings, parse_options}
use plasma_network_health.Options.Reading.{
  Given, background, idle_seconds, timeout_seconds, publish_milliseconds, destinations, file, level,
  arguments, all_mean, parse_options-arguments,
}
use plasma_network_health.Published.{
  with_fields, socket_json, shown_fields, verbose_fields, destination_json, destination_items,
  counts_json, client_json, clients_json, build_state_json, payload,
}
use plasma_network_health.Published.Payload.{parse-base64_decode-payload}
use plasma_network_health.Tests.Data.{monitor}
use plasma_network_health.Tests.Json.{
  numerals, numerals-Documented, Numeral, whole, half, read_numeral, read_ℤ, before_point,
}

-- Rounded down to a half.
abbrev percent : ℕ → ℕ → Numeral
percent a b = if 200 * a / b % 2 == 0 then whole (pos (100 * a / b)) else half (100 * a / b)

abbrev document : Json Numeral
document = build_state_json numerals percent 42 7 1000 false monitor

document-is_plain : is_plain numerals document 64 ≡ true
unfolding build_state_json with_fields socket_json shown_fields verbose_fields destination_json
    destination_items counts_json client_json clients_json set_key set_member members bytes_eq
    reads_whole read_numeral read_ℤ before_point read to_string digits is_plain are_plain
    are_plain_members is_ascii is_absent health_state_name reported_state shown count_destinations
    count_shown overall overall_of
document-is_plain = refl

parse-base64_decode-payload_example :
    parse numerals (base64_decode (payload numerals percent 42 7 1000 monitor))
    ≡ value (reread numerals document)
parse-base64_decode-payload_example =
    parse-base64_decode-payload numerals numerals-Documented percent 42 7 1000 monitor
      (is_plain-Fits numerals document 64 document-is_plain)

-- The client timeout is given before the idle exit, and the latter twice.
abbrev given : List Given
given =
    timeout_seconds 60
    ∷ idle_seconds 20
    ∷ level log_debug
    ∷ background true
    ∷ idle_seconds 30
    ∷ publish_milliseconds 500
    ∷ file (codes "/tmp/nh.log")
    ∷ destinations 64
    ∷ []

parse_options-arguments_example :
    parse_options (codes "/run") (arguments given)
    ≡ proceed (all_mean given (default_settings (codes "/run")))
parse_options-arguments_example = parse_options-arguments (codes "/run") given (
  omega arith,
  (omega arith, (tt, (tt, (omega arith, (omega arith, (tt, ((omega arith, omega arith), tt))))))),
)

-- The first write takes four bytes, the second is interrupted, and the third takes the rest.
write_file_atomically-replaced_example :
    (write_file_atomically true
      (took 4 (write_interrupted (took 3 write_failed)))
      true
      true
      (codes "[State]")).replaced
    ≡ (if (write_file_atomically true
          (took 4 (write_interrupted (took 3 write_failed)))
          true
          true
          (codes "[State]")).ok
        then some (codes "[State]")
        else none)
write_file_atomically-replaced_example =
    write_file_atomically-replaced true (took 4 (write_interrupted (took 3 write_failed))) true true
      (codes "[State]")

written_whole :
    (write_file_atomically true
      (took 4 (write_interrupted (took 3 write_failed)))
      true
      true
      (codes "[State]")).ok
    ≡ true
unfolding write_file_atomically write_loop
written_whole = refl
