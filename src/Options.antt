-- ===== src/Options.antt =====
-- The command line of plasma-network-healthd (daemon/src/main.cpp), and `xdgRuntimeDir`
-- (daemon/src/util.cpp).
pub mod Reading
use plasma_network_health.Prelude.{
  ℕ, ◌+◌, ◌*◌, ◌-◌, ◌%◌, Bool, true, false, not, ◌&&◌, ◌||◌, List, [], ◌∷◌, ◌++◌, Option, none,
  some, Bytes, codes, ltb, leb, ◌==◌, if◌then◌else◌, is_empty, bytes_eq, u64_mod,
}
use plasma_network_health.Util.Decimal.{read, to_string}
use plasma_network_health.Util.Text.{trim_front}
use plasma_network_health.Monitor.State.{MonitorOptions}

pub data LogLevel : Type 0 where
  log_error : LogLevel
  log_warn : LogLevel
  log_info : LogLevel
  log_debug : LogLevel

-- The variables of `main` that the options set, with the level of the log.
pub record Settings : Type 0 where
  pub options : MonitorOptions
  pub background : Bool
  pub log_file : Bytes
  pub log_level : LogLevel

-- `main` goes on, or returns at once with an exit code.
pub data Outcome : Type 0 where
  proceed : Settings → Outcome
  exits : ℕ → Outcome

unfoldable pub leading_digits : Bytes → Bytes
leading_digits [] = []
leading_digits (c ∷ cs) =
    let rest = leading_digits cs in if leb b'0' c && leb c b'9' then c ∷ rest else []

abbrev pub magnitude : Bytes → ℕ
magnitude s = read 0 (leading_digits s)

abbrev pub saturated : ℕ → ℕ
saturated n = if ltb n u64_mod then n else u64_mod - 1

abbrev pub negated : ℕ → ℕ
negated n = if ltb n u64_mod then (u64_mod - n) % u64_mod else u64_mod - 1

abbrev pub signed : Bytes → ℕ
signed [] = 0
signed (c ∷ cs) =
    if c == b'-'
    then negated (magnitude cs)
    else if c == b'+'
    then saturated (magnitude cs)
    else saturated (magnitude (c ∷ cs))

-- strtoull(3) in base 10: white space, a sign, digits, and the largest value on overflow.
unfoldable pub strtoull : Bytes → ℕ
unfolding leading_digits
strtoull text = signed (trim_front text)

unfoldable pub parse_log_level : Bytes → Option LogLevel
parse_log_level text =
    if bytes_eq text (codes "error")
    then some log_error
    else if bytes_eq text (codes "warn") || bytes_eq text (codes "warning")
    then some log_warn
    else if bytes_eq text (codes "info")
    then some log_info
    else if bytes_eq text (codes "debug")
    then some log_debug
    else none

-- The options that take a value.
pub data Valued : Type 0 where
  runtime_dir_option : Valued
  idle_exit_option : Valued
  client_timeout_option : Valued
  publish_interval_option : Valued
  max_destinations_option : Valued
  log_file_option : Valued
  log_level_option : Valued

pub data OptionKind : Type 0 where
  information : OptionKind
  daemon_option : OptionKind
  valued : Valued → OptionKind
  unknown_option : OptionKind

-- Which branch of the loop an argument takes; --help and --version both print and return 0.
unfoldable pub option_of : Bytes → OptionKind
option_of a =
    if bytes_eq a (codes "-h") || bytes_eq a (codes "--help")
    then information
    else if bytes_eq a (codes "-v") || bytes_eq a (codes "--version")
    then information
    else if bytes_eq a (codes "-d") || bytes_eq a (codes "--daemon")
    then daemon_option
    else if bytes_eq a (codes "--runtime-dir")
    then valued runtime_dir_option
    else if bytes_eq a (codes "--idle-exit")
    then valued idle_exit_option
    else if bytes_eq a (codes "--client-timeout")
    then valued client_timeout_option
    else if bytes_eq a (codes "--publish-interval")
    then valued publish_interval_option
    else if bytes_eq a (codes "--max-destinations")
    then valued max_destinations_option
    else if bytes_eq a (codes "--log-file")
    then valued log_file_option
    else if bytes_eq a (codes "--log-level")
    then valued log_level_option
    else unknown_option

abbrev with_level : Settings → Option LogLevel → Option Settings
with_level s none = none
with_level s (some level) = some (record s { log_level = level })

-- The settings with a value, or nothing if it is refused.
unfoldable pub apply_value : Valued → Bytes → Settings → Option Settings
unfolding strtoull parse_log_level
apply_value runtime_dir_option v s =
    some (record s { options = record s.options { runtime_dir = v } })
apply_value idle_exit_option v s =
    some (record s { options = record s.options { idle_exit_us = strtoull v * 1000000 % u64_mod } })
apply_value client_timeout_option v s =
    some (record s {
      options = record s.options { client_timeout_us = strtoull v * 1000000 % u64_mod };
    })
apply_value publish_interval_option v s =
    some (record s {
      options = record s.options { publish_interval_us = strtoull v * 1000 % u64_mod };
    })
apply_value max_destinations_option v s =
    some (record s { options = record s.options { max_destinations = strtoull v } })
apply_value log_file_option v s = some (record s { log_file = v })
apply_value log_level_option v s = with_level s (parse_log_level v)

abbrev pub go_on : (Settings → Outcome) → Option Settings → Outcome
go_on next none = exits 2
go_on next (some s) = next s

-- The loop over the arguments after the program's name.
unfoldable pub parse_arguments : List Bytes → Settings → Outcome
unfolding option_of apply_value
parse_arguments [] s = proceed s
parse_arguments (a ∷ []) s = elim (option_of a) [
  | information ↦ exits 0
  | daemon_option ↦ proceed (record s { background = true })
  | valued option ↦ exits 2
  | unknown_option ↦ exits 2
]
parse_arguments (a ∷ v ∷ rest) s = elim (option_of a) [
  | information ↦ exits 0
  | daemon_option ↦ parse_arguments (v ∷ rest) (record s { background = true })
  | valued option ↦ go_on (parse_arguments rest) (apply_value option v s)
  | unknown_option ↦ exits 2
]

-- The corrections after the loop.
unfoldable pub correct : MonitorOptions → MonitorOptions
correct o = record o {
  max_destinations =
      if o.max_destinations == 0 || ltb 4096 o.max_destinations then 128 else o.max_destinations;
  publish_interval_us =
      if ltb 10000000 o.publish_interval_us then 10000000 else o.publish_interval_us;
}

abbrev pub corrected : Outcome → Outcome
corrected (proceed s) = proceed (record s { options = correct s.options })
corrected (exits code) = exits code

abbrev user_name : Option Bytes → ℕ → Bytes
user_name none uid = to_string uid
user_name (some name) uid = if is_empty name then to_string uid else name

-- `env` is $XDG_RUNTIME_DIR, `pw_name` what getpwuid knows of the user.
unfoldable pub xdg_runtime_dir : Option Bytes → Option Bytes → ℕ → Bytes
xdg_runtime_dir none pw_name uid = codes "/tmp/runtime-" ++ user_name pw_name uid
xdg_runtime_dir (some env) pw_name uid =
    if is_empty env then codes "/tmp/runtime-" ++ user_name pw_name uid else env

-- The defaults, below a runtime directory.
unfoldable pub default_settings : Bytes → Settings
default_settings dir = record {
  options = record {
    runtime_dir = dir ++ codes "/plasma-network-health";
    publish_interval_us = 250000;
    client_timeout_us = 900000000;
    idle_exit_us = 0;
    max_destinations = 128;
  };
  background = false;
  log_file = [];
  log_level = log_info;
}

unfoldable pub parse_options : Bytes → List Bytes → Outcome
unfolding parse_arguments correct default_settings
parse_options dir arguments = corrected (parse_arguments arguments (default_settings dir))
