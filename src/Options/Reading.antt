-- ===== src/Options/Reading.antt =====
-- The settings that a command line gives.
use plasma_network_health.Prelude.{
  ℕ, ◌*◌, ◌%◌, ◌<◌, ◌≤◌, ◌≡◌, refl, ap, ◌∙◌, subst, All, Bool, true, false, if◌then◌else◌, ◌&&◌,
  ◌||◌, List, [], ◌∷◌, arith, Bytes, codes, ltb, leb, ◌==◌, is_empty, bytes_eq, u64_mod,
}
use plasma_network_health.Util.Decimal.{
  read, to_string, read-to_string, IsDigits, to_string-IsDigits,
}
use plasma_network_health.Util.Text.{trim_front, isspace}
use plasma_network_health.Json.Printed.{to_string-IsNumberText}
use plasma_network_health.Options.{
  LogLevel, log_error, log_warn, log_info, log_debug, parse_log_level, Settings, Outcome, proceed,
  exits, leading_digits, strtoull, option_of, apply_value, parse_arguments, correct, corrected,
  default_settings, parse_options,
}

leading_digits-all : (s : Bytes) → IsDigits s → leading_digits s ≡ s
unfolding leading_digits
leading_digits-all [] h = refl
leading_digits-all (c ∷ cs) h =
    let digit : (leb b'0' c && leb c b'9') ≡ true = let (low, high) = h.0 in ground arith in
    rw digit (ap (λ (s : Bytes). c ∷ s) (leading_digits-all cs h.1))

strtoull-digits :
    (s : Bytes) (n : ℕ)
    → IsDigits s
    → is_empty s ≡ false
    → read 0 s ≡ n
    → n < u64_mod
    → strtoull s ≡ n
unfolding strtoull trim_front
strtoull-digits [] n h e k l = cc
strtoull-digits (c ∷ cs) n h e k l =
    let (low, high) = h.0 in
    let no_space : isspace c ≡ false = ground arith in
    let no_minus : (c == b'-') ≡ false = ground arith in
    let no_plus : (c == b'+') ≡ false = ground arith in
    rw no_space
      (rw no_minus (rw no_plus (rw (leading_digits-all (c ∷ cs) h) (rw k (ground arith)))))

pub strtoull-to_string : (n : ℕ) → n < u64_mod → strtoull (to_string n) ≡ n
strtoull-to_string n h =
    strtoull-digits (to_string n) n (to_string-IsDigits n) (to_string-IsNumberText n).0
      (read-to_string n h) h

-- An option of the usage with its value, --daemon in its long or its short form.
pub data Given : Type 0 where
  background : Bool → Given
  directory : Bytes → Given
  idle_seconds : ℕ → Given
  timeout_seconds : ℕ → Given
  publish_milliseconds : ℕ → Given
  destinations : ℕ → Given
  file : Bytes → Given
  level : LogLevel → Given

abbrev level_text : LogLevel → Bytes
level_text log_error = codes "error"
level_text log_warn = codes "warn"
level_text log_info = codes "info"
level_text log_debug = codes "debug"

-- The arguments of the command line for them.
unfoldable pub arguments : List Given → List Bytes
arguments [] = []
arguments (background short ∷ gs) = (if short then codes "-d" else codes "--daemon") ∷ arguments gs
arguments (directory dir ∷ gs) = codes "--runtime-dir" ∷ dir ∷ arguments gs
arguments (idle_seconds n ∷ gs) = codes "--idle-exit" ∷ to_string n ∷ arguments gs
arguments (timeout_seconds n ∷ gs) = codes "--client-timeout" ∷ to_string n ∷ arguments gs
arguments (publish_milliseconds n ∷ gs) = codes "--publish-interval" ∷ to_string n ∷ arguments gs
arguments (destinations n ∷ gs) = codes "--max-destinations" ∷ to_string n ∷ arguments gs
arguments (file path ∷ gs) = codes "--log-file" ∷ path ∷ arguments gs
arguments (level l ∷ gs) = codes "--log-level" ∷ level_text l ∷ arguments gs

-- What the usage says of each: it sets one thing and leaves the others.
abbrev pub means : Given → Settings → Settings
means (background short) s = record s { background = true }
means (directory dir) s = record s { options = record s.options { runtime_dir = dir } }
means (idle_seconds n) s = record s { options = record s.options { idle_exit_us = n * 1000000 } }
means (timeout_seconds n) s = record s {
  options = record s.options { client_timeout_us = n * 1000000 };
}
means (publish_milliseconds n) s = record s {
  options = record s.options { publish_interval_us = n * 1000 };
}
means (destinations n) s = record s { options = record s.options { max_destinations = n } }
means (file path) s = record s { log_file = path }
means (level l) s = record s { log_level = l }

unfoldable pub all_mean : List Given → Settings → Settings
all_mean [] s = s
all_mean (g ∷ gs) s = all_mean gs (means g s)

-- The times fit in 64 bits, the interval is at most ten seconds, and the limit is from 1 to 4096.
abbrev pub InRange : Given → Type 0
InRange (background short) = Unit
InRange (directory dir) = Unit
InRange (idle_seconds n) = n * 1000000 < u64_mod
InRange (timeout_seconds n) = n * 1000000 < u64_mod
InRange (publish_milliseconds n) = n ≤ 10000
InRange (destinations n) = (1 ≤ n) × (n ≤ 4096)
InRange (file path) = Unit
InRange (level l) = Unit

parse_arguments-daemon :
    (short : Bool) (rest : List Bytes) (s : Settings)
    → parse_arguments ((if short then codes "-d" else codes "--daemon") ∷ rest) s
      ≡ parse_arguments rest (record s { background = true })
unfolding parse_arguments option_of bytes_eq
parse_arguments-daemon true [] s = refl
parse_arguments-daemon true (v ∷ rest) s = refl
parse_arguments-daemon false [] s = refl
parse_arguments-daemon false (v ∷ rest) s = refl

parse_arguments-level :
    (l : LogLevel) (rest : List Bytes) (s : Settings)
    → parse_arguments (codes "--log-level" ∷ level_text l ∷ rest) s
      ≡ parse_arguments rest (record s { log_level = l })
unfolding parse_arguments option_of apply_value parse_log_level bytes_eq
parse_arguments-level log_error rest s = refl
parse_arguments-level log_warn rest s = refl
parse_arguments-level log_info rest s = refl
parse_arguments-level log_debug rest s = refl

-- One option is read and the others are left to read.
parse_arguments-means :
    (g : Given) (gs : List Given) (s : Settings)
    → InRange g
    → parse_arguments (arguments (g ∷ gs)) s ≡ parse_arguments (arguments gs) (means g s)
unfolding parse_arguments option_of apply_value arguments bytes_eq
parse_arguments-means (background short) gs s h = parse_arguments-daemon short (arguments gs) s
parse_arguments-means (directory dir) gs s h = refl
parse_arguments-means (idle_seconds n) gs s h =
    let fits : n * 1000000 % u64_mod ≡ n * 1000000 = omega (arith, h) in
    rw (strtoull-to_string n (omega (arith, h)), fits) refl
parse_arguments-means (timeout_seconds n) gs s h =
    let fits : n * 1000000 % u64_mod ≡ n * 1000000 = omega (arith, h) in
    rw (strtoull-to_string n (omega (arith, h)), fits) refl
parse_arguments-means (publish_milliseconds n) gs s h =
    let fits : n * 1000 % u64_mod ≡ n * 1000 = omega (arith, h) in
    rw (strtoull-to_string n (omega (arith, h)), fits) refl
parse_arguments-means (destinations n) gs s h =
    let most = h.1 in rw (strtoull-to_string n (omega (arith, most))) refl
parse_arguments-means (file path) gs s h = refl
parse_arguments-means (level l) gs s h = parse_arguments-level l (arguments gs) s

parse_arguments-arguments :
    (gs : List Given) (s : Settings)
    → All InRange gs
    → parse_arguments (arguments gs) s ≡ proceed (all_mean gs s)
unfolding all_mean
parse_arguments-arguments [] s h = unfold parse_arguments in unfold arguments in refl
parse_arguments-arguments (g ∷ gs) s h =
    parse_arguments-means g gs s h.0 ∙ parse_arguments-arguments gs (means g s) h.1

abbrev InBounds : Outcome → Type 0
InBounds (exits code) = Unit
InBounds (proceed s) =
    (1 ≤ s.options.max_destinations)
    × (s.options.max_destinations ≤ 4096)
    × (s.options.publish_interval_us ≤ 10000000)

means-InBounds :
    (g : Given) (s : Settings) → InRange g → InBounds (proceed s) → InBounds (proceed (means g s))
means-InBounds (background short) s h b = b
means-InBounds (directory dir) s h b = b
means-InBounds (idle_seconds n) s h b = b
means-InBounds (timeout_seconds n) s h b = b
means-InBounds (publish_milliseconds n) s h b = (b.0, b.1, omega (arith, h))
means-InBounds (destinations n) s h b = (h.0, h.1, b.2)
means-InBounds (file path) s h b = b
means-InBounds (level l) s h b = b

all_mean-InBounds :
    (gs : List Given) (s : Settings)
    → All InRange gs
    → InBounds (proceed s)
    → InBounds (proceed (all_mean gs s))
unfolding all_mean
all_mean-InBounds [] s h b = b
all_mean-InBounds (g ∷ gs) s h b = all_mean-InBounds gs (means g s) h.1 (means-InBounds g s h.0 b)

corrected-same : (s : Settings) → InBounds (proceed s) → corrected (proceed s) ≡ proceed s
unfolding correct
corrected-same s (low, high, often) =
    let few : (s.options.max_destinations == 0 || ltb 4096 s.options.max_destinations) ≡ false =
      ground arith in
    let seldom : ltb 10000000 s.options.publish_interval_us ≡ false = ground arith in
    rw (few, seldom) refl

-- Any options that the usage documents but --help and --version, in any order and any number of
-- times, set what it says and nothing else, the later ones over the earlier: the runtime directory,
-- the idle exit and the client timeout in seconds, the publishing interval in milliseconds, the limit
-- of destinations, the background, the file and the level of the log; what no option sets keeps its
-- default. The times fit in 64 bits, the interval is at most ten seconds, and the limit is from 1
-- to 4096.
pub parse_options-arguments :
    (home : Bytes) (gs : List Given)
    → All InRange gs
    → parse_options home (arguments gs) ≡ proceed (all_mean gs (default_settings home))
unfolding parse_options
parse_options-arguments home gs h =
    ap corrected (parse_arguments-arguments gs (default_settings home) h)
    ∙ corrected-same (all_mean gs (default_settings home)) (
        all_mean-InBounds gs (default_settings home) h
          (unfold default_settings in (omega arith, omega arith, omega arith)))

corrected-InBounds : (o : Outcome) → InBounds (corrected o)
unfolding correct
corrected-InBounds (exits code) = tt
corrected-InBounds (proceed s) = (ground arith, ground arith, ground arith)

-- Whatever the arguments are, if the daemon goes on, its limit of destinations is from 1 to 4096 and
-- its publishing interval at most ten seconds.
pub parse_options-bounds :
    (home : Bytes) (arguments : List Bytes) (s : Settings)
    → parse_options home arguments ≡ proceed s
    → (1 ≤ s.options.max_destinations)
      × (s.options.max_destinations ≤ 4096)
      × (s.options.publish_interval_us ≤ 10000000)
unfolding parse_options
parse_options-bounds home arguments s h =
    subst InBounds h (corrected-InBounds (parse_arguments arguments (default_settings home)))
