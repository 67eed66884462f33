-- ===== src/Health.antt =====
-- Destinations and their health: `HealthState`, `Destination`, `healthStateName`, `reportedState`,
-- `Monitor::classify` and the part of `Monitor::applySample` that concerns one destination
-- (daemon/src/monitor.h, daemon/src/monitor.cpp).
pub mod Sensitivity
pub mod Verdict
pub mod Overall
use plasma_network_health.Prelude.{
  ℕ, ◌+◌, Bool, true, false, ◌&&◌, not, Option, Bytes, codes, ℤ, ltb, leb, if◌then◌else◌, add64,
}

pub data HealthState : Type 0 where
  unknown good warn bad offline : HealthState

-- `operator==` on the enumeration.
abbrev pub state_eq : HealthState → HealthState → Bool
state_eq unknown unknown = true
state_eq good good = true
state_eq warn warn = true
state_eq bad bad = true
state_eq offline offline = true
state_eq _ _ = false

unfoldable pub health_state_name : HealthState → Bytes
health_state_name good = codes "good"
health_state_name warn = codes "warn"
health_state_name bad = codes "bad"
health_state_name offline = codes "offline"
health_state_name unknown = codes "unknown"

unfoldable pub reported_state : HealthState → Bool → HealthState
reported_state state part_time = if part_time && state_eq state bad then offline else state

-- `prober` is `none` where the source has -1. `sensitivity` and `candidate_streak` are ints that
-- are never negative.
pub record Destination : Type 0 where
  pub id : Bytes
  pub name : Bytes
  pub address : Bytes
  pub order : ℤ
  pub threshold_us : ℕ
  pub sensitivity : ℕ
  pub enabled : Bool
  pub part_time : Bool
  pub prober : Option ℕ
  pub state : HealthState
  pub candidate : HealthState
  pub candidate_streak : ℕ
  pub have_rtt : Bool
  pub rtt_us : ℕ
  pub sent : ℕ
  pub received : ℕ
  pub last_reply_real_us : ℕ
  pub last_change_real_us : ℕ

unfoldable pub classify : Bool → ℕ → ℕ → HealthState
classify received rtt_us threshold_us =
    if not received then bad else if leb rtt_us threshold_us then good else warn

-- The counters and the round-trip time.
unfoldable pub count_sample : Bool → ℕ → ℕ → Destination → Destination
count_sample received rtt_us real_now d =
    let counted = record d { sent = add64 d.sent 1 } in
    if received
    then record counted {
      received = add64 d.received 1;
      have_rtt = true;
      rtt_us = rtt_us;
      last_reply_real_us = real_now;
    }
    else record counted { have_rtt = false }

-- A disagreeing sample counts while it agrees with the ones before it.
unfoldable pub argue : HealthState → Destination → Destination
argue sample d =
    if state_eq sample d.candidate
    then record d { candidate_streak = d.candidate_streak + 1 }
    else record d { candidate = sample; candidate_streak = 1 }

unfoldable pub settle : HealthState → Destination → Destination
settle sample d =
    if ltb d.sensitivity d.candidate_streak
    then record d { state = sample; candidate_streak = 0 }
    else d

-- What one sample does to the state, the candidate and its streak.
unfoldable pub judge : HealthState → Destination → Destination
unfolding argue settle
judge sample d =
    if state_eq d.state unknown
    then record d { state = sample; candidate = sample; candidate_streak = 0 }
    else if state_eq sample d.state
    then record d { candidate = sample; candidate_streak = 0 }
    else settle sample (argue sample d)

-- The body of the loop over the subscribers.
unfoldable pub sample_destination : Bool → ℕ → ℕ → Destination → Destination
unfolding count_sample judge classify
sample_destination received rtt_us real_now d =
    let judged =
      judge (classify received rtt_us d.threshold_us) (count_sample received rtt_us real_now d) in
    if state_eq judged.state d.state
    then judged
    else record judged { last_change_real_us = real_now }
