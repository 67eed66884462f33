-- ===== src/Monitor/Probing/Frame.antt =====
-- What the steps of a tick leave alone, and the outstanding probes that they leave behind.
use plasma_network_health.Prelude.{
  ℕ, ◌≡◌, refl, false, List, [], ◌∷◌, ◌++◌, Option, arith, Bytes, codes, not, ◌||◌, ◌⊎◌, inl, inr,
  Bool-cases, leb, if◌then◌else◌, add64, inc32,
}
use plasma_network_health.Pinger.Endpoint.{valid, SendResult, sent, unreachable, failed}
use plasma_network_health.Monitor.State.{InFlight, Prober, Monitor, Env, k_send_slack_us}
use plasma_network_health.Monitor.Sampling.{apply_sample}
use plasma_network_health.Monitor.Probing.{socket_for, expire, ask_resolver, after_send, send_probe}

-- The fields of a prober that no step of a tick writes.
pub record Same (p q : Prober) : Type 0 where
  pub host : q.host ≡ p.host
  pub interval_us : q.interval_us ≡ p.interval_us
  pub timeout_us : q.timeout_us ≡ p.timeout_us
  pub uid : q.uid ≡ p.uid
  pub endpoint : q.endpoint ≡ p.endpoint
  pub numeric : q.numeric ≡ p.numeric
  pub next_resolve_us : q.next_resolve_us ≡ p.next_resolve_us
  pub max_in_flight : q.max_in_flight ≡ p.max_in_flight
  pub subscribers : q.subscribers ≡ p.subscribers

-- The outstanding probes whose wait is not over.
unfoldable pub waiting : ℕ → List InFlight → List InFlight
waiting now [] = []
waiting now (f ∷ rest) =
    if leb f.deadline_us (add64 now k_send_slack_us) then waiting now rest else f ∷ rest

-- What an expiry keeps besides.
pub record Expired (p q : Prober) : Type 0 where
  pub same : Same p q
  pub next_send_us : q.next_send_us ≡ p.next_send_us
  pub sequence : q.sequence ≡ p.sequence
  pub resolving : q.resolving ≡ p.resolving

Expired-trans : (p q r : Prober) → Expired p q → Expired q r → Expired p r
Expired-trans p q r h k = ground (arith, h, k)

apply_sample-Expired :
    (env : Env) (p : Prober) (why : Bytes) (fs : List InFlight) (m : Monitor)
    → Expired p (apply_sample env (record p { in_flight = fs; last_error = why }) false 0 m).0
unfolding apply_sample
apply_sample-Expired env p why fs m = ground arith

pub expire-Expired :
    (env : Env) (now : ℕ) (fs : List InFlight) (p : Prober) (m : Monitor)
    → Expired p (expire env now fs p m).0
unfolding expire
expire-Expired env now [] p m = ground arith
expire-Expired env now (f ∷ rest) p m =
    let lost =
      apply_sample env (record p { in_flight = rest; last_error = codes "timeout" }) false 0 m in
    ground (
      arith,
      Expired-trans p lost.0 (expire env now rest lost.0 lost.1).0,
      apply_sample-Expired env p (codes "timeout") rest m,
      expire-Expired env now rest lost.0 lost.1,
    )

pub expire-in_flight :
    (env : Env) (now : ℕ) (fs : List InFlight) (p : Prober) (m : Monitor)
    → (expire env now fs p m).0.in_flight ≡ waiting now fs
unfolding expire waiting
expire-in_flight env now [] p m = refl
expire-in_flight env now (f ∷ rest) p m =
    let lost =
      apply_sample env (record p { in_flight = rest; last_error = codes "timeout" }) false 0 m in
    ground (arith, expire-in_flight env now rest lost.0 lost.1)

-- What one call of `sendProbe` does to its prober: the probe is outstanding, or it has been counted
-- as lost at once.
pub record Outstanding (now : ℕ) (p q : Prober) : Type 0 where
  pub in_flight :
      q.in_flight
      ≡ p.in_flight
        ++ record { seq = inc32 p.sequence; sent_us = now; deadline_us = add64 now p.timeout_us }
          ∷ []
  pub sent : q.sent ≡ p.sent
  pub sequence : q.sequence ≡ inc32 p.sequence

pub record LostAtOnce (p q : Prober) : Type 0 where
  pub in_flight : q.in_flight ≡ p.in_flight
  pub sent : q.sent ≡ add64 p.sent 1
  pub sequence : (q.sequence ≡ p.sequence) ⊎ (q.sequence ≡ inc32 p.sequence)

abbrev pub Attempt : ℕ → Prober → Prober → Type 0
Attempt now p q =
    (Outstanding now p q ⊎ LostAtOnce p q)
    × Same p q
    × (q.next_send_us ≡ p.next_send_us)
    × (q.resolving ≡ p.resolving)

after_send-Attempt :
    (env : Env) (now : ℕ) (p : Prober) (m : Monitor) (r : SendResult × Option Bytes)
    → Attempt now p (after_send env now (record p { sequence = inc32 p.sequence }) m r).0
unfolding after_send apply_sample
after_send-Attempt env now p m (sent, why) = (inl (ground arith), ground arith, refl, refl)
after_send-Attempt env now p m (unreachable, why) = (inr (ground arith), ground arith, refl, refl)
after_send-Attempt env now p m (failed, why) = (inr (ground arith), ground arith, refl, refl)

blocked-Attempt :
    (env : Env) (now : ℕ) (p : Prober) (m : Monitor) (why : Bytes)
    → Attempt now p (apply_sample env (record p { last_error = why }) false 0 m).0
unfolding apply_sample
blocked-Attempt env now p m why = (inr (ground arith), ground arith, refl, refl)

pub send_probe-Attempt :
    (env : Env) (now : ℕ) (p : Prober) (m : Monitor) → Attempt now p (send_probe env p now m).0
unfolding send_probe
send_probe-Attempt env now p m =
    let socket = socket_for p.endpoint m in
    elim (Bool-cases (not (valid p.endpoint) || not socket.is_open)) [
      | inl e ↦ rw e (blocked-Attempt env now p m _)
      | inr e ↦ rw e (after_send-Attempt env now p m _)
    ]

pub ask_resolver-Kept :
    (now : ℕ) (p : Prober) (m : Monitor)
    → Same p (ask_resolver now p m).0
      × ((ask_resolver now p m).0.in_flight ≡ p.in_flight)
      × ((ask_resolver now p m).0.next_send_us ≡ p.next_send_us)
      × ((ask_resolver now p m).0.sequence ≡ p.sequence)
      × ((ask_resolver now p m).0.sent ≡ p.sent)
unfolding ask_resolver
ask_resolver-Kept now p m = ground arith
