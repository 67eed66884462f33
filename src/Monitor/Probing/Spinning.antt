-- ===== src/Monitor/Probing/Spinning.antt =====
-- A full window with a probe overdue: the tick does nothing, and the wait for the next event is zero.
use plasma_network_health.Prelude.{
  ℕ, ◌+◌, ◌≤◌, ◌<◌, ◌≡◌, ap, true, List, ◌∷◌, some, arith, u64_mod, length, In,
}
use plasma_network_health.Monitor.State.{InFlight, Prober, Monitor, Env, k_send_slack_us}
use plasma_network_health.Monitor.Probing.{expire, ask_resolver, send_if_due, tick_prober}
use plasma_network_health.Monitor.Schedule.{next_deadline, timeout_ms}
use plasma_network_health.Monitor.Schedule.Waiting.{next_deadline-next_send}

-- As many probes outstanding as the limit allows, the oldest of them still within its wait.
pub record IsFull (now : ℕ) (p : Prober) (f : InFlight) (fs : List InFlight) : Type 0 where
  pub front : p.in_flight ≡ f ∷ fs
  pub full : p.max_in_flight ≤ length p.in_flight
  pub fresh : now + k_send_slack_us < f.deadline_us

expire-fresh :
    (env : Env) (now : ℕ) (p : Prober) (m : Monitor) (f : InFlight) (fs : List InFlight)
    → now + k_send_slack_us < u64_mod
    → now + k_send_slack_us < f.deadline_us
    → p.in_flight ≡ f ∷ fs
    → expire env now (f ∷ fs) p m ≡ (p, m)
unfolding expire
expire-fresh env now p m f fs b h e = ground arith

send_if_due-full :
    (env : Env) (now : ℕ) (p : Prober) (m : Monitor)
    → p.max_in_flight ≤ length p.in_flight
    → send_if_due env now p m ≡ (p, m)
unfolding send_if_due
send_if_due-full env now p m h = ground arith

ask_resolver-numeric :
    (now : ℕ) (p : Prober) (m : Monitor) → p.numeric ≡ true → ask_resolver now p m ≡ (p, m)
unfolding ask_resolver
ask_resolver-numeric now p m h = ground arith

-- A prober of a numeric address whose window is full and whose next probe is overdue: the tick
-- changes nothing, and the loop's wait for the next event is zero, so that it spins until a reply
-- comes or the oldest probe is given up.
pub full_window_spins :
    (env : Env) (now : ℕ) (p : Prober) (m : Monitor) (f : InFlight) (fs : List InFlight)
    → In p m.probers
    → IsFull now p f fs
    → p.numeric ≡ true
    → p.next_send_us ≤ now
    → now + k_send_slack_us < u64_mod
    → (tick_prober env now p m ≡ (p, m)) × (timeout_ms (next_deadline m) now ≡ some 0)
unfolding tick_prober timeout_ms
full_window_spins env now p m f fs i w n l b = (
  rw (
    ap (λ gs. expire env now gs p m) w.front,
    expire-fresh env now p m f fs b w.fresh w.front,
    ask_resolver-numeric now p m n,
    send_if_due-full env now p m w.full,
  ),
  ground (arith, next_deadline-next_send m i),
)
