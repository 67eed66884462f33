-- ===== src/Tests/Probing.antt =====
-- Tests of sampling and ticking.
use plasma_network_health.Prelude.{
  ◌+◌, ◌≤◌, ◌<◌, ◌≡◌, refl, ◌⊎◌, true, false, [], ◌∷◌, arith, some, length, if◌then◌else◌, head,
}
use plasma_network_health.Monitor.Sampling.{apply_sample}
use plasma_network_health.Monitor.Probing.{
  tick_prober, send_if_due, expire, send_probe, ask_resolver,
}
use plasma_network_health.Monitor.Probing.Accounting.{due_at, tick_prober_accounts}
use plasma_network_health.Monitor.Probing.Window.{tick_prober-within, tick_prober-next_send}
use plasma_network_health.Monitor.Probing.Order.{InOrder, AllAfter}
use plasma_network_health.Monitor.Probing.Lost.{CountsLost, tick_prober_gives_up}
use plasma_network_health.Monitor.Probing.Spinning.{full_window_spins}
use plasma_network_health.Monitor.Schedule.{next_deadline, timeout_ms}
use plasma_network_health.Pinger.Socket.{send}
use plasma_network_health.Tests.Data.{env, prober, full_prober, monitor, probe}

third_is_sent :
    (tick_prober env 1200000 prober monitor).0.in_flight
    ≡ probe 1 1000000 ∷ probe 2 1100000 ∷ probe 3 1200000 ∷ []
unfolding tick_prober send_if_due expire send_probe ask_resolver send apply_sample
third_is_sent = refl

tick_prober_accounts_example :
    let q = (tick_prober env 1200000 prober monitor).0 in
    q.sent + length q.in_flight ≡ 2 + (if due_at 1200000 prober then 1 else 0)
tick_prober_accounts_example = tick_prober_accounts env 1200000 prober monitor (omega arith)

tick_prober-within_example :
    let q = (tick_prober env 1200000 prober monitor).0 in
    (length q.in_flight ≤ q.max_in_flight) × (q.max_in_flight ≡ 8)
tick_prober-within_example = tick_prober-within env 1200000 prober monitor (omega arith)

tick_prober-next_send_example :
    let q = (tick_prober env 1200000 prober monitor).0 in
    ((due_at 1200000 prober ≡ true) × (1200000 < q.next_send_us) × (q.next_send_us ≤ 1302000))
    ⊎ ((due_at 1200000 prober ≡ false) × (q.next_send_us ≡ 1200000))
tick_prober-next_send_example =
    tick_prober-next_send env 1200000 prober monitor (omega arith) (omega arith)

-- At 4001000 the first of the two probes is over, but for the slack.
tick_prober_gives_up_example :
    let q = (tick_prober env 4001000 prober monitor).0 in
    InOrder 4001000 q × AllAfter 4003000 q.in_flight × CountsLost 4003000 prober q
tick_prober_gives_up_example =
    tick_prober_gives_up env 1100000 4001000 prober monitor
      (record { ascending = omega arith; by = omega arith }) (omega arith) (omega arith)
      (omega arith) (omega arith)

full_window_spins_example :
    let m = record monitor { probers = full_prober ∷ [] } in
    (tick_prober env 1900000 full_prober m ≡ (full_prober, m))
    × (timeout_ms (next_deadline m) 1900000 ≡ some 0)
full_window_spins_example =
    full_window_spins env 1900000 full_prober (record monitor { probers = full_prober ∷ [] })
      (probe 1 1000000) _ head (record { front = refl; full = omega arith; fresh = omega arith })
      refl (omega arith) (omega arith)
