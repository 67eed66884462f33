-- ===== src/Tests/Schedule.antt =====
-- Tests of the timetable.
use plasma_network_health.Prelude.{
  ℕ, ◌+◌, ◌≤◌, ◌≡◌, ◌≢◌, refl, sym, true, false, [], ◌∷◌, arith, some, All, false, add64,
}
use plasma_network_health.Monitor.State.{Monitor}
use plasma_network_health.Monitor.Schedule.{
  publish, state_ini, state_json, next_deadline, timeout_ms, publish_interval_us,
  client_check_interval_us,
}
use plasma_network_health.Monitor.Schedule.Publishing.{publish_change, publish_throttled}
use plasma_network_health.Monitor.Schedule.Waiting.{Covers, next_deadline-Covers}
use plasma_network_health.Tests.Data.{monitor, prober}

abbrev changed : Monitor
changed = record monitor { state_dirty = true }

waits_for_the_next_probe : timeout_ms (next_deadline monitor) 1100700 ≡ some 100
unfolding timeout_ms next_deadline publish_interval_us client_check_interval_us
waits_for_the_next_probe = refl

publish_change_example :
    let (after, writes) = publish 1100000 false changed in
    (writes ≡ state_ini 4 ∷ state_json 4 ∷ [])
    × (after.generation ≡ 4)
    × (publish 1100001 false after ≡ (after, []))
publish_change_example = publish_change 1100000 1100001 changed refl

publish_writes : (t : ℕ) → (publish t true monitor).1 ≢ []
unfolding publish
publish_writes t e = ground arith

later_writes : (publish 1500000 false (record monitor { last_publish_us = 1200000 })).1 ≢ []
unfolding publish publish_interval_us
later_writes e = cc e

publish_last : (publish 1200000 true monitor).0.last_publish_us ≡ 1200000
unfolding publish
publish_last = refl

publish_throttled_example :
    (◌≡◌ true true) × (1200000 + 250000 ≤ 1500000) × (1200000 + 100000 ≤ 1500000)
publish_throttled_example =
    publish_throttled 1200000 1500000 true monitor (record monitor { last_publish_us = 1200000 })
      (publish_writes 1200000) (sym publish_last) refl (omega arith) (omega arith) later_writes

next_deadline-Covers_example :
    All (Covers (next_deadline monitor)) (prober ∷ [])
    × (◌≡◌ true true → next_deadline monitor ≤ add64 1000000 (publish_interval_us monitor))
    × (◌≢◌ {A = ℕ} 900000000 0
        → ◌≡◌ false false
        → next_deadline monitor ≤ add64 0 (client_check_interval_us monitor))
    × (◌≢◌ {A = ℕ} 0 0 → ◌≢◌ {A = ℕ} 0 0 → next_deadline monitor ≤ add64 0 0)
next_deadline-Covers_example = next_deadline-Covers monitor (omega arith)
