-- ===== src/Monitor/Schedule/Publishing.antt =====
-- When the state files are written.
use plasma_network_health.Prelude.{
  ℕ, ◌+◌, ◌≤◌, ◌<◌, ◌≡◌, ◌≢◌, ◌⊎◌, Bool, true, false, ◌||◌, [], ◌∷◌, arith, add64, u64_mod,
}
use plasma_network_health.Monitor.State.{Monitor}
use plasma_network_health.Monitor.Schedule.{publish_interval_us, publish, state_ini, state_json}

-- A health change is published at once, whatever the time and the interval; the generation goes up
-- by one, nothing is left to publish, and a second call then writes nothing.
pub publish_change :
    (now later : ℕ) (m : Monitor)
    → m.state_dirty ≡ true
    → let (after, writes) = publish now false m in
      (writes ≡ state_ini (add64 m.generation 1) ∷ state_json (add64 m.generation 1) ∷ [])
      × (after.generation ≡ add64 m.generation 1)
      × (publish later false after ≡ (after, []))
unfolding publish
publish_change now later m h = ground arith

-- Two writes that no health change calls for are an interval apart: after a write at `t`, a call at
-- a later time that is not forced and finds no health change writes only if there is new data and
-- the interval has passed, and the interval is never shorter than that of the fastest prober.
pub publish_throttled :
    (t now : ℕ) (force : Bool) (m n : Monitor)
    → (publish t force m).1 ≢ []
    → n.last_publish_us ≡ (publish t force m).0.last_publish_us
    → n.state_dirty ≡ false
    → t ≤ now
    → now < u64_mod
    → (publish now false n).1 ≢ []
    → (n.data_dirty ≡ true)
      × (t + n.options.publish_interval_us ≤ now)
      × (t + n.min_interval_us ≤ now)
unfolding publish publish_interval_us
publish_throttled t now force m n w e s l b v = ground arith

-- A call writes the widget's file exactly when it raises the generation, and then it clears both
-- marks; any other call changes nothing.
pub publish_generation :
    (now : ℕ) (force : Bool) (m : Monitor)
    → let (after, writes) = publish now force m in
      ((writes ≡ []) × (after ≡ m))
      ⊎ ((writes ≢ [])
          × (after.generation ≡ add64 m.generation 1)
          × (after.last_publish_us ≡ now)
          × ((after.data_dirty || after.state_dirty) ≡ false))
unfolding publish
publish_generation now force m = ground arith
