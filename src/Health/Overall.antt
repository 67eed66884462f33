-- ===== src/Health/Overall.antt =====
-- The counts and the overall state of one client, as `Monitor::buildStateJson` computes them
-- (daemon/src/monitor.cpp).
use plasma_network_health.Prelude.{
  ℕ, ◌+◌, ◌≤◌, ◌<◌, ◌≡◌, refl, ap, inl, inr, ◌↔◌, true, ◌&&◌, List, [], ◌∷◌, arith, Bytes, codes,
  ltb, ◌==◌, if◌then◌else◌, All, Bool-cases,
}
use plasma_network_health.Health.Sensitivity.{state_eq_sound, state_eq_refl}
use plasma_network_health.Health.{
  HealthState, unknown, good, warn, bad, offline, state_eq, Destination, reported_state,
}

pub record Counts : Type 0 where
  pub enabled : ℕ
  pub good_count : ℕ
  pub warn_count : ℕ
  pub bad_count : ℕ
  pub offline_count : ℕ
  pub unknown_count : ℕ

abbrev pub no_counts : Counts
no_counts = record {
  enabled = 0;
  good_count = 0;
  warn_count = 0;
  bad_count = 0;
  offline_count = 0;
  unknown_count = 0;
}

-- The state that a destination is shown in.
unfoldable pub shown : Destination → HealthState
shown d = reported_state d.state d.part_time

unfoldable pub count_shown : HealthState → Counts → Counts
count_shown good c = record c { good_count = c.good_count + 1 }
count_shown warn c = record c { warn_count = c.warn_count + 1 }
count_shown bad c = record c { bad_count = c.bad_count + 1 }
count_shown offline c = record c { offline_count = c.offline_count + 1 }
count_shown unknown c = record c { unknown_count = c.unknown_count + 1 }

-- The loop over the destinations.
unfoldable pub count_destinations : List Destination → Counts → Counts
unfolding count_shown
count_destinations [] c = c
count_destinations (d ∷ ds) c =
    count_destinations ds
      (if d.enabled then count_shown (shown d) (record c { enabled = c.enabled + 1 }) else c)

unfoldable pub overall_of : Counts → Bytes
overall_of c =
    if c.enabled == c.offline_count
    then codes "idle"
    else if ltb 0 c.bad_count
    then codes "bad"
    else if ltb 0 c.warn_count
    then codes "warn"
    else if c.unknown_count == 0
    then codes "good"
    else codes "unknown"

unfoldable pub overall : List Destination → Bytes
unfolding count_destinations overall_of
overall ds = overall_of (count_destinations ds no_counts)

-- How many enabled destinations are shown in a state.
pub count_in : HealthState → List Destination → ℕ
count_in s [] = 0
count_in s (d ∷ ds) = (if d.enabled && state_eq (shown d) s then 1 else 0) + count_in s ds

pub count_enabled : List Destination → ℕ
count_enabled [] = 0
count_enabled (d ∷ ds) = (if d.enabled then 1 else 0) + count_enabled ds

pub record Counted (ds : List Destination) (c e : Counts) : Type 0 where
  pub enabled : e.enabled ≡ c.enabled + count_enabled ds
  pub good_count : e.good_count ≡ c.good_count + count_in good ds
  pub warn_count : e.warn_count ≡ c.warn_count + count_in warn ds
  pub bad_count : e.bad_count ≡ c.bad_count + count_in bad ds
  pub offline_count : e.offline_count ≡ c.offline_count + count_in offline ds
  pub unknown_count : e.unknown_count ≡ c.unknown_count + count_in unknown ds

count_destinations-Counted :
    (ds : List Destination) (c : Counts) → Counted ds c (count_destinations ds c)
unfolding count_destinations count_in count_enabled
count_destinations-Counted [] c = omega arith
count_destinations-Counted (d ∷ ds) c = ground (
  arith,
  count_destinations-Counted ds
      (if d.enabled then count_shown (shown d) (record c { enabled = c.enabled + 1 }) else c),
)

count_in-total :
    (ds : List Destination)
    → count_enabled ds
      ≡ count_in good ds
        + count_in warn ds
        + count_in bad ds
        + count_in offline ds
        + count_in unknown ds
unfolding count_in count_enabled
count_in-total [] = refl
count_in-total (d ∷ ds) = ground (arith, count_in-total ds)

-- Each of the published counts is the number of enabled destinations shown in that state, and the
-- five of them add up to the number of enabled destinations.
pub count_destinations-total :
    (ds : List Destination)
    → let c = count_destinations ds no_counts in
      Counted ds no_counts c
      × (c.enabled ≡ c.good_count + c.warn_count + c.bad_count + c.offline_count + c.unknown_count)
count_destinations-total ds =
    let k = count_destinations-Counted ds no_counts in (k, omega (arith, k, count_in-total ds))

-- Some enabled destination is shown in the state `s`.
pub data Shows (s : HealthState) : List Destination → Type 0 where
  here :
      {d : Destination} {ds : List Destination} → d.enabled ≡ true → shown d ≡ s → Shows s (d ∷ ds)
  there : {d : Destination} {ds : List Destination} → Shows s ds → Shows s (d ∷ ds)

-- Every enabled destination is offline.
abbrev pub AllOffline : List Destination → Type 0
AllOffline = All (λ d. d.enabled ≡ true → shown d ≡ offline)

Shows-pos : {s : HealthState} {ds : List Destination} → Shows s ds → 0 < count_in s ds
unfolding count_in
Shows-pos {s} (here {d} {ds} e h) = ground (arith, ap (λ x. state_eq x s) h, state_eq_refl s)
Shows-pos (there p) = omega (arith, Shows-pos p)

pos-Shows : (s : HealthState) (ds : List Destination) → 0 < count_in s ds → Shows s ds
unfolding count_in
pos-Shows s [] h = absurd (omega arith)
pos-Shows s (d ∷ ds) h = elim (Bool-cases (d.enabled && state_eq (shown d) s)) [
  | inl e ↦ here (ground arith) (ground (arith, state_eq_sound (shown d) s))
  | inr e ↦ there (pos-Shows s ds (ground arith))
]

count_in-le : (s : HealthState) (ds : List Destination) → count_in s ds ≤ count_enabled ds
unfolding count_in count_enabled
count_in-le s [] = omega arith
count_in-le s (d ∷ ds) = ground (arith, count_in-le s ds)

eq-AllOffline : (ds : List Destination) → count_enabled ds ≡ count_in offline ds → AllOffline ds
unfolding count_in count_enabled
eq-AllOffline [] h = tt
eq-AllOffline (d ∷ ds) h = (
  λ e. ground (arith, state_eq_sound (shown d) offline, count_in-le offline ds),
  eq-AllOffline ds (ground (arith, count_in-le offline ds)),
)

AllOffline-eq : (ds : List Destination) → AllOffline ds → count_enabled ds ≡ count_in offline ds
unfolding count_in count_enabled
AllOffline-eq [] h = refl
AllOffline-eq (d ∷ ds) h = elim (Bool-cases d.enabled) [
  | inl e ↦ ground (arith, h.0 e, AllOffline-eq ds h.1)
  | inr e ↦ ground (arith, AllOffline-eq ds h.1)
]

-- The overall state in terms of the counts.
overall_cases :
    (ds : List Destination)
    → overall ds ≡ (
        if count_enabled ds == count_in offline ds
        then codes "idle"
        else if ltb 0 (count_in bad ds)
        then codes "bad"
        else if ltb 0 (count_in warn ds)
        then codes "warn"
        else if count_in unknown ds == 0
        then codes "good"
        else codes "unknown")
unfolding overall
overall_cases ds = let k = count_destinations-Counted ds no_counts in ground (arith, k)

idle_exactly : (ds : List Destination) → (overall ds ≡ codes "idle") ↔ AllOffline ds
idle_exactly ds = (
  λ h. eq-AllOffline ds (ground (arith, overall_cases ds)),
  λ a. ground (arith, overall_cases ds, AllOffline-eq ds a),
)

bad_exactly : (ds : List Destination) → (overall ds ≡ codes "bad") ↔ Shows bad ds
bad_exactly ds = (
  λ h. pos-Shows bad ds (ground (arith, overall_cases ds)),
  λ b. ground (arith, overall_cases ds, Shows-pos b, count_in-total ds),
)

warn_exactly :
    (ds : List Destination) → (overall ds ≡ codes "warn") ↔ (Shows warn ds × (¬ Shows bad ds))
warn_exactly ds = (
  λ h. (
    pos-Shows warn ds (ground (arith, overall_cases ds)),
    λ b. ground (arith, overall_cases ds, Shows-pos b),
  ),
  λ w. elim (Bool-cases (ltb 0 (count_in bad ds))) [
    | inl b ↦ absurd (w.1 (pos-Shows bad ds (ground arith)))
    | inr n ↦ ground (arith, overall_cases ds, Shows-pos w.0, count_in-total ds)
  ],
)

-- The overall state is idle exactly when every enabled destination is offline, otherwise bad
-- exactly when some enabled destination is shown bad, and otherwise warn exactly when some enabled
-- destination is shown warn.
pub overall_worst :
    (ds : List Destination)
    → ((overall ds ≡ codes "idle") ↔ AllOffline ds)
      × ((overall ds ≡ codes "bad") ↔ Shows bad ds)
      × ((overall ds ≡ codes "warn") ↔ (Shows warn ds × (¬ Shows bad ds)))
overall_worst ds = (idle_exactly ds, bad_exactly ds, warn_exactly ds)
