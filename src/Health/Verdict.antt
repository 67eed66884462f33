-- ===== src/Health/Verdict.antt =====
-- Whole samples, as `Monitor::applySample` feeds them to one destination: the counters beside the
-- verdict, over any history.
use plasma_network_health.Prelude.{
  ℕ, ◌+◌, ◌≤◌, ◌<◌, ◌≡◌, ◌≢◌, refl, ap, ◌↔◌, inl, inr, ◌⊎◌, Bool, true, false, List, [], ◌∷◌, map,
  arith, length, replicate, if◌then◌else◌, u64_mod,
}
use plasma_network_health.Health.Sensitivity.{verdicts, verdicts-replicate_exact}
use plasma_network_health.Health.{
  HealthState, unknown, good, warn, bad, offline, Destination, classify, reported_state, judge,
  sample_destination,
}

pub record Sample : Type 0 where
  pub received : Bool
  pub rtt_us : ℕ
  pub real_now : ℕ

-- The destination after a history of samples, the newest first.
unfoldable pub observe : Destination → List Sample → Destination
observe d [] = d
observe d (s ∷ older) = sample_destination s.received s.rtt_us s.real_now (observe d older)

pub verdict_of : Destination → Sample → HealthState
verdict_of d s = classify s.received s.rtt_us d.threshold_us

-- What a verdict reads and writes.
record Judged (d e : Destination) : Type 0 where
  state : d.state ≡ e.state
  candidate : d.candidate ≡ e.candidate
  streak : d.candidate_streak ≡ e.candidate_streak
  sensitivity : d.sensitivity ≡ e.sensitivity

judge-Judged : (x : HealthState) (d e : Destination) → Judged d e → Judged (judge x d) (judge x e)
unfolding judge
judge-Judged x d e j = ground arith

sample_destination-Judged :
    (r : Bool) (rtt now : ℕ) (d : Destination)
    → Judged (sample_destination r rtt now d) (judge (classify r rtt d.threshold_us) d)
unfolding sample_destination
sample_destination-Judged r rtt now d = ground arith

-- Configuration is not touched by a sample.
record Configured (d e : Destination) : Type 0 where
  threshold_us : d.threshold_us ≡ e.threshold_us
  part_time : d.part_time ≡ e.part_time

sample_destination-Configured :
    (r : Bool) (rtt now : ℕ) (d : Destination) → Configured (sample_destination r rtt now d) d
unfolding sample_destination
sample_destination-Configured r rtt now d = ground arith

observe-Configured : (d : Destination) (h : List Sample) → Configured (observe d h) d
unfolding observe
observe-Configured d [] = record { threshold_us = refl; part_time = refl }
observe-Configured d (s ∷ h) = ground (
  arith,
  sample_destination-Configured s.received s.rtt_us s.real_now (observe d h),
  observe-Configured d h,
)

Judged-trans : {d e f : Destination} → Judged d e → Judged e f → Judged d f
Judged-trans p q = ground (arith, p, q)

-- The state, candidate and streak after a history depend on the verdicts of its samples alone.
observe-Judged :
    (d : Destination) (h : List Sample) → Judged (observe d h) (verdicts d (map (verdict_of d) h))
unfolding observe verdicts verdict_of
observe-Judged d [] = record { state = refl; candidate = refl; streak = refl; sensitivity = refl }
observe-Judged d (s ∷ h) =
    Judged-trans
      (rw ((observe-Configured d h).threshold_us) at
        (sample_destination-Judged s.received s.rtt_us s.real_now (observe d h)))
      (judge-Judged _ _ _ (observe-Judged d h))

-- A sample that was not received.
abbrev pub lost : ℕ → Sample
lost real_now = record { received = false; rtt_us = 0; real_now = real_now }

map-lost :
    (d : Destination) (ts : List ℕ) → map (verdict_of d) (map lost ts) ≡ replicate (length ts) bad
unfolding verdict_of classify
map-lost d [] = refl
map-lost d (t ∷ ts) = ap (◌∷◌ bad) (map-lost d ts)

-- A host that answers, with no running streak, stays as it is shown for as many lost probes in a row
-- as its sensitivity; one lost probe more and it is reported bad, or offline if it is part-time.
pub observe-lost :
    (d : Destination) (ts : List ℕ) (t : ℕ)
    → (d.state ≡ good) ⊎ (d.state ≡ warn)
    → d.candidate_streak ≡ 0
    → length ts ≡ d.sensitivity
    → let before = observe d (map lost ts) in
      let after = observe d (map lost (t ∷ ts)) in
      (reported_state before.state before.part_time ≡ d.state)
      × (reported_state after.state after.part_time ≡ (if d.part_time then offline else bad))
unfolding reported_state
observe-lost d ts t shown e n = ground (
  arith,
  verdicts-replicate_exact d bad d.sensitivity e (ground arith) (ground arith) (omega arith),
  observe-Judged d (map lost ts),
  observe-Judged d (map lost (t ∷ ts)),
  map-lost d ts,
  map-lost d (t ∷ ts),
  observe-Configured d (map lost ts),
  observe-Configured d (map lost (t ∷ ts)),
  n,
)

abbrev count_received : List Sample → ℕ
count_received [] = 0
count_received (s ∷ h) = (if s.received then 1 else 0) + count_received h

count_received-le : (h : List Sample) → count_received h ≤ length h
count_received-le [] = omega arith
count_received-le (s ∷ h) = ground (arith, count_received-le h)

count_sample-sent :
    (r : Bool) (rtt now : ℕ) (d : Destination)
    → d.sent + 1 < u64_mod
    → d.received ≤ d.sent
    → ((sample_destination r rtt now d).sent ≡ d.sent + 1)
      × ((sample_destination r rtt now d).received ≡ (if r then 1 else 0) + d.received)
      × ((sample_destination r rtt now d).have_rtt ≡ r)
unfolding sample_destination
count_sample-sent r rtt now d b l = ground arith

-- From fresh counters, and below 2 ^ 64 samples, the counters count the samples and the replies,
-- never more replies than samples, and a round-trip time is shown after a reply and only then.
pub observe-counters :
    (d : Destination) (s : Sample) (h : List Sample)
    → d.sent ≡ 0
    → d.received ≡ 0
    → length (s ∷ h) < u64_mod
    → let e = observe d (s ∷ h) in
      (e.sent ≡ length (s ∷ h))
      × (e.received ≡ count_received (s ∷ h))
      × (e.received ≤ e.sent)
      × (e.have_rtt ≡ s.received)
unfolding observe
observe-counters d s [] z y b = ground (arith, count_sample-sent s.received s.rtt_us s.real_now d)
observe-counters d s (t ∷ h) z y b = ground (
  arith,
  observe-counters d t h z y,
  count_sample-sent s.received s.rtt_us s.real_now (observe d (t ∷ h)),
  count_received-le h,
)

-- A measured state is neither unknown nor offline.
abbrev pub IsMeasured : HealthState → Type 0
IsMeasured s = (s ≡ good) ⊎ (s ≡ warn) ⊎ (s ≡ bad)

sample_destination-IsMeasured :
    (r : Bool) (rtt now : ℕ) (d : Destination)
    → (d.state ≡ unknown) ⊎ IsMeasured d.state
    → IsMeasured (sample_destination r rtt now d).state
unfolding sample_destination
sample_destination-IsMeasured r rtt now d m = ground arith

-- The first sample of a fresh destination gives it a verdict, and no later one takes it away:
-- after any history but the empty one the state is good, warn or bad, and it is reported offline
-- exactly when it is bad and the destination is part-time.
pub observe-IsMeasured :
    (d : Destination) (s : Sample) (h : List Sample)
    → d.state ≡ unknown
    → let e = observe d (s ∷ h) in
      IsMeasured e.state
      × ((reported_state e.state e.part_time ≡ offline) ↔ ((e.state ≡ bad) × (d.part_time ≡ true)))
unfolding observe reported_state
observe-IsMeasured d s [] u = ground (
  arith,
  sample_destination-IsMeasured s.received s.rtt_us s.real_now d (inl u),
  sample_destination-Configured s.received s.rtt_us s.real_now d,
)
observe-IsMeasured d s (t ∷ h) u =
    let m =
      sample_destination-IsMeasured s.received s.rtt_us s.real_now (observe d (t ∷ h))
        (inr (observe-IsMeasured d t h u).0) in
    ground (arith, m, observe-Configured d (s ∷ t ∷ h))

-- The time of the last change moves exactly when the shown state does.
pub sample_destination-last_change :
    (r : Bool) (rtt now : ℕ) (d : Destination)
    → let e = sample_destination r rtt now d in
      ((e.state ≡ d.state) × (e.last_change_real_us ≡ d.last_change_real_us))
      ⊎ ((e.state ≢ d.state) × (e.last_change_real_us ≡ now))
unfolding sample_destination
sample_destination-last_change r rtt now d = ground arith
