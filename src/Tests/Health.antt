-- ===== src/Tests/Health.antt =====
-- Tests of the health of destinations.
use plasma_network_health.Prelude.{
  ◌≤◌, ◌≡◌, refl, ◌↔◌, inl, true, false, [], ◌∷◌, arith, codes, replicate, take, map,
}
use plasma_network_health.Health.{
  good, warn, bad, offline, judge, sample_destination, reported_state,
}
use plasma_network_health.Health.Sensitivity.{
  verdicts, judge-verdicts_needs_run, verdicts-replicate_exact,
}
use plasma_network_health.Health.Verdict.{
  observe, lost, IsMeasured, observe-lost, observe-counters, observe-IsMeasured,
}
use plasma_network_health.Health.Overall.{overall, shown, AllOffline, Shows, overall_worst}
use plasma_network_health.Tests.Data.{gateway, fresh_gateway, desktop, slow_reply}

two_lost_turn_bad : (observe gateway (map lost (2 ∷ 1 ∷ []))).state ≡ bad
unfolding observe sample_destination
two_lost_turn_bad = refl

mixture_changes_nothing : (verdicts gateway (bad ∷ warn ∷ bad ∷ warn ∷ bad ∷ [])).state ≡ good
unfolding verdicts judge
mixture_changes_nothing = refl

off_desktop_leaves_good : overall (gateway ∷ record desktop { state = bad } ∷ []) ≡ codes "good"
unfolding overall shown reported_state
off_desktop_leaves_good = refl

judge-verdicts_needs_run_example : take 2 (bad ∷ bad ∷ []) ≡ replicate 2 bad
unfolding verdicts judge
judge-verdicts_needs_run_example =
    judge-verdicts_needs_run gateway (bad ∷ []) bad refl (λ e. cc e) (λ e. cc e)

verdicts-replicate_exact_example :
    ((verdicts gateway (bad ∷ [])).state ≡ good) × ((verdicts gateway (bad ∷ bad ∷ [])).state ≡ bad)
verdicts-replicate_exact_example =
    verdicts-replicate_exact gateway bad 1 refl (λ e. cc e) (λ e. cc e) (omega arith)

observe-lost_example :
    let before = observe desktop (map lost (1 ∷ [])) in
    let after = observe desktop (map lost (2 ∷ 1 ∷ [])) in
    (reported_state before.state before.part_time ≡ good)
    × (reported_state after.state after.part_time ≡ offline)
observe-lost_example = observe-lost desktop (1 ∷ []) 2 (inl refl) refl refl

observe-counters_example :
    let e = observe gateway (lost 9 ∷ slow_reply ∷ []) in
    (e.sent ≡ 2) × (e.received ≡ 1) × (e.received ≤ e.sent) × (e.have_rtt ≡ false)
observe-counters_example =
    observe-counters gateway (lost 9) (slow_reply ∷ []) refl refl (omega arith)

observe-IsMeasured_example :
    let e = observe fresh_gateway (slow_reply ∷ []) in
    IsMeasured e.state
    × ((reported_state e.state e.part_time ≡ offline) ↔ ((e.state ≡ bad) × (◌≡◌ false true)))
observe-IsMeasured_example = observe-IsMeasured fresh_gateway slow_reply [] refl

overall_worst_example :
    ((overall (gateway ∷ []) ≡ codes "idle") ↔ AllOffline (gateway ∷ []))
    × ((overall (gateway ∷ []) ≡ codes "bad") ↔ Shows bad (gateway ∷ []))
    × ((overall (gateway ∷ []) ≡ codes "warn")
        ↔ (Shows warn (gateway ∷ []) × (¬ Shows bad (gateway ∷ []))))
overall_worst_example = overall_worst (gateway ∷ [])
