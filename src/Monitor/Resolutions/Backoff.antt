-- ===== src/Monitor/Resolutions/Backoff.antt =====
-- The waits between failed lookups.
use plasma_network_health.Prelude.{
  ℕ, zero, suc, ◌+◌, ◌-◌, ◌*◌, ◌≤◌, ◌<◌, ◌≡◌, min, refl, false, arith, if◌then◌else◌, u64_mod,
}
use plasma_network_health.Monitor.State.{
  Prober, k_resolve_backoff_base_us, k_resolve_backoff_max_us,
}
use plasma_network_health.Resolver.{Resolution}
use plasma_network_health.Monitor.Resolutions.{backoff_us, resolve_prober}

backoff-saturated : (n : ℕ) → 6 ≤ n - 1 → backoff_us n ≡ k_resolve_backoff_max_us
unfolding backoff_us
backoff-saturated n h = let six : min (n - 1) 6 ≡ 6 = omega arith in rw six

-- The wait doubles with each failure up to five minutes, and is never less than five seconds.
pub backoff_us_doubles :
    (n : ℕ)
    → (backoff_us (suc (suc n)) ≡ min (2 * backoff_us (suc n)) k_resolve_backoff_max_us)
      × (k_resolve_backoff_base_us ≤ backoff_us (suc n))
      × (backoff_us (suc n) ≤ k_resolve_backoff_max_us)
unfolding backoff_us
backoff_us_doubles zero = (refl, omega arith, omega arith)
backoff_us_doubles (suc zero) = (refl, omega arith, omega arith)
backoff_us_doubles (suc (suc zero)) = (refl, omega arith, omega arith)
backoff_us_doubles (suc (suc (suc zero))) = (refl, omega arith, omega arith)
backoff_us_doubles (suc (suc (suc (suc zero)))) = (refl, omega arith, omega arith)
backoff_us_doubles (suc (suc (suc (suc (suc zero))))) = (refl, omega arith, omega arith)
backoff_us_doubles (suc (suc (suc (suc (suc (suc n)))))) = saturated
  where
    more : ℕ
    more = suc (suc (suc (suc (suc (suc n)))))

    saturated :
        (backoff_us (suc (suc more)) ≡ min (2 * backoff_us (suc more)) k_resolve_backoff_max_us)
        × (k_resolve_backoff_base_us ≤ backoff_us (suc more))
        × (backoff_us (suc more) ≤ k_resolve_backoff_max_us)
    saturated =
        rw
          (
            backoff-saturated (suc (suc more)) (omega arith),
            backoff-saturated (suc more) (omega arith),
          )
          (refl, omega arith, omega arith)

-- A lookup is over once its result is handled. After a success the next one waits for exactly five
-- minutes, the count of failures is cleared and the address is taken over. After a failure the count
-- goes up, to 16 at most, the next one waits for the backoff of that count, which is between five
-- seconds and five minutes, and the address stays. The count is at most 16 before, and no time wraps.
pub resolve_prober_waits :
    (now : ℕ) (result : Resolution) (p : Prober)
    → p.resolve_failures ≤ 16
    → now + 300000000 < u64_mod
    → let (q, changed) = resolve_prober now result p in
      (q.resolving ≡ false)
      × (q.next_resolve_us ≡ now + (if result.ok then 300000000 else backoff_us q.resolve_failures))
      × (now + 5000000 ≤ q.next_resolve_us)
      × (q.next_resolve_us ≤ now + 300000000)
      × (q.resolve_failures ≤ 16)
      × (q.resolve_failures ≡ (if result.ok then 0 else min (p.resolve_failures + 1) 16))
      × (q.endpoint ≡ (if result.ok then result.endpoint else p.endpoint))
unfolding resolve_prober
resolve_prober_waits now result p h b =
    ground (arith, backoff_us_doubles (min (p.resolve_failures + 1) 16 - 1))
