-- ===== src/Monitor/Resolutions.antt =====
-- `Monitor::handleResolutions`: what the resolver found, with the times of the next lookup.
pub mod Backoff
use plasma_network_health.Prelude.{
  ℕ, ◌+◌, ◌-◌, ◌*◌, ◌^◌, min, Bool, true, false, not, ◌||◌, List, [], ◌∷◌, ◌++◌, Option, none, some,
  Bytes, codes, if◌then◌else◌, bytes_eq, get_elem?, set, add64,
}
use plasma_network_health.Pinger.Endpoint.{valid}
use plasma_network_health.Resolver.{Resolution, collect}
use plasma_network_health.Monitor.State.{
  Prober, Monitor, k_resolve_ttl_us, k_resolve_backoff_base_us, k_resolve_backoff_max_us,
}
use plasma_network_health.Monitor.Replies.{find_uid}

unfoldable pub backoff_us : ℕ → ℕ
backoff_us failures =
    min (k_resolve_backoff_base_us * 2 ^ min (failures - 1) 6) k_resolve_backoff_max_us

-- A prober after a lookup that found an address, and after one that failed.
unfoldable pub resolve_ok : ℕ → Resolution → Prober → Prober
resolve_ok now result p = record p {
  resolving = false;
  endpoint = result.endpoint;
  resolve_failures = 0;
  last_error = [];
  next_resolve_us = add64 now k_resolve_ttl_us;
}

unfoldable pub resolve_failed : ℕ → Resolution → Prober → Prober
unfolding backoff_us
resolve_failed now result p =
    let failures = min (p.resolve_failures + 1) 16 in
    record p {
      resolving = false;
      resolve_failures = failures;
      next_resolve_us = add64 now (backoff_us failures);
      last_error = codes "DNS: " ++ result.error;
    }

-- The prober, and whether the published state has changed.
unfoldable pub resolve_prober : ℕ → Resolution → Prober → Prober × Bool
unfolding resolve_ok resolve_failed
resolve_prober now result p =
    if result.ok
    then (
      resolve_ok now result p,
      not (valid p.endpoint) || not (bytes_eq p.endpoint.text result.endpoint.text),
    )
    else (resolve_failed now result p, true)

resolve_at : ℕ → Resolution → ℕ → Option Prober → Monitor → Monitor
resolve_at now result i none m = m
resolve_at now result i (some p) m =
    let (q, changed) = resolve_prober now result p in
    record m { probers = set m.probers i q; state_dirty = m.state_dirty || changed }

resolve_found : ℕ → Resolution → Option ℕ → Monitor → Monitor
resolve_found now result none m = m
resolve_found now result (some i) m = resolve_at now result i (get_elem? m.probers i) m

unfoldable pub handle_resolution : ℕ → Resolution → Monitor → Monitor
unfolding resolve_found resolve_at
handle_resolution now result m = resolve_found now result (find_uid result.uid m.prober_by_uid) m

unfoldable pub handle_each_resolution : ℕ → List Resolution → Monitor → Monitor
handle_each_resolution now [] m = m
handle_each_resolution now (r ∷ rs) m = handle_each_resolution now rs (handle_resolution now r m)

unfoldable pub handle_resolutions : ℕ → Monitor → Monitor
unfolding handle_each_resolution
handle_resolutions now m =
    let (results, resolver) = collect m.resolver in
    handle_each_resolution now results (record m { resolver = resolver })
