-- ===== src/Config/Expiry.antt =====
-- dropExpiredClients unlinks the files that were not refreshed in time, and no others.
use plasma_network_health.Prelude.{
  ℕ, ◌+◌, ◌<◌, ◌≤◌, ◌≡◌, ◌*◌, ◌/◌, ℤ, pos, u64_mod, refl, ap, ◌∙◌, subst, ◌↔◌, inl, inr, true,
  false, not, ◌||◌, List, [], ◌∷◌, Option, some, arith, Bytes, ltb, ◌==◌, is_empty, if-cases,
  Option-cases, In, head, later, sub64,
}
use plasma_network_health.Monitor.State.{Client, Monitor, Env}
use plasma_network_health.Monitor.Schedule.{client_check_interval_us}
use plasma_network_health.Config.Watch.{mtime_us, stale_since, stale_paths, drop_expired_clients}

-- The client's file exists and was last written, in microseconds of its time in nanoseconds, more
-- than the timeout before.
pub record Stale (stat : Bytes → Option (ℤ × ℕ)) (real_now timeout_us : ℕ) (c : Client)
    : Type 0 where
  pub seconds : ℕ
  pub nanoseconds : ℕ
  pub exists : stat c.path ≡ some (pos seconds, nanoseconds)
  pub late : (seconds * 1000000000 + nanoseconds) / 1000 + timeout_us < real_now

-- No file's time is before 1970, or too late for 64 bits of microseconds.
abbrev pub SinceEpoch : (Bytes → Option (ℤ × ℕ)) → Type 0
SinceEpoch stat =
    (path : Bytes) (z : ℤ) (nanoseconds : ℕ)
    → stat path ≡ some (z, nanoseconds)
    → (seconds : ℕ) × (z ≡ pos seconds) × (seconds * 1000000 + nanoseconds / 1000 < u64_mod)

mtime_us-pos :
    (seconds nanoseconds : ℕ)
    → seconds * 1000000 + nanoseconds / 1000 < u64_mod
    → mtime_us (pos seconds, nanoseconds) ≡ (seconds * 1000000000 + nanoseconds) / 1000
unfolding mtime_us
mtime_us-pos seconds nanoseconds h = omega (arith, h)

abbrev pub StaleClient : (Bytes → Option (ℤ × ℕ)) → ℕ → ℕ → List Client → Bytes → Type 0
StaleClient stat real_now timeout_us clients path =
    (c : Client) × In c clients × (c.path ≡ path) × Stale stat real_now timeout_us c

module _ (stat : Bytes → Option (ℤ × ℕ)) (real_now timeout_us : ℕ) (epoch : SinceEpoch stat) where
  stale_since-Stale :
      (c : Client)
      → stale_since real_now timeout_us (stat c.path) ≡ true
      → Stale stat real_now timeout_us c
  stale_since-Stale c h = elim (Option-cases (stat c.path)) [
    | inl e ↦ ground (arith, h, e)
    | inr ((z, nanoseconds), e) ↦
        let (seconds, positive, fits) = epoch c.path z nanoseconds e in
        let found : stat c.path ≡ some (pos seconds, nanoseconds) =
          e ∙ ap (λ (y : ℤ). some (y, nanoseconds)) positive in
        let time = mtime_us-pos seconds nanoseconds fits in
        let tested : stale_since real_now timeout_us (some (pos seconds, nanoseconds)) ≡ true =
          subst (λ (o : Option (ℤ × ℕ)). stale_since real_now timeout_us o ≡ true) found h in
        record {
          seconds = seconds;
          nanoseconds = nanoseconds;
          exists = found;
          late = ground (arith, tested, time);
        }
  ]

  Stale-stale_since :
      (c : Client)
      → Stale stat real_now timeout_us c
      → stale_since real_now timeout_us (stat c.path) ≡ true
  Stale-stale_since c h =
      let (seconds, positive, fits) = epoch c.path (pos h.seconds) h.nanoseconds h.exists in
      let same : h.seconds ≡ seconds = cc in
      let time = mtime_us-pos h.seconds h.nanoseconds (rw same fits) in
      rw h.exists (let l = h.late in ground (arith, l, time))

  abbrev Old : List Client → Bytes → Type 0
  Old = StaleClient stat real_now timeout_us

  StaleClient-later :
      (c : Client) (cs : List Client) (path : Bytes) → Old cs path → Old (c ∷ cs) path
  StaleClient-later c cs path (d, place, same, h) = (d, later place, same, h)

  In-cons :
      {path : Bytes} (c : Client) (cs : List Client) (paths : List Bytes)
      → Stale stat real_now timeout_us c
      → ((k : In path paths) → Old cs path)
      → In path (c.path ∷ paths)
      → Old (c ∷ cs) path
  In-cons c cs paths h rest head = (c, head, refl, h)
  In-cons c cs paths h rest (later k) = StaleClient-later c cs _ (rest k)

  In-stale_paths :
      (cs : List Client) (path : Bytes)
      → In path (stale_paths stat real_now timeout_us cs)
      → Old cs path
  unfolding stale_paths
  In-stale_paths [] path h = elim h [ ]
  In-stale_paths (c ∷ cs) path h =
      if-cases (λ (paths : List Bytes). In path paths → Old (c ∷ cs) path)
        (stale_since real_now timeout_us (stat c.path)) _ _
        (λ e k.
          In-cons c cs (stale_paths stat real_now timeout_us cs) (stale_since-Stale c e)
            (In-stale_paths cs path) k)
        (λ e k. StaleClient-later c cs path (In-stale_paths cs path k)) h

  stale_paths-In :
      (cs : List Client) (c : Client)
      → In c cs
      → Stale stat real_now timeout_us c
      → In c.path (stale_paths stat real_now timeout_us cs)
  unfolding stale_paths
  stale_paths-In [] c k h = elim k [ ]
  stale_paths-In (d ∷ cs) c head h = rw (Stale-stale_since c h) head
  stale_paths-In (d ∷ cs) c (later k) h =
      if-cases (In c.path) (stale_since real_now timeout_us (stat d.path)) _ _
        (λ e. later (stale_paths-In cs c k h)) (λ e. stale_paths-In cs c k h)

-- A check is due: there is a timeout and the last check is an interval ago.
pub record IsDue (now : ℕ) (m : Monitor) : Type 0 where
  pub has_timeout : 0 < m.options.client_timeout_us
  pub waited : client_check_interval_us m ≤ sub64 now m.last_client_check_us

due-test :
    (now : ℕ) (m : Monitor)
    → IsDue now m
    → (m.options.client_timeout_us == 0
        || ltb (sub64 now m.last_client_check_us) (client_check_interval_us m))
      ≡ false
due-test now m h = let a = h.has_timeout in let b = h.waited in ground (arith, a, b)

-- When a check is due and no file's time is before 1970 or too late for 64 bits, the files that
-- dropExpiredClients unlinks are exactly those of the clients whose file exists and was last written
-- more than the timeout before now, in whole microseconds; the configuration is marked dirty if there
-- is one, and keeps its mark if there is none; and the clients stay as they are until a reload.
pub drop_expired_clients-Stale :
    (env : Env) (stat : Bytes → Option (ℤ × ℕ)) (now : ℕ) (m : Monitor)
    → IsDue now m
    → SinceEpoch stat
    → ((path : Bytes)
        → In path (drop_expired_clients env stat now m).1
          ↔ StaleClient stat
              (env.real_time m.real_reads)
              m.options.client_timeout_us
              m.clients
              path)
      × ((drop_expired_clients env stat now m).0.config_dirty
          ≡ (m.config_dirty || not (is_empty (drop_expired_clients env stat now m).1)))
      × ((drop_expired_clients env stat now m).0.clients ≡ m.clients)
unfolding drop_expired_clients
drop_expired_clients-Stale env stat now m due epoch =
    let real_now = env.real_time m.real_reads in
    let timeout_us = m.options.client_timeout_us in
    rw (due-test now m due) (
      (λ path. (
        In-stale_paths stat real_now timeout_us epoch m.clients path,
        λ h.
            subst (λ (p : Bytes). In p (stale_paths stat real_now timeout_us m.clients)) h.2
              (stale_paths-In stat real_now timeout_us epoch m.clients h.0 h.1 h.3),
      )),
      refl,
      refl,
    )
