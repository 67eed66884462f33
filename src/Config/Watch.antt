-- ===== src/Config/Watch.antt =====
-- `Monitor::handleInotify` and `Monitor::dropExpiredClients`.
use plasma_network_health.Prelude.{
  ℕ, ◌+◌, ◌*◌, ◌/◌, ◌-◌, Bool, false, not, ◌&&◌, ◌||◌, List, [], ◌∷◌, Option, none, some, Bytes,
  codes, ltb, ◌==◌, if◌then◌else◌, ◌%◌, add64, u64_mod, ℤ, pos, negsuc, sub64, is_empty,
}
use plasma_network_health.Util.Text.{has_suffix}
use plasma_network_health.Monitor.State.{Client, Monitor, Env}
use plasma_network_health.Monitor.Schedule.{client_check_interval_us}

-- Of an inotify_event: whether it has no name (`len` is 0), the name, and whether its mask has
-- IN_DELETE_SELF or IN_MOVE_SELF.
pub record InotifyEvent : Type 0 where
  pub no_name : Bool
  pub name : Bytes
  pub is_self : Bool

-- What read(2) answers: events, EINTR, or that there is nothing (more) to read.
pub data InotifyReads : Type 0 where
  got_events : List InotifyEvent → InotifyReads → InotifyReads
  interrupted : InotifyReads → InotifyReads
  nothing : InotifyReads

unfoldable pub concerns : InotifyEvent → Bool
concerns e = e.no_name || has_suffix e.name (codes ".json") || e.is_self

unfoldable pub any_concerns : List InotifyEvent → Bool
unfolding concerns
any_concerns [] = false
any_concerns (e ∷ es) = concerns e || any_concerns es

unfoldable pub handle_inotify : InotifyReads → Monitor → Monitor
unfolding any_concerns
handle_inotify nothing m = m
handle_inotify (interrupted more) m = handle_inotify more m
handle_inotify (got_events es more) m =
    handle_inotify more (record m { config_dirty = m.config_dirty || any_concerns es })

-- The cast of a signed number to uint64_t.
abbrev pub to_u64 : ℤ → ℕ
to_u64 (pos n) = n % u64_mod
to_u64 (negsuc n) = u64_mod - 1 - n % u64_mod

-- `st_mtim` of a file, whose seconds are signed, in microseconds.
unfoldable pub mtime_us : ℤ × ℕ → ℕ
mtime_us (seconds, nanoseconds) = add64 (to_u64 seconds * 1000000 % u64_mod) (nanoseconds / 1000)

abbrev pub stale_since : ℕ → ℕ → Option (ℤ × ℕ) → Bool
stale_since real_now timeout_us none = false
stale_since real_now timeout_us (some mtime) =
    ltb (mtime_us mtime) real_now && ltb timeout_us (real_now - mtime_us mtime)

-- The paths of the clients' files that are unlinked, in order; `stat` is what stat(2) answers.
unfoldable pub stale_paths : (Bytes → Option (ℤ × ℕ)) → ℕ → ℕ → List Client → List Bytes
unfolding mtime_us
stale_paths stat real_now timeout_us [] = []
stale_paths stat real_now timeout_us (c ∷ cs) =
    let rest = stale_paths stat real_now timeout_us cs in
    if stale_since real_now timeout_us (stat c.path) then c.path ∷ rest else rest

unfoldable pub drop_expired_clients :
    Env → (Bytes → Option (ℤ × ℕ)) → ℕ → Monitor → Monitor × List Bytes
unfolding stale_paths
drop_expired_clients env stat now m =
    let removed =
      stale_paths stat (env.real_time m.real_reads) m.options.client_timeout_us m.clients in
    if m.options.client_timeout_us == 0
      || ltb (sub64 now m.last_client_check_us) (client_check_interval_us m)
    then (m, [])
    else (
      record m {
        last_client_check_us = now;
        real_reads = m.real_reads + 1;
        config_dirty = m.config_dirty || not (is_empty removed);
      },
      removed,
    )
