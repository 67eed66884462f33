-- ===== src/Config/Files.antt =====
-- Whatever the directory of the clients holds, what is loaded of it is in range.
use plasma_network_health.Prelude.{
  ℕ, ◌-◌, ◌≡◌, refl, List, [], ◌∷◌, map, Option, none, some, arith, Bytes, length, All, if-cases,
  take,
}
use plasma_network_health.Json.Double.{Doubles}
use plasma_network_health.Monitor.State.{Client, MonitorOptions, Monitor}
use plasma_network_health.Monitor.Rebuild.Table.{IsTimedClient}
use plasma_network_health.Config.Bounds.{IsLoaded, LoadedIf, load_client_file-IsLoaded}
use plasma_network_health.Config.Reload.{
  Directory, listing, no_directory, is_client_name, append_found, load_entries, load_directory,
  insert_client, bytes_lt, sort_clients, find_client, carry_from, carry_client, reloaded_clients,
}

-- The times of a client, which come from its file.
carry_from-times :
    (o : Option Client) (c : Client)
    → ((carry_from o c).interval_us ≡ c.interval_us) × ((carry_from o c).timeout_us ≡ c.timeout_us)
carry_from-times none c = (refl, refl)
carry_from-times (some e) c = (refl, refl)

append_found-IsLoaded :
    (most : ℕ) (o : Option Client) (cs : List Client)
    → LoadedIf most o
    → All (IsLoaded most) cs
    → All (IsLoaded most) (append_found o cs)
append_found-IsLoaded most none cs h k = k
append_found-IsLoaded most (some c) cs h k = (h, k)

insert_client-IsLoaded :
    (most : ℕ) (c : Client) (cs : List Client)
    → IsLoaded most c
    → All (IsLoaded most) cs
    → All (IsLoaded most) (insert_client c cs)
unfolding insert_client
insert_client-IsLoaded most c [] h k = (h, tt)
insert_client-IsLoaded most c (d ∷ ds) h k =
    if-cases (All (IsLoaded most)) (bytes_lt d.id c.id) _ _
      (λ e. (k.0, insert_client-IsLoaded most c ds h k.1)) (λ e. (h, k))

sort_clients-IsLoaded :
    (most : ℕ) (cs : List Client) → All (IsLoaded most) cs → All (IsLoaded most) (sort_clients cs)
unfolding sort_clients
sort_clients-IsLoaded most [] h = tt
sort_clients-IsLoaded most (c ∷ cs) h =
    insert_client-IsLoaded most c (sort_clients cs) h.0 (sort_clients-IsLoaded most cs h.1)

module _ (ds : Doubles) where
  load_entries-IsLoaded :
      (o : MonitorOptions) (entries : List (Bytes × Option Bytes))
      → All (IsLoaded o.max_destinations) (load_entries ds o entries)
  unfolding load_entries
  load_entries-IsLoaded o [] = tt
  load_entries-IsLoaded o ((name, text) ∷ more) =
      let rest = load_entries-IsLoaded o more in
      if-cases (All (IsLoaded o.max_destinations)) (is_client_name name) _ _
        (λ h.
          append_found-IsLoaded o.max_destinations _ (load_entries ds o more)
            (load_client_file-IsLoaded ds o.max_destinations _ (take (length name - 5) name) text)
            rest)
        (λ h. rest)

  load_directory-IsLoaded :
      (o : MonitorOptions) (directory : Directory)
      → All (IsLoaded o.max_destinations) (load_directory ds o directory)
  unfolding load_directory
  load_directory-IsLoaded o (listing entries) = load_entries-IsLoaded o entries
  load_directory-IsLoaded o no_directory = tt

  module _ (directory : Directory) (m : Monitor) where
    -- The files as they are read, before the state is carried over.
    abbrev pub files : List Client
    files = sort_clients (load_directory ds m.options directory)

    pub files-IsLoaded : All (IsLoaded m.options.max_destinations) files
    files-IsLoaded =
        sort_clients-IsLoaded m.options.max_destinations (load_directory ds m.options directory)
          (load_directory-IsLoaded m.options directory)

    IsLoaded-carried :
        (cs : List Client)
        → All (IsLoaded m.options.max_destinations) cs
        → All IsTimedClient (map (carry_client m.clients) cs)
    unfolding carry_client
    IsLoaded-carried [] h = tt
    IsLoaded-carried (c ∷ cs) h =
        let times = carry_from-times (find_client c.id m.clients) c in
        (
          (
            rw (times.0) (omega (arith, h.0.interval_high)),
            rw (times.1) (omega (arith, h.0.timeout_high)),
          ),
          IsLoaded-carried cs h.1,
        )

    pub reloaded_clients-IsTimed : All IsTimedClient (reloaded_clients ds directory m)
    unfolding reloaded_clients
    reloaded_clients-IsTimed = IsLoaded-carried files files-IsLoaded
