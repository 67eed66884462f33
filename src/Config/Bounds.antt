-- ===== src/Config/Bounds.antt =====
-- Whatever a client's file says, what is loaded of it is in range.
use plasma_network_health.Prelude.{
  ℕ, ◌+◌, ◌<◌, ◌≤◌, ◌≡◌, refl, false, not, List, [], ◌∷◌, Option, none, some, arith, Bytes, codes,
  ltb, is_empty, length, length-append, ℤ, pos, negsuc, All, All-append, if-cases,
}
use plasma_network_health.Util.Text.{trimmed, trimmed_lem, BeginsClear, EndsClear}
use plasma_network_health.Json.Double.{Doubles}
use plasma_network_health.Json.Value.{
  Json, Items, nil, cons, is_array, is_object, items, get, to_text, to_int,
}
use plasma_network_health.Json.Parse.{parse}
use plasma_network_health.Health.{Destination, unknown}
use plasma_network_health.Monitor.State.{Client}
use plasma_network_health.Config.Load.{
  clamp, load_destination, load_entry, add_found, load_destinations, document_of, client_of,
  load_client_file, default_id,
}

pub clamp_bounds :
    (z : ℤ) (low high : ℕ) → low ≤ high → (low ≤ clamp z low high) × (clamp z low high ≤ high)
unfolding clamp
clamp_bounds (negsuc n) low high h = (omega arith, omega arith)
clamp_bounds (pos n) low high h = ground arith

-- A destination that has an identifier and an address with no white space round it, values in
-- range, and nothing known of it yet.
pub record IsFresh (d : Destination) : Type 0 where
  pub has_id : is_empty d.id ≡ false
  pub has_address : is_empty d.address ≡ false
  pub begins : BeginsClear d.address
  pub ends : EndsClear d.address
  pub threshold_pos : 0 < d.threshold_us
  pub threshold_bound : d.threshold_us ≤ 60000000
  pub sensitivity_bound : d.sensitivity ≤ 1000
  pub no_prober : d.prober ≡ none
  pub state : d.state ≡ unknown
  pub streak : d.candidate_streak ≡ 0

-- A client whose times and number of destinations are in range.
pub record IsLoaded (max_destinations : ℕ) (c : Client) : Type 0 where
  pub interval_low : 100000 ≤ c.interval_us
  pub interval_high : c.interval_us ≤ 3600000000
  pub timeout_low : 50000 ≤ c.timeout_us
  pub timeout_high : c.timeout_us ≤ 60000000
  pub few : length c.destinations ≤ max_destinations
  pub fresh : All IsFresh c.destinations

default_id_nonempty : (i : ℕ) (id : Bytes) → is_empty (default_id i id) ≡ false
default_id_nonempty i [] = refl
default_id_nonempty i (c ∷ id) = refl

abbrev pub LoadedIf : ℕ → Option Client → Type 0
LoadedIf most none = Unit
LoadedIf most (some c) = IsLoaded most c

module _ (ds : Doubles) where
  load_destination-IsFresh :
      (i : ℕ) (address : Bytes) (entry : Json ds.Double)
      → is_empty address ≡ false
      → BeginsClear address
      → EndsClear address
      → IsFresh (load_destination ds i address entry)
  unfolding load_destination
  load_destination-IsFresh i address entry h begins ends =
      let threshold =
        clamp_bounds (to_int ds (get entry (codes "threshold_us")) (pos 1000)) 1 60000000
          (omega arith) in
      let sensitivity =
        clamp_bounds (to_int ds (get entry (codes "sensitivity")) (pos 3)) 0 1000 (omega arith) in
      record {
        has_id = default_id_nonempty i (to_text (get entry (codes "id")) []);
        has_address = h;
        begins = begins;
        ends = ends;
        threshold_pos = threshold.0;
        threshold_bound = threshold.1;
        sensitivity_bound = sensitivity.1;
        no_prober = refl;
        state = refl;
        streak = refl;
      }

  abbrev FreshIf : Option Destination → Type 0
  FreshIf none = Unit
  FreshIf (some d) = IsFresh d

  load_entry-IsFresh : (i : ℕ) (entry : Json ds.Double) → FreshIf (load_entry ds i entry)
  unfolding load_entry
  load_entry-IsFresh i entry =
      let address = trimmed (to_text (get entry (codes "address")) []) in
      let (front, back, s1, s2, split, begins, ends) =
        trimmed_lem (to_text (get entry (codes "address")) []) in
      if-cases FreshIf (not (is_object entry)) _ _ (λ h. tt)
        (λ h.
          if-cases FreshIf (is_empty address) _ _ (λ k. tt)
            (λ k. load_destination-IsFresh i address entry k begins ends))

  add_found-IsFresh :
      (o : Option Destination) (out : List Destination)
      → FreshIf o
      → All IsFresh out
      → All IsFresh (add_found o out)
  add_found-IsFresh none out h k = k
  add_found-IsFresh (some d) out h k = All-append IsFresh out (d ∷ []) k (h, tt)

  length-add_found :
      (o : Option Destination) (out : List Destination) → length (add_found o out) ≤ length out + 1
  length-add_found none out = omega arith
  length-add_found (some d) out = omega (arith, length-append out (d ∷ []))

  load_destinations-bounds :
      (max_destinations i : ℕ) (xs : Items ds.Double) (out : List Destination)
      → length out ≤ max_destinations
      → All IsFresh out
      → (length (load_destinations ds max_destinations i xs out) ≤ max_destinations)
        × All IsFresh (load_destinations ds max_destinations i xs out)
  unfolding load_destinations
  load_destinations-bounds most i nil out h k = (h, k)
  load_destinations-bounds most i (cons x xs) out h k =
      if-cases (λ (l : List Destination). (length l ≤ most) × All IsFresh l) (ltb (length out) most)
        _ _
        (λ room.
          load_destinations-bounds most (i + 1) xs (add_found (load_entry ds i x) out)
            (let l = length-add_found (load_entry ds i x) out in ground (arith, l))
            (add_found-IsFresh (load_entry ds i x) out (load_entry-IsFresh i x) k))
        (λ full. (h, k))

  client_of-IsLoaded :
      (max_destinations : ℕ) (path id : Bytes) (document : Json ds.Double)
      → IsLoaded max_destinations (client_of ds max_destinations path id document)
  unfolding client_of
  client_of-IsLoaded most path id document =
      let interval =
        clamp_bounds (to_int ds (get document (codes "interval_ms")) (pos 1000)) 100 3600000
          (omega arith) in
      let timeout =
        clamp_bounds (to_int ds (get document (codes "timeout_ms")) (pos 3000)) 50 60000
          (omega arith) in
      let list = get document (codes "destinations") in
      let found : (length (client_of ds most path id document).destinations ≤ most)
          × All IsFresh (client_of ds most path id document).destinations =
        if-cases (λ (l : List Destination). (length l ≤ most) × All IsFresh l) (not (is_array list))
          _ _ (λ h. (omega arith, tt))
          (λ h. load_destinations-bounds most 0 (items list) [] (omega arith) tt) in
      record {
        interval_low = omega (arith, interval);
        interval_high = omega (arith, interval);
        timeout_low = omega (arith, timeout);
        timeout_high = omega (arith, timeout);
        few = found.0;
        fresh = found.1;
      }

  -- Whatever a client's file holds, if a client is loaded of it, its interval is between 0.1 and
  -- 3600 seconds and its maximum wait between 0.05 and 60; it has no more destinations than the
  -- limit, and each of these has an identifier, an address with no white space round it, a threshold
  -- of at least 1 and at most 60000000, a sensitivity of at most 1000, and no prober and no state yet.
  pub load_client_file-IsLoaded :
      (max_destinations : ℕ) (path id : Bytes) (text : Option Bytes)
      → LoadedIf max_destinations (load_client_file ds max_destinations path id text)
  unfolding load_client_file
  load_client_file-IsLoaded most path id none = tt
  load_client_file-IsLoaded most path id (some text) =
      if-cases (LoadedIf most) (not (is_object (document_of ds (parse ds text)))) _ _ (λ h. tt)
        (λ h. client_of-IsLoaded most path id (document_of ds (parse ds text)))
