-- ===== src/Tuning/FullSearch.antt =====
-- src/autopas/selectors/tuningStrategy/FullSearch.cpp over
-- SetSearchSpaceBasedTuningStrategy.cpp. A configuration is a value of any type with equality.
-- `std::set` is the list of its elements in their order, an iterator into it the number of
-- elements before it.
pub mod Optimal
pub mod Times
use auto_pas.Prelude.{
  ℕ, suc, ◌+◌, ◌-◌, Bool, true, false, ltb, ◌==◌, if◌then◌else◌, Option, none, some, List, [], ◌∷◌,
  length, get_elem?, word,
}
use auto_pas.Prelude.Int.{ℤ, pos, negsuc, to_size_t}
use auto_pas.Prelude.Classes.{Eq}
use auto_pas.Tuning.Strategy.{
  TuningStrategy, Outcome, ok, err, ◌>>=◌, or_throw, no_measurements, optimum_not_found, undefined,
  out_of_range,
}

-- The conversion from `long` to `size_t`.
pub record FullSearch (C : Type 0) : Type 0 where
  pub search_space : List C
  pub current_config : ℕ
  -- `std::unordered_map`: its order is unspecified, so nothing may depend on the order here.
  pub traversal_times : List (C × ℕ)

module _ {C : Type 0} ⦃e : Eq C⦄ where
  unfoldable pub put_time : C → ℕ → List (C × ℕ) → List (C × ℕ)
  put_time c t [] = (c, t) ∷ []
  put_time c t ((k, u) ∷ m) = if e.beq k c then (k, t) ∷ m else (k, u) ∷ put_time c t m

  -- `std::min_element` over the map.
  unfoldable pub fastest_from : C × ℕ → List (C × ℕ) → C × ℕ
  fastest_from best [] = best
  fastest_from best (x ∷ xs) = fastest_from (if ltb x.1 best.1 then x else best) xs

  -- `std::set::find`: the position, or the end.
  unfoldable pub find_config : C → List C → ℕ
  find_config c [] = 0
  find_config c (k ∷ ks) = if e.beq k c then 0 else suc (find_config c ks)

  unfoldable pub select_among : FullSearch C → List (C × ℕ) → Outcome (FullSearch C)
  unfolding fastest_from find_config
  select_among s [] = err no_measurements
  select_among s (x ∷ xs) =
      let found = find_config (fastest_from x xs).0 s.search_space in
      if found == length s.search_space
      then err optimum_not_found
      else ok (record s { current_config = found })

  unfoldable pub select_optimal_configuration : FullSearch C → Outcome (FullSearch C)
  unfolding select_among
  select_optimal_configuration s =
      if length s.search_space == 1
      then ok (record s { current_config = 0 })
      else select_among s s.traversal_times

  -- Whether the rejected configuration was invalid makes no difference. Stepping past the end
  -- is undefined.
  unfoldable pub tune : Bool → FullSearch C → Outcome (FullSearch C × Bool)
  unfolding select_optimal_configuration
  tune current_invalid s =
      let next = record s { current_config = s.current_config + 1 } in
      if ltb s.current_config (length s.search_space)
      then (if next.current_config == length s.search_space
          then (do optimal ← select_optimal_configuration next; ok (optimal, false))
          else ok (next, true))
      else err undefined

  unfoldable pub get_current_configuration : FullSearch C → Outcome C
  get_current_configuration s = or_throw (get_elem? s.search_space s.current_config) undefined

  unfoldable pub add_evidence : ℤ → ℕ → FullSearch C → Outcome (FullSearch C)
  unfolding get_current_configuration put_time to_size_t
  add_evidence time iteration s = do
    c ← get_current_configuration s
    ok (record s { traversal_times = put_time c (to_size_t time) s.traversal_times })

  unfoldable pub find_time : C → List (C × ℕ) → Option ℕ
  find_time c [] = none
  find_time c ((k, t) ∷ m) = if e.beq k c then some t else find_time c m

  -- The time as `size_t`; it is returned as `long`.
  unfoldable pub get_evidence : C → FullSearch C → Outcome ℕ
  unfolding find_time
  get_evidence c s = or_throw (find_time c s.traversal_times) out_of_range

  unfoldable pub reset : ℕ → FullSearch C → FullSearch C
  reset iteration s = record s { traversal_times = []; current_config = 0 }

  unfoldable pub search_space_is_trivial : FullSearch C → Bool
  search_space_is_trivial s = length s.search_space == 1

  unfoldable pub search_space_is_empty : FullSearch C → Bool
  search_space_is_empty s = length s.search_space == 0

  -- `FullSearch` as a strategy of the tuner.
  unfoldable pub full_search : {D : Type 0} → TuningStrategy (FullSearch C) C D
  unfolding tune add_evidence get_current_configuration reset search_space_is_trivial
      search_space_is_empty
  full_search = record {
    tune = tune;
    add_evidence = add_evidence;
    get_current_configuration = get_current_configuration;
    reset = reset;
    mpi_reset = none;
    search_space_is_trivial = search_space_is_trivial;
    search_space_is_empty = search_space_is_empty;
    needs_live_info = λ s. false;
    receive_live_info = λ s. s;
    smoothed_homogeneity_and_max_density_needed = λ s. false;
  }
