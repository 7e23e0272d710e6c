-- ===== src/Tuning/SearchSpace.antt =====
-- src/autopas/selectors/tuningStrategy/SetSearchSpaceBasedTuningStrategy.cpp:
-- `populateSearchSpace` and `removeN3Option`, and the order of configurations in Configuration.cpp.
pub mod Emplaced
pub mod Populated
pub mod Removal
use auto_pas.Prelude.{
  ℕ, zero, suc, ◌+◌, ◌-◌, Bool, not, ◌&&◌, ◌||◌, ltb, ◌==◌, if◌then◌else◌, none, some, List, [],
  ◌∷◌,
}
use auto_pas.Rules.Patterns.{Configuration}
use auto_pas.Options.{all_compatible_traversals, intersection, get_applicable_load_estimators}
use auto_pas.Tuning.Strategy.{
  Outcome, ok, err, empty_search_space, no_valid_configurations, unknown_container, ◌>>=◌,
}
use auto_pas.Tuning.FullSearch.{FullSearch}

-- `operator<` on tuples.
abbrev pub then_less : Bool → Bool → Bool → Bool
then_less less greater rest = less || not greater && rest

module _ {D : Type 0} (less_d : D → D → Bool) where
  unfoldable pub config_less : Configuration D → Configuration D → Bool
  config_less a b = then_less (ltb a.container b.container) (ltb b.container a.container) (
      then_less (less_d a.cell_size_factor b.cell_size_factor)
        (less_d b.cell_size_factor a.cell_size_factor)
        (then_less (ltb a.traversal b.traversal) (ltb b.traversal a.traversal) (
          then_less (ltb a.load_estimator b.load_estimator) (ltb b.load_estimator a.load_estimator)
            (then_less (ltb a.data_layout b.data_layout) (ltb b.data_layout a.data_layout)
              (ltb a.newton3 b.newton3)))))

  -- `std::set::emplace`.
  unfoldable pub emplace : Configuration D → List (Configuration D) → List (Configuration D)
  unfolding config_less
  emplace c [] = c ∷ []
  emplace c (x ∷ xs) =
      let rest = emplace c xs in
      if config_less c x then c ∷ x ∷ xs else (if config_less x c then x ∷ rest else x ∷ xs)

-- A `for` loop over a set.
abbrev pub for_each : {A S : Type 0} → List A → (A → S → S) → S → S
for_each [] body s = s
for_each (x ∷ xs) body s = for_each xs body (body x s)

module _ {D : Type 0} (less_d : D → D → Bool) where
  abbrev pub Space : Type 0
  Space = List (Configuration D)

  -- The inner loops, for one container and the traversals that it allows.
  unfoldable pub populate_container : ℕ → List ℕ → List D → List ℕ → List ℕ → List ℕ → Space → Space
  unfolding emplace get_applicable_load_estimators
  populate_container k applicable factors estimators layouts newton3_options space =
      for_each factors
        (λ factor. for_each applicable λ t.
          for_each (get_applicable_load_estimators k t estimators) λ estimator.
            for_each layouts λ layout. for_each newton3_options λ n3 s.
              emplace less_d
                record {
                  container = k;
                  traversal = t;
                  load_estimator = estimator;
                  data_layout = layout;
                  newton3 = n3;
                  cell_size_factor = factor;
                }
                s)
        space

  unfoldable pub populate :
      List ℕ → List D → List ℕ → List ℕ → List ℕ → List ℕ → Space → Outcome Space
  unfolding populate_container all_compatible_traversals intersection
  populate [] factors traversals estimators layouts newton3_options space = ok space
  populate (k ∷ ks) factors traversals estimators layouts newton3_options space =
      elim (all_compatible_traversals k) [
        | none ↦ err unknown_container
        | some compatible ↦ populate ks factors traversals estimators layouts newton3_options (
            populate_container k (intersection traversals compatible) factors estimators layouts
              newton3_options space)
      ]

  abbrev pub not_empty : Space → Outcome (FullSearch (Configuration D))
  not_empty [] = err no_valid_configurations
  not_empty (c ∷ cs) =
      ok (record { search_space = c ∷ cs; current_config = 0; traversal_times = [] })

  unfoldable pub populate_search_space :
      List ℕ → List D → List ℕ → List ℕ → List ℕ → List ℕ → Outcome (FullSearch (Configuration D))
  unfolding populate
  populate_search_space containers factors traversals estimators layouts newton3_options = do
    space ← populate containers factors traversals estimators layouts newton3_options []
    not_empty space

module _ {D : Type 0} where
  -- The loop: `i` is the position of its iterator in the set as it is, `current` that of the current
  -- configuration. An erased current configuration gives way to the next one, at the same position.
  unfoldable pub remove_loop : ℕ → List (Configuration D) → ℕ → ℕ → List (Configuration D) × ℕ
  remove_loop bad [] i current = ([], current)
  remove_loop bad (c ∷ cs) i current =
      let erased = remove_loop bad cs i (if ltb i current then current - 1 else current) in
      let kept = remove_loop bad cs (i + 1) current in
      if c.newton3 == bad then erased else (c ∷ kept.0, kept.1)

  unfoldable pub remove_n3_option :
      ℕ → FullSearch (Configuration D) → Outcome (FullSearch (Configuration D))
  unfolding remove_loop
  remove_n3_option bad s =
      let r = remove_loop bad s.search_space 0 s.current_config in
      elim r.0 [
        | [] ↦ err empty_search_space
        | c ∷ cs ↦ ok (record s { search_space = r.0; current_config = r.1 })
      ]
