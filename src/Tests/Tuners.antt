-- ===== src/Tests/Tuners.antt =====
-- Two configurations with two samples each.
use auto_pas.Prelude.{
  ℕ, ◌+◌, ◌≡◌, refl, inl, inr, ◌<◌, true, false, ltb, ◌==◌, some, List, [], ◌∷◌, length, get_elem?,
  replicate, arith,
}
use auto_pas.Prelude.Int.{pos}
use auto_pas.Prelude.Classes.{nat_eq}
use auto_pas.Tuning.Optimum.{fastest_abs}
use auto_pas.Tuning.Strategy.{ok}
use auto_pas.Tuning.FullSearch.{FullSearch, full_search, select_optimal_configuration}
use auto_pas.Tuning.FullSearch.Optimal.{In, AtLeast, select_optimal_configuration_lem}
use auto_pas.Tuning.Tuner.{AutoTuner, Numerics, will_rebuild_neighbor_lists}
use auto_pas.Tuning.Pipeline.{
  LogicHandler, Iteration, select_configuration, iterate_pairwise_pipeline,
}
use auto_pas.Tuning.Pipeline.Start.{AtStart, fresh, fresh-InPhase}
use auto_pas.Tuning.Pipeline.Run.{run, AllFine, StandsAtBest, full_search_phase}
use auto_pas.Tuning.Pipeline.Reopen.{phase_reopens}
use auto_pas.Tuning.Pipeline.Rebuild.{will_rebuild-InPhase}

abbrev two_configs : List ℕ
two_configs = 10 ∷ 20 ∷ []

abbrev with_times : FullSearch ℕ
with_times = record {
  search_space = two_configs;
  current_config = 2;
  traversal_times = (10, 7) ∷ (20, 5) ∷ [];
}

select_optimal_configuration_example :
    (c : ℕ) × (t : ℕ) × (i : ℕ) × (select_optimal_configuration with_times
      ≡ ok (record with_times { current_config = i }))
    × (get_elem? two_configs i ≡ some c)
    × (i < length two_configs)
    × In (c, t) with_times.traversal_times
    × AtLeast t with_times.traversal_times
select_optimal_configuration_example =
    select_optimal_configuration_lem with_times (omega arith) (λ none_yet. cc none_yet)
      (inl refl, (inr (inl refl), tt))

abbrev whole_numbers : Numerics ℕ
whole_numbers = record { less = ltb; zero_d = 0; smooth_last_point = λ points. pos 3 }

abbrev new_tuner : AutoTuner (FullSearch ℕ) ℕ ℕ
new_tuner = record {
  strategy = record { search_space = two_configs; current_config = 0; traversal_times = [] };
  selector_strategy = fastest_abs;
  iteration = 0;
  tuning_interval = 100;
  iterations_since_tuning = 100;
  rebuild_frequency = 10;
  max_samples = 2;
  max_difference_for_bucket = 0;
  weight_for_max_density = 0;
  homogeneities = [];
  max_densities = [];
  samples_not_rebuilding = pos 0 ∷ pos 0 ∷ [];
  samples_rebuilding = [];
  evidence = [];
}

abbrev new_handler : LogicHandler (FullSearch ℕ) ℕ ℕ
new_handler = record {
  tuner = new_tuner;
  neighbor_list_rebuild_frequency = 10;
  lists_are_valid = false;
  steps_since_last_list_rebuild = 0;
}

abbrev takes : ℕ → Iteration ℕ ℕ
takes n = record {
  relevant = true;
  applicable = λ c. (true, false);
  homogeneity = 0;
  max_density = 0;
  measured = pos n;
}

abbrev four : List (Iteration ℕ ℕ)
four = takes 7 ∷ takes 6 ∷ takes 4 ∷ takes 5 ∷ []

new-AtStart : AtStart two_configs 2 new_tuner
new-AtStart = record {
  total = refl;
  wanted = omega arith;
  space = refl;
  several = omega arith;
  full = omega arith;
  first = refl;
  frequency = λ h. absurd (omega arith);
  room = omega arith;
}

four-AllFine : AllFine four
four-AllFine =
    ((refl, λ c. refl), ((refl, λ c. refl), ((refl, λ c. refl), ((refl, λ c. refl), tt))))

full_search_phase_example :
    (h' : LogicHandler (FullSearch ℕ) ℕ ℕ) × (h'' : LogicHandler (FullSearch ℕ) ℕ ℕ) × (c : ℕ)
    × (i : ℕ) × (run whole_numbers 1 four new_handler ≡ ok (h', replicate (length four) true))
    × (iterate_pairwise_pipeline full_search whole_numbers 1 (takes 3) h' ≡ ok (h'', c, false))
    × StandsAtBest two_configs c i h''.tuner
full_search_phase_example =
    full_search_phase whole_numbers two_configs 2 0 four (takes 3) new_handler new-AtStart refl
      four-AllFine (refl, λ c. refl)

phase_reopens_example :
    (h' : LogicHandler (FullSearch ℕ) ℕ ℕ) × (h'' : LogicHandler (FullSearch ℕ) ℕ ℕ) × (c : ℕ)
    × (i : ℕ) × (run whole_numbers 1 four new_handler ≡ ok (h', replicate (length four) true))
    × (iterate_pairwise_pipeline full_search whole_numbers 1 (takes 3) h' ≡ ok (h'', c, false))
    × (get_elem? two_configs i ≡ some c)
    × ((d : ℕ)
        → get_elem? two_configs (i + 1) ≡ some d
        → (u : AutoTuner (FullSearch ℕ) ℕ ℕ) × (select_configuration full_search whole_numbers 1
              (takes 4)
              h''.tuner
            ≡ ok (u, d, true)))
phase_reopens_example =
    phase_reopens whole_numbers two_configs 2 0 four (takes 3) (takes 4) new_handler new-AtStart
      refl four-AllFine (refl, λ c. refl) (refl, λ c. refl)

will_rebuild_example :
    will_rebuild_neighbor_lists full_search whole_numbers (fresh new_tuner) ≡ (0 == 0)
will_rebuild_example =
    will_rebuild-InPhase whole_numbers two_configs 2 0 0 (fresh new_tuner)
      (fresh-InPhase whole_numbers two_configs 2 new_tuner new-AtStart) (omega arith)
