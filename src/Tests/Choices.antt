-- ===== src/Tests/Choices.antt =====
-- The choice of configurations and the arithmetic behind it at concrete inputs.
use auto_pas.Prelude.{
  ℕ, ◌-◌, ◌/◌, ◌<◌, ◌≤◌, ◌≡◌, ◌↔◌, ◌⊎◌, refl, not, length, true, false, ltb, some, List, [], ◌∷◌,
  In, get_elem?, arith,
}
use auto_pas.Prelude.Int.{ℤ, pos, negsuc, ◌≤ℤ◌, ltb_ℤ}
use auto_pas.Traversal.Loops.{count}
use auto_pas.Tuning.Optimum.{optimum_value, fastest_abs, fastest_median}
use auto_pas.Tuning.Optimum.Selected.{optimum_value-In}
use auto_pas.Prelude.Classes.{nat_eq}
use auto_pas.Rules.Vm.{compute_binary, size_cell, Program, done, fault, outside}
use auto_pas.Rules.Patterns.{Configuration, ConfigurationOrder}
use auto_pas.Rules.Patterns.Equality.{configuration_eq}
use auto_pas.Rules.Tuning.Verify.{verify_orders}
use auto_pas.Rules.Tuning.Verify.Comparisons.{IsViolation, IsCompared}
use auto_pas.Rules.Tuning.Verify.Reports.{verify_orders-IsViolation}
use auto_pas.Rules.Syntax.{Expression, op_add, literal, variable, binary}
use auto_pas.Rules.Syntax.Context.{CodeGenerationContext}
use auto_pas.Rules.Generate.{type_of, get_type, generate_program}
use auto_pas.Rules.Types.{eval-get_type}
use auto_pas.Rules.Meaning.{eval}
use auto_pas.Rules.Compile.{scoped_all}
use auto_pas.Rules.Compile.Scoping.{generate_program-scoped}
use auto_pas.Rules.Tuning.{TuningError, context_of}
use auto_pas.Options.{
  linked_cells, direct_sum, lc_c08, ds_sequential, all_compatible_traversals,
  all_compatible_containers, get_applicable_load_estimators,
}
use auto_pas.Options.Compatible.{all_compatible_containers-In}
use auto_pas.SafeMath.{Limits, safe_add, safe_sub, safe_mul, plus_ℤ, minus_ℤ, times_ℤ}
use auto_pas.SafeMath.Saturation.{clamp, saturation_lem}
use auto_pas.Tuning.Strategy.{ok, err, empty_search_space}
use auto_pas.Tuning.FullSearch.{FullSearch, find_time}
use auto_pas.Tuning.SearchSpace.{populate_search_space, remove_n3_option}
use auto_pas.Tuning.SearchSpace.Populated.{populate_search_space-In}
use auto_pas.Tuning.SearchSpace.Removal.{without, next_kept, remove_n3_option-next}
use auto_pas.Tests.Machines.{whole_doubles}
use auto_pas.Tests.Programs.{rules, pattern, config, prefers}

abbrev sum : Expression ℕ ℕ
sum = binary op_add (literal (size_cell 3)) (variable 5 (literal (size_cell 1)))

eval-get_type_example : type_of {D = ℕ} (size_cell 7) ≡ get_type sum
unfolding eval get_type compute_binary
eval-get_type_example =
    eval-get_type whole_doubles (λ n. size_cell 4) sum (size_cell 7) (tt, refl) refl

-- The variable 5 is not known without live info.
generate_program-scoped_example :
    ((scoped_all (context_of {D = ℕ} []).address_environment rules ≡ true)
      × ((c' : CodeGenerationContext ℕ ℕ) × (p : Program ℕ) × (generate_program rules
              (context_of [])
            ≡ done (c', p))))
    ⊎ ((scoped_all (context_of {D = ℕ} []).address_environment rules ≡ false)
        × (generate_program rules (context_of []) ≡ fault outside))
generate_program-scoped_example = generate_program-scoped rules (context_of [])

abbrev long : Limits
long = record { least = negsuc 9223372036854775807; greatest = pos 9223372036854775807 }

saturation_lem_example :
    (safe_add long (pos 9223372036854775800) (pos 100) (pos 0) (pos 1)
      ≡ clamp long (pos 0) (pos 1) (plus_ℤ (pos 9223372036854775800) (pos 100)))
    × (safe_sub long (pos 9223372036854775800) (pos 100) (pos 0) (pos 1)
        ≡ clamp long (pos 0) (pos 1) (minus_ℤ (pos 9223372036854775800) (pos 100)))
    × (safe_mul long (pos 9223372036854775800) (pos 100) (pos 0) (pos 1)
        ≡ clamp long (pos 0) (pos 1) (times_ℤ (pos 9223372036854775800) (pos 100)))
saturation_lem_example =
    saturation_lem long (omega arith, omega arith) (pos 9223372036854775800) (pos 100) (pos 0)
      (pos 1) (omega arith, omega arith) (omega arith, omega arith)

all_compatible_containers-In_example :
    In linked_cells (all_compatible_containers lc_c08)
    ↔ ((ts : List ℕ) × (all_compatible_traversals linked_cells ≡ some ts) × In lc_c08 ts)
all_compatible_containers-In_example = all_compatible_containers-In lc_c08 linked_cells

abbrev choice : ℕ → ℕ → ℕ → Configuration ℕ
choice container traversal newton3 = record {
  container = container;
  traversal = traversal;
  load_estimator = 0;
  data_layout = 1;
  newton3 = newton3;
  cell_size_factor = 1;
}

abbrev four : FullSearch (Configuration ℕ)
four = record {
  search_space = choice 0 0 0 ∷ choice 0 0 1 ∷ choice 1 6 0 ∷ choice 1 6 1 ∷ [];
  current_config = 0;
  traversal_times = [];
}

populates :
    populate_search_space ltb
      (linked_cells ∷ direct_sum ∷ [])
      (1 ∷ [])
      (lc_c08 ∷ ds_sequential ∷ [])
      (0 ∷ 1 ∷ [])
      (1 ∷ [])
      (0 ∷ 1 ∷ [])
    ≡ ok four
unfolding populate_search_space
populates = refl

populate_search_space-In_example :
    (In (choice 1 6 1) four.search_space ↔ (
      In {A = ℕ} 1 (linked_cells ∷ direct_sum ∷ [])
      × In {A = ℕ} 1 (1 ∷ [])
      × In {A = ℕ} 6 (lc_c08 ∷ ds_sequential ∷ [])
      × ((compatible : List ℕ) × (all_compatible_traversals 1 ≡ some compatible)
          × In {A = ℕ} 6 compatible)
      × In {A = ℕ} 0 (get_applicable_load_estimators 1 6 (0 ∷ 1 ∷ []))
      × In {A = ℕ} 1 (1 ∷ [])
      × In {A = ℕ} 1 (0 ∷ 1 ∷ [])))
    × (four.current_config ≡ 0)
    × ((first : Configuration ℕ) × (get_elem? four.search_space 0 ≡ some first))
    × (four.traversal_times ≡ [])
populate_search_space-In_example =
    populate_search_space-In ltb (λ a b h k. ground (arith, h, k)) (linked_cells ∷ direct_sum ∷ [])
      (1 ∷ []) (lc_c08 ∷ ds_sequential ∷ []) (0 ∷ 1 ∷ []) (1 ∷ []) (0 ∷ 1 ∷ []) four (choice 1 6 1)
      populates

remove_n3_option-next_example :
    ((without 0 four.search_space ≡ []) × (remove_n3_option 0 four ≡ err empty_search_space))
    ⊎ ((s' : FullSearch (Configuration ℕ)) × (remove_n3_option 0 four ≡ ok s')
        × (s'.search_space ≡ without 0 four.search_space)
        × (get_elem? s'.search_space s'.current_config
            ≡ next_kept 0 four.search_space four.current_config))
remove_n3_option-next_example = remove_n3_option-next 0 four

-- The last configuration is current and goes: no configuration is current then.
at_the_end :
    remove_n3_option 1 (record four { current_config = 3 })
    ≡ ok (record {
      search_space = choice 0 0 0 ∷ choice 1 6 0 ∷ [];
      current_config = 2;
      traversal_times = [];
    })
unfolding remove_n3_option
at_the_end = refl

-- The configuration 2 should be slower than 1, and is not.
abbrev measured : List (Configuration ℕ × ℕ)
measured = (config 1, 9) ∷ (config 2, 5) ∷ []

verify_orders-IsViolation_example :
    (errors : List (TuningError ℕ)) × (verify_orders (config 2) measured (prefers 1 2 ∷ [])
      ≡ ok errors)
    × ((r : TuningError ℕ)
        → In r errors ↔ (
            (o : ConfigurationOrder ℕ) × In o (prefers 1 2 ∷ [])
            × IsViolation (config 2) 5 measured r o
            × IsCompared (config 2) 5 measured r o))
unfolding find_time
verify_orders-IsViolation_example =
    verify_orders-IsViolation (config 2) 5 measured (prefers 1 2 ∷ []) refl

-- Both patterns match the configuration 2, which should be faster than 3 and is not: no call of the
-- printer says so when 2 is measured last.
unreported_run :
    verify_orders
      (config 2)
      ((config 2, 9) ∷ (config 3, 5) ∷ [])
      (record (prefers 1 2) { greater = pattern (1 ∷ 2 ∷ []); smaller = pattern (2 ∷ 3 ∷ []) } ∷ [])
    ≡ ok []
unfolding verify_orders
unreported_run = refl

abbrev more : List ℤ
more = pos 3 ∷ pos 9 ∷ []

optimum_value-In_example :
    let samples = pos 5 ∷ more in
    let median = optimum_value samples fastest_median in
    In (optimum_value samples fastest_abs) samples
    × ((x : ℤ) → In x samples → optimum_value samples fastest_abs ≤ℤ x)
    × In median samples
    × (count (λ x. ltb_ℤ x median) samples ≤ (length samples - 1) / 2)
    × ((length samples - 1) / 2 < count (λ x. not (ltb_ℤ median x)) samples)
optimum_value-In_example = optimum_value-In (pos 5) more
