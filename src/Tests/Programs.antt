-- ===== src/Tests/Programs.antt =====
-- A rule program with a variable, a condition and two orders, on live info with one number.
use auto_pas.Prelude.{In, ℕ, ◌+◌, ◌≡◌, ◌↔◌, ◌⊎◌, refl, true, false, some, List, [], ◌∷◌, arith}
use auto_pas.Prelude.Int.{pos}
use auto_pas.Prelude.Classes.{nat_eq}
use auto_pas.Rules.Vm.{Reply, size_cell, done}
use auto_pas.Rules.Patterns.{
  Configuration, ConfigurationPattern, ConfigurationOrder, matches, newton3,
}
use auto_pas.Rules.Syntax.{
  op_less, op_add, literal, variable, binary, define, if_then, order, Statements, none_left, next,
}
use auto_pas.Rules.Meaning.{run_statements}
use auto_pas.Rules.Compile.{scoped_all, code_of_statements}
use auto_pas.Rules.Tuning.{RuleBasedTuning, context_of, apply_rules, restrict}
use auto_pas.Rules.Tuning.Globals.{live_store}
use auto_pas.Rules.Tuning.Applied.{Settles, apply_rules-meaning}
use auto_pas.Rules.Tuning.Ending.{apply_rules-halts}
use auto_pas.Rules.Tuning.Restricts.{restrict-In}
use auto_pas.Tests.Machines.{whole_doubles}

abbrev pub pattern : List ℕ → ConfigurationPattern ℕ
pattern containers = record {
  containers = containers;
  traversals = [];
  load_estimators = [];
  data_layouts = [];
  newton3_options = [];
  cell_size_factors = [];
}

abbrev pub prefers : ℕ → ℕ → ConfigurationOrder ℕ
prefers better worse = record {
  greater = pattern (better ∷ []);
  smaller = pattern (worse ∷ []);
  same_properties = newton3 ∷ [];
}

-- define threshold = 10 + 1
-- if numParticles < threshold: 1 >= 2 endif
-- 3 >= 4
abbrev pub rules : Statements ℕ ℕ
rules = next (define 7 (binary op_add (literal (size_cell 10)) (literal (size_cell 1)))) (
    next
      (if_then
        (binary op_less (variable 5 (literal (size_cell 8))) (variable 7 (literal (size_cell 11))))
        (next (order (prefers 1 2)) none_left))
      (next (order (prefers 3 4)) none_left))

abbrev pub config : ℕ → Configuration ℕ
config container = record {
  container = container;
  traversal = 0;
  load_estimator = 0;
  data_layout = 0;
  newton3 = 0;
  cell_size_factor = 1;
}

abbrev start : RuleBasedTuning ℕ ℕ
start = record {
  search = record {
    search_space = config 1 ∷ config 2 ∷ config 3 ∷ config 4 ∷ [];
    current_config = 0;
    traversal_times = [];
  };
  original_search_space = config 1 ∷ config 2 ∷ config 3 ∷ config 4 ∷ [];
  removed_configurations = [];
  last_applicable_configuration_orders = [];
  verify_mode_enabled = false;
  tuning_time = pos 0;
  would_have_skipped_tuning_time = pos 0;
  tuning_time_lifetime = pos 0;
  would_have_skipped_tuning_time_lifetime = pos 0;
  current_live_info = (5, size_cell 8) ∷ [];
}

rules_apply :
    apply_rules whole_doubles 20 rules start
    ≡ some (
        done (
          restrict (pattern (2 ∷ []) ∷ pattern (4 ∷ []) ∷ []) start,
          prefers 1 2 ∷ prefers 3 4 ∷ [],
        ))
unfolding apply_rules restrict
rules_apply = refl

apply_rules-meaning_example :
    (rounds : ℕ) × ((fuel : ℕ)
      → Settles whole_doubles start
          (run_statements whole_doubles rules (live_store start.current_live_info))
          (apply_rules whole_doubles (rounds + fuel) rules start))
unfolding scoped_all context_of code_of_statements
apply_rules-meaning_example =
    apply_rules-meaning whole_doubles rules start (refl, tt) refl (omega arith) (omega arith)

restrict-In_example :
    (((start.verify_mode_enabled ≡ true)
        × ((restrict (pattern (2 ∷ []) ∷ []) start).search ≡ start.search))
      ⊎ ((start.verify_mode_enabled ≡ false)
          × (In (config 2) (restrict (pattern (2 ∷ []) ∷ []) start).search.search_space ↔ (
              In (config 2) start.original_search_space
              × ((p : ConfigurationPattern ℕ)
                  → In p (pattern (2 ∷ []) ∷ [])
                  → matches p (config 2) ≡ false)))))
    × (In (config 2) (restrict (pattern (2 ∷ []) ∷ []) start).removed_configurations ↔ (
        In (config 2) start.original_search_space
        × ((p : ConfigurationPattern ℕ) × In p (pattern (2 ∷ []) ∷ [])
            × (matches p (config 2) ≡ true))))
restrict-In_example = restrict-In (pattern (2 ∷ []) ∷ []) start (config 2)

apply_rules-halts_example :
    (r : Reply (RuleBasedTuning ℕ ℕ × List (ConfigurationOrder ℕ))) × (apply_rules whole_doubles 14
        rules start
      ≡ some r)
unfolding scoped_all context_of code_of_statements
apply_rules-halts_example =
    apply_rules-halts whole_doubles rules start 14 (refl, tt) refl (omega arith) (omega arith)
      (omega arith)
