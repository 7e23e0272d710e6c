-- ===== src/Rules/Tuning.antt =====
-- src/autopas/selectors/tuningStrategy/ruleBasedTuning/RuleBasedTuning.h: a full search over the
-- configurations that the rules leave. The parsed rule file is an argument, the errors of the verify
-- mode are the list of the calls of the printer, and logging is left out. Times are of unbounded
-- size.
pub mod Globals
pub mod Stores
pub mod Applied
pub mod Ending
pub mod Restricts
pub mod Verify
use auto_pas.Prelude.{
  ℕ, suc, Bool, true, false, not, ◌&&◌, ◌||◌, ltb, if◌then◌else◌, Option, none, some, List, [], ◌∷◌,
  ◌++◌, map, length, get_elem?,
}
use auto_pas.Prelude.Int.{ℤ, pos, ◌+ℤ◌}
use auto_pas.Prelude.Classes.{Eq}
use auto_pas.Rules.Vm.{MemoryCell, Reply, done, fault, outside, ◌>>=◌, Doubles}
use auto_pas.Rules.Execute.{execute}
use auto_pas.Rules.Patterns.{
  Configuration, ConfigurationPattern, ConfigurationOrder, matches, have_equal_same_properties,
}
use auto_pas.Rules.Syntax.{literal, Statements}
use auto_pas.Rules.Syntax.Context.{
  CodeGenerationContext, new_context, add_global_variable, smaller_configuration_pattern_by_index,
}
use auto_pas.Rules.Generate.{generate_program}
use auto_pas.Tuning.FullSearch.{FullSearch}

-- A call of the printer: the order, the configuration that was faster, and the one that should have
-- been, each with its time.
pub record TuningError (D : Type 0) : Type 0 where
  pub violated : ConfigurationOrder D
  pub actual_better_config : Configuration D
  pub better_runtime : ℕ
  pub should_be_better_config : Configuration D
  pub should_be_better_runtime : ℕ

pub record RuleBasedTuning (N D : Type 0) : Type 0 where
  pub search : FullSearch (Configuration D)
  pub original_search_space : List (Configuration D)
  pub removed_configurations : List (Configuration D)
  pub last_applicable_configuration_orders : List (ConfigurationOrder D)
  pub verify_mode_enabled : Bool
  pub tuning_time : ℤ
  pub would_have_skipped_tuning_time : ℤ
  pub tuning_time_lifetime : ℤ
  pub would_have_skipped_tuning_time_lifetime : ℤ
  pub current_live_info : List (N × MemoryCell D)

module _ {N D : Type 0} ⦃e : Eq N⦄ where
  -- The live info as the variables that are known before the program.
  unfoldable pub add_globals :
      List (N × MemoryCell D) → CodeGenerationContext N D → CodeGenerationContext N D
  unfolding add_global_variable
  add_globals [] c = c
  add_globals ((n, v) ∷ infos) c = add_globals infos (add_global_variable n (literal v) c)

  unfoldable pub context_of : List (N × MemoryCell D) → CodeGenerationContext N D
  unfolding add_globals new_context
  context_of infos = add_globals infos (new_context [])

  abbrev pub initial_stack : List (N × MemoryCell D) → List (MemoryCell D)
  initial_stack [] = []
  initial_stack ((n, v) ∷ infos) = v ∷ initial_stack infos

  -- The patterns to remove, and their orders.
  unfoldable pub applicable :
      CodeGenerationContext N D
      → List ℕ
      → Reply (List (ConfigurationPattern D) × List (ConfigurationOrder D))
  unfolding smaller_configuration_pattern_by_index
  applicable c [] = done ([], [])
  applicable c (i ∷ is) = do
    pattern ← smaller_configuration_pattern_by_index i c
    o ← elim (get_elem? c.configuration_orders i) as (λ _. Reply (ConfigurationOrder D)) [
      | none ↦ fault outside
      | some o ↦ done o
    ]
    rest ← applicable c is
    done (pattern ∷ rest.0, o ∷ rest.1)

module _ {D : Type 0} ⦃d : Eq D⦄ where
  unfoldable pub any_matches : List (ConfigurationPattern D) → Configuration D → Bool
  unfolding matches
  any_matches [] c = false
  any_matches (p ∷ ps) c = matches p c || any_matches ps c

  -- `remove_if`: what is left, and what was removed.
  unfoldable pub remove_matching :
      List (ConfigurationPattern D)
      → List (Configuration D)
      → List (Configuration D) × List (Configuration D)
  unfolding any_matches
  remove_matching ps [] = ([], [])
  remove_matching ps (c ∷ cs) =
      let rest = remove_matching ps cs in
      if any_matches ps c then (rest.0, c ∷ rest.1) else (c ∷ rest.0, rest.1)

module _ {N D : Type 0} ⦃e : Eq N⦄ ⦃d : Eq D⦄ where
  -- The search space gets the configurations that are left, unless it is only verified. The iterator
  -- to the current configuration is not set again: it is one of the set that was thrown away, for
  -- which stands a position that no configuration has.
  unfoldable pub restrict :
      List (ConfigurationPattern D) → RuleBasedTuning N D → RuleBasedTuning N D
  unfolding remove_matching
  restrict ps s =
      let split = remove_matching ps s.original_search_space in
      let removed = record s { removed_configurations = split.1 } in
      if s.verify_mode_enabled then removed else record removed {
        search = record s.search { search_space = split.0; current_config = suc (length split.0) };
      }

  unfoldable pub apply_outputs :
      CodeGenerationContext N D
      → Reply (List ℕ)
      → RuleBasedTuning N D
      → Reply (RuleBasedTuning N D × List (ConfigurationOrder D))
  unfolding restrict applicable
  apply_outputs c outputs s = do
    is ← outputs
    found ← applicable c is
    done (restrict found.0 s, found.1)

  -- `none`: the rules are still running after that many rounds.
  unfoldable pub apply_rules :
      Doubles D
      → ℕ
      → Statements N D
      → RuleBasedTuning N D
      → Option (Reply (RuleBasedTuning N D × List (ConfigurationOrder D)))
  unfolding apply_outputs context_of generate_program execute
  apply_rules doubles fuel tree s = elim (generate_program tree (context_of s.current_live_info)) [
    | fault problem ↦ some (fault problem)
    | done (c, program) ↦ elim (execute doubles fuel program (initial_stack s.current_live_info)) [
      | none ↦ none
      | some outputs ↦ some (apply_outputs c outputs s)
    ]
  ]

  unfoldable pub receive_live_info :
      Doubles D
      → ℕ
      → Statements N D
      → List (N × MemoryCell D)
      → RuleBasedTuning N D
      → Option (Reply (RuleBasedTuning N D))
  unfolding apply_rules
  receive_live_info doubles fuel tree infos s =
      elim (apply_rules doubles fuel tree (record s { current_live_info = infos })) [
        | none ↦ none
        | some r ↦ some (do
          applied ← r
          done (record (applied.0) { last_applicable_configuration_orders = applied.1 }))
      ]
