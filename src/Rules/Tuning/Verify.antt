-- ===== src/Rules/Tuning/Verify.antt =====
-- src/autopas/selectors/tuningStrategy/ruleBasedTuning/RuleBasedTuning.h: `addEvidence` and `reset`,
-- and the verify mode, in which nothing is removed and the measured times are compared with the
-- rules. The map of the times is a list in the order in which it is gone through.
pub mod Comparisons
pub mod Reports
use auto_pas.Prelude.{
  ℕ, Bool, true, false, not, ◌&&◌, ◌||◌, ltb, if◌then◌else◌, List, [], ◌∷◌, ◌++◌,
}
use auto_pas.Prelude.Int.{ℤ, pos, ◌+ℤ◌}
use auto_pas.Prelude.Classes.{Eq}
use auto_pas.Rules.Patterns.{Configuration, ConfigurationOrder, matches, have_equal_same_properties}
use auto_pas.Rules.Tuning.{RuleBasedTuning, TuningError}
use auto_pas.Tuning.FullSearch.{FullSearch, find_time, get_current_configuration}
use auto_pas.Tuning.FullSearch
use auto_pas.Tuning.Strategy.{Outcome, ok, ◌>>=◌, or_throw, out_of_range}

unfoldable pub contradicts : Bool → ℕ → ℕ → Bool
contradicts should_be_better current_time time =
    should_be_better && ltb current_time time || not should_be_better && ltb time current_time

module _ {D : Type 0} ⦃d : Eq D⦄ where
  unfoldable pub report :
      Bool → ConfigurationOrder D → Configuration D → ℕ → Configuration D → ℕ → TuningError D
  report true o current current_time other time = record {
    violated = o;
    actual_better_config = current;
    better_runtime = current_time;
    should_be_better_config = other;
    should_be_better_runtime = time;
  }
  report false o current current_time other time = record {
    violated = o;
    actual_better_config = other;
    better_runtime = time;
    should_be_better_config = current;
    should_be_better_runtime = current_time;
  }

  -- The loop over the measured times.
  unfoldable pub compare_times :
      Bool
      → ConfigurationOrder D
      → Configuration D
      → ℕ
      → List (Configuration D × ℕ)
      → List (TuningError D)
  unfolding report contradicts matches have_equal_same_properties
  compare_times should_be_better o current current_time [] = []
  compare_times should_be_better o current current_time ((other, time) ∷ times) =
      let rest = compare_times should_be_better o current current_time times in
      let pattern = if should_be_better then o.greater else o.smaller in
      let applies = matches pattern other && have_equal_same_properties o current other in
      if applies && contradicts should_be_better current_time time
      then report should_be_better o current current_time other time ∷ rest
      else rest

module _ {D : Type 0} ⦃d : Eq D⦄ ⦃c : Eq (Configuration D)⦄ where
  unfoldable pub compared_errors :
      Bool
      → ConfigurationOrder D
      → Configuration D
      → List (Configuration D × ℕ)
      → Outcome (List (TuningError D))
  unfolding compare_times find_time
  compared_errors should_be_better o current times = do
    current_time ← or_throw (find_time current times) out_of_range
    ok (compare_times should_be_better o current current_time times)

  -- The loop over the orders that were applied.
  unfoldable pub verify_orders :
      Configuration D
      → List (Configuration D × ℕ)
      → List (ConfigurationOrder D)
      → Outcome (List (TuningError D))
  unfolding compared_errors matches
  verify_orders current times [] = ok []
  verify_orders current times (o ∷ os) = do
    let others = verify_orders current times os
    errors ←
        if matches o.smaller current
        then compared_errors true o current times
        else (if matches o.greater current then compared_errors false o current times else ok [])
    rest ← others
    ok (errors ++ rest)

module _ {D : Type 0} ⦃c : Eq (Configuration D)⦄ where
  unfoldable pub is_removed : Configuration D → List (Configuration D) → Bool
  is_removed k [] = false
  is_removed k (x ∷ xs) = c.beq x k || is_removed k xs

module _ {N D : Type 0} ⦃d : Eq D⦄ ⦃c : Eq (Configuration D)⦄ where
  unfoldable pub verify_current_config_time : RuleBasedTuning N D → Outcome (List (TuningError D))
  unfolding verify_orders get_current_configuration
  verify_current_config_time s = do
    current ← get_current_configuration s.search
    verify_orders current s.search.traversal_times s.last_applicable_configuration_orders

  -- The state, and the calls of the printer.
  unfoldable pub add_evidence :
      ℤ → ℕ → RuleBasedTuning N D → Outcome (RuleBasedTuning N D × List (TuningError D))
  unfolding verify_current_config_time is_removed get_current_configuration FullSearch.add_evidence
  add_evidence time iteration s = do
    search ← FullSearch.add_evidence time iteration s.search
    let timed = record s {
      search = search;
      tuning_time = s.tuning_time +ℤ time;
      tuning_time_lifetime = s.tuning_time_lifetime +ℤ time;
    }
    errors ← if s.verify_mode_enabled then verify_current_config_time timed else ok []
    current ← get_current_configuration search
    ok (
      if s.verify_mode_enabled && is_removed current s.removed_configurations
          then record timed {
            would_have_skipped_tuning_time = s.would_have_skipped_tuning_time +ℤ time;
            would_have_skipped_tuning_time_lifetime =
                s.would_have_skipped_tuning_time_lifetime +ℤ time;
          }
          else timed,
      errors,
    )

  unfoldable pub reset : ℕ → RuleBasedTuning N D → RuleBasedTuning N D
  unfolding FullSearch.reset
  reset iteration s = record s {
    search = FullSearch.reset iteration s.search;
    tuning_time = pos 0;
    would_have_skipped_tuning_time = pos 0;
  }
