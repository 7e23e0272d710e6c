-- ===== src/Tuning/Pipeline.antt =====
-- src/autopas/LogicHandler.h: one iteration as the auto tuner sees it (`selectConfiguration`,
-- `iteratePairwisePipeline`, `neighborListsAreValid`). What the container and the functor do in
-- an iteration is an input: whether a configuration is applicable, and what was measured.
pub mod Measure
pub mod Phase
pub mod Rebuild
pub mod Reopen
pub mod Run
pub mod Start
pub mod Steps
pub mod Sweep
use auto_pas.Prelude.{ℕ, zero, suc, ◌+◌, ◌%◌, ◌^◌, Bool, true, false, not, ◌||◌, leb, if◌then◌else◌}
use auto_pas.Prelude.Int.{ℤ}
use auto_pas.Prelude.Classes.{Eq}
use auto_pas.Tuning.Strategy.{TuningStrategy, Outcome, ok, err, ◌>>=◌, no_traversal, looping}
use auto_pas.Tuning.Tuner.{
  AutoTuner, Numerics, prepare_iteration, add_homogeneity_and_max_density, get_next_config,
  reject_config, add_measurement, bump_iteration_counters, will_rebuild_neighbor_lists,
}

pub record LogicHandler (S C D : Type 0) : Type 0 where
  pub tuner : AutoTuner S C D
  pub neighbor_list_rebuild_frequency : ℕ
  pub lists_are_valid : Bool
  pub steps_since_last_list_rebuild : ℕ

-- What an iteration meets. `applicable` is `isConfigurationApplicable`: whether there is a
-- traversal, and whether the rejection is for good. `measured` is the time or the energy.
pub record Iteration (C D : Type 0) : Type 0 where
  pub relevant : Bool
  pub applicable : C → Bool × Bool
  pub homogeneity : D
  pub max_density : D
  pub measured : ℤ

module _ {S C D : Type 0} ⦃e : Eq C⦄ (ops : TuningStrategy S C D) (nums : Numerics D) where
  -- The loop that rejects configurations until one is applicable.
  unfoldable pub until_applicable :
      ℕ → (C → Bool × Bool) → AutoTuner S C D × C × Bool → Outcome (AutoTuner S C D × C × Bool)
  until_applicable zero applicable r = err looping
  until_applicable (suc fuel) applicable (t, c, tuning) =
      let rejected =
        reject_config ops nums c (applicable c).1 t >>= until_applicable fuel applicable in
      if (applicable c).0 then ok (t, c, tuning) else rejected

  unfoldable pub select_configuration :
      ℕ → Iteration C D → AutoTuner S C D → Outcome (AutoTuner S C D × C × Bool)
  unfolding until_applicable
  select_configuration fuel it t =
      if it.relevant
      then (do
        let (t', live, homogeneity) = prepare_iteration ops nums t
        let informed =
            (if live then record t' { strategy = ops.receive_live_info t'.strategy } else t')
        let measured =
            (if homogeneity
              then add_homogeneity_and_max_density ops nums it.homogeneity it.max_density informed
              else informed)
        r ← get_next_config ops nums measured
        until_applicable fuel it.applicable r)
      else (do
        c ← ops.get_current_configuration t.strategy
        if (it.applicable c).0 then ok (t, c, false) else err no_traversal)

  -- `neighborListsAreValid` clears the flag where a rebuild is due.
  unfoldable pub neighbor_lists_are_valid : LogicHandler S C D → LogicHandler S C D
  neighbor_lists_are_valid h =
      if leb h.neighbor_list_rebuild_frequency h.steps_since_last_list_rebuild
        || will_rebuild_neighbor_lists ops nums h.tuner
      then record h { lists_are_valid = false }
      else h

  -- The end of a relevant iteration: the rebuild is noted and the counters go up. The steps are
  -- an `unsigned int`.
  unfoldable pub finish_iteration : LogicHandler S C D → LogicHandler S C D
  unfolding neighbor_lists_are_valid
  finish_iteration h =
      let h' = neighbor_lists_are_valid h in
      let steps = (if h'.lists_are_valid then h'.steps_since_last_list_rebuild else 0) in
      record h' {
        lists_are_valid = true;
        steps_since_last_list_rebuild = (steps + 1) % 2 ^ 32;
        tuner = bump_iteration_counters ops nums h'.tuner;
      }

  unfoldable pub iterate_pairwise_pipeline :
      ℕ → Iteration C D → LogicHandler S C D → Outcome (LogicHandler S C D × C × Bool)
  unfolding select_configuration neighbor_lists_are_valid finish_iteration
  iterate_pairwise_pipeline fuel it h = do
    (t, c, tuning) ← select_configuration fuel it h.tuner
    let rebuilding = neighbor_lists_are_valid (record h { tuner = t })
    let checked = neighbor_lists_are_valid rebuilding
    measured ←
        if tuning
        then add_measurement ops nums it.measured (not checked.lists_are_valid) t
        else ok t
    ok (
      if it.relevant
          then finish_iteration
              (record (if tuning then checked else rebuilding) { tuner = measured })
          else rebuilding,
      c,
      tuning,
    )
