-- ===== src/Tuning/Pipeline/Sweep.antt =====
-- What an iteration of the pipeline does to the auto tuner, given what was selected.
use auto_pas.Prelude.{ℕ, ◌≡◌, Bool, true, false, not, ap, arith}
use auto_pas.Prelude.Classes.{Eq}
use auto_pas.Tuning.Strategy.{TuningStrategy, ok}
use auto_pas.Tuning.Tuner.{AutoTuner, Numerics, add_measurement, bump_iteration_counters}
use auto_pas.Tuning.Pipeline.{
  LogicHandler, Iteration, select_configuration, neighbor_lists_are_valid, finish_iteration,
  iterate_pairwise_pipeline,
}

module _ {S C D : Type 0} ⦃e : Eq C⦄ (ops : TuningStrategy S C D) (nums : Numerics D) where
  neighbor_lists_are_valid-tuner :
      (h : LogicHandler S C D) → (neighbor_lists_are_valid ops nums h).tuner ≡ h.tuner
  unfolding neighbor_lists_are_valid
  neighbor_lists_are_valid-tuner h = ground arith

  finish_iteration-tuner :
      (h : LogicHandler S C D)
      → (finish_iteration ops nums h).tuner ≡ bump_iteration_counters ops nums h.tuner
  unfolding finish_iteration
  finish_iteration-tuner h =
      ap (bump_iteration_counters ops nums) (neighbor_lists_are_valid-tuner h)

  -- An iteration that measures: the tuner takes the measurement and counts the iteration.
  pub pipeline_tuning :
      (P : AutoTuner S C D → Type 0) (fuel : ℕ) (it : Iteration C D) (h : LogicHandler S C D)
      (t : AutoTuner S C D) (c : C)
      → it.relevant ≡ true
      → select_configuration ops nums fuel it h.tuner ≡ ok (t, c, true)
      → ((rebuilt : Bool)
          → (u : AutoTuner S C D) × (add_measurement ops nums it.measured rebuilt t ≡ ok u)
            × P (bump_iteration_counters ops nums u))
      → (h' : LogicHandler S C D) × (iterate_pairwise_pipeline ops nums fuel it h
          ≡ ok (h', c, true))
        × P h'.tuner
  unfolding iterate_pairwise_pipeline
  pipeline_tuning P fuel it h t c relevant selected measure =
      let rebuilding = neighbor_lists_are_valid ops nums (record h { tuner = t }) in
      let checked = neighbor_lists_are_valid ops nums rebuilding in
      let m = measure (not checked.lists_are_valid) in
      (
        finish_iteration ops nums (record checked { tuner = m.0 }),
        rw (selected, m.1, relevant),
        rw (finish_iteration-tuner (record checked { tuner = m.0 })) m.2,
      )

  -- An iteration that does not measure: the tuner only counts it.
  pub pipeline_settled :
      (fuel : ℕ) (it : Iteration C D) (h : LogicHandler S C D) (t : AutoTuner S C D) (c : C)
      → it.relevant ≡ true
      → select_configuration ops nums fuel it h.tuner ≡ ok (t, c, false)
      → (h' : LogicHandler S C D) × (iterate_pairwise_pipeline ops nums fuel it h
          ≡ ok (h', c, false))
        × (h'.tuner ≡ bump_iteration_counters ops nums t)
  unfolding iterate_pairwise_pipeline
  pipeline_settled fuel it h t c relevant selected =
      let rebuilding = neighbor_lists_are_valid ops nums (record h { tuner = t }) in
      (
        finish_iteration ops nums (record rebuilding { tuner = t }),
        rw (selected, relevant),
        finish_iteration-tuner (record rebuilding { tuner = t }),
      )
