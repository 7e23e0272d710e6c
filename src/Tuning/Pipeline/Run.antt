-- ===== src/Tuning/Pipeline/Run.antt =====
-- Whole tuning phases of the pipeline with a full search: from the first iteration of a phase
-- to the one that picks a configuration.
use auto_pas.Prelude.{
  ℕ, suc, ◌+◌, ◌*◌, ◌≤◌, ◌<◌, ◌≡◌, refl, ◌⊎◌, ap, sym, subst, Bool, true, false, some, List, [],
  ◌∷◌, length, get_elem?, replicate, arith, get_elem?-inside,
}
use auto_pas.Prelude.Classes.{Eq}
use auto_pas.Tuning.Strategy.{Outcome, ok, ◌>>=◌}
use auto_pas.Tuning.FullSearch.{FullSearch, full_search}
use auto_pas.Tuning.FullSearch.Optimal.{In, AtLeast}
use auto_pas.Tuning.FullSearch.Times.{HasTime}
use auto_pas.Tuning.Tuner.{AutoTuner, Numerics, bump_iteration_counters}
use auto_pas.Tuning.Pipeline.{LogicHandler, Iteration, iterate_pairwise_pipeline}
use auto_pas.Tuning.Pipeline.Phase.{InPhase, next_last}
use auto_pas.Tuning.Pipeline.Measure.{mul_le}
use auto_pas.Tuning.Pipeline.Sweep.{pipeline_settled}
use auto_pas.Tuning.Pipeline.Start.{select_next, AtStart, Fine}
use auto_pas.Tuning.Pipeline.Steps.{AtCount, first-Tunes, not_first, next-Tunes}

module _ {C D : Type 0} where
  -- Every iteration of a list is fine.
  abbrev pub AllFine : List (Iteration C D) → Type 0
  AllFine [] = Unit
  AllFine (it ∷ its) = Fine it × AllFine its

  -- The strategy stands at a configuration with the least time on record, and has a time of
  -- every configuration.
  abbrev pub StandsAtBest : List C → C → ℕ → AutoTuner (FullSearch C) C D → Type 0
  StandsAtBest cs c i t =
      (time : ℕ) × (get_elem? cs i ≡ some c)
      × (t.strategy.current_config ≡ i)
      × In (c, time) t.strategy.traversal_times
      × AtLeast time t.strategy.traversal_times
      × ((j : ℕ) (d : C) → get_elem? cs j ≡ some d → HasTime d t.strategy.traversal_times)

module _ {C D : Type 0} ⦃e : Eq C⦄ (nums : Numerics D) where
  -- Iterations one after the other, with what each of them reports: whether it tuned.
  pub run :
      ℕ
      → List (Iteration C D)
      → LogicHandler (FullSearch C) C D
      → Outcome (LogicHandler (FullSearch C) C D × List Bool)
  run fuel [] h = ok (h, [])
  run fuel (it ∷ its) h = do
    r ← iterate_pairwise_pipeline full_search nums fuel it h
    rest ← run fuel its r.0
    ok (rest.0, r.2 ∷ rest.1)

  run_tunes :
      (cs : List C) (m n fuel : ℕ) (its : List (Iteration C D))
      (h : LogicHandler (FullSearch C) C D)
      → AtCount cs m n h.tuner
      → 0 < n
      → n + length its ≡ length cs * m
      → AllFine its
      → (h' : LogicHandler (FullSearch C) C D) × (run (suc fuel) its h
          ≡ ok (h', replicate (length its) true))
        × AtCount cs m (length cs * m) h'.tuner
  unfolding run
  run_tunes cs m n fuel [] h at started end fine =
      (h, refl, subst (λ x. AtCount cs m x h.tuner) (omega arith) at)
  run_tunes cs m n fuel (it ∷ its) h (k, j, p, now) started end (fine, others) =
      let r = next-Tunes nums cs m k j fuel it h p (omega arith) (omega arith) fine in
      let rest =
        run_tunes cs m (k * m + j + 1) fuel its r.0 r.3 (omega arith) (omega arith) others in
      (rest.0, rw (r.2, rest.1) refl, rest.2)

  -- All samples are in: it is the last configuration and its samples are complete.
  at_end :
      (cs : List C) (m : ℕ) (t : AutoTuner (FullSearch C) C D)
      → AtCount cs m (length cs * m) t
      → (k : ℕ) × InPhase cs m k t.max_samples t × (k + 1 ≡ length cs)
  at_end cs m t (k, j, p, now) =
      let last : k + 1 ≡ length cs =
        end k j (length cs) m p.inside (omega (arith, p.total, p.bounded))
          (omega (arith, p.total, p.wanted)) now in
      let full : j ≡ t.max_samples = omega (arith, p.total, ap (λ x. x * m) last) in
      (k, subst (λ x. InPhase cs m k x t) full p, last)
    where
      end : (k j n m : ℕ) → k < n → j ≤ m → 0 < m → k * m + j ≡ n * m → k + 1 ≡ n
      end k j n m inside bounded wanted now = ground (arith, mul_le (k + 2) n m)

  all_timed :
      (cs : List C) (m k : ℕ) (t : AutoTuner (FullSearch C) C D)
      → InPhase cs m k t.max_samples t
      → k + 1 ≡ length cs
      → (i : ℕ) (c : C) → get_elem? cs i ≡ some c
      → HasTime c t.strategy.traversal_times
  all_timed cs m k t p last i c at =
      p.timed i c at (place i k (omega (arith, last, get_elem?-inside cs i c at)))
    where
      place : (i k : ℕ) → i ≤ k → (i < k) ⊎ ((i ≡ k) × (t.max_samples ≡ t.max_samples))
      place i k h = ground arith

  -- From the start of a phase until all samples of all configurations are in.
  pub run_phase :
      (cs : List C) (m fuel : ℕ) (its : List (Iteration C D)) (h : LogicHandler (FullSearch C) C D)
      → AtStart cs m h.tuner
      → length its ≡ length cs * m
      → AllFine its
      → (h' : LogicHandler (FullSearch C) C D) × (run (suc fuel) its h
          ≡ ok (h', replicate (length its) true))
        × ((k : ℕ) × InPhase cs m k h'.tuner.max_samples h'.tuner × (k + 1 ≡ length cs))
  unfolding run
  run_phase cs m fuel [] h start count fine =
      absurd (omega (arith, start.several, start.wanted, mul_le 2 (length cs) m start.several))
  run_phase cs m fuel (it ∷ its) h start count (fine, others) =
      let r = first-Tunes nums cs m fuel it h start fine in
      let rest = run_tunes cs m 1 fuel its r.0 r.3 (omega arith) (omega arith) others in
      (rest.0, rw (r.2, rest.1) refl, at_end cs m rest.0.tuner rest.2)

  -- The iteration that ends a phase.
  pub end_phase :
      (cs : List C) (m k fuel : ℕ) (it : Iteration C D) (h : LogicHandler (FullSearch C) C D)
      → InPhase cs m k h.tuner.max_samples h.tuner
      → k + 1 ≡ length cs
      → Fine it
      → (h' : LogicHandler (FullSearch C) C D) × (c : C) × (i : ℕ) × (iterate_pairwise_pipeline
            full_search nums
            (suc fuel)
            it
            h
          ≡ ok (h', c, false))
        × StandsAtBest cs c i h'.tuner
        × (h'.tuner
            ≡ bump_iteration_counters full_search nums
                (record (h.tuner) { strategy = record (h.tuner.strategy) { current_config = i } }))
  unfolding bump_iteration_counters
  end_phase cs m k fuel it h p last fine =
      let best = next_last nums cs m k h.tuner p last in
      let settled = pipeline_settled full_search nums (suc fuel) it h _ best.0 fine.0 (
        select_next nums fuel it h.tuner _ best.0 false fine
          (not_first nums cs m k h.tuner.max_samples h.tuner p (omega (arith, p.wanted))) best.3) in
      (
        settled.0,
        best.0,
        best.2,
        settled.1,
        subst (StandsAtBest cs best.0 best.2) (sym settled.2)
            (best.1, best.4, refl, best.6, best.7, all_timed cs m k h.tuner p last),
        settled.2,
      )

  -- With a full search over two or more configurations and `m` samples of each, not zero, from a
  -- tuner at the start of a phase (its counter at the interval, its samples full, a rebuild
  -- frequency that is not zero, and counters that stay below 2 ^ 64 for the phase), when every
  -- functor is relevant and every configuration applicable: the
  -- first `length cs * m` iterations all run and are all tuning iterations; the next one runs, is
  -- none, and uses a configuration of the search space whose time on record is the least, and by
  -- then every configuration of the search space has a time on record.
  pub full_search_phase :
      (cs : List C) (m fuel : ℕ) (its : List (Iteration C D)) (it : Iteration C D)
      (h : LogicHandler (FullSearch C) C D)
      → AtStart cs m h.tuner
      → length its ≡ length cs * m
      → AllFine its
      → Fine it
      → (h' : LogicHandler (FullSearch C) C D) × (h'' : LogicHandler (FullSearch C) C D) × (c : C)
        × (i : ℕ) × (run (suc fuel) its h ≡ ok (h', replicate (length its) true))
        × (iterate_pairwise_pipeline full_search nums (suc fuel) it h' ≡ ok (h'', c, false))
        × StandsAtBest cs c i h''.tuner
  full_search_phase cs m fuel its it h start count fine fine' =
      let (h', ran, (k, p, last)) = run_phase cs m fuel its h start count fine in
      let r = end_phase cs m k fuel it h' p last fine' in (h', r.0, r.1, r.2, ran, r.3, r.4)
