-- ===== src/Tuning/Pipeline/Reopen.antt =====
-- What comes after a tuning phase: the counter of AutoTuner.cpp is not reset at its end.
use auto_pas.Prelude.{
  ℕ, suc, ◌+◌, ◌*◌, ◌≡◌, refl, ap, sym, ◌∙◌, subst, true, false, ltb, ◌==◌, some, List, length,
  get_elem?, replicate, add_word, arith, get_elem?-inside,
}
use auto_pas.Prelude.Classes.{Eq}
use auto_pas.Tuning.Strategy.{ok}
use auto_pas.Tuning.FullSearch.{
  FullSearch, full_search, get_current_configuration, search_space_is_trivial,
}
use auto_pas.Tuning.Tuner.{
  AutoTuner, Numerics, get_next_config, get_current_num_samples, clear_samples,
  bump_iteration_counters, tune,
}
use auto_pas.Tuning.Pipeline.{
  LogicHandler, Iteration, select_configuration, iterate_pairwise_pipeline,
}
use auto_pas.Tuning.Pipeline.Phase.{InPhase, full}
use auto_pas.Tuning.Pipeline.Measure.{counted}
use auto_pas.Tuning.Pipeline.Start.{select_next, AtStart, Fine}
use auto_pas.Tuning.Pipeline.Run.{run, AllFine, run_phase, end_phase}

module _ {C D : Type 0} ⦃e : Eq C⦄ (nums : Numerics D) where
  resume :
      (cs : List C) (m k i : ℕ) (t : AutoTuner (FullSearch C) C D) (d : C)
      → InPhase cs m k t.max_samples t
      → get_elem? cs (i + 1) ≡ some d
      → (u : AutoTuner (FullSearch C) C D) × (get_next_config full_search nums (
            bump_iteration_counters full_search nums
              (record t { strategy = record (t.strategy) { current_config = i } }))
          ≡ ok (u, d, true))
        × (((bump_iteration_counters full_search nums t).iterations_since_tuning
              == t.tuning_interval)
            ≡ false)
  unfolding bump_iteration_counters get_next_config full_search get_current_num_samples tune
      search_space_is_trivial get_current_configuration
  resume cs m k i t d p at =
      let since = counted nums cs m k t.max_samples t p in
      let late : ltb (add_word t.iterations_since_tuning 1) t.tuning_interval ≡ false =
        ground (arith, since) in
      let other : (add_word t.iterations_since_tuning 1 == t.tuning_interval) ≡ false =
        ground (arith, since) in
      let inside = get_elem?-inside cs (i + 1) d at in
      let many : (length t.strategy.search_space == 1) ≡ false =
        ground (arith, ap length p.space, p.several) in
      let held : ltb i (length t.strategy.search_space) ≡ true =
        ground (arith, ap length p.space) in
      let more : ((i + 1) == length t.strategy.search_space) ≡ false =
        ground (arith, ap length p.space) in
      let next : get_elem? t.strategy.search_space (i + 1) ≡ some d =
        ap (λ xs. get_elem? xs (i + 1)) p.space ∙ at in
      let t' =
        bump_iteration_counters full_search nums
          (record t { strategy = record (t.strategy) { current_config = i } }) in
      (
        clear_samples (record t' { strategy = record (t'.strategy) { current_config = i + 1 } }),
        rw (late, other, many, full nums cs m k t p, held, more, next) refl,
        other,
      )

  reopen :
      (cs : List C) (m k i fuel : ℕ) (again : Iteration C D) (t t' : AutoTuner (FullSearch C) C D)
      (d : C)
      → InPhase cs m k t.max_samples t
      → get_elem? cs (i + 1) ≡ some d
      → Fine again
      → t'
        ≡ bump_iteration_counters full_search nums
            (record t { strategy = record (t.strategy) { current_config = i } })
      → (u : AutoTuner (FullSearch C) C D) × (select_configuration full_search nums
            (suc fuel)
            again
            t'
          ≡ ok (u, d, true))
  unfolding bump_iteration_counters
  reopen cs m k i fuel again t t' d p at fine same =
      let r = resume cs m k i t d p at in
      let settled =
        bump_iteration_counters full_search nums
          (record t { strategy = record (t.strategy) { current_config = i } }) in
      (
        r.0,
        subst (λ x. select_configuration full_search nums (suc fuel) again x ≡ ok (r.0, d, true))
            (sym same) (select_next nums fuel again settled r.0 d true fine r.2 r.1),
      )

  -- Under the conditions of `full_search_phase`: after the iteration that ends the phase at
  -- position `i` of the search space, the next selection is a tuning one again, with the
  -- configuration at position `i + 1`, if there is one.
  pub phase_reopens :
      (cs : List C) (m fuel : ℕ) (its : List (Iteration C D)) (it again : Iteration C D)
      (h : LogicHandler (FullSearch C) C D)
      → AtStart cs m h.tuner
      → length its ≡ length cs * m
      → AllFine its
      → Fine it
      → Fine again
      → (h' : LogicHandler (FullSearch C) C D) × (h'' : LogicHandler (FullSearch C) C D) × (c : C)
        × (i : ℕ) × (run nums (suc fuel) its h ≡ ok (h', replicate (length its) true))
        × (iterate_pairwise_pipeline full_search nums (suc fuel) it h' ≡ ok (h'', c, false))
        × (get_elem? cs i ≡ some c)
        × ((d : C)
            → get_elem? cs (i + 1) ≡ some d
            → (u : AutoTuner (FullSearch C) C D) × (select_configuration full_search nums
                  (suc fuel)
                  again
                  h''.tuner
                ≡ ok (u, d, true)))
  phase_reopens cs m fuel its it again h start count fine fine' fine'' =
      let (h', ran, (k, p, last)) = run_phase nums cs m fuel its h start count fine in
      let r = end_phase nums cs m k fuel it h' p last fine' in
      (
        h',
        r.0,
        r.1,
        r.2,
        ran,
        r.3,
        r.4.1,
        λ d at. reopen cs m k r.2 fuel again h'.tuner r.0.tuner d p at fine'' r.5,
      )
