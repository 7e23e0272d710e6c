-- ===== src/Tuning/Pipeline/Start.antt =====
-- The start of a tuning phase of the pipeline with a full search.
use auto_pas.Prelude.{
  ℕ, suc, ◌+◌, ◌*◌, ◌≤◌, ◌<◌, ◌≡◌, refl, ◌≢◌, ◌⊎◌, inl, inr, ap, sym, ◌∙◌, subst, Bool, true, false,
  ltb, ◌==◌, some, List, [], length, get_elem?, word, arith,
}
use auto_pas.Prelude.Classes.{Eq}
use auto_pas.Tuning.Strategy.{ok}
use auto_pas.Tuning.FullSearch.{
  FullSearch, full_search, reset, get_current_configuration, search_space_is_trivial,
}
use auto_pas.Tuning.Tuner.{
  AutoTuner, Numerics, is_first_tuning_iteration, prepare_iteration, get_next_config,
  get_current_num_samples, clear_samples, tune,
}
use auto_pas.Tuning.Pipeline.{Iteration, until_applicable, select_configuration}
use auto_pas.Tuning.Pipeline.Phase.{InPhase}

-- An iteration with a relevant functor in which every configuration is applicable.
abbrev pub Fine : {C D : Type 0} → Iteration C D → Type 0
Fine {C} it = (it.relevant ≡ true) × ((c : C) → (it.applicable c).0 ≡ true)

module _ {C D : Type 0} where
  -- A tuner at the start of a phase: the counter stands at the interval, as the constructor and
  -- `forceRetune` leave it, and the samples are full, so that the first iteration starts afresh.
  pub record AtStart (cs : List C) (m : ℕ) (t : AutoTuner (FullSearch C) C D) : Type 0 where
    pub total : t.max_samples ≡ m
    pub wanted : 0 < m
    pub space : t.strategy.search_space ≡ cs
    pub several : 2 ≤ length cs
    pub full : m ≤ length t.samples_not_rebuilding + length t.samples_rebuilding
    pub first : t.iterations_since_tuning ≡ t.tuning_interval
    pub frequency : t.rebuild_frequency ≢ 0
    pub room : t.tuning_interval + length cs * m + 2 < word

  abbrev pub fresh : AutoTuner (FullSearch C) C D → AutoTuner (FullSearch C) C D
  fresh t =
      clear_samples
        (record t { strategy = record (t.strategy) { traversal_times = []; current_config = 0 } })

  abbrev pub restarted : AutoTuner (FullSearch C) C D → AutoTuner (FullSearch C) C D
  restarted t = record t {
    strategy = record (t.strategy) { traversal_times = []; current_config = 0 };
  }

module _ {C D : Type 0} ⦃e : Eq C⦄ (nums : Numerics D) where
  pub select_prepared :
      (fuel : ℕ) (it : Iteration C D) (t t' u : AutoTuner (FullSearch C) C D) (c : C)
      (tuning : Bool)
      → Fine it
      → prepare_iteration full_search nums t ≡ (t', false, false)
      → get_next_config full_search nums t' ≡ ok (u, c, tuning)
      → select_configuration full_search nums (suc fuel) it t ≡ ok (u, c, tuning)
  unfolding select_configuration until_applicable
  select_prepared fuel it t t' u c tuning fine prepared next =
      rw (fine.0, prepared, next, fine.1 c) refl

  -- Away from the first iteration of a phase, the tuner's next configuration is selected.
  pub select_next :
      (fuel : ℕ) (it : Iteration C D) (t t' : AutoTuner (FullSearch C) C D) (c : C) (tuning : Bool)
      → Fine it
      → (t.iterations_since_tuning == t.tuning_interval) ≡ false
      → get_next_config full_search nums t ≡ ok (t', c, tuning)
      → select_configuration full_search nums (suc fuel) it t ≡ ok (t', c, tuning)
  unfolding prepare_iteration is_first_tuning_iteration full_search
  select_next fuel it t t' c tuning fine away =
      select_prepared fuel it t t t' c tuning fine (rw away refl)

  pub fresh-InPhase :
      (cs : List C) (m : ℕ) (t : AutoTuner (FullSearch C) C D)
      → AtStart cs m t
      → InPhase cs m 0 0 (fresh t)
  fresh-InPhase cs m t a = record {
    total = a.total;
    wanted = omega (arith, a.total, a.wanted);
    space = a.space;
    current = refl;
    inside = omega (arith, a.several);
    several = a.several;
    samples = refl;
    bounded = omega arith;
    since = omega (arith, a.first);
    frequency = a.frequency;
    room = subst (λ x. t.tuning_interval + length cs * x + 2 < word) (sym a.total) a.room;
    keys = tt;
    timed = λ i c at when. absurd (none_yet i when);
  }
    where
      none_yet : (i : ℕ) → (i < 0) ⊎ ((i ≡ 0) × (0 ≡ t.max_samples)) → ⊥
      none_yet i (inl h) = omega arith
      none_yet i (inr h) = omega (arith, h.1, a.total, a.wanted)

  pub prepare_first :
      (t : AutoTuner (FullSearch C) C D)
      → t.iterations_since_tuning ≡ t.tuning_interval
      → prepare_iteration full_search nums t ≡ (restarted t, false, false)
  unfolding prepare_iteration is_first_tuning_iteration full_search reset
  prepare_first t first =
      let same : (t.iterations_since_tuning == t.tuning_interval) ≡ true = ground (arith, first) in
      rw same refl

  pub next_first :
      (cs : List C) (m : ℕ) (t : AutoTuner (FullSearch C) C D) (c : C)
      → AtStart cs m t
      → get_elem? cs 0 ≡ some c
      → get_next_config full_search nums (restarted t) ≡ ok (fresh t, c, true)
  unfolding full_search get_next_config get_current_num_samples tune get_current_configuration
      search_space_is_trivial
  next_first cs m t c a at =
      let same : (t.iterations_since_tuning == t.tuning_interval) ≡ true =
        ground (arith, a.first) in
      let late : ltb t.iterations_since_tuning t.tuning_interval ≡ false =
        ground (arith, a.first) in
      let many : (length t.strategy.search_space == 1) ≡ false =
        ground (arith, ap length a.space, a.several) in
      let enough : ltb (length t.samples_not_rebuilding + length t.samples_rebuilding) t.max_samples
          ≡ false =
        ground (arith, a.total, a.full) in
      let at' : get_elem? t.strategy.search_space 0 ≡ some c =
        ap (λ xs. get_elem? xs 0) a.space ∙ at in
      rw (same, late, many, enough, at') refl
