-- ===== src/Tuning/Pipeline/Phase.antt =====
-- A tuning phase of the auto tuner with a full search, as a walk over numbered states.
use auto_pas.Prelude.{
  ℕ, ◌+◌, ◌*◌, ◌≤◌, ◌<◌, ◌≡◌, refl, ◌≢◌, ◌⊎◌, inr, ap, ap₂, sym, ◌∙◌, subst, true, false, ltb, ◌==◌,
  some, List, length, get_elem?, get_elem?-length, word, arith,
}
use auto_pas.Prelude.Classes.{Eq}
use auto_pas.Tuning.Strategy.{ok}
use auto_pas.Tuning.FullSearch.{FullSearch, full_search}
use auto_pas.Tuning.FullSearch.Optimal.{In, AtLeast, KeysIn, select_among_lem}
use auto_pas.Tuning.Tuner.{AutoTuner, Numerics, get_next_config, clear_samples}
use auto_pas.Tuning.FullSearch.Times.{HasTime}

-- The tuner in a tuning phase over the configurations `cs`, with `m` samples of each: `j` samples of configuration number
-- `k` are in, and every configuration whose samples are complete has its time on record.
pub record InPhase {C D : Type 0} (cs : List C) (m k j : ℕ) (t : AutoTuner (FullSearch C) C D)
    : Type 0 where
  pub total : t.max_samples ≡ m
  pub space : t.strategy.search_space ≡ cs
  pub current : t.strategy.current_config ≡ k
  pub inside : k < length cs
  pub several : 2 ≤ length cs
  pub samples : length t.samples_not_rebuilding + length t.samples_rebuilding ≡ j
  pub wanted : 0 < t.max_samples
  pub bounded : j ≤ t.max_samples
  pub since : t.iterations_since_tuning ≡ t.tuning_interval + (k * t.max_samples + j)
  pub frequency : t.rebuild_frequency ≢ 0
  pub room : t.tuning_interval + length cs * t.max_samples + 2 < word
  pub keys : KeysIn cs t.strategy.traversal_times
  pub timed :
      (i : ℕ) (c : C)
      → get_elem? cs i ≡ some c
      → (i < k) ⊎ ((i ≡ k) × (j ≡ t.max_samples))
      → HasTime c t.strategy.traversal_times

module _ {C D : Type 0} ⦃e : Eq C⦄ (nums : Numerics D) (cs : List C) (m : ℕ) where
  -- What the tests of `getNextConfig` say in a phase.
  tuning_now :
      (k j : ℕ) (t : AutoTuner (FullSearch C) C D)
      → InPhase cs m k j t
      → 0 < k * t.max_samples + j
      → (ltb t.iterations_since_tuning t.tuning_interval ≡ false)
        × ((t.iterations_since_tuning == t.tuning_interval) ≡ false)
        × ((length t.strategy.search_space == 1) ≡ false)
        × (ltb t.strategy.current_config (length t.strategy.search_space) ≡ true)
  tuning_now k j t p started =
      let since = p.since in
      let many : 2 ≤ length t.strategy.search_space = omega (arith, ap length p.space, p.several) in
      let in_range : t.strategy.current_config < length t.strategy.search_space =
        omega (arith, ap length p.space, p.current, p.inside) in
      (ground arith, ground arith, ground arith, ground arith)

  pub here :
      (k j : ℕ) (t : AutoTuner (FullSearch C) C D) (c : C)
      → InPhase cs m k j t
      → get_elem? cs k ≡ some c
      → get_elem? t.strategy.search_space t.strategy.current_config ≡ some c
  here k j t c p at = ap₂ get_elem? p.space p.current ∙ at

  -- While samples are missing the configuration stays.
  pub next_same :
      (k j : ℕ) (t : AutoTuner (FullSearch C) C D) (c : C)
      → InPhase cs m k j t
      → 0 < k * t.max_samples + j
      → j < t.max_samples
      → get_elem? cs k ≡ some c
      → get_next_config full_search nums t ≡ ok (t, c, true)
  unfolding get_next_config full_search
  next_same k j t c p started more at =
      let now = tuning_now k j t p started in
      let few : ltb (length t.samples_not_rebuilding + length t.samples_rebuilding) t.max_samples
          ≡ true =
        ground (arith, p.samples) in
      rw (now.0, now.2, few, here k j t c p at)

  pub full :
      (k : ℕ) (t : AutoTuner (FullSearch C) C D)
      → InPhase cs m k t.max_samples t
      → ltb (length t.samples_not_rebuilding + length t.samples_rebuilding) t.max_samples ≡ false
  full k t p = ground (arith, p.samples)

  -- With all samples in, the next configuration of the search space is up.
  pub next_config :
      (k : ℕ) (t : AutoTuner (FullSearch C) C D) (c : C)
      → InPhase cs m k t.max_samples t
      → get_elem? cs (k + 1) ≡ some c
      → k + 1 < length cs
      → get_next_config full_search nums t
        ≡ ok (
          clear_samples (record t {
            strategy = record (t.strategy) { current_config = t.strategy.current_config + 1 };
          }),
          c,
          true,
        )
  unfolding get_next_config full_search
  next_config k t c p at more =
      let now = tuning_now k t.max_samples t p (omega (arith, p.wanted)) in
      let last : ((t.strategy.current_config + 1) == length t.strategy.search_space) ≡ false =
        ground (arith, ap length p.space, p.current) in
      let next : get_elem? t.strategy.search_space (t.strategy.current_config + 1) ≡ some c =
        ap₂ get_elem? p.space (ap (λ n. n + 1) p.current) ∙ at in
      rw (now.0, now.1, now.2, now.3, full k t p, last, next)

  -- Past the last configuration the search picks a best one and the phase is over.
  pub next_last :
      (k : ℕ) (t : AutoTuner (FullSearch C) C D)
      → InPhase cs m k t.max_samples t
      → k + 1 ≡ length cs
      → (c : C) × (time : ℕ) × (i : ℕ) × (get_next_config full_search nums t
          ≡ ok (record t { strategy = record (t.strategy) { current_config = i } }, c, false))
        × (get_elem? cs i ≡ some c)
        × (i < length cs)
        × In (c, time) t.strategy.traversal_times
        × AtLeast time t.strategy.traversal_times
  unfolding get_next_config full_search
  next_last k t p done =
      let now = tuning_now k t.max_samples t p (omega (arith, p.wanted)) in
      let past = record (t.strategy) { current_config = t.strategy.current_config + 1 } in
      let (c, at) = get_elem?-length cs k p.inside in
      let best =
        select_among_lem past t.strategy.traversal_times
          (λ none_yet. subst (HasTime c) none_yet (p.timed k c at (inr (refl, refl))))
          (subst (λ xs. KeysIn xs t.strategy.traversal_times) (sym p.space) p.keys) in
      let last : ((t.strategy.current_config + 1) == length t.strategy.search_space) ≡ true =
        ground (arith, ap length p.space, p.current) in
      (
        best.0,
        best.1,
        best.2,
        rw (now.0, now.1, now.2, now.3, full k t p, last, best.3, best.4),
        subst (λ xs. get_elem? xs best.2 ≡ some best.0) p.space best.4,
        subst (λ xs. best.2 < length xs) p.space best.5,
        best.6,
        best.7,
      )
