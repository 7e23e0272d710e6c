-- ===== src/Tuning/Tuner.antt =====
-- src/autopas/selectors/AutoTuner.h and AutoTuner.cpp. Logging and timers are left out, and so is
-- the energy meter: a measurement is a number that the caller hands in.
use auto_pas.Prelude.{
  ℕ, zero, suc, ◌+◌, ◌-◌, ◌%◌, ◌^◌, Bool, true, false, ◌&&◌, ◌||◌, ltb, leb, ◌==◌, if◌then◌else◌,
  none, some, List, [], ◌∷◌, ◌++◌, length, replicate, add_word, sub_word,
}
use auto_pas.Prelude.Int.{ℤ, pos, pos_part, neg_part, ◌+ℤ◌, ltb_ℤ, scale, div_trunc, to_int}
use auto_pas.Prelude.Classes.{Eq}
use auto_pas.Tuning.Optimum.{SelectorStrategy, median_value, optimum_value}
use auto_pas.Tuning.Strategy.{
  TuningStrategy, Outcome, ok, err, ◌>>=◌, empty_search_space, rejected_only_configuration,
  undefined,
}

pub record AutoTuner (S C D : Type 0) : Type 0 where
  pub strategy : S
  pub selector_strategy : SelectorStrategy
  pub iteration : ℕ
  pub tuning_interval : ℕ
  pub iterations_since_tuning : ℕ
  pub rebuild_frequency : ℕ
  pub max_samples : ℕ
  pub max_difference_for_bucket : D
  pub weight_for_max_density : D
  pub homogeneities : List D
  pub max_densities : List D
  pub samples_not_rebuilding : List ℤ
  pub samples_rebuilding : List ℤ
  pub evidence : List (C × List (ℕ × ℤ))

abbrev pub min_ℤ : ℤ → ℤ → ℤ
min_ℤ a b = if ltb_ℤ b a then b else a

-- The last entry of a vector gets a new second component.
abbrev pub set_last : List (ℕ × ℤ) → ℤ → List (ℕ × ℤ)
set_last [] v = []
set_last ((i, x) ∷ []) v = (i, v) ∷ []
set_last (x ∷ y ∷ ys) v = x ∷ set_last (y ∷ ys) v

-- `std::vector::resize`: cut off, or filled up with zeros.
unfoldable pub resize : ℕ → List ℤ → List ℤ
resize zero xs = []
resize (suc n) [] = pos 0 ∷ resize n []
resize (suc n) (x ∷ xs) = x ∷ resize n xs

-- What the tuner uses besides its strategy: `double` with its order and zero (for the medians),
-- and `smoothing::smoothLastPoint` of Smoothing.cpp, which computes on doubles, with the number of
-- points 5 that the tuner passes.
pub record Numerics (D : Type 0) : Type 0 where
  pub less : D → D → Bool
  pub zero_d : D
  pub smooth_last_point : List (ℕ × ℤ) → ℤ

module _ {S C D : Type 0} where
  abbrev pub clear_samples : AutoTuner S C D → AutoTuner S C D
  clear_samples t = record t { samples_not_rebuilding = []; samples_rebuilding = [] }

  abbrev pub push_sample : ℤ → Bool → AutoTuner S C D → AutoTuner S C D
  push_sample sample rebuilt t =
      if rebuilt
      then record t { samples_rebuilding = t.samples_rebuilding ++ sample ∷ [] }
      else record t { samples_not_rebuilding = t.samples_not_rebuilding ++ sample ∷ [] }

module _ {S C D : Type 0} ⦃e : Eq C⦄ (ops : TuningStrategy S C D) (nums : Numerics D) where
  -- `_evidence[config]`, and the same entry written back.
  unfoldable pub evidence_of : C → List (C × List (ℕ × ℤ)) → List (ℕ × ℤ)
  evidence_of c [] = []
  evidence_of c ((k, v) ∷ m) = if e.beq k c then v else evidence_of c m

  unfoldable pub put_evidence : C → List (ℕ × ℤ) → List (C × List (ℕ × ℤ)) → List (C × List (ℕ × ℤ))
  put_evidence c v [] = (c, v) ∷ []
  put_evidence c v ((k, w) ∷ m) = if e.beq k c then (k, v) ∷ m else (k, w) ∷ put_evidence c v m

  -- The constructor, with the strategy already built and an energy meter that works.
  unfoldable pub construct : S → D → D → SelectorStrategy → ℕ → ℕ → ℕ → Outcome (AutoTuner S C D)
  construct s max_difference weight selector interval max_samples frequency =
      if ops.search_space_is_empty s
      then err empty_search_space
      else ok (record {
        strategy = s;
        selector_strategy = selector;
        iteration = 0;
        tuning_interval = interval;
        iterations_since_tuning = interval;
        rebuild_frequency = frequency;
        max_samples = max_samples;
        max_difference_for_bucket = max_difference;
        weight_for_max_density = weight;
        homogeneities = [];
        max_densities = [];
        samples_not_rebuilding = replicate max_samples (pos 0);
        samples_rebuilding = [];
        evidence = [];
      })

  unfoldable pub add_homogeneity_and_max_density : D → D → AutoTuner S C D → AutoTuner S C D
  add_homogeneity_and_max_density h d t = record t {
    homogeneities = t.homogeneities ++ h ∷ [];
    max_densities = t.max_densities ++ d ∷ [];
  }

  unfoldable pub is_first_tuning_iteration : AutoTuner S C D → Bool
  is_first_tuning_iteration t = t.iterations_since_tuning == t.tuning_interval

  abbrev reset_strategy : AutoTuner S C D → S
  reset_strategy t = elim ops.mpi_reset [
    | none ↦ ops.reset t.iteration t.strategy
    | some mpi ↦
        mpi t.iteration (median_value nums.less nums.zero_d t.homogeneities)
          (median_value nums.less nums.zero_d t.max_densities) t.max_difference_for_bucket
          t.weight_for_max_density t.strategy
  ]

  abbrev clear_homogeneities : AutoTuner S C D → AutoTuner S C D
  clear_homogeneities t =
      if ops.smoothed_homogeneity_and_max_density_needed t.strategy
      then record t { homogeneities = []; max_densities = [] }
      else t

  -- The tuner, and whether live info and whether the homogeneity is needed.
  unfoldable pub prepare_iteration : AutoTuner S C D → AutoTuner S C D × Bool × Bool
  unfolding is_first_tuning_iteration
  prepare_iteration t =
      let first = is_first_tuning_iteration t in
      let t' =
        if first then clear_homogeneities (record t { strategy = reset_strategy t }) else t in
      (
        t',
        first && ops.needs_live_info t'.strategy,
        ops.smoothed_homogeneity_and_max_density_needed t'.strategy
            && ltb (sub_word t.tuning_interval 10) t.iterations_since_tuning
            && leb t.iterations_since_tuning t.tuning_interval,
      )

  unfoldable pub force_retune : AutoTuner S C D → AutoTuner S C D
  unfolding resize
  force_retune t = record t {
    iterations_since_tuning = t.tuning_interval;
    samples_not_rebuilding = resize t.max_samples t.samples_not_rebuilding;
  }

  unfoldable pub tune : AutoTuner S C D → Outcome (AutoTuner S C D × Bool)
  tune t = do
    r ←
        if t.iterations_since_tuning == t.tuning_interval
        then ok (t.strategy, true)
        else ops.tune false t.strategy
    let t' = record t { strategy = r.0 }
    ok (if r.1 then clear_samples t' else t', r.1)

  unfoldable pub get_current_num_samples : AutoTuner S C D → ℕ
  get_current_num_samples t = length t.samples_not_rebuilding + length t.samples_rebuilding

  abbrev pub with_config : AutoTuner S C D × Bool → Outcome (AutoTuner S C D × C × Bool)
  with_config (t, tuning) = do c ← ops.get_current_configuration t.strategy; ok (t, c, tuning)

  unfoldable pub get_next_config : AutoTuner S C D → Outcome (AutoTuner S C D × C × Bool)
  unfolding tune get_current_num_samples
  get_next_config t =
      if ltb t.iterations_since_tuning t.tuning_interval || ops.search_space_is_trivial t.strategy
      then with_config (t, false)
      else (if ltb (get_current_num_samples t) t.max_samples
          then with_config (t, true)
          else tune t >>= with_config)

  unfoldable pub reject_config : C → Bool → AutoTuner S C D → Outcome (AutoTuner S C D × C × Bool)
  reject_config rejected indefinitely t =
      if ops.search_space_is_trivial t.strategy
      then err rejected_only_configuration
      else (do r ← ops.tune true t.strategy; with_config (record t { strategy = r.0 }, r.1))

  -- A rebuild frequency of zero is a division by zero. The frequency is an `unsigned int`, and the
  -- difference of the two numbers of type `int`, of which the maximum with zero is taken, is taken not
  -- to overflow.
  unfoldable pub estimate_runtime_from_samples : AutoTuner S C D → Outcome ℤ
  unfolding optimum_value scale div_trunc to_int ◌+ℤ◌
  estimate_runtime_from_samples t =
      let building = optimum_value t.samples_rebuilding t.selector_strategy in
      let not_building =
        (if length t.samples_not_rebuilding == 0
          then building
          else optimum_value t.samples_not_rebuilding t.selector_strategy) in
      let frequency = to_int t.rebuild_frequency in
      let rebuilt = to_int (length t.samples_rebuilding) in
      let num_not_building =
        pos_part frequency + neg_part rebuilt - (neg_part frequency + pos_part rebuilt) in
      let num_building = (t.rebuild_frequency + 2 ^ 32 - num_not_building) % 2 ^ 32 in
      if t.rebuild_frequency == 0
      then err undefined
      else ok (
          div_trunc (scale num_building building +ℤ scale num_not_building not_building)
            t.rebuild_frequency)

  unfoldable pub last_sample : C → AutoTuner S C D → Outcome (AutoTuner S C D)
  unfolding estimate_runtime_from_samples evidence_of put_evidence
  last_sample config t = do
    reduced ← estimate_runtime_from_samples t
    let collected = evidence_of config t.evidence ++ (t.iteration, reduced) ∷ []
    let smoothed = min_ℤ reduced (nums.smooth_last_point collected)
    s ← ops.add_evidence smoothed t.iteration t.strategy
    ok (record t {
      evidence = put_evidence config (set_last collected smoothed) t.evidence;
      strategy = s;
    })

  unfoldable pub add_measurement : ℤ → Bool → AutoTuner S C D → Outcome (AutoTuner S C D)
  unfolding get_current_num_samples last_sample
  add_measurement sample rebuilt t = do
    config ← ops.get_current_configuration t.strategy
    let t' = push_sample sample rebuilt t
    if ltb (get_current_num_samples t) t.max_samples
        then (if get_current_num_samples t' == t.max_samples then last_sample config t' else ok t')
        else ok t

  unfoldable pub bump_iteration_counters : AutoTuner S C D → AutoTuner S C D
  bump_iteration_counters t = record t {
    iteration = add_word t.iteration 1;
    iterations_since_tuning = add_word t.iterations_since_tuning 1;
  }

  -- `%` by zero is undefined; nothing is stated of it.
  unfoldable pub will_rebuild_neighbor_lists : AutoTuner S C D → Bool
  will_rebuild_neighbor_lists t =
      let in_tuning_phase = leb t.tuning_interval t.iterations_since_tuning in
      let baseline =
        (if in_tuning_phase
          then t.iterations_since_tuning - t.tuning_interval
          else t.iterations_since_tuning) in
      let per_rebuild = (if in_tuning_phase then t.max_samples else t.rebuild_frequency) in
      (baseline % per_rebuild) == 0
