-- ===== src/Tuning/Pipeline/Measure.antt =====
-- A measurement in a tuning phase: `addMeasurement` and the counters after it.
use auto_pas.Prelude.{
  ℕ, ◌+◌, ◌*◌, ◌≤◌, ◌<◌, ◌≡◌, refl, ◌≢◌, ◌⊎◌, inl, inr, ap, ◌∙◌, subst, Bool, true, false, ltb,
  ◌==◌, Bool-cases, if◌then◌else◌, some, List, [], ◌∷◌, ◌++◌, length, get_elem?, length-append,
  add_word, arith,
}
use auto_pas.Prelude.Int.{ℤ, to_size_t}
use auto_pas.Prelude.Classes.{Eq}
use auto_pas.Tuning.Strategy.{Exception, TuningStrategy, ok, err, undefined}
use auto_pas.Tuning.FullSearch.{
  FullSearch, put_time, full_search, add_evidence, get_current_configuration,
}
use auto_pas.Tuning.FullSearch.Optimal.{KeysIn, In-get_elem?}
use auto_pas.Tuning.FullSearch.Times.{HasTime, put_time-HasTime, put_time-keeps, put_time-KeysIn}
use auto_pas.Tuning.Tuner.{
  AutoTuner, Numerics, get_current_num_samples, add_measurement, last_sample,
  bump_iteration_counters, push_sample, estimate_runtime_from_samples, evidence_of, put_evidence,
  min_ℤ, set_last,
}
use auto_pas.Tuning.Pipeline.Phase.{InPhase, here}

pub mul_le : (a b c : ℕ) → a ≤ b → a * c ≤ b * c
mul_le a b c h = grind (arith, h)

if-ok :
    {A : Type 0} (b : Bool) (x : Exception) (v : A)
    → b ≡ false
    → (w : A) × ((if b then err x else ok v) ≡ ok w)
if-ok b x v h = (v, rw h refl)

-- `addMeasurement` while samples are missing.
add_measurement-room :
    {S C D : Type 0}
    → ⦃e : Eq C⦄
    → (ops : TuningStrategy S C D) (nums : Numerics D) (sample : ℤ) (rebuilt : Bool)
      (t : AutoTuner S C D) (c : C)
    → ops.get_current_configuration t.strategy ≡ ok c
    → ltb (get_current_num_samples ops nums t) t.max_samples ≡ true
    → add_measurement ops nums sample rebuilt t ≡ (
        if get_current_num_samples ops nums (push_sample sample rebuilt t)
          == (push_sample sample rebuilt t).max_samples
        then last_sample ops nums c (push_sample sample rebuilt t)
        else ok (push_sample sample rebuilt t))
unfolding add_measurement
add_measurement-room ops nums sample true t c config room = rw (config, room) refl
add_measurement-room ops nums sample false t c config room = rw (config, room) refl

module _ {C D : Type 0} ⦃e : Eq C⦄ (nums : Numerics D) (cs : List C) (m : ℕ) where
  push_sample-samples :
      (sample : ℤ) (rebuilt : Bool) (t : AutoTuner (FullSearch C) C D)
      → length (push_sample sample rebuilt t).samples_not_rebuilding
          + length (push_sample sample rebuilt t).samples_rebuilding
        ≡ length t.samples_not_rebuilding + length t.samples_rebuilding + 1
  push_sample-samples sample true t =
      omega (arith, length-append t.samples_rebuilding (sample ∷ []))
  push_sample-samples sample false t =
      omega (arith, length-append t.samples_not_rebuilding (sample ∷ []))

  pub counted :
      (k j : ℕ) (t : AutoTuner (FullSearch C) C D)
      → InPhase cs m k j t
      → add_word t.iterations_since_tuning 1 ≡ t.tuning_interval + (k * t.max_samples + (j + 1))
  counted k j t p =
      let bound = mul_le (k + 1) (length cs) t.max_samples (omega (arith, p.inside)) in
      omega (arith, p.since, p.room, p.bounded, bound)

  -- The estimate is a number, since the rebuild frequency is not zero.
  estimate-ok :
      (t : AutoTuner (FullSearch C) C D)
      → t.rebuild_frequency ≢ 0
      → (v : ℤ) × (estimate_runtime_from_samples full_search nums t ≡ ok v)
  unfolding estimate_runtime_from_samples
  estimate-ok t h = if-ok (t.rebuild_frequency == 0) undefined _ (ground arith)

  -- The last sample of a configuration puts a time on record, and changes else only the evidence.
  last_sample-ok :
      (t : AutoTuner (FullSearch C) C D) (c : C)
      → t.rebuild_frequency ≢ 0
      → get_elem? t.strategy.search_space t.strategy.current_config ≡ some c
      → (time : ℕ) × (ev : List (C × List (ℕ × ℤ))) × (last_sample full_search nums c t
          ≡ ok (record t {
            strategy = record (t.strategy) {
              traversal_times = put_time c time t.strategy.traversal_times;
            };
            evidence = ev;
          }))
  unfolding last_sample full_search add_evidence get_current_configuration
  last_sample-ok t c h at =
      let est = estimate-ok t h in
      let collected = evidence_of full_search nums c t.evidence ++ (t.iteration, est.0) ∷ [] in
      let smoothed = min_ℤ est.0 (nums.smooth_last_point collected) in
      (
        to_size_t smoothed,
        put_evidence full_search nums c (set_last collected smoothed) t.evidence,
        rw (est.1, at) refl,
      )

  -- The tuner after a measurement: new samples, new times, new evidence and the counters.
  abbrev after :
      AutoTuner (FullSearch C) C D
      → List ℤ
      → List ℤ
      → List (C × ℕ)
      → List (C × List (ℕ × ℤ))
      → AutoTuner (FullSearch C) C D
  after t a b times ev = record t {
    strategy = record (t.strategy) { traversal_times = times };
    samples_not_rebuilding = a;
    samples_rebuilding = b;
    evidence = ev;
    iteration = add_word t.iteration 1;
    iterations_since_tuning = add_word t.iterations_since_tuning 1;
  }

  after-InPhase :
      (k j : ℕ) (t : AutoTuner (FullSearch C) C D) (a b : List ℤ) (times : List (C × ℕ))
      (ev : List (C × List (ℕ × ℤ)))
      → InPhase cs m k j t
      → j < t.max_samples
      → length a + length b ≡ length t.samples_not_rebuilding + length t.samples_rebuilding + 1
      → KeysIn cs times
      → ((i : ℕ) (c : C)
          → get_elem? cs i ≡ some c
          → (i < k) ⊎ ((i ≡ k) × ((j + 1) ≡ t.max_samples))
          → HasTime c times)
      → InPhase cs m k (j + 1) (after t a b times ev)
  after-InPhase k j t a b times ev p more count keys timed = record {
    space = p.space;
    current = p.current;
    inside = p.inside;
    several = p.several;
    samples = omega (arith, p.samples);
    total = p.total;
    wanted = p.wanted;
    bounded = omega arith;
    since = counted k j t p;
    frequency = p.frequency;
    room = p.room;
    keys = keys;
    timed = timed;
  }

  abbrev sampled : AutoTuner (FullSearch C) C D → List ℤ → List ℤ → AutoTuner (FullSearch C) C D
  sampled t a b = record t { samples_not_rebuilding = a; samples_rebuilding = b }

  -- `addMeasurement` once the sample is in one of the two vectors.
  abbrev Stored : ℕ → ℕ → AutoTuner (FullSearch C) C D → C → List ℤ → List ℤ → Type 0
  Stored k j t c a b =
      (u : AutoTuner (FullSearch C) C D) × ((if length a + length b == t.max_samples
          then last_sample full_search nums c (sampled t a b)
          else ok (sampled t a b))
        ≡ ok u)
      × InPhase cs m k j (bump_iteration_counters full_search nums u)

  timed-put :
      (k j : ℕ) (t : AutoTuner (FullSearch C) C D) (c : C) (time : ℕ)
      → InPhase cs m k j t
      → get_elem? cs k ≡ some c
      → (i : ℕ) (d : C) → get_elem? cs i ≡ some d
      → (i < k) ⊎ ((i ≡ k) × ((j + 1) ≡ t.max_samples))
      → HasTime d (put_time c time t.strategy.traversal_times)
  timed-put k j t c time p at i d at' (inl before) =
      put_time-keeps c d time t.strategy.traversal_times (p.timed i d at' (inl before))
  timed-put k j t c time p at i d at' (inr now) =
      let same : c ≡ d = ground (arith, at, at', ap (get_elem? cs) now.0) in
      subst (λ x. HasTime x (put_time c time t.strategy.traversal_times)) same
        (put_time-HasTime c time t.strategy.traversal_times)

  timed-same :
      (k j : ℕ) (t : AutoTuner (FullSearch C) C D)
      → InPhase cs m k j t
      → (j + 1) ≢ t.max_samples
      → (i : ℕ) (d : C) → get_elem? cs i ≡ some d
      → (i < k) ⊎ ((i ≡ k) × ((j + 1) ≡ t.max_samples))
      → HasTime d t.strategy.traversal_times
  timed-same k j t p missing i d at (inl before) = p.timed i d at (inl before)
  timed-same k j t p missing i d at (inr now) = absurd (missing now.1)

  stored :
      (k j : ℕ) (t : AutoTuner (FullSearch C) C D) (c : C) (a b : List ℤ)
      → InPhase cs m k j t
      → j < t.max_samples
      → length a + length b ≡ length t.samples_not_rebuilding + length t.samples_rebuilding + 1
      → get_elem? cs k ≡ some c
      → Stored k (j + 1) t c a b
  unfolding bump_iteration_counters
  stored k j t c a b p more count at = elim (Bool-cases (length a + length b == t.max_samples)) [
    | inl last ↦
        let r = last_sample-ok (sampled t a b) c p.frequency (here nums cs m k j t c p at) in
        let times = put_time c r.0 t.strategy.traversal_times in
        (
          _,
          rw last r.2,
          after-InPhase k j t a b times r.1 p more count
              (put_time-KeysIn c r.0 cs t.strategy.traversal_times (In-get_elem? cs k c at) p.keys)
              (timed-put k j t c r.0 p at),
        )
    | inr missing ↦ (
      sampled t a b,
      rw missing refl,
      after-InPhase k j t a b t.strategy.traversal_times t.evidence p more count p.keys
          (timed-same k j t p (ground (arith, p.samples))),
    )
  ]

  current-ok :
      (k j : ℕ) (t : AutoTuner (FullSearch C) C D) (c : C)
      → InPhase cs m k j t
      → get_elem? cs k ≡ some c
      → get_current_configuration t.strategy ≡ ok c
  unfolding get_current_configuration
  current-ok k j t c p at = rw (here nums cs m k j t c p at) refl

  room-ok :
      (k j : ℕ) (t : AutoTuner (FullSearch C) C D)
      → InPhase cs m k j t
      → j < t.max_samples
      → ltb (get_current_num_samples full_search nums t) t.max_samples ≡ true
  unfolding get_current_num_samples
  room-ok k j t p more = ground (arith, p.samples)

  -- A measurement in a phase leads back into the phase, one sample on.
  pub add_measurement-InPhase :
      (k j : ℕ) (t : AutoTuner (FullSearch C) C D) (c : C) (sample : ℤ) (rebuilt : Bool)
      → InPhase cs m k j t
      → j < t.max_samples
      → get_elem? cs k ≡ some c
      → (u : AutoTuner (FullSearch C) C D) × (add_measurement full_search nums sample rebuilt t
          ≡ ok u)
        × InPhase cs m k (j + 1) (bump_iteration_counters full_search nums u)
  unfolding get_current_num_samples full_search
  add_measurement-InPhase k j t c sample true p more at =
      let s =
        stored k j t c t.samples_not_rebuilding (t.samples_rebuilding ++ sample ∷ []) p more
          (push_sample-samples sample true t) at in
      (
        s.0,
        add_measurement-room full_search nums sample true t c (current-ok k j t c p at)
              (room-ok k j t p more)
            ∙ s.1,
        s.2,
      )
  add_measurement-InPhase k j t c sample false p more at =
      let s =
        stored k j t c (t.samples_not_rebuilding ++ sample ∷ []) t.samples_rebuilding p more
          (push_sample-samples sample false t) at in
      (
        s.0,
        add_measurement-room full_search nums sample false t c (current-ok k j t c p at)
              (room-ok k j t p more)
            ∙ s.1,
        s.2,
      )
