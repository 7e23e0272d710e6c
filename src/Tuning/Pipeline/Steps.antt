-- ===== src/Tuning/Pipeline/Steps.antt =====
-- The iterations of a tuning phase: each measures once and leads to the next sample.
use auto_pas.Prelude.{
  ℕ, suc, ◌+◌, ◌*◌, ◌≤◌, ◌<◌, ◌≡◌, refl, ◌⊎◌, inl, inr, ap, sym, subst, true, false, ◌==◌, some,
  List, length, get_elem?, arith, get_elem?-length,
}
use auto_pas.Prelude.Classes.{Eq}
use auto_pas.Tuning.Strategy.{ok}
use auto_pas.Tuning.FullSearch.{FullSearch, full_search}
use auto_pas.Tuning.Tuner.{AutoTuner, Numerics, clear_samples}
use auto_pas.Tuning.Pipeline.{
  LogicHandler, Iteration, select_configuration, iterate_pairwise_pipeline,
}
use auto_pas.Tuning.Pipeline.Phase.{InPhase, next_same, next_config}
use auto_pas.Tuning.Pipeline.Measure.{add_measurement-InPhase, mul_le}
use auto_pas.Tuning.Pipeline.Sweep.{pipeline_tuning}
use auto_pas.Tuning.Pipeline.Start.{
  select_prepared, select_next, AtStart, fresh, fresh-InPhase, restarted, prepare_first, next_first,
  Fine,
}

module _ {C D : Type 0} where
  -- One iteration in a phase that is not over leads to the next sample.
  abbrev pub AtCount : List C → ℕ → ℕ → AutoTuner (FullSearch C) C D → Type 0
  AtCount cs m n t = (k : ℕ) × (j : ℕ) × InPhase cs m k j t × (k * m + j ≡ n)

module _ {C D : Type 0} ⦃e : Eq C⦄ (nums : Numerics D) where
  abbrev pub Tunes : List C → ℕ → ℕ → ℕ → Iteration C D → LogicHandler (FullSearch C) C D → Type 0
  Tunes cs m fuel n it h =
      (h' : LogicHandler (FullSearch C) C D) × (c : C) × (iterate_pairwise_pipeline full_search nums
          (suc fuel) it h
        ≡ ok (h', c, true))
      × AtCount cs m (n + 1) h'.tuner

  measure_at :
      (cs : List C) (m k j n fuel : ℕ) (it : Iteration C D) (h : LogicHandler (FullSearch C) C D)
      (t : AutoTuner (FullSearch C) C D) (c : C)
      → Fine it
      → InPhase cs m k j t
      → j < m
      → get_elem? cs k ≡ some c
      → select_configuration full_search nums (suc fuel) it h.tuner ≡ ok (t, c, true)
      → k * m + j ≡ n
      → Tunes cs m fuel n it h
  measure_at cs m k j n fuel it h t c fine p more at selected now =
      let r =
        pipeline_tuning full_search nums (InPhase cs m k (j + 1)) (suc fuel) it h t c fine.0
          selected
          (λ rebuilt.
            add_measurement-InPhase nums cs m k j t c it.measured rebuilt p (omega (arith, p.total))
              at) in
      (r.0, c, r.1, (k, j + 1, r.2, omega arith))

  -- The first iteration of a phase.
  pub first-Tunes :
      (cs : List C) (m fuel : ℕ) (it : Iteration C D) (h : LogicHandler (FullSearch C) C D)
      → AtStart cs m h.tuner
      → Fine it
      → Tunes cs m fuel 0 it h
  first-Tunes cs m fuel it h a fine =
      let (c, at) = get_elem?-length cs 0 (omega (arith, a.several)) in
      measure_at cs m 0 0 0 fuel it h (fresh h.tuner) c fine (fresh-InPhase nums cs m h.tuner a)
        a.wanted at
        (select_prepared nums fuel it h.tuner (restarted h.tuner) (fresh h.tuner) c true fine
          (prepare_first nums h.tuner a.first) (next_first nums cs m h.tuner c a at))
        (omega arith)

  pub not_first :
      (cs : List C) (m k j : ℕ) (t : AutoTuner (FullSearch C) C D)
      → InPhase cs m k j t
      → 0 < k * m + j
      → (t.iterations_since_tuning == t.tuning_interval) ≡ false
  not_first cs m k j t p started = ground (arith, p.since, ap (λ x. k * x) p.total)

  -- With the samples of a configuration complete, the next one is up.
  advance :
      (cs : List C) (m k : ℕ) (t : AutoTuner (FullSearch C) C D)
      → InPhase cs m k t.max_samples t
      → k + 1 < length cs
      → InPhase cs m (k + 1) 0 (
          clear_samples (record t {
            strategy = record (t.strategy) { current_config = t.strategy.current_config + 1 };
          }))
  advance cs m k t p more = record {
    total = p.total;
    wanted = p.wanted;
    space = p.space;
    current = ap (λ x. x + 1) p.current;
    inside = more;
    several = p.several;
    samples = refl;
    bounded = omega arith;
    since = omega (arith, p.since);
    frequency = p.frequency;
    room = p.room;
    keys = p.keys;
    timed = λ i c at when. p.timed i c at (earlier i when);
  }
    where
      earlier :
          (i : ℕ)
          → (i < k + 1) ⊎ ((i ≡ k + 1) × (0 ≡ t.max_samples))
          → (i < k) ⊎ ((i ≡ k) × (t.max_samples ≡ t.max_samples))
      earlier i (inl h) = ground arith
      earlier i (inr h) = absurd (omega (arith, p.wanted, h.1))

  next-Tunes_same :
      (cs : List C) (m k j fuel : ℕ) (it : Iteration C D) (h : LogicHandler (FullSearch C) C D)
      → InPhase cs m k j h.tuner
      → 0 < k * m + j
      → j < m
      → Fine it
      → Tunes cs m fuel (k * m + j) it h
  next-Tunes_same cs m k j fuel it h p started more fine =
      let (c, at) = get_elem?-length cs k p.inside in
      let next =
        next_same nums cs m k j h.tuner c p (omega (arith, ap (λ x. k * x) p.total))
          (omega (arith, p.total)) at in
      measure_at cs m k j (k * m + j) fuel it h h.tuner c fine p more at
        (select_next nums fuel it h.tuner h.tuner c true fine (not_first cs m k j h.tuner p started)
          next)
        refl

  next-Tunes_other :
      (cs : List C) (m k fuel : ℕ) (it : Iteration C D) (h : LogicHandler (FullSearch C) C D)
      → InPhase cs m k h.tuner.max_samples h.tuner
      → k * m + h.tuner.max_samples < length cs * m
      → Fine it
      → Tunes cs m fuel (k * m + h.tuner.max_samples) it h
  next-Tunes_other cs m k fuel it h p inside fine =
      let more : k + 1 < length cs = few (k + 1) (length cs) m (omega (arith, p.total)) in
      let (c, at) = get_elem?-length cs (k + 1) more in
      measure_at cs m (k + 1) 0 (k * m + h.tuner.max_samples) fuel it h _ c fine
        (advance cs m k h.tuner p more) (omega (arith, p.total, p.wanted)) at
        (select_next nums fuel it h.tuner _ c true fine
          (not_first cs m k h.tuner.max_samples h.tuner p (omega (arith, p.wanted)))
          (next_config nums cs m k h.tuner c p at more))
        (omega (arith, p.total))
    where
      few : (a b m : ℕ) → a * m < b * m → a < b
      few a b m h = ground (arith, mul_le b a m)

  -- A later one.
  pub next-Tunes :
      (cs : List C) (m k j fuel : ℕ) (it : Iteration C D) (h : LogicHandler (FullSearch C) C D)
      → InPhase cs m k j h.tuner
      → 0 < k * m + j
      → k * m + j < length cs * m
      → Fine it
      → Tunes cs m fuel (k * m + j) it h
  next-Tunes cs m k j fuel it h p started inside fine =
      elim (m_cases j m (omega (arith, p.total, p.bounded))) [
        | inl more ↦ next-Tunes_same cs m k j fuel it h p started more fine
        | inr complete ↦
            let full : h.tuner.max_samples ≡ j = omega (arith, p.total) in
            subst (λ x. Tunes cs m fuel (k * m + x) it h) full
              (next-Tunes_other cs m k fuel it h
                (subst (λ x. InPhase cs m k x h.tuner) (sym full) p) (omega arith) fine)
      ]
    where
      m_cases : (j m : ℕ) → j ≤ m → (j < m) ⊎ (j ≡ m)
      m_cases j m h = ground arith
