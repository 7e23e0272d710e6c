-- ===== src/Tuning/Pipeline/Rebuild.antt =====
-- When the neighbor lists are rebuilt in a tuning phase.
use auto_pas.Prelude.{ℕ, ◌+◌, ◌-◌, ◌*◌, ◌%◌, ◌<◌, ◌≡◌, refl, ap, ◌∙◌, true, leb, ◌==◌, List, arith}
use native.Mathlib.Nat.{mul-add-mod_self_right, mod-eq_of_lt}
use auto_pas.Prelude.Classes.{Eq}
use auto_pas.Tuning.FullSearch.{FullSearch, full_search}
use auto_pas.Tuning.Tuner.{AutoTuner, Numerics, will_rebuild_neighbor_lists}
use auto_pas.Tuning.Pipeline.Phase.{InPhase}

mod_row : (k m j : ℕ) → j < m → (k * m + j) % m ≡ j
mod_row k m j h = mul-add-mod_self_right k m j ∙ mod-eq_of_lt h

module _ {C D : Type 0} ⦃e : Eq C⦄ (nums : Numerics D) (cs : List C) (m : ℕ) where
  -- In a tuning phase with samples missing, `willRebuildNeighborLists` says yes exactly for the
  -- first sample of a configuration.
  pub will_rebuild-InPhase :
      (k j : ℕ) (t : AutoTuner (FullSearch C) C D)
      → InPhase cs m k j t
      → j < m
      → will_rebuild_neighbor_lists full_search nums t ≡ (j == 0)
  unfolding will_rebuild_neighbor_lists
  will_rebuild-InPhase k j t p more =
      let phase : leb t.tuning_interval t.iterations_since_tuning ≡ true =
        ground (arith, p.since) in
      let distance : t.iterations_since_tuning - t.tuning_interval ≡ k * t.max_samples + j =
        omega (arith, p.since) in
      let baseline : (t.iterations_since_tuning - t.tuning_interval) % t.max_samples ≡ j =
        ap (λ x. x % t.max_samples) distance ∙ mod_row k t.max_samples j (omega (arith, p.total)) in
      rw (phase, baseline) refl
