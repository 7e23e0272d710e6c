-- ===== src/Tests/Particles.antt =====
-- A particle is added to a vector with room for it, and then all are modified.
use auto_pas.Prelude.{ℕ, ◌+◌, ◌≡◌, refl, false, [], ◌∷◌, ◌++◌, map, arith}
use auto_pas.Prelude.Int.{pos}
use auto_pas.ParticleVector.{
  ParticleVector, total_size, mark_as_clean, push_back, dirty_size, needs_rebuild, modify_all,
  modify_each, dirty_particles,
}
use auto_pas.ParticleVector.References.{unchanged, pushes, modifies, Changes-references}

abbrev grow : ℕ → ℕ
grow n = n + n + 1

abbrev two : ParticleVector ℕ
two = record {
  dirty = false;
  dirty_index = 0;
  particle_list_imp = 5 ∷ 6 ∷ [];
  capacity = 4;
  buffer = 0;
}

abbrev three : ParticleVector ℕ
three = push_back grow 7 (mark_as_clean two)

abbrev doubled : ParticleVector ℕ
doubled = modify_each (λ p. p + p) three

Changes-references_example :
    (doubled.buffer ≡ two.buffer)
    × (doubled.particle_list_imp ≡ map (λ p. p + p) two.particle_list_imp ++ 14 ∷ [])
    × (dirty_particles doubled ≡ 14 ∷ [])
    × (total_size doubled ≡ pos 3)
    × (dirty_size doubled ≡ pos 1)
unfolding needs_rebuild push_back mark_as_clean modify_each modify_all
Changes-references_example =
    Changes-references grow two doubled (λ p. p + p) (14 ∷ [])
      (modifies (λ p. p + p) (pushes 7 unchanged)) refl (omega arith)
