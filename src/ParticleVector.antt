-- ===== src/ParticleVector.antt =====
-- src/autopas/containers/linkedCells/ParticleVector.h: the storage of particles to which the cells of
-- linkedCellsReferences hold references. A reference is a buffer and an index in it; `std::vector`
-- takes a new buffer when the old one is full, with a capacity that `grow` stands for. The lock and
-- `reduce`, which changes nothing but its argument, are left out.
pub mod References
use auto_pas.Prelude.{
  ℕ, zero, suc, ◌+◌, ◌-◌, Bool, true, false, not, ◌==◌, if◌then◌else◌, List, [], ◌∷◌, ◌++◌, length,
  sub_word,
}
use auto_pas.Prelude.Int.{ℤ, to_size_t, to_int}

pub record ParticleVector (P : Type 0) : Type 0 where
  pub dirty : Bool
  pub dirty_index : ℕ
  pub particle_list_imp : List P
  pub capacity : ℕ
  pub buffer : ℕ

module _ {P : Type 0} where
  unfoldable pub is_dirty : ParticleVector P → Bool
  is_dirty v = v.dirty

  -- The size as an `int`.
  unfoldable pub total_size : ParticleVector P → ℤ
  unfolding to_int
  total_size v = to_int (length v.particle_list_imp)

  unfoldable pub mark_as_clean : ParticleVector P → ParticleVector P
  mark_as_clean v = record v { dirty = false; dirty_index = length v.particle_list_imp }

  -- `std::remove_if` with `erase`.
  unfoldable pub remove_if : (P → Bool) → List P → List P
  remove_if test [] = []
  remove_if test (p ∷ ps) = let rest = remove_if test ps in if test p then rest else p ∷ rest

  -- `clearHaloParticles` and `deleteDummyParticles`, which differ in the test.
  unfoldable pub remove_particles : (P → Bool) → ParticleVector P → ParticleVector P
  unfolding remove_if
  remove_particles test v = record v {
    particle_list_imp = remove_if test v.particle_list_imp;
    dirty = true;
    dirty_index = 0;
  }

  unfoldable pub push_back : (grow : ℕ → ℕ) → P → ParticleVector P → ParticleVector P
  push_back grow p v =
      let pushed = v.particle_list_imp ++ p ∷ [] in
      if v.capacity == length v.particle_list_imp
      then record {
        dirty = true;
        dirty_index = 0;
        particle_list_imp = pushed;
        capacity = grow v.capacity;
        buffer = suc v.buffer;
      }
      else record v { dirty = true; particle_list_imp = pushed }

  -- The total size is converted to `size_t` for the subtraction, and the difference back to `int`.
  unfoldable pub dirty_size : ParticleVector P → ℤ
  unfolding total_size to_size_t to_int
  dirty_size v = to_int (sub_word (to_size_t (total_size v)) v.dirty_index)

  unfoldable pub needs_rebuild : ParticleVector P → Bool
  needs_rebuild v = v.dirty_index == 0

  -- From `beginDirty` to `endDirty`.
  unfoldable pub drop : ℕ → List P → List P
  drop zero ps = ps
  drop (suc n) [] = []
  drop (suc n) (p ∷ ps) = drop n ps

  unfoldable pub dirty_particles : ParticleVector P → List P
  unfolding drop
  dirty_particles v = drop v.dirty_index v.particle_list_imp

  unfoldable pub modify_all : (P → P) → List P → List P
  modify_all f [] = []
  modify_all f (p ∷ ps) = f p ∷ modify_all f ps

  -- `forEach`.
  unfoldable pub modify_each : (P → P) → ParticleVector P → ParticleVector P
  unfolding modify_all
  modify_each f v = record v { particle_list_imp = modify_all f v.particle_list_imp }
