-- ===== src/Particles/Handler.antt =====
-- src/autopas/LogicHandler.h: the particles. A particle that is added while the neighbor lists of
-- the container must stay as they are goes to the buffer of its thread. Whether a rebuild of the
-- lists is due (`stepsSinceLastListRebuild >= rebuildFrequency`, or the tuner asks for one) is an
-- argument `due` of the operations that ask; Tuning/Pipeline has the other side of it. The box of
-- the container does not change here (`resizeBox` is left out). A thread number stands for
-- `autopas_get_thread_num()`.
pub mod Buffers
pub mod Inserted
pub mod Update
pub mod Added
pub mod Accurate
use auto_pas.Prelude.{
  ℕ, zero, suc, ◌-◌, Bool, true, false, not, List, [], ◌∷◌, ◌++◌, Option, none, some, map,
  if◌then◌else◌, length, add_word, sub_word,
}
use auto_pas.Particles.{Particle, is_dummy, is_owned}
use auto_pas.Particles.Cell.{add_particle, swap_delete}
use auto_pas.Particles.Container.{ParticleContainer, as_halo}

pub record Handler (C R : Type 0) : Type 0 where
  pub container : C
  pub particle_buffer : List (List (Particle R))
  pub halo_particle_buffer : List (List (Particle R))
  pub num_particles_owned : ℕ
  pub num_particles_halo : ℕ
  pub neighbor_lists_are_valid : Bool

-- `thrown` is an exception; `undefined` an access past the end of a vector.
pub data Outcome (A : Type 0) : Type 0 where
  done : A → Outcome A
  thrown : Outcome A
  undefined : Outcome A

infixl 20 ◌>>=◌
abbrev pub ◌>>=◌ : {A B : Type 0} → Outcome A → (A → Outcome B) → Outcome B
done a >>= f = f a
thrown >>= f = thrown
undefined >>= f = undefined

module _ {R : Type 0} where
  unfoldable pub add_to_buffer :
      ℕ → Particle R → List (List (Particle R)) → Outcome (List (List (Particle R)))
  unfolding add_particle
  add_to_buffer thread p [] = undefined
  add_to_buffer zero p (b ∷ bs) = done (add_particle p b ∷ bs)
  add_to_buffer (suc thread) p (b ∷ bs) = do rest ← add_to_buffer thread p bs; done (b ∷ rest)

  -- The particle that an iterator at `p` refers to after the removal of dummies: the last
  -- particle of the vector takes the place of a dummy. Past the end there is none.
  unfoldable pub current : Particle R → List (Particle R) → Option (Particle R × List (Particle R))
  unfolding swap_delete
  current p ps = elim (if is_dummy p then swap_delete p ps else p ∷ ps) [
    | [] ↦ none
    | q ∷ qs ↦ some (q, qs)
  ]

  unfoldable pub clear_all : List (List (Particle R)) → List (List (Particle R))
  clear_all [] = []
  clear_all (b ∷ bs) = [] ∷ clear_all bs

module _ {C R : Type 0} (ops : ParticleContainer C R) (in_box : R → Bool) where
  -- `neighborListsAreValid` clears the flag where a rebuild is due.
  unfoldable pub check_neighbor_lists : Bool → Handler C R → Handler C R
  check_neighbor_lists due h = record h {
    neighbor_lists_are_valid = (if due then false else h.neighbor_lists_are_valid);
  }

  unfoldable pub add_owned_particle : Bool → ℕ → Particle R → Handler C R → Outcome (Handler C R)
  unfolding check_neighbor_lists add_to_buffer
  add_owned_particle due thread p h =
      let checked = check_neighbor_lists due h in
      let counted = record checked {
        num_particles_owned = add_word checked.num_particles_owned 1;
      } in
      let buffered = (do
        buffers ← add_to_buffer thread p checked.particle_buffer
        done (record counted { particle_buffer = buffers })) in
      if not (in_box p.r)
      then thrown
      else (if not checked.neighbor_lists_are_valid
          then done (record counted { container = ops.add_particle p checked.container })
          else buffered)

  unfoldable pub add_halo_particle : Bool → ℕ → Particle R → Handler C R → Outcome (Handler C R)
  unfolding check_neighbor_lists add_to_buffer
  add_halo_particle due thread p h =
      let checked = check_neighbor_lists due h in
      let counted = record checked { num_particles_halo = add_word checked.num_particles_halo 1 } in
      let updated = ops.update_halo_particle p checked.container in
      let buffered = (do
        buffers ← add_to_buffer thread (as_halo p) checked.halo_particle_buffer
        done (record counted { container = updated.1; halo_particle_buffer = buffers })) in
      if in_box p.r
      then thrown
      else (if not checked.neighbor_lists_are_valid
          then done (record counted { container = ops.add_halo_particle p checked.container })
          else (if updated.0 then done (record counted { container = updated.1 }) else buffered))

  -- The loop over one buffer that is emptied into the container.
  unfoldable pub insert_buffer : List (Particle R) → C → C × List (Particle R)
  insert_buffer [] c = (c, [])
  insert_buffer (p ∷ ps) c =
      let added = (if is_dummy p then c else (if in_box p.r then ops.add_particle p c else c)) in
      let rest = insert_buffer ps added in
      if is_dummy p then rest else (if in_box p.r then rest else (rest.0, p ∷ rest.1))

  unfoldable pub insert_buffers : List (List (Particle R)) → C → C × List (Particle R)
  unfolding insert_buffer
  insert_buffers [] c = (c, [])
  insert_buffers (b ∷ bs) c =
      let first = insert_buffer b c in
      let rest = insert_buffers bs first.0 in (rest.0, first.1 ++ rest.1)

  -- The loop over one buffer that stays, from some iterator on, for `fuel` rounds at most.
  unfoldable pub sweep_buffer :
      ℕ → List (Particle R) → Outcome (List (Particle R) × List (Particle R))
  unfolding current swap_delete
  sweep_buffer zero ps = done (ps, [])
  sweep_buffer (suc fuel) [] = done ([], [])
  sweep_buffer (suc fuel) (p ∷ ps) = elim (current p ps) [
    | none ↦ undefined
    | some (q, qs) ↦
        sweep_buffer fuel (if not (in_box q.r) then swap_delete q qs else qs) >>= λ rest.
        done (if not (in_box q.r) then (rest.0, q ∷ rest.1) else (q ∷ rest.0, rest.1))
  ]

  unfoldable pub sweep_buffers :
      List (List (Particle R)) → Outcome (List (List (Particle R)) × List (Particle R))
  unfolding sweep_buffer
  sweep_buffers [] = done ([], [])
  sweep_buffers (b ∷ bs) = sweep_buffer (length b) b >>= λ first.
      sweep_buffers bs >>= λ rest. done (first.0 ∷ rest.0, first.1 ++ rest.1)

  unfoldable pub collect_leaving_particles_from_buffer :
      Bool → Handler C R → Outcome (Handler C R × List (Particle R))
  unfolding insert_buffers sweep_buffers clear_all
  collect_leaving_particles_from_buffer insert_owned_particles_to_container h =
      let inserted = insert_buffers h.particle_buffer h.container in
      let emptied = record h {
        container = inserted.0;
        particle_buffer = clear_all h.particle_buffer;
      } in
      let swept = (do
        rest ← sweep_buffers h.particle_buffer
        done (record h { particle_buffer = rest.0 }, rest.1)) in
      if insert_owned_particles_to_container then done (emptied, inserted.1) else swept

  -- What `updateContainer` does after the loops over the buffers.
  unfoldable pub finish_update :
      Bool → Handler C R → List (Particle R) → Handler C R × List (Particle R)
  unfolding clear_all
  finish_update do_data_structure_update h leaving_buffer_particles =
      let updated = ops.update_container (not do_data_structure_update) h.container in
      let leaving = updated.1 ++ leaving_buffer_particles in
      (
        record h {
          container = updated.0;
          num_particles_owned = sub_word h.num_particles_owned (length leaving);
          halo_particle_buffer = clear_all h.halo_particle_buffer;
          num_particles_halo = 0;
        },
        leaving,
      )

  unfoldable pub update_handler : Bool → Handler C R → Outcome (Handler C R × List (Particle R))
  unfolding check_neighbor_lists collect_leaving_particles_from_buffer finish_update
  update_handler due h =
      let checked = check_neighbor_lists due h in
      let do_data_structure_update = not checked.neighbor_lists_are_valid in
      collect_leaving_particles_from_buffer do_data_structure_update checked >>= λ collected.
      done (finish_update do_data_structure_update collected.0 collected.1)

  unfoldable pub delete_all_particles : Handler C R → Handler C R
  unfolding clear_all
  delete_all_particles h = record {
    container = ops.delete_all_particles h.container;
    particle_buffer = clear_all h.particle_buffer;
    halo_particle_buffer = clear_all h.halo_particle_buffer;
    num_particles_owned = 0;
    num_particles_halo = 0;
    neighbor_lists_are_valid = false;
  }
