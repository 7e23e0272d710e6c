-- ===== src/Particles/DirectSum.antt =====
-- src/autopas/containers/directSum/DirectSum.h: a container of two cells, one for the owned
-- particles and one for halo particles; with `checkParticleInCellAndUpdateByIDAndPosition` of
-- src/autopas/utils/ParticleCellHelpers.h and
-- src/autopas/containers/LeavingParticleCollector.h. The iterators run through the owned particles
-- of the first and the halo particles of the second cell.
pub mod Laws
use auto_pas.Prelude.{
  ℕ, zero, suc, Bool, true, false, not, ◌&&◌, List, [], ◌∷◌, ◌==◌, if◌then◌else◌, length,
}
use auto_pas.Particles.{
  Particle, OwnershipState, dummy, halo, is_owned, is_halo, is_dummy, set_ownership_state,
}
use auto_pas.Particles.Cell.{add_particle, delete_dummy_particles, swap_delete, erase_if}
use auto_pas.Particles.Container.{ParticleContainer, as_halo}

pub record DirectSum (R : Type 0) : Type 0 where
  pub cell : List (Particle R)
  pub halo_cell : List (Particle R)

module _ {R : Type 0} where
  -- The loop over the halo particles.
  unfoldable pub mark_halo_as_dummy : List (Particle R) → List (Particle R)
  mark_halo_as_dummy [] = []
  mark_halo_as_dummy (p ∷ ps) =
      (if is_halo p then set_ownership_state dummy p else p) ∷ mark_halo_as_dummy ps

  abbrev pub keep_only : (Particle R → Bool) → List (Particle R) → List (Particle R)
  keep_only test ps = erase_if (λ p. not (test p)) ps

-- `in_box`: whether a position lies in the box.
module _ {R : Type 0} (in_box : R → Bool) where
  -- The loop over the owned particles: the cell afterwards and the leaving particles.
  unfoldable pub collect_leaving : List (Particle R) → List (Particle R) × List (Particle R)
  collect_leaving [] = ([], [])
  collect_leaving (p ∷ ps) =
      let rest = collect_leaving ps in
      if is_owned p && not (in_box p.r)
      then (set_ownership_state dummy p ∷ rest.0, p ∷ rest.1)
      else (p ∷ rest.0, rest.1)

  unfoldable pub collect_particles_and_mark_non_owned_as_dummy :
      DirectSum R → DirectSum R × List (Particle R)
  unfolding mark_halo_as_dummy collect_leaving
  collect_particles_and_mark_non_owned_as_dummy c =
      let found = collect_leaving c.cell in
      let updated : DirectSum R = record {
        cell = found.0;
        halo_cell = mark_halo_as_dummy c.halo_cell;
      } in
      (updated, found.1)

  -- The loop of `updateContainer` from some iterator on, for `fuel` rounds at most: the particles
  -- that are kept and those that are invalid.
  unfoldable pub remove_invalid : ℕ → List (Particle R) → List (Particle R) × List (Particle R)
  unfolding swap_delete
  remove_invalid zero ps = (ps, [])
  remove_invalid (suc fuel) [] = ([], [])
  remove_invalid (suc fuel) (p ∷ ps) =
      let rest = remove_invalid fuel (if not (in_box p.r) then swap_delete p ps else ps) in
      if not (in_box p.r) then (rest.0, p ∷ rest.1) else (p ∷ rest.0, rest.1)

  unfoldable pub update_container : Bool → DirectSum R → DirectSum R × List (Particle R)
  unfolding collect_particles_and_mark_non_owned_as_dummy remove_invalid delete_dummy_particles
  update_container keep_neighbor_lists_valid c =
      let actual = delete_dummy_particles c.cell in
      let swept = remove_invalid (length actual) actual in
      let updated : DirectSum R = record { cell = swept.0; halo_cell = [] } in
      if keep_neighbor_lists_valid
      then collect_particles_and_mark_non_owned_as_dummy c
      else (updated, swept.1)

-- `close`: whether two positions are closer than the Verlet skin.
module _ {R : Type 0} (close : R → R → Bool) where
  abbrev pub same : Particle R → Particle R → Bool
  same p q = q.id == p.id && close q.r p.r

  unfoldable pub check_particle_in_cell_and_update_by_id_and_position :
      Particle R → List (Particle R) → Bool × List (Particle R)
  check_particle_in_cell_and_update_by_id_and_position p [] = (false, [])
  check_particle_in_cell_and_update_by_id_and_position p (q ∷ qs) =
      let rest = check_particle_in_cell_and_update_by_id_and_position p qs in
      if same p q then (true, p ∷ qs) else (rest.0, q ∷ rest.1)

  unfoldable pub update_halo_particle : Particle R → DirectSum R → Bool × DirectSum R
  unfolding check_particle_in_cell_and_update_by_id_and_position
  update_halo_particle p c =
      let found = check_particle_in_cell_and_update_by_id_and_position (as_halo p) c.halo_cell in
      (found.0, record c { halo_cell = found.1 })

module _ {R : Type 0} (close : R → R → Bool) (in_box : R → Bool) where
  unfoldable pub direct_sum : ParticleContainer (DirectSum R) R
  unfolding add_particle update_halo_particle update_container erase_if
  direct_sum = record {
    add_particle = λ p c. record c { cell = add_particle p c.cell };
    add_halo_particle = λ p c. record c { halo_cell = add_particle (as_halo p) c.halo_cell };
    update_halo_particle = update_halo_particle close;
    update_container = update_container in_box;
    delete_all_particles = λ c. record c { cell = []; halo_cell = [] };
    owned_particles = λ c. keep_only is_owned c.cell;
    halo_particles = λ c. keep_only is_halo c.halo_cell;
  }
