-- ===== src/Tests/Containers.antt =====
-- Particles on a line, with a box of the positions below 10, in a handler with two buffers over a
-- direct sum container, and in a tower of clusters of two.
use auto_pas.Prelude.{
  ℕ, ◌+◌, ◌≡◌, refl, Bool, true, false, List, [], ◌∷◌, some, ltb, ◌==◌, length, sub_word, arith,
}
use auto_pas.Traversal.{counting}
use auto_pas.Traversal.Loops.{bit, count}
use auto_pas.Particles.{Particle, owned, dummy, is_owned}
use auto_pas.Particles.Cell.{
  reduce, for_each, add_particle, pop_back, swap_entries, delete_dummy_particles, erase_if,
  delete_by_index,
}
use auto_pas.Particles.Cell.Counts.{delete_by_index-removes}
use auto_pas.Particles.Container.{ParticleContainer, ContainerLaws}
use auto_pas.Particles.DirectSum.{DirectSum, same, direct_sum}
use auto_pas.Particles.DirectSum.Laws.{direct_sum-ContainerLaws}
use auto_pas.Particles.Handler.{
  Handler, done, update_handler, add_owned_particle, check_neighbor_lists,
}
use auto_pas.Particles.Handler.Buffers.{flatten, is_foreign}
use auto_pas.Particles.Handler.Update.{Moved, update_handler-Moved}
use auto_pas.Particles.Handler.Accurate.{IsAccurate, start, then_step, adds, Steps-IsAccurate}
use auto_pas.Particles.Tower.{
  add_to_tower, clear, delete_tower_dummies, delete_from_tower, ClusterTower, generate_clusters,
  set_dummy_values, get_num_actual_particles, fill_last_cluster, last_particle,
  set_dummy_particles_to_last_actual_particle, copy_to_dummies,
}
use auto_pas.Particles.Tower.Shape.{IsFresh, IsFull}
use auto_pas.Particles.Tower.Generated.{IsPadded, generate_clusters-IsFull}
use auto_pas.Particles.Tower.Kept.{Filled, set_dummy_values-Filled}

abbrev at : ℕ → Particle ℕ
at r = record { id = r; r = r; ownership_state = owned }

abbrev in_box : ℕ → Bool
in_box r = ltb r 10

abbrev close : ℕ → ℕ → Bool
close a b = a == b

abbrev line : ParticleContainer (DirectSum ℕ) ℕ
line = direct_sum close in_box

abbrev laws : ContainerLaws in_box (same close) line
laws = direct_sum-ContainerLaws close in_box

delete_by_index-removes_example :
    (rest : List (Particle ℕ)) × (delete_by_index 0 (at 3 ∷ at 4 ∷ at 5 ∷ []) ≡ some rest)
    × ((t : Particle ℕ → Bool) → bit (t (at 3)) + count t rest ≡ count t (at 3 ∷ at 4 ∷ at 5 ∷ []))
delete_by_index-removes_example =
    (delete_by_index-removes (at 3 ∷ at 4 ∷ at 5 ∷ []) 0).1 (at 3) refl

abbrev no_particles : DirectSum ℕ
no_particles = record { cell = []; halo_cell = [] }

-- One particle in the container, and a particle in and one out of the box in the buffers.
abbrev handler : Handler (DirectSum ℕ) ℕ
handler = record {
  container = line.add_particle (at 2) (line.delete_all_particles no_particles);
  particle_buffer = (at 12 ∷ at 5 ∷ []) ∷ [] ∷ [];
  halo_particle_buffer = [] ∷ [] ∷ [];
  num_particles_owned = 3;
  num_particles_halo = 0;
  neighbor_lists_are_valid = true;
}

update_handler-Moved_example :
    (h' : Handler (DirectSum ℕ) ℕ) × (leaving : List (Particle ℕ)) × (update_handler line in_box
        false handler
      ≡ done (h', leaving))
    × Moved line in_box (same close) laws handler h' leaving
    × laws.IsValid h'.container
    × (count is_foreign (flatten h'.particle_buffer) ≡ 0)
    × (h'.num_particles_owned ≡ sub_word 3 (length leaving))
    × (h'.num_particles_halo ≡ 0)
update_handler-Moved_example =
    update_handler-Moved line in_box (same close) laws false handler
      (laws.add_valid (at 2) (line.delete_all_particles no_particles) refl
        (laws.delete_all_valid no_particles))
      refl

abbrev empty_handler : Handler (DirectSum ℕ) ℕ
empty_handler = record handler {
  container = line.delete_all_particles no_particles;
  particle_buffer = [] ∷ [] ∷ [];
  num_particles_owned = 0;
  neighbor_lists_are_valid = false;
}

empty_handler-IsAccurate : IsAccurate line in_box (same close) laws empty_handler
unfolding direct_sum
empty_handler-IsAccurate = record {
  valid = laws.delete_all_valid no_particles;
  own = refl;
  owned_count = refl;
  halo_count = refl;
}

abbrev with_particle : Handler (DirectSum ℕ) ℕ
with_particle = record empty_handler {
  container = line.add_particle (at 2) empty_handler.container;
  num_particles_owned = 1;
}

Steps-IsAccurate_example : IsAccurate line in_box (same close) laws with_particle
unfolding add_owned_particle check_neighbor_lists
Steps-IsAccurate_example =
    Steps-IsAccurate line in_box (same close) laws empty_handler-IsAccurate
      (then_step start (adds false 0 (at 2) refl refl))

-- Three particles, in the order of their positions.
abbrev tower : ClusterTower ℕ
tower = record {
  cluster_size = 2;
  clusters = [];
  particles_storage = at 3 ∷ at 4 ∷ at 5 ∷ [];
  num_dummy_particles = 0;
}

abbrev as_it_is : List (Particle ℕ) → List (Particle ℕ)
as_it_is ps = ps

tower-IsFresh : IsFresh tower
tower-IsFresh = record {
  positive = omega arith;
  no_clusters = refl;
  no_dummies = refl;
  small = omega arith;
}

generate_clusters-IsFull_example :
    let r = generate_clusters as_it_is tower in
    (r.1 ≡ length r.0.clusters) × IsPadded tower.particles_storage r.0 × IsFull r.0
generate_clusters-IsFull_example = generate_clusters-IsFull as_it_is tower tower-IsFresh (λ t. refl)

set_dummy_values-Filled_example :
    (g : ClusterTower ℕ) × (set_dummy_values (λ i. 1000 + i) (generate_clusters as_it_is tower).0
      ≡ some g)
    × Filled as_it_is (λ i. 1000 + i) tower g
set_dummy_values-Filled_example =
    (set_dummy_values-Filled as_it_is (λ i. 1000 + i) tower tower-IsFresh (λ t. refl)
        (omega arith)).1
      (λ e. cc e)

-- The particle that fills the last cluster becomes an owned copy of the last particle.
owned_copy_run :
    set_dummy_particles_to_last_actual_particle (generate_clusters as_it_is tower).0
    ≡ some (record (generate_clusters as_it_is tower).0 {
      particles_storage = at 3 ∷ at 4 ∷ at 5 ∷ at 5 ∷ [];
    })
unfolding set_dummy_particles_to_last_actual_particle copy_to_dummies generate_clusters
    get_num_actual_particles fill_last_cluster last_particle counting
owned_copy_run = refl

-- A tower is filled, and a particle deleted from it once it has a cluster to spare.
tower_run : add_to_tower (at 5) (add_to_tower (at 4) (add_to_tower (at 3) (clear tower))) ≡ tower
unfolding add_to_tower clear add_particle
tower_run = refl

deletion_run :
    delete_from_tower 0 (generate_clusters as_it_is tower).0
    ≡ some (record (generate_clusters as_it_is tower).0 {
      particles_storage = at 5 ∷ at 4 ∷ record { id = 5; r = 5; ownership_state = dummy } ∷ [];
    })
unfolding delete_from_tower swap_entries pop_back generate_clusters get_num_actual_particles
    fill_last_cluster last_particle counting
deletion_run = refl

no_dummies_run :
    delete_tower_dummies (generate_clusters as_it_is tower).0
    ≡ record (generate_clusters as_it_is tower).0 {
      particles_storage = at 3 ∷ at 4 ∷ at 5 ∷ [];
      num_dummy_particles = 0;
    }
unfolding delete_tower_dummies delete_dummy_particles erase_if generate_clusters
    get_num_actual_particles fill_last_cluster last_particle counting
no_dummies_run = refl

-- Positions are summed up, and moved, over the owned particles.
reduce_run :
    reduce true false is_owned
      (λ p. true)
      (λ p sum. sum + p.r)
      0
      (at 3 ∷ record { id = 9; r = 9; ownership_state = dummy } ∷ at 4 ∷ [])
    ≡ 7
unfolding reduce
reduce_run = refl

for_each_run :
    for_each true true is_owned (λ p. ltb p.r 4) (λ p. record p { r = p.r + 1 }) (at 3 ∷ at 4 ∷ [])
    ≡ record { id = 3; r = 4; ownership_state = owned } ∷ at 4 ∷ []
unfolding for_each
for_each_run = refl
