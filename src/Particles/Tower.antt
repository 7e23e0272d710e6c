-- ===== src/Particles/Tower.antt =====
-- src/autopas/containers/verletClusterLists/ClusterTower.h: a tower of clusters over the particles
-- of one cell. A cluster is the index of its first particle, all have the size of the tower. The
-- sort by the third coordinate is a parameter, as are the positions that dummies get. Loading and
-- extracting the SoA, the loops over the particles and the observer of deletions are left out.
pub mod Padding
pub mod Shape
pub mod Kept
pub mod Generated
use auto_pas.Prelude.{
  ℕ, zero, suc, ◌+◌, ◌-◌, ◌*◌, ◌/◌, ◌%◌, Bool, List, [], ◌∷◌, ◌++◌, Option, none, some, map, ltb,
  leb, ◌==◌, if◌then◌else◌, length, get_elem?, set, replicate, word, sub_word,
}
use auto_pas.Traversal.{counting}
use auto_pas.Particles.{Particle, OwnershipState, dummy, set_ownership_state}
use auto_pas.Particles.Cell.{add_particle, delete_dummy_particles, swap_entries, pop_back}

pub record ClusterTower (R : Type 0) : Type 0 where
  pub cluster_size : ℕ
  pub clusters : List ℕ
  pub particles_storage : List (Particle R)
  pub num_dummy_particles : ℕ

module _ {R : Type 0} where
  unfoldable pub add_to_tower : Particle R → ClusterTower R → ClusterTower R
  unfolding add_particle
  add_to_tower p t = record t { particles_storage = add_particle p t.particles_storage }

  unfoldable pub clear : ClusterTower R → ClusterTower R
  clear t = record t { clusters = []; particles_storage = []; num_dummy_particles = 0 }

  unfoldable pub get_num_actual_particles : ClusterTower R → ℕ
  get_num_actual_particles t = sub_word (length t.particles_storage) t.num_dummy_particles

  -- The last particle of a vector.
  unfoldable pub last_particle : List (Particle R) → Option (Particle R)
  last_particle [] = none
  last_particle (p ∷ []) = some p
  last_particle (p ∷ q ∷ ps) = last_particle (q ∷ ps)

  -- The particles that fill the last cluster: deleted copies of the last particle.
  unfoldable pub fill_last_cluster : ℕ → List (Particle R) → List (Particle R)
  unfolding last_particle
  fill_last_cluster n storage = elim (last_particle storage) [
    | none ↦ storage
    | some p ↦ storage ++ replicate n (set_ownership_state dummy p)
  ]

  unfoldable pub generate_clusters :
      (List (Particle R) → List (Particle R)) → ClusterTower R → ClusterTower R × ℕ
  unfolding get_num_actual_particles fill_last_cluster counting
  generate_clusters sort_by_dim t =
      let sorted = sort_by_dim t.particles_storage in
      let size_last_cluster = length sorted % t.cluster_size in
      let dummies = (if size_last_cluster == 0 then 0 else t.cluster_size - size_last_cluster) in
      let filled = fill_last_cluster dummies sorted in
      let num_clusters = length filled / t.cluster_size in
      let starts = map (λ index. t.cluster_size * index) (counting num_clusters 0) in
      let generated =
        (if ltb 0 (get_num_actual_particles t)
          then record t {
            particles_storage = filled;
            num_dummy_particles = dummies;
            clusters = t.clusters ++ starts;
          }
          else t) in
      (generated, length generated.clusters)

  -- The loop that replaces the copies, for the last `n` particles of the last cluster: `first` is
  -- the first particle of the cluster and `stop` the position after its last one.
  unfoldable pub replace_dummies :
      (ℕ → R) → Particle R → ℕ → ℕ → List (Particle R) → List (Particle R)
  replace_dummies position first stop zero storage = storage
  replace_dummies position first stop (suc n) storage =
      set (replace_dummies position first stop n storage) (stop - suc n)
        (record first { id = word - 1; r = position (suc n); ownership_state = dummy })

  -- `none` is an access past the end: there is no last cluster, or it is not in the storage.
  unfoldable pub set_dummy_values : (ℕ → R) → ClusterTower R → Option (ClusterTower R)
  unfolding replace_dummies
  set_dummy_values position t = elim (get_elem? t.clusters (sub_word (length t.clusters) 1)) [
    | none ↦ none
    | some last_cluster ↦ elim (get_elem? t.particles_storage last_cluster) [
      | none ↦ none
      | some first ↦ some (record t {
        particles_storage =
            replace_dummies position first (last_cluster + t.cluster_size) t.num_dummy_particles
              t.particles_storage;
      })
    ]
  ]

  unfoldable pub copy_to_dummies : Particle R → ℕ → ℕ → List (Particle R) → List (Particle R)
  copy_to_dummies p stop zero storage = storage
  copy_to_dummies p stop (suc n) storage = set (copy_to_dummies p stop n storage) (stop - suc n) p

  unfoldable pub set_dummy_particles_to_last_actual_particle :
      ClusterTower R → Option (ClusterTower R)
  unfolding copy_to_dummies
  set_dummy_particles_to_last_actual_particle t =
      let reset : Option (ClusterTower R) =
        elim (get_elem? t.clusters (sub_word (length t.clusters) 1)) [
          | none ↦ none
          | some last_cluster ↦
              elim (get_elem? t.particles_storage
                (last_cluster + sub_word (sub_word t.cluster_size t.num_dummy_particles) 1)) [
                  | none ↦ none
                  | some p ↦ some (record t {
                    particles_storage =
                        copy_to_dummies p (last_cluster + t.cluster_size) t.num_dummy_particles
                          t.particles_storage;
                  })
                ]
        ] in
      if ltb 0 t.num_dummy_particles then reset else some t

  -- The first `n` particles.
  unfoldable pub shrink : ℕ → List (Particle R) → List (Particle R)
  shrink zero ps = []
  shrink (suc n) [] = []
  shrink (suc n) (p ∷ ps) = p ∷ shrink n ps

  -- `resize` only ever shrinks the vector.
  unfoldable pub collect_all_actual_particles : ClusterTower R → List (Particle R)
  unfolding shrink get_num_actual_particles
  collect_all_actual_particles t = shrink (get_num_actual_particles t) t.particles_storage

  unfoldable pub delete_tower_dummies : ClusterTower R → ClusterTower R
  unfolding delete_dummy_particles
  delete_tower_dummies t = record t {
    particles_storage = delete_dummy_particles t.particles_storage;
    num_dummy_particles = 0;
  }

  -- `none` is an access past the end.
  unfoldable pub delete_from_tower : ℕ → ClusterTower R → Option (ClusterTower R)
  unfolding swap_entries pop_back get_num_actual_particles
  delete_from_tower index t =
      let last_actual = sub_word (get_num_actual_particles t) 1 in
      let last = sub_word (length t.particles_storage) 1 in
      elim (swap_entries t.particles_storage index last_actual) [
        | none ↦ none
        | some swapped ↦
            elim (if t.num_dummy_particles == 0
              then some swapped
              else swap_entries swapped last_actual last) [
                | none ↦ none
                | some moved ↦ some (record t { particles_storage = pop_back moved })
              ]
      ]
