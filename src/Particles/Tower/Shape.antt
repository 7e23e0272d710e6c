-- ===== src/Particles/Tower/Shape.antt =====
-- The clusters of a tower are full.
use auto_pas.Prelude.{
  ℕ, ◌+◌, ◌-◌, ◌*◌, ◌/◌, ◌%◌, ◌<◌, ◌≡◌, refl, ◌∙◌, sym, ap, subst, true, false, List, [], ◌++◌,
  some, map, ltb, ◌==◌, if◌then◌else◌, length, get_elem?, replicate, word, arith, length-append,
  length-replicate,
}
use auto_pas.Traversal.{counting}
use auto_pas.Particles.{Particle, dummy, set_ownership_state}
use auto_pas.Particles.Tower.{ClusterTower, get_num_actual_particles, generate_clusters}
use auto_pas.Particles.Tower.Padding.{
  padding, padding-full, fill_last_cluster_lem, starts_lem, length-starts,
}

module _ {R : Type 0} where
  -- A tower to which particles were added since it was made or cleared.
  pub record IsFresh (t : ClusterTower R) : Type 0 where
    pub positive : 0 < t.cluster_size
    pub no_clusters : t.clusters ≡ []
    pub no_dummies : t.num_dummy_particles ≡ 0
    pub small : length t.particles_storage < word

  -- The clusters of a tower, each with a start at a multiple of the size, make up the storage.
  abbrev pub IsFull : ClusterTower R → Type 0
  IsFull g =
      (length g.particles_storage ≡ g.cluster_size * length g.clusters)
      × (g.num_dummy_particles < g.cluster_size)
      × ((i : ℕ) → i < length g.clusters → get_elem? g.clusters i ≡ some (g.cluster_size * i))

module _ {R : Type 0} (sort_by_dim : List (Particle R) → List (Particle R)) where
  abbrev pub starts : ℕ → ℕ → List ℕ
  starts size n = map (λ index. size * index) (counting ((n + padding n size) / size) 0)

  -- What the generation of the clusters makes of a fresh tower: `q` is the last particle.
  abbrev pub generated : ClusterTower R → Particle R → ClusterTower R
  generated t q =
      let n = length t.particles_storage in
      record {
        cluster_size = t.cluster_size;
        clusters = starts t.cluster_size n;
        particles_storage =
            sort_by_dim t.particles_storage
            ++ replicate (padding n t.cluster_size) (set_ownership_state dummy q);
        num_dummy_particles = padding n t.cluster_size;
      }

  actual_lem :
      (t : ClusterTower R) → IsFresh t → get_num_actual_particles t ≡ length t.particles_storage
  unfolding get_num_actual_particles
  actual_lem t fresh = rw fresh.no_dummies (omega (arith, fresh.small))

  pub length-filled :
      (t : ClusterTower R) (q : Particle R)
      → length (sort_by_dim t.particles_storage) ≡ length t.particles_storage
      → length (generated t q).particles_storage
        ≡ length t.particles_storage + padding (length t.particles_storage) t.cluster_size
  length-filled t q same_length =
      length-append (sort_by_dim t.particles_storage) _
      ∙ rw
          (
            length-replicate (padding (length t.particles_storage) t.cluster_size)
                (set_ownership_state dummy q),
            same_length,
          )
          refl

  pub generate_clusters_lem :
      (t : ClusterTower R)
      → IsFresh t
      → length (sort_by_dim t.particles_storage) ≡ length t.particles_storage
      → 0 < length t.particles_storage
      → (q : Particle R) × ((generate_clusters sort_by_dim t).0 ≡ generated t q)
        × (get_elem? (sort_by_dim t.particles_storage) (length t.particles_storage - 1) ≡ some q)
  unfolding generate_clusters
  generate_clusters_lem t fresh same_length some_there =
      let n = length t.particles_storage in
      let pad = padding n t.cluster_size in
      let sorted = sort_by_dim t.particles_storage in
      let filled = fill_last_cluster_lem pad sorted (rw same_length some_there) in
      let nonempty : ltb 0 n ≡ true = ground arith in
      let pad_lem : (if n % t.cluster_size == 0 then 0 else t.cluster_size - n % t.cluster_size)
          ≡ pad =
        unfold padding in refl in
      (
        filled.0,
        rw
            (
              actual_lem t fresh,
              nonempty,
              same_length,
              pad_lem,
              filled.1,
              fresh.no_clusters,
              length-filled t filled.0 same_length,
            )
            refl,
        subst (λ k. get_elem? (sort_by_dim t.particles_storage) (k - 1) ≡ some filled.0) same_length
            filled.2,
      )

  pub generated-IsFull :
      (t : ClusterTower R) (q : Particle R)
      → IsFresh t
      → length (sort_by_dim t.particles_storage) ≡ length t.particles_storage
      → IsFull (generated t q)
  generated-IsFull t q fresh same_length =
      let n = length t.particles_storage in
      let full = padding-full n t.cluster_size fresh.positive in
      let many = (n + padding n t.cluster_size) / t.cluster_size in
      (
        length-filled t q same_length
            ∙ full.1
            ∙ ap (λ k. t.cluster_size * k) (sym (length-starts t.cluster_size many 0)),
        full.0,
        λ i h.
            let e : 0 + i ≡ i = omega arith in
            rw e at
              (starts_lem t.cluster_size many 0 i (rw (length-starts t.cluster_size many 0) at h)),
      )

  pub generate_clusters-empty :
      (t : ClusterTower R)
      → IsFresh t
      → ltb 0 (length t.particles_storage) ≡ false
      → (generate_clusters sort_by_dim t).0 ≡ t
  unfolding generate_clusters
  generate_clusters-empty t fresh none_there = rw (actual_lem t fresh, none_there) refl
