-- ===== src/Particles/Tower/Kept.antt =====
-- The particles of a tower survive the generation of the clusters and the dummies.
use auto_pas.Prelude.{
  ℕ, zero, suc, ◌+◌, ◌-◌, ◌*◌, ◌<◌, ◌≤◌, ◌≡◌, ◌≢◌, refl, ◌∙◌, ap, true, List, [], ◌∷◌, ◌++◌, none,
  some, ltb, length, get_elem?, set, word, sub_word, arith, inl, inr, Bool-cases, length-set,
  get_elem?-set_self, get_elem?-set_ne, get_elem?-length,
}
use auto_pas.Particles.{Particle, dummy}
use auto_pas.Particles.Container.{SameParticles}
use auto_pas.Particles.Tower.{
  ClusterTower, get_num_actual_particles, generate_clusters, set_dummy_values, replace_dummies,
  shrink, collect_all_actual_particles,
}
use auto_pas.Particles.Tower.Padding.{length-sort}
use auto_pas.Particles.Tower.Shape.{
  IsFresh, IsFull, generated, generated-IsFull, length-filled, generate_clusters_lem,
  generate_clusters-empty,
}

module _ {R : Type 0} where
  pub shrink-append : (ps qs : List (Particle R)) → shrink (length ps) (ps ++ qs) ≡ ps
  unfolding shrink
  shrink-append [] qs = refl
  shrink-append (p ∷ ps) qs = ap (λ rest. p ∷ rest) (shrink-append ps qs)

  -- A write behind the first `n` particles.
  shrink-set :
      (n j : ℕ) (ps : List (Particle R)) (p : Particle R)
      → n ≤ j
      → shrink n (set ps j p) ≡ shrink n ps
  unfolding shrink
  shrink-set zero j ps p h = refl
  shrink-set (suc n) j [] p h = refl
  shrink-set (suc n) zero (q ∷ ps) p h = absurd (omega arith)
  shrink-set (suc n) (suc j) (q ∷ ps) p h =
      ap (λ rest. q ∷ rest) (shrink-set n j ps p (omega arith))

-- What a dummy looks like.
abbrev pub filler : {R : Type 0} → (ℕ → R) → ℕ → Particle R
filler position i = record { id = word - 1; r = position i; ownership_state = dummy }

module _ {R : Type 0} (position : ℕ → R) (first : Particle R) (stop : ℕ) where
  replace_dummies-shrink :
      (n m : ℕ) (ps : List (Particle R))
      → m + n ≤ stop
      → shrink m (replace_dummies position first stop n ps) ≡ shrink m ps
  unfolding replace_dummies
  replace_dummies-shrink zero m ps h = refl
  replace_dummies-shrink (suc n) m ps h =
      shrink-set m (stop - suc n) (replace_dummies position first stop n ps)
        (filler position (suc n)) (omega arith)
      ∙ replace_dummies-shrink n m ps (omega arith)

  length-replace_dummies :
      (n : ℕ) (ps : List (Particle R))
      → length (replace_dummies position first stop n ps) ≡ length ps
  unfolding replace_dummies
  length-replace_dummies zero ps = refl
  length-replace_dummies (suc n) ps =
      length-set (replace_dummies position first stop n ps) (stop - suc n) _
      ∙ length-replace_dummies n ps

  replace_dummies-filler :
      (n i : ℕ) (ps : List (Particle R))
      → n ≤ stop
      → length ps ≡ stop
      → i < n
      → get_elem? (replace_dummies position first stop n ps) (stop - suc i)
        ≡ some (filler position (suc i))
  unfolding replace_dummies
  replace_dummies-filler zero i ps h long k = absurd (omega arith)
  replace_dummies-filler (suc n) i ps h long k =
      let before = replace_dummies position first stop n ps in
      let same_length = length-replace_dummies n ps in
      elim (Bool-cases (ltb i n)) [
        | inl earlier ↦
            get_elem?-set_ne before (filler position (suc n))
              (λ e. absurd (far i n stop earlier h e))
            ∙ replace_dummies-filler n i ps (omega arith) long (ground arith)
        | inr now ↦
            let e : i ≡ n = ground arith in
            rw e (get_elem?-set_self before (stop - suc n) (filler position (suc n)) (omega arith))
      ]
    where
      far : (i n stop : ℕ) → ltb i n ≡ true → suc n ≤ stop → stop - suc n ≢ stop - suc i
      far i n stop h k e = ground arith

-- The start of the last cluster, and the position after it.
last_start :
    (size k long : ℕ)
    → 0 < size
    → 0 < k
    → long ≡ size * k
    → (size * (k - 1) + size ≡ long) × (size * (k - 1) < long) × (k ≤ long)
last_start size zero long h pos e = absurd (omega arith)
last_start size (suc j) long h pos e =
    let f : size * suc j ≡ size * j + size = grind arith in
    let g : suc j - 1 ≡ j = omega arith in
    let many : suc j ≤ size * suc j = grind arith in rw g (omega arith, omega arith, omega arith)

module _ {R : Type 0} (position : ℕ → R) where
  -- A tower of full clusters, with at least one, whose storage starts with `actual`.
  full-filled :
      (u : ClusterTower R) (actual extra : List (Particle R))
      → IsFull u
      → 0 < length u.clusters
      → u.particles_storage ≡ actual ++ extra
      → length u.particles_storage ≡ length actual + u.num_dummy_particles
      → length u.particles_storage < word
      → (g : ClusterTower R) × (set_dummy_values position u ≡ some g)
        × (collect_all_actual_particles g ≡ actual)
        × (length g.particles_storage ≡ length u.particles_storage)
        × (g.num_dummy_particles ≡ u.num_dummy_particles)
        × ((i : ℕ)
            → i < g.num_dummy_particles
            → get_elem? g.particles_storage (length g.particles_storage - suc i)
              ≡ some (filler position (suc i)))
  unfolding set_dummy_values collect_all_actual_particles get_num_actual_particles
  full-filled u actual extra full some_cluster parts sizes small =
      let size = u.cluster_size in
      let k = length u.clusters in
      let long = length u.particles_storage in
      let dummies = u.num_dummy_particles in
      let last = last_start size k long (omega (arith, full.1)) some_cluster full.0 in
      let at_last : sub_word k 1 ≡ k - 1 = omega (arith, last.2) in
      let start = full.2 (k - 1) (omega arith) in
      let first = get_elem?-length u.particles_storage (size * (k - 1)) last.1 in
      let written = replace_dummies position first.0 long dummies u.particles_storage in
      let same_length = length-replace_dummies position first.0 long dummies u.particles_storage in
      let g : ClusterTower R = record u { particles_storage = written } in
      let actual_count : sub_word (length written) dummies ≡ length actual = omega arith in
      (
        g,
        rw (set_dummy_values, at_last, start, first.1, last.0) refl,
        rw actual_count (
            replace_dummies-shrink position first.0 long dummies (length actual) u.particles_storage
              (omega arith)
            ∙ rw parts (shrink-append actual extra)),
        same_length,
        refl,
        λ i h. rw same_length (
            replace_dummies-filler position first.0 long dummies i u.particles_storage (omega arith)
              refl h),
      )

module _ {R : Type 0} (sort_by_dim : List (Particle R) → List (Particle R)) (position : ℕ → R) where
  -- The tower after the dummies got their values.
  abbrev pub Filled : ClusterTower R → ClusterTower R → Type 0
  Filled t g =
      SameParticles (collect_all_actual_particles g) t.particles_storage
      × (length g.particles_storage ≡ length t.particles_storage + g.num_dummy_particles)
      × ((i : ℕ)
          → i < g.num_dummy_particles
          → get_elem? g.particles_storage (length g.particles_storage - suc i)
            ≡ some (filler position (suc i)))

  generated-Filled :
      (t : ClusterTower R) (q : Particle R)
      → IsFresh t
      → SameParticles (sort_by_dim t.particles_storage) t.particles_storage
      → 0 < length t.particles_storage
      → length t.particles_storage + t.cluster_size < word
      → (g : ClusterTower R) × (set_dummy_values position (generated sort_by_dim t q) ≡ some g)
        × Filled t g
  generated-Filled t q fresh same some_there small =
      let u = generated sort_by_dim t q in
      let same_length = length-sort _ _ same in
      let full = generated-IsFull sort_by_dim t q fresh same_length in
      let long = length-filled sort_by_dim t q same_length in
      let r =
        full-filled position u (sort_by_dim t.particles_storage) _ full
          (some_left u.cluster_size (length u.clusters) (length u.particles_storage) full.0
            (omega arith))
          refl (omega arith) (omega (arith, full.1)) in
      (r.0, r.1, (rw r.2 same, omega (arith, r.3, r.4), r.5))
    where
      some_left : (size k long : ℕ) → long ≡ size * k → 0 < long → 0 < k
      some_left size k long e h = grind arith

  -- For a tower with a positive cluster size, neither clusters nor dummies, and fewer particles
  -- than 2 ^ 64 even with a cluster more, and a sort that keeps the particles: `setDummyValues` after
  -- `generateClusters` reads past the end of the clusters if the tower has no particles. Otherwise
  -- it gives the last particles of the storage the identifier 2 ^ 64 - 1, the state of a dummy and
  -- the positions that it computes, and `collectAllActualParticles` afterwards returns the
  -- particles that were added, in any order.
  pub set_dummy_values-Filled :
      (t : ClusterTower R)
      → IsFresh t
      → SameParticles (sort_by_dim t.particles_storage) t.particles_storage
      → length t.particles_storage + t.cluster_size < word
      → let r = (generate_clusters sort_by_dim t).0 in
        (t.particles_storage ≡ [] → set_dummy_values position r ≡ none)
        × (t.particles_storage ≢ []
            → (g : ClusterTower R) × (set_dummy_values position r ≡ some g) × Filled t g)
  unfolding set_dummy_values
  set_dummy_values-Filled t fresh same small = (
    λ none_there.
        let e = generate_clusters-empty sort_by_dim t fresh (rw none_there refl) in
        rw e (nothing t fresh.no_clusters),
    λ some_there.
        let pos : 0 < length t.particles_storage = has_length t.particles_storage some_there in
        let g = generate_clusters_lem sort_by_dim t fresh (length-sort _ _ same) pos in
        rw g.1 (generated-Filled t g.0 fresh same pos small),
  )
    where
      has_length : (ps : List (Particle R)) → ps ≢ [] → 0 < length ps
      has_length [] h = absurd (h refl)
      has_length (p ∷ ps) h = omega arith

      nothing : (t : ClusterTower R) → t.clusters ≡ [] → set_dummy_values position t ≡ none
      nothing t e = rw (set_dummy_values, e) refl
