-- ===== src/Particles/Tower/Generated.antt =====
-- What the generation of the clusters of a tower leaves in its storage.
use auto_pas.Prelude.{
  ℕ, zero, suc, ◌+◌, ◌-◌, ◌<◌, ◌≡◌, refl, sym, ap, subst, ◌∙◌, false, List, [], ◌∷◌, ◌++◌, some,
  ltb, length, get_elem?, replicate, word, sub_word, arith, inl, inr, Bool-cases,
}
use auto_pas.Particles.{Particle, dummy, set_ownership_state}
use auto_pas.Particles.Container.{SameParticles}
use auto_pas.Particles.Tower.{
  ClusterTower, get_num_actual_particles, generate_clusters, collect_all_actual_particles, shrink,
}
use auto_pas.Particles.Tower.Padding.{padding, length-sort}
use auto_pas.Particles.Tower.Shape.{
  IsFresh, IsFull, generated, generated-IsFull, length-filled, generate_clusters_lem,
  generate_clusters-empty,
}
use auto_pas.Particles.Tower.Kept.{shrink-append}

module _ {A : Type 0} where
  get_elem?-append_replicate :
      (xs : List A) (n i : ℕ) (v : A)
      → i < n
      → get_elem? (xs ++ replicate n v) (length xs + i) ≡ some v
  get_elem?-append_replicate [] zero i v h = absurd (omega arith)
  get_elem?-append_replicate [] (suc n) zero v h = refl
  get_elem?-append_replicate [] (suc n) (suc i) v h =
      let e : 0 + suc i ≡ suc (0 + i) = omega arith in
      rw e (get_elem?-append_replicate [] n i v (omega arith))
  get_elem?-append_replicate (x ∷ xs) n i v h =
      let e : suc (length xs) + i ≡ suc (length xs + i) = omega arith in
      rw e (get_elem?-append_replicate xs n i v h)

  nil_of_length : (xs : List A) → length xs ≡ 0 → xs ≡ []
  nil_of_length [] h = refl
  nil_of_length (x ∷ xs) h = absurd (omega arith)

all_but : (n pad : ℕ) → n < word → sub_word (n + pad) pad ≡ n
all_but n pad h = omega arith

-- The storage of a tower `r` holds the particles `actual` and then, as its dummies, deleted copies
-- of the last one of these.
abbrev pub IsPadded : {R : Type 0} → List (Particle R) → ClusterTower R → Type 0
IsPadded {R} actual r =
    (collect_all_actual_particles r ≡ actual)
    × (length r.particles_storage ≡ length actual + r.num_dummy_particles)
    × ((i : ℕ)
        → i < r.num_dummy_particles
        → (last : Particle R) × (get_elem? actual (length actual - 1) ≡ some last)
          × (get_elem? r.particles_storage (length actual + i)
              ≡ some (set_ownership_state dummy last)))

none_at_all : (n : ℕ) → ltb 0 n ≡ false → n ≡ 0
none_at_all n h = ground arith

module _ {R : Type 0} (sort_by_dim : List (Particle R) → List (Particle R)) where
  generated-IsPadded :
      (t : ClusterTower R) (q : Particle R)
      → IsFresh t
      → length (sort_by_dim t.particles_storage) ≡ length t.particles_storage
      → get_elem? (sort_by_dim t.particles_storage) (length t.particles_storage - 1) ≡ some q
      → IsPadded (sort_by_dim t.particles_storage) (generated sort_by_dim t q)
  unfolding collect_all_actual_particles get_num_actual_particles
  generated-IsPadded t q fresh same_length last =
      let sorted = sort_by_dim t.particles_storage in
      let pad = padding (length t.particles_storage) t.cluster_size in
      let copy = set_ownership_state dummy q in
      let long : length (sorted ++ replicate pad copy) ≡ length sorted + pad =
        length-filled sort_by_dim t q same_length ∙ ap (λ n. n + pad) (sym same_length) in
      (
        rw (long, all_but (length sorted) pad (omega (arith, same_length, fresh.small)))
            (shrink-append sorted _),
        long,
        λ i h. (q, rw same_length last, get_elem?-append_replicate sorted pad i copy h),
      )

  empty-IsPadded :
      (t : ClusterTower R)
      → IsFresh t
      → length t.particles_storage ≡ 0
      → length (sort_by_dim t.particles_storage) ≡ length t.particles_storage
      → IsPadded (sort_by_dim t.particles_storage) t
  unfolding collect_all_actual_particles get_num_actual_particles shrink
  empty-IsPadded t fresh none_left same_length =
      let sorted = sort_by_dim t.particles_storage in
      let nothing : sorted ≡ [] = nil_of_length sorted (same_length ∙ none_left) in
      let none_actual : sub_word (length t.particles_storage) t.num_dummy_particles ≡ 0 =
        rw (none_left, fresh.no_dummies) refl in
      (
        rw (none_actual, nothing) refl,
        omega (arith, same_length, fresh.no_dummies),
        λ i h. absurd (omega (arith, rw fresh.no_dummies at h)),
      )

  empty-IsFull : (t : ClusterTower R) → IsFresh t → length t.particles_storage ≡ 0 → IsFull t
  empty-IsFull t fresh none_left = (
    rw fresh.no_clusters (omega (arith, none_left)),
    rw fresh.no_dummies fresh.positive,
    λ i h. absurd (omega (arith, rw fresh.no_clusters at h)),
  )

  -- The generation of the clusters of a tower with a positive cluster size, fewer than 2 ^ 64
  -- particles and neither clusters nor dummies, with a sort that keeps the particles, returns the
  -- number of clusters. `collectAllActualParticles` then returns the particles of before, as they
  -- were sorted; behind them the storage has only the dummies, each of which is the last of these
  -- particles marked as deleted. There are fewer dummies than a cluster has particles, the storage
  -- has the size of that many full clusters, and the cluster `i` starts at `i` times the size.
  pub generate_clusters-IsFull :
      (t : ClusterTower R)
      → IsFresh t
      → SameParticles (sort_by_dim t.particles_storage) t.particles_storage
      → let r = generate_clusters sort_by_dim t in
        (r.1 ≡ length r.0.clusters) × IsPadded (sort_by_dim t.particles_storage) r.0 × IsFull r.0
  unfolding generate_clusters
  generate_clusters-IsFull t fresh same = elim (Bool-cases (ltb 0 (length t.particles_storage))) [
    | inl some_there ↦
        let same_length = length-sort _ _ same in
        let g = generate_clusters_lem sort_by_dim t fresh same_length (ground arith) in
        (
          refl,
          subst (IsPadded (sort_by_dim t.particles_storage)) (sym g.1)
              (generated-IsPadded t g.0 fresh same_length g.2),
          subst IsFull (sym g.1) (generated-IsFull sort_by_dim t g.0 fresh same_length),
        )
    | inr none_there ↦
        let e = generate_clusters-empty sort_by_dim t fresh none_there in
        let none_left : length t.particles_storage ≡ 0 = none_at_all _ none_there in
        (
          refl,
          subst (IsPadded (sort_by_dim t.particles_storage)) (sym e)
              (empty-IsPadded t fresh none_left (length-sort _ _ same)),
          subst IsFull (sym e) (empty-IsFull t fresh none_left),
        )
  ]
