-- ===== src/Particles/Handler/Inserted.antt =====
-- The loops over the buffers that are emptied into the container.
use auto_pas.Prelude.{
  ◌+◌, ◌≡◌, refl, ◌∙◌, Bool, true, false, not, ◌&&◌, List, [], ◌∷◌, arith, inl, inr, Bool-cases,
}
use auto_pas.Traversal.Loops.{count, count-append}
use auto_pas.Particles.{Particle, is_owned, is_dummy}
use auto_pas.Particles.Container.{ParticleContainer, ContainerLaws}
use auto_pas.Particles.Handler.{insert_buffer, insert_buffers}
use auto_pas.Particles.Handler.Buffers.{flatten, is_foreign}

module _ {C R : Type 0} (ops : ParticleContainer C R) (in_box : R → Bool)
    (same : Particle R → Particle R → Bool) (laws : ContainerLaws in_box same ops) where
  open laws use {IsValid}

  -- What the loop over a buffer adds to the container, and what it collects.
  abbrev pub Inserted : List (Particle R) → C → C → List (Particle R) → Type 0
  Inserted ps c c' leaving =
      (t : Particle R → Bool)
      → (count t (ops.owned_particles c')
          ≡ count (λ p. in_box p.r && t p) ps + count t (ops.owned_particles c))
        × (count t leaving ≡ count (λ p. not (in_box p.r) && t p) ps)
        × (count t (ops.halo_particles c') ≡ count t (ops.halo_particles c))

  insert_buffer-Inserted :
      (ps : List (Particle R)) (c : C)
      → count is_foreign ps ≡ 0
      → IsValid c
      → let r = insert_buffer ops in_box ps c in IsValid r.0 × Inserted ps c r.0 r.1
  unfolding insert_buffer
  insert_buffer-Inserted [] c own valid = (valid, λ t. (omega arith, refl, refl))
  insert_buffer-Inserted (p ∷ ps) c own valid =
      let mine : is_owned p ≡ true = ground (arith, own) in
      let no_dummy : is_dummy p ≡ false = ground (arith, mine) in
      elim (Bool-cases (in_box p.r)) [
        | inl inside ↦
            let rest =
              insert_buffer-Inserted ps (ops.add_particle p c) (omega (arith, own))
                (laws.add_valid p c mine valid) in
            rw (no_dummy, inside)
              (
                rest.0,
                λ t. (
                  (omega (arith, (rest.1 t).0, laws.add_owned p c mine t)),
                  (omega (arith, (rest.1 t).1)),
                  (rest.1 t).2 ∙ laws.add_halo p c t,
                ),
              )
        | inr outside ↦
            let rest = insert_buffer-Inserted ps c (omega (arith, own)) valid in
            rw (no_dummy, outside)
              (
                rest.0,
                λ t. ((omega (arith, (rest.1 t).0)), (omega (arith, (rest.1 t).1)), (rest.1 t).2),
              )
      ]

  pub insert_buffers-Inserted :
      (bs : List (List (Particle R))) (c : C)
      → count is_foreign (flatten bs) ≡ 0
      → IsValid c
      → let r = insert_buffers ops in_box bs c in IsValid r.0 × Inserted (flatten bs) c r.0 r.1
  unfolding insert_buffers
  insert_buffers-Inserted [] c own valid = (valid, λ t. (omega arith, refl, refl))
  insert_buffers-Inserted (b ∷ bs) c own valid =
      let split = count-append is_foreign b (flatten bs) in
      let first = insert_buffer-Inserted b c (omega (arith, split, own)) valid in
      let rest =
        insert_buffers-Inserted bs (insert_buffer ops in_box b c).0 (omega (arith, split, own))
          first.0 in
      (
        rest.0,
        λ t. (
          omega (
            arith,
            (first.1 t).0,
            (rest.1 t).0,
            count-append (λ p. in_box p.r && t p) b (flatten bs),
          ),
          omega (
            arith,
            (first.1 t).1,
            (rest.1 t).1,
            count-append (λ p. not (in_box p.r) && t p) b (flatten bs),
            count-append t (insert_buffer ops in_box b c).1
                (insert_buffers ops in_box bs (insert_buffer ops in_box b c).0).1,
          ),
          (rest.1 t).2 ∙ (first.1 t).2,
        ),
      )
