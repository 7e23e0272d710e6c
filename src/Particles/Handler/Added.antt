-- ===== src/Particles/Handler/Added.antt =====
-- What the addition of an owned or a halo particle does to the logic handler.
use auto_pas.Prelude.{
  ℕ, ◌+◌, ◌≡◌, refl, ◌∙◌, Bool, true, false, List, if◌then◌else◌, arith, inl, inr, Bool-cases,
  subst, add_word,
}
use auto_pas.Traversal.Loops.{bit, count, count-append}
use auto_pas.Particles.{Particle, is_owned}
use auto_pas.Particles.Container.{ParticleContainer, ContainerLaws, as_halo, OneMore}
use auto_pas.Particles.Handler.{
  Handler, Outcome, done, thrown, undefined, ◌>>=◌, check_neighbor_lists, add_to_buffer,
  add_owned_particle, add_halo_particle,
}
use auto_pas.Particles.Handler.Buffers.{flatten, is_foreign, add_to_buffer-one}
use auto_pas.Particles.Handler.Update.{owned_of, halo_of}

pub done_inv :
    {A B : Type 0} (r : Outcome A) (f : A → B) (b : B)
    → (r >>= λ a. done (f a)) ≡ done b
    → (a : A) × (r ≡ done a) × (f a ≡ b)
done_inv (done a) f b e = (a, refl, cc e)
done_inv thrown f b e = absurd (cc e)
done_inv undefined f b e = absurd (cc e)

pub done_eq : {A : Type 0} {a b : A} → done a ≡ done b → a ≡ b
done_eq e = cc e

module _ {C R : Type 0} (ops : ParticleContainer C R) (in_box : R → Bool)
    (same : Particle R → Particle R → Bool) (laws : ContainerLaws in_box same ops) where
  -- What the addition of an owned particle does.
  abbrev pub Added : Particle R → Handler C R → Handler C R → Type 0
  Added p h h' =
      OneMore p (owned_of ops h) (owned_of ops h')
      × ((t : Particle R → Bool) → count t (halo_of ops h') ≡ count t (halo_of ops h))
      × laws.IsValid h'.container
      × (count is_foreign (flatten h'.particle_buffer)
          ≡ count is_foreign (flatten h.particle_buffer))
      × (h'.num_particles_owned ≡ add_word h.num_particles_owned 1)
      × (h'.num_particles_halo ≡ h.num_particles_halo)

  pub container-Added :
      (p : Particle R) (h : Handler C R) (flag : Bool)
      → is_owned p ≡ true
      → laws.IsValid h.container
      → Added p h (record h {
        neighbor_lists_are_valid = flag;
        num_particles_owned = add_word h.num_particles_owned 1;
        container = ops.add_particle p h.container;
      })
  container-Added p h flag mine valid =
      let bs = flatten h.particle_buffer in
      let c' = ops.add_particle p h.container in
      (
        λ t. omega (
          arith,
          count-append t (ops.owned_particles c') bs,
          count-append t (ops.owned_particles h.container) bs,
          laws.add_owned p h.container mine t,
        ),
        λ t. omega (
          arith,
          count-append t (ops.halo_particles c') (flatten h.halo_particle_buffer),
          count-append t (ops.halo_particles h.container) (flatten h.halo_particle_buffer),
          laws.add_halo p h.container t,
        ),
        laws.add_valid p h.container mine valid,
        refl,
        refl,
        refl,
      )

  pub buffer-Added :
      (p : Particle R) (h : Handler C R) (flag : Bool) (thread : ℕ) (bs : List (List (Particle R)))
      → is_owned p ≡ true
      → laws.IsValid h.container
      → add_to_buffer thread p h.particle_buffer ≡ done bs
      → Added p h (record h {
        neighbor_lists_are_valid = flag;
        num_particles_owned = add_word h.num_particles_owned 1;
        particle_buffer = bs;
      })
  buffer-Added p h flag thread bs mine valid e =
      let one = add_to_buffer-one thread p h.particle_buffer bs e in
      let owned = ops.owned_particles h.container in
      (
        λ t. omega (
          arith,
          count-append t owned (flatten bs),
          count-append t owned (flatten h.particle_buffer),
          one t,
        ),
        λ t. refl,
        valid,
        one is_foreign ∙ rw mine (omega arith),
        refl,
        refl,
      )

  pub add_owned_particle-Added :
      (due : Bool) (thread : ℕ) (p : Particle R) (h h' : Handler C R)
      → is_owned p ≡ true
      → laws.IsValid h.container
      → add_owned_particle ops in_box due thread p h ≡ done h'
      → Added p h h'
  unfolding add_owned_particle check_neighbor_lists
  add_owned_particle-Added due thread p h h' mine valid e =
      let flag = (if due then false else h.neighbor_lists_are_valid) in
      elim (Bool-cases (in_box p.r)) [
        | inl inside ↦ elim (Bool-cases flag) [
          | inl keep ↦
              let r =
                done_inv (add_to_buffer thread p h.particle_buffer) _ h' (rw (inside, keep) at e) in
              subst (Added p h) r.2 (buffer-Added p h true thread r.0 mine valid r.1)
          | inr rebuild ↦
              subst (Added p h) (done_eq (rw (inside, rebuild) at e))
                (container-Added p h false mine valid)
        ]
        | inr outside ↦ absurd (cc (rw outside at e))
      ]

  -- What the addition of a halo particle does.
  abbrev pub HaloAdded : Particle R → Handler C R → Handler C R → Type 0
  HaloAdded p h h' =
      OneMore (as_halo p) (halo_of ops h) (halo_of ops h')
      × ((t : Particle R → Bool) → count t (owned_of ops h') ≡ count t (owned_of ops h))
      × laws.IsValid h'.container
      × (h'.particle_buffer ≡ h.particle_buffer)
      × (h'.num_particles_owned ≡ h.num_particles_owned)
      × (h'.num_particles_halo ≡ add_word h.num_particles_halo 1)

  -- A container and buffers that together have one more halo particle.
  pub parts-HaloAdded :
      (p : Particle R) (h : Handler C R) (flag : Bool) (c : C) (bs : List (List (Particle R)))
      → laws.IsValid c
      → ((t : Particle R → Bool)
          → count t (ops.owned_particles c) ≡ count t (ops.owned_particles h.container))
      → ((t : Particle R → Bool)
          → count t (ops.halo_particles c) + count t (flatten bs)
            ≡ bit (t (as_halo p))
              + (count t (ops.halo_particles h.container)
                  + count t (flatten h.halo_particle_buffer)))
      → HaloAdded p h (record h {
        neighbor_lists_are_valid = flag;
        num_particles_halo = add_word h.num_particles_halo 1;
        container = c;
        halo_particle_buffer = bs;
      })
  parts-HaloAdded p h flag c bs valid same_owned more =
      let halos = ops.halo_particles h.container in
      let owned = ops.owned_particles h.container in
      let mine = flatten h.particle_buffer in
      (
        λ t. omega (
          arith,
          count-append t (ops.halo_particles c) (flatten bs),
          count-append t halos (flatten h.halo_particle_buffer),
          more t,
        ),
        λ t. omega (
          arith,
          count-append t (ops.owned_particles c) mine,
          count-append t owned mine,
          same_owned t,
        ),
        valid,
        refl,
        refl,
        refl,
      )

  pub add_halo_particle-HaloAdded :
      (due : Bool) (thread : ℕ) (p : Particle R) (h h' : Handler C R)
      → count (same (as_halo p)) (ops.halo_particles h.container) ≡ 0
      → laws.IsValid h.container
      → add_halo_particle ops in_box due thread p h ≡ done h'
      → HaloAdded p h h'
  unfolding add_halo_particle check_neighbor_lists
  add_halo_particle-HaloAdded due thread p h h' new valid e =
      let flag = (if due then false else h.neighbor_lists_are_valid) in
      let updated = ops.update_halo_particle p h.container in
      let still_valid = laws.update_halo_valid p h.container valid in
      let still_owned = laws.update_halo_owned p h.container in
      let more = laws.update_halo_halo p h.container valid new in
      elim (Bool-cases (in_box p.r)) [
        | inl inside ↦ absurd (cc (rw inside at e))
        | inr outside ↦ elim (Bool-cases flag) [
          | inr rebuild ↦ subst (HaloAdded p h) (done_eq (rw (outside, rebuild) at e)) (
              parts-HaloAdded p h false (ops.add_halo_particle p h.container) h.halo_particle_buffer
                (laws.add_halo_valid p h.container valid) (laws.add_halo_owned p h.container)
                (λ t. omega (arith, laws.add_halo_halo p h.container t)))
          | inl keep ↦ elim (Bool-cases updated.0) [
            | inl found ↦ subst (HaloAdded p h) (done_eq (rw (outside, keep, found) at e)) (
                parts-HaloAdded p h true updated.1 h.halo_particle_buffer still_valid still_owned
                  (λ t. omega (arith, rw found at (more t))))
            | inr not_found ↦
                let r =
                  done_inv (add_to_buffer thread (as_halo p) h.halo_particle_buffer) _ h'
                    (rw (outside, keep, not_found) at e) in
                subst (HaloAdded p h) r.2 (
                  parts-HaloAdded p h true updated.1 r.0 still_valid still_owned (λ t. omega (
                    arith,
                    rw not_found at (more t),
                    add_to_buffer-one thread (as_halo p) h.halo_particle_buffer r.0 r.1 t,
                  )))
          ]
        ]
      ]
