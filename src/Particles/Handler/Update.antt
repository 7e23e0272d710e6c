-- ===== src/Particles/Handler/Update.antt =====
-- An update of the container keeps every particle in the box and returns every other owned one.
use auto_pas.Prelude.{
  ◌+◌, ◌≡◌, refl, ◌∙◌, Bool, true, false, not, ◌&&◌, List, ◌++◌, length, arith, sub_word,
}
use auto_pas.Traversal.Loops.{count, count-append, count_none}
use auto_pas.Particles.Cell.Counts.{count_cong, count_without}
use auto_pas.Particles.{Particle}
use auto_pas.Particles.Container.{ParticleContainer, ContainerLaws}
use auto_pas.Particles.Handler.{
  Handler, done, check_neighbor_lists, insert_buffers, clear_all,
  collect_leaving_particles_from_buffer, update_handler, finish_update,
}
use auto_pas.Particles.Handler.Buffers.{
  flatten, is_foreign, Parts, clear_all-flatten, sweep_buffers-Parts,
}
use auto_pas.Particles.Handler.Inserted.{Inserted, insert_buffers-Inserted}

-- All owned and all halo particles of the handler.
module _ {C R : Type 0} (ops : ParticleContainer C R) where
  abbrev pub owned_of : Handler C R → List (Particle R)
  owned_of h = ops.owned_particles h.container ++ flatten h.particle_buffer

  abbrev pub halo_of : Handler C R → List (Particle R)
  halo_of h = ops.halo_particles h.container ++ flatten h.halo_particle_buffer

module _ {C R : Type 0} (ops : ParticleContainer C R) (in_box : R → Bool)
    (same : Particle R → Particle R → Bool) (laws : ContainerLaws in_box same ops) where
  open laws use {IsValid}

  -- What the update does to the particles of a handler.
  abbrev pub Moved : Handler C R → Handler C R → List (Particle R) → Type 0
  Moved h h' leaving =
      (t : Particle R → Bool)
      → (count t (owned_of ops h') ≡ count (λ p. in_box p.r && t p) (owned_of ops h))
        × (count t leaving ≡ count (λ p. not (in_box p.r) && t p) (owned_of ops h))
        × (count t (halo_of ops h') ≡ 0)

  -- The loops over the buffers took `h` to `g`.
  abbrev Collected : Handler C R → Handler C R → List (Particle R) → Type 0
  Collected h g found =
      (t : Particle R → Bool)
      → (count (λ p. in_box p.r && t p) (ops.owned_particles g.container)
            + count t (flatten g.particle_buffer)
          ≡ count (λ p. in_box p.r && t p) (owned_of ops h))
        × (count (λ p. not (in_box p.r) && t p) (ops.owned_particles g.container) + count t found
            ≡ count (λ p. not (in_box p.r) && t p) (owned_of ops h))

  finish_update-Moved :
      (rebuild : Bool) (h g : Handler C R) (found : List (Particle R))
      → IsValid g.container
      → Collected h g found
      → let r = finish_update ops in_box rebuild g found in Moved h r.0 r.1 × IsValid r.0.container
  unfolding finish_update
  finish_update-Moved rebuild h g found valid collected = (
    λ t.
        let keep = not rebuild in
        let updated = ops.update_container keep g.container in
        (
          count-append t (ops.owned_particles updated.0) (flatten g.particle_buffer)
              ∙ rw (laws.update_stays keep g.container valid t) (collected t).0,
          count-append t updated.1 found
              ∙ rw (laws.update_leaves keep g.container valid t) (collected t).1,
          count-append t (ops.halo_particles updated.0) (flatten (clear_all g.halo_particle_buffer))
              ∙ rw
                  (
                    laws.update_halo_gone keep g.container valid t,
                    clear_all-flatten g.halo_particle_buffer t,
                  )
                  refl,
        ),
    laws.update_valid (not rebuild) g.container valid,
  )

  insert_buffers-Collected :
      (h g : Handler C R) (found : List (Particle R))
      → Inserted ops in_box same laws (flatten h.particle_buffer) h.container g.container found
      → ((t : Particle R → Bool) → count t (flatten g.particle_buffer) ≡ 0)
      → Collected h g found
  insert_buffers-Collected h g found inserted empty t =
      let ps = flatten h.particle_buffer in
      let inside = λ (p : Particle R). in_box p.r && t p in
      let outside = λ (p : Particle R). not (in_box p.r) && t p in
      (
        omega (
          arith,
          count-append inside (ops.owned_particles h.container) ps,
          (inserted inside).0,
          count_cong (λ p. in_box p.r && inside p) inside ps (λ p. idem (in_box p.r) (t p)),
          empty t,
        ),
        omega (
          arith,
          count-append outside (ops.owned_particles h.container) ps,
          (inserted outside).0,
          count_none (λ p. in_box p.r && outside p) ps (λ p. apart (in_box p.r) (t p)),
          (inserted t).1,
        ),
      )
    where
      idem : (a b : Bool) → (a && (a && b)) ≡ (a && b)
      idem a b = ground arith

      apart : (a b : Bool) → (a && (not a && b)) ≡ false
      apart a b = ground arith

  sweep_buffers-Collected :
      (h g : Handler C R) (found : List (Particle R))
      → g.container ≡ h.container
      → Parts ops in_box (flatten h.particle_buffer) (flatten g.particle_buffer) found
      → Collected h g found
  sweep_buffers-Collected h g found e parts t =
      let ps = flatten h.particle_buffer in
      let inside = λ (p : Particle R). in_box p.r && t p in
      let outside = λ (p : Particle R). not (in_box p.r) && t p in
      rw e (
        omega (arith, count-append inside (ops.owned_particles h.container) ps, (parts t).0),
        omega (arith, count-append outside (ops.owned_particles h.container) ps, (parts t).1),
      )

  -- Both ways through the loops over the buffers.
  collect-Collected :
      (rebuild : Bool) (h : Handler C R)
      → IsValid h.container
      → count is_foreign (flatten h.particle_buffer) ≡ 0
      → (g : Handler C R) × (found : List (Particle R)) × (collect_leaving_particles_from_buffer ops
            in_box rebuild h
          ≡ done (g, found))
        × Collected h g found
        × IsValid g.container
        × (count is_foreign (flatten g.particle_buffer) ≡ 0)
        × (g.num_particles_owned ≡ h.num_particles_owned)
  unfolding collect_leaving_particles_from_buffer
  collect-Collected true h valid own =
      let r = insert_buffers ops in_box h.particle_buffer h.container in
      let inserted =
        insert_buffers-Inserted ops in_box same laws h.particle_buffer h.container own valid in
      let g : Handler C R = record h {
        container = r.0;
        particle_buffer = clear_all h.particle_buffer;
      } in
      (
        g,
        r.1,
        refl,
        insert_buffers-Collected h g r.1 inserted.1 (clear_all-flatten h.particle_buffer),
        inserted.0,
        clear_all-flatten h.particle_buffer is_foreign,
        refl,
      )
  collect-Collected false h valid own =
      let swept = sweep_buffers-Parts ops in_box h.particle_buffer own in
      let g : Handler C R = record h { particle_buffer = swept.0 } in
      (
        g,
        swept.1,
        rw swept.2 refl,
        sweep_buffers-Collected h g swept.1 refl swept.3,
        valid,
        (swept.3 is_foreign).0
            ∙ count_without is_foreign _ (λ p. false) (flatten h.particle_buffer) own
                (λ p mine. never (in_box p.r) (is_foreign p) mine)
            ∙ count_none (λ p. false) (flatten h.particle_buffer) (λ p. refl),
        refl,
      )
    where
      never : (a b : Bool) → b ≡ false → (a && b) ≡ false
      never a b h = ground arith

  -- On a handler whose container is in a valid state and whose particle buffers hold owned particles
  -- only, `updateContainer` comes to an end without an exception or undefined behaviour, whether
  -- or not a rebuild is due. Counted by any test, the owned particles in the container and the
  -- buffers afterwards are those of before that are in the box, the particles that it returns are
  -- those of before that are not, and no halo particle is left.
  pub update_handler-Moved :
      (due : Bool) (h : Handler C R)
      → IsValid h.container
      → count is_foreign (flatten h.particle_buffer) ≡ 0
      → (h' : Handler C R) × (leaving : List (Particle R)) × (update_handler ops in_box due h
          ≡ done (h', leaving))
        × Moved h h' leaving
        × IsValid h'.container
        × (count is_foreign (flatten h'.particle_buffer) ≡ 0)
        × (h'.num_particles_owned ≡ sub_word h.num_particles_owned (length leaving))
        × (h'.num_particles_halo ≡ 0)
  unfolding update_handler check_neighbor_lists finish_update
  update_handler-Moved due h valid own =
      let checked = check_neighbor_lists ops in_box due h in
      let rebuild = not checked.neighbor_lists_are_valid in
      let c = collect-Collected rebuild checked valid own in
      let r = finish_update ops in_box rebuild c.0 c.1 in
      let moved = finish_update-Moved rebuild checked c.0 c.1 c.4 c.3 in
      (r.0, r.1, rw (update_handler, c.2) refl, moved.0, moved.1, c.5, rw c.6 refl, refl)
