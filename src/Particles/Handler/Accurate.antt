-- ===== src/Particles/Handler/Accurate.antt =====
-- The particle counters of the logic handler are right after every sequence of operations.
use auto_pas.Prelude.{
  ℕ, ◌+◌, ◌%◌, ◌<◌, ◌≡◌, refl, ◌∙◌, sym, Bool, true, not, ◌&&◌, List, [], ◌∷◌, length, arith, inl,
  inr, Bool-cases, word, subst, ap, sub_word,
}
use auto_pas.Traversal.Loops.{count, count-append}
use auto_pas.Particles.{Particle, is_owned}
use auto_pas.Particles.Container.{ParticleContainer, ContainerLaws, as_halo}
use auto_pas.Particles.Handler.{
  Handler, done, clear_all, add_owned_particle, add_halo_particle, update_handler,
  delete_all_particles,
}
use auto_pas.Particles.Handler.Buffers.{flatten, is_foreign, clear_all-flatten}
use auto_pas.Particles.Handler.Update.{owned_of, halo_of, update_handler-Moved}
use auto_pas.Particles.Handler.Added.{
  done_eq, add_owned_particle-Added, add_halo_particle-HaloAdded,
}

abbrev pub every : {R : Type 0} → Particle R → Bool
every p = true

count-every : {R : Type 0} (ps : List (Particle R)) → count every ps ≡ length ps
count-every [] = refl
count-every (p ∷ ps) = omega (arith, count-every ps)

count_split :
    {R : Type 0} (t : Particle R → Bool) (ps : List (Particle R))
    → count (λ p. t p && every p) ps + count (λ p. not (t p) && every p) ps ≡ count every ps
count_split t [] = refl
count_split t (p ∷ ps) = elim (Bool-cases (t p)) [
  | inl h ↦ rw h (omega (arith, count_split t ps))
  | inr h ↦ rw h (omega (arith, count_split t ps))
]

counted_less :
    (num num' n n' l : ℕ)
    → num ≡ n % word
    → num' ≡ sub_word num l
    → l < word
    → n' + l ≡ n
    → num' ≡ n' % word
counted_less num num' n n' l e f h s = omega arith

module _ {C R : Type 0} (ops : ParticleContainer C R) (in_box : R → Bool)
    (same : Particle R → Particle R → Bool) (laws : ContainerLaws in_box same ops) where
  -- The container is in a valid state, the particle buffers hold owned particles, and the counters
  -- are the numbers of particles, as words.
  pub record IsAccurate (h : Handler C R) : Type 0 where
    pub valid : laws.IsValid h.container
    pub own : count is_foreign (flatten h.particle_buffer) ≡ 0
    pub owned_count : h.num_particles_owned ≡ count every (owned_of ops h) % word
    pub halo_count : h.num_particles_halo ≡ count every (halo_of ops h) % word

  -- The operations of a client: it adds owned particles, adds halo particles that are not there,
  -- updates, and deletes all. The size of a vector is a word.
  pub data Step : Handler C R → Handler C R → Type 0 where
    adds :
        {h h' : Handler C R} (due : Bool) (thread : ℕ) (p : Particle R)
        → is_owned p ≡ true
        → add_owned_particle ops in_box due thread p h ≡ done h'
        → Step h h'
    adds_halo :
        {h h' : Handler C R} (due : Bool) (thread : ℕ) (p : Particle R)
        → count (same (as_halo p)) (ops.halo_particles h.container) ≡ 0
        → add_halo_particle ops in_box due thread p h ≡ done h'
        → Step h h'
    updates :
        {h h' : Handler C R} {leaving : List (Particle R)} (due : Bool)
        → length leaving < word
        → update_handler ops in_box due h ≡ done (h', leaving)
        → Step h h'
    deletes_all : {h : Handler C R} → Step h (delete_all_particles ops in_box h)

  pub data Steps : Handler C R → Handler C R → Type 0 where
    start : {h : Handler C R} → Steps h h
    then_step : {g h h' : Handler C R} → Steps g h → Step h h' → Steps g h'

  update-IsAccurate :
      {h h' : Handler C R} {leaving : List (Particle R)} (due : Bool)
      → IsAccurate h
      → length leaving < word
      → update_handler ops in_box due h ≡ done (h', leaving)
      → IsAccurate h'
  update-IsAccurate {h} {h'} {leaving} due a short e =
      let r = update_handler-Moved ops in_box same laws due h a.valid a.own in
      let same_result = done_eq (sym r.2 ∙ e) in
      let same_leaving : r.1 ≡ leaving = ap (λ x. x.1) same_result in
      let moved = r.3 every in
      let parted = count_split (λ p. in_box p.r) (owned_of ops h) in
      let size = count-every r.1 in
      let shorter : length r.1 < word = rw same_leaving short in
      subst IsAccurate (ap (λ x. x.0) same_result) (record {
        valid = r.4;
        own = r.5;
        owned_count =
            counted_less h.num_particles_owned r.0.num_particles_owned
              (count every (owned_of ops h)) (count every (owned_of ops r.0)) (length r.1)
              a.owned_count r.6 shorter (omega (arith, moved.0, moved.1, parted, size));
        halo_count = r.7 ∙ rw moved.2 refl;
      })

  delete_all_particles-IsAccurate :
      (h : Handler C R) → IsAccurate (delete_all_particles ops in_box h)
  unfolding delete_all_particles
  delete_all_particles-IsAccurate h =
      let c = ops.delete_all_particles h.container in
      let gone = laws.delete_all_gone h.container every in
      let no_owned = clear_all-flatten h.particle_buffer every in
      let no_halo = clear_all-flatten h.halo_particle_buffer every in
      record {
        valid = laws.delete_all_valid h.container;
        own = clear_all-flatten h.particle_buffer is_foreign;
        owned_count =
            rw (count-append every (ops.owned_particles c) (flatten (clear_all h.particle_buffer)))
              (omega (arith, gone.0, no_owned));
        halo_count =
            rw
              (count-append every (ops.halo_particles c)
                (flatten (clear_all h.halo_particle_buffer)))
              (omega (arith, gone.1, no_halo));
      }

  after-IsAccurate : {h h' : Handler C R} → IsAccurate h → Step h h' → IsAccurate h'
  after-IsAccurate {h} {h'} a (adds due thread p mine e) =
      let r = add_owned_particle-Added ops in_box same laws due thread p h h' mine a.valid e in
      record {
        valid = r.2;
        own = r.3 ∙ a.own;
        owned_count = rw (r.4, a.owned_count) (omega (arith, r.0 every));
        halo_count = r.5 ∙ a.halo_count ∙ rw (r.1 every) refl;
      }
  after-IsAccurate {h} {h'} a (adds_halo due thread p new e) =
      let r = add_halo_particle-HaloAdded ops in_box same laws due thread p h h' new a.valid e in
      record {
        valid = r.2;
        own = rw r.3 a.own;
        owned_count = r.4 ∙ a.owned_count ∙ rw (r.1 every) refl;
        halo_count = rw (r.5, a.halo_count) (omega (arith, r.0 every));
      }
  after-IsAccurate {h} {h'} a (updates {leaving} due short e) = update-IsAccurate due a short e
  after-IsAccurate {h} a deletes_all = delete_all_particles-IsAccurate h

  -- A handler with accurate counters has accurate counters after any sequence of additions of
  -- owned particles, additions of halo particles that the container does not hold, updates that
  -- return fewer than 2 ^ 64 particles, and deletions of all particles: the counters of owned and
  -- of halo particles are the numbers of these particles in the container and the buffers, modulo
  -- 2 ^ 64. The container stays in a valid state and the particle buffers hold owned particles only.
  pub Steps-IsAccurate : {h h' : Handler C R} → IsAccurate h → Steps h h' → IsAccurate h'
  Steps-IsAccurate a start = a
  Steps-IsAccurate a (then_step first last) = after-IsAccurate (Steps-IsAccurate a first) last
