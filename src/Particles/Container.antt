-- ===== src/Particles/Container.antt =====
-- src/autopas/containers/ParticleContainerInterface.h: what the logic handler asks of a container
-- of particles while its box stays the same, and what it relies on. `in_box` says whether a
-- position lies in the box; `same` whether a halo particle is the one that another stands for.
use auto_pas.Prelude.{◌+◌, ◌≡◌, Bool, true, not, ◌&&◌, List, if◌then◌else◌}
use auto_pas.Traversal.Loops.{bit, count}
use auto_pas.Particles.{Particle, halo, is_owned, set_ownership_state}

-- `addParticleImpl`, `addHaloParticleImpl`, `updateHaloParticle`, `updateContainer` and
-- `deleteAllParticles`, and the particles over which the iterators for owned and for halo
-- particles run.
pub record ParticleContainer (C R : Type 0) : Type 0 where
  pub add_particle : Particle R → C → C
  pub add_halo_particle : Particle R → C → C
  pub update_halo_particle : Particle R → C → Bool × C
  pub update_container : Bool → C → C × List (Particle R)
  pub delete_all_particles : C → C
  pub owned_particles : C → List (Particle R)
  pub halo_particles : C → List (Particle R)

abbrev pub as_halo : {R : Type 0} → Particle R → Particle R
as_halo p = set_ownership_state halo p

-- Two lists hold the same particles, in any order.
abbrev pub SameParticles : {R : Type 0} → List (Particle R) → List (Particle R) → Type 0
SameParticles {R} ps qs = (t : Particle R → Bool) → count t ps ≡ count t qs

-- `qs` holds the particles of `ps` and `p`.
abbrev pub OneMore : {R : Type 0} → Particle R → List (Particle R) → List (Particle R) → Type 0
OneMore {R} p ps qs = (t : Particle R → Bool) → count t qs ≡ bit (t p) + count t ps

pub record ContainerLaws {C R : Type 0} (in_box : R → Bool) (same : Particle R → Particle R → Bool)
    (ops : ParticleContainer C R) : Type 1 where
  pub IsValid : C → Type 0
  -- An owned particle is added to a valid container.
  pub add_valid :
      (p : Particle R) (c : C) → is_owned p ≡ true → IsValid c → IsValid (ops.add_particle p c)
  pub add_owned :
      (p : Particle R) (c : C)
      → is_owned p ≡ true
      → OneMore p (ops.owned_particles c) (ops.owned_particles (ops.add_particle p c))
  pub add_halo :
      (p : Particle R) (c : C)
      → SameParticles (ops.halo_particles (ops.add_particle p c)) (ops.halo_particles c)
  pub add_halo_valid : (p : Particle R) (c : C) → IsValid c → IsValid (ops.add_halo_particle p c)
  pub add_halo_owned :
      (p : Particle R) (c : C)
      → SameParticles (ops.owned_particles (ops.add_halo_particle p c)) (ops.owned_particles c)
  pub add_halo_halo :
      (p : Particle R) (c : C)
      → OneMore (as_halo p) (ops.halo_particles c) (ops.halo_particles (ops.add_halo_particle p c))
  pub update_halo_valid :
      (p : Particle R) (c : C) → IsValid c → IsValid (ops.update_halo_particle p c).1
  pub update_halo_owned :
      (p : Particle R) (c : C)
      → SameParticles (ops.owned_particles (ops.update_halo_particle p c).1) (ops.owned_particles c)
  -- An update of a particle that is not there as a halo particle: it revives a deleted one, or
  -- finds none.
  pub update_halo_halo :
      (p : Particle R) (c : C)
      → IsValid c
      → count (same (as_halo p)) (ops.halo_particles c) ≡ 0
      → (t : Particle R → Bool)
      → count t (ops.halo_particles (ops.update_halo_particle p c).1)
        ≡ (if (ops.update_halo_particle p c).0 then bit (t (as_halo p)) else 0)
          + count t (ops.halo_particles c)
  pub update_valid : (keep : Bool) (c : C) → IsValid c → IsValid (ops.update_container keep c).0
  -- An update removes the halo particles, keeps the owned particles in the box and returns those
  -- out of it.
  pub update_halo_gone :
      (keep : Bool) (c : C)
      → IsValid c
      → (t : Particle R → Bool) → count t (ops.halo_particles (ops.update_container keep c).0) ≡ 0
  pub update_stays :
      (keep : Bool) (c : C)
      → IsValid c
      → (t : Particle R → Bool)
      → count t (ops.owned_particles (ops.update_container keep c).0)
        ≡ count (λ p. in_box p.r && t p) (ops.owned_particles c)
  pub update_leaves :
      (keep : Bool) (c : C)
      → IsValid c
      → (t : Particle R → Bool)
      → count t (ops.update_container keep c).1
        ≡ count (λ p. not (in_box p.r) && t p) (ops.owned_particles c)
  pub delete_all_valid : (c : C) → IsValid (ops.delete_all_particles c)
  pub delete_all_gone :
      (c : C) (t : Particle R → Bool)
      → (count t (ops.owned_particles (ops.delete_all_particles c)) ≡ 0)
        × (count t (ops.halo_particles (ops.delete_all_particles c)) ≡ 0)
