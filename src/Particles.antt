-- ===== src/Particles.antt =====
-- src/autopas/particles/ParticleBase.h and OwnershipState.h: a particle as far as the containers
-- and the logic handler look at it. The position has a type `R`; forces and velocities are left
-- out.
pub mod Cell
pub mod Container
pub mod DirectSum
pub mod Handler
pub mod Tower
use auto_pas.Prelude.{ℕ, Bool, true, false}

pub data OwnershipState : Type 0 where
  dummy : OwnershipState
  owned : OwnershipState
  halo : OwnershipState

pub record Particle (R : Type 0) : Type 0 where
  pub id : ℕ
  pub r : R
  pub ownership_state : OwnershipState

module _ {R : Type 0} where
  abbrev pub is_owned : Particle R → Bool
  is_owned p = elim p.ownership_state [ dummy ↦ false | owned ↦ true | halo ↦ false ]

  abbrev pub is_halo : Particle R → Bool
  is_halo p = elim p.ownership_state [ dummy ↦ false | owned ↦ false | halo ↦ true ]

  abbrev pub is_dummy : Particle R → Bool
  is_dummy p = elim p.ownership_state [ dummy ↦ true | owned ↦ false | halo ↦ false ]

  abbrev pub set_ownership_state : OwnershipState → Particle R → Particle R
  set_ownership_state state p = record p { ownership_state = state }
