-- ===== src/Particles/Cell.antt =====
-- src/autopas/cells/FullParticleCell.h: a cell is the vector of its particles. The lock and the
-- buffer of the SoA layout are left out, as is the length of the cell.
pub mod Counts
use auto_pas.Prelude.{
  ℕ, zero, suc, ◌-◌, ◌+◌, Bool, not, ◌&&◌, ◌||◌, List, [], ◌∷◌, ◌++◌, Option, none, some, ltb, leb,
  if◌then◌else◌, length, get_elem?, set,
}
use auto_pas.Particles.{Particle, is_dummy}

module _ {A : Type 0} where
  -- `back` and `pop_back` on a vector that starts with `x`.
  unfoldable pub back : A → List A → A
  back x [] = x
  back x (y ∷ ys) = back y ys

  unfoldable pub pop_back : List A → List A
  pop_back [] = []
  pop_back (x ∷ []) = []
  pop_back (x ∷ y ∷ ys) = x ∷ pop_back (y ∷ ys)

  -- The first particle of a vector is overwritten with the last one, which is removed.
  unfoldable pub swap_delete : A → List A → List A
  unfolding back pop_back
  swap_delete x [] = []
  swap_delete x (y ∷ ys) = back y ys ∷ pop_back (y ∷ ys)

  -- `std::remove_if` with `erase`.
  unfoldable pub erase_if : (A → Bool) → List A → List A
  erase_if test [] = []
  erase_if test (x ∷ xs) = let rest = erase_if test xs in if test x then rest else x ∷ rest

  -- `std::swap` of the entries at two positions. Positions past the end are undefined.
  unfoldable pub swap_entries : List A → ℕ → ℕ → Option (List A)
  swap_entries xs i j = elim (get_elem? xs i) [
    | none ↦ none
    | some a ↦ elim (get_elem? xs j) [ none ↦ none | some b ↦ some (set (set xs i b) j a) ]
  ]

module _ {R : Type 0} where
  unfoldable pub add_particle : Particle R → List (Particle R) → List (Particle R)
  add_particle p cell = cell ++ p ∷ []

  unfoldable pub delete_dummy_particles : List (Particle R) → List (Particle R)
  unfolding erase_if
  delete_dummy_particles cell = erase_if is_dummy cell

  -- `none` is the exception for an index out of range.
  unfoldable pub delete_by_index : ℕ → List (Particle R) → Option (List (Particle R))
  unfolding swap_entries pop_back
  delete_by_index index cell =
      if leb (length cell) index
      then none
      else (if ltb index (length cell - 1)
          then elim (swap_entries cell index (length cell - 1)) [
            | none ↦ none
            | some swapped ↦ some (pop_back swapped)
          ]
          else some (pop_back cell))

  -- `forEachImpl`: `ownership_check` and `region_check` are its template parameters.
  unfoldable pub for_each :
      Bool
      → Bool
      → (Particle R → Bool)
      → (Particle R → Bool)
      → (Particle R → Particle R)
      → List (Particle R)
      → List (Particle R)
  for_each ownership_check region_check contains in_region f [] = []
  for_each ownership_check region_check contains in_region f (p ∷ ps) =
      let rest = for_each ownership_check region_check contains in_region f ps in
      (if (not ownership_check || contains p) && (not region_check || in_region p) then f p else p)
      ∷ rest

  -- `reduceImpl`.
  unfoldable pub reduce :
      {A : Type 0}
      → Bool
      → Bool
      → (Particle R → Bool)
      → (Particle R → Bool)
      → (Particle R → A → A)
      → A
      → List (Particle R)
      → A
  reduce ownership_check region_check contains in_region f result [] = result
  reduce ownership_check region_check contains in_region f result (p ∷ ps) =
      reduce ownership_check region_check contains in_region f
        (if (not ownership_check || contains p) && (not region_check || in_region p)
          then f p result
          else result)
        ps
