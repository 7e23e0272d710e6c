-- ===== src/Particles/Cell/Counts.antt =====
-- Which particles the operations of a cell keep, by counting.
use auto_pas.Prelude.{
  ℕ, zero, suc, ◌+◌, ◌-◌, ◌<◌, ◌≤◌, ◌≡◌, refl, sym, ◌∙◌, Bool, false, not, ◌&&◌, List, [], ◌∷◌,
  none, some, ltb, leb, length, get_elem?, set, arith, inl, inr, Bool-cases, get_elem?-length,
  length-set, get_elem?-set_ne, get_elem?-inside,
}
use auto_pas.Traversal.Loops.{bit, count}
use auto_pas.Particles.{Particle}
use auto_pas.Particles.Cell.{back, pop_back, swap_delete, erase_if, swap_entries, delete_by_index}

module _ {A : Type 0} where
  back-pop_back :
      (t : A → Bool) (x : A) (xs : List A)
      → bit (t (back x xs)) + count t (pop_back (x ∷ xs)) ≡ count t (x ∷ xs)
  unfolding back pop_back
  back-pop_back t x [] = omega arith
  back-pop_back t x (y ∷ ys) = omega (arith, back-pop_back t y ys)

  -- Overwriting the first entry with the last one removes the first entry.
  pub count-swap_delete :
      (t : A → Bool) (x : A) (xs : List A) → count t (swap_delete x xs) ≡ count t xs
  unfolding swap_delete
  count-swap_delete t x [] = refl
  count-swap_delete t x (y ∷ ys) = back-pop_back t y ys

  length-pop_back : (xs : List A) → length (pop_back xs) ≡ length xs - 1
  unfolding pop_back
  length-pop_back [] = omega arith
  length-pop_back (x ∷ []) = omega arith
  length-pop_back (x ∷ y ∷ ys) = omega (arith, length-pop_back (y ∷ ys))

  pub length-swap_delete : (x : A) (xs : List A) → length (swap_delete x xs) ≡ length xs
  unfolding swap_delete
  length-swap_delete x [] = refl
  length-swap_delete x (y ∷ ys) = omega (arith, length-pop_back (y ∷ ys))

  pub count-erase_if :
      (t u : A → Bool) (xs : List A) → count t (erase_if u xs) ≡ count (λ x. not (u x) && t x) xs
  unfolding erase_if
  count-erase_if t u [] = refl
  count-erase_if t u (x ∷ xs) = elim (Bool-cases (u x)) [
    | inl h ↦ rw (h, count-erase_if t u xs) (omega arith)
    | inr h ↦ rw h (omega (arith, count-erase_if t u xs))
  ]

  pub count_cong : (t u : A → Bool) (xs : List A) → ((x : A) → t x ≡ u x) → count t xs ≡ count u xs
  count_cong t u [] h = refl
  count_cong t u (x ∷ xs) h = rw (h x, count_cong t u xs h) refl

  -- Where no entry passes `u`, only the others matter.
  pub count_without :
      (u s t : A → Bool) (ps : List A)
      → count u ps ≡ 0
      → ((p : A) → u p ≡ false → s p ≡ t p)
      → count s ps ≡ count t ps
  count_without u s t [] h f = refl
  count_without u s t (p ∷ ps) h f = elim (Bool-cases (u p)) [
    | inl yes_u ↦ absurd (omega (arith, rw yes_u at h))
    | inr no_u ↦ rw (f p no_u, count_without u s t ps (omega (arith, rw no_u at h)) f) refl
  ]

  count-set :
      (t : A → Bool) (xs : List A) (i : ℕ) (a b : A)
      → get_elem? xs i ≡ some a
      → count t (set xs i b) + bit (t a) ≡ count t xs + bit (t b)
  count-set t [] i a b h = absurd (cc h)
  count-set t (x ∷ xs) zero a b h = let e : x ≡ a = cc h in rw e (omega arith)
  count-set t (x ∷ xs) (suc i) a b h = omega (arith, count-set t xs i a b h)

  count-last :
      (t : A → Bool) (xs : List A) (b : A)
      → get_elem? xs (length xs - 1) ≡ some b
      → bit (t b) + count t (pop_back xs) ≡ count t xs
  unfolding pop_back
  count-last t [] b h = absurd (cc h)
  count-last t (x ∷ []) b h = let e : x ≡ b = cc h in rw e (omega arith)
  count-last t (x ∷ y ∷ ys) b h =
      let e : length (x ∷ y ∷ ys) - 1 ≡ suc (length (y ∷ ys) - 1) = omega arith in
      omega (arith, count-last t (y ∷ ys) b (rw e at h))

  get_elem?-set : (xs : List A) (i : ℕ) (b : A) → i < length xs → get_elem? (set xs i b) i ≡ some b
  get_elem?-set [] i b h = absurd (omega arith)
  get_elem?-set (x ∷ xs) zero b h = refl
  get_elem?-set (x ∷ xs) (suc i) b h = get_elem?-set xs i b (omega arith)

module _ {R : Type 0} where
  -- Swapping a particle to the end and dropping it.
  swapped_out :
      (cell : List (Particle R)) (i : ℕ) (a b : Particle R)
      → get_elem? cell i ≡ some a
      → get_elem? cell (length cell - 1) ≡ some b
      → i < length cell - 1
      → (t : Particle R → Bool)
      → bit (t a) + count t (pop_back (set (set cell i b) (length cell - 1) a)) ≡ count t cell
  swapped_out cell i a b at_i at_last h t =
      let j = length cell - 1 in
      let first = count-set t cell i a b at_i in
      let long = length-set cell i b in
      let kept : get_elem? (set cell i b) j ≡ some b =
        get_elem?-set_ne cell b (λ e. absurd (omega (arith, e))) ∙ at_last in
      let second = count-set t (set cell i b) j b a kept in
      let long_too = length-set (set cell i b) j a in
      let same : length (set (set cell i b) j a) - 1 ≡ j = omega arith in
      let last : get_elem? (set (set cell i b) j a) (length (set (set cell i b) j a) - 1) ≡ some a =
        rw same (get_elem?-set (set cell i b) j a (omega arith)) in
      omega (arith, count-last t (set (set cell i b) j a) a last)

  -- The deletion of the particle at a position removes that particle and no other: for every test,
  -- the cell afterwards has as many particles that pass it, less the deleted one. The deletion at
  -- a position past the end is an exception.
  pub delete_by_index-removes :
      (cell : List (Particle R)) (index : ℕ)
      → (length cell ≤ index → delete_by_index index cell ≡ none)
        × ((a : Particle R)
            → get_elem? cell index ≡ some a
            → (rest : List (Particle R)) × (delete_by_index index cell ≡ some rest)
              × ((t : Particle R → Bool) → bit (t a) + count t rest ≡ count t cell))
  unfolding delete_by_index swap_entries
  delete_by_index-removes cell index = (
    λ h. ground arith,
    λ a at_index.
        let inside = get_elem?-inside cell index a at_index in
        let last = get_elem?-length cell (length cell - 1) (omega arith) in
        let in_range : leb (length cell) index ≡ false = ground arith in
        elim (Bool-cases (ltb index (length cell - 1))) [
          | inl before ↦ (
            pop_back (set (set cell index last.0) (length cell - 1) a),
            rw (in_range, before, at_index, last.1) refl,
            swapped_out cell index a last.0 at_index last.1 (ground arith),
          )
          | inr at_end ↦
              let e : index ≡ length cell - 1 = ground arith in
              (
                pop_back cell,
                rw (in_range, at_end) refl,
                λ t. count-last t cell a (rw (sym e) at_index),
              )
        ],
  )
