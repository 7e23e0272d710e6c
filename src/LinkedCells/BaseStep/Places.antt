-- ===== src/LinkedCells/BaseStep/Places.antt =====
-- The calls for the entries of `computeOffsets` as pairs of cells of the grid.
use auto_pas.Prelude.{
  ℕ, ◌+◌, ◌≤◌, ◌<◌, ◌≡◌, refl, ◌∙◌, sym, ap, Bool, true, false, ◌&&◌, List, [], ◌++◌, ◌==◌,
  if◌then◌else◌, inl, inr, arith, Bool-cases, word, add_word,
}
use auto_pas.Mapping.{Index3, three_to_one_d}
use auto_pas.Mapping.Bijection.{
  Inside, Fits, flat, flat-injective, flat-lt-volume, three_to_one_d-flat,
}
use auto_pas.Traversal.Coverage.{same_index_iff}
use auto_pas.Traversal.Loops.{bit, count, count-append}
use auto_pas.LinkedCells.BaseStep.{
  CellPair, Call, process_cell, process_cell_pair, cell_at, cell_offsets, entry, entries_at, lookup,
  call_of,
}
use auto_pas.LinkedCells.BaseStep.Lookup.{cube, lookup-cell_offsets}
use auto_pas.LinkedCells.BaseStep.Entries.{plus, lands, named}
use auto_pas.LinkedCells.BaseStep.Indices.{
  position, Small, offset_index, back_left_index, front_right_index, back_right_index,
}

-- The call is for the cells `a` and `c`, in this order.
abbrev pub ordered : ℕ → ℕ → Call → Bool
ordered a c (process_cell i) = a == i && c == i
ordered a c (process_cell_pair i j r) = a == i && c == j

ordered-call_of :
    (a c base : ℕ) (pair : CellPair)
    → ordered a c (call_of base pair)
      ≡ (a == add_word base pair.offset_1 && c == add_word base pair.offset_2)
unfolding call_of
ordered-call_of a c base pair =
    elim (Bool-cases (add_word base pair.offset_1 == add_word base pair.offset_2)) [
      | inl same ↦ rw same (ground arith)
      | inr other ↦ rw other refl
    ]

-- The calls of one entry.
count-entry :
    (near : Index3 → Bool) (a c base i j : ℕ) (d : Index3)
    → count (λ pair. ordered a c (call_of base pair)) (entry near i j d)
      ≡ bit (near d && (a == add_word base i && c == add_word base j))
unfolding entry
count-entry near a c base i j d = elim (Bool-cases (near d)) [
  | inl h ↦
      rw (h, ordered-call_of a c base (record { offset_1 = i; offset_2 = j; distance = d }))
        (omega arith)
  | inr h ↦ rw h refl
]

count-if :
    (t : CellPair → Bool) (g : Bool) (xs : List CellPair) (b : Bool)
    → count t xs ≡ bit b
    → count t (if g then xs else []) ≡ bit (g && b)
count-if t true xs b h = h
count-if t false xs b h = refl

flat-plus : (b off dims : Index3) → flat (plus b off) dims ≡ flat b dims + flat off dims
unfolding flat
flat-plus b off dims = grind arith

-- The index of a base cell plus an offset, for a cell of the grid.
pub three_to_one_d-plus :
    (dims b off : Index3)
    → Fits dims
    → Inside (plus b off) dims
    → add_word (three_to_one_d b dims) (three_to_one_d off dims) ≡ three_to_one_d (plus b off) dims
three_to_one_d-plus dims b off fits hb =
    let first : Inside b dims = (omega arith, omega arith, omega arith) in
    let second : Inside off dims = (omega arith, omega arith, omega arith) in
    let small : flat b dims + flat off dims < word =
      (rw (sym (flat-plus b off dims))
        (omega (arith, flat-lt-volume (plus b off) dims hb, fits.small))) in
    let sum : add_word (flat b dims) (flat off dims) ≡ flat b dims + flat off dims = omega arith in
    rw
      (
        three_to_one_d-flat b dims first fits,
        three_to_one_d-flat off dims second fits,
        three_to_one_d-flat (plus b off) dims hb fits,
        sum,
        sym (flat-plus b off dims),
      )
      refl

pub three_to_one_d_inj :
    (dims i j : Index3)
    → Fits dims
    → Inside i dims
    → Inside j dims
    → three_to_one_d i dims ≡ three_to_one_d j dims
    → i ≡ j
three_to_one_d_inj dims i j fits hi hj e =
    flat-injective i j dims hi hj
      (sym (three_to_one_d-flat i dims hi fits) ∙ e ∙ three_to_one_d-flat j dims hj fits)

-- A cell has that index exactly when it is the cell there.
at_place :
    (dims p b off : Index3)
    → Fits dims
    → Inside p dims
    → Inside (plus b off) dims
    → (three_to_one_d p dims == add_word (three_to_one_d b dims) (three_to_one_d off dims))
      ≡ lands p (plus b off)
at_place dims p b off fits hp hb = rw (three_to_one_d-plus dims b off fits hb) (
    sym (
      same_index_iff (plus b off) p (three_to_one_d p dims) (three_to_one_d (plus b off) dims) (
        λ e. ap (λ i. three_to_one_d i dims) e,
        λ e. three_to_one_d_inj dims p (plus b off) fits hp hb e,
      )))

four_counts :
    (t : CellPair → Bool) (ws xs ys zs : List CellPair) (h i j k : ℕ)
    → count t ws ≡ h
    → count t xs ≡ i
    → count t ys ≡ j
    → count t zs ≡ k
    → count t (ws ++ (xs ++ (ys ++ zs))) ≡ h + (i + (j + k))
four_counts t ws xs ys zs h i j k a b c d =
    count-append t ws (xs ++ (ys ++ zs))
    ∙ rw (count-append t xs (ys ++ zs), count-append t ys zs, a, b, c, d) refl

module _ (near : Index3 → Bool) (o : ℕ) (dims p q b : Index3) (fits : Fits dims) (small : Small o)
    (in_p : Inside p dims) (in_q : Inside q dims) (block : Inside (plus b (cube o)) dims) where
  abbrev pub names : CellPair → Bool
  names pair =
      ordered (three_to_one_d p dims) (three_to_one_d q dims) (call_of (three_to_one_d b dims) pair)

  abbrev pub offsets : List ℕ
  offsets = cell_offsets (cube o) dims

  -- An entry for two cells of the block.
  count-place :
      (i j x y z x' y' z' : ℕ) (d : Index3)
      → x ≤ o
      → y ≤ o
      → z ≤ o
      → x' ≤ o
      → y' ≤ o
      → z' ≤ o
      → i ≡ position o x y z
      → j ≡ position o x' y' z'
      → count names (entry near (lookup offsets i) (lookup offsets j) d)
        ≡ bit (near d && (lands p (plus b (cell_at x y z)) && lands q (plus b (cell_at x' y' z'))))
  count-place i j x y z x' y' z' d hx hy hz hx' hy' hz' ei ej =
      rw
        (
          ei,
          ej,
          lookup-cell_offsets o x y z dims hx hy hz,
          lookup-cell_offsets o x' y' z' dims hx' hy' hz',
        )
        (count-entry near (three_to_one_d p dims) (three_to_one_d q dims) (three_to_one_d b dims)
            (three_to_one_d (cell_at x y z) dims) (three_to_one_d (cell_at x' y' z') dims) d
          ∙ rw
              (
                at_place dims p b (cell_at x y z) fits in_p (omega arith, omega arith, omega arith),
                at_place dims q b (cell_at x' y' z') fits in_q
                    (omega arith, omega arith, omega arith),
              )
              refl)

  -- What the body of the loops enters for the cells `p` and `q`.
  pub count-entries_at :
      (x y z : ℕ)
      → x ≤ o
      → y ≤ o
      → z ≤ o
      → count names (entries_at near (cube o) offsets x y z) ≡ named near o p q b x y z
  unfolding entries_at
  count-entries_at x y z hx hy hz =
      let zero_in : 0 ≤ o = omega arith in
      let o_in : o ≤ o = omega arith in
      let at_z : z ≡ position o 0 0 z = omega arith in
      let at_xy = offset_index o x y small hx hy in
      four_counts names _ _ _ _ _ _ _ _
        (count-place z _ 0 0 z x y 0 _ zero_in zero_in hz hx hy zero_in at_z at_xy)
        (count-if names _ _ _ (
          count-place _ _ 0 o z x y 0 _ zero_in o_in hz hx hy zero_in (back_left_index o z small hz)
            at_xy))
        (count-if names _ _ _ (
          count-place _ _ o 0 z x y 0 _ o_in zero_in hz hx hy zero_in
            (front_right_index o z small hz) at_xy))
        (count-if names _ _ _ (
          count-place _ _ o o z x y 0 _ o_in o_in hz hx hy zero_in (back_right_index o z small hz)
            at_xy))
