-- ===== src/LinkedCells/BaseStep/Once.antt =====
-- The c08 traversal of linked cells handles each pair of neighbouring cells exactly once.
use auto_pas.Prelude.{
  ℕ, ◌+◌, ◌*◌, ◌≤◌, ◌<◌, ◌≡◌, ◌≢◌, refl, ◌∙◌, sym, Bool, true, false, not, ◌&&◌, ◌||◌, List, [],
  ◌∷◌, ltb, leb, ◌==◌, arith, ◌⊎◌, inl, inr, Bool-cases, subst,
}
use auto_pas.Mapping.{Index3, three_to_one_d}
use auto_pas.Mapping.Bijection.{Inside, Fits}
use auto_pas.Traversal.{next_to}
use auto_pas.Traversal.Coverage.{same_index}
use auto_pas.Traversal.Conflicts.{IsGrid}
use auto_pas.Traversal.Loops.{bit, count}
use auto_pas.LinkedCells.BaseStep.{Call, process_cell, process_cell_pair, traverse_particle_pairs}
use auto_pas.LinkedCells.BaseStep.Lookup.{cube}
use auto_pas.LinkedCells.BaseStep.Entries.{gap, gaps, canonical}
use auto_pas.LinkedCells.BaseStep.Places.{ordered, three_to_one_d_inj}
use auto_pas.LinkedCells.BaseStep.Block.{first, reaches}
use auto_pas.LinkedCells.BaseStep.Ordered.{count-ordered}

-- Whether a cell is a base cell.
-- No halo cell.
abbrev pub Owned : ℕ → Index3 → Index3 → Type 0
Owned o dims i =
    ((o ≤ i.x) × (i.x + o < dims.x))
    × ((o ≤ i.y) × (i.y + o < dims.y))
    × ((o ≤ i.z) × (i.z + o < dims.z))

abbrev close : ℕ → ℕ → ℕ → Bool
close o p q = leb p (q + o) && leb q (p + o)

abbrev pub neighbours : ℕ → Index3 → Index3 → Bool
neighbours o p q = close o p.x q.x && (close o p.y q.y && close o p.z q.z)

abbrev OwnedAxis : ℕ → ℕ → ℕ → ℕ → Type 0
OwnedAxis o d p q = ((o ≤ p) × (p + o < d)) ⊎ ((o ≤ q) × (q + o < d))

reaches_owned :
    (o d p q : ℕ) → OwnedAxis o d p q → (ltb (first o p q + o) d && reaches o p q) ≡ close o p q
reaches_owned o d p q h = ground arith

last_owned :
    (o d p q : ℕ)
    → OwnedAxis o d p q
    → (ltb (q + o) d && (leb q p && leb p (q + o))) ≡ (leb q p && close o p q)
last_owned o d p q h = ground arith

owned_shape :
    (a b c d e f m : Bool)
    → bit (a && (b && c)) * bit ((d && (e && f)) && m)
      ≡ bit ((a && d) && ((b && e) && ((c && f) && m)))
owned_shape a b c d e f m = ground arith

neighbours_shape :
    (a b c d k m : Bool)
    → bit (a && (b && ((d && c) && (k && m)))) ≡ bit ((a && (b && c)) && ((d && k) && m))
neighbours_shape a b c d k m = ground arith

axis_x : (o : ℕ) (dims p q : Index3) → Owned o dims p ⊎ Owned o dims q → OwnedAxis o dims.x p.x q.x
axis_x o dims p q (inl h) = inl h.0
axis_x o dims p q (inr h) = inr h.0

axis_y : (o : ℕ) (dims p q : Index3) → Owned o dims p ⊎ Owned o dims q → OwnedAxis o dims.y p.y q.y
axis_y o dims p q (inl h) = inl h.1
axis_y o dims p q (inr h) = inr h.1

axis_z : (o : ℕ) (dims p q : Index3) → Owned o dims p ⊎ Owned o dims q → OwnedAxis o dims.z p.z q.z
axis_z o dims p q (inl h) = inl (h.2.0, h.2.1)
axis_z o dims p q (inr h) = inr (h.2.0, h.2.1)

-- The call is for the two cells `a` and `c`, in one order or the other.
abbrev pub of_pair : ℕ → ℕ → Call → Bool
of_pair a c call = ordered a c call || ordered c a call

both_orders :
    (a c : ℕ) (calls : List Call)
    → a ≢ c
    → count (of_pair a c) calls ≡ count (ordered a c) calls + count (ordered c a) calls
both_orders a c [] h = refl
both_orders a c (call ∷ calls) h = omega (arith, one a c call h, both_orders a c calls h)
  where
    one :
        (a c : ℕ) (call : Call)
        → a ≢ c
        → bit (of_pair a c call) ≡ bit (ordered a c call) + bit (ordered c a call)
    one a c (process_cell i) h = ground arith
    one a c (process_cell_pair i j r) h = ground arith

one_cell : (a : ℕ) (calls : List Call) → count (of_pair a a) calls ≡ count (ordered a a) calls
one_cell a [] = refl
one_cell a (call ∷ calls) = omega (arith, one (ordered a a call), one_cell a calls)
  where
    one : (t : Bool) → bit (t || t) ≡ bit t
    one t = ground arith

close_sym : (o p q : ℕ) → close o q p ≡ close o p q
close_sym o p q = ground arith

gap_sym : (p q : ℕ) → gap q p ≡ gap p q
gap_sym p q = ground arith

-- The order of the cells, as `entered` tests it.
abbrev before : Index3 → Index3 → Bool
before p q = leb q.z p.z && canonical p q

one_order : (p q : Index3) → p ≢ q → bit (before p q) + bit (before q p) ≡ 1
one_order p q h = coordinates p.x p.y p.z q.x q.y q.z (λ ex ey ez. h (index_eq p q ex ey ez))
  where
    index_eq : (i j : Index3) → i.x ≡ j.x → i.y ≡ j.y → i.z ≡ j.z → i ≡ j
    index_eq i j ex ey ez = ground arith

    coordinates :
        (px py pz qx qy qz : ℕ)
        → ((px ≡ qx) → (py ≡ qy) → (pz ≡ qz) → ⊥)
        → bit (leb qz pz && (not (pz == qz) || (leb py qy && (leb px qx || not (py == qy)))))
            + bit (leb pz qz && (not (qz == pz) || (leb qy py && (leb qx px || not (qy == py)))))
          ≡ 1
    coordinates px py pz qx qy qz h = ground arith

self_order : (p : Index3) → before p p ≡ true
self_order p = ground arith

orders_sum :
    (n m s t : Bool) → bit s + bit t ≡ 1 → bit (n && (s && m)) + bit (n && (t && m)) ≡ bit (n && m)
orders_sum n m s t h = ground arith

module _ (near : Index3 → Bool) (o : ℕ) (dims : Index3) (fits : Fits dims)
    (grid : IsGrid dims (cube o) (next_to (cube o))) where
  count-near_ordered :
      (p q : Index3)
      → Inside p dims
      → Inside q dims
      → Owned o dims p ⊎ Owned o dims q
      → count
          (ordered (three_to_one_d p dims) (three_to_one_d q dims))
          (traverse_particle_pairs near dims (cube o))
        ≡ bit (neighbours o p q && (before p q && near (gaps p q)))
  count-near_ordered p q in_p in_q owned =
      count-ordered near o dims fits grid p q in_p in_q
      ∙ owned_shape (ltb (first o p.x q.x + o) dims.x) (ltb (first o p.y q.y + o) dims.y)
          (ltb (q.z + o) dims.z) (reaches o p.x q.x) (reaches o p.y q.y)
          (leb q.z p.z && leb p.z (q.z + o)) (canonical p q && near (gaps p q))
      ∙ rw
          (
            reaches_owned o dims.x p.x q.x (axis_x o dims p q owned),
            reaches_owned o dims.y p.y q.y (axis_y o dims p q owned),
            last_owned o dims.z p.z q.z (axis_z o dims p q owned),
          )
          (neighbours_shape (close o p.x q.x) (close o p.y q.y) (close o p.z q.z) (leb q.z p.z)
            (canonical p q) (near (gaps p q)))

  -- On a grid whose number of cells, whose sizes with twice the overlap and whose block of a base
  -- step fit a word, with an overlap of `o` cells on each axis, at most the size of the grid, and
  -- `o` layers of halo cells: for two cells of the grid, one of them no halo cell, the c08 traversal
  -- of linked cells calls the cell functor exactly once if they are at most `o` cells apart on
  -- each axis and pass the test of the interaction length, and never otherwise. The two cells may
  -- be the same.
  pub each_pair_once :
      (p q : Index3)
      → Inside p dims
      → Inside q dims
      → Owned o dims p ⊎ Owned o dims q
      → count
          (of_pair (three_to_one_d p dims) (three_to_one_d q dims))
          (traverse_particle_pairs near dims (cube o))
        ≡ bit (neighbours o p q && near (gaps p q))
  each_pair_once p q in_p in_q owned = elim (Bool-cases (same_index p q)) [
    | inl same ↦
        subst
          (λ i.
            count (of_pair (three_to_one_d p dims) (three_to_one_d i dims))
              (traverse_particle_pairs near dims (cube o))
            ≡ bit (neighbours o p i && near (gaps p i)))
          (sym (index_eq q p same))
          (one_cell (three_to_one_d p dims) _
            ∙ count-near_ordered p p in_p in_p (one_owned p q (index_eq q p same) owned)
            ∙ rw (self_order p) refl)
    | inr other ↦
        both_orders (three_to_one_d p dims) (three_to_one_d q dims) _
          (λ e. different p q other (three_to_one_d_inj dims p q fits in_p in_q e))
        ∙ rw
            (
              count-near_ordered p q in_p in_q owned,
              count-near_ordered q p in_q in_p (other_order owned),
              close_sym o p.x q.x,
              close_sym o p.y q.y,
              close_sym o p.z q.z,
              gap_sym p.x q.x,
              gap_sym p.y q.y,
              gap_sym p.z q.z,
            )
            (orders_sum (neighbours o p q) (near (gaps p q)) (before p q) (before q p)
              (one_order p q (λ e. different p q other e)))
  ]
    where
      index_eq : (i j : Index3) → same_index j i ≡ true → i ≡ j
      index_eq i j h = ground arith

      different : (i j : Index3) → same_index i j ≡ false → i ≢ j
      different i j h e = ground arith

      one_owned :
          (i j : Index3) → j ≡ i → Owned o dims i ⊎ Owned o dims j → Owned o dims i ⊎ Owned o dims i
      one_owned i j e (inl h) = inl h
      one_owned i j e (inr h) = inr (subst (Owned o dims) e h)

      other_order : {A B : Type 0} → A ⊎ B → B ⊎ A
      other_order (inl h) = inr h
      other_order (inr h) = inl h
