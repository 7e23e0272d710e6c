-- ===== src/LinkedCells/BaseStep.antt =====
-- src/autopas/containers/linkedCells/traversals/LCC08CellHandler.h and `traverseParticlePairs` of
-- LCC08Traversal.h beside it. The test whether two cells are within the interaction length is a
-- parameter `near` of the distances between them, counted in cells on each axis; the sorting
-- direction of a pair, which is computed from them, is kept as these distances.
pub mod Lookup
pub mod Entries
pub mod Indices
pub mod Places
pub mod Block
pub mod Ordered
pub mod Once
pub mod Entered
pub mod Footprint
use auto_pas.Prelude.{
  ℕ, zero, suc, ◌+◌, ◌-◌, Bool, ◌&&◌, ◌||◌, not, List, [], ◌∷◌, ◌++◌, map, ◌==◌, if◌then◌else◌,
  add_word, sub_word, mul_word,
}
use auto_pas.Mapping.{Index3, three_to_one_d}
use auto_pas.Traversal.{each, counting, c08_traversal}

-- An entry of `_cellPairOffsets`.
pub record CellPair : Type 0 where
  pub offset_1 : ℕ
  pub offset_2 : ℕ
  pub distance : Index3

-- What a base cell asks of the cell functor.
pub data Call : Type 0 where
  process_cell : ℕ → Call
  process_cell_pair : ℕ → ℕ → Index3 → Call

-- `operator[]` of a vector. Reading past its end is undefined; nothing is stated of it.
unfoldable pub lookup : List ℕ → ℕ → ℕ
lookup [] i = 0
lookup (x ∷ xs) zero = x
lookup (x ∷ xs) (suc i) = lookup xs i

abbrev pub cell_at : ℕ → ℕ → ℕ → Index3
cell_at x y z = record { x = x; y = y; z = z }

-- The first three loops.
unfoldable pub cell_offsets : Index3 → Index3 → List ℕ
unfolding each counting
cell_offsets overlap dims = each (counting (overlap.x + 1) 0) λ x.
    each (counting (overlap.y + 1) 0)
      λ y. map (λ z. three_to_one_d (cell_at x y z) dims) (counting (overlap.z + 1) 0)

unfoldable pub entry : (Index3 → Bool) → ℕ → ℕ → Index3 → List CellPair
entry near first second distance =
    if near distance
    then record { offset_1 = first; offset_2 = second; distance = distance } ∷ []
    else []

module _ (near : Index3 → Bool) (overlap : Index3) (offsets : List ℕ) where
  -- The body of the second three loops. `max(0, x - 1)` is the subtraction that stops at 0.
  unfoldable pub entries_at : ℕ → ℕ → ℕ → List CellPair
  unfolding entry lookup
  entries_at x y z =
      let ov1 = add_word overlap.x 1 in
      let ov1_squared = mul_word ov1 ov1 in
      let offset = lookup offsets (add_word (mul_word ov1_squared x) (mul_word ov1 y)) in
      let at_origin = entry near (lookup offsets z) offset (cell_at (x - 1) (y - 1) (z - 1)) in
      let back_left =
        (if not (y == overlap.y) && not (z == 0)
          then entry near (lookup offsets (add_word (sub_word ov1_squared ov1) z)) offset
              (cell_at (x - 1) (overlap.y - y - 1) (z - 1))
          else []) in
      let front_right =
        (if not (x == overlap.x) && (not (y == 0) || not (z == 0))
          then entry near (lookup offsets (add_word (mul_word ov1_squared overlap.x) z)) offset
              (cell_at (overlap.x - x - 1) (y - 1) (z - 1))
          else []) in
      let back_right =
        (if not (y == overlap.y) && (not (x == overlap.x) && not (z == 0))
          then entry near (lookup offsets (add_word (sub_word (mul_word ov1_squared ov1) ov1) z))
              offset (cell_at (overlap.x - x - 1) (overlap.y - y - 1) (z - 1))
          else []) in
      at_origin ++ (back_left ++ (front_right ++ back_right))

unfoldable pub compute_offsets : (Index3 → Bool) → Index3 → Index3 → List CellPair
unfolding cell_offsets entries_at each counting
compute_offsets near overlap dims =
    let offsets = cell_offsets overlap dims in
    each (counting (overlap.x + 1) 0) λ x.
      each (counting (overlap.y + 1) 0)
        λ y. each (counting (overlap.z + 1) 0) λ z. entries_at near overlap offsets x y z

unfoldable pub call_of : ℕ → CellPair → Call
call_of base pair =
    let index_1 = add_word base pair.offset_1 in
    let index_2 = add_word base pair.offset_2 in
    if index_1 == index_2
    then process_cell index_1
    else process_cell_pair index_1 index_2 pair.distance

unfoldable pub process_base_cell : List CellPair → ℕ → List Call
unfolding call_of
process_base_cell pairs base = map (call_of base) pairs

unfoldable pub traverse_particle_pairs : (Index3 → Bool) → Index3 → Index3 → List Call
unfolding compute_offsets process_base_cell c08_traversal each
traverse_particle_pairs near dims overlap =
    let pairs = compute_offsets near overlap dims in
    each (c08_traversal dims overlap)
      λ (col, cell). process_base_cell pairs (three_to_one_d cell dims)
