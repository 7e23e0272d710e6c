-- ===== src/LinkedCells/BaseStep/Footprint.antt =====
-- Which cells a base step of the c08 traversal touches: those of its block.
use auto_pas.Prelude.{
  ℕ, ◌+◌, ◌≤◌, ◌<◌, ◌≡◌, sym, ap, ◌∙◌, Bool, true, List, ◌==◌, arith, In, ◌⊎◌, inl, inr, Bool-cases,
  add_word, subst,
}
use auto_pas.Mapping.{Index3, three_to_one_d}
use auto_pas.Mapping.Bijection.{Inside, Fits, volume, flat-lt-volume, three_to_one_d-flat}
use auto_pas.Traversal.{origin, next_to, c08_traversal}
use auto_pas.Traversal.Conflicts.{IsGrid, Near, c08_no_conflict}
use auto_pas.LinkedCells.BaseStep.{
  CellPair, Call, process_cell, process_cell_pair, compute_offsets, call_of, process_base_cell,
}
use auto_pas.LinkedCells.BaseStep.Lookup.{cube}
use auto_pas.LinkedCells.BaseStep.Entries.{plus}
use auto_pas.LinkedCells.BaseStep.Places.{three_to_one_d-plus, three_to_one_d_inj}
use auto_pas.LinkedCells.BaseStep.Ordered.{is_base, visited, visited_often, block-Small}
use auto_pas.LinkedCells.BaseStep.Entered.{In-map, OfBlock, compute_offsets-OfBlock}

-- The call reads or writes the particles of the cell `k`.
abbrev pub Touches : Call → ℕ → Type 0
Touches (process_cell i) k = k ≡ i
Touches (process_cell_pair i j r) k = (k ≡ i) ⊎ (k ≡ j)

Touches-call_of :
    (base k : ℕ) (pair : CellPair)
    → Touches (call_of base pair) k
    → (k ≡ add_word base pair.offset_1) ⊎ (k ≡ add_word base pair.offset_2)
unfolding call_of
Touches-call_of base k pair h =
    elim (Bool-cases (add_word base pair.offset_1 == add_word base pair.offset_2)) [
      | inl same ↦ inl (rw same at h)
      | inr other ↦ rw other at h
    ]

-- The calls of a base cell touch cells of its block only.
module _ (near : Index3 → Bool) (o : ℕ) (dims : Index3) (fits : Fits dims)
    (grid : IsGrid dims (cube o) (next_to (cube o))) where
  abbrev base_calls : Index3 → List Call
  base_calls b = process_base_cell (compute_offsets near (cube o) dims) (three_to_one_d b dims)

  abbrev Touched : Index3 → ℕ → Type 0
  Touched b k =
      (i : Index3) × (i.x ≤ o)
      × (i.y ≤ o)
      × (i.z ≤ o)
      × Inside (plus b i) dims
      × (k ≡ three_to_one_d (plus b i) dims)

  call-Touched :
      (c k : ℕ) (b : Index3) (call : Call)
      → In (c, b) (c08_traversal dims (cube o))
      → In call (base_calls b)
      → Touches call k
      → Touched b k
  unfolding process_base_cell
  call-Touched c k b call vb h t =
      let found = In-map call (call_of (three_to_one_d b dims)) _ h in
      let pair = found.0 in
      let of_block =
        compute_offsets-OfBlock near o dims pair (block-Small near o dims fits grid) found.1 in
      elim (Touches-call_of (three_to_one_d b dims) k pair
        (subst (λ made. Touches made k) (sym found.2) t)) [
          | inl e ↦ place pair.offset_1 of_block.0 e
          | inr e ↦ place pair.offset_2 of_block.1 e
        ]
    where
      inside :
          (i : Index3)
          → is_base o dims b ≡ true
          → i.x ≤ o
          → i.y ≤ o
          → i.z ≤ o
          → (b.x + i.x < dims.x) × (b.y + i.y < dims.y) × (b.z + i.z < dims.z)
      inside i h kx ky kz = (ground arith, ground arith, ground arith)

      place : (n : ℕ) → OfBlock o dims n → k ≡ add_word (three_to_one_d b dims) n → Touched b k
      place n (i, kx, ky, kz, e) at_k =
          let hb = inside i (visited o dims grid c b vb).0 kx ky kz in
          (
            i,
            kx,
            ky,
            kz,
            hb,
            at_k ∙ ap (add_word (three_to_one_d b dims)) e ∙ three_to_one_d-plus dims b i fits hb,
          )

  -- On a grid whose number of cells, whose sizes with twice the overlap and whose block of a base
  -- step fit a word, with an overlap of `o` cells on each axis, at most the size of the grid: if a
  -- call for the base cell `b` and a call for the base cell `d` of the same colour of the c08
  -- traversal both touch the cell of index `k`, this is an index of the grid and `b` and `d` are
  -- the same. So calls for different base cells of one colour, which may run in parallel, touch
  -- different cells.
  pub colour_calls_apart :
      (c k : ℕ) (b d : Index3) (call other : Call)
      → In (c, b) (c08_traversal dims (cube o))
      → In (c, d) (c08_traversal dims (cube o))
      → In call (base_calls b)
      → In other (base_calls d)
      → Touches call k
      → Touches other k
      → (k < volume dims) × (b ≡ d)
  colour_calls_apart c k b d call other vb vd hb hd tb td =
      let first = call-Touched c k b call vb hb tb in
      let second = call-Touched c k d other vd hd td in
      let i = first.0 in
      let j = second.0 in
      let met : plus b i ≡ plus d j =
        three_to_one_d_inj dims (plus b i) (plus d j) fits first.4 second.4
          (sym first.5 ∙ second.5) in
      (
        rw (first.5, three_to_one_d-flat (plus b i) dims first.4 fits)
            (flat-lt-volume (plus b i) dims first.4),
        c08_no_conflict dims (cube o) grid c b d (plus b i) (visited_often _ c b vb)
            (visited_often _ c d vd) (block_Near b i first.1 first.2 first.3)
            (subst (Near origin (cube o) d) (sym met) (block_Near d j second.1 second.2 second.3)),
      )
    where
      block_Near : (e i : Index3) → i.x ≤ o → i.y ≤ o → i.z ≤ o → Near origin (cube o) e (plus e i)
      block_Near e i hx hy hz =
          (omega arith, omega arith, omega arith, omega arith, omega arith, omega arith)
