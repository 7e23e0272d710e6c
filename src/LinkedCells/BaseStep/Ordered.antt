-- ===== src/LinkedCells/BaseStep/Ordered.antt =====
-- How often a c08 traversal calls for two cells in one order.
use auto_pas.Prelude.{
  ℕ, ◌+◌, ◌*◌, ◌<◌, ◌≡◌, ◌∙◌, ap, Bool, true, ◌&&◌, List, ltb, ◌==◌, arith, In, inl, inr,
  Bool-cases, add_word, ==_iff,
}
use auto_pas.Mapping.{Index3, three_to_one_d}
use auto_pas.Mapping.Bijection.{Inside, Fits}
use auto_pas.Traversal.{c08_traversal, origin, next_to}
use auto_pas.Traversal.Coverage.{same_index, visits, colour_of}
use auto_pas.Traversal.Conflicts.{IsGrid, visits-c08_traversal}
use auto_pas.Traversal.Loops.{bit, count, count-each-In, count-In}
use auto_pas.LinkedCells.BaseStep.{traverse_particle_pairs}
use auto_pas.LinkedCells.BaseStep.Lookup.{cube}
use auto_pas.LinkedCells.BaseStep.Indices.{Small}
use auto_pas.LinkedCells.BaseStep.Places.{ordered}
use auto_pas.LinkedCells.BaseStep.Block.{base_of, entered, count-process_base_cell}

abbrev pub is_base : ℕ → Index3 → Index3 → Bool
is_base o dims p = ltb (p.x + o) dims.x && (ltb (p.y + o) dims.y && ltb (p.z + o) dims.z)

pub visited_often : (xs : List (ℕ × Index3)) (c : ℕ) (b : Index3) → In (c, b) xs → 0 < visits c b xs
visited_often xs c b k =
    count-In (λ (col, cell). col == c && same_index b cell) (c, b) xs (self c b) k
  where
    self : (c : ℕ) (b : Index3) → (c == c && same_index b b) ≡ true
    self c b = ground arith

pub visited :
    (o : ℕ) (dims : Index3)
    → IsGrid dims (cube o) (next_to (cube o))
    → (c : ℕ) (b : Index3) → In (c, b) (c08_traversal dims (cube o))
    → (is_base o dims b ≡ true) × ((c == colour_of (next_to (cube o)) origin b) ≡ true)
visited o dims g c b k = both (is_base o dims b) (c == colour_of (next_to (cube o)) origin b) (
    rw (visits-c08_traversal dims (cube o) g c b) at
      (visited_often (c08_traversal dims (cube o)) c b k))
  where
    both : (s t : Bool) → 0 < bit (s && t) → (s ≡ true) × (t ≡ true)
    both s t h = (ground arith, ground arith)

-- A base cell is visited under its own colour only.
pub by_colour :
    (c k : ℕ) (b r : Index3) → (b ≡ r → c ≡ k) → (same_index r b) ≡ (c == k && same_index r b)
by_colour c k b r h = elim (Bool-cases (same_index r b)) [
  | inl same ↦ let e : b ≡ r = index_eq b r (same) in let f = h e in rw (same, f) (self k)
  | inr other ↦ rw other (ground arith)
]
  where
    index_eq : (i j : Index3) → same_index j i ≡ true → i ≡ j
    index_eq i j h = ground arith

    self : (k : ℕ) → true ≡ ((k == k) && true)
    self k = ground arith

module _ (near : Index3 → Bool) (o : ℕ) (dims : Index3) (fits : Fits dims)
    (grid : IsGrid dims (cube o) (next_to (cube o))) where
  pub block-Small : Small o
  unfolding next_to
  block-Small =
      let e : add_word o 1 ≡ o + 1 = omega (arith, grid.room_x, fits.pos_x) in
      rw e at (grid.fits.small)

  -- The calls for two cells in one order.
  pub count-ordered :
      (p q : Index3)
      → Inside p dims
      → Inside q dims
      → count
          (ordered (three_to_one_d p dims) (three_to_one_d q dims))
          (traverse_particle_pairs near dims (cube o))
        ≡ bit (is_base o dims (base_of o p q)) * bit (entered near o p q)
  unfolding traverse_particle_pairs
  count-ordered p q in_p in_q =
      let r = base_of o p q in
      let k = colour_of (next_to (cube o)) origin r in
      count-each-In (ordered (three_to_one_d p dims) (three_to_one_d q dims))
        (λ (col, cell). col == k && same_index r cell) (bit (entered near o p q)) _ _
        (λ (c, b) h.
          let v = visited o dims grid c b h in
          count-process_base_cell near o dims p q b fits block-Small in_p in_q (inside b v.0)
          ∙ ap (λ t. bit t * bit (entered near o p q))
              (by_colour c k b r
                (λ e. (==_iff _ _).0 v.1 ∙ ap (colour_of (next_to (cube o)) origin) e)))
      ∙ rw (visits-c08_traversal dims (cube o) grid k r)
          (own_colour (is_base o dims r) k (bit (entered near o p q)))
    where
      inside :
          (b : Index3)
          → is_base o dims b ≡ true
          → (b.x + o < dims.x) × (b.y + o < dims.y) × (b.z + o < dims.z)
      inside b h = (ground arith, ground arith, ground arith)

      own_colour : (s : Bool) (k n : ℕ) → bit (s && k == k) * n ≡ bit s * n
      own_colour s k n = ground arith
