-- ===== src/Traversal/Conflicts.antt =====
-- The colourings c08, c18 and c04: each base cell once, and calls that may run in parallel touch
-- disjoint cells.
use native.Mathlib.Nat.{div-add-mod'}
use auto_pas.Prelude.{
  ℕ, ◌+◌, ◌-◌, ◌*◌, ◌/◌, ◌%◌, ◌≤◌, ◌<◌, ◌≡◌, ◌∙◌, Bool, true, false, ◌&&◌, inl, inr, ltb, leb, ◌==◌,
  if◌then◌else◌, word, sub_word, arith, sym, ap, subst,
}
use auto_pas.Mapping.{Index3}
use auto_pas.Mapping.Bijection.{Fits, row-le, lt_trichotomy}
use auto_pas.Traversal.{
  origin, inner_end, next_to, c_traversal, c04_traversal, c08_traversal, c18_stride, c18_traversal,
}
use auto_pas.Traversal.Loops.{bit}
use auto_pas.Traversal.Coverage.{
  Runs, visits, between, colour_of, block_index, block_index-injective, visits-c_traversal,
}

-- The grid has at least `overlap` cells on each axis and is addressed by words.
pub record IsGrid (dims overlap stride : Index3) : Type 0 where
  pub fits : Fits stride
  pub wide_x : overlap.x ≤ dims.x
  pub wide_y : overlap.y ≤ dims.y
  pub wide_z : overlap.z ≤ dims.z
  pub room_x : dims.x + 2 * overlap.x < word
  pub room_y : dims.y + 2 * overlap.y < word
  pub room_z : dims.z + 2 * overlap.z < word

near_mod : (a b s : ℕ) → a ≤ b → b < a + s → a % s ≡ b % s → a ≡ b
near_mod a b s h k e = elim (lt_trichotomy (a / s) (b / s)) [
  | inl less ↦
      absurd (omega (arith, row-le (a / s) (b / s) s less, div-add-mod' a s, div-add-mod' b s))
  | inr (inl same) ↦ omega (arith, ap (λ (t : ℕ). t * s) same, div-add-mod' a s, div-add-mod' b s)
  | inr (inr more) ↦
      absurd (omega (arith, row-le (b / s) (a / s) s more, div-add-mod' a s, div-add-mod' b s))
]

-- Two numbers with one remainder that are less than the divisor apart.
close_mod : (a b s : ℕ) → a < b + s → b < a + s → a % s ≡ b % s → a ≡ b
close_mod a b s h k e = elim (lt_trichotomy a b) [
  | inl less ↦ near_mod a b s (omega arith) k e
  | inr (inl same) ↦ same
  | inr (inr more) ↦ sym (near_mod b a s (omega arith) h (sym e))
]

no_offset : (a b s : ℕ) → (a - 0) % s ≡ (b - 0) % s → a % s ≡ b % s
no_offset a b s e =
    let ea : a - 0 ≡ a = omega arith in let eb : b - 0 ≡ b = omega arith in rw (ea, eb) at e

-- `k` is at most `below` cells before `p` and at most `above` cells after it, on each axis.
abbrev pub Near : Index3 → Index3 → Index3 → Index3 → Type 0
Near below above p k =
    (p.x ≤ k.x + below.x)
    × (k.x ≤ p.x + above.x)
    × (p.y ≤ k.y + below.y)
    × (k.y ≤ p.y + above.y)
    × (p.z ≤ k.z + below.z)
    × (k.z ≤ p.z + above.z)

module _ (end stride : Index3) (runs : Runs end stride origin) where
  -- What one colour says of two visited cells.
  same_place :
      (c : ℕ) (p q : Index3)
      → 0 < visits c p (c_traversal end stride origin)
      → 0 < visits c q (c_traversal end stride origin)
      → (p.x % stride.x ≡ q.x % stride.x)
        × (p.y % stride.y ≡ q.y % stride.y)
        × (p.z % stride.z ≡ q.z % stride.z)
  unfolding block_index
  same_place c p q vp vq =
      let of_colour = λ (i : Index3) (v : 0 < visits c i (c_traversal end stride origin)).
        colour_of_visit c i
          (subst (λ n. 0 < n) (visits-c_traversal end stride origin runs c i) v) in
      let e =
        block_index-injective end stride origin runs p q (sym (of_colour p vp) ∙ of_colour q vq) in
      (
        no_offset p.x q.x stride.x (ap (λ i. i.x) e),
        no_offset p.y q.y stride.y (ap (λ i. i.y) e),
        no_offset p.z q.z stride.z (ap (λ i. i.z) e),
      )
    where
      colour_of_visit :
          (c : ℕ) (i : Index3)
          → 0 < bit (between origin end i && c == colour_of stride origin i)
          → c ≡ colour_of stride origin i
      colour_of_visit c i h = ground arith

  -- Footprints that are narrower than the stride overlap for one cell only.
  no_conflict :
      (below above : Index3)
      → (below.x + above.x < stride.x)
        × (below.y + above.y < stride.y)
        × (below.z + above.z < stride.z)
      → (c : ℕ) (p q k : Index3) → 0 < visits c p (c_traversal end stride origin)
      → 0 < visits c q (c_traversal end stride origin)
      → Near below above p k
      → Near below above q k
      → p ≡ q
  no_conflict below above narrow c p q k vp vq np nq =
      let m = same_place c p q vp vq in
      index_eq p q (close_mod p.x q.x stride.x (omega arith) (omega arith) m.0)
        (close_mod p.y q.y stride.y (omega arith) (omega arith) m.1)
        (close_mod p.z q.z stride.z (omega arith) (omega arith) m.2)
    where
      index_eq : (i j : Index3) → i.x ≡ j.x → i.y ≡ j.y → i.z ≡ j.z → i ≡ j
      index_eq i j ex ey ez = ground arith

next_to_lem :
    (dims overlap : Index3)
    → IsGrid dims overlap (next_to overlap)
    → Runs (inner_end dims overlap) (next_to overlap) origin
unfolding next_to inner_end
next_to_lem dims overlap g = record {
  fits = g.fits;
  end_x = omega arith;
  end_y = omega arith;
  end_z = omega arith;
  offset_x = omega arith;
  offset_y = omega arith;
  offset_z = omega arith;
}

inner_lem : (v d o : ℕ) → o ≤ d → d < word → (leb 0 v && ltb v (sub_word d o)) ≡ ltb (v + o) d
inner_lem v d o h k = let e : sub_word d o ≡ d - o = omega arith in rw e (ground arith)

-- On a grid whose sizes fit a word, c08 calls its body exactly once for every cell with
-- `overlap` cells behind it on each axis, under one colour, and for no other cell.
pub visits-c08_traversal :
    (dims overlap : Index3)
    → IsGrid dims overlap (next_to overlap)
    → (c : ℕ) (p : Index3)
    → visits c p (c08_traversal dims overlap)
      ≡ bit (
          (ltb (p.x + overlap.x) dims.x
            && (ltb (p.y + overlap.y) dims.y && ltb (p.z + overlap.z) dims.z))
          && c == colour_of (next_to overlap) origin p)
unfolding c08_traversal inner_end
visits-c08_traversal dims overlap g c p =
    visits-c_traversal (inner_end dims overlap) (next_to overlap) origin
      (next_to_lem dims overlap g) c p
    ∙ rw (
      inner_lem p.x dims.x overlap.x g.wide_x (omega arith),
      inner_lem p.y dims.y overlap.y g.wide_y (omega arith),
      inner_lem p.z dims.z overlap.z g.wide_z (omega arith),
    )

-- Two base cells of one c08 colour whose blocks of `overlap + 1` cells on each axis share a cell
-- are the same cell, on a grid whose sizes fit a word.
pub c08_no_conflict :
    (dims overlap : Index3)
    → IsGrid dims overlap (next_to overlap)
    → (c : ℕ) (p q k : Index3) → 0 < visits c p (c08_traversal dims overlap)
    → 0 < visits c q (c08_traversal dims overlap)
    → Near origin overlap p k
    → Near origin overlap q k
    → p ≡ q
unfolding c08_traversal next_to
c08_no_conflict dims overlap g =
    no_conflict (inner_end dims overlap) (next_to overlap) (next_to_lem dims overlap g) origin
      overlap (omega arith)

abbrev c18_end : Bool → Index3 → Index3 → Index3
c18_end all_cells dims overlap =
    if all_cells then dims else record dims { z = sub_word dims.z overlap.z }

c18_lem :
    (all_cells : Bool) (dims overlap : Index3)
    → IsGrid dims overlap (c18_stride overlap)
    → Runs (c18_end all_cells dims overlap) (c18_stride overlap) origin
unfolding c18_stride
c18_lem true dims overlap g = record {
  fits = g.fits;
  end_x = omega arith;
  end_y = omega arith;
  end_z = omega arith;
  offset_x = omega arith;
  offset_y = omega arith;
  offset_z = omega arith;
}
c18_lem false dims overlap g = record {
  fits = g.fits;
  end_x = omega arith;
  end_y = omega arith;
  end_z = omega arith;
  offset_x = omega arith;
  offset_y = omega arith;
  offset_z = omega arith;
}

-- Two base cells of one c18 colour that both reach a cell, at most `overlap` cells away on the x
-- and y axes and ahead on the z axis, are the same cell, on a grid whose sizes fit a word;
-- whether or not the last layers are base cells too.
pub c18_no_conflict :
    (all_cells : Bool) (dims overlap : Index3)
    → IsGrid dims overlap (c18_stride overlap)
    → (c : ℕ) (p q k : Index3) → 0 < visits c p (c18_traversal all_cells dims overlap)
    → 0 < visits c q (c18_traversal all_cells dims overlap)
    → Near (record overlap { z = 0 }) overlap p k
    → Near (record overlap { z = 0 }) overlap q k
    → p ≡ q
unfolding c18_traversal c18_stride
c18_no_conflict all_cells dims overlap g =
    no_conflict (c18_end all_cells dims overlap) (c18_stride overlap)
      (c18_lem all_cells dims overlap g) (record overlap { z = 0 }) overlap (omega arith)

abbrev c04_stride : Index3 → Index3
c04_stride overlap = record (next_to overlap) { x = 1 }

c04_lem :
    (dims overlap : Index3)
    → IsGrid dims overlap (c04_stride overlap)
    → Runs (inner_end dims overlap) (c04_stride overlap) origin
unfolding next_to inner_end
c04_lem dims overlap g = record {
  fits = g.fits;
  end_x = omega arith;
  end_y = omega arith;
  end_z = omega arith;
  offset_x = omega arith;
  offset_y = omega arith;
  offset_z = omega arith;
}

-- c04 runs the rows of one colour in parallel and the cells of a row in order: two base cells of
-- one colour whose blocks of `overlap + 1` cells on each axis share a cell stand in one row, on a
-- grid whose sizes fit a word.
pub c04_no_conflict :
    (dims overlap : Index3)
    → IsGrid dims overlap (record (next_to overlap) { x = 1 })
    → (c : ℕ) (p q k : Index3) → 0 < visits c p (c04_traversal dims overlap)
    → 0 < visits c q (c04_traversal dims overlap)
    → Near origin overlap p k
    → Near origin overlap q k
    → (p.y ≡ q.y) × (p.z ≡ q.z)
unfolding c04_traversal next_to
c04_no_conflict dims overlap g c p q k vp vq np nq =
    let m =
      same_place (inner_end dims overlap) (c04_stride overlap) (c04_lem dims overlap g) c p q vp
        vq in
    (
      close_mod p.y q.y (c04_stride overlap).y (omega arith) (omega arith) m.1,
      close_mod p.z q.z (c04_stride overlap).z (omega arith) (omega arith) m.2,
    )
