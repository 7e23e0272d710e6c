-- ===== src/LinkedCells/BaseStep/Block.antt =====
-- Which calls the entries of `computeOffsets` make at one base cell.
use auto_pas.Prelude.{
  ℕ, ◌+◌, ◌-◌, ◌*◌, ◌≤◌, ◌≡◌, refl, ◌∙◌, Bool, ◌&&◌, List, ltb, leb, ◌==◌, if◌then◌else◌, arith,
}
use auto_pas.Mapping.{Index3, three_to_one_d}
use auto_pas.Mapping.Bijection.{Inside, Fits}
use auto_pas.Traversal.{each, counting}
use auto_pas.Traversal.Coverage.{same_index}
use auto_pas.Traversal.Loops.{bit, count, count-map, count-each-In, count-counting, counting-lt}
use auto_pas.LinkedCells.BaseStep.{
  CellPair, cell_at, entries_at, compute_offsets, cell_offsets, call_of, process_base_cell,
}
use auto_pas.LinkedCells.BaseStep.Lookup.{cube}
use auto_pas.LinkedCells.BaseStep.Entries.{based, hit, gaps, canonical, plus, named_lem}
use auto_pas.LinkedCells.BaseStep.Indices.{Small}
use auto_pas.LinkedCells.BaseStep.Places.{ordered, names, count-entries_at}

-- The base cell on one axis, and whether its block reaches both cells.
abbrev pub first : ℕ → ℕ → ℕ → ℕ
first o p q = if leb p q then p else p - o

abbrev pub reaches : ℕ → ℕ → ℕ → Bool
reaches o p q = if leb p q then leb q (p + o) else (leb o p && leb p (q + o))

abbrev pub base_of : ℕ → Index3 → Index3 → Index3
base_of o p q = cell_at (first o p.x q.x) (first o p.y q.y) q.z

-- The pair is entered in this order.
abbrev pub entered : (Index3 → Bool) → ℕ → Index3 → Index3 → Bool
entered near o p q =
    (reaches o p.x q.x && (reaches o p.y q.y && (leb q.z p.z && leb p.z (q.z + o))))
    && (canonical p q && near (gaps p q))

-- The loop counter `c` is run through.
abbrev in_loop : ℕ → ℕ → Bool
in_loop o c = leb 0 c && ltb c (0 + (o + 1))

axis : (o p q b : ℕ) → (based o p q b && in_loop o (q - b)) ≡ (b == first o p q && reaches o p q)
axis o p q b = ground arith

last_axis :
    (o p q b : ℕ)
    → ((b == q && leb q p) && in_loop o (p - b)) ≡ (b == q && (leb q p && leb p (q + o)))
last_axis o p q b = ground arith

z_shape :
    (a b c d m : Bool) → bit (a && (b && (c && d))) * bit m ≡ bit d * bit (a && (b && (c && m)))
z_shape a b c d m = ground arith

y_shape :
    (a b c d e m : Bool)
    → bit e * bit (a && ((b && d) && (c && m))) ≡ bit d * bit (a && (b && ((c && e) && m)))
y_shape a b c d e m = ground arith

x_shape :
    (a b c d e m : Bool)
    → bit e * bit ((a && d) && (b && (c && m))) ≡ bit d * bit (a && ((b && e) && (c && m)))
x_shape a b c d e m = ground arith

out_shape :
    (a b c e m : Bool) → bit e * bit (a && (b && (c && m))) ≡ bit ((a && e) && (b && (c && m)))
out_shape a b c e m = ground arith

all_shape :
    (a b c d e f m : Bool)
    → bit ((a && b) && ((c && d) && ((e && f) && m)))
      ≡ bit (a && (c && e)) * bit ((b && (d && f)) && m)
all_shape a b c d e f m = ground arith

module _ (near : Index3 → Bool) (o : ℕ) (dims p q b : Index3) (fits : Fits dims) (small : Small o)
    (in_p : Inside p dims) (in_q : Inside q dims) (block : Inside (plus b (cube o)) dims) where
  abbrev wanted : CellPair → Bool
  wanted = names near o dims p q b fits small in_p in_q block

  abbrev entries : ℕ → ℕ → ℕ → List CellPair
  entries = entries_at near (cube o) (cell_offsets (cube o) dims)

  abbrev rest : Bool
  rest = canonical p q && near (gaps p q)

  abbrev okx : Bool
  okx = based o p.x q.x b.x

  abbrev oky : Bool
  oky = based o p.y q.y b.y

  abbrev okz : Bool
  okz = b.z == q.z && leb q.z p.z

  column :
      (x y : ℕ)
      → x ≤ o
      → y ≤ o
      → count wanted (each (counting (o + 1) 0) (entries x y))
        ≡ bit (in_loop o (p.z - b.z))
          * bit (hit o p.x q.x b.x x && (hit o p.y q.y b.y y && (okz && rest)))
  column x y hx hy =
      count-each-In wanted (λ z. z == (p.z - b.z)) _ _ _
        (λ z k.
          let hz = counting-lt (o + 1) 0 z k in
          count-entries_at near o dims p q b fits small in_p in_q block x y z hx hy (omega arith)
          ∙ named_lem near o p q b x y z hx hy
          ∙ z_shape (hit o p.x q.x b.x x) (hit o p.y q.y b.y y) okz (z == (p.z - b.z)) rest)
      ∙ rw (count-counting (o + 1) 0 (p.z - b.z)) refl

  plane :
      (x : ℕ)
      → x ≤ o
      → count wanted (each (counting (o + 1) 0) λ y. each (counting (o + 1) 0) (entries x y))
        ≡ bit (in_loop o (q.y - b.y))
          * bit (hit o p.x q.x b.x x && (oky && ((okz && in_loop o (p.z - b.z)) && rest)))
  plane x hx =
      count-each-In wanted (λ y. y == (q.y - b.y)) _ _ _
        (λ y k.
          let hy = counting-lt (o + 1) 0 y k in
          column x y hx (omega arith)
          ∙ y_shape (hit o p.x q.x b.x x) oky okz (y == (q.y - b.y)) (in_loop o (p.z - b.z)) rest)
      ∙ rw (count-counting (o + 1) 0 (q.y - b.y)) refl

  -- At one base cell whose block lies in the grid.
  pub count-process_base_cell :
      count
        (ordered (three_to_one_d p dims) (three_to_one_d q dims))
        (process_base_cell (compute_offsets near (cube o) dims) (three_to_one_d b dims))
      ≡ bit (same_index (base_of o p q) b) * bit (entered near o p q)
  unfolding process_base_cell compute_offsets
  count-process_base_cell =
      count-map (ordered (three_to_one_d p dims) (three_to_one_d q dims))
        (call_of (three_to_one_d b dims)) _
      ∙ count-each-In wanted (λ x. x == (q.x - b.x)) _ _ _
          (λ x k.
            let hx = counting-lt (o + 1) 0 x k in
            plane x (omega arith)
            ∙ x_shape okx oky (okz && in_loop o (p.z - b.z)) (x == (q.x - b.x))
                (in_loop o (q.y - b.y)) rest)
      ∙ rw (count-counting (o + 1) 0 (q.x - b.x)) refl
      ∙ out_shape okx (oky && in_loop o (q.y - b.y)) (okz && in_loop o (p.z - b.z))
          (in_loop o (q.x - b.x)) rest
      ∙ rw (axis o p.x q.x b.x, axis o p.y q.y b.y, last_axis o p.z q.z b.z) refl
      ∙ all_shape (b.x == first o p.x q.x) (reaches o p.x q.x) (b.y == first o p.y q.y)
          (reaches o p.y q.y) (b.z == q.z) (leb q.z p.z && leb p.z (q.z + o)) rest
