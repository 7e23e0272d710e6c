-- ===== src/Traversal/Coverage.antt =====
-- Every base cell of a coloured traversal is visited once, with one colour.
use native.Mathlib.Nat.{mod-lt, div-add-mod, add-mul-mod_self_left, mul-mod_right, mod-eq_of_lt}
use auto_pas.Prelude.{
  ℕ, ◌+◌, ◌-◌, ◌*◌, ◌/◌, ◌%◌, ◌≤◌, ◌<◌, ◌≡◌, refl, ◌∙◌, Bool, false, ◌&&◌, List, inl, inr, map, ltb,
  leb, ◌==◌, word, add_word, arith, Bool-cases, sym, ap, ◌↔◌, ==_iff, ltb→lt,
}
use auto_pas.Mapping.{Index3, three_to_one_d, one_to_three_d}
use auto_pas.Mapping.Bijection.{
  Inside, Fits, volume, three_to_one_d-one_to_three_d, one_to_three_d-three_to_one_d, mod_small,
  mul-le-volume,
}
use auto_pas.Traversal.{strided, each, colour_cells, num_colours, c_traversal}
use auto_pas.Traversal.Loops.{
  bit, count, hits, count-strided, count-map, count-each, count_and, count_none, count-counting,
}

abbrev pub same_index : Index3 → Index3 → Bool
same_index p i = i.x == p.x && (i.y == p.y && i.z == p.z)

-- How often a traversal calls its body for the cell `p` under the colour `c`.
abbrev pub visits : ℕ → Index3 → List (ℕ × Index3) → ℕ
visits c p = count (λ (col, cell). col == c && same_index p cell)

-- The extents for which the loops of a traversal neither stand still nor wrap around.
pub record Runs (end stride offset : Index3) : Type 0 where
  pub fits : Fits stride
  pub end_x : end.x + stride.x ≤ word
  pub end_y : end.y + stride.y ≤ word
  pub end_z : end.z + stride.z ≤ word
  pub offset_x : offset.x + stride.x ≤ word
  pub offset_y : offset.y + stride.y ≤ word
  pub offset_z : offset.z + stride.z ≤ word

abbrev axis_hits : ℕ → ℕ → ℕ → ℕ → ℕ → ℕ
axis_hits first offset end stride v = bit (hits (add_word first offset) end stride v)

bit_and : (a b : Bool) → bit (a && b) ≡ bit a * bit b
bit_and a b = ground arith

module _ (end stride offset : Index3) (runs : Runs end stride offset) where
  open runs use {fits}

  abbrev on_x : ℕ → Index3 → ℕ
  on_x c p = axis_hits (one_to_three_d c stride).x offset.x end.x stride.x p.x

  abbrev on_y : ℕ → Index3 → ℕ
  on_y c p = axis_hits (one_to_three_d c stride).y offset.y end.y stride.y p.y

  abbrev on_z : ℕ → Index3 → ℕ
  on_z c p = axis_hits (one_to_three_d c stride).z offset.z end.z stride.z p.z

  row :
      (c : ℕ) (p : Index3) (y z : ℕ)
      → count (same_index p) (
          map
            (λ x. record { x = x; y = y; z = z })
            (strided end.x (add_word (one_to_three_d c stride).x offset.x) end.x stride.x))
        ≡ bit (y == p.y) * (bit (z == p.z) * on_x c p)
  row c p y z =
      count-map (same_index p) (λ x. record { x = x; y = y; z = z }) _
      ∙ count_and (λ x. x == p.x) (y == p.y && z == p.z) _
      ∙ rw
          (
            count-strided end.x (add_word (one_to_three_d c stride).x offset.x) end.x stride.x p.x
                fits.pos_x runs.end_x (omega arith),
            bit_and (y == p.y) (z == p.z),
          )
          (omega arith)

  plane :
      (c : ℕ) (p : Index3) (z : ℕ)
      → count (same_index p) (
          each (strided end.y (add_word (one_to_three_d c stride).y offset.y) end.y stride.y) λ y.
            map
              (λ x. record { x = x; y = y; z = z })
              (strided end.x (add_word (one_to_three_d c stride).x offset.x) end.x stride.x))
        ≡ bit (z == p.z) * (on_y c p * on_x c p)
  plane c p z =
      count-each (same_index p) (λ y. y == p.y) (bit (z == p.z) * on_x c p) _ _ (λ y. row c p y z)
      ∙ rw
          (count-strided end.y (add_word (one_to_three_d c stride).y offset.y) end.y stride.y p.y
            fits.pos_y runs.end_y (omega arith))
          (omega arith)

  count-colour_cells :
      (c : ℕ) (p : Index3)
      → count (same_index p) (colour_cells end stride offset c) ≡ on_z c p * (on_y c p * on_x c p)
  unfolding colour_cells
  count-colour_cells c p =
      count-each (same_index p) (λ z. z == p.z) (on_y c p * on_x c p) _ _ (plane c p)
      ∙ rw (
          count-strided end.z (add_word (one_to_three_d c stride).z offset.z) end.z stride.z p.z
            fits.pos_z runs.end_z (omega arith))

abbrev pub phase : ℕ → ℕ → ℕ → ℕ → ℕ → Bool
phase f o end s v = (leb o v && ltb v end) && (f == ((v - o) % s))

phase_offset : (a f s : ℕ) → f < s → f ≤ a → (a - f) % s ≡ 0 → a % s ≡ f
phase_offset a f s h k e =
    let q = (a - f) / s in
    let whole : a ≡ f + s * q = omega (arith, div-add-mod (a - f) s) in
    rw whole (add-mul-mod_self_left f s q ∙ mod-eq_of_lt h)

offset_phase : (a f s : ℕ) → a % s ≡ f → (f ≤ a) × ((a - f) % s ≡ 0)
offset_phase a f s e =
    let whole : a - f ≡ s * (a / s) = omega (arith, div-add-mod a s) in
    (omega (arith, div-add-mod a s), rw whole (mul-mod_right s (a / s)))

axis_phase :
    (f o end s v : ℕ) → f < s → o + s ≤ word → axis_hits f o end s v ≡ bit (phase f o end s v)
axis_phase f o end s v h w =
    let e : add_word f o ≡ f + o = omega arith in
    let r : v - (f + o) ≡ v - o - f = omega arith in
    rw (e, r) (ground (arith, phase_offset (v - o) f s h, offset_phase (v - o) f s))

-- The colour under which a cell is visited: where it lies in its block of `stride` cells.
unfoldable pub block_index : Index3 → Index3 → Index3 → Index3
block_index stride offset p = record {
  x = (p.x - offset.x) % stride.x;
  y = (p.y - offset.y) % stride.y;
  z = (p.z - offset.z) % stride.z;
}

unfoldable pub colour_of : Index3 → Index3 → Index3 → ℕ
unfolding block_index
colour_of stride offset p = three_to_one_d (block_index stride offset p) stride

abbrev pub between : Index3 → Index3 → Index3 → Bool
between offset end p =
    (leb offset.x p.x && ltb p.x end.x)
    && ((leb offset.y p.y && ltb p.y end.y) && (leb offset.z p.z && ltb p.z end.z))

three_bits :
    (a b c d e f : Bool)
    → bit (e && f) * (bit (c && d) * bit (a && b)) ≡ bit ((a && (c && e)) && (b && (d && f)))
three_bits a b c d e f = ground arith

pub same_index_iff : (r i : Index3) (c k : ℕ) → (i ≡ r) ↔ (c ≡ k) → same_index r i ≡ (c == k)
same_index_iff r i c k h = ground (arith, h.0, h.1)

module _ (end stride offset : Index3) (runs : Runs end stride offset) where
  open runs use {fits}

  block_index-Inside : (p : Index3) → Inside (block_index stride offset p) stride
  unfolding block_index
  block_index-Inside p = (
    mod-lt (p.x - offset.x) fits.pos_x,
    mod-lt (p.y - offset.y) fits.pos_y,
    mod-lt (p.z - offset.z) fits.pos_z,
  )

  abbrev on_cell : ℕ → Index3 → ℕ
  on_cell c p =
      on_z end stride offset runs c p
      * (on_y end stride offset runs c p * on_x end stride offset runs c p)

  same_block :
      (c : ℕ) (p : Index3)
      → c < volume stride
      → let first = one_to_three_d c stride in
        (first ≡ block_index stride offset p) ↔ (c ≡ colour_of stride offset p)
  unfolding colour_of
  same_block c p h =
      let there = three_to_one_d-one_to_three_d c stride fits h in
      let back =
        one_to_three_d-three_to_one_d (block_index stride offset p) stride fits
          (block_index-Inside p) in
      (
        λ e. sym there.1 ∙ ap (λ i. three_to_one_d i stride) e,
        λ e. ap (λ k. one_to_three_d k stride) e ∙ back.1,
      )

  -- A product of three phases and the comparison of the three coordinates.
  phases :
      (c : ℕ) (p : Index3)
      → c < volume stride
      → on_cell c p
        ≡ bit (
            between offset end p
            && same_index (block_index stride offset p) (one_to_three_d c stride))
  unfolding block_index
  phases c p h =
      let first = one_to_three_d c stride in
      let ins = (three_to_one_d-one_to_three_d c stride fits h).0 in
      rw
        (
          axis_phase first.x offset.x end.x stride.x p.x ins.0 runs.offset_x,
          axis_phase first.y offset.y end.y stride.y p.y ins.1 runs.offset_y,
          axis_phase first.z offset.z end.z stride.z p.z ins.2 runs.offset_z,
        )
        (three_bits (leb offset.x p.x && ltb p.x end.x) (first.x == ((p.x - offset.x) % stride.x))
          (leb offset.y p.y && ltb p.y end.y) (first.y == ((p.y - offset.y) % stride.y))
          (leb offset.z p.z && ltb p.z end.z) (first.z == ((p.z - offset.z) % stride.z)))

  on_cell_lem :
      (c : ℕ) (p : Index3)
      → c < volume stride
      → on_cell c p ≡ bit (between offset end p && c == colour_of stride offset p)
  on_cell_lem c p h =
      phases c p h
      ∙ ap (λ b. bit (between offset end p && b))
          (same_index_iff (block_index stride offset p) (one_to_three_d c stride) c
            (colour_of stride offset p) (same_block c p h))

  per_colour :
      (c : ℕ) (p : Index3) (col : ℕ)
      → visits c p (map (λ cell. (col, cell)) (colour_cells end stride offset col))
        ≡ bit (col == c) * on_cell c p
  per_colour c p col = count-map _ (λ cell. (col, cell)) _ ∙ elim (Bool-cases (col == c)) [
    | inl same ↦
        rw (same, (==_iff col c).0 same)
          (count-colour_cells end stride offset runs c p ∙ omega arith)
    | inr other ↦ rw other (
        omega (
          arith,
          count_none (λ (i : Index3). false) (colour_cells end stride offset col) (λ i. refl),
        ))
  ]

  num_colours-volume : num_colours stride ≡ volume stride
  unfolding num_colours
  num_colours-volume =
      rw (mod_small (stride.x * stride.y) (omega (arith, mul-le-volume stride fits, fits.small)))
        (mod_small (volume stride) fits.small)

  pub colour_of-lt : (p : Index3) → colour_of stride offset p < volume stride
  unfolding colour_of
  colour_of-lt p =
      (one_to_three_d-three_to_one_d (block_index stride offset p) stride fits
        (block_index-Inside p)).0

  -- A run of `c_traversal` whose loops end calls the loop body exactly once for every cell from
  -- `offset` up to `end`, under the colour of the cell's place in its block of `stride` cells; it
  -- makes no call for any other cell or under any other colour.
  pub visits-c_traversal :
      (c : ℕ) (p : Index3)
      → visits c p (c_traversal end stride offset)
        ≡ bit (between offset end p && c == colour_of stride offset p)
  unfolding c_traversal
  visits-c_traversal c p =
      count-each _ (λ col. col == c) (on_cell c p) _ _ (per_colour c p)
      ∙ rw (count-counting (num_colours stride) 0 c, num_colours-volume)
          (elim (Bool-cases (ltb c (volume stride))) [
            | inl small ↦ ground (arith, on_cell_lem c p (ltb→lt c (volume stride) small))
            | inr large ↦ ground (arith, colour_of-lt p)
          ])

  -- Cells of one colour lie at one place of their blocks.
  pub block_index-injective :
      (p q : Index3)
      → colour_of stride offset p ≡ colour_of stride offset q
      → block_index stride offset p ≡ block_index stride offset q
  unfolding colour_of
  block_index-injective p q e =
      let back = λ (i : Index3).
        one_to_three_d-three_to_one_d (block_index stride offset i) stride fits
          (block_index-Inside i) in
      sym (back p).1 ∙ ap (λ k. one_to_three_d k stride) e ∙ (back q).1
