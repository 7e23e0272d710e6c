-- ===== src/LinkedCells/BaseStep/Entries.antt =====
-- For which pairs of cells one step of the loops of `computeOffsets` makes an entry.
use auto_pas.Prelude.{
  ℕ, ◌+◌, ◌-◌, ◌*◌, ◌≤◌, ◌≡◌, refl, Bool, true, false, not, ◌&&◌, ◌||◌, leb, ◌==◌, if◌then◌else◌,
  arith,
}
use auto_pas.Mapping.{Index3}
use auto_pas.Traversal.Loops.{bit}
use auto_pas.LinkedCells.BaseStep.{cell_at}

-- The tests of one axis on which the offset of the first cell is 0 or `o` and that of the second
-- cell is `x`.
abbrev pub forward : ℕ → ℕ → Bool
forward p q = leb p q

abbrev pub based : ℕ → ℕ → ℕ → ℕ → Bool
based o p q b = if forward p q then b == p else (b + o == p && leb b q)

abbrev pub hit : ℕ → ℕ → ℕ → ℕ → ℕ → Bool
hit o p q b x = based o p q b && (x == (q - b))

-- The number of cells between two cells of an axis.
abbrev pub gap : ℕ → ℕ → ℕ
gap p q = if leb p q then q - p - 1 else p - q - 1

-- The last axis: the first cell is at `z`, the second at 0.
abbrev pub hit_last : ℕ → ℕ → ℕ → ℕ → Bool
hit_last p q b z = (b == q && leb q p) && (z == (p - b))

low : (o p q b x : ℕ) → x ≤ o → (p == (b + 0) && q == (b + x)) ≡ (forward p q && hit o p q b x)
low o p q b x h = ground arith

high :
    (o p q b x : ℕ)
    → x ≤ o
    → (not (x == o) && (p == (b + o) && q == (b + x))) ≡ (not (forward p q) && hit o p q b x)
high o p q b x h = ground arith

last : (p q b z : ℕ) → (p == (b + z) && q == (b + 0)) ≡ hit_last p q b z
last p q b z = ground arith

low_gap : (o p q b x : ℕ) → hit o p q b x ≡ true → forward p q ≡ true → x - 1 ≡ gap p q
low_gap o p q b x h f = ground arith

high_gap : (o p q b x : ℕ) → hit o p q b x ≡ true → forward p q ≡ false → o - x - 1 ≡ gap p q
high_gap o p q b x h f = ground arith

last_gap : (p q b z : ℕ) → hit_last p q b z ≡ true → z - 1 ≡ gap p q
last_gap p q b z h = ground arith

low_zero : (o p q b x : ℕ) → hit o p q b x ≡ true → forward p q ≡ true → (x == 0) ≡ (p == q)
low_zero o p q b x h f = ground arith

last_zero : (p q b z : ℕ) → hit_last p q b z ≡ true → (z == 0) ≡ (p == q)
last_zero p q b z h = ground arith

abbrev pub plus : Index3 → Index3 → Index3
plus b off = cell_at (b.x + off.x) (b.y + off.y) (b.z + off.z)

abbrev pub lands : Index3 → Index3 → Bool
lands p i = p.x == i.x && (p.y == i.y && p.z == i.z)

abbrev pub gaps : Index3 → Index3 → Index3
gaps p q = cell_at (gap p.x q.x) (gap p.y q.y) (gap p.z q.z)

-- Of two cells in one layer the first one comes first in the order of the rows.
abbrev pub canonical : Index3 → Index3 → Bool
canonical p q = not (p.z == q.z) || (forward p.y q.y && (forward p.x q.x || not (p.y == q.y)))

four_entries :
    (fx fy hx hy hz ey ez same_y same_z n1 n2 n3 n4 n : Bool)
    → (hy ≡ true → fy ≡ true → ey ≡ same_y)
    → (hz ≡ true → ez ≡ same_z)
    → (hx ≡ true → hy ≡ true → hz ≡ true → fx ≡ true → fy ≡ true → n1 ≡ n)
    → (hx ≡ true → hy ≡ true → hz ≡ true → fx ≡ true → fy ≡ false → n2 ≡ n)
    → (hx ≡ true → hy ≡ true → hz ≡ true → fx ≡ false → fy ≡ true → n3 ≡ n)
    → (hx ≡ true → hy ≡ true → hz ≡ true → fx ≡ false → fy ≡ false → n4 ≡ n)
    → bit (n1 && ((fx && hx) && ((fy && hy) && hz)))
        + (bit (not ez && (n2 && ((fx && hx) && ((not fy && hy) && hz))))
            + (bit ((not ey || not ez) && (n3 && ((not fx && hx) && ((fy && hy) && hz))))
                + bit (not ez && (n4 && ((not fx && hx) && ((not fy && hy) && hz))))))
      ≡ bit (hx && (hy && hz)) * bit ((not same_z || (fy && (fx || not same_y))) && n)
four_entries fx fy false hy hz ey ez same_y same_z n1 n2 n3 n4 n a b c d e f = ground arith
four_entries fx fy true false hz ey ez same_y same_z n1 n2 n3 n4 n a b c d e f = ground arith
four_entries fx fy true true false ey ez same_y same_z n1 n2 n3 n4 n a b c d e f = ground arith
four_entries true true true true true ey ez same_y same_z n1 n2 n3 n4 n a b c d e f =
    rw (a refl refl, b refl, c refl refl refl refl refl) (ground arith)
four_entries true false true true true ey ez same_y same_z n1 n2 n3 n4 n a b c d e f =
    rw (b refl, d refl refl refl refl refl) (ground arith)
four_entries false true true true true ey ez same_y same_z n1 n2 n3 n4 n a b c d e f =
    rw (a refl refl, b refl, e refl refl refl refl refl) (ground arith)
four_entries false false true true true ey ez same_y same_z n1 n2 n3 n4 n a b c d e f =
    rw (b refl, f refl refl refl refl refl) (ground arith)

at_origin_shape :
    (n a b c d e f : Bool)
    → (n && ((a && (b && c)) && (d && (e && f)))) ≡ (n && ((a && d) && ((b && e) && (c && f))))
at_origin_shape n a b c d e f = ground arith

back_left_shape :
    (ny ez n a b c d e f : Bool)
    → ((not ny && not ez) && (n && ((a && (b && c)) && (d && (e && f)))))
      ≡ (not ez && (n && ((a && d) && ((not ny && (b && e)) && (c && f)))))
back_left_shape ny ez n a b c d e f = ground arith

front_right_shape :
    (nx g n a b c d e f : Bool)
    → ((not nx && g) && (n && ((a && (b && c)) && (d && (e && f)))))
      ≡ (g && (n && ((not nx && (a && d)) && ((b && e) && (c && f)))))
front_right_shape nx g n a b c d e f = ground arith

back_right_shape :
    (ny nx ez n a b c d e f : Bool)
    → ((not ny && (not nx && not ez)) && (n && ((a && (b && c)) && (d && (e && f)))))
      ≡ (not ez && (n && ((not nx && (a && d)) && ((not ny && (b && e)) && (c && f)))))
back_right_shape ny nx ez n a b c d e f = ground arith

module _ (near : Index3 → Bool) (o : ℕ) (p q b : Index3) where
  -- The pairs that the four entries at `(x, y, z)` name.
  abbrev pub named : ℕ → ℕ → ℕ → ℕ
  named x y z =
      bit (
        near (cell_at (x - 1) (y - 1) (z - 1))
        && (lands p (plus b (cell_at 0 0 z)) && lands q (plus b (cell_at x y 0))))
      + (bit (
            (not (y == o) && not (z == 0))
            && (near (cell_at (x - 1) (o - y - 1) (z - 1))
                && (lands p (plus b (cell_at 0 o z)) && lands q (plus b (cell_at x y 0)))))
          + (bit (
                (not (x == o) && (not (y == 0) || not (z == 0)))
                && (near (cell_at (o - x - 1) (y - 1) (z - 1))
                    && (lands p (plus b (cell_at o 0 z)) && lands q (plus b (cell_at x y 0)))))
              + bit (
                  (not (y == o) && (not (x == o) && not (z == 0)))
                  && (near (cell_at (o - x - 1) (o - y - 1) (z - 1))
                      && (lands p (plus b (cell_at o o z)) && lands q (plus b (cell_at x y 0)))))))

  pub named_lem :
      (x y z : ℕ)
      → x ≤ o
      → y ≤ o
      → named x y z
        ≡ bit (hit o p.x q.x b.x x && (hit o p.y q.y b.y y && hit_last p.z q.z b.z z))
          * bit (canonical p q && near (gaps p q))
  named_lem x y z kx ky =
      rw
        (
          at_origin_shape (near (cell_at (x - 1) (y - 1) (z - 1))) (p.x == (b.x + 0))
              (p.y == (b.y + 0)) (p.z == (b.z + z)) (q.x == (b.x + x)) (q.y == (b.y + y))
              (q.z == (b.z + 0)),
          back_left_shape (y == o) (z == 0) (near (cell_at (x - 1) (o - y - 1) (z - 1)))
              (p.x == (b.x + 0)) (p.y == (b.y + o)) (p.z == (b.z + z)) (q.x == (b.x + x))
              (q.y == (b.y + y)) (q.z == (b.z + 0)),
          front_right_shape (x == o) (not (y == 0) || not (z == 0))
              (near (cell_at (o - x - 1) (y - 1) (z - 1))) (p.x == (b.x + o)) (p.y == (b.y + 0))
              (p.z == (b.z + z)) (q.x == (b.x + x)) (q.y == (b.y + y)) (q.z == (b.z + 0)),
          back_right_shape (y == o) (x == o) (z == 0)
              (near (cell_at (o - x - 1) (o - y - 1) (z - 1))) (p.x == (b.x + o)) (p.y == (b.y + o))
              (p.z == (b.z + z)) (q.x == (b.x + x)) (q.y == (b.y + y)) (q.z == (b.z + 0)),
          low o p.x q.x b.x x kx,
          low o p.y q.y b.y y ky,
          high o p.x q.x b.x x kx,
          high o p.y q.y b.y y ky,
          last p.z q.z b.z z,
        )
        (four_entries _ _ _ _ _ _ _ _ _ _ _ _ _ _ (low_zero o p.y q.y b.y y)
          (last_zero p.z q.z b.z z)
          (λ hx hy hz fx fy.
            rw
              (
                low_gap o p.x q.x b.x x hx fx,
                low_gap o p.y q.y b.y y hy fy,
                last_gap p.z q.z b.z z hz,
              )
              refl)
          (λ hx hy hz fx fy.
            rw
              (
                low_gap o p.x q.x b.x x hx fx,
                high_gap o p.y q.y b.y y hy fy,
                last_gap p.z q.z b.z z hz,
              )
              refl)
          (λ hx hy hz fx fy.
            rw
              (
                high_gap o p.x q.x b.x x hx fx,
                low_gap o p.y q.y b.y y hy fy,
                last_gap p.z q.z b.z z hz,
              )
              refl)
          (λ hx hy hz fx fy.
            rw
              (
                high_gap o p.x q.x b.x x hx fx,
                high_gap o p.y q.y b.y y hy fy,
                last_gap p.z q.z b.z z hz,
              )
              refl))
