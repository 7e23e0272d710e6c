-- ===== src/LinkedCells/BaseStep/Lookup.antt =====
-- Where `computeOffsets` finds the offset of a cell of the block.
use auto_pas.Prelude.{
  ℕ, zero, suc, ◌+◌, ◌*◌, ◌≤◌, ◌<◌, ◌≡◌, refl, ◌∙◌, List, [], ◌∷◌, ◌++◌, map, length, arith,
  length-append,
}
use auto_pas.Mapping.{Index3, three_to_one_d}
use auto_pas.Traversal.{each, counting}
use auto_pas.LinkedCells.BaseStep.{lookup, cell_at, cell_offsets}

lookup-left : (xs ys : List ℕ) (j : ℕ) → j < length xs → lookup (xs ++ ys) j ≡ lookup xs j
unfolding lookup
lookup-left [] ys j h = absurd (omega arith)
lookup-left (x ∷ xs) ys zero h = refl
lookup-left (x ∷ xs) ys (suc j) h = lookup-left xs ys j (omega arith)

lookup-right : (xs ys : List ℕ) (j : ℕ) → lookup (xs ++ ys) (length xs + j) ≡ lookup ys j
unfolding lookup
lookup-right [] ys j = let e : 0 + j ≡ j = omega arith in rw e refl
lookup-right (x ∷ xs) ys j =
    let e : length (x ∷ xs) + j ≡ suc (length xs + j) = omega arith in rw e (lookup-right xs ys j)

-- A list of blocks of one length.
length-each :
    (n k m : ℕ) (body : ℕ → List ℕ)
    → ((x : ℕ) → length (body x) ≡ m)
    → length (each (counting n k) body) ≡ n * m
unfolding each counting
length-each zero k m body h = omega arith
length-each (suc n) k m body h =
    length-append (body k) (each (counting n (k + 1)) body)
    ∙ rw (h k, length-each n (k + 1) m body h) (omega arith)

lookup-each :
    (n k m i j : ℕ) (body : ℕ → List ℕ)
    → ((x : ℕ) → length (body x) ≡ m)
    → i < n
    → j < m
    → lookup (each (counting n k) body) (m * i + j) ≡ lookup (body (k + i)) j
unfolding each counting
lookup-each zero k m i j body h hi hj = absurd (omega arith)
lookup-each (suc n) k m zero j body h hi hj =
    let e : m * 0 + j ≡ j = omega arith in
    let f : k + 0 ≡ k = omega arith in
    rw (e, f) (lookup-left (body k) (each (counting n (k + 1)) body) j (rw (h k) hj))
lookup-each (suc n) k m (suc i) j body h hi hj =
    let e : m * suc i + j ≡ length (body k) + (m * i + j) = rw (h k) (grind arith) in
    let f : k + suc i ≡ k + 1 + i = omega arith in
    rw (e, f)
      (lookup-right (body k) (each (counting n (k + 1)) body) (m * i + j)
        ∙ lookup-each n (k + 1) m i j body h (omega arith) hj)

length-map : (f : ℕ → ℕ) (n k : ℕ) → length (map f (counting n k)) ≡ n
unfolding counting
length-map f zero k = refl
length-map f (suc n) k = omega (arith, length-map f n (k + 1))

lookup-map : (f : ℕ → ℕ) (n k j : ℕ) → j < n → lookup (map f (counting n k)) j ≡ f (k + j)
unfolding lookup counting
lookup-map f zero k j h = absurd (omega arith)
lookup-map f (suc n) k zero h = let e : k + 0 ≡ k = omega arith in rw e refl
lookup-map f (suc n) k (suc j) h =
    let e : k + suc j ≡ k + 1 + j = omega arith in rw e (lookup-map f n (k + 1) j (omega arith))

abbrev pub cube : ℕ → Index3
cube o = cell_at o o o

-- The offset of the cell `(x, y, z)` of the block stands at `(o + 1) ^ 2 * x + (o + 1) * y + z`.
pub lookup-cell_offsets :
    (o x y z : ℕ) (dims : Index3)
    → x ≤ o
    → y ≤ o
    → z ≤ o
    → lookup (cell_offsets (cube o) dims) ((o + 1) * (o + 1) * x + ((o + 1) * y + z))
      ≡ three_to_one_d (cell_at x y z) dims
unfolding cell_offsets
lookup-cell_offsets o x y z dims hx hy hz =
    let s = o + 1 in
    let column = λ (a b : ℕ). map (λ c. three_to_one_d (cell_at a b c) dims) (counting s 0) in
    let column_long = λ (a b : ℕ). length-map (λ c. three_to_one_d (cell_at a b c) dims) s 0 in
    let start = λ (n : ℕ). (let e : 0 + n ≡ n = omega arith in e) in
    rw
      (
        lookup-each s 0 (s * s) x (s * y + z) (λ a. each (counting s 0) (column a))
            (λ a. length-each s 0 s (column a) (column_long a)) (omega arith) (inner o y z hy hz),
        start x,
        lookup-each s 0 s y z (column x) (column_long x) (omega arith) (omega arith),
        start y,
        lookup-map (λ c. three_to_one_d (cell_at x y c) dims) s 0 z (omega arith),
        start z,
      )
      refl
  where
    inner : (o y z : ℕ) → y ≤ o → z ≤ o → (o + 1) * y + z < (o + 1) * (o + 1)
    inner o y z hy hz = grind arith
