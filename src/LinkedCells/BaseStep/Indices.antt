-- ===== src/LinkedCells/BaseStep/Indices.antt =====
-- The arithmetic of the reads in `computeOffsets`, without wrap-around.
use auto_pas.Prelude.{ℕ, ◌+◌, ◌*◌, ◌≤◌, ◌<◌, ◌≡◌, arith, word, add_word, sub_word, mul_word}

-- The indices into the offsets, without wrap-around.
abbrev pub position : ℕ → ℕ → ℕ → ℕ → ℕ
position o x y z = (o + 1) * (o + 1) * x + ((o + 1) * y + z)

abbrev pub Small : ℕ → Type 0
Small o = (o + 1) * (o + 1) * (o + 1) < word

pub row_bound : (o y z : ℕ) → y ≤ o → z ≤ o → (o + 1) * y + z < (o + 1) * (o + 1)
row_bound o y z hy hz = grind arith

pub position-lt : (o x y z : ℕ) → Small o → x ≤ o → y ≤ o → z ≤ o → position o x y z < word
position-lt o x y z small hx hy hz =
    let in_plane = row_bound o y z hy hz in
    let planes : (o + 1) * (o + 1) * x + (o + 1) * (o + 1) ≤ (o + 1) * (o + 1) * (o + 1) =
      grind arith in
    omega arith

pub side-lt : (o : ℕ) → Small o → (o + 1 < word) × ((o + 1) * (o + 1) < word)
side-lt o small = (grind arith, grind arith)

-- The index arithmetic of the five reads.
pub offset_index :
    (o x y : ℕ)
    → Small o
    → x ≤ o
    → y ≤ o
    → let ov1 = add_word o 1 in
      add_word (mul_word (mul_word ov1 ov1) x) (mul_word ov1 y) ≡ position o x y 0
offset_index o x y small hx hy =
    let s = side-lt o small in
    let e : add_word o 1 ≡ o + 1 = omega arith in
    let f : mul_word (o + 1) (o + 1) ≡ (o + 1) * (o + 1) = omega arith in
    rw (e, f) (omega (arith, position-lt o x y 0 small hx hy (omega arith)))

pub back_left_index :
    (o z : ℕ)
    → Small o
    → z ≤ o
    → let ov1 = add_word o 1 in add_word (sub_word (mul_word ov1 ov1) ov1) z ≡ position o 0 o z
back_left_index o z small hz =
    let s = side-lt o small in
    let e : add_word o 1 ≡ o + 1 = omega arith in
    let f : mul_word (o + 1) (o + 1) ≡ (o + 1) * (o + 1) = omega arith in
    let g : (o + 1) * (o + 1) ≡ (o + 1) * o + (o + 1) = grind arith in
    rw (e, f) (omega (arith, position-lt o 0 o z small (omega arith) (omega arith) hz))

pub front_right_index :
    (o z : ℕ)
    → Small o
    → z ≤ o
    → let ov1 = add_word o 1 in add_word (mul_word (mul_word ov1 ov1) o) z ≡ position o o 0 z
front_right_index o z small hz =
    let s = side-lt o small in
    let e : add_word o 1 ≡ o + 1 = omega arith in
    let f : mul_word (o + 1) (o + 1) ≡ (o + 1) * (o + 1) = omega arith in
    rw (e, f) (omega (arith, position-lt o o 0 z small (omega arith) (omega arith) hz))

pub back_right_index :
    (o z : ℕ)
    → Small o
    → z ≤ o
    → let ov1 = add_word o 1 in
      add_word (sub_word (mul_word (mul_word ov1 ov1) ov1) ov1) z ≡ position o o o z
back_right_index o z small hz =
    let s = side-lt o small in
    let e : add_word o 1 ≡ o + 1 = omega arith in
    let f : mul_word (o + 1) (o + 1) ≡ (o + 1) * (o + 1) = omega arith in
    let k : mul_word ((o + 1) * (o + 1)) (o + 1) ≡ (o + 1) * (o + 1) * (o + 1) = omega arith in
    let g : (o + 1) * (o + 1) * (o + 1) ≡ (o + 1) * (o + 1) * o + ((o + 1) * o + (o + 1)) =
      grind arith in
    rw (e, f, k) (omega (arith, position-lt o o o z small (omega arith) (omega arith) hz))
