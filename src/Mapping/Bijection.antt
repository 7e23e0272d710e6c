-- ===== src/Mapping/Bijection.antt =====
-- The two index maps are inverse to each other on the cells of a block that fits a word.
use auto_pas.Prelude.{
  ℕ, ◌+◌, ◌-◌, ◌*◌, ◌/◌, ◌%◌, ◌≤◌, ◌<◌, ◌≡◌, ap, ◌∙◌, ◌⊎◌, inl, inr, word, sub_word, arith,
}
use auto_pas.Mapping.{Index3, three_to_one_d, one_to_three_d}

abbrev pub volume : Index3 → ℕ
volume d = d.x * d.y * d.z

abbrev pub Inside : Index3 → Index3 → Type 0
Inside i dims = (i.x < dims.x) × (i.y < dims.y) × (i.z < dims.z)

-- The flat position without wrap-around.
unfoldable pub flat : Index3 → Index3 → ℕ
flat i dims = (i.z * dims.y + i.y) * dims.x + i.x

plane-lt : (y z dy dz : ℕ) → y < dy → z < dz → z * dy + y < dy * dz
plane-lt y z dy dz hy hz = grind arith

pub flat-lt-volume : (i dims : Index3) → Inside i dims → flat i dims < volume dims
unfolding flat
flat-lt-volume i dims h =
    let p = plane-lt i.y i.z dims.y dims.z h.1 h.2 in
    let q = plane-lt i.x (i.z * dims.y + i.y) dims.x (dims.y * dims.z) h.0 p in omega arith

-- A block whose cells are all addressed by a word.
pub record Fits (dims : Index3) : Type 0 where
  pub pos_x : 0 < dims.x
  pub pos_y : 0 < dims.y
  pub pos_z : 0 < dims.z
  pub small : volume dims < word

pub mod_small : (a : ℕ) → a < word → a % word ≡ a
mod_small a h = omega arith

sub_word_small : (a b : ℕ) → a < word → b ≤ a → sub_word a b ≡ a - b
sub_word_small a b h k = omega arith

le-mul : (a b : ℕ) → 0 < b → a ≤ a * b
le-mul a b h = grind arith

pub mul-le-volume : (dims : Index3) → Fits dims → dims.x * dims.y ≤ volume dims
mul-le-volume dims f = le-mul (dims.x * dims.y) dims.z f.pos_z

pub three_to_one_d-flat :
    (i dims : Index3) → Inside i dims → Fits dims → three_to_one_d i dims ≡ flat i dims
unfolding three_to_one_d flat
three_to_one_d-flat i dims h fits =
    let whole : flat i dims < word = omega (arith, flat-lt-volume i dims h, fits.small) in
    let whole' : (i.z * dims.y + i.y) * dims.x + i.x < word = unfold flat in whole in
    let row = le-mul (i.z * dims.y + i.y) dims.x fits.pos_x in
    rw
      (
        mod_small (i.z * dims.y) (omega arith),
        mod_small (i.z * dims.y + i.y) (omega arith),
        mod_small ((i.z * dims.y + i.y) * dims.x) (omega arith),
      )
      (mod_small _ whole')

-- What the three divisions of `one_to_three_d` leave.
abbrev split3 : ℕ → Index3 → Index3
split3 n dims =
    let pos_z = n / (dims.x * dims.y) in
    let pos_y = (n - pos_z * dims.x * dims.y) / dims.x in
    record { x = n - dims.x * (pos_y + dims.y * pos_z); y = pos_y; z = pos_z }

div-lt : (n d k : ℕ) → n < d * k → n / d < k
div-lt n d k h = grind arith

parts : (n d : ℕ) → 0 < d → (n / d * d ≤ n) × (n - n / d * d < d)
parts n d h = (omega arith, omega arith)

regroup :
    (n dx dy pz py : ℕ)
    → pz * (dx * dy) ≤ n
    → py * dx ≤ n - pz * dx * dy
    → n - pz * dx * dy - py * dx < dx
    → (n - dx * (py + dy * pz) < dx) × ((pz * dy + py) * dx + (n - dx * (py + dy * pz)) ≡ n)
regroup n dx dy pz py a b c = (omega arith, omega arith)

split3_lem :
    (n : ℕ) (dims : Index3)
    → Fits dims
    → n < volume dims
    → Inside (split3 n dims) dims × (flat (split3 n dims) dims ≡ n)
unfolding flat
split3_lem n dims f h =
    let p = dims.x * dims.y in
    let a = parts n p (plane-pos dims f) in
    let b = parts (n - n / p * dims.x * dims.y) dims.x f.pos_x in
    let c = regroup n dims.x dims.y (n / p) ((n - n / p * dims.x * dims.y) / dims.x) a.0 b.0 b.1 in
    (
      (c.0, div-lt (n - n / p * dims.x * dims.y) dims.x dims.y (omega arith), div-lt n p dims.z h),
      c.1,
    )
  where
    plane-pos : (dims : Index3) → Fits dims → 0 < dims.x * dims.y
    plane-pos dims f = omega (arith, le-mul dims.x dims.y f.pos_y, f.pos_x)

one_to_three_d-split3 :
    (n : ℕ) (dims : Index3) → Fits dims → n < volume dims → one_to_three_d n dims ≡ split3 n dims
unfolding one_to_three_d flat
one_to_three_d-split3 n dims f h =
    let dx = dims.x in
    let dy = dims.y in
    let pz = n / (dx * dy) in
    let py = (n - pz * dx * dy) / dx in
    let row = (split3_lem n dims f h).1 in
    let grown = le-mul (pz * dy + py) dx f.pos_x in
    let plane = le-mul (pz * dx) dy f.pos_y in
    let small : n < word = omega (arith, f.small) in
    rw (
      mod_small (dx * dy) (omega (arith, mul-le-volume dims f, f.small)),
      mod_small (pz * dx) (omega arith),
      mod_small (pz * dx * dy) (omega arith),
      sub_word_small n (pz * dx * dy) small (omega arith),
      mod_small (dy * pz) (omega arith),
      mod_small (py + dy * pz) (omega arith),
      mod_small (dx * (py + dy * pz)) (omega arith),
      sub_word_small n (dx * (py + dy * pz)) small (omega arith),
    )

pub row-le : (b b' d : ℕ) → b < b' → b * d + d ≤ b' * d
row-le b b' d h = grind arith

pub lt_trichotomy : (m n : ℕ) → (m < n) ⊎ ((m ≡ n) ⊎ (n < m))
lt_trichotomy m n = ground arith

-- Equal positions come from equal remainders and equal quotients.
pub flat_inj : (a b a' b' d : ℕ) → a < d → a' < d → b * d + a ≡ b' * d + a' → (a ≡ a') × (b ≡ b')
flat_inj a b a' b' d h h' e = elim (lt_trichotomy b b') [
  | inl less ↦ absurd (omega (arith, row-le b b' d less))
  | inr (inl same) ↦ (omega (arith, ap (λ (t : ℕ). t * d) same), same)
  | inr (inr more) ↦ absurd (omega (arith, row-le b' b d more))
]

pub flat-injective :
    (i j dims : Index3) → Inside i dims → Inside j dims → flat i dims ≡ flat j dims → i ≡ j
unfolding flat
flat-injective i j dims h k e =
    let r = flat_inj i.x (i.z * dims.y + i.y) j.x (j.z * dims.y + j.y) dims.x h.0 k.0 e in
    let q = flat_inj i.y i.z j.y j.z dims.y h.1 k.1 r.1 in ground arith

-- In a block whose number of cells is below 2 ^ 64, `one_to_three_d` of a position below that
-- number lies inside the block, and `three_to_one_d` takes it back to the position.
pub three_to_one_d-one_to_three_d :
    (n : ℕ) (dims : Index3)
    → Fits dims
    → n < volume dims
    → Inside (one_to_three_d n dims) dims × (three_to_one_d (one_to_three_d n dims) dims ≡ n)
three_to_one_d-one_to_three_d n dims f h =
    let s = split3_lem n dims f h in
    rw (one_to_three_d-split3 n dims f h)
      ((s.0.0, s.0.1, s.0.2), three_to_one_d-flat (split3 n dims) dims s.0 f ∙ s.1)

-- In such a block the position of a cell inside is below the number of cells, and
-- `one_to_three_d` takes it back to the cell.
pub one_to_three_d-three_to_one_d :
    (i dims : Index3)
    → Fits dims
    → Inside i dims
    → (three_to_one_d i dims < volume dims) × (one_to_three_d (three_to_one_d i dims) dims ≡ i)
one_to_three_d-three_to_one_d i dims f h =
    let lt = flat-lt-volume i dims h in
    let s = split3_lem (flat i dims) dims f lt in
    rw (three_to_one_d-flat i dims h f) (
      lt,
      one_to_three_d-split3 (flat i dims) dims f lt
          ∙ flat-injective (split3 (flat i dims) dims) i dims s.0 h s.1,
    )
