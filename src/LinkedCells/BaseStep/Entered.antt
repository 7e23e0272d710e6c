-- ===== src/LinkedCells/BaseStep/Entered.antt =====
-- All entries of `computeOffsets` are for cells of the block of a base step.
use auto_pas.Prelude.{
  ℕ, ◌+◌, ◌-◌, ◌≤◌, ◌≡◌, refl, Bool, true, false, not, ◌&&◌, ◌||◌, List, [], ◌∷◌, ◌++◌, map, ◌==◌,
  if◌then◌else◌, arith, In, In-append, inl, inr, Bool-cases, subst,
}
use auto_pas.Mapping.{Index3, three_to_one_d}
use auto_pas.Traversal.{each, counting}
use auto_pas.Traversal.Loops.{counting-lt}
use auto_pas.LinkedCells.BaseStep.{
  CellPair, cell_at, cell_offsets, entry, entries_at, lookup, compute_offsets,
}
use auto_pas.LinkedCells.BaseStep.Lookup.{cube, lookup-cell_offsets}
use auto_pas.LinkedCells.BaseStep.Indices.{
  position, Small, offset_index, back_left_index, front_right_index, back_right_index,
}

module _ {A B : Type 0} where
  pub In-each :
      (b : B) (xs : List A) (body : A → List B)
      → In b (each xs body)
      → (a : A) × In a xs × In b (body a)
  unfolding each
  In-each b [] body h = absurd h
  In-each b (x ∷ xs) body h = elim ((In-append b (body x) (each xs body)).0 h) [
    | inl now ↦ (x, inl refl, now)
    | inr later ↦ let r = In-each b xs body later in (r.0, inr r.1, r.2)
  ]

  pub In-map : (b : B) (f : A → B) (xs : List A) → In b (map f xs) → (a : A) × In a xs × (f a ≡ b)
  In-map b f [] h = absurd h
  In-map b f (x ∷ xs) (inl same) = (x, inl refl, same)
  In-map b f (x ∷ xs) (inr later) = let r = In-map b f xs later in (r.0, inr r.1, r.2)

-- The offset of a cell of the block.
abbrev pub OfBlock : ℕ → Index3 → ℕ → Type 0
OfBlock o dims k = (i : Index3) × (i.x ≤ o) × (i.y ≤ o) × (i.z ≤ o) × (k ≡ three_to_one_d i dims)

abbrev pub PairOfBlock : ℕ → Index3 → CellPair → Type 0
PairOfBlock o dims pair = OfBlock o dims pair.offset_1 × OfBlock o dims pair.offset_2

-- All entries of a list are pairs of the block.
pub WithinBlock : ℕ → Index3 → List CellPair → Type 0
WithinBlock o dims pairs = (pair : CellPair) → In pair pairs → PairOfBlock o dims pair

pub append-WithinBlock :
    (o : ℕ) (dims : Index3) (xs ys : List CellPair)
    → WithinBlock o dims xs
    → WithinBlock o dims ys
    → WithinBlock o dims (xs ++ ys)
unfolding WithinBlock
append-WithinBlock o dims xs ys f g pair h = elim ((In-append pair xs ys).0 h) [
  | inl k ↦ f pair k
  | inr k ↦ g pair k
]

pub if-WithinBlock :
    (o : ℕ) (dims : Index3) (g : Bool) (xs : List CellPair)
    → WithinBlock o dims xs
    → WithinBlock o dims (if g then xs else [])
unfolding WithinBlock
if-WithinBlock o dims true xs f = f
if-WithinBlock o dims false xs f = λ pair h. absurd h

pub entry-WithinBlock :
    (near : Index3 → Bool) (o i j : ℕ) (dims d : Index3)
    → OfBlock o dims i
    → OfBlock o dims j
    → WithinBlock o dims (entry near i j d)
unfolding entry WithinBlock
entry-WithinBlock near o i j dims d hi hj pair h = elim (Bool-cases (near d)) [
  | inl found ↦ one (rw found at h)
  | inr far ↦ absurd (rw far at h)
]
  where
    one :
        In pair (record { offset_1 = i; offset_2 = j; distance = d } ∷ []) → PairOfBlock o dims pair
    one (inl same) = subst (PairOfBlock o dims) same (hi, hj)
    one (inr never) = absurd never

pub read :
    (o n x y z : ℕ) (dims : Index3)
    → x ≤ o
    → y ≤ o
    → z ≤ o
    → n ≡ position o x y z
    → OfBlock o dims (lookup (cell_offsets (cube o) dims) n)
read o n x y z dims hx hy hz e =
    (cell_at x y z, hx, hy, hz, rw e (lookup-cell_offsets o x y z dims hx hy hz))

pub entries_at-WithinBlock :
    (near : Index3 → Bool) (o x y z : ℕ) (dims : Index3)
    → Small o
    → x ≤ o
    → y ≤ o
    → z ≤ o
    → WithinBlock o dims (entries_at near (cube o) (cell_offsets (cube o) dims) x y z)
unfolding entries_at
entries_at-WithinBlock near o x y z dims small hx hy hz =
    let none_in : 0 ≤ o = omega arith in
    let all_in : o ≤ o = omega arith in
    let second = read o _ x y 0 dims hx hy none_in (offset_index o x y small hx hy) in
    append-WithinBlock o dims _ _
      (entry-WithinBlock near o _ _ dims _ (read o z 0 0 z dims none_in none_in hz (omega arith))
        second)
      (append-WithinBlock o dims _ _
        (if-WithinBlock o dims (not (y == o) && not (z == 0)) _ (
          entry-WithinBlock near o _ _ dims (cell_at (x - 1) (o - y - 1) (z - 1))
            (read o _ 0 o z dims none_in all_in hz (back_left_index o z small hz)) second))
        (append-WithinBlock o dims _ _
          (if-WithinBlock o dims (not (x == o) && (not (y == 0) || not (z == 0))) _ (
            entry-WithinBlock near o _ _ dims (cell_at (o - x - 1) (y - 1) (z - 1))
              (read o _ o 0 z dims all_in none_in hz (front_right_index o z small hz)) second))
          (if-WithinBlock o dims (not (y == o) && (not (x == o) && not (z == 0))) _ (
            entry-WithinBlock near o _ _ dims (cell_at (o - x - 1) (o - y - 1) (z - 1))
              (read o _ o o z dims all_in all_in hz (back_right_index o z small hz)) second))))

pub compute_offsets-OfBlock :
    (near : Index3 → Bool) (o : ℕ) (dims : Index3) (pair : CellPair)
    → Small o
    → In pair (compute_offsets near (cube o) dims)
    → PairOfBlock o dims pair
unfolding compute_offsets WithinBlock
compute_offsets-OfBlock near o dims pair small h =
    let on_x = In-each pair _ _ h in
    let on_y = In-each pair _ _ on_x.2 in
    let on_z = In-each pair _ _ on_y.2 in
    entries_at-WithinBlock near o on_x.0 on_y.0 on_z.0 dims small (last_round o on_x.0 on_x.1)
      (last_round o on_y.0 on_y.1) (last_round o on_z.0 on_z.1) pair on_z.2
  where
    last_round : (o x : ℕ) → In x (counting (o + 1) 0) → x ≤ o
    last_round o x h = omega (arith, counting-lt (o + 1) 0 x h)
