-- ===== src/Tuning/Optimum/Middle.antt =====
-- What stands at a place of the sorted samples.
use auto_pas.Prelude.{
  ℕ, zero, suc, ◌+◌, ◌<◌, ◌≤◌, ◌≡◌, inl, inr, refl, ap, subst, ◌∙◌, Bool, true, not, Bool-cases,
  some, List, [], ◌∷◌, get_elem?, arith,
}
use auto_pas.Prelude.Int.{ℤ, ◌≤ℤ◌, ltb_ℤ}
use auto_pas.Traversal.Loops.{bit, count}
use auto_pas.Tuning.Optimum.{insert_sorted, sort}

-- No sample of the list is less than `x`.
abbrev Least : ℤ → List ℤ → Type 0
Least x [] = Unit {0}
Least x (y ∷ ys) = (x ≤ℤ y) × Least x ys

abbrev pub IsSorted : List ℤ → Type 0
IsSorted [] = Unit {0}
IsSorted (x ∷ xs) = Least x xs × IsSorted xs

Least-trans : (x y : ℤ) (zs : List ℤ) → x ≤ℤ y → Least y zs → Least x zs
Least-trans x y [] h least = tt
Least-trans x y (z ∷ zs) h least = (omega (arith, least.0), Least-trans x y zs h least.1)

less-le : (x y : ℤ) → ltb_ℤ x y ≡ true → x ≤ℤ y
less-le x y h = ground arith

not_less-le : (x y : ℤ) → ltb_ℤ x y ≡ Bool.false → y ≤ℤ x
not_less-le x y h = ground arith

insert_sorted-Least :
    (z x : ℤ) (ys : List ℤ) → z ≤ℤ x → Least z ys → Least z (insert_sorted ltb_ℤ x ys)
unfolding insert_sorted
insert_sorted-Least z x [] h least = (h, tt)
insert_sorted-Least z x (y ∷ ys) h least = elim (Bool-cases (ltb_ℤ x y)) [
  | inl before ↦ rw before (h, (least.0, least.1))
  | inr after ↦ rw after (least.0, insert_sorted-Least z x ys h least.1)
]

insert_sorted-IsSorted : (x : ℤ) (ys : List ℤ) → IsSorted ys → IsSorted (insert_sorted ltb_ℤ x ys)
unfolding insert_sorted
insert_sorted-IsSorted x [] h = (tt, tt)
insert_sorted-IsSorted x (y ∷ ys) h = elim (Bool-cases (ltb_ℤ x y)) [
  | inl before ↦
      let le = less-le x y before in rw before ((le, Least-trans x y ys le h.0), (h.0, h.1))
  | inr after ↦
      rw after
        (insert_sorted-Least y x ys (not_less-le x y after) h.0, insert_sorted-IsSorted x ys h.1)
]

pub sort-IsSorted : (xs : List ℤ) → IsSorted (sort ltb_ℤ xs)
unfolding sort
sort-IsSorted [] = tt
sort-IsSorted (x ∷ xs) = insert_sorted-IsSorted x (sort ltb_ℤ xs) (sort-IsSorted xs)

count-insert_sorted :
    (t : ℤ → Bool) (x : ℤ) (ys : List ℤ)
    → count t (insert_sorted ltb_ℤ x ys) ≡ bit (t x) + count t ys
unfolding insert_sorted
count-insert_sorted t x [] = refl
count-insert_sorted t x (y ∷ ys) = elim (Bool-cases (ltb_ℤ x y)) [
  | inl before ↦ rw before refl
  | inr after ↦ rw after (omega (arith, count-insert_sorted t x ys))
]

pub count-sort : (t : ℤ → Bool) (xs : List ℤ) → count t (sort ltb_ℤ xs) ≡ count t xs
unfolding sort
count-sort t [] = refl
count-sort t (x ∷ xs) =
    count-insert_sorted t x (sort ltb_ℤ xs) ∙ ap (λ n. bit (t x) + n) (count-sort t xs)

none_less : (x : ℤ) (xs : List ℤ) → Least x xs → count (λ y. ltb_ℤ y x) xs ≡ 0
none_less x [] h = refl
none_less x (y ∷ ys) h =
    let here : ltb_ℤ y x ≡ Bool.false = not_before x y h.0 in
    rw here (omega (arith, none_less x ys h.1))
  where
    not_before : (x y : ℤ) → x ≤ℤ y → ltb_ℤ y x ≡ Bool.false
    not_before x y h = ground arith

Least-get_elem? : (x m : ℤ) (xs : List ℤ) (i : ℕ) → Least x xs → get_elem? xs i ≡ some m → x ≤ℤ m
Least-get_elem? x m [] i h at = absurd (cc at)
Least-get_elem? x m (y ∷ ys) zero h at = ground (arith, h, at)
Least-get_elem? x m (y ∷ ys) (suc i) h at = Least-get_elem? x m ys i h.1 at

bit-le : (b : Bool) → bit b ≤ 1
bit-le b = ground arith

not_greater : (x m : ℤ) → x ≤ℤ m → not (ltb_ℤ m x) ≡ true
not_greater x m h = ground arith

first_place :
    (x : ℤ) (xs : List ℤ)
    → Least x xs
    → (count (λ y. ltb_ℤ y x) (x ∷ xs) ≤ 0) × (0 < count (λ y. not (ltb_ℤ x y)) (x ∷ xs))
first_place x xs h =
    let le : x ≤ℤ x = omega arith in
    let itself : not (ltb_ℤ x x) ≡ true = not_greater x x le in
    (omega (arith, none_less x (x ∷ xs) (le, h)), rw itself (omega arith))

-- In a sorted list, at most as many are less than what stands at a place as stand before it, and
-- more than these are not greater.
pub place_lem :
    (m : ℤ) (xs : List ℤ) (i : ℕ)
    → IsSorted xs
    → get_elem? xs i ≡ some m
    → (count (λ x. ltb_ℤ x m) xs ≤ i) × (i < count (λ x. not (ltb_ℤ m x)) xs)
place_lem m [] i h at = absurd (cc at)
place_lem m (x ∷ xs) zero h at =
    subst (λ z. (count (λ y. ltb_ℤ y z) (x ∷ xs) ≤ 0) × (0 < count (λ y. not (ltb_ℤ z y)) (x ∷ xs)))
      (ground (arith, at)) (first_place x xs h.0)
place_lem m (x ∷ xs) (suc i) h at =
    let rest = place_lem m xs i h.1 at in
    let le = Least-get_elem? x m xs i h.0 at in
    (omega (arith, rest.0, bit-le (ltb_ℤ x m)), rw (not_greater x m le) (omega (arith, rest.1)))
