-- ===== src/Tuning/Optimum/Selected.antt =====
-- The optimum that is selected among samples.
use auto_pas.Prelude.{
  ℕ, ◌+◌, ◌-◌, ◌/◌, ◌<◌, ◌≤◌, ◌≡◌, not, inl, inr, refl, sym, subst, ap, ◌∙◌, Bool-cases, none, some,
  List, [], ◌∷◌, In, length, get_elem?, get_elem?-length, arith,
}
use auto_pas.Prelude.Int.{ℤ, pos, ◌≤ℤ◌, ltb_ℤ}
use auto_pas.Traversal.Loops.{count}
use auto_pas.Tuning.Optimum.Middle.{sort-IsSorted, count-sort, place_lem}
use auto_pas.Tuning.Optimum.{
  fastest_abs, fastest_median, min_from, insert_sorted, sort, median_value, optimum_value,
}

min_from-In : (v : ℤ) (vs : List ℤ) → In (min_from v vs) (v ∷ vs)
unfolding min_from
min_from-In v [] = inl refl
min_from-In v (x ∷ vs) = elim (Bool-cases (ltb_ℤ x v)) [
  | inl smaller ↦
      let same : min_from v (x ∷ vs) ≡ min_from x vs = rw (min_from, smaller) refl in
      subst (λ z. In z (v ∷ x ∷ vs)) (sym same) (inr (min_from-In x vs))
  | inr not_smaller ↦
      let same : min_from v (x ∷ vs) ≡ min_from v vs = rw (min_from, not_smaller) refl in
      subst (λ z. In z (v ∷ x ∷ vs)) (sym same)
        (elim (min_from-In v vs) [ inl first ↦ inl first | inr later ↦ inr (inr later) ])
]

min_from-le : (v : ℤ) (vs : List ℤ) → min_from v vs ≤ℤ v
unfolding min_from
min_from-le v [] = omega arith
min_from-le v (x ∷ vs) = elim (Bool-cases (ltb_ℤ x v)) [
  | inl smaller ↦ rw smaller (ground (arith, min_from-le x vs))
  | inr not_smaller ↦ rw not_smaller (min_from-le v vs)
]

min_from-le_all : (v : ℤ) (vs : List ℤ) (x : ℤ) → In x (v ∷ vs) → min_from v vs ≤ℤ x
unfolding min_from
min_from-le_all v [] x (inl same) = subst (λ z. v ≤ℤ z) same (omega arith)
min_from-le_all v [] x (inr none_left) = absurd none_left
min_from-le_all v (y ∷ vs) x place = elim (Bool-cases (ltb_ℤ y v)) [
  | inl smaller ↦ rw smaller (elim place [
    | inl same ↦
        let least = min_from-le y vs in subst (λ z. min_from y vs ≤ℤ z) same (ground (arith, least))
    | inr later ↦ min_from-le_all y vs x later
  ])
  | inr not_smaller ↦ rw not_smaller (elim place [
    | inl same ↦ subst (λ z. min_from v vs ≤ℤ z) same (min_from-le v vs)
    | inr later ↦ elim later [
      | inl same ↦
          let least = min_from-le v vs in
          subst (λ z. min_from v vs ≤ℤ z) same (ground (arith, least))
      | inr last ↦ min_from-le_all v vs x (inr last)
    ]
  ])
]

insert_sorted-In : (x a : ℤ) (ys : List ℤ) → In a (insert_sorted ltb_ℤ x ys) → In a (x ∷ ys)
unfolding insert_sorted
insert_sorted-In x a [] h = h
insert_sorted-In x a (y ∷ ys) h = elim (Bool-cases (ltb_ℤ x y)) [
  | inl before ↦ rw before at h
  | inr after ↦ elim (rw after at h) [
    | inl same ↦ inr (inl same)
    | inr later ↦ elim (insert_sorted-In x a ys later) [ inl same ↦ inl same | inr k ↦ inr (inr k) ]
  ]
]

sort-In : (a : ℤ) (xs : List ℤ) → In a (sort ltb_ℤ xs) → In a xs
unfolding sort
sort-In a [] h = h
sort-In a (x ∷ xs) h = elim (insert_sorted-In x a (sort ltb_ℤ xs) h) [
  | inl same ↦ inl same
  | inr k ↦ inr (sort-In a xs k)
]

get_elem?-In : (xs : List ℤ) (i : ℕ) (v : ℤ) → get_elem? xs i ≡ some v → In v xs
get_elem?-In [] i v h = absurd (cc h)
get_elem?-In (x ∷ xs) ℕ.zero v h = inl (ground (arith, h))
get_elem?-In (x ∷ xs) (ℕ.suc i) v h = inr (get_elem?-In xs i v h)

length-insert_sorted : (x : ℤ) (ys : List ℤ) → length (insert_sorted ltb_ℤ x ys) ≡ length ys + 1
unfolding insert_sorted
length-insert_sorted x [] = refl
length-insert_sorted x (y ∷ ys) = elim (Bool-cases (ltb_ℤ x y)) [
  | inl before ↦ rw before (omega arith)
  | inr after ↦ rw after (omega (arith, length-insert_sorted x ys))
]

length-sort : (xs : List ℤ) → length (sort ltb_ℤ xs) ≡ length xs
unfolding sort
length-sort [] = refl
length-sort (x ∷ xs) = length-insert_sorted x (sort ltb_ℤ xs) ∙ omega (arith, length-sort xs)

-- Of samples, the fastest one is a sample that no sample is less than. The median is a sample, too:
-- of `n` samples, at most (n - 1) / 2, rounded down, are less than it, and more than that many are
-- not greater than it.
pub optimum_value-In :
    (v : ℤ) (vs : List ℤ)
    → let samples = v ∷ vs in
      let median = optimum_value samples fastest_median in
      In (optimum_value samples fastest_abs) samples
      × ((x : ℤ) → In x samples → optimum_value samples fastest_abs ≤ℤ x)
      × In median samples
      × (count (λ x. ltb_ℤ x median) samples ≤ (length samples - 1) / 2)
      × ((length samples - 1) / 2 < count (λ x. not (ltb_ℤ median x)) samples)
unfolding optimum_value median_value
optimum_value-In v vs =
    let i = (length (v ∷ vs) - 1) / 2 in
    let sorted = sort ltb_ℤ (v ∷ vs) in
    let inside : i < length sorted = omega (arith, length-sort (v ∷ vs)) in
    let m = get_elem?-length sorted i inside in
    let median = optimum_value (v ∷ vs) fastest_median in
    let same : median ≡ m.0 = ap (λ o. elim o as (λ _. ℤ) [ none ↦ pos 0 | some w ↦ w ]) m.1 in
    let at : get_elem? sorted i ≡ some median = m.1 ∙ ap (λ (z : ℤ). some z) (sym same) in
    let place = place_lem median sorted i (sort-IsSorted (v ∷ vs)) at in
    (
      min_from-In v vs,
      min_from-le_all v vs,
      sort-In median (v ∷ vs) (get_elem?-In sorted i median at),
      subst (λ n. n ≤ i) (count-sort (λ x. ltb_ℤ x median) (v ∷ vs)) place.0,
      subst (λ n. i < n) (count-sort (λ x. not (ltb_ℤ median x)) (v ∷ vs)) place.1,
    )
