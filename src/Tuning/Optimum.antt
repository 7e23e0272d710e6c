-- ===== src/Tuning/Optimum.antt =====
-- src/autopas/selectors/OptimumSelector.h. A `long` is an integer; sums are taken not to overflow.
pub mod Middle
pub mod Selected
use auto_pas.Prelude.{◌-◌, ◌/◌, Bool, if◌then◌else◌, none, some, List, [], ◌∷◌, length, get_elem?}
use auto_pas.Prelude.Int.{ℤ, pos, ◌+ℤ◌, ltb_ℤ, div_trunc}

pub data SelectorStrategy : Type 0 where
  fastest_abs fastest_mean fastest_median : SelectorStrategy

-- `std::min_element` keeps the first of equal values.
unfoldable pub min_from : ℤ → List ℤ → ℤ
min_from least [] = least
min_from least (x ∷ xs) = min_from (if ltb_ℤ x least then x else least) xs

unfoldable pub accumulate : ℤ → List ℤ → ℤ
accumulate acc [] = acc
accumulate acc (x ∷ xs) = accumulate (acc +ℤ x) xs

unfoldable pub mean_value : List ℤ → ℤ
unfolding accumulate div_trunc ◌+ℤ◌
mean_value values = div_trunc (accumulate (pos 0) values) (length values)

-- `medianValue` is a template: `less` is the `<` of its type and `zero` its `0`.
module _ {ℓ} {T : Type ℓ} (less : T → T → Bool) where
  unfoldable pub insert_sorted : T → List T → List T
  insert_sorted x [] = x ∷ []
  insert_sorted x (y ∷ ys) = if less x y then x ∷ y ∷ ys else y ∷ insert_sorted x ys

  unfoldable pub sort : List T → List T
  unfolding insert_sorted
  sort [] = []
  sort (x ∷ xs) = insert_sorted x (sort xs)

  unfoldable pub median_value : T → List T → T
  unfolding sort
  median_value zero values = elim (get_elem? (sort values) ((length values - 1) / 2)) [
    | none ↦ zero
    | some v ↦ v
  ]

unfoldable pub optimum_value : List ℤ → SelectorStrategy → ℤ
unfolding min_from mean_value median_value
optimum_value [] strategy = pos 0
optimum_value (v ∷ vs) fastest_abs = min_from v vs
optimum_value (v ∷ vs) fastest_mean = mean_value (v ∷ vs)
optimum_value (v ∷ vs) fastest_median = median_value ltb_ℤ (pos 0) (v ∷ vs)
