-- ===== src/Tuning/SearchSpace/Emplaced.antt =====
-- What the loops of `populateSearchSpace` add to the set of configurations.
use auto_pas.Prelude.{
  ℕ, ◌≡◌, ◌↔◌, ◌⊎◌, inl, inr, refl, sym, subst, ◌∙◌, Bool, true, false, Bool-cases, ltb, List, [],
  ◌∷◌, In, arith,
}
use auto_pas.Rules.Patterns.{Configuration}
use auto_pas.Rules.Patterns.Equality.{same_config}
use auto_pas.Tuning.SearchSpace.{then_less, config_less, emplace, for_each}

ltb_connected : (a b : ℕ) → ltb a b ≡ false → ltb b a ≡ false → a ≡ b
ltb_connected a b h k = ground arith

then_less-false :
    (l g r r' : Bool)
    → then_less l g r ≡ false
    → then_less g l r' ≡ false
    → (l ≡ false) × (g ≡ false) × (r ≡ false) × (r' ≡ false)
then_less-false true g r r' h k = absurd (cc h)
then_less-false false true r r' h k = absurd (cc k)
then_less-false false false r r' h k = (refl, refl, h, k)

-- What the body of a loop adds, the loop adds for one of the elements.
pub for_each-In :
    {A C : Type 0} (Adds : A → C → Type 0) (body : A → List C → List C) (c : C)
    → ((x : A) (s : List C) → In c (body x s) ↔ (In c s ⊎ Adds x c))
    → (xs : List A) (s : List C)
    → In c (for_each xs body s) ↔ (In c s ⊎ ((x : A) × In x xs × Adds x c))
for_each-In Adds body c one [] s = (λ h. inl h, λ h. elim h [ inl k ↦ k | inr k ↦ absurd k.1 ])
for_each-In Adds body c one (x ∷ xs) s =
    let rest = for_each-In Adds body c one xs (body x s) in
    let here = one x s in
    (
      λ h. elim (rest.0 h) [
        | inl k ↦ elim (here.0 k) [ inl old ↦ inl old | inr new ↦ inr (x, inl refl, new) ]
        | inr k ↦ inr (k.0, inr k.1, k.2)
      ],
      λ h. elim h [
        | inl old ↦ rest.1 (inl (here.1 (inl old)))
        | inr (y, place, adds) ↦ elim place [
          | inl same ↦ rest.1 (inl (here.1 (inr (subst (λ z. Adds z c) (sym same) adds))))
          | inr later ↦ rest.1 (inr (y, later, adds))
        ]
      ],
    )

module _ {D : Type 0} (less_d : D → D → Bool)
    (connected : (a b : D) → less_d a b ≡ false → less_d b a ≡ false → a ≡ b) where
  config_less-false :
      (a b : Configuration D)
      → config_less less_d a b ≡ false
      → config_less less_d b a ≡ false
      → a ≡ b
  unfolding config_less
  config_less-false a b h k =
      let r₁ =
        then_less-false (ltb a.container b.container) (ltb b.container a.container) _ _ h k in
      let r₂ =
        then_less-false (less_d a.cell_size_factor b.cell_size_factor)
          (less_d b.cell_size_factor a.cell_size_factor) _ _ r₁.2 r₁.3 in
      let r₃ =
        then_less-false (ltb a.traversal b.traversal) (ltb b.traversal a.traversal) _ _ r₂.2 r₂.3 in
      let r₄ =
        then_less-false (ltb a.load_estimator b.load_estimator)
          (ltb b.load_estimator a.load_estimator) _ _ r₃.2 r₃.3 in
      let r₅ =
        then_less-false (ltb a.data_layout b.data_layout) (ltb b.data_layout a.data_layout) _ _ r₄.2
          r₄.3 in
      same_config a b (ltb_connected a.container b.container r₁.0 r₁.1)
        (ltb_connected a.traversal b.traversal r₃.0 r₃.1)
        (ltb_connected a.load_estimator b.load_estimator r₄.0 r₄.1)
        (ltb_connected a.data_layout b.data_layout r₅.0 r₅.1)
        (ltb_connected a.newton3 b.newton3 r₅.2 r₅.3)
        (connected a.cell_size_factor b.cell_size_factor r₂.0 r₂.1)

  pub emplace-In :
      (c d : Configuration D) (xs : List (Configuration D))
      → In c (emplace less_d d xs) ↔ (In c xs ⊎ (d ≡ c))
  unfolding emplace
  emplace-In c d [] = (
    λ h. elim h [ inl same ↦ inr same | inr k ↦ absurd k ],
    λ h. elim h [ inl k ↦ absurd k | inr same ↦ inl same ],
  )
  emplace-In c d (x ∷ xs) =
      let rest = emplace-In c d xs in
      elim (Bool-cases (config_less less_d d x)) [
        | inl before ↦ rw before (
          λ h. elim h [ inl same ↦ inr same | inr k ↦ inl k ],
          λ h. elim h [ inl k ↦ inr k | inr same ↦ inl same ],
        )
        | inr not_before ↦ elim (Bool-cases (config_less less_d x d)) [
          | inl later ↦
              rw (not_before, later)
                (
                  λ h. elim h [
                    | inl same ↦ inl (inl same)
                    | inr k ↦ elim (rest.0 k) [ inl old ↦ inl (inr old) | inr same ↦ inr same ]
                  ],
                  λ h. elim h [
                    | inl k ↦ elim k [ inl same ↦ inl same | inr old ↦ inr (rest.1 (inl old)) ]
                    | inr same ↦ inr (rest.1 (inr same))
                  ],
                )
          | inr not_later ↦
              rw (not_before, not_later)
                (
                  λ h. inl h,
                  λ h. elim h [
                    | inl k ↦ k
                    | inr same ↦ inl (sym (config_less-false d x not_before not_later) ∙ same)
                  ],
                )
        ]
      ]
