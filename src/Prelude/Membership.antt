-- ===== src/Prelude/Membership.antt =====
-- Membership in a list.
use mathlib.Core.Path.{◌≡◌}
use mathlib.Core.Logic.{◌⊎◌, inl, inr, ◌↔◌}
use mathlib.Core.List.{List, [], ◌∷◌, ◌++◌}

abbrev pub In : {A : Type 0} → A → List A → Type 0
In a [] = ⊥
In a (x ∷ xs) = (x ≡ a) ⊎ In a xs

pub In-append : {A : Type 0} (a : A) (xs ys : List A) → In a (xs ++ ys) ↔ (In a xs ⊎ In a ys)
In-append a [] ys = (λ h. inr h, λ h. elim h [ inl k ↦ absurd k | inr k ↦ k ])
In-append a (x ∷ xs) ys =
    let rest = In-append a xs ys in
    (
      λ h. elim h [
        | inl same ↦ inl (inl same)
        | inr later ↦ elim (rest.0 later) [ inl k ↦ inl (inr k) | inr k ↦ inr k ]
      ],
      λ h. elim h [
        | inl k ↦ elim k [ inl same ↦ inl same | inr later ↦ inr (rest.1 (inl later)) ]
        | inr k ↦ inr (rest.1 (inr k))
      ],
    )
