-- ===== src/Rules/Patterns/Orders.antt =====
-- What the `with same` options of a configuration order ask of two configurations.
use auto_pas.Prelude.{◌≡◌, refl, ◌↔◌, true, ==_iff, Bool-cases, inl, inr, List, [], ◌∷◌}
use auto_pas.Prelude.Classes.{Eq}
use auto_pas.Rules.Patterns.{
  Configuration, ConfigurationOrder, SameProperty, container, traversal, data_layout, newton3,
  load_estimator, cell_size_factor, is_equal_in, equal_in_all, have_equal_same_properties,
}

module _ {D : Type 0} where
  abbrev EqualIn : SameProperty → Configuration D → Configuration D → Type 0
  EqualIn container a b = a.container ≡ b.container
  EqualIn traversal a b = a.traversal ≡ b.traversal
  EqualIn data_layout a b = a.data_layout ≡ b.data_layout
  EqualIn newton3 a b = a.newton3 ≡ b.newton3
  EqualIn load_estimator a b = a.load_estimator ≡ b.load_estimator
  EqualIn cell_size_factor a b = a.cell_size_factor ≡ b.cell_size_factor

  -- The configurations agree in every property of the list.
  abbrev pub AllEqual : List SameProperty → Configuration D → Configuration D → Type 0
  AllEqual [] a b = Unit
  AllEqual (same ∷ rest) a b = EqualIn same a b × AllEqual rest a b

module _ {D : Type 0} ⦃e : Eq D⦄ where
  is_equal_in-EqualIn :
      (same : SameProperty) (a b : Configuration D)
      → (is_equal_in same a b ≡ true) ↔ EqualIn same a b
  unfolding is_equal_in
  is_equal_in-EqualIn container a b = ==_iff a.container b.container
  is_equal_in-EqualIn traversal a b = ==_iff a.traversal b.traversal
  is_equal_in-EqualIn data_layout a b = ==_iff a.data_layout b.data_layout
  is_equal_in-EqualIn newton3 a b = ==_iff a.newton3 b.newton3
  is_equal_in-EqualIn load_estimator a b = ==_iff a.load_estimator b.load_estimator
  is_equal_in-EqualIn cell_size_factor a b = e.beq_iff a.cell_size_factor b.cell_size_factor

  equal_in_all-AllEqual :
      (sames : List SameProperty) (a b : Configuration D)
      → (equal_in_all sames a b ≡ true) ↔ AllEqual sames a b
  unfolding equal_in_all
  equal_in_all-AllEqual [] a b = (λ h. tt, λ h. refl)
  equal_in_all-AllEqual (same ∷ rest) a b =
      let one = is_equal_in-EqualIn same a b in
      let others = equal_in_all-AllEqual rest a b in
      elim (Bool-cases (is_equal_in same a b)) [
        | inl agree ↦ rw agree (λ h. (one.0 agree, others.0 h), λ h. others.1 h.1)
        | inr differ ↦ rw differ (λ h. absurd (cc h), λ h. absurd (cc (differ, one.1 h.0)))
      ]

  -- `haveEqualSameProperties` holds of two configurations exactly when they agree in every
  -- property that the order names.
  pub have_equal_same_properties-AllEqual :
      (o : ConfigurationOrder D) (a b : Configuration D)
      → (have_equal_same_properties o a b ≡ true) ↔ AllEqual o.same_properties a b
  unfolding have_equal_same_properties
  have_equal_same_properties-AllEqual o a b = equal_in_all-AllEqual o.same_properties a b
