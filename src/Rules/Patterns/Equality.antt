-- ===== src/Rules/Patterns/Equality.antt =====
-- `operator==` of src/autopas/selectors/Configuration.cpp.
use auto_pas.Prelude.{◌≡◌, ◌↔◌, refl, ap, ◌∙◌, Bool, true, false, ◌&&◌, ◌==◌, ==_iff}
use auto_pas.Prelude.Classes.{Eq}
use auto_pas.Rules.Patterns.{Configuration}

pub same_config :
    {D : Type 0} (a b : Configuration D)
    → a.container ≡ b.container
    → a.traversal ≡ b.traversal
    → a.load_estimator ≡ b.load_estimator
    → a.data_layout ≡ b.data_layout
    → a.newton3 ≡ b.newton3
    → a.cell_size_factor ≡ b.cell_size_factor
    → a ≡ b
same_config a b h1 h2 h3 h4 h5 h6 =
    ap (λ z. record a { container = z }) h1
    ∙ ap (λ z. record a { container = b.container; traversal = z }) h2
    ∙ ap (λ z. record a { container = b.container; traversal = b.traversal; load_estimator = z }) h3
    ∙ ap
        (λ z. record b {
          data_layout = z;
          newton3 = a.newton3;
          cell_size_factor = a.cell_size_factor;
        })
        h4
    ∙ ap (λ z. record b { newton3 = z; cell_size_factor = a.cell_size_factor }) h5
    ∙ ap (λ z. record b { cell_size_factor = z }) h6

pub and_true : (a b : Bool) → ((a && b) ≡ true) ↔ ((a ≡ true) × (b ≡ true))
and_true true b = (λ h. (refl, h), λ h. h.1)
and_true false b = (λ h. absurd (cc h), λ h. h.0)

module _ {D : Type 0} ⦃e : Eq D⦄ where
  abbrev pub equal_configurations : Configuration D → Configuration D → Bool
  equal_configurations a b =
      a.container == b.container
      && (e.beq a.cell_size_factor b.cell_size_factor
          && (a.traversal == b.traversal
              && (a.load_estimator == b.load_estimator
                  && (a.data_layout == b.data_layout && a.newton3 == b.newton3))))

  pub equal_configurations_iff :
      (a b : Configuration D) → (equal_configurations a b ≡ true) ↔ (a ≡ b)
  equal_configurations_iff a b =
      let t₁ = a.container == b.container in
      let t₂ = e.beq a.cell_size_factor b.cell_size_factor in
      let t₃ = a.traversal == b.traversal in
      let t₄ = a.load_estimator == b.load_estimator in
      let t₅ = a.data_layout == b.data_layout in
      let t₆ = a.newton3 == b.newton3 in
      (
        λ h.
            let r₁ = (and_true t₁ (t₂ && (t₃ && (t₄ && (t₅ && t₆))))).0 h in
            let r₂ = (and_true t₂ (t₃ && (t₄ && (t₅ && t₆)))).0 r₁.1 in
            let r₃ = (and_true t₃ (t₄ && (t₅ && t₆))).0 r₂.1 in
            let r₄ = (and_true t₄ (t₅ && t₆)).0 r₃.1 in
            let r₅ = (and_true t₅ t₆).0 r₄.1 in
            same_config a b ((==_iff a.container b.container).0 r₁.0)
              ((==_iff a.traversal b.traversal).0 r₃.0)
              ((==_iff a.load_estimator b.load_estimator).0 r₄.0)
              ((==_iff a.data_layout b.data_layout).0 r₅.0) ((==_iff a.newton3 b.newton3).0 r₅.1)
              ((e.beq_iff a.cell_size_factor b.cell_size_factor).0 r₂.0),
        λ h. (and_true t₁ _).1 (
          (==_iff a.container b.container).1 (ap (λ c. c.container) h),
          (and_true t₂ _).1 (
            (e.beq_iff a.cell_size_factor b.cell_size_factor).1 (ap (λ c. c.cell_size_factor) h),
            (and_true t₃ _).1 (
              (==_iff a.traversal b.traversal).1 (ap (λ c. c.traversal) h),
              (and_true t₄ _).1 (
                (==_iff a.load_estimator b.load_estimator).1 (ap (λ c. c.load_estimator) h),
                (and_true t₅ _).1 (
                  (==_iff a.data_layout b.data_layout).1 (ap (λ c. c.data_layout) h),
                  (==_iff a.newton3 b.newton3).1 (ap (λ c. c.newton3) h),
                ),
              ),
            ),
          ),
        ),
      )

  instance abbrev pub configuration_eq : Eq (Configuration D)
  configuration_eq = record { beq = equal_configurations; beq_iff = equal_configurations_iff }
