-- ===== src/Tuning/SearchSpace/Populated.antt =====
-- Which configurations `populateSearchSpace` creates.
use auto_pas.Prelude.{
  ℕ, ◌≡◌, ◌↔◌, ◌⊎◌, inl, inr, refl, sym, subst, ap, ◌∙◌, Bool, false, Option-cases, some, List, [],
  ◌∷◌, In, get_elem?, arith,
}
use auto_pas.Rules.Patterns.{Configuration}
use auto_pas.Options.{all_compatible_traversals, intersection, get_applicable_load_estimators}
use auto_pas.Options.Compatible.{intersection-In}
use auto_pas.Tuning.Strategy.{Outcome, ok, err, ◌>>=◌}
use auto_pas.Tuning.FullSearch.{FullSearch}
use auto_pas.Tuning.SearchSpace.{populate_container, populate, not_empty, populate_search_space}
use auto_pas.Tuning.SearchSpace.Emplaced.{for_each-In, emplace-In}

module _ {D : Type 0} (less_d : D → D → Bool)
    (connected : (a b : D) → less_d a b ≡ false → less_d b a ≡ false → a ≡ b) where
  -- What a container contributes: its configurations of the allowed options.
  abbrev Chosen : ℕ → List ℕ → List D → List ℕ → List ℕ → List ℕ → Configuration D → Type 0
  Chosen k applicable factors estimators layouts newton3_options c =
      (c.container ≡ k)
      × In c.cell_size_factor factors
      × In c.traversal applicable
      × In c.load_estimator (get_applicable_load_estimators k c.traversal estimators)
      × In c.data_layout layouts
      × In c.newton3 newton3_options

  populate_container-In :
      (k : ℕ) (applicable : List ℕ) (factors : List D) (estimators layouts newton3_options : List ℕ)
      (space : List (Configuration D)) (c : Configuration D)
      → In c
          (populate_container less_d k applicable factors estimators layouts newton3_options space)
        ↔ (In c space ⊎ Chosen k applicable factors estimators layouts newton3_options c)
  unfolding populate_container
  populate_container-In k applicable factors estimators layouts newton3_options space c =
      let config =
        λ (factor : D) (t estimator layout n3 : ℕ). make k factor t estimator layout n3 in
      let loops =
        for_each-In
          (λ factor c.
            (t : ℕ) × In t applicable
            × ((estimator : ℕ) × In estimator (get_applicable_load_estimators k t estimators)
                × ((layout : ℕ) × In layout layouts
                    × ((n3 : ℕ) × In n3 newton3_options
                        × (make k factor t estimator layout n3 ≡ c)))))
          _ c
          (λ factor.
            for_each-In
              (λ t c.
                (estimator : ℕ) × In estimator (get_applicable_load_estimators k t estimators)
                × ((layout : ℕ) × In layout layouts
                    × ((n3 : ℕ) × In n3 newton3_options
                        × (make k factor t estimator layout n3 ≡ c))))
              _ c
              (λ t.
                for_each-In
                  (λ estimator c.
                    (layout : ℕ) × In layout layouts
                    × ((n3 : ℕ) × In n3 newton3_options
                        × (make k factor t estimator layout n3 ≡ c)))
                  _ c
                  (λ estimator.
                    for_each-In
                      (λ layout c.
                        (n3 : ℕ) × In n3 newton3_options
                        × (make k factor t estimator layout n3 ≡ c))
                      _ c
                      (λ layout.
                        for_each-In (λ n3 c. make k factor t estimator layout n3 ≡ c) _ c
                          (λ n3 s.
                            emplace-In less_d connected c (make k factor t estimator layout n3) s)
                          newton3_options)
                      layouts)
                  (get_applicable_load_estimators k t estimators))
              applicable)
          factors space in
      (
        λ h. elim (loops.0 h) [
          | inl old ↦ inl old
          | inr (factor, hf, (t, ht, (estimator, he, (layout, hl, (n3, hn, same))))) ↦ inr (
              subst (Chosen k applicable factors estimators layouts newton3_options) same
                (refl, hf, ht, he, hl, hn))
        ],
        λ h. elim h [
          | inl old ↦ loops.1 (inl old)
          | inr (hk, hf, ht, he, hl, hn) ↦ loops.1 (
              inr (
                c.cell_size_factor,
                hf,
                (
                  c.traversal,
                  ht,
                  (
                    c.load_estimator,
                    he,
                    (
                      c.data_layout,
                      hl,
                      (c.newton3, hn, ap (λ z. record c { container = z }) (sym hk)),
                    ),
                  ),
                ),
              ))
        ],
      )
    where
      make : ℕ → D → ℕ → ℕ → ℕ → ℕ → Configuration D
      make k factor t estimator layout n3 = record {
        container = k;
        traversal = t;
        load_estimator = estimator;
        data_layout = layout;
        newton3 = n3;
        cell_size_factor = factor;
      }

  populate-In :
      (ks : List ℕ) (factors : List D) (traversals estimators layouts newton3_options : List ℕ)
      (space space' : List (Configuration D)) (c : Configuration D)
      → populate less_d ks factors traversals estimators layouts newton3_options space ≡ ok space'
      → In c space' ↔ (
          In c space
          ⊎ ((k : ℕ) × In k ks
              × ((compatible : List ℕ) × (all_compatible_traversals k ≡ some compatible)
                  × Chosen k
                      (intersection traversals compatible)
                      factors
                      estimators
                      layouts
                      newton3_options
                      c)))
  unfolding populate
  populate-In [] factors traversals estimators layouts newton3_options space space' c h =
      let same : space ≡ space' = ground (arith, h) in
      rw (sym same) (λ p. inl p, λ p. elim p [ inl q ↦ q | inr q ↦ absurd q.1 ])
  populate-In (k ∷ ks) factors traversals estimators layouts newton3_options space space' c h =
      elim (Option-cases (all_compatible_traversals k)) [
        | inl unknown ↦ absurd (cc (rw (populate, unknown) at h))
        | inr (compatible, known) ↦
            let applicable = intersection traversals compatible in
            let space₁ =
              populate_container less_d k applicable factors estimators layouts newton3_options
                space in
            let rest =
              populate-In ks factors traversals estimators layouts newton3_options space₁ space' c
                (rw (populate, known) at h) in
            let here =
              populate_container-In k applicable factors estimators layouts newton3_options space
                c in
            (
              λ p. elim (rest.0 p) [
                | inl q ↦ elim (here.0 q) [
                  | inl old ↦ inl old
                  | inr new ↦ inr (k, inl refl, (compatible, known, new))
                ]
                | inr q ↦ inr (q.0, inr q.1, q.2)
              ],
              λ p. elim p [
                | inl old ↦ rest.1 (inl (here.1 (inl old)))
                | inr (j, place, (ts, fits, chosen)) ↦ elim place [
                  | inl same ↦
                      let fits' : all_compatible_traversals k ≡ some ts =
                        ap all_compatible_traversals same ∙ fits in
                      let equal : ts ≡ compatible = ground (arith, sym fits' ∙ known) in
                      rest.1 (inl (here.1 (inr (rw (sym equal, same) chosen))))
                  | inr later ↦ rest.1 (inr (j, later, (ts, fits, chosen)))
                ]
              ],
            )
      ]

  not_empty-ok :
      (o : Outcome (List (Configuration D))) (s : FullSearch (Configuration D))
      → (o >>= not_empty less_d) ≡ ok s
      → (o ≡ ok s.search_space)
        × (s.current_config ≡ 0)
        × ((first : Configuration D) × (get_elem? s.search_space 0 ≡ some first))
        × (s.traversal_times ≡ [])
  not_empty-ok (err thrown) s h = absurd (cc h)
  not_empty-ok (ok []) s h = absurd (cc h)
  not_empty-ok (ok (x ∷ xs)) s h =
      let made : record { search_space = x ∷ xs; current_config = 0; traversal_times = [] } ≡ s =
        ground (arith, h) in
      (
        ap (λ (z : FullSearch (Configuration D)). ok z.search_space) made,
        ap (λ (z : FullSearch (Configuration D)). z.current_config) (sym made),
        (x, ap (λ (z : FullSearch (Configuration D)). get_elem? z.search_space 0) (sym made)),
        ap (λ (z : FullSearch (Configuration D)). z.traversal_times) (sym made),
      )

  -- The search space that was populated has exactly the configurations of allowed options whose
  -- traversal fits the container and whose load estimator is applicable to both, and there is at
  -- least one of them; the current one is the first, and no times are on record. The order of the cell size factors is
  -- connected, as that of `double` is without NaN.
  pub populate_search_space-In :
      (ks : List ℕ) (factors : List D) (traversals estimators layouts newton3_options : List ℕ)
      (s : FullSearch (Configuration D)) (c : Configuration D)
      → populate_search_space less_d ks factors traversals estimators layouts newton3_options ≡ ok s
      → (In c s.search_space ↔ (
          In c.container ks
          × In c.cell_size_factor factors
          × In c.traversal traversals
          × ((compatible : List ℕ) × (all_compatible_traversals c.container ≡ some compatible)
              × In c.traversal compatible)
          × In c.load_estimator (get_applicable_load_estimators c.container c.traversal estimators)
          × In c.data_layout layouts
          × In c.newton3 newton3_options))
        × (s.current_config ≡ 0)
        × ((first : Configuration D) × (get_elem? s.search_space 0 ≡ some first))
        × (s.traversal_times ≡ [])
  unfolding populate_search_space
  populate_search_space-In ks factors traversals estimators layouts newton3_options s c h =
      let made =
        not_empty-ok (populate less_d ks factors traversals estimators layouts newton3_options []) s
          h in
      let all =
        populate-In ks factors traversals estimators layouts newton3_options [] s.search_space c
          made.0 in
      (
        (
          λ p. elim (all.0 p) [
            | inl old ↦ absurd old
            | inr (k, place, (ts, fits, (hk, hf, ht, he, hl, hn))) ↦
                let t = (intersection-In traversals ts c.traversal).0 ht in
                (
                  subst (λ z. In z ks) (sym hk) place,
                  hf,
                  t.0,
                  (ts, ap all_compatible_traversals hk ∙ fits, t.1),
                  subst
                      (λ z.
                        In c.load_estimator
                          (get_applicable_load_estimators z c.traversal estimators))
                      (sym hk) he,
                  hl,
                  hn,
                )
          ],
          λ (place, hf, ht, (ts, fits, hc), he, hl, hn). all.1 (
              inr (
                c.container,
                place,
                (
                  ts,
                  fits,
                  (refl, hf, (intersection-In traversals ts c.traversal).1 (ht, hc), he, hl, hn),
                ),
              )),
        ),
        made.1,
        made.2,
        made.3,
      )
