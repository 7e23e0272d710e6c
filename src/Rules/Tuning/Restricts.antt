-- ===== src/Rules/Tuning/Restricts.antt =====
-- The configurations that the rules leave, and those that they remove.
use auto_pas.Prelude.{
  In, ◌≡◌, ◌↔◌, ◌⊎◌, inl, inr, refl, subst, true, false, Bool-cases, List, [], ◌∷◌,
}
use auto_pas.Prelude.Classes.{Eq}
use auto_pas.Rules.Patterns.{Configuration, ConfigurationPattern, matches}
use auto_pas.Rules.Tuning.{RuleBasedTuning, any_matches, remove_matching, restrict}

module _ {D : Type 0} ⦃d : Eq D⦄ where
  any_matches_iff :
      (ps : List (ConfigurationPattern D)) (c : Configuration D)
      → (any_matches ps c ≡ true) ↔ ((p : ConfigurationPattern D) × In p ps × (matches p c ≡ true))
  unfolding any_matches
  any_matches_iff [] c = (λ h. absurd (cc h), λ h. absurd h.1)
  any_matches_iff (p ∷ ps) c = elim (Bool-cases (matches p c)) [
    | inl here ↦ rw here (λ h. (p, inl refl, here), λ h. refl)
    | inr away ↦
        let rest = any_matches_iff ps c in
        rw away (
          λ h. let r = rest.0 h in (r.0, inr r.1, r.2),
          λ (q, place, fits). elim place [
            | inl same ↦ absurd (cc (away, fits, same))
            | inr later ↦ rest.1 (q, later, fits)
          ],
        )
  ]

  none_matches_iff :
      (ps : List (ConfigurationPattern D)) (c : Configuration D)
      → (any_matches ps c ≡ false) ↔ ((p : ConfigurationPattern D) → In p ps → matches p c ≡ false)
  unfolding any_matches
  none_matches_iff [] c = (λ h p k. absurd k, λ h. refl)
  none_matches_iff (p ∷ ps) c = elim (Bool-cases (matches p c)) [
    | inl here ↦ rw here (λ h. absurd (cc h), λ h. absurd (cc (here, h p (inl refl))))
    | inr away ↦
        let rest = none_matches_iff ps c in
        rw away (
          λ h q place. elim place [
            | inl same ↦ subst (λ z. matches z c ≡ false) same away
            | inr later ↦ rest.0 h q later
          ],
          λ h. rest.1 λ q later. h q (inr later),
        )
  ]

  remove_matching-In :
      (ps : List (ConfigurationPattern D)) (cs : List (Configuration D)) (c : Configuration D)
      → (In c (remove_matching ps cs).0 ↔ (In c cs × (any_matches ps c ≡ false)))
        × (In c (remove_matching ps cs).1 ↔ (In c cs × (any_matches ps c ≡ true)))
  unfolding remove_matching
  remove_matching-In ps [] c = ((λ h. absurd h, λ h. absurd h.0), (λ h. absurd h, λ h. absurd h.0))
  remove_matching-In ps (x ∷ cs) c =
      let rest = remove_matching-In ps cs c in
      elim (Bool-cases (any_matches ps x)) [
        | inl gone ↦ rw gone (
          (
            λ h. let r = rest.0.0 h in (inr r.0, r.1),
            λ (place, free). elim place [
              | inl same ↦ absurd (cc (gone, free, same))
              | inr later ↦ rest.0.1 (later, free)
            ],
          ),
          (
            λ h. elim h [
              | inl same ↦ (inl same, subst (λ z. any_matches ps z ≡ true) same gone)
              | inr later ↦ let r = rest.1.0 later in (inr r.0, r.1)
            ],
            λ (place, hit). elim place [
              | inl same ↦ inl same
              | inr later ↦ inr (rest.1.1 (later, hit))
            ],
          ),
        )
        | inr left ↦ rw left (
          (
            λ h. elim h [
              | inl same ↦ (inl same, subst (λ z. any_matches ps z ≡ false) same left)
              | inr later ↦ let r = rest.0.0 later in (inr r.0, r.1)
            ],
            λ (place, free). elim place [
              | inl same ↦ inl same
              | inr later ↦ inr (rest.0.1 (later, free))
            ],
          ),
          (
            λ h. let r = rest.1.0 h in (inr r.0, r.1),
            λ (place, hit). elim place [
              | inl same ↦ absurd (cc (left, hit, same))
              | inr later ↦ rest.1.1 (later, hit)
            ],
          ),
        )
      ]

module _ {N D : Type 0} ⦃e : Eq N⦄ ⦃d : Eq D⦄ where
  -- In every mode, the configurations on record as removed are exactly those of the original search
  -- space that some pattern matches. If the rules are only verified, the search is as before; else
  -- the new search space has exactly the configurations of the original one that no pattern matches.
  pub restrict-In :
      (ps : List (ConfigurationPattern D)) (s : RuleBasedTuning N D) (c : Configuration D)
      → (((s.verify_mode_enabled ≡ true) × ((restrict ps s).search ≡ s.search))
          ⊎ ((s.verify_mode_enabled ≡ false)
              × (In c (restrict ps s).search.search_space ↔ (
                  In c s.original_search_space
                  × ((p : ConfigurationPattern D) → In p ps → matches p c ≡ false)))))
        × (In c (restrict ps s).removed_configurations ↔ (
            In c s.original_search_space
            × ((p : ConfigurationPattern D) × In p ps × (matches p c ≡ true))))
  unfolding restrict
  restrict-In ps s c =
      let split = remove_matching-In ps s.original_search_space c in
      let free = none_matches_iff ps c in
      let hit = any_matches_iff ps c in
      let removed =
        λ (h : In c s.original_search_space
            × ((p : ConfigurationPattern D) × In p ps × (matches p c ≡ true))).
          split.1.1 (h.0, hit.1 h.1) in
      elim (Bool-cases s.verify_mode_enabled) [
        | inl verified ↦ (
          inl (verified, rw (restrict, verified) refl),
          rw (restrict, verified) (λ h. let r = split.1.0 h in (r.0, hit.0 r.1), removed),
        )
        | inr unverified ↦ (
          inr (
            unverified,
            rw (restrict, unverified)
                (λ h. let r = split.0.0 h in (r.0, free.0 r.1), λ h. split.0.1 (h.0, free.1 h.1)),
          ),
          rw (restrict, unverified) (λ h. let r = split.1.0 h in (r.0, hit.0 r.1), removed),
        )
      ]
