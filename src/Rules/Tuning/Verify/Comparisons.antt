-- ===== src/Rules/Tuning/Verify/Comparisons.antt =====
-- What the comparison of the times with one order can find: `verifyCurrentConfigTime` of
-- RuleBasedTuning.h.
use auto_pas.Prelude.{
  In, ℕ, ◌<◌, ◌≡◌, ◌↔◌, ◌⊎◌, inl, inr, refl, sym, ap, ◌∙◌, Bool, true, false, ◌&&◌, Bool-cases,
  if◌then◌else◌, List, [], ◌∷◌, arith,
}
use auto_pas.Prelude.Classes.{Eq}
use auto_pas.Rules.Patterns.{Configuration, ConfigurationOrder, matches, have_equal_same_properties}
use auto_pas.Rules.Patterns.Equality.{and_true}
use auto_pas.Rules.Patterns.Orders.{AllEqual, have_equal_same_properties-AllEqual}
use auto_pas.Rules.Tuning.{TuningError}
use auto_pas.Rules.Tuning.Verify.{report, contradicts, compare_times}

pub slower_iff : (t u : ℕ) → (contradicts true t u ≡ true) ↔ (t < u)
unfolding contradicts
slower_iff t u = ground arith

pub faster_iff : (t u : ℕ) → (contradicts false t u ≡ true) ↔ (u < t)
unfolding contradicts
faster_iff t u = ground arith

module _ {D : Type 0} ⦃d : Eq D⦄ where
  -- The current configuration is the one that was faster.
  abbrev pub CurrentIsFaster :
      Configuration D
      → ℕ
      → List (Configuration D × ℕ)
      → TuningError D
      → ConfigurationOrder D
      → Type 0
  CurrentIsFaster current t times r o =
      (r.actual_better_config ≡ current)
      × (r.better_runtime ≡ t)
      × In (r.should_be_better_config, r.should_be_better_runtime) times
      × AllEqual o.same_properties current r.should_be_better_config

  -- The current configuration is the one that should have been faster.
  abbrev pub CurrentIsSlower :
      Configuration D
      → ℕ
      → List (Configuration D × ℕ)
      → TuningError D
      → ConfigurationOrder D
      → Type 0
  CurrentIsSlower current t times r o =
      (r.should_be_better_config ≡ current)
      × (r.should_be_better_runtime ≡ t)
      × In (r.actual_better_config, r.better_runtime) times
      × AllEqual o.same_properties current r.actual_better_config

  -- An order is contradicted: of two measured configurations, one of them the current one, which
  -- agree in the properties of the order, the one that the order calls worse was faster.
  pub record IsViolation (current : Configuration D) (t : ℕ) (times : List (Configuration D × ℕ))
      (r : TuningError D) (o : ConfigurationOrder D) : Type 0 where
    pub violates : r.violated ≡ o
    pub better : matches o.greater r.should_be_better_config ≡ true
    pub worse : matches o.smaller r.actual_better_config ≡ true
    pub faster : r.better_runtime < r.should_be_better_runtime
    pub measured : CurrentIsFaster current t times r o ⊎ CurrentIsSlower current t times r o

  -- What the comparison can find: the current configuration takes part as the one that should have
  -- been faster only if the pattern of the worse ones does not match it.
  pub data IsCompared (current : Configuration D) (t : ℕ) (times : List (Configuration D × ℕ))
      (r : TuningError D) (o : ConfigurationOrder D) : Type 0 where
    as_faster : CurrentIsFaster current t times r o → IsCompared current t times r o
    as_not_worse : matches o.smaller current ≡ false → IsCompared current t times r o

  pub same_report :
      (r : TuningError D) (o : ConfigurationOrder D) (b : Configuration D) (t : ℕ)
      (w : Configuration D) (u : ℕ)
      → r.violated ≡ o
      → r.actual_better_config ≡ b
      → r.better_runtime ≡ t
      → r.should_be_better_config ≡ w
      → r.should_be_better_runtime ≡ u
      → report true o b t w u ≡ r
  unfolding report
  same_report r o b t w u ho hb ht hw hu = rw (sym ho, sym hb, sym ht, sym hw, sym hu) refl

  abbrev pub fires : Bool → ConfigurationOrder D → Configuration D → ℕ → Configuration D × ℕ → Bool
  fires b o current t entry =
      matches (if b then o.greater else o.smaller) entry.0
      && have_equal_same_properties o current entry.0
      && contradicts b t entry.1

  -- An entry of the times that gives rise to a report.
  abbrev pub Reported :
      Bool
      → ConfigurationOrder D
      → Configuration D
      → ℕ
      → List (Configuration D × ℕ)
      → TuningError D
      → Type 0
  Reported b o current t times r =
      (entry : Configuration D × ℕ) × In entry times
      × (fires b o current t entry ≡ true)
      × (report b o current t entry.0 entry.1 ≡ r)

  pub compare_times-Reported :
      (b : Bool) (o : ConfigurationOrder D) (current : Configuration D) (t : ℕ)
      (times : List (Configuration D × ℕ)) (r : TuningError D)
      → In r (compare_times b o current t times) ↔ Reported b o current t times r
  unfolding compare_times
  compare_times-Reported b o current t [] r = (λ h. absurd h, λ h. absurd h.1)
  compare_times-Reported b o current t ((other, time) ∷ times) r =
      let rest = compare_times-Reported b o current t times r in
      elim (Bool-cases (fires b o current t (other, time))) [
        | inl hit ↦ rw hit (
          λ h. elim h [
            | inl same ↦ ((other, time), inl refl, hit, same)
            | inr later ↦ let q = rest.0 later in (q.0, inr q.1, q.2, q.3)
          ],
          λ (entry, place, f, same). elim place [
            | inl first ↦
                inl (ap (λ (z : Configuration D × ℕ). report b o current t z.0 z.1) first ∙ same)
            | inr later ↦ inr (rest.1 (entry, later, f, same))
          ],
        )
        | inr miss ↦ rw miss (
          λ h. let q = rest.0 h in (q.0, inr q.1, q.2, q.3),
          λ (entry, place, f, same). elim place [
            | inl first ↦ absurd (cc (miss, f, ap (fires b o current t) first))
            | inr later ↦ rest.1 (entry, later, f, same)
          ],
        )
      ]

  pub fires_iff :
      (b : Bool) (o : ConfigurationOrder D) (current : Configuration D) (t : ℕ)
      (entry : Configuration D × ℕ)
      → (fires b o current t entry ≡ true) ↔ (
          (matches (if b then o.greater else o.smaller) entry.0 ≡ true)
          × AllEqual o.same_properties current entry.0
          × (contradicts b t entry.1 ≡ true))
  fires_iff b o current t entry =
      let m = matches (if b then o.greater else o.smaller) entry.0 in
      let s = have_equal_same_properties o current entry.0 in
      let all = have_equal_same_properties-AllEqual o current entry.0 in
      (
        λ h.
            let outer = (and_true (m && s) (contradicts b t entry.1)).0 h in
            let inner = (and_true m s).0 outer.0 in (inner.0, all.0 inner.1, outer.1),
        λ h.
            (and_true (m && s) (contradicts b t entry.1)).1
              ((and_true m s).1 (h.0, all.1 h.1), h.2),
      )
