-- ===== src/Rules/Tuning/Verify/Reports.antt =====
-- Which calls of the printer the verify mode makes.
use auto_pas.Prelude.{
  In, In-append, ℕ, ◌≡◌, ◌↔◌, ◌⊎◌, inl, inr, refl, sym, subst, true, false, Bool-cases,
  if◌then◌else◌, some, List, [], ◌∷◌, ◌++◌, arith,
}
use auto_pas.Prelude.Classes.{Eq}
use auto_pas.Rules.Patterns.{Configuration, ConfigurationOrder, matches}
use auto_pas.Rules.Tuning.{TuningError}
use auto_pas.Rules.Tuning.Verify.{report, compare_times, compared_errors, verify_orders}
use auto_pas.Tuning.FullSearch.{find_time}
use auto_pas.Tuning.Strategy.{ok}
use auto_pas.Rules.Tuning.Verify.Comparisons.{
  slower_iff, faster_iff, CurrentIsFaster, CurrentIsSlower, IsViolation, IsCompared, as_faster,
  as_not_worse, same_report, compare_times-Reported, fires_iff,
}

module _ {D : Type 0} ⦃d : Eq D⦄ ⦃c : Eq (Configuration D)⦄ where
  -- The reports about one order.
  abbrev reports_of :
      ConfigurationOrder D → Configuration D → ℕ → List (Configuration D × ℕ) → List (TuningError D)
  reports_of o current t times =
      if matches o.smaller current
      then compare_times true o current t times
      else (if matches o.greater current then compare_times false o current t times else [])

  current_faster :
      {current : Configuration D} {t : ℕ} {times : List (Configuration D × ℕ)} {r : TuningError D}
      {o : ConfigurationOrder D}
      → IsViolation current t times r o
      → IsCompared current t times r o
      → CurrentIsFaster current t times r o
        ⊎ ((matches o.smaller current ≡ false) × CurrentIsSlower current t times r o)
  current_faster v (as_faster faster) = inl faster
  current_faster v (as_not_worse not_worse) = elim v.measured [
    | inl faster ↦ inl faster
    | inr slower ↦ inr (not_worse, slower)
  ]

  reports_of-IsViolation :
      (o : ConfigurationOrder D) (current : Configuration D) (t : ℕ)
      (times : List (Configuration D × ℕ)) (r : TuningError D)
      → In r (reports_of o current t times)
        ↔ (IsViolation current t times r o × IsCompared current t times r o)
  unfolding report
  reports_of-IsViolation o current t times r = elim (Bool-cases (matches o.smaller current)) [
    | inl worse ↦ rw worse (
      λ h.
          let q = (compare_times-Reported true o current t times r).0 h in
          let f = (fires_iff true o current t q.0).0 q.2 in
          subst (λ z. IsViolation current t times z o × IsCompared current t times z o) q.3
            (
              record {
                violates = refl;
                better = f.0;
                worse = worse;
                faster = (slower_iff t q.0.1).0 f.2;
                measured = inl (refl, refl, q.1, f.1);
              },
              as_faster (refl, refl, q.1, f.1),
            ),
      λ (v, compared). elim (current_faster v compared) [
        | inl (config, time, place, all) ↦ (compare_times-Reported true o current t times r).1 (
          (r.should_be_better_config, r.should_be_better_runtime),
          place,
          (fires_iff true o current t (r.should_be_better_config, r.should_be_better_runtime)).1 (
            v.better,
            all,
            (slower_iff t r.should_be_better_runtime).1 (omega (arith, time, v.faster)),
          ),
          same_report r o current t r.should_be_better_config r.should_be_better_runtime v.violates
              config time refl refl,
        )
        | inr (not_worse, slower) ↦ absurd (cc (worse, not_worse))
      ],
    )
    | inr not_worse ↦ elim (Bool-cases (matches o.greater current)) [
      | inl better ↦
          rw (not_worse, better)
            (
              λ h.
                  let q = (compare_times-Reported false o current t times r).0 h in
                  let f = (fires_iff false o current t q.0).0 q.2 in
                  subst (λ z. IsViolation current t times z o × IsCompared current t times z o) q.3
                    (
                      record {
                        violates = refl;
                        better = better;
                        worse = f.0;
                        faster = (faster_iff t q.0.1).0 f.2;
                        measured = inr (refl, refl, q.1, f.1);
                      },
                      as_not_worse not_worse,
                    ),
              λ (v, compared). elim (current_faster v compared) [
                | inl (config, time, place, all) ↦ absurd (cc (not_worse, v.worse, config))
                | inr (other, (config, time, place, all)) ↦
                    (compare_times-Reported false o current t times r).1 (
                      (r.actual_better_config, r.better_runtime),
                      place,
                      (fires_iff false o current t (r.actual_better_config, r.better_runtime)).1 (
                        v.worse,
                        all,
                        (faster_iff t r.better_runtime).1 (omega (arith, time, v.faster)),
                      ),
                      same_report r o r.actual_better_config r.better_runtime current t v.violates
                          refl refl config time,
                    )
              ],
            )
      | inr not_better ↦
          rw (not_worse, not_better)
            (
              λ h. absurd h,
              λ (v, compared). elim (current_faster v compared) [
                | inl (config, time, place, all) ↦ absurd (cc (not_worse, v.worse, config))
                | inr (other, (config, time, place, all)) ↦
                    absurd (cc (not_better, v.better, config))
              ],
            )
    ]
  ]

  abbrev all_reports :
      Configuration D
      → ℕ
      → List (Configuration D × ℕ)
      → List (ConfigurationOrder D)
      → List (TuningError D)
  all_reports current t times [] = []
  all_reports current t times (o ∷ os) =
      reports_of o current t times ++ all_reports current t times os

  verify_orders-all_reports :
      (current : Configuration D) (t : ℕ) (times : List (Configuration D × ℕ))
      (os : List (ConfigurationOrder D))
      → find_time current times ≡ some t
      → verify_orders current times os ≡ ok (all_reports current t times os)
  unfolding verify_orders compared_errors
  verify_orders-all_reports current t times [] h = refl
  verify_orders-all_reports current t times (o ∷ os) h =
      let rest = verify_orders-all_reports current t times os h in
      elim (Bool-cases (matches o.smaller current)) [
        | inl worse ↦ rw (worse, h, rest) refl
        | inr not_worse ↦ elim (Bool-cases (matches o.greater current)) [
          | inl better ↦ rw (not_worse, better, h, rest) refl
          | inr not_better ↦ rw (not_worse, not_better, rest) refl
        ]
      ]

  all_reports-IsViolation :
      (current : Configuration D) (t : ℕ) (times : List (Configuration D × ℕ))
      (os : List (ConfigurationOrder D)) (r : TuningError D)
      → In r (all_reports current t times os) ↔ (
          (o : ConfigurationOrder D) × In o os
          × IsViolation current t times r o
          × IsCompared current t times r o)
  all_reports-IsViolation current t times [] r = (λ h. absurd h, λ h. absurd h.1)
  all_reports-IsViolation current t times (o ∷ os) r =
      let both = In-append r (reports_of o current t times) (all_reports current t times os) in
      let one = reports_of-IsViolation o current t times r in
      let rest = all_reports-IsViolation current t times os r in
      (
        λ h. elim (both.0 h) [
          | inl first ↦ (o, inl refl, (one.0 first).0, (one.0 first).1)
          | inr later ↦ let q = rest.0 later in (q.0, inr q.1, q.2, q.3)
        ],
        λ (p, place, v, w). elim place [
          | inl same ↦ both.1 (
              inl (
                one.1 (
                  subst (λ z. IsViolation current t times r z × IsCompared current t times r z)
                    (sym same) (v, w))))
          | inr later ↦ both.1 (inr (rest.1 (p, later, v, w)))
        ],
      )

  -- For a current configuration that was measured, the comparison of the verify mode ends without
  -- an exception. It calls the printer for those contradictions to the orders that were applied in
  -- which the current configuration was the faster one, or in which the pattern of the worse ones
  -- does not match it, and for nothing else: a contradiction in which the current one was the slower
  -- one goes unreported if both patterns match it.
  pub verify_orders-IsViolation :
      (current : Configuration D) (t : ℕ) (times : List (Configuration D × ℕ))
      (os : List (ConfigurationOrder D))
      → find_time current times ≡ some t
      → (errors : List (TuningError D)) × (verify_orders current times os ≡ ok errors)
        × ((r : TuningError D)
            → In r errors ↔ (
                (o : ConfigurationOrder D) × In o os
                × IsViolation current t times r o
                × IsCompared current t times r o))
  verify_orders-IsViolation current t times os h = (
    all_reports current t times os,
    verify_orders-all_reports current t times os h,
    all_reports-IsViolation current t times os,
  )
