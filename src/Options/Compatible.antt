-- ===== src/Options/Compatible.antt =====
-- Containers and traversals fit together in both directions.
use auto_pas.Prelude.{
  ℕ, ◌≡◌, ◌↔◌, inl, inr, refl, subst, ap, sym, Bool, true, false, Bool-cases, ==_iff, ◌==◌, Option,
  none, some, List, [], ◌∷◌, In, arith,
}
use auto_pas.Options.{
  all_compatible_traversals, contains_option, fits_container, collect_containers,
  all_container_options, all_compatible_containers, intersection,
}

pub contains_option-In : (xs : List ℕ) (k : ℕ) → (contains_option xs k ≡ true) ↔ In k xs
unfolding contains_option
contains_option-In [] k = (λ h. absurd (cc h), λ h. absurd h)
contains_option-In (x ∷ xs) k =
    let rest = contains_option-In xs k in
    elim (Bool-cases (x == k)) [
      | inl same ↦ rw same (λ h. inl ((==_iff x k).0 same), λ h. refl)
      | inr other ↦ rw other (
        λ h. inr (rest.0 h),
        λ h. elim h [
          | inl same ↦ absurd (cc (other, (==_iff x k).1 same))
          | inr later ↦ rest.1 later
        ],
      )
    ]

pub intersection-In : (xs ys : List ℕ) (k : ℕ) → In k (intersection xs ys) ↔ (In k xs × In k ys)
unfolding intersection
intersection-In [] ys k = (λ h. absurd h, λ h. absurd h.0)
intersection-In (x ∷ xs) ys k =
    let rest = intersection-In xs ys k in
    elim (Bool-cases (contains_option ys x)) [
      | inl here ↦ rw here (
        λ h. elim h [
          | inl same ↦ (inl same, subst (λ z. In z ys) same ((contains_option-In ys x).0 here))
          | inr later ↦ let r = rest.0 later in (inr r.0, r.1)
        ],
        λ (place, there). elim place [
          | inl same ↦ inl same
          | inr later ↦ inr (rest.1 (later, there))
        ],
      )
      | inr away ↦ rw away (
        λ h. let r = rest.0 h in (inr r.0, r.1),
        λ (place, there). elim place [
          | inl same ↦
              absurd
                (cc (away, (contains_option-In ys x).1 (subst (λ z. In z ys) (sym same) there)))
          | inr later ↦ rest.1 (later, there)
        ],
      )
    ]

collect_containers-In :
    (t k : ℕ) (ks : List ℕ)
    → In k (collect_containers t ks) ↔ (In k ks × (fits_container t k ≡ true))
collect_containers-In t k [] = (λ h. absurd h, λ h. absurd h.0)
collect_containers-In t k (x ∷ ks) =
    let rest = collect_containers-In t k ks in
    elim (Bool-cases (fits_container t x)) [
      | inl here ↦ rw here (
        λ h. elim h [
          | inl same ↦ (inl same, subst (λ z. fits_container t z ≡ true) same here)
          | inr later ↦ let r = rest.0 later in (inr r.0, r.1)
        ],
        λ (place, fits). elim place [
          | inl same ↦ inl same
          | inr later ↦ inr (rest.1 (later, fits))
        ],
      )
      | inr away ↦ rw away (
        λ h. let r = rest.0 h in (inr r.0, r.1),
        λ (place, fits). elim place [
          | inl same ↦ absurd (cc (away, fits, ap (fits_container t) same))
          | inr later ↦ rest.1 (later, fits)
        ],
      )
    ]

fits_container-In :
    (t k : ℕ)
    → (fits_container t k ≡ true)
      ↔ ((ts : List ℕ) × (all_compatible_traversals k ≡ some ts) × In t ts)
fits_container-In t k = by_option (all_compatible_traversals k)
  where
    by_option :
        (o : Option (List ℕ))
        → ((elim o as (λ _. Bool) [ none ↦ false | some ts ↦ contains_option ts t ]) ≡ true)
          ↔ ((ts : List ℕ) × (o ≡ some ts) × In t ts)
    by_option none = (λ h. absurd (cc h), λ h. absurd (cc (h.1)))
    by_option (some us) = (
      λ h. (us, refl, (contains_option-In us t).0 h),
      λ (ts, same, place).
          let equal : us ≡ ts = ground (arith, same) in
          (contains_option-In us t).1 (subst (In t) (sym equal) place),
    )

-- Every container with traversals is one of the options.
known-contained :
    (k : ℕ) (ts : List ℕ)
    → all_compatible_traversals k ≡ some ts
    → contains_option all_container_options k ≡ true
unfolding contains_option all_compatible_traversals
known-contained k ts h = ground (arith, h)

-- `allCompatibleContainers` inverts `allCompatibleTraversals`: for any number of a container and of
-- a traversal, the container is listed exactly if it is known and has the traversal among its
-- compatible ones.
pub all_compatible_containers-In :
    (t k : ℕ)
    → In k (all_compatible_containers t)
      ↔ ((ts : List ℕ) × (all_compatible_traversals k ≡ some ts) × In t ts)
unfolding all_compatible_containers
all_compatible_containers-In t k =
    let collected = collect_containers-In t k all_container_options in
    let fits = fits_container-In t k in
    (
      λ h. fits.0 (collected.0 h).1,
      λ h.
          collected.1
            ((contains_option-In all_container_options k).0 (known-contained k h.0 h.1), fits.1 h),
    )
