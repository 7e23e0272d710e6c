-- ===== src/Tuning/SearchSpace/Removal.antt =====
-- What `removeN3Option` leaves, and where the current configuration is after it.
use auto_pas.Prelude.{
  ℕ, zero, suc, ◌+◌, ◌-◌, ◌<◌, ◌≡◌, refl, ap, ◌∙◌, sym, true, false, Bool-cases, ◌⊎◌, inl, inr, ltb,
  ◌==◌, if◌then◌else◌, Option, none, some, List, [], ◌∷◌, get_elem?, arith,
}
use auto_pas.Rules.Patterns.{Configuration}
use auto_pas.Tuning.Strategy.{Outcome, ok, err, empty_search_space}
use auto_pas.Tuning.FullSearch.{FullSearch}
use auto_pas.Tuning.SearchSpace.{remove_loop, remove_n3_option}

module _ {D : Type 0} (bad : ℕ) where
  -- The configurations with another option.
  abbrev pub without : List (Configuration D) → List (Configuration D)
  without [] = []
  without (c ∷ cs) = if c.newton3 == bad then without cs else c ∷ without cs

  -- The first configuration with another option from a position on.
  abbrev pub next_kept : List (Configuration D) → ℕ → Option (Configuration D)
  next_kept [] n = none
  next_kept (c ∷ cs) (suc n) = next_kept cs n
  next_kept (c ∷ cs) zero = if c.newton3 == bad then next_kept cs zero else some c

  remove_loop-without :
      (cs : List (Configuration D)) (i current : ℕ) → (remove_loop bad cs i current).0 ≡ without cs
  unfolding remove_loop
  remove_loop-without [] i current = refl
  remove_loop-without (c ∷ cs) i current = elim (Bool-cases (c.newton3 == bad)) [
    | inl hit ↦ rw hit (remove_loop-without cs i _)
    | inr miss ↦ rw miss (ap (λ xs. c ∷ xs) (remove_loop-without cs (i + 1) current))
  ]

  -- Behind the current configuration its position stays.
  remove_loop-behind :
      (cs : List (Configuration D)) (i current : ℕ)
      → current < i
      → (remove_loop bad cs i current).1 ≡ current
  unfolding remove_loop
  remove_loop-behind [] i current h = refl
  remove_loop-behind (c ∷ cs) i current h =
      let stays : ltb i current ≡ false = ground arith in
      elim (Bool-cases (c.newton3 == bad)) [
        | inl hit ↦ rw (hit, stays) (remove_loop-behind cs i current h)
        | inr miss ↦ rw miss (remove_loop-behind cs (i + 1) current (omega (arith, h)))
      ]

  -- Up to it, the position counts the configurations that are kept.
  remove_loop-current :
      (cs : List (Configuration D)) (i n : ℕ)
      → (k : ℕ) × ((remove_loop bad cs i (i + n)).1 ≡ i + k)
        × (get_elem? (without cs) k ≡ next_kept cs n)
  unfolding remove_loop
  remove_loop-current [] i n = (n, refl, refl)
  remove_loop-current (c ∷ cs) i zero =
      let stays : ltb i (i + 0) ≡ false = ground arith in
      elim (Bool-cases (c.newton3 == bad)) [
        | inl hit ↦ rw (hit, stays) (remove_loop-current cs i 0)
        | inr miss ↦ rw miss (0, remove_loop-behind cs (i + 1) (i + 0) (omega arith), refl)
      ]
  remove_loop-current (c ∷ cs) i (suc n) =
      let moves : ltb i (i + suc n) ≡ true = ground arith in
      let back : i + suc n - 1 ≡ i + n = omega arith in
      elim (Bool-cases (c.newton3 == bad)) [
        | inl hit ↦ rw (hit, moves, back) (remove_loop-current cs i n)
        | inr miss ↦
            let r = remove_loop-current cs (i + 1) n in
            let shift : i + suc n ≡ i + 1 + n = omega arith in
            rw (miss, shift) (suc r.0, r.1 ∙ omega arith, r.2)
      ]

  finished :
      (s : FullSearch (Configuration D)) (xs : List (Configuration D)) (n : ℕ)
      → ((xs ≡ [])
          × ((elim xs as (λ _. Outcome (FullSearch (Configuration D))) [
            | [] ↦ err empty_search_space
            | y ∷ ys ↦ ok (record s { search_space = xs; current_config = n })
          ])
              ≡ err empty_search_space))
        ⊎ ((elim xs as (λ _. Outcome (FullSearch (Configuration D))) [
          | [] ↦ err empty_search_space
          | y ∷ ys ↦ ok (record s { search_space = xs; current_config = n })
        ])
            ≡ ok (record s { search_space = xs; current_config = n }))
  finished s [] n = inl (refl, refl)
  finished s (x ∷ xs) n = inr refl

  -- `removeN3Option` removes exactly the configurations with the option: it throws if none is left,
  -- and else the current configuration stays, or gives way to the next one that is kept. If there is
  -- none after it, no configuration is current: the iterator is at the end.
  pub remove_n3_option-next :
      (s : FullSearch (Configuration D))
      → ((without s.search_space ≡ []) × (remove_n3_option bad s ≡ err empty_search_space))
        ⊎ ((s' : FullSearch (Configuration D)) × (remove_n3_option bad s ≡ ok s')
            × (s'.search_space ≡ without s.search_space)
            × (get_elem? s'.search_space s'.current_config
                ≡ next_kept s.search_space s.current_config))
  unfolding remove_n3_option
  remove_n3_option-next s =
      let r = remove_loop bad s.search_space 0 s.current_config in
      let left = remove_loop-without s.search_space 0 s.current_config in
      let k = remove_loop-current s.search_space 0 s.current_config in
      let start : 0 + s.current_config ≡ s.current_config = omega arith in
      let place : (remove_loop bad s.search_space 0 s.current_config).1 ≡ k.0 =
        ap (λ z. (remove_loop bad s.search_space 0 z).1) (sym start) ∙ k.1 ∙ omega arith in
      elim (finished s r.0 r.1) [
        | inl (empty, throws) ↦ inl (sym left ∙ empty, throws)
        | inr same ↦ inr (
          record s { search_space = r.0; current_config = r.1 },
          same,
          left,
          ap (λ xs. get_elem? xs r.1) left ∙ ap (get_elem? (without s.search_space)) place ∙ k.2,
        )
      ]
