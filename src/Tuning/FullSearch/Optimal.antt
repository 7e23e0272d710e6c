-- ===== src/Tuning/FullSearch/Optimal.antt =====
-- `selectOptimalConfiguration` picks a configuration of the search space with the least time.
use auto_pas.Prelude.{
  ℕ, zero, suc, ◌≤◌, ◌<◌, ◌≡◌, refl, ◌≢◌, ◌⊎◌, inl, inr, Bool, true, false, if◌then◌else◌, subst,
  ap, ltb, ◌==◌, Bool-cases, some, List, [], ◌∷◌, length, get_elem?, arith,
}
use auto_pas.Prelude.Classes.{Eq}
use auto_pas.Tuning.Strategy.{Outcome, ok}
use auto_pas.Tuning.FullSearch.{
  FullSearch, fastest_from, find_config, select_among, select_optimal_configuration,
}

module _ {A : Type 0} where
  abbrev pub In : A → List A → Type 0
  In a [] = ⊥
  In a (x ∷ xs) = (x ≡ a) ⊎ In a xs

  -- The position of a member.
  pub In-get_elem? : (xs : List A) (i : ℕ) (a : A) → get_elem? xs i ≡ some a → In a xs
  In-get_elem? [] i a h = absurd (cc h)
  In-get_elem? (x ∷ xs) zero a h = inl (ground arith)
  In-get_elem? (x ∷ xs) (suc i) a h = inr (In-get_elem? xs i a h)

module _ {C : Type 0} where
  -- Every time in the map is at least `t`.
  abbrev pub AtLeast : ℕ → List (C × ℕ) → Type 0
  AtLeast t [] = Unit
  AtLeast t ((k, u) ∷ m) = (t ≤ u) × AtLeast t m

  -- Every key of the map is in the search space.
  abbrev pub KeysIn : List C → List (C × ℕ) → Type 0
  KeysIn cs [] = Unit
  KeysIn cs ((k, u) ∷ m) = In k cs × KeysIn cs m

  AtLeast-mono : (t u : ℕ) (m : List (C × ℕ)) → t ≤ u → AtLeast u m → AtLeast t m
  AtLeast-mono t u [] h a = tt
  AtLeast-mono t u ((k, v) ∷ m) h a = (omega arith, AtLeast-mono t u m h a.1)

  KeysIn-In : (cs : List C) (m : List (C × ℕ)) (p : C × ℕ) → KeysIn cs m → In p m → In p.0 cs
  KeysIn-In cs [] p h i = absurd i
  KeysIn-In cs ((k, u) ∷ m) p h (inl e) = subst (λ q. In q.0 cs) e h.0
  KeysIn-In cs ((k, u) ∷ m) p h (inr i) = KeysIn-In cs m p h.1 i

module _ {C : Type 0} ⦃e : Eq C⦄ where
  abbrev Fastest : C × ℕ → List (C × ℕ) → C × ℕ → Type 0
  Fastest best m r = In r (best ∷ m) × AtLeast r.1 m × (r.1 ≤ best.1)

  -- One comparison of `std::min_element`, on either outcome.
  Fastest-step :
      (best x : C × ℕ) (m : List (C × ℕ)) (b : Bool)
      → ltb x.1 best.1 ≡ b
      → Fastest x m (fastest_from x m)
      → Fastest best m (fastest_from best m)
      → Fastest best (x ∷ m) (fastest_from (if b then x else best) m)
  Fastest-step best x m true h r q = (inr r.0, (r.2, r.1), ground arith)
  Fastest-step best x m false h r q =
      (keep_first (fastest_from best m) q.0, (ground arith, q.1), q.2)
    where
      keep_first : (p : C × ℕ) → In p (best ∷ m) → In p (best ∷ x ∷ m)
      keep_first p (inl i) = inl i
      keep_first p (inr i) = inr (inr i)

  fastest_from_lem : (best : C × ℕ) (m : List (C × ℕ)) → Fastest best m (fastest_from best m)
  unfolding fastest_from
  fastest_from_lem best [] = (inl refl, tt, omega arith)
  fastest_from_lem best (x ∷ m) =
      Fastest-step best x m (ltb x.1 best.1) refl (fastest_from_lem x m) (fastest_from_lem best m)

  find_config_lem :
      (c : C) (cs : List C)
      → In c cs
      → (find_config c cs < length cs) × (get_elem? cs (find_config c cs) ≡ some c)
  unfolding find_config
  find_config_lem c [] h = absurd h
  find_config_lem c (k ∷ ks) h = elim (Bool-cases (e.beq k c)) [
    | inl same ↦ rw same (omega arith, ap some ((e.beq_iff k c).0 same))
    | inr other ↦ let r = find_config_lem c ks (later other h) in rw other (omega (arith, r.0), r.1)
  ]
    where
      later : e.beq k c ≡ false → (k ≡ c) ⊎ In c ks → In c ks
      later other (inl same) = absurd (cc ((e.beq_iff k c).1 same))
      later other (inr i) = i

  abbrev pub Picks : FullSearch C → List (C × ℕ) → Outcome (FullSearch C) → Type 0
  Picks s m r =
      (c : C) × (t : ℕ) × (i : ℕ) × (r ≡ ok (record s { current_config = i }))
      × (get_elem? s.search_space i ≡ some c)
      × (i < length s.search_space)
      × In (c, t) m
      × AtLeast t m

  pub select_among_lem :
      (s : FullSearch C) (m : List (C × ℕ))
      → m ≢ []
      → KeysIn s.search_space m
      → Picks s m (select_among s m)
  unfolding select_among
  select_among_lem s [] h k = absurd (h refl)
  select_among_lem s (x ∷ m) h k =
      let best = fastest_from_lem x m in
      let place =
        find_config_lem (fastest_from x m).0 s.search_space
          (KeysIn-In s.search_space (x ∷ m) (fastest_from x m) k best.0) in
      (
        (fastest_from x m).0,
        (fastest_from x m).1,
        find_config (fastest_from x m).0 s.search_space,
        ground (arith, place.0),
        place.1,
        place.0,
        best.0,
        (best.2, best.1),
      )

  -- With several configurations, measurements, and no measurement of a foreign configuration, the
  -- search picks a configuration of which it has a time, such that no time it has is smaller; the
  -- search space and the times stay as they are.
  pub select_optimal_configuration_lem :
      (s : FullSearch C)
      → length s.search_space ≢ 1
      → s.traversal_times ≢ []
      → KeysIn s.search_space s.traversal_times
      → (c : C) × (t : ℕ) × (i : ℕ) × (select_optimal_configuration s
          ≡ ok (record s { current_config = i }))
        × (get_elem? s.search_space i ≡ some c)
        × (i < length s.search_space)
        × In (c, t) s.traversal_times
        × AtLeast t s.traversal_times
  unfolding select_optimal_configuration
  select_optimal_configuration_lem s several some_times keys =
      let test : (length s.search_space == 1) ≡ false = ground (arith, several) in
      rw test (select_among_lem s s.traversal_times some_times keys)
