-- ===== src/Tuning/FullSearch/Times.antt =====
-- The times on record: what one more entry changes.
use auto_pas.Prelude.{ℕ, ◌≡◌, refl, ◌⊎◌, inl, inr, Bool-cases, List, [], ◌∷◌, arith}
use auto_pas.Prelude.Classes.{Eq}
use auto_pas.Tuning.FullSearch.{put_time}
use auto_pas.Tuning.FullSearch.Optimal.{In, KeysIn}

-- A time is on record for the configuration.
abbrev pub HasTime : {C : Type 0} → C → List (C × ℕ) → Type 0
HasTime c [] = ⊥
HasTime c ((k, u) ∷ m) = (k ≡ c) ⊎ HasTime c m

module _ {C : Type 0} ⦃e : Eq C⦄ where
  pub put_time-HasTime : (c : C) (t : ℕ) (m : List (C × ℕ)) → HasTime c (put_time c t m)
  unfolding put_time
  put_time-HasTime c t [] = inl refl
  put_time-HasTime c t ((k, u) ∷ m) = elim (Bool-cases (e.beq k c)) [
    | inl same ↦ rw same (inl ((e.beq_iff k c).0 same))
    | inr other ↦ rw other (inr (put_time-HasTime c t m))
  ]

  pub put_time-keeps :
      (c d : C) (t : ℕ) (m : List (C × ℕ)) → HasTime d m → HasTime d (put_time c t m)
  unfolding put_time
  put_time-keeps c d t [] h = absurd h
  put_time-keeps c d t ((k, u) ∷ m) (inl h) = elim (Bool-cases (e.beq k c)) [
    | inl same ↦ rw same (inl h)
    | inr other ↦ rw other (inl h)
  ]
  put_time-keeps c d t ((k, u) ∷ m) (inr h) = elim (Bool-cases (e.beq k c)) [
    | inl same ↦ rw same (inr h)
    | inr other ↦ rw other (inr (put_time-keeps c d t m h))
  ]

  pub put_time-KeysIn :
      (c : C) (t : ℕ) (cs : List C) (m : List (C × ℕ))
      → In c cs
      → KeysIn cs m
      → KeysIn cs (put_time c t m)
  unfolding put_time
  put_time-KeysIn c t cs [] i h = (i, tt)
  put_time-KeysIn c t cs ((k, u) ∷ m) i h = ground (arith, put_time-KeysIn c t cs m i)
