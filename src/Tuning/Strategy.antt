-- ===== src/Tuning/Strategy.antt =====
-- src/autopas/selectors/tuningStrategy/TuningStrategyInterface.h: what the auto tuner asks of a
-- tuning strategy, and the exceptions that the tuning classes throw.
use auto_pas.Prelude.{ℕ, Bool, Option}
use auto_pas.Prelude.Int.{ℤ}

-- `undefined` stands for the undefined behaviour of C++: reading an iterator that points to no
-- element, or a division by zero. `looping` is a loop of the model that ran out of fuel.
pub data Exception : Type 0 where
  empty_search_space no_valid_configurations unknown_container no_measurements optimum_not_found
        rejected_only_configuration :
      Exception
  out_of_range no_traversal undefined looping : Exception

pub data Outcome (A : Type 0) : Type 0 where
  ok : A → Outcome A
  err : Exception → Outcome A

infixl 5 ◌>>=◌
abbrev pub ◌>>=◌ : {A B : Type 0} → Outcome A → (A → Outcome B) → Outcome B
err thrown >>= next = err thrown
ok value >>= next = next value

abbrev pub or_throw : {A : Type 0} → Option A → Exception → Outcome A
or_throw Option.none thrown = err thrown
or_throw (Option.some value) thrown = ok value

-- The virtual functions that the auto tuner calls, over the strategy's state `S`. Of these
-- `mpi_reset` is there only in an `MPIParallelizedStrategy`, which the tuner finds by a
-- `dynamic_cast`; it takes the median homogeneity and density and the two weights.
pub record TuningStrategy (S C D : Type 0) : Type 0 where
  pub tune : Bool → S → Outcome (S × Bool)
  pub add_evidence : ℤ → ℕ → S → Outcome S
  pub get_current_configuration : S → Outcome C
  pub reset : ℕ → S → S
  pub mpi_reset : Option (ℕ → D → D → D → D → S → S)
  pub search_space_is_trivial : S → Bool
  pub search_space_is_empty : S → Bool
  pub needs_live_info : S → Bool
  -- Called with the info that the caller has just gathered.
  pub receive_live_info : S → S
  pub smoothed_homogeneity_and_max_density_needed : S → Bool
