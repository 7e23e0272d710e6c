-- ===== src/Prelude/Classes.antt =====
-- Equality of keys as an interface.
use Prim.Native.Nat.{ℕ}
use mathlib.Core.Path.{◌≡◌}
use mathlib.Core.Logic.{◌↔◌}
use mathlib.Core.Bool.{Bool, true}
use auto_pas.Prelude.Tests.{◌==◌, ==_iff}

-- The `operator==` of a key, which says what equality is.
pub record Eq (K : Type 0) : Type 0 where
  pub beq : K → K → Bool
  pub beq_iff : (k k' : K) → (beq k k' ≡ true) ↔ (k ≡ k')

instance abbrev pub nat_eq : Eq ℕ
nat_eq = record { beq = λ a b. a == b; beq_iff = ==_iff }
