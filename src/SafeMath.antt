-- ===== src/SafeMath.antt =====
-- src/autopas/utils/Math.h: `safeAdd`, `safeSub` and `safeMul` for integral types. The type is given
-- by its least and greatest value; the overflow built-ins compute without bounds and report a result
-- that does not fit.
pub mod Saturation
use auto_pas.Prelude.{◌+◌, ◌*◌, Bool, true, false, not, ◌&&◌, ◌||◌, if◌then◌else◌}
use auto_pas.Prelude.Int.{ℤ, pos, pos_part, neg_part, sub_ℕ, ltb_ℤ}

abbrev pub plus_ℤ : ℤ → ℤ → ℤ
plus_ℤ a b = sub_ℕ (pos_part a + pos_part b) (neg_part a + neg_part b)

abbrev pub minus_ℤ : ℤ → ℤ → ℤ
minus_ℤ a b = sub_ℕ (pos_part a + neg_part b) (neg_part a + pos_part b)

abbrev pub times_ℤ : ℤ → ℤ → ℤ
times_ℤ a b =
    sub_ℕ (pos_part a * pos_part b + neg_part a * neg_part b)
      (pos_part a * neg_part b + neg_part a * pos_part b)

abbrev pub is_negative : ℤ → Bool
is_negative a = ltb_ℤ a (pos 0)

abbrev pub xor : Bool → Bool → Bool
xor a b = if a then not b else b

-- `std::numeric_limits` of the type.
pub record Limits : Type 0 where
  pub least : ℤ
  pub greatest : ℤ

abbrev pub overflows : Limits → ℤ → Bool
overflows t a = ltb_ℤ a t.least || ltb_ℤ t.greatest a

module _ (t : Limits) where
  unfoldable pub safe_add : ℤ → ℤ → ℤ → ℤ → ℤ
  safe_add a b val_underflow val_overflow =
      if overflows t (plus_ℤ a b)
      then (if is_negative a && is_negative b then val_underflow else val_overflow)
      else plus_ℤ a b

  unfoldable pub safe_sub : ℤ → ℤ → ℤ → ℤ → ℤ
  safe_sub a b val_underflow val_overflow =
      if overflows t (minus_ℤ a b)
      then (if ltb_ℤ (pos 0) b then val_underflow else val_overflow)
      else minus_ℤ a b

  unfoldable pub safe_mul : ℤ → ℤ → ℤ → ℤ → ℤ
  safe_mul a b val_underflow val_overflow =
      if overflows t (times_ℤ a b)
      then (if xor (is_negative a) (is_negative b) then val_underflow else val_overflow)
      else times_ℤ a b
