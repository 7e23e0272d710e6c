-- ===== src/SafeMath/Saturation.antt =====
-- The safe operations stop at the bounds of their type.
use auto_pas.Prelude.{◌≡◌, if◌then◌else◌, arith}
use auto_pas.Prelude.Int.{ℤ, pos, negsuc, ◌≤ℤ◌, ltb_ℤ}
use auto_pas.SafeMath.{plus_ℤ, minus_ℤ, times_ℤ, Limits, safe_add, safe_sub, safe_mul}

-- The exact result, or the bound of the given value that it passes.
abbrev pub clamp : Limits → ℤ → ℤ → ℤ → ℤ
clamp t under over a = if ltb_ℤ a t.least then under else (if ltb_ℤ t.greatest a then over else a)

abbrev pub Within : Limits → ℤ → Type 0
Within t a = (t.least ≤ℤ a) × (a ≤ℤ t.greatest)

module _ (t : Limits) (zero_inside : Within t (pos 0)) where
  safe_add-clamp :
      (a b under over : ℤ)
      → Within t a
      → Within t b
      → safe_add t a b under over ≡ clamp t under over (plus_ℤ a b)
  unfolding safe_add
  safe_add-clamp a b under over ha hb = ground arith

  safe_sub-clamp :
      (a b under over : ℤ)
      → Within t a
      → Within t b
      → safe_sub t a b under over ≡ clamp t under over (minus_ℤ a b)
  unfolding safe_sub
  safe_sub-clamp a b under over ha hb = ground arith

  safe_mul-clamp :
      (a b under over : ℤ) → safe_mul t a b under over ≡ clamp t under over (times_ℤ a b)
  unfolding safe_mul
  safe_mul-clamp (pos m) (pos n) under over = ground arith
  safe_mul-clamp (pos m) (negsuc n) under over = ground arith
  safe_mul-clamp (negsuc m) (pos n) under over = ground arith
  safe_mul-clamp (negsuc m) (negsuc n) under over = ground arith

  -- For operands of the type, in which zero lies, the three operations give the exact result where it
  -- fits, the underflow value where it is less than the least value of the type, and the overflow
  -- value where it is greater than the greatest one.
  pub saturation_lem :
      (a b under over : ℤ)
      → Within t a
      → Within t b
      → (safe_add t a b under over ≡ clamp t under over (plus_ℤ a b))
        × (safe_sub t a b under over ≡ clamp t under over (minus_ℤ a b))
        × (safe_mul t a b under over ≡ clamp t under over (times_ℤ a b))
  saturation_lem a b under over ha hb = (
    safe_add-clamp a b under over ha hb,
    safe_sub-clamp a b under over ha hb,
    safe_mul-clamp a b under over,
  )
