-- ===== src/Prelude/Words.antt =====
-- Arithmetic of `size_t` and `unsigned long`, which wraps around at 2 ^ 64.
use Prim.Native.Nat.{ℕ, ◌+◌, ◌-◌, ◌*◌, ◌%◌, ◌^◌}

abbrev pub word : ℕ
word = 2 ^ 64

abbrev pub add_word : ℕ → ℕ → ℕ
add_word a b = (a + b) % word

-- For `b < word`; `-` on ℕ stops at 0, so the modulus is added first.
abbrev pub sub_word : ℕ → ℕ → ℕ
sub_word a b = (a + word - b) % word

abbrev pub mul_word : ℕ → ℕ → ℕ
mul_word a b = a * b % word
