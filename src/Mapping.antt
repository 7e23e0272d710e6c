-- ===== src/Mapping.antt =====
-- src/autopas/utils/ThreeDimensionalMapping.h: 3D cell indices and their position in a flat vector.
pub mod Bijection
use auto_pas.Prelude.{ℕ, ◌/◌, add_word, sub_word, mul_word}

-- `std::array<unsigned long, 3>`.
pub record Index3 : Type 0 where
  pub x : ℕ
  pub y : ℕ
  pub z : ℕ

unfoldable pub three_to_one_d : Index3 → Index3 → ℕ
three_to_one_d i dims = add_word (mul_word (add_word (mul_word i.z dims.y) i.y) dims.x) i.x

-- Division by a zero extent is undefined in the source; nothing is stated of it.
unfoldable pub one_to_three_d : ℕ → Index3 → Index3
one_to_three_d ind dims =
    let pos_z = ind / mul_word dims.x dims.y in
    let pos_y = sub_word ind (mul_word (mul_word pos_z dims.x) dims.y) / dims.x in
    let pos_x = sub_word ind (mul_word dims.x (add_word pos_y (mul_word dims.y pos_z))) in
    record { x = pos_x; y = pos_y; z = pos_z }
