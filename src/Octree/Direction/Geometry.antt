-- ===== src/Octree/Direction/Geometry.antt =====
-- The functions of OctreeDirection.h against the geometry, for all arguments.
use auto_pas.Prelude.{◌≡◌, refl, sym, ◌∙◌, true, ◌||◌, ℕ}
use auto_pas.Octree.Direction.Codes.{vertices}
use auto_pas.Octree.Direction.{
  ok, is_face, is_edge, is_vertex, is_direction, adj, reflect, common_face, common_edge,
  get_opposite_direction, get_allowed_directions, ◌>>=◌,
}
use auto_pas.Octree.Direction.Shape.{
  all_of, touches, mirrored, shared, only_face, only_edge, opposite_of, touching,
}
use auto_pas.Octree.Direction.Guards.{
  all-contains, on_directions, on_corners, on_pairs, checked, checked_cong, valid, valid_cong,
  guards, corner_guards, vertex_guards, direction_guards, is_ok_true, is_ok_true_lem, is_ok_code,
  is_ok_code_lem, is_ok_codes, is_ok_codes_lem, same_codes,
}

-- `adj` tells of a direction and an octant whether the octant touches the whole face, edge or
-- vertex; for any other numbers it throws.
pub adj_lem :
    (d octant : ℕ)
    → adj d octant ≡ checked (is_direction d) (is_vertex octant) (ok (touches d octant))
unfolding adj is_ok_true
adj_lem d octant =
    checked_cong (is_direction d) (is_vertex octant) _
      (guards (is_face d) (is_edge d) (is_vertex d) (is_vertex octant) _)
      (on_pairs adj is_ok_true is_ok_true_lem touches refl refl refl d octant)

-- `reflect` mirrors the octant along every axis of the direction; for any other numbers it throws.
pub reflect_lem :
    (d octant : ℕ)
    → reflect d octant ≡ checked (is_direction d) (is_vertex octant) (ok (mirrored d octant))
unfolding reflect is_ok_code
reflect_lem d octant =
    checked_cong (is_direction d) (is_vertex octant) _
      (guards (is_face d) (is_edge d) (is_vertex d) (is_vertex octant) _)
      (on_pairs reflect is_ok_code is_ok_code_lem mirrored refl refl refl d octant)

-- `common_face` gives the one face that an edge or vertex shares with an octant, and omega where
-- they share no face or several; for any other numbers it throws.
pub common_face_lem :
    (d octant : ℕ)
    → common_face d octant
      ≡ checked (is_edge d || is_vertex d) (is_vertex octant) (ok (only_face (shared d octant)))
unfolding common_face is_ok_code
common_face_lem d octant =
    checked_cong (is_edge d || is_vertex d) (is_vertex octant) _
      (corner_guards (is_edge d) (is_vertex d) (is_vertex octant) _)
      λ hd ho. is_ok_code_lem (common_face d octant) (only_face (shared d octant)) (
        all-contains (λ k. is_ok_code (common_face d k) (only_face (shared d k))) vertices octant
          (on_corners
            (λ i. all_of (λ k. is_ok_code (common_face i k) (only_face (shared i k))) vertices) d
            refl refl hd)
          ho)

-- `common_edge` gives the edge in which a vertex and an octant that share two faces meet, and
-- omega where they share fewer or are the same; for any other numbers it throws.
pub common_edge_lem :
    (d octant : ℕ)
    → common_edge d octant
      ≡ checked (is_vertex d) (is_vertex octant) (ok (only_edge (shared d octant)))
unfolding common_edge is_ok_code
common_edge_lem d octant =
    checked_cong (is_vertex d) (is_vertex octant) _
      (vertex_guards (is_vertex d) (is_vertex octant) _)
      λ hd ho. is_ok_code_lem (common_edge d octant) (only_edge (shared d octant)) (
        all-contains (λ k. is_ok_code (common_edge d k) (only_edge (shared d k))) vertices octant
          (all-contains
            (λ i. all_of (λ k. is_ok_code (common_edge i k) (only_edge (shared i k))) vertices)
            vertices d refl hd)
          ho)

-- `get_opposite_direction` takes a direction to the one whose faces are the opposite ones, and
-- never fails its check of the result; for any other number it throws.
pub get_opposite_direction_lem :
    (d : ℕ) → get_opposite_direction d ≡ valid (is_direction d) (ok (opposite_of d))
unfolding get_opposite_direction is_ok_code
get_opposite_direction_lem d =
    valid_cong (is_direction d) _ (direction_guards (is_face d) (is_edge d) (is_vertex d) _) λ hd.
      is_ok_code_lem (get_opposite_direction d) (opposite_of d) (
        on_directions (λ i. is_ok_code (get_opposite_direction i) (opposite_of i)) d refl refl refl
          hd)

-- `get_allowed_directions` lists the octants that touch the whole direction, in the order of
-- `vertices`, and never fails its check of the result; for any other number it throws.
pub get_allowed_directions_lem :
    (d : ℕ) → get_allowed_directions d ≡ valid (is_direction d) (ok (touching d))
unfolding get_allowed_directions is_ok_codes same_codes
get_allowed_directions_lem d =
    valid_cong (is_direction d) _ (direction_guards (is_face d) (is_edge d) (is_vertex d) _) λ hd.
      is_ok_codes_lem (get_allowed_directions d) (touching d) (
        on_directions (λ i. is_ok_codes (get_allowed_directions i) (touching i)) d refl refl refl
          hd)

-- Going to the opposite direction twice leads back, and an octant touches a direction exactly
-- when its mirror image in the direction touches the opposite direction.
pub opposite_twice :
    (d octant : ℕ)
    → is_direction d ≡ true
    → is_vertex octant ≡ true
    → ((get_opposite_direction d >>= get_opposite_direction) ≡ ok d)
      × ((do e ← get_opposite_direction d; k ← reflect d octant; adj e k) ≡ adj d octant)
unfolding get_opposite_direction adj reflect is_ok_code is_ok_true
opposite_twice d octant hd ho = (
  is_ok_code_lem (get_opposite_direction d >>= get_opposite_direction) d (
      on_directions (λ i. is_ok_code (get_opposite_direction i >>= get_opposite_direction) i) d refl
        refl refl hd),
  on_pairs (λ i k. do e ← get_opposite_direction i; j ← reflect i k; adj e j) is_ok_true
        is_ok_true_lem touches refl refl refl d octant hd ho
      ∙ sym (on_pairs adj is_ok_true is_ok_true_lem touches refl refl refl d octant hd ho),
)
