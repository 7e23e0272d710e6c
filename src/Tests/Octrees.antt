-- ===== src/Tests/Octrees.antt =====
-- Directions of the octree and octants.
use auto_pas.Prelude.{◌≡◌, refl, true, [], ◌∷◌}
use auto_pas.Octree.Direction.{
  ok, adj, reflect, common_face, common_edge, get_opposite_direction, get_allowed_directions, ◌>>=◌,
}
use auto_pas.Octree.Direction.Codes.{l, lf, lu, rb, ldb, ldf, luf, lub, rdf}
use auto_pas.Octree.Direction.Geometry.{
  adj_lem, reflect_lem, common_face_lem, common_edge_lem, get_opposite_direction_lem,
  get_allowed_directions_lem, opposite_twice,
}

adj_lem_example : adj lf luf ≡ ok true
adj_lem_example = adj_lem lf luf

reflect_lem_example : reflect lf ldb ≡ ok rdf
reflect_lem_example = reflect_lem lf ldb

common_face_lem_example : common_face lf ldb ≡ ok l
common_face_lem_example = common_face_lem lf ldb

common_edge_lem_example : common_edge luf lub ≡ ok lu
common_edge_lem_example = common_edge_lem luf lub

get_opposite_direction_lem_example : get_opposite_direction lf ≡ ok rb
get_opposite_direction_lem_example = get_opposite_direction_lem lf

get_allowed_directions_lem_example : get_allowed_directions lf ≡ ok (ldf ∷ luf ∷ [])
get_allowed_directions_lem_example = get_allowed_directions_lem lf

opposite_twice_example :
    ((get_opposite_direction lf >>= get_opposite_direction) ≡ ok lf)
    × ((do e ← get_opposite_direction lf; k ← reflect lf ldb; adj e k) ≡ adj lf ldb)
opposite_twice_example = opposite_twice lf ldb refl refl
