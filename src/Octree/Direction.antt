-- ===== src/Octree/Direction.antt =====
-- src/autopas/containers/octree/OctreeDirection.h: directions from an octree node to its
-- neighbours (faces, edges and vertices of a box) and the functions over them.
pub mod Codes
pub mod Tables
pub mod Shape
pub mod Guards
pub mod Geometry
use auto_pas.Prelude.{
  ℕ, zero, suc, ◌+◌, Bool, true, false, not, ◌&&◌, ◌||◌, ◌==◌, if◌then◌else◌, Option, none, some,
  List, [], ◌∷◌, get_elem?, replicate,
}
use auto_pas.Prelude.Int.{ℤ, pos, negsuc}
use Codes.{o, oo, ooo, faces, edges, vertices}
use Tables.{
  adj_table, reflect_table, common_face_table, common_edge_table, opposite_direction_table,
  allowed_directions_table,
}

-- The exceptions of this header; `out_of_range` is an index outside a table, which the source
-- does not check.
pub data Error : Type 0 where
  invalid_direction invalid_octant invalid_output illegal_vertex out_of_range : Error

pub data Result (A : Type 0) : Type 0 where
  ok : A → Result A
  err : Error → Result A

-- What follows an exception is skipped.
infixl 5 ◌>>=◌ ◌>>◌
abbrev pub ◌>>=◌ : {A B : Type 0} → Result A → (A → Result B) → Result B
err problem >>= next = err problem
ok value >>= next = next value

abbrev pub ◌>>◌ : {B : Type 0} → Result (Unit {0}) → Result B → Result B
checks >> body = checks >>= λ _. body

abbrev pub throw_if : Bool → Error → Result (Unit {0})
throw_if bad problem = if bad then err problem else ok tt

abbrev pub contains : List ℕ → ℕ → Bool
contains [] a = false
contains (x ∷ xs) a = x == a || contains xs a

abbrev pub is_face : ℕ → Bool
is_face = contains faces

abbrev pub is_edge : ℕ → Bool
is_edge = contains edges

abbrev pub is_vertex : ℕ → Bool
is_vertex = contains vertices

-- The scan of `vertexToIndex`, from index `i` on.
find_index : List ℕ → ℕ → ℕ → ℤ
find_index [] i vertex = negsuc 0
find_index (v ∷ vs) i vertex = if vertex == v then pos i else find_index vs (i + 1) vertex

unfoldable pub vertex_to_index : ℕ → ℤ
unfolding find_index
vertex_to_index vertex = find_index vertices 0 vertex

module _ {A : Type 0} where
  -- `table[k]`, with the entry `d` where nothing was assigned.
  abbrev pub lookup : A → List (ℕ × A) → ℕ → A
  lookup d [] k = d
  lookup d ((j, a) ∷ t) k = if j == k then a else lookup d t k

  abbrev pub entry : List A → ℤ → Result A
  entry row (pos i) = elim (get_elem? row i) [ none ↦ err out_of_range | some a ↦ ok a ]
  entry row (negsuc i) = err out_of_range

-- The precondition that most functions check first.
abbrev pub is_direction : ℕ → Bool
is_direction d = is_face d || is_edge d || is_vertex d

unfoldable pub adj : ℕ → ℕ → Result Bool
unfolding vertex_to_index
adj direction octant = do
  throw_if (not (is_face direction) && not (is_edge direction) && not (is_vertex direction))
      invalid_direction
  throw_if (not (is_vertex octant)) invalid_octant
  entry (lookup (replicate 8 false) adj_table direction) (vertex_to_index octant)

unfoldable pub reflect : ℕ → ℕ → Result ℕ
unfolding vertex_to_index
reflect direction octant = do
  throw_if (not (is_face direction) && not (is_edge direction) && not (is_vertex direction))
      invalid_direction
  throw_if (not (is_vertex octant)) invalid_octant
  entry (lookup (replicate 8 ooo) reflect_table direction) (vertex_to_index octant)

unfoldable pub common_face : ℕ → ℕ → Result ℕ
unfolding vertex_to_index
common_face direction octant = do
  throw_if (not (is_edge direction) && not (is_vertex direction)) invalid_direction
  throw_if (not (is_vertex octant)) invalid_octant
  entry (lookup (replicate 8 o) common_face_table direction) (vertex_to_index octant)

unfoldable pub common_edge : ℕ → ℕ → Result ℕ
unfolding vertex_to_index
common_edge direction octant = do
  throw_if (not (is_vertex direction)) invalid_direction
  throw_if (not (is_vertex octant)) invalid_octant
  result ← entry (lookup (replicate 8 oo) common_edge_table direction) (vertex_to_index octant)
  throw_if (not (is_edge result || result == oo)) invalid_output
  ok result

unfoldable pub get_opposite_direction : ℕ → Result ℕ
get_opposite_direction direction = do
  throw_if (not (is_face direction) && not (is_edge direction) && not (is_vertex direction))
      invalid_direction
  let result = lookup 0 opposite_direction_table direction
  throw_if (not (is_face result || is_edge result || is_vertex result)) invalid_output
  ok result

-- The loop that copies the row up to its first `OOO`.
until_omega : List ℕ → List ℕ
until_omega [] = []
until_omega (v ∷ vs) = if v == ooo then [] else v ∷ until_omega vs

all_vertices : List ℕ → Bool
all_vertices [] = true
all_vertices (v ∷ vs) = is_vertex v && all_vertices vs

unfoldable pub get_allowed_directions : ℕ → Result (List ℕ)
unfolding until_omega all_vertices
get_allowed_directions along = do
  throw_if (not (is_face along) && not (is_edge along) && not (is_vertex along)) invalid_direction
  let result = until_omega (lookup (replicate 5 ooo) allowed_directions_table along)
  throw_if (not (all_vertices result)) illegal_vertex
  ok result
