-- ===== src/Traversal.antt =====
-- src/autopas/containers/cellPairTraversals/CBasedTraversal.h and the colourings built on it:
-- C01BasedTraversal.h, C04BasedTraversal.h, C08BasedTraversal.h and C18BasedTraversal.h.
-- A traversal is the list of its calls of the loop body in program order, each with the colour
-- that was current; calls of one colour may run in parallel, colours are separated by a barrier.
pub mod Loops
pub mod Coverage
pub mod Conflicts
pub mod Interior
use auto_pas.Prelude.{
  ℕ, zero, suc, ◌+◌, Bool, List, [], ◌∷◌, ◌++◌, map, ltb, if◌then◌else◌, add_word, sub_word,
  mul_word,
}
use auto_pas.Mapping.{Index3, one_to_three_d}

-- `for (x = start; x < end; x += stride)`: the values of `x`, for `fuel` rounds at most.
unfoldable pub strided : ℕ → ℕ → ℕ → ℕ → List ℕ
strided zero x end stride = []
strided (suc fuel) x end stride =
    let rest = strided fuel (add_word x stride) end stride in if ltb x end then x ∷ rest else []

module _ {ℓ κ} {A : Type ℓ} {B : Type κ} where
  -- A loop over `xs`, with the calls that its body makes.
  unfoldable pub each : List A → (A → List B) → List B
  each [] body = []
  each (x ∷ xs) body = body x ++ each xs body

unfoldable pub counting : ℕ → ℕ → List ℕ
counting zero k = []
counting (suc n) k = k ∷ counting n (k + 1)

-- The three nested loops of one colour. An axis has at most `end` rounds.
unfoldable pub colour_cells : Index3 → Index3 → Index3 → ℕ → List Index3
unfolding strided each
colour_cells end stride offset col =
    let first = one_to_three_d col stride in
    each (strided end.z (add_word first.z offset.z) end.z stride.z) λ z.
      each (strided end.y (add_word first.y offset.y) end.y stride.y) λ y.
        map (λ x. record { x = x; y = y; z = z })
          (strided end.x (add_word first.x offset.x) end.x stride.x)

unfoldable pub num_colours : Index3 → ℕ
num_colours stride = mul_word (mul_word stride.x stride.y) stride.z

unfoldable pub c_traversal : Index3 → Index3 → Index3 → List (ℕ × Index3)
unfolding colour_cells num_colours counting each
c_traversal end stride offset =
    each (counting (num_colours stride) 0)
      λ col. map (λ cell. (col, cell)) (colour_cells end stride offset col)

abbrev pub origin : Index3
origin = record { x = 0; y = 0; z = 0 }

-- `dims - overlap` and `overlap + 1` of `ArrayMath`, on every axis.
unfoldable pub inner_end : Index3 → Index3 → Index3
inner_end dims overlap = record {
  x = sub_word dims.x overlap.x;
  y = sub_word dims.y overlap.y;
  z = sub_word dims.z overlap.z;
}

unfoldable pub next_to : Index3 → Index3
next_to overlap = record {
  x = add_word overlap.x 1;
  y = add_word overlap.y 1;
  z = add_word overlap.z 1;
}

unfoldable pub c01_traversal : Index3 → Index3 → List (ℕ × Index3)
unfolding c_traversal inner_end
c01_traversal dims overlap =
    c_traversal (inner_end dims overlap) (record { x = 1; y = 1; z = 1 }) overlap

unfoldable pub c04_traversal : Index3 → Index3 → List (ℕ × Index3)
unfolding c_traversal inner_end next_to
c04_traversal dims overlap =
    let stride = next_to overlap in
    c_traversal (inner_end dims overlap) (record stride { x = 1 }) origin

unfoldable pub c08_traversal : Index3 → Index3 → List (ℕ × Index3)
unfolding c_traversal inner_end next_to
c08_traversal dims overlap = c_traversal (inner_end dims overlap) (next_to overlap) origin

unfoldable pub c18_stride : Index3 → Index3
c18_stride overlap = record {
  x = add_word (mul_word 2 overlap.x) 1;
  y = add_word (mul_word 2 overlap.y) 1;
  z = add_word overlap.z 1;
}

unfoldable pub c18_traversal : Bool → Index3 → Index3 → List (ℕ × Index3)
unfolding c_traversal c18_stride
c18_traversal all_cells dims overlap =
    let end = (if all_cells then dims else record dims { z = sub_word dims.z overlap.z }) in
    c_traversal end (c18_stride overlap) origin
