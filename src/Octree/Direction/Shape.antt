-- ===== src/Octree/Direction/Shape.antt =====
-- The geometry behind the codes of OctreeDirection.h: a direction is the set of its faces, the
-- octal digits of its code, and an octant is the corner of the parent at which it lies.
use auto_pas.Prelude.{
  ℕ, ◌+◌, ◌-◌, ◌*◌, ◌/◌, ◌%◌, Bool, true, not, ◌&&◌, ◌==◌, if◌then◌else◌, List, [], ◌∷◌, map,
}
use auto_pas.Octree.Direction.Codes.{vertices}
use auto_pas.Octree.Direction.{contains}

module _ {ℓ} {A : Type ℓ} where
  abbrev pub all_of : (A → Bool) → List A → Bool
  all_of p [] = true
  all_of p (x ∷ xs) = p x && all_of p xs

  abbrev pub keep : (A → Bool) → List A → List A
  keep p [] = []
  keep p (x ∷ xs) = if p x then x ∷ keep p xs else keep p xs

-- The faces that meet in a direction, first digit first.
abbrev pub faces_of : ℕ → List ℕ
faces_of d = keep (λ f. not (f == 0)) ((d / 64) ∷ (d / 8 % 8) ∷ (d % 8) ∷ [])

abbrev pub code_of : List ℕ → ℕ → ℕ
code_of [] acc = acc
code_of (f ∷ fs) acc = code_of fs (acc * 8 + f)

-- Faces come in pairs on an axis: left and right, down and up, back and front.
abbrev pub axis : ℕ → ℕ
axis f = (f - 1) / 2

abbrev pub other_side : ℕ → ℕ
other_side f = if (f % 2) == 1 then f + 1 else f - 1

-- Every face of the direction is a face of the octant.
abbrev pub touches : ℕ → ℕ → Bool
touches d octant = all_of (contains (faces_of octant)) (faces_of d)

-- The octant on the other side along each axis of the direction.
abbrev pub mirrored : ℕ → ℕ → ℕ
mirrored d octant =
    code_of
      (map (λ f. if contains (map axis (faces_of d)) (axis f) then other_side f else f)
        (faces_of octant))
      0

abbrev pub shared : ℕ → ℕ → List ℕ
shared d octant = keep (contains (faces_of d)) (faces_of octant)

abbrev pub only_face : List ℕ → ℕ
only_face [] = 0
only_face (f ∷ []) = f
only_face (f ∷ g ∷ fs) = 0

abbrev pub only_edge : List ℕ → ℕ
only_edge [] = 0
only_edge (f ∷ []) = 0
only_edge (f ∷ g ∷ []) = f * 8 + g
only_edge (f ∷ g ∷ h ∷ fs) = 0

abbrev pub opposite_of : ℕ → ℕ
opposite_of d = code_of (map other_side (faces_of d)) 0

abbrev pub touching : ℕ → List ℕ
touching d = keep (touches d) vertices
