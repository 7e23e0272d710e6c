-- ===== src/Octree/Direction/Guards.antt =====
-- The preconditions of the functions over directions, and checks of a table entry by entry.
use auto_pas.Prelude.{
  ℕ, ◌≡◌, refl, ap, Bool, true, false, not, ◌&&◌, ◌||◌, ◌⊎◌, inl, inr, ◌==◌, if◌then◌else◌, List,
  [], ◌∷◌, arith,
}
use auto_pas.Octree.Direction.Codes.{faces, edges, vertices}
use auto_pas.Octree.Direction.{
  Result, ok, err, invalid_direction, invalid_octant, contains, is_face, is_edge, is_vertex,
  is_direction, throw_if, ◌>>◌,
}
use auto_pas.Octree.Direction.Shape.{all_of}

pub all-contains :
    (p : ℕ → Bool) (xs : List ℕ) (a : ℕ) → all_of p xs ≡ true → contains xs a ≡ true → p a ≡ true
all-contains p [] a h m = ground arith
all-contains p (x ∷ xs) a h m = ground (arith, all-contains p xs a)

unfoldable pub is_ok_true : Result Bool → Bool → Bool
is_ok_true (ok b) c = if b then c else not c
is_ok_true (err e) c = false

pub is_ok_true_lem : (r : Result Bool) (c : Bool) → is_ok_true r c ≡ true → r ≡ ok c
unfolding is_ok_true
is_ok_true_lem (ok b) c h = ground arith
is_ok_true_lem (err e) c h = ground arith

unfoldable pub is_ok_code : Result ℕ → ℕ → Bool
is_ok_code (ok a) c = a == c
is_ok_code (err e) c = false

pub is_ok_code_lem : (r : Result ℕ) (c : ℕ) → is_ok_code r c ≡ true → r ≡ ok c
unfolding is_ok_code
is_ok_code_lem (ok b) c h = ground arith
is_ok_code_lem (err e) c h = ground arith

-- A test that passes for each of the 26 directions passes for whatever is one.
pub on_directions :
    (p : ℕ → Bool) (d : ℕ)
    → all_of p faces ≡ true
    → all_of p edges ≡ true
    → all_of p vertices ≡ true
    → is_direction d ≡ true
    → p d ≡ true
on_directions p d hf he hv h = elim (or_cases (is_face d) (is_edge d) (is_vertex d) h) [
  | inl m ↦ all-contains p faces d hf m
  | inr (inl m) ↦ all-contains p edges d he m
  | inr (inr m) ↦ all-contains p vertices d hv m
]
  where
    or_cases : (a b c : Bool) → (a || b || c) ≡ true → (a ≡ true) ⊎ ((b ≡ true) ⊎ (c ≡ true))
    or_cases a b c e = ground arith

-- A result behind the two preconditions.
abbrev pub checked : {A : Type 0} → Bool → Bool → Result A → Result A
checked dir oct r = if dir then (if oct then r else err invalid_octant) else err invalid_direction

pub checked_cong :
    {A : Type 0} (dir oct : Bool) (r : Result A) {x y : Result A}
    → x ≡ checked dir oct r
    → (dir ≡ true → oct ≡ true → x ≡ y)
    → x ≡ checked dir oct y
checked_cong true true r e h = h refl refl
checked_cong true false r e h = e
checked_cong false oct r e h = e

pub guards :
    {A : Type 0} (f e v w : Bool) (r : Result A)
    → (do throw_if (not f && not e && not v) invalid_direction; throw_if (not w) invalid_octant; r)
      ≡ checked (f || e || v) w r
guards true e v true r = refl
guards true e v false r = refl
guards false true v true r = refl
guards false true v false r = refl
guards false false true true r = refl
guards false false true false r = refl
guards false false false w r = refl

module _ {A : Type 0} (f : ℕ → ℕ → Result A) (is : Result A → A → Bool)
    (is_lem : (r : Result A) (a : A) → is r a ≡ true → r ≡ ok a) (g : ℕ → ℕ → A) where
  abbrev pub AgreeOn : List ℕ → Type 0
  AgreeOn ds = all_of (λ d. all_of (λ octant. is (f d octant) (g d octant)) vertices) ds ≡ true

  pub on_pairs :
      AgreeOn faces
      → AgreeOn edges
      → AgreeOn vertices
      → (d octant : ℕ) → is_direction d ≡ true
      → is_vertex octant ≡ true
      → f d octant ≡ ok (g d octant)
  on_pairs hf he hv d octant hd ho = is_lem (f d octant) (g d octant) (
      all-contains (λ k. is (f d k) (g d k)) vertices octant
        (on_directions (λ i. all_of (λ k. is (f i k) (g i k)) vertices) d hf he hv hd) ho)

-- The same for functions of an edge or a vertex, of a vertex, and of a direction alone.
pub corner_guards :
    {A : Type 0} (e v w : Bool) (r : Result A)
    → (do throw_if (not e && not v) invalid_direction; throw_if (not w) invalid_octant; r)
      ≡ checked (e || v) w r
corner_guards true v true r = refl
corner_guards true v false r = refl
corner_guards false true true r = refl
corner_guards false true false r = refl
corner_guards false false w r = refl

pub vertex_guards :
    {A : Type 0} (v w : Bool) (r : Result A)
    → (do throw_if (not v) invalid_direction; throw_if (not w) invalid_octant; r) ≡ checked v w r
vertex_guards true true r = refl
vertex_guards true false r = refl
vertex_guards false w r = refl

abbrev pub valid : {A : Type 0} → Bool → Result A → Result A
valid dir r = if dir then r else err invalid_direction

pub valid_cong :
    {A : Type 0} (dir : Bool) (r : Result A) {x y : Result A}
    → x ≡ valid dir r
    → (dir ≡ true → x ≡ y)
    → x ≡ valid dir y
valid_cong true r e h = h refl
valid_cong false r e h = e

pub direction_guards :
    {A : Type 0} (f e v : Bool) (r : Result A)
    → (do throw_if (not f && not e && not v) invalid_direction; r) ≡ valid (f || e || v) r
direction_guards true e v r = refl
direction_guards false true v r = refl
direction_guards false false true r = refl
direction_guards false false false r = refl

pub on_corners :
    (p : ℕ → Bool) (d : ℕ)
    → all_of p edges ≡ true
    → all_of p vertices ≡ true
    → (is_edge d || is_vertex d) ≡ true
    → p d ≡ true
on_corners p d he hv h = elim (or_cases (is_edge d) (is_vertex d) h) [
  | inl m ↦ all-contains p edges d he m
  | inr m ↦ all-contains p vertices d hv m
]
  where
    or_cases : (a b : Bool) → (a || b) ≡ true → (a ≡ true) ⊎ (b ≡ true)
    or_cases a b e = ground arith

unfoldable pub same_codes : List ℕ → List ℕ → Bool
same_codes [] [] = true
same_codes (x ∷ xs) (y ∷ ys) = x == y && same_codes xs ys
same_codes _ _ = false

pub same_codes_lem : (xs ys : List ℕ) → same_codes xs ys ≡ true → xs ≡ ys
unfolding same_codes
same_codes_lem [] [] h = refl
same_codes_lem (x ∷ xs) (y ∷ ys) h = ground (arith, same_codes_lem xs ys)
same_codes_lem [] (y ∷ ys) h = ground arith
same_codes_lem (x ∷ xs) [] h = ground arith

unfoldable pub is_ok_codes : Result (List ℕ) → List ℕ → Bool
is_ok_codes (ok xs) ys = same_codes xs ys
is_ok_codes (err e) ys = false

pub is_ok_codes_lem : (r : Result (List ℕ)) (ys : List ℕ) → is_ok_codes r ys ≡ true → r ≡ ok ys
unfolding is_ok_codes
is_ok_codes_lem (ok xs) ys h = ap ok (same_codes_lem xs ys h)
is_ok_codes_lem (err e) ys h = ground arith
