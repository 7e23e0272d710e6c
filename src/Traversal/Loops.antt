-- ===== src/Traversal/Loops.antt =====
-- Which values the loops of a traversal run through, by counting.
use native.Mathlib.Nat.{mod-eq_of_lt, mod-eq-sub-mod}
use auto_pas.Prelude.{
  ℕ, zero, suc, ◌+◌, ◌-◌, ◌*◌, ◌%◌, ◌≤◌, ◌<◌, ◌≡◌, refl, Bool, ◌&&◌, List, [], ◌∷◌, ◌++◌, map, ltb,
  leb, ◌==◌, if◌then◌else◌, word, add_word, arith, inl, inr, Bool-cases, ltb→lt, In,
}
use auto_pas.Traversal.{strided, each, counting}

abbrev pub bit : Bool → ℕ
bit b = if b then 1 else 0

module _ {ℓ} {A : Type ℓ} where
  -- How many entries of a list pass a test.
  abbrev pub count : (A → Bool) → List A → ℕ
  count p [] = 0
  count p (x ∷ xs) = bit (p x) + count p xs

  pub count-append : (p : A → Bool) (xs ys : List A) → count p (xs ++ ys) ≡ count p xs + count p ys
  count-append p [] ys = omega arith
  count-append p (x ∷ xs) ys = omega (arith, count-append p xs ys)

  pub count_none : (p : A → Bool) (xs : List A) → ((x : A) → p x ≡ Bool.false) → count p xs ≡ 0
  count_none p [] h = refl
  count_none p (x ∷ xs) h = rw (h x) (omega (arith, count_none p xs h))

abbrev pub hits : ℕ → ℕ → ℕ → ℕ → Bool
hits x end stride v = leb x v && ltb v end && ((v - x) % stride == 0)

mod_near : (a s : ℕ) → a < s → a % s ≡ a
mod_near a s h = mod-eq_of_lt h

mod_far : (a s : ℕ) → s ≤ a → a % s ≡ (a - s) % s
mod_far a s h = mod-eq-sub-mod h

regroup : (v x s : ℕ) → v - x - s ≡ v - (x + s)
regroup v x s = omega arith

hits_next :
    (x end stride v : ℕ)
    → 0 < stride
    → x < end
    → bit (x == v) + bit (hits (x + stride) end stride v) ≡ bit (hits x end stride v)
hits_next x end stride v h lt =
    ground (arith, mod_near (v - x) stride, mod_far (v - x) stride, regroup v x stride)

-- With a positive stride, no wrap-around and one round for each value below `end`, the loop
-- runs exactly through the multiples of the stride above its start.
pub count-strided :
    (fuel x end stride v : ℕ)
    → 0 < stride
    → end + stride ≤ word
    → end ≤ fuel + x
    → count (λ k. k == v) (strided fuel x end stride) ≡ bit (hits x end stride v)
unfolding strided
count-strided zero x end stride v h w f = ground arith
count-strided (suc fuel) x end stride v h w f = elim (Bool-cases (ltb x end)) [
  | inl more ↦
      let lt = ltb→lt x end more in
      let e : add_word x stride ≡ x + stride = omega arith in
      rw (more, e)
        (rw (count-strided fuel (x + stride) end stride v h w (omega arith))
          (hits_next x end stride v h lt))
  | inr done ↦ rw done (ground arith)
]

module _ {ℓ κ} {A : Type ℓ} {B : Type κ} where
  pub count-map :
      (p : B → Bool) (f : A → B) (xs : List A) → count p (map f xs) ≡ count (λ a. p (f a)) xs
  count-map p f [] = refl
  count-map p f (x ∷ xs) = omega (arith, count-map p f xs)

  -- Where the body makes `n` hits at the entries that pass `q`, and none at the others.
  pub count-each :
      (p : B → Bool) (q : A → Bool) (n : ℕ) (xs : List A) (body : A → List B)
      → ((a : A) → count p (body a) ≡ bit (q a) * n)
      → count p (each xs body) ≡ count q xs * n
  unfolding each
  count-each p q n [] body h = omega arith
  count-each p q n (x ∷ xs) body h =
      omega (arith, count-append p (body x) (each xs body), h x, count-each p q n xs body h)

-- The same where only the entries of the list are looked at.
module _ {A B : Type 0} where
  pub count-each-In :
      (p : B → Bool) (q : A → Bool) (n : ℕ) (xs : List A) (body : A → List B)
      → ((a : A) → In a xs → count p (body a) ≡ bit (q a) * n)
      → count p (each xs body) ≡ count q xs * n
  unfolding each
  count-each-In p q n [] body h = omega arith
  count-each-In p q n (x ∷ xs) body h = omega (
    arith,
    count-append p (body x) (each xs body),
    h x (inl refl),
    count-each-In p q n xs body (λ a k. h a (inr k)),
  )

pub count-In :
    {A : Type 0} (p : A → Bool) (a : A) (xs : List A) → p a ≡ Bool.true → In a xs → 0 < count p xs
count-In p a [] h k = absurd k
count-In p a (x ∷ xs) h (inl same) = rw (same, h) (omega arith)
count-In p a (x ∷ xs) h (inr later) = omega (arith, count-In p a xs h later)

pub counting-lt : (n k x : ℕ) → In x (counting n k) → x < k + n
unfolding counting
counting-lt zero k x h = absurd h
counting-lt (suc n) k x (inl same) = omega (arith, same)
counting-lt (suc n) k x (inr later) = omega (arith, counting-lt n (k + 1) x later)

pub count_and {ℓ} :
    {A : Type ℓ} (p : A → Bool) (b : Bool) (xs : List A)
    → count (λ a. p a && b) xs ≡ bit b * count p xs
count_and p b [] = omega arith
count_and p b (x ∷ xs) =
    let both : bit (p x && b) ≡ bit b * bit (p x) = ground arith in
    omega (arith, both, count_and p b xs)

pub count-counting :
    (n k c : ℕ) → count (λ i. i == c) (counting n k) ≡ bit (leb k c && ltb c (k + n))
unfolding counting
count-counting zero k c = ground arith
count-counting (suc n) k c = rw (count-counting n (k + 1) c) (ground arith)
