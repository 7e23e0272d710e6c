-- ===== src/Particles/Tower/Padding.antt =====
-- How many dummies fill the last cluster, and where the clusters start.
use native.Mathlib.Nat.{mod-lt, div-add-mod, mul-div_cancel_left}
use auto_pas.Prelude.{
  ℕ, zero, suc, ◌+◌, ◌-◌, ◌*◌, ◌/◌, ◌%◌, ◌<◌, ◌≡◌, refl, ◌∙◌, sym, true, List, [], ◌∷◌, ◌++◌, some,
  map, ◌==◌, if◌then◌else◌, length, get_elem?, replicate, arith, inl, inr, Bool-cases,
}
use auto_pas.Traversal.{counting}
use auto_pas.Traversal.Loops.{count}
use auto_pas.Particles.{Particle, dummy, set_ownership_state}
use auto_pas.Particles.Container.{SameParticles}
use auto_pas.Particles.Tower.{last_particle, fill_last_cluster}

unfoldable pub padding : ℕ → ℕ → ℕ
padding n size = if n % size == 0 then 0 else size - n % size

-- With the padding there are whole clusters only.
pub padding-full :
    (n size : ℕ)
    → 0 < size
    → (padding n size < size) × (n + padding n size ≡ size * ((n + padding n size) / size))
unfolding padding
padding-full n size h =
    let small : n % size < size = mod-lt n h in
    let whole = div-add-mod n size in
    let short : padding n size < size = unfold padding in ground arith in
    (short, whole_clusters size (n + padding n size) h (multiple n size whole small))
  where
    multiple :
        (n size : ℕ)
        → size * (n / size) + n % size ≡ n
        → n % size < size
        → (k : ℕ) × (n + padding n size ≡ size * k)
    multiple n size whole small = elim (Bool-cases (n % size == 0)) [
      | inl none_left ↦
          let e : n % size ≡ 0 = ground arith in (n / size, rw (padding, none_left) (omega arith))
      | inr left ↦
          let e : size * (n / size + 1) ≡ size * (n / size) + size = grind arith in
          (n / size + 1, rw (padding, left) (omega arith))
    ]

    whole_clusters : (size m : ℕ) → 0 < size → (k : ℕ) × (m ≡ size * k) → m ≡ size * (m / size)
    whole_clusters size m pos (k, e) = rw (e, mul-div_cancel_left k pos) refl

module _ {R : Type 0} where
  pub last_particle-cons :
      (p : Particle R) (ps : List (Particle R))
      → (q : Particle R) × (last_particle (p ∷ ps) ≡ some q)
        × (get_elem? (p ∷ ps) (length ps) ≡ some q)
  unfolding last_particle
  last_particle-cons p [] = (p, refl, refl)
  last_particle-cons p (q ∷ ps) = last_particle-cons q ps

  -- The padding of a vector copies its last particle.
  pub fill_last_cluster_lem :
      (n : ℕ) (ps : List (Particle R))
      → 0 < length ps
      → (q : Particle R) × (fill_last_cluster n ps
          ≡ ps ++ replicate n (set_ownership_state dummy q))
        × (get_elem? ps (length ps - 1) ≡ some q)
  unfolding fill_last_cluster
  fill_last_cluster_lem n [] h = absurd (omega arith)
  fill_last_cluster_lem n (p ∷ ps) h =
      let last = last_particle-cons p ps in
      let e : suc (length ps) - 1 ≡ length ps = omega arith in
      (last.0, rw (fill_last_cluster, last.1) refl, rw e last.2)

-- The sort keeps the particles, so the vector keeps its length.
pub length-sort :
    {R : Type 0} (ps qs : List (Particle R)) → SameParticles ps qs → length ps ≡ length qs
length-sort ps qs same = sym (all_of ps) ∙ same (λ p. true) ∙ all_of qs
  where
    all_of : {R : Type 0} (ps : List (Particle R)) → count (λ p. true) ps ≡ length ps
    all_of [] = refl
    all_of (p ∷ ps) = omega (arith, all_of ps)

pub starts_lem :
    (size n k i : ℕ)
    → i < n
    → get_elem? (map (λ index. size * index) (counting n k)) i ≡ some (size * (k + i))
unfolding counting
starts_lem size zero k i h = absurd (omega arith)
starts_lem size (suc n) k zero h = let e : k + 0 ≡ k = omega arith in rw e refl
starts_lem size (suc n) k (suc i) h =
    let e : k + suc i ≡ k + 1 + i = omega arith in rw e (starts_lem size n (k + 1) i (omega arith))

pub length-starts : (size n k : ℕ) → length (map (λ index. size * index) (counting n k)) ≡ n
unfolding counting
length-starts size zero k = refl
length-starts size (suc n) k = omega (arith, length-starts size n (k + 1))
