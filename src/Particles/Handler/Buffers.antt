-- ===== src/Particles/Handler/Buffers.antt =====
-- What the loops over the buffers keep, add and collect.
use auto_pas.Prelude.{
  ℕ, zero, suc, ◌+◌, ◌≤◌, ◌<◌, ◌≡◌, refl, ◌∙◌, Bool, true, false, not, ◌&&◌, List, [], ◌∷◌, ◌++◌,
  some, length, arith, inl, inr, Bool-cases,
}
use auto_pas.Traversal.Loops.{bit, count, count-append}
use auto_pas.Particles.{Particle, is_owned, is_dummy}
use auto_pas.Particles.Cell.{add_particle, swap_delete}
use auto_pas.Particles.Cell.Counts.{count-swap_delete, length-swap_delete}
use auto_pas.Particles.Container.{ParticleContainer}
use auto_pas.Particles.Handler.{
  Outcome, done, thrown, undefined, ◌>>=◌, add_to_buffer, current, clear_all, sweep_buffer,
  sweep_buffers,
}

abbrev pub flatten : {R : Type 0} → List (List (Particle R)) → List (Particle R)
flatten [] = []
flatten (b ∷ bs) = b ++ flatten bs

-- No owned particle: none of these is in the buffers for owned particles.
abbrev pub is_foreign : {R : Type 0} → Particle R → Bool
is_foreign p = not (is_owned p)

module _ {R : Type 0} where
  pub clear_all-flatten :
      (bs : List (List (Particle R))) (t : Particle R → Bool) → count t (flatten (clear_all bs)) ≡ 0
  unfolding clear_all
  clear_all-flatten [] t = refl
  clear_all-flatten (b ∷ bs) t = clear_all-flatten bs t

  add_to_buffer-total :
      (thread : ℕ) (p : Particle R) (bs : List (List (Particle R)))
      → thread < length bs
      → (bs' : List (List (Particle R))) × (add_to_buffer thread p bs ≡ done bs')
  unfolding add_to_buffer
  add_to_buffer-total thread p [] h = absurd (omega arith)
  add_to_buffer-total zero p (b ∷ bs) h = (add_particle p b ∷ bs, refl)
  add_to_buffer-total (suc thread) p (b ∷ bs) h =
      let rest = add_to_buffer-total thread p bs (omega arith) in (b ∷ rest.0, rw rest.1 refl)

  pub add_to_buffer-one :
      (thread : ℕ) (p : Particle R) (bs bs' : List (List (Particle R)))
      → add_to_buffer thread p bs ≡ done bs'
      → (t : Particle R → Bool) → count t (flatten bs') ≡ bit (t p) + count t (flatten bs)
  unfolding add_to_buffer add_particle
  add_to_buffer-one thread p [] bs' h t = absurd (cc h)
  add_to_buffer-one zero p (b ∷ bs) bs' h t =
      let e : bs' ≡ (b ++ p ∷ []) ∷ bs = cc h in
      rw
        (
          e,
          count-append t (b ++ p ∷ []) (flatten bs),
          count-append t b (p ∷ []),
          count-append t b (flatten bs),
        )
        (omega arith)
  add_to_buffer-one (suc thread) p (b ∷ bs) bs' h t =
      cases (add_to_buffer thread p bs) h (add_to_buffer-one thread p bs)
    where
      cases :
          (r : Outcome (List (List (Particle R))))
          → (r >>= λ rest. done (b ∷ rest)) ≡ done bs'
          → ((rest : List (List (Particle R)))
              → r ≡ done rest
              → (t : Particle R → Bool) → count t (flatten rest) ≡ bit (t p) + count t (flatten bs))
          → count t (flatten bs') ≡ bit (t p) + count t (flatten (b ∷ bs))
      cases (done rest) h ih =
          let e : bs' ≡ b ∷ rest = cc h in
          rw (e, count-append t b (flatten rest), count-append t b (flatten bs), ih rest refl t)
            (omega arith)
      cases thrown h ih = absurd (cc h)
      cases undefined h ih = absurd (cc h)

  -- No particle of the list is a dummy, so the iterator stays where it is.
  current_lem :
      (p : Particle R) (ps : List (Particle R)) → is_owned p ≡ true → current p ps ≡ some (p, ps)
  unfolding current
  current_lem p ps h = let e : is_dummy p ≡ false = ground (arith, h) in rw (current, e) refl

module _ {C R : Type 0} (ops : ParticleContainer C R) (in_box : R → Bool) where
  -- What a loop makes of a list of owned particles: those in the box stay, the others leave.
  abbrev pub Parts : List (Particle R) → List (Particle R) → List (Particle R) → Type 0
  Parts ps kept leaving =
      (t : Particle R → Bool)
      → (count t kept ≡ count (λ p. in_box p.r && t p) ps)
        × (count t leaving ≡ count (λ p. not (in_box p.r) && t p) ps)

  sweep_buffer-Parts :
      (fuel : ℕ) (ps : List (Particle R))
      → length ps ≤ fuel
      → count is_foreign ps ≡ 0
      → (kept : List (Particle R)) × (leaving : List (Particle R)) × (sweep_buffer ops in_box fuel
            ps
          ≡ done (kept, leaving))
        × Parts ps kept leaving
  unfolding sweep_buffer
  sweep_buffer-Parts zero [] h own = ([], [], refl, λ t. (refl, refl))
  sweep_buffer-Parts zero (p ∷ ps) h own = absurd (omega arith)
  sweep_buffer-Parts (suc fuel) [] h own = ([], [], refl, λ t. (refl, refl))
  sweep_buffer-Parts (suc fuel) (p ∷ ps) h own =
      let mine : is_owned p ≡ true = ground (arith, own) in
      elim (Bool-cases (in_box p.r)) [
        | inl inside ↦
            let rest = sweep_buffer-Parts fuel ps (omega arith) (omega (arith, own)) in
            (
              p ∷ rest.0,
              rest.1,
              rw (sweep_buffer, current_lem p ps mine, inside, rest.2) refl,
              λ t. rw inside (omega (arith, (rest.3 t).0), omega (arith, (rest.3 t).1)),
            )
        | inr outside ↦
            let shorter = length-swap_delete p ps in
            let rest =
              sweep_buffer-Parts fuel (swap_delete p ps) (omega arith)
                (count-swap_delete is_foreign p ps ∙ omega (arith, own)) in
            (
              rest.0,
              p ∷ rest.1,
              rw (sweep_buffer, current_lem p ps mine, outside, rest.2) refl,
              λ t. rw outside (
                omega (arith, (rest.3 t).0, count-swap_delete (λ q. in_box q.r && t q) p ps),
                omega (arith, (rest.3 t).1, count-swap_delete (λ q. not (in_box q.r) && t q) p ps),
              ),
            )
      ]

  pub sweep_buffers-Parts :
      (bs : List (List (Particle R)))
      → count is_foreign (flatten bs) ≡ 0
      → (kept : List (List (Particle R))) × (leaving : List (Particle R)) × (sweep_buffers ops
            in_box bs
          ≡ done (kept, leaving))
        × Parts (flatten bs) (flatten kept) leaving
  unfolding sweep_buffers
  sweep_buffers-Parts [] own = ([], [], refl, λ t. (refl, refl))
  sweep_buffers-Parts (b ∷ bs) own =
      let split = count-append is_foreign b (flatten bs) in
      let first = sweep_buffer-Parts (length b) b (omega arith) (omega (arith, split, own)) in
      let rest = sweep_buffers-Parts bs (omega (arith, split, own)) in
      (
        first.0 ∷ rest.0,
        first.1 ++ rest.1,
        rw (first.2, rest.2) refl,
        λ t. (
          omega (
            arith,
            count-append t first.0 (flatten rest.0),
            (first.3 t).0,
            (rest.3 t).0,
            count-append (λ p. in_box p.r && t p) b (flatten bs),
          ),
          omega (
            arith,
            count-append t first.1 rest.1,
            (first.3 t).1,
            (rest.3 t).1,
            count-append (λ p. not (in_box p.r) && t p) b (flatten bs),
          ),
        ),
      )
