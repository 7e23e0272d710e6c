-- ===== src/ParticleVector/References.antt =====
-- The references that the cells hold stay valid as long as no rebuild is asked for.
use mathlib.Core.List.{append_assoc}
use auto_pas.Prelude.{
  ℕ, suc, ◌+◌, ◌<◌, ◌^◌, ◌≡◌, ◌⊎◌, inl, inr, refl, ap, sym, ◌∙◌, Bool, false, Bool-cases, ◌==◌,
  List, [], ◌∷◌, ◌++◌, map, length, length-append, sub_word, arith,
}
use auto_pas.Prelude.Int.{pos, to_size_t, to_int, to_int_small}
use auto_pas.ParticleVector.{
  ParticleVector, total_size, mark_as_clean, remove_particles, push_back, dirty_size, needs_rebuild,
  modify_all, modify_each, drop, dirty_particles,
}

-- What happens between two updates of the references: `moved` is what was done to the particles of
-- before, one modification after the other, and `added` are the particles added since, as they
-- have become.
pub data Changes {P : Type 0} (grow : ℕ → ℕ) (v : ParticleVector P)
    : (P → P) → List P → ParticleVector P → Type 0 where
  unchanged : Changes grow v (λ p. p) [] v
  pushes :
      {moved : P → P} {added : List P} {w : ParticleVector P} (p : P)
      → Changes grow v moved added w
      → Changes grow v moved (added ++ p ∷ []) (push_back grow p w)
  removes :
      {moved : P → P} {added : List P} {w : ParticleVector P} (test : P → Bool)
      → Changes grow v moved added w
      → Changes grow v moved added (remove_particles test w)
  modifies :
      {moved : P → P} {added : List P} {w : ParticleVector P} (f : P → P)
      → Changes grow v moved added w
      → Changes grow v (λ p. f (moved p)) (map f added) (modify_each f w)

module _ {P : Type 0} where
  map_same : (ps : List P) → ps ≡ map (λ p. p) ps ++ []
  map_same [] = refl
  map_same (p ∷ ps) = ap (λ l. p ∷ l) (map_same ps)

  modify_all-append :
      (f g : P → P) (ps qs : List P)
      → modify_all f (map g ps ++ qs) ≡ map (λ p. f (g p)) ps ++ map f qs
  unfolding modify_all
  modify_all-append f g [] [] = refl
  modify_all-append f g [] (q ∷ qs) = ap (λ l. f q ∷ l) (modify_all-append f g [] qs)
  modify_all-append f g (p ∷ ps) qs = ap (λ l. f (g p) ∷ l) (modify_all-append f g ps qs)

  length-map : (f : P → P) (ps : List P) → length (map f ps) ≡ length ps
  length-map f [] = refl
  length-map f (p ∷ ps) = ap suc (length-map f ps)

  drop-append : (ps qs : List P) → drop (length ps) (ps ++ qs) ≡ qs
  unfolding drop
  drop-append [] qs = refl
  drop-append (p ∷ ps) qs = drop-append ps qs

module _ {P : Type 0} (grow : ℕ → ℕ) where
  -- Either a rebuild is due, or nothing moved and the new particles stand behind the old ones.
  abbrev IsSound : ParticleVector P → (P → P) → List P → ParticleVector P → Type 0
  IsSound v moved added w =
      (w.dirty_index ≡ 0)
      ⊎ ((w.buffer ≡ v.buffer)
          × (w.dirty_index ≡ length v.particle_list_imp)
          × (w.particle_list_imp ≡ map moved v.particle_list_imp ++ added))

  push_back-IsSound :
      (v w : ParticleVector P) (moved : P → P) (added : List P) (p : P)
      → IsSound v moved added w
      → IsSound v moved (added ++ p ∷ []) (push_back grow p w)
  unfolding push_back
  push_back-IsSound v w moved added p h =
      elim (Bool-cases (w.capacity == length w.particle_list_imp)) [
        | inl full ↦ rw full (inl refl)
        | inr room ↦ rw room (elim h [
          | inl due ↦ inl due
          | inr (buffer, index, parts) ↦ inr (
            buffer,
            index,
            ap (λ l. l ++ p ∷ []) parts
                ∙ append_assoc (map moved v.particle_list_imp) added (p ∷ []),
          )
        ])
      ]

  Changes-IsSound :
      (v w : ParticleVector P) (moved : P → P) (added : List P)
      → Changes grow (mark_as_clean v) moved added w
      → IsSound v moved added w
  unfolding mark_as_clean remove_particles modify_each
  Changes-IsSound v w moved added unchanged = inr (refl, refl, map_same v.particle_list_imp)
  Changes-IsSound v w moved added (pushes p before) =
      push_back-IsSound v _ _ _ p (Changes-IsSound v _ _ _ before)
  Changes-IsSound v w moved added (removes test before) = inl refl
  Changes-IsSound v w moved added (modifies {moved = g} {added = qs} f before) =
      elim (Changes-IsSound v _ _ _ before) [
        | inl due ↦ inl due
        | inr (buffer, index, parts) ↦
            inr (
              buffer,
              index,
              ap (modify_all f) parts ∙ modify_all-append f g v.particle_list_imp qs,
            )
      ]

  -- After the references were updated and the vector was marked as clean, whatever particles are
  -- added, removed or modified: as long as no rebuild is asked for and there are fewer than 2 ^ 31
  -- particles, the particles are in the same buffer. The particles that have references are at
  -- their places in front, as the modifications have made them, and behind them stand those that
  -- were added since, in their order, which are the dirty ones. The two sizes count all and these.
  pub Changes-references :
      (v w : ParticleVector P) (moved : P → P) (added : List P)
      → Changes grow (mark_as_clean v) moved added w
      → needs_rebuild w ≡ false
      → length w.particle_list_imp < 2 ^ 31
      → (w.buffer ≡ v.buffer)
        × (w.particle_list_imp ≡ map moved v.particle_list_imp ++ added)
        × (dirty_particles w ≡ added)
        × (total_size w ≡ pos (length v.particle_list_imp + length added))
        × (dirty_size w ≡ pos (length added))
  unfolding needs_rebuild total_size dirty_size dirty_particles
  Changes-references v w moved added changes kept small =
      elim (Changes-IsSound v w moved added changes) [
        | inl due ↦ absurd (ground (arith, due, kept))
        | inr (buffer, index, parts) ↦
            let old = map moved v.particle_list_imp in
            let old_size = length-map moved v.particle_list_imp in
            let size : length w.particle_list_imp ≡ length v.particle_list_imp + length added =
              ap length parts ∙ length-append old added ∙ omega (arith, old_size) in
            let total = to_int_small (length w.particle_list_imp) small in
            (
              buffer,
              parts,
              rw (index, parts, sym old_size) (drop-append old added),
              total ∙ ap pos size,
              rw total (
                  sizes (length w.particle_list_imp) w.dirty_index (length added)
                    (omega (arith, size, index)) small),
            )
      ]
    where
      sizes :
          (total index added : ℕ)
          → total ≡ index + added
          → total < 2 ^ 31
          → to_int (sub_word (to_size_t (pos total)) index) ≡ pos added
      sizes total index added h small = ground arith
