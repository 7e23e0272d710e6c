-- ===== src/Particles/DirectSum/Laws.antt =====
-- The direct sum container keeps what the logic handler relies on.
use auto_pas.Prelude.{
  ℕ, zero, suc, ◌+◌, ◌≤◌, ◌≡◌, refl, ◌∙◌, sym, Bool, true, false, not, ◌&&◌, List, [], ◌∷◌, ◌++◌,
  if◌then◌else◌, length, arith, inl, inr, Bool-cases,
}
use auto_pas.Traversal.Loops.{bit, count, count-append, count_none}
use auto_pas.Particles.{Particle, is_owned, is_halo, is_dummy}
use auto_pas.Particles.Cell.{add_particle, delete_dummy_particles, swap_delete, erase_if}
use auto_pas.Particles.Cell.Counts.{
  count-swap_delete, length-swap_delete, count-erase_if, count_cong, count_without,
}
use auto_pas.Particles.Container.{ParticleContainer, ContainerLaws, as_halo}
use auto_pas.Particles.DirectSum.{
  DirectSum, same, check_particle_in_cell_and_update_by_id_and_position, mark_halo_as_dummy,
  collect_leaving, collect_particles_and_mark_non_owned_as_dummy, remove_invalid, update_container,
  update_halo_particle, keep_only, direct_sum,
}

module _ {R : Type 0} where
  count-keep_only :
      (t u : Particle R → Bool) (ps : List (Particle R))
      → count t (keep_only u ps) ≡ count (λ p. u p && t p) ps
  count-keep_only t u ps =
      count-erase_if t (λ p. not (u p)) ps ∙ count_cong _ _ ps (λ p. twice (u p) (t p))
    where
      twice : (a b : Bool) → (not (not a) && b) ≡ (a && b)
      twice a b = ground arith

  count-mark :
      (t : Particle R → Bool) (ps : List (Particle R))
      → count (λ p. is_halo p && t p) (mark_halo_as_dummy ps) ≡ 0
  unfolding mark_halo_as_dummy
  count-mark t [] = refl
  count-mark t (p ∷ ps) = ground (arith, count-mark t ps)

  mark-owned : (ps : List (Particle R)) → count is_owned (mark_halo_as_dummy ps) ≡ count is_owned ps
  unfolding mark_halo_as_dummy
  mark-owned [] = refl
  mark-owned (p ∷ ps) = ground (arith, mark-owned ps)

module _ {R : Type 0} (in_box : R → Bool) where
  -- What one loop over the owned particles leaves and collects.
  collect-both :
      (t : Particle R → Bool) (ps : List (Particle R))
      → (count (λ p. is_owned p && t p) (collect_leaving in_box ps).0
          ≡ count (λ p. is_owned p && (in_box p.r && t p)) ps)
        × (count t (collect_leaving in_box ps).1
            ≡ count (λ p. is_owned p && (not (in_box p.r) && t p)) ps)
        × (count is_halo (collect_leaving in_box ps).0 ≡ count is_halo ps)
  unfolding collect_leaving
  collect-both t [] = (refl, refl, refl)
  collect-both t (p ∷ ps) =
      let rest = collect-both t ps in
      (ground (arith, rest.0), ground (arith, rest.1), ground (arith, rest.2))

  remove-both :
      (t : Particle R → Bool) (fuel : ℕ) (ps : List (Particle R))
      → length ps ≤ fuel
      → (count t (remove_invalid in_box fuel ps).0 ≡ count (λ p. in_box p.r && t p) ps)
        × (count t (remove_invalid in_box fuel ps).1 ≡ count (λ p. not (in_box p.r) && t p) ps)
  unfolding remove_invalid
  remove-both t zero [] h = (refl, refl)
  remove-both t zero (p ∷ ps) h = absurd (omega arith)
  remove-both t (suc fuel) [] h = (refl, refl)
  remove-both t (suc fuel) (p ∷ ps) h = elim (Bool-cases (in_box p.r)) [
    | inl k ↦
        let rest = remove-both t fuel ps (omega arith) in
        rw k (omega (arith, rest.0), omega (arith, rest.1))
    | inr k ↦
        let rest = remove-both t fuel (swap_delete p ps) (omega (arith, length-swap_delete p ps)) in
        rw k (
          omega (arith, rest.0, count-swap_delete (λ q. in_box q.r && t q) p ps),
          omega (arith, rest.1, count-swap_delete (λ q. not (in_box q.r) && t q) p ps),
        )
  ]

module _ {R : Type 0} (close : R → R → Bool) where
  check-owned :
      (p : Particle R) (cell : List (Particle R))
      → is_owned p ≡ false
      → count is_owned cell ≡ 0
      → count is_owned (check_particle_in_cell_and_update_by_id_and_position close p cell).1 ≡ 0
  unfolding check_particle_in_cell_and_update_by_id_and_position
  check-owned p [] h valid = refl
  check-owned p (q ∷ qs) h valid =
      let rest = check-owned p qs h (omega (arith, valid)) in
      elim (Bool-cases (same close p q)) [
        | inl found ↦ rw found (rw h (omega (arith, valid)))
        | inr other ↦ rw other (omega (arith, rest, valid))
      ]

  -- The update of a halo particle that is not there.
  check-halo :
      (t : Particle R → Bool) (p : Particle R) (cell : List (Particle R))
      → is_halo p ≡ true
      → count (λ q. is_halo q && same close p q) cell ≡ 0
      → let found = check_particle_in_cell_and_update_by_id_and_position close p cell in
        count (λ q. is_halo q && t q) found.1
        ≡ (if found.0 then bit (t p) else 0) + count (λ q. is_halo q && t q) cell
  unfolding check_particle_in_cell_and_update_by_id_and_position
  check-halo t p [] h new = refl
  check-halo t p (q ∷ qs) h new =
      let rest = check-halo t p qs h (omega (arith, new)) in
      elim (Bool-cases (same close p q)) [
        | inl found ↦
            let no_halo : is_halo q ≡ false = ground (arith, new) in
            rw found (rw (h, no_halo) (omega arith))
        | inr other ↦ rw other (omega (arith, rest))
      ]

  module _ (in_box : R → Bool) where
    abbrev ops : ParticleContainer (DirectSum R) R
    ops = direct_sum close in_box

    IsValid : DirectSum R → Type 0
    IsValid c = (count is_halo c.cell ≡ 0) × (count is_owned c.halo_cell ≡ 0)

    update-IsValid :
        (keep : Bool) (c : DirectSum R) → IsValid c → IsValid (ops.update_container keep c).0
    unfolding direct_sum update_container IsValid collect_particles_and_mark_non_owned_as_dummy
        delete_dummy_particles
    update-IsValid true c h =
        ((collect-both in_box (λ p. true) c.cell).2 ∙ h.0, mark-owned c.halo_cell ∙ h.1)
    update-IsValid false c h = (no_halo c.cell h.0, refl)
      where
        shape :
            (p : Particle R) (a : Bool)
            → is_halo p ≡ false
            → (not (is_dummy p) && (a && is_halo p)) ≡ false
        shape p a k = ground arith

        no_halo :
            (ps : List (Particle R))
            → count is_halo ps ≡ 0
            → count is_halo
                (remove_invalid in_box
                  (length (delete_dummy_particles ps))
                  (delete_dummy_particles ps)).0
              ≡ 0
        no_halo ps k =
            (remove-both in_box is_halo (length (erase_if is_dummy ps)) (erase_if is_dummy ps)
              (omega arith)).0
            ∙ count-erase_if (λ p. in_box p.r && is_halo p) is_dummy ps
            ∙ count_without is_halo _ (λ p. false) ps k
                (λ p none_here. shape p (in_box p.r) none_here)
            ∙ count_none (λ p. false) ps (λ p. refl)

    update-stays :
        (keep : Bool) (c : DirectSum R)
        → IsValid c
        → (t : Particle R → Bool)
        → count t (ops.owned_particles (ops.update_container keep c).0)
          ≡ count (λ p. in_box p.r && t p) (ops.owned_particles c)
    unfolding direct_sum update_container IsValid collect_particles_and_mark_non_owned_as_dummy
        delete_dummy_particles
    update-stays true c h t =
        count-keep_only t is_owned _
        ∙ (collect-both in_box t c.cell).0
        ∙ sym (count-keep_only (λ p. in_box p.r && t p) is_owned c.cell)
    update-stays false c h t =
        count-keep_only t is_owned _
        ∙ (remove-both in_box (λ p. is_owned p && t p) (length (erase_if is_dummy c.cell))
            (erase_if is_dummy c.cell) (omega arith)).0
        ∙ count-erase_if (λ p. in_box p.r && (is_owned p && t p)) is_dummy c.cell
        ∙ count_cong _ _ c.cell (λ p. shape p (in_box p.r) (t p))
        ∙ sym (count-keep_only (λ p. in_box p.r && t p) is_owned c.cell)
      where
        shape :
            (p : Particle R) (a b : Bool)
            → (not (is_dummy p) && (a && (is_owned p && b))) ≡ (is_owned p && (a && b))
        shape p a b = ground arith

    update-leaves :
        (keep : Bool) (c : DirectSum R)
        → IsValid c
        → (t : Particle R → Bool)
        → count t (ops.update_container keep c).1
          ≡ count (λ p. not (in_box p.r) && t p) (ops.owned_particles c)
    unfolding direct_sum update_container IsValid collect_particles_and_mark_non_owned_as_dummy
        delete_dummy_particles
    update-leaves true c h t =
        (collect-both in_box t c.cell).1
        ∙ sym (count-keep_only (λ p. not (in_box p.r) && t p) is_owned c.cell)
    update-leaves false c h t =
        (remove-both in_box t (length (erase_if is_dummy c.cell)) (erase_if is_dummy c.cell)
          (omega arith)).1
        ∙ count-erase_if (λ p. not (in_box p.r) && t p) is_dummy c.cell
        ∙ count_without is_halo _ _ c.cell h.0 (λ p k. shape p (not (in_box p.r)) (t p) k)
        ∙ sym (count-keep_only (λ p. not (in_box p.r) && t p) is_owned c.cell)
      where
        shape :
            (p : Particle R) (a b : Bool)
            → is_halo p ≡ false
            → (not (is_dummy p) && (a && b)) ≡ (is_owned p && (a && b))
        shape p a b k = ground arith

    halo_gone :
        (keep : Bool) (c : DirectSum R) (t : Particle R → Bool)
        → count t (ops.halo_particles (ops.update_container keep c).0) ≡ 0
    unfolding direct_sum update_container collect_particles_and_mark_non_owned_as_dummy
    halo_gone true c t = count-keep_only t is_halo _ ∙ count-mark t c.halo_cell
    halo_gone false c t = refl

    -- The direct sum container fills the interface: from any state whose first cell holds no halo
    -- and whose second no owned particle, each operation leads to such a state and does to the
    -- owned and the halo particles what the interface says.
    pub direct_sum-ContainerLaws : ContainerLaws in_box (same close) (direct_sum close in_box)
    unfolding direct_sum IsValid add_particle update_halo_particle
    direct_sum-ContainerLaws = record {
      IsValid = IsValid;
      add_valid =
          λ p c h v. (count-append is_halo c.cell (p ∷ []) ∙ owned_no_halo p c.cell h v.0, v.1);
      add_owned = λ p c h t. one_more is_owned p c.cell t h;
      add_halo = λ p c t. refl;
      add_halo_valid =
          λ p c v. (v.0, count-append is_owned c.halo_cell (as_halo p ∷ []) ∙ omega (arith, v.1));
      add_halo_owned = λ p c t. refl;
      add_halo_halo = λ p c t. one_more is_halo (as_halo p) c.halo_cell t refl;
      update_halo_valid = λ p c v. (v.0, check-owned (as_halo p) c.halo_cell refl v.1);
      update_halo_owned = λ p c t. refl;
      update_halo_halo = λ p c v new t.
          count-keep_only t is_halo _
          ∙ check-halo t (as_halo p) c.halo_cell refl
              (sym (count-keep_only (same close (as_halo p)) is_halo c.halo_cell) ∙ new)
          ∙ rw (count-keep_only t is_halo c.halo_cell) refl;
      update_valid = update-IsValid;
      update_halo_gone = λ keep c v t. halo_gone keep c t;
      update_stays = update-stays;
      update_leaves = update-leaves;
      delete_all_valid = λ c. (refl, refl);
      delete_all_gone = λ c t. (refl, refl);
    }
      where
        owned_no_halo :
            (p : Particle R) (ps : List (Particle R))
            → is_owned p ≡ true
            → count is_halo ps ≡ 0
            → count is_halo ps + count is_halo (p ∷ []) ≡ 0
        owned_no_halo p ps h v = ground (arith, v)

        one_more :
            (u : Particle R → Bool) (p : Particle R) (ps : List (Particle R))
            (t : Particle R → Bool)
            → u p ≡ true
            → count t (keep_only u (ps ++ p ∷ [])) ≡ bit (t p) + count t (keep_only u ps)
        one_more u p ps t h =
            count-keep_only t u (ps ++ p ∷ [])
            ∙ count-append (λ q. u q && t q) ps (p ∷ [])
            ∙ rw (count-keep_only t u ps) (rw h (omega arith))
