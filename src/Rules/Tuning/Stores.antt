-- ===== src/Rules/Tuning/Stores.antt =====
-- The values that the live info gives to the variables of a rule program.
use auto_pas.Prelude.{
  ℕ, zero, suc, ◌≤◌, ◌≡◌, inl, inr, refl, ap, ◌∙◌, sym, subst, false, Option-cases, none, some,
  List, [], ◌∷◌, ◌++◌, length, get_elem?, arith,
}
use mathlib.Core.Path.{fun_ext}
use auto_pas.Prelude.Classes.{Eq}
use auto_pas.Rules.Vm.{MemoryCell, bool_cell}
use auto_pas.Rules.Syntax.{
  Expression, Statement, define_list, define, if_then, order, Statements, none_left, next,
}
use auto_pas.Rules.Syntax.Context.{
  Binding, CodeGenerationContext, find_binding, insert_binding, new_context,
}
use auto_pas.Rules.Compile.{environment_after, environment_after_all}
use auto_pas.Rules.Compile.Generated.Programs.{final_environment}
use auto_pas.Rules.Compile.Generated.Environment.{find-after_all}
use auto_pas.Rules.Correct.Programs.{cell_at, initial_store}
use auto_pas.Rules.Correct.Scopes.{after-IsPlaced, IsPlaced, find_append_old}
use auto_pas.Rules.Tuning.{initial_stack}
use auto_pas.Rules.Tuning.Globals.{Added, find_info, live_store}

module _ {N D : Type 0} ⦃e : Eq N⦄ where
  -- A variable that is not there before a statement has an address past those that are.
  insert-later :
      (n k : N) (v : Expression N D) (b : Binding N D) (bs : List (Binding N D))
      → find_binding n bs ≡ none
      → find_binding n (insert_binding k v bs) ≡ some b
      → length bs ≤ b.address
  unfolding insert_binding
  insert-later n k v b bs absent h = elim (Option-cases (find_binding k bs)) [
    | inl new ↦
        let x : Binding N D = record { name = k; value = v; address = length bs } in
        let h' : find_binding n (bs ++ x ∷ []) ≡ some b = ground (arith, h, new) in
        elim (find_append_old n b x bs h') [
          | inl old ↦ absurd (cc (absent, old))
          | inr same ↦ omega (arith, ap (λ z. z.address) same)
        ]
    | inr (old, found) ↦ absurd (ground (arith, h, found, absent))
  ]

  mutual
    unfolding environment_after

    after-later :
        (n : N) (b : Binding N D) (s : Statement N D) (bs : List (Binding N D))
        → IsPlaced bs
        → find_binding n bs ≡ none
        → find_binding n (environment_after bs s) ≡ some b
        → length bs ≤ b.address
    after-later n b (define_list k l) bs placed absent h = absurd (cc (absent, h))
    after-later n b (define k v) bs placed absent h = insert-later n k v b bs absent h
    after-later n b (if_then c body) bs placed absent h =
        after_all-later n b body bs placed absent h
    after-later n b (order o) bs placed absent h = absurd (cc (absent, h))

    after_all-later :
        (n : N) (b : Binding N D) (ss : Statements N D) (bs : List (Binding N D))
        → IsPlaced bs
        → find_binding n bs ≡ none
        → find_binding n (environment_after_all bs ss) ≡ some b
        → length bs ≤ b.address
    after_all-later n b none_left bs placed absent h = absurd (cc (absent, h))
    after_all-later n b (next s ss) bs placed absent h =
        let env = environment_after bs s in
        let one = after-IsPlaced s bs placed in
        elim (Option-cases (find_binding n env)) [
          | inl still ↦ omega (arith, one.1, after_all-later n b ss env one.0 still h)
          | inr (old, found) ↦
              let kept = find-after_all n old ss env found in
              let same : old ≡ b = ground (arith, sym kept ∙ h) in
              subst (λ z. length bs ≤ z.address) same (after-later n old s bs placed absent found)
        ]

cell_at-outside :
    {D : Type 0} (s : List (MemoryCell D)) (i : ℕ) → length s ≤ i → cell_at s i ≡ bool_cell false
cell_at-outside [] i h = refl
cell_at-outside (x ∷ s) zero h = absurd (omega (arith, h))
cell_at-outside (x ∷ s) (suc i) h = cell_at-outside s i (omega (arith, h))

cell_at-found :
    {D : Type 0} (s : List (MemoryCell D)) (i : ℕ) (v : MemoryCell D)
    → get_elem? s i ≡ some v
    → cell_at s i ≡ v
cell_at-found [] i v h = absurd (cc h)
cell_at-found (x ∷ s) zero v h = ground (arith, h)
cell_at-found (x ∷ s) (suc i) v h = cell_at-found s i v h

module _ {N D : Type 0} ⦃e : Eq N⦄ where
  -- The variables start with the values of the live info.
  pub initial_store-live :
      (infos : List (N × MemoryCell D)) (c : CodeGenerationContext N D) (ss : Statements N D)
      → Added infos (new_context []) c (initial_stack infos)
      → initial_store (final_environment c ss) (initial_stack infos) ≡ live_store infos
  unfolding new_context find_binding
  initial_store-live infos c ss added = fun_ext λ n. elim (Option-cases (find_info n infos)) [
    | inl gone ↦
        let absent : find_binding n c.address_environment ≡ none = added.absent n gone refl in
        elim (Option-cases (find_binding n (final_environment c ss))) [
          | inl never ↦ rw (initial_store, never, live_store, gone) refl
          | inr (b, found) ↦
              rw (initial_store, found, live_store, gone)
                (cell_at-outside (initial_stack infos) b.address (
                  omega (
                    arith,
                    added.global.long,
                    after_all-later n b ss c.address_environment added.global.placed absent found,
                  )))
        ]
    | inr (v, here) ↦
        let b = added.there n v here in
        let found : find_binding n (final_environment c ss) ≡ some b.0 =
          find-after_all n b.0 ss c.address_environment b.1 in
        rw (initial_store, found, live_store, here)
          (cell_at-found (initial_stack infos) b.0.address v b.2)
  ]
