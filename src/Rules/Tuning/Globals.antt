-- ===== src/Rules/Tuning/Globals.antt =====
-- The live info as variables: their values stand on the initial stack at their addresses.
use auto_pas.Prelude.{
  ◌+◌, ◌<◌, ◌≡◌, inl, inr, refl, ap, ◌∙◌, sym, subst, true, false, Bool-cases, if◌then◌else◌,
  Option, none, some, List, [], ◌∷◌, ◌++◌, length, length-append, get_elem?,
  get_elem?-append_length, word, arith,
}
use mathlib.Core.List.{append_assoc, append-nil}
use auto_pas.Prelude.Classes.{Eq}
use auto_pas.Rules.Vm.{MemoryCell, bool_cell}
use auto_pas.Rules.Syntax.{literal}
use auto_pas.Rules.Syntax.Context.{
  Binding, CodeGenerationContext, find_binding, insert_binding, new_context, add_local_variable,
  add_global_variable,
}
use auto_pas.Rules.Compile.Generated.Programs.{IsFresh}
use auto_pas.Rules.Compile.Generated.Environment.{find-insert, find_append_new}
use auto_pas.Rules.Meaning.{Store}
use auto_pas.Rules.Correct.Scopes.{IsPlaced, insert-IsPlaced}
use auto_pas.Rules.Tuning.{add_globals, context_of, initial_stack}

module _ {N D : Type 0} ⦃e : Eq N⦄ where
  abbrev pub find_info : N → List (N × MemoryCell D) → Option (MemoryCell D)
  find_info n [] = none
  find_info n ((k, v) ∷ infos) = if e.beq k n then some v else find_info n infos

  -- Each name stands once, as in a map.
  abbrev pub Distinct : List (N × MemoryCell D) → Type 0
  Distinct [] = Unit
  Distinct ((n, v) ∷ infos) = (find_info n infos ≡ none) × Distinct infos

  -- The store of the live info: every other variable reads `false`.
  abbrev pub live_store : List (N × MemoryCell D) → Store N D
  live_store infos n = elim (find_info n infos) [ none ↦ bool_cell false | some v ↦ v ]

  -- A context of global variables only, whose values are the stack.
  pub record IsGlobal (c : CodeGenerationContext N D) (s : List (MemoryCell D)) : Type 0 where
    pub placed : IsPlaced c.address_environment
    pub initial : c.initial_num_variables ≡ length c.address_environment
    pub long : length s ≡ length c.address_environment
    pub fresh : IsFresh c

  find_append_other :
      (n : N) (x : Binding N D) (bs : List (Binding N D))
      → find_binding n bs ≡ none
      → e.beq x.name n ≡ false
      → find_binding n (bs ++ x ∷ []) ≡ none
  unfolding find_binding
  find_append_other n x [] h other = rw other refl
  find_append_other n x (y ∷ bs) h other = ground (arith, find_append_other n x bs)

  -- One more global variable.
  abbrev with_global : N → MemoryCell D → CodeGenerationContext N D → CodeGenerationContext N D
  with_global n v c = add_global_variable n (literal v) c

  inserted :
      (n : N) (v : MemoryCell D) (bs : List (Binding N D))
      → find_binding n bs ≡ none
      → insert_binding n (literal v) bs
        ≡ bs ++ record { name = n; value = literal v; address = length bs } ∷ []
  unfolding insert_binding
  inserted n v bs new = rw (insert_binding, new) refl

  with_global-IsGlobal :
      (n : N) (v : MemoryCell D) (c : CodeGenerationContext N D) (s : List (MemoryCell D))
      → IsGlobal c s
      → find_binding n c.address_environment ≡ none
      → length s + 1 < word
      → IsGlobal (with_global n v c) (s ++ v ∷ [])
  unfolding add_global_variable add_local_variable
  with_global-IsGlobal n v c s g new small =
      let env = c.address_environment in
      let x : Binding N D = record { name = n; value = literal v; address = length env } in
      let grown : length (insert_binding n (literal v) env) ≡ length env + 1 =
        ap length (inserted n v env new) ∙ length-append env (x ∷ []) in
      record {
        placed = insert-IsPlaced n (literal v) env g.placed;
        initial = omega (arith, g.initial, grown, g.long);
        long = length-append s (v ∷ []) ∙ omega (arith, g.long, grown);
        fresh = record { current = g.fresh.current; most = g.fresh.most; orders = g.fresh.orders };
      }

  -- What the context and the stack say of the variables after the live info was added.
  pub record Added (infos : List (N × MemoryCell D)) (c c' : CodeGenerationContext N D)
      (s' : List (MemoryCell D)) : Type 0 where
    pub global : IsGlobal c' s'
    pub there :
        (n : N) (v : MemoryCell D)
        → find_info n infos ≡ some v
        → (b : Binding N D) × (find_binding n c'.address_environment ≡ some b)
          × (get_elem? s' b.address ≡ some v)
    pub kept :
        (n : N) (b : Binding N D)
        → find_binding n c.address_environment ≡ some b
        → find_binding n c'.address_environment ≡ some b
    pub absent :
        (n : N)
        → find_info n infos ≡ none
        → find_binding n c.address_environment ≡ none
        → find_binding n c'.address_environment ≡ none

  -- A name of the rest is not the first one.
  other_name :
      (n m : N) (u : MemoryCell D) (infos : List (N × MemoryCell D))
      → find_info n infos ≡ none
      → find_info m infos ≡ some u
      → e.beq n m ≡ false
  other_name n m u infos here there = elim (Bool-cases (e.beq n m)) [
    | inl same ↦
        absurd (cc (sym here ∙ ap (λ z. find_info z infos) ((e.beq_iff n m).0 same) ∙ there))
    | inr other ↦ other
  ]

  pub add_globals-Added :
      (infos : List (N × MemoryCell D)) (c : CodeGenerationContext N D) (s : List (MemoryCell D))
      → IsGlobal c s
      → Distinct infos
      → ((m : N) (u : MemoryCell D)
          → find_info m infos ≡ some u
          → find_binding m c.address_environment ≡ none)
      → length s + length infos < word
      → Added infos c (add_globals infos c) (s ++ initial_stack infos)
  unfolding add_globals add_global_variable add_local_variable
  add_globals-Added [] c s g distinct names small = record {
    global = subst (IsGlobal c) (sym (append-nil s)) g;
    there = λ n v h. absurd (cc h);
    kept = λ n b h. h;
    absent = λ n h h'. h';
  }
  add_globals-Added ((n, v) ∷ infos) c s g distinct names small =
      let env = c.address_environment in
      let x : Binding N D = record { name = n; value = literal v; address = length env } in
      let c₁ = with_global n v c in
      let same : e.beq n n ≡ true = (e.beq_iff n n).1 refl in
      let new : find_binding n env ≡ none = names n v (rw same refl) in
      let env₁ = inserted n v env new in
      let absent₁ : (m : N)
          → e.beq n m ≡ false
          → find_binding m env ≡ none
          → find_binding m c₁.address_environment ≡ none =
        λ m other h. ap (find_binding m) env₁ ∙ find_append_other m x env h other in
      let names₁ : (m : N) (u : MemoryCell D)
          → find_info m infos ≡ some u
          → find_binding m c₁.address_environment ≡ none =
        λ m u h.
          let other = other_name n m u infos distinct.0 h in
          absent₁ m other (names m u (rw other h)) in
      let rest =
        add_globals-Added infos c₁ (s ++ v ∷ [])
          (with_global-IsGlobal n v c s g new (omega (arith, small))) distinct.1 names₁
          (omega (arith, small, length-append s (v ∷ []))) in
      let stack = append_assoc s (v ∷ []) (initial_stack infos) in
      subst (Added ((n, v) ∷ infos) c (add_globals infos c₁)) stack record {
        global = rest.global;
        there = λ m u h. elim (Bool-cases (e.beq n m)) [
          | inl equal ↦
              let here : find_binding m c₁.address_environment ≡ some x =
                ap (find_binding m) env₁
                ∙ find_append_new m x env
                    (subst (λ z. find_binding z env ≡ none) ((e.beq_iff n m).0 equal) new)
                    ((e.beq_iff n m).0 equal) in
              let value : v ≡ u = ground (arith, h, equal) in
              (
                x,
                rest.kept m x here,
                subst (λ z. get_elem? z (length env) ≡ some u) (sym stack)
                    (subst (λ k. get_elem? (s ++ v ∷ initial_stack infos) k ≡ some u) g.long
                      (get_elem?-append_length s v (initial_stack infos) ∙ ap some value)),
              )
          | inr other ↦ rest.there m u (ground (arith, h, other))
        ];
        kept = λ m b h. rest.kept m b (find-insert m n (literal v) b env h);
        absent = λ m h h'. elim (Bool-cases (e.beq n m)) [
          | inl equal ↦ absurd (ground (arith, h, equal))
          | inr other ↦ rest.absent m (ground (arith, h, other)) (absent₁ m other h')
        ];
      }

  start-IsGlobal : IsGlobal (new_context {N = N} {D = D} []) []
  unfolding new_context find_binding
  start-IsGlobal = record {
    placed = λ n b h. absurd (cc h);
    initial = refl;
    long = refl;
    fresh = record { current = refl; most = refl; orders = refl };
  }

  pub context_of-Added :
      (infos : List (N × MemoryCell D))
      → Distinct infos
      → length infos < word
      → Added infos (new_context []) (context_of infos) (initial_stack infos)
  unfolding context_of new_context find_binding
  context_of-Added infos distinct small =
      add_globals-Added infos (new_context []) [] start-IsGlobal distinct (λ m u h. refl)
        (omega (arith, small))
