-- ===== src/Rules/Compile/Generated/Environment.antt =====
-- What `generateCode` does to the address environment.
use auto_pas.Prelude.{
  ℕ, ◌≡◌, refl, Option-cases, inl, inr, List, [], ◌∷◌, ◌++◌, length, none, some, arith,
}
use auto_pas.Prelude.Classes.{Eq}
use auto_pas.Rules.Syntax.{
  Expression, Statement, define_list, define, if_then, order, Statements, none_left, next,
}
use auto_pas.Rules.Syntax.Context.{Binding, find_binding, insert_binding}
use auto_pas.Rules.Compile.{environment_after, environment_after_all}
use auto_pas.Rules.Compile.Generated.{Knows}

module _ {N D : Type 0} ⦃e : Eq N⦄ where
  -- A binding that is there stays when another name is inserted.
  pub find_append :
      (n : N) (b x : Binding N D) (bs : List (Binding N D))
      → find_binding n bs ≡ some b
      → find_binding n (bs ++ x ∷ []) ≡ some b
  unfolding find_binding
  find_append n b x [] h = absurd (cc h)
  find_append n b x (y ∷ bs) h = ground (arith, find_append n b x bs)

  pub find_append_new :
      (n : N) (x : Binding N D) (bs : List (Binding N D))
      → find_binding n bs ≡ none
      → x.name ≡ n
      → find_binding n (bs ++ x ∷ []) ≡ some x
  unfolding find_binding
  find_append_new n x [] h same = rw ((e.beq_iff x.name n).1 same) refl
  find_append_new n x (y ∷ bs) h same = ground (arith, find_append_new n x bs)

  pub find-insert :
      (n k : N) (v : Expression N D) (b : Binding N D) (bs : List (Binding N D))
      → find_binding n bs ≡ some b
      → find_binding n (insert_binding k v bs) ≡ some b
  unfolding insert_binding
  find-insert n k v b bs h = elim (Option-cases (find_binding k bs)) [
    | inl new ↦ rw (insert_binding, new) (find_append n b _ bs h)
    | inr (old, found) ↦ rw (insert_binding, found) h
  ]

  -- The name that was inserted is there.
  pub find-insert_self :
      (k : N) (v : Expression N D) (bs : List (Binding N D))
      → (b : Binding N D) × (find_binding k (insert_binding k v bs) ≡ some b)
  unfolding insert_binding
  find-insert_self k v bs = elim (Option-cases (find_binding k bs)) [
    | inl new ↦ (
      record { name = k; value = v; address = length bs },
      rw (insert_binding, new) (find_append_new k _ bs new refl),
    )
    | inr (old, found) ↦ (old, rw (insert_binding, found) found)
  ]

  -- What is bound before a statement is bound after it.
  mutual
    unfolding environment_after

    pub find-after :
        (n : N) (b : Binding N D) (s : Statement N D) (bs : List (Binding N D))
        → find_binding n bs ≡ some b
        → find_binding n (environment_after bs s) ≡ some b
    find-after n b (define_list k l) bs h = h
    find-after n b (define k v) bs h = find-insert n k v b bs h
    find-after n b (if_then c body) bs h = find-after_all n b body bs h
    find-after n b (order o) bs h = h

    pub find-after_all :
        (n : N) (b : Binding N D) (ss : Statements N D) (bs : List (Binding N D))
        → find_binding n bs ≡ some b
        → find_binding n (environment_after_all bs ss) ≡ some b
    find-after_all n b none_left bs h = h
    find-after_all n b (next s ss) bs h =
        find-after_all n b ss (environment_after bs s) (find-after n b s bs h)

  pub Knows-before :
      (a : N → ℕ) (s : Statement N D) (bs : List (Binding N D))
      → Knows a (environment_after bs s)
      → Knows a bs
  Knows-before a s bs k n b h = k n b (find-after n b s bs h)

  pub Knows-before_all :
      (a : N → ℕ) (ss : Statements N D) (bs : List (Binding N D))
      → Knows a (environment_after_all bs ss)
      → Knows a bs
  Knows-before_all a ss bs k n b h = k n b (find-after_all n b ss bs h)
