-- ===== src/Rules/Correct/Scopes.antt =====
-- The variables of a program: where they stand on the stack, and that they are defined when they are
-- used.
use auto_pas.Prelude.{
  ℕ, ◌+◌, ◌≤◌, ◌≡◌, ◌⊎◌, ap, ◌∙◌, sym, subst, Option-cases, inl, inr, true, List, [], ◌∷◌, ◌++◌,
  length, length-append, some, get_elem?, get_elem?-append, get_elem?-append_length, Bool-cases,
  arith,
}
use auto_pas.Prelude.Classes.{Eq}
use auto_pas.Rules.Syntax.{
  Expression, literal, variable, negation, binary, Statement, define_list, define, if_then, order,
  Statements, none_left, next,
}
use auto_pas.Rules.Syntax.Context.{Binding, find_binding, insert_binding}
use auto_pas.Rules.Compile.{
  code_of, bound, scoped, scoped_all, environment_after, environment_after_all, code_of_statement,
  code_of_statements, depth_of, depth_of_all,
}
use auto_pas.Rules.Compile.Generated.{and_left, has_some, depth-le}
use auto_pas.Rules.Compile.Generated.Environment.{find-insert, find-insert_self, find-after_all}
use auto_pas.Rules.Correct.Expressions.{Uses}
use auto_pas.Rules.Correct.Statements.{UsesIn, UsesInAll}

module _ {N D : Type 0} ⦃e : Eq N⦄ where
  -- Every binding stands at its address.
  abbrev pub IsPlaced : List (Binding N D) → Type 0
  IsPlaced bs =
      (n : N) (b : Binding N D) → find_binding n bs ≡ some b → get_elem? bs b.address ≡ some b

  pub find_append_old :
      (n : N) (b x : Binding N D) (bs : List (Binding N D))
      → find_binding n (bs ++ x ∷ []) ≡ some b
      → (find_binding n bs ≡ some b) ⊎ (b ≡ x)
  unfolding find_binding
  find_append_old n b x [] h = elim (Bool-cases (e.beq x.name n)) [
    | inl same ↦ inr (ground arith)
    | inr other ↦ absurd (ground arith)
  ]
  find_append_old n b x (y ∷ bs) h = elim (Bool-cases (e.beq y.name n)) [
    | inl same ↦ inl (ground arith)
    | inr other ↦
        let rest : find_binding n (bs ++ x ∷ []) ≡ some b = ground arith in
        elim (find_append_old n b x bs rest) [ inl old ↦ inl (rw other old) | inr new ↦ inr new ]
  ]

  pub insert-IsPlaced :
      (n : N) (v : Expression N D) (bs : List (Binding N D))
      → IsPlaced bs
      → IsPlaced (insert_binding n v bs)
  unfolding insert_binding
  insert-IsPlaced n v bs placed k b h = elim (Option-cases (find_binding n bs)) [
    | inl new ↦
        let x : Binding N D = record { name = n; value = v; address = length bs } in
        let h' : find_binding k (bs ++ x ∷ []) ≡ some b = ground (arith, h, new) in
        rw (insert_binding, new)
          (elim (find_append_old k b x bs h') [
            | inl old ↦ get_elem?-append bs (x ∷ []) b.address b (placed k b old)
            | inr same ↦
                subst (λ z. get_elem? (bs ++ x ∷ []) z.address ≡ some z) (sym same)
                  (get_elem?-append_length bs x [])
          ])
    | inr (old, found) ↦
        let h' : find_binding k bs ≡ some b = ground (arith, h, found) in
        rw (insert_binding, found) (placed k b h')
  ]

  pub insert-length :
      (n : N) (v : Expression N D) (bs : List (Binding N D))
      → length bs ≤ length (insert_binding n v bs)
  unfolding insert_binding
  insert-length n v bs = elim (Option-cases (find_binding n bs)) [
    | inl new ↦
        rw (insert_binding, new)
          (omega
            (arith, length-append bs (record { name = n; value = v; address = length bs } ∷ [])))
    | inr (old, found) ↦ rw (insert_binding, found) (omega arith)
  ]

  mutual
    unfolding environment_after

    pub after-IsPlaced :
        (s : Statement N D) (bs : List (Binding N D))
        → IsPlaced bs
        → IsPlaced (environment_after bs s) × (length bs ≤ length (environment_after bs s))
    after-IsPlaced (define_list n l) bs placed = (placed, omega arith)
    after-IsPlaced (define n v) bs placed = (insert-IsPlaced n v bs placed, insert-length n v bs)
    after-IsPlaced (if_then c body) bs placed = after_all-IsPlaced body bs placed
    after-IsPlaced (order o) bs placed = (placed, omega arith)

    pub after_all-IsPlaced :
        (ss : Statements N D) (bs : List (Binding N D))
        → IsPlaced bs
        → IsPlaced (environment_after_all bs ss)
          × (length bs ≤ length (environment_after_all bs ss))
    after_all-IsPlaced none_left bs placed = (placed, omega arith)
    after_all-IsPlaced (next s ss) bs placed =
        let one = after-IsPlaced s bs placed in
        let rest = after_all-IsPlaced ss (environment_after bs s) one.0 in
        (rest.0, omega (arith, one.1, rest.1))

  find_binding-name :
      (n : N) (b : Binding N D) (bs : List (Binding N D)) → find_binding n bs ≡ some b → b.name ≡ n
  unfolding find_binding
  find_binding-name n b [] h = absurd (cc h)
  find_binding-name n b (x ∷ bs) h = elim (Bool-cases (e.beq x.name n)) [
    | inl same ↦
        let here : x ≡ b = ground arith in ap (λ z. z.name) (sym here) ∙ (e.beq_iff x.name n).0 same
    | inr other ↦ find_binding-name n b bs (ground arith)
  ]

  -- Different variables have different addresses.
  pub addresses-apart :
      (n k : N) (b x : Binding N D) (bs : List (Binding N D))
      → IsPlaced bs
      → find_binding n bs ≡ some b
      → find_binding k bs ≡ some x
      → b.address ≡ x.address
      → n ≡ k
  addresses-apart n k b x bs placed h h' same =
      let one = placed n b h in
      let other = placed k x h' in
      let equal : b ≡ x = ground (arith, sym one ∙ ap (λ i. get_elem? bs i) same ∙ other) in
      sym (find_binding-name n b bs h) ∙ ap (λ z. z.name) equal ∙ find_binding-name k x bs h'

  -- What is known at the end of a program.
  abbrev pub Bound : List (Binding N D) → N → Type 0
  Bound bs n = (b : Binding N D) × (find_binding n bs ≡ some b)

  bound-Uses :
      (Known : N → Type 0) (x : Expression N D) (bs : List (Binding N D))
      → bound bs x ≡ true
      → ((n : N) → Bound bs n → Known n)
      → Uses Known x
  unfolding bound
  bound-Uses Known (literal v) bs h k = tt
  bound-Uses Known (variable n v) bs h k = k n (has_some (find_binding n bs) h)
  bound-Uses Known (negation child) bs h k = bound-Uses Known child bs h k
  bound-Uses Known (binary o l r) bs h k =
      let both = and_left (bound bs l) (bound bs r) h in
      (bound-Uses Known l bs both.0 k, bound-Uses Known r bs both.1 k)

  mutual
    unfolding scoped environment_after UsesIn

    scoped-UsesIn :
        (Known : N → Type 0) (s : Statement N D) (bs : List (Binding N D))
        → scoped bs s ≡ true
        → ((n : N) → Bound (environment_after bs s) n → Known n)
        → UsesIn Known s
    scoped-UsesIn Known (define_list n l) bs h k = tt
    scoped-UsesIn Known (define n v) bs h k = (
      k n (find-insert_self n v bs),
      bound-Uses Known v bs h λ m found. k m (found.0, find-insert m n v found.0 bs found.1),
    )
    scoped-UsesIn Known (if_then c body) bs h k =
        let both = and_left (bound bs c) (scoped_all bs body) h in
        (
          bound-Uses Known c bs both.0
              (λ m found. k m (found.0, find-after_all m found.0 body bs found.1)),
          scoped_all-UsesIn Known body bs both.1 k,
        )
    scoped-UsesIn Known (order o) bs h k = tt

    pub scoped_all-UsesIn :
        (Known : N → Type 0) (ss : Statements N D) (bs : List (Binding N D))
        → scoped_all bs ss ≡ true
        → ((n : N) → Bound (environment_after_all bs ss) n → Known n)
        → UsesInAll Known ss
    scoped_all-UsesIn Known none_left bs h k = tt
    scoped_all-UsesIn Known (next s ss) bs h k =
        let env = environment_after bs s in
        let both = and_left (scoped bs s) (scoped_all env ss) h in
        (
          scoped-UsesIn Known s bs both.0
              (λ m found. k m (found.0, find-after_all m found.0 ss env found.1)),
          scoped_all-UsesIn Known ss env both.1 k,
        )

module _ {N D : Type 0} where
  -- The code is longer than the stack that it needs.
  mutual
    unfolding depth_of code_of_statement

    depth_of-le :
        (a : N → ℕ) (pc k : ℕ) (s : Statement N D)
        → depth_of s ≤ length (code_of_statement a pc k s)
    depth_of-le a pc k (define_list n l) = omega arith
    depth_of-le a pc k (define n v) = omega (arith, depth-le a v, length-append (code_of a v))
    depth_of-le a pc k (if_then c body) = omega (
      arith,
      depth-le a c,
      length-append (code_of a c),
      depth_of_all-le a (pc + length (code_of a c) + 1) k body,
    )
    depth_of-le a pc k (order o) = omega arith

    pub depth_of_all-le :
        (a : N → ℕ) (pc k : ℕ) (ss : Statements N D)
        → depth_of_all ss ≤ length (code_of_statements a pc k ss)
    depth_of_all-le a pc k none_left = omega arith
    depth_of_all-le a pc k (next s ss) = omega (
      arith,
      depth_of-le a pc k s,
      depth_of_all-le a (pc + length (code_of_statement a pc k s)) _ ss,
      length-append (code_of_statement a pc k s),
    )
