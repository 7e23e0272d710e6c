-- ===== src/Rules/Compile/Generated/Branches.antt =====
-- `generateCode` of conditionals and sequences; the jump of a conditional is set at the end.
use auto_pas.Prelude.{
  ℕ, ◌+◌, ◌-◌, max, ◌<◌, ◌≡◌, refl, sym, ap, ap₂, ◌∙◌, subst, true, List, [], ◌∷◌, ◌++◌, length,
  length-append, word, sub_word, arith,
}
use mathlib.Core.List.{append_assoc}
use auto_pas.Prelude.Classes.{Eq}
use auto_pas.Rules.Vm.{MemoryCell, size_cell, Instruction, done, jumpzero}
use auto_pas.Rules.Syntax.{Expression, Statement, if_then, Statements, next}
use auto_pas.Rules.Syntax.Context.{CodeGenerationContext, free_stack}
use auto_pas.Rules.Generate.{
  instruct, plain, set_payload, generate_expression, generate_statement, generate_statements,
}
use auto_pas.Rules.Compile.{
  code_of, depth, bound, count, code_of_statement, code_of_statements, depth_of, depth_of_all,
  orders_of, orders_of_all, environment_after, environment_after_all, scoped, scoped_all,
}
use auto_pas.Rules.Compile.Generated.{
  Knows, used, and_left, generate_expression-code, depth-pos, depth-le,
}
use auto_pas.Rules.Compile.Generated.Environment.{Knows-before_all}
use auto_pas.Rules.Compile.Generated.Statements.{Leaves, LeavesAll, length-orders_of, HasRoom}

module _ {D : Type 0} where
  pub set_payload-length :
      (is : List (Instruction D)) (i : Instruction D) (rest : List (Instruction D))
      (p : MemoryCell D)
      → set_payload (is ++ i ∷ rest) (length is) p ≡ is ++ record i { payload = p } ∷ rest
  unfolding set_payload
  set_payload-length [] i rest p = refl
  set_payload-length (x ∷ is) i rest p = ap (λ xs. x ∷ xs) (set_payload-length is i rest p)

  length-jumping :
      (is test : List (Instruction D)) (i : Instruction D)
      → length (is ++ test ++ i ∷ []) ≡ length is + length test + 1
  length-jumping is test i =
      length-append (is ++ test) (i ∷ []) ∙ ap (λ n. n + 1) (length-append is test)

  -- The jump of an `if` is set once its target is known.
  patched :
      (is test inner : List (Instruction D)) (k : ℕ)
      → length is + length test + 1 ≡ k
      → set_payload
          (is ++ test ++ plain jumpzero ∷ [] ++ inner)
          (k - 1)
          (size_cell (length (is ++ test ++ plain jumpzero ∷ [] ++ inner)))
        ≡ is ++ (test ++ instruct jumpzero (size_cell (k + length inner)) ∷ inner)
  patched is test inner k same =
      let place : k - 1 ≡ length (is ++ test) = omega (arith, length-append is test) in
      let target : length (is ++ test ++ plain jumpzero ∷ [] ++ inner) ≡ k + length inner =
        length-append (is ++ test ++ plain jumpzero ∷ []) inner
        ∙ ap (λ n. n + length inner) (length-jumping is test (plain jumpzero) ∙ same) in
      rw (target, place, append_assoc)
        (set_payload-length (is ++ test) (plain jumpzero) inner (size_cell (k + length inner))
          ∙ append_assoc is test _)

module _ {N D : Type 0} ⦃e : Eq N⦄ where
  -- After the condition the cell of its value is free again.
  abbrev tested : ℕ → CodeGenerationContext N D → CodeGenerationContext N D
  tested d c = record c { max_needed_stack = max c.max_needed_stack (c.current_needed_stack + d) }

  generated_if :
      (condition : Expression N D) (body : Statements N D) (c c₁ c' : CodeGenerationContext N D)
      (is is₁ is₂ : List (Instruction D))
      → generate_expression condition c is ≡ done (c₁, is₁)
      → generate_statements body (free_stack 1 c₁) (is₁ ++ plain jumpzero ∷ []) ≡ done (c', is₂)
      → generate_statement (if_then condition body) c is
        ≡ done
            (c', set_payload is₂ (length (is₁ ++ plain jumpzero ∷ []) - 1) (size_cell (length is₂)))
  unfolding generate_statement
  generated_if condition body c c₁ c' is is₁ is₂ value rest = rw (value, rest) refl

  free_stack-tested :
      (d : ℕ) (c : CodeGenerationContext N D)
      → c.current_needed_stack + 1 < word
      → free_stack 1 (used d c) ≡ tested d c
  unfolding free_stack
  free_stack-tested d c small =
      let back : sub_word (c.current_needed_stack + 1) 1 ≡ c.current_needed_stack = omega arith in
      ap (λ z. record (used d c) { current_needed_stack = z }) back

  pub if-Leaves :
      (a : N → ℕ) (condition : Expression N D) (body : Statements N D)
      (c : CodeGenerationContext N D) (is : List (Instruction D))
      → scoped c.address_environment (if_then condition body) ≡ true
      → Knows a (environment_after_all c.address_environment body)
      → HasRoom c
          (code_of_statement a (length is) (length c.configuration_orders) (if_then condition body))
      → (HasRoom (tested (depth condition) c) (
            code_of_statements a
              (length (is ++ code_of a condition ++ plain jumpzero ∷ []))
              (length c.configuration_orders)
              body)
          → LeavesAll a body
              (tested (depth condition) c)
              (is ++ code_of a condition ++ plain jumpzero ∷ []))
      → Leaves a (if_then condition body) c is
  unfolding generate_statement code_of_statement depth_of environment_after orders_of scoped
      free_stack
  if-Leaves a condition body c is h k room inside =
      let test = code_of a condition in
      let start = length is + length test + 1 in
      let k₀ = length c.configuration_orders in
      let inner = code_of_statements a start k₀ body in
      let same = length-jumping is test (plain jumpzero) in
      let long =
        length-append test (instruct jumpzero (size_cell (start + length inner)) ∷ inner) in
      let pos = depth-pos condition in
      let deep = depth-le a condition in
      let h' =
        and_left (bound c.address_environment condition) (scoped_all c.address_environment body)
          h in
      let value =
        generate_expression-code a condition c is h'.0
          (Knows-before_all a body c.address_environment k) (omega (arith, long, room.1)) in
      let room' : HasRoom (tested (depth condition) c)
          (code_of_statements a (length (is ++ test ++ plain jumpzero ∷ [])) k₀ body) =
        (omega (arith, room.0), rw same (omega (arith, long, room.1))) in
      let r = inside room' in
      let free = free_stack-tested (depth condition) c (omega (arith, room.1, long)) in
      let rest =
        subst
          (λ z.
            generate_statements body z (is ++ test ++ plain jumpzero ∷ [])
            ≡ done (r.0, is ++ test ++ plain jumpzero ∷ [] ++ inner))
          (sym free)
          (subst
            (λ z.
              generate_statements body (tested (depth condition) c)
                (is ++ test ++ plain jumpzero ∷ [])
              ≡ done (r.0, is ++ test ++ plain jumpzero ∷ [] ++ code_of_statements a z k₀ body))
            same r.1) in
      (
        r.0,
        generated_if condition body c (used (depth condition) c) r.0 is (is ++ test) _ value rest
            ∙ ap (λ z. done (r.0, z))
                (subst
                  (λ z.
                    set_payload (is ++ test ++ plain jumpzero ∷ [] ++ inner) (z - 1)
                      (size_cell (length (is ++ test ++ plain jumpzero ∷ [] ++ inner)))
                    ≡ is ++ (test ++ instruct jumpzero (size_cell (start + length inner)) ∷ inner))
                  (sym same) (patched is test inner start refl)),
        record {
          environment = r.2.environment;
          current = r.2.current;
          most = r.2.most ∙ omega arith;
          applied = r.2.applied;
          initial = r.2.initial;
        },
      )

  generated_next :
      (s : Statement N D) (ss : Statements N D) (c c₁ c' : CodeGenerationContext N D)
      (is is₁ is₂ : List (Instruction D))
      → generate_statement s c is ≡ done (c₁, is₁)
      → generate_statements ss c₁ is₁ ≡ done (c', is₂)
      → generate_statements (next s ss) c is ≡ done (c', is₂)
  unfolding generate_statements
  generated_next s ss c c₁ c' is is₁ is₂ one rest = rw (one, rest) refl

  pub next-Leaves :
      (a : N → ℕ) (s : Statement N D) (ss : Statements N D) (c : CodeGenerationContext N D)
      (is : List (Instruction D))
      → HasRoom c (code_of_statements a (length is) (length c.configuration_orders) (next s ss))
      → (HasRoom c (code_of_statement a (length is) (length c.configuration_orders) s)
          → Leaves a s c is)
      → ((c₁ : CodeGenerationContext N D) (is₁ : List (Instruction D))
          → c₁.address_environment ≡ environment_after c.address_environment s
          → HasRoom c₁ (code_of_statements a (length is₁) (length c₁.configuration_orders) ss)
          → LeavesAll a ss c₁ is₁)
      → LeavesAll a (next s ss) c is
  unfolding generate_statements code_of_statements depth_of_all environment_after_all orders_of_all
  next-Leaves a s ss c is room head tail =
      let k₀ = length c.configuration_orders in
      let first = code_of_statement a (length is) k₀ s in
      let others = code_of_statements a (length is + length first) (k₀ + count s) ss in
      let long = length-append first others in
      let one = head (room.0, omega (arith, room.1, long)) in
      let c₁ = one.0 in
      let after = one.2 in
      let offset = length-append is first in
      let orders : length c₁.configuration_orders ≡ k₀ + count s =
        ap length after.applied
        ∙ length-append c.configuration_orders (orders_of s)
        ∙ ap (λ n. k₀ + n) (length-orders_of s) in
      let same : code_of_statements a (length (is ++ first)) (length c₁.configuration_orders) ss
          ≡ others =
        ap₂ (λ p q. code_of_statements a p q ss) offset orders in
      let room₁ : HasRoom c₁
          (code_of_statements a (length (is ++ first)) (length c₁.configuration_orders) ss) =
        (
          omega (arith, after.current, after.most, room.0),
          rw same (omega (arith, after.current, room.1, long)),
        ) in
      let rest = tail c₁ (is ++ first) after.environment room₁ in
      (
        rest.0,
        generated_next s ss c c₁ rest.0 is (is ++ first) _ one.1 rest.1
            ∙ ap (λ z. done (rest.0, z))
                (ap (λ z. is ++ first ++ z) same ∙ append_assoc is first others),
        record {
          environment = rest.2.environment ∙ ap (λ z. environment_after_all z ss) after.environment;
          current = rest.2.current ∙ after.current;
          most = rest.2.most ∙ omega (arith, after.current, after.most);
          applied =
              rest.2.applied
              ∙ ap (λ z. z ++ orders_of_all ss) after.applied
              ∙ append_assoc c.configuration_orders (orders_of s) (orders_of_all ss);
          initial = rest.2.initial ∙ after.initial;
        },
      )
