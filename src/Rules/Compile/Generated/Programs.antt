-- ===== src/Rules/Compile/Generated/Programs.antt =====
-- `generateCode` of a whole program.
use auto_pas.Prelude.{
  ℕ, ◌+◌, ◌<◌, ◌≡◌, refl, sym, ap, ap₂, ◌∙◌, subst, true, List, [], ◌∷◌, ◌++◌, length,
  length-append, none, some, word, add_word, sub_word, arith,
}
use mathlib.Core.List.{append-nil}
use auto_pas.Prelude.Classes.{Eq}
use auto_pas.Rules.Vm.{size_cell, Instruction, Program, done, storea}
use auto_pas.Rules.Syntax.{
  Statement, define_list, define, if_then, order, Statements, none_left, next,
}
use auto_pas.Rules.Syntax.Context.{Binding, CodeGenerationContext, find_binding}
use auto_pas.Rules.Generate.{instruct, plain, set_payload, generate_statement, generate_statements}
use auto_pas.Rules.Compile.{
  code_of, bound, code_of_statement, code_of_statements, depth_of, depth_of_all, orders_of,
  orders_of_all, environment_after, environment_after_all, scoped, scoped_all,
}
use auto_pas.Rules.Compile.Generated.{Knows, and_left}
use auto_pas.Rules.Compile.Generated.Statements.{
  Leaves, LeavesAll, HasRoom, list-Leaves, order-Leaves, define-Leaves,
}
use auto_pas.Rules.Compile.Generated.Environment.{Knows-before_all}
use auto_pas.Rules.Compile.Generated.Branches.{if-Leaves, next-Leaves}
use auto_pas.Rules.Vm.{reserve, halt}
use auto_pas.Rules.Syntax.Context.{get_num_local_variables}
use auto_pas.Rules.Generate.{generate_program}

module _ {N D : Type 0} ⦃e : Eq N⦄ where
  mutual
    unfolding scoped environment_after code_of_statement depth_of orders_of generate_statement

    leaves :
        (a : N → ℕ) (s : Statement N D) (c : CodeGenerationContext N D) (is : List (Instruction D))
        → scoped c.address_environment s ≡ true
        → Knows a (environment_after c.address_environment s)
        → HasRoom c (code_of_statement a (length is) (length c.configuration_orders) s)
        → Leaves a s c is
    leaves a (define_list n l) c is h k room = list-Leaves a n l c is room.0
    leaves a (define n v) c is h k room = define-Leaves a n v c is h k (
        omega (arith, room.1, length-append (code_of a v) (instruct storea (size_cell (a n)) ∷ [])))
    leaves a (if_then condition body) c is h k room =
        if-Leaves a condition body c is h k room λ room'.
          leaves_all a body _ _
            (and_left (bound c.address_environment condition)
              (scoped_all c.address_environment body) h).1
            k room'
    leaves a (order o) c is h k room = order-Leaves a o c is room.0

    leaves_all :
        (a : N → ℕ) (ss : Statements N D) (c : CodeGenerationContext N D)
        (is : List (Instruction D))
        → scoped_all c.address_environment ss ≡ true
        → Knows a (environment_after_all c.address_environment ss)
        → HasRoom c (code_of_statements a (length is) (length c.configuration_orders) ss)
        → LeavesAll a ss c is
    leaves_all a none_left c is h k room = (
      c,
      ap (λ z. done (c, z)) (sym (append-nil is)),
      record {
        environment = refl;
        current = refl;
        most = omega (arith, room.0);
        applied = sym (append-nil c.configuration_orders);
        initial = refl;
      },
    )
    leaves_all a (next s ss) c is h k room =
        let env = environment_after c.address_environment s in
        let h' = and_left (scoped c.address_environment s) (scoped_all env ss) h in
        next-Leaves a s ss c is room
          (λ room'. leaves a s c is h'.0 (Knows-before_all a ss env k) room')
          (λ c₁ is₁ same room'.
            leaves_all a ss c₁ is₁ (subst (λ z. scoped_all z ss ≡ true) (sym same) h'.1)
              (subst (λ z. Knows a (environment_after_all z ss)) (sym same) k) room')

  -- The address of a name, zero if it has none.
  abbrev pub address_in : List (Binding N D) → N → ℕ
  address_in bs n = elim (find_binding n bs) [ none ↦ 0 | some b ↦ b.address ]

  -- A context in which no code was generated yet.
  pub record IsFresh (c : CodeGenerationContext N D) : Type 0 where
    pub current : c.current_needed_stack ≡ 0
    pub most : c.max_needed_stack ≡ 0
    pub orders : c.configuration_orders ≡ []

  abbrev pub final_environment : CodeGenerationContext N D → Statements N D → List (Binding N D)
  final_environment c ss = environment_after_all c.address_environment ss

  abbrev pub body_of : CodeGenerationContext N D → Statements N D → List (Instruction D)
  body_of c ss = code_of_statements (address_in (final_environment c ss)) 1 0 ss

  abbrev pub locals_of : CodeGenerationContext N D → Statements N D → ℕ
  locals_of c ss = sub_word (length (final_environment c ss)) c.initial_num_variables

  abbrev pub program_of : CodeGenerationContext N D → Statements N D → Program D
  program_of c ss = record {
    instructions =
        instruct reserve (size_cell (locals_of c ss)) ∷ (body_of c ss ++ plain halt ∷ []);
    needed_stack_size = add_word (locals_of c ss) (depth_of_all ss);
  }

  generated_program :
      (ss : Statements N D) (c c' : CodeGenerationContext N D) (is : List (Instruction D))
      → generate_statements ss c (instruct reserve (size_cell 0) ∷ [])
        ≡ done (c', instruct reserve (size_cell 0) ∷ is)
      → generate_program ss c
        ≡ done (
          c',
          record {
            instructions =
                instruct reserve (size_cell (get_num_local_variables c')) ∷ (is ++ plain halt ∷ []);
            needed_stack_size = add_word (get_num_local_variables c') c'.max_needed_stack;
          },
        )
  unfolding generate_program set_payload
  generated_program ss c c' is done' = rw done' refl

  -- Of a program whose variables are defined before they are used, and which has less than 2 ^ 64
  -- instructions, a fresh context generates the code of `program_of`, and it then knows the orders
  -- of the program.
  pub generate_program-code :
      (ss : Statements N D) (c : CodeGenerationContext N D)
      → IsFresh c
      → scoped_all c.address_environment ss ≡ true
      → length (body_of c ss) + 2 < word
      → (c' : CodeGenerationContext N D) × (generate_program ss c ≡ done (c', program_of c ss))
        × (c'.configuration_orders ≡ orders_of_all ss)
  unfolding get_num_local_variables
  generate_program-code ss c fresh h small =
      let env = final_environment c ss in
      let a = address_in env in
      let same : code_of_statements a 1 (length c.configuration_orders) ss ≡ body_of c ss =
        ap (λ z. code_of_statements a 1 (length z) ss) fresh.orders in
      let r =
        leaves_all a ss c (instruct reserve (size_cell 0) ∷ []) h
          (λ n b found. ap (λ o. elim o as (λ _. ℕ) [ none ↦ 0 | some x ↦ x.address ]) found)
          (omega (arith, fresh.current), rw same (omega (arith, fresh.current))) in
      let locals : get_num_local_variables r.0 ≡ locals_of c ss =
        ap₂ (λ p q. sub_word (length p) q) r.2.environment r.2.initial in
      let most : r.0.max_needed_stack ≡ depth_of_all ss =
        omega (arith, r.2.most, fresh.current, fresh.most) in
      (
        r.0,
        generated_program ss c r.0 (body_of c ss)
              (r.1 ∙ ap (λ z. done (r.0, instruct reserve (size_cell 0) ∷ z)) same)
            ∙ ap₂
                (λ p q. done (
                  r.0,
                  record {
                    instructions =
                        instruct reserve (size_cell p) ∷ (body_of c ss ++ plain halt ∷ []);
                    needed_stack_size = add_word p q;
                  },
                ))
                locals most,
        r.2.applied ∙ ap (λ z. z ++ orders_of_all ss) fresh.orders,
      )
