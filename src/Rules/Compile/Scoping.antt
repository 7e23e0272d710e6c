-- ===== src/Rules/Compile/Scoping.antt =====
-- `generateCode` fails exactly when a variable is used that has no address.
use auto_pas.Prelude.{
  ◌-◌, ◌≡◌, ◌⊎◌, inl, inr, refl, ap, subst, Bool, true, false, Option-cases, List, [], ◌∷◌, ◌++◌,
  length, none, some, add_word,
}
use native.Mathlib.Omega.{arith}
use auto_pas.Prelude.Classes.{Eq}
use auto_pas.Rules.Vm.{
  loada, not_cmd, halt, size_cell, jumpzero, storea, reserve, Instruction, Program, Reply, done,
  fault, outside,
}
use auto_pas.Rules.Syntax.{
  Expression, literal, variable, negation, binary, Statement, define_list, define, if_then, order,
  Statements, none_left, next,
}
use auto_pas.Rules.Syntax.Context.{
  Binding, CodeGenerationContext, find_binding, insert_binding, get_num_local_variables,
  allocate_stack, free_stack, add_list, add_local_variable, address_of, add_configuration_order,
}
use auto_pas.Rules.Generate.{
  op_code, instruct, plain, set_payload, generate_expression, generate_statement,
  generate_statements, generate_program,
}
use auto_pas.Rules.Compile.{bound, scoped, scoped_all, environment_after, environment_after_all}
use auto_pas.Rules.Compile.Generated.{address_of-found}
use auto_pas.Rules.Compile.Generated.Environment.{find-insert_self}

module _ {N D : Type 0} ⦃e : Eq N⦄ where
  -- Either the test holds and code is generated, with the address environment `env` after it, or the
  -- test fails and the look-up of a variable throws.
  abbrev Generates :
      Bool → List (Binding N D) → Reply (CodeGenerationContext N D × List (Instruction D)) → Type 0
  Generates test env r =
      ((test ≡ true)
        × ((c' : CodeGenerationContext N D) × (is' : List (Instruction D)) × (r ≡ done (c', is'))
            × (c'.address_environment ≡ env)))
      ⊎ ((test ≡ false) × (r ≡ fault outside))

  expression-Generates :
      (x : Expression N D) (c : CodeGenerationContext N D) (is : List (Instruction D))
      → Generates (bound c.address_environment x) c.address_environment (generate_expression x c is)
  unfolding generate_expression bound allocate_stack free_stack address_of
  expression-Generates (literal v) c is = inl (refl, (_, _, refl, refl))
  expression-Generates (variable n v) c is =
      elim (Option-cases (find_binding n c.address_environment)) [
        | inl absent ↦ inr (
          ap (λ o. elim o as (λ _. Bool) [ none ↦ false | some b ↦ true ]) absent,
          rw (address_of, absent) refl,
        )
        | inr (b, found) ↦ inl (
          ap (λ o. elim o as (λ _. Bool) [ none ↦ false | some b ↦ true ]) found,
          (
            allocate_stack 1 c,
            is ++ instruct loada (size_cell b.address) ∷ [],
            rw (address_of, found) refl,
            refl,
          ),
        )
      ]
  expression-Generates (negation child) c is = elim (expression-Generates child c is) [
    | inl (h, (c', is', same, env)) ↦ inl (h, (c', is' ++ plain not_cmd ∷ [], rw same refl, env))
    | inr (h, fails) ↦ inr (h, rw fails refl)
  ]
  expression-Generates (binary o l r) c is = elim (expression-Generates l c is) [
    | inl (h, (c₁, is₁, same, env)) ↦
        elim (subst (λ z. Generates (bound z r) z (generate_expression r c₁ is₁)) env
          (expression-Generates r c₁ is₁)) [
            | inl (h', (c₂, is₂, same', env')) ↦ inl (
              rw (h, h') refl,
              (free_stack 1 c₂, is₂ ++ plain (op_code o) ∷ [], rw (same, same') refl, env'),
            )
            | inr (h', fails) ↦ inr (rw (h, h') refl, rw (same, fails) refl)
          ]
    | inr (h, fails) ↦ inr (rw h refl, rw fails refl)
  ]

  mutual
    unfolding generate_statement generate_statements scoped environment_after add_list
        add_local_variable free_stack add_configuration_order

    statement-Generates :
        (s : Statement N D) (c : CodeGenerationContext N D) (is : List (Instruction D))
        → Generates
            (scoped c.address_environment s)
            (environment_after c.address_environment s)
            (generate_statement s c is)
    statement-Generates (define_list n l) c is =
        inl (refl, (add_list n l c, is, refl, ground arith))
    statement-Generates (define n v) c is = elim (expression-Generates v c is) [
      | inl (h, (c₁, is₁, same, env)) ↦
          let c₂ = add_local_variable n v c₁ in
          let here = find-insert_self n v c₁.address_environment in
          inl (
            h,
            (
              free_stack 1 c₂,
              is₁ ++ instruct storea (size_cell here.0.address) ∷ [],
              rw (same, address_of-found n here.0 c₂ here.1) refl,
              ap (insert_binding n v) env,
            ),
          )
      | inr (h, fails) ↦ inr (h, rw fails refl)
    ]
    statement-Generates (if_then condition body) c is = elim (expression-Generates condition c is) [
      | inl (h, (c₁, is₁, same, env)) ↦
          elim (subst
            (λ z.
              Generates (scoped_all z body) (environment_after_all z body)
                (generate_statements body (free_stack 1 c₁) (is₁ ++ plain jumpzero ∷ [])))
            env (statements-Generates body (free_stack 1 c₁) (is₁ ++ plain jumpzero ∷ []))) [
              | inl (h', (c₂, is₂, same', env')) ↦ inl (
                rw (h, h') refl,
                (
                  c₂,
                  set_payload is₂ (length (is₁ ++ plain jumpzero ∷ []) - 1)
                      (size_cell (length is₂)),
                  rw (same, same') refl,
                  env',
                ),
              )
              | inr (h', fails) ↦ inr (rw (h, h') refl, rw (same, fails) refl)
            ]
      | inr (h, fails) ↦ inr (rw h refl, rw fails refl)
    ]
    statement-Generates (order o) c is =
        inl (refl, ((add_configuration_order o c).0, _, refl, refl))

    statements-Generates :
        (ss : Statements N D) (c : CodeGenerationContext N D) (is : List (Instruction D))
        → Generates
            (scoped_all c.address_environment ss)
            (environment_after_all c.address_environment ss)
            (generate_statements ss c is)
    statements-Generates none_left c is = inl (refl, (c, is, refl, refl))
    statements-Generates (next s ss) c is = elim (statement-Generates s c is) [
      | inl (h, (c₁, is₁, same, env)) ↦
          elim (subst
            (λ z.
              Generates (scoped_all z ss) (environment_after_all z ss)
                (generate_statements ss c₁ is₁))
            env (statements-Generates ss c₁ is₁)) [
              | inl (h', (c₂, is₂, same', env')) ↦
                  inl (rw (h, h') refl, (c₂, is₂, rw (same, same') refl, env'))
              | inr (h', fails) ↦ inr (rw (h, h') refl, rw (same, fails) refl)
            ]
      | inr (h, fails) ↦ inr (rw h refl, rw fails refl)
    ]

  -- `generateCode` of a program gives a program if every variable has an address or a definition
  -- before its use, and else throws the exception of `map::at`: there is no third outcome.
  pub generate_program-scoped :
      (ss : Statements N D) (c : CodeGenerationContext N D)
      → ((scoped_all c.address_environment ss ≡ true)
          × ((c' : CodeGenerationContext N D) × (p : Program D) × (generate_program ss c
                ≡ done (c', p))))
        ⊎ ((scoped_all c.address_environment ss ≡ false) × (generate_program ss c ≡ fault outside))
  unfolding generate_program
  generate_program-scoped ss c =
      elim (statements-Generates ss c (instruct reserve (size_cell 0) ∷ [])) [
        | inl (h, (c', is', same, env)) ↦ inl (
          h,
          (
            c',
            record {
              instructions =
                  set_payload is' 0 (size_cell (get_num_local_variables c')) ++ plain halt ∷ [];
              needed_stack_size = add_word (get_num_local_variables c') c'.max_needed_stack;
            },
            rw same refl,
          ),
        )
        | inr (h, fails) ↦ inr (h, rw fails refl)
      ]
