-- ===== src/Rules/Compile/Generated/Statements.antt =====
-- `generateCode` of statements without a body.
use auto_pas.Prelude.{
  ℕ, ◌+◌, max, ◌≤◌, ◌<◌, ◌≡◌, refl, sym, ap₂, ◌∙◌, true, List, [], ◌∷◌, ◌++◌, length, length-append,
  word, sub_word, arith,
}
use mathlib.Core.List.{append_assoc, append-nil}
use auto_pas.Prelude.Classes.{Eq}
use auto_pas.Rules.Vm.{MemoryCell, Instruction, done}
use auto_pas.Rules.Patterns.{ConfigurationOrder}
use auto_pas.Rules.Syntax.{
  Expression, Statement, define_list, define, if_then, order, Statements, none_left, next,
}
use auto_pas.Rules.Syntax.Context.{
  Binding, CodeGenerationContext, insert_binding, free_stack, add_list, add_local_variable,
  add_configuration_order,
}
use auto_pas.Rules.Generate.{generate_statement, generate_statements}
use auto_pas.Rules.Compile.{
  code_of, depth, bound, count, code_of_statement, count_all, code_of_statements, depth_of,
  depth_of_all, orders_of, orders_of_all, environment_after, environment_after_all,
}
use auto_pas.Rules.Compile.Generated.{
  Knows, used, address_of-found, generate_expression-code, depth-pos, depth-le,
}
use auto_pas.Rules.Compile.Generated.Environment.{find-insert, find-insert_self}

module _ {N D : Type 0} ⦃e : Eq N⦄ where
  -- What a statement does to the context.
  pub record After (d : ℕ) (env : List (Binding N D)) (orders : List (ConfigurationOrder D))
      (c c' : CodeGenerationContext N D) : Type 0 where
    pub environment : c'.address_environment ≡ env
    pub current : c'.current_needed_stack ≡ c.current_needed_stack
    pub most : c'.max_needed_stack ≡ max c.max_needed_stack (c.current_needed_stack + d)
    pub applied : c'.configuration_orders ≡ c.configuration_orders ++ orders
    pub initial : c'.initial_num_variables ≡ c.initial_num_variables

  abbrev pub Leaves :
      (a : N → ℕ) → Statement N D → CodeGenerationContext N D → List (Instruction D) → Type 0
  Leaves a s c is =
      (c' : CodeGenerationContext N D) × (generate_statement s c is
        ≡ done (c', is ++ code_of_statement a (length is) (length c.configuration_orders) s))
      × After (depth_of s) (environment_after c.address_environment s) (orders_of s) c c'

  abbrev pub LeavesAll :
      (a : N → ℕ) → Statements N D → CodeGenerationContext N D → List (Instruction D) → Type 0
  LeavesAll a ss c is =
      (c' : CodeGenerationContext N D) × (generate_statements ss c is
        ≡ done (c', is ++ code_of_statements a (length is) (length c.configuration_orders) ss))
      × After (depth_of_all ss) (environment_after_all c.address_environment ss) (orders_of_all ss)
          c c'

  pub list-Leaves :
      (a : N → ℕ) (n : N) (l : List (MemoryCell D)) (c : CodeGenerationContext N D)
      (is : List (Instruction D))
      → c.current_needed_stack ≤ c.max_needed_stack
      → Leaves a (define_list n l) c is
  unfolding generate_statement code_of_statement depth_of environment_after orders_of add_list
  list-Leaves a n l c is low = (
    add_list n l c,
    rw append-nil refl,
    record {
      environment = ground arith;
      current = ground arith;
      most =
          let same : (add_list n l c).max_needed_stack ≡ c.max_needed_stack = ground arith in
          same ∙ omega arith;
      applied =
          let same : (add_list n l c).configuration_orders ≡ c.configuration_orders =
            ground arith in
          same ∙ sym (append-nil _);
      initial = ground arith;
    },
  )

  pub order-Leaves :
      (a : N → ℕ) (o : ConfigurationOrder D) (c : CodeGenerationContext N D)
      (is : List (Instruction D))
      → c.current_needed_stack ≤ c.max_needed_stack
      → Leaves a (order o) c is
  unfolding generate_statement code_of_statement depth_of environment_after orders_of
      add_configuration_order
  order-Leaves a o c is low = (
    record c { configuration_orders = c.configuration_orders ++ o ∷ [] },
    refl,
    record {
      environment = refl;
      current = refl;
      most = omega arith;
      applied = refl;
      initial = refl;
    },
  )

  pub define-Leaves :
      (a : N → ℕ) (n : N) (v : Expression N D) (c : CodeGenerationContext N D)
      (is : List (Instruction D))
      → bound c.address_environment v ≡ true
      → Knows a (insert_binding n v c.address_environment)
      → c.current_needed_stack + length (code_of a v) < word
      → Leaves a (define n v) c is
  unfolding generate_statement code_of_statement depth_of environment_after orders_of
      add_local_variable free_stack
  define-Leaves a n v c is h k small =
      let value =
        generate_expression-code a v c is h
          (λ m b f. k m b (find-insert m n v b c.address_environment f)) small in
      let here = find-insert_self n v c.address_environment in
      let place = address_of-found n here.0 (add_local_variable n v (used (depth v) c)) here.1 in
      let d = depth v in
      let back : sub_word (c.current_needed_stack + 1) 1 ≡ c.current_needed_stack =
        omega (arith, depth-pos v, depth-le a v) in
      (
        record (add_local_variable n v (used d c)) {
          current_needed_stack = c.current_needed_stack;
        },
        rw (value, place, back, k n here.0 here.1) (simp append_assoc),
        record {
          environment = refl;
          current = refl;
          most = refl;
          applied = sym (append-nil _);
          initial = refl;
        },
      )

  mutual
    unfolding orders_of count

    pub length-orders_of : (s : Statement N D) → length (orders_of s) ≡ count s
    length-orders_of (define_list n l) = refl
    length-orders_of (define n v) = refl
    length-orders_of (if_then c body) = length-orders_of_all body
    length-orders_of (order o) = refl

    length-orders_of_all : (ss : Statements N D) → length (orders_of_all ss) ≡ count_all ss
    length-orders_of_all none_left = refl
    length-orders_of_all (next s ss) =
        length-append (orders_of s) (orders_of_all ss)
        ∙ ap₂ (λ m n. m + n) (length-orders_of s) (length-orders_of_all ss)

  abbrev pub HasRoom : CodeGenerationContext N D → List (Instruction D) → Type 0
  HasRoom c code =
      (c.current_needed_stack ≤ c.max_needed_stack) × (c.current_needed_stack + length code < word)
