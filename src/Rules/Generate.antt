-- ===== src/Rules/Generate.antt =====
-- `getType` and `generateCode` of RuleBasedProgramTree.h and .cpp. Code is appended to the
-- instructions that are there; `Cmd` of an operator stands for the map from operators to commands.
use auto_pas.Prelude.{ℕ, ◌-◌, List, [], ◌∷◌, ◌++◌, length, add_word}
use auto_pas.Prelude.Classes.{Eq}
use auto_pas.Rules.Vm.{
  MemoryCell, bool_cell, double_cell, size_cell, container_cell, traversal_cell,
  load_estimator_cell, data_layout_cell, newton3_cell, Cmd, loadc, loada, storea, reserve, less,
  greater, jumpzero, outputc, halt, and_cmd, or_cmd, mul, div, add, sub, not_cmd, Instruction,
  Program, Reply, done, ◌>>=◌,
}
use auto_pas.Rules.Syntax.{
  RuleType, bool_type, double_type, size_type, container_type, traversal_type, load_estimator_type,
  data_layout_type, newton3_type, BinaryOperator, op_less, op_greater, op_and, op_or, op_add,
  op_sub, op_mul, op_div, Expression, literal, variable, negation, binary, Statement, define_list,
  define, if_then, order, Statements, none_left, next,
}
use auto_pas.Rules.Syntax.Context.{
  CodeGenerationContext, allocate_stack, free_stack, add_local_variable, address_of, add_list,
  add_configuration_order, get_num_local_variables,
}

abbrev pub type_of : {D : Type 0} → MemoryCell D → RuleType
type_of (bool_cell b) = bool_type
type_of (double_cell x) = double_type
type_of (size_cell n) = size_type
type_of (container_cell k) = container_type
type_of (traversal_cell k) = traversal_type
type_of (load_estimator_cell k) = load_estimator_type
type_of (data_layout_cell k) = data_layout_type
type_of (newton3_cell k) = newton3_type

abbrev pub arithmetic_type : RuleType → RuleType → RuleType
arithmetic_type size_type size_type = size_type
arithmetic_type s t = double_type

abbrev pub operator_type : BinaryOperator → RuleType → RuleType → RuleType
operator_type op_less s t = bool_type
operator_type op_greater s t = bool_type
operator_type op_and s t = bool_type
operator_type op_or s t = bool_type
operator_type o s t = arithmetic_type s t

unfoldable pub get_type : {N D : Type 0} → Expression N D → RuleType
get_type (literal v) = type_of v
get_type (variable n v) = get_type v
get_type (negation e) = bool_type
get_type (binary o l r) = operator_type o (get_type l) (get_type r)

abbrev pub op_code : BinaryOperator → Cmd
op_code op_less = less
op_code op_greater = greater
op_code op_and = and_cmd
op_code op_or = or_cmd
op_code op_add = add
op_code op_sub = sub
op_code op_mul = mul
op_code op_div = div

module _ {D : Type 0} where
  -- `Instruction` with its default payload.
  abbrev pub instruct : Cmd → MemoryCell D → Instruction D
  instruct c p = record { cmd = c; payload = p }

  abbrev pub plain : Cmd → Instruction D
  plain c = instruct c (size_cell 0)

  -- `instructions[i].payload = p`.
  unfoldable pub set_payload : List (Instruction D) → ℕ → MemoryCell D → List (Instruction D)
  set_payload [] i p = []
  set_payload (x ∷ xs) ℕ.zero p = record x { payload = p } ∷ xs
  set_payload (x ∷ xs) (ℕ.suc i) p = x ∷ set_payload xs i p

module _ {N D : Type 0} ⦃e : Eq N⦄ where
  unfoldable pub generate_expression :
      Expression N D
      → CodeGenerationContext N D
      → List (Instruction D)
      → Reply (CodeGenerationContext N D × List (Instruction D))
  unfolding allocate_stack free_stack address_of
  generate_expression (literal v) c is = done (allocate_stack 1 c, is ++ instruct loadc v ∷ [])
  generate_expression (variable n v) c is = do
    address ← address_of n c
    done (allocate_stack 1 c, is ++ instruct loada (size_cell address) ∷ [])
  generate_expression (negation child) c is = do
    r ← generate_expression child c is
    done (r.0, r.1 ++ plain not_cmd ∷ [])
  generate_expression (binary o left right) c is = do
    l ← generate_expression left c is
    r ← generate_expression right l.0 l.1
    done (free_stack 1 r.0, r.1 ++ plain (op_code o) ∷ [])

  unfoldable mutual
    unfolding generate_expression set_payload add_list add_local_variable address_of free_stack
        add_configuration_order

    pub generate_statement :
        Statement N D
        → CodeGenerationContext N D
        → List (Instruction D)
        → Reply (CodeGenerationContext N D × List (Instruction D))
    generate_statement (define_list n l) c is = done (add_list n l c, is)
    generate_statement (define n v) c is = do
      r ← generate_expression v c is
      let c' = add_local_variable n v r.0
      address ← address_of n c'
      done (free_stack 1 c', r.1 ++ instruct storea (size_cell address) ∷ [])
    generate_statement (if_then condition consequences) c is = do
      r ← generate_expression condition c is
      let jumping = r.1 ++ plain jumpzero ∷ []
      rest ← generate_statements consequences (free_stack 1 r.0) jumping
      done (rest.0, set_payload rest.1 (length jumping - 1) (size_cell (length rest.1)))
    generate_statement (order o) c is =
        let r = add_configuration_order o c in
        done (r.0, is ++ instruct outputc (size_cell r.1) ∷ [])

    pub generate_statements :
        Statements N D
        → CodeGenerationContext N D
        → List (Instruction D)
        → Reply (CodeGenerationContext N D × List (Instruction D))
    generate_statements none_left c is = done (c, is)
    generate_statements (next s ss) c is = do
      r ← generate_statement s c is
      generate_statements ss r.0 r.1

  -- `generateCode` of the whole tree: the program, and the context that `parse` handed over.
  unfoldable pub generate_program :
      Statements N D → CodeGenerationContext N D → Reply (CodeGenerationContext N D × Program D)
  unfolding generate_statements set_payload get_num_local_variables
  generate_program statements c = do
    r ← generate_statements statements c (instruct reserve (size_cell 0) ∷ [])
    let num_locals = get_num_local_variables r.0
    done (
      r.0,
      record {
        instructions = set_payload r.1 0 (size_cell num_locals) ++ plain halt ∷ [];
        needed_stack_size = add_word num_locals r.0.max_needed_stack;
      },
    )
