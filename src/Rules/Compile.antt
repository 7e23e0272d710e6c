-- ===== src/Rules/Compile.antt =====
-- The code that `generateCode` leaves, written out for given stack addresses `a` of the variables.
pub mod Generated
pub mod Scoping
use auto_pas.Prelude.{
  ℕ, suc, ◌+◌, max, Bool, true, false, ◌&&◌, List, [], ◌∷◌, ◌++◌, length, none, some,
}
use auto_pas.Prelude.Classes.{Eq}
use auto_pas.Rules.Vm.{
  MemoryCell, size_cell, loadc, loada, storea, jumpzero, outputc, not_cmd, Instruction,
}
use auto_pas.Rules.Patterns.{ConfigurationOrder}
use auto_pas.Rules.Syntax.{
  Expression, literal, variable, negation, binary, Statement, define_list, define, if_then, order,
  Statements, none_left, next,
}
use auto_pas.Rules.Syntax.Context.{Binding, find_binding, insert_binding}
use auto_pas.Rules.Generate.{instruct, plain, op_code}

module _ {N D : Type 0} where
  unfoldable pub code_of : (N → ℕ) → Expression N D → List (Instruction D)
  code_of a (literal v) = instruct loadc v ∷ []
  code_of a (variable n v) = instruct loada (size_cell (a n)) ∷ []
  code_of a (negation child) = code_of a child ++ plain not_cmd ∷ []
  code_of a (binary o l r) = code_of a l ++ code_of a r ++ plain (op_code o) ∷ []

  -- The cells that the evaluation of an expression needs.
  unfoldable pub depth : Expression N D → ℕ
  depth (literal v) = 1
  depth (variable n v) = 1
  depth (negation child) = depth child
  depth (binary o l r) = max (depth l) (1 + depth r)

  unfoldable mutual
    pub count : Statement N D → ℕ
    count (define_list n l) = 0
    count (define n v) = 0
    count (if_then c body) = count_all body
    count (order o) = 1

    pub count_all : Statements N D → ℕ
    count_all none_left = 0
    count_all (next s ss) = count s + count_all ss

  unfoldable mutual
    unfolding code_of count

    pub code_of_statement : (N → ℕ) → ℕ → ℕ → Statement N D → List (Instruction D)
    code_of_statement a offset k (define_list n l) = []
    code_of_statement a offset k (define n v) =
        code_of a v ++ instruct storea (size_cell (a n)) ∷ []
    code_of_statement a offset k (if_then condition body) =
        let test = code_of a condition in
        let start = offset + length test + 1 in
        let inner = code_of_statements a start k body in
        test ++ instruct jumpzero (size_cell (start + length inner)) ∷ inner
    code_of_statement a offset k (order o) = instruct outputc (size_cell k) ∷ []

    pub code_of_statements : (N → ℕ) → ℕ → ℕ → Statements N D → List (Instruction D)
    code_of_statements a offset k none_left = []
    code_of_statements a offset k (next s ss) =
        let first = code_of_statement a offset k s in
        first ++ code_of_statements a (offset + length first) (k + count s) ss

  unfoldable mutual
    unfolding depth

    pub depth_of : Statement N D → ℕ
    depth_of (define_list n l) = 0
    depth_of (define n v) = depth v
    depth_of (if_then c body) = max (depth c) (depth_of_all body)
    depth_of (order o) = 0

    pub depth_of_all : Statements N D → ℕ
    depth_of_all none_left = 0
    depth_of_all (next s ss) = max (depth_of s) (depth_of_all ss)

  -- The orders of a program, in the order of their indices.
  unfoldable mutual
    pub orders_of : Statement N D → List (ConfigurationOrder D)
    orders_of (define_list n l) = []
    orders_of (define n v) = []
    orders_of (if_then c body) = orders_of_all body
    orders_of (order o) = o ∷ []

    pub orders_of_all : Statements N D → List (ConfigurationOrder D)
    orders_of_all none_left = []
    orders_of_all (next s ss) = orders_of s ++ orders_of_all ss

module _ {N D : Type 0} ⦃e : Eq N⦄ where
  abbrev pub is_bound : N → List (Binding N D) → Bool
  is_bound n bs = elim (find_binding n bs) [ none ↦ false | some b ↦ true ]

  -- Every variable of the expression has an address.
  unfoldable pub bound : List (Binding N D) → Expression N D → Bool
  unfolding find_binding
  bound bs (literal v) = true
  bound bs (variable n v) = is_bound n bs
  bound bs (negation child) = bound bs child
  bound bs (binary o l r) = bound bs l && bound bs r

  -- The environment after a statement.
  unfoldable mutual
    unfolding insert_binding

    pub environment_after : List (Binding N D) → Statement N D → List (Binding N D)
    environment_after bs (define_list n l) = bs
    environment_after bs (define n v) = insert_binding n v bs
    environment_after bs (if_then c body) = environment_after_all bs body
    environment_after bs (order o) = bs

    pub environment_after_all : List (Binding N D) → Statements N D → List (Binding N D)
    environment_after_all bs none_left = bs
    environment_after_all bs (next s ss) = environment_after_all (environment_after bs s) ss

  -- Every variable is defined before it is used.
  unfoldable mutual
    unfolding bound environment_after

    pub scoped : List (Binding N D) → Statement N D → Bool
    scoped bs (define_list n l) = true
    scoped bs (define n v) = bound bs v
    scoped bs (if_then c body) = bound bs c && scoped_all bs body
    scoped bs (order o) = true

    pub scoped_all : List (Binding N D) → Statements N D → Bool
    scoped_all bs none_left = true
    scoped_all bs (next s ss) = scoped bs s && scoped_all (environment_after bs s) ss
