-- ===== src/Rules/Correct/Halting.antt =====
-- The generated code has forward jumps only, so the rules of a program always come to an end.
use auto_pas.Prelude.{ℕ, ◌+◌, subst, List, [], ◌∷◌, ◌++◌, length, arith}
use auto_pas.Rules.Vm.{size_cell, jumpzero, storea, not_cmd, Instruction, MemoryCell}
use auto_pas.Rules.Syntax.{
  op_less, op_greater, op_and, op_or, op_add, op_sub, op_mul, op_div, BinaryOperator, Expression,
  literal, variable, negation, binary, Statement, define_list, define, if_then, order, Statements,
  none_left, next,
}
use auto_pas.Rules.Generate.{instruct, plain, op_code}
use auto_pas.Rules.Compile.{code_of, code_of_statement, code_of_statements, count}
use auto_pas.Rules.Execute.Halting.{ForwardFrom, JumpsPast}

module _ {D : Type 0} where
  pub ForwardFrom-append :
      (i : ℕ) (xs ys : List (Instruction D))
      → ForwardFrom i xs
      → ForwardFrom (i + length xs) ys
      → ForwardFrom i (xs ++ ys)
  ForwardFrom-append i [] ys h k = subst (λ z. ForwardFrom z ys) (omega arith) k
  ForwardFrom-append i (x ∷ xs) ys h k =
      (h.0, ForwardFrom-append (i + 1) xs ys h.1 (subst (λ z. ForwardFrom z ys) (omega arith) k))

  op_code-JumpsPast : (i : ℕ) (o : BinaryOperator) (p : MemoryCell D) → JumpsPast i (op_code o) p
  op_code-JumpsPast i op_less p = tt
  op_code-JumpsPast i op_greater p = tt
  op_code-JumpsPast i op_and p = tt
  op_code-JumpsPast i op_or p = tt
  op_code-JumpsPast i op_add p = tt
  op_code-JumpsPast i op_sub p = tt
  op_code-JumpsPast i op_mul p = tt
  op_code-JumpsPast i op_div p = tt

module _ {N D : Type 0} (a : N → ℕ) where
  code_of-ForwardFrom : (x : Expression N D) (i : ℕ) → ForwardFrom i (code_of a x)
  unfolding code_of
  code_of-ForwardFrom (literal v) i = (tt, tt)
  code_of-ForwardFrom (variable n v) i = (tt, tt)
  code_of-ForwardFrom (negation child) i =
      ForwardFrom-append i (code_of a child) (plain not_cmd ∷ []) (code_of-ForwardFrom child i)
        (tt, tt)
  code_of-ForwardFrom (binary o l r) i =
      let both =
        ForwardFrom-append i (code_of a l) (code_of a r) (code_of-ForwardFrom l i)
          (code_of-ForwardFrom r (i + length (code_of a l))) in
      ForwardFrom-append i (code_of a l ++ code_of a r) (plain (op_code o) ∷ []) both
        (op_code-JumpsPast (i + length (code_of a l ++ code_of a r)) o (size_cell 0), tt)

  mutual
    unfolding code_of_statement

    code_of_statement-ForwardFrom :
        (s : Statement N D) (i k : ℕ) → ForwardFrom i (code_of_statement a i k s)
    code_of_statement-ForwardFrom (define_list n l) i k = tt
    code_of_statement-ForwardFrom (define n v) i k =
        ForwardFrom-append i (code_of a v) (instruct storea (size_cell (a n)) ∷ [])
          (code_of-ForwardFrom v i) (tt, tt)
    code_of_statement-ForwardFrom (if_then c body) i k =
        let start = i + length (code_of a c) + 1 in
        let inner = code_of_statements a start k body in
        ForwardFrom-append i (code_of a c)
          (instruct jumpzero (size_cell (start + length inner)) ∷ inner) (code_of-ForwardFrom c i)
          (omega arith, code_of_statements-ForwardFrom body start k)
    code_of_statement-ForwardFrom (order o) i k = (tt, tt)

    pub code_of_statements-ForwardFrom :
        (ss : Statements N D) (i k : ℕ) → ForwardFrom i (code_of_statements a i k ss)
    code_of_statements-ForwardFrom none_left i k = tt
    code_of_statements-ForwardFrom (next s ss) i k =
        let first = code_of_statement a i k s in
        ForwardFrom-append i first (code_of_statements a (i + length first) (k + count s) ss)
          (code_of_statement-ForwardFrom s i k)
          (code_of_statements-ForwardFrom ss (i + length first) (k + count s))
