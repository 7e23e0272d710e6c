-- ===== src/Rules/Meaning.antt =====
-- What a rule program means: an interpreter over stores, which the generated code has to follow. A
-- variable whose definition was not executed reads `false`.
use auto_pas.Prelude.{not, if◌then◌else◌, List, [], ◌∷◌, ◌++◌}
use auto_pas.Prelude.Classes.{Eq}
use auto_pas.Rules.Vm.{
  MemoryCell, bool_cell, Reply, done, ◌>>=◌, Doubles, is_less, is_greater, times, over, plus, minus,
  get_bool, compare_cells, compute_binary,
}
use auto_pas.Rules.Patterns.{ConfigurationOrder}
use auto_pas.Rules.Syntax.{
  BinaryOperator, op_less, op_greater, op_and, op_or, op_add, op_sub, op_mul, op_div, Expression,
  literal, variable, negation, binary, Statement, define_list, define, if_then, order, Statements,
  none_left, next,
}

abbrev pub Store : Type 0 → Type 0 → Type 0
Store N D = N → MemoryCell D

abbrev pub update : {N D : Type 0} → ⦃e : Eq N⦄ → Store N D → N → MemoryCell D → Store N D
update ⦃e⦄ store n v k = if e.beq n k then v else store k

module _ {D : Type 0} (doubles : Doubles D) where
  -- Of two conditions, the right one is looked at first.
  abbrev pub apply : BinaryOperator → MemoryCell D → MemoryCell D → Reply (MemoryCell D)
  apply op_less l r = do b ← compare_cells doubles is_less l r; done (bool_cell b)
  apply op_greater l r = do b ← compare_cells doubles is_greater l r; done (bool_cell b)
  apply op_and l r = do
    right ← get_bool r
    b ← if not right then done right else get_bool l
    done (bool_cell b)
  apply op_or l r = do
    right ← get_bool r
    b ← if right then done right else get_bool l
    done (bool_cell b)
  apply op_add l r = compute_binary doubles plus l r
  apply op_sub l r = compute_binary doubles minus l r
  apply op_mul l r = compute_binary doubles times l r
  apply op_div l r = compute_binary doubles over l r

  unfoldable pub eval : {N : Type 0} → Store N D → Expression N D → Reply (MemoryCell D)
  eval store (literal v) = done v
  eval store (variable n v) = done (store n)
  eval store (negation child) = do v ← eval store child; b ← get_bool v; done (bool_cell (not b))
  eval store (binary o left right) = do l ← eval store left; r ← eval store right; apply o l r

module _ {N D : Type 0} ⦃e : Eq N⦄ (doubles : Doubles D) where
  -- The store after a statement, and the orders that it applies.
  unfoldable mutual
    unfolding eval

    pub run_statement : Statement N D → Store N D → Reply (Store N D × List (ConfigurationOrder D))
    run_statement (define_list n l) store = done (store, [])
    run_statement (define n value) store = do
      v ← eval doubles store value
      done (update store n v, [])
    run_statement (if_then condition consequences) store = do
      let taken = run_statements consequences store
      v ← eval doubles store condition
      b ← get_bool v
      if b then taken else done (store, [])
    run_statement (order o) store = done (store, o ∷ [])

    pub run_statements :
        Statements N D → Store N D → Reply (Store N D × List (ConfigurationOrder D))
    run_statements none_left store = done (store, [])
    run_statements (next s ss) store = do
      r ← run_statement s store
      rest ← run_statements ss r.0
      done (rest.0, r.1 ++ rest.1)
