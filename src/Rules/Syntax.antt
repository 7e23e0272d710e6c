-- ===== src/Rules/Syntax.antt =====
-- src/autopas/selectors/tuningStrategy/ruleBasedTuning/RuleBasedProgramTree.h and .cpp: the syntax
-- tree of a rule program and its code generation. A pointer to a definition is the definition
-- itself, which never changes; names are values of any type with equality, and a map is the list of
-- its entries.
pub mod Context
use auto_pas.Prelude.{
  ℕ, ◌-◌, Bool, true, false, ◌&&◌, if◌then◌else◌, List, [], ◌∷◌, ◌++◌, length, get_elem?, set, none,
  some, add_word,
}
use auto_pas.Prelude.Classes.{Eq}
use auto_pas.Rules.Vm.{
  MemoryCell, bool_cell, double_cell, size_cell, container_cell, traversal_cell,
  load_estimator_cell, data_layout_cell, newton3_cell, Cmd, Instruction, Program, Reply, done,
  fault, outside, ◌>>=◌,
}
use auto_pas.Rules.Patterns.{ConfigurationOrder}

pub data RuleType : Type 0 where
  bool_type double_type size_type container_type traversal_type : RuleType
  load_estimator_type data_layout_type newton3_type cell_size_factor_type : RuleType

pub data BinaryOperator : Type 0 where
  op_less op_greater op_and op_or op_add op_sub op_mul op_div : BinaryOperator

-- A variable holds its definition: the name and the value.
pub data Expression (N D : Type 0) : Type 0 where
  literal : MemoryCell D → Expression N D
  variable : N → Expression N D → Expression N D
  negation : Expression N D → Expression N D
  binary : BinaryOperator → Expression N D → Expression N D → Expression N D

mutual
  pub data Statement (N D : Type 0) : Type 0 where
    define_list : N → List (MemoryCell D) → Statement N D
    define : N → Expression N D → Statement N D
    if_then : Expression N D → Statements N D → Statement N D
    order : ConfigurationOrder D → Statement N D

  pub data Statements (N D : Type 0) : Type 0 where
    none_left : Statements N D
    next : Statement N D → Statements N D → Statements N D
