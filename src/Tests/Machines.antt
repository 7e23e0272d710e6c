-- ===== src/Tests/Machines.antt =====
-- A rule program that compares two numbers and outputs a pattern.
use auto_pas.Prelude.Classes.{nat_eq}
use auto_pas.Rules.Patterns.{
  Configuration, ConfigurationPattern, ConfigurationOrder, newton3, container,
  have_equal_same_properties,
}
use auto_pas.Rules.Patterns.Orders.{AllEqual, have_equal_same_properties-AllEqual}
use auto_pas.Prelude.{
  ℕ, ◌↔◌, true, ◌≡◌, refl, ltb, ◌==◌, some, List, [], ◌∷◌, ◌+◌, ◌*◌, ◌-◌, ◌/◌, arith,
}
use auto_pas.Rules.Vm.{
  size_cell, loadc, less, jumpzero, outputc, halt, Program, Reply, done, Doubles,
}
use auto_pas.Rules.Execute.{execute}
use auto_pas.Rules.Execute.Halting.{ForwardFrom, execute-halts}

abbrev pub whole_doubles : Doubles ℕ
whole_doubles = record {
  less_d = ltb;
  equal_d = λ a b. a == b;
  mul_d = λ a b. a * b;
  div_d = λ a b. a / b;
  add_d = λ a b. a + b;
  sub_d = λ a b. a - b;
  of_size = λ n. n;
}

abbrev one_rule : Program ℕ
one_rule = record {
  instructions =
      record { cmd = loadc; payload = size_cell 1 }
      ∷ record { cmd = loadc; payload = size_cell 2 }
      ∷ record { cmd = less; payload = size_cell 0 }
      ∷ record { cmd = jumpzero; payload = size_cell 5 }
      ∷ record { cmd = outputc; payload = size_cell 7 }
      ∷ record { cmd = halt; payload = size_cell 0 }
      ∷ [];
  needed_stack_size = 2;
}

one_rule_outputs : execute whole_doubles 7 one_rule (size_cell 40 ∷ []) ≡ some (done (7 ∷ []))
unfolding execute
one_rule_outputs = refl

one_rule-ForwardFrom : ForwardFrom 0 one_rule.instructions
one_rule-ForwardFrom = (tt, (tt, (tt, (omega arith, (tt, (tt, tt))))))

execute-halts_example :
    (r : Reply (List ℕ)) × (execute whole_doubles 7 one_rule (size_cell 40 ∷ []) ≡ some r)
execute-halts_example =
    execute-halts whole_doubles 7 one_rule (size_cell 40 ∷ []) one_rule-ForwardFrom (omega arith)
      (omega arith)

abbrev some_config : Configuration ℕ
some_config = record {
  container = 1;
  traversal = 2;
  load_estimator = 0;
  data_layout = 0;
  newton3 = 1;
  cell_size_factor = 1;
}

abbrev everything : ConfigurationPattern ℕ
everything = record {
  containers = [];
  traversals = [];
  load_estimators = [];
  data_layouts = [];
  newton3_options = [];
  cell_size_factors = [];
}

abbrev same_newton3 : ConfigurationOrder ℕ
same_newton3 = record {
  greater = everything;
  smaller = everything;
  same_properties = newton3 ∷ container ∷ [];
}

have_equal_same_properties_example :
    (have_equal_same_properties same_newton3 some_config some_config ≡ true)
    ↔ AllEqual same_newton3.same_properties some_config some_config
have_equal_same_properties_example =
    have_equal_same_properties-AllEqual same_newton3 some_config some_config
