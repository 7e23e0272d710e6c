-- ===== src/Rules/Syntax/Context.antt =====
-- `CodeGenerationContext` of RuleBasedProgramTree.h.
use auto_pas.Prelude.{
  ℕ, max, if◌then◌else◌, List, [], ◌∷◌, ◌++◌, length, get_elem?, none, some, Option, add_word,
  sub_word,
}
use auto_pas.Prelude.Classes.{Eq}
use auto_pas.Rules.Vm.{MemoryCell, Reply, done, fault, outside}
use auto_pas.Rules.Patterns.{ConfigurationOrder, ConfigurationPattern}
use auto_pas.Rules.Syntax.{Expression}

-- An entry of the address environment: a definition and its stack address.
pub record Binding (N D : Type 0) : Type 0 where
  pub name : N
  pub value : Expression N D
  pub address : ℕ

pub record CodeGenerationContext (N D : Type 0) : Type 0 where
  pub current_needed_stack : ℕ
  pub max_needed_stack : ℕ
  pub address_environment : List (Binding N D)
  pub initial_num_variables : ℕ
  pub lists : List (N × List (MemoryCell D))
  pub configuration_orders : List (ConfigurationOrder D)

module _ {N D : Type 0} ⦃e : Eq N⦄ where
  unfoldable pub find_binding : N → List (Binding N D) → Option (Binding N D)
  find_binding n [] = none
  find_binding n (b ∷ bs) = if e.beq b.name n then some b else find_binding n bs

  -- `map::insert` leaves an entry that is there.
  unfoldable pub insert_binding : N → Expression N D → List (Binding N D) → List (Binding N D)
  unfolding find_binding
  insert_binding n v bs = elim (find_binding n bs) [
    | none ↦ bs ++ record { name = n; value = v; address = length bs } ∷ []
    | some b ↦ bs
  ]

  unfoldable pub new_context : List (Binding N D) → CodeGenerationContext N D
  new_context bs = record {
    current_needed_stack = 0;
    max_needed_stack = 0;
    address_environment = bs;
    initial_num_variables = length bs;
    lists = [];
    configuration_orders = [];
  }

  unfoldable pub allocate_stack : ℕ → CodeGenerationContext N D → CodeGenerationContext N D
  allocate_stack num c =
      let current = add_word c.current_needed_stack num in
      record c { current_needed_stack = current; max_needed_stack = max c.max_needed_stack current }

  unfoldable pub free_stack : ℕ → CodeGenerationContext N D → CodeGenerationContext N D
  free_stack num c = record c { current_needed_stack = sub_word c.current_needed_stack num }

  unfoldable pub add_local_variable :
      N → Expression N D → CodeGenerationContext N D → CodeGenerationContext N D
  unfolding insert_binding
  add_local_variable n v c = record c {
    address_environment = insert_binding n v c.address_environment;
  }

  unfoldable pub add_global_variable :
      N → Expression N D → CodeGenerationContext N D → CodeGenerationContext N D
  unfolding add_local_variable
  add_global_variable n v c =
      add_local_variable n v
        (record c { initial_num_variables = add_word c.initial_num_variables 1 })

  unfoldable pub address_of : N → CodeGenerationContext N D → Reply ℕ
  unfolding find_binding
  address_of n c = elim (find_binding n c.address_environment) [
    | none ↦ fault outside
    | some b ↦ done b.address
  ]

  unfoldable pub definition_of : N → CodeGenerationContext N D → Reply (Expression N D)
  unfolding find_binding
  definition_of n c = elim (find_binding n c.address_environment) [
    | none ↦ fault outside
    | some b ↦ done b.value
  ]

  unfoldable pub find_list : N → List (N × List (MemoryCell D)) → Option (List (MemoryCell D))
  find_list n [] = none
  find_list n ((k, l) ∷ ls) = if e.beq k n then some l else find_list n ls

  unfoldable pub add_list :
      N → List (MemoryCell D) → CodeGenerationContext N D → CodeGenerationContext N D
  unfolding find_list
  add_list n l c = elim (find_list n c.lists) [
    | none ↦ record c { lists = c.lists ++ (n, l) ∷ [] }
    | some old ↦ c
  ]

  unfoldable pub get_list : N → CodeGenerationContext N D → Reply (List (MemoryCell D))
  unfolding find_list
  get_list n c = elim (find_list n c.lists) [ none ↦ fault outside | some l ↦ done l ]

  -- The context, and the index of the order in it.
  unfoldable pub add_configuration_order :
      ConfigurationOrder D → CodeGenerationContext N D → CodeGenerationContext N D × ℕ
  add_configuration_order o c = (
    record c { configuration_orders = c.configuration_orders ++ o ∷ [] },
    length c.configuration_orders,
  )

  unfoldable pub smaller_configuration_pattern_by_index :
      ℕ → CodeGenerationContext N D → Reply (ConfigurationPattern D)
  smaller_configuration_pattern_by_index i c = elim (get_elem? c.configuration_orders i) [
    | none ↦ fault outside
    | some o ↦ done o.smaller
  ]

  unfoldable pub get_num_local_variables : CodeGenerationContext N D → ℕ
  get_num_local_variables c = sub_word (length c.address_environment) c.initial_num_variables
