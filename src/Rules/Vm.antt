-- ===== src/Rules/Vm.antt =====
-- src/autopas/selectors/tuningStrategy/ruleBasedTuning/RuleVM.h: a stack machine that runs the code
-- generated for rule programs. Options are the numbers of their enumerators, and doubles are a
-- parameter with the operations that the machine uses.
use auto_pas.Prelude.{
  ℕ, zero, suc, ◌/◌, Bool, false, not, ◌&&◌, ltb, ◌==◌, if◌then◌else◌, none, some, List, [], ◌∷◌,
  length, get_elem?, set, add_word, sub_word, mul_word,
}

pub data MemoryCell (D : Type 0) : Type 0 where
  bool_cell : Bool → MemoryCell D
  double_cell : D → MemoryCell D
  size_cell container_cell traversal_cell load_estimator_cell data_layout_cell newton3_cell :
      ℕ → MemoryCell D

pub data Cmd : Type 0 where
  loadc loada storea reserve less greater equal jumpzero outputc condoutputc : Cmd
  halt and_cmd or_cmd pop mul div add sub not_cmd : Cmd

pub record Instruction (D : Type 0) : Type 0 where
  pub cmd : Cmd
  pub payload : MemoryCell D

pub record Program (D : Type 0) : Type 0 where
  pub instructions : List (Instruction D)
  pub needed_stack_size : ℕ

-- `outside` is thrown by `at`, `bad_variant` by `std::get`, the next two by the machine itself;
-- `division_by_zero` of `size_t` is undefined behaviour.
pub data Fault : Type 0 where
  outside bad_variant cannot_compare cannot_compute division_by_zero : Fault

pub data Reply (A : Type 0) : Type 0 where
  done : A → Reply A
  fault : Fault → Reply A

infixl 5 ◌>>=◌
abbrev pub ◌>>=◌ : {A B : Type 0} → Reply A → (A → Reply B) → Reply B
fault problem >>= next = fault problem
done value >>= next = next value

-- The operations of `double`, and the conversion from `size_t`.
pub record Doubles (D : Type 0) : Type 0 where
  pub less_d : D → D → Bool
  pub equal_d : D → D → Bool
  pub mul_d : D → D → D
  pub div_d : D → D → D
  pub add_d : D → D → D
  pub sub_d : D → D → D
  pub of_size : ℕ → D

pub data Comparison : Type 0 where
  is_less is_greater is_equal : Comparison

pub data Operator : Type 0 where
  times over plus minus : Operator

abbrev pub compare_with : {A : Type 0} → (A → A → Bool) → (A → A → Bool) → Comparison → A → A → Bool
compare_with lt eq is_less a b = lt a b
compare_with lt eq is_greater a b = lt b a
compare_with lt eq is_equal a b = eq a b

abbrev pub compare_sizes : Comparison → ℕ → ℕ → Bool
compare_sizes = compare_with ltb (λ a b. a == b)

-- `false < true`.
abbrev pub compare_bools : Comparison → Bool → Bool → Bool
compare_bools = compare_with (λ a b. not a && b) (λ a b. if a then b else not b)

pub record Machine (D : Type 0) : Type 0 where
  pub program_counter : ℕ
  pub stack_pointer : ℕ
  pub halted : Bool
  pub stack : List (MemoryCell D)
  pub removed_patterns : List ℕ

module _ {D : Type 0} where
  abbrev pub at : List (MemoryCell D) → ℕ → Reply (MemoryCell D)
  at stack i = elim (get_elem? stack i) [ none ↦ fault outside | some c ↦ done c ]

  abbrev pub assign : List (MemoryCell D) → ℕ → MemoryCell D → Reply (List (MemoryCell D))
  assign stack i c = if ltb i (length stack) then done (set stack i c) else fault outside

  abbrev pub get_bool : MemoryCell D → Reply Bool
  get_bool (bool_cell b) = done b
  get_bool c = fault bad_variant

  abbrev pub get_size : MemoryCell D → Reply ℕ
  get_size (size_cell n) = done n
  get_size c = fault bad_variant

  -- `vector::resize` with default cells: the first alternative is `bool`.
  unfoldable pub resize_stack : ℕ → List (MemoryCell D) → List (MemoryCell D)
  resize_stack zero stack = []
  resize_stack (suc n) [] = bool_cell false ∷ resize_stack n []
  resize_stack (suc n) (c ∷ stack) = c ∷ resize_stack n stack

module _ {D : Type 0} (doubles : Doubles D) where
  abbrev pub compare_doubles : Comparison → D → D → Bool
  compare_doubles = compare_with doubles.less_d doubles.equal_d

  unfoldable pub compare_cells : Comparison → MemoryCell D → MemoryCell D → Reply Bool
  compare_cells c (bool_cell a) (bool_cell b) = done (compare_bools c a b)
  compare_cells c (double_cell a) (double_cell b) = done (compare_doubles c a b)
  compare_cells c (double_cell a) (size_cell b) = done (compare_doubles c a (doubles.of_size b))
  compare_cells c (size_cell a) (double_cell b) = done (compare_doubles c (doubles.of_size a) b)
  compare_cells c (size_cell a) (size_cell b) = done (compare_sizes c a b)
  compare_cells c (container_cell a) (container_cell b) = done (compare_sizes c a b)
  compare_cells c (traversal_cell a) (traversal_cell b) = done (compare_sizes c a b)
  compare_cells c (load_estimator_cell a) (load_estimator_cell b) = done (compare_sizes c a b)
  compare_cells c (data_layout_cell a) (data_layout_cell b) = done (compare_sizes c a b)
  compare_cells c (newton3_cell a) (newton3_cell b) = done (compare_sizes c a b)
  compare_cells c a b = fault cannot_compare

  abbrev on_doubles : Operator → D → D → Reply (MemoryCell D)
  on_doubles times a b = done (double_cell (doubles.mul_d a b))
  on_doubles over a b = done (double_cell (doubles.div_d a b))
  on_doubles plus a b = done (double_cell (doubles.add_d a b))
  on_doubles minus a b = done (double_cell (doubles.sub_d a b))

  abbrev on_sizes : Operator → ℕ → ℕ → Reply (MemoryCell D)
  on_sizes times a b = done (size_cell (mul_word a b))
  on_sizes over a b = if b == 0 then fault division_by_zero else done (size_cell (a / b))
  on_sizes plus a b = done (size_cell (add_word a b))
  on_sizes minus a b = done (size_cell (sub_word a b))

  unfoldable pub compute_binary : Operator → MemoryCell D → MemoryCell D → Reply (MemoryCell D)
  compute_binary o (double_cell a) (double_cell b) = on_doubles o a b
  compute_binary o (double_cell a) (size_cell b) = on_doubles o a (doubles.of_size b)
  compute_binary o (size_cell a) (double_cell b) = on_doubles o (doubles.of_size a) b
  compute_binary o (size_cell a) (size_cell b) = on_sizes o a b
  compute_binary o a b = fault cannot_compute
