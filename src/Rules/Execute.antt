-- ===== src/Rules/Execute.antt =====
-- src/autopas/selectors/tuningStrategy/ruleBasedTuning/RuleVM.h: `execute` and
-- `executeInstruction`. The right side of an assignment is evaluated first.
pub mod Halting
use auto_pas.Prelude.{
  ℕ, zero, suc, ◌+◌, Bool, true, false, not, ◌&&◌, ◌||◌, if◌then◌else◌, Option, none, some, List,
  [], ◌∷◌, ◌++◌, length, get_elem?, add_word, sub_word,
}
use auto_pas.Rules.Vm.{
  MemoryCell, bool_cell, Cmd, loadc, loada, storea, reserve, less, greater, equal, jumpzero,
  outputc, condoutputc, halt, and_cmd, or_cmd, pop, mul, div, add, sub, not_cmd, Instruction,
  Program, Reply, done, fault, outside, ◌>>=◌, Doubles, Comparison, is_less, is_greater, is_equal,
  Operator, times, over, plus, minus, Machine, at, assign, get_bool, get_size, resize_stack,
  compare_cells, compute_binary,
}

module _ {D : Type 0} where
  abbrev pub push : MemoryCell D → Machine D → Reply (Machine D)
  push c m = do
    let top = add_word m.stack_pointer 1
    stack ← assign m.stack top c
    done (record m { stack_pointer = top; stack = stack })

  -- The cells under the top and on the top, in this order.
  abbrev pub operands : Machine D → Reply (MemoryCell D × MemoryCell D)
  operands m = do
    left ← at m.stack (sub_word m.stack_pointer 1)
    right ← at m.stack m.stack_pointer
    done (left, right)

  -- One cell less, with a result on top.
  abbrev pub replace_two : MemoryCell D → Machine D → Reply (Machine D)
  replace_two c m = do
    let top = sub_word m.stack_pointer 1
    stack ← assign m.stack top c
    done (record m { stack_pointer = top; stack = stack })

  -- `and` and `or` look at the top first, and at the cell under it only if that decides.
  abbrev pub logical : Bool → Machine D → Reply Bool
  logical deciding m = do
    top ← at m.stack m.stack_pointer
    right ← get_bool top
    if (if deciding then right else not right)
        then done right
        else (do below ← at m.stack (sub_word m.stack_pointer 1); get_bool below)

  abbrev pub output : MemoryCell D → Machine D → Reply (Machine D)
  output c m = do
    n ← get_size c
    done (record m { removed_patterns = m.removed_patterns ++ n ∷ [] })

  abbrev pub popped : Machine D → Machine D
  popped m = record m { stack_pointer = sub_word m.stack_pointer 1 }

module _ {D : Type 0} (doubles : Doubles D) where
  abbrev pub compared : Comparison → Machine D → Reply (Machine D)
  compared c m = do o ← operands m; b ← compare_cells doubles c o.0 o.1; replace_two (bool_cell b) m

  abbrev pub computed : Operator → Machine D → Reply (Machine D)
  computed op m = do o ← operands m; c ← compute_binary doubles op o.0 o.1; replace_two c m

  unfoldable pub execute_instruction : Cmd → MemoryCell D → Machine D → Reply (Machine D)
  unfolding compare_cells compute_binary
  execute_instruction loadc payload m = push payload m
  execute_instruction loada payload m = do
    address ← get_size payload
    c ← at m.stack address
    push c m
  execute_instruction storea payload m = do
    c ← at m.stack m.stack_pointer
    address ← get_size payload
    stack ← assign m.stack address c
    done (record (popped m) { stack = stack })
  execute_instruction reserve payload m = do
    n ← get_size payload
    done (record m { stack_pointer = add_word m.stack_pointer n })
  execute_instruction less payload m = compared is_less m
  execute_instruction greater payload m = compared is_greater m
  execute_instruction equal payload m = compared is_equal m
  execute_instruction jumpzero payload m = do
    top ← at m.stack m.stack_pointer
    condition ← get_bool top
    if condition
        then done (popped m)
        else (do address ← get_size payload; done (record (popped m) { program_counter = address }))
  execute_instruction outputc payload m = output payload m
  execute_instruction condoutputc payload m = do
    top ← at m.stack m.stack_pointer
    condition ← get_bool top
    if condition then output payload m else done m
  execute_instruction halt payload m = done (record m { halted = true })
  execute_instruction and_cmd payload m = do b ← logical false m; replace_two (bool_cell b) m
  execute_instruction or_cmd payload m = do b ← logical true m; replace_two (bool_cell b) m
  execute_instruction pop payload m = done (popped m)
  execute_instruction mul payload m = computed times m
  execute_instruction div payload m = computed over m
  execute_instruction add payload m = computed plus m
  execute_instruction sub payload m = computed minus m
  execute_instruction not_cmd payload m = do
    top ← at m.stack m.stack_pointer
    b ← get_bool top
    stack ← assign m.stack m.stack_pointer (bool_cell (not b))
    done (record m { stack = stack })

  -- The loop of `execute`, for `fuel` rounds at most; `none` is a loop that is still running.
  unfoldable pub run_loop : ℕ → List (Instruction D) → Machine D → Option (Reply (List ℕ))
  unfolding execute_instruction
  run_loop zero instructions m = if m.halted then some (done m.removed_patterns) else none
  run_loop (suc fuel) instructions m =
      let next = record m { program_counter = add_word m.program_counter 1 } in
      if m.halted
      then some (done m.removed_patterns)
      else elim (get_elem? instructions m.program_counter) [
        | none ↦ some (fault outside)
        | some i ↦ elim (execute_instruction i.cmd i.payload next) [
          | fault problem ↦ some (fault problem)
          | done m' ↦ run_loop fuel instructions m'
        ]
      ]

  unfoldable pub execute : ℕ → Program D → List (MemoryCell D) → Option (Reply (List ℕ))
  unfolding run_loop resize_stack
  execute fuel program initial_stack = run_loop fuel program.instructions (record {
    program_counter = 0;
    stack_pointer = sub_word (length initial_stack) 1;
    halted = false;
    stack = resize_stack (add_word program.needed_stack_size (length initial_stack)) initial_stack;
    removed_patterns = [];
  })
