-- ===== src/Rules/Execute/Halting.antt =====
-- Rule programs without backward jumps halt.
use auto_pas.Prelude.{
  ℕ, zero, suc, ◌+◌, ◌≤◌, ◌<◌, ◌≡◌, refl, ◌⊎◌, inl, inr, Bool, true, false, Bool-cases,
  if◌then◌else◌, Option, none, some, List, [], ◌∷◌, length, get_elem?, get_elem?-inside, word,
  add_word, subst, arith,
}
use auto_pas.Rules.Vm.{
  MemoryCell, size_cell, Cmd, loadc, loada, storea, reserve, less, greater, equal, jumpzero,
  outputc, condoutputc, halt, and_cmd, or_cmd, pop, mul, div, add, sub, not_cmd, Instruction,
  Program, Reply, Fault, done, fault, outside, ◌>>=◌, Doubles, Machine,
}
use auto_pas.Rules.Execute.{push, replace_two, output, execute_instruction, run_loop, execute}

module _ {D : Type 0} where
  -- A jump leads past the instruction at position `i`.
  abbrev pub JumpsPast : ℕ → Cmd → MemoryCell D → Type 0
  JumpsPast i jumpzero (size_cell n) = i < n
  JumpsPast i c payload = Unit

  -- No jump of instructions that stand at position `i` and after leads back.
  abbrev pub ForwardFrom : ℕ → List (Instruction D) → Type 0
  ForwardFrom i [] = Unit
  ForwardFrom i (instruction ∷ is) =
      JumpsPast i instruction.cmd instruction.payload × ForwardFrom (i + 1) is

  ForwardFrom-get_elem? :
      (i : ℕ) (is : List (Instruction D)) (k : ℕ) (instruction : Instruction D)
      → ForwardFrom i is
      → get_elem? is k ≡ some instruction
      → JumpsPast (i + k) instruction.cmd instruction.payload
  ForwardFrom-get_elem? i [] k instruction f h = absurd (cc h)
  ForwardFrom-get_elem? i (x ∷ is) zero instruction f h =
      let here : JumpsPast (i + 0) x.cmd x.payload =
        subst (λ n. JumpsPast n x.cmd x.payload) (omega arith) f.0 in
      let same : x ≡ instruction = ground arith in
      subst (λ y. JumpsPast (i + 0) y.cmd y.payload) same here
  ForwardFrom-get_elem? i (x ∷ is) (suc k) instruction f h =
      subst (λ n. JumpsPast n instruction.cmd instruction.payload) (omega arith)
        (ForwardFrom-get_elem? (i + 1) is k instruction f.1 h)

  -- The program counter did not fall below `n`.
  abbrev AtLeast : ℕ → Reply (Machine D) → Type 0
  AtLeast n (done m) = n ≤ m.program_counter
  AtLeast n (fault problem) = Unit

  AtLeast-bind :
      {A : Type 0} (n : ℕ) (r : Reply A) (next : A → Reply (Machine D))
      → ((a : A) → AtLeast n (next a))
      → AtLeast n (r >>= next)
  AtLeast-bind n (done a) next h = h a
  AtLeast-bind n (fault problem) next h = tt

  AtLeast-if :
      (n : ℕ) (b : Bool) (x y : Reply (Machine D))
      → AtLeast n x
      → AtLeast n y
      → AtLeast n (if b then x else y)
  AtLeast-if n true x y h k = h
  AtLeast-if n false x y h k = k

  AtLeast-push :
      (n : ℕ) (c : MemoryCell D) (m : Machine D) → n ≤ m.program_counter → AtLeast n (push c m)
  AtLeast-push n c m h = ground arith

  AtLeast-replace :
      (n : ℕ) (c : MemoryCell D) (m : Machine D)
      → n ≤ m.program_counter
      → AtLeast n (replace_two c m)
  AtLeast-replace n c m h = ground arith

  AtLeast-output :
      (n : ℕ) (c : MemoryCell D) (m : Machine D) → n ≤ m.program_counter → AtLeast n (output c m)
  AtLeast-output n (size_cell k) m h = h
  AtLeast-output n c m h = tt

module _ {D : Type 0} (doubles : Doubles D) where
  execute_instruction-AtLeast :
      (i : ℕ) (c : Cmd) (payload : MemoryCell D) (m : Machine D)
      → JumpsPast i c payload
      → i + 1 ≤ m.program_counter
      → AtLeast (i + 1) (execute_instruction doubles c payload m)
  unfolding execute_instruction
  execute_instruction-AtLeast i loadc payload m j h = ground arith
  execute_instruction-AtLeast i loada payload m j h = ground arith
  execute_instruction-AtLeast i storea payload m j h = ground arith
  execute_instruction-AtLeast i reserve payload m j h = ground arith
  execute_instruction-AtLeast i less payload m j h = ground arith
  execute_instruction-AtLeast i greater payload m j h = ground arith
  execute_instruction-AtLeast i equal payload m j h = ground arith
  execute_instruction-AtLeast i jumpzero payload m j h = ground arith
  execute_instruction-AtLeast i outputc payload m j h = ground arith
  execute_instruction-AtLeast i condoutputc payload m j h = ground arith
  execute_instruction-AtLeast i halt payload m j h = ground arith
  execute_instruction-AtLeast i and_cmd payload m j h = ground arith
  execute_instruction-AtLeast i or_cmd payload m j h = ground arith
  execute_instruction-AtLeast i pop payload m j h = ground arith
  execute_instruction-AtLeast i mul payload m j h = ground arith
  execute_instruction-AtLeast i div payload m j h = ground arith
  execute_instruction-AtLeast i add payload m j h = ground arith
  execute_instruction-AtLeast i sub payload m j h = ground arith
  execute_instruction-AtLeast i not_cmd payload m j h = ground arith

option_cases : {A : Type 0} → (o : Option A) → (o ≡ none) ⊎ ((a : A) × (o ≡ some a))
option_cases none = inl refl
option_cases (some a) = inr (a, refl)

reply_cases :
    {A : Type 0} → (r : Reply A) → ((x : Fault) × (r ≡ fault x)) ⊎ ((a : A) × (r ≡ done a))
reply_cases (fault x) = inl (x, refl)
reply_cases (done a) = inr (a, refl)

module _ {D : Type 0} (doubles : Doubles D) where
  run_loop-halts :
      (fuel : ℕ) (is : List (Instruction D)) (m : Machine D)
      → ForwardFrom 0 is
      → length is < word
      → 0 < fuel
      → length is < m.program_counter + fuel
      → (r : Reply (List ℕ)) × (run_loop doubles fuel is m ≡ some r)
  unfolding run_loop
  run_loop-halts zero is m forward small more enough = absurd (omega arith)
  run_loop-halts (suc fuel) is m forward small more enough =
      let next = record m { program_counter = add_word m.program_counter 1 } in
      elim (Bool-cases m.halted) [
        | inl over ↦ (done m.removed_patterns, rw over refl)
        | inr running ↦ elim (option_cases (get_elem? is m.program_counter)) [
          | inl past ↦ (fault outside, rw (running, past) refl)
          | inr (i, found) ↦ elim (reply_cases (execute_instruction doubles i.cmd i.payload next)) [
            | inl (problem, failed) ↦ (fault problem, rw (running, found, failed) refl)
            | inr (m', stepped) ↦
                let inside = get_elem?-inside is m.program_counter i found in
                let later = subst (AtLeast (0 + m.program_counter + 1)) stepped (
                  execute_instruction-AtLeast doubles (0 + m.program_counter) i.cmd i.payload next
                    (ForwardFrom-get_elem? 0 is m.program_counter i forward found) (omega arith)) in
                let rest =
                  run_loop-halts fuel is m' forward small (omega (arith, inside))
                    (omega (arith, later)) in
                (rest.0, rw (running, found, stepped) rest.1)
          ]
        ]
      ]

  -- A program of less than 2 ^ 64 instructions in which no `JUMPZERO` leads back halts, with an
  -- output or an exception, after at most as many rounds of the loop as it has instructions, and
  -- one more; on any stack, whether or not it has a `HALT`.
  pub execute-halts :
      (fuel : ℕ) (program : Program D) (initial_stack : List (MemoryCell D))
      → ForwardFrom 0 program.instructions
      → length program.instructions < word
      → length program.instructions < fuel
      → (r : Reply (List ℕ)) × (execute doubles fuel program initial_stack ≡ some r)
  unfolding execute
  execute-halts fuel program initial_stack forward small enough =
      run_loop-halts fuel program.instructions _ forward small (omega arith) (omega arith)
