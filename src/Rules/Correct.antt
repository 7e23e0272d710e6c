-- ===== src/Rules/Correct.antt =====
-- How the machine of rule programs runs through a piece of code.
pub mod Steps
pub mod Expressions
pub mod Statements
pub mod Sequences
pub mod Scopes
pub mod Programs
pub mod Halting
use auto_pas.Prelude.{
  ℕ, zero, suc, ◌+◌, ◌<◌, ◌≡◌, refl, ap, ◌∙◌, sym, subst, Bool, true, false, if◌then◌else◌, Option,
  none, some, List, [], ◌∷◌, ◌++◌, length, get_elem?, word, add_word, sub_word, arith,
}
use auto_pas.Rules.Vm.{MemoryCell, Instruction, Reply, Fault, done, fault, ◌>>=◌, Doubles, Machine}
use auto_pas.Rules.Execute.{execute_instruction, run_loop}

module _ {D : Type 0} where
  -- A running machine with `h` cells in use.
  abbrev pub machine : ℕ → ℕ → List (MemoryCell D) → List ℕ → Machine D
  machine pc h stack removed = record {
    program_counter = pc;
    stack_pointer = sub_word h 1;
    halted = false;
    stack = stack;
    removed_patterns = removed;
  }

module _ {A : Type 0} where
  -- A part of a list, such as code of a program, stands at the position.
  abbrev pub CodeAt : List A → ℕ → List A → Type 0
  CodeAt program pc [] = Unit
  CodeAt program pc (i ∷ code) = (get_elem? program pc ≡ some i) × CodeAt program (pc + 1) code

  pub CodeAt-left :
      (program : List A) (pc : ℕ) (xs ys : List A)
      → CodeAt program pc (xs ++ ys)
      → CodeAt program pc xs
  CodeAt-left program pc [] ys h = tt
  CodeAt-left program pc (x ∷ xs) ys h = (h.0, CodeAt-left program (pc + 1) xs ys h.1)

  pub CodeAt-right :
      (program : List A) (pc : ℕ) (xs ys : List A)
      → CodeAt program pc (xs ++ ys)
      → CodeAt program (pc + length xs) ys
  CodeAt-right program pc [] ys h = subst (λ k. CodeAt program k ys) (omega arith) h
  CodeAt-right program pc (x ∷ xs) ys h =
      subst (λ k. CodeAt program k ys) (omega arith) (CodeAt-right program (pc + 1) xs ys h.1)

  CodeAt-cons :
      (x : A) (program : List A) (pc : ℕ) (code : List A)
      → CodeAt program pc code
      → CodeAt (x ∷ program) (pc + 1) code
  CodeAt-cons x program pc [] h = tt
  CodeAt-cons x program pc (i ∷ code) h = (
    subst (λ k. get_elem? (x ∷ program) k ≡ some i) (suc_lem pc) h.0,
    CodeAt-cons x program (pc + 1) code h.1,
  )
    where
      suc_lem : (n : ℕ) → suc n ≡ n + 1
      suc_lem n = omega arith

  pub CodeAt-start : (code : List A) → CodeAt code 0 code
  CodeAt-start [] = tt
  CodeAt-start (x ∷ code) = (refl, CodeAt-cons x code 0 code (CodeAt-start code))

module _ {D : Type 0} (doubles : Doubles D) (program : List (Instruction D)) where
  abbrev pub continue : ℕ → Reply (Machine D) → Option (Reply (List ℕ))
  continue fuel (done m) = run_loop doubles fuel program m
  continue fuel (fault problem) = some (fault problem)

  -- In some number of rounds the machine gets from `m` to what `r` says.
  abbrev pub Runs : Machine D → Reply (Machine D) → Type 0
  Runs m r =
      (rounds : ℕ) × ((fuel : ℕ) → run_loop doubles (rounds + fuel) program m ≡ continue fuel r)

  -- It gets to a machine that `P` relates to the value, or to the fault.
  abbrev pub RunsTo : {A : Type 0} → Machine D → Reply A → (A → Machine D → Type 0) → Type 0
  RunsTo m (done a) P = (m' : Machine D) × Runs m (done m') × P a m'
  RunsTo m (fault problem) P = Runs m (fault problem)

  pub Runs-Runs :
      (m m' : Machine D) (r : Reply (Machine D)) → Runs m (done m') → Runs m' r → Runs m r
  Runs-Runs m m' r (n, first) (k, second) = (
    n + k,
    λ fuel.
        subst (λ z. run_loop doubles z program m ≡ continue fuel r) (sum n k fuel)
          (first (k + fuel) ∙ second fuel),
  )
    where
      sum : (n k fuel : ℕ) → n + (k + fuel) ≡ n + k + fuel
      sum n k fuel = omega arith

  pub RunsTo-after :
      {A : Type 0} (m m' : Machine D) (r : Reply A) (P : A → Machine D → Type 0)
      → Runs m (done m')
      → RunsTo m' r P
      → RunsTo m r P
  RunsTo-after m m' (done a) P runs (m'', runs', p) = (m'', Runs-Runs m m' (done m'') runs runs', p)
  RunsTo-after m m' (fault problem) P runs runs' = Runs-Runs m m' (fault problem) runs runs'

  -- After a first part comes the next one.
  pub RunsTo-bind :
      {A B : Type 0} (m : Machine D) (r : Reply A) (next : A → Reply B) (P : A → Machine D → Type 0)
      (Q : B → Machine D → Type 0)
      → RunsTo m r P
      → ((a : A) (m' : Machine D) → P a m' → RunsTo m' (next a) Q)
      → RunsTo m (r >>= next) Q
  RunsTo-bind m (done a) next P Q (m', runs, p) k = RunsTo-after m m' (next a) Q runs (k a m' p)
  RunsTo-bind m (fault problem) next P Q runs k = runs

  pub RunsTo-done :
      {A : Type 0} (m : Machine D) (a : A) (P : A → Machine D → Type 0)
      → P a m
      → RunsTo m (done a) P
  RunsTo-done m a P p = (m, (0, λ fuel. ap (λ z. run_loop doubles z program m) (none_more fuel)), p)
    where
      none_more : (n : ℕ) → 0 + n ≡ n
      none_more n = omega arith

  -- One instruction.
  pub Runs-one :
      (i : Instruction D) (pc h : ℕ) (stack : List (MemoryCell D)) (removed : List ℕ)
      (r : Reply (Machine D))
      → get_elem? program pc ≡ some i
      → pc + 1 < word
      → execute_instruction doubles i.cmd i.payload (machine (pc + 1) h stack removed) ≡ r
      → Runs (machine pc h stack removed) r
  unfolding run_loop
  Runs-one i pc h stack removed (done m') found small step =
      let next : add_word pc 1 ≡ pc + 1 = omega arith in
      (
        1,
        λ fuel.
            subst
              (λ z.
                run_loop doubles z program (machine pc h stack removed) ≡ continue fuel (done m'))
              (one fuel) (rw (found, next, step) refl),
      )
    where
      one : (n : ℕ) → suc n ≡ 1 + n
      one n = omega arith
  Runs-one i pc h stack removed (fault problem) found small step =
      let next : add_word pc 1 ≡ pc + 1 = omega arith in
      (
        1,
        λ fuel.
            subst
              (λ z.
                run_loop doubles z program (machine pc h stack removed)
                ≡ continue fuel (fault problem))
              (one fuel) (rw (found, next, step) refl),
      )
    where
      one : (n : ℕ) → suc n ≡ 1 + n
      one n = omega arith

  -- An instruction that jumps.
  pub RunsTo-branch :
      {A : Type 0} (i : Instruction D) (pc target h h' : ℕ) (stack : List (MemoryCell D))
      (removed : List ℕ) (r : Reply Bool) (then_to else_to : Reply A) (P : A → Machine D → Type 0)
      → get_elem? program pc ≡ some i
      → pc + 1 < word
      → execute_instruction doubles i.cmd i.payload (machine (pc + 1) h stack removed)
        ≡ (r >>= λ b. done (machine (if b then pc + 1 else target) h' stack removed))
      → RunsTo (machine (pc + 1) h' stack removed) then_to P
      → RunsTo (machine target h' stack removed) else_to P
      → RunsTo (machine pc h stack removed) (r >>= λ b. if b then then_to else else_to) P
  RunsTo-branch i pc target h h' stack removed (done true) then_to else_to P found small step ran
        skipped =
      RunsTo-after (machine pc h stack removed) (machine (pc + 1) h' stack removed) then_to P
        (Runs-one i pc h stack removed _ found small step) ran
  RunsTo-branch i pc target h h' stack removed (done false) then_to else_to P found small step ran
        skipped =
      RunsTo-after (machine pc h stack removed) (machine target h' stack removed) else_to P
        (Runs-one i pc h stack removed _ found small step) skipped
  RunsTo-branch i pc target h h' stack removed (fault p) then_to else_to P found small step ran
        skipped =
      Runs-one i pc h stack removed _ found small step

  -- What is related to a result may be weakened.
  pub RunsTo-weaken :
      {A : Type 0} (m : Machine D) (r : Reply A) (P Q : A → Machine D → Type 0)
      → ((a : A) (m' : Machine D) → P a m' → Q a m')
      → RunsTo m r P
      → RunsTo m r Q
  RunsTo-weaken m (done a) P Q weak (m', runs, p) = (m', runs, weak a m' p)
  RunsTo-weaken m (fault problem) P Q weak runs = runs
