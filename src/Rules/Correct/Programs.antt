-- ===== src/Rules/Correct/Programs.antt =====
-- A program that `generateCode` left and the virtual machine runs does what the program means.
use auto_pas.Prelude.{
  ℕ, zero, suc, ◌+◌, ◌<◌, ◌≡◌, refl, ap, ◌∙◌, sym, subst, true, false, List, [], ◌∷◌, ◌++◌, length,
  length-append, Option, none, some, get_elem?, get_elem?-inside, word, add_word, sub_word, arith,
}
use auto_pas.Prelude.Classes.{Eq}
use auto_pas.Rules.Vm.{
  MemoryCell, bool_cell, size_cell, reserve, halt, Instruction, Reply, done, fault, Doubles,
  Machine, resize_stack,
}
use auto_pas.Rules.Patterns.{ConfigurationOrder}
use auto_pas.Rules.Execute.{execute_instruction, run_loop, execute}
use auto_pas.Rules.Syntax.{Statements}
use auto_pas.Rules.Syntax.Context.{Binding, CodeGenerationContext, find_binding}
use auto_pas.Rules.Generate.{instruct, plain}
use auto_pas.Rules.Meaning.{Store, run_statements}
use auto_pas.Rules.Compile.{scoped_all, depth_of_all, orders_of_all}
use auto_pas.Rules.Compile.Generated.Programs.{
  address_in, final_environment, body_of, locals_of, program_of,
}
use auto_pas.Rules.Correct.{
  machine, CodeAt-left, CodeAt-right, CodeAt-start, Runs, RunsTo, RunsTo-after, RunsTo-weaken,
  Runs-Runs, Runs-one,
}
use auto_pas.Rules.Correct.Expressions.{Holds}
use auto_pas.Rules.Correct.Statements.{Names}
use auto_pas.Rules.Correct.Sequences.{statements-RunsTo}
use auto_pas.Rules.Correct.Scopes.{
  IsPlaced, Bound, addresses-apart, after_all-IsPlaced, scoped_all-UsesIn, depth_of_all-le,
}

module _ {D : Type 0} where
  length-resize : (n : ℕ) (s : List (MemoryCell D)) → length (resize_stack n s) ≡ n
  unfolding resize_stack
  length-resize zero s = refl
  length-resize (suc n) [] = ap suc (length-resize n [])
  length-resize (suc n) (c ∷ s) = ap suc (length-resize n s)

  -- The value at a place of the initial stack; the cells after it are `false`.
  abbrev pub cell_at : List (MemoryCell D) → ℕ → MemoryCell D
  cell_at s i = elim (get_elem? s i) [ none ↦ bool_cell false | some v ↦ v ]

  get_elem?-resize :
      (n : ℕ) (s : List (MemoryCell D)) (i : ℕ)
      → i < n
      → get_elem? (resize_stack n s) i ≡ some (cell_at s i)
  unfolding resize_stack
  get_elem?-resize zero s i h = absurd (omega (arith, h))
  get_elem?-resize (suc n) [] zero h = refl
  get_elem?-resize (suc n) [] (suc i) h = get_elem?-resize n [] i (omega arith)
  get_elem?-resize (suc n) (c ∷ s) zero h = refl
  get_elem?-resize (suc n) (c ∷ s) (suc i) h = get_elem?-resize n s i (omega arith)

module _ {D : Type 0} (doubles : Doubles D) where
  reserve_lem :
      (n : ℕ) (pc h : ℕ) (s : List (MemoryCell D)) (removed : List ℕ)
      → h + n < word
      → execute_instruction doubles reserve (size_cell n) (machine pc h s removed)
        ≡ done (machine pc (h + n) s removed)
  unfolding execute_instruction
  reserve_lem n pc h s removed small =
      let top : add_word (sub_word h 1) n ≡ sub_word (h + n) 1 = omega arith in rw top refl

  -- A machine that halted gives the numbers.
  stop :
      (fuel : ℕ) (is : List (Instruction D)) (m : Machine D)
      → m.halted ≡ true
      → run_loop doubles fuel is m ≡ some (done m.removed_patterns)
  unfolding run_loop
  stop zero is m h = rw (run_loop, h) refl
  stop (suc fuel) is m h = rw (run_loop, h) refl

-- The outcome of the machine is what the program means: the same fault, or numbers that name the
-- orders that the program applies.
abbrev pub Agrees : {A S : Type 0} → List A → Reply (S × List A) → Option (Reply (List ℕ)) → Type 0
Agrees all (fault p) outcome = outcome ≡ some (fault p)
Agrees all (done (store, os)) outcome = (is : List ℕ) × (outcome ≡ some (done is)) × Names all is os

module _ {D : Type 0} (doubles : Doubles D) where
  -- The machine halts after the code, if that runs through.
  finish :
      {A : Type 0} (is : List (Instruction D)) (all : List (ConfigurationOrder D)) (base : ℕ)
      (pc : ℕ) (m : Machine D) (r : Reply (A × List (ConfigurationOrder D)))
      → get_elem? is pc ≡ some (plain halt)
      → pc + 1 < word
      → RunsTo doubles is m r (λ v m'.
        (s' : List (MemoryCell D)) × (js : List ℕ) × (m' ≡ machine pc base s' js)
        × Names all js v.1)
      → (rounds : ℕ) × ((fuel : ℕ) → Agrees all r (run_loop doubles (rounds + fuel) is m))
  unfolding execute_instruction
  finish is all base pc m (fault p) last small (rounds, runs) = (rounds, runs)
  finish is all base pc m (done v) last small (m', runs, (s', js, same, names)) =
      let halted : Machine D = record (machine (pc + 1) base s' js) { halted = true } in
      let one = Runs-one doubles is (plain halt) pc base s' js (done halted) last small refl in
      let both =
        Runs-Runs doubles is m (machine pc base s' js) (done halted)
          (subst (λ z. Runs doubles is m (done z)) same runs) one in
      (both.0, λ fuel. (js, both.1 fuel ∙ stop doubles fuel is halted refl, names))

module _ {N D : Type 0} ⦃e : Eq N⦄ where
  -- The values that the variables have at the start: those of the initial stack.
  abbrev pub initial_store : List (Binding N D) → List (MemoryCell D) → Store N D
  initial_store final s n = elim (find_binding n final) [
    | none ↦ bool_cell false
    | some b ↦ cell_at s b.address
  ]

module _ {N D : Type 0} ⦃e : Eq N⦄ (doubles : Doubles D) where
  -- The code that `generateCode` leaves for a program, run by the virtual machine on the values of
  -- the variables that are known before, does what the program means.
  pub program_of-Agrees :
      (ss : Statements N D) (c : CodeGenerationContext N D) (s : List (MemoryCell D))
      → IsPlaced c.address_environment
      → c.initial_num_variables ≡ length c.address_environment
      → length s ≡ length c.address_environment
      → scoped_all c.address_environment ss ≡ true
      → length (final_environment c ss) + length (body_of c ss) + 2 < word
      → (rounds : ℕ) × ((fuel : ℕ)
          → Agrees
              (orders_of_all ss)
              (run_statements doubles ss (initial_store (final_environment c ss) s))
              (execute doubles (rounds + fuel) (program_of c ss) s))
  unfolding execute
  program_of-Agrees ss c s placed initial long h small =
      let env = c.address_environment in
      let final = final_environment c ss in
      let a = address_in final in
      let base = length final in
      let body = body_of c ss in
      let locals = locals_of c ss in
      let depth = depth_of_all ss in
      let all = orders_of_all ss in
      let is = instruct reserve (size_cell locals) ∷ (body ++ plain halt ∷ []) in
      let st = resize_stack (add_word (add_word locals depth) (length s)) s in
      let store = initial_store final s in
      let grown = after_all-IsPlaced ss env placed in
      let deep = depth_of_all-le a 1 0 ss in
      let reserved : length s + locals ≡ base = omega (arith, initial, long, grown.1, small) in
      let size : add_word (add_word locals depth) (length s) ≡ base + depth =
        omega (arith, reserved, deep, small) in
      let tall : length st ≡ base + depth =
        length-resize (add_word (add_word locals depth) (length s)) s ∙ size in
      let address : (n : N) (b : Binding N D) → find_binding n final ≡ some b → a n ≡ b.address =
        λ n b found. ap (λ o. elim o as (λ _. ℕ) [ none ↦ 0 | some x ↦ x.address ]) found in
      let apart : (n k : N) → Bound final n → Bound final k → a n ≡ a k → n ≡ k =
        λ n k known known' same.
          addresses-apart n k known.0 known'.0 final grown.0 known.1 known'.1
            (sym (address n known.0 known.1) ∙ same ∙ address k known'.0 known'.1) in
      let holds : Holds (Bound final) a base st store = λ n known.
        let here : a n < base = omega (
          arith,
          address n known.0 known.1,
          get_elem?-inside final known.0.address known.0 (grown.0 n known.0 known.1),
        ) in
        let value : cell_at s (a n) ≡ store n =
          ap (cell_at s) (address n known.0 known.1)
          ∙ ap
              (λ o. elim o as (λ _. MemoryCell D) [
                | none ↦ bool_cell false
                | some b ↦ cell_at s b.address
              ])
              (sym known.1) in
        (
          here,
          get_elem?-resize (add_word (add_word locals depth) (length s)) s (a n)
                (omega (arith, here, size))
              ∙ ap some value,
        ) in
      let code = CodeAt-start is in
      let len = length-append body (plain halt ∷ []) in
      let start =
        Runs-one doubles is (instruct reserve (size_cell locals)) 0 (length s) st []
          (done (machine 1 (length s + locals) st [])) code.0 (omega arith)
          (reserve_lem doubles locals 1 (length s) st [] (omega (arith, reserved, small))) in
      let run =
        statements-RunsTo doubles (Bound final) a base is all apart ss 1 0 st [] store
          (
            CodeAt-left is 1 body (plain halt ∷ []) code.1,
            CodeAt-start all,
            omega (arith, tall),
            omega (arith, tall, deep, small),
            omega (arith, small),
          )
          (scoped_all-UsesIn (Bound final) ss env h λ n known. known) holds in
      finish doubles is all base (1 + length body) (machine 0 (length s) st [])
        (run_statements doubles ss store) (CodeAt-right is 1 body (plain halt ∷ []) code.1).0
        (omega (arith, small))
        (RunsTo-after doubles is (machine 0 (length s) st []) (machine 1 base st [])
          (run_statements doubles ss store) _
          (subst (λ z. Runs doubles is (machine 0 (length s) st []) (done (machine 1 z st [])))
            reserved start)
          (RunsTo-weaken doubles is (machine 1 base st []) (run_statements doubles ss store) _ _
            (λ v m' (s', js, same, l, holds', names). (s', js, same, names)) run))
