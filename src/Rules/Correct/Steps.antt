-- ===== src/Rules/Correct/Steps.antt =====
-- What single instructions do to a machine with `h` cells in use.
use auto_pas.Prelude.{
  ℕ, ◌+◌, ◌<◌, ◌≡◌, refl, sym, Bool, true, false, not, if◌then◌else◌, some, List, length, get_elem?,
  get_elem?-inside, set, ltb, word, add_word, sub_word, arith,
}
use auto_pas.Rules.Vm.{
  MemoryCell, bool_cell, size_cell, loadc, loada, storea, jumpzero, not_cmd, Reply, done, fault,
  ◌>>=◌, Doubles, at, assign, get_bool, compare_cells, is_less, is_greater,
}
use auto_pas.Rules.Execute.{push, replace_two, execute_instruction}
use auto_pas.Rules.Syntax.{
  BinaryOperator, op_less, op_greater, op_and, op_or, op_add, op_sub, op_mul, op_div,
}
use auto_pas.Rules.Generate.{op_code}
use auto_pas.Rules.Meaning.{apply}
use auto_pas.Rules.Correct.{machine}

pub bind_assoc :
    {A B C : Type 0} (r : Reply A) (f : A → Reply B) (g : B → Reply C)
    → (r >>= f >>= g) ≡ (r >>= λ a. f a >>= g)
bind_assoc (done a) f g = refl
bind_assoc (fault p) f g = refl

pub bind_congr :
    {A B : Type 0} (r : Reply A) (f g : A → Reply B) → ((a : A) → f a ≡ g a) → (r >>= f) ≡ (r >>= g)
bind_congr (done a) f g h = h a
bind_congr (fault p) f g h = refl

pub top_lem : (h : ℕ) → h + 1 < word → sub_word (h + 1) 1 ≡ h
top_lem h small = omega arith

next_lem : (h : ℕ) → h + 1 < word → add_word (sub_word h 1) 1 ≡ h
next_lem h small = omega arith

module _ {D : Type 0} where
  at_lem :
      (s : List (MemoryCell D)) (i : ℕ) (v : MemoryCell D)
      → get_elem? s i ≡ some v
      → at s i ≡ done v
  at_lem s i v h = rw (at, h) refl

  assign_lem :
      (s : List (MemoryCell D)) (i : ℕ) (v : MemoryCell D)
      → i < length s
      → assign s i v ≡ done (set s i v)
  assign_lem s i v h = let e : ltb i (length s) ≡ true = ground arith in rw e refl

  pub push_lem :
      (v : MemoryCell D) (pc h : ℕ) (s : List (MemoryCell D)) (removed : List ℕ)
      → h < length s
      → h + 1 < word
      → push v (machine pc h s removed) ≡ done (machine pc (h + 1) (set s h v) removed)
  push_lem v pc h s removed fits small =
      rw (next_lem h small, top_lem h small, assign_lem s h v fits) refl

  pub replace_lem :
      (v : MemoryCell D) (pc h : ℕ) (s : List (MemoryCell D)) (removed : List ℕ)
      → h + 1 < length s
      → h + 2 < word
      → replace_two v (machine pc (h + 1 + 1) s removed)
        ≡ done (machine pc (h + 1) (set s h v) removed)
  replace_lem v pc h s removed fits small =
      let e : sub_word (h + 1 + 1) 1 ≡ h + 1 = omega arith in
      rw (e, top_lem h (omega arith), assign_lem s h v (omega arith)) refl

module _ {D : Type 0} (doubles : Doubles D) where
  pub loadc_lem :
      (v : MemoryCell D) (pc h : ℕ) (s : List (MemoryCell D)) (removed : List ℕ)
      → h < length s
      → h + 1 < word
      → execute_instruction doubles loadc v (machine pc h s removed)
        ≡ done (machine pc (h + 1) (set s h v) removed)
  unfolding execute_instruction
  loadc_lem = push_lem

  pub loada_lem :
      (a : ℕ) (v : MemoryCell D) (pc h : ℕ) (s : List (MemoryCell D)) (removed : List ℕ)
      → get_elem? s a ≡ some v
      → h < length s
      → h + 1 < word
      → execute_instruction doubles loada (size_cell a) (machine pc h s removed)
        ≡ done (machine pc (h + 1) (set s h v) removed)
  unfolding execute_instruction
  loada_lem a v pc h s removed here fits small =
      rw (at_lem s a v here) (push_lem v pc h s removed fits small)

  pub not_lem :
      (p v : MemoryCell D) (pc h : ℕ) (s : List (MemoryCell D)) (removed : List ℕ)
      → get_elem? s h ≡ some v
      → h + 1 < word
      → execute_instruction doubles not_cmd p (machine pc (h + 1) s removed)
        ≡ (get_bool v >>= λ b. done (machine pc (h + 1) (set s h (bool_cell (not b))) removed))
  unfolding execute_instruction
  not_lem p v pc h s removed here small =
      let fits = get_elem?-inside s h v here in
      rw (top_lem h small, at_lem s h v here)
        (bind_congr (get_bool v) _ _ λ b. rw (assign_lem s h (bool_cell (not b)) fits) refl)

  pub storea_lem :
      (a : ℕ) (v : MemoryCell D) (pc h : ℕ) (s : List (MemoryCell D)) (removed : List ℕ)
      → get_elem? s h ≡ some v
      → a < length s
      → h + 1 < word
      → execute_instruction doubles storea (size_cell a) (machine pc (h + 1) s removed)
        ≡ done (machine pc h (set s a v) removed)
  unfolding execute_instruction
  storea_lem a v pc h s removed here fits small =
      rw (top_lem h small, at_lem s h v here, assign_lem s a v fits) refl

  taken :
      (target pc h : ℕ) (s : List (MemoryCell D)) (removed : List ℕ) (b : Bool)
      → (if b then done (machine pc h s removed) else done (machine target h s removed))
        ≡ done (machine (if b then pc else target) h s removed)
  taken target pc h s removed true = refl
  taken target pc h s removed false = refl

  pub jumpzero_lem :
      (target : ℕ) (v : MemoryCell D) (pc h : ℕ) (s : List (MemoryCell D)) (removed : List ℕ)
      → get_elem? s h ≡ some v
      → h + 1 < word
      → execute_instruction doubles jumpzero (size_cell target) (machine pc (h + 1) s removed)
        ≡ (get_bool v >>= λ b. done (machine (if b then pc else target) h s removed))
  unfolding execute_instruction
  jumpzero_lem target v pc h s removed here small =
      rw (top_lem h small, at_lem s h v here)
        (bind_congr (get_bool v) _ _ (taken target pc h s removed))

  operands_lem :
      (l r : MemoryCell D) (h : ℕ) (s : List (MemoryCell D))
      → get_elem? s h ≡ some l
      → get_elem? s (h + 1) ≡ some r
      → h + 2 < word
      → (sub_word (h + 1 + 1) 1 ≡ h + 1)
        × (sub_word (h + 1) 1 ≡ h)
        × (at s h ≡ done l)
        × (at s (h + 1) ≡ done r)
        × (ltb h (length s) ≡ true)
  operands_lem l r h s left right small =
      let fits = get_elem?-inside s (h + 1) r right in
      (omega arith, omega arith, at_lem s h l left, at_lem s (h + 1) r right, ground arith)

  -- A binary operator takes its operands from the stack.
  pub binary_lem :
      (o : BinaryOperator) (p l r : MemoryCell D) (pc h : ℕ) (s : List (MemoryCell D))
      (removed : List ℕ)
      → get_elem? s h ≡ some l
      → get_elem? s (h + 1) ≡ some r
      → h + 2 < word
      → execute_instruction doubles (op_code o) p (machine pc (h + 1 + 1) s removed)
        ≡ (apply doubles o l r >>= λ v. done (machine pc (h + 1) (set s h v) removed))
  unfolding execute_instruction
  binary_lem op_less p l r pc h s removed left right small =
      let f = operands_lem l r h s left right small in
      rw (f.0, f.1, f.2, f.3, f.4) (sym (bind_assoc (compare_cells doubles is_less l r) _ _))
  binary_lem op_greater p l r pc h s removed left right small =
      let f = operands_lem l r h s left right small in
      rw (f.0, f.1, f.2, f.3, f.4) (sym (bind_assoc (compare_cells doubles is_greater l r) _ _))
  binary_lem op_and p l r pc h s removed left right small =
      let f = operands_lem l r h s left right small in
      rw (f.0, f.1, f.2, f.3, f.4) (simp bind_assoc)
  binary_lem op_or p l r pc h s removed left right small =
      let f = operands_lem l r h s left right small in
      rw (f.0, f.1, f.2, f.3, f.4) (simp bind_assoc)
  binary_lem op_add p l r pc h s removed left right small =
      let f = operands_lem l r h s left right small in rw (f.0, f.1, f.2, f.3, f.4) refl
  binary_lem op_sub p l r pc h s removed left right small =
      let f = operands_lem l r h s left right small in rw (f.0, f.1, f.2, f.3, f.4) refl
  binary_lem op_mul p l r pc h s removed left right small =
      let f = operands_lem l r h s left right small in rw (f.0, f.1, f.2, f.3, f.4) refl
  binary_lem op_div p l r pc h s removed left right small =
      let f = operands_lem l r h s left right small in rw (f.0, f.1, f.2, f.3, f.4) refl
