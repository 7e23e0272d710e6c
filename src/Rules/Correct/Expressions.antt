-- ===== src/Rules/Correct/Expressions.antt =====
-- The code of an expression leaves its value on the stack.
use auto_pas.Prelude.{
  ℕ, ◌+◌, ◌≤◌, ◌<◌, ◌≡◌, refl, ap, ◌∙◌, sym, subst, not, some, List, [], ◌∷◌, ◌++◌, length,
  length-append, length-set, get_elem?, get_elem?-inside, get_elem?-set_self, get_elem?-set_ne, set,
  word, arith,
}
use auto_pas.Rules.Vm.{
  MemoryCell, bool_cell, size_cell, loadc, loada, not_cmd, Instruction, Reply, done, fault, ◌>>=◌,
  Doubles, Machine, get_bool,
}
use auto_pas.Rules.Execute.{execute_instruction}
use auto_pas.Rules.Syntax.{Expression, literal, variable, negation, binary}
use auto_pas.Rules.Generate.{instruct, plain, op_code}
use auto_pas.Rules.Meaning.{Store, apply, eval}
use auto_pas.Rules.Compile.{code_of, depth}
use auto_pas.Rules.Compile.Generated.{depth-pos, length-binary}
use auto_pas.Rules.Correct.{
  machine, CodeAt, CodeAt-left, CodeAt-right, RunsTo, RunsTo-bind, Runs-one,
}
use auto_pas.Rules.Correct.Steps.{bind_assoc, loadc_lem, loada_lem, not_lem, binary_lem}

module _ {D : Type 0} where
  -- The cells below `h` are the same.
  abbrev pub Below : ℕ → List (MemoryCell D) → List (MemoryCell D) → Type 0
  Below h s s' = (i : ℕ) → i < h → get_elem? s' i ≡ get_elem? s i

  pub Below-set : (h : ℕ) (v : MemoryCell D) (s : List (MemoryCell D)) → Below h s (set s h v)
  Below-set h v s i less = get_elem?-set_ne s v λ same. omega (arith, same)

  -- One more cell is in use, with the value in it.
  abbrev pub Pushed : ℕ → ℕ → List (MemoryCell D) → List ℕ → MemoryCell D → Machine D → Type 0
  Pushed pc h s removed v m =
      (s' : List (MemoryCell D)) × (m ≡ machine pc (h + 1) s' removed)
      × (length s' ≡ length s)
      × Below h s s'
      × (get_elem? s' h ≡ some v)

  pub Pushed-set :
      (pc h : ℕ) (s : List (MemoryCell D)) (removed : List ℕ) (v : MemoryCell D)
      → h < length s
      → Pushed pc h s removed v (machine pc (h + 1) (set s h v) removed)
  Pushed-set pc h s removed v fits =
      (set s h v, refl, length-set s h v, Below-set h v s, get_elem?-set_self s h v fits)

module _ {N D : Type 0} (Known : N → Type 0) where
  -- The expression has known variables only.
  abbrev pub Uses : Expression N D → Type 0
  Uses (literal v) = Unit
  Uses (variable n v) = Known n
  Uses (negation child) = Uses child
  Uses (binary o l r) = Uses l × Uses r

module _ {N D : Type 0} (Known : N → Type 0) (a : N → ℕ) (base : ℕ) where
  -- The stack holds the value of every known variable, below `base`.
  abbrev pub Holds : List (MemoryCell D) → Store N D → Type 0
  Holds s store = (n : N) → Known n → (a n < base) × (get_elem? s (a n) ≡ some (store n))

  pub Holds-Below :
      (h : ℕ) (s s' : List (MemoryCell D)) (store : Store N D)
      → base ≤ h
      → Below h s s'
      → Holds s store
      → Holds s' store
  Holds-Below h s s' store high same holds n known =
      let here = holds n known in (here.0, same (a n) (omega (arith, here.0)) ∙ here.1)

module _ {N D : Type 0} (doubles : Doubles D) (Known : N → Type 0) (a : N → ℕ) (base : ℕ)
    (program : List (Instruction D)) (store : Store N D) where
  pub RunsTo-at :
      {A : Type 0} (m m' : Machine D) (r : Reply A) (P : A → Machine D → Type 0)
      → m ≡ m'
      → RunsTo doubles program m' r P
      → RunsTo doubles program m r P
  RunsTo-at m m' r P same h = subst (λ k. RunsTo doubles program k r P) (sym same) h

  -- The instruction that ends an expression leaves its value at `h`.
  ends :
      (i : Instruction D) (r : Reply (MemoryCell D)) (pc pc' top h : ℕ) (s s₁ : List (MemoryCell D))
      (removed : List ℕ)
      → get_elem? program pc ≡ some i
      → pc + 1 < word
      → pc + 1 ≡ pc'
      → length s₁ ≡ length s
      → Below h s s₁
      → h < length s₁
      → execute_instruction doubles i.cmd i.payload (machine (pc + 1) top s₁ removed)
        ≡ (r >>= λ v. done (machine (pc + 1) (h + 1) (set s₁ h v) removed))
      → RunsTo doubles program (machine pc top s₁ removed) r (Pushed pc' h s removed)
  ends i (done v) pc pc' top h s s₁ removed found small after len below fits step = (
    machine (pc + 1) (h + 1) (set s₁ h v) removed,
    Runs-one doubles program i pc top s₁ removed _ found small step,
    (
      set s₁ h v,
      ap (λ k. machine k (h + 1) (set s₁ h v) removed) after,
      length-set s₁ h v ∙ len,
      λ k less. Below-set h v s₁ k less ∙ below k less,
      get_elem?-set_self s₁ h v fits,
    ),
  )
  ends i (fault problem) pc pc' top h s s₁ removed found small after len below fits step =
      Runs-one doubles program i pc top s₁ removed _ found small step

  -- The code of an expression, run with room for its values, leaves the value on the stack, or
  -- stops with the fault.
  pub code_of-RunsTo :
      (x : Expression N D) (pc h : ℕ) (s : List (MemoryCell D)) (removed : List ℕ)
      → CodeAt program pc (code_of a x)
      → Uses Known x
      → Holds Known a base s store
      → base ≤ h
      → h + depth x ≤ length s
      → length s < word
      → pc + length (code_of a x) < word
      → RunsTo doubles program
          (machine pc h s removed)
          (eval doubles store x)
          (Pushed (pc + length (code_of a x)) h s removed)
  unfolding code_of depth eval
  code_of-RunsTo (literal v) pc h s removed code uses holds high fits short small = (
    machine (pc + 1) (h + 1) (set s h v) removed,
    Runs-one doubles program (instruct loadc v) pc h s removed _ code.0 small
        (loadc_lem doubles v (pc + 1) h s removed (omega arith) (omega arith)),
    Pushed-set (pc + 1) h s removed v (omega arith),
  )
  code_of-RunsTo (variable n v) pc h s removed code uses holds high fits short small = (
    machine (pc + 1) (h + 1) (set s h (store n)) removed,
    Runs-one doubles program (instruct loada (size_cell (a n))) pc h s removed _ code.0 small (
        loada_lem doubles (a n) (store n) (pc + 1) h s removed (holds n uses).1 (omega arith)
          (omega arith)),
    Pushed-set (pc + 1) h s removed (store n) (omega arith),
  )
  code_of-RunsTo (negation child) pc h s removed code uses holds high fits short small =
      let len = length-append (code_of a child) (plain not_cmd ∷ []) in
      RunsTo-bind doubles program (machine pc h s removed) (eval doubles store child) _
        (Pushed (pc + length (code_of a child)) h s removed) _
        (code_of-RunsTo child pc h s removed (CodeAt-left program pc (code_of a child) _ code) uses
          holds high fits short (omega arith))
        λ v m (s₁, same, l₁, below, top).
          let pc₁ = pc + length (code_of a child) in
          let r = get_bool v >>= λ b. done (bool_cell (not b)) in
          RunsTo-at m (machine pc₁ (h + 1) s₁ removed) r _ same (
            ends (plain not_cmd) r pc₁ _ (h + 1) h s s₁ removed
              (CodeAt-right program pc (code_of a child) (plain not_cmd ∷ []) code).0
              (omega (arith, len)) (omega (arith, len)) l₁ below (get_elem?-inside s₁ h v top)
              (not_lem doubles (size_cell 0) v (pc₁ + 1) h s₁ removed top
                  (omega (arith, depth-pos child))
                ∙ sym (bind_assoc (get_bool v) _ _)))
  code_of-RunsTo (binary o l r) pc h s removed code uses holds high fits short small =
      let cl = code_of a l in
      let cr = code_of a r in
      let op = plain (op_code o) in
      let len = length-binary a o l r in
      let len' = length-append cl cr in
      let inner = CodeAt-left program pc (cl ++ cr) (op ∷ []) code in
      let last = CodeAt-right program pc (cl ++ cr) (op ∷ []) code in
      let pc₁ = pc + length cl in
      let pc₂ = pc₁ + length cr in
      RunsTo-bind doubles program (machine pc h s removed) (eval doubles store l) _
        (Pushed pc₁ h s removed) _
        (code_of-RunsTo l pc h s removed (CodeAt-left program pc cl cr inner) uses.0 holds high
          (omega arith) short (omega (arith, len)))
        λ vl m (s₁, same, l₁, below, top). RunsTo-at m (machine pc₁ (h + 1) s₁ removed) _ _ same (
          RunsTo-bind doubles program (machine pc₁ (h + 1) s₁ removed) (eval doubles store r) _
            (Pushed pc₂ (h + 1) s₁ removed) _
            (code_of-RunsTo r pc₁ (h + 1) s₁ removed (CodeAt-right program pc cl cr inner) uses.1
              (Holds-Below Known a base h s s₁ store high below holds) (omega arith)
              (omega (arith, l₁)) (omega (arith, l₁)) (omega (arith, len)))
            λ vr m' (s₂, same', l₂, below', top').
              RunsTo-at m' (machine pc₂ (h + 1 + 1) s₂ removed) _ _ same' (
                ends op (apply doubles o vl vr) pc₂ _ (h + 1 + 1) h s s₂ removed
                  (subst (λ k. get_elem? program k ≡ some op) (omega (arith, len')) last.0)
                  (omega (arith, len)) (omega (arith, len)) (l₂ ∙ l₁)
                  (λ k less. below' k (omega arith) ∙ below k less)
                  (omega (arith, get_elem?-inside s₂ (h + 1) vr top'))
                  (binary_lem doubles o (size_cell 0) vl vr (pc₂ + 1) h s₂ removed
                    (below' h (omega arith) ∙ top) top' (omega (arith, depth-pos r)))))
