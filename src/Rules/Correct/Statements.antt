-- ===== src/Rules/Correct/Statements.antt =====
-- The code of a statement does to the stack what the statement does to the store.
use auto_pas.Prelude.{
  ℕ, ◌+◌, ◌≤◌, ◌<◌, ◌≡◌, ◌≢◌, refl, ap, ap₂, ◌∙◌, sym, Bool-cases, inl, inr, if◌then◌else◌, some,
  List, [], ◌∷◌, ◌++◌, length, length-append, length-set, get_elem?, get_elem?-inside,
  get_elem?-set_self, get_elem?-set_ne, set, word, arith,
}
use mathlib.Core.List.{append-nil}
use auto_pas.Prelude.Classes.{Eq}
use auto_pas.Rules.Vm.{
  MemoryCell, size_cell, storea, jumpzero, outputc, Instruction, done, ◌>>=◌, Doubles, Machine,
  get_bool,
}
use auto_pas.Rules.Patterns.{ConfigurationOrder}
use auto_pas.Rules.Execute.{execute_instruction}
use auto_pas.Rules.Syntax.{
  Expression, Statement, define_list, define, if_then, order, Statements, none_left, next,
}
use auto_pas.Rules.Generate.{instruct}
use auto_pas.Rules.Meaning.{Store, update, eval, run_statement, run_statements}
use auto_pas.Rules.Compile.{
  code_of, code_of_statement, code_of_statements, depth_of, depth_of_all, orders_of, orders_of_all,
}
use auto_pas.Rules.Correct.{
  machine, CodeAt, CodeAt-left, CodeAt-right, RunsTo, RunsTo-bind, RunsTo-done, RunsTo-branch,
  RunsTo-weaken, Runs-one,
}
use auto_pas.Rules.Correct.Steps.{storea_lem, jumpzero_lem}
use auto_pas.Rules.Correct.Expressions.{Pushed, Holds, Uses, Holds-Below, code_of-RunsTo, RunsTo-at}

module _ {N D : Type 0} (Known : N → Type 0) where
  unfoldable mutual
    pub UsesIn : Statement N D → Type 0
    UsesIn (define_list n l) = Unit
    UsesIn (define n v) = Known n × Uses Known v
    UsesIn (if_then c body) = Uses Known c × UsesInAll body
    UsesIn (order o) = Unit

    pub UsesInAll : Statements N D → Type 0
    UsesInAll none_left = Unit
    UsesInAll (next s ss) = UsesIn s × UsesInAll ss

-- The numbers are indices of the orders.
abbrev pub Names : {A : Type 0} → List A → List ℕ → List A → Type 0
Names all [] [] = Unit
Names all [] (o ∷ os) = ⊥
Names all (i ∷ is) [] = ⊥
Names all (i ∷ is) (o ∷ os) = (get_elem? all i ≡ some o) × Names all is os

pub Names-append :
    {A : Type 0} (all : List A) (is js : List ℕ) (os ps : List A)
    → Names all is os
    → Names all js ps
    → Names all (is ++ js) (os ++ ps)
Names-append all [] js [] ps h k = k
Names-append all [] js (o ∷ os) ps h k = absurd h
Names-append all (i ∷ is) js [] ps h k = absurd h
Names-append all (i ∷ is) js (o ∷ os) ps h k = (h.0, Names-append all is js os ps h.1 k)

module _ {N D : Type 0} ⦃e : Eq N⦄ (doubles : Doubles D) (Known : N → Type 0) (a : N → ℕ) (base : ℕ)
    (program : List (Instruction D)) (all : List (ConfigurationOrder D))
    (apart : (n k : N) → Known n → Known k → a n ≡ a k → n ≡ k) where
  -- After a statement: the stack holds the new store, and the indices of the orders are out.
  abbrev pub Ran :
      ℕ
      → List (MemoryCell D)
      → List ℕ
      → Store N D × List (ConfigurationOrder D)
      → Machine D
      → Type 0
  Ran pc s removed r m =
      (s' : List (MemoryCell D)) × (is : List ℕ) × (m ≡ machine pc base s' (removed ++ is))
      × (length s' ≡ length s)
      × Holds Known a base s' r.0
      × Names all is r.1

  Holds-update :
      (s : List (MemoryCell D)) (store : Store N D) (n : N) (v : MemoryCell D)
      → base ≤ length s
      → Known n
      → Holds Known a base s store
      → Holds Known a base (set s (a n) v) (update store n v)
  Holds-update s store n v fits known holds k known' = elim (Bool-cases (e.beq n k)) [
    | inl same ↦
        let eq = (e.beq_iff n k).0 same in
        (
          (holds k known').0,
          rw same (
              ap (get_elem? (set s (a n) v)) (ap a (sym eq))
              ∙ get_elem?-set_self s (a n) v (omega (arith, (holds n known).0))),
        )
    | inr other ↦
        let far : a n ≢ a k =
          λ same. absurd (cc (other, (e.beq_iff n k).1 (apart n k known known' same))) in
        ((holds k known').0, rw other (get_elem?-set_ne s v far ∙ (holds k known').1))
  ]

  -- What is asked of the place where the code of a statement stands.
  abbrev pub Stands :
      ℕ → ℕ → List (Instruction D) → List (ConfigurationOrder D) → List (MemoryCell D) → ℕ → Type 0
  Stands pc k code orders s d =
      CodeAt program pc code
      × CodeAt all k orders
      × (base + d ≤ length s)
      × (length s < word)
      × (pc + length code < word)

  pub define-RunsTo :
      (n : N) (v : Expression N D) (pc k : ℕ) (s : List (MemoryCell D)) (removed : List ℕ)
      (store : Store N D)
      → Stands pc k
          (code_of_statement a pc k (define n v))
          (orders_of (define n v))
          s
          (depth_of (define n v))
      → Known n × Uses Known v
      → Holds Known a base s store
      → RunsTo doubles program
          (machine pc base s removed)
          (run_statement doubles (define n v) store)
          (Ran (pc + length (code_of_statement a pc k (define n v))) s removed)
  unfolding code_of_statement run_statement depth_of
  define-RunsTo n v pc k s removed store (code, orders, fits, short, small) (known, uses) holds =
      let cv = code_of a v in
      let st = instruct storea (size_cell (a n)) in
      let len = length-append cv (st ∷ []) in
      let pc₁ = pc + length cv in
      RunsTo-bind doubles program (machine pc base s removed) (eval doubles store v) _
        (Pushed pc₁ base s removed) _
        (code_of-RunsTo doubles Known a base program store v pc base s removed
          (CodeAt-left program pc cv (st ∷ []) code) uses holds (omega arith) fits short
          (omega (arith, len)))
        λ x m (s₁, same, l₁, below, top).
          let holds₁ = Holds-Below Known a base base s s₁ store (omega arith) below holds in
          let place = (holds₁ n known).0 in
          let wide = get_elem?-inside s₁ base x top in
          RunsTo-at doubles Known a base program store m (machine pc₁ (base + 1) s₁ removed)
            (done (update store n x, []))
            (Ran (pc + length (code_of_statement a pc k (define n v))) s removed) same
            (
              machine (pc₁ + 1) base (set s₁ (a n) x) removed,
              Runs-one doubles program st pc₁ (base + 1) s₁ removed _
                  (CodeAt-right program pc cv (st ∷ []) code).0 (omega (arith, len))
                  (storea_lem doubles (a n) x (pc₁ + 1) base s₁ removed top (omega arith)
                    (omega (arith, l₁))),
              (
                set s₁ (a n) x,
                [],
                ap₂ (λ p q. machine p base (set s₁ (a n) x) q) (omega (arith, len))
                    (sym (append-nil removed)),
                length-set s₁ (a n) x ∙ l₁,
                Holds-update s₁ store n x (omega arith) known holds₁,
                tt,
              ),
            )

  pub order-RunsTo :
      (o : ConfigurationOrder D) (pc k : ℕ) (s : List (MemoryCell D)) (removed : List ℕ)
      (store : Store N D)
      → Stands pc k (code_of_statement a pc k (order o)) (o ∷ []) s 0
      → Holds Known a base s store
      → RunsTo doubles program
          (machine pc base s removed)
          (run_statement doubles (order o) store)
          (Ran (pc + 1) s removed)
  unfolding code_of_statement run_statement orders_of execute_instruction
  order-RunsTo o pc k s removed store (code, orders, fits, short, small) holds = (
    machine (pc + 1) base s (removed ++ k ∷ []),
    Runs-one doubles program (instruct outputc (size_cell k)) pc base s removed _ code.0 small refl,
    (s, k ∷ [], refl, refl, holds, (orders.0, tt)),
  )

  pub if-RunsTo :
      (c : Expression N D) (body : Statements N D) (pc k : ℕ) (s : List (MemoryCell D))
      (removed : List ℕ) (store : Store N D)
      → Stands pc k
          (code_of_statement a pc k (if_then c body))
          (orders_of (if_then c body))
          s
          (depth_of (if_then c body))
      → Uses Known c
      → Holds Known a base s store
      → ((s₁ : List (MemoryCell D))
          → Stands
              (pc + length (code_of a c) + 1)
              k
              (code_of_statements a (pc + length (code_of a c) + 1) k body)
              (orders_of_all body)
              s₁
              (depth_of_all body)
          → Holds Known a base s₁ store
          → RunsTo doubles program
              (machine (pc + length (code_of a c) + 1) base s₁ removed)
              (run_statements doubles body store)
              (Ran
                (pc
                  + length (code_of a c)
                  + 1
                  + length (code_of_statements a (pc + length (code_of a c) + 1) k body))
                s₁
                removed))
      → RunsTo doubles program
          (machine pc base s removed)
          (run_statement doubles (if_then c body) store)
          (Ran (pc + length (code_of_statement a pc k (if_then c body))) s removed)
  unfolding code_of_statement run_statement depth_of orders_of
  if-RunsTo c body pc k s removed store (code, orders, fits, short, small) uses holds inside =
      let test = code_of a c in
      let pc₁ = pc + length test in
      let inner = code_of_statements a (pc₁ + 1) k body in
      let target = pc₁ + 1 + length inner in
      let jump = instruct jumpzero (size_cell target) in
      let len = length-append test (jump ∷ inner) in
      let after = CodeAt-right program pc test (jump ∷ inner) code in
      RunsTo-bind doubles program (machine pc base s removed) (eval doubles store c) _
        (Pushed pc₁ base s removed) _
        (code_of-RunsTo doubles Known a base program store c pc base s removed
          (CodeAt-left program pc test (jump ∷ inner) code) uses holds (omega arith) (omega arith)
          short (omega (arith, len)))
        λ x m (s₁, same, l₁, below, top).
          let holds₁ = Holds-Below Known a base base s s₁ store (omega arith) below holds in
          let wide = get_elem?-inside s₁ base x top in
          RunsTo-at doubles Known a base program store m (machine pc₁ (base + 1) s₁ removed)
            (get_bool x >>= λ b. if b then run_statements doubles body store else done (store, []))
            (Ran (pc + length (test ++ jump ∷ inner)) s removed) same
            (RunsTo-branch doubles program jump pc₁ target (base + 1) base s₁ removed (get_bool x)
              (run_statements doubles body store) (done (store, []))
              (Ran (pc + length (test ++ jump ∷ inner)) s removed) after.0 (omega (arith, len))
              (jumpzero_lem doubles target x (pc₁ + 1) base s₁ removed top (omega arith))
              (RunsTo-weaken doubles program (machine (pc₁ + 1) base s₁ removed)
                (run_statements doubles body store) (Ran target s₁ removed)
                (Ran (pc + length (test ++ jump ∷ inner)) s removed)
                (λ r m' (s', is, at, same', holds', names). (
                  s',
                  is,
                  at ∙ ap (λ z. machine z base s' (removed ++ is)) (omega (arith, len)),
                  same' ∙ l₁,
                  holds',
                  names,
                ))
                (inside s₁
                  (after.1, orders, omega (arith, l₁), omega (arith, l₁), omega (arith, len))
                  holds₁))
              (RunsTo-done doubles program (machine target base s₁ removed) (store, [])
                (Ran (pc + length (test ++ jump ∷ inner)) s removed)
                (
                  s₁,
                  [],
                  ap₂ (λ p q. machine p base s₁ q) (omega (arith, len)) (sym (append-nil removed)),
                  l₁,
                  holds₁,
                  tt,
                )))
