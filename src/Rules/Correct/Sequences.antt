-- ===== src/Rules/Correct/Sequences.antt =====
-- The code of a sequence of statements does what the statements mean.
use auto_pas.Prelude.{
  ℕ, ◌+◌, ◌≡◌, refl, ap₂, ◌∙◌, sym, subst, List, [], ◌++◌, length, length-append, arith,
}
use mathlib.Core.List.{append_assoc, append-nil}
use auto_pas.Prelude.Classes.{Eq}
use auto_pas.Rules.Vm.{MemoryCell, Instruction, done, ◌>>=◌, Doubles}
use auto_pas.Rules.Patterns.{ConfigurationOrder}
use auto_pas.Rules.Syntax.{
  Statement, define_list, define, if_then, order, Statements, none_left, next,
}
use auto_pas.Rules.Meaning.{Store, run_statement, run_statements}
use auto_pas.Rules.Compile.{
  code_of, count, code_of_statement, code_of_statements, depth_of, depth_of_all, orders_of,
  orders_of_all,
}
use auto_pas.Rules.Compile.Generated.Statements.{length-orders_of}
use auto_pas.Rules.Correct.{
  machine, CodeAt, CodeAt-left, CodeAt-right, RunsTo, RunsTo-bind, RunsTo-done,
}
use auto_pas.Rules.Correct.Expressions.{Holds, RunsTo-at}
use auto_pas.Rules.Correct.Statements.{
  UsesIn, UsesInAll, Names-append, Ran, Stands, define-RunsTo, order-RunsTo, if-RunsTo,
}

module _ {N D : Type 0} ⦃e : Eq N⦄ (doubles : Doubles D) (Known : N → Type 0) (a : N → ℕ) (base : ℕ)
    (program : List (Instruction D)) (all : List (ConfigurationOrder D))
    (apart : (n k : N) → Known n → Known k → a n ≡ a k → n ≡ k) where
  mutual
    unfolding code_of_statement code_of_statements run_statement run_statements depth_of
        depth_of_all orders_of orders_of_all UsesIn UsesInAll

    statement-RunsTo :
        (t : Statement N D) (pc k : ℕ) (s : List (MemoryCell D)) (removed : List ℕ)
        (store : Store N D)
        → Stands doubles Known a base program all apart pc k
            (code_of_statement a pc k t)
            (orders_of t)
            s
            (depth_of t)
        → UsesIn Known t
        → Holds Known a base s store
        → RunsTo doubles program (machine pc base s removed) (run_statement doubles t store) (
            Ran doubles Known a base program all apart
              (pc + length (code_of_statement a pc k t))
              s
              removed)
    statement-RunsTo (define_list n l) pc k s removed store stands uses holds =
        RunsTo-done doubles program (machine pc base s removed) (store, [])
          (Ran doubles Known a base program all apart (pc + 0) s removed)
          (
            s,
            [],
            ap₂ (λ p q. machine p base s q) (omega arith) (sym (append-nil removed)),
            refl,
            holds,
            tt,
          )
    statement-RunsTo (define n v) pc k s removed store stands uses holds =
        define-RunsTo doubles Known a base program all apart n v pc k s removed store stands uses
          holds
    statement-RunsTo (if_then c body) pc k s removed store stands uses holds =
        if-RunsTo doubles Known a base program all apart c body pc k s removed store stands uses.0
          holds
          λ s₁ stands₁ holds₁.
            statements-RunsTo body (pc + length (code_of a c) + 1) k s₁ removed store stands₁ uses.1
              holds₁
    statement-RunsTo (order o) pc k s removed store stands uses holds =
        order-RunsTo doubles Known a base program all apart o pc k s removed store stands holds

    pub statements-RunsTo :
        (ts : Statements N D) (pc k : ℕ) (s : List (MemoryCell D)) (removed : List ℕ)
        (store : Store N D)
        → Stands doubles Known a base program all apart pc k
            (code_of_statements a pc k ts)
            (orders_of_all ts)
            s
            (depth_of_all ts)
        → UsesInAll Known ts
        → Holds Known a base s store
        → RunsTo doubles program (machine pc base s removed) (run_statements doubles ts store) (
            Ran doubles Known a base program all apart
              (pc + length (code_of_statements a pc k ts))
              s
              removed)
    statements-RunsTo none_left pc k s removed store stands uses holds =
        RunsTo-done doubles program (machine pc base s removed) (store, [])
          (Ran doubles Known a base program all apart (pc + 0) s removed)
          (
            s,
            [],
            ap₂ (λ p q. machine p base s q) (omega arith) (sym (append-nil removed)),
            refl,
            holds,
            tt,
          )
    statements-RunsTo (next t ts) pc k s removed store (code, orders, fits, short, small) uses
          holds =
        let first = code_of_statement a pc k t in
        let others = code_of_statements a (pc + length first) (k + count t) ts in
        let len = length-append first others in
        let here = CodeAt-left program pc first others code in
        let there = CodeAt-right program pc first others code in
        let own = CodeAt-left all k (orders_of t) (orders_of_all ts) orders in
        let later =
          subst (λ z. CodeAt all (k + z) (orders_of_all ts)) (length-orders_of t)
            (CodeAt-right all k (orders_of t) (orders_of_all ts) orders) in
        RunsTo-bind doubles program (machine pc base s removed) (run_statement doubles t store) _
          (Ran doubles Known a base program all apart (pc + length first) s removed) _
          (statement-RunsTo t pc k s removed store
            (here, own, omega arith, short, omega (arith, len)) uses.0 holds)
          λ r m (s₁, is, same, l₁, holds₁, names).
            let pc₁ = pc + length first in
            let out = removed ++ is in
            RunsTo-at doubles Known a base program store m (machine pc₁ base s₁ out)
              (run_statements doubles ts r.0 >>= λ rest. done (rest.0, r.1 ++ rest.1))
              (Ran doubles Known a base program all apart (pc + length (first ++ others)) s removed)
              same
              (RunsTo-bind doubles program (machine pc₁ base s₁ out) (run_statements doubles ts r.0)
                _ (Ran doubles Known a base program all apart (pc₁ + length others) s₁ out) _
                (statements-RunsTo ts pc₁ (k + count t) s₁ out r.0
                  (there, later, omega (arith, l₁), omega (arith, l₁), omega (arith, len)) uses.1
                  holds₁)
                λ rest m' (s₂, js, same', l₂, holds₂, names').
                  RunsTo-done doubles program m' (rest.0, r.1 ++ rest.1)
                    (Ran doubles Known a base program all apart (pc + length (first ++ others)) s
                      removed)
                    (
                      s₂,
                      is ++ js,
                      same'
                          ∙ ap₂ (λ p q. machine p base s₂ q) (omega (arith, len))
                              (append_assoc removed is js),
                      l₂ ∙ l₁,
                      holds₂,
                      Names-append all is js r.1 rest.1 names names',
                    ))
