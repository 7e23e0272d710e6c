-- ===== src/Rules/Tuning/Applied.antt =====
-- What the rules do to the search space.
use auto_pas.Prelude.{
  ℕ, ◌+◌, ◌<◌, ◌≡◌, refl, sym, subst, true, Option, none, some, List, [], ◌∷◌, length, word, arith,
}
use auto_pas.Prelude.Classes.{Eq}
use auto_pas.Rules.Vm.{Reply, done, fault, Doubles}
use auto_pas.Rules.Patterns.{ConfigurationPattern, ConfigurationOrder}
use auto_pas.Rules.Execute.{execute}
use auto_pas.Rules.Syntax.{Statements}
use auto_pas.Rules.Syntax.Context.{CodeGenerationContext, smaller_configuration_pattern_by_index}
use auto_pas.Rules.Meaning.{run_statements}
use auto_pas.Rules.Compile.{scoped_all, orders_of_all}
use auto_pas.Rules.Compile.Generated.Programs.{
  final_environment, body_of, program_of, generate_program-code,
}
use auto_pas.Rules.Correct.Programs.{Agrees, program_of-Agrees}
use auto_pas.Rules.Correct.Statements.{Names}
use auto_pas.Rules.Tuning.{
  RuleBasedTuning, context_of, initial_stack, applicable, restrict, apply_outputs, apply_rules,
}
use auto_pas.Rules.Tuning.Globals.{Distinct, live_store, context_of-Added}
use auto_pas.Rules.Tuning.Stores.{initial_store-live}

abbrev pub smallers : {D : Type 0} → List (ConfigurationOrder D) → List (ConfigurationPattern D)
smallers [] = []
smallers (o ∷ os) = o.smaller ∷ smallers os

module _ {N D : Type 0} ⦃e : Eq N⦄ where
  applicable-Names :
      (c : CodeGenerationContext N D) (is : List ℕ) (os : List (ConfigurationOrder D))
      → Names c.configuration_orders is os
      → applicable c is ≡ done (smallers os, os)
  unfolding applicable smaller_configuration_pattern_by_index
  applicable-Names c [] [] h = refl
  applicable-Names c [] (o ∷ os) h = absurd h
  applicable-Names c (i ∷ is) [] h = absurd h
  applicable-Names c (i ∷ is) (o ∷ os) h =
      rw (smaller_configuration_pattern_by_index, h.0, applicable-Names c is os h.1) refl

module _ {N D : Type 0} ⦃e : Eq N⦄ ⦃d : Eq D⦄ (doubles : Doubles D) where
  -- The outcome of the rules: the fault of the program, or the search space restricted by the orders
  -- that the program applies.
  abbrev pub Settles :
      {S : Type 0}
      → RuleBasedTuning N D
      → Reply (S × List (ConfigurationOrder D))
      → Option (Reply (RuleBasedTuning N D × List (ConfigurationOrder D)))
      → Type 0
  Settles s (fault problem) outcome = outcome ≡ some (fault problem)
  Settles s (done (store, os)) outcome = outcome ≡ some (done (restrict (smallers os) s, os))

  settle :
      {S : Type 0} (s : RuleBasedTuning N D) (c : CodeGenerationContext N D)
      (all : List (ConfigurationOrder D)) (r : Reply (S × List (ConfigurationOrder D)))
      (outcome : Option (Reply (List ℕ)))
      → c.configuration_orders ≡ all
      → Agrees all r outcome
      → Settles s r (elim outcome [ none ↦ none | some outputs ↦ some (apply_outputs c outputs s) ])
  unfolding apply_outputs
  settle s c all (fault problem) outcome orders agrees = rw agrees refl
  settle s c all (done (store, os)) outcome orders (is, same, names) =
      rw
        (
          same,
          apply_outputs,
          applicable-Names c is os (subst (λ z. Names z is os) (sym orders) names),
        )
        refl

  -- The whole way from the parsed rules to the search space, code generation and virtual machine
  -- included, does what the rules mean: it fails as the rules do on the values of the live info, or
  -- removes what is matched by the smaller pattern of an order that they apply. The names of the
  -- live info are distinct, every variable is defined before its use, and the program and its
  -- variables are less than 2 ^ 64 together. Enough rounds of the machine are given by a number, and
  -- more make no difference.
  pub apply_rules-meaning :
      (tree : Statements N D) (s : RuleBasedTuning N D)
      → Distinct s.current_live_info
      → scoped_all (context_of s.current_live_info).address_environment tree ≡ true
      → length s.current_live_info < word
      → length (final_environment (context_of s.current_live_info) tree)
          + length (body_of (context_of s.current_live_info) tree)
          + 2
        < word
      → (rounds : ℕ) × ((fuel : ℕ)
          → Settles s
              (run_statements doubles tree (live_store s.current_live_info))
              (apply_rules doubles (rounds + fuel) tree s))
  unfolding apply_rules
  apply_rules-meaning tree s distinct h few small =
      let infos = s.current_live_info in
      let c = context_of infos in
      let added = context_of-Added infos distinct few in
      let g = added.global in
      let code = generate_program-code tree c g.fresh h (omega (arith, small)) in
      let agrees =
        program_of-Agrees doubles tree c (initial_stack infos) g.placed g.initial g.long h small in
      let all = orders_of_all tree in
      (
        agrees.0,
        λ fuel.
            let outcome =
              execute doubles (agrees.0 + fuel) (program_of c tree) (initial_stack infos) in
            rw (apply_rules, code.1)
              (settle s code.0 all (run_statements doubles tree (live_store infos)) outcome code.2 (
                subst (λ z. Agrees all (run_statements doubles tree z) outcome)
                  (initial_store-live infos c tree added) (agrees.1 fuel))),
      )
