-- ===== src/Rules/Tuning/Ending.antt =====
-- The rules come to an end.
use auto_pas.Prelude.{
  ℕ, ◌+◌, ◌<◌, ◌≡◌, refl, true, some, List, [], ◌∷◌, length, length-append, word, arith,
}
use auto_pas.Prelude.Classes.{Eq}
use auto_pas.Rules.Vm.{halt, Reply, Doubles}
use auto_pas.Rules.Patterns.{ConfigurationOrder}
use auto_pas.Rules.Execute.Halting.{execute-halts}
use auto_pas.Rules.Syntax.{Statements}
use auto_pas.Rules.Generate.{plain}
use auto_pas.Rules.Compile.{scoped_all}
use auto_pas.Rules.Compile.Generated.Programs.{
  address_in, final_environment, body_of, program_of, generate_program-code,
}
use auto_pas.Rules.Correct.Halting.{ForwardFrom-append, code_of_statements-ForwardFrom}
use auto_pas.Rules.Tuning.{RuleBasedTuning, context_of, initial_stack, apply_outputs, apply_rules}
use auto_pas.Rules.Tuning.Globals.{Distinct, context_of-Added}

module _ {N D : Type 0} ⦃e : Eq N⦄ ⦃d : Eq D⦄ (doubles : Doubles D) where
  -- If the names of the live info are distinct, every variable is defined before its use, and the live
  -- info and the program are less than 2 ^ 64 each, then more rounds of the machine than the
  -- generated program has instructions are enough for a result.
  pub apply_rules-halts :
      (tree : Statements N D) (s : RuleBasedTuning N D) (fuel : ℕ)
      → Distinct s.current_live_info
      → scoped_all (context_of s.current_live_info).address_environment tree ≡ true
      → length s.current_live_info < word
      → length (body_of (context_of s.current_live_info) tree) + 2 < word
      → length (body_of (context_of s.current_live_info) tree) + 2 < fuel
      → (r : Reply (RuleBasedTuning N D × List (ConfigurationOrder D))) × (apply_rules doubles fuel
            tree s
          ≡ some r)
  unfolding apply_rules
  apply_rules-halts tree s fuel distinct h few small enough =
      let infos = s.current_live_info in
      let c = context_of infos in
      let body = body_of c tree in
      let g = (context_of-Added infos distinct few).global in
      let code = generate_program-code tree c g.fresh h small in
      let forward =
        ForwardFrom-append 1 body (plain halt ∷ [])
          (code_of_statements-ForwardFrom (address_in (final_environment c tree)) tree 1 0)
          (tt, tt) in
      let size = length-append body (plain halt ∷ []) in
      let ends =
        execute-halts doubles fuel (program_of c tree) (initial_stack infos) (tt, forward)
          (omega (arith, size)) (omega (arith, size)) in
      (apply_outputs code.0 ends.0 s, rw (apply_rules, code.1, ends.1) refl)
