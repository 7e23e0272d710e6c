-- ===== src/Rules/Compile/Generated.antt =====
-- `generateCode` of an expression leaves the code of `code_of`, or fails for want of a variable.
pub mod Environment
pub mod Statements
pub mod Branches
pub mod Programs
use auto_pas.Prelude.{
  ℕ, zero, suc, ◌+◌, ◌-◌, max, ◌≤◌, ◌<◌, ◌≡◌, refl, sym, ap, ap₂, ◌∙◌, subst, Bool, true, false,
  ◌&&◌, Bool-cases, Option-cases, inl, inr, if◌then◌else◌, List, [], ◌∷◌, ◌++◌, length,
  length-append, Option, none, some, word, add_word, sub_word, arith,
}
use mathlib.Core.List.{append_assoc}
use auto_pas.Prelude.Classes.{Eq}
use auto_pas.Rules.Vm.{MemoryCell, size_cell, Instruction, Reply, done, fault, outside, ◌>>=◌}
use auto_pas.Rules.Syntax.{BinaryOperator, Expression, literal, variable, negation, binary}
use auto_pas.Rules.Syntax.Context.{
  Binding, CodeGenerationContext, find_binding, allocate_stack, free_stack, address_of,
}
use auto_pas.Rules.Generate.{plain, op_code, generate_expression}
use auto_pas.Rules.Compile.{code_of, depth, bound}

module _ {N D : Type 0} where
  pub depth-pos : (x : Expression N D) → 1 ≤ depth x
  unfolding depth
  depth-pos (literal v) = omega arith
  depth-pos (variable n v) = omega arith
  depth-pos (negation child) = depth-pos child
  depth-pos (binary o l r) = omega (arith, depth-pos l)

  pub length-binary :
      (a : N → ℕ) (o : BinaryOperator) (l r : Expression N D)
      → length (code_of a (binary o l r)) ≡ length (code_of a l) + length (code_of a r) + 1
  unfolding code_of
  length-binary a o l r =
      length-append (code_of a l ++ code_of a r) (plain (op_code o) ∷ [])
      ∙ ap (λ n. n + 1) (length-append (code_of a l) (code_of a r))

  pub depth-le : (a : N → ℕ) (x : Expression N D) → depth x ≤ length (code_of a x)
  unfolding depth code_of
  depth-le a (literal v) = omega arith
  depth-le a (variable n v) = omega arith
  depth-le a (negation child) = omega (arith, depth-le a child, length-append (code_of a child))
  depth-le a (binary o l r) =
      omega (arith, depth-le a l, depth-le a r, depth-pos r, length-binary a o l r)

pub has_some :
    {A : Type 0} (o : Option A)
    → (elim o as (λ _. Bool) [ none ↦ false | some x ↦ true ]) ≡ true
    → (x : A) × (o ≡ some x)
has_some none h = absurd (cc h)
has_some (some x) h = (x, refl)

pub and_left : (a b : Bool) → (a && b) ≡ true → (a ≡ true) × (b ≡ true)
and_left true b h = (refl, h)
and_left false b h = absurd (cc h)

module _ {N D : Type 0} ⦃e : Eq N⦄ where
  -- The addresses are those of the environment.
  abbrev pub Knows : (N → ℕ) → List (Binding N D) → Type 0
  Knows a bs = (n : N) (b : Binding N D) → find_binding n bs ≡ some b → a n ≡ b.address

  -- One cell more is in use, and the most that were in use are noted.
  abbrev pub used : ℕ → CodeGenerationContext N D → CodeGenerationContext N D
  used d c = record c {
    current_needed_stack = c.current_needed_stack + 1;
    max_needed_stack = max c.max_needed_stack (c.current_needed_stack + d);
  }

  pub address_of-found :
      (n : N) (b : Binding N D) (c : CodeGenerationContext N D)
      → find_binding n c.address_environment ≡ some b
      → address_of n c ≡ done b.address
  unfolding address_of
  address_of-found n b c found = rw (address_of, found) refl

  free_stack-used :
      (d d' : ℕ) (c : CodeGenerationContext N D)
      → c.current_needed_stack + 2 < word
      → free_stack 1 (used d' (used d c)) ≡ used (max d (1 + d')) c
  unfolding free_stack
  free_stack-used d d' c small =
      let current : sub_word (c.current_needed_stack + 1 + 1) 1 ≡ c.current_needed_stack + 1 =
        omega arith in
      let most : max (max c.max_needed_stack (c.current_needed_stack + d))
            (c.current_needed_stack + 1 + d')
          ≡ max c.max_needed_stack (c.current_needed_stack + max d (1 + d')) =
        omega arith in
      ap₂ (λ u v. record c { current_needed_stack = u; max_needed_stack = v }) current most

  pub generate_expression-code :
      (a : N → ℕ) (x : Expression N D) (c : CodeGenerationContext N D) (is : List (Instruction D))
      → bound c.address_environment x ≡ true
      → Knows a c.address_environment
      → c.current_needed_stack + length (code_of a x) < word
      → generate_expression x c is ≡ done (used (depth x) c, is ++ code_of a x)
  unfolding generate_expression code_of depth bound allocate_stack free_stack
  generate_expression-code a (literal v) c is h k small =
      let e : add_word c.current_needed_stack 1 ≡ c.current_needed_stack + 1 = omega arith in
      rw e refl
  generate_expression-code a (variable n v) c is h k small =
      let e : add_word c.current_needed_stack 1 ≡ c.current_needed_stack + 1 = omega arith in
      let found = has_some (find_binding n c.address_environment) h in
      rw (address_of-found n found.0 c found.1, e, k n found.0 found.1) refl
  generate_expression-code a (negation child) c is h k small =
      rw
        (
          generate_expression-code a child c is h k
              (omega (arith, length-append (code_of a child))),
          append_assoc,
        )
        refl
  generate_expression-code a (binary o l r) c is h k small =
      let both = and_left (bound c.address_environment l) (bound c.address_environment r) h in
      let len = length-binary a o l r in
      let first = generate_expression-code a l c is both.0 k (omega arith) in
      let second =
        generate_expression-code a r (used (depth l) c) (is ++ code_of a l) both.1 k
          (omega (arith, depth-pos r, depth-le a r)) in
      rw (first, second)
        (ap₂ (λ u v. done (u, v))
          (free_stack-used (depth l) (depth r) c (omega (arith, depth-pos r, depth-le a r)))
          (simp append_assoc))
