-- ===== src/Rules/Types.antt =====
-- `getType` of RuleBasedProgramTree.h against the values that the virtual machine computes.
use auto_pas.Prelude.{◌≡◌, refl, sym, subst, Bool, true, false, not, if◌then◌else◌, ◌==◌}
use auto_pas.Rules.Vm.{
  MemoryCell, bool_cell, double_cell, size_cell, container_cell, traversal_cell,
  load_estimator_cell, data_layout_cell, newton3_cell, Reply, done, fault, ◌>>=◌, Doubles, is_less,
  is_greater, Operator, times, over, plus, minus, get_bool, compare_cells, compute_binary,
}
use auto_pas.Rules.Syntax.{
  RuleType, BinaryOperator, op_less, op_greater, op_and, op_or, op_add, op_sub, op_mul, op_div,
  Expression, literal, variable, negation, binary,
}
use auto_pas.Rules.Generate.{type_of, arithmetic_type, operator_type, get_type}
use auto_pas.Rules.Meaning.{Store, apply, eval}

-- If there is a value, it has the property.
abbrev Yields : {A : Type 0} → (A → Type 0) → Reply A → Type 0
Yields P (done a) = P a
Yields P (fault problem) = Unit

Yields-bind :
    {A B : Type 0} (P : A → Type 0) (Q : B → Type 0) (r : Reply A) (next : A → Reply B)
    → Yields P r
    → ((a : A) → P a → Yields Q (next a))
    → Yields Q (r >>= next)
Yields-bind P Q (done a) next h k = k a h
Yields-bind P Q (fault problem) next h k = tt

Yields-any :
    {A B : Type 0} (Q : B → Type 0) (r : Reply A) (next : A → Reply B)
    → ((a : A) → Yields Q (next a))
    → Yields Q (r >>= next)
Yields-any Q (done a) next k = k a
Yields-any Q (fault problem) next k = tt

Yields-if :
    {A : Type 0} (Q : A → Type 0) (b : Bool) (x y : Reply A)
    → Yields Q x
    → Yields Q y
    → Yields Q (if b then x else y)
Yields-if Q true x y h k = h
Yields-if Q false x y h k = k

module _ {D : Type 0} (doubles : Doubles D) where
  compute_binary-Typed :
      (o : Operator) (l r : MemoryCell D)
      → Yields
          (λ v. type_of v ≡ arithmetic_type (type_of l) (type_of r))
          (compute_binary doubles o l r)
  unfolding compute_binary
  compute_binary-Typed times (double_cell a) (double_cell b) = refl
  compute_binary-Typed over (double_cell a) (double_cell b) = refl
  compute_binary-Typed plus (double_cell a) (double_cell b) = refl
  compute_binary-Typed minus (double_cell a) (double_cell b) = refl
  compute_binary-Typed times (double_cell a) (size_cell b) = refl
  compute_binary-Typed over (double_cell a) (size_cell b) = refl
  compute_binary-Typed plus (double_cell a) (size_cell b) = refl
  compute_binary-Typed minus (double_cell a) (size_cell b) = refl
  compute_binary-Typed times (size_cell a) (double_cell b) = refl
  compute_binary-Typed over (size_cell a) (double_cell b) = refl
  compute_binary-Typed plus (size_cell a) (double_cell b) = refl
  compute_binary-Typed minus (size_cell a) (double_cell b) = refl
  compute_binary-Typed times (size_cell a) (size_cell b) = refl
  compute_binary-Typed over (size_cell a) (size_cell b) = Yields-if _ (b == 0) _ _ tt refl
  compute_binary-Typed plus (size_cell a) (size_cell b) = refl
  compute_binary-Typed minus (size_cell a) (size_cell b) = refl
  compute_binary-Typed o (bool_cell a) r = tt
  compute_binary-Typed o (container_cell a) r = tt
  compute_binary-Typed o (traversal_cell a) r = tt
  compute_binary-Typed o (load_estimator_cell a) r = tt
  compute_binary-Typed o (data_layout_cell a) r = tt
  compute_binary-Typed o (newton3_cell a) r = tt
  compute_binary-Typed o (double_cell a) (bool_cell b) = tt
  compute_binary-Typed o (double_cell a) (container_cell b) = tt
  compute_binary-Typed o (double_cell a) (traversal_cell b) = tt
  compute_binary-Typed o (double_cell a) (load_estimator_cell b) = tt
  compute_binary-Typed o (double_cell a) (data_layout_cell b) = tt
  compute_binary-Typed o (double_cell a) (newton3_cell b) = tt
  compute_binary-Typed o (size_cell a) (bool_cell b) = tt
  compute_binary-Typed o (size_cell a) (container_cell b) = tt
  compute_binary-Typed o (size_cell a) (traversal_cell b) = tt
  compute_binary-Typed o (size_cell a) (load_estimator_cell b) = tt
  compute_binary-Typed o (size_cell a) (data_layout_cell b) = tt
  compute_binary-Typed o (size_cell a) (newton3_cell b) = tt

  apply-Typed :
      (o : BinaryOperator) (l r : MemoryCell D)
      → Yields (λ v. type_of v ≡ operator_type o (type_of l) (type_of r)) (apply doubles o l r)
  apply-Typed op_less l r = Yields-any _ (compare_cells doubles is_less l r) _ λ b. refl
  apply-Typed op_greater l r = Yields-any _ (compare_cells doubles is_greater l r) _ λ b. refl
  apply-Typed op_and l r =
      Yields-any _ (get_bool r) _
        λ b. Yields-any _ (if not b then done b else get_bool l) _ λ c. refl
  apply-Typed op_or l r =
      Yields-any _ (get_bool r) _ λ b. Yields-any _ (if b then done b else get_bool l) _ λ c. refl
  apply-Typed op_add l r = compute_binary-Typed plus l r
  apply-Typed op_sub l r = compute_binary-Typed minus l r
  apply-Typed op_mul l r = compute_binary-Typed times l r
  apply-Typed op_div l r = compute_binary-Typed over l r

module _ {N D : Type 0} (doubles : Doubles D) (store : Store N D) where
  -- Every variable of the expression has a value of the type of its definition.
  abbrev pub IsTyped : Expression N D → Type 0
  IsTyped (literal v) = Unit
  IsTyped (variable n v) = type_of (store n) ≡ get_type v
  IsTyped (negation child) = IsTyped child
  IsTyped (binary o l r) = IsTyped l × IsTyped r

  eval-Yields :
      (x : Expression N D) → IsTyped x → Yields (λ v. type_of v ≡ get_type x) (eval doubles store x)
  unfolding eval get_type
  eval-Yields (literal v) h = refl
  eval-Yields (variable n v) h = h
  eval-Yields (negation child) h =
      Yields-any _ (eval doubles store child) _ λ v. Yields-any _ (get_bool v) _ λ b. refl
  eval-Yields (binary o l r) h =
      Yields-bind _ _ (eval doubles store l) _ (eval-Yields l h.0) λ a left.
        Yields-bind _ _ (eval doubles store r) _ (eval-Yields r h.1)
          λ b right. transported o a b (get_type l) (get_type r) left right
    where
      transported :
          (o : BinaryOperator) (a b : MemoryCell D) (s t : RuleType)
          → type_of a ≡ s
          → type_of b ≡ t
          → Yields (λ v. type_of v ≡ operator_type o s t) (apply doubles o a b)
      transported o a b s t left right = rw (sym left, sym right) (apply-Typed doubles o a b)

  -- `getType` is right: if an expression has a value where the variables have values of the types of
  -- their definitions, the value is of the type that `getType` gives; a fault has no type.
  pub eval-get_type :
      (x : Expression N D) (v : MemoryCell D)
      → IsTyped x
      → eval doubles store x ≡ done v
      → type_of v ≡ get_type x
  eval-get_type x v typed h = subst (Yields (λ w. type_of w ≡ get_type x)) h (eval-Yields x typed)
