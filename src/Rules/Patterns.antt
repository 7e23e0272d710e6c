-- ===== src/Rules/Patterns.antt =====
-- src/autopas/selectors/tuningStrategy/ruleBasedTuning/RuleBasedProgramTree.h: the patterns that
-- match configurations and the orders between them. An option is the number of its enumerator; the
-- cell size factor is a value of any type with equality. A set is the list of its elements.
pub mod Orders
pub mod Equality
use auto_pas.Prelude.{
  ℕ, ◌≡◌, refl, ◌↔◌, Bool, true, false, not, ◌&&◌, ◌||◌, ◌==◌, Bool-cases, if◌then◌else◌, List, [],
  ◌∷◌, arith,
}
use auto_pas.Prelude.Classes.{Eq, nat_eq}
use auto_pas.Rules.Vm.{
  MemoryCell, double_cell, size_cell, container_cell, traversal_cell, load_estimator_cell,
  data_layout_cell, newton3_cell,
}

pub record Configuration (D : Type 0) : Type 0 where
  pub container : ℕ
  pub traversal : ℕ
  pub load_estimator : ℕ
  pub data_layout : ℕ
  pub newton3 : ℕ
  pub cell_size_factor : D

pub record ConfigurationPattern (D : Type 0) : Type 0 where
  pub containers : List ℕ
  pub traversals : List ℕ
  pub load_estimators : List ℕ
  pub data_layouts : List ℕ
  pub newton3_options : List ℕ
  pub cell_size_factors : List D

pub data SameProperty : Type 0 where
  container traversal data_layout newton3 load_estimator cell_size_factor : SameProperty

pub record ConfigurationOrder (D : Type 0) : Type 0 where
  pub greater : ConfigurationPattern D
  pub smaller : ConfigurationPattern D
  pub same_properties : List SameProperty

module _ {K : Type 0} ⦃e : Eq K⦄ where
  unfoldable pub contains : List K → K → Bool
  contains [] k = false
  contains (x ∷ xs) k = e.beq x k || contains xs k

  unfoldable pub insert : K → List K → List K
  unfolding contains
  insert k xs = if contains xs k then xs else k ∷ xs

  -- An empty set allows everything.
  unfoldable pub allows : List K → K → Bool
  unfolding contains
  allows [] k = true
  allows (x ∷ xs) k = contains (x ∷ xs) k

module _ {D : Type 0} ⦃e : Eq D⦄ where
  -- A `bool` or `size_t` fits none of the sets.
  unfoldable pub add : MemoryCell D → ConfigurationPattern D → ConfigurationPattern D
  unfolding insert
  add (container_cell k) p = record p { containers = insert k p.containers }
  add (traversal_cell k) p = record p { traversals = insert k p.traversals }
  add (load_estimator_cell k) p = record p { load_estimators = insert k p.load_estimators }
  add (data_layout_cell k) p = record p { data_layouts = insert k p.data_layouts }
  add (newton3_cell k) p = record p { newton3_options = insert k p.newton3_options }
  add (double_cell x) p = record p { cell_size_factors = insert x p.cell_size_factors }
  add c p = p

  unfoldable pub matches : ConfigurationPattern D → Configuration D → Bool
  unfolding allows
  matches p c =
      allows p.containers c.container
      && allows p.traversals c.traversal
      && allows p.load_estimators c.load_estimator
      && allows p.data_layouts c.data_layout
      && allows p.newton3_options c.newton3
      && allows p.cell_size_factors c.cell_size_factor

  unfoldable pub is_equal_in : SameProperty → Configuration D → Configuration D → Bool
  is_equal_in SameProperty.container a b = a.container == b.container
  is_equal_in SameProperty.traversal a b = a.traversal == b.traversal
  is_equal_in SameProperty.data_layout a b = a.data_layout == b.data_layout
  is_equal_in SameProperty.newton3 a b = a.newton3 == b.newton3
  is_equal_in SameProperty.load_estimator a b = a.load_estimator == b.load_estimator
  is_equal_in SameProperty.cell_size_factor a b = e.beq a.cell_size_factor b.cell_size_factor

  unfoldable pub equal_in_all : List SameProperty → Configuration D → Configuration D → Bool
  unfolding is_equal_in
  equal_in_all [] a b = true
  equal_in_all (same ∷ rest) a b =
      if not (is_equal_in same a b) then false else equal_in_all rest a b

  unfoldable pub have_equal_same_properties :
      ConfigurationOrder D → Configuration D → Configuration D → Bool
  unfolding equal_in_all
  have_equal_same_properties o a b = equal_in_all o.same_properties a b
