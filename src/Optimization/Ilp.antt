-- ===== src/Optimization/Ilp.antt =====
-- lib/Optimization/ILPOptimization.cpp: the linear program that is handed to the solver (CPLEX, which is
-- not part of the repository), and what is made of its answer.
pub mod Solution
use Prim.Native.String.{String}
use text.Mathlib.Text.{◌==◌ as str_eq}
use program_partitioning_for.Base.{
  ℕ, Bool, true, false, not, ◌&&◌, ◌||◌, List, [], ◌∷◌, ◌++◌, Option, none, some, if◌then◌else◌,
  find, insert,
}
use program_partitioning_for.Llvm.{FunctionRef, Module}
use program_partitioning_for.Numbers.{Scalar, difference, le}
use program_partitioning_for.CallGraph.{CallGraph, Node, Edge}
use program_partitioning_for.CallGraph.Weights.{
  WeightFactor, sensitive_related, size, get_factor, has_factor, factor_weight, get_value,
}
use program_partitioning_for.Partition.{
  Partition, contains_function, add_to_partition, remove_from_partition, remove_related_function,
}

-- A variable between 0 and 1, for a node by its function and for an out-edge by its ends.
pub data Variable : Type 0 where
  node_var : FunctionRef → Variable
  edge_var : FunctionRef → FunctionRef → Variable

-- The constraints that the code adds: x <= 1, x >= 1, x <= 0, and x - y + z <= 1.
pub data Constraint : Type 0 where
  at_most_one at_least_one at_most_zero : Variable → Constraint
  difference_at_most_one : Variable → Variable → Variable → Constraint

-- The model: its variables, its constraints, and the coefficients of the objective to maximize.
pub record IlpModel (T : Type 0) : Type 0 where
  pub variables : List Variable
  pub constraints : List Constraint
  pub objective : List (Variable × T)

-- IloCplex: an assignment, where `solve` succeeds.
abbrev pub Solver : Type 0 → Type 0
Solver T = IlpModel T → Option (Variable → T)

-- The constraints of a node in createConstraints.
unfoldable pub node_constraints : Module → Partition → FunctionRef → List Constraint
node_constraints m secure f =
    if contains_function secure f
    then at_most_one (node_var f) ∷ at_least_one (node_var f) ∷ []
    else (if m.is_declaration f || str_eq (m.name f) "main"
        then at_most_zero (node_var f) ∷ []
        else [])

-- ILPOptimization::Impl::apply
unfoldable pub apply_ilp : List FunctionRef → Partition × Partition → Partition × Partition
apply_ilp [] (secure, insecure) = (secure, insecure)
apply_ilp (f ∷ fs) (secure, insecure) =
    apply_ilp fs
      (remove_related_function f (add_to_partition f secure), remove_from_partition f insecure)

module _ {T : Type 0} where
  unfoldable pub edge_variables : List (Edge T) → List Variable
  edge_variables [] = []
  edge_variables (e ∷ es) = edge_var e.source e.sink ∷ edge_variables es

  -- createNodeVariables and createEdgeVariables
  unfoldable pub create_variables : CallGraph T → List Variable
  unfolding edge_variables
  create_variables [] = []
  create_variables ((f, n) ∷ g) = node_var f ∷ (edge_variables n.out_edges ++ create_variables g)

  unfoldable pub edge_constraints : List (Edge T) → List Constraint
  edge_constraints [] = []
  edge_constraints (e ∷ es) =
      let x = edge_var e.source e.sink in
      difference_at_most_one x (node_var e.source) (node_var e.sink)
      ∷ difference_at_most_one x (node_var e.sink) (node_var e.source)
      ∷ edge_constraints es

  -- createConstraints
  unfoldable pub create_constraints : Module → Partition → CallGraph T → List Constraint
  unfolding node_constraints edge_constraints
  create_constraints m secure [] = []
  create_constraints m secure ((f, n) ∷ g) =
      node_constraints m secure f ++ (edge_constraints n.out_edges ++ create_constraints m secure g)

module _ (s : Scalar) where
  open s use {T, zero, one}

  unfoldable pub edge_objective : List (Edge T) → List (Variable × T)
  edge_objective [] = []
  edge_objective (e ∷ es) = (edge_var e.source e.sink, get_value s e.weight) ∷ edge_objective es

  unfoldable pub node_objective : List (WeightFactor T) → T
  node_objective weight =
      difference s
        (if has_factor s sensitive_related weight
          then factor_weight s (get_factor s sensitive_related weight)
          else zero)
        (if has_factor s size weight then factor_weight s (get_factor s size weight) else zero)

  -- createObjective
  unfoldable pub create_objective : CallGraph T → List (Variable × T)
  unfolding edge_objective node_objective
  create_objective [] = []
  create_objective ((f, n) ∷ g) =
      (node_var f, node_objective n.weight) ∷ (edge_objective n.out_edges ++ create_objective g)

  unfoldable pub create_model : Module → Partition → CallGraph T → IlpModel T
  unfolding create_variables create_constraints create_objective
  create_model m secure g = record {
    variables = create_variables g;
    constraints = create_constraints m secure g;
    objective = create_objective g;
  }

  -- The loop over the node variables: those with the value 1 are moved.
  unfoldable pub chosen : (Variable → T) → CallGraph T → List FunctionRef → List FunctionRef
  chosen value [] acc = acc
  chosen value ((f, n) ∷ g) acc =
      chosen value g (if s.eq (value (node_var f)) one then insert f acc else acc)

  -- ILPOptimization::Impl::run: with no solution nothing is moved.
  unfoldable pub run_ilp : Solver T → Module → Partition → CallGraph T → List FunctionRef
  unfolding create_model chosen
  run_ilp solve m secure g = elim (solve (create_model m secure g)) [
    | none ↦ []
    | some value ↦ chosen value g []
  ]
