-- ===== src/CallGraph.antt =====
-- lib/Analysis/CallGraph.cpp and include/Analysis/CallGraph.h: the call graph with weights, and how it
-- is built from LLVM's. A Node* is known by its function, since the graph has one node for each.
pub mod Weights
pub mod Edges
pub mod Mirror
pub mod Assign
pub mod Calls
pub mod Normalize
pub mod Placed
pub mod Located
pub mod Weighted
pub mod Infinite
use program_partitioning_for.Base.{
  ℕ, Bool, true, false, List, [], ◌∷◌, ◌++◌, Option, none, some, ◌==◌, if◌then◌else◌, find, put,
  contains, insert,
}
use program_partitioning_for.Llvm.{FunctionRef, null}
use program_partitioning_for.Numbers.{Scalar}
use Weights.{WeightFactor, new_weight}

pub record Edge (T : Type 0) : Type 0 where
  pub source : FunctionRef
  pub sink : FunctionRef
  pub weight : List (WeightFactor T)

pub record Node (T : Type 0) : Type 0 where
  pub function : FunctionRef
  pub in_edges : List (Edge T)
  pub out_edges : List (Edge T)
  pub children : List FunctionRef
  pub weight : List (WeightFactor T)

-- m_functionNodes
abbrev pub CallGraph : Type 0 → Type 0
CallGraph T = List (FunctionRef × Node T)

-- A node of llvm::CallGraph: its function, null for the two external nodes, and the functions of the
-- nodes that it is connected to.
pub record LlvmNode : Type 0 where
  pub function : FunctionRef
  pub callees : List FunctionRef

module _ {T : Type 0} where
  -- hasFunctionNode; getFunctionNode asserts it, and its result is `find`'s.
  unfoldable pub has_function_node : FunctionRef → CallGraph T → Bool
  has_function_node f g = elim (find f g) [ none ↦ false | some n ↦ true ]

  -- Node::addInEdge
  unfoldable pub add_in_edge : Edge T → Node T → Node T
  add_in_edge edge n = record n { in_edges = n.in_edges ++ edge ∷ [] }

  -- Node::addOutEdge: whether the sink was no child yet comes with the node.
  unfoldable pub add_out_edge : Edge T → Node T → Node T × Bool
  add_out_edge edge n = if contains n.children edge.sink then (n, false) else (
    record n { children = insert edge.sink n.children; out_edges = n.out_edges ++ edge ∷ [] },
    true,
  )

  -- sinkNode->addInEdge(edge)
  unfoldable pub enter_sink : Edge T → CallGraph T → CallGraph T
  unfolding add_in_edge
  enter_sink edge g = elim (find edge.sink g) [
    | none ↦ g
    | some m ↦ put edge.sink (add_in_edge edge m) g
  ]

module _ (s : Scalar) where
  open s use {T}

  -- Node(F)
  unfoldable pub new_node : FunctionRef → Node T
  new_node f = record {
    function = f;
    in_edges = [];
    out_edges = [];
    children = [];
    weight = new_weight s;
  }

  -- getOrAddNode
  unfoldable pub get_or_add_node : FunctionRef → CallGraph T → CallGraph T
  unfolding new_node
  get_or_add_node f g = elim (find f g) [ none ↦ put f (new_node f) g | some n ↦ g ]

  -- Edge(source, sink)
  unfoldable pub new_edge : FunctionRef → FunctionRef → Edge T
  new_edge source sink = record { source = source; sink = sink; weight = new_weight s }

  -- The end of addNodeConnections, where both nodes are there.
  unfoldable pub connect : FunctionRef → FunctionRef → CallGraph T → CallGraph T
  unfolding new_edge add_out_edge enter_sink
  connect source sink g = elim (find source g) [
    | none ↦ g
    | some n ↦
        let edge = new_edge source sink in
        let (n', inserted) = add_out_edge edge n in
        let g' = put source n' g in if inserted then enter_sink edge g' else g'
  ]

  -- addNodeConnections
  unfoldable pub add_node_connections : FunctionRef → FunctionRef → CallGraph T → CallGraph T
  unfolding get_or_add_node connect
  add_node_connections callee source g =
      if callee == null then g else connect source callee (get_or_add_node callee g)

  unfoldable pub add_connections : List FunctionRef → FunctionRef → CallGraph T → CallGraph T
  unfolding add_node_connections
  add_connections [] source g = g
  add_connections (callee ∷ rest) source g =
      add_connections rest source (add_node_connections callee source g)

  -- The loop of `create` over the nodes of LLVM's graph.
  unfoldable pub create_from : List LlvmNode → CallGraph T → CallGraph T
  unfolding get_or_add_node add_connections
  create_from [] g = g
  create_from (n ∷ ns) g = create_from ns (
      if n.function == null
      then g
      else add_connections n.callees n.function (get_or_add_node n.function g))

  -- CallGraph(graph), which calls `create`
  unfoldable pub create : List LlvmNode → CallGraph T
  unfolding create_from
  create graph = create_from graph []
