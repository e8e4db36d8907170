-- ===== src/CallGraph/Edges.antt =====
-- The observations through which the structure of the call graph is stated, and what each step of
-- CallGraph::create does to them.
use program_partitioning_for.Base.{
  ◌≡◌, refl, ap, Bool, true, false, not, ◌&&◌, ◌||◌, List, [], ◌∷◌, ◌++◌, Option, none, some, inl,
  inr, arith, ◌==◌, ==_iff, if◌then◌else◌, find, put, contains, insert, find-put, Bool-cases,
}
use program_partitioning_for.Llvm.{FunctionRef}
use program_partitioning_for.Numbers.{Scalar}
use program_partitioning_for.CallGraph.{
  Edge, Node, CallGraph, has_function_node, new_edge, new_node, add_out_edge, enter_sink,
  get_or_add_node, connect,
}

module _ {T : Type 0} where
  abbrev pub sinks : List (Edge T) → List FunctionRef
  sinks [] = []
  sinks (e ∷ es) = e.sink ∷ sinks es

  abbrev pub sources : List (Edge T) → List FunctionRef
  sources [] = []
  sources (e ∷ es) = e.source ∷ sources es

  abbrev sinks_at : Option (Node T) → List FunctionRef
  sinks_at none = []
  sinks_at (some n) = sinks n.out_edges

  abbrev sources_at : Option (Node T) → List FunctionRef
  sources_at none = []
  sources_at (some n) = sources n.in_edges

  abbrev children_at : Option (Node T) → List FunctionRef
  children_at none = []
  children_at (some n) = n.children

  -- The functions at the ends of the edges out of a function's node, those at the starts of the edges
  -- into it, and its children.
  unfoldable pub out_sinks : CallGraph T → FunctionRef → List FunctionRef
  out_sinks g a = sinks_at (find a g)

  unfoldable pub in_sources : CallGraph T → FunctionRef → List FunctionRef
  in_sources g b = sources_at (find b g)

  unfoldable pub children_of : CallGraph T → FunctionRef → List FunctionRef
  children_of g a = children_at (find a g)

  pub sinks-append :
      (es : List (Edge T)) (e : Edge T) → sinks (es ++ e ∷ []) ≡ sinks es ++ e.sink ∷ []
  sinks-append [] e = refl
  sinks-append (d ∷ es) e = ap (◌∷◌ d.sink) (sinks-append es e)

  pub sources-append :
      (es : List (Edge T)) (e : Edge T) → sources (es ++ e ∷ []) ≡ sources es ++ e.source ∷ []
  sources-append [] e = refl
  sources-append (d ∷ es) e = ap (◌∷◌ d.source) (sources-append es e)

module _ (s : Scalar) (g : CallGraph s.T) where
  pub has-get_or_add_node :
      (f a : FunctionRef)
      → has_function_node a (get_or_add_node s f g) ≡ (f == a || has_function_node a g)
  unfolding has_function_node get_or_add_node
  has-get_or_add_node f a = elim (Bool-cases (f == a)) [
    | inl e ↦ rw (same e) (ground (arith, find-put a (new_node s a) g a))
    | inr e ↦ ground (arith, find-put f (new_node s f) g a)
  ]
    where
      same : (f == a) ≡ true → f ≡ a
      same e = (==_iff f a).0 e

  -- A new node has no edge.
  pub edges-get_or_add_node :
      (f a : FunctionRef)
      → (out_sinks (get_or_add_node s f g) a ≡ out_sinks g a)
        × (in_sources (get_or_add_node s f g) a ≡ in_sources g a)
        × (children_of (get_or_add_node s f g) a ≡ children_of g a)
  unfolding out_sinks in_sources children_of get_or_add_node
  edges-get_or_add_node f a = elim (Bool-cases (f == a)) [
    | inl e ↦ rw ((==_iff f a).0 e) (ground (arith, find-put a (new_node s a) g a))
    | inr e ↦ ground (arith, find-put f (new_node s f) g a)
  ]

-- What `connect` leaves at a function's node.
module _ (s : Scalar) (g : CallGraph s.T) (source sink : FunctionRef) where
  abbrev edge : Edge s.T
  edge = new_edge s source sink

  -- The source's node with the edge, where the sink is a new child.
  abbrev linked : Node s.T → Node s.T
  linked n = record n { children = insert sink n.children; out_edges = n.out_edges ++ edge ∷ [] }

  abbrev entered : Node s.T → Node s.T
  entered m = record m { in_edges = m.in_edges ++ edge ∷ [] }

  find-connect_old :
      (n : Node s.T) (a : FunctionRef)
      → find source g ≡ some n
      → contains n.children sink ≡ true
      → find a (connect s source sink g) ≡ find a g
  unfolding connect add_out_edge new_edge
  find-connect_old n a at_source old =
      rw (at_source, connect)
        (rw (old, add_out_edge)
          (elim (Bool-cases (source == a)) [
            | inl e ↦ ground (arith, find-put source n g a, (==_iff source a).0 e)
            | inr e ↦ ground (arith, find-put source n g a)
          ]))

  find-enter_sink :
      (h : CallGraph s.T) (m : Node s.T) (a : FunctionRef)
      → find sink h ≡ some m
      → find a (enter_sink edge h) ≡ (if sink == a then some (entered m) else find a h)
  unfolding enter_sink new_edge
  find-enter_sink h m a at_sink = rw (at_sink, enter_sink) (find-put sink (entered m) h a)

  -- A new child: the source's node gets the edge first, then the sink's, which may be the same node.
  find-connect_new :
      (n m : Node s.T) (a : FunctionRef)
      → find source g ≡ some n
      → find sink g ≡ some m
      → contains n.children sink ≡ false
      → find a (connect s source sink g) ≡ (
          if sink == a
          then some (entered (if source == sink then linked n else m))
          else (if source == a then some (linked n) else find a g))
  unfolding connect add_out_edge
  find-connect_new n m a at_source at_sink new =
      rw (at_source, connect)
        (rw (new, add_out_edge)
          (rw
            (find-enter_sink (put source (linked n) g) (if source == sink then linked n else m) a
              (ground (arith, find-put source (linked n) g sink)))
            (ground (arith, find-put source (linked n) g a))))

  abbrev pub is_new : Bool
  is_new = not (contains (children_of g source) sink)

  node_at : (a : FunctionRef) → has_function_node a g ≡ true → (n : Node s.T) × (find a g ≡ some n)
  unfolding has_function_node
  node_at a h = ground arith

  -- The source gets an edge to the sink, and the sink one from the source, exactly where the sink was no
  -- child of the source; no other node changes.
  pub edges-connect :
      (a : FunctionRef)
      → has_function_node source g ≡ true
      → has_function_node sink g ≡ true
      → (out_sinks (connect s source sink g) a
          ≡ (if source == a && is_new then out_sinks g a ++ sink ∷ [] else out_sinks g a))
        × (in_sources (connect s source sink g) a
            ≡ (if sink == a && is_new then in_sources g a ++ source ∷ [] else in_sources g a))
        × (children_of (connect s source sink g) a
            ≡ (if source == a then insert sink (children_of g a) else children_of g a))
        × (has_function_node a (connect s source sink g) ≡ has_function_node a g)
  unfolding out_sinks in_sources children_of has_function_node insert new_edge
  edges-connect a hs hk =
      let (n, at_source) = node_at source hs in
      let (m, at_sink) = node_at sink hk in
      elim (Bool-cases (contains n.children sink)) [
        | inl old ↦ ground (arith, find-connect_old n a at_source old)
        | inr new ↦ ground (
          arith,
          find-connect_new n m a at_source at_sink new,
          sinks-append n.out_edges edge,
          sources-append m.in_edges edge,
          sources-append n.in_edges edge,
        )
      ]
