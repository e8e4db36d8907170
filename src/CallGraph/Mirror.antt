-- ===== src/CallGraph/Mirror.antt =====
-- The structure of the call graph that CallGraph::create builds: each edge is kept at both its ends,
-- once, and there is one exactly where LLVM's graph has a connection between two functions.
use program_partitioning_for.Base.{
  ℕ, ◌≡◌, refl, ◌∙◌, Bool, true, false, not, ◌&&◌, ◌||◌, List, [], ◌∷◌, ◌++◌, inl, inr, arith, ◌==◌,
  if◌then◌else◌, find, contains, Bool-cases, IsUnique, append-IsUnique, contains-append,
  contains-insert, any,
}
use program_partitioning_for.Llvm.{FunctionRef, null}
use program_partitioning_for.Numbers.{Scalar}
use program_partitioning_for.CallGraph.{
  CallGraph, LlvmNode, has_function_node, get_or_add_node, connect, add_node_connections,
  add_connections, create_from, create,
}
use program_partitioning_for.CallGraph.Edges.{
  out_sinks, in_sources, children_of, has-get_or_add_node, edges-get_or_add_node, edges-connect,
}

-- The children of a node are the sinks of its out-edges; a function is the source of an in-edge of
-- another exactly if that is the sink of an out-edge of it; and no two edges have the same ends.
pub record IsMirrored {T : Type 0} (g : CallGraph T) : Type 0 where
  pub children : (a b : FunctionRef) → contains (children_of g a) b ≡ contains (out_sinks g a) b
  pub mirrored : (a b : FunctionRef) → contains (in_sources g b) a ≡ contains (out_sinks g a) b
  pub out_unique : (a : FunctionRef) → IsUnique (out_sinks g a)
  pub in_unique : (b : FunctionRef) → IsUnique (in_sources g b)

if-append-IsUnique :
    (c : Bool) (xs : List ℕ) (y : ℕ)
    → IsUnique xs
    → (c ≡ true → contains xs y ≡ false)
    → IsUnique (if c then xs ++ y ∷ [] else xs)
if-append-IsUnique true xs y u h = append-IsUnique xs y u (h refl)
if-append-IsUnique false xs y u h = u

module _ (s : Scalar) where
  get_or_add_node-IsMirrored :
      (f : FunctionRef) (g : CallGraph s.T) → IsMirrored g → IsMirrored (get_or_add_node s f g)
  get_or_add_node-IsMirrored f g w =
      let same = edges-get_or_add_node s g f in
      record {
        children = λ a b. rw ((same a).0, (same a).2) (w.children a b);
        mirrored = λ a b. rw ((same a).0, (same b).1) (w.mirrored a b);
        out_unique = λ a. rw (same a).0 (w.out_unique a);
        in_unique = λ b. rw (same b).1 (w.in_unique b);
      }

  module _ (g : CallGraph s.T) (source sink : FunctionRef) where
    abbrev BothThere : Type 0
    BothThere = (has_function_node source g ≡ true) × (has_function_node sink g ≡ true)

    contains-out_sinks-connect :
        (a b : FunctionRef)
        → IsMirrored g
        → BothThere
        → contains (out_sinks (connect s source sink g) a) b
          ≡ ((source == a && sink == b) || contains (out_sinks g a) b)
    unfolding contains
    contains-out_sinks-connect a b w (hs, hk) = ground (
      arith,
      edges-connect s g source sink a hs hk,
      contains-append (out_sinks g a) (sink ∷ []) b,
      w.children source sink,
    )

    contains-in_sources-connect :
        (a b : FunctionRef)
        → IsMirrored g
        → BothThere
        → contains (in_sources (connect s source sink g) b) a
          ≡ ((source == a && sink == b) || contains (in_sources g b) a)
    unfolding contains
    contains-in_sources-connect a b w (hs, hk) = ground (
      arith,
      edges-connect s g source sink b hs hk,
      contains-append (in_sources g b) (source ∷ []) a,
      w.children source sink,
      w.mirrored source sink,
    )

    contains-children-connect :
        (a b : FunctionRef)
        → IsMirrored g
        → BothThere
        → contains (children_of (connect s source sink g) a) b
          ≡ ((source == a && sink == b) || contains (children_of g a) b)
    contains-children-connect a b w (hs, hk) =
        ground
          (arith, edges-connect s g source sink a hs hk, contains-insert sink (children_of g a) b)

    connect-IsMirrored : IsMirrored g → BothThere → IsMirrored (connect s source sink g)
    connect-IsMirrored w there = record {
      children = λ a b. ground (
        arith,
        contains-children-connect a b w there,
        contains-out_sinks-connect a b w there,
        w.children a b,
      );
      mirrored = λ a b. ground (
        arith,
        contains-in_sources-connect a b w there,
        contains-out_sinks-connect a b w there,
        w.mirrored a b,
      );
      out_unique = λ a. rw (edges-connect s g source sink a there.0 there.1).0 (
          if-append-IsUnique _ (out_sinks g a) sink (w.out_unique a)
            (λ new. ground (arith, w.children source sink)));
      in_unique = λ b. rw (edges-connect s g source sink b there.0 there.1).1 (
          if-append-IsUnique _ (in_sources g b) source (w.in_unique b)
            (λ new. ground (arith, w.children source sink, w.mirrored source sink)));
    }

  -- What one connection of LLVM's graph adds.
  module _ (callee source : FunctionRef) (g : CallGraph s.T) where
    step :
        (a b : FunctionRef)
        → IsMirrored g
        → has_function_node source g ≡ true
        → IsMirrored (add_node_connections s callee source g)
          × (has_function_node a (add_node_connections s callee source g)
              ≡ ((not (callee == null) && callee == a) || has_function_node a g))
          × (contains (out_sinks (add_node_connections s callee source g) a) b ≡ (
              (not (callee == null) && source == a && callee == b) || contains (out_sinks g a) b))
    unfolding add_node_connections
    step a b w hs = elim (Bool-cases (callee == null)) [
      | inl e ↦ rw (e, add_node_connections) (w, refl, refl)
      | inr e ↦
          let h = get_or_add_node s callee g in
          let wh = get_or_add_node-IsMirrored callee g w in
          let there : BothThere h source callee = (
            ground (arith, has-get_or_add_node s g callee source),
            ground (arith, has-get_or_add_node s g callee callee),
          ) in
          rw (e, add_node_connections)
            (
              connect-IsMirrored h source callee wh there,
              ground (
                arith,
                edges-connect s h source callee a there.0 there.1,
                has-get_or_add_node s g callee a,
              ),
              ground (
                arith,
                contains-out_sinks-connect h source callee a b wh there,
                edges-get_or_add_node s g callee a,
              ),
            )
    ]

  -- The loop over the connections of one node.
  add_connections-step :
      (callees : List FunctionRef) (source : FunctionRef) (g : CallGraph s.T) (a b : FunctionRef)
      → IsMirrored g
      → has_function_node source g ≡ true
      → IsMirrored (add_connections s callees source g)
        × (has_function_node a (add_connections s callees source g)
            ≡ ((not (a == null) && contains callees a) || has_function_node a g))
        × (contains (out_sinks (add_connections s callees source g) a) b ≡ (
            (not (b == null) && source == a && contains callees b) || contains (out_sinks g a) b))
  unfolding add_connections contains
  add_connections-step [] source g a b w hs = (w, ground arith, ground arith)
  add_connections-step (callee ∷ rest) source g a b w hs =
      let g' = add_node_connections s callee source g in
      let here = step callee source g a b w hs in
      let ih =
        add_connections-step rest source g' a b here.0
          (ground (arith, step callee source g source b w hs)) in
      (ih.0, ground (arith, ih.1, here.1), ground (arith, ih.2, here.2))

-- A connection of LLVM's graph from the function a to the function b, neither of them null.
abbrev pub has_connection : List LlvmNode → FunctionRef → FunctionRef → Bool
has_connection graph a b =
    not (a == null)
    && not (b == null)
    && any (λ (n : LlvmNode). n.function == a && contains n.callees b) graph

-- A function of LLVM's graph, not null, by its own node or as the end of a connection.
abbrev pub occurs : List LlvmNode → FunctionRef → Bool
occurs graph a =
    not (a == null)
    && any (λ (n : LlvmNode). not (n.function == null) && (n.function == a || contains n.callees a))
        graph

false-right : (b : Bool) → (b || false) ≡ b
false-right b = ground arith

module _ (s : Scalar) where
  create_from-step :
      (graph : List LlvmNode) (g : CallGraph s.T) (a b : FunctionRef)
      → IsMirrored g
      → IsMirrored (create_from s graph g)
        × (has_function_node a (create_from s graph g) ≡ (occurs graph a || has_function_node a g))
        × (contains (out_sinks (create_from s graph g) a) b
            ≡ (has_connection graph a b || contains (out_sinks g a) b))
  unfolding create_from any
  create_from-step [] g a b w = (w, ground arith, ground arith)
  create_from-step (n ∷ ns) g a b w = elim (Bool-cases (n.function == null)) [
    | inl e ↦
        rw (e, create_from)
          (let ih = create_from-step ns g a b w in
            (ih.0, ground (arith, ih.1), ground (arith, ih.2)))
    | inr e ↦
        let f = n.function in
        let h = get_or_add_node s f g in
        let there =
          add_connections-step s n.callees f h a b (get_or_add_node-IsMirrored s f g w)
            (ground (arith, has-get_or_add_node s g f f)) in
        let ih = create_from-step ns (add_connections s n.callees f h) a b there.0 in
        rw (e, create_from)
          (
            ih.0,
            ground (arith, ih.1, there.1, has-get_or_add_node s g f a),
            ground (arith, ih.2, there.2, edges-get_or_add_node s g f a),
          )
  ]

  empty-IsMirrored : IsMirrored {T = s.T} []
  unfolding out_sinks in_sources children_of find contains
  empty-IsMirrored = record {
    children = λ a b. refl;
    mirrored = λ a b. refl;
    out_unique = λ a. tt;
    in_unique = λ b. tt;
  }

  -- The graph that is built from LLVM's graph keeps each edge at both its ends, once; it has a node for
  -- exactly the functions, null excepted, that occur in LLVM's graph; and an edge from a to b exactly
  -- where that graph has a connection from a to b, neither of them null.
  pub create_correct :
      (graph : List LlvmNode)
      → IsMirrored (create s graph)
        × ((a : FunctionRef) → has_function_node a (create s graph) ≡ occurs graph a)
        × ((a b : FunctionRef)
            → contains (out_sinks (create s graph) a) b ≡ has_connection graph a b)
  unfolding create has_function_node out_sinks contains find
  create_correct graph = (
    (create_from-step graph [] null null empty-IsMirrored).0,
    λ a. (create_from-step graph [] a null empty-IsMirrored).1 ∙ false-right (occurs graph a),
    λ a b.
        (create_from-step graph [] a b empty-IsMirrored).2 ∙ false-right (has_connection graph a b),
  )
