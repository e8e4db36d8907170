-- ===== src/PartitionUtils/Interfaces.antt =====
-- The interfaces of lib/Utils/PartitionUtils.cpp against a description of who calls whom.
use program_partitioning_for.Base.{
  ◌≡◌, refl, ap, ◌↔◌, ◌≢◌, inl, inr, Bool, true, false, not, ◌&&◌, ◌||◌, List, [], ◌∷◌, Memᴰ,
  Option, none, some, arith, ◌==◌, contains, any, any_iff, any_of_mem, mem_of_any, contains_of_mem,
  mem_of_contains, ==_iff, ==_refl, contains-insert, contains-select, Bool-cases, Option-cases,
}
use program_partitioning_for.Llvm.{FunctionRef, ValueRef, CallSite, null}
use program_partitioning_for.Pdg.{Pdg, PdgEdge, NodeRef}
use program_partitioning_for.PartitionUtils.{
  compute_in_interface, out_of_edge, out_of_edges, out_of_nodes, out_of_functions,
  compute_out_interface,
}

-- Some call site of f lies in a function outside the set.
abbrev pub CalledFromOutside : Pdg → List FunctionRef → FunctionRef → Type 0
CalledFromOutside pdg functions f =
    (site : CallSite) × Memᴰ site (pdg.call_sites f) × (contains functions site.caller ≡ false)

-- The in-interface holds exactly the functions of the set, other than the null pointer and those with
-- no graph, that have a call site in a function outside the set.
pub compute_in_interface_iff :
    (functions : List FunctionRef) (pdg : Pdg) (f : FunctionRef)
    → (contains (compute_in_interface functions pdg) f ≡ true) ↔ (
        (contains functions f ≡ true)
        × (f ≢ null)
        × (pdg.has_function_pdg f ≡ true)
        × CalledFromOutside pdg functions f)
unfolding compute_in_interface
compute_in_interface_iff functions pdg f =
    let sites =
      any_iff (λ (site : CallSite). not (contains functions site.caller)) (pdg.call_sites f) in
    (
      λ h.
          let kept = rw (contains-select _ functions f) at h in
          let (site, m, e) = sites.0 (ground arith) in
          (ground arith, ground arith, ground arith, (site, m, ground arith)),
      λ (inside, nonnull, graph, (site, m, e)).
          rw (contains-select _ functions f) (ground (arith, sites.1 (site, m, rw e))),
    )

-- A call from f to g: a call or invoke instruction of f with a control edge to g's function node.
abbrev pub Calls : Pdg → FunctionRef → FunctionRef → Type 0
Calls pdg f g =
    (entry : ValueRef × NodeRef) × (e : PdgEdge) × Memᴰ entry (pdg.llvm_nodes f)
    × ((pdg.is_call_inst entry.0 || pdg.is_invoke_inst entry.0) ≡ true)
    × Memᴰ e (pdg.out_edges entry.1)
    × (e.is_control_edge ≡ true)
    × (pdg.function_node e.destination ≡ some g)

module _ (pdg : Pdg) (functions : List FunctionRef) (g : FunctionRef) where
  abbrev targets : Option FunctionRef → Bool
  targets none = false
  targets (some h) = h == g

  abbrev edge_calls : PdgEdge → Bool
  edge_calls e = e.is_control_edge && targets (pdg.function_node e.destination)

  abbrev node_calls : ValueRef × NodeRef → Bool
  node_calls (val, node) =
      (pdg.is_call_inst val || pdg.is_invoke_inst val) && any edge_calls (pdg.out_edges node)

  abbrev function_calls : FunctionRef → Bool
  function_calls f = not (f == null) && pdg.has_function_pdg f && any node_calls (pdg.llvm_nodes f)

  targets-some : (o : Option FunctionRef) → targets o ≡ true → o ≡ some g
  targets-some none h = cc
  targets-some (some h) e = ap some ((==_iff h g).0 e)

  contains-out_of_edge :
      (e : PdgEdge) (acc : List FunctionRef)
      → contains (out_of_edge pdg functions e acc) g
        ≡ ((edge_calls e && not (contains functions g)) || contains acc g)
  unfolding out_of_edge
  contains-out_of_edge e acc = elim (Option-cases (pdg.function_node e.destination)) [
    | inl none_e ↦ ground arith
    | inr (h, some_e) ↦
        rw (some_e, targets)
          (elim (Bool-cases (h == g)) [
            | inl same ↦ rw ((==_iff h g).0 same) (ground (arith, contains-insert g acc g))
            | inr other ↦ ground (arith, contains-insert h acc g)
          ])
  ]

  contains-out_of_edges :
      (es : List PdgEdge) (acc : List FunctionRef)
      → contains (out_of_edges pdg functions es acc) g
        ≡ ((any edge_calls es && not (contains functions g)) || contains acc g)
  unfolding out_of_edges any
  contains-out_of_edges [] acc = refl
  contains-out_of_edges (e ∷ es) acc = ground (
    arith,
    contains-out_of_edges es (out_of_edge pdg functions e acc),
    contains-out_of_edge e acc,
  )

  contains-out_of_nodes :
      (nodes : List (ValueRef × NodeRef)) (acc : List FunctionRef)
      → contains (out_of_nodes pdg functions nodes acc) g
        ≡ ((any node_calls nodes && not (contains functions g)) || contains acc g)
  unfolding out_of_nodes any
  contains-out_of_nodes [] acc = refl
  contains-out_of_nodes ((val, node) ∷ nodes) acc = ground (
    arith,
    contains-out_of_nodes nodes acc,
    contains-out_of_nodes nodes (out_of_edges pdg functions (pdg.out_edges node) acc),
    contains-out_of_edges (pdg.out_edges node) acc,
  )

  contains-out_of_functions :
      (fs : List FunctionRef) (acc : List FunctionRef)
      → contains (out_of_functions pdg functions fs acc) g
        ≡ ((any function_calls fs && not (contains functions g)) || contains acc g)
  unfolding out_of_functions any
  contains-out_of_functions [] acc = refl
  contains-out_of_functions (f ∷ fs) acc = ground (
    arith,
    contains-out_of_functions fs acc,
    contains-out_of_functions fs (out_of_nodes pdg functions (pdg.llvm_nodes f) acc),
    contains-out_of_nodes (pdg.llvm_nodes f) acc,
  )

  Calls-of_function_calls :
      (f : FunctionRef)
      → function_calls f ≡ true
      → (f ≢ null) × (pdg.has_function_pdg f ≡ true) × Calls pdg f g
  Calls-of_function_calls f h =
      let (entry, m, calls) = mem_of_any node_calls (pdg.llvm_nodes f) (ground arith) in
      let (e, me, edge) = mem_of_any edge_calls (pdg.out_edges entry.1) (ground arith) in
      (
        ground arith,
        ground arith,
        (entry, e, m, ground arith, me, ground arith, targets-some _ (ground arith)),
      )

  function_calls_of_Calls :
      (f : FunctionRef)
      → f ≢ null
      → pdg.has_function_pdg f ≡ true
      → Calls pdg f g
      → function_calls f ≡ true
  function_calls_of_Calls f nonnull graph (entry, e, m, call, me, control, target) =
      let edge =
        any_of_mem edge_calls (pdg.out_edges entry.1) me (rw (control, target) (==_refl g)) in
      let node = any_of_mem node_calls (pdg.llvm_nodes f) m (rw (call, edge)) in ground arith

-- The out-interface holds exactly the functions outside the set that some function of the set, other
-- than the null pointer and those with no graph, calls.
pub compute_out_interface_iff :
    (functions : List FunctionRef) (pdg : Pdg) (g : FunctionRef)
    → (contains (compute_out_interface functions pdg) g ≡ true) ↔ (
        (contains functions g ≡ false)
        × ((f : FunctionRef) × (contains functions f ≡ true)
            × (f ≢ null)
            × (pdg.has_function_pdg f ≡ true)
            × Calls pdg f g))
unfolding compute_out_interface contains
compute_out_interface_iff functions pdg g =
    let whole = contains-out_of_functions pdg functions g functions [] in
    (
      λ h.
          let (f, m, calls) =
            mem_of_any (function_calls pdg functions g) functions (ground arith) in
          let (nonnull, graph, found) = Calls-of_function_calls pdg functions g f calls in
          (ground arith, (f, contains_of_mem functions m, nonnull, graph, found)),
      λ (outside, (f, inside, nonnull, graph, calls)).
          let some_f =
            any_of_mem (function_calls pdg functions g) functions (mem_of_contains functions inside)
              (function_calls_of_Calls pdg functions g f nonnull graph calls) in
          ground arith,
    )
