-- ===== src/PartitionExtractor/Setters.antt =====
-- The search for the stores to a global in lib/Transforms/PartitionExtractor.cpp.
use program_partitioning_for.Base.{
  ℕ, zero, suc, ◌+◌, ◌≤◌, ◌≡◌, refl, Bool, true, false, not, ◌&&◌, ◌||◌, List, [], ◌∷◌, ◌++◌, some,
  arith, if◌then◌else◌, Bool-cases, Option-cases, inl, inr, any, contains, contains-append, ◌==◌,
  ==_iff, ap, ◌∙◌,
}
use program_partitioning_for.Llvm.{GlobalRef, ValueRef, null}
use program_partitioning_for.Pdg.{Pdg, PdgNodes, PdgEdge, NodeRef}
use program_partitioning_for.Partition.{Partition, contains_function}
use program_partitioning_for.PartitionExtractor.Globals.{
  GlobalUses, add_reachable_nodes, is_setter_store, found, out_of_rounds, look_at, search_stores,
  add_global_setter,
}

any-push :
    (k : NodeRef → Bool) (work : List NodeRef) (n : NodeRef)
    → any k (work ++ n ∷ []) ≡ (any k work || k n)
unfolding any
any-push k [] n = ground arith
any-push k (m ∷ work) n = ground (arith, any-push k work n)

-- An edge to a node that is tracked.
abbrev pub leads_to : (NodeRef → Bool) → PdgEdge → Bool
leads_to k e = not e.is_control_edge && k e.destination

any-add_reachable_nodes :
    (k : NodeRef → Bool) (es : List PdgEdge) (work : List NodeRef)
    → any k (add_reachable_nodes es work) ≡ (any k work || any (leads_to k) es)
unfolding add_reachable_nodes any
any-add_reachable_nodes k [] work = ground arith
any-add_reachable_nodes k (e ∷ es) work = elim (Bool-cases e.is_control_edge) [
  | inl c ↦ rw (c, add_reachable_nodes) (ground (arith, any-add_reachable_nodes k es work))
  | inr c ↦
      rw (c, add_reachable_nodes)
        (ground (
          arith,
          any-add_reachable_nodes k es (work ++ e.destination ∷ []),
          any-push k work e.destination,
        ))
]

module _ (pdg : Pdg) (ns : PdgNodes) (u : GlobalUses) (p : Partition) (global : GlobalRef) where
  look_at-valued :
      (n : NodeRef) (stores : List ValueRef)
      → (ns.is_instruction_node n ≡ true → (ns.node_value n == null) ≡ false)
      → (next : List ValueRef) × (look_at ns u p global n stores ≡ some next)
  unfolding look_at
  look_at-valued n stores valued = elim (Option-cases (look_at ns u p global n stores)) [
    | inl e ↦ elim (Bool-cases (ns.is_instruction_node n)) [
      | inl i ↦ ground (arith, e, i, valued i)
      | inr i ↦ ground (arith, e, i)
    ]
    | inr made ↦ made
  ]

  search_stores-cycle :
      (k : NodeRef → Bool) (fuel : ℕ) (work : List NodeRef) (stores : List ValueRef)
      → ((n : NodeRef) → ns.is_instruction_node n ≡ true → (ns.node_value n == null) ≡ false)
      → ((n : NodeRef) → k n ≡ true → any (leads_to k) (pdg.out_edges n) ≡ true)
      → any k work ≡ true
      → search_stores pdg ns u p global fuel work stores ≡ out_of_rounds
  unfolding search_stores any
  search_stores-cycle k fuel [] stores valued turns h = ground (arith, h)
  search_stores-cycle k zero (n ∷ work) stores valued turns h = refl
  search_stores-cycle k (suc fuel) (n ∷ work) stores valued turns h =
      let (next, e) = look_at-valued n stores (valued n) in
      rw (e, search_stores)
        (search_stores-cycle k fuel (add_reachable_nodes (pdg.out_edges n) work) next valued turns
          (ground (arith, h, turns n, any-add_reachable_nodes k (pdg.out_edges n) work)))

  -- Every instruction node has a value, so that no assertion fails. Where the global's node is in a set of
  -- nodes each of which has an edge, not of control, to a node of the set, such as a cycle and what leads
  -- to it, the search never ends: no number of rounds is enough, since no node is remembered.
  pub add_global_setter_diverges :
      (k : NodeRef → Bool) (fuel : ℕ) (node : NodeRef)
      → ((n : NodeRef) → ns.is_instruction_node n ≡ true → (ns.node_value n == null) ≡ false)
      → ((n : NodeRef) → k n ≡ true → any (leads_to k) (pdg.out_edges n) ≡ true)
      → u.global_variable_node global ≡ some node
      → k node ≡ true
      → add_global_setter pdg ns u p fuel global ≡ out_of_rounds
  unfolding add_global_setter any
  add_global_setter_diverges k fuel node valued turns is_found h =
      rw (is_found, add_global_setter)
        (search_stores-cycle k fuel (node ∷ []) [] valued turns (ground (arith, h)))

-- The cost of the nodes that wait, and of what the edges of a node lead to.
abbrev total : (NodeRef → ℕ) → List NodeRef → ℕ
total cost [] = 0
total cost (n ∷ work) = cost n + total cost work

abbrev pub edges_total : (NodeRef → ℕ) → List PdgEdge → ℕ
edges_total cost [] = 0
edges_total cost (e ∷ es) =
    let rest = edges_total cost es in if e.is_control_edge then rest else cost e.destination + rest

total-push :
    (cost : NodeRef → ℕ) (work : List NodeRef) (n : NodeRef)
    → total cost (work ++ n ∷ []) ≡ total cost work + cost n
total-push cost [] n = omega arith
total-push cost (m ∷ work) n = ground (arith, total-push cost work n)

total-add_reachable_nodes :
    (cost : NodeRef → ℕ) (es : List PdgEdge) (work : List NodeRef)
    → total cost (add_reachable_nodes es work) ≡ total cost work + edges_total cost es
unfolding add_reachable_nodes
total-add_reachable_nodes cost [] work = omega arith
total-add_reachable_nodes cost (e ∷ es) work = elim (Bool-cases e.is_control_edge) [
  | inl c ↦ rw (c, add_reachable_nodes) (total-add_reachable_nodes cost es work)
  | inr c ↦
      rw (c, add_reachable_nodes)
        (ground (
          arith,
          total-add_reachable_nodes cost es (work ++ e.destination ∷ []),
          total-push cost work e.destination,
        ))
]

module _ (pdg : Pdg) (ns : PdgNodes) (u : GlobalUses) (p : Partition) (global : GlobalRef) where
  -- Each of them is a store to the global in a function of the partition.
  abbrev pub AllSetterStores : List ValueRef → Type 0
  AllSetterStores stores =
      (v : ValueRef) → contains stores v ≡ true → is_setter_store u p global v ≡ true

  look_at-some :
      (n : NodeRef) (stores : List ValueRef)
      → (ns.is_instruction_node n ≡ true → (ns.node_value n == null) ≡ false)
      → AllSetterStores stores
      → (next : List ValueRef) × (look_at ns u p global n stores ≡ some next) × AllSetterStores next
  unfolding look_at contains
  look_at-some n stores valued all = elim (Bool-cases (ns.is_instruction_node n)) [
    | inl i ↦ elim (Bool-cases (is_setter_store u p global (ns.node_value n))) [
      | inl s ↦ (
        stores ++ ns.node_value n ∷ [],
        rw (i, look_at) (rw (valued i, look_at) (rw (s, look_at) refl)),
        λ v h. ground (arith, h, contains-append stores (ns.node_value n ∷ []) v, all v, s),
      )
      | inr s ↦ (stores, rw (i, look_at) (rw (valued i, look_at) (rw (s, look_at) refl)), all)
    ]
    | inr i ↦ (stores, rw (i, look_at) refl, all)
  ]

  setter_store_inv :
      (v : ValueRef)
      → is_setter_store u p global v ≡ true
      → (u.stored_global v ≡ some global) × (contains_function p (u.store_function v) ≡ true)
  unfolding is_setter_store
  setter_store_inv v h = elim (Option-cases (u.stored_global v)) [
    | inl e ↦ ground (arith, e, h)
    | inr (g, e) ↦
        let kept = rw (e, is_setter_store) at h in
        (e ∙ ap some ((==_iff g global).0 (ground (arith, kept))), ground (arith, kept))
  ]

  search_stores-ends :
      (cost : NodeRef → ℕ) (fuel : ℕ) (work : List NodeRef) (stores : List ValueRef)
      → ((n : NodeRef) → ns.is_instruction_node n ≡ true → (ns.node_value n == null) ≡ false)
      → ((n : NodeRef) → 1 + edges_total cost (pdg.out_edges n) ≤ cost n)
      → total cost work ≤ fuel
      → AllSetterStores stores
      → (next : List ValueRef) × (search_stores pdg ns u p global fuel work stores ≡ found next)
        × AllSetterStores next
  unfolding search_stores
  search_stores-ends cost fuel [] stores valued costs enough all = (stores, refl, all)
  search_stores-ends cost zero (n ∷ work) stores valued costs enough all =
      ground (arith, costs n, enough)
  search_stores-ends cost (suc fuel) (n ∷ work) stores valued costs enough all =
      let (next, looked, all') = look_at-some n stores (valued n) all in
      let less : total cost (add_reachable_nodes (pdg.out_edges n) work) ≤ fuel =
        ground (arith, total-add_reachable_nodes cost (pdg.out_edges n) work, costs n, enough) in
      rw (looked, search_stores)
        (search_stores-ends cost fuel (add_reachable_nodes (pdg.out_edges n) work) next valued costs
          less all')

  -- Every instruction node has a value, and each node has a cost above the sum of the costs of the nodes
  -- that its edges, not those of control, lead to, so the graph has no cycle. Then the search for the
  -- stores to a global ends, within as many rounds as the cost of the global's node; and each store that
  -- it finds is a store to the global in a function of the partition.
  pub add_global_setter-ends :
      (cost : NodeRef → ℕ) (fuel : ℕ) (node : NodeRef)
      → ((n : NodeRef) → ns.is_instruction_node n ≡ true → (ns.node_value n == null) ≡ false)
      → ((n : NodeRef) → 1 + edges_total cost (pdg.out_edges n) ≤ cost n)
      → u.global_variable_node global ≡ some node
      → cost node ≤ fuel
      → (stores : List ValueRef) × (add_global_setter pdg ns u p fuel global ≡ found stores)
        × ((v : ValueRef)
            → contains stores v ≡ true
            → (u.stored_global v ≡ some global) × (contains_function p (u.store_function v) ≡ true))
  unfolding add_global_setter contains
  add_global_setter-ends cost fuel node valued costs is_found enough =
      let (stores, ends, all) =
        search_stores-ends cost fuel (node ∷ []) [] valued costs (omega arith)
          (λ v h. ground (arith, h)) in
      (stores, rw (is_found, add_global_setter) ends, λ v h. setter_store_inv v (all v h))
