-- ===== src/Partitioner/Returns.antt =====
-- How the loop of PartitionForReturnValue::traverse in lib/Analysis/Partitioner.cpp ends.
use program_partitioning_for.Base.{
  ℕ, zero, suc, ◌+◌, ◌*◌, ◌≤◌, ◌≡◌, ◌≢◌, refl, ap, sym, ◌∙◌, true, false, not, ◌&&◌, ◌||◌, List, [],
  ◌∷◌, none, some, arith, find, put, emplace, keys, contains, insert, ◌==◌, if◌then◌else◌,
  Bool-cases, Option-cases, inl, inr, ==_iff, length, map,
}
use program_partitioning_for.Llvm.{FunctionRef, ValueRef, Module, Signatures, null}
use program_partitioning_for.Pdg.{Pdg, PdgNodes, PdgEdge, NodeRef}
use program_partitioning_for.Partition.{Partition, empty, add_to_partition, add_related_function}
use program_partitioning_for.Partitioner.{can_partition_return, partition_for_return}
use program_partitioning_for.Partitioner.Traversal.{
  Annotation, Walk, start_walk, relate, push_nodes, visit_function, visit_return, return_nodes,
  add_return_nodes,
}
use program_partitioning_for.Partitioner.Bounds.{
  find_of_key, unseen, unseen_all, unseen-insert_le, unseen-insert, walk-ends, push_nodes-seen,
  push_nodes-work, Leveled, push_nodes-Leveled,
}

module _ (m : Module) (pdg : Pdg) (ns : PdgNodes) (a : Annotation) where
  -- What the traversal relies on in the dependence graph: each node belongs to a function, a function
  -- node to its own; every node but those of functions has one of finitely many values; and there is a
  -- bound on the edges into a node.
  pub record IsFinite (values : List ValueRef) (degree : ℕ) : Type 0 where
    pub owned : (n : NodeRef) → ns.parent n ≢ null
    pub own_node : (n : NodeRef) (f : FunctionRef) → pdg.function_node n ≡ some f → ns.parent n ≡ f
    pub valued :
        (n : NodeRef)
        → ns.is_llvm_node n ≡ true
        → pdg.function_node n ≡ none
        → (ns.node_value n ≢ null) × (contains values (ns.node_value n) ≡ true)
    pub bounded : (n : NodeRef) → length (pdg.in_edges n) ≤ degree

  abbrev measure : List ValueRef → ℕ → Walk → ℕ
  measure values degree w = length w.work + unseen values w.seen * degree

  visit_function-some :
      (f : FunctionRef) (w : Walk)
      → contains (keys w.levels) f ≡ true
      → (w' : Walk) × (visit_function m a f w ≡ some w')
        × (w'.work ≡ w.work)
        × (w'.seen ≡ w.seen)
        × (w'.levels ≡ w.levels)
  unfolding visit_function relate
  visit_function-some f w known =
      let (l, found) = find_of_key w.levels f known in
      elim (Bool-cases (f == a.function || m.is_declaration f)) [
        | inl e ↦ (w, rw (e, visit_function) refl, refl, refl, refl)
        | inr e ↦ (
          record w { partition = add_related_function f l w.partition },
          rw (e, visit_function) (rw (found, relate) refl),
          refl,
          refl,
          refl,
        )
      ]

  mul_mono : (i j k : ℕ) → i ≤ j → i * k ≤ j * k
  mul_mono zero j k h = omega arith
  mul_mono (suc i) zero k h = omega (arith, h)
  mul_mono (suc i) (suc j) k h = omega (arith, mul_mono i j k (omega (arith, h)))

  fewer :
      (degree work rest edges u u' : ℕ)
      → suc u' ≤ u
      → work ≤ rest + edges
      → edges ≤ degree
      → suc (work + u' * degree) ≤ suc rest + u * degree
  fewer degree work rest edges u u' p q r = omega (arith, p, q, r, mul_mono (suc u') u degree p)

  rest-Leveled :
      (v : Walk) (n : NodeRef) (rest : List NodeRef)
      → v.work ≡ n ∷ rest
      → Leveled ns v
      → (contains (keys v.levels) (ns.parent n) ≡ true)
        × ((j : NodeRef) → contains rest j ≡ true → contains (keys v.levels) (ns.parent j) ≡ true)
  unfolding contains
  rest-Leveled v n rest e inv =
      (inv n (rw e (ground arith)), λ j h. inv j (rw e (ground (arith, h))))

  length-map : (es : List PdgEdge) → length (map (λ e. e.source) es) ≡ length es
  length-map [] = refl
  length-map (e ∷ es) = ground (arith, length-map es)

  owned_level :
      {values : List ValueRef} {degree : ℕ}
      → IsFinite values degree
      → (n : NodeRef) (f : FunctionRef) → pdg.function_node n ≡ some f
      → (w : Walk) → contains (keys w.levels) (ns.parent n) ≡ true
      → contains (keys w.levels) f ≡ true
  owned_level fin n f named w known = rw (fin.own_node n f named) at known

  -- A function node: nothing is pushed.
  ended :
      (values : List ValueRef) (degree : ℕ) (w u : Walk) (f : FunctionRef)
      → contains (keys w.levels) f ≡ true
      → Leveled ns w
      → u.work ≡ w.work
      → u.levels ≡ w.levels
      → unseen values u.seen ≤ unseen values w.seen
      → (v' : Walk) × (visit_function m a f u ≡ some v')
        × Leveled ns v'
        × (measure values degree v' ≤ measure values degree w)
  ended values degree w u f known inv same_work same_levels less =
      let (v, ran, work, seen, levels) = visit_function-some f u (rw (sym same_levels) at known) in
      (
        v,
        ran,
        λ j h. rw (levels ∙ same_levels) (inv j (rw (work ∙ same_work) at h)),
        (let fewer_values = mul_mono (unseen values u.seen) (unseen values w.seen) degree less in
            rw work (rw seen (rw same_work (omega (arith, fewer_values))))),
      )

  -- Any other node, met for the first time: the nodes that it depends on are pushed.
  expanded :
      (values : List ValueRef) (degree : ℕ)
      → IsFinite values degree
      → (w : Walk) (n : NodeRef) → pdg.function_node n ≡ none
      → contains (keys w.levels) (ns.parent n) ≡ true
      → Leveled ns w
      → ns.is_llvm_node n ≡ true
      → (not (ns.node_value n == null) && contains w.seen (ns.node_value n)) ≡ false
      → (v' : Walk) × (some (
            push_nodes ns (ns.parent n) (map (λ e. e.source) (pdg.in_edges n)) (
              if ns.node_value n == null
              then w
              else record w { seen = insert (ns.node_value n) w.seen }))
          ≡ some v')
        × Leveled ns v'
        × (measure values degree v' ≤ measure values degree w)
  expanded values degree fin w n plain known inv llvm fresh =
      let (nonnull, member) = fin.valued n llvm plain in
      let value = ns.node_value n in
      let others = map (λ e. e.source) (pdg.in_edges n) in
      let w' = record w { seen = insert value w.seen } in
      let shown : (value == null) ≡ false = ground (arith, nonnull) in
      let v = push_nodes ns (ns.parent n) others w' in
      let met = unseen-insert values w.seen value member (ground (arith, fresh, shown)) in
      let seen : unseen values v.seen ≡ unseen values (insert value w.seen) =
        ap (unseen values) (push_nodes-seen ns (ns.parent n) others w') in
      let pushed = push_nodes-work ns (ns.parent n) others w' in
      (
        v,
        rw (shown, if◌then◌else◌) refl,
        push_nodes-Leveled ns (ns.parent n) others w' fin.owned (fin.owned n) known inv,
        (let less =
              fewer degree (length v.work) (length w.work) (length others) (unseen values w.seen)
                (unseen values v.seen) (rw seen met) pushed
                (rw (length-map (pdg.in_edges n)) (fin.bounded n)) in
            omega (arith, less)),
      )

  round :
      (values : List ValueRef) (degree : ℕ)
      → IsFinite values degree
      → (w : Walk) (n : NodeRef) → contains (keys w.levels) (ns.parent n) ≡ true
      → Leveled ns w
      → (v' : Walk) × (visit_return m pdg ns a n w ≡ some v')
        × Leveled ns v'
        × (measure values degree v' ≤ measure values degree w)
  unfolding visit_return
  round values degree fin w n known inv =
      elim (Bool-cases (
        not (ns.is_llvm_node n)
        || (not (ns.node_value n == null) && contains w.seen (ns.node_value n)))) [
          | inl e ↦ (w, rw (e, visit_return) refl, inv, omega arith)
          | inr e ↦ elim (Option-cases (pdg.function_node n)) [
            | inl plain ↦
                rw (e, visit_return)
                  (rw (plain, visit_return)
                    (expanded values degree fin w n plain known inv (ground (arith, e))
                      (ground (arith, e))))
            | inr (f, named) ↦
                rw (e, visit_return)
                  (rw (named, visit_return)
                    (elim (Bool-cases (ns.node_value n == null)) [
                      | inl none_there ↦
                          rw (none_there, if◌then◌else◌)
                            (ended values degree w w f (owned_level fin n f named w known) inv refl
                              refl (omega arith))
                      | inr there ↦
                          rw (there, if◌then◌else◌)
                            (ended values degree w
                              (record w { seen = insert (ns.node_value n) w.seen }) f
                              (owned_level fin n f named w known) inv refl refl
                              (unseen-insert_le values w.seen (ns.node_value n)))
                    ]))
          ]
        ]

  pop-round :
      (values : List ValueRef) (degree : ℕ)
      → IsFinite values degree
      → (v : Walk) (n : NodeRef) (rest : List NodeRef) → v.work ≡ n ∷ rest
      → Leveled ns v
      → (v' : Walk) × (visit_return m pdg ns a n (record v { work = rest }) ≡ some v')
        × Leveled ns v'
        × (suc (measure values degree v') ≤ measure values degree v)
  pop-round values degree fin v n rest e inv =
      let (here, others) = rest-Leveled v n rest e inv in
      let (v', ran, inv', less) =
        round values degree fin (record v { work = rest }) n here others in
      (v', ran, inv', rw e (omega (arith, less)))

  -- Each node of a function's graph for a return instruction belongs to the function.
  abbrev pub HasOwnReturns : Type 0
  HasOwnReturns =
      (v : ValueRef) (n : NodeRef) → ns.node_of a.function v ≡ some n → ns.parent n ≡ a.function

  add_return_nodes-own :
      HasOwnReturns
      → (vs : List ValueRef) (acc : List NodeRef)
      → ((n : NodeRef) → contains acc n ≡ true → ns.parent n ≡ a.function)
      → (n : NodeRef) → contains (add_return_nodes ns a.function vs acc) n ≡ true
      → ns.parent n ≡ a.function
  unfolding add_return_nodes contains
  add_return_nodes-own own [] acc h = h
  add_return_nodes-own own (v ∷ vs) acc h = elim (Option-cases (ns.node_of a.function v)) [
    | inl e ↦ rw (e, add_return_nodes) (add_return_nodes-own own vs acc h)
    | inr (k, e) ↦
        rw (e, add_return_nodes)
          (add_return_nodes-own own vs (k ∷ acc) (λ j q. elim (Bool-cases (k == j)) [
            | inl same ↦ ap ns.parent (sym ((==_iff k j).0 same)) ∙ own v k e
            | inr other ↦ h j (ground (arith, q, other))
          ]))
  ]

leveled-start : (f : FunctionRef) → contains (keys {V = ℕ} (emplace f 0 [])) f ≡ true
unfolding emplace put find keys contains
leveled-start f = ground arith

-- In a dependence graph where each node belongs to a function, function nodes and the nodes of return
-- instructions to their own, where every LLVM node but those of functions has one of finitely many
-- values, and where the number of edges into a node is bounded, the traversal for an annotated return
-- value ends, with no failed assertion, within as many rounds as there are return nodes, plus the
-- bound for each of the values.
pub partition_for_return-ends :
    (m : Module) (types : Signatures) (pdg : Pdg) (ns : PdgNodes) (a : Annotation)
    (values : List ValueRef) (degree fuel : ℕ)
    → IsFinite m pdg ns a values degree
    → HasOwnReturns m pdg ns a
    → length (return_nodes ns a.function) + length values * degree ≤ fuel
    → (p : Partition) × (partition_for_return m types pdg ns fuel a ≡ some p)
unfolding partition_for_return start_walk return_nodes contains
partition_for_return-ends m types pdg ns a values degree fuel fin own enough =
    let start =
      start_walk (return_nodes ns a.function) (emplace a.function 0 [])
        (add_to_partition a.function empty) in
    let begins : Leveled ns start = λ n h.
      rw
        (add_return_nodes-own m pdg ns a own (ns.return_insts a.function) []
          (λ j q. ground (arith, q)) n h)
        (leveled-start a.function) in
    let (w, ran, inv, done) =
      walk-ends (visit_return m pdg ns a) (Leveled ns) (measure m pdg ns a values degree) fuel start
        (pop-round m pdg ns a values degree fin) begins (rw (unseen_all values) enough) in
    elim (Bool-cases (can_partition_return m types pdg ns a)) [
      | inl e ↦ (w.partition, rw (e, partition_for_return) (rw (ran, partition_for_return) refl))
      | inr e ↦ (empty, rw (e, partition_for_return) refl)
    ]
