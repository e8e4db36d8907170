-- ===== src/Partitioner/Functions.antt =====
-- The functions of the partitions that the classes for annotations make in lib/Analysis/Partitioner.cpp.
use program_partitioning_for.Base.{
  ℕ, zero, suc, ◌≡◌, refl, subst, ap, ◌∙◌, Bool, true, false, List, [], ◌∷◌, Option, none, some,
  arith, contains, ◌==◌, if◌then◌else◌, map, insert, Option-cases, Bool-cases, inl, inr, emplace,
}
use program_partitioning_for.Llvm.{FunctionRef, Module, Signatures, null}
use program_partitioning_for.Pdg.{Pdg, PdgNodes, NodeRef}
use program_partitioning_for.Partition.{
  Partition, empty, contains_function, add_to_partition, add_related_function,
}
use program_partitioning_for.Partitioner.Traversal.{
  Annotation, Walk, start_walk, can_process_node, update_function_level, relate, push_nodes,
  visit_function, visit_return, visit_backward, visit_forward, collect_formal, collect_formals,
  collect_nodes_for_actual_arg, add_stored, walk, return_nodes,
}
use program_partitioning_for.Partitioner.{
  can_partition_return, partition_for_return, can_partition_arguments, traverse_forward,
  traverse_backward, traverse_for_argument, traverse_arguments, partition_for_arguments,
}

-- A state that holds the same functions.
abbrev Holds : List FunctionRef → Option Walk → Type 0
Holds fs none = Unit {0}
Holds fs (some w) = w.partition.partition ≡ fs

push_nodes-partition :
    (ns : PdgNodes) (c : FunctionRef) (others : List NodeRef) (w : Walk)
    → (push_nodes ns c others w).partition ≡ w.partition
unfolding push_nodes
push_nodes-partition ns c [] w = refl
push_nodes-partition ns c (n ∷ others) w = elim (Bool-cases (can_process_node ns n)) [
  | inl e ↦ rw (e, push_nodes) (push_nodes-partition ns c others _)
  | inr e ↦ rw (e, push_nodes) (push_nodes-partition ns c others w)
]

relate-Holds : (f : FunctionRef) (w : Walk) → Holds w.partition.partition (relate f w)
unfolding relate add_related_function
relate-Holds f w = ground arith

visit_function-Holds :
    (m : Module) (a : Annotation) (f : FunctionRef) (w : Walk)
    → Holds w.partition.partition (visit_function m a f w)
unfolding visit_function
visit_function-Holds m a f w = ground (arith, relate-Holds f w)

-- A function node, or the nodes that a node is connected to, from a state with more values met.
visit_rest-Holds :
    (m : Module) (ns : PdgNodes) (a : Annotation) (node : Option FunctionRef) (c : FunctionRef)
    (others : List NodeRef) (w v : Walk)
    → v.partition ≡ w.partition
    → Holds w.partition.partition
        (elim node [ none ↦ some (push_nodes ns c others v) | some f ↦ visit_function m a f v ])
visit_rest-Holds m ns a none c others w v e =
    ap (λ (p : Partition). p.partition) (push_nodes-partition ns c others v ∙ e)
visit_rest-Holds m ns a (some f) c others w v e =
    subst (λ fs. Holds fs (visit_function m a f v)) (ap (λ (p : Partition). p.partition) e)
      (visit_function-Holds m a f v)

seen_if :
    (b : Bool) (w v : Walk)
    → v.partition ≡ w.partition
    → (if b then w else v).partition ≡ w.partition
seen_if true w v e = refl
seen_if false w v e = e

if-partition :
    (b : Bool) (v w : Walk)
    → v.partition ≡ w.partition
    → (if b then v else w).partition ≡ w.partition
if-partition true v w e = e
if-partition false v w e = refl

if-Holds :
    (fs : List FunctionRef) (b : Bool) (x y : Option Walk)
    → Holds fs x
    → Holds fs y
    → Holds fs (if b then x else y)
if-Holds fs true x y h k = h
if-Holds fs false x y h k = k

-- A step that may fail, after which another one holds the same functions.
bind-Holds :
    (fs : List FunctionRef) (o : Option Walk) (k : Walk → Option Walk)
    → Holds fs o
    → ((w : Walk) → Holds w.partition.partition (k w))
    → Holds fs (elim o [ none ↦ none | some w ↦ k w ])
bind-Holds fs none k h next = tt
bind-Holds fs (some w) k h next = subst (λ gs. Holds gs (k w)) h (next w)

module _ (m : Module) (pdg : Pdg) (ns : PdgNodes) (a : Annotation) where
  visit_return-Holds :
      (n : NodeRef) (w : Walk) → Holds w.partition.partition (visit_return m pdg ns a n w)
  unfolding visit_return
  visit_return-Holds n w =
      let value = ns.node_value n in
      let met = record w { seen = insert value w.seen } in
      if-Holds w.partition.partition _ (some w) _ refl (
        visit_rest-Holds m ns a (pdg.function_node n) (ns.parent n)
          (map (λ e. e.source) (pdg.in_edges n)) w (if value == null then w else met)
          (seen_if (value == null) w met refl))

  visit_backward-Holds :
      (n : NodeRef) (w : Walk) → Holds w.partition.partition (visit_backward m pdg ns a n w)
  unfolding visit_backward
  visit_backward-Holds n w =
      let met = record w { seen = insert (ns.node_value n) w.seen } in
      if-Holds w.partition.partition _ (some w) _ refl (
        visit_rest-Holds m ns a (pdg.function_node n) (ns.parent n)
          (map (λ e. e.source) (pdg.in_edges n)) w (if ns.is_instruction_node n then met else w)
          (if-partition (ns.is_instruction_node n) met w refl))

  collect_formal-Holds :
      (n dest : NodeRef) (w : Walk)
      → Holds w.partition.partition (collect_formal m pdg ns a n dest w)
  unfolding collect_formal
  collect_formal-Holds n dest w = elim (Option-cases (ns.formal_arg_function dest)) [
    | inl e ↦ rw (e, collect_formal) refl
    | inr (f, e) ↦
        rw (e, collect_formal)
          (ground (
            arith,
            relate-Holds f (record w { levels = update_function_level (ns.parent n) f w.levels }),
          ))
  ]

  collect_formals-Holds :
      (n : NodeRef) (dests : List NodeRef) (w : Walk)
      → Holds w.partition.partition (collect_formals m pdg ns a n dests w)
  unfolding collect_formals
  collect_formals-Holds n [] w = refl
  collect_formals-Holds n (dest ∷ dests) w =
      bind-Holds _ (collect_formal m pdg ns a n dest w) _ (collect_formal-Holds n dest w)
        (λ v. collect_formals-Holds n dests v)

  collect-Holds :
      (n : NodeRef) (w : Walk)
      → Holds w.partition.partition (collect_nodes_for_actual_arg m pdg ns a n w)
  unfolding collect_nodes_for_actual_arg
  collect-Holds n w =
      ground (arith, collect_formals-Holds n (map (λ e. e.destination) (pdg.out_edges n)) w)

  add_stored-partition : (v : ℕ) (w : Walk) → (add_stored m pdg ns a v w).partition ≡ w.partition
  unfolding add_stored
  add_stored-partition v w = ground arith

  visit_forward-Holds :
      (n : NodeRef) (w : Walk) → Holds w.partition.partition (visit_forward m pdg ns a n w)
  unfolding visit_forward
  visit_forward-Holds n w =
      let met = record w { seen = insert (ns.node_value n) w.seen } in
      if-Holds w.partition.partition _ (some w) _ refl (
        go (pdg.function_node n) (if ns.is_instruction_node n then met else w)
          (if-partition (ns.is_instruction_node n) met w refl))
    where
      others : List NodeRef
      others = map (λ e. e.destination) (pdg.out_edges n)

      rest : Walk → Walk
      rest v = push_nodes ns (ns.parent n) others (add_stored m pdg ns a (ns.node_value n) v)

      go :
          (node : Option FunctionRef) (v : Walk)
          → v.partition ≡ w.partition
          → Holds w.partition.partition (elim node [
            | none ↦ elim (collect_nodes_for_actual_arg m pdg ns a n v) [
              | none ↦ none
              | some u ↦ some (rest u)
            ]
            | some f ↦ visit_function m a f v
          ])
      go none v e =
          bind-Holds w.partition.partition (collect_nodes_for_actual_arg m pdg ns a n v)
            (λ u. some (rest u))
            (subst
              (λ (p : Partition). Holds p.partition (collect_nodes_for_actual_arg m pdg ns a n v)) e
              (collect-Holds n v))
            (λ u.
              ap (λ (p : Partition). p.partition)
                (push_nodes-partition ns (ns.parent n) others _
                  ∙ add_stored-partition (ns.node_value n) u))
      go (some f) v e =
          subst (λ (p : Partition). Holds p.partition (visit_function m a f v)) e
            (visit_function-Holds m a f v)

walk-Holds :
    (visit : NodeRef → Walk → Option Walk)
    → ((n : NodeRef) (w : Walk) → Holds w.partition.partition (visit n w))
    → (fuel : ℕ) (w : Walk) → Holds w.partition.partition (walk visit fuel w)
unfolding walk
walk-Holds visit keeps zero w = ground arith
walk-Holds visit keeps (suc fuel) w = go w.work (λ v. walk-Holds visit keeps fuel v)
  where
    go :
        (work : List NodeRef)
        → ((v : Walk) → Holds v.partition.partition (walk visit fuel v))
        → Holds w.partition.partition (elim work [
          | [] ↦ some w
          | n ∷ rest ↦ elim (visit n (record w { work = rest })) [
            | none ↦ none
            | some v ↦ walk visit fuel v
          ]
        ])
    go [] later = refl
    go (n ∷ rest) later =
        bind-Holds w.partition.partition (visit n (record w { work = rest })) (walk visit fuel)
          (keeps n (record w { work = rest })) later

-- A partition that may not be there has no function but one.
abbrev pub Within : FunctionRef → Option Partition → Type 0
Within a none = Unit {0}
Within a (some p) = (f : FunctionRef) → contains_function p f ≡ true → (a == f) ≡ true

partition-Within :
    (a : FunctionRef) (o : Option Walk)
    → Holds (add_to_partition a empty).partition o
    → Within a (elim o [ none ↦ none | some w ↦ some w.partition ])
unfolding contains_function add_to_partition insert contains
partition-Within a none h = tt
partition-Within a (some w) h = λ f c. ground (arith, rw h at c)

if-Within :
    (a : FunctionRef) (b : Bool) (o : Option Partition)
    → Within a o
    → Within a (if b then o else some empty)
unfolding contains_function contains
if-Within a true o h = h
if-Within a false o h = λ f c. ground (arith, c)

module _ (m : Module) (types : Signatures) (pdg : Pdg) (ns : PdgNodes) (a : Annotation) where
  traverse_for_argument-Holds :
      (fuel i : ℕ) (w : Walk)
      → Holds w.partition.partition (traverse_for_argument m types pdg ns fuel a i w)
  unfolding traverse_for_argument traverse_forward traverse_backward start_walk
  traverse_for_argument-Holds fuel i w = go (ns.formal_arg_node a.function i)
    where
      go :
          (node : Option NodeRef)
          → Holds w.partition.partition (elim node [
            | none ↦ some w
            | some formal ↦ elim (traverse_forward m types pdg ns fuel a formal w) [
              | none ↦ none
              | some v ↦ traverse_backward m types pdg ns fuel a v
            ]
          ])
      go none = refl
      go (some formal) =
          bind-Holds w.partition.partition _ (traverse_backward m types pdg ns fuel a)
            (walk-Holds (visit_forward m pdg ns a) (visit_forward-Holds m pdg ns a) fuel
              (start_walk (formal ∷ []) (emplace (ns.parent formal) 0 w.levels) w.partition))
            (λ v.
              walk-Holds (visit_backward m pdg ns a) (visit_backward-Holds m pdg ns a) fuel
                (start_walk v.result v.levels v.partition))

  traverse_arguments-Holds :
      (fuel : ℕ) (is : List ℕ) (w : Walk)
      → Holds w.partition.partition (traverse_arguments m types pdg ns fuel a is w)
  unfolding traverse_arguments
  traverse_arguments-Holds fuel [] w = refl
  traverse_arguments-Holds fuel (i ∷ is) w =
      bind-Holds w.partition.partition _ _
        (if-Holds _ (types.arg_is_pointer a.function i) _ (some w)
          (traverse_for_argument-Holds fuel i w) refl)
        (λ v. traverse_arguments-Holds fuel is v)

  pub return-Within : (fuel : ℕ) → Within a.function (partition_for_return m types pdg ns fuel a)
  unfolding partition_for_return start_walk
  return-Within fuel = if-Within a.function (can_partition_return m types pdg ns a) _ (
      partition-Within a.function _ (
        walk-Holds (visit_return m pdg ns a) (visit_return-Holds m pdg ns a) fuel (
          start_walk (return_nodes ns a.function) (emplace a.function 0 [])
            (add_to_partition a.function empty))))

  pub arguments-Within :
      (fuel : ℕ) → Within a.function (partition_for_arguments m types pdg ns fuel a)
  unfolding partition_for_arguments start_walk
  arguments-Within fuel = if-Within a.function (can_partition_arguments m types pdg ns a) _ (
      partition-Within a.function _ (
        traverse_arguments-Holds fuel a.arguments
          (start_walk [] [] (add_to_partition a.function empty))))
