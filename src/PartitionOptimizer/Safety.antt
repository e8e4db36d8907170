-- ===== src/PartitionOptimizer/Safety.antt =====
-- PartitionOptimizer::run as a whole.
use program_partitioning_for.Base.{
  ◌≡◌, refl, true, false, not, ◌&&◌, List, [], ◌∷◌, Option, none, some, arith, contains,
  if◌then◌else◌, IsUnique, any-false,
}
use program_partitioning_for.Llvm.{FunctionRef, Module}
use program_partitioning_for.Pdg.{Pdg}
use program_partitioning_for.Numbers.{Scalar}
use program_partitioning_for.Partition.{
  Partition, contains_function, get_function_relation_level, set_in_interface, set_out_interface,
}
use program_partitioning_for.PartitionUtils.{compute_in_interface, compute_out_interface}
use program_partitioning_for.KernighanLin.Run.{eligible, run_optimizer_correct}
use program_partitioning_for.CallGraph.{has_function_node}
use program_partitioning_for.Optimization.{run_functions_move, LoopInfoGetter}
use program_partitioning_for.PartitionOptimizer.{
  Optimization, functions_move_to, globals_move_to, duplicate_functions, kernighan_lin,
  static_analysis, ilp, opt_num, Optimizer, Setting, Pending, settle, compute_interfaces, apply_all,
  apply_optimizations, run_both_moves, run_kernighan_lin, run_one, run_each, run, push,
}
use program_partitioning_for.PartitionOptimizer.Sides.{
  Keeps, Keeps-refl, Keeps-trans, apply_all-Keeps, settle_lem,
}

-- No function is in both partitions.
abbrev pub AreApart : Partition × Partition → Type 0
AreApart sides =
    (f : FunctionRef) → contains_function sides.0 f ≡ true → contains_function sides.1 f ≡ false

-- What `apply` leaves, whatever was optimized.
pub record IsSettled (pdg : Pdg) (before after : Partition × Partition) : Type 0 where
  pub keeps : Keeps before after
  pub apart : AreApart after
  pub unrelated :
      (f : FunctionRef)
      → contains_function after.0 f ≡ true
      → get_function_relation_level f after.0 ≡ none
  pub secure_in : after.0.in_interface ≡ compute_in_interface after.0.partition pdg
  pub secure_out : after.0.out_interface ≡ compute_out_interface after.0.partition pdg
  pub insecure_in : after.1.in_interface ≡ compute_in_interface after.1.partition pdg
  pub insecure_out : after.1.out_interface ≡ compute_out_interface after.1.partition pdg

compute_interfaces_lem :
    (pdg : Pdg) (p : Partition) (f : FunctionRef)
    → (contains_function (compute_interfaces pdg p) f ≡ contains_function p f)
      × (get_function_relation_level f (compute_interfaces pdg p) ≡ get_function_relation_level f p)
unfolding compute_interfaces contains_function get_function_relation_level set_in_interface
    set_out_interface
compute_interfaces_lem pdg p f = (refl, refl)

compute_interfaces_exact :
    (pdg : Pdg) (p : Partition)
    → let q = compute_interfaces pdg p in
      (q.in_interface ≡ compute_in_interface q.partition pdg)
      × (q.out_interface ≡ compute_out_interface q.partition pdg)
unfolding compute_interfaces set_in_interface set_out_interface
compute_interfaces_exact pdg p = (refl, refl)

contains-partition :
    (p : Partition) (f : FunctionRef) → contains p.partition f ≡ contains_function p f
unfolding contains_function
contains-partition p f = refl

apply_optimizations-IsSettled :
    (pdg : Pdg) (o : Optimizer) → IsSettled pdg (o.secure, o.insecure) (apply_optimizations pdg o)
unfolding apply_optimizations
apply_optimizations-IsSettled pdg o =
    let moved = apply_all o.optimizations (o.secure, o.insecure) in
    let settled = settle moved.0.partition moved in
    let keeps = apply_all-Keeps o.optimizations o.secure o.insecure in
    let ends = λ (f : FunctionRef). settle_lem moved.0.partition moved.0 moved.1 f in
    let left = λ (f : FunctionRef). compute_interfaces_lem pdg settled.0 f in
    let right = λ (f : FunctionRef). compute_interfaces_lem pdg settled.1 f in
    let own = λ (f : FunctionRef). contains-partition moved.0 f in
    record {
      keeps = record {
        grows = λ f h. ground (arith, keeps.grows f, ends f, left f);
        covers = λ f h. ground (arith, keeps.covers f, ends f, left f, right f, own f);
      };
      apart = λ f h. ground (arith, ends f, left f, right f, own f);
      unrelated = λ f h. ground (arith, ends f, left f, own f);
      secure_in = (compute_interfaces_exact pdg settled.0).0;
      secure_out = (compute_interfaces_exact pdg settled.0).1;
      insecure_in = (compute_interfaces_exact pdg settled.1).0;
      insecure_out = (compute_interfaces_exact pdg settled.1).1;
    }

IsSettled-from :
    (pdg : Pdg) (before middle after : Partition × Partition)
    → Keeps before middle
    → IsSettled pdg middle after
    → IsSettled pdg before after
IsSettled-from pdg before middle after k h = record {
  keeps = Keeps-trans before middle after k h.keeps;
  apart = h.apart;
  unrelated = h.unrelated;
  secure_in = h.secure_in;
  secure_out = h.secure_out;
  insecure_in = h.insecure_in;
  insecure_out = h.insecure_out;
}

-- The options whose run needs nothing of the others.
abbrev pub Runnable : Optimization → Type 0
Runnable duplicate_functions = ⊥
Runnable opt_num = ⊥
Runnable _ = Unit {0}

abbrev pub AllRunnable : List Optimization → Type 0
AllRunnable [] = Unit {0}
AllRunnable (opt ∷ opts) = Runnable opt × AllRunnable opts

-- Every function with a body has a graph, which the PDG builder is asserted to provide.
abbrev pub HasGraphs : Module → Pdg → Type 0
HasGraphs m pdg = (f : FunctionRef) → m.is_declaration f ≡ false → pdg.has_function_pdg f ≡ true

run_functions_move-some :
    (m : Module) (pdg : Pdg) (loops : LoopInfoGetter) (p : Partition)
    → HasGraphs m pdg
    → (moved : List FunctionRef) × (run_functions_move m pdg loops p ≡ some moved)
unfolding run_functions_move
run_functions_move-some m pdg loops p graphs =
    rw
      (
        any-false (λ f. not (m.is_declaration f) && not (pdg.has_function_pdg f)) p.out_interface
            (λ f. ground (arith, graphs f)),
        if◌then◌else◌,
      )
      (_, refl)

module _ (s : Scalar) (c : Setting s.T) (graphs : HasGraphs c.program c.pdg) where
  -- The functions of the insecure partition that have a body have nodes in the call graph.
  abbrev pub HasNodesFor : Partition → Type 0
  HasNodesFor insecure =
      (f : FunctionRef)
      → contains_function insecure f ≡ true
      → c.program.is_declaration f ≡ false
      → has_function_node f c.callgraph ≡ true

  record IsReady (o : Optimizer) : Type 0 where
    nodes : HasNodesFor o.insecure
    tidy : IsUnique o.insecure.partition
    apart :
        (f : FunctionRef)
        → contains_function o.insecure f ≡ true
        → contains_function o.secure f ≡ false

  abbrev Goes : Optimizer → Option Optimizer → Type 0
  Goes o r =
      (o' : Optimizer) × (r ≡ some o')
      × IsReady o'
      × Keeps (o.secure, o.insecure) (o'.secure, o'.insecure)

  push-Goes :
      (o : Optimizer) (xs : List Pending)
      → IsReady o
      → Goes o (some (record o { optimizations = xs }))
  push-Goes o xs h = (
    record o { optimizations = xs },
    refl,
    record { nodes = h.nodes; tidy = h.tidy; apart = h.apart },
    Keeps-refl (o.secure, o.insecure),
  )

  run_kernighan_lin-Goes : (o : Optimizer) → IsReady o → Goes o (run_kernighan_lin s c o)
  unfolding run_kernighan_lin
  run_kernighan_lin-Goes o h =
      let (kept, secure, insecure, ends, sub, moved) =
        run_optimizer_correct s c.program c.callgraph o.secure o.insecure h.tidy
          (λ f i. let ok = eligible c.program o.insecure f i in h.nodes f ok.0 ok.1) h.apart in
      rw (ends, run_kernighan_lin)
        (
          _,
          refl,
          record {
            nodes = λ f i. h.nodes f (ground (arith, moved.released f, i));
            tidy = moved.tidy h.tidy;
            apart = λ f e. ground (arith, h.apart f, moved.secured f, moved.released f);
          },
          record {
            grows = λ f e. ground (arith, moved.secured f);
            covers = λ f e. ground (arith, moved.secured f, moved.released f);
          },
        )

  run_both_moves-Goes : (o : Optimizer) → IsReady o → Goes o (run_both_moves s c o)
  unfolding run_both_moves push
  run_both_moves-Goes o h =
      let (fs, first) = run_functions_move-some c.program c.pdg c.loops o.secure graphs in
      let (gs, second) = run_functions_move-some c.program c.pdg c.loops o.insecure graphs in
      rw (first, run_both_moves) (rw (second, run_both_moves) (push-Goes o _ h))

  run_one-Goes :
      (opt : Optimization) (o : Optimizer) → Runnable opt → IsReady o → Goes o (run_one s c opt o)
  unfolding run_one push
  run_one-Goes functions_move_to o can h = run_both_moves-Goes o h
  run_one-Goes globals_move_to o can h = push-Goes o _ h
  run_one-Goes duplicate_functions o can h = absurd can
  run_one-Goes kernighan_lin o can h = run_kernighan_lin-Goes o h
  run_one-Goes static_analysis o can h = push-Goes o _ h
  run_one-Goes ilp o can h = push-Goes o _ h
  run_one-Goes opt_num o can h = absurd can

  run_each-Goes :
      (opts : List Optimization) (o : Optimizer)
      → AllRunnable opts
      → IsReady o
      → Goes o (run_each s c opts o)
  unfolding run_each
  run_each-Goes [] o can h = (o, refl, h, Keeps-refl (o.secure, o.insecure))
  run_each-Goes (opt ∷ opts) o can h =
      let (o', ran, h', keeps) = run_one-Goes opt o can.0 h in
      let (o'', ends, h'', keeps') = run_each-Goes opts o' can.1 h' in
      (
        o'',
        rw (ran, run_each) ends,
        h'',
        Keeps-trans (o.secure, o.insecure) (o'.secure, o'.insecure) (o''.secure, o''.insecure) keeps
            keeps',
      )

  -- From partitions with no function in common, with a dependence graph for every function that has a
  -- body, and with a node in the call graph for every insecure function that has one: any sequence of
  -- options other than `duplicate_functions` and the end marker runs through. After it
  -- what was secure is still secure; no function of the two partitions is lost; no function is in
  -- both; no secure function has a related level; and the four interfaces are those computed from the
  -- final partitions.
  pub run_correct :
      (opts : List Optimization) (secure insecure : Partition)
      → AllRunnable opts
      → HasNodesFor insecure
      → IsUnique insecure.partition
      → ((f : FunctionRef)
          → contains_function insecure f ≡ true
          → contains_function secure f ≡ false)
      → (after : Partition × Partition) × (run s c opts secure insecure ≡ some after)
        × IsSettled c.pdg (secure, insecure) after
  unfolding run
  run_correct opts secure insecure can nodes tidy apart =
      let start : Optimizer = record { secure = secure; insecure = insecure; optimizations = [] } in
      let (o, ran, h, keeps) =
        run_each-Goes opts start can (record { nodes = nodes; tidy = tidy; apart = apart }) in
      let settled = apply_optimizations-IsSettled c.pdg o in
      let after = apply_optimizations c.pdg o in
      (
        after,
        rw (ran, run) refl,
        IsSettled-from c.pdg (secure, insecure) (o.secure, o.insecure) after keeps settled,
      )
