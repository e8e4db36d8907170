-- ===== src/Optimization/FunctionsMove.antt =====
-- What the optimizations that move functions choose, and what the static-analysis one adds.
use program_partitioning_for.Base.{
  ℕ, ◌≡◌, refl, Bool, true, false, none, any, Option-cases, inl, inr, not, ◌&&◌, ◌||◌, List, [],
  ◌∷◌, some, arith, contains, keys, contains-select, contains-insert_all, insert_all,
}
use program_partitioning_for.Llvm.{FunctionRef, Module, CallSite}
use program_partitioning_for.Pdg.{Pdg}
use program_partitioning_for.Partition.{
  Partition, contains_function, add_to_partition, clear_related_functions,
}
use program_partitioning_for.Partition.Membership.{contains-add_to_partition}
use program_partitioning_for.Optimization.{
  LoopInfoGetter, in_loop, has_call_site_outside_partition, has_call_site_in_loop,
  compute_functions_called_from_partition_only, compute_functions_called_from_partition_loops,
  run_functions_move, add_related, apply_static_analysis,
}

contains-only :
    (m : Module) (pdg : Pdg) (p : Partition) (f : FunctionRef)
    → contains (compute_functions_called_from_partition_only m pdg p []) f ≡ (
        contains p.out_interface f
        && not (m.is_declaration f)
        && not (has_call_site_outside_partition p (pdg.call_sites f)))
unfolding compute_functions_called_from_partition_only contains
contains-only m pdg p f = rw (contains-select _ p.out_interface f) (ground arith)

contains-loops :
    (m : Module) (pdg : Pdg) (loops : LoopInfoGetter) (p : Partition) (moved : List FunctionRef)
    (f : FunctionRef)
    → contains (compute_functions_called_from_partition_loops m pdg loops p moved) f ≡ (
        contains p.out_interface f
        && not (contains moved f)
        && not (m.is_declaration f)
        && has_call_site_in_loop loops p (pdg.call_sites f))
unfolding compute_functions_called_from_partition_loops
contains-loops m pdg loops p moved f = rw (contains-select _ p.out_interface f) (ground arith)

-- Every call site stands in a function of the partition.
abbrev pub is_called_inside_only : Partition → List CallSite → Bool
is_called_inside_only p [] = true
is_called_inside_only p (site ∷ sites) =
    contains_function p site.caller && is_called_inside_only p sites

-- Some call site stands in a block for which the loop information of its function, one of the partition,
-- has a loop.
abbrev pub is_called_in_loop : LoopInfoGetter → Partition → List CallSite → Bool
is_called_in_loop loops p [] = false
is_called_in_loop loops p (site ∷ sites) =
    (contains_function p site.caller
      && (elim (loops site.caller) [ none ↦ false | some has_loop ↦ has_loop site.parent ]))
    || is_called_in_loop loops p sites

has_call_site_outside_partition-inside_only :
    (p : Partition) (sites : List CallSite)
    → not (has_call_site_outside_partition p sites) ≡ is_called_inside_only p sites
unfolding has_call_site_outside_partition any
has_call_site_outside_partition-inside_only p [] = refl
has_call_site_outside_partition-inside_only p (site ∷ sites) =
    ground (arith, has_call_site_outside_partition-inside_only p sites)

has_call_site_in_loop-called :
    (loops : LoopInfoGetter) (p : Partition) (sites : List CallSite)
    → has_call_site_in_loop loops p sites ≡ is_called_in_loop loops p sites
unfolding has_call_site_in_loop any
has_call_site_in_loop-called loops p [] = refl
has_call_site_in_loop-called loops p (site ∷ sites) = elim (Option-cases (loops site.caller)) [
  | inl e ↦ rw (e, in_loop) (ground (arith, e, has_call_site_in_loop-called loops p sites))
  | inr (has_loop, e) ↦
      rw (e, in_loop) (ground (arith, e, has_call_site_in_loop-called loops p sites))
]

-- When the functions-move optimization runs through, it moves exactly the functions of the
-- out-interface that have a body and are called from nowhere outside the partition, or are called from
-- a loop in a function of the partition.
pub run_functions_move_lem :
    (m : Module) (pdg : Pdg) (loops : LoopInfoGetter) (p : Partition) (moved : List FunctionRef)
    (f : FunctionRef)
    → run_functions_move m pdg loops p ≡ some moved
    → contains moved f ≡ (
        contains p.out_interface f
        && not (m.is_declaration f)
        && (is_called_inside_only p (pdg.call_sites f)
            || is_called_in_loop loops p (pdg.call_sites f)))
unfolding run_functions_move contains
run_functions_move_lem m pdg loops p moved f h =
    let first = insert_all (compute_functions_called_from_partition_only m pdg p []) [] in
    ground (
      arith,
      has_call_site_outside_partition-inside_only p (pdg.call_sites f),
      has_call_site_in_loop-called loops p (pdg.call_sites f),
      contains-only m pdg p f,
      contains-insert_all (compute_functions_called_from_partition_only m pdg p []) [] f,
      contains-loops m pdg loops p first f,
      contains-insert_all (compute_functions_called_from_partition_loops m pdg loops p first) first
          f,
    )

contains-add_related :
    (related : List (FunctionRef × ℕ)) (p : Partition) (f : FunctionRef)
    → contains_function (add_related related p) f
      ≡ (contains (keys related) f || contains_function p f)
unfolding add_related keys contains
contains-add_related [] p f = refl
contains-add_related ((g, level) ∷ rest) p f =
    ground
      (arith, contains-add_related rest (add_to_partition g p) f, contains-add_to_partition g p f)

-- The static-analysis optimization adds exactly the related functions to the partition, whatever their
-- levels, and leaves none of them related.
pub contains-apply_static_analysis :
    (p : Partition) (f : FunctionRef)
    → (contains_function (apply_static_analysis p) f
        ≡ (contains (keys p.related_functions) f || contains_function p f))
      × ((apply_static_analysis p).related_functions ≡ [])
unfolding apply_static_analysis clear_related_functions contains_function
contains-apply_static_analysis p f = (contains-add_related p.related_functions p f, refl)
