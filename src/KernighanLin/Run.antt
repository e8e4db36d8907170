-- ===== src/KernighanLin/Run.antt =====
-- What a whole pass and KLOptimizer::run do to the two partitions.
use program_partitioning_for.Base.{
  ℕ, zero, suc, ◌≤◌, ◌≡◌, ◌≢◌, refl, ap, ◌∙◌, true, false, not, ◌&&◌, ◌||◌, List, [], ◌∷◌, none,
  some, arith, if◌then◌else◌, length, take, drop, find, keys, contains, IsUnique, find-remove_key,
  contains-select, select-IsUnique, insert-IsUnique,
}
use native.Mathlib.Nat.{le_refl}
use text.Mathlib.TextEquality.{eq_iff}
use program_partitioning_for.Llvm.{FunctionRef, Module}
use program_partitioning_for.Numbers.{Scalar}
use program_partitioning_for.CallGraph.{CallGraph}
use program_partitioning_for.Partition.{
  Partition, contains_function, add_to_partition, remove_from_partition, remove_related_function,
  get_function_relation_level,
}
use program_partitioning_for.Partition.Membership.{
  contains-add_to_partition, contains-remove_from_partition,
}
use program_partitioning_for.KernighanLin.{
  Pass, costs_for, start_pass, best_prefix, revert_moves, remove_related, apply_optimization,
  run_pass, collect_pass_candidates, run_optimizer,
}
use program_partitioning_for.KernighanLin.Moves.{HasNodes, Tracks, move_loop_lem}

-- The result of a pass: the functions `kept` have changed sides, and nothing else has.
pub record HasMoved (kept : List FunctionRef) (secure insecure secure' insecure' : Partition)
    : Type 0 where
  pub secured :
      (f : FunctionRef)
      → contains_function secure' f ≡ (contains kept f || contains_function secure f)
  pub released :
      (f : FunctionRef)
      → contains_function insecure' f ≡ (not (contains kept f) && contains_function insecure f)
  pub levels :
      (f : FunctionRef)
      → get_function_relation_level f secure'
        ≡ (if contains kept f then none else get_function_relation_level f secure)
  pub tidy : IsUnique insecure.partition → IsUnique insecure'.partition

candidates-IsUnique :
    (m : Module) (insecure : Partition)
    → IsUnique insecure.partition
    → IsUnique (collect_pass_candidates m insecure)
unfolding collect_pass_candidates
candidates-IsUnique m insecure u = select-IsUnique _ insecure.partition u

pub eligible :
    (m : Module) (insecure : Partition) (f : FunctionRef)
    → contains (collect_pass_candidates m insecure) f ≡ true
    → (contains_function insecure f ≡ true)
      × (m.is_declaration f ≡ false)
      × (m.is_intrinsic f ≡ false)
      × (m.name f ≢ "main")
unfolding collect_pass_candidates contains_function
eligible m insecure f h =
    let kept = rw (contains-select _ insecure.partition f) at h in
    let main = eq_iff (m.name f) "main" in
    (ground arith, ground arith, ground arith, λ e. ground (arith, main))

module _ (s : Scalar) where
  open s use {T}

  contains-revert_moves :
      (moves : List (FunctionRef × T)) (secure insecure : Partition) (f : FunctionRef)
      → (contains_function (revert_moves s moves (secure, insecure)).0 f
          ≡ (not (contains (keys moves) f) && contains_function secure f))
        × (contains_function (revert_moves s moves (secure, insecure)).1 f
            ≡ (contains (keys moves) f || contains_function insecure f))
        × ((revert_moves s moves (secure, insecure)).0.related_functions ≡ secure.related_functions)
  unfolding revert_moves keys contains remove_from_partition
  contains-revert_moves [] secure insecure f = (refl, refl, refl)
  contains-revert_moves ((g, gain) ∷ moves) secure insecure f =
      let ih =
        contains-revert_moves moves (remove_from_partition g secure) (add_to_partition g insecure)
          f in
      (
        ground (arith, ih.0, contains-remove_from_partition g secure f),
        ground (arith, ih.1, contains-add_to_partition g insecure f),
        ih.2,
      )

  revert_moves-IsUnique :
      (moves : List (FunctionRef × T)) (secure insecure : Partition)
      → IsUnique insecure.partition
      → IsUnique (revert_moves s moves (secure, insecure)).1.partition
  unfolding revert_moves add_to_partition
  revert_moves-IsUnique [] secure insecure u = u
  revert_moves-IsUnique ((g, gain) ∷ moves) secure insecure u =
      revert_moves-IsUnique moves (remove_from_partition g secure) (add_to_partition g insecure)
        (insert-IsUnique g insecure.partition u)

  contains-remove_related :
      (moves : List (FunctionRef × T)) (secure : Partition) (f : FunctionRef)
      → (contains_function (remove_related s moves secure) f ≡ contains_function secure f)
        × (get_function_relation_level f (remove_related s moves secure)
            ≡ (if contains (keys moves) f then none else get_function_relation_level f secure))
  unfolding remove_related keys contains remove_related_function get_function_relation_level
      contains_function
  contains-remove_related [] secure f = (refl, refl)
  contains-remove_related ((g, gain) ∷ moves) secure f =
      let ih = contains-remove_related moves (remove_related_function g secure) f in
      (ih.0, ground (arith, ih.1, find-remove_key g secure.related_functions f))

  contains-keys_split :
      (k : ℕ) (moves : List (FunctionRef × T)) (f : FunctionRef)
      → IsUnique (keys moves)
      → (contains (keys moves) f
          ≡ (contains (keys (take k moves)) f || contains (keys (drop k moves)) f))
        × (contains (keys (take k moves)) f ≡ true → contains (keys (drop k moves)) f ≡ false)
  unfolding keys contains
  contains-keys_split zero moves f u = ground arith
  contains-keys_split (suc k) [] f u = ground arith
  contains-keys_split (suc k) ((g, gain) ∷ moves) f u =
      ground (arith, contains-keys_split k moves f, contains-keys_split k moves g)

  apply_optimization-HasMoved :
      (all : List FunctionRef) (secure insecure : Partition) (p : Pass T)
      → Tracks s all secure insecure p
      → p.candidates ≡ []
      → ((f : FunctionRef) → contains all f ≡ true → contains_function insecure f ≡ true)
      → ((f : FunctionRef) → contains all f ≡ true → contains_function secure f ≡ false)
      → (kept : List FunctionRef) × ((f : FunctionRef)
          → contains kept f ≡ true
          → contains all f ≡ true)
        × HasMoved kept secure insecure (apply_optimization s p).0 (apply_optimization s p).1
  unfolding apply_optimization contains get_function_relation_level
  apply_optimization-HasMoved all secure insecure p t done inside outside =
      let k = best_prefix s s.zero s.zero 0 0 p.function_move_gains in
      let first = take k p.function_move_gains in
      let rest = drop k p.function_move_gains in
      let reverted = λ (f : FunctionRef). contains-revert_moves rest p.secure p.insecure f in
      let related = λ (f : FunctionRef).
        contains-remove_related first (revert_moves s rest (p.secure, p.insecure)).0 f in
      let parts =
        λ (f : FunctionRef). contains-keys_split k p.function_move_gains f t.moved_unique in
      (
        keys first,
        λ f h. ground (arith, parts f, t.split f),
        record {
          secured = λ f.
              ground (arith, reverted f, related f, parts f, t.secured f, t.split f, outside f);
          released = λ f. ground (arith, reverted f, parts f, t.released f, t.split f, inside f);
          levels = λ f.
              (related f).1
              ∙ ap (λ m. if contains (keys first) f then none else find f m)
                  ((reverted f).2 ∙ t.levels);
          tidy = λ u. revert_moves-IsUnique rest p.secure p.insecure (t.tidy u);
        },
      )

  start-Tracks :
      (candidates : List FunctionRef) (secure insecure : Partition)
      → IsUnique candidates
      → Tracks s candidates secure insecure (start_pass s candidates secure insecure)
  unfolding start_pass keys contains
  start-Tracks candidates secure insecure u = record {
    left_unique = u;
    moved_unique = tt;
    split = λ f. refl;
    apart = λ f h. cc;
    secured = λ f. refl;
    released = λ f. refl;
    levels = refl;
    tidy = λ v. v;
  }

  -- A pass over candidates that have nodes and are all in the insecure partition, none of them in the
  -- secure one and none twice, ends; some of the candidates have then moved from the insecure to the secure
  -- partition, with no related level left, and every other function is where it was.
  pub run_pass_correct :
      (g : CallGraph T) (candidates : List FunctionRef) (secure insecure : Partition)
      → IsUnique candidates
      → HasNodes s g candidates
      → ((f : FunctionRef) → contains candidates f ≡ true → contains_function insecure f ≡ true)
      → ((f : FunctionRef) → contains candidates f ≡ true → contains_function secure f ≡ false)
      → (kept : List FunctionRef) × (secure' : Partition) × (insecure' : Partition) × (run_pass s g
            candidates secure insecure
          ≡ some (secure', insecure'))
        × ((f : FunctionRef) → contains kept f ≡ true → contains candidates f ≡ true)
        × HasMoved kept secure insecure secure' insecure'
  unfolding run_pass costs_for start_pass
  run_pass_correct g candidates secure insecure u nodes inside outside =
      let start = start_pass s candidates secure insecure in
      let (q, ends, done, t) =
        move_loop_lem s (costs_for s g candidates) candidates secure insecure (length candidates)
          none start (at_start nodes) (enough candidates)
          (start-Tracks candidates secure insecure u) in
      let (kept, sub, moved) =
        apply_optimization-HasMoved candidates secure insecure q t done inside outside in
      (
        kept,
        (apply_optimization s q).0,
        (apply_optimization s q).1,
        ground (arith, ends),
        sub,
        moved,
      )
    where
      at_start :
          HasNodes s g candidates
          → HasNodes s
              (costs_for s g candidates).graph
              (start_pass s candidates secure insecure).candidates
      at_start h = h

      enough :
          (fs : List FunctionRef) → length (start_pass s fs secure insecure).candidates ≤ length fs
      enough fs = le_refl (length fs)

  -- The Kernighan-Lin optimizer ends on partitions that have no function in common, where the call graph
  -- has a node for each candidate; some functions of the insecure partition, none of them a declaration, an intrinsic or `main`, have then moved to the
  -- secure one, with no related level left, and every other function is where it was.
  pub run_optimizer_correct :
      (m : Module) (g : CallGraph T) (secure insecure : Partition)
      → IsUnique insecure.partition
      → HasNodes s g (collect_pass_candidates m insecure)
      → ((f : FunctionRef)
          → contains_function insecure f ≡ true
          → contains_function secure f ≡ false)
      → (kept : List FunctionRef) × (secure' : Partition) × (insecure' : Partition) × (run_optimizer
            s m g secure insecure
          ≡ some (secure', insecure'))
        × ((f : FunctionRef)
            → contains kept f ≡ true
            → (contains_function insecure f ≡ true)
              × (m.is_declaration f ≡ false)
              × (m.is_intrinsic f ≡ false)
              × (m.name f ≢ "main"))
        × HasMoved kept secure insecure secure' insecure'
  unfolding run_optimizer
  run_optimizer_correct m g secure insecure u nodes apart =
      let cs = collect_pass_candidates m insecure in
      let ok = λ (f : FunctionRef) (h : contains cs f ≡ true). eligible m insecure f h in
      let (kept, secure', insecure', ends, sub, moved) =
        run_pass_correct g cs secure insecure (candidates-IsUnique m insecure u) nodes
          (λ f h. (ok f h).0) (λ f h. apart f (ok f h).0) in
      (kept, secure', insecure', ends, λ f h. ok f (sub f h), moved)
