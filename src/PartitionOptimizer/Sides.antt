-- ===== src/PartitionOptimizer/Sides.antt =====
-- What each step of PartitionOptimizer does to the two partitions: nothing secure becomes insecure, and
-- no function is lost.
use program_partitioning_for.Base.{
  ℕ, ◌≡◌, refl, true, false, not, ◌&&◌, ◌||◌, List, [], ◌∷◌, none, arith, contains, if◌then◌else◌,
  ◌==◌, find-remove_key,
}
use program_partitioning_for.Llvm.{FunctionRef}
use program_partitioning_for.Partition.{
  Partition, contains_function, add_to_partition, set_globals, remove_from_partition,
  remove_related_function, get_function_relation_level,
}
use program_partitioning_for.Partition.Membership.{
  contains-add_to_partition, contains-add_set_to_partition, contains-remove_from_partition,
}
use program_partitioning_for.Optimization.{apply_functions_move, apply_globals_move}
use program_partitioning_for.Optimization.FunctionsMove.{contains-apply_static_analysis}
use program_partitioning_for.Optimization.Ilp.{apply_ilp}
use program_partitioning_for.PartitionOptimizer.{
  Pending, moves_functions, moves_globals, duplicates, kernighan_lin_done, adds_related, ilp_found,
  settle, apply_pending, apply_all,
}

-- From one pair of a secure and an insecure partition to another: what was secure is secure, and what
-- was in either partition is in one of them.
pub record Keeps (before after : Partition × Partition) : Type 0 where
  pub grows :
      (f : FunctionRef) → contains_function before.0 f ≡ true → contains_function after.0 f ≡ true
  pub covers :
      (f : FunctionRef)
      → (contains_function before.0 f || contains_function before.1 f) ≡ true
      → (contains_function after.0 f || contains_function after.1 f) ≡ true

pub Keeps-refl : (a : Partition × Partition) → Keeps a a
Keeps-refl a = record { grows = λ f h. h; covers = λ f h. h }

pub Keeps-trans : (a b c : Partition × Partition) → Keeps a b → Keeps b c → Keeps a c
Keeps-trans a b c h k = record {
  grows = λ f e. k.grows f (h.grows f e);
  covers = λ f e. k.covers f (h.covers f e);
}

contains-remove_related_function :
    (g : FunctionRef) (p : Partition) (f : FunctionRef)
    → contains_function (remove_related_function g p) f ≡ contains_function p f
unfolding contains_function remove_related_function
contains-remove_related_function g p f = refl

level-remove_related_function :
    (g : FunctionRef) (p : Partition) (f : FunctionRef)
    → get_function_relation_level f (remove_related_function g p)
      ≡ (if g == f then none else get_function_relation_level f p)
unfolding get_function_relation_level remove_related_function
level-remove_related_function g p f = find-remove_key g p.related_functions f

contains-apply_ilp :
    (fs : List FunctionRef) (secure insecure : Partition) (f : FunctionRef)
    → (contains_function (apply_ilp fs (secure, insecure)).0 f
        ≡ (contains fs f || contains_function secure f))
      × (contains_function (apply_ilp fs (secure, insecure)).1 f
          ≡ (not (contains fs f) && contains_function insecure f))
unfolding apply_ilp contains
contains-apply_ilp [] secure insecure f = (refl, refl)
contains-apply_ilp (g ∷ fs) secure insecure f =
    let p = add_to_partition g secure in
    let ih =
      contains-apply_ilp fs (remove_related_function g p) (remove_from_partition g insecure) f in
    (
      ground (
        arith,
        ih.0,
        contains-add_to_partition g secure f,
        contains-remove_related_function g p f,
      ),
      ground (arith, ih.1, contains-remove_from_partition g insecure f),
    )

contains-apply_globals_move :
    (gs : List ℕ) (p : Partition) (f : FunctionRef)
    → contains_function (apply_globals_move gs p) f ≡ contains_function p f
unfolding contains_function apply_globals_move set_globals
contains-apply_globals_move gs p f = refl

contains-apply_functions_move :
    (fs : List FunctionRef) (p : Partition) (f : FunctionRef)
    → contains_function (apply_functions_move fs p) f ≡ (contains fs f || contains_function p f)
unfolding apply_functions_move
contains-apply_functions_move fs p f = contains-add_set_to_partition fs p f

apply_pending-Keeps :
    (x : Pending) (secure insecure : Partition)
    → Keeps (secure, insecure) (apply_pending x (secure, insecure))
unfolding apply_pending
apply_pending-Keeps (moves_functions true fs) secure insecure = record {
  grows = λ f h. ground (arith, contains-apply_functions_move fs secure f);
  covers = λ f h. ground (arith, contains-apply_functions_move fs secure f);
}
apply_pending-Keeps (moves_functions false fs) secure insecure = record {
  grows = λ f h. h;
  covers = λ f h. ground (arith, contains-apply_functions_move fs insecure f);
}
apply_pending-Keeps (moves_globals true gs) secure insecure = record {
  grows = λ f h. ground (arith, contains-apply_globals_move gs secure f);
  covers = λ f h. ground (arith, contains-apply_globals_move gs secure f);
}
apply_pending-Keeps (moves_globals false gs) secure insecure = record {
  grows = λ f h. h;
  covers = λ f h. ground (arith, contains-apply_globals_move gs insecure f);
}
apply_pending-Keeps (duplicates fs) secure insecure = Keeps-refl (secure, insecure)
apply_pending-Keeps kernighan_lin_done secure insecure = Keeps-refl (secure, insecure)
apply_pending-Keeps adds_related secure insecure = record {
  grows = λ f h. ground (arith, contains-apply_static_analysis secure f);
  covers = λ f h. ground (arith, contains-apply_static_analysis secure f);
}
apply_pending-Keeps (ilp_found fs) secure insecure = record {
  grows = λ f h. ground (arith, contains-apply_ilp fs secure insecure f);
  covers = λ f h. ground (arith, contains-apply_ilp fs secure insecure f);
}

pub apply_all-Keeps :
    (xs : List Pending) (secure insecure : Partition)
    → Keeps (secure, insecure) (apply_all xs (secure, insecure))
unfolding apply_all
apply_all-Keeps [] secure insecure = Keeps-refl (secure, insecure)
apply_all-Keeps (x ∷ xs) secure insecure =
    let next = apply_pending x (secure, insecure) in
    Keeps-trans (secure, insecure) next (apply_all xs next) (apply_pending-Keeps x secure insecure)
      (apply_all-Keeps xs next.0 next.1)

-- The end of `apply`: the functions of the list leave the insecure partition and lose their levels.
pub settle_lem :
    (fs : List FunctionRef) (secure insecure : Partition) (f : FunctionRef)
    → (contains_function (settle fs (secure, insecure)).0 f ≡ contains_function secure f)
      × (contains_function (settle fs (secure, insecure)).1 f
          ≡ (not (contains fs f) && contains_function insecure f))
      × (get_function_relation_level f (settle fs (secure, insecure)).0
          ≡ (if contains fs f then none else get_function_relation_level f secure))
unfolding settle contains
settle_lem [] secure insecure f = (refl, refl, refl)
settle_lem (g ∷ fs) secure insecure f =
    let ih =
      settle_lem fs (remove_related_function g secure) (remove_from_partition g insecure) f in
    (
      ground (arith, ih.0, contains-remove_related_function g secure f),
      ground (arith, ih.1, contains-remove_from_partition g insecure f),
      ground (arith, ih.2, level-remove_related_function g secure f),
    )
