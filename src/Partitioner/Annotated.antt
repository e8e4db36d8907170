-- ===== src/Partitioner/Annotated.antt =====
-- Partitioner::partition of lib/Analysis/Partitioner.cpp as a whole: what is secure.
use program_partitioning_for.Base.{
  ℕ, ◌+◌, ◌*◌, ◌≤◌, ◌≡◌, ◌≢◌, refl, Bool, not, ◌&&◌, ◌||◌, List, [], ◌∷◌, some, arith, contains,
  ◌==◌, any, length, insert,
}
use program_partitioning_for.Base.Options.{◌>>=◌}
use program_partitioning_for.Llvm.{FunctionRef, ValueRef, Module, Signatures, null}
use program_partitioning_for.Pdg.{Pdg, PdgNodes}
use program_partitioning_for.Partition.{
  Partition, empty, contains_function, add_to_partition, add_partition_to_partition,
}
use program_partitioning_for.Partition.Membership.{contains-add_partition_to_partition}
use program_partitioning_for.Partitioner.Traversal.{Annotation, return_nodes}
use program_partitioning_for.Partitioner.{
  partition_for_function, can_partition_arguments, partition_for_arguments, add_annotation,
  add_annotations, partition,
}
use program_partitioning_for.Partitioner.Functions.{Within, return-Within, arguments-Within}
use program_partitioning_for.Partitioner.Returns.{
  IsFinite, HasOwnReturns, partition_for_return-ends,
}
use program_partitioning_for.Partitioner.Complement.{
  IsComplete, HasSoundGlobals, finished, finish-some, finished_correct,
}

-- The function of an annotation.
abbrev pub is_annotated : List Annotation → FunctionRef → Bool
is_annotated annotations f = any (λ (a : Annotation). a.function == f) annotations

module _ (m : Module) (types : Signatures) (pdg : Pdg) (ns : PdgNodes) where
  contains-partition_for_function :
      (a : Annotation) (f : FunctionRef)
      → a.function ≢ null
      → contains_function (partition_for_function a) f ≡ (a.function == f)
  unfolding partition_for_function add_to_partition contains_function contains insert
  contains-partition_for_function a f h = ground (arith, h)

  contains-merge :
      (a : Annotation) (fuel : ℕ) (secure args returns : Partition) (f : FunctionRef)
      → a.function ≢ null
      → Within a.function (some args)
      → Within a.function (some returns)
      → contains_function
          (add_partition_to_partition returns (
            add_partition_to_partition args
              (add_partition_to_partition (partition_for_function a) secure)))
          f
        ≡ (a.function == f || contains_function secure f)
  contains-merge a fuel secure args returns f nonnull h k =
      let first = add_partition_to_partition (partition_for_function a) secure in
      let second = add_partition_to_partition args first in
      ground (
        arith,
        h f,
        k f,
        contains-partition_for_function a f nonnull,
        (contains-add_partition_to_partition (partition_for_function a) secure f).0,
        (contains-add_partition_to_partition args first f).0,
        (contains-add_partition_to_partition returns second f).0,
      )

  -- What the traversal for an annotation relies on: its function is there, no argument is annotated, and
  -- the dependence graph is finite, within the fuel.
  pub record IsTraceable (values : List ValueRef) (degree fuel : ℕ) (a : Annotation) : Type 0 where
    pub present : a.function ≢ null
    pub no_arguments : a.arguments ≡ []
    pub finite : IsFinite m pdg ns a values degree
    pub own_returns : HasOwnReturns m pdg ns a
    pub enough : length (return_nodes ns a.function) + length values * degree ≤ fuel

  abbrev pub AllTraceable : List ValueRef → ℕ → ℕ → List Annotation → Type 0
  AllTraceable values degree fuel [] = Unit {0}
  AllTraceable values degree fuel (a ∷ rest) =
      IsTraceable values degree fuel a × AllTraceable values degree fuel rest

  partition_for_arguments-none :
      (fuel : ℕ) (a : Annotation)
      → a.arguments ≡ []
      → partition_for_arguments m types pdg ns fuel a ≡ some empty
  unfolding partition_for_arguments can_partition_arguments
  partition_for_arguments-none fuel a h = ground (arith, h)

  add_annotation-step :
      (values : List ValueRef) (degree fuel : ℕ) (a : Annotation) (secure : Partition)
      → IsTraceable values degree fuel a
      → (p : Partition) × (add_annotation m types pdg ns fuel a secure ≡ some p)
        × ((f : FunctionRef)
            → contains_function p f ≡ (a.function == f || contains_function secure f))
  unfolding add_annotation
  add_annotation-step values degree fuel a secure t =
      let (returns, ran) =
        partition_for_return-ends m types pdg ns a values degree fuel t.finite t.own_returns
          t.enough in
      let none_found = partition_for_arguments-none fuel a t.no_arguments in
      (
        _,
        rw (none_found, add_annotation) (rw (ran, add_annotation) refl),
        λ f.
            contains-merge a fuel secure empty returns f t.present
              (rw none_found at (arguments-Within m types pdg ns a fuel))
              (rw ran at (return-Within m types pdg ns a fuel)),
      )

  pub add_annotations-secure :
      (values : List ValueRef) (degree fuel : ℕ) (annotations : List Annotation)
      (secure : Partition)
      → AllTraceable values degree fuel annotations
      → (p : Partition) × (add_annotations m types pdg ns fuel annotations secure ≡ some p)
        × ((f : FunctionRef)
            → contains_function p f ≡ (is_annotated annotations f || contains_function secure f))
  unfolding add_annotations any
  add_annotations-secure values degree fuel [] secure h = (secure, refl, λ f. refl)
  add_annotations-secure values degree fuel (a ∷ rest) secure h =
      let (p, ran, one) = add_annotation-step values degree fuel a secure h.0 in
      let (q, ran', others) = add_annotations-secure values degree fuel rest p h.1 in
      (q, rw (ran, add_annotations) ran', λ f. ground (arith, one f, others f))

  -- From annotations of functions and return values, in a dependence graph that meets IsTraceable for each
  -- of them (it is finite, every node belongs to a function, and every LLVM node but those of functions has
  -- a value), where every global has a node and getNodeParent does not fail at the ends of its edges, the
  -- partitioner ends with no failed assertion. The secure partition then holds exactly
  -- the annotated functions, the insecure one exactly the other functions of the module, and both have
  -- the globals and the interfaces that belong to their functions.
  pub partition_correct :
      (values : List ValueRef) (degree fuel : ℕ) (annotations : List Annotation)
      → AllTraceable values degree fuel annotations
      → HasSoundGlobals m pdg ns
      → (secure insecure : Partition) × (partition m types pdg ns fuel annotations
          ≡ some (secure, insecure))
        × ((f : FunctionRef) → contains_function secure f ≡ is_annotated annotations f)
        × ((f : FunctionRef)
            → contains_function insecure f
              ≡ (contains m.functions f && not (is_annotated annotations f)))
        × IsComplete m pdg ns secure
        × IsComplete m pdg ns insecure
  unfolding partition contains_function contains
  partition_correct values degree fuel annotations h sound =
      let (p, ran, holds) = add_annotations-secure values degree fuel annotations empty h in
      let (same, others, left, right) = finished_correct m pdg ns p in
      let (secure, insecure) = finished m pdg ns p in
      let exactly : (f : FunctionRef) → contains_function secure f ≡ is_annotated annotations f =
        λ f. ground (arith, same f, holds f) in
      (
        secure,
        insecure,
        rw (ran, ◌>>=◌) (finish-some m types pdg ns p sound),
        exactly,
        λ f. ground (arith, others f, exactly f),
        left,
        right,
      )
