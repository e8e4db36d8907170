-- ===== src/Partitioner/Complement.antt =====
-- The two partitions of Partitioner::partition.
use program_partitioning_for.Base.{
  ◌≡◌, refl, Bool, true, false, not, none, some, map, all, any, select, Option-cases, ap, sym, inl,
  inr, IsUnique, insert-IsUnique, if◌then◌else◌, ◌&&◌, ◌||◌, List, [], ◌∷◌, arith, contains,
  contains-select,
}
use program_partitioning_for.Base.Options.{◌>>=◌}
use program_partitioning_for.Llvm.{FunctionRef, GlobalRef, Module, Signatures, null}
use program_partitioning_for.Pdg.{Pdg, PdgNodes, PdgEdge, NodeRef}
use program_partitioning_for.Partition.{
  Partition, empty, contains_function, contains_global, add_to_partition, set_globals,
  set_in_interface, set_out_interface,
}
use program_partitioning_for.Partition.Membership.{contains-add_to_partition}
use program_partitioning_for.PartitionUtils.{compute_in_interface, compute_out_interface}
use program_partitioning_for.Partitioner.{
  add_others, complete, compute_insecure_partition, finish, get_node_parent, any_contained,
  is_referenced, referenced_globals, with_globals,
}

contains-empty : (f : FunctionRef) → contains_function empty f ≡ false
unfolding contains_function contains
contains-empty f = refl

contains-add_others :
    (secure : Partition) (fs : List FunctionRef) (p : Partition) (f : FunctionRef)
    → contains_function (add_others secure fs p) f
      ≡ ((contains fs f && not (contains_function secure f)) || contains_function p f)
unfolding add_others contains
contains-add_others secure [] p f = refl
contains-add_others secure (g ∷ fs) p f = ground (
  arith,
  contains-add_others secure fs p f,
  contains-add_others secure fs (add_to_partition g p) f,
  contains-add_to_partition g p f,
)

-- Utils::getNodeParent where it does not fail.
abbrev pub parent_of : Pdg → PdgNodes → NodeRef → FunctionRef
parent_of pdg ns n = elim (get_node_parent pdg ns n) [ none ↦ null | some f ↦ f ]

abbrev pub has_parent : Pdg → PdgNodes → NodeRef → Bool
has_parent pdg ns n = elim (get_node_parent pdg ns n) [ none ↦ false | some f ↦ true ]

abbrev pub sources : List PdgEdge → List NodeRef
sources es = map (λ (e : PdgEdge). e.source) es

abbrev pub destinations : List PdgEdge → List NodeRef
destinations es = map (λ (e : PdgEdge). e.destination) es

-- A global has a node, and getNodeParent does not fail at the other ends of its edges.
unfoldable pub is_sound_global : Pdg → PdgNodes → GlobalRef → Bool
unfolding all get_node_parent
is_sound_global pdg ns g = elim (ns.global_node g) [
  | none ↦ false
  | some node ↦
      all (has_parent pdg ns) (sources (pdg.in_edges node))
      && all (has_parent pdg ns) (destinations (pdg.out_edges node))
]

abbrev pub HasSoundGlobals : Module → Pdg → PdgNodes → Type 0
HasSoundGlobals m pdg ns = all (is_sound_global pdg ns) m.globals ≡ true

-- Some edge of the global has its other end in a function of the partition.
unfoldable pub is_connected : Pdg → PdgNodes → Partition → GlobalRef → Bool
unfolding any get_node_parent
is_connected pdg ns p g = elim (ns.global_node g) [
  | none ↦ false
  | some node ↦
      any (λ n. contains_function p (parent_of pdg ns n)) (sources (pdg.in_edges node))
      || any (λ n. contains_function p (parent_of pdg ns n)) (destinations (pdg.out_edges node))
]

any_contained-some :
    (pdg : Pdg) (ns : PdgNodes) (p : Partition) (nodes : List NodeRef)
    → all (has_parent pdg ns) nodes ≡ true
    → any_contained pdg ns p nodes
      ≡ some (any (λ n. contains_function p (parent_of pdg ns n)) nodes)
unfolding any_contained any all
any_contained-some pdg ns p [] h = refl
any_contained-some pdg ns p (n ∷ rest) h = elim (Option-cases (get_node_parent pdg ns n)) [
  | inl e ↦ ground (arith, e, h)
  | inr (f, e) ↦
      let others = any_contained-some pdg ns p rest (ground (arith, h)) in
      let same : parent_of pdg ns n ≡ f = ground (arith, e) in
      let more = any (λ k. contains_function p (parent_of pdg ns k)) rest in
      rw (e, ◌>>=◌) (rw (others, ◌>>=◌) (ap (λ k. some (contains_function p k || more)) (sym same)))
]

is_referenced-some :
    (pdg : Pdg) (ns : PdgNodes) (p : Partition) (g : GlobalRef)
    → is_sound_global pdg ns g ≡ true
    → is_referenced pdg ns p g ≡ some (is_connected pdg ns p g)
unfolding is_referenced is_connected is_sound_global
is_referenced-some pdg ns p g h = elim (Option-cases (ns.global_node g)) [
  | inl e ↦ ground (arith, e, h)
  | inr (node, e) ↦
      let first =
        any_contained-some pdg ns p (sources (pdg.in_edges node)) (ground (arith, e, h)) in
      let second =
        any_contained-some pdg ns p (destinations (pdg.out_edges node)) (ground (arith, e, h)) in
      let all_edges : is_connected pdg ns p g ≡ (
          any (λ n. contains_function p (parent_of pdg ns n)) (sources (pdg.in_edges node))
          || any (λ n. contains_function p (parent_of pdg ns n))
              (destinations (pdg.out_edges node))) =
        rw (e, is_connected) refl in
      rw (e, ◌>>=◌) (rw (first, ◌>>=◌) (rw (second, ◌>>=◌) (ap some (sym all_edges))))
]

referenced_globals-some :
    (pdg : Pdg) (ns : PdgNodes) (p : Partition) (gs : List GlobalRef)
    → all (is_sound_global pdg ns) gs ≡ true
    → referenced_globals pdg ns p gs ≡ some (select (is_connected pdg ns p) gs)
unfolding referenced_globals select all
referenced_globals-some pdg ns p [] h = refl
referenced_globals-some pdg ns p (g ∷ gs) h =
    let first = is_referenced-some pdg ns p g (ground (arith, h)) in
    let rest = referenced_globals-some pdg ns p gs (ground (arith, h)) in
    rw (first, ◌>>=◌) (rw (rest, ◌>>=◌) refl)

-- The completed partition.
unfoldable completed : Module → Pdg → PdgNodes → Partition → Partition
unfolding with_globals
completed m pdg ns p = with_globals pdg p (select (is_connected pdg ns p) m.globals)

complete-some :
    (m : Module) (pdg : Pdg) (ns : PdgNodes) (p : Partition)
    → HasSoundGlobals m pdg ns
    → complete m pdg ns p ≡ some (completed m pdg ns p)
unfolding complete completed
complete-some m pdg ns p h =
    let found = referenced_globals-some pdg ns p m.globals h in rw (found, ◌>>=◌) refl

-- A partition is complete: its globals are those of the module with an edge in the dependence graph from
-- or to one of its functions, and its interfaces are computed from its functions.
pub record IsComplete (m : Module) (pdg : Pdg) (ns : PdgNodes) (p : Partition) : Type 0 where
  pub globals :
      (g : GlobalRef) → contains_global p g ≡ (contains m.globals g && is_connected pdg ns p g)
  pub in_interface : p.in_interface ≡ compute_in_interface p.partition pdg
  pub out_interface : p.out_interface ≡ compute_out_interface p.partition pdg

completed-IsComplete :
    (m : Module) (pdg : Pdg) (ns : PdgNodes) (p : Partition)
    → IsComplete m pdg ns (completed m pdg ns p)
unfolding completed with_globals contains_global contains_function set_globals set_in_interface
    set_out_interface is_connected
completed-IsComplete m pdg ns p = record {
  globals = λ g. contains-select _ m.globals g;
  in_interface = refl;
  out_interface = refl;
}

contains-completed :
    (m : Module) (pdg : Pdg) (ns : PdgNodes) (p : Partition) (f : FunctionRef)
    → contains_function (completed m pdg ns p) f ≡ contains_function p f
unfolding completed with_globals contains_function set_globals set_in_interface set_out_interface
contains-completed m pdg ns p f = refl

-- The two partitions at the end.
unfoldable pub finished : Module → Pdg → PdgNodes → Partition → Partition × Partition
unfolding completed
finished m pdg ns p =
    let secure = completed m pdg ns p in
    (secure, completed m pdg ns (add_others secure m.functions empty))

pub finish-some :
    (m : Module) (types : Signatures) (pdg : Pdg) (ns : PdgNodes) (p : Partition)
    → HasSoundGlobals m pdg ns
    → finish m types pdg ns p ≡ some (finished m pdg ns p)
unfolding finish finished compute_insecure_partition
finish-some m types pdg ns p h =
    let secure = completed m pdg ns p in
    let first = complete-some m pdg ns p h in
    let second = complete-some m pdg ns (add_others secure m.functions empty) h in
    rw (first, ◌>>=◌) (rw (second, ◌>>=◌) refl)

-- Whatever partition the annotations lead to, its functions are those of the secure partition; the
-- insecure partition holds exactly the functions of the module that are not secure; and both partitions
-- have exactly the globals of the module that the dependence graph connects to their functions, and the
-- interfaces that are computed from their functions.
pub finished_correct :
    (m : Module) (pdg : Pdg) (ns : PdgNodes) (p : Partition)
    → let (secure, insecure) = finished m pdg ns p in
      ((f : FunctionRef) → contains_function secure f ≡ contains_function p f)
      × ((f : FunctionRef)
          → contains_function insecure f
            ≡ (contains m.functions f && not (contains_function secure f)))
      × IsComplete m pdg ns secure
      × IsComplete m pdg ns insecure
unfolding finished
finished_correct m pdg ns p =
    let secure = completed m pdg ns p in
    let others = add_others secure m.functions empty in
    (
      λ f. contains-completed m pdg ns p f,
      λ f. ground (
        arith,
        contains-completed m pdg ns others f,
        contains-add_others secure m.functions empty f,
        contains-empty f,
      ),
      completed-IsComplete m pdg ns p,
      completed-IsComplete m pdg ns others,
    )

add_others-IsUnique :
    (secure : Partition) (fs : List FunctionRef) (p : Partition)
    → IsUnique p.partition
    → IsUnique (add_others secure fs p).partition
unfolding add_others add_to_partition
add_others-IsUnique secure [] p u = u
add_others-IsUnique secure (f ∷ fs) p u =
    let rest = add_others-IsUnique secure fs p u in
    let added =
      add_others-IsUnique secure fs (add_to_partition f p) (insert-IsUnique f p.partition u) in
    choose (contains_function secure f) rest added
  where
    choose :
        (b : Bool)
        → IsUnique (add_others secure fs p).partition
        → IsUnique (add_others secure fs (add_to_partition f p)).partition
        → IsUnique (add_others secure fs (if b then p else add_to_partition f p)).partition
    choose true h k = h
    choose false h k = k

pub finished-IsUnique :
    (m : Module) (pdg : Pdg) (ns : PdgNodes) (p : Partition)
    → IsUnique (finished m pdg ns p).1.partition
unfolding finished completed with_globals set_globals set_in_interface set_out_interface
finished-IsUnique m pdg ns p = add_others-IsUnique (completed m pdg ns p) m.functions empty tt
