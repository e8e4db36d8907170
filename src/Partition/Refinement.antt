-- ===== src/Partition/Refinement.antt =====
-- lib/Analysis/Partition.cpp: sequences of calls on a partition, against sets and levels as functions.
use program_partitioning_for.Base.{
  ℕ, ◌≡◌, refl, not, ◌&&◌, ◌||◌, Bool, List, [], ◌∷◌, Option, none, some, ◌==◌, if◌then◌else◌,
  arith, contains, find, keys, IsUnique, find-emplace, find-remove_key, contains-insert,
  contains-erase, contains-insert_all,
}
use program_partitioning_for.Llvm.{FunctionRef, GlobalRef}
use program_partitioning_for.Partition.{
  Partition, set_partition, set_in_interface, set_out_interface, set_globals, add_to_partition,
  add_set_to_partition, add_related_function, add_partition_to_partition, remove_from_partition,
  remove_related_function, clear_related_functions,
}
use program_partitioning_for.Partition.Levels.{min_level, find-merge_levels}

-- The calls of the public interface that change a partition.
pub data Call : Type 0 where
  sets_partition sets_in_interface sets_out_interface sets_globals : List ℕ → Call
  adds removes removes_related : FunctionRef → Call
  adds_set : List FunctionRef → Call
  adds_related : FunctionRef → ℕ → Call
  adds_partition : Partition → Call
  clears_related : Call

unfoldable pub perform : Call → Partition → Partition
perform (sets_partition fs) p = set_partition fs p
perform (sets_in_interface fs) p = set_in_interface fs p
perform (sets_out_interface fs) p = set_out_interface fs p
perform (sets_globals gs) p = set_globals gs p
perform (adds f) p = add_to_partition f p
perform (removes f) p = remove_from_partition f p
perform (removes_related f) p = remove_related_function f p
perform (adds_set fs) p = add_set_to_partition fs p
perform (adds_related f level) p = add_related_function f level p
perform (adds_partition q) p = add_partition_to_partition q p
perform clears_related p = clear_related_functions p

unfoldable pub perform_all : List Call → Partition → Partition
unfolding perform
perform_all [] p = p
perform_all (c ∷ cs) p = perform_all cs (perform c p)

-- What a partition is: four sets, and the level of each related function.
pub record View : Type 0 where
  pub functions : FunctionRef → Bool
  pub callees : FunctionRef → Bool
  pub callers : FunctionRef → Bool
  pub globals : GlobalRef → Bool
  pub levels : FunctionRef → Option ℕ

abbrev pub view : Partition → View
view p = record {
  functions = contains p.partition;
  callees = contains p.in_interface;
  callers = contains p.out_interface;
  globals = contains p.partition_globals;
  levels = λ f. find f p.related_functions;
}

-- A level that is there stays.
abbrev or_level : Option ℕ → ℕ → Option ℕ
or_level none level = some level
or_level (some old) level = some old

-- What each call does to the sets and the levels.
unfoldable pub step : Call → View → View
step (sets_partition fs) v = record v { functions = contains fs }
step (sets_in_interface fs) v = record v { callees = contains fs }
step (sets_out_interface fs) v = record v { callers = contains fs }
step (sets_globals gs) v = record v { globals = contains gs }
step (adds f) v = record v { functions = λ g. f == g || v.functions g }
step (removes f) v = record v { functions = λ g. not (f == g) && v.functions g }
step (removes_related f) v = record v { levels = λ g. if f == g then none else v.levels g }
step (adds_set fs) v = record v { functions = λ g. contains fs g || v.functions g }
step (adds_related f level) v = record v {
  levels = λ g. if f == g then or_level (v.levels f) level else v.levels g;
}
step (adds_partition q) v = record {
  functions = λ g. contains q.partition g || v.functions g;
  callees = λ g. contains q.in_interface g || v.callees g;
  callers = λ g. contains q.out_interface g || v.callers g;
  globals = λ g. contains q.partition_globals g || v.globals g;
  levels = λ g. min_level (v.levels g) (find g q.related_functions);
}
step clears_related v = record v { levels = λ g. none }

unfoldable pub step_all : List Call → View → View
unfolding step
step_all [] v = v
step_all (c ∷ cs) v = step_all cs (step c v)

-- The partition has these sets and levels.
pub record Represents (p : Partition) (v : View) : Type 0 where
  pub functions : (f : FunctionRef) → contains p.partition f ≡ v.functions f
  pub callees : (f : FunctionRef) → contains p.in_interface f ≡ v.callees f
  pub callers : (f : FunctionRef) → contains p.out_interface f ≡ v.callers f
  pub globals : (g : GlobalRef) → contains p.partition_globals g ≡ v.globals g
  pub levels : (f : FunctionRef) → find f p.related_functions ≡ v.levels f

-- A partition that is added has one level for a function.
abbrev pub IsMap : Call → Type 0
IsMap (adds_partition q) = IsUnique (keys q.related_functions)
IsMap _ = Unit {0}

abbrev pub AllMaps : List Call → Type 0
AllMaps [] = Unit {0}
AllMaps (c ∷ cs) = IsMap c × AllMaps cs

perform-Represents :
    (c : Call) (p : Partition) (v : View)
    → IsMap c
    → Represents p v
    → Represents (perform c p) (step c v)
unfolding perform step set_partition set_in_interface set_out_interface set_globals add_to_partition
    remove_from_partition remove_related_function add_set_to_partition add_related_function
    add_partition_to_partition clear_related_functions find
perform-Represents (sets_partition fs) p v h r = record {
  functions = λ f. refl;
  callees = r.callees;
  callers = r.callers;
  globals = r.globals;
  levels = r.levels;
}
perform-Represents (sets_in_interface fs) p v h r = record {
  functions = r.functions;
  callees = λ f. refl;
  callers = r.callers;
  globals = r.globals;
  levels = r.levels;
}
perform-Represents (sets_out_interface fs) p v h r = record {
  functions = r.functions;
  callees = r.callees;
  callers = λ f. refl;
  globals = r.globals;
  levels = r.levels;
}
perform-Represents (sets_globals gs) p v h r = record {
  functions = r.functions;
  callees = r.callees;
  callers = r.callers;
  globals = λ f. refl;
  levels = r.levels;
}
perform-Represents (adds f) p v h r = record {
  functions = λ g. ground (arith, contains-insert f p.partition g, r.functions g);
  callees = r.callees;
  callers = r.callers;
  globals = r.globals;
  levels = r.levels;
}
perform-Represents (removes f) p v h r = record {
  functions = λ g. ground (arith, contains-erase f p.partition g, r.functions g);
  callees = r.callees;
  callers = r.callers;
  globals = r.globals;
  levels = r.levels;
}
perform-Represents (removes_related f) p v h r = record {
  functions = r.functions;
  callees = r.callees;
  callers = r.callers;
  globals = r.globals;
  levels = λ g. ground (arith, find-remove_key f p.related_functions g, r.levels g);
}
perform-Represents (adds_set fs) p v h r = record {
  functions = λ g. ground (arith, contains-insert_all fs p.partition g, r.functions g);
  callees = r.callees;
  callers = r.callers;
  globals = r.globals;
  levels = r.levels;
}
perform-Represents (adds_related f level) p v h r = record {
  functions = r.functions;
  callees = r.callees;
  callers = r.callers;
  globals = r.globals;
  levels = λ g. ground (arith, find-emplace f level p.related_functions g, r.levels g, r.levels f);
}
perform-Represents (adds_partition q) p v h r = record {
  functions = λ g. ground (arith, contains-insert_all q.partition p.partition g, r.functions g);
  callees = λ g. ground (arith, contains-insert_all q.in_interface p.in_interface g, r.callees g);
  callers = λ g. ground (arith, contains-insert_all q.out_interface p.out_interface g, r.callers g);
  globals = λ g.
      ground (arith, contains-insert_all q.partition_globals p.partition_globals g, r.globals g);
  levels = λ g.
      rw (find-merge_levels q.related_functions p.related_functions g h) (rw (r.levels g) refl);
}
perform-Represents clears_related p v h r = record {
  functions = r.functions;
  callees = r.callees;
  callers = r.callers;
  globals = r.globals;
  levels = λ g. refl;
}

perform_all-Represents :
    (cs : List Call) (p : Partition) (v : View)
    → AllMaps cs
    → Represents p v
    → Represents (perform_all cs p) (step_all cs v)
unfolding perform_all step_all
perform_all-Represents [] p v h r = r
perform_all-Represents (c ∷ cs) p v h r =
    perform_all-Represents cs (perform c p) (step c v) h.1 (perform-Represents c p v h.0 r)

-- After any sequence of calls, where each partition that is added has one level for a function, the four
-- sets and the levels of a partition are those that the calls make from its sets and levels before: what
-- is added, removed or set is, a related function keeps its level when it is added again, and of two
-- partitions the smaller level is kept.
pub perform_all_refines :
    (cs : List Call) (p : Partition)
    → AllMaps cs
    → Represents (perform_all cs p) (step_all cs (view p))
perform_all_refines cs p h = perform_all-Represents cs p (view p) h (record {
  functions = λ f. refl;
  callees = λ f. refl;
  callers = λ f. refl;
  globals = λ f. refl;
  levels = λ f. refl;
})
