-- ===== src/Partition/Membership.antt =====
-- What a partition contains after each operation of lib/Analysis/Partition.cpp that adds or removes.
use program_partitioning_for.Base.{
  ℕ, ◌≡◌, not, ◌&&◌, ◌||◌, List, ◌==◌, contains, contains-insert, contains-insert_all,
  contains-erase,
}
use program_partitioning_for.Llvm.{FunctionRef}
use program_partitioning_for.Partition.{
  Partition, add_to_partition, add_set_to_partition, add_partition_to_partition,
  remove_from_partition, contains_function, contains_global,
}

pub contains-add_to_partition :
    (f : FunctionRef) (p : Partition) (g : FunctionRef)
    → contains_function (add_to_partition f p) g ≡ (f == g || contains_function p g)
unfolding contains_function add_to_partition
contains-add_to_partition f p g = contains-insert f p.partition g

pub contains-remove_from_partition :
    (f : FunctionRef) (p : Partition) (g : FunctionRef)
    → contains_function (remove_from_partition f p) g ≡ (not (f == g) && contains_function p g)
unfolding contains_function remove_from_partition
contains-remove_from_partition f p g = contains-erase f p.partition g

pub contains-add_set_to_partition :
    (fs : List FunctionRef) (p : Partition) (g : FunctionRef)
    → contains_function (add_set_to_partition fs p) g ≡ (contains fs g || contains_function p g)
unfolding contains_function add_set_to_partition
contains-add_set_to_partition fs p g = contains-insert_all fs p.partition g

-- The sum of two partitions has the functions, the interfaces and the globals of both, and no other.
pub contains-add_partition_to_partition :
    (q p : Partition) (x : ℕ)
    → let r = add_partition_to_partition q p in
      (contains_function r x ≡ (contains_function q x || contains_function p x))
      × (contains_global r x ≡ (contains_global q x || contains_global p x))
      × (contains r.in_interface x ≡ (contains q.in_interface x || contains p.in_interface x))
      × (contains r.out_interface x ≡ (contains q.out_interface x || contains p.out_interface x))
unfolding contains_function contains_global add_partition_to_partition
contains-add_partition_to_partition q p x = (
  contains-insert_all q.partition p.partition x,
  contains-insert_all q.partition_globals p.partition_globals x,
  contains-insert_all q.in_interface p.in_interface x,
  contains-insert_all q.out_interface p.out_interface x,
)
