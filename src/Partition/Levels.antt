-- ===== src/Partition/Levels.antt =====
-- The levels of the related functions when partitions are merged (Partition::addRelatedFunctions).
use program_partitioning_for.Base.{
  ℕ, min, ◌≡◌, inl, inr, List, [], ◌∷◌, Option, none, some, arith, ◌==◌, if◌then◌else◌, find, keys,
  IsUnique, find-put, find-none_of_key, Option-cases, put-IsUnique,
}
use program_partitioning_for.Llvm.{FunctionRef}
use program_partitioning_for.Partition.{Partition, merge_level, merge_levels}

-- The smaller of two levels, where there is one.
abbrev pub min_level : Option ℕ → Option ℕ → Option ℕ
min_level none b = b
min_level (some a) none = some a
min_level (some a) (some b) = some (min a b)

find-merge_level :
    (f level : ℕ) (m : List (FunctionRef × ℕ)) (j : ℕ)
    → find j (merge_level f level m)
      ≡ (if f == j then min_level (find f m) (some level) else find j m)
unfolding merge_level
find-merge_level f level m j = elim (Option-cases (find f m)) [
  | inl e ↦ rw (e, merge_level) (find-put f level m j)
  | inr (old, e) ↦ rw (e, merge_level) (find-put f (min old level) m j)
]

pub find-merge_levels :
    (r m : List (FunctionRef × ℕ)) (j : ℕ)
    → IsUnique (keys r)
    → find j (merge_levels r m) ≡ min_level (find j m) (find j r)
unfolding merge_levels find keys
find-merge_levels [] m j u = ground arith
find-merge_levels ((f, level) ∷ r) m j u = ground (
  arith,
  find-merge_levels r (merge_level f level m) j,
  find-merge_level f level m j,
  find-none_of_key f r,
)

merge_level-IsUnique :
    (f level : ℕ) (m : List (FunctionRef × ℕ))
    → IsUnique (keys m)
    → IsUnique (keys (merge_level f level m))
unfolding merge_level
merge_level-IsUnique f level m u = elim (Option-cases (find f m)) [
  | inl e ↦ rw (e, merge_level) (put-IsUnique f level m u)
  | inr (old, e) ↦ rw (e, merge_level) (put-IsUnique f (min old level) m u)
]

pub merge_levels-IsUnique :
    (r m : List (FunctionRef × ℕ)) → IsUnique (keys m) → IsUnique (keys (merge_levels r m))
unfolding merge_levels
merge_levels-IsUnique [] m u = u
merge_levels-IsUnique ((f, level) ∷ r) m u =
    merge_levels-IsUnique r (merge_level f level m) (merge_level-IsUnique f level m u)
