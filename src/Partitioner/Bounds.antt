-- ===== src/Partitioner/Bounds.antt =====
-- Measures and invariants of the loops over a working list in lib/Analysis/Partitioner.cpp.
use program_partitioning_for.Base.{
  ℕ, zero, suc, ◌+◌, ◌≤◌, ◌≡◌, ◌≢◌, refl, ap, ◌∙◌, length-append, contains-append, ◌⊎◌, true, false,
  List, [], ◌∷◌, ◌++◌, Option, some, arith, find, min, keys, keys-put, contains, contains-insert,
  insert, ◌==◌, if◌then◌else◌, Bool-cases, Option-cases, inl, inr, ==_iff, length,
}
use program_partitioning_for.Llvm.{FunctionRef, ValueRef, null}
use program_partitioning_for.Pdg.{PdgNodes, NodeRef}
use program_partitioning_for.Partitioner.Traversal.{
  Walk, update_function_level, can_process_node, push_nodes, walk,
}

pub find_of_key :
    (m : List (FunctionRef × ℕ)) (f : FunctionRef)
    → contains (keys m) f ≡ true
    → (l : ℕ) × (find f m ≡ some l)
unfolding find keys contains
find_of_key [] f h = ground (arith, h)
find_of_key ((g, l) ∷ m) f h = elim (Bool-cases (g == f)) [
  | inl e ↦ (l, ground (arith, e))
  | inr e ↦ let (l', p) = find_of_key m f (ground (arith, h, e)) in (l', ground (arith, e, p))
]

pub keys-update_function_level :
    (current new : FunctionRef) (levels : List (FunctionRef × ℕ)) (j : FunctionRef)
    → current ≢ null
    → new ≢ null
    → contains (keys levels) current ≡ true
    → contains (keys (update_function_level current new levels)) j
      ≡ (if new == j then true else contains (keys levels) j)
unfolding update_function_level
keys-update_function_level current new levels j c n known =
    let (l, found) = find_of_key levels current known in
    let step = λ (v : ℕ). keys-put new v levels j in
    let level : ℕ = if new == current then l else l + 1 in
    elim (Option-cases (find new levels)) [
      | inl e ↦ ground (arith, found, e, step level)
      | inr (old, e) ↦ ground (arith, found, e, step (min level old))
    ]

List-cases : (xs : List ℕ) → (xs ≡ []) ⊎ ((y : ℕ) × (ys : List ℕ) × (xs ≡ y ∷ ys))
List-cases [] = inl refl
List-cases (y ∷ ys) = inr (y, ys, refl)

-- A loop over the working list ends when each round keeps an invariant and makes a measure smaller.
module _ (visit : NodeRef → Walk → Option Walk) (Inv : Walk → Type 0) (measure : Walk → ℕ) where
  walk-empty : (fuel : ℕ) (w : Walk) → w.work ≡ [] → walk visit fuel w ≡ some w
  unfolding walk
  walk-empty zero w e = ground (arith, e)
  walk-empty (suc fuel) w e = ground (arith, e)

  pub walk-ends :
      (fuel : ℕ) (w : Walk)
      → ((v : Walk) (n : NodeRef) (rest : List NodeRef)
          → v.work ≡ n ∷ rest
          → Inv v
          → (v' : Walk) × (visit n (record v { work = rest }) ≡ some v')
            × Inv v'
            × (suc (measure v') ≤ measure v))
      → Inv w
      → measure w ≤ fuel
      → (w' : Walk) × (walk visit fuel w ≡ some w') × Inv w' × (w'.work ≡ [])
  unfolding walk
  walk-ends zero w round inv b = elim (List-cases w.work) [
    | inl e ↦ (w, walk-empty zero w e, inv, e)
    | inr (n, rest, e) ↦
        let (w', ends, inv', less) = round w n rest e inv in ground (arith, less, b)
  ]
  walk-ends (suc fuel) w round inv b = elim (List-cases w.work) [
    | inl e ↦ (w, walk-empty (suc fuel) w e, inv, e)
    | inr (n, rest, e) ↦
        let (w', ends, inv', less) = round w n rest e inv in
        let (w'', ends', inv'', done) = walk-ends fuel w' round inv' (omega (arith, less, b)) in
        (w'', rw (e, walk) (rw (ends, walk) ends'), inv'', done)
  ]

-- The values that were not met yet.
pub unseen : List ValueRef → List ValueRef → ℕ
unseen [] seen = 0
unseen (v ∷ vs) seen = let rest = unseen vs seen in if contains seen v then rest else suc rest

pub unseen_all : (values : List ValueRef) → unseen values [] ≡ length values
unfolding unseen contains
unseen_all [] = refl
unseen_all (v ∷ values) = ground (arith, unseen_all values)

pub unseen-insert_le :
    (values seen : List ValueRef) (v : ValueRef)
    → unseen values (insert v seen) ≤ unseen values seen
unfolding unseen
unseen-insert_le [] seen v = omega arith
unseen-insert_le (x ∷ values) seen v =
    ground (arith, unseen-insert_le values seen v, contains-insert v seen x)

pub unseen-insert :
    (values seen : List ValueRef) (v : ValueRef)
    → contains values v ≡ true
    → contains seen v ≡ false
    → suc (unseen values (insert v seen)) ≤ unseen values seen
unfolding unseen contains
unseen-insert [] seen v m h = ground (arith, m)
unseen-insert (x ∷ values) seen v m h = elim (Bool-cases (x == v)) [
  | inl e ↦
      let same : contains seen x ≡ false = ap (contains seen) ((==_iff x v).0 e) ∙ h in
      ground (arith, e, same, unseen-insert_le values seen v, contains-insert v seen x)
  | inr e ↦ ground (arith, e, m, unseen-insert values seen v, contains-insert v seen x)
]

module _ (ns : PdgNodes) where
  pub push_nodes-seen :
      (c : FunctionRef) (others : List NodeRef) (w : Walk)
      → (push_nodes ns c others w).seen ≡ w.seen
  unfolding push_nodes
  push_nodes-seen c [] w = refl
  push_nodes-seen c (n ∷ others) w = elim (Bool-cases (can_process_node ns n)) [
    | inl e ↦ rw (e, push_nodes) (push_nodes-seen c others _)
    | inr e ↦ rw (e, push_nodes) (push_nodes-seen c others w)
  ]

  pub push_nodes-work :
      (c : FunctionRef) (others : List NodeRef) (w : Walk)
      → length (push_nodes ns c others w).work ≤ length w.work + length others
  unfolding push_nodes
  push_nodes-work c [] w = omega arith
  push_nodes-work c (n ∷ others) w = elim (Bool-cases (can_process_node ns n)) [
    | inl e ↦
        rw (e, push_nodes)
          (ground (
            arith,
            push_nodes-work c others (record w {
              work = w.work ++ n ∷ [];
              levels = update_function_level c (ns.parent n) w.levels;
            }),
            length-append w.work (n ∷ []),
          ))
    | inr e ↦ rw (e, push_nodes) (ground (arith, push_nodes-work c others w))
  ]

  -- Each node of the working list belongs to a function that has a level.
  abbrev pub Leveled : Walk → Type 0
  Leveled w =
      (n : NodeRef) → contains w.work n ≡ true → contains (keys w.levels) (ns.parent n) ≡ true

  pub push_nodes-Leveled :
      (c : FunctionRef) (others : List NodeRef) (w : Walk)
      → ((n : NodeRef) → ns.parent n ≢ null)
      → c ≢ null
      → contains (keys w.levels) c ≡ true
      → Leveled w
      → Leveled (push_nodes ns c others w)
  unfolding push_nodes contains
  push_nodes-Leveled c [] w total nonnull known h = h
  push_nodes-Leveled c (n ∷ others) w total nonnull known h =
      elim (Bool-cases (can_process_node ns n)) [
        | inl e ↦
            rw (e, push_nodes)
              (push_nodes-Leveled c others
                (record w {
                  work = w.work ++ n ∷ [];
                  levels = update_function_level c (ns.parent n) w.levels;
                })
                total nonnull
                (ground (
                  arith,
                  known,
                  keys-update_function_level c (ns.parent n) w.levels c nonnull (total n),
                ))
                (λ j q. elim (Bool-cases (n == j)) [
                  | inl same ↦
                      let own : ns.parent n ≡ ns.parent j = ap ns.parent ((==_iff n j).0 same) in
                      ground (
                        arith,
                        own,
                        known,
                        keys-update_function_level c (ns.parent n) w.levels (ns.parent j) nonnull
                            (total n),
                      )
                  | inr other ↦
                      let inside : contains w.work j ≡ true =
                        ground (arith, other, q, contains-append w.work (n ∷ []) j) in
                      ground (
                        arith,
                        h j inside,
                        known,
                        contains-append w.work (n ∷ []) j,
                        keys-update_function_level c (ns.parent n) w.levels (ns.parent j) nonnull
                            (total n),
                      )
                ]))
        | inr e ↦ rw (e, push_nodes) (push_nodes-Leveled c others w total nonnull known h)
      ]
