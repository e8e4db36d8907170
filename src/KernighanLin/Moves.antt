-- ===== src/KernighanLin/Moves.antt =====
-- One round of the loop of KLOptimizationPass::run moves one candidate; the rounds keep the invariant
-- `Tracks`, which says where each function is.
use program_partitioning_for.Base.{
  ℕ, zero, suc, ◌+◌, ◌<◌, ◌≤◌, ◌≡◌, refl, ap, ◌∙◌, inl, inr, true, false, not, ◌&&◌, ◌||◌, List, [],
  ◌∷◌, ◌++◌, Option, none, some, arith, if◌then◌else◌, ◌==◌, length, get_or, keys, contains,
  IsUnique, Option-cases, Bool-cases, List-cases, contains-remove_at, remove_at-IsUnique,
  length-remove_at, contains-get_or, contains-append, append-IsUnique, erase-IsUnique,
}
use program_partitioning_for.Base.Options.{◌>>=◌}
use program_partitioning_for.CallGraph.{CallGraph, has_function_node}
use program_partitioning_for.Llvm.{FunctionRef}
use program_partitioning_for.Numbers.{Scalar}
use program_partitioning_for.Partition.{
  Partition, contains_function, add_to_partition, remove_from_partition,
}
use program_partitioning_for.Partition.Membership.{
  contains-add_to_partition, contains-remove_from_partition,
}
use program_partitioning_for.KernighanLin.{
  Pass, Costs, initial_move_gain, compute_initial_move_gains, update_move_gains, compute_move_gains,
  max_element_from, max_element, move_function, move_best, round, move_loop,
}

module _ (s : Scalar) where
  open s use {T}

  max_element_from-lt :
      (best : T) (at i : ℕ) (xs : List T) → at < i → max_element_from s best at i xs < i + length xs
  unfolding max_element_from
  max_element_from-lt best at i [] h = omega arith
  max_element_from-lt best at i (x ∷ xs) h = elim (Bool-cases (s.lt best x)) [
    | inl e ↦ rw (e, if◌then◌else◌) (omega (arith, max_element_from-lt x i (i + 1) xs))
    | inr e ↦ rw (e, if◌then◌else◌) (omega (arith, max_element_from-lt best at (i + 1) xs))
  ]

  -- The position of the greatest gain is one of the list.
  max_element-lt : (xs : List T) → 0 < length xs → max_element s xs < length xs
  unfolding max_element
  max_element-lt [] h = absurd (omega arith)
  max_element-lt (x ∷ xs) h = omega (arith, max_element_from-lt x 0 1 xs)

  -- The functions have nodes in the graph.
  abbrev pub HasNodes : CallGraph T → List FunctionRef → Type 0
  HasNodes g fs = (f : FunctionRef) → contains fs f ≡ true → has_function_node f g ≡ true

  initial_move_gain-some :
      (c : Costs s) (insecure : Partition) (f : FunctionRef)
      → has_function_node f c.graph ≡ true
      → (gain : T) × (initial_move_gain s c.graph c.node_costs insecure f ≡ some gain)
  unfolding initial_move_gain has_function_node
  initial_move_gain-some c insecure f h =
      elim (Option-cases (initial_move_gain s c.graph c.node_costs insecure f)) [
        | inl missing ↦ ground (arith, missing, h)
        | inr made ↦ made
      ]

  compute_initial_move_gains-some :
      (c : Costs s) (insecure : Partition) (fs : List FunctionRef)
      → HasNodes c.graph fs
      → (gains : List T) × (compute_initial_move_gains s c.graph c.node_costs insecure fs
          ≡ some gains)
        × (length gains ≡ length fs)
  unfolding compute_initial_move_gains contains
  compute_initial_move_gains-some c insecure [] h = ([], refl, refl)
  compute_initial_move_gains-some c insecure (f ∷ fs) h =
      let (gain, first) = initial_move_gain-some c insecure f (h f (ground arith)) in
      let (gains, rest, as_many) =
        compute_initial_move_gains-some c insecure fs (λ j i. h j (ground (arith, i))) in
      (gain ∷ gains, rw (first, ◌>>=◌) (rw (rest, ◌>>=◌) refl), omega (arith, as_many))

  length-update_move_gains :
      (c : Costs s) (moved : FunctionRef) (fs : List FunctionRef) (gains : List T)
      → length gains ≡ length fs
      → length (update_move_gains s c.edge_costs moved fs gains) ≡ length fs
  unfolding update_move_gains
  length-update_move_gains c moved [] gains h = h
  length-update_move_gains c moved (f ∷ fs) [] h = h
  length-update_move_gains c moved (f ∷ fs) (gain ∷ gains) h =
      omega (arith, length-update_move_gains c moved fs gains)

  -- Before the first round the candidates have nodes; later there is a gain for each candidate.
  abbrev pub HasGains : Costs s → Option FunctionRef → Pass T → Type 0
  HasGains c none p = HasNodes c.graph p.candidates
  HasGains c (some moved) p = length p.move_gains ≡ length p.candidates

  compute_move_gains-some :
      (c : Costs s) (moved : Option FunctionRef) (p : Pass T)
      → HasGains c moved p
      → (gains : List T) × (compute_move_gains s c moved p ≡ some gains)
        × (length gains ≡ length p.candidates)
  unfolding compute_move_gains
  compute_move_gains-some c none p h = compute_initial_move_gains-some c p.insecure p.candidates h
  compute_move_gains-some c (some moved) p h =
      (_, refl, length-update_move_gains c moved p.candidates p.move_gains h)

  -- Where each function is, against the candidates and the partitions at the start: the functions moved
  -- and those yet to move are the candidates, none twice; the secure partition has gained those moved,
  -- and the insecure one has lost them.
  pub record Tracks (all : List FunctionRef) (secure insecure : Partition) (p : Pass T)
      : Type 0 where
    pub left_unique : IsUnique p.candidates
    pub moved_unique : IsUnique (keys p.function_move_gains)
    pub split :
        (f : FunctionRef)
        → contains all f ≡ (contains (keys p.function_move_gains) f || contains p.candidates f)
    pub apart :
        (f : FunctionRef)
        → contains (keys p.function_move_gains) f ≡ true
        → contains p.candidates f ≡ false
    pub secured :
        (f : FunctionRef)
        → contains_function p.secure f
          ≡ (contains (keys p.function_move_gains) f || contains_function secure f)
    pub released :
        (f : FunctionRef)
        → contains_function p.insecure f
          ≡ (not (contains (keys p.function_move_gains) f) && contains_function insecure f)
    pub levels : p.secure.related_functions ≡ secure.related_functions
    pub tidy : IsUnique insecure.partition → IsUnique p.insecure.partition

  keys-append :
      (m : List (FunctionRef × T)) (f : FunctionRef) (x : T)
      → keys (m ++ (f, x) ∷ []) ≡ keys m ++ f ∷ []
  unfolding keys
  keys-append [] f x = refl
  keys-append ((g, y) ∷ m) f x = rw (keys-append m f x)

  module _ (all : List FunctionRef) (secure insecure : Partition) (idx : ℕ) (p : Pass T)
      (fits : idx < length p.candidates) where
    abbrev picked : FunctionRef
    picked = get_or p.candidates idx 0

    contains-moved :
        (f : FunctionRef)
        → contains (keys (move_function s idx p).function_move_gains) f
          ≡ (picked == f || contains (keys p.function_move_gains) f)
    unfolding move_function contains
    contains-moved f =
        rw (keys-append p.function_move_gains picked (get_or p.move_gains idx s.zero))
          (ground (arith, contains-append (keys p.function_move_gains) (picked ∷ []) f))

    move_function-Tracks :
        Tracks all secure insecure p → Tracks all secure insecure (move_function s idx p)
    unfolding move_function add_to_partition remove_from_partition
    move_function-Tracks t = record {
      left_unique = remove_at-IsUnique idx p.candidates t.left_unique fits;
      moved_unique =
          rw (keys-append p.function_move_gains picked (get_or p.move_gains idx s.zero)) (
            append-IsUnique (keys p.function_move_gains) picked t.moved_unique
              (ground (arith, t.apart picked, contains-get_or idx p.candidates fits)));
      split = λ f. ground (
        arith,
        t.split f,
        contains-moved f,
        contains-remove_at idx p.candidates f,
        contains-get_or idx p.candidates fits,
      );
      apart =
          λ f h. ground (arith, t.apart f, contains-moved f, contains-remove_at idx p.candidates f);
      secured = λ f.
          ground
            (arith, t.secured f, contains-moved f, contains-add_to_partition picked p.secure f);
      released = λ f. ground (
        arith,
        t.released f,
        contains-moved f,
        contains-remove_from_partition picked p.insecure f,
      );
      levels = t.levels;
      tidy = λ u. erase-IsUnique picked p.insecure.partition (t.tidy u);
    }

-- A round, and then all of them.
module _ (s : Scalar) (c : Costs s) (all : List FunctionRef) (secure insecure : Partition) where
  with_gains-Tracks :
      (p : Pass s.T) (gains : List s.T)
      → Tracks s all secure insecure p
      → Tracks s all secure insecure (record p { move_gains = gains })
  with_gains-Tracks p gains t = record {
    left_unique = t.left_unique;
    moved_unique = t.moved_unique;
    split = t.split;
    apart = t.apart;
    secured = t.secured;
    released = t.released;
    levels = t.levels;
    tidy = t.tidy;
  }

  move_loop-suc :
      (fuel : ℕ) (moved : Option FunctionRef) (p : Pass s.T) (next : Option FunctionRef × Pass s.T)
      (f : FunctionRef) (rest : List FunctionRef)
      → p.candidates ≡ f ∷ rest
      → round s c moved p ≡ some next
      → move_loop s c (suc fuel) moved p ≡ move_loop s c fuel next.0 next.1
  unfolding move_loop
  move_loop-suc fuel moved p next f rest e went = ground (arith, e, went)

  move_best_lem :
      (gains : List s.T) (p : Pass s.T)
      → length gains ≡ length p.candidates
      → 0 < length p.candidates
      → Tracks s all secure insecure p
      → HasGains s c (move_best s gains p).0 (move_best s gains p).1
        × (suc (length (move_best s gains p).1.candidates) ≡ length p.candidates)
        × Tracks s all secure insecure (move_best s gains p).1
  unfolding move_best move_function
  move_best_lem gains p as_many some_left t =
      let idx = max_element s gains in
      let fits : idx < length p.candidates =
        omega (arith, as_many, max_element-lt s gains (omega (arith, as_many))) in
      let fewer = length-remove_at idx p.candidates fits in
      (
        omega (arith, as_many, fewer, length-remove_at idx gains (omega (arith, as_many))),
        fewer,
        move_function-Tracks s all secure insecure idx (record p { move_gains = gains }) fits
            (with_gains-Tracks p gains t),
      )

  -- Where the candidates have nodes, and with fuel for a round for each of them, the loop ends, and no
  -- candidate is left.
  pub move_loop_lem :
      (fuel : ℕ) (moved : Option FunctionRef) (p : Pass s.T)
      → HasGains s c moved p
      → length p.candidates ≤ fuel
      → Tracks s all secure insecure p
      → (q : Pass s.T) × (move_loop s c fuel moved p ≡ some q)
        × (q.candidates ≡ [])
        × Tracks s all secure insecure q
  unfolding move_loop round
  move_loop_lem zero moved p h enough t = elim (List-cases p.candidates) [
    | inl e ↦ (p, simp (e, move_loop), e, t)
    | inr (f, rest, e) ↦ absurd (omega (arith, ap length e))
  ]
  move_loop_lem (suc fuel) moved p h enough t = elim (List-cases p.candidates) [
    | inl e ↦ (p, simp (e, move_loop), e, t)
    | inr (f, rest, e) ↦
        let (gains, made, as_many) = compute_move_gains-some s c moved p h in
        let next = move_best s gains p in
        let (h', fewer, t') = move_best_lem gains p as_many (omega (arith, ap length e)) t in
        let (q, ends, empty, t'') = move_loop_lem fuel next.0 next.1 h' (omega arith) t' in
        let went : round s c moved p ≡ some next = rw (made, ◌>>=◌) refl in
        (q, move_loop-suc fuel moved p next f rest e went ∙ ends, empty, t'')
  ]
