-- ===== src/KernighanLin/Prefix.antt =====
-- Which moves applyOptimization keeps: the prefix of the moves with the greatest sum of gains.
use program_partitioning_for.Base.{
  ℕ, zero, suc, ◌+◌, ◌≤◌, ◌≡◌, refl, ◌⊎◌, inl, inr, true, false, List, [], ◌∷◌, arith,
  if◌then◌else◌, length, Bool-cases,
}
use program_partitioning_for.Llvm.{FunctionRef}
use program_partitioning_for.Numbers.{Scalar, plus, le}
use program_partitioning_for.KernighanLin.{best_prefix}

-- What the comparison of gains relies on, which doubles other than NaN satisfy.
pub record IsOrdered (s : Scalar) : Type 0 where
  pub le_refl : (a : s.T) → le s a a ≡ true
  pub le_trans : (a b c : s.T) → le s a b ≡ true → le s b c ≡ true → le s a c ≡ true
  pub le_total : (a b : s.T) → le s a b ≡ false → le s b a ≡ true

module _ (s : Scalar) where
  open s use {T}

  -- The sum of the first k gains, added up as the code does.
  unfoldable pub gain_after : T → ℕ → List (FunctionRef × T) → T
  gain_after sum zero moves = sum
  gain_after sum (suc k) [] = sum
  gain_after sum (suc k) ((f, gain) ∷ moves) = gain_after (plus s sum gain) k moves

  module _ (o : IsOrdered s) where
    open o use {le_refl, le_trans, le_total}

    -- No later prefix reaches the maximum so far.
    abbrev Stays : T → T → List (FunctionRef × T) → Type 0
    Stays max_gain intmd moves =
        (i : ℕ) → suc i ≤ length moves → le s max_gain (gain_after intmd (suc i) moves) ≡ false

    -- The prefix of length suc j reaches it, and is greatest.
    abbrev Reaches : ℕ → T → T → List (FunctionRef × T) → Type 0
    Reaches j max_gain intmd moves =
        (suc j ≤ length moves)
        × (le s max_gain (gain_after intmd (suc j) moves) ≡ true)
        × ((i : ℕ)
            → suc i ≤ length moves
            → le s (gain_after intmd (suc i) moves) (gain_after intmd (suc j) moves) ≡ true)

    -- What the search has found: `best`, which stays, or a prefix of the moves yet to be seen.
    abbrev Found : T → T → ℕ → ℕ → List (FunctionRef × T) → ℕ → Type 0
    Found max_gain intmd best at moves k =
        ((k ≡ best) × Stays max_gain intmd moves)
        ⊎ ((j : ℕ) × (k ≡ at + suc j) × Reaches j max_gain intmd moves)

    Found-up :
        (max_gain intmd : T) (best at : ℕ) (f : FunctionRef) (gain : T)
        (moves : List (FunctionRef × T)) (k : ℕ)
        → le s max_gain (plus s intmd gain) ≡ true
        → Found (plus s intmd gain) (plus s intmd gain) (at + 1) (at + 1) moves k
        → Found max_gain intmd best at ((f, gain) ∷ moves) k
    unfolding gain_after
    Found-up max_gain intmd best at f gain moves k up (inl (e, stays)) =
        inr (0, omega arith, (omega arith, up, below))
      where
        sum : T
        sum = plus s intmd gain

        below : (i : ℕ) → suc i ≤ suc (length moves) → le s (gain_after sum i moves) sum ≡ true
        below zero h = le_refl sum
        below (suc i) h = le_total sum _ (stays i (omega arith))
    Found-up max_gain intmd best at f gain moves k up (inr (j, e, (fits, reach, greatest))) =
        inr (suc j, omega arith, (omega arith, le_trans max_gain sum _ up reach, below))
      where
        sum : T
        sum = plus s intmd gain

        below :
            (i : ℕ)
            → suc i ≤ suc (length moves)
            → le s (gain_after sum i moves) (gain_after sum (suc j) moves) ≡ true
        below zero h = reach
        below (suc i) h = greatest i (omega arith)

    Found-down :
        (max_gain intmd : T) (best at : ℕ) (f : FunctionRef) (gain : T)
        (moves : List (FunctionRef × T)) (k : ℕ)
        → le s max_gain (plus s intmd gain) ≡ false
        → Found max_gain (plus s intmd gain) best (at + 1) moves k
        → Found max_gain intmd best at ((f, gain) ∷ moves) k
    unfolding gain_after
    Found-down max_gain intmd best at f gain moves k down (inl (e, stays)) = inl (e, below)
      where
        below :
            (i : ℕ)
            → suc i ≤ suc (length moves)
            → le s max_gain (gain_after (plus s intmd gain) i moves) ≡ false
        below zero h = down
        below (suc i) h = stays i (omega arith)
    Found-down max_gain intmd best at f gain moves k down (inr (j, e, (fits, reach, greatest))) =
        inr (suc j, omega arith, (omega arith, reach, below))
      where
        sum : T
        sum = plus s intmd gain

        below :
            (i : ℕ)
            → suc i ≤ suc (length moves)
            → le s (gain_after sum i moves) (gain_after sum (suc j) moves) ≡ true
        below zero h = le_trans sum max_gain _ (le_total max_gain sum down) reach
        below (suc i) h = greatest i (omega arith)

    best_prefix-Found :
        (max_gain intmd : T) (best at : ℕ) (moves : List (FunctionRef × T))
        → Found max_gain intmd best at moves (best_prefix s max_gain intmd best at moves)
    unfolding best_prefix
    best_prefix-Found max_gain intmd best at [] = inl (refl, λ i h. absurd (omega arith))
    best_prefix-Found max_gain intmd best at ((f, gain) ∷ moves) =
        elim (Bool-cases (le s max_gain (plus s intmd gain))) [
          | inl up ↦
              rw (up, if◌then◌else◌)
                (Found-up max_gain intmd best at f gain moves _ up (
                  best_prefix-Found (plus s intmd gain) (plus s intmd gain) (at + 1) (at + 1)
                    moves))
          | inr down ↦
              rw (down, if◌then◌else◌)
                (Found-down max_gain intmd best at f gain moves _ down
                  (best_prefix-Found max_gain (plus s intmd gain) best (at + 1) moves))
        ]

    -- The number of moves that applyOptimization keeps is at most the number of moves, and no other
    -- number of first moves, none included, has a greater sum of gains.
    pub best_prefix-greatest :
        (moves : List (FunctionRef × T)) (j : ℕ)
        → j ≤ length moves
        → (best_prefix s s.zero s.zero 0 0 moves ≤ length moves)
          × (le s
                (gain_after s.zero j moves)
                (gain_after s.zero (best_prefix s s.zero s.zero 0 0 moves) moves)
              ≡ true)
    unfolding gain_after
    best_prefix-greatest moves j h = of_found (best_prefix-Found s.zero s.zero 0 0 moves)
      where
        k : ℕ
        k = best_prefix s s.zero s.zero 0 0 moves

        stays :
            (i : ℕ)
            → i ≤ length moves
            → Stays s.zero s.zero moves
            → le s (gain_after s.zero i moves) s.zero ≡ true
        stays zero b p = le_refl s.zero
        stays (suc i) b p = le_total s.zero _ (p i b)

        reaches :
            (i n : ℕ)
            → i ≤ length moves
            → Reaches n s.zero s.zero moves
            → le s (gain_after s.zero i moves) (gain_after s.zero (suc n) moves) ≡ true
        reaches zero n b p = p.1
        reaches (suc i) n b p = p.2 i b

        of_found :
            Found s.zero s.zero 0 0 moves k
            → (k ≤ length moves)
              × (le s (gain_after s.zero j moves) (gain_after s.zero k moves) ≡ true)
        of_found (inl (e, p)) = (omega arith, rw e (stays j h p))
        of_found (inr (n, e, p)) =
            let e' : k ≡ suc n = omega arith in (omega arith, rw e' (reaches j n h p))
