-- ===== src/Numbers/Sums.antt =====
-- The saturating sum of include/Analysis/Numbers.h over the integers.
use program_partitioning_for.Base.{◌≡◌, ◌≢◌, arith}
use program_partitioning_for.Base.Int.{ℤ, pos, negsuc, ◌+ℤ◌}
use program_partitioning_for.Numbers.{int_scalar, safe_sum}

-- The sum does not depend on the order of its operands.
pub safe_sum_comm : (a b : ℤ) → safe_sum int_scalar a b ≡ safe_sum int_scalar b a
unfolding safe_sum ◌+ℤ◌
safe_sum_comm (pos a) (pos b) = ground arith
safe_sum_comm (pos a) (negsuc b) = ground arith
safe_sum_comm (negsuc a) (pos b) = ground arith
safe_sum_comm (negsuc a) (negsuc b) = ground arith

-- Away from the four values that stand for infinities the sum is exact.
pub safe_sum_exact :
    (a b : ℤ)
    → a ≢ pos 100000
    → a ≢ negsuc 99999
    → b ≢ pos 100000
    → b ≢ negsuc 99999
    → safe_sum int_scalar a b ≡ a +ℤ b
unfolding safe_sum ◌+ℤ◌
safe_sum_exact (pos a) (pos b) p q r t = ground arith
safe_sum_exact (pos a) (negsuc b) p q r t = ground arith
safe_sum_exact (negsuc a) (pos b) p q r t = ground arith
safe_sum_exact (negsuc a) (negsuc b) p q r t = ground arith
