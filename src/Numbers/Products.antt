-- ===== src/Numbers/Products.antt =====
-- The saturating product of include/Analysis/Numbers.h over the integers.
use program_partitioning_for.Base.{ℕ, zero, suc, ◌+◌, ◌*◌, ◌≡◌, ◌≢◌, refl, ◌≤◌, arith}
use program_partitioning_for.Base.Int.{ℤ, pos, negsuc, pos_part, neg_part, ◌*ℤ◌, abs}
use program_partitioning_for.Numbers.{int_scalar, safe_mult}

abbrev size : ℤ → ℕ
size a = pos_part a + neg_part a

size-* : (a b : ℤ) → size (a *ℤ b) ≡ size a * size b
unfolding ◌*ℤ◌
size-* (pos a) (pos b) = ground arith
size-* (pos a) (negsuc b) = ground arith
size-* (negsuc a) (pos b) = ground arith
size-* (negsuc a) (negsuc b) = ground arith

le-mul : (m n : ℕ) → n ≢ 0 → m ≤ m * n
le-mul m zero h = absurd (h refl)
le-mul m (suc n) h = omega arith

-- Of two operands that are no infinities the product is the product of the magnitudes: it is never
-- negative, whatever the signs of the operands.
pub safe_mult_magnitude :
    (a b : ℤ)
    → a ≢ pos 100000
    → a ≢ negsuc 99999
    → b ≢ pos 100000
    → b ≢ negsuc 99999
    → safe_mult int_scalar a b ≡ pos ((pos_part a + neg_part a) * (pos_part b + neg_part b))
unfolding safe_mult abs
safe_mult_magnitude (pos zero) b p q r t = ground arith
safe_mult_magnitude (pos (suc a)) (pos zero) p q r t = ground arith
safe_mult_magnitude (pos (suc a)) (pos (suc b)) p q r t =
    ground (arith, size-* (pos (suc a)) (pos (suc b)), le-mul (suc a) (suc b))
safe_mult_magnitude (pos (suc a)) (negsuc b) p q r t =
    ground (arith, size-* (pos (suc a)) (negsuc b), le-mul (suc a) (suc b))
safe_mult_magnitude (negsuc a) (pos zero) p q r t = ground arith
safe_mult_magnitude (negsuc a) (pos (suc b)) p q r t =
    ground (arith, size-* (negsuc a) (pos (suc b)), le-mul (suc a) (suc b))
safe_mult_magnitude (negsuc a) (negsuc b) p q r t =
    ground (arith, size-* (negsuc a) (negsuc b), le-mul (suc a) (suc b))

-- A negative and a positive operand, neither an infinity, give a result that is not their product.
pub safe_mult-ne-product :
    (a b : ℕ)
    → suc a ≢ 100000
    → suc b ≢ 100000
    → safe_mult int_scalar (negsuc a) (pos (suc b)) ≢ negsuc a *ℤ pos (suc b)
unfolding ◌*ℤ◌
safe_mult-ne-product a b p q e =
    ground (arith, safe_mult_magnitude (negsuc a) (pos (suc b)), le-mul (suc a) (suc b))

-- For a positive finite m: +infinity times -m is -infinity, -m times +infinity is +infinity,
-- -infinity times -m is -infinity, and m times -infinity is +infinity.
pub safe_mult_infinity :
    (n : ℕ)
    → suc n ≢ 100000
    → (safe_mult int_scalar (pos 100000) (negsuc n) ≡ negsuc 99999)
      × (safe_mult int_scalar (negsuc n) (pos 100000) ≡ pos 100000)
      × (safe_mult int_scalar (negsuc 99999) (negsuc n) ≡ negsuc 99999)
      × (safe_mult int_scalar (pos (suc n)) (negsuc 99999) ≡ pos 100000)
unfolding safe_mult
safe_mult_infinity n h = ground arith
