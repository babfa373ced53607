-- ===== src/Softfp/Arith.antt =====
-- The arithmetic of `lib/softfp/src/fp.rs`: sums, products, quotients, square roots and the fused
-- multiplication and addition. A loop is recursion on the rounds that are left.
use r2vm.Base.{
  ℕ, ◌+◌, ◌-◌, ◌*◌, ◌/◌, ◌%◌, ◌^◌, bit_and, ◌==◌, ltb, sll, wrapping_add, wrapping_sub, not, Bool,
  ◌&&◌, if◌then◌else◌,
}
use r2vm.Softfp.Format.{
  ◌>>=◌, ◌>>◌, Format, RoundingMode, Calc, return, set_exception_flag, ◌+i◌, ◌-i◌, lt_i,
  invalid_operation_flag,
}
use r2vm.Softfp.Fields.{
  xor, sign, set_sign, biased_exponent, trailing_significand, infinity, quiet_nan, negate,
  is_infinite, is_zero, is_nan, get_significand, get_normalized_significand,
}
use r2vm.Softfp.Round.{right_shift, round, normalize_and_round, propagate_nan, cancellation_zero}
use r2vm.Softfp.Compare.{total_order_magnitude, is_lt, same}
pub mod Divide
pub mod Root
pub mod Product

module _ (f : Format) (rm : RoundingMode) where
  -- The sum of the significands, with the carry bit taken care of.
  unfoldable pub add_carry : (negative : Bool) (exponent sum : ℕ) → Calc ℕ
  unfolding right_shift round
  add_carry negative exponent sum =
      if bit_and sum (2 ^ (f.significand_width + 3)) == 0
      then round f rm negative exponent sum
      else round f rm negative (exponent +i 1) (right_shift f.holder sum 1)

  -- The significand of the smaller number, aligned to the exponent of the larger one.
  abbrev pub aligned : (exponent_a exponent_b significand_b : ℕ) → ℕ
  aligned exponent_a exponent_b significand_b =
      if exponent_a == exponent_b
      then significand_b
      else right_shift f.holder significand_b (exponent_a -i exponent_b)

  unfoldable pub add_magnitude : ℕ → ℕ → Calc ℕ
  unfolding is_infinite biased_exponent trailing_significand set_sign sign get_significand add_carry
  add_magnitude a b =
      if is_infinite f a
      then return a
      else if biased_exponent f a == 0
      then return (
          set_sign f (wrapping_add f.holder (trailing_significand f a) (trailing_significand f b))
            (sign f a))
      else (do
        x ← get_significand f a
        y ← get_significand f b
        add_carry (sign f a) (x.0) (wrapping_add f.holder (x.1) (aligned (x.0) (y.0) (y.1))))

  -- One more bit for the difference of numbers with different exponents.
  unfoldable pub subtract_aligned :
      (negative : Bool) (exponent_a significand_a exponent_b significand_b : ℕ) → Calc ℕ
  unfolding right_shift normalize_and_round cancellation_zero
  subtract_aligned negative exponent_a significand_a exponent_b significand_b =
      let equal_difference = wrapping_sub f.holder significand_a significand_b in
      let shifted =
        right_shift f.holder (sll f.holder significand_b 1) (exponent_a -i exponent_b) in
      if exponent_a == exponent_b
      then if equal_difference == 0
        then return (cancellation_zero f rm)
        else normalize_and_round f rm f.holder negative exponent_a equal_difference
      else normalize_and_round f rm f.holder negative (exponent_a -i 1)
          (wrapping_sub f.holder (sll f.holder significand_a 1) shifted)

  unfoldable pub subtract_magnitude : ℕ → ℕ → Calc ℕ
  unfolding is_infinite quiet_nan get_significand subtract_aligned sign
  subtract_magnitude a b =
      if is_infinite f a
      then if is_infinite f b
        then (do set_exception_flag invalid_operation_flag; return (quiet_nan f))
        else return a
      else (do
        x ← get_significand f a
        y ← get_significand f b
        subtract_aligned (sign f a) (x.0) (x.1) (y.0) (y.1))

  -- The sum of two numbers, the first of which has the greater magnitude.
  unfoldable pub add_ordered : ℕ → ℕ → Calc ℕ
  unfolding is_nan propagate_nan sign add_magnitude subtract_magnitude negate
  add_ordered a b =
      if is_nan f a
      then propagate_nan f rm a b
      else if same (sign f a) (sign f b)
      then add_magnitude a b
      else subtract_magnitude a (negate f b)

  unfoldable pub add : ℕ → ℕ → Calc ℕ
  unfolding total_order_magnitude add_ordered
  add a b = if is_lt (total_order_magnitude f a b) then add_ordered b a else add_ordered a b

  unfoldable pub sub : ℕ → ℕ → Calc ℕ
  unfolding add negate
  sub a b = add a (negate f b)

  -- The product of two significands, with the two bits for rounding of only one of them.
  abbrev pub product : ℕ → ℕ → ℕ
  product significand_a significand_b =
      ((significand_a / 2 ^ 2) * significand_b) % 2 ^ f.double_holder

  unfoldable pub multiply_ordered : ℕ → ℕ → Calc ℕ
  unfolding is_nan propagate_nan sign is_infinite is_zero quiet_nan set_sign
      get_normalized_significand normalize_and_round
  multiply_ordered a b =
      let negative = xor (sign f a) (sign f b) in
      if is_nan f a
      then propagate_nan f rm a b
      else if is_infinite f a
      then if is_zero f b
        then (do set_exception_flag invalid_operation_flag; return (quiet_nan f))
        else return (set_sign f a negative)
      else if is_zero f b
      then return (set_sign f b negative)
      else (do
        x ← get_normalized_significand f a
        y ← get_normalized_significand f b
        normalize_and_round f rm f.double_holder negative ((x.0 +i y.0) -i f.significand_width)
            (product (x.1) (y.1)))

  unfoldable pub multiply : ℕ → ℕ → Calc ℕ
  unfolding total_order_magnitude multiply_ordered
  multiply a b =
      if is_lt (total_order_magnitude f a b) then multiply_ordered b a else multiply_ordered a b

  -- The sum of the product and the third number, aligned to one exponent.
  unfoldable pub add_aligned :
      (sign_product sign_c : Bool) (exponent product significand_c : ℕ) → Calc ℕ
  unfolding normalize_and_round cancellation_zero
  add_aligned sign_product sign_c exponent product significand_c =
      if same sign_c sign_product
      then normalize_and_round f rm f.double_holder sign_product exponent
          (wrapping_add f.double_holder product significand_c)
      else if product == significand_c
      then return (cancellation_zero f rm)
      else if ltb product significand_c
      then normalize_and_round f rm f.double_holder (not sign_product) exponent
          (significand_c - product)
      else normalize_and_round f rm f.double_holder sign_product exponent (product - significand_c)

  unfoldable pub fused_finite :
      (sign_product : Bool) (product_exponent product : ℕ) (c : ℕ) → Calc ℕ
  unfolding is_zero normalize_and_round get_normalized_significand sign right_shift add_aligned
  fused_finite sign_product product_exponent product c =
      if is_zero f c
      then normalize_and_round f rm f.double_holder sign_product product_exponent product
      else (do
        z ← get_normalized_significand f c
        let exponent_c = z.0 -i f.significand_width
        let significand_c = sll f.double_holder (z.1) f.significand_width
        if lt_i exponent_c product_exponent
            then add_aligned sign_product (sign f c) product_exponent product
                (right_shift f.double_holder significand_c (product_exponent -i exponent_c))
            else if lt_i product_exponent exponent_c
            then add_aligned sign_product (sign f c) exponent_c
                (right_shift f.double_holder product (exponent_c -i product_exponent)) significand_c
            else add_aligned sign_product (sign f c) product_exponent product significand_c)

  unfoldable pub fused_ordered : ℕ → ℕ → ℕ → Calc ℕ
  unfolding is_nan propagate_nan sign is_infinite is_zero quiet_nan infinity
      get_normalized_significand fused_finite cancellation_zero
  fused_ordered a b c =
      let sign_product = xor (sign f a) (sign f b) in
      if is_nan f a
      then (do first ← propagate_nan f rm a b; propagate_nan f rm first c)
      else if is_infinite f a
      then if is_zero f b
        then (do set_exception_flag invalid_operation_flag; return (quiet_nan f))
        else if is_nan f c
        then propagate_nan f rm c c
        else if is_infinite f c && not (same (sign f c) sign_product)
        then (do set_exception_flag invalid_operation_flag; return (quiet_nan f))
        else return (infinity f sign_product)
      else if is_nan f c
      then propagate_nan f rm c c
      else if is_infinite f c
      then return c
      else if is_zero f b
      then (if is_zero f c then return (cancellation_zero f rm) else return c)
      else (do
        x ← get_normalized_significand f a
        y ← get_normalized_significand f b
        fused_finite sign_product ((x.0 +i y.0) -i f.significand_width) (product (x.1) (y.1)) c)

  -- `a * b + c`, rounded once.
  unfoldable pub fused_multiply_add : ℕ → ℕ → ℕ → Calc ℕ
  unfolding total_order_magnitude fused_ordered
  fused_multiply_add a b c =
      if is_lt (total_order_magnitude f a b) then fused_ordered b a c else fused_ordered a b c
