-- ===== src/Softfp/Round.antt =====
-- Shifting and rounding in `lib/softfp/src/fp.rs`. A significand that is to be rounded has two bits
-- behind its last place: the first one that is lost, and whether any bit behind it is set.
pub mod Sticky
pub mod Packed
pub mod Exponents
pub mod Overflow
pub mod Encoded
pub mod Subnormal
pub mod Normalize
use r2vm.Base.{
  ℕ, ◌+◌, ◌-◌, ◌/◌, ◌%◌, ◌^◌, bit_and, bit_or, ◌==◌, leb, sll, wrapping_add, wrapping_sub, not,
  Bool, true, false, ◌&&◌, ◌||◌, if◌then◌else◌,
}
use r2vm.Softfp.Format.{
  ◌>>=◌, ◌>>◌, Format, RoundingMode, Calc, return, set_exception_flag, set_exception_flag_if, ◌+i◌,
  ◌-i◌, lt_i, log2_floor, inexact_flag, underflow_flag, overflow_flag, invalid_operation_flag,
}
use r2vm.Softfp.Fields.{
  set_sign, set_biased_exponent, set_trailing_significand, infinity, signed_zero, quiet_nan,
  is_signaling, minimum_exponent, maximum_exponent, exponent_bias,
}

-- The last bit of the result is also set if a bit is shifted away. `w` is the width of the type.
unfoldable pub right_shift : (w significand shift_amount : ℕ) → ℕ
right_shift w significand shift_amount =
    let value = if leb w shift_amount then 0 else significand / 2 ^ shift_amount in
    let residue =
      if leb w shift_amount then significand else bit_and significand (2 ^ shift_amount - 1) in
    if residue == 0 then value else bit_or value 1

-- What `round_significand` adds for the two bits behind the last place.
unfoldable pub rounding_step : RoundingMode → (negative : Bool) → (significand : ℕ) → ℕ
rounding_step RoundingMode.ties_to_even negative significand = bit_and (significand / 2 ^ 2) 1 + 1
rounding_step RoundingMode.toward_zero negative significand = 0
rounding_step RoundingMode.toward_negative negative significand = if negative then 3 else 0
rounding_step RoundingMode.toward_positive negative significand = if negative then 0 else 3
rounding_step RoundingMode.ties_to_away negative significand = 2

-- Whether the rounding goes away from the infinity of this sign.
abbrev pub rounds_inwards : RoundingMode → (negative : Bool) → Bool
rounds_inwards RoundingMode.toward_positive negative = negative
rounds_inwards RoundingMode.toward_negative negative = not negative
rounds_inwards RoundingMode.toward_zero negative = true
rounds_inwards _ negative = false

-- `rm == RoundingMode::TowardNegative`.
abbrev pub is_toward_negative : RoundingMode → Bool
is_toward_negative RoundingMode.toward_negative = true
is_toward_negative _ = false

module _ (f : Format) where
  -- `w` is the width of the significand's type.
  unfoldable pub normalize : (w exponent significand : ℕ) → ℕ × ℕ
  unfolding log2_floor right_shift
  normalize w exponent significand =
      let width_diff = (log2_floor w significand -i 2) -i f.significand_width in
      (
        exponent +i width_diff,
        if not (lt_i 0 width_diff)
            then sll f.holder (significand % 2 ^ f.holder) (0 -i width_diff)
            else right_shift w significand width_diff % 2 ^ f.holder,
      )

module _ (f : Format) (rm : RoundingMode) where
  unfoldable pub round_significand : (negative : Bool) (significand : ℕ) → Bool × ℕ
  unfolding rounding_step
  round_significand negative significand =
      if bit_and significand 3 == 0
      then (false, significand / 2 ^ 2)
      else (true, wrapping_add f.holder significand (rounding_step rm negative significand) / 2 ^ 2)

  unfoldable pub round_overflow : Bool → Calc ℕ
  unfolding infinity
  round_overflow negative = do
    set_exception_flag (bit_or overflow_flag inexact_flag)
    return (
        if rounds_inwards rm negative
        then wrapping_sub f.holder (infinity f negative) 1
        else infinity f negative)

  abbrev pub packed : (negative : Bool) (biased trailing : ℕ) → ℕ
  packed negative biased trailing =
      set_trailing_significand f (set_biased_exponent f (set_sign f 0 negative) biased) trailing

  -- A number that is subnormal before rounding; it may round up to the smallest normal number.
  unfoldable pub round_subnormal : (negative inexact : Bool) (significand rounded : ℕ) → Calc ℕ
  unfolding round_significand set_sign set_biased_exponent set_trailing_significand
  round_subnormal negative inexact significand rounded =
      if rounded == 2 ^ f.significand_width
      then (do
        set_exception_flag_if
            (not ((round_significand negative significand).1 == 2 ^ (f.significand_width + 1)))
            underflow_flag
        return (packed negative 1 0))
      else (do set_exception_flag_if inexact underflow_flag; return (packed negative 0 rounded))

  unfoldable pub round_finish :
      (negative inexact : Bool) (exponent significand rounded : ℕ) → Calc ℕ
  unfolding round_subnormal round_overflow set_sign set_biased_exponent set_trailing_significand
  round_finish negative inexact exponent significand rounded =
      if lt_i exponent (minimum_exponent f)
      then round_subnormal negative inexact significand rounded
      else if lt_i (maximum_exponent f) exponent
      then round_overflow negative
      else return (packed negative (exponent +i exponent_bias f) rounded)

  -- The significand after rounding, which may have carried into the next place.
  unfoldable pub round_carry : (negative inexact : Bool) (exponent significand rounded : ℕ) → Calc ℕ
  unfolding round_finish
  round_carry negative inexact exponent significand rounded = do
    set_exception_flag_if inexact inexact_flag
    if inexact && (rounded == 2 ^ (f.significand_width + 1))
        then round_finish negative inexact (exponent +i 1) significand (rounded / 2)
        else round_finish negative inexact exponent significand rounded

  -- The significand is subnormalized before it is rounded.
  unfoldable pub subnormalized : (exponent significand : ℕ) → ℕ
  unfolding right_shift
  subnormalized exponent significand =
      if lt_i exponent (minimum_exponent f)
      then right_shift f.holder significand (minimum_exponent f -i exponent)
      else significand

  unfoldable pub round : (negative : Bool) (exponent significand : ℕ) → Calc ℕ
  unfolding subnormalized round_significand round_carry round_overflow
  round negative exponent significand =
      let result = round_significand negative (subnormalized exponent significand) in
      if lt_i (maximum_exponent f) exponent
      then round_overflow negative
      else round_carry negative (result.0) exponent significand (result.1)

  unfoldable pub normalize_and_round : (w : ℕ) (negative : Bool) (exponent significand : ℕ) → Calc ℕ
  unfolding normalize round
  normalize_and_round w negative exponent significand =
      let normal = normalize f w exponent significand in round negative (normal.0) (normal.1)

  unfoldable pub propagate_nan : ℕ → ℕ → Calc ℕ
  unfolding is_signaling quiet_nan
  propagate_nan a b = do
    set_exception_flag_if (is_signaling f a || is_signaling f b) invalid_operation_flag
    return (quiet_nan f)

  unfoldable pub cancellation_zero : ℕ
  unfolding signed_zero
  cancellation_zero = signed_zero f (is_toward_negative rm)
