-- ===== src/Softfp/Convert.antt =====
-- The conversions of `lib/softfp/src/fp.rs`, between formats and to and from integers of `w` bits.
use r2vm.Base.{
  ℕ, ◌-◌, ◌/◌, ◌%◌, ◌^◌, ◌==◌, leb, ltb, sll, wrapping_add, Bool, true, false, ◌&&◌, ◌||◌,
  if◌then◌else◌,
}
use r2vm.Softfp.Format.{
  ◌>>=◌, ◌>>◌, Format, RoundingMode, Calc, return, set_exception_flag, set_exception_flag_if, ◌+i◌,
  ◌-i◌, lt_i, invalid_operation_flag, inexact_flag,
}
use r2vm.Softfp.Fields.{
  sign, infinity, signed_zero, quiet_nan, is_infinite, is_zero, is_nan, is_signaling,
  get_normalized_significand,
}
use r2vm.Softfp.Round.{right_shift, round_significand, normalize_and_round}

-- `!value + 1`.
abbrev pub negated : (w value : ℕ) → ℕ
negated w value = wrapping_add w (2 ^ w - 1 - value) 1

module _ (f : Format) (rm : RoundingMode) where
  unfoldable pub convert_from_int_with_sign : (w : ℕ) (negative : Bool) (value : ℕ) → Calc ℕ
  unfolding signed_zero normalize_and_round
  convert_from_int_with_sign w negative value =
      if value == 0
      then return (signed_zero f false)
      else normalize_and_round f rm w negative (f.significand_width +i 2) value

  unfoldable pub convert_from_uint : (w value : ℕ) → Calc ℕ
  unfolding convert_from_int_with_sign
  convert_from_uint w value = convert_from_int_with_sign w false value

  unfoldable pub convert_from_sint : (w value : ℕ) → Calc ℕ
  unfolding convert_from_int_with_sign
  convert_from_sint w value =
      if value / 2 ^ (w - 1) == 0
      then convert_from_int_with_sign w false value
      else convert_from_int_with_sign w true (negated w value)

  -- A number with a fraction, aligned to its last place and rounded.
  unfoldable pub to_int_rounded :
      (w : ℕ) (negative : Bool) (max : ℕ) (result : Bool × ℕ) → Calc (Bool × ℕ)
  to_int_rounded w negative max result =
      if result.1 == 0
      then (do set_exception_flag inexact_flag; return (false, 0))
      else if ltb (result.1) (2 ^ w) && leb (result.1) max
      then (do set_exception_flag_if (result.0) inexact_flag; return (negative, result.1))
      else (do set_exception_flag invalid_operation_flag; return (negative, max))

  -- An integer, shifted to its place.
  unfoldable pub to_int_shifted :
      (w : ℕ) (negative : Bool) (max effective_exponent significand : ℕ) → Calc (Bool × ℕ)
  to_int_shifted w negative max effective_exponent significand =
      let remaining_bits = (w -i f.significand_width) +i 1 in
      let result = sll w (significand % 2 ^ w) effective_exponent in
      if lt_i remaining_bits 0 || lt_i remaining_bits effective_exponent
      then (do set_exception_flag invalid_operation_flag; return (negative, max))
      else if ltb max result
      then (do set_exception_flag invalid_operation_flag; return (negative, max))
      else return (negative, result)

  unfoldable pub to_int_finite :
      (w : ℕ) (negative : Bool) (max exponent significand : ℕ) → Calc (Bool × ℕ)
  unfolding right_shift round_significand to_int_rounded to_int_shifted
  to_int_finite w negative max exponent significand =
      let effective_exponent = exponent -i f.significand_width in
      let shifted = right_shift f.holder significand (0 -i effective_exponent) in
      if lt_i effective_exponent 0
      then to_int_rounded w negative max (round_significand f rm negative shifted)
      else to_int_shifted w negative max effective_exponent (significand / 2 ^ 2)

  -- The sign and the magnitude of the integer.
  unfoldable pub convert_to_int : (w v positive_max negative_max : ℕ) → Calc (Bool × ℕ)
  unfolding is_nan sign is_infinite is_zero get_normalized_significand to_int_finite
  convert_to_int w v positive_max negative_max =
      let max = if sign f v then negative_max else positive_max in
      if is_nan f v
      then (do set_exception_flag invalid_operation_flag; return (false, positive_max))
      else if is_infinite f v
      then (do set_exception_flag invalid_operation_flag; return (sign f v, max))
      else if is_zero f v
      then return (false, 0)
      else (do x ← get_normalized_significand f v; to_int_finite w (sign f v) max (x.0) (x.1))

  unfoldable pub convert_to_uint : (w v : ℕ) → Calc ℕ
  unfolding convert_to_int
  convert_to_uint w v = do result ← convert_to_int w v (2 ^ w - 1) 0; return (result.1)

  unfoldable pub convert_to_sint : (w v : ℕ) → Calc ℕ
  unfolding convert_to_int
  convert_to_sint w v = do
    result ← convert_to_int w v (2 ^ (w - 1) - 1) (2 ^ (w - 1))
    return (if result.0 then negated w (result.1) else result.1)

-- From the format `f` to the format `g`.
module _ (f g : Format) (rm : RoundingMode) where
  unfoldable pub convert_format : ℕ → Calc ℕ
  unfolding is_nan is_signaling quiet_nan sign is_infinite infinity is_zero signed_zero
      get_normalized_significand normalize_and_round
  convert_format v =
      if is_nan f v
      then (do
        set_exception_flag_if (is_signaling f v) invalid_operation_flag
        return (quiet_nan g))
      else if is_infinite f v
      then return (infinity g (sign f v))
      else if is_zero f v
      then return (signed_zero g (sign f v))
      else (do
        x ← get_normalized_significand f v
        normalize_and_round g rm f.holder (sign f v)
            ((x.0 -i f.significand_width) +i g.significand_width) (x.1))
