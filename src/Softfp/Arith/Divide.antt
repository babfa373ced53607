-- ===== src/Softfp/Arith/Divide.antt =====
-- Division in `lib/softfp/src/fp.rs`.
pub mod Loop
pub mod Quotient
pub mod Normal
use r2vm.Base.{
  ℕ, zero, suc, ◌+◌, ◌-◌, ◌/◌, ◌^◌, bit_or, ◌==◌, leb, ltb, sll, wrapping_add, wrapping_sub, Bool,
  ◌||◌, if◌then◌else◌, Option, none, some,
}
use r2vm.Softfp.Format.{
  ◌>>=◌, ◌>>◌, Format, RoundingMode, Calc, return, lift, set_exception_flag, ◌-i◌,
  invalid_operation_flag, divide_by_zero_flag,
}
use r2vm.Softfp.Fields.{
  xor, sign, infinity, signed_zero, quiet_nan, is_infinite, is_zero, is_nan,
  get_normalized_significand,
}
use r2vm.Softfp.Round.{round, propagate_nan}

module _ (f : Format) where
  -- One digit per round. The state is the quotient and the remainder over the current bit; `none` means
  -- that the rounds ran out.
  unfoldable pub divide_loop : (rounds significand_b bit quotient remainder : ℕ) → Option (ℕ × ℕ)
  divide_loop zero significand_b bit quotient remainder = none
  divide_loop (suc rounds) significand_b bit quotient remainder =
      let fits = leb significand_b remainder in
      let rest =
        divide_loop rounds significand_b (bit / 2)
          (if fits then wrapping_add f.holder quotient bit else quotient)
          (sll f.holder (if fits then remainder - significand_b else remainder) 1) in
      if bit == 1 then some (quotient, remainder) else rest

  abbrev pub sticky : ℕ × ℕ → ℕ
  sticky state = if state.1 == 0 then state.0 else bit_or (state.0) 1

  -- The digits, with the last bit set if something is left.
  abbrev pub concluded : Option (ℕ × ℕ) → Option ℕ
  concluded none = none
  concluded (some state) = some (sticky state)

  -- The quotient of two significands in [1, 2), the first not smaller than the second, with the two
  -- bits for rounding.
  unfoldable pub divide_significands : (significand_a significand_b : ℕ) → Option ℕ
  unfolding divide_loop
  divide_significands significand_a significand_b = concluded (
      divide_loop (f.significand_width + 2) significand_b (2 ^ (f.significand_width + 1))
        (2 ^ (f.significand_width + 2))
        (sll f.holder (wrapping_sub f.holder significand_a significand_b) 1))

module _ (f : Format) (rm : RoundingMode) where
  unfoldable pub divide_finite :
      (negative : Bool) (exponent significand_a significand_b : ℕ) → Calc ℕ
  unfolding divide_significands round
  divide_finite negative exponent significand_a significand_b =
      if ltb significand_a significand_b
      then (do
        quotient ← lift (divide_significands f (sll f.holder significand_a 1) significand_b)
        round f rm negative (exponent -i 1) quotient)
      else (do
        quotient ← lift (divide_significands f significand_a significand_b)
        round f rm negative exponent quotient)

  unfoldable pub divide : ℕ → ℕ → Calc ℕ
  unfolding is_nan propagate_nan sign is_infinite quiet_nan infinity signed_zero is_zero
      get_normalized_significand divide_finite
  divide a b =
      let negative = xor (sign f a) (sign f b) in
      if is_nan f a || is_nan f b
      then propagate_nan f rm a b
      else if is_infinite f a
      then if is_infinite f b
        then (do set_exception_flag invalid_operation_flag; return (quiet_nan f))
        else return (infinity f negative)
      else if is_infinite f b
      then return (signed_zero f negative)
      else if is_zero f a
      then if is_zero f b
        then (do set_exception_flag invalid_operation_flag; return (quiet_nan f))
        else return (signed_zero f negative)
      else if is_zero f b
      then (do set_exception_flag divide_by_zero_flag; return (infinity f negative))
      else (do
        x ← get_normalized_significand f a
        y ← get_normalized_significand f b
        divide_finite negative (x.0 -i y.0) (x.1) (y.1))
