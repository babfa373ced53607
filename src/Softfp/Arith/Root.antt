-- ===== src/Softfp/Arith/Root.antt =====
-- The square root in `lib/softfp/src/fp.rs`.
pub mod Loop
pub mod Bounds
pub mod Normal
use r2vm.Base.{
  ℕ, zero, suc, ◌+◌, ◌-◌, ◌/◌, ◌%◌, ◌^◌, ◌==◌, leb, sll, sra, wrapping_add, wrapping_sub, false,
  if◌then◌else◌, Option, none, some,
}
use r2vm.Softfp.Format.{
  ◌>>=◌, ◌>>◌, Format, RoundingMode, Calc, return, lift, set_exception_flag, ◌-i◌,
  invalid_operation_flag, divide_by_zero_flag,
}
use r2vm.Softfp.Fields.{
  sign, quiet_nan, is_infinite, is_zero, is_nan, is_signaling, get_normalized_significand,
}
use r2vm.Softfp.Round.{round}
use r2vm.Softfp.Arith.Divide.{concluded}

module _ (f : Format) where
  -- One digit per round. The state is the root and half of what is left over the current bit; `none`
  -- means that the rounds ran out.
  unfoldable pub root_loop : (rounds half_bit result left : ℕ) → Option (ℕ × ℕ)
  root_loop zero half_bit result left = none
  root_loop (suc rounds) half_bit result left =
      let tried = wrapping_add f.holder result half_bit in
      let fits = leb tried left in
      let rest =
        root_loop rounds (half_bit / 2)
          (if fits then wrapping_add f.holder result (sll f.holder half_bit 1) else result)
          (sll f.holder (if fits then left - tried else left) 1) in
      if half_bit == 0 then some (result, left) else rest

  -- The root of a significand in [1, 4), with the two bits for rounding.
  unfoldable pub root_significand : ℕ → Option ℕ
  unfolding root_loop
  root_significand significand = concluded f (
      root_loop (f.significand_width + 2) (2 ^ f.significand_width) (2 ^ (f.significand_width + 2))
        (wrapping_sub f.holder significand (2 ^ (f.significand_width + 2))))

-- `exponent / 2` of an even `i32`.
abbrev pub halved : ℕ → ℕ
halved exponent = sra 32 exponent 1

module _ (f : Format) (rm : RoundingMode) where
  unfoldable pub root_finite : (exponent significand : ℕ) → Calc ℕ
  unfolding root_significand round
  root_finite exponent significand =
      if exponent % 2 == 0
      then (do
        root ← lift (root_significand f significand)
        round f rm false (halved exponent) root)
      else (do
        root ← lift (root_significand f (sll f.holder significand 1))
        round f rm false (halved (exponent -i 1)) root)

  unfoldable pub square_root : ℕ → Calc ℕ
  unfolding is_nan is_signaling quiet_nan is_zero sign is_infinite get_normalized_significand
      root_finite
  square_root v =
      if is_nan f v
      then if is_signaling f v
        then (do set_exception_flag divide_by_zero_flag; return (quiet_nan f))
        else return (quiet_nan f)
      else if is_zero f v
      then return v
      else if sign f v
      then (do set_exception_flag invalid_operation_flag; return (quiet_nan f))
      else if is_infinite f v
      then return v
      else (do x ← get_normalized_significand f v; root_finite (x.0) (x.1))
