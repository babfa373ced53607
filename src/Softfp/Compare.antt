-- ===== src/Softfp/Compare.antt =====
-- The comparisons of `lib/softfp/src/fp.rs`.
pub mod Order
use Prim.Native.Nat.{compare, Ordering}
use r2vm.Base.{ℕ, Bool, true, false, ◌&&◌, ◌||◌, if◌then◌else◌, Option, none, some}
use r2vm.Softfp.Format.{
  Format, Calc, ◌>>=◌, ◌>>◌, return, set_exception_flag, invalid_operation_flag,
}
use r2vm.Softfp.Fields.{sign, set_sign, is_nan, is_zero, is_signaling, quiet_nan}

-- `a.sign() == b.sign()`.
abbrev pub same : Bool → Bool → Bool
same true b = b
same false true = false
same false false = true

abbrev pub is_lt : Ordering → Bool
is_lt Ordering.lt = true
is_lt _ = false

abbrev pub reverse : Ordering → Ordering
reverse Ordering.lt = Ordering.gt
reverse Ordering.eq = Ordering.eq
reverse Ordering.gt = Ordering.lt

module _ (f : Format) where
  unfoldable pub total_order_magnitude : ℕ → ℕ → Ordering
  unfolding set_sign
  total_order_magnitude a b = compare (set_sign f a false) (set_sign f b false)

  unfoldable pub total_order : ℕ → ℕ → Ordering
  unfolding total_order_magnitude sign
  total_order a b =
      if same (sign f a) (sign f b)
      then (if sign f a then reverse (total_order_magnitude a b) else total_order_magnitude a b)
      else if sign f a
      then Ordering.lt
      else Ordering.gt

  unfoldable pub compare_quiet : ℕ → ℕ → Option Ordering
  unfolding is_nan is_zero total_order
  compare_quiet a b =
      if is_nan f a || is_nan f b
      then none
      else if is_zero f a && is_zero f b
      then some Ordering.eq
      else some (total_order a b)

  unfoldable pub compare_signaling : ℕ → ℕ → Calc (Option Ordering)
  unfolding is_nan is_zero total_order
  compare_signaling a b =
      if is_nan f a || is_nan f b
      then (do set_exception_flag invalid_operation_flag; return none)
      else if is_zero f a && is_zero f b
      then return (some Ordering.eq)
      else return (some (total_order a b))

  -- The smaller and the larger of the two.
  unfoldable pub min_max : ℕ → ℕ → Calc (ℕ × ℕ)
  unfolding is_nan is_signaling quiet_nan total_order
  min_max a b =
      if is_nan f a || is_nan f b
      then if is_signaling f a || is_signaling f b
        then (do set_exception_flag invalid_operation_flag; return (quiet_nan f, quiet_nan f))
        else if is_nan f a
        then (if is_nan f b then return (quiet_nan f, quiet_nan f) else return (b, b))
        else return (a, a)
      else if is_lt (total_order a b)
      then return (a, b)
      else return (b, a)

  unfoldable pub minimum : ℕ → ℕ → Calc ℕ
  unfolding min_max
  minimum a b = do both ← min_max a b; return (both.0)

  unfoldable pub maximum : ℕ → ℕ → Calc ℕ
  unfolding min_max
  maximum a b = do both ← min_max a b; return (both.1)
