-- ===== src/Softfp/Format.antt =====
-- The formats, rounding modes, classes and exception flags of `lib/softfp/src/fp.rs`, the integer
-- helpers of `lib/softfp/src/int.rs`, and computations that raise flags. An integer type is its width.
use r2vm.Base.{
  ℕ, zero, suc, ◌-◌, ◌^◌, bit_or, leb, ◌==◌, wrapping_add, wrapping_sub, slt, Bool, true, false,
  if◌then◌else◌, Option, none, some,
}

pub data RoundingMode : Type 0 where
  ties_to_even : RoundingMode
  toward_zero : RoundingMode
  toward_negative : RoundingMode
  toward_positive : RoundingMode
  ties_to_away : RoundingMode

pub data Class : Type 0 where
  negative_infinity : Class
  negative_normal : Class
  negative_subnormal : Class
  negative_zero : Class
  positive_zero : Class
  positive_subnormal : Class
  positive_normal : Class
  positive_infinity : Class
  signaling_nan : Class
  quiet_nan_class : Class

-- `TryFrom<u32>` of the class, and of the rounding mode.
abbrev pub class_of : ℕ → Option Class
class_of value =
    if value == 0
    then some Class.negative_infinity
    else if value == 1
    then some Class.negative_normal
    else if value == 2
    then some Class.negative_subnormal
    else if value == 3
    then some Class.negative_zero
    else if value == 4
    then some Class.positive_zero
    else if value == 5
    then some Class.positive_subnormal
    else if value == 6
    then some Class.positive_normal
    else if value == 7
    then some Class.positive_infinity
    else if value == 8
    then some Class.signaling_nan
    else if value == 9
    then some Class.quiet_nan_class
    else none

abbrev pub rounding_mode_of : ℕ → Option RoundingMode
rounding_mode_of value =
    if value == 0
    then some RoundingMode.ties_to_even
    else if value == 1
    then some RoundingMode.toward_zero
    else if value == 2
    then some RoundingMode.toward_negative
    else if value == 3
    then some RoundingMode.toward_positive
    else if value == 4
    then some RoundingMode.ties_to_away
    else none

-- Exception flags.
abbrev pub inexact_flag : ℕ
inexact_flag = 1

abbrev pub underflow_flag : ℕ
underflow_flag = 2

abbrev pub overflow_flag : ℕ
overflow_flag = 4

abbrev pub divide_by_zero_flag : ℕ
divide_by_zero_flag = 8

abbrev pub invalid_operation_flag : ℕ
invalid_operation_flag = 16

-- `FpDesc`, with the widths of its `Holder` and its `DoubleHolder`.
pub record Format : Type 0 where
  pub exponent_width : ℕ
  pub significand_width : ℕ
  pub holder : ℕ
  pub double_holder : ℕ

abbrev pub f32 : Format
f32 = record { exponent_width = 8; significand_width = 23; holder = 32; double_holder = 64 }

abbrev pub f64 : Format
f64 = record { exponent_width = 11; significand_width = 52; holder = 64; double_holder = 128 }

-- `i32` values are bit patterns: sums, differences and tests.
infixl 60 ◌+i◌ ◌-i◌
abbrev pub ◌+i◌ : ℕ → ℕ → ℕ
a +i b = wrapping_add 32 a b

abbrev pub ◌-i◌ : ℕ → ℕ → ℕ
a -i b = wrapping_sub 32 a b

abbrev pub lt_i : ℕ → ℕ → Bool
lt_i a b = slt 32 a b

-- The zero bits above the highest bit that is set.
unfoldable pub leading_zeros : (w x : ℕ) → ℕ
leading_zeros zero x = 0
leading_zeros (suc w) x = let rest = leading_zeros w x in if leb (2 ^ w) x then 0 else suc rest

unfoldable pub log2_floor : (w x : ℕ) → ℕ
unfolding leading_zeros
log2_floor w x = (w - 1) -i leading_zeros w x

-- A computation that may panic, `none`, and that sets exception flags.
abbrev pub Calc : Type 0 → Type 0
Calc A = ℕ → Option (A × ℕ)

abbrev pub carry_on : {A B : Type 0} → Option (A × ℕ) → (A → Calc B) → Option (B × ℕ)
carry_on none k = none
carry_on (some (a, flags)) k = k a flags

infixl 5 ◌>>=◌ ◌>>◌
abbrev pub ◌>>=◌ : {A B : Type 0} → Calc A → (A → Calc B) → Calc B
m >>= k = λ flags. carry_on (m flags) k

abbrev pub ◌>>◌ : {B : Type 0} → Calc (Unit {0}) → Calc B → Calc B
m >> k = m >>= λ _. k

abbrev pub return : {A : Type 0} → A → Calc A
return a = λ flags. some (a, flags)

-- `panic!()`.
abbrev pub stop : {A : Type 0} → Calc A
stop = λ _. none

-- The registered callback adds the flags to those that are set.
abbrev pub set_exception_flag : ℕ → Calc (Unit {0})
set_exception_flag flag = λ flags. some (tt, bit_or flags flag)

abbrev pub set_exception_flag_if : Bool → ℕ → Calc (Unit {0})
set_exception_flag_if true flag = set_exception_flag flag
set_exception_flag_if false flag = return tt

abbrev pub lift : {A : Type 0} → Option A → Calc A
lift none = λ _. none
lift (some a) = λ flags. some (a, flags)
