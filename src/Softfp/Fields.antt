-- ===== src/Softfp/Fields.antt =====
-- The fields of a number of `lib/softfp/src/fp.rs`: accessors, constants, sign operations and
-- classification. A number is its bit pattern.
pub mod Layout
pub mod Normal
use r2vm.Base.{
  ℕ, ◌+◌, ◌-◌, ◌*◌, ◌/◌, ◌%◌, ◌^◌, bit_and, bit_or, ◌==◌, sll, u32, not, Bool, true, false, ◌&&◌,
  ◌||◌, if◌then◌else◌, Option, some,
}
use r2vm.Softfp.Format.{Format, Class, class_of, Calc, return, stop, ◌+i◌, ◌-i◌, log2_floor}

-- `^` of Booleans.
abbrev pub xor : Bool → Bool → Bool
xor true b = not b
xor false b = b

module _ (f : Format) where
  abbrev pub infinity_biased_exponent : ℕ
  infinity_biased_exponent = 2 ^ f.exponent_width - 1

  abbrev pub maximum_biased_exponent : ℕ
  maximum_biased_exponent = infinity_biased_exponent - 1

  abbrev pub exponent_bias : ℕ
  exponent_bias = 2 ^ (f.exponent_width - 1) - 1

  abbrev pub minimum_exponent : ℕ
  minimum_exponent = 1 -i exponent_bias

  abbrev pub maximum_exponent : ℕ
  maximum_exponent = maximum_biased_exponent -i exponent_bias

  -- `!mask` of the holder.
  abbrev pub complement : ℕ → ℕ
  complement mask = 2 ^ f.holder - 1 - mask

  abbrev pub sign_mask : ℕ
  sign_mask = 2 ^ (f.exponent_width + f.significand_width)

  unfoldable pub sign : ℕ → Bool
  sign v = not (v / 2 ^ (f.exponent_width + f.significand_width) == 0)

  unfoldable pub set_sign : ℕ → Bool → ℕ
  set_sign v true = bit_or v sign_mask
  set_sign v false = bit_and v (complement sign_mask)

  unfoldable pub biased_exponent : ℕ → ℕ
  biased_exponent v = u32 (bit_and (v / 2 ^ f.significand_width) (2 ^ f.exponent_width - 1))

  unfoldable pub set_biased_exponent : ℕ → ℕ → ℕ
  set_biased_exponent v exp =
      let mask = (2 ^ f.exponent_width - 1) * 2 ^ f.significand_width in
      bit_or (bit_and v (complement mask))
        (bit_and (sll f.holder (exp % 2 ^ f.holder) f.significand_width) mask)

  unfoldable pub trailing_significand : ℕ → ℕ
  trailing_significand v = bit_and v (2 ^ f.significand_width - 1)

  unfoldable pub set_trailing_significand : ℕ → ℕ → ℕ
  set_trailing_significand v value =
      let mask = 2 ^ f.significand_width - 1 in
      bit_or (bit_and v (complement mask)) (bit_and value mask)

  unfoldable pub quiet_nan : ℕ
  unfolding set_biased_exponent set_trailing_significand
  quiet_nan =
      set_trailing_significand (set_biased_exponent 0 infinity_biased_exponent)
        (2 ^ (f.significand_width - 1))

  unfoldable pub infinity : Bool → ℕ
  unfolding set_sign set_biased_exponent
  infinity negative = set_biased_exponent (set_sign 0 negative) infinity_biased_exponent

  unfoldable pub signed_zero : Bool → ℕ
  unfolding set_sign
  signed_zero negative = set_sign 0 negative

  -- `trailing_significand | one << SIGNIFICAND_WIDTH`, two bits to the left.
  abbrev pub with_hidden_bit : ℕ → ℕ
  with_hidden_bit t = sll f.holder (bit_or t (2 ^ f.significand_width)) 2

  unfoldable pub get_normalized_significand : ℕ → Calc (ℕ × ℕ)
  unfolding biased_exponent trailing_significand log2_floor
  get_normalized_significand v =
      let biased = biased_exponent v in
      let trailing = trailing_significand v in
      let width_diff = f.significand_width -i log2_floor f.holder trailing in
      if (biased == infinity_biased_exponent) || ((biased == 0) && (trailing == 0))
      then stop
      else if biased == 0
      then return (minimum_exponent -i width_diff, sll f.holder trailing (width_diff +i 2))
      else return (biased -i exponent_bias, with_hidden_bit trailing)

  unfoldable pub get_significand : ℕ → Calc (ℕ × ℕ)
  unfolding biased_exponent trailing_significand
  get_significand v =
      let biased = biased_exponent v in
      let trailing = trailing_significand v in
      if biased == infinity_biased_exponent
      then stop
      else if biased == 0
      then return (minimum_exponent, sll f.holder trailing 2)
      else return (biased -i exponent_bias, with_hidden_bit trailing)

  unfoldable pub abs : ℕ → ℕ
  unfolding set_sign
  abs v = set_sign v false

  unfoldable pub negate : ℕ → ℕ
  unfolding set_sign sign
  negate v = set_sign v (not (sign v))

  unfoldable pub copy_sign : ℕ → ℕ → ℕ
  unfolding set_sign sign
  copy_sign v another = set_sign v (sign another)

  unfoldable pub copy_sign_negated : ℕ → ℕ → ℕ
  unfolding set_sign sign
  copy_sign_negated v another = set_sign v (not (sign another))

  unfoldable pub copy_sign_xored : ℕ → ℕ → ℕ
  unfolding set_sign sign
  copy_sign_xored v another = set_sign v (xor (sign v) (sign another))

  unfoldable pub is_normal : ℕ → Bool
  unfolding biased_exponent
  is_normal v = not (biased_exponent v == 0) && not (biased_exponent v == infinity_biased_exponent)

  unfoldable pub is_finite : ℕ → Bool
  unfolding biased_exponent
  is_finite v = not (biased_exponent v == infinity_biased_exponent)

  unfoldable pub is_zero : ℕ → Bool
  unfolding biased_exponent trailing_significand
  is_zero v = (biased_exponent v == 0) && (trailing_significand v == 0)

  unfoldable pub is_subnormal : ℕ → Bool
  unfolding biased_exponent trailing_significand
  is_subnormal v = (biased_exponent v == 0) && not (trailing_significand v == 0)

  unfoldable pub is_infinite : ℕ → Bool
  unfolding biased_exponent trailing_significand
  is_infinite v = (biased_exponent v == infinity_biased_exponent) && (trailing_significand v == 0)

  unfoldable pub is_nan : ℕ → Bool
  unfolding biased_exponent trailing_significand
  is_nan v = (biased_exponent v == infinity_biased_exponent) && not (trailing_significand v == 0)

  unfoldable pub is_signaling : ℕ → Bool
  unfolding biased_exponent trailing_significand
  is_signaling v =
      if not (biased_exponent v == infinity_biased_exponent)
      then false
      else if trailing_significand v == 0
      then false
      else bit_and (trailing_significand v) (2 ^ (f.significand_width - 1)) == 0

  -- A class and its negative counterpart have numbers that add up to 7.
  abbrev pub signed_class : Bool → ℕ → Option Class
  signed_class true positive = class_of (7 - positive)
  signed_class false positive = class_of positive

  unfoldable pub classify : ℕ → Option Class
  unfolding biased_exponent trailing_significand sign
  classify v =
      let exponent = biased_exponent v in
      let significand = trailing_significand v in
      if exponent == 0
      then (if significand == 0 then signed_class (sign v) 4 else signed_class (sign v) 5)
      else if exponent == infinity_biased_exponent
      then if significand == 0
        then signed_class (sign v) 7
        else if bit_and significand (2 ^ (f.significand_width - 1)) == 0
        then some Class.signaling_nan
        else some Class.quiet_nan_class
      else signed_class (sign v) 6
