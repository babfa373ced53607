-- ===== src/Softfp/Fields/Normal.antt =====
-- The parts of a normal number of `lib/softfp/src/fp.rs`.
use Prim.Native.Nat.{◌≤◌}
use native.Mathlib.Nat.{mod-eq_of_lt}
use r2vm.Base.{
  ℕ, ◌+◌, ◌-◌, ◌*◌, ◌%◌, ◌^◌, ◌<◌, ◌≡◌, ap, ◌∙◌, bit_or, bit_or-fields_right, ◌==◌, not, sll, Bool,
  false, ◌&&◌, ◌||◌, if◌then◌else◌, Option, some, arith, pow_le,
}
use r2vm.Softfp.Format.{Format, RoundingMode, Calc, return, stop, ◌+i◌, ◌-i◌, log2_floor}
use r2vm.Softfp.Fields.{
  biased_exponent, trailing_significand, is_nan, is_zero, is_infinite, get_normalized_significand,
  with_hidden_bit, minimum_exponent, exponent_bias, infinity_biased_exponent,
}
use r2vm.Softfp.Fields.Layout.{
  top, top_powers, trailing_significand-encoded, biased_exponent-encoded,
}
use r2vm.Softfp.Round.Packed.{IsFormat, encoded, holder_powers}
use r2vm.Softfp.Round.Exponents.{unbiased}
use r2vm.Softfp.Round.Encoded.{scaled_le}
use r2vm.Softfp.Arith.Divide.Loop.{quotient_parts}

module _ (f : Format) (v : IsFormat f) where
  -- The normal number with the biased exponent `e` and the trailing significand `t`.
  abbrev pub normal : (negative : Bool) (e t : ℕ) → ℕ
  normal negative e t = encoded f negative (e * 2 ^ f.significand_width + t)

  pub record IsNormal (e t : ℕ) : Type 0 where
    pub low : 1 ≤ e
    pub high : e ≤ 2 ^ f.exponent_width - 1 - 1
    pub fraction : t < 2 ^ f.significand_width

  module _ (e t : ℕ) (n : IsNormal e t) where
    pub magnitude-lt : e * 2 ^ f.significand_width + t < top f v
    magnitude-lt = omega (
      arith,
      top_powers f v,
      n.low,
      n.fraction,
      scaled_le (e + 1) (2 ^ f.exponent_width) (2 ^ f.significand_width)
          (omega (arith, n.low, n.high)),
    )

    pub biased_exponent-normal : (negative : Bool) → biased_exponent f (normal negative e t) ≡ e
    biased_exponent-normal negative =
        biased_exponent-encoded f v negative (e * 2 ^ f.significand_width + t) magnitude-lt
        ∙ (quotient_parts e (2 ^ f.significand_width) t n.fraction).0

    pub trailing_significand-normal :
        (negative : Bool) → trailing_significand f (normal negative e t) ≡ t
    trailing_significand-normal negative =
        trailing_significand-encoded f v negative (e * 2 ^ f.significand_width + t) magnitude-lt
        ∙ (quotient_parts e (2 ^ f.significand_width) t n.fraction).1

    finite_test : (e == infinity_biased_exponent f) ≡ false
    finite_test = ground (arith, n.low, n.high)

    nonzero_test : (e == 0) ≡ false
    nonzero_test = ground (arith, n.low)

    pub is_nan-normal : (negative : Bool) → is_nan f (normal negative e t) ≡ false
    unfolding is_nan
    is_nan-normal negative =
        ap
          (λ b.
            (b == infinity_biased_exponent f)
            && not (trailing_significand f (normal negative e t) == 0))
          (biased_exponent-normal negative)
        ∙ ap (λ c. c && not (trailing_significand f (normal negative e t) == 0)) finite_test

    pub is_infinite-normal : (negative : Bool) → is_infinite f (normal negative e t) ≡ false
    unfolding is_infinite
    is_infinite-normal negative =
        ap
          (λ b.
            (b == infinity_biased_exponent f)
            && (trailing_significand f (normal negative e t) == 0))
          (biased_exponent-normal negative)
        ∙ ap (λ c. c && (trailing_significand f (normal negative e t) == 0)) finite_test

    pub is_zero-normal : (negative : Bool) → is_zero f (normal negative e t) ≡ false
    unfolding is_zero
    is_zero-normal negative =
        ap (λ b. (b == 0) && (trailing_significand f (normal negative e t) == 0))
          (biased_exponent-normal negative)
        ∙ ap (λ c. c && (trailing_significand f (normal negative e t) == 0)) nonzero_test

    hidden : with_hidden_bit f t ≡ (2 ^ f.significand_width + t) * 4
    hidden =
        ap (λ (x : ℕ). x * 4 % 2 ^ f.holder) joined
        ∙ mod-eq_of_lt (
            omega (
              arith,
              n.fraction,
              holder_powers f RoundingMode.ties_to_even v,
              scaled_le 8 (2 ^ f.exponent_width) (2 ^ f.significand_width)
                  (pow_le 3 f.exponent_width v.exponent_low),
            ))
      where
        one_hidden : 2 ^ f.significand_width ≡ 1 * 2 ^ f.significand_width
        one_hidden = omega arith

        joined : bit_or t (2 ^ f.significand_width) ≡ 2 ^ f.significand_width + t
        joined =
            ap (bit_or t) one_hidden
            ∙ bit_or-fields_right f.significand_width 1 t n.fraction
            ∙ omega arith

    -- Its exponent, and its significand in [1, 2).
    pub get_normalized_significand-normal :
        (negative : Bool) (flags : ℕ)
        → get_normalized_significand f (normal negative e t) flags
          ≡ some ((unbiased f v e, (2 ^ f.significand_width + t) * 4), flags)
    unfolding get_normalized_significand
    get_normalized_significand-normal negative flags =
        ap (λ b. parts b (trailing_significand f (normal negative e t)))
          (biased_exponent-normal negative)
        ∙ ap (parts e) (trailing_significand-normal negative)
        ∙ ap
            (λ c.
              (if c || ((e == 0) && (t == 0))
                  then stop
                  else if e == 0
                  then below
                  else return (e -i exponent_bias f, with_hidden_bit f t))
                flags)
            finite_test
        ∙ ap
            (λ c.
              (if c && (t == 0)
                  then stop
                  else if c
                  then below
                  else return (e -i exponent_bias f, with_hidden_bit f t))
                flags)
            nonzero_test
        ∙ ap (λ x. some ((e -i exponent_bias f, x), flags)) hidden
      where
        below : Calc (ℕ × ℕ)
        below = return (
          minimum_exponent f -i (f.significand_width -i log2_floor f.holder t),
          sll f.holder t ((f.significand_width -i log2_floor f.holder t) +i 2),
        )

        parts : ℕ → ℕ → Option ((ℕ × ℕ) × ℕ)
        parts biased trailing =
            (if (biased == infinity_biased_exponent f) || ((biased == 0) && (trailing == 0))
                then stop
                else if biased == 0
                then return (
                  minimum_exponent f -i (f.significand_width -i log2_floor f.holder trailing),
                  sll f.holder trailing
                      ((f.significand_width -i log2_floor f.holder trailing) +i 2),
                )
                else return (biased -i exponent_bias f, with_hidden_bit f trailing))
              flags
