-- ===== src/Softfp/Round/Subnormal.antt =====
-- What `round` of `lib/softfp/src/fp.rs` gives below the normal numbers.
use Prim.Native.Nat.{◌≤◌}
use native.Mathlib.Nat.{mod-eq_of_lt, div-lt_iff_lt-mul, div-le_self}
use r2vm.Base.{
  ℕ, ◌+◌, ◌-◌, ◌*◌, ◌/◌, ◌%◌, ◌^◌, ◌<◌, ◌≡◌, refl, ap, sym, ◌∙◌, bit_or, ◌==◌, not, Bool,
  Bool-cases, inl, inr, true, false, if◌then◌else◌, some, arith, pow_le, pow_pos, pow_add,
}
use r2vm.Softfp.Format.{
  Format, RoundingMode, ◌>>◌, return, set_exception_flag_if, ◌+i◌, ◌-i◌, lt_i, inexact_flag,
  underflow_flag,
}
use r2vm.Softfp.Fields.{minimum_exponent, maximum_exponent, exponent_bias}
use r2vm.Softfp.Round.{
  right_shift, round, round_significand, round_overflow, round_subnormal, round_finish, round_carry,
  packed,
}
use r2vm.Softfp.Round.Sticky.{
  rounded, rounded-bounds, right_shift_lem, round_significand_lem, round_significand-right_shift,
}
use r2vm.Softfp.Round.Packed.{IsFormat, encoded, packed_lem}
use r2vm.Softfp.Round.Exponents.{
  unbiased, two_biases, bias-lt, below_lt_unbiased, unbiased_lt_below, below_distance,
}
use r2vm.Softfp.Round.Encoded.{shifted, round_step, roomy, scaled_le}
use r2vm.Softfp.Round.Overflow.{raised}

raise_unless :
    (b : Bool) (flag value flags : ℕ)
    → (set_exception_flag_if (not b) flag >> return value) flags
      ≡ some (value, if b then flags else bit_or flags flag)
raise_unless true flag value flags = refl
raise_unless false flag value flags = refl

raise_if :
    (b : Bool) (flag value flags : ℕ)
    → (set_exception_flag_if b flag >> return value) flags
      ≡ some (value, if b then bit_or flags flag else flags)
raise_if true flag value flags = refl
raise_if false flag value flags = refl

module _ (f : Format) (rm : RoundingMode) where
  -- The flags of a result `m` that is `n / d` rounded: underflow is left out where the result is exact, or
  -- where rounding to a normal significand would have given the smallest normal number.
  unfoldable pub underflowed : (negative : Bool) (s d flags : ℕ) → ℕ
  unfolding rounded raised
  underflowed negative s d flags =
      if rounded rm negative s d == 2 ^ f.significand_width
      then if rounded rm negative s 4 == 2 ^ (f.significand_width + 1)
        then raised flags s d
        else bit_or (raised flags s d) underflow_flag
      else if s % d == 0
      then flags
      else bit_or (raised flags s d) underflow_flag

  module _ (v : IsFormat f) where
    -- An exponent below that of the smallest normal number.
    finish_below :
        (negative inexact : Bool) (e s r flags : ℕ)
        → lt_i e (minimum_exponent f) ≡ true
        → round_finish f rm negative inexact e s r flags
          ≡ round_subnormal f rm negative inexact s r flags
    unfolding round_finish
    finish_below negative inexact e s r flags p =
        ap
          (λ b.
            (if b
                then round_subnormal f rm negative inexact s r
                else if lt_i (maximum_exponent f) e
                then round_overflow f rm negative
                else return (packed f rm negative (e +i exponent_bias f) r))
              flags)
          p

    carry_below :
        (negative inexact : Bool) (e s r flags : ℕ)
        → lt_i e (minimum_exponent f) ≡ true
        → r ≤ 2 ^ f.significand_width
        → round_carry f rm negative inexact e s r flags
          ≡ round_subnormal f rm negative inexact s r
              (if inexact then bit_or flags inexact_flag else flags)
    unfolding round_carry
    carry_below negative false e s r flags p q = finish_below negative false e s r flags p
    carry_below negative true e s r flags p q =
        ap
          (λ b.
            (if b
                then round_finish f rm negative true (e +i 1) s (r / 2)
                else round_finish f rm negative true e s r)
              (bit_or flags inexact_flag))
          uncarried
        ∙ finish_below negative true e s r (bit_or flags inexact_flag) p
      where
        uncarried : (r == 2 ^ (f.significand_width + 1)) ≡ false
        uncarried = ground (arith, pow_add f.significand_width 1, pow_pos f.significand_width)

    subnormal_lem :
        (negative inexact : Bool) (s r flags : ℕ)
        → s < 2 ^ (f.significand_width + 3)
        → r ≤ 2 ^ f.significand_width
        → round_subnormal f rm negative inexact s r flags
          ≡ some (
            encoded f negative r,
            if r == 2 ^ f.significand_width
                then if rounded rm negative s 4 == 2 ^ (f.significand_width + 1)
                  then flags
                  else bit_or flags underflow_flag
                else if inexact
                then bit_or flags underflow_flag
                else flags,
          )
    unfolding round_subnormal
    subnormal_lem negative inexact s r flags k q =
        elim (Bool-cases (r == 2 ^ f.significand_width)) [
          | inl full ↦
              branch true full
              ∙ ap
                  (λ t.
                    (set_exception_flag_if (not (t == 2 ^ (f.significand_width + 1))) underflow_flag
                        >> return (packed f rm negative 1 0))
                      flags)
                  ((round_significand_lem f rm negative s (omega (arith, roomy f rm v s k))).0)
              ∙ raise_unless (rounded rm negative s 4 == 2 ^ (f.significand_width + 1))
                  underflow_flag (packed f rm negative 1 0) flags
              ∙ ap (λ w. some (w, flags_at))
                  (packed_lem f rm v negative 1 0
                      (omega (arith, pow_le 3 f.exponent_width v.exponent_low))
                    ∙ ap (encoded f negative) (smallest full))
              ∙ ap
                  (λ b. some (
                    encoded f negative r,
                    if b then flags_at else if inexact then bit_or flags underflow_flag else flags,
                  ))
                  (sym full)
          | inr short ↦
              branch false short
              ∙ raise_if inexact underflow_flag (packed f rm negative 0 r) flags
              ∙ ap (λ w. some (w, if inexact then bit_or flags underflow_flag else flags))
                  (packed_lem f rm v negative 0 r (pow_pos f.exponent_width)
                    ∙ ap (encoded f negative) (fraction short))
              ∙ ap
                  (λ b. some (
                    encoded f negative r,
                    if b then flags_at else if inexact then bit_or flags underflow_flag else flags,
                  ))
                  (sym short)
        ]
      where
        flags_at : ℕ
        flags_at =
            if rounded rm negative s 4 == 2 ^ (f.significand_width + 1)
            then flags
            else bit_or flags underflow_flag

        branch :
            (b : Bool)
            → (r == 2 ^ f.significand_width) ≡ b
            → round_subnormal f rm negative inexact s r flags
              ≡ (if b
                    then (set_exception_flag_if
                          (not (
                            (round_significand f rm negative s).1 == 2 ^ (f.significand_width + 1)))
                          underflow_flag
                        >> return (packed f rm negative 1 0))
                    else (set_exception_flag_if inexact underflow_flag
                        >> return (packed f rm negative 0 r)))
                  flags
        branch b p =
            ap
              (λ c.
                (if c
                    then (set_exception_flag_if
                          (not (
                            (round_significand f rm negative s).1 == 2 ^ (f.significand_width + 1)))
                          underflow_flag
                        >> return (packed f rm negative 1 0))
                    else (set_exception_flag_if inexact underflow_flag
                        >> return (packed f rm negative 0 r)))
                  flags)
              p

        smallest :
            (r == 2 ^ f.significand_width) ≡ true
            → 1 * 2 ^ f.significand_width + 0 % 2 ^ f.significand_width ≡ r
        smallest full = ground (arith, mod-eq_of_lt (pow_pos f.significand_width))

        strict : (r == 2 ^ f.significand_width) ≡ false → r < 2 ^ f.significand_width
        strict short = ground arith

        fraction :
            (r == 2 ^ f.significand_width) ≡ false
            → 0 * 2 ^ f.significand_width + r % 2 ^ f.significand_width ≡ r
        fraction short = omega (arith, mod-eq_of_lt (strict short))

    -- A significand in [1, 2) with an exponent `d` below that of the smallest normal number: the result is
    -- the exact value in units of the last place of a subnormal number, rounded once, and the flags tell
    -- inexactness and underflow.
    pub round-encoded :
        (negative : Bool) (d s flags : ℕ)
        → 0 < d
        → d < 2 ^ 30
        → s < 2 ^ (f.significand_width + 3)
        → round f rm negative (unbiased f v 1 -i d) s flags
          ≡ some (
            encoded f negative (rounded rm negative s (2 ^ d * 4)),
            underflowed negative s (2 ^ d * 4) flags,
          )
    unfolding underflowed raised
    round-encoded negative d s flags h p k =
        round_step f rm negative (unbiased f v 1 -i d) s (right_shift f.holder s d) flags
          (unbiased_lt_below f v d (2 ^ f.exponent_width - 1 - 1) h p
            (omega (arith, pow_le 3 f.exponent_width v.exponent_low))
            (omega (arith, two_biases f v, bias-lt f v)))
          (shifted f rm (unbiased f v 1 -i d) s below
            ∙ ap (right_shift f.holder s) (below_distance f v d p))
          _ _ parts
        ∙ carry_below negative (not (s % (2 ^ d * 4) == 0)) (unbiased f v 1 -i d) s
            (rounded rm negative s (2 ^ d * 4)) flags below small
        ∙ subnormal_lem negative _ s (rounded rm negative s (2 ^ d * 4)) _ k small
        ∙ ap (λ w. some (encoded f negative (rounded rm negative s (2 ^ d * 4)), w)) (ground arith)
      where
        below : lt_i (unbiased f v 1 -i d) (minimum_exponent f) ≡ true
        below = below_lt_unbiased f v d 1 h p (omega arith) (omega arith)

        scaled : s < 2 ^ f.significand_width * (2 ^ d * 4)
        scaled = omega (
          arith,
          pow_add f.significand_width 3,
          scaled_le 8 (2 ^ d * 4) (2 ^ f.significand_width) (omega (arith, pow_le 1 d h)),
        )

        small : rounded rm negative s (2 ^ d * 4) ≤ 2 ^ f.significand_width
        small = omega (
          arith,
          rounded-bounds rm negative s (2 ^ d * 4) (omega (arith, pow_pos d)),
          (div-lt_iff_lt-mul {k = 2 ^ d * 4} {x = s} {y = 2 ^ f.significand_width}
                (omega (arith, pow_pos d))).1
              (scaled),
        )

        parts :
            ((round_significand f rm negative (right_shift f.holder s d)).1
              ≡ rounded rm negative s (2 ^ d * 4))
            × ((round_significand f rm negative (right_shift f.holder s d)).0
                ≡ not (s % (2 ^ d * 4) == 0))
        parts =
            round_significand-right_shift f rm negative f.holder s d
              (omega (arith, roomy f rm v s k))
              (ground (
                arith,
                right_shift_lem f.holder s d (omega (arith, roomy f rm v s k)),
                div-le_self s (2 ^ d),
                roomy f rm v s k,
              ))
