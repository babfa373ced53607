-- ===== src/Softfp/Fields/Layout.antt =====
-- The fields of a number of `lib/softfp/src/fp.rs` that is given by its sign and its magnitude.
use native.Mathlib.Nat.{
  mod-eq_of_lt, div-lt_iff_lt-mul, mul-add-div_right, div-eq_of_lt, add-mul-mod_self_right,
}
use r2vm.Base.{
  ℕ, ◌+◌, ◌-◌, ◌*◌, ◌/◌, ◌%◌, ◌^◌, ◌<◌, ◌≡◌, ap, sym, ◌∙◌, bit_and, bit_or, bit_and-mask,
  bit_and-flag, bit_or-absorb, bit_or-fields_right, not, ◌==◌, u32, Bool, true, false, arith,
  pow_pos, pow_le, pow_add,
}
use r2vm.Softfp.Format.{Format, RoundingMode}
use r2vm.Softfp.Fields.{sign, set_sign, biased_exponent, trailing_significand}
use r2vm.Softfp.Arith.Divide.Loop.{quotient_parts}
use r2vm.Softfp.Round.Packed.{IsFormat, encoded, holder_powers}

module _ (f : Format) (v : IsFormat f) where
  abbrev pub top : ℕ
  top = 2 ^ (f.exponent_width + f.significand_width)

  pub top_powers : (top ≡ 2 ^ f.exponent_width * 2 ^ f.significand_width) × (2 ^ f.holder ≡ 2 * top)
  top_powers = (
    pow_add f.exponent_width f.significand_width,
    omega (
      arith,
      holder_powers f RoundingMode.ties_to_even v,
      pow_add f.exponent_width f.significand_width,
    ),
  )

  high_part :
      (m : ℕ)
      → m < top
      → ((top + m) / top ≡ 1) × ((top + m) % top ≡ m) × (m / top ≡ 0) × (m % top ≡ m)
  high_part m p = (
    ap (λ (t : ℕ). t / top) one_top ∙ (quotient_parts 1 top m p).0,
    ap (λ (t : ℕ). t % top) one_top ∙ (quotient_parts 1 top m p).1,
    div-eq_of_lt p,
    mod-eq_of_lt p,
  )
    where
      one_top : top + m ≡ 1 * top + m
      one_top = omega arith

  -- The mask that keeps all but the sign.
  low_mask : 2 ^ f.holder - 1 - top ≡ top - 1
  low_mask = omega (arith, top_powers)

  pub field-lt : (m : ℕ) → m < top → m / 2 ^ f.significand_width < 2 ^ f.exponent_width
  field-lt m p =
      (div-lt_iff_lt-mul {k = 2 ^ f.significand_width} {x = m} {y = 2 ^ f.exponent_width}
          (pow_pos f.significand_width)).1
        (omega (arith, top_powers))

  -- The exponent field of a number with its sign, and of one without.
  exponent_parts :
      (m : ℕ)
      → m < top
      → ((top + m) / 2 ^ f.significand_width % 2 ^ f.exponent_width ≡ m / 2 ^ f.significand_width)
        × (m / 2 ^ f.significand_width % 2 ^ f.exponent_width ≡ m / 2 ^ f.significand_width)
        × (m / 2 ^ f.significand_width < 2 ^ 16)
        × ((top + m) % 2 ^ f.significand_width ≡ m % 2 ^ f.significand_width)
  exponent_parts m p = (
    ap (λ (t : ℕ). t % 2 ^ f.exponent_width) quotient
        ∙ (quotient_parts 1 (2 ^ f.exponent_width) (m / 2 ^ f.significand_width) field).1,
    mod-eq_of_lt field,
    omega (arith, field, pow_le f.exponent_width 16 v.exponent_high),
    ap (λ (t : ℕ). t % 2 ^ f.significand_width) flipped
        ∙ add-mul-mod_self_right m (2 ^ f.exponent_width) (2 ^ f.significand_width),
  )
    where
      field : m / 2 ^ f.significand_width < 2 ^ f.exponent_width
      field = field-lt m p

      flipped : top + m ≡ m + 2 ^ f.exponent_width * 2 ^ f.significand_width
      flipped = omega (arith, top_powers)

      quotient :
          (top + m) / 2 ^ f.significand_width
          ≡ 1 * 2 ^ f.exponent_width + m / 2 ^ f.significand_width
      quotient =
          ap (λ (t : ℕ). (t + m) / 2 ^ f.significand_width) (top_powers.0)
          ∙ mul-add-div_right {m = 2 ^ f.significand_width} (pow_pos f.significand_width)
              (2 ^ f.exponent_width) m
          ∙ omega arith

  pub sign-encoded : (negative : Bool) (m : ℕ) → m < top → sign f (encoded f negative m) ≡ negative
  unfolding sign encoded
  sign-encoded true m p = ap (λ (t : ℕ). not (t == 0)) ((high_part m p).0)
  sign-encoded false m p = ap (λ (t : ℕ). not (t == 0)) ((high_part m p).2)

  pub set_sign-encoded :
      (negative b : Bool) (m : ℕ) → m < top → set_sign f (encoded f negative m) b ≡ encoded f b m
  unfolding set_sign encoded
  set_sign-encoded true true m p = bit_or-absorb (top + m) top (
      bit_and-flag (f.exponent_width + f.significand_width) (top + m)
      ∙ ap (λ (t : ℕ). t % 2 * top) ((high_part m p).0)
      ∙ omega arith)
  set_sign-encoded false true m p =
      ap (bit_or m) one_top
      ∙ bit_or-fields_right (f.exponent_width + f.significand_width) 1 m p
      ∙ ap (λ (t : ℕ). t + m) (sym one_top)
    where
      one_top : top ≡ 1 * top
      one_top = omega arith
  set_sign-encoded true false m p =
      ap (bit_and (top + m)) low_mask
      ∙ bit_and-mask (f.exponent_width + f.significand_width) (top + m)
      ∙ (high_part m p).1
  set_sign-encoded false false m p =
      ap (bit_and m) low_mask
      ∙ bit_and-mask (f.exponent_width + f.significand_width) m
      ∙ (high_part m p).3

  pub trailing_significand-encoded :
      (negative : Bool) (m : ℕ)
      → m < top
      → trailing_significand f (encoded f negative m) ≡ m % 2 ^ f.significand_width
  unfolding trailing_significand encoded
  trailing_significand-encoded true m p =
      bit_and-mask f.significand_width (top + m) ∙ (exponent_parts m p).3
  trailing_significand-encoded false m p = bit_and-mask f.significand_width m

  pub biased_exponent-encoded :
      (negative : Bool) (m : ℕ)
      → m < top
      → biased_exponent f (encoded f negative m) ≡ m / 2 ^ f.significand_width
  unfolding biased_exponent encoded
  biased_exponent-encoded true m p =
      ap u32 (
        bit_and-mask f.exponent_width ((top + m) / 2 ^ f.significand_width)
        ∙ (exponent_parts m p).0)
      ∙ mod-eq_of_lt (omega (arith, exponent_parts m p))
  biased_exponent-encoded false m p =
      ap u32 (bit_and-mask f.exponent_width (m / 2 ^ f.significand_width) ∙ (exponent_parts m p).1)
      ∙ mod-eq_of_lt (omega (arith, exponent_parts m p))
