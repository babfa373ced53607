-- ===== src/Softfp/Round/Overflow.antt =====
-- Results of `round` of `lib/softfp/src/fp.rs` that may be too large for the format.
use Prim.Native.Nat.{◌≤◌}
use native.Mathlib.Nat.{mod-eq-sub-mod, mod-eq_of_lt}
use r2vm.Base.{
  ltb-false, Bool-cases, inl, inr, ℕ, ◌+◌, ◌-◌, ◌*◌, ◌%◌, ◌^◌, ◌<◌, ◌≡◌, refl, ap, sym, ◌∙◌, bit_or,
  bit_or_step, ◌==◌, ltb, Bool, true, false, if◌then◌else◌, Option, some, arith, pow_le, pow_pos,
  pow_add, wrapping_sub,
}
use r2vm.Softfp.Format.{Format, RoundingMode, inexact_flag}
use r2vm.Softfp.Fields.{infinity}
use r2vm.Softfp.Round.{rounds_inwards, round_overflow}
use r2vm.Softfp.Round.Sticky.{bit_or_one}
use r2vm.Softfp.Round.Packed.{
  IsFormat, encoded, mask_product, encoded_high, set_biased_exponent_lem, holder_powers,
}

-- The flags after a division that may leave a remainder.
unfoldable pub raised : (flags n d : ℕ) → ℕ
raised flags n d = if n % d == 0 then flags else bit_or flags inexact_flag

wrap_one : (x m : ℕ) → 1 ≤ x → x < m → (x + m - 1) % m ≡ x - 1
wrap_one x m p q =
    mod-eq-sub-mod (omega arith)
    ∙ ap (λ (t : ℕ). t % m) (difference x m p)
    ∙ mod-eq_of_lt (omega arith)
  where
    difference : (x m : ℕ) → 1 ≤ x → x + m - 1 - m ≡ x - 1
    difference x m p = omega arith

-- The inexact flag is one of the flags of an overflow.
inexact_absorbed : (flags : ℕ) → bit_or (bit_or flags 1) 5 ≡ bit_or flags 5
inexact_absorbed flags =
    ground (arith, bit_or_one flags, bit_or_step flags 5, bit_or_step (bit_or flags 1) 5)

module _ (f : Format) (rm : RoundingMode) where
  -- The magnitude of the infinity.
  abbrev pub limit : ℕ
  limit = (2 ^ f.exponent_width - 1) * 2 ^ f.significand_width

  -- A magnitude that may be too large: then the largest number or the infinity.
  unfoldable pub finished : (negative : Bool) (magnitude flags : ℕ) → Option (ℕ × ℕ)
  unfolding encoded
  finished negative magnitude flags =
      if ltb magnitude limit
      then some (encoded f negative magnitude, flags)
      else some (
        encoded f negative (if rounds_inwards rm negative then limit - 1 else limit),
        bit_or flags 5,
      )

  pub overflow-flags :
      (negative : Bool) (magnitude flags : ℕ) (exact : Bool)
      → limit ≤ magnitude
      → finished negative magnitude flags
        ≡ finished negative magnitude (if exact then flags else bit_or flags inexact_flag)
  unfolding finished
  overflow-flags negative magnitude flags true p = refl
  overflow-flags negative magnitude flags false p = rw (ltb-false magnitude limit p) (
      ap
        (λ w.
          some (encoded f negative (if rounds_inwards rm negative then limit - 1 else limit), w))
        (sym (inexact_absorbed flags)))

  module _ (v : IsFormat f) where
    infinity_lem : (negative : Bool) → infinity f negative ≡ encoded f negative limit
    unfolding infinity
    infinity_lem negative =
        set_biased_exponent_lem f rm v negative (2 ^ f.exponent_width - 1)
          (omega (arith, pow_pos f.exponent_width))
        ∙ encoded_high f rm v negative (2 ^ f.exponent_width - 1)

    limit_bounds :
        (1 ≤ limit) × (limit + 2 ^ (f.exponent_width + f.significand_width) < 2 ^ f.holder)
    limit_bounds = (
      grind (arith, pow_pos f.significand_width, pow_le 3 f.exponent_width v.exponent_low),
      omega (
        arith,
        holder_powers f rm v,
        mask_product f rm v,
        pow_add f.exponent_width f.significand_width,
        pow_pos f.significand_width,
      ),
    )

    largest :
        (negative : Bool)
        → wrapping_sub f.holder (encoded f negative limit) 1 ≡ encoded f negative (limit - 1)
    unfolding encoded
    largest true =
        wrap_one (encoded f true limit) (2 ^ f.holder) (omega (arith, limit_bounds))
          (omega (arith, limit_bounds))
        ∙ omega (arith, limit_bounds)
    largest false =
        wrap_one (encoded f false limit) (2 ^ f.holder) (omega (arith, limit_bounds))
          (omega (arith, limit_bounds))
        ∙ omega (arith, limit_bounds)

    pub overflow_lem :
        (negative : Bool) (magnitude flags : ℕ)
        → limit ≤ magnitude
        → round_overflow f rm negative flags ≡ finished negative magnitude flags
    unfolding round_overflow finished encoded
    overflow_lem negative magnitude flags p = elim (Bool-cases (rounds_inwards rm negative)) [
      | inl inwards ↦
          rw (inwards, infinity_lem negative, largest negative, ltb-false magnitude limit p) refl
      | inr outwards ↦ rw (outwards, infinity_lem negative, ltb-false magnitude limit p) refl
    ]
