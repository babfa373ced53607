-- ===== src/Softfp/Compare/Order.antt =====
-- The order that the comparisons of `lib/softfp/src/fp.rs` give.
use Prim.Native.Nat.{compare, Ordering, ◌≤◌}
use native.Mathlib.Nat.{div-add-mod', mod-lt, zero-div}
use r2vm.Base.{
  ltb-false, ℕ, ◌+◌, ◌-◌, ◌*◌, ◌/◌, ◌%◌, ◌^◌, ◌<◌, ◌≡◌, refl, ap, sym, ◌∙◌, ◌==◌, ltb, not, Bool,
  Bool-cases, inl, inr, true, false, ◌&&◌, some, arith, pow_pos,
}
use r2vm.Softfp.Format.{Format, RoundingMode}
use r2vm.Softfp.Fields.{is_nan, is_zero}
use r2vm.Softfp.Fields.Layout.{
  top, top_powers, field-lt, sign-encoded, set_sign-encoded, trailing_significand-encoded,
  biased_exponent-encoded,
}
use r2vm.Softfp.Round.Packed.{IsFormat, encoded, mask_product}
use r2vm.Softfp.Round.Encoded.{scaled_le}
use r2vm.Softfp.Round.Overflow.{limit}
use r2vm.Softfp.Compare.{reverse, total_order, total_order_magnitude, compare_quiet}

-- The place of a number on a line of whole numbers: both zeros stand at `origin`.
abbrev pub place : (origin : ℕ) → (negative : Bool) → (magnitude : ℕ) → ℕ
place origin true magnitude = origin - magnitude
place origin false magnitude = origin + magnitude

compare_reversed : (z a b : ℕ) → a ≤ z → b ≤ z → compare (z - a) (z - b) ≡ reverse (compare a b)
compare_reversed z a b p q = ground arith

compare_shifted : (z a b : ℕ) → compare (z + a) (z + b) ≡ compare a b
compare_shifted z a b = ground arith

module _ (f : Format) (v : IsFormat f) where
  pub is_nan-encoded :
      (negative : Bool) (m : ℕ)
      → m < top f v
      → is_nan f (encoded f negative m) ≡ ltb (limit f RoundingMode.ties_to_even) m
  unfolding is_nan
  is_nan-encoded negative m p =
      rw (biased_exponent-encoded f v negative m p, trailing_significand-encoded f v negative m p)
        (elim (Bool-cases (m / 2 ^ f.significand_width == 2 ^ f.exponent_width - 1)) [
          | inl last ↦ ground (arith, parts, last_field last)
          | inr other ↦ ground (arith, parts, lower_field other)
        ])
    where
      parts :
          (m / 2 ^ f.significand_width * 2 ^ f.significand_width + m % 2 ^ f.significand_width ≡ m)
          × (m % 2 ^ f.significand_width < 2 ^ f.significand_width)
      parts = (div-add-mod' m (2 ^ f.significand_width), mod-lt m (pow_pos f.significand_width))

      last_field :
          (m / 2 ^ f.significand_width == 2 ^ f.exponent_width - 1) ≡ true
          → m / 2 ^ f.significand_width * 2 ^ f.significand_width
            ≡ (2 ^ f.exponent_width - 1) * 2 ^ f.significand_width
      last_field e = ap (λ (t : ℕ). t * 2 ^ f.significand_width) (ground arith)

      lower_field :
          (m / 2 ^ f.significand_width == 2 ^ f.exponent_width - 1) ≡ false
          → (m / 2 ^ f.significand_width + 1) * 2 ^ f.significand_width
            ≤ (2 ^ f.exponent_width - 1) * 2 ^ f.significand_width
      lower_field e =
          scaled_le (m / 2 ^ f.significand_width + 1) (2 ^ f.exponent_width - 1)
            (2 ^ f.significand_width) (lower e)
        where
          lower :
              (m / 2 ^ f.significand_width == 2 ^ f.exponent_width - 1) ≡ false
              → m / 2 ^ f.significand_width + 1 ≤ 2 ^ f.exponent_width - 1
          lower e = ground (arith, field-lt f v m p)

  pub is_zero-encoded :
      (negative : Bool) (m : ℕ) → m < top f v → is_zero f (encoded f negative m) ≡ (m == 0)
  unfolding is_zero
  is_zero-encoded negative m p =
      rw (biased_exponent-encoded f v negative m p, trailing_significand-encoded f v negative m p)
        (elim (Bool-cases (m / 2 ^ f.significand_width == 0)) [
          | inl empty ↦ ground (arith, parts, first_field empty)
          | inr higher ↦ ground (arith, parts, zero-div (2 ^ f.significand_width))
        ])
    where
      parts :
          (m / 2 ^ f.significand_width * 2 ^ f.significand_width + m % 2 ^ f.significand_width ≡ m)
      parts = div-add-mod' m (2 ^ f.significand_width)

      first_field :
          (m / 2 ^ f.significand_width == 0) ≡ true
          → m / 2 ^ f.significand_width * 2 ^ f.significand_width ≡ 0
      first_field e =
          let empty : m / 2 ^ f.significand_width ≡ 0 = ground arith in
          ap (λ (t : ℕ). t * 2 ^ f.significand_width) empty ∙ omega arith

  unsigned : (m : ℕ) → encoded f false m ≡ m
  unfolding encoded
  unsigned m = refl

  total_order-encoded :
      (na nb : Bool) (a b : ℕ)
      → a < top f v
      → b < top f v
      → not ((a == 0) && (b == 0)) ≡ true
      → total_order f (encoded f na a) (encoded f nb b)
        ≡ compare (place (top f v) na a) (place (top f v) nb b)
  unfolding total_order total_order_magnitude
  total_order-encoded true true a b p q z =
      rw
        (
          sign-encoded f v true a p,
          sign-encoded f v true b q,
          set_sign-encoded f v true false a p,
          set_sign-encoded f v true false b q,
          unsigned a,
          unsigned b,
        )
        (sym (compare_reversed (top f v) a b (omega (arith, p)) (omega (arith, q))))
  total_order-encoded true false a b p q z =
      rw (sign-encoded f v true a p, sign-encoded f v false b q) (ground (arith, p, q))
  total_order-encoded false true a b p q z =
      rw (sign-encoded f v false a p, sign-encoded f v true b q) (ground (arith, p, q))
  total_order-encoded false false a b p q z =
      rw
        (
          sign-encoded f v false a p,
          sign-encoded f v false b q,
          set_sign-encoded f v false false a p,
          set_sign-encoded f v false false b q,
          unsigned a,
          unsigned b,
        )
        (sym (compare_shifted (top f v) a b))

  -- Two numbers that are not NaN, infinities included, compare as their places do: by their magnitude
  -- above zero, by the reverse of it below, and with the two zeros equal.
  pub compare_quiet-place :
      (na nb : Bool) (a b : ℕ)
      → a ≤ limit f RoundingMode.ties_to_even
      → b ≤ limit f RoundingMode.ties_to_even
      → compare_quiet f (encoded f na a) (encoded f nb b)
        ≡ some (compare (place (top f v) na a) (place (top f v) nb b))
  unfolding compare_quiet
  compare_quiet-place na nb a b p q =
      rw
        (
          is_nan-encoded na a low_a,
          is_nan-encoded nb b low_b,
          ltb-false (limit f RoundingMode.ties_to_even) a p,
          ltb-false (limit f RoundingMode.ties_to_even) b q,
          is_zero-encoded na a low_a,
          is_zero-encoded nb b low_b,
        )
        (elim (Bool-cases ((a == 0) && (b == 0))) [
          | inl zeros ↦ rw zeros (ap some (both_zero na nb (ground arith) (ground arith)))
          | inr other ↦
              rw other (ap some (total_order-encoded na nb a b low_a low_b (ap not other)))
        ])
    where
      low_a : a < top f v
      low_a = omega (
        arith,
        p,
        top_powers f v,
        mask_product f RoundingMode.ties_to_even v,
        pow_pos f.significand_width,
      )

      both_zero :
          (na nb : Bool)
          → a ≡ 0
          → b ≡ 0
          → Ordering.eq ≡ compare (place (top f v) na a) (place (top f v) nb b)
      both_zero true true s t = ground arith
      both_zero true false s t = ground arith
      both_zero false true s t = ground arith
      both_zero false false s t = ground arith

      low_b : b < top f v
      low_b = omega (
        arith,
        q,
        top_powers f v,
        mask_product f RoundingMode.ties_to_even v,
        pow_pos f.significand_width,
      )
