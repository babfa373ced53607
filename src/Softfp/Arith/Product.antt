-- ===== src/Softfp/Arith/Product.antt =====
-- The product that `multiply` of `lib/softfp/src/fp.rs` rounds.
use Prim.Native.Nat.{◌≤◌}
use native.Mathlib.Nat.{mod-eq_of_lt}
use r2vm.Base.{
  ℕ, suc, ◌+◌, ◌-◌, ◌*◌, ◌/◌, ◌%◌, ◌^◌, ◌<◌, ◌≡◌, refl, ap, ◌∙◌, Bool, Bool-cases, inl, inr, true,
  false, if◌then◌else◌, Option, arith, pow_pos, pow_le, pow_add,
}
use r2vm.Softfp.Format.{
  Format, RoundingMode, Calc, carry_on, return, ◌>>=◌, ◌>>◌, ◌+i◌, ◌-i◌, set_exception_flag,
  invalid_operation_flag,
}
use r2vm.Softfp.Fields.{
  xor, sign, set_sign, is_nan, is_zero, is_infinite, quiet_nan, get_normalized_significand,
  exponent_bias,
}
use r2vm.Softfp.Fields.Layout.{sign-encoded}
use r2vm.Softfp.Fields.Normal.{
  normal, IsNormal, magnitude-lt, is_nan-normal, is_infinite-normal, is_zero-normal,
  get_normalized_significand-normal,
}
use r2vm.Softfp.Round.{normalize_and_round, propagate_nan}
use r2vm.Softfp.Round.Sticky.{rounded}
use r2vm.Softfp.Round.Packed.{IsFormat, scaled_lt}
use r2vm.Softfp.Round.Exponents.{unbiased, two_biases, bias-lt}
use r2vm.Softfp.Round.Encoded.{scaled_le}
use r2vm.Softfp.Round.Overflow.{raised, finished}
use r2vm.Softfp.Round.Normalize.{pow-between, normalize_and_round-finished}
use r2vm.Softfp.Compare.{is_lt, total_order_magnitude}
use r2vm.Softfp.Arith.{product, multiply, multiply_ordered}

four_cancel : (x : ℕ) → x * 4 / 2 ^ 2 ≡ x
four_cancel x = omega arith

product_comm : (x y : ℕ) → x * (y * 4) ≡ y * (x * 4)
product_comm x y = grind arith

product_of : {a b c d : ℕ} → a ≡ c → b ≡ d → a * b ≡ c * d
product_of {b = b} {c = c} p q = ap (λ (t : ℕ). t * b) p ∙ ap (λ (t : ℕ). c * t) q

xor_comm : (a b : Bool) → xor a b ≡ xor b a
xor_comm true true = refl
xor_comm true false = refl
xor_comm false true = refl
xor_comm false false = refl

module _ (f : Format) (v : IsFormat f) (rm : RoundingMode) where
  -- The significand of the product of two normal numbers, with the two bits for rounding of one.
  abbrev pub exact_product : (ta tb : ℕ) → ℕ
  exact_product ta tb = (2 ^ f.significand_width + ta) * ((2 ^ f.significand_width + tb) * 4)

  product_lem :
      (ta tb : ℕ)
      → ta < 2 ^ f.significand_width
      → tb < 2 ^ f.significand_width
      → (product f rm ((2 ^ f.significand_width + ta) * 4) ((2 ^ f.significand_width + tb) * 4)
          ≡ exact_product ta tb)
        × (exact_product ta tb < 2 ^ f.double_holder)
  product_lem ta tb p q = (
    ap (λ (t : ℕ). t * ((2 ^ f.significand_width + tb) * 4) % 2 ^ f.double_holder)
          (four_cancel (2 ^ f.significand_width + ta))
        ∙ mod-eq_of_lt small,
    small,
  )
    where
      widths : (2 ^ f.significand_width * 2) * (2 ^ f.significand_width * 8) ≤ 2 ^ f.double_holder
      widths = omega (
        arith,
        pow_le (f.significand_width + 1 + (f.significand_width + 3)) f.double_holder
            (omega (arith, v.double_width)),
        pow_add (f.significand_width + 1) (f.significand_width + 3),
        product_of (pow_add f.significand_width 1) (pow_add f.significand_width 3),
      )

      small : exact_product ta tb < 2 ^ f.double_holder
      small = omega (
        arith,
        widths,
        scaled_lt (2 ^ f.significand_width + ta) (2 ^ f.significand_width * 2)
            ((2 ^ f.significand_width + tb) * 4) (omega (arith, p))
            (omega (arith, pow_pos f.significand_width)),
        scaled_le ((2 ^ f.significand_width + tb) * 4) (2 ^ f.significand_width * 8)
            (2 ^ f.significand_width * 2) (omega (arith, q)),
      )

  ordered_lem :
      (na nb : Bool) (ea ta eb tb j b flags : ℕ)
      → IsNormal f v ea ta
      → IsNormal f v eb tb
      → 0 < j
      → 2 ^ (f.significand_width + 2 + j) ≤ exact_product ta tb
      → exact_product ta tb < 2 ^ suc (f.significand_width + 2 + j)
      → b + exponent_bias f + f.significand_width ≡ ea + eb + j
      → 1 ≤ b
      → multiply_ordered f rm (normal f v na ea ta) (normal f v nb eb tb) flags
        ≡ finished f rm
            (xor na nb)
            ((b - 1) * 2 ^ f.significand_width
              + rounded rm (xor na nb) (exact_product ta tb) (2 ^ j * 4))
            (raised flags (exact_product ta tb) (2 ^ j * 4))
  unfolding multiply_ordered
  ordered_lem na nb ea ta eb tb j b flags x y h q r e l =
      ap (λ c. branches c nan infinite zero) (sign-pair)
      ∙ ap (λ c. branches (xor na nb) c infinite zero) (is_nan-normal f v ea ta x na)
      ∙ ap (λ c. branches (xor na nb) false c zero) (is_infinite-normal f v ea ta x na)
      ∙ ap (λ c. branches (xor na nb) false false c) (is_zero-normal f v eb tb y nb)
      ∙ ap (λ o. carry_on o (tail (xor na nb)))
          (get_normalized_significand-normal f v ea ta x na flags)
      ∙ ap
          (λ o.
            carry_on o
              (λ z. final (xor na nb) (unbiased f v ea, (2 ^ f.significand_width + ta) * 4) z))
          (get_normalized_significand-normal f v eb tb y nb flags)
      ∙ ap
          (λ n.
            normalize_and_round f rm f.double_holder (xor na nb)
              ((unbiased f v ea +i unbiased f v eb) -i f.significand_width) n flags)
          ((product_lem ta tb x.fraction y.fraction).0)
      ∙ normalize_and_round-finished f v rm (xor na nb) f.double_holder
          ((unbiased f v ea +i unbiased f v eb) -i f.significand_width) (exact_product ta tb) j b
          flags v.double_small ((product_lem ta tb x.fraction y.fraction).1) h q r exponent l top
    where
      left_operand : ℕ
      left_operand = normal f v na ea ta

      right_operand : ℕ
      right_operand = normal f v nb eb tb

      nan : Bool
      nan = is_nan f left_operand

      infinite : Bool
      infinite = is_infinite f left_operand

      zero : Bool
      zero = is_zero f right_operand

      final : Bool → ℕ × ℕ → ℕ × ℕ → Calc ℕ
      final negative s t =
          normalize_and_round f rm f.double_holder negative ((s.0 +i t.0) -i f.significand_width)
            (product f rm (s.1) (t.1))

      tail : Bool → ℕ × ℕ → Calc ℕ
      tail negative s = get_normalized_significand f right_operand >>= final negative s

      branches : (negative nan infinite zero : Bool) → Option (ℕ × ℕ)
      branches negative nan infinite zero =
          (if nan
              then propagate_nan f rm left_operand right_operand
              else if infinite
              then (if zero
                  then set_exception_flag invalid_operation_flag >> return (quiet_nan f)
                  else return (set_sign f left_operand negative))
              else if zero
              then return (set_sign f right_operand negative)
              else (get_normalized_significand f left_operand >>= tail negative))
            flags

      sign-pair : xor (sign f left_operand) (sign f right_operand) ≡ xor na nb
      sign-pair =
          ap (λ c. xor c (sign f right_operand))
            (sign-encoded f v na (ea * 2 ^ f.significand_width + ta) (magnitude-lt f v ea ta x))
          ∙ ap (xor na)
              (sign-encoded f v nb (eb * 2 ^ f.significand_width + tb) (magnitude-lt f v eb tb y))

      width : f.significand_width + 2 + j < f.double_holder
      width =
          pow-between (f.significand_width + 2 + j) f.double_holder (exact_product ta tb) q
            ((product_lem ta tb x.fraction y.fraction).1)

      top : b < 2 ^ 17
      top = omega (arith, e, bias-lt f v, two_biases f v, x.high, y.high, width, v.double_small)

      exponent : ((unbiased f v ea +i unbiased f v eb) -i f.significand_width) +i j ≡ unbiased f v b
      exponent =
          omega (arith, e, bias-lt f v, two_biases f v, x.high, y.high, width, v.double_small, top)

  -- The product of two normal numbers, where it is not below the normal numbers: the encoding of the exact
  -- product rounded once, in every mode, or the overflow result where that is too large, with the flags of
  -- the exact product. `j` is the number of places that the product of the significands is too wide, and `b` the
  -- biased exponent that it has then.
  pub multiply-finished :
      (na nb : Bool) (ea ta eb tb j b flags : ℕ)
      → IsNormal f v ea ta
      → IsNormal f v eb tb
      → 0 < j
      → 2 ^ (f.significand_width + 2 + j) ≤ exact_product ta tb
      → exact_product ta tb < 2 ^ suc (f.significand_width + 2 + j)
      → b + exponent_bias f + f.significand_width ≡ ea + eb + j
      → 1 ≤ b
      → multiply f rm (normal f v na ea ta) (normal f v nb eb tb) flags
        ≡ finished f rm
            (xor na nb)
            ((b - 1) * 2 ^ f.significand_width
              + rounded rm (xor na nb) (exact_product ta tb) (2 ^ j * 4))
            (raised flags (exact_product ta tb) (2 ^ j * 4))
  unfolding multiply
  multiply-finished na nb ea ta eb tb j b flags x y h q r e l =
      elim (Bool-cases
        (is_lt (total_order_magnitude f (normal f v na ea ta) (normal f v nb eb tb)))) [
          | inl less ↦
              ap
                (λ c.
                  (if c
                      then multiply_ordered f rm (normal f v nb eb tb) (normal f v na ea ta)
                      else multiply_ordered f rm (normal f v na ea ta) (normal f v nb eb tb))
                    flags)
                less
              ∙ ordered_lem nb na eb tb ea ta j b flags y x h (omega (arith, q, swapped))
                  (omega (arith, r, swapped)) (omega (arith, e)) l
              ∙ ap
                  (λ c.
                    finished f rm c
                      ((b - 1) * 2 ^ f.significand_width
                        + rounded rm c (exact_product tb ta) (2 ^ j * 4))
                      (raised flags (exact_product tb ta) (2 ^ j * 4)))
                  (xor_comm nb na)
              ∙ ap
                  (λ n.
                    finished f rm (xor na nb)
                      ((b - 1) * 2 ^ f.significand_width + rounded rm (xor na nb) n (2 ^ j * 4))
                      (raised flags n (2 ^ j * 4)))
                  swapped
          | inr other ↦
              ap
                (λ c.
                  (if c
                      then multiply_ordered f rm (normal f v nb eb tb) (normal f v na ea ta)
                      else multiply_ordered f rm (normal f v na ea ta) (normal f v nb eb tb))
                    flags)
                other
              ∙ ordered_lem na nb ea ta eb tb j b flags x y h q r e l
        ]
    where
      swapped : exact_product tb ta ≡ exact_product ta tb
      swapped = product_comm (2 ^ f.significand_width + tb) (2 ^ f.significand_width + ta)
