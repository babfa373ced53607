-- ===== src/Softfp/Arith/Divide/Normal.antt =====
-- `divide` of `lib/softfp/src/fp.rs` for normal numbers.
use Prim.Native.Nat.{◌≤◌}
use r2vm.Base.{
  ℕ, ◌+◌, ◌-◌, ◌*◌, ◌^◌, ◌<◌, ◌≡◌, ap, ◌∙◌, ltb, Bool, false, ◌||◌, Option, if◌then◌else◌, arith,
  pow_add,
}
use r2vm.Softfp.Format.{
  Format, RoundingMode, Calc, carry_on, ◌>>=◌, ◌>>◌, return, set_exception_flag,
  invalid_operation_flag, divide_by_zero_flag, ◌-i◌,
}
use r2vm.Softfp.Fields.{
  xor, sign, is_nan, is_infinite, is_zero, quiet_nan, infinity, signed_zero,
  get_normalized_significand, exponent_bias,
}
use r2vm.Softfp.Fields.Layout.{sign-encoded}
use r2vm.Softfp.Fields.Normal.{
  normal, IsNormal, magnitude-lt, is_nan-normal, is_infinite-normal, is_zero-normal,
  get_normalized_significand-normal,
}
use r2vm.Softfp.Round.{propagate_nan}
use r2vm.Softfp.Round.Sticky.{rounded}
use r2vm.Softfp.Round.Packed.{IsFormat}
use r2vm.Softfp.Round.Exponents.{unbiased, two_biases, bias-lt}
use r2vm.Softfp.Round.Overflow.{raised, finished}
use r2vm.Softfp.Arith.Divide.{divide, divide_finite}
use r2vm.Softfp.Arith.Divide.Quotient.{divide_finite-finished}

module _ (f : Format) where
  -- The significand of a normal number, with the two bits for rounding.
  abbrev pub significand : ℕ → ℕ
  significand t = (2 ^ f.significand_width + t) * 4

  pub significand-bounds :
      (t : ℕ)
      → t < 2 ^ f.significand_width
      → (2 ^ (f.significand_width + 2) ≤ significand t)
        × (significand t < 2 ^ (f.significand_width + 3))
  significand-bounds t p = (
    omega (arith, pow_add f.significand_width 2),
    omega (arith, p, pow_add f.significand_width 3),
  )

module _ (f : Format) (v : IsFormat f) (rm : RoundingMode) where
  -- With normal numbers, all the tests fail.
  divide-normal :
      (na nb : Bool) (ea ta eb tb flags : ℕ)
      → IsNormal f v ea ta
      → IsNormal f v eb tb
      → divide f rm (normal f v na ea ta) (normal f v nb eb tb) flags
        ≡ divide_finite f rm
            (xor na nb)
            (unbiased f v ea -i unbiased f v eb)
            (significand f ta)
            (significand f tb)
            flags
  unfolding divide
  divide-normal na nb ea ta eb tb flags x y =
      ap (λ c. branches c nan_a nan_b infinite_a infinite_b zero_a zero_b) signs
      ∙ ap (λ c. branches (xor na nb) c nan_b infinite_a infinite_b zero_a zero_b)
          (is_nan-normal f v ea ta x na)
      ∙ ap (λ c. branches (xor na nb) false c infinite_a infinite_b zero_a zero_b)
          (is_nan-normal f v eb tb y nb)
      ∙ ap (λ c. branches (xor na nb) false false c infinite_b zero_a zero_b)
          (is_infinite-normal f v ea ta x na)
      ∙ ap (λ c. branches (xor na nb) false false false c zero_a zero_b)
          (is_infinite-normal f v eb tb y nb)
      ∙ ap (λ c. branches (xor na nb) false false false false c zero_b)
          (is_zero-normal f v ea ta x na)
      ∙ ap (λ c. branches (xor na nb) false false false false false c)
          (is_zero-normal f v eb tb y nb)
      ∙ ap (λ o. carry_on o (tail (xor na nb)))
          (get_normalized_significand-normal f v ea ta x na flags)
      ∙ ap (λ o. carry_on o (finite (xor na nb) (unbiased f v ea, significand f ta)))
          (get_normalized_significand-normal f v eb tb y nb flags)
    where
      a : ℕ
      a = normal f v na ea ta

      b : ℕ
      b = normal f v nb eb tb

      nan_a : Bool
      nan_a = is_nan f a

      nan_b : Bool
      nan_b = is_nan f b

      infinite_a : Bool
      infinite_a = is_infinite f a

      infinite_b : Bool
      infinite_b = is_infinite f b

      zero_a : Bool
      zero_a = is_zero f a

      zero_b : Bool
      zero_b = is_zero f b

      finite : Bool → ℕ × ℕ → ℕ × ℕ → Calc ℕ
      finite negative s t = divide_finite f rm negative (s.0 -i t.0) (s.1) (t.1)

      tail : Bool → ℕ × ℕ → Calc ℕ
      tail negative s = get_normalized_significand f b >>= finite negative s

      branches : (negative nan_a nan_b infinite_a infinite_b zero_a zero_b : Bool) → Option (ℕ × ℕ)
      branches negative nan_a nan_b infinite_a infinite_b zero_a zero_b =
          (if nan_a || nan_b
              then propagate_nan f rm a b
              else if infinite_a
              then (if infinite_b then invalid else return (infinity f negative))
              else if infinite_b
              then return (signed_zero f negative)
              else if zero_a
              then (if zero_b then invalid else return (signed_zero f negative))
              else if zero_b
              then set_exception_flag divide_by_zero_flag >> return (infinity f negative)
              else (get_normalized_significand f a >>= tail negative))
            flags
        where
          invalid : Calc ℕ
          invalid = set_exception_flag invalid_operation_flag >> return (quiet_nan f)

      signs : xor (sign f a) (sign f b) ≡ xor na nb
      signs =
          ap (λ c. xor c (sign f b))
            (sign-encoded f v na (ea * 2 ^ f.significand_width + ta) (magnitude-lt f v ea ta x))
          ∙ ap (xor na)
              (sign-encoded f v nb (eb * 2 ^ f.significand_width + tb) (magnitude-lt f v eb tb y))

  -- The quotient of two normal numbers, in every mode, where it is not below the normal numbers: the
  -- encoding of the exact quotient rounded once, or the overflow result where that is too large, with the
  -- flags of the exact quotient. `e` is the biased exponent that the quotient of the exponents has, which is one more
  -- than that of the result if the first significand is the smaller one.
  pub divide-finished :
      (na nb : Bool) (ea ta eb tb e flags : ℕ)
      → IsNormal f v ea ta
      → IsNormal f v eb tb
      → e + eb ≡ ea + exponent_bias f
      → (if ltb (significand f ta) (significand f tb) then 2 else 1) ≤ e
      → divide f rm (normal f v na ea ta) (normal f v nb eb tb) flags ≡ (
          let n =
            (if ltb (significand f ta) (significand f tb)
              then significand f ta * 2
              else significand f ta)
            * 2 ^ (f.significand_width + 2) in
          finished f rm
            (xor na nb)
            (((if ltb (significand f ta) (significand f tb) then e - 1 else e) - 1)
                * 2 ^ f.significand_width
              + rounded rm (xor na nb) n (significand f tb * 4))
            (raised flags n (significand f tb * 4)))
  divide-finished na nb ea ta eb tb e flags x y h l =
      divide-normal na nb ea ta eb tb flags x y
      ∙ ap (λ t. divide_finite f rm (xor na nb) t (significand f ta) (significand f tb) flags)
          exponent
      ∙ divide_finite-finished f rm v (xor na nb) e (significand f ta) (significand f tb) flags l
          high ((significand-bounds f ta x.fraction).0) ((significand-bounds f ta x.fraction).1)
          ((significand-bounds f tb y.fraction).0) ((significand-bounds f tb y.fraction).1)
    where
      exponent : unbiased f v ea -i unbiased f v eb ≡ unbiased f v e
      exponent = omega (arith, h, bias-lt f v, two_biases f v, x.high, y.high)

      high : e < 2 ^ 17
      high = omega (arith, h, bias-lt f v, two_biases f v, x.high)
