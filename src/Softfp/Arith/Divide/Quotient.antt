-- ===== src/Softfp/Arith/Divide/Quotient.antt =====
-- The quotient that `divide` of `lib/softfp/src/fp.rs` rounds.
use Prim.Native.Nat.{◌≤◌}
use native.Mathlib.Nat.{mod-eq_of_lt, div-lt_iff_lt-mul}
use r2vm.Base.{
  bit_or, ℕ, ◌+◌, ◌-◌, ◌*◌, ◌/◌, ◌%◌, ◌^◌, ◌<◌, ◌≡◌, refl, ap, ◌∙◌, ◌==◌, ltb, sll, Bool,
  Bool-cases, inl, inr, true, false, if◌then◌else◌, arith, pow_pos,
}
use r2vm.Softfp.Format.{Format, RoundingMode, ◌-i◌, inexact_flag, lift, ◌>>=◌}
use r2vm.Softfp.Round.{round}
use r2vm.Softfp.Round.Sticky.{rounded, rounded_sticky, sticky_exact}
use r2vm.Softfp.Round.Packed.{IsFormat, scaled_lt}
use r2vm.Softfp.Round.Exponents.{unbiased, two_biases, bias-lt}
use r2vm.Softfp.Round.Encoded.{scaled_le, round-finished}
use r2vm.Softfp.Round.Overflow.{raised, finished}
use r2vm.Softfp.Arith.Divide.{divide_significands, divide_finite}
use r2vm.Softfp.Arith.Divide.Loop.{divide_significands_lem, powers}

pub not-lt : {m n : ℕ} → (m < n → n < n) → n ≤ m
not-lt {m = m} {n = n} p = elim (Bool-cases (ltb m n)) [
  | inl below ↦ absurd_lt (p (ground arith))
  | inr above ↦ ground arith
]
  where
    absurd_lt : n < n → n ≤ m
    absurd_lt q = omega arith

module _ (f : Format) (rm : RoundingMode) (v : IsFormat f) where
  -- `a / b` with the sticky bit, for a quotient in [1, 2).
  abbrev digits : (a b : ℕ) → ℕ
  digits a b =
      if a * 2 ^ (f.significand_width + 2) % b == 0
      then a * 2 ^ (f.significand_width + 2) / b
      else a * 2 ^ (f.significand_width + 2) / b / 2 * 2 + 1

  low :
      (a b : ℕ)
      → b ≤ a
      → a < 2 * b
      → 2 ^ (f.significand_width + 2) ≤ a * 2 ^ (f.significand_width + 2) / b
  low a b p q = not-lt λ below. omega (
    arith,
    (div-lt_iff_lt-mul {k = b} {x = a * 2 ^ (f.significand_width + 2)}
          {y = 2 ^ (f.significand_width + 2)} (omega arith)).0
        below,
    scaled_le b a (2 ^ (f.significand_width + 2)) p,
  )

  high :
      (a b : ℕ)
      → b ≤ a
      → a < 2 * b
      → a * 2 ^ (f.significand_width + 2) / b < 2 ^ (f.significand_width + 3)
  high a b p q =
      (div-lt_iff_lt-mul {k = b} {x = a * 2 ^ (f.significand_width + 2)}
          {y = 2 ^ (f.significand_width + 3)} (omega arith)).1
        (rw doubled (
          omega (
            arith,
            scaled_lt a (2 * b) (2 ^ (f.significand_width + 2)) q
                (pow_pos (f.significand_width + 2)),
          )))
    where
      doubled : 2 ^ (f.significand_width + 3) ≡ 2 * 2 ^ (f.significand_width + 2)
      doubled = omega (arith, powers f v)

  digits_bounds :
      (a b : ℕ)
      → b ≤ a
      → a < 2 * b
      → (2 ^ (f.significand_width + 2) ≤ digits a b) × (digits a b < 2 ^ (f.significand_width + 3))
  digits_bounds a b p q = ground (arith, powers f v, low a b p q, high a b p q)

  raised-digits :
      (a b flags : ℕ)
      → 0 < b
      → raised flags (digits a b) 4 ≡ raised flags (a * 2 ^ (f.significand_width + 2)) (b * 4)
  unfolding raised
  raised-digits a b flags p =
      ap (λ c. if c then flags else bit_or flags inexact_flag)
        (sticky_exact (a * 2 ^ (f.significand_width + 2)) b p)

  rounded_quotient :
      (negative : Bool) (e a b flags : ℕ)
      → 1 ≤ e
      → e < 2 ^ 17
      → b ≤ a
      → a < 2 * b
      → b < 2 ^ (f.significand_width + 3)
      → (lift (divide_significands f a b) >>= round f rm negative (unbiased f v e)) flags
        ≡ finished f rm negative
            ((e - 1) * 2 ^ f.significand_width
              + rounded rm negative (a * 2 ^ (f.significand_width + 2)) (b * 4))
            (raised flags (a * 2 ^ (f.significand_width + 2)) (b * 4))
  rounded_quotient negative e a b flags h k p q l =
      ap (λ o. (lift o >>= round f rm negative (unbiased f v e)) flags)
        (divide_significands_lem f v a b p q l)
      ∙ round-finished f rm v negative e (digits a b) flags h k ((digits_bounds a b p q).0)
          ((digits_bounds a b p q).1)
      ∙ ap
          (λ t.
            finished f rm negative ((e - 1) * 2 ^ f.significand_width + t)
              (raised flags (digits a b) 4))
          (rounded_sticky rm negative (a * 2 ^ (f.significand_width + 2)) b (omega arith))
      ∙ ap
          (finished f rm negative (
            (e - 1) * 2 ^ f.significand_width
            + rounded rm negative (a * 2 ^ (f.significand_width + 2)) (b * 4)))
          (raised-digits a b flags (omega arith))

  -- The significands `a` and `b`, both in [1, 2): the result is the encoding of `a / b`, or of `2 * a / b`
  -- with an exponent that is one less if `a` is smaller, rounded once, with the flags of the exact
  -- quotient, or the overflow
  -- result, wherever that exponent is not below those of the normal numbers.
  pub divide_finite-finished :
      (negative : Bool) (e a b flags : ℕ)
      → (if ltb a b then 2 else 1) ≤ e
      → e < 2 ^ 17
      → 2 ^ (f.significand_width + 2) ≤ a
      → a < 2 ^ (f.significand_width + 3)
      → 2 ^ (f.significand_width + 2) ≤ b
      → b < 2 ^ (f.significand_width + 3)
      → divide_finite f rm negative (unbiased f v e) a b flags ≡ (
          let n = (if ltb a b then a * 2 else a) * 2 ^ (f.significand_width + 2) in
          finished f rm negative
            (((if ltb a b then e - 1 else e) - 1) * 2 ^ f.significand_width
              + rounded rm negative n (b * 4))
            (raised flags n (b * 4)))
  unfolding divide_finite
  divide_finite-finished negative e a b flags h k la ha lb hb = by_order (ltb a b) refl h
    where
      by_order :
          (less : Bool)
          → ltb a b ≡ less
          → (if less then 2 else 1) ≤ e
          → (if less
                then (lift (divide_significands f (sll f.holder a 1) b)
                    >>= round f rm negative (unbiased f v e -i 1))
                else (lift (divide_significands f a b) >>= round f rm negative (unbiased f v e)))
              flags
            ≡ finished f rm negative
                (((if less then e - 1 else e) - 1) * 2 ^ f.significand_width
                  + rounded rm negative
                      ((if less then a * 2 else a) * 2 ^ (f.significand_width + 2))
                      (b * 4))
                (raised flags ((if less then a * 2 else a) * 2 ^ (f.significand_width + 2)) (b * 4))
      by_order true less h =
          ap
            (λ t.
              (lift (divide_significands f t b) >>= round f rm negative (unbiased f v e -i 1))
                flags)
            shifted
          ∙ ap (λ t. (lift (divide_significands f (a * 2) b) >>= round f rm negative t) flags)
              lowered
          ∙ rounded_quotient negative (e - 1) (a * 2) b flags (omega (arith, h)) (omega (arith, h))
              (omega (arith, powers f v)) (ground arith) hb
        where
          shifted : sll f.holder a 1 ≡ a * 2
          shifted = mod-eq_of_lt (omega (arith, powers f v))

          lowered : unbiased f v e -i 1 ≡ unbiased f v (e - 1)
          lowered = omega (arith, two_biases f v, bias-lt f v)
      by_order false less h =
          rounded_quotient negative e a b flags h k (ground arith) (omega (arith, powers f v)) hb
