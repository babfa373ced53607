-- ===== src/Softfp/Round/Encoded.antt =====
-- What `round` of `lib/softfp/src/fp.rs` gives: the exact value, rounded once, in every mode.
use Prim.Native.Nat.{◌≤◌}
use native.Mathlib.Nat.{mod-eq-sub-mod, mod-eq_of_lt}
use r2vm.Base.{
  ltb-true, ltb-false, Bool-cases, inl, inr, ℕ, ◌+◌, ◌-◌, ◌*◌, ◌/◌, ◌%◌, ◌^◌, ◌<◌, ◌≡◌, ap, ◌∙◌,
  bit_or, ◌==◌, ltb, leb, not, Bool, true, false, if◌then◌else◌, Option, some, arith, pow_le,
  pow_pos, pow_add,
}
use r2vm.Softfp.Format.{Format, RoundingMode, ◌-i◌, lt_i, inexact_flag}
use r2vm.Softfp.Fields.{minimum_exponent, maximum_exponent}
use r2vm.Softfp.Round.{
  right_shift, round, round_significand, round_overflow, round_finish, round_carry, subnormalized,
}
use r2vm.Softfp.Round.Sticky.{rounded, rounded-bounds, round_significand_lem}
use r2vm.Softfp.Round.Packed.{IsFormat, encoded, packed_lem, holder_powers, less_one}
use r2vm.Softfp.Round.Exponents.{
  unbiased, two_biases, unbiased-lt, unbiased-suc, unbiased-bias, bias-lt,
}
use r2vm.Softfp.Round.Overflow.{limit, finished, raised, overflow_lem, overflow-flags}

pub scaled_le : (x e s : ℕ) → x ≤ e → x * s ≤ e * s
scaled_le x e s p = grind arith

add_sub : (b : ℕ) → b + 1 - 1 ≡ b
add_sub b = omega arith

false_ne_true : {m n : ℕ} → false ≡ true → m < n
false_ne_true p = ground arith

pub remainder_lt : (r s : ℕ) → r < 2 * s → r - s < s
remainder_lt r s p = omega arith

module _ (f : Format) (rm : RoundingMode) where
  pub unshifted : (e s : ℕ) → lt_i e (minimum_exponent f) ≡ false → subnormalized f rm e s ≡ s
  unfolding subnormalized
  unshifted e s p = ap (λ b. if b then right_shift f.holder s (minimum_exponent f -i e) else s) p

  pub shifted :
      (e s : ℕ)
      → lt_i e (minimum_exponent f) ≡ true
      → subnormalized f rm e s ≡ right_shift f.holder s (minimum_exponent f -i e)
  unfolding subnormalized
  shifted e s p = ap (λ b. if b then right_shift f.holder s (minimum_exponent f -i e) else s) p

  -- An exponent that is not too large: the significand is rounded.
  pub round_step :
      (negative : Bool) (e s t flags : ℕ)
      → lt_i (maximum_exponent f) e ≡ false
      → subnormalized f rm e s ≡ t
      → (inexact : Bool) (r : ℕ)
      → ((round_significand f rm negative t).1 ≡ r)
        × ((round_significand f rm negative t).0 ≡ inexact)
      → round f rm negative e s flags ≡ round_carry f rm negative inexact e s r flags
  unfolding round
  round_step negative e s t flags p q inexact r parts =
      ap
        (λ b.
          (if b
              then round_overflow f rm negative
              else carry (round_significand f rm negative (subnormalized f rm e s)))
            flags)
        p
      ∙ ap (λ u. carry (round_significand f rm negative u) flags) q
      ∙ ap (λ i. round_carry f rm negative i e s ((round_significand f rm negative t).1) flags)
          (parts.1)
      ∙ ap (λ u. round_carry f rm negative inexact e s u flags) (parts.0)
    where
      carry : Bool × ℕ → ℕ → Option (ℕ × ℕ)
      carry result = round_carry f rm negative (result.0) e s (result.1)

  module _ (v : IsFormat f) where
    -- A significand in [1, 2), with the exponent of `b`.
    finish_lem :
        (negative inexact : Bool) (b s r flags : ℕ)
        → 1 ≤ b
        → b ≤ 2 ^ f.exponent_width - 1
        → 2 ^ f.significand_width ≤ r
        → r < 2 * 2 ^ f.significand_width
        → round_finish f rm negative inexact (unbiased f v b) s r flags
          ≡ finished f rm negative ((b - 1) * 2 ^ f.significand_width + r) flags
    unfolding round_finish finished
    finish_lem negative inexact b s r flags p q h k =
        rw
          (
            unbiased-lt f v b 1 small (omega arith),
            ltb-false b 1 p,
            unbiased-lt f v (2 ^ f.exponent_width - 1 - 1) b high small,
          )
          (elim (Bool-cases (ltb (2 ^ f.exponent_width - 1 - 1) b)) [
            | inl over ↦ rw over (
                overflow_lem f rm v negative ((b - 1) * 2 ^ f.significand_width + r) flags
                  (too_large over))
            | inr fits ↦
                rw
                  (
                    fits,
                    unbiased-bias f v b small,
                    packed_lem f rm v negative b r (omega (arith, q, pow_pos f.exponent_width)),
                    ltb-true ((b - 1) * 2 ^ f.significand_width + r) (limit f rm) (within fits),
                  )
                  (ap (λ (m : ℕ). some (encoded f negative m, flags)) magnitude)
          ])
      where
        high : 2 ^ f.exponent_width - 1 - 1 < 2 ^ 17
        high = omega (arith, two_biases f v, bias-lt f v)

        small : b < 2 ^ 17
        small = omega (arith, two_biases f v, bias-lt f v)

        place :
            (b - 1) * 2 ^ f.significand_width + 2 ^ f.significand_width
            ≡ b * 2 ^ f.significand_width
        place = less_one b (2 ^ f.significand_width) p

        too_large :
            ltb (2 ^ f.exponent_width - 1 - 1) b ≡ true
            → limit f rm ≤ (b - 1) * 2 ^ f.significand_width + r
        too_large over = omega (
          arith,
          place,
          scaled_le (2 ^ f.exponent_width - 1) b (2 ^ f.significand_width) (ground arith),
        )

        within :
            ltb (2 ^ f.exponent_width - 1 - 1) b ≡ false
            → (b - 1) * 2 ^ f.significand_width + r < limit f rm
        within fits = omega (
          arith,
          place,
          scaled_le (b + 1) (2 ^ f.exponent_width - 1) (2 ^ f.significand_width) (ground arith),
        )

        magnitude :
            b * 2 ^ f.significand_width + r % 2 ^ f.significand_width
            ≡ (b - 1) * 2 ^ f.significand_width + r
        magnitude = omega (
          arith,
          place,
          mod-eq-sub-mod h,
          mod-eq_of_lt (remainder_lt r (2 ^ f.significand_width) k),
        )

    -- What `round_carry` does with a rounded significand that may be 2.
    carry_lem :
        (negative inexact : Bool) (b s r flags : ℕ)
        → 1 ≤ b
        → b ≤ 2 ^ f.exponent_width - 1 - 1
        → 2 ^ f.significand_width ≤ r
        → r ≤ 2 * 2 ^ f.significand_width
        → (r ≡ 2 * 2 ^ f.significand_width → inexact ≡ true)
        → round_carry f rm negative inexact (unbiased f v b) s r flags
          ≡ finished f rm negative
              ((b - 1) * 2 ^ f.significand_width + r)
              (if inexact then bit_or flags inexact_flag else flags)
    unfolding round_carry
    carry_lem negative false b s r flags p q h k e =
        finish_lem negative false b s r flags p (omega (arith, q)) h
          (elim (Bool-cases (ltb r (2 * 2 ^ f.significand_width))) [
            | inl below ↦ ground arith
            | inr full ↦ false_ne_true (e (ground arith))
          ])
    carry_lem negative true b s r flags p q h k e =
        elim (Bool-cases (r == 2 ^ (f.significand_width + 1))) [
          | inl full ↦
              rw (full, unbiased-suc f v b small)
                (finish_lem negative true (b + 1) s (r / 2) (bit_or flags 1) (omega arith)
                    (omega (arith, q)) (omega (arith, twice full))
                    (omega (arith, twice full, pow_pos f.significand_width))
                  ∙ ap (λ m. finished f rm negative m (bit_or flags 1)) (magnitude full))
          | inr fits ↦
              rw fits (
                finish_lem negative true b s r (bit_or flags 1) p (omega (arith, q)) h (below fits))
        ]
      where
        double : 2 ^ (f.significand_width + 1) ≡ 2 * 2 ^ f.significand_width
        double = omega (arith, pow_add f.significand_width 1)

        twice : (r == 2 ^ (f.significand_width + 1)) ≡ true → r ≡ 2 * 2 ^ f.significand_width
        twice full = ground (arith, double)

        below : (r == 2 ^ (f.significand_width + 1)) ≡ false → r < 2 * 2 ^ f.significand_width
        below fits = ground (arith, double)

        small : b < 2 ^ 17
        small = omega (arith, q, two_biases f v, bias-lt f v)

        magnitude :
            (r == 2 ^ (f.significand_width + 1)) ≡ true
            → (b + 1 - 1) * 2 ^ f.significand_width + r / 2 ≡ (b - 1) * 2 ^ f.significand_width + r
        magnitude full = omega (
          arith,
          twice full,
          less_one b (2 ^ f.significand_width) p,
          ap (λ (t : ℕ). t * 2 ^ f.significand_width) (add_sub b),
        )

    pub roomy : (s : ℕ) → s < 2 ^ (f.significand_width + 3) → s + 4 < 2 ^ f.holder
    roomy s k = omega (
      arith,
      holder_powers f rm v,
      pow_add f.significand_width 3,
      pow_pos f.significand_width,
      scaled_le 8 (2 ^ f.exponent_width) (2 ^ f.significand_width)
          (pow_le 3 f.exponent_width v.exponent_low),
    )

    in_range-finished :
        (negative : Bool) (b s flags : ℕ)
        → 1 ≤ b
        → b ≤ 2 ^ f.exponent_width - 1 - 1
        → 2 ^ (f.significand_width + 2) ≤ s
        → s < 2 ^ (f.significand_width + 3)
        → round f rm negative (unbiased f v b) s flags
          ≡ finished f rm negative
              ((b - 1) * 2 ^ f.significand_width + rounded rm negative s 4)
              (raised flags s 4)
    unfolding raised
    in_range-finished negative b s flags p q h k =
        round_step negative (unbiased f v b) s s flags
          (unbiased-lt f v (2 ^ f.exponent_width - 1 - 1) b
              (omega (arith, two_biases f v, bias-lt f v)) small
            ∙ ltb-false (2 ^ f.exponent_width - 1 - 1) b q)
          (unshifted (unbiased f v b) s (unbiased-lt f v b 1 small (omega arith) ∙ ltb-false b 1 p))
          _ _ parts
        ∙ carry_lem negative (not (s % 4 == 0)) b s (rounded rm negative s 4) flags p q
            (omega (arith, bounds, powers)) (omega (arith, bounds, powers))
            (ground (arith, bounds, powers))
        ∙ ap (finished f rm negative ((b - 1) * 2 ^ f.significand_width + rounded rm negative s 4))
            (ground arith)
      where
        small : b < 2 ^ 17
        small = omega (arith, q, two_biases f v, bias-lt f v)

        powers :
            (2 ^ (f.significand_width + 2) ≡ 4 * 2 ^ f.significand_width)
            × (2 ^ (f.significand_width + 3) ≡ 8 * 2 ^ f.significand_width)
        powers = (
          omega (arith, pow_add f.significand_width 2),
          omega (arith, pow_add f.significand_width 3),
        )

        parts :
            ((round_significand f rm negative s).1 ≡ rounded rm negative s 4)
            × ((round_significand f rm negative s).0 ≡ not (s % 4 == 0))
        parts = round_significand_lem f rm negative s (omega (arith, roomy s k))

        bounds :
            (s / 4 ≤ rounded rm negative s 4)
            × (rounded rm negative s 4 ≤ s / 4 + 1)
            × (s % 4 ≡ 0 → rounded rm negative s 4 ≡ s / 4)
        bounds = rounded-bounds rm negative s 4 (omega arith)

    -- An exponent above that of the largest number, by any amount.
    above-finished :
        (negative : Bool) (b s flags : ℕ)
        → 2 ^ f.exponent_width - 1 ≤ b
        → b < 2 ^ 17
        → 2 ^ (f.significand_width + 2) ≤ s
        → round f rm negative (unbiased f v b) s flags
          ≡ finished f rm negative
              ((b - 1) * 2 ^ f.significand_width + rounded rm negative s 4)
              (raised flags s 4)
    unfolding round raised
    above-finished negative b s flags p q h =
        ap
          (λ c.
            (if c
                then round_overflow f rm negative
                else carry
                    (round_significand f rm negative (subnormalized f rm (unbiased f v b) s)))
              flags)
          (unbiased-lt f v (2 ^ f.exponent_width - 1 - 1) b
              (omega (arith, two_biases f v, bias-lt f v)) q
            ∙ ltb-true (2 ^ f.exponent_width - 1 - 1) b (omega (arith, p, two_biases f v)))
        ∙ overflow_lem f rm v negative ((b - 1) * 2 ^ f.significand_width + rounded rm negative s 4)
            flags large
        ∙ overflow-flags f rm negative ((b - 1) * 2 ^ f.significand_width + rounded rm negative s 4)
            flags (s % 4 == 0) large
      where
        carry : Bool × ℕ → ℕ → Option (ℕ × ℕ)
        carry result = round_carry f rm negative (result.0) (unbiased f v b) s (result.1)

        large : limit f rm ≤ (b - 1) * 2 ^ f.significand_width + rounded rm negative s 4
        large = omega (
          arith,
          h,
          (rounded-bounds rm negative s 4 (omega arith)).0,
          pow_add f.significand_width 2,
          less_one b (2 ^ f.significand_width) (omega (arith, p, two_biases f v)),
          scaled_le (2 ^ f.exponent_width - 1) b (2 ^ f.significand_width) p,
        )

    -- A significand in [1, 2) with the exponent of a normal number, or one that is too large for the format
    -- by any amount: the result is the encoding of the exact value rounded once, or the overflow result of
    -- the mode, and the flags tell inexactness and overflow.
    pub round-finished :
        (negative : Bool) (b s flags : ℕ)
        → 1 ≤ b
        → b < 2 ^ 17
        → 2 ^ (f.significand_width + 2) ≤ s
        → s < 2 ^ (f.significand_width + 3)
        → round f rm negative (unbiased f v b) s flags
          ≡ finished f rm negative
              ((b - 1) * 2 ^ f.significand_width + rounded rm negative s 4)
              (raised flags s 4)
    round-finished negative b s flags p q h k =
        elim (Bool-cases (leb (2 ^ f.exponent_width - 1) b)) [
          | inl above ↦ above-finished negative b s flags (ground arith) q h
          | inr within ↦ in_range-finished negative b s flags p (ground arith) h k
        ]
