-- ===== src/Softfp/Round/Exponents.antt =====
-- The exponents of `lib/softfp/src/fp.rs`, as `i32` values, against biased exponents.
use native.Mathlib.Nat.{pow-suc}
use r2vm.Base.{
  pow_pos, true, false, ℕ, suc, ◌+◌, ◌-◌, ◌*◌, ◌%◌, ◌^◌, ◌<◌, ◌≡◌, ap, ◌∙◌, ltb, arith, pow_le,
}
use r2vm.Softfp.Format.{Format, ◌+i◌, ◌-i◌, lt_i}
use r2vm.Softfp.Fields.{exponent_bias}
use r2vm.Softfp.Round.Packed.{IsFormat}

module _ (f : Format) (v : IsFormat f) where
  -- The exponent with the biased exponent `b`.
  abbrev pub unbiased : ℕ → ℕ
  unbiased b = b -i exponent_bias f

  pub bias-lt : exponent_bias f < 2 ^ 15
  bias-lt = omega (arith, pow_le (f.exponent_width - 1) 15 (omega (arith, v.exponent_high)))

  pub two_biases : 2 ^ f.exponent_width ≡ 2 * exponent_bias f + 2
  two_biases =
      let width : f.exponent_width ≡ suc (f.exponent_width - 1) = omega (arith, v.exponent_low) in
      ap (λ (t : ℕ). 2 ^ t) width
      ∙ omega (arith, pow-suc 2 (f.exponent_width - 1), pow_pos (f.exponent_width - 1))

  shifted : (b : ℕ) → b < 2 ^ 17 → (unbiased b + 2 ^ 31) % 2 ^ 32 ≡ b + (2 ^ 31 - exponent_bias f)
  shifted b p = omega (arith, bias-lt)

  pub unbiased-lt : (a b : ℕ) → a < 2 ^ 17 → b < 2 ^ 17 → lt_i (unbiased a) (unbiased b) ≡ ltb a b
  unbiased-lt a b p q = rw (shifted a p, shifted b q) (ground arith)

  pub unbiased-suc : (b : ℕ) → b < 2 ^ 17 → unbiased b +i 1 ≡ unbiased (b + 1)
  unbiased-suc b p = omega (arith, bias-lt)

  pub unbiased-bias : (b : ℕ) → b < 2 ^ 17 → unbiased b +i exponent_bias f ≡ b
  unbiased-bias b p = omega (arith, bias-lt)

  -- Exponents below that of the smallest normal number.
  shifted_below :
      (d : ℕ)
      → d < 2 ^ 30
      → ((unbiased 1 -i d) + 2 ^ 31) % 2 ^ 32 ≡ 2 ^ 31 - exponent_bias f + 1 - d
  shifted_below d p = omega (arith, bias-lt)

  pub below_lt_unbiased :
      (d b : ℕ)
      → 0 < d
      → d < 2 ^ 30
      → 0 < b
      → b < 2 ^ 17
      → lt_i (unbiased 1 -i d) (unbiased b) ≡ true
  below_lt_unbiased d b h p q r = rw (shifted_below d p, shifted b r) (ground (arith, bias-lt))

  pub unbiased_lt_below :
      (d b : ℕ)
      → 0 < d
      → d < 2 ^ 30
      → 0 < b
      → b < 2 ^ 17
      → lt_i (unbiased b) (unbiased 1 -i d) ≡ false
  unbiased_lt_below d b h p q r = rw (shifted_below d p, shifted b r) (ground (arith, bias-lt))

  pub below_distance : (d : ℕ) → d < 2 ^ 30 → unbiased 1 -i (unbiased 1 -i d) ≡ d
  below_distance d p = omega (arith, bias-lt)
