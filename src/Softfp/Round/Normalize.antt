-- ===== src/Softfp/Round/Normalize.antt =====
-- Normalization before rounding in `lib/softfp/src/fp.rs`.
use Prim.Native.Nat.{◌≤◌}
use native.Mathlib.Nat.{mod-eq_of_lt, pow-suc, div-lt_iff_lt-mul}
use r2vm.Base.{
  bit_or, ℕ, zero, suc, ◌+◌, ◌-◌, ◌*◌, ◌/◌, ◌%◌, ◌^◌, ◌<◌, ◌≡◌, ap, ◌∙◌, ◌==◌, leb, not, sll, Bool,
  Bool-cases, inl, inr, true, if◌then◌else◌, arith, pow_pos, pow_le, pow_add,
}
use r2vm.Softfp.Format.{
  Format, RoundingMode, inexact_flag, ◌+i◌, ◌-i◌, lt_i, leading_zeros, log2_floor,
}
use r2vm.Softfp.Round.{right_shift, normalize, round, normalize_and_round}
use r2vm.Softfp.Round.Sticky.{rounded, rounded_sticky, right_shift_lem, sticky_exact}
use r2vm.Softfp.Round.Packed.{IsFormat}
use r2vm.Softfp.Arith.Divide.Quotient.{not-lt}
use r2vm.Softfp.Round.Exponents.{unbiased}
use r2vm.Softfp.Round.Encoded.{round-finished, roomy}
use r2vm.Softfp.Round.Overflow.{raised, finished}

-- A power below another.
pub pow-between : (j k n : ℕ) → 2 ^ j ≤ n → n < 2 ^ k → j < k
pow-between j k n p q = elim (Bool-cases (leb k j)) [
  | inl above ↦ absurd (omega (arith, pow_le k j (ground arith)))
  | inr below ↦ ground arith
]

leading_zeros_lem :
    (w k n : ℕ) → n < 2 ^ w → 2 ^ k ≤ n → n < 2 ^ suc k → leading_zeros w n + suc k ≡ w
unfolding leading_zeros
leading_zeros_lem zero k n p q r = absurd (omega (arith, pow_pos k))
leading_zeros_lem (suc w) k n p q r = elim (Bool-cases (leb (2 ^ w) n)) [
  | inl top ↦
      rw top (omega (arith, pow-between k (suc w) n q p, pow-between w (suc k) n (ground arith) r))
  | inr lower ↦ rw lower (omega (arith, leading_zeros_lem w k n (ground arith) q r))
]

pub log2_floor_lem :
    (w k n : ℕ) → w ≤ 128 → n < 2 ^ w → 2 ^ k ≤ n → n < 2 ^ suc k → log2_floor w n ≡ k
unfolding log2_floor
log2_floor_lem w k n b p q r = omega (arith, leading_zeros_lem w k n p q r)

module _ (f : Format) (v : IsFormat f) where
  -- The bounds of a significand that is `j` places too wide.
  shifted_bounds :
      (w n j : ℕ)
      → n < 2 ^ w
      → 2 ^ (f.significand_width + 2 + j) ≤ n
      → n < 2 ^ suc (f.significand_width + 2 + j)
      → (2 ^ (f.significand_width + 2) ≤ right_shift w n j)
        × (right_shift w n j < 2 ^ (f.significand_width + 3))
  shifted_bounds w n j p q r = ground (arith, right_shift_lem w n j p, low, high, doubled)
    where
      doubled : 2 ^ (f.significand_width + 3) ≡ 2 * 2 ^ (f.significand_width + 2)
      doubled = omega (arith, pow_add f.significand_width 2, pow_add f.significand_width 3)

      split : 2 ^ (f.significand_width + 2 + j) ≡ 2 ^ (f.significand_width + 2) * 2 ^ j
      split = pow_add (f.significand_width + 2) j

      low : 2 ^ (f.significand_width + 2) ≤ n / 2 ^ j
      low = not-lt λ below. omega (
        arith,
        split,
        (div-lt_iff_lt-mul {k = 2 ^ j} {x = n} {y = 2 ^ (f.significand_width + 2)} (pow_pos j)).0
            below,
      )

      high : n / 2 ^ j < 2 ^ (f.significand_width + 3)
      high =
          (div-lt_iff_lt-mul {k = 2 ^ j} {x = n} {y = 2 ^ (f.significand_width + 3)} (pow_pos j)).1
            (omega (
              arith,
              split,
              pow-suc 2 (f.significand_width + 2 + j),
              ap (λ (t : ℕ). t * 2 ^ j) doubled,
            ))

  -- A significand that is `j` places too wide.
  normalize_lem :
      (w e n j : ℕ)
      → w ≤ 128
      → n < 2 ^ w
      → 0 < j
      → 2 ^ (f.significand_width + 2 + j) ≤ n
      → n < 2 ^ suc (f.significand_width + 2 + j)
      → normalize f w e n ≡ (e +i j, right_shift w n j)
  unfolding normalize
  normalize_lem w e n j b p h q r =
      ap normal_at places
      ∙ ap
          (λ c. (
            e +i j,
            if not c
                then sll f.holder (n % 2 ^ f.holder) (0 -i j)
                else right_shift w n j % 2 ^ f.holder,
          ))
          positive
      ∙ ap (λ t. (e +i j, t))
          (mod-eq_of_lt (
            omega (
              arith,
              shifted_bounds w n j p q r,
              roomy f RoundingMode.ties_to_even v (right_shift w n j)
                  ((shifted_bounds w n j p q r).1),
            )))
    where
      normal_at : ℕ → ℕ × ℕ
      normal_at d = (
        e +i d,
        if not (lt_i 0 d)
            then sll f.holder (n % 2 ^ f.holder) (0 -i d)
            else right_shift w n d % 2 ^ f.holder,
      )

      width : f.significand_width + 2 + j < w
      width = pow-between (f.significand_width + 2 + j) w n q p

      places : (log2_floor w n -i 2) -i f.significand_width ≡ j
      places = omega (arith, log2_floor_lem w (f.significand_width + 2 + j) n b p q r, width)

      positive : lt_i 0 j ≡ true
      positive = ground (arith, width)

  -- A significand of any width, `j` places too wide, with the exponent that it has after that many
  -- places, which may be too large for the format: the result is the encoding of the exact value rounded
  -- once, or the overflow result.
  pub normalize_and_round-finished :
      (rm : RoundingMode) (negative : Bool) (w e n j b flags : ℕ)
      → w ≤ 128
      → n < 2 ^ w
      → 0 < j
      → 2 ^ (f.significand_width + 2 + j) ≤ n
      → n < 2 ^ suc (f.significand_width + 2 + j)
      → e +i j ≡ unbiased f v b
      → 1 ≤ b
      → b < 2 ^ 17
      → normalize_and_round f rm w negative e n flags
        ≡ finished f rm negative
            ((b - 1) * 2 ^ f.significand_width + rounded rm negative n (2 ^ j * 4))
            (raised flags n (2 ^ j * 4))
  unfolding normalize_and_round raised
  normalize_and_round-finished rm negative w e n j b flags bw p h q r x l k =
      ap (λ t. round f rm negative (t.0) (t.1) flags) (normalize_lem w e n j bw p h q r)
      ∙ ap (λ t. round f rm negative t (right_shift w n j) flags) x
      ∙ round-finished f rm v negative b (right_shift w n j) flags l k
          ((shifted_bounds w n j p q r).0) ((shifted_bounds w n j p q r).1)
      ∙ ap
          (λ s.
            finished f rm negative ((b - 1) * 2 ^ f.significand_width + rounded rm negative s 4)
              (raised flags s 4))
          (right_shift_lem w n j p)
      ∙ ap
          (λ t.
            finished f rm negative ((b - 1) * 2 ^ f.significand_width + t)
              (raised flags (if n % 2 ^ j == 0 then n / 2 ^ j else n / 2 ^ j / 2 * 2 + 1) 4))
          (rounded_sticky rm negative n (2 ^ j) (pow_pos j))
      ∙ ap
          (λ c.
            finished f rm negative
              ((b - 1) * 2 ^ f.significand_width + rounded rm negative n (2 ^ j * 4))
              (if c then flags else bit_or flags inexact_flag))
          (sticky_exact n (2 ^ j) (pow_pos j))
