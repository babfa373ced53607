-- ===== src/Softfp/Round/Sticky.antt =====
-- Rounding after a shift in `lib/softfp/src/fp.rs`, against the rounding of IEEE 754.
use Prim.Native.Nat.{◌≤◌}
use native.Mathlib.Nat.{mod-eq_of_lt, div-eq_of_lt, div-div-eq-div-mul, div-add-mod, mod-lt}
use r2vm.Base.{
  pow_pos, pow_le, zero, suc, ◌⊎◌, Bool-cases, inl, inr, ℕ, ◌+◌, ◌*◌, ◌/◌, ◌%◌, ◌^◌, ◌<◌, ◌≡◌, refl,
  ap, ◌∙◌, bit_or, bit_and-mask, bit_or-zero, bit_or_step, ◌==◌, ltb, leb, not, Bool, true, ◌&&◌,
  if◌then◌else◌, arith,
}
use r2vm.Softfp.Format.{Format, RoundingMode}
use r2vm.Softfp.Round.{right_shift, rounding_step, round_significand}

-- The integer that `n / d` is rounded to, for a number that is `negative` or not.
unfoldable pub rounded : RoundingMode → (negative : Bool) → (n d : ℕ) → ℕ
rounded RoundingMode.ties_to_even negative n d =
    if ltb (2 * (n % d)) d
    then n / d
    else if ltb d (2 * (n % d))
    then n / d + 1
    else n / d + n / d % 2
rounded RoundingMode.toward_zero negative n d = n / d
rounded RoundingMode.toward_negative negative n d =
    if negative && not (n % d == 0) then n / d + 1 else n / d
rounded RoundingMode.toward_positive negative n d =
    if not negative && not (n % d == 0) then n / d + 1 else n / d
rounded RoundingMode.ties_to_away negative n d = if ltb (2 * (n % d)) d then n / d else n / d + 1

small : (w x : ℕ) → x < 2 ^ w → x % 2 ^ w ≡ x
small w x p = mod-eq_of_lt p

pub bit_or_one : (q : ℕ) → bit_or q 1 ≡ q / 2 * 2 + 1
bit_or_one q = omega (arith, bit_or_step q 1, bit_or-zero (q / 2))

pub right_shift_lem :
    (w n k : ℕ)
    → n < 2 ^ w
    → right_shift w n k ≡ (if n % 2 ^ k == 0 then n / 2 ^ k else n / 2 ^ k / 2 * 2 + 1)
unfolding right_shift
right_shift_lem w n k p = elim (Bool-cases (leb w k)) [
  | inl all ↦
      rw all (ground (arith, div-eq_of_lt (below all), mod-eq_of_lt (below all), bit_or_one 0))
  | inr part ↦ rw part (ground (arith, bit_and-mask k n, bit_or_one (n / 2 ^ k)))
]
  where
    below : leb w k ≡ true → n < 2 ^ k
    below all = omega (arith, p, pow_le w k (ground arith))

-- A quotient and a remainder decide the rounding.
rounded_parts :
    (rm : RoundingMode) (negative : Bool) (n d m e : ℕ)
    → n / d ≡ m / e
    → (n % d == 0) ≡ (m % e == 0)
    → ltb (2 * (n % d)) d ≡ ltb (2 * (m % e)) e
    → ltb d (2 * (n % d)) ≡ ltb e (2 * (m % e))
    → rounded rm negative n d ≡ rounded rm negative m e
unfolding rounded
rounded_parts RoundingMode.ties_to_even negative n d m e p q r s = rw (p, r, s) refl
rounded_parts RoundingMode.toward_zero negative n d m e p q r s = p
rounded_parts RoundingMode.toward_negative negative n d m e p q r s = rw (p, q) refl
rounded_parts RoundingMode.toward_positive negative n d m e p q r s = rw (p, q) refl
rounded_parts RoundingMode.ties_to_away negative n d m e p q r s = rw (p, r) refl

-- The remainder of `n` by `4 * p`, in the remainders by `p` and by 4.
remainder_four : (n p : ℕ) → 0 < p → n % (p * 4) ≡ n / p % 4 * p + n % p
remainder_four n p h = omega (
  arith,
  div-add-mod n p,
  div-add-mod n (p * 4),
  ap (λ (t : ℕ). p * t) (div-add-mod (n / p) 4),
  ap (λ (t : ℕ). p * t) (div-div-eq-div-mul n p 4),
)

multiple_cases :
    (t p : ℕ)
    → t < 4
    → ((t ≡ 0) × (t * p ≡ 0))
      ⊎ ((t ≡ 1) × (t * p ≡ p))
      ⊎ ((t ≡ 2) × (t * p ≡ 2 * p))
      ⊎ ((t ≡ 3) × (t * p ≡ 3 * p))
multiple_cases zero p h = inl (refl, omega arith)
multiple_cases (suc zero) p h = inr (inl (refl, omega arith))
multiple_cases (suc (suc zero)) p h = inr (inr (inl (refl, omega arith)))
multiple_cases (suc (suc (suc zero))) p h = inr (inr (inr (refl, omega arith)))
multiple_cases (suc (suc (suc (suc t)))) p h = absurd (omega arith)

remainder_cases :
    (n p : ℕ)
    → 0 < p
    → (n % (p * 4) ≡ n / p % 4 * p + n % p)
      × (n % p < p)
      × (((n / p % 4 ≡ 0) × (n / p % 4 * p ≡ 0))
          ⊎ ((n / p % 4 ≡ 1) × (n / p % 4 * p ≡ p))
          ⊎ ((n / p % 4 ≡ 2) × (n / p % 4 * p ≡ 2 * p))
          ⊎ ((n / p % 4 ≡ 3) × (n / p % 4 * p ≡ 3 * p)))
remainder_cases n p h =
    (remainder_four n p h, mod-lt n h, multiple_cases (n / p % 4) p (omega arith))

pub sticky_exact :
    (n p : ℕ)
    → 0 < p
    → ((if n % p == 0 then n / p else n / p / 2 * 2 + 1) % 4 == 0) ≡ (n % (p * 4) == 0)
sticky_exact n p h = ground (arith, remainder_cases n p h)

-- The sticky bit keeps what rounding needs.
pub rounded_sticky :
    (rm : RoundingMode) (negative : Bool) (n p : ℕ)
    → 0 < p
    → rounded rm negative (if n % p == 0 then n / p else n / p / 2 * 2 + 1) 4
      ≡ rounded rm negative n (p * 4)
rounded_sticky rm negative n p h =
    rounded_parts rm negative _ 4 n (p * 4) (ground (arith, div-div-eq-div-mul n p 4))
      (sticky_exact n p h) (ground (arith, remainder_cases n p h))
      (ground (arith, remainder_cases n p h))

pub rounded-bounds :
    (rm : RoundingMode) (negative : Bool) (n d : ℕ)
    → 0 < d
    → (n / d ≤ rounded rm negative n d)
      × (rounded rm negative n d ≤ n / d + 1)
      × (n % d ≡ 0 → rounded rm negative n d ≡ n / d)
unfolding rounded
rounded-bounds RoundingMode.ties_to_even negative n d h = ground arith
rounded-bounds RoundingMode.toward_zero negative n d h = ground arith
rounded-bounds RoundingMode.toward_negative negative n d h = ground arith
rounded-bounds RoundingMode.toward_positive negative n d h = ground arith
rounded-bounds RoundingMode.ties_to_away negative n d h = ground arith

module _ (f : Format) where
  pub round_significand_lem :
      (rm : RoundingMode) (negative : Bool) (s : ℕ)
      → s + 3 < 2 ^ f.holder
      → ((round_significand f rm negative s).1 ≡ rounded rm negative s 4)
        × ((round_significand f rm negative s).0 ≡ not (s % 4 == 0))
  unfolding round_significand rounding_step rounded
  round_significand_lem RoundingMode.ties_to_even negative s p = ground (
    arith,
    bit_and-mask 2 s,
    bit_and-mask 1 (s / 4),
    small f.holder (s + 1) (omega arith),
    small f.holder (s + 2) (omega arith),
    small f.holder (s + 3) (omega arith),
    small f.holder (s + 0) (omega arith),
  )
  round_significand_lem RoundingMode.toward_zero negative s p = ground (
    arith,
    bit_and-mask 2 s,
    bit_and-mask 1 (s / 4),
    small f.holder (s + 1) (omega arith),
    small f.holder (s + 2) (omega arith),
    small f.holder (s + 3) (omega arith),
    small f.holder (s + 0) (omega arith),
  )
  round_significand_lem RoundingMode.toward_negative negative s p = ground (
    arith,
    bit_and-mask 2 s,
    bit_and-mask 1 (s / 4),
    small f.holder (s + 1) (omega arith),
    small f.holder (s + 2) (omega arith),
    small f.holder (s + 3) (omega arith),
    small f.holder (s + 0) (omega arith),
  )
  round_significand_lem RoundingMode.toward_positive negative s p = ground (
    arith,
    bit_and-mask 2 s,
    bit_and-mask 1 (s / 4),
    small f.holder (s + 1) (omega arith),
    small f.holder (s + 2) (omega arith),
    small f.holder (s + 3) (omega arith),
    small f.holder (s + 0) (omega arith),
  )
  round_significand_lem RoundingMode.ties_to_away negative s p = ground (
    arith,
    bit_and-mask 2 s,
    bit_and-mask 1 (s / 4),
    small f.holder (s + 1) (omega arith),
    small f.holder (s + 2) (omega arith),
    small f.holder (s + 3) (omega arith),
    small f.holder (s + 0) (omega arith),
  )

  -- Rounding what `right_shift` leaves of `n` is rounding `n / 2 ^ k` with two bits less, in every
  -- mode, and it is inexact exactly where that division leaves a remainder.
  pub round_significand-right_shift :
      (rm : RoundingMode) (negative : Bool) (w n k : ℕ)
      → n < 2 ^ w
      → right_shift w n k + 3 < 2 ^ f.holder
      → ((round_significand f rm negative (right_shift w n k)).1
          ≡ rounded rm negative n (2 ^ k * 4))
        × ((round_significand f rm negative (right_shift w n k)).0 ≡ not (n % (2 ^ k * 4) == 0))
  round_significand-right_shift rm negative w n k p q = (
    part.0
        ∙ ap (λ s. rounded rm negative s 4) (right_shift_lem w n k p)
        ∙ rounded_sticky rm negative n (2 ^ k) (pow_pos k),
    part.1
        ∙ ap (λ s. not (s % 4 == 0)) (right_shift_lem w n k p)
        ∙ ap not (sticky_exact n (2 ^ k) (pow_pos k)),
  )
    where
      part :
          ((round_significand f rm negative (right_shift w n k)).1
            ≡ rounded rm negative (right_shift w n k) 4)
          × ((round_significand f rm negative (right_shift w n k)).0
              ≡ not (right_shift w n k % 4 == 0))
      part = round_significand_lem rm negative (right_shift w n k) q
