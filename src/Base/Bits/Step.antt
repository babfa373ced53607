-- ===== src/Base/Bits/Step.antt =====
-- The native bit operations mean a recursion on binary digits with fuel. Here the fuel goes.
use Prim.Native.Nat.{ℕ, zero, suc, ◌+◌, ◌*◌, ◌/◌, ◌%◌, ◌≤◌, ◌<◌, min, max, digits, bitwise}
use Prim.Native.Nat.{bit_and, bit_or, bit_and-bitwise, bit_or-bitwise}
use Prim.Native.Nat.{bit_xor, bit_xor-bitwise, differ}
use mathlib.Core.Path.{◌≡◌, refl, sym, ◌∙◌}
use native.Mathlib.Nat.{le_refl}
use native.Mathlib.Omega.{arith}

module _ (last : ℕ → ℕ) (combine : ℕ → ℕ → ℕ) where
  digits-zero : (fuel y : ℕ) → digits last combine fuel zero y ≡ last y
  digits-zero zero y = refl
  digits-zero (suc fuel) y = refl

  -- Any two amounts of fuel that cover the first word give the same digits.
  digits-settled :
      (x y fuel more : ℕ)
      → x ≤ fuel
      → x ≤ more
      → digits last combine fuel x y ≡ digits last combine more x y
  digits-settled zero y fuel more _ _ = digits-zero fuel y ∙ sym (digits-zero more y)
  digits-settled (suc x) y (suc fuel) (suc more) le le' =
      rw (digits-settled (suc x / 2) (y / 2) fuel more (omega arith) (omega arith))
  digits-settled (suc x) y zero more le le' = absurd (omega arith)
  digits-settled (suc x) y (suc fuel) zero le le' = absurd (omega arith)

  lowest_digit :
      (x y : ℕ)
      → bitwise last combine (suc x) y
        ≡ 2 * bitwise last combine (suc x / 2) (y / 2) + combine (suc x % 2) (y % 2)
  lowest_digit x y =
      omega (arith, digits-settled (suc x / 2) (y / 2) x (suc x / 2) (omega arith) (le_refl _))

pub bit_and_step : (x y : ℕ) → bit_and x y ≡ bit_and (x / 2) (y / 2) * 2 + min (x % 2) (y % 2)
bit_and_step (suc x) y = simp bit_and-bitwise (omega (arith, lowest_digit (λ r. 0) min x y))
bit_and_step zero y = simp bit_and-bitwise (omega arith)

pub bit_or_step : (x y : ℕ) → bit_or x y ≡ bit_or (x / 2) (y / 2) * 2 + max (x % 2) (y % 2)
bit_or_step (suc x) y = simp bit_or-bitwise (omega (arith, lowest_digit (λ r. r) max x y))
bit_or_step zero y = simp bit_or-bitwise (omega arith)

differ_sum : (a b : ℕ) → a < 2 → b < 2 → differ a b ≡ (a + b) % 2
differ_sum zero zero ha hb = refl
differ_sum zero (suc zero) ha hb = refl
differ_sum (suc zero) zero ha hb = refl
differ_sum (suc zero) (suc zero) ha hb = refl
differ_sum (suc (suc a)) b ha hb = absurd (omega arith)
differ_sum zero (suc (suc b)) ha hb = absurd (omega arith)
differ_sum (suc zero) (suc (suc b)) ha hb = absurd (omega arith)

pub bit_xor_step : (x y : ℕ) → bit_xor x y ≡ bit_xor (x / 2) (y / 2) * 2 + (x + y) % 2
bit_xor_step (suc x) y = simp bit_xor-bitwise (
    omega (
      arith,
      lowest_digit (λ r. r) differ x y,
      differ_sum (suc x % 2) (y % 2) (omega arith) (omega arith),
    ))
bit_xor_step zero y = simp bit_xor-bitwise (omega arith)
