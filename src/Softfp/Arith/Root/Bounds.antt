-- ===== src/Softfp/Arith/Root/Bounds.antt =====
-- Where the root that the loop of `square_root` in `lib/softfp/src/fp.rs` finds may lie.
use Prim.Native.Nat.{◌≤◌}
use r2vm.Base.{ℕ, ◌+◌, ◌*◌, ◌%◌, ◌<◌, ◌≡◌, leb, ltb, Bool-cases, inl, inr, arith}
use r2vm.Softfp.Format.{Format}
use r2vm.Softfp.Round.Encoded.{scaled_le}
use r2vm.Softfp.Arith.Root.Loop.{IsRoot}

times_comm : (a b : ℕ) → a * b ≡ b * a
times_comm a b = grind arith

square_le : (a b : ℕ) → a ≤ b → a * a ≤ b * b
square_le a b p = omega (arith, scaled_le a b a p, scaled_le a b b p, times_comm a b)

square_suc : (q : ℕ) → (q + 1) * (q + 1) ≡ q * q + (2 * q + 1)
square_suc q = grind arith

square_double : (m : ℕ) → (2 * m) * (2 * m) ≡ 4 * (m * m)
square_double m = grind arith

pub four_times : (m : ℕ) → 4 * m * m ≡ 4 * (m * m)
four_times m = grind arith

-- The root of a number in [1, 4) is in [1, 2).
pub root_bounds :
    (f : Format) (n q m : ℕ)
    → IsRoot f n q
    → m % 2 ≡ 0
    → m * m ≤ n
    → n < 4 * (m * m)
    → (m ≤ q) × (q < 2 * m)
root_bounds f n _ m (IsRoot.exact q even square) p l h = (low, high)
  where
    low : m ≤ q
    low = elim (Bool-cases (leb m q)) [
      | inl fits ↦ ground arith
      | inr less ↦ omega (arith, square, l, square_suc q, square_le (q + 1) m (ground arith))
    ]

    high : q < 2 * m
    high = elim (Bool-cases (ltb q (2 * m))) [
      | inl fits ↦ ground arith
      | inr more ↦ omega (arith, square, h, square_double m, square_le (2 * m) q (ground arith))
    ]
root_bounds f n _ m (IsRoot.between q even below above) p l h = (low, high)
  where
    low : m ≤ q + 1
    low = elim (Bool-cases (leb m (q + 1))) [
      | inl fits ↦ ground arith
      | inr less ↦ omega (arith, above, l, square_le (q + 2) m (ground arith))
    ]

    high : q + 1 < 2 * m
    high = elim (Bool-cases (ltb (q + 1) (2 * m))) [
      | inl fits ↦ ground arith
      | inr more ↦
          omega (arith, below, h, square_double m, square_le (2 * m) q (ground (arith, even, p)))
    ]
