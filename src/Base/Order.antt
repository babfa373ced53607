-- ===== src/Base/Order.antt =====
-- The Boolean tests of order, on numbers in a known order.
use Prim.Native.Nat.{ℕ, ◌≤◌, ◌<◌}
use mathlib.Core.Bool.{true, false}
use mathlib.Core.Path.{◌≡◌}
use native.Mathlib.Omega.{arith}
use r2vm.Base.Word.{ltb, leb}

pub ltb-true : (a b : ℕ) → a < b → ltb a b ≡ true
ltb-true a b p = ground arith

pub ltb-false : (a b : ℕ) → b ≤ a → ltb a b ≡ false
ltb-false a b p = ground arith

pub leb-true : (a b : ℕ) → a ≤ b → leb a b ≡ true
leb-true a b p = ground arith

pub leb-false : (a b : ℕ) → b < a → leb a b ≡ false
leb-false a b p = ground arith
