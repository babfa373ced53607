-- ===== src/Base/Bits/Signed.antt =====
-- `|` on the bit patterns of signed words: small words stay small, and even words even.
use Prim.Native.Nat.{ℕ, zero, suc, ◌+◌, ◌-◌, ◌/◌, ◌%◌, ◌^◌, ◌≤◌, ◌<◌, bit_or}
use mathlib.Core.Path.{◌≡◌}
use mathlib.Core.Logic.{◌⊎◌, inl, inr}
use native.Mathlib.Omega.{arith}
use r2vm.Base.Bits.Step.{bit_or_step}
use r2vm.Base.Bits.Fields.{bit_or-lt}

-- A 32-bit pattern whose signed reading fits `w` bits.
abbrev pub IsSigned : ℕ → ℕ → Type 0
IsSigned w x = (x < 2 ^ (w - 1)) ⊎ ((2 ^ 32 - 2 ^ (w - 1) ≤ x) × (x < 2 ^ 32))

bit_or-ge_below : (n a b : ℕ) → a ≤ n → b ≤ n → (a ≤ bit_or a b) × (b ≤ bit_or a b)
bit_or-ge_below zero a b p q = omega arith
bit_or-ge_below (suc n) a b p q =
    let (l, r) = bit_or-ge_below n (a / 2) (b / 2) (omega arith) (omega arith) in
    (omega (arith, bit_or_step a b, l), omega (arith, bit_or_step a b, r))

pub bit_or-ge : (a b : ℕ) → (a ≤ bit_or a b) × (b ≤ bit_or a b)
bit_or-ge a b = bit_or-ge_below (a + b) a b (omega arith) (omega arith)

pub bit_or-even : (a b : ℕ) → a % 2 ≡ 0 → b % 2 ≡ 0 → bit_or a b % 2 ≡ 0
bit_or-even a b p q = omega (arith, bit_or_step a b)

pub bit_or-IsSigned :
    (w a b : ℕ) → 2 ^ (w - 1) ≤ 2 ^ 32 → IsSigned w a → IsSigned w b → IsSigned w (bit_or a b)
bit_or-IsSigned w a b h (inl p) (inl q) = inl (bit_or-lt (w - 1) a b p q)
bit_or-IsSigned w a b h p (inr q) =
    inr (omega (arith, (bit_or-ge a b).1, q.0), bit_or-lt 32 a b (ground (arith, p, h)) q.1)
bit_or-IsSigned w a b h (inr p) q =
    inr (omega (arith, (bit_or-ge a b).0, p.0), bit_or-lt 32 a b p.1 (ground (arith, q, h)))
