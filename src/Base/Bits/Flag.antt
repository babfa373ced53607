-- ===== src/Base/Bits/Flag.antt =====
-- The laws of single bits in arithmetic form: `flag x k` is `x / 2 ^ k % 2`.
use Prim.Native.Nat.{ℕ, zero, suc, ◌-◌, ◌*◌, ◌/◌, ◌%◌, ◌^◌, ◌≤◌, ◌<◌, min, max, bit_and, bit_or}
use mathlib.Core.Path.{◌≡◌, sym, ap, ap₂, ◌∙◌}
use mathlib.Core.Logic.{◌≢◌}
use native.Mathlib.Nat.{div-lt_iff_lt-mul, div-one, one-le-pow, pow-suc, pow-le-pow_right}
use native.Mathlib.Decide.{ℕ_discrete}
use native.Mathlib.Omega.{arith}
use r2vm.Base.Word.{is_set, is_clear, ◌==◌, if◌then◌else◌}
use r2vm.Base.Bits.Single
use r2vm.Base.Bits.Single.{bit}
use r2vm.Base.Bits.Fields.{flag, halved, bit_and-flag}

flag-eq-bit : (x k : ℕ) → flag x k ≡ bit x k
unfolding bit
flag-eq-bit x zero = ap (λ (t : ℕ). t % 2) (div-one x)
flag-eq-bit x (suc k) = ap (λ (t : ℕ). t % 2) (sym (halved x k)) ∙ flag-eq-bit (x / 2) k

pub flag-bit_and : (a b k : ℕ) → flag (bit_and a b) k ≡ min (flag a k) (flag b k)
flag-bit_and a b k =
    flag-eq-bit (bit_and a b) k
    ∙ Single.bit-bit_and a b k
    ∙ ap₂ min (sym (flag-eq-bit a k)) (sym (flag-eq-bit b k))

pub flag-bit_or : (a b k : ℕ) → flag (bit_or a b) k ≡ max (flag a k) (flag b k)
flag-bit_or a b k =
    flag-eq-bit (bit_or a b) k
    ∙ Single.bit-bit_or a b k
    ∙ ap₂ max (sym (flag-eq-bit a k)) (sym (flag-eq-bit b k))

-- `!x` at a width of `w` bits.
pub flag-complement : (w x k : ℕ) → x < 2 ^ w → k < w → flag (2 ^ w - 1 - x) k ≡ 1 - flag x k
flag-complement w x k hx hk =
    omega (arith, flag-eq-bit (2 ^ w - 1 - x) k, flag-eq-bit x k, Single.bit-complement w x k hx hk)

pub flag-pow_self : (k : ℕ) → flag (2 ^ k) k ≡ 1
flag-pow_self k = flag-eq-bit (2 ^ k) k ∙ Single.bit-pow_self k

pub flag-pow_ne : (k i : ℕ) → i ≢ k → flag (2 ^ k) i ≡ 0
flag-pow_ne k i ne = flag-eq-bit (2 ^ k) i ∙ Single.bit-pow_ne k i ne

pub flag_ext : (w a b : ℕ) → a < 2 ^ w → b < 2 ^ w → ((i : ℕ) → i < w → flag a i ≡ flag b i) → a ≡ b
flag_ext w a b ha hb h =
    Single.bit_ext w a b ha hb (λ i hi. sym (flag-eq-bit a i) ∙ h i hi ∙ flag-eq-bit b i)

-- `x & (1 << k) != 0`.
pub is_set-flag : (x k : ℕ) → is_set x (2 ^ k) ≡ (flag x k == 1)
is_set-flag x k = ground (arith, bit_and-flag k x, one-le-pow k 2)

pub is_clear-flag : (x k : ℕ) → is_clear x (2 ^ k) ≡ (flag x k == 0)
is_clear-flag x k = ground (arith, bit_and-flag k x, one-le-pow k 2)

pub pow-lt : (k w : ℕ) → k < w → 2 ^ k < 2 ^ w
pow-lt k w h = omega (arith, pow-le-pow_right {n = 2} (omega arith) h, pow-suc 2 k, one-le-pow k 2)

pub flag-pow : (k i : ℕ) → flag (2 ^ k) i ≡ (if i == k then 1 else 0)
flag-pow k i = elim (ℕ_discrete i k) [
  | yes e ↦ ground (arith, flag-pow_self k)
  | no e ↦ ground (arith, flag-pow_ne k i e)
]

-- `x |= 1 << k` sets bit `k` and no other.
pub flag-set : (x k i : ℕ) → flag (bit_or x (2 ^ k)) i ≡ (if i == k then 1 else flag x i)
flag-set x k i = ground (arith, flag-bit_or x (2 ^ k) i, flag-pow k i)

-- `x &= !(1 << k)`, at a width of `w` bits, clears bit `k` and no other.
pub flag-clear :
    (w x k i : ℕ)
    → k < w
    → i < w
    → flag (bit_and x (2 ^ w - 1 - 2 ^ k)) i ≡ (if i == k then 0 else flag x i)
flag-clear w x k i hk hi = ground (
  arith,
  flag-bit_and x (2 ^ w - 1 - 2 ^ k) i,
  flag-pow k i,
  flag-complement w (2 ^ k) i (pow-lt k w hk) hi,
)

pub flag-zero : (k : ℕ) → flag 0 k ≡ 0
flag-zero k = flag-eq-bit 0 k ∙ Single.bit-zero k

-- A word below `2 ^ n` has no bit from `n` on.
pub flag_below : (n x k : ℕ) → x < 2 ^ n → n ≤ k → flag x k ≡ 0
flag_below n x k h le =
    let small : x < 1 * 2 ^ k = omega (arith, pow-le-pow_right {n = 2} (omega arith) le) in
    let quotient : x / 2 ^ k < 1 =
      ground
        (arith, div-lt_iff_lt-mul {k = 2 ^ k} {x = x} {y = 1} (one-le-pow k 2 (omega arith))) in
    omega arith
