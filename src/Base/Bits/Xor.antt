-- ===== src/Base/Bits/Xor.antt =====
-- `^` of words: its lowest digit, its fields, and that it undoes itself.
use Prim.Native.Nat.{ℕ, zero, suc, ◌+◌, ◌*◌, ◌/◌, ◌%◌, ◌^◌, ◌≤◌, ◌<◌, bit_xor, bit_xor-bitwise}
use mathlib.Core.Path.{◌≡◌, refl, sym, ap, ap₂, ◌∙◌}
use native.Mathlib.Nat.{pow-suc}
use native.Mathlib.Omega.{arith}
use r2vm.Base.Bits.Step.{bit_xor_step}

half-lt : (n a : ℕ) → a ≤ suc n → a / 2 ≤ n
half-lt n a h = omega arith

bit_xor-half : (a b : ℕ) → bit_xor a b / 2 ≡ bit_xor (a / 2) (b / 2)
bit_xor-half a b = omega (arith, bit_xor_step a b)

cancel_below : (n a b : ℕ) → a ≤ n → b ≤ n → bit_xor (bit_xor a b) b ≡ a
cancel_below zero zero zero ha hb = refl
cancel_below zero (suc a) b ha hb = absurd (omega arith)
cancel_below zero zero (suc b) ha hb = absurd (omega arith)
cancel_below (suc n) a b ha hb = omega (
  arith,
  bit_xor_step (bit_xor a b) b,
  ap (λ (t : ℕ). bit_xor t (b / 2)) (bit_xor-half a b),
  bit_xor_step a b,
  cancel_below n (a / 2) (b / 2) (half-lt n a ha) (half-lt n b hb),
)

-- `a ^ b ^ b` is `a`.
pub bit_xor-cancel : (a b : ℕ) → bit_xor (bit_xor a b) b ≡ a
bit_xor-cancel a b = cancel_below (a + b) a b (omega arith) (omega arith)

pub zero-bit_xor : (a : ℕ) → bit_xor 0 a ≡ a
zero-bit_xor a = bit_xor-bitwise 0 a

pub bit_xor_self : (a : ℕ) → bit_xor a a ≡ 0
bit_xor_self a = ap (λ (t : ℕ). bit_xor t a) (sym (zero-bit_xor a)) ∙ bit_xor-cancel 0 a

low_half : (k p r : ℕ) → (p * 2 ^ suc k + r) / 2 ≡ p * 2 ^ k + r / 2
low_half k p r = omega (arith, ap (λ (t : ℕ). p * t) (pow-suc 2 k))

low_digit : (k p r : ℕ) → (p * 2 ^ suc k + r) % 2 ≡ r % 2
low_digit k p r = omega (arith, ap (λ (t : ℕ). p * t) (pow-suc 2 k))

-- Fields of a `^` are taken apart.
pub bit_xor-fields :
    (k p q r s : ℕ)
    → r < 2 ^ k
    → s < 2 ^ k
    → bit_xor (p * 2 ^ k + r) (q * 2 ^ k + s) ≡ bit_xor p q * 2 ^ k + bit_xor r s
bit_xor-fields zero p q r s hr hs =
    rw (shown p r hr, shown q s hs) (omega (arith, ap₂ bit_xor (zero_of r hr) (zero_of s hs)))
  where
    zero_of : (r : ℕ) → r < 2 ^ 0 → r ≡ 0
    zero_of r h = omega arith

    shown : (p r : ℕ) → r < 2 ^ 0 → p * 2 ^ 0 + r ≡ p
    shown p r h = omega arith
bit_xor-fields (suc k) p q r s hr hs = omega (
  arith,
  bit_xor_step (p * 2 ^ suc k + r) (q * 2 ^ suc k + s),
  ap₂ bit_xor (low_half k p r) (low_half k q s),
  low_digit k p r,
  low_digit k q s,
  bit_xor_step r s,
  ap (λ (t : ℕ). bit_xor p q * t) (pow-suc 2 k),
  bit_xor-fields k p q (r / 2) (s / 2) (omega (arith, pow-suc 2 k)) (omega (arith, pow-suc 2 k)),
)
