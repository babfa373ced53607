-- ===== src/Base/Bits/Fields.antt =====
-- Masks and shifted fields as arithmetic: `x & (2^k - 1)`, a run of ones in the middle, one bit,
-- and `|` of fields that do not overlap.
use Prim.Native.Nat.{ℕ, zero, suc, ◌+◌, ◌-◌, ◌*◌, ◌/◌, ◌%◌, ◌^◌, ◌≤◌, ◌<◌, bit_and, bit_or}
use Prim.Native.Nat.{bit_and-bitwise, bit_or-bitwise}
use mathlib.Core.Path.{◌≡◌, refl, sym, ap, ◌∙◌}
use native.Mathlib.Nat.{pow-suc, one-le-pow, div-one, mul-one, one-mul, div-div-eq-div-mul}
use mathlib.Core.Bool.{Bool, true, ◌&&◌}
use native.Mathlib.Omega.{arith}
use r2vm.Base.Bits.Step.{bit_and_step, bit_or_step}

half-lt : (n a : ℕ) → suc a ≤ suc n → suc a / 2 ≤ n
half-lt n a h = omega arith

bit_or-zero_below : (n a : ℕ) → a ≤ n → bit_or a 0 ≡ a
bit_or-zero_below n zero h = refl
bit_or-zero_below zero (suc a) h = absurd (omega arith)
bit_or-zero_below (suc n) (suc a) h =
    omega (arith, bit_or_step (suc a) 0, bit_or-zero_below n (suc a / 2) (half-lt n a h))

pub bit_or-zero : (a : ℕ) → bit_or a 0 ≡ a
bit_or-zero a = bit_or-zero_below a a (omega arith)

bit_and-zero_below : (n a : ℕ) → a ≤ n → bit_and a 0 ≡ 0
bit_and-zero_below n zero h = refl
bit_and-zero_below zero (suc a) h = absurd (omega arith)
bit_and-zero_below (suc n) (suc a) h =
    omega (arith, bit_and_step (suc a) 0, bit_and-zero_below n (suc a / 2) (half-lt n a h))

pub bit_and-zero : (a : ℕ) → bit_and a 0 ≡ 0
bit_and-zero a = bit_and-zero_below a a (omega arith)

zero-bit_or : (a : ℕ) → bit_or 0 a ≡ a
zero-bit_or a = bit_or-bitwise 0 a

double-shifted : (q k : ℕ) → q * 2 ^ suc k ≡ 2 * (q * 2 ^ k)
double-shifted q k = omega (arith, ap (λ (t : ℕ). q * t) (pow-suc 2 k))

-- `(q << k) | r` is a sum where `r` fits `k` bits.
pub bit_or-fields : (k q r : ℕ) → r < 2 ^ k → bit_or (q * 2 ^ k) r ≡ q * 2 ^ k + r
bit_or-fields zero q r h = ground (arith, bit_or-zero q)
bit_or-fields (suc k) q r h = ground (
  arith,
  bit_or_step (q * 2 ^ suc k) r,
  double-shifted q k,
  pow-suc 2 k,
  bit_or-fields k q (r / 2) (omega (arith, pow-suc 2 k)),
)

-- The fields in the other order.
pub bit_or-fields_right : (k q r : ℕ) → r < 2 ^ k → bit_or r (q * 2 ^ k) ≡ q * 2 ^ k + r
bit_or-fields_right zero q r h = ground (arith, zero-bit_or (q * 2 ^ 0))
bit_or-fields_right (suc k) q r h = ground (
  arith,
  bit_or_step r (q * 2 ^ suc k),
  double-shifted q k,
  pow-suc 2 k,
  bit_or-fields_right k q (r / 2) (omega (arith, pow-suc 2 k)),
)

bit_and-low_part : (k q r : ℕ) → r < 2 ^ k → bit_and (q * 2 ^ k + r) (2 ^ k - 1) ≡ r
bit_and-low_part zero q r h = rw (bit_and-zero (q * 2 ^ 0 + r)) (omega arith)
bit_and-low_part (suc k) q r h = ground (
  arith,
  bit_and_step (q * 2 ^ suc k + r) (2 ^ suc k - 1),
  double-shifted q k,
  pow-suc 2 k,
  one-le-pow k 2,
  bit_and-low_part k q (r / 2) (omega (arith, pow-suc 2 k)),
)

-- `x & (2^k - 1)` is the remainder by `2^k`.
pub bit_and-mask : (k a : ℕ) → bit_and a (2 ^ k - 1) ≡ a % 2 ^ k
bit_and-mask k a = ground (arith, one-le-pow k 2, bit_and-low_part k (a / 2 ^ k) (a % 2 ^ k))

pub halved : (a k : ℕ) → a / 2 / 2 ^ k ≡ a / 2 ^ suc k
halved a k = div-div-eq-div-mul a 2 (2 ^ k) ∙ ap (λ (t : ℕ). a / t) (sym (two-pow-suc k))
  where
    two-pow-suc : (k : ℕ) → 2 ^ suc k ≡ 2 * 2 ^ k
    two-pow-suc k = omega (arith, pow-suc 2 k)

-- A mask with `k` zeros below `m` reads `m` of the word shifted right by `k`.
pub bit_and-shifted : (k a m : ℕ) → bit_and a (m * 2 ^ k) ≡ bit_and (a / 2 ^ k) m * 2 ^ k
bit_and-shifted zero a m = rw (mul-one m, mul-one (bit_and (a / 2 ^ 0) m), div-one a)
bit_and-shifted (suc k) a m = ground (
  arith,
  bit_and_step a (m * 2 ^ suc k),
  double-shifted m k,
  double-shifted (bit_and (a / 2 ^ suc k) m) k,
  bit_and-shifted k (a / 2) m,
  halved a k,
)

-- `w` ones above `k` zeros cut out a field, left where it stands.
pub bit_and-field : (k w a : ℕ) → bit_and a ((2 ^ w - 1) * 2 ^ k) ≡ a / 2 ^ k % 2 ^ w * 2 ^ k
bit_and-field k w a =
    bit_and-shifted k a (2 ^ w - 1) ∙ ap (λ (t : ℕ). t * 2 ^ k) (bit_and-mask w (a / 2 ^ k))

-- A test passed by `0` to `bound - 1`, which evaluation can decide.
unfoldable pub all_below : (ℕ → Bool) → ℕ → Bool
all_below test zero = true
all_below test (suc bound) = all_below test bound && test bound

pub all_below_sound :
    (test : ℕ → Bool) (bound : ℕ)
    → all_below test bound ≡ true
    → (k : ℕ) → k < bound
    → test k ≡ true
unfolding all_below
all_below_sound test (suc bound) passed k lt = ground (arith, all_below_sound test bound _ k)
all_below_sound test zero passed k lt = absurd (omega arith)

-- `|` with a word below the field leaves the field alone.
pub bit_or-low_part :
    (k q r s : ℕ) → r < 2 ^ k → s < 2 ^ k → bit_or (q * 2 ^ k + r) s ≡ q * 2 ^ k + bit_or r s
bit_or-low_part zero q r s hr hs = ground (arith, bit_or-zero (q * 2 ^ 0 + r), bit_or-zero r)
bit_or-low_part (suc k) q r s hr hs = ground (
  arith,
  bit_or_step (q * 2 ^ suc k + r) s,
  bit_or_step r s,
  double-shifted q k,
  pow-suc 2 k,
  bit_or-low_part k q (r / 2) (s / 2) (omega (arith, pow-suc 2 k)) (omega (arith, pow-suc 2 k)),
)

-- Bit `k` of a word, in the form that the arithmetic tactics read at a numeral `k`.
abbrev pub flag : ℕ → ℕ → ℕ
flag x k = x / 2 ^ k % 2

-- `x & (1 << k)`.
pub bit_and-flag : (k x : ℕ) → bit_and x (2 ^ k) ≡ flag x k * 2 ^ k
bit_and-flag k x = ap (bit_and x) (sym (one-mul (2 ^ k))) ∙ bit_and-field k 1 x

pub bit_or-lt : (w a b : ℕ) → a < 2 ^ w → b < 2 ^ w → bit_or a b < 2 ^ w
bit_or-lt zero a b ha hb = ground (arith, bit_or-zero a)
bit_or-lt (suc w) a b ha hb = omega (
  arith,
  bit_or_step a b,
  pow-suc 2 w,
  bit_or-lt w (a / 2) (b / 2) (omega (arith, pow-suc 2 w)) (omega (arith, pow-suc 2 w)),
)

bit_and-le_below : (n a b : ℕ) → a ≤ n → bit_and a b ≤ a
bit_and-le_below n zero b h = omega (arith, bit_and-bitwise 0 b)
bit_and-le_below zero (suc a) b h = absurd (omega arith)
bit_and-le_below (suc n) (suc a) b h =
    omega (arith, bit_and_step (suc a) b, bit_and-le_below n (suc a / 2) (b / 2) (half-lt n a h))

pub bit_and-le : (a b : ℕ) → bit_and a b ≤ a
bit_and-le a b = bit_and-le_below a a b (omega arith)
