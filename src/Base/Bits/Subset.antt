-- ===== src/Base/Bits/Subset.antt =====
-- Words as sets of bits: which bits a conjunction and a disjunction can have.
use Prim.Native.Nat.{ℕ, zero, suc, ◌^◌, ◌<◌, bit_and, bit_or}
use mathlib.Core.Path.{◌≡◌}
use native.Mathlib.Nat.{pow-suc}
use native.Mathlib.Omega.{arith}
use r2vm.Base.Bits.Fields.{flag, bit_and-le, bit_or-lt}
use r2vm.Base.Bits.Flag.{flag_ext, flag-bit_and, flag-bit_or, flag-zero}

lt-pow_self : (a : ℕ) → a < 2 ^ a
lt-pow_self zero = omega arith
lt-pow_self (suc a) = omega (arith, lt-pow_self a, pow-suc 2 a)

pub bit_and-right_comm : (a b c : ℕ) → bit_and (bit_and a b) c ≡ bit_and (bit_and a c) b
bit_and-right_comm a b c =
    flag_ext a (bit_and (bit_and a b) c) (bit_and (bit_and a c) b)
      (omega (arith, lt-pow_self a, bit_and-le a b, bit_and-le (bit_and a b) c))
      (omega (arith, lt-pow_self a, bit_and-le a c, bit_and-le (bit_and a c) b))
      (λ i hi. omega (
        arith,
        flag-bit_and a b i,
        flag-bit_and (bit_and a b) c i,
        flag-bit_and a c i,
        flag-bit_and (bit_and a c) b i,
      ))

-- Fewer bits on the left of two conjunctions: what was empty stays empty.
pub bit_and-shrink_zero :
    (a n e y : ℕ) → bit_and (bit_and a e) y ≡ 0 → bit_and (bit_and (bit_and a n) e) y ≡ 0
bit_and-shrink_zero a n e y h =
    rw (bit_and-right_comm a n e, bit_and-right_comm (bit_and a e) n y)
      (omega (arith, bit_and-le (bit_and (bit_and a e) y) n))

-- A word without a bit is zero.
pub zero_of-flags : (a : ℕ) → ((i : ℕ) → flag a i ≡ 0) → a ≡ 0
zero_of-flags a h =
    flag_ext a a 0 (lt-pow_self a) (omega (arith, lt-pow_self a))
      (λ i hi. omega (arith, h i, flag-zero i))

pub bit_or-zero_left : (a b : ℕ) → bit_or a b ≡ 0 → a ≡ 0
bit_or-zero_left a b h = zero_of-flags a (λ i. ground (arith, flag-bit_or a b i, flag-zero i, h))

pub bit_or-zero_right : (a b : ℕ) → bit_or a b ≡ 0 → b ≡ 0
bit_or-zero_right a b h = zero_of-flags b (λ i. ground (arith, flag-bit_or a b i, flag-zero i, h))

-- `mask` is in `a` already: joining it changes nothing.
pub bit_or-absorb : (a mask : ℕ) → bit_and a mask ≡ mask → bit_or a mask ≡ a
bit_or-absorb a mask h =
    flag_ext a (bit_or a mask) a
      (bit_or-lt a a mask (lt-pow_self a) (omega (arith, lt-pow_self a, bit_and-le a mask)))
      (lt-pow_self a) (λ i hi. ground (arith, flag-bit_or a mask i, flag-bit_and a mask i, h))
