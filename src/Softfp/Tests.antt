-- ===== src/Softfp/Tests.antt =====
-- Concrete runs of the software floating point.
use Prim.Native.Nat.{compare}
use r2vm.Base.{ℕ, ◌+◌, ◌-◌, ◌*◌, ◌^◌, ◌≡◌, refl, some, true, false, arith}
use r2vm.Softfp.Format.{f32, f64, RoundingMode, ◌+i◌, ◌-i◌}
use r2vm.Softfp.Fields.Normal.{normal, IsNormal}
use r2vm.Softfp.Round.{round, normalize_and_round}
use r2vm.Softfp.Round.Sticky.{rounded}
use r2vm.Softfp.Round.Packed.{IsFormat, encoded}
use r2vm.Softfp.Round.Exponents.{unbiased}
use r2vm.Softfp.Round.Overflow.{finished, raised}
use r2vm.Softfp.Round.Subnormal.{underflowed, round-encoded}
use r2vm.Softfp.Round.Normalize.{normalize_and_round-finished}
use r2vm.Softfp.Compare.{compare_quiet}
use r2vm.Softfp.Compare.Order.{place, compare_quiet-place}
use r2vm.Softfp.Arith.{add, multiply, fused_multiply_add}
use r2vm.Softfp.Arith.Product.{multiply-finished}
use r2vm.Softfp.Arith.Divide.{divide}
use r2vm.Softfp.Arith.Root.Normal.{square_root-finished}
use r2vm.Softfp.Arith.Divide.Normal.{divide-finished}
use r2vm.Softfp.Arith.Root.{square_root}
use r2vm.Softfp.Arith.Root.Loop.{IsRoot}
use r2vm.Softfp.Convert.{convert_to_uint, convert_to_sint, convert_from_uint, convert_format}

abbrev even : RoundingMode
even = RoundingMode.ties_to_even

-- 1.5 + 0.25, 1.1 * 1.1, 1 / 3, sqrt 2.
sum : add f32 even 0x3fc00000 0x3e800000 0 ≡ some (0x3fe00000, 0)
unfolding add
sum = refl

square : multiply f64 even 0x3ff199999999999a 0x3ff199999999999a 0 ≡ some (0x3ff35c28f5c28f5d, 1)
unfolding multiply
square = refl

third : divide f32 even 0x3f800000 0x40400000 0 ≡ some (0x3eaaaaab, 1)
unfolding divide
third = refl

root_two : square_root f64 even 0x4000000000000000 0 ≡ some (0x3ff6a09e667f3bcd, 1)
unfolding square_root
root_two = refl

-- The smallest subnormal number, halved.
tiny : multiply f32 even 0x00000001 0x3f000000 0 ≡ some (0, 3)
unfolding multiply
tiny = refl

-- 2^32 as a `u32` is 0, and no flag is raised.
too_large : convert_to_uint f32 even 32 0x4f800000 0 ≡ some (0, 0)
unfolding convert_to_uint
too_large = refl

-- -0 * 1 + -0 is +0.
negative_zeros : fused_multiply_add f32 even 0x80000000 0x3f800000 0x80000000 0 ≡ some (0, 0)
unfolding fused_multiply_add
negative_zeros = refl

seven : convert_from_uint f32 even 64 7 0 ≡ some (0x40e00000, 0)
unfolding convert_from_uint
seven = refl

narrowed : convert_format f64 f32 even 0x3ff199999999999a 0 ≡ some (0x3f8ccccd, 1)
unfolding convert_format
narrowed = refl

truncated :
    convert_to_sint f64 RoundingMode.toward_zero 32 0xc00c000000000000 0 ≡ some (0xfffffffd, 1)
unfolding convert_to_sint
truncated = refl

f32-IsFormat : IsFormat f32
f32-IsFormat = record {
  holder_width = refl;
  exponent_low = omega arith;
  exponent_high = omega arith;
  significand_low = omega arith;
  double_width = omega arith;
  double_small = omega arith;
}

-- 1.5.
one_half-IsNormal : IsNormal f32 f32-IsFormat 127 4194304
one_half-IsNormal = record { low = omega arith; high = omega arith; fraction = omega arith }

-- 1.75.
three_quarters-IsNormal : IsNormal f32 f32-IsFormat 127 6291456
three_quarters-IsNormal = record { low = omega arith; high = omega arith; fraction = omega arith }

-- 2.
two-IsNormal : IsNormal f32 f32-IsFormat 128 0
two-IsNormal = record { low = omega arith; high = omega arith; fraction = omega arith }

-- 1.5 * -1.5.
multiply-finished_example :
    multiply f32 even
      (normal f32 f32-IsFormat false 127 4194304)
      (normal f32 f32-IsFormat true 127 4194304)
      0
    ≡ finished f32 even true
        ((128 - 1) * 2 ^ 23 + rounded even true (12582912 * (12582912 * 4)) (2 ^ 24 * 4))
        (raised 0 (12582912 * (12582912 * 4)) (2 ^ 24 * 4))
multiply-finished_example =
    multiply-finished f32 f32-IsFormat even false true 127 4194304 127 4194304 24 128 0
      one_half-IsNormal one_half-IsNormal (omega arith) (omega arith) (omega arith) (omega arith)
      (omega arith)

round-encoded_example :
    round f32 even false (unbiased f32 f32-IsFormat 1 -i 2) (2 ^ 25 + 12) 0
    ≡ some (
      encoded f32 false (rounded even false (2 ^ 25 + 12) (2 ^ 2 * 4)),
      underflowed f32 even false (2 ^ 25 + 12) (2 ^ 2 * 4) 0,
    )
round-encoded_example =
    round-encoded f32 even f32-IsFormat false 2 (2 ^ 25 + 12) 0 (omega arith) (omega arith)
      (omega arith)

-- 12345678 as a 64-bit integer, which has 24 bits, and its square with 47.
normalize_and_round-finished_example :
    normalize_and_round f32 even 64 false (23 +i 2) (12345678 * 12345678) 0
    ≡ finished f32 even false
        ((174 - 1) * 2 ^ 23 + rounded even false (12345678 * 12345678) (2 ^ 22 * 4))
        (raised 0 (12345678 * 12345678) (2 ^ 22 * 4))
normalize_and_round-finished_example =
    normalize_and_round-finished f32 f32-IsFormat even false 64 (23 +i 2) (12345678 * 12345678) 22
      174 0 (omega arith) (omega arith) (omega arith) (omega arith) (omega arith) (omega arith)
      (omega arith) (omega arith)

-- -1 and the negative zero.
compare_quiet-place_example :
    compare_quiet f32 (encoded f32 true 0x3f800000) (encoded f32 true 0)
    ≡ some (compare (place (2 ^ 31) true 0x3f800000) (place (2 ^ 31) true 0))
compare_quiet-place_example =
    compare_quiet-place f32 f32-IsFormat true true 0x3f800000 0 (omega arith) (omega arith)

-- 1.5 / -1.75, whose first significand is the smaller one.
divide-finished_example :
    divide f32 even
      (normal f32 f32-IsFormat false 127 4194304)
      (normal f32 f32-IsFormat true 127 6291456)
      0
    ≡ finished f32 even true
        ((126 - 1) * 2 ^ 23 + rounded even true (12582912 * 4 * 2 * 2 ^ 25) (14680064 * 4 * 4))
        (raised 0 (12582912 * 4 * 2 * 2 ^ 25) (14680064 * 4 * 4))
divide-finished_example =
    divide-finished f32 f32-IsFormat even false true 127 4194304 127 6291456 127 0 one_half-IsNormal
      three_quarters-IsNormal (omega arith) (omega arith)

-- The root of 2.
square_root-finished_example :
    (q : ℕ) × IsRoot f32 (2 ^ 25 * 2 * 2 ^ 25) q
    × (square_root f32 even (normal f32 f32-IsFormat false 128 0) 0
        ≡ finished f32 even false ((127 - 1) * 2 ^ 23 + rounded even false q 4) (raised 0 q 4))
square_root-finished_example = square_root-finished f32 f32-IsFormat even 128 0 0 two-IsNormal
