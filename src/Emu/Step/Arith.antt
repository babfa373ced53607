-- ===== src/Emu/Step/Arith.antt =====
-- The arithmetic of `step` that Rust writes with casts and wrapping operations: registers are 64-bit
-- patterns, an `i32` immediate is a 32-bit pattern.
use r2vm.Base.{ℕ, ◌-◌, ◌*◌, ◌/◌, ◌%◌, ◌^◌, Bool, not, ◌==◌, ltb, if◌then◌else◌}
use r2vm.Base.{sign_extend, sra, slt, wrapping_sub, u64, ◌>>>◌}

-- `b as u64`.
abbrev pub bit : Bool → ℕ
bit b = if b then 1 else 0

-- `value as i32 as u64`.
abbrev pub i32_as_u64 : ℕ → ℕ
i32_as_u64 = sign_extend 32 64

abbrev pub imm_as_u64 : ℕ → ℕ
imm_as_u64 = sign_extend 32 64

-- The product of two `i64` in 128 bits, shifted right by 64.
unfoldable pub mulh : ℕ → ℕ → ℕ
mulh a b = u64 (sra 128 (sign_extend 64 128 a * sign_extend 64 128 b % 2 ^ 128) 64)

unfoldable pub mulhsu : ℕ → ℕ → ℕ
mulhsu a b = let r = a * b >>> 64 in if not (ltb a (2 ^ 63)) then wrapping_sub 64 r b else r

unfoldable pub mulhu : ℕ → ℕ → ℕ
mulhu a b = a * b >>> 64

-- The absolute value of a signed word, and the negated word.
abbrev pub negated : (w x : ℕ) → ℕ
negated w x = (2 ^ w - x) % 2 ^ w

abbrev pub magnitude : (w x : ℕ) → ℕ
magnitude w x = if ltb x (2 ^ (w - 1)) then x else 2 ^ w - x

-- `wrapping_div` and `wrapping_rem` of an `iW`: towards zero, and the remainder has the sign of the
-- dividend.
unfoldable pub wrapping_div : (w a b : ℕ) → ℕ
wrapping_div w a b =
    let q = magnitude w a / magnitude w b in
    if ltb a (2 ^ (w - 1))
    then (if ltb b (2 ^ (w - 1)) then q else negated w q)
    else (if ltb b (2 ^ (w - 1)) then negated w q else q)

unfoldable pub wrapping_rem : (w a b : ℕ) → ℕ
wrapping_rem w a b =
    let r = magnitude w a % magnitude w b in if ltb a (2 ^ (w - 1)) then r else negated w r

unfoldable pub div : (w a b : ℕ) → ℕ
unfolding wrapping_div
div w a b = if b == 0 then 2 ^ w - 1 else wrapping_div w a b

unfoldable pub divu : (w a b : ℕ) → ℕ
divu w a b = if b == 0 then 2 ^ w - 1 else a / b

unfoldable pub rem : (w a b : ℕ) → ℕ
unfolding wrapping_rem
rem w a b = if b == 0 then a else wrapping_rem w a b

unfoldable pub remu : (w a b : ℕ) → ℕ
remu w a b = if b == 0 then a else a % b

-- `min` and `max` of an `iW`.
unfoldable pub signed_min : (w a b : ℕ) → ℕ
signed_min w a b = if slt w a b then a else b

unfoldable pub signed_max : (w a b : ℕ) → ℕ
signed_max w a b = if slt w a b then b else a
