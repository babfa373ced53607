-- ===== src/Base/Word.antt =====
-- Rust's fixed-width integers as native numbers: casts, shifts, wrapping arithmetic and the
-- signed reading of a bit pattern. A value of type `iN` is held as its `uN` bit pattern.
use Prim.Native.Nat.{ℕ, ◌+◌, ◌-◌, ◌*◌, ◌/◌, ◌%◌, ◌^◌, compare, Ordering, bit_and}
use mathlib.Core.Path.{◌≡◌, refl}
use mathlib.Core.Bool.{Bool, true, false, not}
use mathlib.Core.Logic.{◌⊎◌, inl, inr}

abbrev pub ltb : ℕ → ℕ → Bool
ltb a b = elim (compare a b) [ Ordering.lt ↦ true | _ ↦ false ]

abbrev pub leb : ℕ → ℕ → Bool
leb a b = elim (compare a b) [ Ordering.gt ↦ false | _ ↦ true ]

infix 50 ◌==◌
abbrev pub ◌==◌ : ℕ → ℕ → Bool
a == b = elim (compare a b) [ Ordering.eq ↦ true | _ ↦ false ]

infix 1 if◌then◌else◌
abbrev pub if◌then◌else◌ {ℓ} : {A : Type ℓ} → Bool → A → A → A
if true then x else y = x
if false then x else y = y

pub Bool-cases : (b : Bool) → (b ≡ true) ⊎ (b ≡ false)
Bool-cases true = inl refl
Bool-cases false = inr refl

abbrev pub u8 : ℕ → ℕ
u8 n = n % 2 ^ 8

abbrev pub u16 : ℕ → ℕ
u16 n = n % 2 ^ 16

abbrev pub u32 : ℕ → ℕ
u32 n = n % 2 ^ 32

abbrev pub u64 : ℕ → ℕ
u64 n = n % 2 ^ 64

-- `x >> k` of an unsigned word, and `x << k` before its result is cut to the width.
infixl 60 ◌<<<◌ ◌>>>◌
abbrev pub ◌<<<◌ : ℕ → ℕ → ℕ
x <<< k = x * 2 ^ k

abbrev pub ◌>>>◌ : ℕ → ℕ → ℕ
x >>> k = x / 2 ^ k

-- `!x` of a `u32` and of a `u64`.
abbrev pub not32 : ℕ → ℕ
not32 x = 2 ^ 32 - 1 - x

abbrev pub not64 : ℕ → ℕ
not64 x = 2 ^ 64 - 1 - x

-- `x & mask != 0` and `x & mask == 0`.
abbrev pub is_set : ℕ → ℕ → Bool
is_set x mask = not (bit_and x mask == 0)

abbrev pub is_clear : ℕ → ℕ → Bool
is_clear x mask = bit_and x mask == 0

-- `wrapping_add` and `wrapping_sub` at a width of `w` bits.
abbrev pub wrapping_add : ℕ → ℕ → ℕ → ℕ
wrapping_add w a b = (a + b) % 2 ^ w

abbrev pub wrapping_sub : ℕ → ℕ → ℕ → ℕ
wrapping_sub w a b = (a + 2 ^ w - b) % 2 ^ w

-- A bit pattern of `w` bits with its sign repeated up to `v` bits (`as i64`, `as u64` of an `iN`).
abbrev pub sign_extend : ℕ → ℕ → ℕ → ℕ
sign_extend w v x = if ltb x (2 ^ (w - 1)) then x else x + (2 ^ v - 2 ^ w)

-- `x >> k` of a signed word, `w` bits wide: the sign is shifted in.
abbrev pub sra : ℕ → ℕ → ℕ → ℕ
sra w x k = if ltb x (2 ^ (w - 1)) then x / 2 ^ k else x / 2 ^ k + (2 ^ w - 2 ^ (w - k))

-- `x << k` of a word, `w` bits wide.
abbrev pub sll : ℕ → ℕ → ℕ → ℕ
sll w x k = (x * 2 ^ k) % 2 ^ w

-- `a < b` of signed words, `w` bits wide.
abbrev pub slt : ℕ → ℕ → ℕ → Bool
slt w a b = ltb ((a + 2 ^ (w - 1)) % 2 ^ w) ((b + 2 ^ (w - 1)) % 2 ^ w)
