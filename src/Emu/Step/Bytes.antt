-- ===== src/Emu/Step/Bytes.antt =====
-- Memory behind a pointer, as bytes: what `*ptr` and `*ptr = v` of a `u8`, `u16`, `u32` or `u64` do on
-- a little-endian host.
use native.Mathlib.Nat.{pow-suc}
use r2vm.Base.{
  ℕ, zero, suc, ◌+◌, ◌*◌, ◌/◌, ◌^◌, ◌<◌, ◌≡◌, refl, ap, ◌∙◌, arith, ◌==◌, if◌then◌else◌, u8,
}

abbrev pub Memory : Type 0
Memory = ℕ → ℕ

-- The word of `size` bytes at an address.
unfoldable pub load : (size : ℕ) → Memory → ℕ → ℕ
load zero mem a = 0
load (suc size) mem a = u8 (mem a) + 2 ^ 8 * load size mem (a + 1)

unfoldable pub store_byte : Memory → ℕ → ℕ → Memory
store_byte mem a v = λ x. if x == a then u8 v else mem x

unfoldable pub store : (size : ℕ) → Memory → ℕ → ℕ → Memory
unfolding store_byte
store zero mem a v = mem
store (suc size) mem a v = store size (store_byte mem a v) (a + 1) (v / 2 ^ 8)

-- A byte below the word that is stored stays.
store-below : (size : ℕ) (mem : Memory) (a v x : ℕ) → x < a → store size mem a v x ≡ mem x
unfolding store store_byte
store-below zero mem a v x h = refl
store-below (suc size) mem a v x h =
    store-below size (store_byte mem a v) (a + 1) (v / 2 ^ 8) x (omega arith) ∙ ground (arith, h)

byte_stored : (mem : Memory) (a v : ℕ) → store_byte mem a v a ≡ u8 v
unfolding store_byte
byte_stored mem a v = ground arith

pow-sum : (k m : ℕ) → 2 ^ (k + m) ≡ 2 ^ k * 2 ^ m
pow-sum zero m = omega (arith, ap (λ (t : ℕ). 2 ^ t) {x = zero + m} {y = m} (omega arith))
pow-sum (suc k) m = omega (
  arith,
  ap (λ (t : ℕ). 2 ^ t) {x = suc k + m} {y = suc (k + m)} (omega arith),
  pow-suc 2 (k + m),
  pow-suc 2 k,
  pow-sum k m,
  ap (λ (t : ℕ). t * 2 ^ m) (pow-suc 2 k),
)

pow-bytes : (size : ℕ) → 2 ^ (8 * suc size) ≡ 2 ^ 8 * 2 ^ (8 * size)
pow-bytes size =
    ap (λ (t : ℕ). 2 ^ t) {x = 8 * suc size} {y = 8 + 8 * size} (omega arith) ∙ pow-sum 8 (8 * size)

-- A word that fits its size is read back.
pub load-store :
    (size : ℕ) (mem : Memory) (a v : ℕ) → v < 2 ^ (8 * size) → load size (store size mem a v) a ≡ v
unfolding load store
load-store zero mem a v h = omega arith
load-store (suc size) mem a v h =
    rw
      (
        store-below size (store_byte mem a v) (a + 1) (v / 2 ^ 8) a (omega arith),
        byte_stored mem a v,
        load-store size (store_byte mem a v) (a + 1) (v / 2 ^ 8) (omega (arith, h, pow-bytes size)),
      )
      (omega arith)
