-- ===== src/Io/Clint/Registers.antt =====
-- Writes to the registers of the interruptor, and reads of what was written.
use r2vm.Base.{
  ℕ, ◌+◌, ◌-◌, ◌*◌, ◌/◌, ◌%◌, ◌^◌, ◌<◌, ◌≡◌, refl, sym, ap, ◌∙◌, arith, true, false, leb,
}
use r2vm.Base.{
  bit_and, not64, flag, flag_ext, flag-bit_and, flag-complement, flag-pow, bit_and-le, get_or,
  length, length-set, get_or-set_self,
}
use native.Mathlib.Decide.{ℕ_discrete}
use r2vm.Io.Clint.{Clint, read, write, write_mtimecmp}

-- `addr & !4` of an address that is a multiple of 8.
aligned : (a : ℕ) → a < 2 ^ 64 → a % 8 ≡ 0 → bit_and a (not64 4) ≡ a
aligned a h e =
    flag_ext 64 (bit_and a (not64 4)) a (omega (arith, bit_and-le a (not64 4), h)) h (λ i hi.
      elim (ℕ_discrete i 2) [
        | yes z ↦
            ap (λ k. flag (bit_and a (not64 4)) k) z
            ∙ omega (arith, flag-bit_and a (not64 4) 2, e)
            ∙ sym (ap (flag a) z)
        | no ne ↦ ground (
          arith,
          flag-bit_and a (not64 4) i,
          flag-complement 64 4 i (omega arith) hi,
          flag-pow 2 i,
          ne,
        )
      ])

module _ (s : Clint) (now hart : ℕ) (inside : hart < length s.mtimecmp) (small : hart < 4095) where
  abbrev addr : ℕ
  addr = 0x4000 + 8 * hart

  above : leb addr 0x3FFF ≡ false
  above = ground arith

  from : leb 0x4000 addr ≡ true
  from = ground arith

  to : leb addr 0xBFF7 ≡ true
  to = ground (arith, small)

  index : (addr - 0x4000) / 8 ≡ hart
  index = omega arith

  present : leb (length s.mtimecmp) hart ≡ false
  present = ground (arith, inside)

  base : bit_and addr (not64 4) ≡ addr
  base = aligned addr (omega (arith, small)) (omega arith)

  pub write-at : (value : ℕ) → write s now addr value 8 ≡ write_mtimecmp s now hart value
  unfolding write
  write-at value = rw (base, above, from, to, index, present) refl

  pub read-at : read s now addr 8 ≡ get_or s.mtimecmp hart 0
  unfolding read
  read-at = rw (base, above, from, to, index, present) refl

-- A comparator that is written is read back, at any later time.
pub read-write :
    (s : Clint) (now later hart value : ℕ)
    → hart < length s.mtimecmp
    → hart < 4095
    → read (write s now (0x4000 + 8 * hart) value 8) later (0x4000 + 8 * hart) 8 ≡ value
unfolding write_mtimecmp
read-write s now later hart value h small =
    ap (λ (c : Clint). read c later (0x4000 + 8 * hart) 8) (write-at s now hart h small value)
    ∙ read-at (write_mtimecmp s now hart value) later hart
        (omega (arith, length-set s.mtimecmp hart value, h)) small
    ∙ get_or-set_self s.mtimecmp hart value 0 h
