-- ===== src/Riscv/Compressed/Total.antt =====
-- `decode_compressed` accepts every 16-bit instruction: its `unreachable!` arms cannot be reached.
use r2vm.Base.{ℕ, ◌/◌, ◌%◌, ◌^◌, ◌<◌, ◌≡◌, ◌≢◌, arith, true, some}
use r2vm.Base.{bit_and-mask, is_some, witness_of}
use r2vm.Riscv.Op.{Op}
use r2vm.Riscv.Compressed.Fields
use r2vm.Riscv.Compressed.{
  quadrant0, register_arith, misc_alu, quadrant1, jump_or_add, quadrant2, decode_compressed,
}

quadrant0-total : (bits function : ℕ) → function < 8 → is_some (quadrant0 bits function) ≡ true
unfolding quadrant0
quadrant0-total bits function h = ground (arith, h)

register_arith-total : (bits rs1 : ℕ) → is_some (register_arith bits rs1) ≡ true
unfolding register_arith
register_arith-total bits rs1 = ground (arith, bit_and-mask 2 (bits / 2 ^ 5))

misc_alu-total : (bits : ℕ) → is_some (misc_alu bits) ≡ true
unfolding misc_alu
misc_alu-total bits =
    ground (arith, bit_and-mask 2 (bits / 2 ^ 10), register_arith-total bits (Fields.c_rs1s bits))

quadrant1-total : (bits function : ℕ) → function < 8 → is_some (quadrant1 bits function) ≡ true
unfolding quadrant1
quadrant1-total bits function h = ground (arith, h, misc_alu-total bits)

jump_or_add-total : (bits : ℕ) → is_some (jump_or_add bits) ≡ true
unfolding jump_or_add
jump_or_add-total bits = ground arith

quadrant2-total : (bits function : ℕ) → function < 8 → is_some (quadrant2 bits function) ≡ true
unfolding quadrant2
quadrant2-total bits function h = ground (arith, h, jump_or_add-total bits)

-- Every word that does not end in the bits 11, so every 16-bit instruction, is decoded:
-- `decode_compressed` does not panic.
pub decode_compressed-total :
    (bits : ℕ) → bits % 4 ≢ 3 → (op : Op) × (decode_compressed bits ≡ some op)
unfolding decode_compressed Fields.c_funct3
decode_compressed-total bits h = witness_of (decode_compressed bits) (
    ground (
      arith,
      h,
      bit_and-mask 2 bits,
      bit_and-mask 3 (bits / 2 ^ 13),
      quadrant0-total bits (Fields.c_funct3 bits),
      quadrant1-total bits (Fields.c_funct3 bits),
      quadrant2-total bits (Fields.c_funct3 bits),
    ))
