-- ===== src/Riscv/Decode/Fields.antt =====
-- The field helpers of `decode.rs` for 32-bit instructions. An immediate is an `i32`, held as its
-- 32-bit pattern; `|` is made from left to right, as in the source.
use r2vm.Base.{ℕ, ◌>>>◌, bit_and, bit_or, u8, u16, sra, sll}

unfoldable pub rd : ℕ → ℕ
rd bits = u8 (bit_and (bits >>> 7) 0b11111)

unfoldable pub rs1 : ℕ → ℕ
rs1 bits = u8 (bit_and (bits >>> 15) 0b11111)

unfoldable pub rs2 : ℕ → ℕ
rs2 bits = u8 (bit_and (bits >>> 20) 0b11111)

unfoldable pub rs3 : ℕ → ℕ
rs3 bits = u8 (bit_and (bits >>> 27) 0b11111)

unfoldable pub funct3 : ℕ → ℕ
funct3 bits = bit_and (bits >>> 12) 0b111

unfoldable pub funct7 : ℕ → ℕ
funct7 bits = bit_and (bits >>> 25) 0b1111111

unfoldable pub csr : ℕ → ℕ
csr bits = u16 (bits >>> 20)

unfoldable pub i_imm : ℕ → ℕ
i_imm bits = sra 32 bits 20

unfoldable pub s_imm : ℕ → ℕ
s_imm bits = bit_or (sra 32 (bit_and bits 0xfe000000) 20) (sra 32 (bit_and bits 0xf80) 7)

unfoldable pub b_imm : ℕ → ℕ
b_imm bits =
    bit_or
      (bit_or (bit_or (sra 32 (bit_and bits 0x80000000) 19) (sll 32 (bit_and bits 0x80) 4))
        (sra 32 (bit_and bits 0x7e000000) 20))
      (sra 32 (bit_and bits 0xf00) 7)

unfoldable pub u_imm : ℕ → ℕ
u_imm bits = bit_and bits 0xfffff000

unfoldable pub j_imm : ℕ → ℕ
j_imm bits =
    bit_or
      (bit_or (bit_or (sra 32 (bit_and bits 0x80000000) 11) (sra 32 (bit_and bits 0xff000) 0))
        (sra 32 (bit_and bits 0x100000) 9))
      (sra 32 (bit_and bits 0x7fe00000) 20)
