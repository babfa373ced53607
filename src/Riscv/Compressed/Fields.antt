-- ===== src/Riscv/Compressed/Fields.antt =====
-- The field helpers of `decode.rs` for compressed 16-bit instructions. An immediate is an `i32`, held
-- as its 32-bit pattern.
use r2vm.Base.{ℕ, ◌+◌, ◌>>>◌, bit_and, bit_or, u8, sra, sll}

unfoldable pub c_funct3 : ℕ → ℕ
c_funct3 bits = bit_and (bits >>> 13) 0b111

unfoldable pub c_rd : ℕ → ℕ
c_rd bits = u8 (bit_and (bits >>> 7) 0b11111)

unfoldable pub c_rs1 : ℕ → ℕ
unfolding c_rd
c_rs1 bits = c_rd bits

unfoldable pub c_rs2 : ℕ → ℕ
c_rs2 bits = u8 (bit_and (bits >>> 2) 0b11111)

unfoldable pub c_rds : ℕ → ℕ
c_rds bits = u8 (bit_and (bits >>> 2) 0b111) + 8

unfoldable pub c_rs1s : ℕ → ℕ
c_rs1s bits = u8 (bit_and (bits >>> 7) 0b111) + 8

unfoldable pub c_rs2s : ℕ → ℕ
unfolding c_rds
c_rs2s bits = c_rds bits

unfoldable pub ci_imm : ℕ → ℕ
ci_imm bits = bit_or (sra 32 (sll 32 (bit_and bits 0x1000) 19) 26) (sra 32 (bit_and bits 0x7c) 2)

unfoldable pub ci_lwsp_imm : ℕ → ℕ
ci_lwsp_imm bits =
    bit_or (bit_or (sll 32 (bit_and bits 0xc) 4) (sra 32 (bit_and bits 0x1000) 7))
      (sra 32 (bit_and bits 0x70) 2)

unfoldable pub ci_ldsp_imm : ℕ → ℕ
ci_ldsp_imm bits =
    bit_or (bit_or (sll 32 (bit_and bits 0x1c) 4) (sra 32 (bit_and bits 0x1000) 7))
      (sra 32 (bit_and bits 0x60) 2)

unfoldable pub ci_addi16sp_imm : ℕ → ℕ
ci_addi16sp_imm bits =
    bit_or
      (bit_or
        (bit_or
          (bit_or (sra 32 (sll 32 (bit_and bits 0x1000) 19) 22) (sll 32 (bit_and bits 0x18) 4))
          (sll 32 (bit_and bits 0x20) 1))
        (sll 32 (bit_and bits 0x4) 3))
      (sra 32 (bit_and bits 0x40) 2)

unfoldable pub css_swsp_imm : ℕ → ℕ
css_swsp_imm bits = bit_or (sra 32 (bit_and bits 0x180) 1) (sra 32 (bit_and bits 0x1e00) 7)

unfoldable pub css_sdsp_imm : ℕ → ℕ
css_sdsp_imm bits = bit_or (sra 32 (bit_and bits 0x380) 1) (sra 32 (bit_and bits 0x1c00) 7)

unfoldable pub ciw_imm : ℕ → ℕ
ciw_imm bits =
    bit_or
      (bit_or (bit_or (sra 32 (bit_and bits 0x780) 1) (sra 32 (bit_and bits 0x1800) 7))
        (sra 32 (bit_and bits 0x20) 2))
      (sra 32 (bit_and bits 0x40) 4)

unfoldable pub cl_lw_imm : ℕ → ℕ
cl_lw_imm bits =
    bit_or (bit_or (sll 32 (bit_and bits 0x20) 1) (sra 32 (bit_and bits 0x1c00) 7))
      (sra 32 (bit_and bits 0x40) 4)

unfoldable pub cl_ld_imm : ℕ → ℕ
cl_ld_imm bits = bit_or (sll 32 (bit_and bits 0x60) 1) (sra 32 (bit_and bits 0x1c00) 7)

unfoldable pub cs_sw_imm : ℕ → ℕ
unfolding cl_lw_imm
cs_sw_imm bits = cl_lw_imm bits

unfoldable pub cs_sd_imm : ℕ → ℕ
unfolding cl_ld_imm
cs_sd_imm bits = cl_ld_imm bits

unfoldable pub cb_imm : ℕ → ℕ
cb_imm bits =
    bit_or
      (bit_or
        (bit_or
          (bit_or (sra 32 (sll 32 (bit_and bits 0x1000) 19) 23) (sll 32 (bit_and bits 0x60) 1))
          (sll 32 (bit_and bits 0x4) 3))
        (sra 32 (bit_and bits 0xc00) 7))
      (sra 32 (bit_and bits 0x18) 2)

unfoldable pub cj_imm : ℕ → ℕ
cj_imm bits =
    bit_or
      (bit_or
        (bit_or
          (bit_or
            (bit_or
              (bit_or
                (bit_or (sra 32 (sll 32 (bit_and bits 0x1000) 19) 20)
                  (sll 32 (bit_and bits 0x100) 2))
                (sra 32 (bit_and bits 0x600) 1))
              (sll 32 (bit_and bits 0x40) 1))
            (sra 32 (bit_and bits 0x80) 1))
          (sll 32 (bit_and bits 0x4) 3))
        (sra 32 (bit_and bits 0x800) 7))
      (sra 32 (bit_and bits 0x38) 2)
