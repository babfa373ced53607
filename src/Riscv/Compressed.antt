-- ===== src/Riscv/Compressed.antt =====
-- `decode_compressed` of `lib/riscv/src/decode.rs`: one 16-bit instruction to an operation. The result
-- `none` stands for a panic (the `unreachable!` arms). Each quadrant is a function of its own.
pub mod Fields
pub mod Total
pub mod Ranges
pub mod Expand
use r2vm.Base.{ℕ, Option, none, some, not, if◌then◌else◌, ◌==◌, ◌>>>◌, bit_and, sll}
use r2vm.Riscv.Op
use r2vm.Riscv.Op.{Op}

-- Quadrant 0b00.
unfoldable pub quadrant0 : ℕ → ℕ → Option Op
quadrant0 bits function =
    if function == 0b000
    then (let imm = Fields.ciw_imm bits in
        if imm == 0 then some Op.illegal else some (Op.addi (Fields.c_rds bits) 2 imm))
    else if function == 0b001
    then some (Op.fld (Fields.c_rds bits) (Fields.c_rs1s bits) (Fields.cl_ld_imm bits))
    else if function == 0b010
    then some (Op.lw (Fields.c_rds bits) (Fields.c_rs1s bits) (Fields.cl_lw_imm bits))
    else if function == 0b011
    then some (Op.ld (Fields.c_rds bits) (Fields.c_rs1s bits) (Fields.cl_ld_imm bits))
    else if function == 0b100
    then some Op.illegal
    else if function == 0b101
    then some (Op.fsd (Fields.c_rs1s bits) (Fields.c_rs2s bits) (Fields.cs_sd_imm bits))
    else if function == 0b110
    then some (Op.sw (Fields.c_rs1s bits) (Fields.c_rs2s bits) (Fields.cs_sw_imm bits))
    else if function == 0b111
    then some (Op.sd (Fields.c_rs1s bits) (Fields.c_rs2s bits) (Fields.cs_sd_imm bits))
    else none

-- The register-register operations under function 0b100 of quadrant 0b01.
unfoldable pub register_arith : ℕ → ℕ → Option Op
register_arith bits rs1 =
    let rs2 = Fields.c_rs2s bits in
    let kind = bit_and (bits >>> 5) 0b11 in
    if bit_and bits 0x1000 == 0
    then (if kind == 0b00
        then some (Op.sub rs1 rs1 rs2)
        else if kind == 0b01
        then some (Op.xor rs1 rs1 rs2)
        else if kind == 0b10
        then some (Op.or rs1 rs1 rs2)
        else if kind == 0b11
        then some (Op.and rs1 rs1 rs2)
        else none)
    else (if kind == 0b00
        then some (Op.subw rs1 rs1 rs2)
        else if kind == 0b01
        then some (Op.addw rs1 rs1 rs2)
        else some Op.illegal)

-- Function 0b100 of quadrant 0b01.
unfoldable pub misc_alu : ℕ → Option Op
unfolding register_arith
misc_alu bits =
    let rs1 = Fields.c_rs1s bits in
    let kind = bit_and (bits >>> 10) 0b11 in
    if kind == 0b00
    then some (Op.srli rs1 rs1 (bit_and (Fields.ci_imm bits) 63))
    else if kind == 0b01
    then some (Op.srai rs1 rs1 (bit_and (Fields.ci_imm bits) 63))
    else if kind == 0b10
    then some (Op.andi rs1 rs1 (Fields.ci_imm bits))
    else if kind == 0b11
    then register_arith bits rs1
    else none

-- Quadrant 0b01.
unfoldable pub quadrant1 : ℕ → ℕ → Option Op
unfolding misc_alu
quadrant1 bits function =
    let rd = Fields.c_rd bits in
    if function == 0b000
    then some (Op.addi rd rd (Fields.ci_imm bits))
    else if function == 0b001
    then (if rd == 0 then some Op.illegal else some (Op.addiw rd rd (Fields.ci_imm bits)))
    else if function == 0b010
    then some (Op.addi rd 0 (Fields.ci_imm bits))
    else if function == 0b011
    then (if rd == 2
        then (let imm = Fields.ci_addi16sp_imm bits in
            if imm == 0 then some Op.illegal else some (Op.addi 2 2 imm))
        else some (Op.lui rd (sll 32 (Fields.ci_imm bits) 12)))
    else if function == 0b100
    then misc_alu bits
    else if function == 0b101
    then some (Op.jal 0 (Fields.cj_imm bits))
    else if function == 0b110
    then some (Op.beq (Fields.c_rs1s bits) 0 (Fields.cb_imm bits))
    else if function == 0b111
    then some (Op.bne (Fields.c_rs1s bits) 0 (Fields.cb_imm bits))
    else none

-- Function 0b100 of quadrant 0b10: jumps, moves, EBREAK and ADD.
unfoldable pub jump_or_add : ℕ → Option Op
jump_or_add bits =
    let rs2 = Fields.c_rs2 bits in
    let rs1 = Fields.c_rs1 bits in
    let rd = Fields.c_rd bits in
    if bit_and bits 0x1000 == 0
    then (if rs2 == 0
        then (if rs1 == 0 then some Op.illegal else some (Op.jalr 0 rs1 0))
        else some (Op.add rd 0 rs2))
    else if rs1 == 0
    then some Op.ebreak
    else if rs2 == 0
    then some (Op.jalr 1 rs1 0)
    else some (Op.add rd rd rs2)

-- Quadrant 0b10.
unfoldable pub quadrant2 : ℕ → ℕ → Option Op
unfolding jump_or_add
quadrant2 bits function =
    let rd = Fields.c_rd bits in
    if function == 0b000
    then some (Op.slli rd rd (bit_and (Fields.ci_imm bits) 63))
    else if function == 0b001
    then some (Op.fld rd 2 (Fields.ci_ldsp_imm bits))
    else if function == 0b010
    then (if rd == 0 then some Op.illegal else some (Op.lw rd 2 (Fields.ci_lwsp_imm bits)))
    else if function == 0b011
    then (if rd == 0 then some Op.illegal else some (Op.ld rd 2 (Fields.ci_ldsp_imm bits)))
    else if function == 0b100
    then jump_or_add bits
    else if function == 0b101
    then some (Op.fsd 2 (Fields.c_rs2 bits) (Fields.css_sdsp_imm bits))
    else if function == 0b110
    then some (Op.sw 2 (Fields.c_rs2 bits) (Fields.css_swsp_imm bits))
    else if function == 0b111
    then some (Op.sd 2 (Fields.c_rs2 bits) (Fields.css_sdsp_imm bits))
    else none

unfoldable pub decode_compressed : ℕ → Option Op
decode_compressed bits =
    let function = Fields.c_funct3 bits in
    let quadrant = bit_and bits 0b11 in
    if quadrant == 0b00
    then quadrant0 bits function
    else if quadrant == 0b01
    then quadrant1 bits function
    else if quadrant == 0b10
    then quadrant2 bits function
    else none
