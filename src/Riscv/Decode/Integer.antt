-- ===== src/Riscv/Decode/Integer.antt =====
-- The opcodes of `decode` that load, store, compute with integers and branch. `none` stands for a
-- panic (`unreachable!`).
use r2vm.Base.{ℕ, Option, none, some, not, if◌then◌else◌, ◌==◌, slt, not32, bit_and}
use r2vm.Riscv.Decode.Fields
use r2vm.Riscv.Op.{Op}

unfoldable pub decode_load : ℕ → ℕ → ℕ → ℕ → Option Op
decode_load bits function rd rs1 =
    let imm = Fields.i_imm bits in
    if function == 0b000
    then some (Op.lb rd rs1 imm)
    else if function == 0b001
    then some (Op.lh rd rs1 imm)
    else if function == 0b010
    then some (Op.lw rd rs1 imm)
    else if function == 0b011
    then some (Op.ld rd rs1 imm)
    else if function == 0b100
    then some (Op.lbu rd rs1 imm)
    else if function == 0b101
    then some (Op.lhu rd rs1 imm)
    else if function == 0b110
    then some (Op.lwu rd rs1 imm)
    else some Op.illegal

unfoldable pub decode_load_fp : ℕ → ℕ → ℕ → ℕ → Option Op
decode_load_fp bits function rd rs1 =
    let imm = Fields.i_imm bits in
    if function == 0b010
    then some (Op.flw rd rs1 imm)
    else if function == 0b011
    then some (Op.fld rd rs1 imm)
    else some Op.illegal

unfoldable pub decode_op_imm : ℕ → ℕ → ℕ → ℕ → Option Op
decode_op_imm bits function rd rs1 =
    let imm = Fields.i_imm bits in
    if function == 0b000
    then some (Op.addi rd rs1 imm)
    else if function == 0b001
    then (if not (slt 32 imm 64) then some Op.illegal else some (Op.slli rd rs1 imm))
    else if function == 0b010
    then some (Op.slti rd rs1 imm)
    else if function == 0b011
    then some (Op.sltiu rd rs1 imm)
    else if function == 0b100
    then some (Op.xori rd rs1 imm)
    else if function == 0b101
    then (if not (slt 32 (bit_and imm (not32 0x400)) 64)
        then some Op.illegal
        else if not (bit_and imm 0x400 == 0)
        then some (Op.srai rd rs1 (bit_and imm (not32 0x400)))
        else some (Op.srli rd rs1 imm))
    else if function == 0b110
    then some (Op.ori rd rs1 imm)
    else if function == 0b111
    then some (Op.andi rd rs1 imm)
    else none

unfoldable pub decode_misc_mem : ℕ → Option Op
decode_misc_mem function =
    if function == 0b000
    then some Op.fence
    else if function == 0b001
    then some Op.fence_i
    else some Op.illegal

unfoldable pub decode_op_imm_32 : ℕ → ℕ → ℕ → ℕ → Option Op
decode_op_imm_32 bits function rd rs1 =
    let imm = Fields.i_imm bits in
    if function == 0b000
    then some (Op.addiw rd rs1 imm)
    else if function == 0b001
    then (if not (slt 32 imm 32) then some Op.illegal else some (Op.slliw rd rs1 imm))
    else if function == 0b101
    then (if not (slt 32 (bit_and imm (not32 0x400)) 32)
        then some Op.illegal
        else if not (bit_and imm 0x400 == 0)
        then some (Op.sraiw rd rs1 (bit_and imm (not32 0x400)))
        else some (Op.srliw rd rs1 imm))
    else some Op.illegal

unfoldable pub decode_store : ℕ → ℕ → ℕ → ℕ → Option Op
decode_store bits function rs1 rs2 =
    let imm = Fields.s_imm bits in
    if function == 0b000
    then some (Op.sb rs1 rs2 imm)
    else if function == 0b001
    then some (Op.sh rs1 rs2 imm)
    else if function == 0b010
    then some (Op.sw rs1 rs2 imm)
    else if function == 0b011
    then some (Op.sd rs1 rs2 imm)
    else some Op.illegal

unfoldable pub decode_store_fp : ℕ → ℕ → ℕ → ℕ → Option Op
decode_store_fp bits function rs1 rs2 =
    let imm = Fields.s_imm bits in
    if function == 0b010
    then some (Op.fsw rs1 rs2 imm)
    else if function == 0b011
    then some (Op.fsd rs1 rs2 imm)
    else some Op.illegal

unfoldable pub decode_op : ℕ → ℕ → ℕ → ℕ → ℕ → Option Op
decode_op bits function rd rs1 rs2 =
    let function7 = Fields.funct7 bits in
    if function7 == 0b0000001
    then (if function == 0b000
        then some (Op.mul rd rs1 rs2)
        else if function == 0b001
        then some (Op.mulh rd rs1 rs2)
        else if function == 0b010
        then some (Op.mulhsu rd rs1 rs2)
        else if function == 0b011
        then some (Op.mulhu rd rs1 rs2)
        else if function == 0b100
        then some (Op.div rd rs1 rs2)
        else if function == 0b101
        then some (Op.divu rd rs1 rs2)
        else if function == 0b110
        then some (Op.rem rd rs1 rs2)
        else if function == 0b111
        then some (Op.remu rd rs1 rs2)
        else none)
    else if function7 == 0b0000000
    then (if function == 0b000
        then some (Op.add rd rs1 rs2)
        else if function == 0b001
        then some (Op.sll rd rs1 rs2)
        else if function == 0b010
        then some (Op.slt rd rs1 rs2)
        else if function == 0b011
        then some (Op.sltu rd rs1 rs2)
        else if function == 0b100
        then some (Op.xor rd rs1 rs2)
        else if function == 0b101
        then some (Op.srl rd rs1 rs2)
        else if function == 0b110
        then some (Op.or rd rs1 rs2)
        else if function == 0b111
        then some (Op.and rd rs1 rs2)
        else none)
    else if function7 == 0b0100000
    then (if function == 0b000
        then some (Op.sub rd rs1 rs2)
        else if function == 0b101
        then some (Op.sra rd rs1 rs2)
        else some Op.illegal)
    else some Op.illegal

unfoldable pub decode_op_32 : ℕ → ℕ → ℕ → ℕ → ℕ → Option Op
decode_op_32 bits function rd rs1 rs2 =
    let function7 = Fields.funct7 bits in
    if function7 == 0b0000001
    then (if function == 0b000
        then some (Op.mulw rd rs1 rs2)
        else if function == 0b100
        then some (Op.divw rd rs1 rs2)
        else if function == 0b101
        then some (Op.divuw rd rs1 rs2)
        else if function == 0b110
        then some (Op.remw rd rs1 rs2)
        else if function == 0b111
        then some (Op.remuw rd rs1 rs2)
        else some Op.illegal)
    else if function7 == 0b0000000
    then (if function == 0b000
        then some (Op.addw rd rs1 rs2)
        else if function == 0b001
        then some (Op.sllw rd rs1 rs2)
        else if function == 0b101
        then some (Op.srlw rd rs1 rs2)
        else some Op.illegal)
    else if function7 == 0b0100000
    then (if function == 0b000
        then some (Op.subw rd rs1 rs2)
        else if function == 0b101
        then some (Op.sraw rd rs1 rs2)
        else some Op.illegal)
    else some Op.illegal

unfoldable pub decode_branch : ℕ → ℕ → ℕ → ℕ → Option Op
decode_branch bits function rs1 rs2 =
    let imm = Fields.b_imm bits in
    if function == 0b000
    then some (Op.beq rs1 rs2 imm)
    else if function == 0b001
    then some (Op.bne rs1 rs2 imm)
    else if function == 0b100
    then some (Op.blt rs1 rs2 imm)
    else if function == 0b101
    then some (Op.bge rs1 rs2 imm)
    else if function == 0b110
    then some (Op.bltu rs1 rs2 imm)
    else if function == 0b111
    then some (Op.bgeu rs1 rs2 imm)
    else some Op.illegal
