-- ===== src/Riscv/Decode/System.antt =====
-- The SYSTEM opcode of `decode`. `none` stands for a panic (`unreachable!`).
use r2vm.Base.{ℕ, Option, none, some, not, ◌&&◌, if◌then◌else◌, ◌==◌, bit_and}
use r2vm.Riscv.Csr
use r2vm.Riscv.Decode.Fields
use r2vm.Riscv.Op.{Op}

unfoldable pub decode_privileged : ℕ → ℕ → ℕ → ℕ → Option Op
decode_privileged bits rd rs1 rs2 =
    if bits == 0x73
    then some Op.ecall
    else if bits == 0x100073
    then some Op.ebreak
    else if bits == 0x30200073
    then some Op.mret
    else if bits == 0x10200073
    then some Op.sret
    else if bits == 0x10500073
    then some Op.wfi
    else if rd == 0 && Fields.funct7 bits == 0b0001001
    then some (Op.sfence_vma rs1 rs2)
    else some Op.illegal

-- For CSRRS, CSRRC and their immediate forms rs1 = 0 means that the CSR is only read.
unfoldable pub decode_csr : ℕ → ℕ → ℕ → ℕ → Option Op
decode_csr bits function rd rs1 =
    let csr = Fields.csr bits in
    let readonly = not (bit_and function 0b010 == 0) && rs1 == 0 in
    if Csr.readonly csr && not readonly
    then some Op.illegal
    else if function == 0b001
    then some (Op.csrrw rd rs1 csr)
    else if function == 0b010
    then some (Op.csrrs rd rs1 csr)
    else if function == 0b011
    then some (Op.csrrc rd rs1 csr)
    else if function == 0b101
    then some (Op.csrrwi rd rs1 csr)
    else if function == 0b110
    then some (Op.csrrsi rd rs1 csr)
    else if function == 0b111
    then some (Op.csrrci rd rs1 csr)
    else none

unfoldable pub decode_system : ℕ → ℕ → ℕ → ℕ → ℕ → Option Op
unfolding decode_privileged decode_csr
decode_system bits function rd rs1 rs2 =
    if function == 0b000
    then decode_privileged bits rd rs1 rs2
    else if function == 0b100
    then some Op.illegal
    else decode_csr bits function rd rs1
