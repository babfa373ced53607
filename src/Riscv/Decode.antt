-- ===== src/Riscv/Decode.antt =====
-- `decode` of `lib/riscv/src/decode.rs`: one 32-bit instruction to an operation. The result `none`
-- stands for a panic (the `assert!` and the `unreachable!` arms). Each group of opcodes is a
-- function of its own, called with the fields that `decode` has bound.
pub mod Fields
pub mod Integer
pub mod Atomic
pub mod Float
pub mod System
pub mod Total
use r2vm.Base.{ℕ, Option, none, some, not, if◌then◌else◌, ◌==◌, bit_and}
use r2vm.Riscv.Op
use r2vm.Riscv.Op.{Op}
unfoldable pub use Integer.{
  decode_load, decode_load_fp, decode_op_imm, decode_misc_mem, decode_op_imm_32, decode_store,
  decode_store_fp, decode_op, decode_op_32, decode_branch,
}
unfoldable pub use Atomic.{decode_amo}
unfoldable pub use Float.{decode_fmadd, decode_fmsub, decode_fnmsub, decode_fnmadd, decode_op_fp}
unfoldable pub use System.{decode_system}

-- The `match` on the opcode.
unfoldable pub decode_opcode : ℕ → ℕ → ℕ → ℕ → ℕ → ℕ → Option Op
decode_opcode bits opcode function rd rs1 rs2 =
    if opcode == 0b0000011
    then decode_load bits function rd rs1
    else if opcode == 0b0000111
    then decode_load_fp bits function rd rs1
    else if opcode == 0b0010011
    then decode_op_imm bits function rd rs1
    else if opcode == 0b0001111
    then decode_misc_mem function
    else if opcode == 0b0011011
    then decode_op_imm_32 bits function rd rs1
    else if opcode == 0b0100011
    then decode_store bits function rs1 rs2
    else if opcode == 0b0100111
    then decode_store_fp bits function rs1 rs2
    else if opcode == 0b0101111
    then decode_amo bits function rd rs1 rs2
    else if opcode == 0b0110011
    then decode_op bits function rd rs1 rs2
    else if opcode == 0b0110111
    then some (Op.lui rd (Fields.u_imm bits))
    else if opcode == 0b0111011
    then decode_op_32 bits function rd rs1 rs2
    else if opcode == 0b1000011
    then decode_fmadd bits function rd rs1 rs2
    else if opcode == 0b1000111
    then decode_fmsub bits function rd rs1 rs2
    else if opcode == 0b1001011
    then decode_fnmsub bits function rd rs1 rs2
    else if opcode == 0b1001111
    then decode_fnmadd bits function rd rs1 rs2
    else if opcode == 0b0010111
    then some (Op.auipc rd (Fields.u_imm bits))
    else if opcode == 0b1010011
    then decode_op_fp bits function rd rs1 rs2
    else if opcode == 0b1100011
    then decode_branch bits function rs1 rs2
    else if opcode == 0b1100111
    then some (Op.jalr rd rs1 (Fields.i_imm bits))
    else if opcode == 0b1101111
    then some (Op.jal rd (Fields.j_imm bits))
    else if opcode == 0b1110011
    then decode_system bits function rd rs1 rs2
    else some Op.illegal

unfoldable pub decode : ℕ → Option Op
unfolding decode_opcode
decode bits =
    if not (bit_and bits 3 == 3)
    then none
    else if bit_and bits 0x1f == 0x1f
    then some Op.illegal
    else (decode_opcode bits (bit_and bits 0b1111111) (Fields.funct3 bits) (Fields.rd bits)
        (Fields.rs1 bits) (Fields.rs2 bits))
