-- ===== src/Riscv/Encode/Format.antt =====
-- The instruction formats of the RISC-V unprivileged manual: how fields are laid out in a 32-bit
-- instruction, and which operands a format can hold. Part of the specification of `decode`, written
-- from the manual.
pub use r2vm.Base.{IsSigned}
use r2vm.Base.{ℕ, ◌+◌, ◌*◌, ◌/◌, ◌%◌, ◌^◌, ◌≤◌, ◌<◌, ◌≡◌, ◌⊎◌, ◌≢◌, Bool, true, ◌&&◌, leb}
use r2vm.Riscv.Op

-- funct7 | rs2 | rs1 | funct3 | rd | opcode
abbrev pub r_type : ℕ → ℕ → ℕ → ℕ → ℕ → ℕ → ℕ
r_type f7 rs2 rs1 f3 rd opcode =
    f7 * 2 ^ 25 + rs2 * 2 ^ 20 + rs1 * 2 ^ 15 + f3 * 2 ^ 12 + rd * 2 ^ 7 + opcode

-- imm[11:0] | rs1 | funct3 | rd | opcode
abbrev pub i_type : ℕ → ℕ → ℕ → ℕ → ℕ → ℕ
i_type imm rs1 f3 rd opcode =
    imm % 2 ^ 12 * 2 ^ 20 + rs1 * 2 ^ 15 + f3 * 2 ^ 12 + rd * 2 ^ 7 + opcode

-- imm[11:5] | rs2 | rs1 | funct3 | imm[4:0] | opcode
abbrev pub s_type : ℕ → ℕ → ℕ → ℕ → ℕ → ℕ
s_type imm rs2 rs1 f3 opcode = r_type (imm / 2 ^ 5 % 2 ^ 7) rs2 rs1 f3 (imm % 2 ^ 5) opcode

-- imm[12|10:5] | rs2 | rs1 | funct3 | imm[4:1|11] | opcode
abbrev pub b_type : ℕ → ℕ → ℕ → ℕ → ℕ → ℕ
b_type imm rs2 rs1 f3 opcode =
    r_type (imm / 2 ^ 12 % 2 * 2 ^ 6 + imm / 2 ^ 5 % 2 ^ 6) rs2 rs1 f3
      (imm / 2 % 2 ^ 4 * 2 + imm / 2 ^ 11 % 2) opcode

-- imm[31:12] | rd | opcode
abbrev pub u_type : ℕ → ℕ → ℕ → ℕ
u_type imm rd opcode = imm / 2 ^ 12 * 2 ^ 12 + rd * 2 ^ 7 + opcode

-- imm[20|10:1|11|19:12] | rd | opcode
abbrev pub j_type : ℕ → ℕ → ℕ → ℕ
j_type imm rd opcode =
    imm / 2 ^ 20 % 2 * 2 ^ 31
    + imm / 2 % 2 ^ 10 * 2 ^ 21
    + imm / 2 ^ 11 % 2 * 2 ^ 20
    + imm / 2 ^ 12 % 2 ^ 8 * 2 ^ 12
    + rd * 2 ^ 7
    + opcode

-- A signed pattern that is even: the offset of a branch or a jump.
abbrev pub IsOffset : ℕ → ℕ → Type 0
IsOffset w imm = IsSigned w imm × (imm % 2 ≡ 0)

-- The operand of LUI and AUIPC.
abbrev pub IsUpper : ℕ → Type 0
IsUpper imm = (imm < 2 ^ 32) × (imm % 2 ^ 12 ≡ 0)

-- A static rounding mode (0 to 4) or the dynamic one (7).
abbrev pub IsRoundingMode : ℕ → Type 0
IsRoundingMode rm = (rm ≤ 4) ⊎ (rm ≡ 7)

-- A CSR number; if the instruction writes, not one of the read-only quarter 0xC00 to 0xFFF.
abbrev pub IsWritableCsr : ℕ → Bool → Type 0
IsWritableCsr csr writes = (csr < 2 ^ 12) × (leb 0xc00 csr && writes ≢ true)

-- The bits `aq` and `rl`.
abbrev pub aqrl_bits : Op.Ordering → ℕ
aqrl_bits Op.Ordering.relaxed = 0
aqrl_bits Op.Ordering.release = 1
aqrl_bits Op.Ordering.acquire = 2
aqrl_bits Op.Ordering.seq_cst = 3
