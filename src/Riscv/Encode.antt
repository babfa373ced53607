-- ===== src/Riscv/Encode.antt =====
-- The instruction tables of the RISC-V manuals, as a specification of `decode`: `encode` writes an
-- operation as a 32-bit instruction, and `IsEncodable` says which operands an instruction can hold.
-- Written from the manuals' tables. `Op.illegal` has no encoding: it stands for 0x1f.
pub mod Format
pub mod Operands
pub mod Words
pub mod Shapes
pub mod Arms
pub mod RoundTrip
use r2vm.Base.{ℕ, ◌+◌, ◌*◌, ◌<◌, Bool, true, not, ◌==◌}
use r2vm.Riscv.Op
use r2vm.Riscv.Op.{Op}
pub use Operands.{IsEncodable}
use Format.{r_type, i_type, s_type, b_type, u_type, j_type, aqrl_bits}
use Format.{IsSigned, IsOffset, IsUpper, IsRoundingMode, IsWritableCsr}

unfoldable pub encode : Op → ℕ
encode Op.illegal = 0x1f
encode (Op.lb rd rs1 imm) = i_type imm rs1 0 rd 0x3
encode (Op.lh rd rs1 imm) = i_type imm rs1 1 rd 0x3
encode (Op.lw rd rs1 imm) = i_type imm rs1 2 rd 0x3
encode (Op.ld rd rs1 imm) = i_type imm rs1 3 rd 0x3
encode (Op.lbu rd rs1 imm) = i_type imm rs1 4 rd 0x3
encode (Op.lhu rd rs1 imm) = i_type imm rs1 5 rd 0x3
encode (Op.lwu rd rs1 imm) = i_type imm rs1 6 rd 0x3
encode Op.fence = 0xf
encode Op.fence_i = 0x100f
encode (Op.addi rd rs1 imm) = i_type imm rs1 0 rd 0x13
encode (Op.slli rd rs1 imm) = i_type imm rs1 1 rd 0x13
encode (Op.slti rd rs1 imm) = i_type imm rs1 2 rd 0x13
encode (Op.sltiu rd rs1 imm) = i_type imm rs1 3 rd 0x13
encode (Op.xori rd rs1 imm) = i_type imm rs1 4 rd 0x13
encode (Op.srli rd rs1 imm) = i_type imm rs1 5 rd 0x13
encode (Op.srai rd rs1 imm) = i_type (imm + 0x400) rs1 5 rd 0x13
encode (Op.ori rd rs1 imm) = i_type imm rs1 6 rd 0x13
encode (Op.andi rd rs1 imm) = i_type imm rs1 7 rd 0x13
encode (Op.auipc rd imm) = u_type imm rd 0x17
encode (Op.addiw rd rs1 imm) = i_type imm rs1 0 rd 0x1b
encode (Op.slliw rd rs1 imm) = i_type imm rs1 1 rd 0x1b
encode (Op.srliw rd rs1 imm) = i_type imm rs1 5 rd 0x1b
encode (Op.sraiw rd rs1 imm) = i_type (imm + 0x400) rs1 5 rd 0x1b
encode (Op.sb rs1 rs2 imm) = s_type imm rs2 rs1 0 0x23
encode (Op.sh rs1 rs2 imm) = s_type imm rs2 rs1 1 0x23
encode (Op.sw rs1 rs2 imm) = s_type imm rs2 rs1 2 0x23
encode (Op.sd rs1 rs2 imm) = s_type imm rs2 rs1 3 0x23
encode (Op.add rd rs1 rs2) = r_type 0 rs2 rs1 0 rd 0x33
encode (Op.sub rd rs1 rs2) = r_type 32 rs2 rs1 0 rd 0x33
encode (Op.sll rd rs1 rs2) = r_type 0 rs2 rs1 1 rd 0x33
encode (Op.slt rd rs1 rs2) = r_type 0 rs2 rs1 2 rd 0x33
encode (Op.sltu rd rs1 rs2) = r_type 0 rs2 rs1 3 rd 0x33
encode (Op.xor rd rs1 rs2) = r_type 0 rs2 rs1 4 rd 0x33
encode (Op.srl rd rs1 rs2) = r_type 0 rs2 rs1 5 rd 0x33
encode (Op.sra rd rs1 rs2) = r_type 32 rs2 rs1 5 rd 0x33
encode (Op.or rd rs1 rs2) = r_type 0 rs2 rs1 6 rd 0x33
encode (Op.and rd rs1 rs2) = r_type 0 rs2 rs1 7 rd 0x33
encode (Op.lui rd imm) = u_type imm rd 0x37
encode (Op.addw rd rs1 rs2) = r_type 0 rs2 rs1 0 rd 0x3b
encode (Op.subw rd rs1 rs2) = r_type 32 rs2 rs1 0 rd 0x3b
encode (Op.sllw rd rs1 rs2) = r_type 0 rs2 rs1 1 rd 0x3b
encode (Op.srlw rd rs1 rs2) = r_type 0 rs2 rs1 5 rd 0x3b
encode (Op.sraw rd rs1 rs2) = r_type 32 rs2 rs1 5 rd 0x3b
encode (Op.beq rs1 rs2 imm) = b_type imm rs2 rs1 0 0x63
encode (Op.bne rs1 rs2 imm) = b_type imm rs2 rs1 1 0x63
encode (Op.blt rs1 rs2 imm) = b_type imm rs2 rs1 4 0x63
encode (Op.bge rs1 rs2 imm) = b_type imm rs2 rs1 5 0x63
encode (Op.bltu rs1 rs2 imm) = b_type imm rs2 rs1 6 0x63
encode (Op.bgeu rs1 rs2 imm) = b_type imm rs2 rs1 7 0x63
encode (Op.jalr rd rs1 imm) = i_type imm rs1 0 rd 0x67
encode (Op.jal rd imm) = j_type imm rd 0x6f
encode Op.ecall = 0x73
encode Op.ebreak = 0x100073
encode (Op.csrrw rd rs1 csr) = i_type csr rs1 1 rd 0x73
encode (Op.csrrs rd rs1 csr) = i_type csr rs1 2 rd 0x73
encode (Op.csrrc rd rs1 csr) = i_type csr rs1 3 rd 0x73
encode (Op.csrrwi rd imm csr) = i_type csr imm 5 rd 0x73
encode (Op.csrrsi rd imm csr) = i_type csr imm 6 rd 0x73
encode (Op.csrrci rd imm csr) = i_type csr imm 7 rd 0x73
encode (Op.mul rd rs1 rs2) = r_type 1 rs2 rs1 0 rd 0x33
encode (Op.mulh rd rs1 rs2) = r_type 1 rs2 rs1 1 rd 0x33
encode (Op.mulhsu rd rs1 rs2) = r_type 1 rs2 rs1 2 rd 0x33
encode (Op.mulhu rd rs1 rs2) = r_type 1 rs2 rs1 3 rd 0x33
encode (Op.div rd rs1 rs2) = r_type 1 rs2 rs1 4 rd 0x33
encode (Op.divu rd rs1 rs2) = r_type 1 rs2 rs1 5 rd 0x33
encode (Op.rem rd rs1 rs2) = r_type 1 rs2 rs1 6 rd 0x33
encode (Op.remu rd rs1 rs2) = r_type 1 rs2 rs1 7 rd 0x33
encode (Op.mulw rd rs1 rs2) = r_type 1 rs2 rs1 0 rd 0x3b
encode (Op.divw rd rs1 rs2) = r_type 1 rs2 rs1 4 rd 0x3b
encode (Op.divuw rd rs1 rs2) = r_type 1 rs2 rs1 5 rd 0x3b
encode (Op.remw rd rs1 rs2) = r_type 1 rs2 rs1 6 rd 0x3b
encode (Op.remuw rd rs1 rs2) = r_type 1 rs2 rs1 7 rd 0x3b
encode (Op.lr_w rd rs1 aqrl) = r_type (2 * 4 + aqrl_bits aqrl) 0 rs1 2 rd 0x2f
encode (Op.lr_d rd rs1 aqrl) = r_type (2 * 4 + aqrl_bits aqrl) 0 rs1 3 rd 0x2f
encode (Op.sc_w rd rs1 rs2 aqrl) = r_type (3 * 4 + aqrl_bits aqrl) rs2 rs1 2 rd 0x2f
encode (Op.sc_d rd rs1 rs2 aqrl) = r_type (3 * 4 + aqrl_bits aqrl) rs2 rs1 3 rd 0x2f
encode (Op.amoswap_w rd rs1 rs2 aqrl) = r_type (1 * 4 + aqrl_bits aqrl) rs2 rs1 2 rd 0x2f
encode (Op.amoswap_d rd rs1 rs2 aqrl) = r_type (1 * 4 + aqrl_bits aqrl) rs2 rs1 3 rd 0x2f
encode (Op.amoadd_w rd rs1 rs2 aqrl) = r_type (0 * 4 + aqrl_bits aqrl) rs2 rs1 2 rd 0x2f
encode (Op.amoadd_d rd rs1 rs2 aqrl) = r_type (0 * 4 + aqrl_bits aqrl) rs2 rs1 3 rd 0x2f
encode (Op.amoxor_w rd rs1 rs2 aqrl) = r_type (4 * 4 + aqrl_bits aqrl) rs2 rs1 2 rd 0x2f
encode (Op.amoxor_d rd rs1 rs2 aqrl) = r_type (4 * 4 + aqrl_bits aqrl) rs2 rs1 3 rd 0x2f
encode (Op.amoand_w rd rs1 rs2 aqrl) = r_type (12 * 4 + aqrl_bits aqrl) rs2 rs1 2 rd 0x2f
encode (Op.amoand_d rd rs1 rs2 aqrl) = r_type (12 * 4 + aqrl_bits aqrl) rs2 rs1 3 rd 0x2f
encode (Op.amoor_w rd rs1 rs2 aqrl) = r_type (8 * 4 + aqrl_bits aqrl) rs2 rs1 2 rd 0x2f
encode (Op.amoor_d rd rs1 rs2 aqrl) = r_type (8 * 4 + aqrl_bits aqrl) rs2 rs1 3 rd 0x2f
encode (Op.amomin_w rd rs1 rs2 aqrl) = r_type (16 * 4 + aqrl_bits aqrl) rs2 rs1 2 rd 0x2f
encode (Op.amomin_d rd rs1 rs2 aqrl) = r_type (16 * 4 + aqrl_bits aqrl) rs2 rs1 3 rd 0x2f
encode (Op.amomax_w rd rs1 rs2 aqrl) = r_type (20 * 4 + aqrl_bits aqrl) rs2 rs1 2 rd 0x2f
encode (Op.amomax_d rd rs1 rs2 aqrl) = r_type (20 * 4 + aqrl_bits aqrl) rs2 rs1 3 rd 0x2f
encode (Op.amominu_w rd rs1 rs2 aqrl) = r_type (24 * 4 + aqrl_bits aqrl) rs2 rs1 2 rd 0x2f
encode (Op.amominu_d rd rs1 rs2 aqrl) = r_type (24 * 4 + aqrl_bits aqrl) rs2 rs1 3 rd 0x2f
encode (Op.amomaxu_w rd rs1 rs2 aqrl) = r_type (28 * 4 + aqrl_bits aqrl) rs2 rs1 2 rd 0x2f
encode (Op.amomaxu_d rd rs1 rs2 aqrl) = r_type (28 * 4 + aqrl_bits aqrl) rs2 rs1 3 rd 0x2f
encode (Op.flw frd rs1 imm) = i_type imm rs1 2 frd 0x7
encode (Op.fsw rs1 frs2 imm) = s_type imm frs2 rs1 2 0x27
encode (Op.fadd_s frd frs1 frs2 rm) = r_type 0 frs2 frs1 rm frd 0x53
encode (Op.fsub_s frd frs1 frs2 rm) = r_type 4 frs2 frs1 rm frd 0x53
encode (Op.fmul_s frd frs1 frs2 rm) = r_type 8 frs2 frs1 rm frd 0x53
encode (Op.fdiv_s frd frs1 frs2 rm) = r_type 12 frs2 frs1 rm frd 0x53
encode (Op.fsqrt_s frd frs1 rm) = r_type 44 0 frs1 rm frd 0x53
encode (Op.fsgnj_s frd frs1 frs2) = r_type 16 frs2 frs1 0 frd 0x53
encode (Op.fsgnjn_s frd frs1 frs2) = r_type 16 frs2 frs1 1 frd 0x53
encode (Op.fsgnjx_s frd frs1 frs2) = r_type 16 frs2 frs1 2 frd 0x53
encode (Op.fmin_s frd frs1 frs2) = r_type 20 frs2 frs1 0 frd 0x53
encode (Op.fmax_s frd frs1 frs2) = r_type 20 frs2 frs1 1 frd 0x53
encode (Op.fcvt_w_s rd frs1 rm) = r_type 96 0 frs1 rm rd 0x53
encode (Op.fcvt_wu_s rd frs1 rm) = r_type 96 1 frs1 rm rd 0x53
encode (Op.fcvt_l_s rd frs1 rm) = r_type 96 2 frs1 rm rd 0x53
encode (Op.fcvt_lu_s rd frs1 rm) = r_type 96 3 frs1 rm rd 0x53
encode (Op.fmv_x_w rd frs1) = r_type 112 0 frs1 0 rd 0x53
encode (Op.fclass_s rd frs1) = r_type 112 0 frs1 1 rd 0x53
encode (Op.feq_s rd frs1 frs2) = r_type 80 frs2 frs1 2 rd 0x53
encode (Op.flt_s rd frs1 frs2) = r_type 80 frs2 frs1 1 rd 0x53
encode (Op.fle_s rd frs1 frs2) = r_type 80 frs2 frs1 0 rd 0x53
encode (Op.fcvt_s_w frd rs1 rm) = r_type 104 0 rs1 rm frd 0x53
encode (Op.fcvt_s_wu frd rs1 rm) = r_type 104 1 rs1 rm frd 0x53
encode (Op.fcvt_s_l frd rs1 rm) = r_type 104 2 rs1 rm frd 0x53
encode (Op.fcvt_s_lu frd rs1 rm) = r_type 104 3 rs1 rm frd 0x53
encode (Op.fmv_w_x frd rs1) = r_type 120 0 rs1 0 frd 0x53
encode (Op.fmadd_s frd frs1 frs2 frs3 rm) = r_type (frs3 * 4 + 0) frs2 frs1 rm frd 0x43
encode (Op.fmsub_s frd frs1 frs2 frs3 rm) = r_type (frs3 * 4 + 0) frs2 frs1 rm frd 0x47
encode (Op.fnmsub_s frd frs1 frs2 frs3 rm) = r_type (frs3 * 4 + 0) frs2 frs1 rm frd 0x4b
encode (Op.fnmadd_s frd frs1 frs2 frs3 rm) = r_type (frs3 * 4 + 0) frs2 frs1 rm frd 0x4f
encode (Op.fld frd rs1 imm) = i_type imm rs1 3 frd 0x7
encode (Op.fsd rs1 frs2 imm) = s_type imm frs2 rs1 3 0x27
encode (Op.fadd_d frd frs1 frs2 rm) = r_type 1 frs2 frs1 rm frd 0x53
encode (Op.fsub_d frd frs1 frs2 rm) = r_type 5 frs2 frs1 rm frd 0x53
encode (Op.fmul_d frd frs1 frs2 rm) = r_type 9 frs2 frs1 rm frd 0x53
encode (Op.fdiv_d frd frs1 frs2 rm) = r_type 13 frs2 frs1 rm frd 0x53
encode (Op.fsqrt_d frd frs1 rm) = r_type 45 0 frs1 rm frd 0x53
encode (Op.fsgnj_d frd frs1 frs2) = r_type 17 frs2 frs1 0 frd 0x53
encode (Op.fsgnjn_d frd frs1 frs2) = r_type 17 frs2 frs1 1 frd 0x53
encode (Op.fsgnjx_d frd frs1 frs2) = r_type 17 frs2 frs1 2 frd 0x53
encode (Op.fmin_d frd frs1 frs2) = r_type 21 frs2 frs1 0 frd 0x53
encode (Op.fmax_d frd frs1 frs2) = r_type 21 frs2 frs1 1 frd 0x53
encode (Op.fcvt_s_d frd frs1 rm) = r_type 32 1 frs1 rm frd 0x53
encode (Op.fcvt_d_s frd frs1 rm) = r_type 33 0 frs1 rm frd 0x53
encode (Op.fcvt_w_d rd frs1 rm) = r_type 97 0 frs1 rm rd 0x53
encode (Op.fcvt_wu_d rd frs1 rm) = r_type 97 1 frs1 rm rd 0x53
encode (Op.fcvt_l_d rd frs1 rm) = r_type 97 2 frs1 rm rd 0x53
encode (Op.fcvt_lu_d rd frs1 rm) = r_type 97 3 frs1 rm rd 0x53
encode (Op.fmv_x_d rd frs1) = r_type 113 0 frs1 0 rd 0x53
encode (Op.fclass_d rd frs1) = r_type 113 0 frs1 1 rd 0x53
encode (Op.feq_d rd frs1 frs2) = r_type 81 frs2 frs1 2 rd 0x53
encode (Op.flt_d rd frs1 frs2) = r_type 81 frs2 frs1 1 rd 0x53
encode (Op.fle_d rd frs1 frs2) = r_type 81 frs2 frs1 0 rd 0x53
encode (Op.fcvt_d_w frd rs1 rm) = r_type 105 0 rs1 rm frd 0x53
encode (Op.fcvt_d_wu frd rs1 rm) = r_type 105 1 rs1 rm frd 0x53
encode (Op.fcvt_d_l frd rs1 rm) = r_type 105 2 rs1 rm frd 0x53
encode (Op.fcvt_d_lu frd rs1 rm) = r_type 105 3 rs1 rm frd 0x53
encode (Op.fmv_d_x frd rs1) = r_type 121 0 rs1 0 frd 0x53
encode (Op.fmadd_d frd frs1 frs2 frs3 rm) = r_type (frs3 * 4 + 1) frs2 frs1 rm frd 0x43
encode (Op.fmsub_d frd frs1 frs2 frs3 rm) = r_type (frs3 * 4 + 1) frs2 frs1 rm frd 0x47
encode (Op.fnmsub_d frd frs1 frs2 frs3 rm) = r_type (frs3 * 4 + 1) frs2 frs1 rm frd 0x4b
encode (Op.fnmadd_d frd frs1 frs2 frs3 rm) = r_type (frs3 * 4 + 1) frs2 frs1 rm frd 0x4f
encode Op.mret = 0x30200073
encode Op.sret = 0x10200073
encode Op.wfi = 0x10500073
encode (Op.sfence_vma rs1 rs2) = r_type 9 rs2 rs1 0 0 0x73
