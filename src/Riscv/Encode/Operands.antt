-- ===== src/Riscv/Encode/Operands.antt =====
-- The operands that an instruction can hold, from the manuals' tables: register numbers below 32, and
-- immediates that fit their fields.
use r2vm.Base.{◌<◌, true, not, ◌==◌}
use r2vm.Riscv.Op.{Op}
use r2vm.Riscv.Encode.Format.{IsSigned, IsOffset, IsUpper, IsRoundingMode, IsWritableCsr}

abbrev pub IsEncodable : Op → Type 0
IsEncodable Op.illegal = Unit {0}
IsEncodable (Op.lb rd rs1 imm) = (rd < 32) × (rs1 < 32) × IsSigned 12 imm
IsEncodable (Op.lh rd rs1 imm) = (rd < 32) × (rs1 < 32) × IsSigned 12 imm
IsEncodable (Op.lw rd rs1 imm) = (rd < 32) × (rs1 < 32) × IsSigned 12 imm
IsEncodable (Op.ld rd rs1 imm) = (rd < 32) × (rs1 < 32) × IsSigned 12 imm
IsEncodable (Op.lbu rd rs1 imm) = (rd < 32) × (rs1 < 32) × IsSigned 12 imm
IsEncodable (Op.lhu rd rs1 imm) = (rd < 32) × (rs1 < 32) × IsSigned 12 imm
IsEncodable (Op.lwu rd rs1 imm) = (rd < 32) × (rs1 < 32) × IsSigned 12 imm
IsEncodable Op.fence = Unit {0}
IsEncodable Op.fence_i = Unit {0}
IsEncodable (Op.addi rd rs1 imm) = (rd < 32) × (rs1 < 32) × IsSigned 12 imm
IsEncodable (Op.slli rd rs1 imm) = (rd < 32) × (rs1 < 32) × (imm < 64)
IsEncodable (Op.slti rd rs1 imm) = (rd < 32) × (rs1 < 32) × IsSigned 12 imm
IsEncodable (Op.sltiu rd rs1 imm) = (rd < 32) × (rs1 < 32) × IsSigned 12 imm
IsEncodable (Op.xori rd rs1 imm) = (rd < 32) × (rs1 < 32) × IsSigned 12 imm
IsEncodable (Op.srli rd rs1 imm) = (rd < 32) × (rs1 < 32) × (imm < 64)
IsEncodable (Op.srai rd rs1 imm) = (rd < 32) × (rs1 < 32) × (imm < 64)
IsEncodable (Op.ori rd rs1 imm) = (rd < 32) × (rs1 < 32) × IsSigned 12 imm
IsEncodable (Op.andi rd rs1 imm) = (rd < 32) × (rs1 < 32) × IsSigned 12 imm
IsEncodable (Op.auipc rd imm) = (rd < 32) × IsUpper imm
IsEncodable (Op.addiw rd rs1 imm) = (rd < 32) × (rs1 < 32) × IsSigned 12 imm
IsEncodable (Op.slliw rd rs1 imm) = (rd < 32) × (rs1 < 32) × (imm < 32)
IsEncodable (Op.srliw rd rs1 imm) = (rd < 32) × (rs1 < 32) × (imm < 32)
IsEncodable (Op.sraiw rd rs1 imm) = (rd < 32) × (rs1 < 32) × (imm < 32)
IsEncodable (Op.sb rs1 rs2 imm) = (rs1 < 32) × (rs2 < 32) × IsSigned 12 imm
IsEncodable (Op.sh rs1 rs2 imm) = (rs1 < 32) × (rs2 < 32) × IsSigned 12 imm
IsEncodable (Op.sw rs1 rs2 imm) = (rs1 < 32) × (rs2 < 32) × IsSigned 12 imm
IsEncodable (Op.sd rs1 rs2 imm) = (rs1 < 32) × (rs2 < 32) × IsSigned 12 imm
IsEncodable (Op.add rd rs1 rs2) = (rd < 32) × (rs1 < 32) × (rs2 < 32)
IsEncodable (Op.sub rd rs1 rs2) = (rd < 32) × (rs1 < 32) × (rs2 < 32)
IsEncodable (Op.sll rd rs1 rs2) = (rd < 32) × (rs1 < 32) × (rs2 < 32)
IsEncodable (Op.slt rd rs1 rs2) = (rd < 32) × (rs1 < 32) × (rs2 < 32)
IsEncodable (Op.sltu rd rs1 rs2) = (rd < 32) × (rs1 < 32) × (rs2 < 32)
IsEncodable (Op.xor rd rs1 rs2) = (rd < 32) × (rs1 < 32) × (rs2 < 32)
IsEncodable (Op.srl rd rs1 rs2) = (rd < 32) × (rs1 < 32) × (rs2 < 32)
IsEncodable (Op.sra rd rs1 rs2) = (rd < 32) × (rs1 < 32) × (rs2 < 32)
IsEncodable (Op.or rd rs1 rs2) = (rd < 32) × (rs1 < 32) × (rs2 < 32)
IsEncodable (Op.and rd rs1 rs2) = (rd < 32) × (rs1 < 32) × (rs2 < 32)
IsEncodable (Op.lui rd imm) = (rd < 32) × IsUpper imm
IsEncodable (Op.addw rd rs1 rs2) = (rd < 32) × (rs1 < 32) × (rs2 < 32)
IsEncodable (Op.subw rd rs1 rs2) = (rd < 32) × (rs1 < 32) × (rs2 < 32)
IsEncodable (Op.sllw rd rs1 rs2) = (rd < 32) × (rs1 < 32) × (rs2 < 32)
IsEncodable (Op.srlw rd rs1 rs2) = (rd < 32) × (rs1 < 32) × (rs2 < 32)
IsEncodable (Op.sraw rd rs1 rs2) = (rd < 32) × (rs1 < 32) × (rs2 < 32)
IsEncodable (Op.beq rs1 rs2 imm) = (rs1 < 32) × (rs2 < 32) × IsOffset 13 imm
IsEncodable (Op.bne rs1 rs2 imm) = (rs1 < 32) × (rs2 < 32) × IsOffset 13 imm
IsEncodable (Op.blt rs1 rs2 imm) = (rs1 < 32) × (rs2 < 32) × IsOffset 13 imm
IsEncodable (Op.bge rs1 rs2 imm) = (rs1 < 32) × (rs2 < 32) × IsOffset 13 imm
IsEncodable (Op.bltu rs1 rs2 imm) = (rs1 < 32) × (rs2 < 32) × IsOffset 13 imm
IsEncodable (Op.bgeu rs1 rs2 imm) = (rs1 < 32) × (rs2 < 32) × IsOffset 13 imm
IsEncodable (Op.jalr rd rs1 imm) = (rd < 32) × (rs1 < 32) × IsSigned 12 imm
IsEncodable (Op.jal rd imm) = (rd < 32) × IsOffset 21 imm
IsEncodable Op.ecall = Unit {0}
IsEncodable Op.ebreak = Unit {0}
IsEncodable (Op.csrrw rd rs1 csr) = (rd < 32) × (rs1 < 32) × IsWritableCsr csr true
IsEncodable (Op.csrrs rd rs1 csr) = (rd < 32) × (rs1 < 32) × IsWritableCsr csr (not (rs1 == 0))
IsEncodable (Op.csrrc rd rs1 csr) = (rd < 32) × (rs1 < 32) × IsWritableCsr csr (not (rs1 == 0))
IsEncodable (Op.csrrwi rd imm csr) = (rd < 32) × (imm < 32) × IsWritableCsr csr true
IsEncodable (Op.csrrsi rd imm csr) = (rd < 32) × (imm < 32) × IsWritableCsr csr (not (imm == 0))
IsEncodable (Op.csrrci rd imm csr) = (rd < 32) × (imm < 32) × IsWritableCsr csr (not (imm == 0))
IsEncodable (Op.mul rd rs1 rs2) = (rd < 32) × (rs1 < 32) × (rs2 < 32)
IsEncodable (Op.mulh rd rs1 rs2) = (rd < 32) × (rs1 < 32) × (rs2 < 32)
IsEncodable (Op.mulhsu rd rs1 rs2) = (rd < 32) × (rs1 < 32) × (rs2 < 32)
IsEncodable (Op.mulhu rd rs1 rs2) = (rd < 32) × (rs1 < 32) × (rs2 < 32)
IsEncodable (Op.div rd rs1 rs2) = (rd < 32) × (rs1 < 32) × (rs2 < 32)
IsEncodable (Op.divu rd rs1 rs2) = (rd < 32) × (rs1 < 32) × (rs2 < 32)
IsEncodable (Op.rem rd rs1 rs2) = (rd < 32) × (rs1 < 32) × (rs2 < 32)
IsEncodable (Op.remu rd rs1 rs2) = (rd < 32) × (rs1 < 32) × (rs2 < 32)
IsEncodable (Op.mulw rd rs1 rs2) = (rd < 32) × (rs1 < 32) × (rs2 < 32)
IsEncodable (Op.divw rd rs1 rs2) = (rd < 32) × (rs1 < 32) × (rs2 < 32)
IsEncodable (Op.divuw rd rs1 rs2) = (rd < 32) × (rs1 < 32) × (rs2 < 32)
IsEncodable (Op.remw rd rs1 rs2) = (rd < 32) × (rs1 < 32) × (rs2 < 32)
IsEncodable (Op.remuw rd rs1 rs2) = (rd < 32) × (rs1 < 32) × (rs2 < 32)
IsEncodable (Op.lr_w rd rs1 aqrl) = (rd < 32) × (rs1 < 32)
IsEncodable (Op.lr_d rd rs1 aqrl) = (rd < 32) × (rs1 < 32)
IsEncodable (Op.sc_w rd rs1 rs2 aqrl) = (rd < 32) × (rs1 < 32) × (rs2 < 32)
IsEncodable (Op.sc_d rd rs1 rs2 aqrl) = (rd < 32) × (rs1 < 32) × (rs2 < 32)
IsEncodable (Op.amoswap_w rd rs1 rs2 aqrl) = (rd < 32) × (rs1 < 32) × (rs2 < 32)
IsEncodable (Op.amoswap_d rd rs1 rs2 aqrl) = (rd < 32) × (rs1 < 32) × (rs2 < 32)
IsEncodable (Op.amoadd_w rd rs1 rs2 aqrl) = (rd < 32) × (rs1 < 32) × (rs2 < 32)
IsEncodable (Op.amoadd_d rd rs1 rs2 aqrl) = (rd < 32) × (rs1 < 32) × (rs2 < 32)
IsEncodable (Op.amoxor_w rd rs1 rs2 aqrl) = (rd < 32) × (rs1 < 32) × (rs2 < 32)
IsEncodable (Op.amoxor_d rd rs1 rs2 aqrl) = (rd < 32) × (rs1 < 32) × (rs2 < 32)
IsEncodable (Op.amoand_w rd rs1 rs2 aqrl) = (rd < 32) × (rs1 < 32) × (rs2 < 32)
IsEncodable (Op.amoand_d rd rs1 rs2 aqrl) = (rd < 32) × (rs1 < 32) × (rs2 < 32)
IsEncodable (Op.amoor_w rd rs1 rs2 aqrl) = (rd < 32) × (rs1 < 32) × (rs2 < 32)
IsEncodable (Op.amoor_d rd rs1 rs2 aqrl) = (rd < 32) × (rs1 < 32) × (rs2 < 32)
IsEncodable (Op.amomin_w rd rs1 rs2 aqrl) = (rd < 32) × (rs1 < 32) × (rs2 < 32)
IsEncodable (Op.amomin_d rd rs1 rs2 aqrl) = (rd < 32) × (rs1 < 32) × (rs2 < 32)
IsEncodable (Op.amomax_w rd rs1 rs2 aqrl) = (rd < 32) × (rs1 < 32) × (rs2 < 32)
IsEncodable (Op.amomax_d rd rs1 rs2 aqrl) = (rd < 32) × (rs1 < 32) × (rs2 < 32)
IsEncodable (Op.amominu_w rd rs1 rs2 aqrl) = (rd < 32) × (rs1 < 32) × (rs2 < 32)
IsEncodable (Op.amominu_d rd rs1 rs2 aqrl) = (rd < 32) × (rs1 < 32) × (rs2 < 32)
IsEncodable (Op.amomaxu_w rd rs1 rs2 aqrl) = (rd < 32) × (rs1 < 32) × (rs2 < 32)
IsEncodable (Op.amomaxu_d rd rs1 rs2 aqrl) = (rd < 32) × (rs1 < 32) × (rs2 < 32)
IsEncodable (Op.flw frd rs1 imm) = (frd < 32) × (rs1 < 32) × IsSigned 12 imm
IsEncodable (Op.fsw rs1 frs2 imm) = (rs1 < 32) × (frs2 < 32) × IsSigned 12 imm
IsEncodable (Op.fadd_s frd frs1 frs2 rm) =
    (frd < 32) × (frs1 < 32) × (frs2 < 32) × IsRoundingMode rm
IsEncodable (Op.fsub_s frd frs1 frs2 rm) =
    (frd < 32) × (frs1 < 32) × (frs2 < 32) × IsRoundingMode rm
IsEncodable (Op.fmul_s frd frs1 frs2 rm) =
    (frd < 32) × (frs1 < 32) × (frs2 < 32) × IsRoundingMode rm
IsEncodable (Op.fdiv_s frd frs1 frs2 rm) =
    (frd < 32) × (frs1 < 32) × (frs2 < 32) × IsRoundingMode rm
IsEncodable (Op.fsqrt_s frd frs1 rm) = (frd < 32) × (frs1 < 32) × IsRoundingMode rm
IsEncodable (Op.fsgnj_s frd frs1 frs2) = (frd < 32) × (frs1 < 32) × (frs2 < 32)
IsEncodable (Op.fsgnjn_s frd frs1 frs2) = (frd < 32) × (frs1 < 32) × (frs2 < 32)
IsEncodable (Op.fsgnjx_s frd frs1 frs2) = (frd < 32) × (frs1 < 32) × (frs2 < 32)
IsEncodable (Op.fmin_s frd frs1 frs2) = (frd < 32) × (frs1 < 32) × (frs2 < 32)
IsEncodable (Op.fmax_s frd frs1 frs2) = (frd < 32) × (frs1 < 32) × (frs2 < 32)
IsEncodable (Op.fcvt_w_s rd frs1 rm) = (rd < 32) × (frs1 < 32) × IsRoundingMode rm
IsEncodable (Op.fcvt_wu_s rd frs1 rm) = (rd < 32) × (frs1 < 32) × IsRoundingMode rm
IsEncodable (Op.fcvt_l_s rd frs1 rm) = (rd < 32) × (frs1 < 32) × IsRoundingMode rm
IsEncodable (Op.fcvt_lu_s rd frs1 rm) = (rd < 32) × (frs1 < 32) × IsRoundingMode rm
IsEncodable (Op.fmv_x_w rd frs1) = (rd < 32) × (frs1 < 32)
IsEncodable (Op.fclass_s rd frs1) = (rd < 32) × (frs1 < 32)
IsEncodable (Op.feq_s rd frs1 frs2) = (rd < 32) × (frs1 < 32) × (frs2 < 32)
IsEncodable (Op.flt_s rd frs1 frs2) = (rd < 32) × (frs1 < 32) × (frs2 < 32)
IsEncodable (Op.fle_s rd frs1 frs2) = (rd < 32) × (frs1 < 32) × (frs2 < 32)
IsEncodable (Op.fcvt_s_w frd rs1 rm) = (frd < 32) × (rs1 < 32) × IsRoundingMode rm
IsEncodable (Op.fcvt_s_wu frd rs1 rm) = (frd < 32) × (rs1 < 32) × IsRoundingMode rm
IsEncodable (Op.fcvt_s_l frd rs1 rm) = (frd < 32) × (rs1 < 32) × IsRoundingMode rm
IsEncodable (Op.fcvt_s_lu frd rs1 rm) = (frd < 32) × (rs1 < 32) × IsRoundingMode rm
IsEncodable (Op.fmv_w_x frd rs1) = (frd < 32) × (rs1 < 32)
IsEncodable (Op.fmadd_s frd frs1 frs2 frs3 rm) =
    (frd < 32) × (frs1 < 32) × (frs2 < 32) × (frs3 < 32) × IsRoundingMode rm
IsEncodable (Op.fmsub_s frd frs1 frs2 frs3 rm) =
    (frd < 32) × (frs1 < 32) × (frs2 < 32) × (frs3 < 32) × IsRoundingMode rm
IsEncodable (Op.fnmsub_s frd frs1 frs2 frs3 rm) =
    (frd < 32) × (frs1 < 32) × (frs2 < 32) × (frs3 < 32) × IsRoundingMode rm
IsEncodable (Op.fnmadd_s frd frs1 frs2 frs3 rm) =
    (frd < 32) × (frs1 < 32) × (frs2 < 32) × (frs3 < 32) × IsRoundingMode rm
IsEncodable (Op.fld frd rs1 imm) = (frd < 32) × (rs1 < 32) × IsSigned 12 imm
IsEncodable (Op.fsd rs1 frs2 imm) = (rs1 < 32) × (frs2 < 32) × IsSigned 12 imm
IsEncodable (Op.fadd_d frd frs1 frs2 rm) =
    (frd < 32) × (frs1 < 32) × (frs2 < 32) × IsRoundingMode rm
IsEncodable (Op.fsub_d frd frs1 frs2 rm) =
    (frd < 32) × (frs1 < 32) × (frs2 < 32) × IsRoundingMode rm
IsEncodable (Op.fmul_d frd frs1 frs2 rm) =
    (frd < 32) × (frs1 < 32) × (frs2 < 32) × IsRoundingMode rm
IsEncodable (Op.fdiv_d frd frs1 frs2 rm) =
    (frd < 32) × (frs1 < 32) × (frs2 < 32) × IsRoundingMode rm
IsEncodable (Op.fsqrt_d frd frs1 rm) = (frd < 32) × (frs1 < 32) × IsRoundingMode rm
IsEncodable (Op.fsgnj_d frd frs1 frs2) = (frd < 32) × (frs1 < 32) × (frs2 < 32)
IsEncodable (Op.fsgnjn_d frd frs1 frs2) = (frd < 32) × (frs1 < 32) × (frs2 < 32)
IsEncodable (Op.fsgnjx_d frd frs1 frs2) = (frd < 32) × (frs1 < 32) × (frs2 < 32)
IsEncodable (Op.fmin_d frd frs1 frs2) = (frd < 32) × (frs1 < 32) × (frs2 < 32)
IsEncodable (Op.fmax_d frd frs1 frs2) = (frd < 32) × (frs1 < 32) × (frs2 < 32)
IsEncodable (Op.fcvt_s_d frd frs1 rm) = (frd < 32) × (frs1 < 32) × IsRoundingMode rm
IsEncodable (Op.fcvt_d_s frd frs1 rm) = (frd < 32) × (frs1 < 32) × IsRoundingMode rm
IsEncodable (Op.fcvt_w_d rd frs1 rm) = (rd < 32) × (frs1 < 32) × IsRoundingMode rm
IsEncodable (Op.fcvt_wu_d rd frs1 rm) = (rd < 32) × (frs1 < 32) × IsRoundingMode rm
IsEncodable (Op.fcvt_l_d rd frs1 rm) = (rd < 32) × (frs1 < 32) × IsRoundingMode rm
IsEncodable (Op.fcvt_lu_d rd frs1 rm) = (rd < 32) × (frs1 < 32) × IsRoundingMode rm
IsEncodable (Op.fmv_x_d rd frs1) = (rd < 32) × (frs1 < 32)
IsEncodable (Op.fclass_d rd frs1) = (rd < 32) × (frs1 < 32)
IsEncodable (Op.feq_d rd frs1 frs2) = (rd < 32) × (frs1 < 32) × (frs2 < 32)
IsEncodable (Op.flt_d rd frs1 frs2) = (rd < 32) × (frs1 < 32) × (frs2 < 32)
IsEncodable (Op.fle_d rd frs1 frs2) = (rd < 32) × (frs1 < 32) × (frs2 < 32)
IsEncodable (Op.fcvt_d_w frd rs1 rm) = (frd < 32) × (rs1 < 32) × IsRoundingMode rm
IsEncodable (Op.fcvt_d_wu frd rs1 rm) = (frd < 32) × (rs1 < 32) × IsRoundingMode rm
IsEncodable (Op.fcvt_d_l frd rs1 rm) = (frd < 32) × (rs1 < 32) × IsRoundingMode rm
IsEncodable (Op.fcvt_d_lu frd rs1 rm) = (frd < 32) × (rs1 < 32) × IsRoundingMode rm
IsEncodable (Op.fmv_d_x frd rs1) = (frd < 32) × (rs1 < 32)
IsEncodable (Op.fmadd_d frd frs1 frs2 frs3 rm) =
    (frd < 32) × (frs1 < 32) × (frs2 < 32) × (frs3 < 32) × IsRoundingMode rm
IsEncodable (Op.fmsub_d frd frs1 frs2 frs3 rm) =
    (frd < 32) × (frs1 < 32) × (frs2 < 32) × (frs3 < 32) × IsRoundingMode rm
IsEncodable (Op.fnmsub_d frd frs1 frs2 frs3 rm) =
    (frd < 32) × (frs1 < 32) × (frs2 < 32) × (frs3 < 32) × IsRoundingMode rm
IsEncodable (Op.fnmadd_d frd frs1 frs2 frs3 rm) =
    (frd < 32) × (frs1 < 32) × (frs2 < 32) × (frs3 < 32) × IsRoundingMode rm
IsEncodable Op.mret = Unit {0}
IsEncodable Op.sret = Unit {0}
IsEncodable Op.wfi = Unit {0}
IsEncodable (Op.sfence_vma rs1 rs2) = (rs1 < 32) × (rs2 < 32)
