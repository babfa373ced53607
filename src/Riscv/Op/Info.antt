-- ===== src/Riscv/Op/Info.antt =====
-- `Op::can_change_control_flow`, `Op::min_prv_level` and `Op::get_regs`.
use r2vm.Base.{ℕ, Bool, true, false, ◌==◌, ◌||◌}
use r2vm.Riscv.Csr
use r2vm.Riscv.Csr.{Csr}
use r2vm.Riscv.Op.{Op}

-- The CSRs whose accesses end a basic block.
unfoldable pub is_special_csr : Csr → Bool
is_special_csr csr = csr == Csr.instret || csr == Csr.instreth || csr == Csr.satp

unfoldable pub can_change_control_flow : Op → Bool
unfolding is_special_csr
can_change_control_flow (Op.beq _ _ _) = true
can_change_control_flow (Op.bne _ _ _) = true
can_change_control_flow (Op.blt _ _ _) = true
can_change_control_flow (Op.bge _ _ _) = true
can_change_control_flow (Op.bltu _ _ _) = true
can_change_control_flow (Op.bgeu _ _ _) = true
can_change_control_flow (Op.jalr _ _ _) = true
can_change_control_flow (Op.jal _ _) = true
can_change_control_flow Op.mret = true
can_change_control_flow Op.sret = true
can_change_control_flow Op.ecall = true
can_change_control_flow Op.ebreak = true
can_change_control_flow Op.illegal = true
can_change_control_flow Op.fence_i = true
can_change_control_flow (Op.sfence_vma _ _) = true
can_change_control_flow (Op.csrrw _ _ csr) = is_special_csr csr
can_change_control_flow (Op.csrrs _ _ csr) = is_special_csr csr
can_change_control_flow (Op.csrrc _ _ csr) = is_special_csr csr
can_change_control_flow (Op.csrrwi _ _ csr) = is_special_csr csr
can_change_control_flow (Op.csrrsi _ _ csr) = is_special_csr csr
can_change_control_flow (Op.csrrci _ _ csr) = is_special_csr csr
can_change_control_flow _ = false

unfoldable pub min_prv_level : Op → ℕ
min_prv_level (Op.csrrw _ _ csr) = Csr.min_prv_level csr
min_prv_level (Op.csrrs _ _ csr) = Csr.min_prv_level csr
min_prv_level (Op.csrrc _ _ csr) = Csr.min_prv_level csr
min_prv_level (Op.csrrwi _ _ csr) = Csr.min_prv_level csr
min_prv_level (Op.csrrsi _ _ csr) = Csr.min_prv_level csr
min_prv_level (Op.csrrci _ _ csr) = Csr.min_prv_level csr
min_prv_level Op.mret = 3
min_prv_level Op.sret = 1
min_prv_level Op.wfi = 1
min_prv_level (Op.sfence_vma _ _) = 1
min_prv_level _ = 0

-- RD, RS1 and RS2 of the operation, 0 where it uses none.
unfoldable pub get_regs : Op → ℕ × ℕ × ℕ
get_regs Op.illegal = (0, 0, 0)
get_regs (Op.lb rd rs1 _) = (rd, rs1, 0)
get_regs (Op.lh rd rs1 _) = (rd, rs1, 0)
get_regs (Op.lw rd rs1 _) = (rd, rs1, 0)
get_regs (Op.ld rd rs1 _) = (rd, rs1, 0)
get_regs (Op.lbu rd rs1 _) = (rd, rs1, 0)
get_regs (Op.lhu rd rs1 _) = (rd, rs1, 0)
get_regs (Op.lwu rd rs1 _) = (rd, rs1, 0)
get_regs Op.fence = (0, 0, 0)
get_regs Op.fence_i = (0, 0, 0)
get_regs (Op.addi rd rs1 _) = (rd, rs1, 0)
get_regs (Op.slli rd rs1 _) = (rd, rs1, 0)
get_regs (Op.slti rd rs1 _) = (rd, rs1, 0)
get_regs (Op.sltiu rd rs1 _) = (rd, rs1, 0)
get_regs (Op.xori rd rs1 _) = (rd, rs1, 0)
get_regs (Op.srli rd rs1 _) = (rd, rs1, 0)
get_regs (Op.srai rd rs1 _) = (rd, rs1, 0)
get_regs (Op.ori rd rs1 _) = (rd, rs1, 0)
get_regs (Op.andi rd rs1 _) = (rd, rs1, 0)
get_regs (Op.auipc rd _) = (rd, 0, 0)
get_regs (Op.addiw rd rs1 _) = (rd, rs1, 0)
get_regs (Op.slliw rd rs1 _) = (rd, rs1, 0)
get_regs (Op.srliw rd rs1 _) = (rd, rs1, 0)
get_regs (Op.sraiw rd rs1 _) = (rd, rs1, 0)
get_regs (Op.sb rs1 rs2 _) = (0, rs1, rs2)
get_regs (Op.sh rs1 rs2 _) = (0, rs1, rs2)
get_regs (Op.sw rs1 rs2 _) = (0, rs1, rs2)
get_regs (Op.sd rs1 rs2 _) = (0, rs1, rs2)
get_regs (Op.add rd rs1 rs2) = (rd, rs1, rs2)
get_regs (Op.sub rd rs1 rs2) = (rd, rs1, rs2)
get_regs (Op.sll rd rs1 rs2) = (rd, rs1, rs2)
get_regs (Op.slt rd rs1 rs2) = (rd, rs1, rs2)
get_regs (Op.sltu rd rs1 rs2) = (rd, rs1, rs2)
get_regs (Op.xor rd rs1 rs2) = (rd, rs1, rs2)
get_regs (Op.srl rd rs1 rs2) = (rd, rs1, rs2)
get_regs (Op.sra rd rs1 rs2) = (rd, rs1, rs2)
get_regs (Op.or rd rs1 rs2) = (rd, rs1, rs2)
get_regs (Op.and rd rs1 rs2) = (rd, rs1, rs2)
get_regs (Op.lui rd _) = (rd, 0, 0)
get_regs (Op.addw rd rs1 rs2) = (rd, rs1, rs2)
get_regs (Op.subw rd rs1 rs2) = (rd, rs1, rs2)
get_regs (Op.sllw rd rs1 rs2) = (rd, rs1, rs2)
get_regs (Op.srlw rd rs1 rs2) = (rd, rs1, rs2)
get_regs (Op.sraw rd rs1 rs2) = (rd, rs1, rs2)
get_regs (Op.beq rs1 rs2 _) = (0, rs1, rs2)
get_regs (Op.bne rs1 rs2 _) = (0, rs1, rs2)
get_regs (Op.blt rs1 rs2 _) = (0, rs1, rs2)
get_regs (Op.bge rs1 rs2 _) = (0, rs1, rs2)
get_regs (Op.bltu rs1 rs2 _) = (0, rs1, rs2)
get_regs (Op.bgeu rs1 rs2 _) = (0, rs1, rs2)
get_regs (Op.jalr rd rs1 _) = (rd, rs1, 0)
get_regs (Op.jal rd _) = (rd, 0, 0)
get_regs Op.ecall = (0, 0, 0)
get_regs Op.ebreak = (0, 0, 0)
get_regs (Op.csrrw rd rs1 _) = (rd, rs1, 0)
get_regs (Op.csrrs rd rs1 _) = (rd, rs1, 0)
get_regs (Op.csrrc rd rs1 _) = (rd, rs1, 0)
get_regs (Op.csrrwi rd _ _) = (rd, 0, 0)
get_regs (Op.csrrsi rd _ _) = (rd, 0, 0)
get_regs (Op.csrrci rd _ _) = (rd, 0, 0)
get_regs (Op.mul rd rs1 rs2) = (rd, rs1, rs2)
get_regs (Op.mulh rd rs1 rs2) = (rd, rs1, rs2)
get_regs (Op.mulhsu rd rs1 rs2) = (rd, rs1, rs2)
get_regs (Op.mulhu rd rs1 rs2) = (rd, rs1, rs2)
get_regs (Op.div rd rs1 rs2) = (rd, rs1, rs2)
get_regs (Op.divu rd rs1 rs2) = (rd, rs1, rs2)
get_regs (Op.rem rd rs1 rs2) = (rd, rs1, rs2)
get_regs (Op.remu rd rs1 rs2) = (rd, rs1, rs2)
get_regs (Op.mulw rd rs1 rs2) = (rd, rs1, rs2)
get_regs (Op.divw rd rs1 rs2) = (rd, rs1, rs2)
get_regs (Op.divuw rd rs1 rs2) = (rd, rs1, rs2)
get_regs (Op.remw rd rs1 rs2) = (rd, rs1, rs2)
get_regs (Op.remuw rd rs1 rs2) = (rd, rs1, rs2)
get_regs (Op.lr_w rd rs1 _) = (rd, rs1, 0)
get_regs (Op.lr_d rd rs1 _) = (rd, rs1, 0)
get_regs (Op.sc_w rd rs1 rs2 _) = (rd, rs1, rs2)
get_regs (Op.sc_d rd rs1 rs2 _) = (rd, rs1, rs2)
get_regs (Op.amoswap_w rd rs1 rs2 _) = (rd, rs1, rs2)
get_regs (Op.amoswap_d rd rs1 rs2 _) = (rd, rs1, rs2)
get_regs (Op.amoadd_w rd rs1 rs2 _) = (rd, rs1, rs2)
get_regs (Op.amoadd_d rd rs1 rs2 _) = (rd, rs1, rs2)
get_regs (Op.amoxor_w rd rs1 rs2 _) = (rd, rs1, rs2)
get_regs (Op.amoxor_d rd rs1 rs2 _) = (rd, rs1, rs2)
get_regs (Op.amoand_w rd rs1 rs2 _) = (rd, rs1, rs2)
get_regs (Op.amoand_d rd rs1 rs2 _) = (rd, rs1, rs2)
get_regs (Op.amoor_w rd rs1 rs2 _) = (rd, rs1, rs2)
get_regs (Op.amoor_d rd rs1 rs2 _) = (rd, rs1, rs2)
get_regs (Op.amomin_w rd rs1 rs2 _) = (rd, rs1, rs2)
get_regs (Op.amomin_d rd rs1 rs2 _) = (rd, rs1, rs2)
get_regs (Op.amomax_w rd rs1 rs2 _) = (rd, rs1, rs2)
get_regs (Op.amomax_d rd rs1 rs2 _) = (rd, rs1, rs2)
get_regs (Op.amominu_w rd rs1 rs2 _) = (rd, rs1, rs2)
get_regs (Op.amominu_d rd rs1 rs2 _) = (rd, rs1, rs2)
get_regs (Op.amomaxu_w rd rs1 rs2 _) = (rd, rs1, rs2)
get_regs (Op.amomaxu_d rd rs1 rs2 _) = (rd, rs1, rs2)
get_regs (Op.flw _ rs1 _) = (0, rs1, 0)
get_regs (Op.fsw rs1 _ _) = (0, rs1, 0)
get_regs (Op.fadd_s _ _ _ _) = (0, 0, 0)
get_regs (Op.fsub_s _ _ _ _) = (0, 0, 0)
get_regs (Op.fmul_s _ _ _ _) = (0, 0, 0)
get_regs (Op.fdiv_s _ _ _ _) = (0, 0, 0)
get_regs (Op.fsqrt_s _ _ _) = (0, 0, 0)
get_regs (Op.fsgnj_s _ _ _) = (0, 0, 0)
get_regs (Op.fsgnjn_s _ _ _) = (0, 0, 0)
get_regs (Op.fsgnjx_s _ _ _) = (0, 0, 0)
get_regs (Op.fmin_s _ _ _) = (0, 0, 0)
get_regs (Op.fmax_s _ _ _) = (0, 0, 0)
get_regs (Op.fcvt_w_s rd _ _) = (rd, 0, 0)
get_regs (Op.fcvt_wu_s rd _ _) = (rd, 0, 0)
get_regs (Op.fcvt_l_s rd _ _) = (rd, 0, 0)
get_regs (Op.fcvt_lu_s rd _ _) = (rd, 0, 0)
get_regs (Op.fmv_x_w rd _) = (rd, 0, 0)
get_regs (Op.fclass_s rd _) = (rd, 0, 0)
get_regs (Op.feq_s rd _ _) = (rd, 0, 0)
get_regs (Op.flt_s rd _ _) = (rd, 0, 0)
get_regs (Op.fle_s rd _ _) = (rd, 0, 0)
get_regs (Op.fcvt_s_w _ rs1 _) = (0, rs1, 0)
get_regs (Op.fcvt_s_wu _ rs1 _) = (0, rs1, 0)
get_regs (Op.fcvt_s_l _ rs1 _) = (0, rs1, 0)
get_regs (Op.fcvt_s_lu _ rs1 _) = (0, rs1, 0)
get_regs (Op.fmv_w_x _ rs1) = (0, rs1, 0)
get_regs (Op.fmadd_s _ _ _ _ _) = (0, 0, 0)
get_regs (Op.fmsub_s _ _ _ _ _) = (0, 0, 0)
get_regs (Op.fnmsub_s _ _ _ _ _) = (0, 0, 0)
get_regs (Op.fnmadd_s _ _ _ _ _) = (0, 0, 0)
get_regs (Op.fld _ rs1 _) = (0, rs1, 0)
get_regs (Op.fsd rs1 _ _) = (0, rs1, 0)
get_regs (Op.fadd_d _ _ _ _) = (0, 0, 0)
get_regs (Op.fsub_d _ _ _ _) = (0, 0, 0)
get_regs (Op.fmul_d _ _ _ _) = (0, 0, 0)
get_regs (Op.fdiv_d _ _ _ _) = (0, 0, 0)
get_regs (Op.fsqrt_d _ _ _) = (0, 0, 0)
get_regs (Op.fsgnj_d _ _ _) = (0, 0, 0)
get_regs (Op.fsgnjn_d _ _ _) = (0, 0, 0)
get_regs (Op.fsgnjx_d _ _ _) = (0, 0, 0)
get_regs (Op.fmin_d _ _ _) = (0, 0, 0)
get_regs (Op.fmax_d _ _ _) = (0, 0, 0)
get_regs (Op.fcvt_s_d _ _ _) = (0, 0, 0)
get_regs (Op.fcvt_d_s _ _ _) = (0, 0, 0)
get_regs (Op.fcvt_w_d rd _ _) = (rd, 0, 0)
get_regs (Op.fcvt_wu_d rd _ _) = (rd, 0, 0)
get_regs (Op.fcvt_l_d rd _ _) = (rd, 0, 0)
get_regs (Op.fcvt_lu_d rd _ _) = (rd, 0, 0)
get_regs (Op.fmv_x_d rd _) = (rd, 0, 0)
get_regs (Op.fclass_d rd _) = (rd, 0, 0)
get_regs (Op.feq_d rd _ _) = (rd, 0, 0)
get_regs (Op.flt_d rd _ _) = (rd, 0, 0)
get_regs (Op.fle_d rd _ _) = (rd, 0, 0)
get_regs (Op.fcvt_d_w _ rs1 _) = (0, rs1, 0)
get_regs (Op.fcvt_d_wu _ rs1 _) = (0, rs1, 0)
get_regs (Op.fcvt_d_l _ rs1 _) = (0, rs1, 0)
get_regs (Op.fcvt_d_lu _ rs1 _) = (0, rs1, 0)
get_regs (Op.fmv_d_x _ rs1) = (0, rs1, 0)
get_regs (Op.fmadd_d _ _ _ _ _) = (0, 0, 0)
get_regs (Op.fmsub_d _ _ _ _ _) = (0, 0, 0)
get_regs (Op.fnmsub_d _ _ _ _ _) = (0, 0, 0)
get_regs (Op.fnmadd_d _ _ _ _ _) = (0, 0, 0)
get_regs Op.mret = (0, 0, 0)
get_regs Op.sret = (0, 0, 0)
get_regs Op.wfi = (0, 0, 0)
get_regs (Op.sfence_vma rs1 rs2) = (0, rs1, rs2)
