-- ===== src/Emu/Step/Core.antt =====
-- Every arm of `step` that is modelled here, but for ECALL, is confined to what `get_regs` and
-- `can_change_control_flow` say of it.
use r2vm.Base.{
  ℕ, Bool, true, false, refl, ◌≡◌, inl, inr, arith, ◌==◌, not, ◌^◌, is_clear, bit_and, bit_or,
  not64, sign_extend, wrapping_add, bit_xor, min, max, List, length, ap, get_or, ◌>>>◌, Bool-cases,
}
use r2vm.Riscv.Op.{Op}
use r2vm.Riscv.Op.Info.{get_regs, can_change_control_flow, is_special_csr}
use r2vm.Emu.Context.{Context, ok, alert_if_pending}
use r2vm.Emu.Trap
use r2vm.Emu.Step.{step}
use r2vm.Emu.Step.Arms.{Platform, read_reg, write_reg, global_sfence, branch}
use r2vm.Emu.Step.Bytes.{Memory}
use r2vm.Emu.Step.Arith.{i32_as_u64, signed_min, signed_max}
use r2vm.Emu.Step.Quiet.{Undisturbed, undisturbed}
use r2vm.Emu.Step.Effects.{Follows, returns, panics, raised, write_reg-Writes, same-Writes}
use r2vm.Emu.Step.Effects.{
  result-Follows, load-Follows, store-Follows, lr-Follows, sc-Follows, amo-Follows,
  csr_swap-Follows, csr_change-Follows,
}

-- An instruction whose arm is modelled here and that calls nothing outside the hart: no floating-point
-- operation, and no ECALL.
unfoldable pub is_core : Op → Bool
is_core Op.ecall = false
is_core (Op.flw _ _ _) = false
is_core (Op.fsw _ _ _) = false
is_core (Op.fadd_s _ _ _ _) = false
is_core (Op.fsub_s _ _ _ _) = false
is_core (Op.fmul_s _ _ _ _) = false
is_core (Op.fdiv_s _ _ _ _) = false
is_core (Op.fsqrt_s _ _ _) = false
is_core (Op.fsgnj_s _ _ _) = false
is_core (Op.fsgnjn_s _ _ _) = false
is_core (Op.fsgnjx_s _ _ _) = false
is_core (Op.fmin_s _ _ _) = false
is_core (Op.fmax_s _ _ _) = false
is_core (Op.fcvt_w_s _ _ _) = false
is_core (Op.fcvt_wu_s _ _ _) = false
is_core (Op.fcvt_l_s _ _ _) = false
is_core (Op.fcvt_lu_s _ _ _) = false
is_core (Op.fmv_x_w _ _) = false
is_core (Op.fclass_s _ _) = false
is_core (Op.feq_s _ _ _) = false
is_core (Op.flt_s _ _ _) = false
is_core (Op.fle_s _ _ _) = false
is_core (Op.fcvt_s_w _ _ _) = false
is_core (Op.fcvt_s_wu _ _ _) = false
is_core (Op.fcvt_s_l _ _ _) = false
is_core (Op.fcvt_s_lu _ _ _) = false
is_core (Op.fmv_w_x _ _) = false
is_core (Op.fmadd_s _ _ _ _ _) = false
is_core (Op.fmsub_s _ _ _ _ _) = false
is_core (Op.fnmsub_s _ _ _ _ _) = false
is_core (Op.fnmadd_s _ _ _ _ _) = false
is_core (Op.fld _ _ _) = false
is_core (Op.fsd _ _ _) = false
is_core (Op.fadd_d _ _ _ _) = false
is_core (Op.fsub_d _ _ _ _) = false
is_core (Op.fmul_d _ _ _ _) = false
is_core (Op.fdiv_d _ _ _ _) = false
is_core (Op.fsqrt_d _ _ _) = false
is_core (Op.fsgnj_d _ _ _) = false
is_core (Op.fsgnjn_d _ _ _) = false
is_core (Op.fsgnjx_d _ _ _) = false
is_core (Op.fmin_d _ _ _) = false
is_core (Op.fmax_d _ _ _) = false
is_core (Op.fcvt_s_d _ _ _) = false
is_core (Op.fcvt_d_s _ _ _) = false
is_core (Op.fcvt_w_d _ _ _) = false
is_core (Op.fcvt_wu_d _ _ _) = false
is_core (Op.fcvt_l_d _ _ _) = false
is_core (Op.fcvt_lu_d _ _ _) = false
is_core (Op.fmv_x_d _ _) = false
is_core (Op.fclass_d _ _) = false
is_core (Op.feq_d _ _ _) = false
is_core (Op.flt_d _ _ _) = false
is_core (Op.fle_d _ _ _) = false
is_core (Op.fcvt_d_w _ _ _) = false
is_core (Op.fcvt_d_wu _ _ _) = false
is_core (Op.fcvt_d_l _ _ _) = false
is_core (Op.fcvt_d_lu _ _ _) = false
is_core (Op.fmv_d_x _ _) = false
is_core (Op.fmadd_d _ _ _ _ _) = false
is_core (Op.fmsub_d _ _ _ _ _) = false
is_core (Op.fnmsub_d _ _ _ _ _) = false
is_core (Op.fnmadd_d _ _ _ _ _) = false
is_core _ = true

module _ (p : Platform) (mem : Memory) (ctx : Context) where
  branch-Follows :
      (taken compressed : Bool) (imm : ℕ)
      → Follows true 0 ctx (branch p mem ctx taken compressed imm)
  unfolding branch
  branch-Follows true compressed imm =
      returns mem _
        (record { size = refl; others = λ j _. refl; same_pc = λ e. absurd (ground (arith, e)) })
  branch-Follows false compressed imm =
      returns mem ctx (same-Writes true 0 ctx ctx (undisturbed ctx))

  jump-Follows :
      (rd pc v : ℕ) → Follows true rd ctx (ok mem (record (write_reg ctx rd v) { pc = pc }))
  jump-Follows rd pc v =
      let w = write_reg-Writes true rd ctx ctx v (undisturbed ctx) in
      returns mem _
        (record { size = w.size; others = w.others; same_pc = λ e. absurd (ground (arith, e)) })

  quiet-Follows : (flow : Bool) (c : Context) → Undisturbed ctx c → Follows flow 0 ctx (ok mem c)
  quiet-Follows flow c u = returns mem c (same-Writes flow 0 ctx c u)

  global_sfence-Follows : (mask : ℕ) → Follows true 0 ctx (ok mem (global_sfence ctx mask))
  unfolding global_sfence
  global_sfence-Follows mask = elim (Bool-cases (is_clear mask (2 ^ ctx.hartid))) [
    | inl e ↦ rw e (quiet-Follows true ctx (undisturbed ctx))
    | inr e ↦ rw e (quiet-Follows true _ (record { same_registers = refl; same_pc = refl }))
  ]

  -- MRET and SRET.
  returned : (pc : ℕ) (c : Context) → c.registers ≡ ctx.registers → Follows true 0 ctx (ok mem c)
  returned pc c same = returns mem c (record {
    size = ap length same;
    others = λ j _. ap (λ (r : List ℕ). get_or r j 0) same;
    same_pc = λ e. absurd (ground (arith, e));
  })

  mret-Follows : Follows true 0 ctx (step p mem ctx Op.mret false)
  unfolding step Trap.mret alert_if_pending
  mret-Follows = elim (Bool-cases (bit_and ctx.mstatus 0x1800 >>> 11 == 2)) [
    | inl e ↦ rw e panics
    | inr e ↦ rw e (returned 0 _ refl)
  ]

  sret-Follows : Follows true 0 ctx (step p mem ctx Op.sret false)
  unfolding step Trap.sret alert_if_pending
  sret-Follows = returned 0 _ refl

  -- One step of an instruction that is modelled here, other than ECALL, changes no integer register but
  -- the one that `get_regs` names as its destination, and never register 0; it changes the program
  -- counter only where `can_change_control_flow` says so; and where it raises an exception, no register
  -- has changed and the program counter has not moved.
  pub step-Follows :
      (op : Op) (compressed : Bool)
      → is_core op ≡ true
      → Follows (can_change_control_flow op) ((get_regs op).0) ctx (step p mem ctx op compressed)
  unfolding step is_core get_regs can_change_control_flow
  step-Follows Op.illegal compressed core = raised true 0 ctx 2 0
  step-Follows (Op.lb rd rs1 imm) compressed core =
      load-Follows false rd ctx p mem 1 (sign_extend 8 64) rs1 imm
  step-Follows (Op.lh rd rs1 imm) compressed core =
      load-Follows false rd ctx p mem 2 (sign_extend 16 64) rs1 imm
  step-Follows (Op.lw rd rs1 imm) compressed core =
      load-Follows false rd ctx p mem 4 i32_as_u64 rs1 imm
  step-Follows (Op.ld rd rs1 imm) compressed core =
      load-Follows false rd ctx p mem 8 (λ v. v) rs1 imm
  step-Follows (Op.lbu rd rs1 imm) compressed core =
      load-Follows false rd ctx p mem 1 (λ v. v) rs1 imm
  step-Follows (Op.lhu rd rs1 imm) compressed core =
      load-Follows false rd ctx p mem 2 (λ v. v) rs1 imm
  step-Follows (Op.lwu rd rs1 imm) compressed core =
      load-Follows false rd ctx p mem 4 (λ v. v) rs1 imm
  step-Follows (Op.addi rd rs1 imm) compressed core = result-Follows false rd ctx p mem mem _
  step-Follows (Op.slli rd rs1 imm) compressed core = result-Follows false rd ctx p mem mem _
  step-Follows (Op.slti rd rs1 imm) compressed core = result-Follows false rd ctx p mem mem _
  step-Follows (Op.sltiu rd rs1 imm) compressed core = result-Follows false rd ctx p mem mem _
  step-Follows (Op.xori rd rs1 imm) compressed core = result-Follows false rd ctx p mem mem _
  step-Follows (Op.srli rd rs1 imm) compressed core = result-Follows false rd ctx p mem mem _
  step-Follows (Op.srai rd rs1 imm) compressed core = result-Follows false rd ctx p mem mem _
  step-Follows (Op.ori rd rs1 imm) compressed core = result-Follows false rd ctx p mem mem _
  step-Follows (Op.andi rd rs1 imm) compressed core = result-Follows false rd ctx p mem mem _
  step-Follows Op.fence compressed core =
      quiet-Follows false _ (record { same_registers = refl; same_pc = refl })
  step-Follows Op.fence_i compressed core =
      quiet-Follows true _ (record { same_registers = refl; same_pc = refl })
  step-Follows (Op.addiw rd rs1 imm) compressed core = result-Follows false rd ctx p mem mem _
  step-Follows (Op.slliw rd rs1 imm) compressed core = result-Follows false rd ctx p mem mem _
  step-Follows (Op.srliw rd rs1 imm) compressed core = result-Follows false rd ctx p mem mem _
  step-Follows (Op.sraiw rd rs1 imm) compressed core = result-Follows false rd ctx p mem mem _
  step-Follows (Op.sb rs1 rs2 imm) compressed core = store-Follows false 0 ctx p mem 1 rs1 rs2 imm
  step-Follows (Op.sh rs1 rs2 imm) compressed core = store-Follows false 0 ctx p mem 2 rs1 rs2 imm
  step-Follows (Op.sw rs1 rs2 imm) compressed core = store-Follows false 0 ctx p mem 4 rs1 rs2 imm
  step-Follows (Op.sd rs1 rs2 imm) compressed core = store-Follows false 0 ctx p mem 8 rs1 rs2 imm
  step-Follows (Op.add rd rs1 rs2) compressed core = result-Follows false rd ctx p mem mem _
  step-Follows (Op.sub rd rs1 rs2) compressed core = result-Follows false rd ctx p mem mem _
  step-Follows (Op.sll rd rs1 rs2) compressed core = result-Follows false rd ctx p mem mem _
  step-Follows (Op.slt rd rs1 rs2) compressed core = result-Follows false rd ctx p mem mem _
  step-Follows (Op.sltu rd rs1 rs2) compressed core = result-Follows false rd ctx p mem mem _
  step-Follows (Op.xor rd rs1 rs2) compressed core = result-Follows false rd ctx p mem mem _
  step-Follows (Op.srl rd rs1 rs2) compressed core = result-Follows false rd ctx p mem mem _
  step-Follows (Op.sra rd rs1 rs2) compressed core = result-Follows false rd ctx p mem mem _
  step-Follows (Op.or rd rs1 rs2) compressed core = result-Follows false rd ctx p mem mem _
  step-Follows (Op.and rd rs1 rs2) compressed core = result-Follows false rd ctx p mem mem _
  step-Follows (Op.lui rd imm) compressed core = result-Follows false rd ctx p mem mem _
  step-Follows (Op.addw rd rs1 rs2) compressed core = result-Follows false rd ctx p mem mem _
  step-Follows (Op.subw rd rs1 rs2) compressed core = result-Follows false rd ctx p mem mem _
  step-Follows (Op.sllw rd rs1 rs2) compressed core = result-Follows false rd ctx p mem mem _
  step-Follows (Op.srlw rd rs1 rs2) compressed core = result-Follows false rd ctx p mem mem _
  step-Follows (Op.sraw rd rs1 rs2) compressed core = result-Follows false rd ctx p mem mem _
  step-Follows (Op.auipc rd imm) compressed core = result-Follows false rd ctx p mem mem _
  step-Follows (Op.beq rs1 rs2 imm) compressed core = branch-Follows _ compressed imm
  step-Follows (Op.bne rs1 rs2 imm) compressed core = branch-Follows _ compressed imm
  step-Follows (Op.blt rs1 rs2 imm) compressed core = branch-Follows _ compressed imm
  step-Follows (Op.bge rs1 rs2 imm) compressed core = branch-Follows _ compressed imm
  step-Follows (Op.bltu rs1 rs2 imm) compressed core = branch-Follows _ compressed imm
  step-Follows (Op.bgeu rs1 rs2 imm) compressed core = branch-Follows _ compressed imm
  step-Follows (Op.jalr rd rs1 imm) compressed core = jump-Follows rd _ ctx.pc
  step-Follows (Op.jal rd imm) compressed core = jump-Follows rd _ ctx.pc
  step-Follows Op.ecall compressed core = absurd (ground (arith, core))
  step-Follows Op.ebreak compressed core = raised true 0 ctx 3 0
  step-Follows (Op.csrrw rd rs1 csr) compressed core =
      csr_swap-Follows (is_special_csr csr) rd ctx p mem (read_reg ctx rs1) csr
  step-Follows (Op.csrrs rd rs1 csr) compressed core =
      csr_change-Follows (is_special_csr csr) rd ctx p mem (not (rs1 == 0))
        (λ x c. bit_or x (read_reg c rs1)) csr
  step-Follows (Op.csrrc rd rs1 csr) compressed core =
      csr_change-Follows (is_special_csr csr) rd ctx p mem (not (rs1 == 0))
        (λ x c. bit_and x (not64 (read_reg c rs1))) csr
  step-Follows (Op.csrrwi rd imm csr) compressed core =
      csr_swap-Follows (is_special_csr csr) rd ctx p mem imm csr
  step-Follows (Op.csrrsi rd imm csr) compressed core =
      csr_change-Follows (is_special_csr csr) rd ctx p mem (not (imm == 0)) (λ x c. bit_or x imm)
        csr
  step-Follows (Op.csrrci rd imm csr) compressed core =
      csr_change-Follows (is_special_csr csr) rd ctx p mem (not (imm == 0))
        (λ x c. bit_and x (not64 imm)) csr
  step-Follows (Op.mul rd rs1 rs2) compressed core = result-Follows false rd ctx p mem mem _
  step-Follows (Op.mulh rd rs1 rs2) compressed core = result-Follows false rd ctx p mem mem _
  step-Follows (Op.mulhsu rd rs1 rs2) compressed core = result-Follows false rd ctx p mem mem _
  step-Follows (Op.mulhu rd rs1 rs2) compressed core = result-Follows false rd ctx p mem mem _
  step-Follows (Op.div rd rs1 rs2) compressed core = result-Follows false rd ctx p mem mem _
  step-Follows (Op.divu rd rs1 rs2) compressed core = result-Follows false rd ctx p mem mem _
  step-Follows (Op.rem rd rs1 rs2) compressed core = result-Follows false rd ctx p mem mem _
  step-Follows (Op.remu rd rs1 rs2) compressed core = result-Follows false rd ctx p mem mem _
  step-Follows (Op.mulw rd rs1 rs2) compressed core = result-Follows false rd ctx p mem mem _
  step-Follows (Op.divw rd rs1 rs2) compressed core = result-Follows false rd ctx p mem mem _
  step-Follows (Op.divuw rd rs1 rs2) compressed core = result-Follows false rd ctx p mem mem _
  step-Follows (Op.remw rd rs1 rs2) compressed core = result-Follows false rd ctx p mem mem _
  step-Follows (Op.remuw rd rs1 rs2) compressed core = result-Follows false rd ctx p mem mem _
  step-Follows (Op.lr_w rd rs1 _) compressed core = lr-Follows false rd ctx p mem 4 i32_as_u64 rs1
  step-Follows (Op.lr_d rd rs1 _) compressed core = lr-Follows false rd ctx p mem 8 (λ v. v) rs1
  step-Follows (Op.sc_w rd rs1 rs2 _) compressed core = sc-Follows false rd ctx p mem 4 rs1 rs2
  step-Follows (Op.sc_d rd rs1 rs2 _) compressed core = sc-Follows false rd ctx p mem 8 rs1 rs2
  step-Follows (Op.amoswap_w rd rs1 rs2 _) compressed core =
      amo-Follows false rd ctx p mem 4 i32_as_u64 (λ x y. y) rs1 rs2
  step-Follows (Op.amoswap_d rd rs1 rs2 _) compressed core =
      amo-Follows false rd ctx p mem 8 (λ v. v) (λ x y. y) rs1 rs2
  step-Follows (Op.amoadd_w rd rs1 rs2 _) compressed core =
      amo-Follows false rd ctx p mem 4 i32_as_u64 (wrapping_add 32) rs1 rs2
  step-Follows (Op.amoadd_d rd rs1 rs2 _) compressed core =
      amo-Follows false rd ctx p mem 8 (λ v. v) (wrapping_add 64) rs1 rs2
  step-Follows (Op.amoand_w rd rs1 rs2 _) compressed core =
      amo-Follows false rd ctx p mem 4 i32_as_u64 bit_and rs1 rs2
  step-Follows (Op.amoand_d rd rs1 rs2 _) compressed core =
      amo-Follows false rd ctx p mem 8 (λ v. v) bit_and rs1 rs2
  step-Follows (Op.amoor_w rd rs1 rs2 _) compressed core =
      amo-Follows false rd ctx p mem 4 i32_as_u64 bit_or rs1 rs2
  step-Follows (Op.amoor_d rd rs1 rs2 _) compressed core =
      amo-Follows false rd ctx p mem 8 (λ v. v) bit_or rs1 rs2
  step-Follows (Op.amoxor_w rd rs1 rs2 _) compressed core =
      amo-Follows false rd ctx p mem 4 i32_as_u64 bit_xor rs1 rs2
  step-Follows (Op.amoxor_d rd rs1 rs2 _) compressed core =
      amo-Follows false rd ctx p mem 8 (λ v. v) bit_xor rs1 rs2
  step-Follows (Op.amomin_w rd rs1 rs2 _) compressed core =
      amo-Follows false rd ctx p mem 4 i32_as_u64 (signed_min 32) rs1 rs2
  step-Follows (Op.amomin_d rd rs1 rs2 _) compressed core =
      amo-Follows false rd ctx p mem 8 (λ v. v) (signed_min 64) rs1 rs2
  step-Follows (Op.amomax_w rd rs1 rs2 _) compressed core =
      amo-Follows false rd ctx p mem 4 i32_as_u64 (signed_max 32) rs1 rs2
  step-Follows (Op.amomax_d rd rs1 rs2 _) compressed core =
      amo-Follows false rd ctx p mem 8 (λ v. v) (signed_max 64) rs1 rs2
  step-Follows (Op.amominu_w rd rs1 rs2 _) compressed core =
      amo-Follows false rd ctx p mem 4 i32_as_u64 min rs1 rs2
  step-Follows (Op.amominu_d rd rs1 rs2 _) compressed core =
      amo-Follows false rd ctx p mem 8 (λ v. v) min rs1 rs2
  step-Follows (Op.amomaxu_w rd rs1 rs2 _) compressed core =
      amo-Follows false rd ctx p mem 4 i32_as_u64 max rs1 rs2
  step-Follows (Op.amomaxu_d rd rs1 rs2 _) compressed core =
      amo-Follows false rd ctx p mem 8 (λ v. v) max rs1 rs2
  step-Follows Op.mret compressed core = mret-Follows
  step-Follows Op.sret compressed core = sret-Follows
  step-Follows Op.wfi compressed core =
      quiet-Follows false _ (record { same_registers = refl; same_pc = refl })
  step-Follows (Op.sfence_vma rs1 rs2) compressed core = global_sfence-Follows (2 ^ ctx.hartid)
  step-Follows (Op.flw _ _ _) compressed core = absurd (ground (arith, core))
  step-Follows (Op.fsw _ _ _) compressed core = absurd (ground (arith, core))
  step-Follows (Op.fadd_s _ _ _ _) compressed core = absurd (ground (arith, core))
  step-Follows (Op.fsub_s _ _ _ _) compressed core = absurd (ground (arith, core))
  step-Follows (Op.fmul_s _ _ _ _) compressed core = absurd (ground (arith, core))
  step-Follows (Op.fdiv_s _ _ _ _) compressed core = absurd (ground (arith, core))
  step-Follows (Op.fsqrt_s _ _ _) compressed core = absurd (ground (arith, core))
  step-Follows (Op.fsgnj_s _ _ _) compressed core = absurd (ground (arith, core))
  step-Follows (Op.fsgnjn_s _ _ _) compressed core = absurd (ground (arith, core))
  step-Follows (Op.fsgnjx_s _ _ _) compressed core = absurd (ground (arith, core))
  step-Follows (Op.fmin_s _ _ _) compressed core = absurd (ground (arith, core))
  step-Follows (Op.fmax_s _ _ _) compressed core = absurd (ground (arith, core))
  step-Follows (Op.fcvt_w_s _ _ _) compressed core = absurd (ground (arith, core))
  step-Follows (Op.fcvt_wu_s _ _ _) compressed core = absurd (ground (arith, core))
  step-Follows (Op.fcvt_l_s _ _ _) compressed core = absurd (ground (arith, core))
  step-Follows (Op.fcvt_lu_s _ _ _) compressed core = absurd (ground (arith, core))
  step-Follows (Op.fmv_x_w _ _) compressed core = absurd (ground (arith, core))
  step-Follows (Op.fclass_s _ _) compressed core = absurd (ground (arith, core))
  step-Follows (Op.feq_s _ _ _) compressed core = absurd (ground (arith, core))
  step-Follows (Op.flt_s _ _ _) compressed core = absurd (ground (arith, core))
  step-Follows (Op.fle_s _ _ _) compressed core = absurd (ground (arith, core))
  step-Follows (Op.fcvt_s_w _ _ _) compressed core = absurd (ground (arith, core))
  step-Follows (Op.fcvt_s_wu _ _ _) compressed core = absurd (ground (arith, core))
  step-Follows (Op.fcvt_s_l _ _ _) compressed core = absurd (ground (arith, core))
  step-Follows (Op.fcvt_s_lu _ _ _) compressed core = absurd (ground (arith, core))
  step-Follows (Op.fmv_w_x _ _) compressed core = absurd (ground (arith, core))
  step-Follows (Op.fmadd_s _ _ _ _ _) compressed core = absurd (ground (arith, core))
  step-Follows (Op.fmsub_s _ _ _ _ _) compressed core = absurd (ground (arith, core))
  step-Follows (Op.fnmsub_s _ _ _ _ _) compressed core = absurd (ground (arith, core))
  step-Follows (Op.fnmadd_s _ _ _ _ _) compressed core = absurd (ground (arith, core))
  step-Follows (Op.fld _ _ _) compressed core = absurd (ground (arith, core))
  step-Follows (Op.fsd _ _ _) compressed core = absurd (ground (arith, core))
  step-Follows (Op.fadd_d _ _ _ _) compressed core = absurd (ground (arith, core))
  step-Follows (Op.fsub_d _ _ _ _) compressed core = absurd (ground (arith, core))
  step-Follows (Op.fmul_d _ _ _ _) compressed core = absurd (ground (arith, core))
  step-Follows (Op.fdiv_d _ _ _ _) compressed core = absurd (ground (arith, core))
  step-Follows (Op.fsqrt_d _ _ _) compressed core = absurd (ground (arith, core))
  step-Follows (Op.fsgnj_d _ _ _) compressed core = absurd (ground (arith, core))
  step-Follows (Op.fsgnjn_d _ _ _) compressed core = absurd (ground (arith, core))
  step-Follows (Op.fsgnjx_d _ _ _) compressed core = absurd (ground (arith, core))
  step-Follows (Op.fmin_d _ _ _) compressed core = absurd (ground (arith, core))
  step-Follows (Op.fmax_d _ _ _) compressed core = absurd (ground (arith, core))
  step-Follows (Op.fcvt_s_d _ _ _) compressed core = absurd (ground (arith, core))
  step-Follows (Op.fcvt_d_s _ _ _) compressed core = absurd (ground (arith, core))
  step-Follows (Op.fcvt_w_d _ _ _) compressed core = absurd (ground (arith, core))
  step-Follows (Op.fcvt_wu_d _ _ _) compressed core = absurd (ground (arith, core))
  step-Follows (Op.fcvt_l_d _ _ _) compressed core = absurd (ground (arith, core))
  step-Follows (Op.fcvt_lu_d _ _ _) compressed core = absurd (ground (arith, core))
  step-Follows (Op.fmv_x_d _ _) compressed core = absurd (ground (arith, core))
  step-Follows (Op.fclass_d _ _) compressed core = absurd (ground (arith, core))
  step-Follows (Op.feq_d _ _ _) compressed core = absurd (ground (arith, core))
  step-Follows (Op.flt_d _ _ _) compressed core = absurd (ground (arith, core))
  step-Follows (Op.fle_d _ _ _) compressed core = absurd (ground (arith, core))
  step-Follows (Op.fcvt_d_w _ _ _) compressed core = absurd (ground (arith, core))
  step-Follows (Op.fcvt_d_wu _ _ _) compressed core = absurd (ground (arith, core))
  step-Follows (Op.fcvt_d_l _ _ _) compressed core = absurd (ground (arith, core))
  step-Follows (Op.fcvt_d_lu _ _ _) compressed core = absurd (ground (arith, core))
  step-Follows (Op.fmv_d_x _ _) compressed core = absurd (ground (arith, core))
  step-Follows (Op.fmadd_d _ _ _ _ _) compressed core = absurd (ground (arith, core))
  step-Follows (Op.fmsub_d _ _ _ _ _) compressed core = absurd (ground (arith, core))
  step-Follows (Op.fnmsub_d _ _ _ _ _) compressed core = absurd (ground (arith, core))
  step-Follows (Op.fnmadd_d _ _ _ _ _) compressed core = absurd (ground (arith, core))
