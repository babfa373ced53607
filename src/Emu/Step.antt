-- ===== src/Emu/Step.antt =====
-- The instruction `step` of `src/emu/interp.rs`. `pc` is past the instruction when `step` starts. The
-- result of an arm that returns `Ok` is the memory afterwards; what an arm that returns `Err` leaves is
-- the context alone. A shift masks its amount to the width, as a release build does.
pub mod Bytes
pub mod Arith
pub mod Arms
pub mod Quiet
pub mod Effects
pub mod Core
pub mod Divide
pub mod ReadBack
use r2vm.Base.{
  ℕ, ◌+◌, ◌-◌, ◌*◌, ◌/◌, ◌%◌, ◌^◌, min, max, Bool, true, false, not, ◌==◌, ltb, leb, if◌then◌else◌,
}
use r2vm.Base.{
  bit_and, bit_or, bit_xor, not64, is_set, is_clear, u8, u16, u32, u64, ◌>>>◌, get_or, set,
}
use r2vm.Base.{wrapping_add, wrapping_sub, sign_extend, sra, sll, slt, Option, none, some}
use r2vm.Riscv.Op
use r2vm.Riscv.Op.{Op}
use r2vm.Riscv.Csr.{Csr}
use r2vm.Emu.Context.{Context, Env, SharedContext, Outcome, ok, err, panic, ◌>>=◌, raise}
use r2vm.Emu.Context.{clear_caches, clear_local_icache}
use r2vm.Emu.Csr.{read_csr, write_csr}
use r2vm.Emu.Trap
use r2vm.Emu.Translate.{MemoryModel, translate_read, translate_write}
use r2vm.Emu.Step.Bytes.{Memory}
use r2vm.Emu.Step.Arms.{
  Platform, read_reg, read_32, write_reg, write_32, pc_pre, keeping, global_sfence, vaddr,
}
use r2vm.Emu.Step.Arms.{
  load_arm, store_arm, lr_arm, sc_arm, amo_arm, branch, csr_swap, csr_change, ecall_arm, wfi_arm,
}
use r2vm.Emu.Step.Arith.{bit, i32_as_u64, imm_as_u64, mulh, mulhsu, mulhu, div, divu, rem, remu}
use r2vm.Emu.Step.Arith.{signed_min, signed_max}

module _ (p : Platform) (mem : Memory) (ctx : Context) where
  abbrev result : (rd value : ℕ) → Outcome Memory
  result rd value = ok mem (write_reg ctx rd value)

  abbrev result_32 : (rd value : ℕ) → Outcome Memory
  result_32 rd value = ok mem (write_reg ctx rd (i32_as_u64 value))

  unfoldable pub step : Op → (compressed : Bool) → Outcome Memory
  unfolding load_arm store_arm branch ecall_arm csr_swap csr_change lr_arm sc_arm amo_arm write_reg
      raise clear_local_icache Trap.mret Trap.sret wfi_arm global_sfence
  step Op.illegal compressed = raise ctx 2 0
  step (Op.lb rd rs1 imm) compressed = load_arm p mem ctx 1 (sign_extend 8 64) rd rs1 imm
  step (Op.lh rd rs1 imm) compressed = load_arm p mem ctx 2 (sign_extend 16 64) rd rs1 imm
  step (Op.lw rd rs1 imm) compressed = load_arm p mem ctx 4 i32_as_u64 rd rs1 imm
  step (Op.ld rd rs1 imm) compressed = load_arm p mem ctx 8 (λ v. v) rd rs1 imm
  step (Op.lbu rd rs1 imm) compressed = load_arm p mem ctx 1 (λ v. v) rd rs1 imm
  step (Op.lhu rd rs1 imm) compressed = load_arm p mem ctx 2 (λ v. v) rd rs1 imm
  step (Op.lwu rd rs1 imm) compressed = load_arm p mem ctx 4 (λ v. v) rd rs1 imm
  step (Op.addi rd rs1 imm) compressed =
      result rd (wrapping_add 64 (read_reg ctx rs1) (imm_as_u64 imm))
  step (Op.slli rd rs1 imm) compressed = result rd (sll 64 (read_reg ctx rs1) (bit_and imm 63))
  step (Op.slti rd rs1 imm) compressed =
      result rd (bit (slt 64 (read_reg ctx rs1) (imm_as_u64 imm)))
  step (Op.sltiu rd rs1 imm) compressed = result rd (bit (ltb (read_reg ctx rs1) (imm_as_u64 imm)))
  step (Op.xori rd rs1 imm) compressed = result rd (bit_xor (read_reg ctx rs1) (imm_as_u64 imm))
  step (Op.srli rd rs1 imm) compressed = result rd ((read_reg ctx rs1) >>> bit_and imm 63)
  step (Op.srai rd rs1 imm) compressed = result rd (sra 64 (read_reg ctx rs1) (bit_and imm 63))
  step (Op.ori rd rs1 imm) compressed = result rd (bit_or (read_reg ctx rs1) (imm_as_u64 imm))
  step (Op.andi rd rs1 imm) compressed = result rd (bit_and (read_reg ctx rs1) (imm_as_u64 imm))
  step Op.fence compressed = ok mem ctx
  step Op.fence_i compressed = ok mem (record ctx { shared = clear_local_icache ctx.shared })
  step (Op.addiw rd rs1 imm) compressed = result_32 rd (wrapping_add 32 (read_32 ctx rs1) imm)
  step (Op.slliw rd rs1 imm) compressed = result_32 rd (sll 32 (read_32 ctx rs1) (bit_and imm 31))
  step (Op.srliw rd rs1 imm) compressed = result_32 rd ((read_32 ctx rs1) >>> bit_and imm 31)
  step (Op.sraiw rd rs1 imm) compressed = result_32 rd (sra 32 (read_32 ctx rs1) (bit_and imm 31))
  step (Op.sb rs1 rs2 imm) compressed = store_arm p mem ctx 1 rs1 rs2 imm
  step (Op.sh rs1 rs2 imm) compressed = store_arm p mem ctx 2 rs1 rs2 imm
  step (Op.sw rs1 rs2 imm) compressed = store_arm p mem ctx 4 rs1 rs2 imm
  step (Op.sd rs1 rs2 imm) compressed = store_arm p mem ctx 8 rs1 rs2 imm
  step (Op.add rd rs1 rs2) compressed =
      result rd (wrapping_add 64 (read_reg ctx rs1) (read_reg ctx rs2))
  step (Op.sub rd rs1 rs2) compressed =
      result rd (wrapping_sub 64 (read_reg ctx rs1) (read_reg ctx rs2))
  step (Op.sll rd rs1 rs2) compressed =
      result rd (sll 64 (read_reg ctx rs1) (bit_and (read_reg ctx rs2) 63))
  step (Op.slt rd rs1 rs2) compressed =
      result rd (bit (slt 64 (read_reg ctx rs1) (read_reg ctx rs2)))
  step (Op.sltu rd rs1 rs2) compressed = result rd (bit (ltb (read_reg ctx rs1) (read_reg ctx rs2)))
  step (Op.xor rd rs1 rs2) compressed = result rd (bit_xor (read_reg ctx rs1) (read_reg ctx rs2))
  step (Op.srl rd rs1 rs2) compressed =
      result rd ((read_reg ctx rs1) >>> bit_and (read_reg ctx rs2) 63)
  step (Op.sra rd rs1 rs2) compressed =
      result rd (sra 64 (read_reg ctx rs1) (bit_and (read_reg ctx rs2) 63))
  step (Op.or rd rs1 rs2) compressed = result rd (bit_or (read_reg ctx rs1) (read_reg ctx rs2))
  step (Op.and rd rs1 rs2) compressed = result rd (bit_and (read_reg ctx rs1) (read_reg ctx rs2))
  step (Op.lui rd imm) compressed = result rd (imm_as_u64 imm)
  step (Op.addw rd rs1 rs2) compressed =
      result_32 rd (wrapping_add 32 (read_32 ctx rs1) (read_32 ctx rs2))
  step (Op.subw rd rs1 rs2) compressed =
      result_32 rd (wrapping_sub 32 (read_32 ctx rs1) (read_32 ctx rs2))
  step (Op.sllw rd rs1 rs2) compressed =
      result_32 rd (sll 32 (read_32 ctx rs1) (bit_and (read_reg ctx rs2) 31))
  step (Op.srlw rd rs1 rs2) compressed =
      result_32 rd ((read_32 ctx rs1) >>> bit_and (read_reg ctx rs2) 31)
  step (Op.sraw rd rs1 rs2) compressed =
      result_32 rd (sra 32 (read_32 ctx rs1) (bit_and (read_reg ctx rs2) 31))
  step (Op.auipc rd imm) compressed =
      result rd (wrapping_add 64 (pc_pre ctx compressed) (imm_as_u64 imm))
  step (Op.beq rs1 rs2 imm) compressed =
      branch p mem ctx ((read_reg ctx rs1) == (read_reg ctx rs2)) compressed imm
  step (Op.bne rs1 rs2 imm) compressed =
      branch p mem ctx (not ((read_reg ctx rs1) == (read_reg ctx rs2))) compressed imm
  step (Op.blt rs1 rs2 imm) compressed =
      branch p mem ctx (slt 64 (read_reg ctx rs1) (read_reg ctx rs2)) compressed imm
  step (Op.bge rs1 rs2 imm) compressed =
      branch p mem ctx (not (slt 64 (read_reg ctx rs1) (read_reg ctx rs2))) compressed imm
  step (Op.bltu rs1 rs2 imm) compressed =
      branch p mem ctx (ltb (read_reg ctx rs1) (read_reg ctx rs2)) compressed imm
  step (Op.bgeu rs1 rs2 imm) compressed =
      branch p mem ctx (leb (read_reg ctx rs2) (read_reg ctx rs1)) compressed imm
  step (Op.jalr rd rs1 imm) compressed =
      let new_pc = bit_and (vaddr p mem ctx rs1 imm) (not64 1) in
      ok mem (record (write_reg ctx rd ctx.pc) { pc = new_pc })
  step (Op.jal rd imm) compressed = ok mem (record (write_reg ctx rd ctx.pc) {
    pc = wrapping_add 64 (pc_pre ctx compressed) (imm_as_u64 imm);
  })
  step Op.ecall compressed = ecall_arm p mem ctx
  step Op.ebreak compressed = raise ctx 3 0
  step (Op.csrrw rd rs1 csr) compressed = csr_swap p mem ctx rd (read_reg ctx rs1) csr
  step (Op.csrrs rd rs1 csr) compressed =
      csr_change p mem ctx rd (not (rs1 == 0)) (λ x c. bit_or x (read_reg c rs1)) csr
  step (Op.csrrc rd rs1 csr) compressed =
      csr_change p mem ctx rd (not (rs1 == 0)) (λ x c. bit_and x (not64 (read_reg c rs1))) csr
  step (Op.csrrwi rd imm csr) compressed = csr_swap p mem ctx rd imm csr
  step (Op.csrrsi rd imm csr) compressed =
      csr_change p mem ctx rd (not (imm == 0)) (λ x c. bit_or x imm) csr
  step (Op.csrrci rd imm csr) compressed =
      csr_change p mem ctx rd (not (imm == 0)) (λ x c. bit_and x (not64 imm)) csr
  step (Op.mul rd rs1 rs2) compressed = result rd (u64 ((read_reg ctx rs1) * (read_reg ctx rs2)))
  step (Op.mulh rd rs1 rs2) compressed = result rd (mulh (read_reg ctx rs1) (read_reg ctx rs2))
  step (Op.mulhsu rd rs1 rs2) compressed = result rd (mulhsu (read_reg ctx rs1) (read_reg ctx rs2))
  step (Op.mulhu rd rs1 rs2) compressed = result rd (mulhu (read_reg ctx rs1) (read_reg ctx rs2))
  step (Op.div rd rs1 rs2) compressed = result rd (div 64 (read_reg ctx rs1) (read_reg ctx rs2))
  step (Op.divu rd rs1 rs2) compressed = result rd (divu 64 (read_reg ctx rs1) (read_reg ctx rs2))
  step (Op.rem rd rs1 rs2) compressed = result rd (rem 64 (read_reg ctx rs1) (read_reg ctx rs2))
  step (Op.remu rd rs1 rs2) compressed = result rd (remu 64 (read_reg ctx rs1) (read_reg ctx rs2))
  step (Op.mulw rd rs1 rs2) compressed = result_32 rd (u32 ((read_32 ctx rs1) * (read_32 ctx rs2)))
  step (Op.divw rd rs1 rs2) compressed = result_32 rd (div 32 (read_32 ctx rs1) (read_32 ctx rs2))
  step (Op.divuw rd rs1 rs2) compressed = result_32 rd (divu 32 (read_32 ctx rs1) (read_32 ctx rs2))
  step (Op.remw rd rs1 rs2) compressed = result_32 rd (rem 32 (read_32 ctx rs1) (read_32 ctx rs2))
  step (Op.remuw rd rs1 rs2) compressed = result_32 rd (remu 32 (read_32 ctx rs1) (read_32 ctx rs2))
  step (Op.lr_w rd rs1 _) compressed = lr_arm p mem ctx 4 i32_as_u64 rd rs1
  step (Op.lr_d rd rs1 _) compressed = lr_arm p mem ctx 8 (λ v. v) rd rs1
  step (Op.sc_w rd rs1 rs2 _) compressed = sc_arm p mem ctx 4 rd rs1 rs2
  step (Op.sc_d rd rs1 rs2 _) compressed = sc_arm p mem ctx 8 rd rs1 rs2
  step (Op.amoswap_w rd rs1 rs2 _) compressed = amo_arm p mem ctx 4 i32_as_u64 (λ x y. y) rd rs1 rs2
  step (Op.amoswap_d rd rs1 rs2 _) compressed = amo_arm p mem ctx 8 (λ v. v) (λ x y. y) rd rs1 rs2
  step (Op.amoadd_w rd rs1 rs2 _) compressed =
      amo_arm p mem ctx 4 i32_as_u64 (wrapping_add 32) rd rs1 rs2
  step (Op.amoadd_d rd rs1 rs2 _) compressed =
      amo_arm p mem ctx 8 (λ v. v) (wrapping_add 64) rd rs1 rs2
  step (Op.amoand_w rd rs1 rs2 _) compressed = amo_arm p mem ctx 4 i32_as_u64 bit_and rd rs1 rs2
  step (Op.amoand_d rd rs1 rs2 _) compressed = amo_arm p mem ctx 8 (λ v. v) bit_and rd rs1 rs2
  step (Op.amoor_w rd rs1 rs2 _) compressed = amo_arm p mem ctx 4 i32_as_u64 bit_or rd rs1 rs2
  step (Op.amoor_d rd rs1 rs2 _) compressed = amo_arm p mem ctx 8 (λ v. v) bit_or rd rs1 rs2
  step (Op.amoxor_w rd rs1 rs2 _) compressed = amo_arm p mem ctx 4 i32_as_u64 bit_xor rd rs1 rs2
  step (Op.amoxor_d rd rs1 rs2 _) compressed = amo_arm p mem ctx 8 (λ v. v) bit_xor rd rs1 rs2
  step (Op.amomin_w rd rs1 rs2 _) compressed =
      amo_arm p mem ctx 4 i32_as_u64 (signed_min 32) rd rs1 rs2
  step (Op.amomin_d rd rs1 rs2 _) compressed =
      amo_arm p mem ctx 8 (λ v. v) (signed_min 64) rd rs1 rs2
  step (Op.amomax_w rd rs1 rs2 _) compressed =
      amo_arm p mem ctx 4 i32_as_u64 (signed_max 32) rd rs1 rs2
  step (Op.amomax_d rd rs1 rs2 _) compressed =
      amo_arm p mem ctx 8 (λ v. v) (signed_max 64) rd rs1 rs2
  step (Op.amominu_w rd rs1 rs2 _) compressed = amo_arm p mem ctx 4 i32_as_u64 min rd rs1 rs2
  step (Op.amominu_d rd rs1 rs2 _) compressed = amo_arm p mem ctx 8 (λ v. v) min rd rs1 rs2
  step (Op.amomaxu_w rd rs1 rs2 _) compressed = amo_arm p mem ctx 4 i32_as_u64 max rd rs1 rs2
  step (Op.amomaxu_d rd rs1 rs2 _) compressed = amo_arm p mem ctx 8 (λ v. v) max rd rs1 rs2
  step Op.mret compressed = keeping mem (Trap.mret ctx)
  step Op.sret compressed = keeping mem (Trap.sret ctx)
  step Op.wfi compressed = wfi_arm p mem ctx
  step (Op.sfence_vma rs1 rs2) compressed = ok mem (global_sfence ctx (2 ^ ctx.hartid))
  step op compressed = p.float op mem ctx
