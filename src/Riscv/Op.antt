-- ===== src/Riscv/Op.antt =====
-- `lib/riscv/src/op.rs`: the decoded operations. Register numbers (`u8`) are numbers, an `imm: i32`
-- is held as its 32-bit pattern, and `Csr(u16)` is its number.
pub mod Info
mod Tests
use r2vm.Base.{ℕ}
use r2vm.Riscv.Csr.{Csr}

-- Ordering semantics for atomics.
pub data Ordering : Type 0 where
  relaxed release acquire seq_cst : Ordering

pub data Op : Type 0 where
  illegal : Op
  lb : (rd rs1 imm : ℕ) → Op
  lh : (rd rs1 imm : ℕ) → Op
  lw : (rd rs1 imm : ℕ) → Op
  ld : (rd rs1 imm : ℕ) → Op
  lbu : (rd rs1 imm : ℕ) → Op
  lhu : (rd rs1 imm : ℕ) → Op
  lwu : (rd rs1 imm : ℕ) → Op
  fence : Op
  fence_i : Op
  addi : (rd rs1 imm : ℕ) → Op
  slli : (rd rs1 imm : ℕ) → Op
  slti : (rd rs1 imm : ℕ) → Op
  sltiu : (rd rs1 imm : ℕ) → Op
  xori : (rd rs1 imm : ℕ) → Op
  srli : (rd rs1 imm : ℕ) → Op
  srai : (rd rs1 imm : ℕ) → Op
  ori : (rd rs1 imm : ℕ) → Op
  andi : (rd rs1 imm : ℕ) → Op
  auipc : (rd imm : ℕ) → Op
  addiw : (rd rs1 imm : ℕ) → Op
  slliw : (rd rs1 imm : ℕ) → Op
  srliw : (rd rs1 imm : ℕ) → Op
  sraiw : (rd rs1 imm : ℕ) → Op
  sb : (rs1 rs2 imm : ℕ) → Op
  sh : (rs1 rs2 imm : ℕ) → Op
  sw : (rs1 rs2 imm : ℕ) → Op
  sd : (rs1 rs2 imm : ℕ) → Op
  add : (rd rs1 rs2 : ℕ) → Op
  sub : (rd rs1 rs2 : ℕ) → Op
  sll : (rd rs1 rs2 : ℕ) → Op
  slt : (rd rs1 rs2 : ℕ) → Op
  sltu : (rd rs1 rs2 : ℕ) → Op
  xor : (rd rs1 rs2 : ℕ) → Op
  srl : (rd rs1 rs2 : ℕ) → Op
  sra : (rd rs1 rs2 : ℕ) → Op
  or : (rd rs1 rs2 : ℕ) → Op
  and : (rd rs1 rs2 : ℕ) → Op
  lui : (rd imm : ℕ) → Op
  addw : (rd rs1 rs2 : ℕ) → Op
  subw : (rd rs1 rs2 : ℕ) → Op
  sllw : (rd rs1 rs2 : ℕ) → Op
  srlw : (rd rs1 rs2 : ℕ) → Op
  sraw : (rd rs1 rs2 : ℕ) → Op
  beq : (rs1 rs2 imm : ℕ) → Op
  bne : (rs1 rs2 imm : ℕ) → Op
  blt : (rs1 rs2 imm : ℕ) → Op
  bge : (rs1 rs2 imm : ℕ) → Op
  bltu : (rs1 rs2 imm : ℕ) → Op
  bgeu : (rs1 rs2 imm : ℕ) → Op
  jalr : (rd rs1 imm : ℕ) → Op
  jal : (rd imm : ℕ) → Op
  ecall : Op
  ebreak : Op
  csrrw : (rd rs1 : ℕ) (csr : Csr) → Op
  csrrs : (rd rs1 : ℕ) (csr : Csr) → Op
  csrrc : (rd rs1 : ℕ) (csr : Csr) → Op
  csrrwi : (rd imm : ℕ) (csr : Csr) → Op
  csrrsi : (rd imm : ℕ) (csr : Csr) → Op
  csrrci : (rd imm : ℕ) (csr : Csr) → Op
  mul : (rd rs1 rs2 : ℕ) → Op
  mulh : (rd rs1 rs2 : ℕ) → Op
  mulhsu : (rd rs1 rs2 : ℕ) → Op
  mulhu : (rd rs1 rs2 : ℕ) → Op
  div : (rd rs1 rs2 : ℕ) → Op
  divu : (rd rs1 rs2 : ℕ) → Op
  rem : (rd rs1 rs2 : ℕ) → Op
  remu : (rd rs1 rs2 : ℕ) → Op
  mulw : (rd rs1 rs2 : ℕ) → Op
  divw : (rd rs1 rs2 : ℕ) → Op
  divuw : (rd rs1 rs2 : ℕ) → Op
  remw : (rd rs1 rs2 : ℕ) → Op
  remuw : (rd rs1 rs2 : ℕ) → Op
  lr_w : (rd rs1 : ℕ) (aqrl : Ordering) → Op
  lr_d : (rd rs1 : ℕ) (aqrl : Ordering) → Op
  sc_w : (rd rs1 rs2 : ℕ) (aqrl : Ordering) → Op
  sc_d : (rd rs1 rs2 : ℕ) (aqrl : Ordering) → Op
  amoswap_w : (rd rs1 rs2 : ℕ) (aqrl : Ordering) → Op
  amoswap_d : (rd rs1 rs2 : ℕ) (aqrl : Ordering) → Op
  amoadd_w : (rd rs1 rs2 : ℕ) (aqrl : Ordering) → Op
  amoadd_d : (rd rs1 rs2 : ℕ) (aqrl : Ordering) → Op
  amoxor_w : (rd rs1 rs2 : ℕ) (aqrl : Ordering) → Op
  amoxor_d : (rd rs1 rs2 : ℕ) (aqrl : Ordering) → Op
  amoand_w : (rd rs1 rs2 : ℕ) (aqrl : Ordering) → Op
  amoand_d : (rd rs1 rs2 : ℕ) (aqrl : Ordering) → Op
  amoor_w : (rd rs1 rs2 : ℕ) (aqrl : Ordering) → Op
  amoor_d : (rd rs1 rs2 : ℕ) (aqrl : Ordering) → Op
  amomin_w : (rd rs1 rs2 : ℕ) (aqrl : Ordering) → Op
  amomin_d : (rd rs1 rs2 : ℕ) (aqrl : Ordering) → Op
  amomax_w : (rd rs1 rs2 : ℕ) (aqrl : Ordering) → Op
  amomax_d : (rd rs1 rs2 : ℕ) (aqrl : Ordering) → Op
  amominu_w : (rd rs1 rs2 : ℕ) (aqrl : Ordering) → Op
  amominu_d : (rd rs1 rs2 : ℕ) (aqrl : Ordering) → Op
  amomaxu_w : (rd rs1 rs2 : ℕ) (aqrl : Ordering) → Op
  amomaxu_d : (rd rs1 rs2 : ℕ) (aqrl : Ordering) → Op
  flw : (frd rs1 imm : ℕ) → Op
  fsw : (rs1 frs2 imm : ℕ) → Op
  fadd_s : (frd frs1 frs2 rm : ℕ) → Op
  fsub_s : (frd frs1 frs2 rm : ℕ) → Op
  fmul_s : (frd frs1 frs2 rm : ℕ) → Op
  fdiv_s : (frd frs1 frs2 rm : ℕ) → Op
  fsqrt_s : (frd frs1 rm : ℕ) → Op
  fsgnj_s : (frd frs1 frs2 : ℕ) → Op
  fsgnjn_s : (frd frs1 frs2 : ℕ) → Op
  fsgnjx_s : (frd frs1 frs2 : ℕ) → Op
  fmin_s : (frd frs1 frs2 : ℕ) → Op
  fmax_s : (frd frs1 frs2 : ℕ) → Op
  fcvt_w_s : (rd frs1 rm : ℕ) → Op
  fcvt_wu_s : (rd frs1 rm : ℕ) → Op
  fcvt_l_s : (rd frs1 rm : ℕ) → Op
  fcvt_lu_s : (rd frs1 rm : ℕ) → Op
  fmv_x_w : (rd frs1 : ℕ) → Op
  fclass_s : (rd frs1 : ℕ) → Op
  feq_s : (rd frs1 frs2 : ℕ) → Op
  flt_s : (rd frs1 frs2 : ℕ) → Op
  fle_s : (rd frs1 frs2 : ℕ) → Op
  fcvt_s_w : (frd rs1 rm : ℕ) → Op
  fcvt_s_wu : (frd rs1 rm : ℕ) → Op
  fcvt_s_l : (frd rs1 rm : ℕ) → Op
  fcvt_s_lu : (frd rs1 rm : ℕ) → Op
  fmv_w_x : (frd rs1 : ℕ) → Op
  fmadd_s : (frd frs1 frs2 frs3 rm : ℕ) → Op
  fmsub_s : (frd frs1 frs2 frs3 rm : ℕ) → Op
  fnmsub_s : (frd frs1 frs2 frs3 rm : ℕ) → Op
  fnmadd_s : (frd frs1 frs2 frs3 rm : ℕ) → Op
  fld : (frd rs1 imm : ℕ) → Op
  fsd : (rs1 frs2 imm : ℕ) → Op
  fadd_d : (frd frs1 frs2 rm : ℕ) → Op
  fsub_d : (frd frs1 frs2 rm : ℕ) → Op
  fmul_d : (frd frs1 frs2 rm : ℕ) → Op
  fdiv_d : (frd frs1 frs2 rm : ℕ) → Op
  fsqrt_d : (frd frs1 rm : ℕ) → Op
  fsgnj_d : (frd frs1 frs2 : ℕ) → Op
  fsgnjn_d : (frd frs1 frs2 : ℕ) → Op
  fsgnjx_d : (frd frs1 frs2 : ℕ) → Op
  fmin_d : (frd frs1 frs2 : ℕ) → Op
  fmax_d : (frd frs1 frs2 : ℕ) → Op
  fcvt_s_d : (frd frs1 rm : ℕ) → Op
  fcvt_d_s : (frd frs1 rm : ℕ) → Op
  fcvt_w_d : (rd frs1 rm : ℕ) → Op
  fcvt_wu_d : (rd frs1 rm : ℕ) → Op
  fcvt_l_d : (rd frs1 rm : ℕ) → Op
  fcvt_lu_d : (rd frs1 rm : ℕ) → Op
  fmv_x_d : (rd frs1 : ℕ) → Op
  fclass_d : (rd frs1 : ℕ) → Op
  feq_d : (rd frs1 frs2 : ℕ) → Op
  flt_d : (rd frs1 frs2 : ℕ) → Op
  fle_d : (rd frs1 frs2 : ℕ) → Op
  fcvt_d_w : (frd rs1 rm : ℕ) → Op
  fcvt_d_wu : (frd rs1 rm : ℕ) → Op
  fcvt_d_l : (frd rs1 rm : ℕ) → Op
  fcvt_d_lu : (frd rs1 rm : ℕ) → Op
  fmv_d_x : (frd rs1 : ℕ) → Op
  fmadd_d : (frd frs1 frs2 frs3 rm : ℕ) → Op
  fmsub_d : (frd frs1 frs2 frs3 rm : ℕ) → Op
  fnmsub_d : (frd frs1 frs2 frs3 rm : ℕ) → Op
  fnmadd_d : (frd frs1 frs2 frs3 rm : ℕ) → Op
  mret : Op
  sret : Op
  wfi : Op
  sfence_vma : (rs1 rs2 : ℕ) → Op
