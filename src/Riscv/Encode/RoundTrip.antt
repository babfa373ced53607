-- ===== src/Riscv/Encode/RoundTrip.antt =====
-- `decode` against the manuals' tables: it reads back every instruction that they define.
use r2vm.Base.{ℕ, ◌+◌, ◌*◌, ◌≡◌, ◌<◌, refl, arith, some}
use r2vm.Riscv.Op.{Op}
use r2vm.Riscv.Decode.{
  decode, decode_opcode, decode_load, decode_load_fp, decode_op_imm, decode_op_imm_32, decode_store,
  decode_store_fp, decode_op, decode_op_32, decode_branch, decode_fmadd, decode_fmsub,
  decode_fnmsub, decode_fnmadd, decode_op_fp, decode_system,
}
use r2vm.Riscv.Decode.Atomic.{decode_amo_w, decode_amo_d}
use r2vm.Riscv.Encode.{encode, IsEncodable}
use r2vm.Riscv.Encode.Format.{r_type, aqrl_bits}
use r2vm.Riscv.Encode.Words.{funct7-eq}
use r2vm.Riscv.Encode.Shapes.{
  decode-at, i_type-decodes, csr_type-decodes, r_type-decodes, s_type-decodes, b_type-decodes,
  u_type-decodes, j_type-decodes,
}
use r2vm.Riscv.Encode.Arms.{
  shift_bits, readonly-eq, decode_amo-eq, aqrl_bits-lt, r4-fields, decode_fixed,
}

decode-sfence_vma :
    (rs1 rs2 : ℕ)
    → rs1 < 32
    → rs2 < 32
    → decode (r_type 9 rs2 rs1 0 0 0x73) ≡ some (Op.sfence_vma rs1 rs2)
unfolding decode_opcode decode_system
decode-sfence_vma rs1 rs2 h1 h2 =
    let bits : ℕ = r_type 9 rs2 rs1 0 0 0x73 in
    decode-at 0 0x73 (omega arith) refl bits rs2 rs1 0 (omega arith) (omega arith) (omega arith)
      (omega arith) (omega arith) (ground (arith, funct7-eq bits))

-- For every operation whose operands fit their fields, `decode` of the instruction that the manuals'
-- tables give for it returns that operation.
pub decode-encode : (op : Op) → IsEncodable op → decode (encode op) ≡ some op
unfolding encode decode_opcode decode_load decode_load_fp decode_op_imm decode_op_imm_32
    decode_store decode_store_fp decode_op decode_op_32 decode_branch decode_fmadd decode_fmsub
    decode_fnmsub decode_fnmadd decode_op_fp decode_system decode_amo_w decode_amo_d
decode-encode Op.illegal h = decode_fixed.7
decode-encode (Op.lb rd rs1 imm) h =
    i_type-decodes 0 0x3 (omega arith) refl imm rs1 rd h.1 h.0 h.2 (λ b q e. rw e)
decode-encode (Op.lh rd rs1 imm) h =
    i_type-decodes 1 0x3 (omega arith) refl imm rs1 rd h.1 h.0 h.2 (λ b q e. rw e)
decode-encode (Op.lw rd rs1 imm) h =
    i_type-decodes 2 0x3 (omega arith) refl imm rs1 rd h.1 h.0 h.2 (λ b q e. rw e)
decode-encode (Op.ld rd rs1 imm) h =
    i_type-decodes 3 0x3 (omega arith) refl imm rs1 rd h.1 h.0 h.2 (λ b q e. rw e)
decode-encode (Op.lbu rd rs1 imm) h =
    i_type-decodes 4 0x3 (omega arith) refl imm rs1 rd h.1 h.0 h.2 (λ b q e. rw e)
decode-encode (Op.lhu rd rs1 imm) h =
    i_type-decodes 5 0x3 (omega arith) refl imm rs1 rd h.1 h.0 h.2 (λ b q e. rw e)
decode-encode (Op.lwu rd rs1 imm) h =
    i_type-decodes 6 0x3 (omega arith) refl imm rs1 rd h.1 h.0 h.2 (λ b q e. rw e)
decode-encode Op.fence h = decode_fixed.0
decode-encode Op.fence_i h = decode_fixed.1
decode-encode (Op.addi rd rs1 imm) h =
    i_type-decodes 0 0x13 (omega arith) refl imm rs1 rd h.1 h.0 h.2 (λ b q e. rw e)
decode-encode (Op.slli rd rs1 imm) h =
    i_type-decodes 1 0x13 (omega arith) refl imm rs1 rd h.1 h.0 (omega arith)
      (λ b q e. rw e (ground arith))
decode-encode (Op.slti rd rs1 imm) h =
    i_type-decodes 2 0x13 (omega arith) refl imm rs1 rd h.1 h.0 h.2 (λ b q e. rw e)
decode-encode (Op.sltiu rd rs1 imm) h =
    i_type-decodes 3 0x13 (omega arith) refl imm rs1 rd h.1 h.0 h.2 (λ b q e. rw e)
decode-encode (Op.xori rd rs1 imm) h =
    i_type-decodes 4 0x13 (omega arith) refl imm rs1 rd h.1 h.0 h.2 (λ b q e. rw e)
decode-encode (Op.srli rd rs1 imm) h =
    i_type-decodes 5 0x13 (omega arith) refl imm rs1 rd h.1 h.0 (omega arith)
      (λ b q e. rw e (ground (arith, shift_bits imm (omega arith))))
decode-encode (Op.srai rd rs1 imm) h =
    i_type-decodes 5 0x13 (omega arith) refl (imm + 0x400) rs1 rd h.1 h.0 (omega arith)
      (λ b q e. rw e (ground (arith, shift_bits imm (omega arith))))
decode-encode (Op.ori rd rs1 imm) h =
    i_type-decodes 6 0x13 (omega arith) refl imm rs1 rd h.1 h.0 h.2 (λ b q e. rw e)
decode-encode (Op.andi rd rs1 imm) h =
    i_type-decodes 7 0x13 (omega arith) refl imm rs1 rd h.1 h.0 h.2 (λ b q e. rw e)
decode-encode (Op.auipc rd imm) h = u_type-decodes 0x17 refl imm rd h.0 h.1 (λ b p q r e. rw e)
decode-encode (Op.addiw rd rs1 imm) h =
    i_type-decodes 0 0x1b (omega arith) refl imm rs1 rd h.1 h.0 h.2 (λ b q e. rw e)
decode-encode (Op.slliw rd rs1 imm) h =
    i_type-decodes 1 0x1b (omega arith) refl imm rs1 rd h.1 h.0 (omega arith)
      (λ b q e. rw e (ground arith))
decode-encode (Op.srliw rd rs1 imm) h =
    i_type-decodes 5 0x1b (omega arith) refl imm rs1 rd h.1 h.0 (omega arith)
      (λ b q e. rw e (ground (arith, shift_bits imm (omega arith))))
decode-encode (Op.sraiw rd rs1 imm) h =
    i_type-decodes 5 0x1b (omega arith) refl (imm + 0x400) rs1 rd h.1 h.0 (omega arith)
      (λ b q e. rw e (ground (arith, shift_bits imm (omega arith))))
decode-encode (Op.sb rs1 rs2 imm) h =
    s_type-decodes 0 0x23 (omega arith) refl imm rs2 rs1 h.1 h.0 h.2 (λ b q e. rw e)
decode-encode (Op.sh rs1 rs2 imm) h =
    s_type-decodes 1 0x23 (omega arith) refl imm rs2 rs1 h.1 h.0 h.2 (λ b q e. rw e)
decode-encode (Op.sw rs1 rs2 imm) h =
    s_type-decodes 2 0x23 (omega arith) refl imm rs2 rs1 h.1 h.0 h.2 (λ b q e. rw e)
decode-encode (Op.sd rs1 rs2 imm) h =
    s_type-decodes 3 0x23 (omega arith) refl imm rs2 rs1 h.1 h.0 h.2 (λ b q e. rw e)
decode-encode (Op.add rd rs1 rs2) h =
    r_type-decodes 0 0x33 (omega arith) refl 0 rs2 rs1 rd (omega arith) h.2 h.1 h.0 (λ b e. rw e)
decode-encode (Op.sub rd rs1 rs2) h =
    r_type-decodes 0 0x33 (omega arith) refl 32 rs2 rs1 rd (omega arith) h.2 h.1 h.0 (λ b e. rw e)
decode-encode (Op.sll rd rs1 rs2) h =
    r_type-decodes 1 0x33 (omega arith) refl 0 rs2 rs1 rd (omega arith) h.2 h.1 h.0 (λ b e. rw e)
decode-encode (Op.slt rd rs1 rs2) h =
    r_type-decodes 2 0x33 (omega arith) refl 0 rs2 rs1 rd (omega arith) h.2 h.1 h.0 (λ b e. rw e)
decode-encode (Op.sltu rd rs1 rs2) h =
    r_type-decodes 3 0x33 (omega arith) refl 0 rs2 rs1 rd (omega arith) h.2 h.1 h.0 (λ b e. rw e)
decode-encode (Op.xor rd rs1 rs2) h =
    r_type-decodes 4 0x33 (omega arith) refl 0 rs2 rs1 rd (omega arith) h.2 h.1 h.0 (λ b e. rw e)
decode-encode (Op.srl rd rs1 rs2) h =
    r_type-decodes 5 0x33 (omega arith) refl 0 rs2 rs1 rd (omega arith) h.2 h.1 h.0 (λ b e. rw e)
decode-encode (Op.sra rd rs1 rs2) h =
    r_type-decodes 5 0x33 (omega arith) refl 32 rs2 rs1 rd (omega arith) h.2 h.1 h.0 (λ b e. rw e)
decode-encode (Op.or rd rs1 rs2) h =
    r_type-decodes 6 0x33 (omega arith) refl 0 rs2 rs1 rd (omega arith) h.2 h.1 h.0 (λ b e. rw e)
decode-encode (Op.and rd rs1 rs2) h =
    r_type-decodes 7 0x33 (omega arith) refl 0 rs2 rs1 rd (omega arith) h.2 h.1 h.0 (λ b e. rw e)
decode-encode (Op.lui rd imm) h = u_type-decodes 0x37 refl imm rd h.0 h.1 (λ b p q r e. rw e)
decode-encode (Op.addw rd rs1 rs2) h =
    r_type-decodes 0 0x3b (omega arith) refl 0 rs2 rs1 rd (omega arith) h.2 h.1 h.0 (λ b e. rw e)
decode-encode (Op.subw rd rs1 rs2) h =
    r_type-decodes 0 0x3b (omega arith) refl 32 rs2 rs1 rd (omega arith) h.2 h.1 h.0 (λ b e. rw e)
decode-encode (Op.sllw rd rs1 rs2) h =
    r_type-decodes 1 0x3b (omega arith) refl 0 rs2 rs1 rd (omega arith) h.2 h.1 h.0 (λ b e. rw e)
decode-encode (Op.srlw rd rs1 rs2) h =
    r_type-decodes 5 0x3b (omega arith) refl 0 rs2 rs1 rd (omega arith) h.2 h.1 h.0 (λ b e. rw e)
decode-encode (Op.sraw rd rs1 rs2) h =
    r_type-decodes 5 0x3b (omega arith) refl 32 rs2 rs1 rd (omega arith) h.2 h.1 h.0 (λ b e. rw e)
decode-encode (Op.beq rs1 rs2 imm) h =
    b_type-decodes 0 0x63 (omega arith) refl imm rs2 rs1 h.1 h.0 h.2 (λ b q e. rw e)
decode-encode (Op.bne rs1 rs2 imm) h =
    b_type-decodes 1 0x63 (omega arith) refl imm rs2 rs1 h.1 h.0 h.2 (λ b q e. rw e)
decode-encode (Op.blt rs1 rs2 imm) h =
    b_type-decodes 4 0x63 (omega arith) refl imm rs2 rs1 h.1 h.0 h.2 (λ b q e. rw e)
decode-encode (Op.bge rs1 rs2 imm) h =
    b_type-decodes 5 0x63 (omega arith) refl imm rs2 rs1 h.1 h.0 h.2 (λ b q e. rw e)
decode-encode (Op.bltu rs1 rs2 imm) h =
    b_type-decodes 6 0x63 (omega arith) refl imm rs2 rs1 h.1 h.0 h.2 (λ b q e. rw e)
decode-encode (Op.bgeu rs1 rs2 imm) h =
    b_type-decodes 7 0x63 (omega arith) refl imm rs2 rs1 h.1 h.0 h.2 (λ b q e. rw e)
decode-encode (Op.jalr rd rs1 imm) h =
    i_type-decodes 0 0x67 (omega arith) refl imm rs1 rd h.1 h.0 h.2 (λ b q e. rw e)
decode-encode (Op.jal rd imm) h = j_type-decodes 0x6f refl imm rd h.0 h.1 (λ b p q r e. rw e)
decode-encode Op.ecall h = decode_fixed.2
decode-encode Op.ebreak h = decode_fixed.3
decode-encode (Op.csrrw rd rs1 csr) h =
    csr_type-decodes 1 0x73 (omega arith) refl csr rs1 rd h.2.0 h.1 h.0
      (λ b q e. rw (e, readonly-eq csr h.2.0) (ground arith))
decode-encode (Op.csrrs rd rs1 csr) h =
    csr_type-decodes 2 0x73 (omega arith) refl csr rs1 rd h.2.0 h.1 h.0
      (λ b q e. rw (e, readonly-eq csr h.2.0) (ground arith))
decode-encode (Op.csrrc rd rs1 csr) h =
    csr_type-decodes 3 0x73 (omega arith) refl csr rs1 rd h.2.0 h.1 h.0
      (λ b q e. rw (e, readonly-eq csr h.2.0) (ground arith))
decode-encode (Op.csrrwi rd imm csr) h =
    csr_type-decodes 5 0x73 (omega arith) refl csr imm rd h.2.0 h.1 h.0
      (λ b q e. rw (e, readonly-eq csr h.2.0) (ground arith))
decode-encode (Op.csrrsi rd imm csr) h =
    csr_type-decodes 6 0x73 (omega arith) refl csr imm rd h.2.0 h.1 h.0
      (λ b q e. rw (e, readonly-eq csr h.2.0) (ground arith))
decode-encode (Op.csrrci rd imm csr) h =
    csr_type-decodes 7 0x73 (omega arith) refl csr imm rd h.2.0 h.1 h.0
      (λ b q e. rw (e, readonly-eq csr h.2.0) (ground arith))
decode-encode (Op.mul rd rs1 rs2) h =
    r_type-decodes 0 0x33 (omega arith) refl 1 rs2 rs1 rd (omega arith) h.2 h.1 h.0 (λ b e. rw e)
decode-encode (Op.mulh rd rs1 rs2) h =
    r_type-decodes 1 0x33 (omega arith) refl 1 rs2 rs1 rd (omega arith) h.2 h.1 h.0 (λ b e. rw e)
decode-encode (Op.mulhsu rd rs1 rs2) h =
    r_type-decodes 2 0x33 (omega arith) refl 1 rs2 rs1 rd (omega arith) h.2 h.1 h.0 (λ b e. rw e)
decode-encode (Op.mulhu rd rs1 rs2) h =
    r_type-decodes 3 0x33 (omega arith) refl 1 rs2 rs1 rd (omega arith) h.2 h.1 h.0 (λ b e. rw e)
decode-encode (Op.div rd rs1 rs2) h =
    r_type-decodes 4 0x33 (omega arith) refl 1 rs2 rs1 rd (omega arith) h.2 h.1 h.0 (λ b e. rw e)
decode-encode (Op.divu rd rs1 rs2) h =
    r_type-decodes 5 0x33 (omega arith) refl 1 rs2 rs1 rd (omega arith) h.2 h.1 h.0 (λ b e. rw e)
decode-encode (Op.rem rd rs1 rs2) h =
    r_type-decodes 6 0x33 (omega arith) refl 1 rs2 rs1 rd (omega arith) h.2 h.1 h.0 (λ b e. rw e)
decode-encode (Op.remu rd rs1 rs2) h =
    r_type-decodes 7 0x33 (omega arith) refl 1 rs2 rs1 rd (omega arith) h.2 h.1 h.0 (λ b e. rw e)
decode-encode (Op.mulw rd rs1 rs2) h =
    r_type-decodes 0 0x3b (omega arith) refl 1 rs2 rs1 rd (omega arith) h.2 h.1 h.0 (λ b e. rw e)
decode-encode (Op.divw rd rs1 rs2) h =
    r_type-decodes 4 0x3b (omega arith) refl 1 rs2 rs1 rd (omega arith) h.2 h.1 h.0 (λ b e. rw e)
decode-encode (Op.divuw rd rs1 rs2) h =
    r_type-decodes 5 0x3b (omega arith) refl 1 rs2 rs1 rd (omega arith) h.2 h.1 h.0 (λ b e. rw e)
decode-encode (Op.remw rd rs1 rs2) h =
    r_type-decodes 6 0x3b (omega arith) refl 1 rs2 rs1 rd (omega arith) h.2 h.1 h.0 (λ b e. rw e)
decode-encode (Op.remuw rd rs1 rs2) h =
    r_type-decodes 7 0x3b (omega arith) refl 1 rs2 rs1 rd (omega arith) h.2 h.1 h.0 (λ b e. rw e)
decode-encode (Op.lr_w rd rs1 aqrl) h =
    r_type-decodes 2 0x2f (omega arith) refl (2 * 4 + aqrl_bits aqrl) 0 rs1 rd
      (omega (arith, aqrl_bits-lt aqrl)) (omega arith) h.1 h.0
      (λ b e. decode_amo-eq b 2 2 rd rs1 0 aqrl e)
decode-encode (Op.lr_d rd rs1 aqrl) h =
    r_type-decodes 3 0x2f (omega arith) refl (2 * 4 + aqrl_bits aqrl) 0 rs1 rd
      (omega (arith, aqrl_bits-lt aqrl)) (omega arith) h.1 h.0
      (λ b e. decode_amo-eq b 2 3 rd rs1 0 aqrl e)
decode-encode (Op.sc_w rd rs1 rs2 aqrl) h =
    r_type-decodes 2 0x2f (omega arith) refl (3 * 4 + aqrl_bits aqrl) rs2 rs1 rd
      (omega (arith, aqrl_bits-lt aqrl)) h.2 h.1 h.0 (λ b e. decode_amo-eq b 3 2 rd rs1 rs2 aqrl e)
decode-encode (Op.sc_d rd rs1 rs2 aqrl) h =
    r_type-decodes 3 0x2f (omega arith) refl (3 * 4 + aqrl_bits aqrl) rs2 rs1 rd
      (omega (arith, aqrl_bits-lt aqrl)) h.2 h.1 h.0 (λ b e. decode_amo-eq b 3 3 rd rs1 rs2 aqrl e)
decode-encode (Op.amoswap_w rd rs1 rs2 aqrl) h =
    r_type-decodes 2 0x2f (omega arith) refl (1 * 4 + aqrl_bits aqrl) rs2 rs1 rd
      (omega (arith, aqrl_bits-lt aqrl)) h.2 h.1 h.0 (λ b e. decode_amo-eq b 1 2 rd rs1 rs2 aqrl e)
decode-encode (Op.amoswap_d rd rs1 rs2 aqrl) h =
    r_type-decodes 3 0x2f (omega arith) refl (1 * 4 + aqrl_bits aqrl) rs2 rs1 rd
      (omega (arith, aqrl_bits-lt aqrl)) h.2 h.1 h.0 (λ b e. decode_amo-eq b 1 3 rd rs1 rs2 aqrl e)
decode-encode (Op.amoadd_w rd rs1 rs2 aqrl) h =
    r_type-decodes 2 0x2f (omega arith) refl (0 * 4 + aqrl_bits aqrl) rs2 rs1 rd
      (omega (arith, aqrl_bits-lt aqrl)) h.2 h.1 h.0 (λ b e. decode_amo-eq b 0 2 rd rs1 rs2 aqrl e)
decode-encode (Op.amoadd_d rd rs1 rs2 aqrl) h =
    r_type-decodes 3 0x2f (omega arith) refl (0 * 4 + aqrl_bits aqrl) rs2 rs1 rd
      (omega (arith, aqrl_bits-lt aqrl)) h.2 h.1 h.0 (λ b e. decode_amo-eq b 0 3 rd rs1 rs2 aqrl e)
decode-encode (Op.amoxor_w rd rs1 rs2 aqrl) h =
    r_type-decodes 2 0x2f (omega arith) refl (4 * 4 + aqrl_bits aqrl) rs2 rs1 rd
      (omega (arith, aqrl_bits-lt aqrl)) h.2 h.1 h.0 (λ b e. decode_amo-eq b 4 2 rd rs1 rs2 aqrl e)
decode-encode (Op.amoxor_d rd rs1 rs2 aqrl) h =
    r_type-decodes 3 0x2f (omega arith) refl (4 * 4 + aqrl_bits aqrl) rs2 rs1 rd
      (omega (arith, aqrl_bits-lt aqrl)) h.2 h.1 h.0 (λ b e. decode_amo-eq b 4 3 rd rs1 rs2 aqrl e)
decode-encode (Op.amoand_w rd rs1 rs2 aqrl) h =
    r_type-decodes 2 0x2f (omega arith) refl (12 * 4 + aqrl_bits aqrl) rs2 rs1 rd
      (omega (arith, aqrl_bits-lt aqrl)) h.2 h.1 h.0 (λ b e. decode_amo-eq b 12 2 rd rs1 rs2 aqrl e)
decode-encode (Op.amoand_d rd rs1 rs2 aqrl) h =
    r_type-decodes 3 0x2f (omega arith) refl (12 * 4 + aqrl_bits aqrl) rs2 rs1 rd
      (omega (arith, aqrl_bits-lt aqrl)) h.2 h.1 h.0 (λ b e. decode_amo-eq b 12 3 rd rs1 rs2 aqrl e)
decode-encode (Op.amoor_w rd rs1 rs2 aqrl) h =
    r_type-decodes 2 0x2f (omega arith) refl (8 * 4 + aqrl_bits aqrl) rs2 rs1 rd
      (omega (arith, aqrl_bits-lt aqrl)) h.2 h.1 h.0 (λ b e. decode_amo-eq b 8 2 rd rs1 rs2 aqrl e)
decode-encode (Op.amoor_d rd rs1 rs2 aqrl) h =
    r_type-decodes 3 0x2f (omega arith) refl (8 * 4 + aqrl_bits aqrl) rs2 rs1 rd
      (omega (arith, aqrl_bits-lt aqrl)) h.2 h.1 h.0 (λ b e. decode_amo-eq b 8 3 rd rs1 rs2 aqrl e)
decode-encode (Op.amomin_w rd rs1 rs2 aqrl) h =
    r_type-decodes 2 0x2f (omega arith) refl (16 * 4 + aqrl_bits aqrl) rs2 rs1 rd
      (omega (arith, aqrl_bits-lt aqrl)) h.2 h.1 h.0 (λ b e. decode_amo-eq b 16 2 rd rs1 rs2 aqrl e)
decode-encode (Op.amomin_d rd rs1 rs2 aqrl) h =
    r_type-decodes 3 0x2f (omega arith) refl (16 * 4 + aqrl_bits aqrl) rs2 rs1 rd
      (omega (arith, aqrl_bits-lt aqrl)) h.2 h.1 h.0 (λ b e. decode_amo-eq b 16 3 rd rs1 rs2 aqrl e)
decode-encode (Op.amomax_w rd rs1 rs2 aqrl) h =
    r_type-decodes 2 0x2f (omega arith) refl (20 * 4 + aqrl_bits aqrl) rs2 rs1 rd
      (omega (arith, aqrl_bits-lt aqrl)) h.2 h.1 h.0 (λ b e. decode_amo-eq b 20 2 rd rs1 rs2 aqrl e)
decode-encode (Op.amomax_d rd rs1 rs2 aqrl) h =
    r_type-decodes 3 0x2f (omega arith) refl (20 * 4 + aqrl_bits aqrl) rs2 rs1 rd
      (omega (arith, aqrl_bits-lt aqrl)) h.2 h.1 h.0 (λ b e. decode_amo-eq b 20 3 rd rs1 rs2 aqrl e)
decode-encode (Op.amominu_w rd rs1 rs2 aqrl) h =
    r_type-decodes 2 0x2f (omega arith) refl (24 * 4 + aqrl_bits aqrl) rs2 rs1 rd
      (omega (arith, aqrl_bits-lt aqrl)) h.2 h.1 h.0 (λ b e. decode_amo-eq b 24 2 rd rs1 rs2 aqrl e)
decode-encode (Op.amominu_d rd rs1 rs2 aqrl) h =
    r_type-decodes 3 0x2f (omega arith) refl (24 * 4 + aqrl_bits aqrl) rs2 rs1 rd
      (omega (arith, aqrl_bits-lt aqrl)) h.2 h.1 h.0 (λ b e. decode_amo-eq b 24 3 rd rs1 rs2 aqrl e)
decode-encode (Op.amomaxu_w rd rs1 rs2 aqrl) h =
    r_type-decodes 2 0x2f (omega arith) refl (28 * 4 + aqrl_bits aqrl) rs2 rs1 rd
      (omega (arith, aqrl_bits-lt aqrl)) h.2 h.1 h.0 (λ b e. decode_amo-eq b 28 2 rd rs1 rs2 aqrl e)
decode-encode (Op.amomaxu_d rd rs1 rs2 aqrl) h =
    r_type-decodes 3 0x2f (omega arith) refl (28 * 4 + aqrl_bits aqrl) rs2 rs1 rd
      (omega (arith, aqrl_bits-lt aqrl)) h.2 h.1 h.0 (λ b e. decode_amo-eq b 28 3 rd rs1 rs2 aqrl e)
decode-encode (Op.flw frd rs1 imm) h =
    i_type-decodes 2 0x7 (omega arith) refl imm rs1 frd h.1 h.0 h.2 (λ b q e. rw e)
decode-encode (Op.fsw rs1 frs2 imm) h =
    s_type-decodes 2 0x27 (omega arith) refl imm frs2 rs1 h.1 h.0 h.2 (λ b q e. rw e)
decode-encode (Op.fadd_s frd frs1 frs2 rm) h =
    r_type-decodes rm 0x53 (omega arith) refl 0 frs2 frs1 frd (omega arith) h.2 h.1 h.0
      (λ b e. rw e (ground arith))
decode-encode (Op.fsub_s frd frs1 frs2 rm) h =
    r_type-decodes rm 0x53 (omega arith) refl 4 frs2 frs1 frd (omega arith) h.2 h.1 h.0
      (λ b e. rw e (ground arith))
decode-encode (Op.fmul_s frd frs1 frs2 rm) h =
    r_type-decodes rm 0x53 (omega arith) refl 8 frs2 frs1 frd (omega arith) h.2 h.1 h.0
      (λ b e. rw e (ground arith))
decode-encode (Op.fdiv_s frd frs1 frs2 rm) h =
    r_type-decodes rm 0x53 (omega arith) refl 12 frs2 frs1 frd (omega arith) h.2 h.1 h.0
      (λ b e. rw e (ground arith))
decode-encode (Op.fsqrt_s frd frs1 rm) h =
    r_type-decodes rm 0x53 (omega arith) refl 44 0 frs1 frd (omega arith) (omega arith) h.1 h.0
      (λ b e. rw e (ground arith))
decode-encode (Op.fsgnj_s frd frs1 frs2) h =
    r_type-decodes 0 0x53 (omega arith) refl 16 frs2 frs1 frd (omega arith) h.2 h.1 h.0
      (λ b e. rw e)
decode-encode (Op.fsgnjn_s frd frs1 frs2) h =
    r_type-decodes 1 0x53 (omega arith) refl 16 frs2 frs1 frd (omega arith) h.2 h.1 h.0
      (λ b e. rw e)
decode-encode (Op.fsgnjx_s frd frs1 frs2) h =
    r_type-decodes 2 0x53 (omega arith) refl 16 frs2 frs1 frd (omega arith) h.2 h.1 h.0
      (λ b e. rw e)
decode-encode (Op.fmin_s frd frs1 frs2) h =
    r_type-decodes 0 0x53 (omega arith) refl 20 frs2 frs1 frd (omega arith) h.2 h.1 h.0
      (λ b e. rw e)
decode-encode (Op.fmax_s frd frs1 frs2) h =
    r_type-decodes 1 0x53 (omega arith) refl 20 frs2 frs1 frd (omega arith) h.2 h.1 h.0
      (λ b e. rw e)
decode-encode (Op.fcvt_w_s rd frs1 rm) h =
    r_type-decodes rm 0x53 (omega arith) refl 96 0 frs1 rd (omega arith) (omega arith) h.1 h.0
      (λ b e. rw e (ground arith))
decode-encode (Op.fcvt_wu_s rd frs1 rm) h =
    r_type-decodes rm 0x53 (omega arith) refl 96 1 frs1 rd (omega arith) (omega arith) h.1 h.0
      (λ b e. rw e (ground arith))
decode-encode (Op.fcvt_l_s rd frs1 rm) h =
    r_type-decodes rm 0x53 (omega arith) refl 96 2 frs1 rd (omega arith) (omega arith) h.1 h.0
      (λ b e. rw e (ground arith))
decode-encode (Op.fcvt_lu_s rd frs1 rm) h =
    r_type-decodes rm 0x53 (omega arith) refl 96 3 frs1 rd (omega arith) (omega arith) h.1 h.0
      (λ b e. rw e (ground arith))
decode-encode (Op.fmv_x_w rd frs1) h =
    r_type-decodes 0 0x53 (omega arith) refl 112 0 frs1 rd (omega arith) (omega arith) h.1 h.0
      (λ b e. rw e)
decode-encode (Op.fclass_s rd frs1) h =
    r_type-decodes 1 0x53 (omega arith) refl 112 0 frs1 rd (omega arith) (omega arith) h.1 h.0
      (λ b e. rw e)
decode-encode (Op.feq_s rd frs1 frs2) h =
    r_type-decodes 2 0x53 (omega arith) refl 80 frs2 frs1 rd (omega arith) h.2 h.1 h.0 (λ b e. rw e)
decode-encode (Op.flt_s rd frs1 frs2) h =
    r_type-decodes 1 0x53 (omega arith) refl 80 frs2 frs1 rd (omega arith) h.2 h.1 h.0 (λ b e. rw e)
decode-encode (Op.fle_s rd frs1 frs2) h =
    r_type-decodes 0 0x53 (omega arith) refl 80 frs2 frs1 rd (omega arith) h.2 h.1 h.0 (λ b e. rw e)
decode-encode (Op.fcvt_s_w frd rs1 rm) h =
    r_type-decodes rm 0x53 (omega arith) refl 104 0 rs1 frd (omega arith) (omega arith) h.1 h.0
      (λ b e. rw e (ground arith))
decode-encode (Op.fcvt_s_wu frd rs1 rm) h =
    r_type-decodes rm 0x53 (omega arith) refl 104 1 rs1 frd (omega arith) (omega arith) h.1 h.0
      (λ b e. rw e (ground arith))
decode-encode (Op.fcvt_s_l frd rs1 rm) h =
    r_type-decodes rm 0x53 (omega arith) refl 104 2 rs1 frd (omega arith) (omega arith) h.1 h.0
      (λ b e. rw e (ground arith))
decode-encode (Op.fcvt_s_lu frd rs1 rm) h =
    r_type-decodes rm 0x53 (omega arith) refl 104 3 rs1 frd (omega arith) (omega arith) h.1 h.0
      (λ b e. rw e (ground arith))
decode-encode (Op.fmv_w_x frd rs1) h =
    r_type-decodes 0 0x53 (omega arith) refl 120 0 rs1 frd (omega arith) (omega arith) h.1 h.0
      (λ b e. rw e)
decode-encode (Op.fmadd_s frd frs1 frs2 frs3 rm) h =
    r_type-decodes rm 0x43 (omega arith) refl (frs3 * 4 + 0) frs2 frs1 frd (omega arith) h.2 h.1 h.0
      (λ b e. let (fe, re) = r4-fields b frs3 0 e h.3 (omega arith) in rw (fe, re) (ground arith))
decode-encode (Op.fmsub_s frd frs1 frs2 frs3 rm) h =
    r_type-decodes rm 0x47 (omega arith) refl (frs3 * 4 + 0) frs2 frs1 frd (omega arith) h.2 h.1 h.0
      (λ b e. let (fe, re) = r4-fields b frs3 0 e h.3 (omega arith) in rw (fe, re) (ground arith))
decode-encode (Op.fnmsub_s frd frs1 frs2 frs3 rm) h =
    r_type-decodes rm 0x4b (omega arith) refl (frs3 * 4 + 0) frs2 frs1 frd (omega arith) h.2 h.1 h.0
      (λ b e. let (fe, re) = r4-fields b frs3 0 e h.3 (omega arith) in rw (fe, re) (ground arith))
decode-encode (Op.fnmadd_s frd frs1 frs2 frs3 rm) h =
    r_type-decodes rm 0x4f (omega arith) refl (frs3 * 4 + 0) frs2 frs1 frd (omega arith) h.2 h.1 h.0
      (λ b e. let (fe, re) = r4-fields b frs3 0 e h.3 (omega arith) in rw (fe, re) (ground arith))
decode-encode (Op.fld frd rs1 imm) h =
    i_type-decodes 3 0x7 (omega arith) refl imm rs1 frd h.1 h.0 h.2 (λ b q e. rw e)
decode-encode (Op.fsd rs1 frs2 imm) h =
    s_type-decodes 3 0x27 (omega arith) refl imm frs2 rs1 h.1 h.0 h.2 (λ b q e. rw e)
decode-encode (Op.fadd_d frd frs1 frs2 rm) h =
    r_type-decodes rm 0x53 (omega arith) refl 1 frs2 frs1 frd (omega arith) h.2 h.1 h.0
      (λ b e. rw e (ground arith))
decode-encode (Op.fsub_d frd frs1 frs2 rm) h =
    r_type-decodes rm 0x53 (omega arith) refl 5 frs2 frs1 frd (omega arith) h.2 h.1 h.0
      (λ b e. rw e (ground arith))
decode-encode (Op.fmul_d frd frs1 frs2 rm) h =
    r_type-decodes rm 0x53 (omega arith) refl 9 frs2 frs1 frd (omega arith) h.2 h.1 h.0
      (λ b e. rw e (ground arith))
decode-encode (Op.fdiv_d frd frs1 frs2 rm) h =
    r_type-decodes rm 0x53 (omega arith) refl 13 frs2 frs1 frd (omega arith) h.2 h.1 h.0
      (λ b e. rw e (ground arith))
decode-encode (Op.fsqrt_d frd frs1 rm) h =
    r_type-decodes rm 0x53 (omega arith) refl 45 0 frs1 frd (omega arith) (omega arith) h.1 h.0
      (λ b e. rw e (ground arith))
decode-encode (Op.fsgnj_d frd frs1 frs2) h =
    r_type-decodes 0 0x53 (omega arith) refl 17 frs2 frs1 frd (omega arith) h.2 h.1 h.0
      (λ b e. rw e)
decode-encode (Op.fsgnjn_d frd frs1 frs2) h =
    r_type-decodes 1 0x53 (omega arith) refl 17 frs2 frs1 frd (omega arith) h.2 h.1 h.0
      (λ b e. rw e)
decode-encode (Op.fsgnjx_d frd frs1 frs2) h =
    r_type-decodes 2 0x53 (omega arith) refl 17 frs2 frs1 frd (omega arith) h.2 h.1 h.0
      (λ b e. rw e)
decode-encode (Op.fmin_d frd frs1 frs2) h =
    r_type-decodes 0 0x53 (omega arith) refl 21 frs2 frs1 frd (omega arith) h.2 h.1 h.0
      (λ b e. rw e)
decode-encode (Op.fmax_d frd frs1 frs2) h =
    r_type-decodes 1 0x53 (omega arith) refl 21 frs2 frs1 frd (omega arith) h.2 h.1 h.0
      (λ b e. rw e)
decode-encode (Op.fcvt_s_d frd frs1 rm) h =
    r_type-decodes rm 0x53 (omega arith) refl 32 1 frs1 frd (omega arith) (omega arith) h.1 h.0
      (λ b e. rw e (ground arith))
decode-encode (Op.fcvt_d_s frd frs1 rm) h =
    r_type-decodes rm 0x53 (omega arith) refl 33 0 frs1 frd (omega arith) (omega arith) h.1 h.0
      (λ b e. rw e (ground arith))
decode-encode (Op.fcvt_w_d rd frs1 rm) h =
    r_type-decodes rm 0x53 (omega arith) refl 97 0 frs1 rd (omega arith) (omega arith) h.1 h.0
      (λ b e. rw e (ground arith))
decode-encode (Op.fcvt_wu_d rd frs1 rm) h =
    r_type-decodes rm 0x53 (omega arith) refl 97 1 frs1 rd (omega arith) (omega arith) h.1 h.0
      (λ b e. rw e (ground arith))
decode-encode (Op.fcvt_l_d rd frs1 rm) h =
    r_type-decodes rm 0x53 (omega arith) refl 97 2 frs1 rd (omega arith) (omega arith) h.1 h.0
      (λ b e. rw e (ground arith))
decode-encode (Op.fcvt_lu_d rd frs1 rm) h =
    r_type-decodes rm 0x53 (omega arith) refl 97 3 frs1 rd (omega arith) (omega arith) h.1 h.0
      (λ b e. rw e (ground arith))
decode-encode (Op.fmv_x_d rd frs1) h =
    r_type-decodes 0 0x53 (omega arith) refl 113 0 frs1 rd (omega arith) (omega arith) h.1 h.0
      (λ b e. rw e)
decode-encode (Op.fclass_d rd frs1) h =
    r_type-decodes 1 0x53 (omega arith) refl 113 0 frs1 rd (omega arith) (omega arith) h.1 h.0
      (λ b e. rw e)
decode-encode (Op.feq_d rd frs1 frs2) h =
    r_type-decodes 2 0x53 (omega arith) refl 81 frs2 frs1 rd (omega arith) h.2 h.1 h.0 (λ b e. rw e)
decode-encode (Op.flt_d rd frs1 frs2) h =
    r_type-decodes 1 0x53 (omega arith) refl 81 frs2 frs1 rd (omega arith) h.2 h.1 h.0 (λ b e. rw e)
decode-encode (Op.fle_d rd frs1 frs2) h =
    r_type-decodes 0 0x53 (omega arith) refl 81 frs2 frs1 rd (omega arith) h.2 h.1 h.0 (λ b e. rw e)
decode-encode (Op.fcvt_d_w frd rs1 rm) h =
    r_type-decodes rm 0x53 (omega arith) refl 105 0 rs1 frd (omega arith) (omega arith) h.1 h.0
      (λ b e. rw e (ground arith))
decode-encode (Op.fcvt_d_wu frd rs1 rm) h =
    r_type-decodes rm 0x53 (omega arith) refl 105 1 rs1 frd (omega arith) (omega arith) h.1 h.0
      (λ b e. rw e (ground arith))
decode-encode (Op.fcvt_d_l frd rs1 rm) h =
    r_type-decodes rm 0x53 (omega arith) refl 105 2 rs1 frd (omega arith) (omega arith) h.1 h.0
      (λ b e. rw e (ground arith))
decode-encode (Op.fcvt_d_lu frd rs1 rm) h =
    r_type-decodes rm 0x53 (omega arith) refl 105 3 rs1 frd (omega arith) (omega arith) h.1 h.0
      (λ b e. rw e (ground arith))
decode-encode (Op.fmv_d_x frd rs1) h =
    r_type-decodes 0 0x53 (omega arith) refl 121 0 rs1 frd (omega arith) (omega arith) h.1 h.0
      (λ b e. rw e)
decode-encode (Op.fmadd_d frd frs1 frs2 frs3 rm) h =
    r_type-decodes rm 0x43 (omega arith) refl (frs3 * 4 + 1) frs2 frs1 frd (omega arith) h.2 h.1 h.0
      (λ b e. let (fe, re) = r4-fields b frs3 1 e h.3 (omega arith) in rw (fe, re) (ground arith))
decode-encode (Op.fmsub_d frd frs1 frs2 frs3 rm) h =
    r_type-decodes rm 0x47 (omega arith) refl (frs3 * 4 + 1) frs2 frs1 frd (omega arith) h.2 h.1 h.0
      (λ b e. let (fe, re) = r4-fields b frs3 1 e h.3 (omega arith) in rw (fe, re) (ground arith))
decode-encode (Op.fnmsub_d frd frs1 frs2 frs3 rm) h =
    r_type-decodes rm 0x4b (omega arith) refl (frs3 * 4 + 1) frs2 frs1 frd (omega arith) h.2 h.1 h.0
      (λ b e. let (fe, re) = r4-fields b frs3 1 e h.3 (omega arith) in rw (fe, re) (ground arith))
decode-encode (Op.fnmadd_d frd frs1 frs2 frs3 rm) h =
    r_type-decodes rm 0x4f (omega arith) refl (frs3 * 4 + 1) frs2 frs1 frd (omega arith) h.2 h.1 h.0
      (λ b e. let (fe, re) = r4-fields b frs3 1 e h.3 (omega arith) in rw (fe, re) (ground arith))
decode-encode Op.mret h = decode_fixed.4
decode-encode Op.sret h = decode_fixed.5
decode-encode Op.wfi h = decode_fixed.6
decode-encode (Op.sfence_vma rs1 rs2) h = decode-sfence_vma rs1 rs2 h.0 h.1
