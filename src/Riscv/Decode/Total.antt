-- ===== src/Riscv/Decode/Total.antt =====
-- `decode` accepts every instruction: its `unreachable!` arms cannot be reached.
use r2vm.Base.{
  ℕ, if◌then◌else◌, ◌==◌, ◌/◌, ◌%◌, ◌^◌, ◌<◌, ◌≡◌, arith, true, false, Option, none, some, bit_and,
  bit_and-mask, is_some, witness_of,
}
use r2vm.Riscv.Op
use r2vm.Riscv.Op.{Op}
use r2vm.Riscv.Decode.{decode, decode_opcode}
use r2vm.Riscv.Decode.Fields
use r2vm.Riscv.Decode.Integer.{
  decode_load, decode_load_fp, decode_op_imm, decode_misc_mem, decode_op_imm_32, decode_store,
  decode_store_fp, decode_op, decode_op_32, decode_branch,
}
use r2vm.Riscv.Decode.Atomic.{decode_aqrl, decode_amo_w, decode_amo_d, decode_amo}
use r2vm.Riscv.Decode.Float.{
  decode_fmadd, decode_fmsub, decode_fnmsub, decode_fnmadd, decode_op_fp_convert, decode_op_fp,
}
use r2vm.Riscv.Decode.System.{decode_privileged, decode_csr, decode_system}

decode_load-total :
    (bits function rd rs1 : ℕ) → function < 8 → is_some (decode_load bits function rd rs1) ≡ true
unfolding decode_load
decode_load-total bits function rd rs1 h = ground (arith, h)

decode_load_fp-total :
    (bits function rd rs1 : ℕ) → function < 8 → is_some (decode_load_fp bits function rd rs1) ≡ true
unfolding decode_load_fp
decode_load_fp-total bits function rd rs1 h = ground (arith, h)

decode_op_imm-total :
    (bits function rd rs1 : ℕ) → function < 8 → is_some (decode_op_imm bits function rd rs1) ≡ true
unfolding decode_op_imm
decode_op_imm-total bits function rd rs1 h = ground (arith, h)

decode_misc_mem-total : (function : ℕ) → function < 8 → is_some (decode_misc_mem function) ≡ true
unfolding decode_misc_mem
decode_misc_mem-total function h = ground (arith, h)

decode_op_imm_32-total :
    (bits function rd rs1 : ℕ)
    → function < 8
    → is_some (decode_op_imm_32 bits function rd rs1) ≡ true
unfolding decode_op_imm_32
decode_op_imm_32-total bits function rd rs1 h = ground (arith, h)

decode_store-total :
    (bits function rs1 rs2 : ℕ) → function < 8 → is_some (decode_store bits function rs1 rs2) ≡ true
unfolding decode_store
decode_store-total bits function rs1 rs2 h = ground (arith, h)

decode_store_fp-total :
    (bits function rs1 rs2 : ℕ)
    → function < 8
    → is_some (decode_store_fp bits function rs1 rs2) ≡ true
unfolding decode_store_fp
decode_store_fp-total bits function rs1 rs2 h = ground (arith, h)

decode_op-total :
    (bits function rd rs1 rs2 : ℕ)
    → function < 8
    → is_some (decode_op bits function rd rs1 rs2) ≡ true
unfolding decode_op
decode_op-total bits function rd rs1 rs2 h = ground (arith, h)

decode_op_32-total :
    (bits function rd rs1 rs2 : ℕ)
    → function < 8
    → is_some (decode_op_32 bits function rd rs1 rs2) ≡ true
unfolding decode_op_32
decode_op_32-total bits function rd rs1 rs2 h = ground (arith, h)

decode_branch-total :
    (bits function rs1 rs2 : ℕ)
    → function < 8
    → is_some (decode_branch bits function rs1 rs2) ≡ true
unfolding decode_branch
decode_branch-total bits function rs1 rs2 h = ground (arith, h)

decode_aqrl-total : (aqrl : ℕ) → aqrl < 4 → is_some (decode_aqrl aqrl) ≡ true
unfolding decode_aqrl
decode_aqrl-total aqrl h = ground (arith, h)

decode_amo_w-total :
    (func rd rs1 rs2 : ℕ) (aqrl : Op.Ordering) → is_some (decode_amo_w func rd rs1 rs2 aqrl) ≡ true
unfolding decode_amo_w
decode_amo_w-total func rd rs1 rs2 aqrl = ground (arith)

decode_amo_d-total :
    (func rd rs1 rs2 : ℕ) (aqrl : Op.Ordering) → is_some (decode_amo_d func rd rs1 rs2 aqrl) ≡ true
unfolding decode_amo_d
decode_amo_d-total func rd rs1 rs2 aqrl = ground (arith)

decode_amo-ordered :
    (func function rd rs1 rs2 : ℕ) (o : Option Op.Ordering)
    → is_some o ≡ true
    → is_some (elim o as (λ x. Option Op) [
      | none ↦ none
      | some aqrl ↦
          if function == 0b010
          then decode_amo_w func rd rs1 rs2 aqrl
          else if function == 0b011
          then decode_amo_d func rd rs1 rs2 aqrl
          else some Op.illegal
    ])
      ≡ true
decode_amo-ordered func function rd rs1 rs2 none h = h
decode_amo-ordered func function rd rs1 rs2 (some aqrl) h =
    ground (arith, decode_amo_w-total func rd rs1 rs2 aqrl, decode_amo_d-total func rd rs1 rs2 aqrl)

decode_amo-total :
    (bits function rd rs1 rs2 : ℕ) → is_some (decode_amo bits function rd rs1 rs2) ≡ true
unfolding decode_amo decode_aqrl decode_amo_w decode_amo_d
decode_amo-total bits function rd rs1 rs2 =
    decode_amo-ordered (Fields.funct7 bits / 2 ^ 2) function rd rs1 rs2
      (decode_aqrl (bit_and (Fields.funct7 bits) 3))
      (decode_aqrl-total (bit_and (Fields.funct7 bits) 3)
        (ground (arith, bit_and-mask 2 (Fields.funct7 bits))))

decode_fmadd-total :
    (bits function rd rs1 rs2 : ℕ)
    → function < 8
    → is_some (decode_fmadd bits function rd rs1 rs2) ≡ true
unfolding decode_fmadd
decode_fmadd-total bits function rd rs1 rs2 h = ground (arith, h)

decode_fmsub-total :
    (bits function rd rs1 rs2 : ℕ)
    → function < 8
    → is_some (decode_fmsub bits function rd rs1 rs2) ≡ true
unfolding decode_fmsub
decode_fmsub-total bits function rd rs1 rs2 h = ground (arith, h)

decode_fnmsub-total :
    (bits function rd rs1 rs2 : ℕ)
    → function < 8
    → is_some (decode_fnmsub bits function rd rs1 rs2) ≡ true
unfolding decode_fnmsub
decode_fnmsub-total bits function rd rs1 rs2 h = ground (arith, h)

decode_fnmadd-total :
    (bits function rd rs1 rs2 : ℕ)
    → function < 8
    → is_some (decode_fnmadd bits function rd rs1 rs2) ≡ true
unfolding decode_fnmadd
decode_fnmadd-total bits function rd rs1 rs2 h = ground (arith, h)

decode_op_fp_convert-total :
    (function7 function rd rs1 rs2 : ℕ)
    → function < 8
    → is_some (decode_op_fp_convert function7 function rd rs1 rs2) ≡ true
unfolding decode_op_fp_convert
decode_op_fp_convert-total function7 function rd rs1 rs2 h = ground (arith, h)

decode_op_fp-total :
    (bits function rd rs1 rs2 : ℕ)
    → function < 8
    → is_some (decode_op_fp bits function rd rs1 rs2) ≡ true
unfolding decode_op_fp
decode_op_fp-total bits function rd rs1 rs2 h =
    ground (arith, h, decode_op_fp_convert-total (Fields.funct7 bits) function rd rs1 rs2 h)

decode_privileged-total : (bits rd rs1 rs2 : ℕ) → is_some (decode_privileged bits rd rs1 rs2) ≡ true
unfolding decode_privileged
decode_privileged-total bits rd rs1 rs2 = ground (arith)

decode_csr-total :
    (bits function rd rs1 : ℕ)
    → function < 8
    → (function == 0) ≡ false
    → (function == 4) ≡ false
    → is_some (decode_csr bits function rd rs1) ≡ true
unfolding decode_csr
decode_csr-total bits function rd rs1 h p q = ground (arith, h, p, q)

decode_system-total :
    (bits function rd rs1 rs2 : ℕ)
    → function < 8
    → is_some (decode_system bits function rd rs1 rs2) ≡ true
unfolding decode_system
decode_system-total bits function rd rs1 rs2 h =
    ground
      (arith, h, decode_privileged-total bits rd rs1 rs2, decode_csr-total bits function rd rs1 h)

decode_opcode-total :
    (bits opcode function rd rs1 rs2 : ℕ)
    → function < 8
    → is_some (decode_opcode bits opcode function rd rs1 rs2) ≡ true
unfolding decode_opcode
decode_opcode-total bits opcode function rd rs1 rs2 h = ground (
  arith,
  decode_load-total bits function rd rs1 h,
  decode_load_fp-total bits function rd rs1 h,
  decode_op_imm-total bits function rd rs1 h,
  decode_misc_mem-total function h,
  decode_op_imm_32-total bits function rd rs1 h,
  decode_store-total bits function rs1 rs2 h,
  decode_store_fp-total bits function rs1 rs2 h,
  decode_op-total bits function rd rs1 rs2 h,
  decode_op_32-total bits function rd rs1 rs2 h,
  decode_branch-total bits function rs1 rs2 h,
  decode_amo-total bits function rd rs1 rs2,
  decode_fmadd-total bits function rd rs1 rs2 h,
  decode_fmsub-total bits function rd rs1 rs2 h,
  decode_fnmsub-total bits function rd rs1 rs2 h,
  decode_fnmadd-total bits function rd rs1 rs2 h,
  decode_op_fp-total bits function rd rs1 rs2 h,
  decode_system-total bits function rd rs1 rs2 h,
)

-- Every word that ends in the bits 11, so every 32-bit instruction, is decoded: `decode` does not panic.
pub decode-total : (bits : ℕ) → bits % 4 ≡ 3 → (op : Op) × (decode bits ≡ some op)
unfolding decode Fields.funct3
decode-total bits h = witness_of (decode bits) (
    ground (
      arith,
      bit_and-mask 2 bits,
      bit_and-mask 3 (bits / 2 ^ 12),
      decode_opcode-total bits (bit_and bits 0b1111111) (Fields.funct3 bits) (Fields.rd bits)
          (Fields.rs1 bits) (Fields.rs2 bits),
    ))
