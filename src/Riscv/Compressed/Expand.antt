-- ===== src/Riscv/Compressed/Expand.antt =====
-- A 16-bit instruction is short for a 32-bit one.
use mathlib.Core.Path.{subst}
use r2vm.Base.{ℕ, ◌<◌, ◌≡◌, ◌==◌, ◌>>>◌, inl, arith, Bool, true, false, Option, none, some}
use r2vm.Base.{if◌then◌else◌, bit_and, bit_and-mask, sll}
use r2vm.Riscv.Op.{Op}
use r2vm.Riscv.Decode.{decode}
use r2vm.Riscv.Encode.{encode, IsEncodable}
use r2vm.Riscv.Encode.RoundTrip.{decode-encode}
use r2vm.Riscv.Compressed.Fields
use r2vm.Riscv.Compressed.{
  quadrant0, register_arith, misc_alu, quadrant1, jump_or_add, quadrant2, decode_compressed,
}
use r2vm.Riscv.Compressed.Ranges.{
  c_rd-lt, c_rs2-lt, c_rds-lt, c_rs1s-lt, ci_lwsp_imm-lt, ci_ldsp_imm-lt, css_swsp_imm-lt,
  css_sdsp_imm-lt, ciw_imm-lt, cl_lw_imm-lt, cl_ld_imm-lt, ci_imm-IsSigned,
  ci_addi16sp_imm-IsSigned, cb_imm-IsSigned, cb_imm-even, cj_imm-IsSigned, cj_imm-even,
}

-- A result that is an operation, if there is one, that a 32-bit instruction can hold.
data AllEncodable : Option Op → Type 0 where
  nothing : AllEncodable none
  encodable : (op : Op) → IsEncodable op → AllEncodable (some op)

choose :
    (b : Bool) {x y : Option Op}
    → AllEncodable x
    → AllEncodable y
    → AllEncodable (if b then x else y)
choose true p q = p
choose false p q = q

illegal : AllEncodable (some Op.illegal)
illegal = encodable Op.illegal tt

quadrant0-AllEncodable : (bits function : ℕ) → AllEncodable (quadrant0 bits function)
unfolding quadrant0 Fields.c_rs1 Fields.c_rs2s Fields.cs_sw_imm Fields.cs_sd_imm
quadrant0-AllEncodable bits function =
    choose (function == 0b000)
      (choose (Fields.ciw_imm bits == 0) illegal (
        encodable (Op.addi (Fields.c_rds bits) 2 (Fields.ciw_imm bits))
          (c_rds-lt bits, omega arith, inl (ground (arith, ciw_imm-lt bits)))))
      (choose (function == 0b001)
        (encodable (Op.fld (Fields.c_rds bits) (Fields.c_rs1s bits) (Fields.cl_ld_imm bits))
          (c_rds-lt bits, c_rs1s-lt bits, inl (ground (arith, cl_ld_imm-lt bits))))
        (choose (function == 0b010)
          (encodable (Op.lw (Fields.c_rds bits) (Fields.c_rs1s bits) (Fields.cl_lw_imm bits))
            (c_rds-lt bits, c_rs1s-lt bits, inl (ground (arith, cl_lw_imm-lt bits))))
          (choose (function == 0b011)
            (encodable (Op.ld (Fields.c_rds bits) (Fields.c_rs1s bits) (Fields.cl_ld_imm bits))
              (c_rds-lt bits, c_rs1s-lt bits, inl (ground (arith, cl_ld_imm-lt bits))))
            (choose (function == 0b100) illegal (
              choose (function == 0b101)
                (encodable
                  (Op.fsd (Fields.c_rs1s bits) (Fields.c_rs2s bits) (Fields.cs_sd_imm bits))
                  (c_rs1s-lt bits, c_rds-lt bits, inl (ground (arith, cl_ld_imm-lt bits))))
                (choose (function == 0b110)
                  (encodable
                    (Op.sw (Fields.c_rs1s bits) (Fields.c_rs2s bits) (Fields.cs_sw_imm bits))
                    (c_rs1s-lt bits, c_rds-lt bits, inl (ground (arith, cl_lw_imm-lt bits))))
                  (choose (function == 0b111)
                    (encodable
                      (Op.sd (Fields.c_rs1s bits) (Fields.c_rs2s bits) (Fields.cs_sd_imm bits))
                      (c_rs1s-lt bits, c_rds-lt bits, inl (ground (arith, cl_ld_imm-lt bits))))
                    nothing)))))))

register_arith-AllEncodable : (bits : ℕ) → AllEncodable (register_arith bits (Fields.c_rs1s bits))
unfolding register_arith Fields.c_rs1 Fields.c_rs2s Fields.cs_sw_imm Fields.cs_sd_imm
register_arith-AllEncodable bits =
    let kind : ℕ = bit_and (bits >>> 5) 0b11 in
    choose (bit_and bits 0x1000 == 0)
      (choose (kind == 0b00)
        (encodable (Op.sub (Fields.c_rs1s bits) (Fields.c_rs1s bits) (Fields.c_rs2s bits))
          (c_rs1s-lt bits, c_rs1s-lt bits, c_rds-lt bits))
        (choose (kind == 0b01)
          (encodable (Op.xor (Fields.c_rs1s bits) (Fields.c_rs1s bits) (Fields.c_rs2s bits))
            (c_rs1s-lt bits, c_rs1s-lt bits, c_rds-lt bits))
          (choose (kind == 0b10)
            (encodable (Op.or (Fields.c_rs1s bits) (Fields.c_rs1s bits) (Fields.c_rs2s bits))
              (c_rs1s-lt bits, c_rs1s-lt bits, c_rds-lt bits))
            (choose (kind == 0b11)
              (encodable (Op.and (Fields.c_rs1s bits) (Fields.c_rs1s bits) (Fields.c_rs2s bits))
                (c_rs1s-lt bits, c_rs1s-lt bits, c_rds-lt bits))
              nothing))))
      (choose (kind == 0b00)
        (encodable (Op.subw (Fields.c_rs1s bits) (Fields.c_rs1s bits) (Fields.c_rs2s bits))
          (c_rs1s-lt bits, c_rs1s-lt bits, c_rds-lt bits))
        (choose (kind == 0b01)
          (encodable (Op.addw (Fields.c_rs1s bits) (Fields.c_rs1s bits) (Fields.c_rs2s bits))
            (c_rs1s-lt bits, c_rs1s-lt bits, c_rds-lt bits))
          illegal))

-- A shift amount of six bits.
shift_amount-lt : (x : ℕ) → bit_and x 63 < 64
shift_amount-lt x = ground (arith, bit_and-mask 6 x)

misc_alu-AllEncodable : (bits : ℕ) → AllEncodable (misc_alu bits)
unfolding misc_alu
misc_alu-AllEncodable bits =
    let kind : ℕ = bit_and (bits >>> 10) 0b11 in
    choose (kind == 0b00)
      (encodable
        (Op.srli (Fields.c_rs1s bits) (Fields.c_rs1s bits) (bit_and (Fields.ci_imm bits) 63))
        (c_rs1s-lt bits, c_rs1s-lt bits, shift_amount-lt (Fields.ci_imm bits)))
      (choose (kind == 0b01)
        (encodable
          (Op.srai (Fields.c_rs1s bits) (Fields.c_rs1s bits) (bit_and (Fields.ci_imm bits) 63))
          (c_rs1s-lt bits, c_rs1s-lt bits, shift_amount-lt (Fields.ci_imm bits)))
        (choose (kind == 0b10)
          (encodable (Op.andi (Fields.c_rs1s bits) (Fields.c_rs1s bits) (Fields.ci_imm bits))
            (c_rs1s-lt bits, c_rs1s-lt bits, ground (arith, ci_imm-IsSigned bits)))
          (choose (kind == 0b11) (register_arith-AllEncodable bits) nothing)))

quadrant1-AllEncodable : (bits function : ℕ) → AllEncodable (quadrant1 bits function)
unfolding quadrant1
quadrant1-AllEncodable bits function =
    choose (function == 0b000)
      (encodable (Op.addi (Fields.c_rd bits) (Fields.c_rd bits) (Fields.ci_imm bits))
        (c_rd-lt bits, c_rd-lt bits, ground (arith, ci_imm-IsSigned bits)))
      (choose (function == 0b001)
        (choose (Fields.c_rd bits == 0) illegal (
          encodable (Op.addiw (Fields.c_rd bits) (Fields.c_rd bits) (Fields.ci_imm bits))
            (c_rd-lt bits, c_rd-lt bits, ground (arith, ci_imm-IsSigned bits))))
        (choose (function == 0b010)
          (encodable (Op.addi (Fields.c_rd bits) 0 (Fields.ci_imm bits))
            (c_rd-lt bits, omega arith, ground (arith, ci_imm-IsSigned bits)))
          (choose (function == 0b011)
            (choose (Fields.c_rd bits == 2)
              (choose (Fields.ci_addi16sp_imm bits == 0) illegal (
                encodable (Op.addi 2 2 (Fields.ci_addi16sp_imm bits))
                  (omega arith, omega arith, ground (arith, ci_addi16sp_imm-IsSigned bits))))
              (encodable (Op.lui (Fields.c_rd bits) (sll 32 (Fields.ci_imm bits) 12))
                (c_rd-lt bits, (omega arith, omega arith))))
            (choose (function == 0b100) (misc_alu-AllEncodable bits) (
              choose (function == 0b101)
                (encodable (Op.jal 0 (Fields.cj_imm bits))
                  (omega arith, (ground (arith, cj_imm-IsSigned bits), cj_imm-even bits)))
                (choose (function == 0b110)
                  (encodable (Op.beq (Fields.c_rs1s bits) 0 (Fields.cb_imm bits)) (
                    c_rs1s-lt bits,
                    omega arith,
                    (ground (arith, cb_imm-IsSigned bits), cb_imm-even bits),
                  ))
                  (choose (function == 0b111)
                    (encodable (Op.bne (Fields.c_rs1s bits) 0 (Fields.cb_imm bits)) (
                      c_rs1s-lt bits,
                      omega arith,
                      (ground (arith, cb_imm-IsSigned bits), cb_imm-even bits),
                    ))
                    nothing)))))))

jump_or_add-AllEncodable : (bits : ℕ) → AllEncodable (jump_or_add bits)
unfolding jump_or_add Fields.c_rs1
jump_or_add-AllEncodable bits =
    choose (bit_and bits 0x1000 == 0)
      (choose (Fields.c_rs2 bits == 0)
        (choose (Fields.c_rs1 bits == 0) illegal
          (encodable (Op.jalr 0 (Fields.c_rs1 bits) 0) (omega arith, c_rd-lt bits, omega arith)))
        (encodable (Op.add (Fields.c_rd bits) 0 (Fields.c_rs2 bits))
          (c_rd-lt bits, omega arith, c_rs2-lt bits)))
      (choose (Fields.c_rs1 bits == 0) (encodable Op.ebreak tt) (
        choose (Fields.c_rs2 bits == 0)
          (encodable (Op.jalr 1 (Fields.c_rs1 bits) 0) (omega arith, c_rd-lt bits, omega arith))
          (encodable (Op.add (Fields.c_rd bits) (Fields.c_rd bits) (Fields.c_rs2 bits))
            (c_rd-lt bits, c_rd-lt bits, c_rs2-lt bits))))

quadrant2-AllEncodable : (bits function : ℕ) → AllEncodable (quadrant2 bits function)
unfolding quadrant2
quadrant2-AllEncodable bits function =
    choose (function == 0b000)
      (encodable (Op.slli (Fields.c_rd bits) (Fields.c_rd bits) (bit_and (Fields.ci_imm bits) 63))
        (c_rd-lt bits, c_rd-lt bits, shift_amount-lt (Fields.ci_imm bits)))
      (choose (function == 0b001)
        (encodable (Op.fld (Fields.c_rd bits) 2 (Fields.ci_ldsp_imm bits))
          (c_rd-lt bits, omega arith, inl (ground (arith, ci_ldsp_imm-lt bits))))
        (choose (function == 0b010)
          (choose (Fields.c_rd bits == 0) illegal (
            encodable (Op.lw (Fields.c_rd bits) 2 (Fields.ci_lwsp_imm bits))
              (c_rd-lt bits, omega arith, inl (ground (arith, ci_lwsp_imm-lt bits)))))
          (choose (function == 0b011)
            (choose (Fields.c_rd bits == 0) illegal (
              encodable (Op.ld (Fields.c_rd bits) 2 (Fields.ci_ldsp_imm bits))
                (c_rd-lt bits, omega arith, inl (ground (arith, ci_ldsp_imm-lt bits)))))
            (choose (function == 0b100) (jump_or_add-AllEncodable bits) (
              choose (function == 0b101)
                (encodable (Op.fsd 2 (Fields.c_rs2 bits) (Fields.css_sdsp_imm bits))
                  (omega arith, c_rs2-lt bits, inl (ground (arith, css_sdsp_imm-lt bits))))
                (choose (function == 0b110)
                  (encodable (Op.sw 2 (Fields.c_rs2 bits) (Fields.css_swsp_imm bits))
                    (omega arith, c_rs2-lt bits, inl (ground (arith, css_swsp_imm-lt bits))))
                  (choose (function == 0b111)
                    (encodable (Op.sd 2 (Fields.c_rs2 bits) (Fields.css_sdsp_imm bits))
                      (omega arith, c_rs2-lt bits, inl (ground (arith, css_sdsp_imm-lt bits))))
                    nothing)))))))

decode_compressed-AllEncodable : (bits : ℕ) → AllEncodable (decode_compressed bits)
unfolding decode_compressed
decode_compressed-AllEncodable bits =
    choose (bit_and bits 0b11 == 0b00) (quadrant0-AllEncodable bits (Fields.c_funct3 bits)) (
      choose (bit_and bits 0b11 == 0b01) (quadrant1-AllEncodable bits (Fields.c_funct3 bits)) (
        choose (bit_and bits 0b11 == 0b10) (quadrant2-AllEncodable bits (Fields.c_funct3 bits))
          nothing))

same_op : (a b : Op) → ◌≡◌ {A = Option Op} (some a) (some b) → a ≡ b
same_op a b e = ground (arith, e)

all-IsEncodable : {o : Option Op} {op : Op} → AllEncodable o → o ≡ some op → IsEncodable op
all-IsEncodable nothing e = absurd (ground (arith, e))
all-IsEncodable {op = op} (encodable a p) e = subst (λ (x : Op). IsEncodable x) (same_op a op e) p

-- What `decode_compressed` returns for a 16-bit instruction is an operation that a 32-bit instruction
-- can hold, and `decode` returns the same operation for that instruction.
pub decode_compressed-expands :
    (bits : ℕ) {op : Op}
    → decode_compressed bits ≡ some op
    → IsEncodable op × (decode (encode op) ≡ some op)
decode_compressed-expands bits {op} e =
    let p : IsEncodable op = all-IsEncodable (decode_compressed-AllEncodable bits) e in
    (p, decode-encode op p)
