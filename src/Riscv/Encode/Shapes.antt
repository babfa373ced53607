-- ===== src/Riscv/Encode/Shapes.antt =====
-- One lemma for each format: `decode` of an instruction in that format is what the opcode's arm makes
-- of the fields.
use r2vm.Base.{ℕ, ◌+◌, ◌*◌, ◌/◌, ◌%◌, ◌^◌, ◌<◌, ◌≡◌, ◌∙◌, refl, ap, arith}
use r2vm.Base.{Option, Bool, true, not, ◌&&◌, ◌==◌, ltb}
use r2vm.Riscv.Op.{Op}
use r2vm.Riscv.Decode.{decode, decode_opcode}
use r2vm.Riscv.Decode.Fields
use r2vm.Riscv.Encode.Format.{r_type, i_type, s_type, b_type, u_type, j_type}
use r2vm.Riscv.Encode.Format.{IsSigned, IsOffset, IsUpper}
use r2vm.Riscv.Encode.Words.{funct7-eq, i_imm-i_type, s_imm-eq, b_imm-eq, u_imm-eq, j_imm-eq}
use r2vm.Riscv.Encode.Words.{decode-eq}

-- The low seven bits of a 32-bit instruction.
abbrev pub is_opcode : ℕ → Bool
is_opcode opcode = ltb opcode 128 && (opcode % 4 == 3 && not (opcode % 32 == 31))

module _ (f3 opcode : ℕ) (f3_fits : f3 < 8) (op_fits : is_opcode opcode ≡ true) where
  pub decode-at :
      (bits rs2 rs1 rd : ℕ) {result : Option Op}
      → bits % 2 ^ 7 ≡ opcode
      → bits / 2 ^ 12 % 2 ^ 3 ≡ f3
      → bits / 2 ^ 7 % 2 ^ 5 ≡ rd
      → bits / 2 ^ 15 % 2 ^ 5 ≡ rs1
      → bits / 2 ^ 20 % 2 ^ 5 ≡ rs2
      → decode_opcode bits opcode f3 rd rs1 rs2 ≡ result
      → decode bits ≡ result
  decode-at bits rs2 rs1 rd eo e3 ed e1 e2 arm =
      decode-eq bits opcode eo (ground arith) (ground arith) ∙ rw (e3, ed, e1, e2) arm

  pub i_type-decodes :
      (imm rs1 rd : ℕ) {result : Option Op}
      → rs1 < 32
      → rd < 32
      → IsSigned 12 imm
      → ((bits rs2 : ℕ)
          → Fields.i_imm bits ≡ imm
          → decode_opcode bits opcode f3 rd rs1 rs2 ≡ result)
      → decode (i_type imm rs1 f3 rd opcode) ≡ result
  i_type-decodes imm rs1 rd h1 hd hi arm =
      let fits : opcode < 128 = ground arith in
      let low : ℕ = rs1 * 2 ^ 15 + f3 * 2 ^ 12 + rd * 2 ^ 7 + opcode in
      decode-at (i_type imm rs1 f3 rd opcode) (imm % 2 ^ 5) rs1 rd (omega arith) (omega arith)
        (omega arith) (omega arith) (omega arith)
        (arm _ _ (ap Fields.i_imm (omega arith) ∙ i_imm-i_type imm low hi (omega arith)))

  pub csr_type-decodes :
      (csr rs1 rd : ℕ) {result : Option Op}
      → csr < 2 ^ 12
      → rs1 < 32
      → rd < 32
      → ((bits rs2 : ℕ) → Fields.csr bits ≡ csr → decode_opcode bits opcode f3 rd rs1 rs2 ≡ result)
      → decode (i_type csr rs1 f3 rd opcode) ≡ result
  csr_type-decodes csr rs1 rd hc h1 hd arm =
      let fits : opcode < 128 = ground arith in
      decode-at (i_type csr rs1 f3 rd opcode) (csr % 2 ^ 5) rs1 rd (omega arith) (omega arith)
        (omega arith) (omega arith) (omega arith) (arm _ _ (unfold Fields.csr in omega arith))

  pub r_type-decodes :
      (f7 rs2 rs1 rd : ℕ) {result : Option Op}
      → f7 < 128
      → rs2 < 32
      → rs1 < 32
      → rd < 32
      → ((bits : ℕ) → Fields.funct7 bits ≡ f7 → decode_opcode bits opcode f3 rd rs1 rs2 ≡ result)
      → decode (r_type f7 rs2 rs1 f3 rd opcode) ≡ result
  r_type-decodes f7 rs2 rs1 rd h7 h2 h1 hd arm =
      let fits : opcode < 128 = ground arith in
      decode-at (r_type f7 rs2 rs1 f3 rd opcode) rs2 rs1 rd (omega arith) (omega arith)
        (omega arith) (omega arith) (omega arith)
        (arm _ (funct7-eq (r_type f7 rs2 rs1 f3 rd opcode) ∙ omega arith))

  pub s_type-decodes :
      (imm rs2 rs1 : ℕ) {result : Option Op}
      → rs2 < 32
      → rs1 < 32
      → IsSigned 12 imm
      → ((bits rd : ℕ) → Fields.s_imm bits ≡ imm → decode_opcode bits opcode f3 rd rs1 rs2 ≡ result)
      → decode (s_type imm rs2 rs1 f3 opcode) ≡ result
  s_type-decodes imm rs2 rs1 h2 h1 hi arm =
      let fits : opcode < 128 = ground arith in
      decode-at (s_type imm rs2 rs1 f3 opcode) rs2 rs1 (imm % 2 ^ 5) (omega arith) (omega arith)
        (omega arith) (omega arith) (omega arith)
        (arm _ _ (s_imm-eq (s_type imm rs2 rs1 f3 opcode) (omega arith) ∙ omega arith))

  pub b_type-decodes :
      (imm rs2 rs1 : ℕ) {result : Option Op}
      → rs2 < 32
      → rs1 < 32
      → IsOffset 13 imm
      → ((bits rd : ℕ) → Fields.b_imm bits ≡ imm → decode_opcode bits opcode f3 rd rs1 rs2 ≡ result)
      → decode (b_type imm rs2 rs1 f3 opcode) ≡ result
  b_type-decodes imm rs2 rs1 h2 h1 hi arm =
      let fits : opcode < 128 = ground arith in
      decode-at (b_type imm rs2 rs1 f3 opcode) rs2 rs1 (imm / 2 % 2 ^ 4 * 2 + imm / 2 ^ 11 % 2)
        (omega arith) (omega arith) (omega arith) (omega arith) (omega arith)
        (arm _ _ (b_imm-eq (b_type imm rs2 rs1 f3 opcode) (omega arith) ∙ omega arith))

module _ (opcode : ℕ) (op_fits : is_opcode opcode ≡ true) where
  pub u_type-decodes :
      (imm rd : ℕ) {result : Option Op}
      → rd < 32
      → IsUpper imm
      → ((bits f3 rs1 rs2 : ℕ)
          → Fields.u_imm bits ≡ imm
          → decode_opcode bits opcode f3 rd rs1 rs2 ≡ result)
      → decode (u_type imm rd opcode) ≡ result
  u_type-decodes imm rd hd hi arm =
      let fits : opcode < 128 = ground arith in
      let bits : ℕ = u_type imm rd opcode in
      decode-at (bits / 2 ^ 12 % 2 ^ 3) opcode (omega arith) op_fits bits (bits / 2 ^ 20 % 2 ^ 5)
        (bits / 2 ^ 15 % 2 ^ 5) rd (omega arith) refl (omega arith) refl refl
        (arm bits _ _ _ (u_imm-eq bits (omega arith) ∙ omega arith))

  pub j_type-decodes :
      (imm rd : ℕ) {result : Option Op}
      → rd < 32
      → IsOffset 21 imm
      → ((bits f3 rs1 rs2 : ℕ)
          → Fields.j_imm bits ≡ imm
          → decode_opcode bits opcode f3 rd rs1 rs2 ≡ result)
      → decode (j_type imm rd opcode) ≡ result
  j_type-decodes imm rd hd hi arm =
      let fits : opcode < 128 = ground arith in
      let bits : ℕ = j_type imm rd opcode in
      decode-at (bits / 2 ^ 12 % 2 ^ 3) opcode (omega arith) op_fits bits (bits / 2 ^ 20 % 2 ^ 5)
        (bits / 2 ^ 15 % 2 ^ 5) rd (omega arith) refl (omega arith) refl refl
        (arm bits _ _ _ (j_imm-eq bits (omega arith) ∙ omega arith))
