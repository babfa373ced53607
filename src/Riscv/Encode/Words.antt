-- ===== src/Riscv/Encode/Words.antt =====
-- What `decode` reads from an instruction that is laid out by a format of the manual: the fields come
-- back, and so do the immediates, sign included.
use r2vm.Base.{ℕ, ◌+◌, ◌-◌, ◌*◌, ◌/◌, ◌%◌, ◌^◌, ◌<◌, ◌≡◌, ◌≢◌, arith}
use r2vm.Base.{bit_and-mask, bit_and-field, bit_or-fields}
use r2vm.Riscv.Decode.{decode, decode_opcode}
use r2vm.Riscv.Decode.Fields
use r2vm.Riscv.Encode.Format.{IsSigned}

pub rd-eq : (bits : ℕ) → Fields.rd bits ≡ bits / 2 ^ 7 % 2 ^ 5
unfolding Fields.rd
rd-eq bits = omega (arith, bit_and-mask 5 (bits / 2 ^ 7))

pub rs1-eq : (bits : ℕ) → Fields.rs1 bits ≡ bits / 2 ^ 15 % 2 ^ 5
unfolding Fields.rs1
rs1-eq bits = omega (arith, bit_and-mask 5 (bits / 2 ^ 15))

pub rs2-eq : (bits : ℕ) → Fields.rs2 bits ≡ bits / 2 ^ 20 % 2 ^ 5
unfolding Fields.rs2
rs2-eq bits = omega (arith, bit_and-mask 5 (bits / 2 ^ 20))

pub rs3-eq : (bits : ℕ) → Fields.rs3 bits ≡ bits / 2 ^ 27 % 2 ^ 5
unfolding Fields.rs3
rs3-eq bits = omega (arith, bit_and-mask 5 (bits / 2 ^ 27))

pub funct3-eq : (bits : ℕ) → Fields.funct3 bits ≡ bits / 2 ^ 12 % 2 ^ 3
unfolding Fields.funct3
funct3-eq bits = bit_and-mask 3 (bits / 2 ^ 12)

pub funct7-eq : (bits : ℕ) → Fields.funct7 bits ≡ bits / 2 ^ 25 % 2 ^ 7
unfolding Fields.funct7
funct7-eq bits = bit_and-mask 7 (bits / 2 ^ 25)

pub i_imm-i_type :
    (imm low : ℕ)
    → IsSigned 12 imm
    → low < 2 ^ 20
    → Fields.i_imm (imm % 2 ^ 12 * 2 ^ 20 + low) ≡ imm
unfolding Fields.i_imm
i_imm-i_type imm low h hl = ground arith

-- The sign of bit 31 in the bits from `n` on, as an arithmetic shift leaves it.
abbrev pub sign_part : ℕ → ℕ → ℕ
sign_part n bits = bits / 2 ^ 31 % 2 * (2 ^ 32 - 2 ^ n)

pub s_imm-eq :
    (bits : ℕ)
    → bits < 2 ^ 32
    → Fields.s_imm bits ≡ sign_part 12 bits + bits / 2 ^ 25 % 2 ^ 7 * 2 ^ 5 + bits / 2 ^ 7 % 2 ^ 5
unfolding Fields.s_imm
s_imm-eq bits h = ground (
  arith,
  bit_and-field 25 7 bits,
  bit_and-field 7 5 bits,
  bit_or-fields 5 (bits / 2 ^ 31 % 2 * (2 ^ 27 - 2 ^ 7) + bits / 2 ^ 25 % 2 ^ 7)
      (bits / 2 ^ 7 % 2 ^ 5),
)

pub b_imm-eq :
    (bits : ℕ)
    → bits < 2 ^ 32
    → Fields.b_imm bits
      ≡ sign_part 12 bits
        + bits / 2 ^ 7 % 2 * 2 ^ 11
        + bits / 2 ^ 25 % 2 ^ 6 * 2 ^ 5
        + bits / 2 ^ 8 % 2 ^ 4 * 2
unfolding Fields.b_imm
b_imm-eq bits h = ground (
  arith,
  bit_and-field 31 1 bits,
  bit_and-field 7 1 bits,
  bit_and-field 25 6 bits,
  bit_and-field 8 4 bits,
  bit_or-fields 12 (bits / 2 ^ 31 % 2 * (2 ^ 20 - 1)) (bits / 2 ^ 7 % 2 * 2 ^ 11),
  bit_or-fields 11 (bits / 2 ^ 31 % 2 * (2 ^ 21 - 2) + bits / 2 ^ 7 % 2)
      (bits / 2 ^ 25 % 2 ^ 6 * 2 ^ 5),
  bit_or-fields 5
      (bits / 2 ^ 31 % 2 * (2 ^ 27 - 2 ^ 7) + bits / 2 ^ 7 % 2 * 2 ^ 6 + bits / 2 ^ 25 % 2 ^ 6)
      (bits / 2 ^ 8 % 2 ^ 4 * 2),
)

pub u_imm-eq : (bits : ℕ) → bits < 2 ^ 32 → Fields.u_imm bits ≡ bits / 2 ^ 12 * 2 ^ 12
unfolding Fields.u_imm
u_imm-eq bits h = omega (arith, bit_and-field 12 20 bits)

pub j_imm-eq :
    (bits : ℕ)
    → bits < 2 ^ 32
    → Fields.j_imm bits
      ≡ sign_part 20 bits
        + bits / 2 ^ 12 % 2 ^ 8 * 2 ^ 12
        + bits / 2 ^ 20 % 2 * 2 ^ 11
        + bits / 2 ^ 21 % 2 ^ 10 * 2
unfolding Fields.j_imm
j_imm-eq bits h = ground (
  arith,
  bit_and-field 31 1 bits,
  bit_and-field 12 8 bits,
  bit_and-field 20 1 bits,
  bit_and-field 21 10 bits,
  bit_or-fields 20 (bits / 2 ^ 31 % 2 * (2 ^ 12 - 1)) (bits / 2 ^ 12 % 2 ^ 8 * 2 ^ 12),
  bit_or-fields 12 (bits / 2 ^ 31 % 2 * (2 ^ 20 - 2 ^ 8) + bits / 2 ^ 12 % 2 ^ 8)
      (bits / 2 ^ 20 % 2 * 2 ^ 11),
  bit_or-fields 11
      (bits / 2 ^ 31 % 2 * (2 ^ 21 - 2 ^ 9) + bits / 2 ^ 12 % 2 ^ 8 * 2 + bits / 2 ^ 20 % 2)
      (bits / 2 ^ 21 % 2 ^ 10 * 2),
)

-- With the low seven bits an opcode of a 32-bit instruction, `decode` goes by the fields.
pub decode-eq :
    (bits opcode : ℕ)
    → bits % 2 ^ 7 ≡ opcode
    → opcode % 4 ≡ 3
    → opcode % 32 ≢ 31
    → decode bits
      ≡ decode_opcode bits opcode
          (bits / 2 ^ 12 % 2 ^ 3)
          (bits / 2 ^ 7 % 2 ^ 5)
          (bits / 2 ^ 15 % 2 ^ 5)
          (bits / 2 ^ 20 % 2 ^ 5)
unfolding decode
decode-eq bits opcode e quarter short =
    rw
      (
        bit_and-mask 2 bits,
        bit_and-mask 5 bits,
        bit_and-mask 7 bits,
        funct3-eq bits,
        rd-eq bits,
        rs1-eq bits,
        rs2-eq bits,
        e,
      )
      (ground arith)
