-- ===== src/Riscv/Encode/Arms.antt =====
-- The arms of `decode` that test their operands, at operands that an instruction can hold.
use r2vm.Base.{ℕ, ◌+◌, ◌*◌, ◌/◌, ◌^◌, ◌<◌, ◌≡◌, ◌∙◌, refl, arith, some}
use r2vm.Base.{Bool, true, ◌&&◌, ◌==◌, if◌then◌else◌, bit_and, bit_and-mask, leb}
use r2vm.Base.{all_below, all_below_sound, not32}
use r2vm.Riscv.Csr
use r2vm.Riscv.Op
use r2vm.Riscv.Op.{Op}
use r2vm.Riscv.Decode.Fields
use r2vm.Riscv.Decode.Float.{with_rm}
use r2vm.Riscv.Decode.Atomic.{decode_aqrl, decode_amo, decode_amo_w, decode_amo_d}
use r2vm.Riscv.Decode.{decode, decode_misc_mem, decode_system}
use r2vm.Riscv.Encode.Words.{funct7-eq, rs3-eq}
use r2vm.Riscv.Encode.Format.{IsRoundingMode, aqrl_bits}

-- Bit 10 of a shift's immediate tells the arithmetic shift.
abbrev shift_test : ℕ → Bool
shift_test x =
    bit_and x (not32 0x400) == x
    && (bit_and x 0x400 == 0
        && (bit_and (x + 0x400) (not32 0x400) == x && bit_and (x + 0x400) 0x400 == 0x400))

shift_table : all_below shift_test 64 ≡ true
unfolding all_below
shift_table = refl

pub shift_bits :
    (imm : ℕ)
    → imm < 64
    → (bit_and imm (not32 0x400) ≡ imm)
      × (bit_and imm 0x400 ≡ 0)
      × (bit_and (imm + 0x400) (not32 0x400) ≡ imm)
      × (bit_and (imm + 0x400) 0x400 ≡ 0x400)
shift_bits imm h = ground (arith, all_below_sound shift_test 64 shift_table imm h)

pub with_rm-eq : (rm : ℕ) (k : ℕ → Op) → IsRoundingMode rm → with_rm rm k ≡ some (k rm)
unfolding with_rm
with_rm-eq rm k h = ground arith

pub readonly-eq : (csr : ℕ) → csr < 2 ^ 12 → Csr.readonly csr ≡ leb 0xc00 csr
unfolding Csr.readonly
readonly-eq csr h = ground (arith, bit_and-mask 2 (csr / 2 ^ 10))

decode_aqrl-eq :
    (aqrl : Op.Ordering) (f5 f7 : ℕ)
    → f7 ≡ f5 * 4 + aqrl_bits aqrl
    → (decode_aqrl (bit_and f7 3) ≡ some aqrl) × (f7 / 2 ^ 2 ≡ f5)
unfolding decode_aqrl
decode_aqrl-eq Op.Ordering.relaxed f5 f7 e = ground (arith, bit_and-mask 2 f7)
decode_aqrl-eq Op.Ordering.release f5 f7 e = ground (arith, bit_and-mask 2 f7)
decode_aqrl-eq Op.Ordering.acquire f5 f7 e = ground (arith, bit_and-mask 2 f7)
decode_aqrl-eq Op.Ordering.seq_cst f5 f7 e = ground (arith, bit_and-mask 2 f7)

-- The width and the kind of an atomic operation, with its `aq` and `rl` bits.
pub decode_amo-eq :
    (bits f5 f3 rd rs1 rs2 : ℕ) (aqrl : Op.Ordering)
    → Fields.funct7 bits ≡ f5 * 4 + aqrl_bits aqrl
    → decode_amo bits f3 rd rs1 rs2 ≡ (
        if f3 == 0b010
        then decode_amo_w f5 rd rs1 rs2 aqrl
        else if f3 == 0b011
        then decode_amo_d f5 rd rs1 rs2 aqrl
        else some Op.illegal)
decode_amo-eq bits f5 f3 rd rs1 rs2 aqrl e =
    let (order, func) = decode_aqrl-eq aqrl f5 (Fields.funct7 bits) e in
    unfold decode_amo in rw (order, decode_amo) (rw func refl)

pub aqrl_bits-lt : (aqrl : Op.Ordering) → aqrl_bits aqrl < 4
aqrl_bits-lt Op.Ordering.relaxed = omega arith
aqrl_bits-lt Op.Ordering.release = omega arith
aqrl_bits-lt Op.Ordering.acquire = omega arith
aqrl_bits-lt Op.Ordering.seq_cst = omega arith

-- The format and the third operand of a fused multiply and add.
pub r4-fields :
    (bits rs3 format : ℕ)
    → Fields.funct7 bits ≡ rs3 * 4 + format
    → rs3 < 32
    → format < 4
    → (bit_and (Fields.funct7 bits) 3 ≡ format) × (Fields.rs3 bits ≡ rs3)
r4-fields bits rs3 format e h hf =
    (bit_and-mask 2 (Fields.funct7 bits) ∙ omega arith, rs3-eq bits ∙ omega (arith, funct7-eq bits))

-- The instructions without operands.
pub decode_fixed :
    (decode 0x0000000f ≡ some Op.fence)
    × (decode 0x0000100f ≡ some Op.fence_i)
    × (decode 0x00000073 ≡ some Op.ecall)
    × (decode 0x00100073 ≡ some Op.ebreak)
    × (decode 0x30200073 ≡ some Op.mret)
    × (decode 0x10200073 ≡ some Op.sret)
    × (decode 0x10500073 ≡ some Op.wfi)
    × (decode 0x0000001f ≡ some Op.illegal)
unfolding decode decode_misc_mem decode_system Fields.funct3 Fields.rd Fields.rs1 Fields.rs2
    Fields.funct7
decode_fixed = (refl, refl, refl, refl, refl, refl, refl, refl)
