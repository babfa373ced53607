-- ===== src/Riscv/Decode/Atomic.antt =====
-- The AMO opcode of `decode`. `none` stands for a panic (`unreachable!`).
use r2vm.Base.{ℕ, Option, none, some, not, if◌then◌else◌, ◌==◌, ◌>>>◌, bit_and}
use r2vm.Riscv.Decode.Fields
use r2vm.Riscv.Op
use r2vm.Riscv.Op.{Op}

-- The acquire and release bits.
unfoldable pub decode_aqrl : ℕ → Option Op.Ordering
decode_aqrl aqrl =
    if aqrl == 0
    then some Op.Ordering.relaxed
    else if aqrl == 1
    then some Op.Ordering.release
    else if aqrl == 2
    then some Op.Ordering.acquire
    else if aqrl == 3
    then some Op.Ordering.seq_cst
    else none

unfoldable pub decode_amo_w : ℕ → ℕ → ℕ → ℕ → Op.Ordering → Option Op
decode_amo_w func rd rs1 rs2 aqrl =
    if func == 0b00010
    then (if not (rs2 == 0) then some Op.illegal else some (Op.lr_w rd rs1 aqrl))
    else if func == 0b00011
    then some (Op.sc_w rd rs1 rs2 aqrl)
    else if func == 0b00001
    then some (Op.amoswap_w rd rs1 rs2 aqrl)
    else if func == 0b00000
    then some (Op.amoadd_w rd rs1 rs2 aqrl)
    else if func == 0b00100
    then some (Op.amoxor_w rd rs1 rs2 aqrl)
    else if func == 0b01100
    then some (Op.amoand_w rd rs1 rs2 aqrl)
    else if func == 0b01000
    then some (Op.amoor_w rd rs1 rs2 aqrl)
    else if func == 0b10000
    then some (Op.amomin_w rd rs1 rs2 aqrl)
    else if func == 0b10100
    then some (Op.amomax_w rd rs1 rs2 aqrl)
    else if func == 0b11000
    then some (Op.amominu_w rd rs1 rs2 aqrl)
    else if func == 0b11100
    then some (Op.amomaxu_w rd rs1 rs2 aqrl)
    else some Op.illegal

unfoldable pub decode_amo_d : ℕ → ℕ → ℕ → ℕ → Op.Ordering → Option Op
decode_amo_d func rd rs1 rs2 aqrl =
    if func == 0b00010
    then (if not (rs2 == 0) then some Op.illegal else some (Op.lr_d rd rs1 aqrl))
    else if func == 0b00011
    then some (Op.sc_d rd rs1 rs2 aqrl)
    else if func == 0b00001
    then some (Op.amoswap_d rd rs1 rs2 aqrl)
    else if func == 0b00000
    then some (Op.amoadd_d rd rs1 rs2 aqrl)
    else if func == 0b00100
    then some (Op.amoxor_d rd rs1 rs2 aqrl)
    else if func == 0b01100
    then some (Op.amoand_d rd rs1 rs2 aqrl)
    else if func == 0b01000
    then some (Op.amoor_d rd rs1 rs2 aqrl)
    else if func == 0b10000
    then some (Op.amomin_d rd rs1 rs2 aqrl)
    else if func == 0b10100
    then some (Op.amomax_d rd rs1 rs2 aqrl)
    else if func == 0b11000
    then some (Op.amominu_d rd rs1 rs2 aqrl)
    else if func == 0b11100
    then some (Op.amomaxu_d rd rs1 rs2 aqrl)
    else some Op.illegal

unfoldable pub decode_amo : ℕ → ℕ → ℕ → ℕ → ℕ → Option Op
unfolding decode_aqrl decode_amo_w decode_amo_d
decode_amo bits function rd rs1 rs2 =
    let func = Fields.funct7 bits >>> 2 in
    elim (decode_aqrl (bit_and (Fields.funct7 bits) 3)) [
      | none ↦ none
      | some aqrl ↦
          if function == 0b010
          then decode_amo_w func rd rs1 rs2 aqrl
          else if function == 0b011
          then decode_amo_d func rd rs1 rs2 aqrl
          else some Op.illegal
    ]
