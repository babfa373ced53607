-- ===== src/Riscv/Decode/Float.antt =====
-- The floating-point opcodes of `decode`.
use r2vm.Base.{ℕ, Option, some, not, ◌&&◌, if◌then◌else◌, ◌==◌, ltb, bit_and}
use r2vm.Riscv.Decode.Fields
use r2vm.Riscv.Op.{Op}

-- The macro `rm!`: a reserved rounding mode makes the instruction illegal.
unfoldable pub with_rm : ℕ → (ℕ → Op) → Option Op
with_rm rm k = if ltb 4 rm && not (rm == 0b111) then some Op.illegal else some (k rm)

unfoldable pub decode_fmadd : ℕ → ℕ → ℕ → ℕ → ℕ → Option Op
unfolding with_rm
decode_fmadd bits function rd rs1 rs2 =
    let format = bit_and (Fields.funct7 bits) 3 in
    let rs3 = Fields.rs3 bits in
    if format == 0b00
    then with_rm function (λ rm. Op.fmadd_s rd rs1 rs2 rs3 rm)
    else if format == 0b01
    then with_rm function (λ rm. Op.fmadd_d rd rs1 rs2 rs3 rm)
    else some Op.illegal

unfoldable pub decode_fmsub : ℕ → ℕ → ℕ → ℕ → ℕ → Option Op
unfolding with_rm
decode_fmsub bits function rd rs1 rs2 =
    let format = bit_and (Fields.funct7 bits) 3 in
    let rs3 = Fields.rs3 bits in
    if format == 0b00
    then with_rm function (λ rm. Op.fmsub_s rd rs1 rs2 rs3 rm)
    else if format == 0b01
    then with_rm function (λ rm. Op.fmsub_d rd rs1 rs2 rs3 rm)
    else some Op.illegal

unfoldable pub decode_fnmsub : ℕ → ℕ → ℕ → ℕ → ℕ → Option Op
unfolding with_rm
decode_fnmsub bits function rd rs1 rs2 =
    let format = bit_and (Fields.funct7 bits) 3 in
    let rs3 = Fields.rs3 bits in
    if format == 0b00
    then with_rm function (λ rm. Op.fnmsub_s rd rs1 rs2 rs3 rm)
    else if format == 0b01
    then with_rm function (λ rm. Op.fnmsub_d rd rs1 rs2 rs3 rm)
    else some Op.illegal

unfoldable pub decode_fnmadd : ℕ → ℕ → ℕ → ℕ → ℕ → Option Op
unfolding with_rm
decode_fnmadd bits function rd rs1 rs2 =
    let format = bit_and (Fields.funct7 bits) 3 in
    let rs3 = Fields.rs3 bits in
    if format == 0b00
    then with_rm function (λ rm. Op.fnmadd_s rd rs1 rs2 rs3 rm)
    else if format == 0b01
    then with_rm function (λ rm. Op.fnmadd_d rd rs1 rs2 rs3 rm)
    else some Op.illegal

-- The arms of OP-FP from FCVT.S.D on.
unfoldable pub decode_op_fp_convert : ℕ → ℕ → ℕ → ℕ → ℕ → Option Op
unfolding with_rm
decode_op_fp_convert function7 function rd rs1 rs2 =
    if function7 == 0b1100000
    then (if rs2 == 0b00000
        then with_rm function (λ rm. Op.fcvt_w_s rd rs1 rm)
        else if rs2 == 0b00001
        then with_rm function (λ rm. Op.fcvt_wu_s rd rs1 rm)
        else if rs2 == 0b00010
        then with_rm function (λ rm. Op.fcvt_l_s rd rs1 rm)
        else if rs2 == 0b00011
        then with_rm function (λ rm. Op.fcvt_lu_s rd rs1 rm)
        else some Op.illegal)
    else if function7 == 0b1100001
    then (if rs2 == 0b00000
        then with_rm function (λ rm. Op.fcvt_w_d rd rs1 rm)
        else if rs2 == 0b00001
        then with_rm function (λ rm. Op.fcvt_wu_d rd rs1 rm)
        else if rs2 == 0b00010
        then with_rm function (λ rm. Op.fcvt_l_d rd rs1 rm)
        else if rs2 == 0b00011
        then with_rm function (λ rm. Op.fcvt_lu_d rd rs1 rm)
        else some Op.illegal)
    else if function7 == 0b1110000
    then (if rs2 == 0b00000 && function == 0b000
        then some (Op.fmv_x_w rd rs1)
        else if rs2 == 0b00000 && function == 0b001
        then some (Op.fclass_s rd rs1)
        else some Op.illegal)
    else if function7 == 0b1110001
    then (if rs2 == 0b00000 && function == 0b000
        then some (Op.fmv_x_d rd rs1)
        else if rs2 == 0b00000 && function == 0b001
        then some (Op.fclass_d rd rs1)
        else some Op.illegal)
    else if function7 == 0b1010000
    then (if function == 0b000
        then some (Op.fle_s rd rs1 rs2)
        else if function == 0b001
        then some (Op.flt_s rd rs1 rs2)
        else if function == 0b010
        then some (Op.feq_s rd rs1 rs2)
        else some Op.illegal)
    else if function7 == 0b1010001
    then (if function == 0b000
        then some (Op.fle_d rd rs1 rs2)
        else if function == 0b001
        then some (Op.flt_d rd rs1 rs2)
        else if function == 0b010
        then some (Op.feq_d rd rs1 rs2)
        else some Op.illegal)
    else if function7 == 0b1101000
    then (if rs2 == 0b00000
        then with_rm function (λ rm. Op.fcvt_s_w rd rs1 rm)
        else if rs2 == 0b00001
        then with_rm function (λ rm. Op.fcvt_s_wu rd rs1 rm)
        else if rs2 == 0b00010
        then with_rm function (λ rm. Op.fcvt_s_l rd rs1 rm)
        else if rs2 == 0b00011
        then with_rm function (λ rm. Op.fcvt_s_lu rd rs1 rm)
        else some Op.illegal)
    else if function7 == 0b1101001
    then (if rs2 == 0b00000
        then with_rm function (λ rm. Op.fcvt_d_w rd rs1 rm)
        else if rs2 == 0b00001
        then with_rm function (λ rm. Op.fcvt_d_wu rd rs1 rm)
        else if rs2 == 0b00010
        then with_rm function (λ rm. Op.fcvt_d_l rd rs1 rm)
        else if rs2 == 0b00011
        then with_rm function (λ rm. Op.fcvt_d_lu rd rs1 rm)
        else some Op.illegal)
    else if function7 == 0b1111000
    then (if rs2 == 0b00000 && function == 0b000 then some (Op.fmv_w_x rd rs1) else some Op.illegal)
    else if function7 == 0b1111001
    then (if rs2 == 0b00000 && function == 0b000 then some (Op.fmv_d_x rd rs1) else some Op.illegal)
    else some Op.illegal

unfoldable pub decode_op_fp : ℕ → ℕ → ℕ → ℕ → ℕ → Option Op
unfolding with_rm decode_op_fp_convert
decode_op_fp bits function rd rs1 rs2 =
    let function7 = Fields.funct7 bits in
    if function7 == 0b0000000
    then with_rm function (λ rm. Op.fadd_s rd rs1 rs2 rm)
    else if function7 == 0b0000001
    then with_rm function (λ rm. Op.fadd_d rd rs1 rs2 rm)
    else if function7 == 0b0000100
    then with_rm function (λ rm. Op.fsub_s rd rs1 rs2 rm)
    else if function7 == 0b0000101
    then with_rm function (λ rm. Op.fsub_d rd rs1 rs2 rm)
    else if function7 == 0b0001000
    then with_rm function (λ rm. Op.fmul_s rd rs1 rs2 rm)
    else if function7 == 0b0001001
    then with_rm function (λ rm. Op.fmul_d rd rs1 rs2 rm)
    else if function7 == 0b0001100
    then with_rm function (λ rm. Op.fdiv_s rd rs1 rs2 rm)
    else if function7 == 0b0001101
    then with_rm function (λ rm. Op.fdiv_d rd rs1 rs2 rm)
    else if function7 == 0b0101100
    then (if rs2 == 0b00000 then with_rm function (λ rm. Op.fsqrt_s rd rs1 rm) else some Op.illegal)
    else if function7 == 0b0101101
    then (if rs2 == 0b00000 then with_rm function (λ rm. Op.fsqrt_d rd rs1 rm) else some Op.illegal)
    else if function7 == 0b0010000
    then (if function == 0b000
        then some (Op.fsgnj_s rd rs1 rs2)
        else if function == 0b001
        then some (Op.fsgnjn_s rd rs1 rs2)
        else if function == 0b010
        then some (Op.fsgnjx_s rd rs1 rs2)
        else some Op.illegal)
    else if function7 == 0b0010001
    then (if function == 0b000
        then some (Op.fsgnj_d rd rs1 rs2)
        else if function == 0b001
        then some (Op.fsgnjn_d rd rs1 rs2)
        else if function == 0b010
        then some (Op.fsgnjx_d rd rs1 rs2)
        else some Op.illegal)
    else if function7 == 0b0010100
    then (if function == 0b000
        then some (Op.fmin_s rd rs1 rs2)
        else if function == 0b001
        then some (Op.fmax_s rd rs1 rs2)
        else some Op.illegal)
    else if function7 == 0b0010101
    then (if function == 0b000
        then some (Op.fmin_d rd rs1 rs2)
        else if function == 0b001
        then some (Op.fmax_d rd rs1 rs2)
        else some Op.illegal)
    else if function7 == 0b0100000
    then (if rs2 == 0b00001
        then with_rm function (λ rm. Op.fcvt_s_d rd rs1 rm)
        else some Op.illegal)
    else if function7 == 0b0100001
    then (if rs2 == 0b00000
        then with_rm function (λ rm. Op.fcvt_d_s rd rs1 rm)
        else some Op.illegal)
    else decode_op_fp_convert function7 function rd rs1 rs2
