-- ===== src/Riscv/Tests.antt =====
-- Concrete runs of the decoder.
use r2vm.Base.{◌≡◌, inr, refl, arith, some}
use r2vm.Riscv.Op.{Op}
use r2vm.Riscv.Decode.{decode}
use r2vm.Riscv.Decode.Total.{decode-total}
use r2vm.Riscv.Compressed.{decode_compressed, quadrant1}
use r2vm.Riscv.Compressed.Fields
use r2vm.Riscv.Compressed.Expand.{decode_compressed-expands}
use r2vm.Riscv.Compressed.Total.{decode_compressed-total}
use r2vm.Riscv.Encode.{encode, IsEncodable}
use r2vm.Riscv.Encode.RoundTrip.{decode-encode}

-- ADDI x1, x2, -1.
decode-encode_example : decode (encode (Op.addi 1 2 0xffffffff)) ≡ some (Op.addi 1 2 0xffffffff)
decode-encode_example =
    decode-encode (Op.addi 1 2 0xffffffff)
      (omega arith, omega arith, inr (omega arith, omega arith))

decode-total_example : (op : Op) × (decode 0x00510093 ≡ some op)
decode-total_example = decode-total 0x00510093 refl

-- C.NOP.
decode_compressed-total_example : (op : Op) × (decode_compressed 1 ≡ some op)
decode_compressed-total_example = decode_compressed-total 1 (λ e. omega arith)

-- C.LI a0, 1.
li : decode_compressed 0x4505 ≡ some (Op.addi 10 0 1)
unfolding decode_compressed quadrant1 Fields.c_funct3 Fields.c_rd Fields.ci_imm
li = refl

decode_compressed-expands_example :
    IsEncodable (Op.addi 10 0 1) × (decode (encode (Op.addi 10 0 1)) ≡ some (Op.addi 10 0 1))
decode_compressed-expands_example = decode_compressed-expands 0x4505 li
