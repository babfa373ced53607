-- ===== src/Riscv/Compressed/Ranges.antt =====
-- The ranges of the fields of a 16-bit instruction.
use r2vm.Base.{ℕ, ◌/◌, ◌%◌, ◌^◌, ◌<◌, ◌≡◌, inl, arith}
use r2vm.Base.{
  bit_and, bit_and-field, bit_and-mask, bit_or-lt, bit_or-even, bit_or-IsSigned, IsSigned, sra, sll,
}
use r2vm.Riscv.Compressed.Fields

module _ (bits : ℕ) where
  pub c_rd-lt : Fields.c_rd bits < 32
  unfolding Fields.c_rd
  c_rd-lt = ground (arith, bit_and-mask 5 (bits / 2 ^ 7))

  pub c_rs2-lt : Fields.c_rs2 bits < 32
  unfolding Fields.c_rs2
  c_rs2-lt = ground (arith, bit_and-mask 5 (bits / 2 ^ 2))

  pub c_rds-lt : Fields.c_rds bits < 32
  unfolding Fields.c_rds
  c_rds-lt = ground (arith, bit_and-mask 3 (bits / 2 ^ 2))

  pub c_rs1s-lt : Fields.c_rs1s bits < 32
  unfolding Fields.c_rs1s
  c_rs1s-lt = ground (arith, bit_and-mask 3 (bits / 2 ^ 7))

  -- The sign bit, bit 12, moved down with its copies above.
  sign6 : IsSigned 6 (sra 32 (sll 32 (bit_and bits 0x1000) 19) 26)
  sign6 = ground (arith, bit_and-field 12 1 bits)

  sign10 : IsSigned 10 (sra 32 (sll 32 (bit_and bits 0x1000) 19) 22)
  sign10 = ground (arith, bit_and-field 12 1 bits)

  sign9 : IsSigned 9 (sra 32 (sll 32 (bit_and bits 0x1000) 19) 23)
  sign9 = ground (arith, bit_and-field 12 1 bits)

  sign12 : IsSigned 12 (sra 32 (sll 32 (bit_and bits 0x1000) 19) 20)
  sign12 = ground (arith, bit_and-field 12 1 bits)

  pub ci_lwsp_imm-lt : Fields.ci_lwsp_imm bits < 2 ^ 11
  unfolding Fields.ci_lwsp_imm
  ci_lwsp_imm-lt =
      bit_or-lt 11 _ _
        (bit_or-lt 11 _ _ (ground (arith, bit_and-field 2 2 bits))
          (ground (arith, bit_and-field 12 1 bits)))
        (ground (arith, bit_and-field 4 3 bits))

  pub ci_ldsp_imm-lt : Fields.ci_ldsp_imm bits < 2 ^ 11
  unfolding Fields.ci_ldsp_imm
  ci_ldsp_imm-lt =
      bit_or-lt 11 _ _
        (bit_or-lt 11 _ _ (ground (arith, bit_and-field 2 3 bits))
          (ground (arith, bit_and-field 12 1 bits)))
        (ground (arith, bit_and-field 5 2 bits))

  pub css_swsp_imm-lt : Fields.css_swsp_imm bits < 2 ^ 11
  unfolding Fields.css_swsp_imm
  css_swsp_imm-lt =
      bit_or-lt 11 _ _ (ground (arith, bit_and-field 7 2 bits))
        (ground (arith, bit_and-field 9 4 bits))

  pub css_sdsp_imm-lt : Fields.css_sdsp_imm bits < 2 ^ 11
  unfolding Fields.css_sdsp_imm
  css_sdsp_imm-lt =
      bit_or-lt 11 _ _ (ground (arith, bit_and-field 7 3 bits))
        (ground (arith, bit_and-field 10 3 bits))

  pub ciw_imm-lt : Fields.ciw_imm bits < 2 ^ 11
  unfolding Fields.ciw_imm
  ciw_imm-lt =
      bit_or-lt 11 _ _
        (bit_or-lt 11 _ _
          (bit_or-lt 11 _ _ (ground (arith, bit_and-field 7 4 bits))
            (ground (arith, bit_and-field 11 2 bits)))
          (ground (arith, bit_and-field 5 1 bits)))
        (ground (arith, bit_and-field 6 1 bits))

  pub cl_lw_imm-lt : Fields.cl_lw_imm bits < 2 ^ 11
  unfolding Fields.cl_lw_imm
  cl_lw_imm-lt =
      bit_or-lt 11 _ _
        (bit_or-lt 11 _ _ (ground (arith, bit_and-field 5 1 bits))
          (ground (arith, bit_and-field 10 3 bits)))
        (ground (arith, bit_and-field 6 1 bits))

  pub cl_ld_imm-lt : Fields.cl_ld_imm bits < 2 ^ 11
  unfolding Fields.cl_ld_imm
  cl_ld_imm-lt =
      bit_or-lt 11 _ _ (ground (arith, bit_and-field 5 2 bits))
        (ground (arith, bit_and-field 10 3 bits))

  pub ci_imm-IsSigned : IsSigned 6 (Fields.ci_imm bits)
  unfolding Fields.ci_imm
  ci_imm-IsSigned =
      bit_or-IsSigned 6 _ _ (omega arith) sign6 (inl (ground (arith, bit_and-field 2 5 bits)))

  pub ci_addi16sp_imm-IsSigned : IsSigned 10 (Fields.ci_addi16sp_imm bits)
  unfolding Fields.ci_addi16sp_imm
  ci_addi16sp_imm-IsSigned =
      bit_or-IsSigned 10 _ _ (omega arith)
        (bit_or-IsSigned 10 _ _ (omega arith)
          (bit_or-IsSigned 10 _ _ (omega arith)
            (bit_or-IsSigned 10 _ _ (omega arith) sign10
              (inl (ground (arith, bit_and-field 3 2 bits))))
            (inl (ground (arith, bit_and-field 5 1 bits))))
          (inl (ground (arith, bit_and-field 2 1 bits))))
        (inl (ground (arith, bit_and-field 6 1 bits)))

  pub cb_imm-IsSigned : IsSigned 9 (Fields.cb_imm bits)
  unfolding Fields.cb_imm
  cb_imm-IsSigned =
      bit_or-IsSigned 9 _ _ (omega arith)
        (bit_or-IsSigned 9 _ _ (omega arith)
          (bit_or-IsSigned 9 _ _ (omega arith)
            (bit_or-IsSigned 9 _ _ (omega arith) sign9
              (inl (ground (arith, bit_and-field 5 2 bits))))
            (inl (ground (arith, bit_and-field 2 1 bits))))
          (inl (ground (arith, bit_and-field 10 2 bits))))
        (inl (ground (arith, bit_and-field 3 2 bits)))

  pub cb_imm-even : Fields.cb_imm bits % 2 ≡ 0
  unfolding Fields.cb_imm
  cb_imm-even =
      bit_or-even _ _
        (bit_or-even _ _
          (bit_or-even _ _
            (bit_or-even _ _ (ground (arith, bit_and-field 12 1 bits))
              (ground (arith, bit_and-field 5 2 bits)))
            (ground (arith, bit_and-field 2 1 bits)))
          (ground (arith, bit_and-field 10 2 bits)))
        (ground (arith, bit_and-field 3 2 bits))

  pub cj_imm-IsSigned : IsSigned 12 (Fields.cj_imm bits)
  unfolding Fields.cj_imm
  cj_imm-IsSigned =
      bit_or-IsSigned 12 _ _ (omega arith)
        (bit_or-IsSigned 12 _ _ (omega arith)
          (bit_or-IsSigned 12 _ _ (omega arith)
            (bit_or-IsSigned 12 _ _ (omega arith)
              (bit_or-IsSigned 12 _ _ (omega arith)
                (bit_or-IsSigned 12 _ _ (omega arith)
                  (bit_or-IsSigned 12 _ _ (omega arith) sign12
                    (inl (ground (arith, bit_and-field 8 1 bits))))
                  (inl (ground (arith, bit_and-field 9 2 bits))))
                (inl (ground (arith, bit_and-field 6 1 bits))))
              (inl (ground (arith, bit_and-field 7 1 bits))))
            (inl (ground (arith, bit_and-field 2 1 bits))))
          (inl (ground (arith, bit_and-field 11 1 bits))))
        (inl (ground (arith, bit_and-field 3 3 bits)))

  pub cj_imm-even : Fields.cj_imm bits % 2 ≡ 0
  unfolding Fields.cj_imm
  cj_imm-even =
      bit_or-even _ _
        (bit_or-even _ _
          (bit_or-even _ _
            (bit_or-even _ _
              (bit_or-even _ _
                (bit_or-even _ _
                  (bit_or-even _ _ (ground (arith, bit_and-field 12 1 bits))
                    (ground (arith, bit_and-field 8 1 bits)))
                  (ground (arith, bit_and-field 9 2 bits)))
                (ground (arith, bit_and-field 6 1 bits)))
              (ground (arith, bit_and-field 7 1 bits)))
            (ground (arith, bit_and-field 2 1 bits)))
          (ground (arith, bit_and-field 11 1 bits)))
        (ground (arith, bit_and-field 3 3 bits))
