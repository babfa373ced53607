-- ===== src/Emu/Csr/Arms.antt =====
-- A property of the hart that each arm of `write_csr` establishes holds after `write_csr`.
use r2vm.Base.{ℕ, inl, inr, Bool, Bool-cases, true, false, not, ◌==◌, if◌then◌else◌}
use r2vm.Base.{bit_and, bit_or, not64, Option, some, none}
use r2vm.Riscv.Csr
use r2vm.Riscv.Csr.{Csr}
use r2vm.Emu.Context.{Context, Env, Leaves, ok, ◌>>=◌, test_and_set_fs, raise}
use r2vm.Emu.Csr.{
  write_csr, written_or_illegal, write_supervisor, write_machine, write_status, write_sie,
  write_sip, write_satp, write_tvec, write_mideleg, write_mie, write_mip, write_fflags, write_frm,
  write_fcsr,
}

abbrev pub illegal : Context → Context
illegal c = record c { cause = 2; tval = 0 }

abbrev pub dirty : Context → Context
dirty c = record c { mstatus = bit_or c.mstatus 0x6000 }

-- The property holds in every context that an arm can leave.
pub record HoldsInArms (P : Context → Type 0) (c : Context) (v : ℕ) : Type 0 where
  pub refused : P (illegal c)
  pub fflags : P (write_fflags v (dirty c))
  pub frm : P (write_frm v (dirty c))
  pub fcsr : P (write_fcsr v (dirty c))
  pub sstatus : P (write_status c v 0xC6122 0xC0000)
  pub sie : P (write_sie c v)
  pub stvec : P (record c { stvec = write_tvec c v c.stvec })
  pub scounteren : P (record c { scounteren = bit_and v 7 })
  pub sscratch : P (record c { sscratch = v })
  pub sepc : P (record c { sepc = bit_and v (not64 1) })
  pub scause : P (record c { scause = v })
  pub stval : P (record c { stval = v })
  pub sip : P (write_sip c v)
  pub satp : P (write_satp c v)
  pub mstatus : P (write_status c v 0x7E79AA 0xE1800)
  pub misa : P c
  pub medeleg : P (record c { medeleg = bit_and v 0xB35D })
  pub mideleg : P (write_mideleg c v)
  pub mie : P (write_mie c v)
  pub mtvec : P (record c { mtvec = write_tvec c v c.mtvec })
  pub mcounteren : P (record c { mcounteren = bit_and v 7 })
  pub mscratch : P (record c { mscratch = v })
  pub mepc : P (record c { mepc = bit_and v (not64 1) })
  pub mcause : P (record c { mcause = v })
  pub mtval : P (record c { mtval = v })
  pub mip : P (write_mip c v)
  pub minstret : P (record c { instret = v })

module _ (P : Context → Type 0) (c : Context) (v : ℕ) (arms : HoldsInArms P c v) where
  data Holds : Option Context → Type 0 where
    nowhere : Holds none
    holds : (d : Context) → P d → Holds (some d)

  choose : (b : Bool) {x y : Option Context} → Holds x → Holds y → Holds (if b then x else y)
  choose true p q = p
  choose false p q = q

  write_supervisor-Holds : (csr : Csr) → Holds (write_supervisor c v csr)
  unfolding write_supervisor
  write_supervisor-Holds csr = choose (csr == Csr.sstatus) (holds _ arms.sstatus) (
      choose (csr == Csr.sie) (holds _ arms.sie) (
        choose (csr == Csr.stvec) (holds _ arms.stvec) (
          choose (csr == Csr.scounteren) (holds _ arms.scounteren) (
            choose (csr == Csr.sscratch) (holds _ arms.sscratch) (
              choose (csr == Csr.sepc) (holds _ arms.sepc) (
                choose (csr == Csr.scause) (holds _ arms.scause) (
                  choose (csr == Csr.stval) (holds _ arms.stval) (
                    choose (csr == Csr.sip) (holds _ arms.sip)
                      (choose (csr == Csr.satp) (holds _ arms.satp) nowhere)))))))))

  write_machine-Holds : (csr : Csr) → Holds (write_machine c v csr)
  unfolding write_machine
  write_machine-Holds csr = choose (csr == Csr.mstatus) (holds _ arms.mstatus) (
      choose (csr == Csr.misa) (holds _ arms.misa) (
        choose (csr == Csr.medeleg) (holds _ arms.medeleg) (
          choose (csr == Csr.mideleg) (holds _ arms.mideleg) (
            choose (csr == Csr.mie) (holds _ arms.mie) (
              choose (csr == Csr.mtvec) (holds _ arms.mtvec) (
                choose (csr == Csr.mcounteren) (holds _ arms.mcounteren) (
                  choose (csr == Csr.mscratch) (holds _ arms.mscratch) (
                    choose (csr == Csr.mepc) (holds _ arms.mepc) (
                      choose (csr == Csr.mcause) (holds _ arms.mcause) (
                        choose (csr == Csr.mtval) (holds _ arms.mtval) (
                          choose (csr == Csr.mip) (holds _ arms.mip) (
                            choose (csr == Csr.minstret) (holds _ arms.minstret) nowhere))))))))))))

  test_and_set_fs-Leaves :
      (env : Env) (k : Context → Context)
      → P (k (dirty c))
      → Leaves (test_and_set_fs env c >>= (λ _ d. ok tt (k d))) P
  unfolding test_and_set_fs raise
  test_and_set_fs-Leaves env k p = elim (Bool-cases (not env.float)) [
    | inl e ↦ rw e arms.refused
    | inr e ↦ rw e (elim (Bool-cases (bit_and c.mstatus 0x6000 == 0)) [
      | inl q ↦ rw q arms.refused
      | inr q ↦ rw q p
    ])
  ]

  written_or_illegal-Leaves :
      (o m : Option Context) → Holds o → Holds m → Leaves (written_or_illegal c o m) P
  unfolding written_or_illegal raise
  written_or_illegal-Leaves (some _) m (holds d p) q = p
  written_or_illegal-Leaves none (some _) nowhere (holds d p) = p
  written_or_illegal-Leaves none none nowhere nowhere = arms.refused

  pub write_csr-Leaves : (env : Env) (csr : Csr) → Leaves (write_csr env c csr v) P
  unfolding write_csr
  write_csr-Leaves env csr = elim (Bool-cases (csr == Csr.fflags)) [
    | inl e ↦ rw e (test_and_set_fs-Leaves env (write_fflags v) arms.fflags)
    | inr e ↦ rw e (elim (Bool-cases (csr == Csr.frm)) [
      | inl q ↦ rw q (test_and_set_fs-Leaves env (write_frm v) arms.frm)
      | inr q ↦ rw q (elim (Bool-cases (csr == Csr.fcsr)) [
        | inl r ↦ rw r (test_and_set_fs-Leaves env (write_fcsr v) arms.fcsr)
        | inr r ↦ rw r (
            written_or_illegal-Leaves (write_supervisor c v csr) (write_machine c v csr)
              (write_supervisor-Holds csr) (write_machine-Holds csr))
      ])
    ])
  ]
