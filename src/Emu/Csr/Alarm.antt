-- ===== src/Emu/Csr/Alarm.antt =====
-- A write to a control register loses no interrupt.
use r2vm.Base.{ℕ, ◌^◌, ◌≡◌, inl, inr, refl, arith, Bool, Bool-cases, true, false, not, ◌==◌}
use r2vm.Base.{
  if◌then◌else◌, bit_and, bit_or, not64, flag, is_set, is_set-flag, flag-bit_or, Option, some, none,
}
use r2vm.Riscv.Csr
use r2vm.Riscv.Csr.{Csr}
use r2vm.Emu.Context.{
  Context, Env, Outcome, Leaves, ok, ◌>>=◌, test_and_set_fs, clear_caches, raise,
}
use r2vm.Emu.Context.{
  clear_local_cache, clear_local_icache, alert_if_pending, deassert, interrupt_pending,
}
use r2vm.Emu.Csr.{
  masked, write_csr, written_or_illegal, write_supervisor, write_machine, write_status, write_sie,
  write_sip, write_satp,
}
use r2vm.Emu.Csr.{
  write_tvec, write_mideleg, write_mie, write_mip, write_fflags, write_frm, write_fcsr,
}
use r2vm.Emu.Alarm.{IsAlerted, same-IsAlerted, alert_if_pending-IsAlerted}
use r2vm.Emu.Alarm.{recheck_interrupt-IsAlerted, assert-IsAlerted, deassert-IsAlerted}

data AllAlerted : Option Context → Type 0 where
  nowhere : AllAlerted none
  alerted : (c : Context) → IsAlerted c → AllAlerted (some c)

choose :
    (b : Bool) {x y : Option Context}
    → AllAlerted x
    → AllAlerted y
    → AllAlerted (if b then x else y)
choose true p q = p
choose false p q = q

-- Flushing the caches does not touch the alarm.
clear_caches-IsAlerted :
    (c : Context) → IsAlerted c → IsAlerted (record c { shared = clear_caches c.shared })
unfolding clear_caches clear_local_cache clear_local_icache
clear_caches-IsAlerted c a =
    same-IsAlerted c (record c { shared = clear_caches c.shared }) refl refl refl refl refl refl
      refl a

write_status-IsAlerted : (c : Context) (v w f : ℕ) → IsAlerted (write_status c v w f)
unfolding write_status
write_status-IsAlerted c v w f =
    let written : Context = record c { mstatus = masked w c.mstatus v } in
    let d : Context = alert_if_pending written in
    elim (Bool-cases (bit_and c.mstatus f == bit_and d.mstatus f)) [
      | inl e ↦ rw e (alert_if_pending-IsAlerted written)
      | inr e ↦ rw e (clear_caches-IsAlerted d (alert_if_pending-IsAlerted written))
    ]

write_sip-IsAlerted : (c : Context) (v : ℕ) → IsAlerted c → IsAlerted (write_sip c v)
unfolding write_sip
write_sip-IsAlerted c v a = elim (Bool-cases (is_set c.mideleg 0x2)) [
  | inl e ↦ rw e (elim (Bool-cases (is_set v 0x2)) [
    | inl q ↦ rw q (assert-IsAlerted c 2 a)
    | inr q ↦ rw q (deassert-IsAlerted c 2 a)
  ])
  | inr e ↦ rw e a
]

write_satp-IsAlerted : (c : Context) (v : ℕ) → IsAlerted c → IsAlerted (write_satp c v)
unfolding write_satp clear_caches clear_local_cache clear_local_icache
write_satp-IsAlerted c v a = same-IsAlerted c (write_satp c v) refl refl refl refl refl refl refl a

write_mip-IsAlerted : (c : Context) (v : ℕ) → IsAlerted c → IsAlerted (write_mip c v)
unfolding write_mip
write_mip-IsAlerted c v a =
    assert-IsAlerted (record c { shared = deassert c.shared (bit_and 0x222 (not64 v)) })
      (bit_and 0x222 v) (deassert-IsAlerted c (bit_and 0x222 (not64 v)) a)

write_supervisor-IsAlerted :
    (c : Context) (v : ℕ) (csr : Csr) → IsAlerted c → AllAlerted (write_supervisor c v csr)
unfolding write_supervisor write_sie interrupt_pending
write_supervisor-IsAlerted c v csr a =
    choose (csr == Csr.sstatus)
      (alerted (write_status c v 0xC6122 0xC0000) (write_status-IsAlerted c v 0xC6122 0xC0000))
      (choose (csr == Csr.sie)
        (alerted (write_sie c v)
          (recheck_interrupt-IsAlerted (record c { mie = masked c.mideleg c.mie v })))
        (choose (csr == Csr.stvec) (alerted (record c { stvec = write_tvec c v c.stvec }) a) (
          choose (csr == Csr.scounteren) (alerted (record c { scounteren = bit_and v 7 }) a) (
            choose (csr == Csr.sscratch) (alerted (record c { sscratch = v }) a) (
              choose (csr == Csr.sepc) (alerted (record c { sepc = bit_and v (not64 1) }) a) (
                choose (csr == Csr.scause) (alerted (record c { scause = v }) a) (
                  choose (csr == Csr.stval) (alerted (record c { stval = v }) a) (
                    choose (csr == Csr.sip) (alerted (write_sip c v) (write_sip-IsAlerted c v a)) (
                      choose (csr == Csr.satp)
                        (alerted (write_satp c v) (write_satp-IsAlerted c v a)) nowhere)))))))))

write_machine-IsAlerted :
    (c : Context) (v : ℕ) (csr : Csr) → IsAlerted c → AllAlerted (write_machine c v csr)
unfolding write_machine write_mideleg write_mie interrupt_pending
write_machine-IsAlerted c v csr a =
    choose (csr == Csr.mstatus)
      (alerted (write_status c v 0x7E79AA 0xE1800) (write_status-IsAlerted c v 0x7E79AA 0xE1800))
      (choose (csr == Csr.misa) (alerted c a) (
        choose (csr == Csr.medeleg) (alerted (record c { medeleg = bit_and v 0xB35D }) a) (
          choose (csr == Csr.mideleg)
            (alerted (write_mideleg c v)
              (alert_if_pending-IsAlerted (record c { mideleg = bit_and v 0x222 })))
            (choose (csr == Csr.mie)
              (alerted (write_mie c v)
                (recheck_interrupt-IsAlerted (record c { mie = bit_and v 0xAAA })))
              (choose (csr == Csr.mtvec) (alerted (record c { mtvec = write_tvec c v c.mtvec }) a) (
                choose (csr == Csr.mcounteren) (alerted (record c { mcounteren = bit_and v 7 }) a) (
                  choose (csr == Csr.mscratch) (alerted (record c { mscratch = v }) a) (
                    choose (csr == Csr.mepc) (alerted (record c { mepc = bit_and v (not64 1) }) a) (
                      choose (csr == Csr.mcause) (alerted (record c { mcause = v }) a) (
                        choose (csr == Csr.mtval) (alerted (record c { mtval = v }) a) (
                          choose (csr == Csr.mip)
                            (alerted (write_mip c v) (write_mip-IsAlerted c v a))
                            (choose (csr == Csr.minstret) (alerted (record c { instret = v }) a)
                              nowhere))))))))))))

-- The floating-point unit is dirty now; bits 1 and 3 of the status word stay.
fs_kept : (m k : ℕ) → flag 0x6000 k ≡ 0 → is_set (bit_or m 0x6000) (2 ^ k) ≡ is_set m (2 ^ k)
fs_kept m k h =
    ground (arith, is_set-flag (bit_or m 0x6000) k, is_set-flag m k, flag-bit_or m 0x6000 k, h)

test_and_set_fs-IsAlerted :
    (env : Env) (c : Context)
    → IsAlerted c
    → {A : Type 0} (k : Context → Outcome A)
    → ((d : Context) → IsAlerted d → Leaves (k d) IsAlerted)
    → Leaves (test_and_set_fs env c >>= (λ _ d. k d)) IsAlerted
unfolding test_and_set_fs raise interrupt_pending
test_and_set_fs-IsAlerted env c a k h = elim (Bool-cases (not env.float)) [
  | inl e ↦ rw e a
  | inr e ↦ rw e (elim (Bool-cases (bit_and c.mstatus 0x6000 == 0)) [
    | inl q ↦ rw q a
    | inr q ↦ rw q (
        h (record c { mstatus = bit_or c.mstatus 0x6000 })
          (same-IsAlerted c (record c { mstatus = bit_or c.mstatus 0x6000 }) refl refl refl refl
            (fs_kept c.mstatus 1 refl) (fs_kept c.mstatus 3 refl) refl a))
  ])
]

written_or_illegal-IsAlerted :
    (c : Context)
    → IsAlerted c
    → (o m : Option Context) → AllAlerted o
    → AllAlerted m
    → Leaves (written_or_illegal c o m) IsAlerted
unfolding written_or_illegal raise interrupt_pending
written_or_illegal-IsAlerted c a (some _) m (alerted d p) q = p
written_or_illegal-IsAlerted c a none (some _) nowhere (alerted d p) = p
written_or_illegal-IsAlerted c a none none nowhere nowhere = a

-- A write to any control register keeps the alarm in step with the pending interrupts, whether the
-- write succeeds or is refused.
pub write_csr-IsAlerted :
    (env : Env) (c : Context) (csr : Csr) (v : ℕ)
    → IsAlerted c
    → Leaves (write_csr env c csr v) IsAlerted
unfolding write_csr write_fflags write_frm write_fcsr raise interrupt_pending
write_csr-IsAlerted env c csr v a = elim (Bool-cases (csr == Csr.fflags)) [
  | inl e ↦ rw e (test_and_set_fs-IsAlerted env c a (λ d. ok tt (write_fflags v d)) (λ d b. b))
  | inr e ↦ rw e (elim (Bool-cases (csr == Csr.frm)) [
    | inl q ↦ rw q (test_and_set_fs-IsAlerted env c a (λ d. ok tt (write_frm v d)) (λ d b. b))
    | inr q ↦ rw q (elim (Bool-cases (csr == Csr.fcsr)) [
      | inl r ↦ rw r (test_and_set_fs-IsAlerted env c a (λ d. ok tt (write_fcsr v d)) (λ d b. b))
      | inr r ↦ rw r (
          written_or_illegal-IsAlerted c a (write_supervisor c v csr) (write_machine c v csr)
            (write_supervisor-IsAlerted c v csr a) (write_machine-IsAlerted c v csr a))
    ])
  ])
]
