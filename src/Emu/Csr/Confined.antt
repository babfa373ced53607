-- ===== src/Emu/Csr/Confined.antt =====
-- Writes to the control registers of user and supervisor mode do not reach machine mode's state.
use r2vm.Base.{ℕ, ◌^◌, ◌/◌, ◌<◌, ◌≡◌, refl, arith, Bool, Bool-cases, true, false, not, ◌==◌}
use r2vm.Base.{
  if◌then◌else◌, bit_and, bit_or, bit_and-mask, not64, flag, is_set, is_set-flag, flag-bit_or,
  flag-bit_and, flag-complement,
}
use r2vm.Base.{List, ◌∙◌, Option, some, none, inl, inr, flag-set, flag-clear}
use r2vm.Riscv.Csr
use r2vm.Riscv.Csr.{Csr, min_prv_level}
use r2vm.Emu.Context.{
  Context, Env, Outcome, Leaves, ok, ◌>>=◌, test_and_set_fs, clear_caches, raise,
}
use r2vm.Emu.Context.{
  clear_local_cache, clear_local_icache, alert_if_pending, recheck_interrupt, assert, deassert,
  alert, fire_alarm, interrupt_pending, SharedContext,
}
use r2vm.Emu.Csr.{
  masked, write_csr, written_or_illegal, write_supervisor, write_machine, write_status, write_sie,
}
use r2vm.Emu.Csr.{write_tvec, write_sip, write_satp, write_fflags, write_frm, write_fcsr}

-- What a hart's other modes may not change, but for bits of three registers: the registers of machine
-- mode, and the execution state.
pub record MachineState : Type 0 where
  pub prv : ℕ
  pub mideleg : ℕ
  pub medeleg : ℕ
  pub mtvec : ℕ
  pub mepc : ℕ
  pub mcause : ℕ
  pub mtval : ℕ
  pub mscratch : ℕ
  pub mcounteren : ℕ
  pub pc : ℕ
  pub registers : List ℕ

abbrev pub machine : Context → MachineState
machine ctx = record {
  prv = ctx.prv;
  mideleg = ctx.mideleg;
  medeleg = ctx.medeleg;
  mtvec = ctx.mtvec;
  mepc = ctx.mepc;
  mcause = ctx.mcause;
  mtval = ctx.mtval;
  mscratch = ctx.mscratch;
  mcounteren = ctx.mcounteren;
  pc = ctx.pc;
  registers = ctx.registers;
}

-- What machine mode relies on is in `c` as it was in `ctx`: its own registers, the bits of the status
-- word outside the supervisor's view, and the interrupts that are not delegated.
pub record IsConfined (ctx c : Context) : Type 0 where
  pub same_machine : machine c ≡ machine ctx
  pub same_status : (i : ℕ) → i < 64 → flag 0xC6122 i ≡ 0 → flag c.mstatus i ≡ flag ctx.mstatus i
  pub same_mie : (i : ℕ) → i < 64 → flag ctx.mideleg i ≡ 0 → flag c.mie i ≡ flag ctx.mie i
  pub same_mip :
      (i : ℕ) → i < 64 → flag ctx.mideleg i ≡ 0 → flag c.shared.mip i ≡ flag ctx.shared.mip i

-- The bits of `mask` come from `value`, the others from `x`.
pub flag-masked :
    (mask x value i : ℕ)
    → i < 64
    → mask < 2 ^ 64
    → flag (masked mask x value) i ≡ (if flag mask i == 1 then flag value i else flag x i)
unfolding masked
flag-masked mask x value i h hm = ground (
  arith,
  flag-bit_or (bit_and x (not64 mask)) (bit_and value mask) i,
  flag-bit_and x (not64 mask) i,
  flag-bit_and value mask i,
  flag-complement 64 mask i hm h,
)

data AllConfined (ctx : Context) : Option Context → Type 0 where
  nowhere : AllConfined ctx none
  confined : (c : Context) → IsConfined ctx c → AllConfined ctx (some c)

choose :
    {ctx : Context} (b : Bool) {x y : Option Context}
    → AllConfined ctx x
    → AllConfined ctx y
    → AllConfined ctx (if b then x else y)
choose true p q = p
choose false p q = q

-- A write outside the three registers that are shared bit by bit.
IsConfined-plain :
    (ctx c : Context)
    → machine c ≡ machine ctx
    → c.mstatus ≡ ctx.mstatus
    → c.mie ≡ ctx.mie
    → c.shared.mip ≡ ctx.shared.mip
    → IsConfined ctx c
IsConfined-plain ctx c m e f g = record {
  same_machine = m;
  same_status = λ i h k. rw e refl;
  same_mie = λ i h k. rw f refl;
  same_mip = λ i h k. rw g refl;
}

mip-alert : (c : Context) → (alert_if_pending c).shared.mip ≡ c.shared.mip
unfolding alert_if_pending alert fire_alarm
mip-alert c = elim (Bool-cases (interrupt_pending c == 0)) [ inl e ↦ rw e refl | inr e ↦ rw e refl ]

mip-recheck : (c : Context) → (recheck_interrupt c).shared.mip ≡ c.shared.mip
unfolding recheck_interrupt fire_alarm
mip-recheck c = elim (Bool-cases (bit_and c.shared.mip c.mie == 0)) [
  | inl e ↦ rw e refl
  | inr e ↦
      rw e (elim (Bool-cases (interrupt_pending c == 0)) [ inl q ↦ rw q refl | inr q ↦ rw q refl ])
]

mip-assert : (s : SharedContext) (mask : ℕ) → (assert s mask).mip ≡ bit_or s.mip mask
unfolding assert alert fire_alarm
mip-assert s mask = elim (Bool-cases (bit_and s.mip mask == mask)) [
  | inl e ↦ rw e refl
  | inr e ↦ rw e refl
]

status-IsConfined :
    (c : Context) (v : ℕ) (s : SharedContext)
    → s.mip ≡ c.shared.mip
    → IsConfined c (record c { mstatus = masked 0xC6122 c.mstatus v; shared = s })
status-IsConfined c v s e = record {
  same_machine = refl;
  same_status = λ i h k. ground (arith, flag-masked 0xC6122 c.mstatus v i h (omega arith), k);
  same_mie = λ i h k. refl;
  same_mip = λ i h k. rw e refl;
}

write_sstatus-IsConfined : (c : Context) (v : ℕ) → IsConfined c (write_status c v 0xC6122 0xC0000)
unfolding write_status clear_caches clear_local_cache clear_local_icache alert_if_pending
write_sstatus-IsConfined c v =
    let d : Context = alert_if_pending (record c { mstatus = masked 0xC6122 c.mstatus v }) in
    let e : d.shared.mip ≡ c.shared.mip =
      mip-alert (record c { mstatus = masked 0xC6122 c.mstatus v }) in
    elim (Bool-cases (bit_and c.mstatus 0xC0000 == bit_and d.mstatus 0xC0000)) [
      | inl t ↦ rw t (status-IsConfined c v d.shared e)
      | inr t ↦ rw t (status-IsConfined c v (clear_caches d.shared) e)
    ]

write_sie-IsConfined : (c : Context) (v : ℕ) → c.mideleg < 2 ^ 64 → IsConfined c (write_sie c v)
unfolding write_sie recheck_interrupt
write_sie-IsConfined c v hm = record {
  same_machine = refl;
  same_status = λ i h k. refl;
  same_mie = λ i h k. ground (arith, flag-masked c.mideleg c.mie v i h hm, k);
  same_mip = λ i h k. rw (mip-recheck (record c { mie = masked c.mideleg c.mie v })) refl;
}

sip-IsConfined :
    (c : Context) (s : SharedContext)
    → ((i : ℕ) → i < 64 → flag c.mideleg i ≡ 0 → flag s.mip i ≡ flag c.shared.mip i)
    → IsConfined c (record c { shared = s })
sip-IsConfined c s e = record {
  same_machine = refl;
  same_status = λ i h k. refl;
  same_mie = λ i h k. refl;
  same_mip = e;
}

write_sip-IsConfined : (c : Context) (v : ℕ) → IsConfined c (write_sip c v)
unfolding write_sip deassert
write_sip-IsConfined c v = elim (Bool-cases (is_set c.mideleg 0x2)) [
  | inl e ↦ rw e (elim (Bool-cases (is_set v 0x2)) [
    | inl q ↦ rw q (
        sip-IsConfined c (assert c.shared 2) (λ i h k.
          rw (mip-assert c.shared 2)
            (ground (arith, e, k, flag-set c.shared.mip 1 i, is_set-flag c.mideleg 1))))
    | inr q ↦ rw q (
        sip-IsConfined c (deassert c.shared 2) (λ i h k.
          ground
            (arith, e, k, flag-clear 64 c.shared.mip 1 i (omega arith) h, is_set-flag c.mideleg 1)))
  ])
  | inr e ↦ rw e (IsConfined-plain c c refl refl refl refl)
]

write_supervisor-IsConfined :
    (c : Context) (v : ℕ) (csr : Csr)
    → c.mideleg < 2 ^ 64
    → AllConfined c (write_supervisor c v csr)
unfolding write_supervisor write_satp clear_caches clear_local_cache clear_local_icache
write_supervisor-IsConfined c v csr hm =
    choose (csr == Csr.sstatus)
      (confined (write_status c v 0xC6122 0xC0000) (write_sstatus-IsConfined c v))
      (choose (csr == Csr.sie) (confined (write_sie c v) (write_sie-IsConfined c v hm)) (
        choose (csr == Csr.stvec)
          (confined (record c { stvec = write_tvec c v c.stvec })
            (IsConfined-plain c (record c { stvec = write_tvec c v c.stvec }) refl refl refl refl))
          (choose (csr == Csr.scounteren)
            (confined (record c { scounteren = bit_and v 7 })
              (IsConfined-plain c (record c { scounteren = bit_and v 7 }) refl refl refl refl))
            (choose (csr == Csr.sscratch)
              (confined (record c { sscratch = v })
                (IsConfined-plain c (record c { sscratch = v }) refl refl refl refl))
              (choose (csr == Csr.sepc)
                (confined (record c { sepc = bit_and v (not64 1) })
                  (IsConfined-plain c (record c { sepc = bit_and v (not64 1) }) refl refl refl
                    refl))
                (choose (csr == Csr.scause)
                  (confined (record c { scause = v })
                    (IsConfined-plain c (record c { scause = v }) refl refl refl refl))
                  (choose (csr == Csr.stval)
                    (confined (record c { stval = v })
                      (IsConfined-plain c (record c { stval = v }) refl refl refl refl))
                    (choose (csr == Csr.sip) (confined (write_sip c v) (write_sip-IsConfined c v)) (
                      choose (csr == Csr.satp)
                        (confined (write_satp c v)
                          (IsConfined-plain c (write_satp c v) refl refl refl refl))
                        nowhere)))))))))

-- A number that modes below machine mode can use is not in machine mode's group.
write_machine-none :
    (c : Context) (v : ℕ) (csr : Csr) → min_prv_level csr < 3 → write_machine c v csr ≡ none
unfolding write_machine min_prv_level
write_machine-none c v csr h = ground (arith, h, bit_and-mask 2 (csr / 2 ^ 8))

-- A further write outside the three registers.
float-IsConfined :
    (c d d' : Context)
    → IsConfined c d
    → machine d' ≡ machine d
    → d'.mstatus ≡ d.mstatus
    → d'.mie ≡ d.mie
    → d'.shared.mip ≡ d.shared.mip
    → IsConfined c d'
float-IsConfined c d d' p m e f g = record {
  same_machine = m ∙ p.same_machine;
  same_status = λ i h k. rw e (p.same_status i h k);
  same_mie = λ i h k. rw f (p.same_mie i h k);
  same_mip = λ i h k. rw g (p.same_mip i h k);
}

fs_confined : (i : ℕ) → flag 0xC6122 i ≡ 0 → flag 0x6000 i ≡ 0
fs_confined i k = omega (arith, flag-bit_or 0x6000 0xC0122 i, k)

test_and_set_fs-IsConfined :
    (env : Env) (c : Context) (k : Context → Outcome (Unit {0}))
    → ((d : Context) → IsConfined c d → Leaves (k d) (IsConfined c))
    → Leaves (test_and_set_fs env c >>= (λ _ d. k d)) (IsConfined c)
unfolding test_and_set_fs raise
test_and_set_fs-IsConfined env c k h = elim (Bool-cases (not env.float)) [
  | inl e ↦ rw e (IsConfined-plain c _ refl refl refl refl)
  | inr e ↦ rw e (elim (Bool-cases (bit_and c.mstatus 0x6000 == 0)) [
    | inl q ↦ rw q (IsConfined-plain c _ refl refl refl refl)
    | inr q ↦ rw q (
        h (record c { mstatus = bit_or c.mstatus 0x6000 })
          (record {
            same_machine = refl;
            same_status = λ i _ f. ground (arith, flag-bit_or c.mstatus 0x6000 i, fs_confined i f);
            same_mie = λ i _ f. refl;
            same_mip = λ i _ f. refl;
          }))
  ])
]

written_or_illegal-IsConfined :
    (c : Context) (o m : Option Context)
    → m ≡ none
    → AllConfined c o
    → Leaves (written_or_illegal c o m) (IsConfined c)
unfolding written_or_illegal raise
written_or_illegal-IsConfined c (some _) m e (confined d p) = p
written_or_illegal-IsConfined c none m e nowhere = rw e (IsConfined-plain c _ refl refl refl refl)

-- A write to a control register that modes below machine mode can use, with `mideleg` a 64-bit word:
-- whether it succeeds or is refused, it does not panic, it changes neither machine mode's own registers
-- nor the execution state, and of the status word and the interrupt registers it changes only the bits
-- of the supervisor's view and the delegated interrupts.
pub write_csr-IsConfined :
    (env : Env) (c : Context) (csr : Csr) (v : ℕ)
    → min_prv_level csr < 3
    → c.mideleg < 2 ^ 64
    → Leaves (write_csr env c csr v) (IsConfined c)
unfolding write_csr write_fflags write_frm write_fcsr
write_csr-IsConfined env c csr v h hm = elim (Bool-cases (csr == Csr.fflags)) [
  | inl e ↦ rw e (
      test_and_set_fs-IsConfined env c (λ d. ok tt (write_fflags v d))
        (λ d p. float-IsConfined c d (write_fflags v d) p refl refl refl refl))
  | inr e ↦ rw e (elim (Bool-cases (csr == Csr.frm)) [
    | inl q ↦ rw q (
        test_and_set_fs-IsConfined env c (λ d. ok tt (write_frm v d))
          (λ d p. float-IsConfined c d (write_frm v d) p refl refl refl refl))
    | inr q ↦ rw q (elim (Bool-cases (csr == Csr.fcsr)) [
      | inl r ↦ rw r (
          test_and_set_fs-IsConfined env c (λ d. ok tt (write_fcsr v d))
            (λ d p. float-IsConfined c d (write_fcsr v d) p refl refl refl refl))
      | inr r ↦ rw r (
          written_or_illegal-IsConfined c (write_supervisor c v csr) (write_machine c v csr)
            (write_machine-none c v csr h) (write_supervisor-IsConfined c v csr hm))
    ])
  ])
]
