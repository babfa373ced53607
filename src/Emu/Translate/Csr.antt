-- ===== src/Emu/Translate/Csr.antt =====
-- A write to a control register that changes the translation flushes the caches.
use r2vm.Base.{
  ℕ, ap, ◌∙◌, length, ◌≡◌, inl, inr, refl, sym, arith, Bool, Bool-cases, ◌==◌, if◌then◌else◌,
}
use r2vm.Base.{true, false, bit_and, bit_or, not64, flag, flag-bit_and, flag-bit_or, is_set}
use r2vm.Emu.Context.{Context, Env, SharedContext, Leaves, clear_caches, alert_if_pending, alert}
use r2vm.Emu.Context.{fire_alarm, recheck_interrupt, assert, deassert, interrupt_pending}
use r2vm.Emu.Csr.{
  write_csr, write_status, write_sie, write_sip, write_satp, write_mideleg, write_mie,
}
use r2vm.Emu.Csr.{write_mip, write_fflags, write_frm, write_fcsr, masked}
use r2vm.Emu.Csr.Arms.{HoldsInArms, write_csr-Leaves}
use r2vm.Riscv.Csr.{Csr}
use r2vm.Emu.Translate.{MemoryModel}
use r2vm.Emu.Translate.Coherence.{HasCoherentCaches, IsCoherent}
use r2vm.Emu.Translate.Switch.{
  SameView, refl-SameView, flags-SameView, same-IsCoherent, clear_caches-IsCoherent,
}

-- The lines of both caches are the same.
pub record SameLines (s t : SharedContext) : Type 0 where
  pub data_lines : t.line ≡ s.line
  pub code_lines : t.i_line ≡ s.i_line

pub either_line :
    (b : Bool) (s t u : SharedContext)
    → SameLines s t
    → SameLines s u
    → SameLines s (if b then t else u)
either_line true s t u p q = p
either_line false s t u p q = q

pub refl-SameLines : (s : SharedContext) → SameLines s s
refl-SameLines s = record { data_lines = refl; code_lines = refl }

fire_alarm-SameLines : (s : SharedContext) (mask : ℕ) → SameLines s (fire_alarm s mask)
unfolding fire_alarm
fire_alarm-SameLines s mask = record { data_lines = refl; code_lines = refl }

pub alert_if_pending-SameLines : (c : Context) → SameLines c.shared (alert_if_pending c).shared
unfolding alert_if_pending alert
alert_if_pending-SameLines c =
    either_line (interrupt_pending c == 0) c.shared c.shared (alert c.shared)
      (refl-SameLines c.shared) (fire_alarm-SameLines c.shared 1)

recheck_interrupt-SameLines : (c : Context) → SameLines c.shared (recheck_interrupt c).shared
unfolding recheck_interrupt
recheck_interrupt-SameLines c =
    either_line (bit_and c.shared.mip c.mie == 0) c.shared c.shared _ (refl-SameLines c.shared) (
      either_line (interrupt_pending c == 0) c.shared (fire_alarm c.shared 0)
        (fire_alarm c.shared 1) (fire_alarm-SameLines c.shared 0) (fire_alarm-SameLines c.shared 1))

assert-SameLines : (s : SharedContext) (mask : ℕ) → SameLines s (assert s mask)
unfolding assert alert
assert-SameLines s mask =
    let s' = record s { mip = bit_or s.mip mask } in
    either_line (bit_and s.mip mask == mask) s s' (alert s')
      (record { data_lines = refl; code_lines = refl })
      (record {
        data_lines = (fire_alarm-SameLines s' 1).data_lines;
        code_lines = (fire_alarm-SameLines s' 1).code_lines;
      })

deassert-SameLines : (s : SharedContext) (mask : ℕ) → SameLines s (deassert s mask)
unfolding deassert
deassert-SameLines s mask = record { data_lines = refl; code_lines = refl }

-- Bits that a masked write does not reach.
flag-masked :
    (mask x v k : ℕ)
    → flag mask k ≡ 0
    → flag (not64 mask) k ≡ 1
    → flag (masked mask x v) k ≡ flag x k
unfolding masked
flag-masked mask x v k off on = omega (
  arith,
  flag-bit_or (bit_and x (not64 mask)) (bit_and v mask) k,
  flag-bit_and x (not64 mask) k,
  flag-bit_and v mask k,
  off,
  on,
)

-- A bit that a masked test finds unchanged.
flag-tested :
    (x y mask k : ℕ) → bit_and x mask ≡ bit_and y mask → flag mask k ≡ 1 → flag x k ≡ flag y k
flag-tested x y mask k same on =
    omega (arith, flag-bit_and x mask k, flag-bit_and y mask k, ap (λ (t : ℕ). flag t k) same, on)

module _ (model : MemoryModel) (read_memory : ℕ → ℕ) (c : Context)
    (coherent : HasCoherentCaches model read_memory c) (v : ℕ) where
  abbrev Fine : Context → Type 0
  Fine = HasCoherentCaches model read_memory

  -- Nothing that the translation reads is changed.
  kept :
      (status : ℕ) (t : SharedContext)
      → SameView c.prv status c.mstatus
      → SameLines c.shared t
      → IsCoherent model read_memory c.satp c.prv status t
  kept status t view lines =
      same-IsCoherent model read_memory c.satp c.prv status c.mstatus c.shared t view
        lines.data_lines lines.code_lines coherent

  moved :
      (t : SharedContext)
      → SameLines c.shared t
      → IsCoherent model read_memory c.satp c.prv c.mstatus t
  moved t lines = kept c.mstatus t (refl-SameView c.prv c.mstatus) lines

  flushed :
      (satp status : ℕ) (t : SharedContext)
      → SameLines c.shared t
      → IsCoherent model read_memory satp c.prv status (clear_caches t)
  flushed satp status t lines =
      clear_caches-IsCoherent model read_memory satp c.prv status t
        (ap length lines.data_lines ∙ coherent.size) (ap length lines.code_lines ∙ coherent.i_size)

  write_status-IsCoherent :
      (writable flushing : ℕ)
      → (bit_and c.mstatus flushing ≡ bit_and (masked writable c.mstatus v) flushing
          → SameView c.prv (masked writable c.mstatus v) c.mstatus)
      → Fine (write_status c v writable flushing)
  unfolding write_status alert_if_pending
  write_status-IsCoherent writable flushing view =
      let status = masked writable c.mstatus v in
      let w = record c { mstatus = status } in
      let d = alert_if_pending w in
      elim (Bool-cases (bit_and c.mstatus flushing == bit_and status flushing)) [
        | inl e ↦
            rw e (kept status d.shared (view (ground (arith, e))) (alert_if_pending-SameLines w))
        | inr e ↦ rw e (flushed c.satp status d.shared (alert_if_pending-SameLines w))
      ]

  mstatus_view :
      bit_and c.mstatus 0xE1800 ≡ bit_and (masked 0x7E79AA c.mstatus v) 0xE1800
      → SameView c.prv (masked 0x7E79AA c.mstatus v) c.mstatus
  mstatus_view e =
      flags-SameView c.prv (masked 0x7E79AA c.mstatus v) c.mstatus (tested 11 refl) (tested 12 refl)
        (tested 17 refl) (tested 18 refl) (tested 19 refl)
    where
      tested :
          (k : ℕ) → flag 0xE1800 k ≡ 1 → flag (masked 0x7E79AA c.mstatus v) k ≡ flag c.mstatus k
      tested k on = sym (flag-tested c.mstatus (masked 0x7E79AA c.mstatus v) 0xE1800 k e on)

  sstatus_view :
      bit_and c.mstatus 0xC0000 ≡ bit_and (masked 0xC6122 c.mstatus v) 0xC0000
      → SameView c.prv (masked 0xC6122 c.mstatus v) c.mstatus
  sstatus_view e =
      flags-SameView c.prv (masked 0xC6122 c.mstatus v) c.mstatus (untouched 11 refl refl)
        (untouched 12 refl refl) (untouched 17 refl refl) (tested 18 refl) (tested 19 refl)
    where
      tested : (k : ℕ) → flag 0xC0000 k ≡ 1 → flag (masked 0xC6122 c.mstatus v) k ≡ flag c.mstatus k
      tested k on = sym (flag-tested c.mstatus (masked 0xC6122 c.mstatus v) 0xC0000 k e on)

      untouched :
          (k : ℕ)
          → flag 0xC6122 k ≡ 0
          → flag (not64 0xC6122) k ≡ 1
          → flag (masked 0xC6122 c.mstatus v) k ≡ flag c.mstatus k
      untouched k = flag-masked 0xC6122 c.mstatus v k

  dirty_view : SameView c.prv (bit_or c.mstatus 0x6000) c.mstatus
  dirty_view =
      flags-SameView c.prv (bit_or c.mstatus 0x6000) c.mstatus (fs 11 refl) (fs 12 refl)
        (fs 17 refl) (fs 18 refl) (fs 19 refl)
    where
      fs : (k : ℕ) → flag 0x6000 k ≡ 0 → flag (bit_or c.mstatus 0x6000) k ≡ flag c.mstatus k
      fs k off = omega (arith, flag-bit_or c.mstatus 0x6000 k, off)

  sip-Fine : Fine (write_sip c v)
  unfolding write_sip
  sip-Fine = elim (Bool-cases (is_set c.mideleg 0x2)) [
    | inl e ↦ rw e (
        moved _ (
          either_line (is_set v 0x2) c.shared _ _ (assert-SameLines c.shared 2)
            (deassert-SameLines c.shared 2)))
    | inr e ↦ rw e coherent
  ]

  mip-SameLines : SameLines c.shared (write_mip c v).shared
  unfolding write_mip
  mip-SameLines =
      let s = deassert c.shared (bit_and 0x222 (not64 v)) in
      let p = deassert-SameLines c.shared (bit_and 0x222 (not64 v)) in
      let q = assert-SameLines s (bit_and 0x222 v) in
      record { data_lines = q.data_lines ∙ p.data_lines; code_lines = q.code_lines ∙ p.code_lines }

  arms_coherent : HoldsInArms Fine c v
  unfolding write_fflags write_frm write_fcsr write_sie write_satp write_mideleg write_mie write_mip
      alert_if_pending recheck_interrupt
  arms_coherent = record {
    refused = coherent;
    fflags = kept _ _ dirty_view (record { data_lines = refl; code_lines = refl });
    frm = kept _ _ dirty_view (refl-SameLines c.shared);
    fcsr = kept _ _ dirty_view (record { data_lines = refl; code_lines = refl });
    sstatus = write_status-IsCoherent 0xC6122 0xC0000 sstatus_view;
    sie = moved _ (recheck_interrupt-SameLines (record c { mie = masked c.mideleg c.mie v }));
    stvec = coherent;
    scounteren = coherent;
    sscratch = coherent;
    sepc = coherent;
    scause = coherent;
    stval = coherent;
    sip = sip-Fine;
    satp = flushed _ c.mstatus c.shared (refl-SameLines c.shared);
    mstatus = write_status-IsCoherent 0x7E79AA 0xE1800 mstatus_view;
    misa = coherent;
    medeleg = coherent;
    mideleg = moved _ (alert_if_pending-SameLines (record c { mideleg = bit_and v 0x222 }));
    mie = moved _ (recheck_interrupt-SameLines (record c { mie = bit_and v 0xAAA }));
    mtvec = coherent;
    mcounteren = coherent;
    mscratch = coherent;
    mepc = coherent;
    mcause = coherent;
    mtval = coherent;
    mip = moved _ mip-SameLines;
    minstret = coherent;
  }

  -- A write to any control register, whether it succeeds or is refused, leaves the caches coherent with
  -- the translation as it is then: what changes the translation flushes them.
  pub write_csr-HasCoherentCaches : (env : Env) (csr : Csr) → Leaves (write_csr env c csr v) Fine
  write_csr-HasCoherentCaches env csr = write_csr-Leaves Fine c v arms_coherent env csr
