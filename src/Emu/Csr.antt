-- ===== src/Emu/Csr.antt =====
-- `read_csr` and `write_csr` of `src/emu/interp.rs`. The arms that update more than one field are
-- functions of their own. The two registers of the `simcsr` feature are left out.
pub mod Arms
pub mod Alarm
pub mod Confined
pub mod ReadBack
use r2vm.Base.{
  ℕ, ◌-◌, ◌*◌, ◌^◌, min, Bool, true, false, ◌||◌, not, ◌==◌, if◌then◌else◌, Option, some, none,
}
use r2vm.Base.{bit_and, bit_or, not64, is_set, ◌>>>◌, u32, wrapping_sub}
use r2vm.Riscv.Csr
use r2vm.Riscv.Csr.{Csr}
use r2vm.Emu.Context.{
  Context, Env, SharedContext, Outcome, ok, err, panic, ◌>>=◌, raise, test_and_set_fs,
}
use r2vm.Emu.Context.{
  test_counter, get_mcycle, alert_if_pending, recheck_interrupt, clear_caches, assert,
}
use r2vm.Emu.Context.{deassert}

-- The status word as a register shows it: SD is FS = dirty, and UXL is 64-bit.
unfoldable pub shown_status : ℕ → ℕ
shown_status value =
    bit_or (if bit_and value 0x6000 == 0x6000 then bit_or value 0x8000000000000000 else value)
      0x200000000

-- The read of a register that has no side effect; `none` for a number that is not there.
unfoldable pub read_plain : Env → Context → Csr → Option ℕ
unfolding shown_status get_mcycle
read_plain env ctx csr =
    if csr == Csr.sstatus
    then some (shown_status (bit_and ctx.mstatus 0xC6122))
    else if csr == Csr.sie
    then some (bit_and ctx.mie ctx.mideleg)
    else if csr == Csr.stvec
    then some ctx.stvec
    else if csr == Csr.scounteren
    then some ctx.scounteren
    else if csr == Csr.sscratch
    then some ctx.sscratch
    else if csr == Csr.sepc
    then some ctx.sepc
    else if csr == Csr.scause
    then some ctx.scause
    else if csr == Csr.stval
    then some ctx.stval
    else if csr == Csr.sip
    then some (bit_and ctx.shared.mip ctx.mideleg)
    else if csr == Csr.satp
    then some ctx.satp
    else if csr == Csr.mvendorid || (csr == Csr.marchid || csr == Csr.mimpid)
    then some 0
    else if csr == Csr.mhartid
    then some ctx.hartid
    else if csr == Csr.mstatus
    then some (shown_status ctx.mstatus)
    else if csr == Csr.medeleg
    then some ctx.medeleg
    else if csr == Csr.mideleg
    then some ctx.mideleg
    else if csr == Csr.mie
    then some ctx.mie
    else if csr == Csr.mtvec
    then some ctx.mtvec
    else if csr == Csr.mcounteren
    then some ctx.mcounteren
    else if csr == Csr.mscratch
    then some ctx.mscratch
    else if csr == Csr.mepc
    then some ctx.mepc
    else if csr == Csr.mcause
    then some ctx.mcause
    else if csr == Csr.mtval
    then some ctx.mtval
    else if csr == Csr.mip
    then some ctx.shared.mip
    else if csr == Csr.mcycle
    then some (get_mcycle env ctx)
    else if csr == Csr.mtime
    then some env.time
    else if csr == Csr.minstret
    then some (wrapping_sub 64 ctx.instret 1)
    else none

-- `panic` is the `unimplemented!()` of MISA.
unfoldable pub read_csr : Env → Context → Csr → Outcome ℕ
unfolding read_plain test_and_set_fs test_counter get_mcycle raise
read_csr env ctx csr =
    if csr == Csr.fflags
    then test_and_set_fs env ctx >>= (λ _ c. ok c.shared.fflags c)
    else if csr == Csr.frm
    then test_and_set_fs env ctx >>= (λ _ c. ok c.frm c)
    else if csr == Csr.fcsr
    then test_and_set_fs env ctx >>= (λ _ c. ok (bit_or (u32 (c.frm * 2 ^ 5)) c.shared.fflags) c)
    else if csr == Csr.cycle
    then test_counter ctx 0 >>= (λ _ c. ok (get_mcycle env c) c)
    else if csr == Csr.time
    then test_counter ctx 1 >>= (λ _ c. ok env.time c)
    else if csr == Csr.instret
    then test_counter ctx 2 >>= (λ _ c. ok (wrapping_sub 64 c.instret 1) c)
    else if csr == Csr.misa
    then panic
    else elim (read_plain env ctx csr) [ some value ↦ ok value ctx | none ↦ raise ctx 2 0 ]

-- `x & !mask | value & mask`.
unfoldable pub masked : ℕ → ℕ → ℕ → ℕ
masked mask x value = bit_or (bit_and x (not64 mask)) (bit_and value mask)

module _ (ctx : Context) (value : ℕ) where
  -- A write to a status register: `writable` are its bits, `flushing` those that change translation.
  unfoldable pub write_status : ℕ → ℕ → Context
  unfolding masked alert_if_pending clear_caches
  write_status writable flushing =
      let c = alert_if_pending (record ctx { mstatus = masked writable ctx.mstatus value }) in
      if bit_and ctx.mstatus flushing == bit_and c.mstatus flushing
      then c
      else record c { shared = clear_caches c.shared }

  unfoldable pub write_sie : Context
  unfolding masked recheck_interrupt
  write_sie = recheck_interrupt (record ctx { mie = masked ctx.mideleg ctx.mie value })

  -- Only the software interrupt can be changed, and only when it is delegated.
  unfoldable pub write_sip : Context
  unfolding assert deassert
  write_sip =
      if is_set ctx.mideleg 0x2
      then record ctx {
        shared = if is_set value 0x2 then assert ctx.shared 2 else deassert ctx.shared 2;
      }
      else ctx

  unfoldable pub write_satp : Context
  unfolding clear_caches
  write_satp =
      let mode = value >>> 60 in
      record ctx {
        satp = if mode == 0 then 0 else if mode == 8 then value else ctx.satp;
        shared = clear_caches ctx.shared;
      }

  unfoldable pub write_mideleg : Context
  unfolding alert_if_pending
  write_mideleg = alert_if_pending (record ctx { mideleg = bit_and value 0x222 })

  unfoldable pub write_mie : Context
  unfolding recheck_interrupt
  write_mie = recheck_interrupt (record ctx { mie = bit_and value 0xAAA })

  unfoldable pub write_mip : Context
  unfolding assert deassert
  write_mip = record ctx {
    shared = assert (deassert ctx.shared (bit_and 0x222 (not64 value))) (bit_and 0x222 value);
  }

  -- A register with the mode bit 1: only mode 0 is supported.
  unfoldable pub write_tvec : ℕ → ℕ
  write_tvec old = if is_set value 2 then old else value

  -- The registers of S mode.
  unfoldable pub write_supervisor : Csr → Option Context
  unfolding write_status write_sie write_sip write_satp write_tvec
  write_supervisor csr =
      if csr == Csr.sstatus
      then some (write_status 0xC6122 0xC0000)
      else if csr == Csr.sie
      then some write_sie
      else if csr == Csr.stvec
      then some (record ctx { stvec = write_tvec ctx.stvec })
      else if csr == Csr.scounteren
      then some (record ctx { scounteren = bit_and value 7 })
      else if csr == Csr.sscratch
      then some (record ctx { sscratch = value })
      else if csr == Csr.sepc
      then some (record ctx { sepc = bit_and value (not64 1) })
      else if csr == Csr.scause
      then some (record ctx { scause = value })
      else if csr == Csr.stval
      then some (record ctx { stval = value })
      else if csr == Csr.sip
      then some write_sip
      else if csr == Csr.satp
      then some write_satp
      else none

  -- The registers of M mode.
  unfoldable pub write_machine : Csr → Option Context
  unfolding write_status write_mideleg write_mie write_mip write_tvec
  write_machine csr =
      if csr == Csr.mstatus
      then some (write_status 0x7E79AA 0xE1800)
      else if csr == Csr.misa
      then some ctx
      else if csr == Csr.medeleg
      then some (record ctx { medeleg = bit_and value 0xB35D })
      else if csr == Csr.mideleg
      then some write_mideleg
      else if csr == Csr.mie
      then some write_mie
      else if csr == Csr.mtvec
      then some (record ctx { mtvec = write_tvec ctx.mtvec })
      else if csr == Csr.mcounteren
      then some (record ctx { mcounteren = bit_and value 7 })
      else if csr == Csr.mscratch
      then some (record ctx { mscratch = value })
      else if csr == Csr.mepc
      then some (record ctx { mepc = bit_and value (not64 1) })
      else if csr == Csr.mcause
      then some (record ctx { mcause = value })
      else if csr == Csr.mtval
      then some (record ctx { mtval = value })
      else if csr == Csr.mip
      then some write_mip
      else if csr == Csr.minstret
      then some (record ctx { instret = value })
      else none

-- The rounding mode is cut to its five values.
unfoldable pub rounding_mode : ℕ → ℕ
rounding_mode value = min (bit_and value 7) 4

-- A write to a floating-point register, after `test_and_set_fs`.
module _ (value : ℕ) (c : Context) where
  unfoldable pub write_fflags : Context
  write_fflags = record c { shared = record c.shared { fflags = bit_and value 31 } }

  unfoldable pub write_frm : Context
  unfolding rounding_mode
  write_frm = record c { frm = rounding_mode value }

  unfoldable pub write_fcsr : Context
  unfolding rounding_mode
  write_fcsr = record c {
    shared = record c.shared { fflags = bit_and value 31 };
    frm = rounding_mode (value >>> 5);
  }

-- The write that one of the two groups has, or an illegal instruction.
unfoldable pub written_or_illegal : Context → Option Context → Option Context → Outcome (Unit {0})
unfolding raise
written_or_illegal ctx (some c) m = ok tt c
written_or_illegal ctx none (some c) = ok tt c
written_or_illegal ctx none none = raise ctx 2 0

unfoldable pub write_csr : Env → Context → Csr → ℕ → Outcome (Unit {0})
unfolding test_and_set_fs write_fflags write_frm write_fcsr write_supervisor write_machine
    written_or_illegal
write_csr env ctx csr value =
    if csr == Csr.fflags
    then test_and_set_fs env ctx >>= (λ _ c. ok tt (write_fflags value c))
    else if csr == Csr.frm
    then test_and_set_fs env ctx >>= (λ _ c. ok tt (write_frm value c))
    else if csr == Csr.fcsr
    then test_and_set_fs env ctx >>= (λ _ c. ok tt (write_fcsr value c))
    else written_or_illegal ctx (write_supervisor ctx value csr) (write_machine ctx value csr)
