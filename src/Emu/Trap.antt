-- ===== src/Emu/Trap.antt =====
-- Traps: `trap`, `check_interrupt` and the returns MRET and SRET of `step`, in `src/emu/interp.rs`.
pub mod Status
pub mod Return
pub mod Interrupt
pub mod Alarm
use r2vm.Base.{
  ℕ, zero, suc, ◌+◌, ◌*◌, ◌-◌, ◌^◌, ◌/◌, Bool, true, false, ◌&&◌, ◌||◌, not, ◌==◌, ltb,
  if◌then◌else◌,
}
use r2vm.Base.{[], bit_and, bit_or, not64, is_set, is_clear, sll, ◌>>>◌, Option, none, some}
use r2vm.Emu.Context.{Context, Env, Outcome, ok, err, panic, SharedContext}
use r2vm.Emu.Context.{clear_caches, alert_if_pending, interrupt_pending}

-- The status word of a trap into S mode from privilege `prv`: SPP, SPIE, and SIE cleared.
unfoldable pub status_to_s : ℕ → ℕ → ℕ
status_to_s prv mstatus =
    let spp = if not (prv == 0) then bit_or mstatus 0x100 else bit_and mstatus (not64 0x100) in
    let spie = if is_set spp 0x2 then bit_or spp 0x20 else bit_and spp (not64 0x20) in
    bit_and spie (not64 0x2)

-- The status word of a trap into M mode: MPP, MPIE, and MIE cleared.
unfoldable pub status_to_m : ℕ → ℕ → ℕ
status_to_m prv mstatus =
    let mpp = bit_or (bit_and mstatus (not64 0x1800)) (sll 64 prv 11) in
    let mpie = if is_set mpp 0x8 then bit_or mpp 0x80 else bit_and mpp (not64 0x80) in
    bit_and mpie (not64 0x8)

-- Whether a trap with this cause is delegated to S mode.
unfoldable pub delegated : Context → Bool
delegated ctx =
    let deleg_reg = if not (ctx.cause >>> 63 == 0) then ctx.mideleg else ctx.medeleg in
    not (ctx.prv == 3) && not (bit_and (deleg_reg >>> bit_and ctx.cause 15) 1 == 0)

unfoldable pub trap_to_s : Context → Context
unfolding status_to_s clear_caches
trap_to_s ctx =
    let c = record ctx { scause = ctx.cause; stval = ctx.tval; sepc = ctx.pc } in
    let shared = if not (c.prv == 0) then c.shared else clear_caches c.shared in
    record c { shared = shared; mstatus = status_to_s ctx.prv ctx.mstatus; prv = 1; pc = ctx.stvec }

unfoldable pub trap_to_m : Context → Context
unfolding status_to_m clear_caches
trap_to_m ctx =
    let c = record ctx { mcause = ctx.cause; mtval = ctx.tval; mepc = ctx.pc } in
    let shared = if not (c.prv == 3) then clear_caches c.shared else c.shared in
    record c { shared = shared; mstatus = status_to_m ctx.prv ctx.mstatus; prv = 3; pc = ctx.mtvec }

-- `none` is a process exit (user-level emulation) or the panic of the `assert_eq!`. The pause of the
-- fiber at the end is left out.
unfoldable pub trap : Env → Context → Option Context
unfolding delegated trap_to_s trap_to_m
trap env ctx =
    if env.flags_prv == 0
    then none
    else if delegated ctx
    then some (trap_to_s ctx)
    else if env.flags_prv == 3
    then some (trap_to_m ctx)
    else none

-- `63 - mask.leading_zeros()` for a mask that is not zero: the highest bit that is set, searched
-- downwards from `n - 1`.
unfoldable pub highest_bit : ℕ → ℕ → ℕ
highest_bit zero mask = 0
highest_bit (suc n) mask = if is_set mask (2 ^ n) then n else highest_bit n mask

-- `err` is the `Err(())` that ends the fiber. The queued tasks are taken; they act on the code cache only,
-- which is no part of the context.
unfoldable pub check_interrupt : Env → Context → Outcome (Unit {0})
unfolding interrupt_pending trap
check_interrupt env ctx =
    let alarm = ctx.shared.alarm in
    let c = record ctx { shared = record ctx.shared { alarm = 0 } } in
    if is_set alarm 2
    then err c
    else let d = record c { shared = record c.shared { tasks = [] } } in
      if interrupt_pending d == 0
      then ok tt d
      else (elim (trap env
          (record d { cause = bit_or (2 ^ 63) (highest_bit 64 (interrupt_pending d)); tval = 0 })) [
            | none ↦ panic
            | some c' ↦ ok tt c'
          ])

-- The status word after MRET: MIE from MPIE, MPIE set, MPP cleared.
unfoldable pub status_of_mret : ℕ → ℕ
status_of_mret mstatus =
    let mie = bit_or (bit_and mstatus (not64 0x8)) (bit_and mstatus 0x80 >>> 4) in
    bit_and (bit_or mie 0x80) (not64 0x1800)

-- The status word after SRET: SIE from SPIE, SPIE set, SPP cleared.
unfoldable pub status_of_sret : ℕ → ℕ
status_of_sret mstatus =
    let sie = if is_set mstatus 0x20 then bit_or mstatus 0x2 else bit_and mstatus (not64 0x2) in
    bit_and (bit_or sie 0x20) (not64 0x100)

-- `Op::Mret`; `panic` is the `assert_ne!` on the reserved privilege 2.
unfoldable pub mret : Context → Outcome (Unit {0})
unfolding clear_caches alert_if_pending status_of_mret
mret ctx =
    let new_prv = bit_and ctx.mstatus 0x1800 >>> 11 in
    let c = record ctx { pc = ctx.mepc; prv = new_prv } in
    let shared = if not (new_prv == 3) then clear_caches c.shared else c.shared in
    let done = record c { shared = shared; mstatus = status_of_mret c.mstatus } in
    if new_prv == 2 then panic else ok tt (alert_if_pending done)

-- `Op::Sret`.
unfoldable pub sret : Context → Outcome (Unit {0})
unfolding clear_caches alert_if_pending status_of_sret
sret ctx =
    let c = record ctx { pc = ctx.sepc } in
    let from_s = is_set c.mstatus 0x100 in
    let shared = if from_s then c.shared else clear_caches c.shared in
    let prv : ℕ = if from_s then 1 else 0 in
    let done = record c { prv = prv; shared = shared; mstatus = status_of_sret c.mstatus } in
    ok tt (alert_if_pending done)
