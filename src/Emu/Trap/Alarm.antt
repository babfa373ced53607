-- ===== src/Emu/Trap/Alarm.antt =====
-- A trap loses no interrupt: what can be taken in the new mode could be taken before.
use mathlib.Core.Path.{subst}
use r2vm.Base.{ℕ, ◌≡◌, ◌<◌, ◌⊎◌, inl, inr, arith, Bool-cases, true, false}
use r2vm.Base.{◌==◌, if◌then◌else◌, bit_and, bit_or, not64, flag, is_set, is_set-flag}
use r2vm.Base.{bit_or-zero, bit_or-zero_left, Option, some, none}
use r2vm.Emu.Context.{Context, Env, interrupt_pending, clear_caches}
use r2vm.Emu.Context.{clear_local_cache, clear_local_icache}
use r2vm.Emu.Trap.{trap, trap_to_s, trap_to_m, delegated, status_to_s, status_to_m}
use r2vm.Emu.Trap.Status.{flag-status_to_s, flag-status_to_m}
use r2vm.Emu.Alarm.{IsAlerted}

sie_cleared : (prv m : ℕ) → is_set (status_to_s prv m) 0x2 ≡ false
sie_cleared prv m = ground (arith, is_set-flag (status_to_s prv m) 1, flag-status_to_s prv m 1)

mie_cleared : (prv m : ℕ) → prv < 4 → is_set (status_to_m prv m) 0x8 ≡ false
mie_cleared prv m h =
    ground (arith, is_set-flag (status_to_m prv m) 3, flag-status_to_m prv m 3 h (omega arith))

-- In M mode with MIE cleared nothing can be taken.
trap_to_m-IsAlerted : (ctx : Context) → ctx.prv < 4 → IsAlerted (trap_to_m ctx)
unfolding trap_to_m interrupt_pending
trap_to_m-IsAlerted ctx h = inl (rw (mie_cleared ctx.prv ctx.mstatus h) (bit_or-zero 0))

-- The interrupts for M mode, which every other mode can take.
for_machine :
    (ctx : Context)
    → (ctx.prv == 3) ≡ false
    → IsAlerted ctx
    → (bit_or (bit_and (bit_and ctx.shared.mip ctx.mie) (not64 ctx.mideleg)) 0 ≡ 0)
      ⊎ (flag ctx.shared.alarm 0 ≡ 1)
unfolding interrupt_pending
for_machine ctx h (inr a) = inr a
for_machine ctx h (inl p) = inl (rw (bit_or-zero_left _ _ (rw h at p)) (bit_or-zero 0))

-- In S mode with SIE cleared only interrupts for M mode can be taken, as before.
trap_to_s-IsAlerted :
    (ctx : Context) → (ctx.prv == 3) ≡ false → IsAlerted ctx → IsAlerted (trap_to_s ctx)
unfolding trap_to_s interrupt_pending clear_caches clear_local_cache clear_local_icache
trap_to_s-IsAlerted ctx h a =
    rw (sie_cleared ctx.prv ctx.mstatus) (elim (Bool-cases (ctx.prv == 0)) [
      | inl e ↦ rw e (for_machine ctx h a)
      | inr e ↦ rw e (for_machine ctx h a)
    ])

none-some : {c : Context} → ◌≡◌ {A = Option Context} none (some c) → ⊥
none-some e = ground (arith, e)

some-IsAlerted : {d c : Context} → IsAlerted d → some d ≡ some c → IsAlerted c
some-IsAlerted a e = subst (λ (x : Context). IsAlerted x) (ground (arith, e)) a

below_machine : (ctx : Context) → delegated ctx ≡ true → (ctx.prv == 3) ≡ false
unfolding delegated
below_machine ctx d = ground (arith, d)

chosen :
    (env : Env) (ctx c : Context)
    → ctx.prv < 4
    → IsAlerted ctx
    → (if delegated ctx
        then some (trap_to_s ctx)
        else if env.flags_prv == 3
        then some (trap_to_m ctx)
        else none)
      ≡ some c
    → IsAlerted c
chosen env ctx c h a e = elim (Bool-cases (delegated ctx)) [
  | inl d ↦ some-IsAlerted (trap_to_s-IsAlerted ctx (below_machine ctx d) a) (rw d at e)
  | inr d ↦ elim (Bool-cases (env.flags_prv == 3)) [
    | inl m ↦ some-IsAlerted (trap_to_m-IsAlerted ctx h) (rw (d, m) at e)
    | inr m ↦ absurd (none-some (rw (d, m) at e))
  ]
]

-- A trap from a privilege below 4 that returns keeps the alarm in step with the interrupts that can be
-- taken.
pub trap-IsAlerted :
    (env : Env) (ctx c : Context)
    → ctx.prv < 4
    → IsAlerted ctx
    → trap env ctx ≡ some c
    → IsAlerted c
unfolding trap
trap-IsAlerted env ctx c h a e = elim (Bool-cases (env.flags_prv == 0)) [
  | inl z ↦ absurd (none-some (rw z at e))
  | inr z ↦ chosen env ctx c h a (rw z at e)
]
