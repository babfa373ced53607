-- ===== src/Emu/Trap/Interrupt.antt =====
-- `check_interrupt` takes the highest interrupt that may be taken, in the mode it is delegated to.
use r2vm.Base.{
  [], ℕ, zero, suc, ◌+◌, ◌/◌, ◌^◌, ◌≤◌, ◌<◌, ◌≡◌, ◌≢◌, inl, inr, refl, arith, Bool, Bool-cases,
}
use r2vm.Base.{
  true, false, not, ltb, ◌==◌, ◌&&◌, ◌||◌, if◌then◌else◌, bit_and, bit_or, not64, flag, is_set,
}
use r2vm.Base.{
  flag-bit_and, flag-bit_or, flag-complement, is_set-flag, zero_of-flags, flag-zero, flag_below,
}
use r2vm.Base.{some, min, max, bit_or-fields, bit_and-mask}
use r2vm.Emu.Context.{Context, Env, interrupt_pending, Returns}
use r2vm.Emu.Trap.{check_interrupt, highest_bit, trap, delegated, trap_to_s, trap_to_m}

pub highest_bit_lem :
    (n mask : ℕ)
    → ((j : ℕ) → n ≤ j → flag mask j ≡ 0)
    → mask ≢ 0
    → (flag mask (highest_bit n mask) ≡ 1) × ((j : ℕ) → highest_bit n mask < j → flag mask j ≡ 0)
unfolding highest_bit
highest_bit_lem zero mask h ne = absurd (ne (zero_of-flags mask (λ j. h j (omega arith))))
highest_bit_lem (suc n) mask h ne = elim (Bool-cases (is_set mask (2 ^ n))) [
  | inl e ↦ rw e (ground (arith, e, is_set-flag mask n), λ j q. h j q)
  | inr e ↦ rw e (
      highest_bit_lem n mask
        (λ j q. elim (Bool-cases (j == n)) [
          | inl r ↦ ground (arith, e, r, is_set-flag mask n)
          | inr r ↦ h j (ground (arith, q, r))
        ])
        ne)
]

flag-pick : (b : Bool) (x j : ℕ) → flag (if b then x else 0) j ≡ (if b then flag x j else 0)
flag-pick true x j = refl
flag-pick false x j = flag-zero j

-- One bit of the two groups together.
flag-groups :
    (g h : Bool) (ready y z j : ℕ)
    → flag (bit_or (if g then bit_and ready y else 0) (if h then bit_and ready z else 0)) j
      ≡ max
          (if g then min (flag ready j) (flag y j) else 0)
          (if h then min (flag ready j) (flag z j) else 0)
flag-groups g h ready y z j = ground (
  arith,
  flag-bit_or (if g then bit_and ready y else 0) (if h then bit_and ready z else 0) j,
  flag-pick g (bit_and ready y) j,
  flag-pick h (bit_and ready z) j,
  flag-bit_and ready y j,
  flag-bit_and ready z j,
)

-- What is pending is enabled.
pending-enabled : (ctx : Context) (j : ℕ) → flag (interrupt_pending ctx) j ≤ flag ctx.mie j
unfolding interrupt_pending
pending-enabled ctx j =
    rw
      (flag-groups (not (ctx.prv == 3) || is_set ctx.mstatus 0x8)
        (ctx.prv == 0 || (ctx.prv == 1 && is_set ctx.mstatus 0x2)) (bit_and ctx.shared.mip ctx.mie)
        (not64 ctx.mideleg) ctx.mideleg j)
      (ground (arith, flag-bit_and ctx.shared.mip ctx.mie j))

-- An interrupt is pending when it is signalled and enabled, and the mode that handles it is above the
-- current one, or is the current one with its interrupts enabled.
pub flag-interrupt_pending :
    (ctx : Context) (j : ℕ)
    → j < 64
    → ctx.mideleg < 2 ^ 64
    → flag (interrupt_pending ctx) j ≡ (
        if if flag ctx.mideleg j == 1
          then ctx.prv == 0 || (ctx.prv == 1 && flag ctx.mstatus 1 == 1)
          else not (ctx.prv == 3) || flag ctx.mstatus 3 == 1
        then min (flag ctx.shared.mip j) (flag ctx.mie j)
        else 0)
unfolding interrupt_pending
flag-interrupt_pending ctx j hj hm =
    rw
      (flag-groups (not (ctx.prv == 3) || is_set ctx.mstatus 0x8)
        (ctx.prv == 0 || (ctx.prv == 1 && is_set ctx.mstatus 0x2)) (bit_and ctx.shared.mip ctx.mie)
        (not64 ctx.mideleg) ctx.mideleg j)
      (ground (
        arith,
        flag-bit_and ctx.shared.mip ctx.mie j,
        flag-complement 64 ctx.mideleg j hm hj,
        is_set-flag ctx.mstatus 3,
        is_set-flag ctx.mstatus 1,
      ))

-- The interrupt `i` of `ctx` has been taken: it may be taken, no higher one may, and `c` is where the
-- mode that it is delegated to handles it.
pub record Takes (ctx c : Context) (i : ℕ) : Type 0 where
  pub pending : flag (interrupt_pending ctx) i ≡ 1
  pub highest : (j : ℕ) → i < j → flag (interrupt_pending ctx) j ≡ 0
  pub to_s :
      flag ctx.mideleg i ≡ 1
      → (c.prv ≡ 1) × (c.scause ≡ 2 ^ 63 + i) × (c.sepc ≡ ctx.pc) × (c.pc ≡ ctx.stvec)
  pub to_m :
      flag ctx.mideleg i ≡ 0
      → (c.prv ≡ 3) × (c.mcause ≡ 2 ^ 63 + i) × (c.mepc ≡ ctx.pc) × (c.pc ≡ ctx.mtvec)

-- The context that `check_interrupt` hands to `trap`.
abbrev with_cause : Context → ℕ → Context
with_cause ctx i = record ctx {
  shared = record ctx.shared { alarm = 0; tasks = [] };
  cause = bit_or (2 ^ 63) i;
  tval = 0;
}

cause_of-interrupt : (i : ℕ) → i < 16 → bit_or (2 ^ 63) i ≡ 2 ^ 63 + i
cause_of-interrupt i h = bit_or-fields 63 1 i (omega arith)

delegated-interrupt :
    (ctx : Context) (i : ℕ)
    → i < 16
    → delegated (with_cause ctx i) ≡ (not (ctx.prv == 3) && flag ctx.mideleg i == 1)
unfolding delegated
delegated-interrupt ctx i h =
    rw (cause_of-interrupt i h)
      (ground (arith, bit_and-mask 4 (2 ^ 63 + i), bit_and-mask 1 (ctx.mideleg / 2 ^ i)))

trap-Takes :
    (env : Env) (ctx : Context) (i : ℕ)
    → env.flags_prv ≡ 3
    → i < 16
    → ctx.mideleg < 2 ^ 64
    → flag (interrupt_pending ctx) i ≡ 1
    → ((j : ℕ) → i < j → flag (interrupt_pending ctx) j ≡ 0)
    → (c : Context) × (trap env (with_cause ctx i) ≡ some c) × Takes ctx c i
unfolding trap trap_to_s trap_to_m
trap-Takes env ctx i e hi hm p q = elim (Bool-cases (delegated (with_cause ctx i))) [
  | inl d ↦ (
    trap_to_s (with_cause ctx i),
    ground (arith, d, e),
    record {
      pending = p;
      highest = q;
      to_s = λ f. (refl, cause_of-interrupt i hi, refl, refl);
      to_m = λ f. absurd (ground (arith, d, delegated-interrupt ctx i hi, f));
    },
  )
  | inr d ↦ (
    trap_to_m (with_cause ctx i),
    ground (arith, d, e),
    record {
      pending = p;
      highest = q;
      to_s = λ f. absurd (
          ground (
            arith,
            d,
            delegated-interrupt ctx i hi,
            f,
            p,
            flag-interrupt_pending ctx i (omega arith) hm,
          ));
      to_m = λ f. (refl, cause_of-interrupt i hi, refl, refl);
    },
  )
]

above : (ctx : Context) → ctx.mie < 2 ^ 16 → (j : ℕ) → 64 ≤ j → flag (interrupt_pending ctx) j ≡ 0
above ctx h j le = omega (arith, pending-enabled ctx j, flag_below 16 ctx.mie j h (omega arith))

taken-small :
    (ctx : Context) (i : ℕ) → ctx.mie < 2 ^ 16 → flag (interrupt_pending ctx) i ≡ 1 → i < 16
taken-small ctx i h p = elim (Bool-cases (ltb i 16)) [
  | inl e ↦ ground (arith, e)
  | inr e ↦
      absurd
        (omega (arith, p, pending-enabled ctx i, flag_below 16 ctx.mie i h (ground (arith, e))))
]

-- Reading the alarm and taking the tasks leave the pending interrupts.
alarm-read :
    (ctx : Context)
    → interrupt_pending (record ctx { shared = record ctx.shared { alarm = 0; tasks = [] } })
      ≡ interrupt_pending ctx
unfolding interrupt_pending
alarm-read ctx = refl

not_shutdown : (ctx : Context) → flag ctx.shared.alarm 1 ≡ 0 → is_set ctx.shared.alarm 2 ≡ false
not_shutdown ctx h = ground (arith, is_set-flag ctx.shared.alarm 1, h)

not_zero : (n : ℕ) → n ≢ 0 → (n == 0) ≡ false
not_zero n h = ground (arith, h)

-- Where M mode is emulated, `mie` has no bit from 16 on and `mideleg` is a 64-bit word: with an interrupt
-- that may be taken and no shutdown in the alarm, `check_interrupt` returns `Ok` and has taken the
-- highest-numbered one.
pub check_interrupt-Takes :
    (env : Env) (ctx : Context)
    → env.flags_prv ≡ 3
    → ctx.mie < 2 ^ 16
    → ctx.mideleg < 2 ^ 64
    → flag ctx.shared.alarm 1 ≡ 0
    → interrupt_pending ctx ≢ 0
    → (i : ℕ) × Returns (check_interrupt env ctx) (λ c. Takes ctx c i)
unfolding check_interrupt
check_interrupt-Takes env ctx e hmie hm ha ne =
    let i : ℕ = highest_bit 64 (interrupt_pending ctx) in
    let (p, q) = highest_bit_lem 64 (interrupt_pending ctx) (above ctx hmie) ne in
    let (c, t, taken) = trap-Takes env ctx i e (taken-small ctx i hmie p) hm p q in
    (i, rw (alarm-read ctx, not_shutdown ctx ha, not_zero (interrupt_pending ctx) ne, t) taken)
