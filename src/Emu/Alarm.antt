-- ===== src/Emu/Alarm.antt =====
-- No interrupt is lost: as long as one may be taken, the alarm that makes the hart look is set.
use Prim.Native.Nat.{bit_and-bitwise, bit_or-bitwise}
use r2vm.Base.{ℕ, ◌≡◌, ◌⊎◌, inl, inr, refl, arith, Bool, Bool-cases}
use r2vm.Base.{true, false, ◌==◌, if◌then◌else◌, bit_and, bit_or, not64, flag, is_set}
use r2vm.Base.{flag-set, bit_and-shrink_zero, bit_or-zero_left, bit_or-zero_right, bit_or-absorb}
use r2vm.Emu.Context.{Context, SharedContext, interrupt_pending, alert}
use r2vm.Emu.Context.{fire_alarm, alert_if_pending, recheck_interrupt, assert, deassert}

-- Either nothing may be taken now, or bit 0 of the alarm is set.
abbrev pub IsAlerted : Context → Type 0
IsAlerted c = (interrupt_pending c ≡ 0) ⊎ (flag c.shared.alarm 0 ≡ 1)

zero_of-test : (n : ℕ) → (n == 0) ≡ true → n ≡ 0
zero_of-test n h = ground (arith, h)

fires : (s : SharedContext) → flag (fire_alarm s 1).alarm 0 ≡ 1
unfolding fire_alarm
fires s = flag-set s.alarm 0 0

pub alert_if_pending-IsAlerted : (ctx : Context) → IsAlerted (alert_if_pending ctx)
unfolding alert_if_pending alert
alert_if_pending-IsAlerted ctx = elim (Bool-cases (interrupt_pending ctx == 0)) [
  | inl e ↦ rw e (inl (ground (arith, e)))
  | inr e ↦ rw e (inr (fires ctx.shared))
]

nothing-ready :
    (g h : Bool) (y z : ℕ)
    → bit_or (if g then bit_and 0 y else 0) (if h then bit_and 0 z else 0) ≡ 0
nothing-ready g h y z =
    rw (bit_and-bitwise 0 y, bit_and-bitwise 0 z) (ground (arith, bit_or-bitwise 0 0))

-- Without an interrupt that is enabled there is none to take.
unready : (c : Context) → bit_and c.shared.mip c.mie ≡ 0 → interrupt_pending c ≡ 0
unfolding interrupt_pending
unready c e = rw e (nothing-ready _ _ (not64 c.mideleg) c.mideleg)

pub recheck_interrupt-IsAlerted : (ctx : Context) → IsAlerted (recheck_interrupt ctx)
unfolding recheck_interrupt
recheck_interrupt-IsAlerted ctx = elim (Bool-cases (bit_and ctx.shared.mip ctx.mie == 0)) [
  | inl e ↦ rw e (inl (unready ctx (ground (arith, e))))
  | inr e ↦ rw e (elim (Bool-cases (interrupt_pending ctx == 0)) [
    | inl q ↦ rw q (inl (zero_of-test (interrupt_pending ctx) q))
    | inr q ↦ rw q (inr (fires ctx.shared))
  ])
]

-- A write to a field that `interrupt_pending` does not read, with bits 1 and 3 of the status word kept.
pub same-IsAlerted :
    (c d : Context)
    → d.shared.mip ≡ c.shared.mip
    → d.mie ≡ c.mie
    → d.mideleg ≡ c.mideleg
    → d.prv ≡ c.prv
    → is_set d.mstatus 2 ≡ is_set c.mstatus 2
    → is_set d.mstatus 8 ≡ is_set c.mstatus 8
    → d.shared.alarm ≡ c.shared.alarm
    → IsAlerted c
    → IsAlerted d
unfolding interrupt_pending
same-IsAlerted c d e1 e2 e3 e4 e5 e6 e7 a = rw (e1, e2, e3, e4, e5, e6, e7) a

-- The two groups of pending interrupts under fewer bits of `mip`.
pending-shrink :
    (g h : Bool) (a n e y z : ℕ)
    → bit_or (if g then bit_and (bit_and a e) y else 0) (if h then bit_and (bit_and a e) z else 0)
      ≡ 0
    → bit_or
        (if g then bit_and (bit_and (bit_and a n) e) y else 0)
        (if h then bit_and (bit_and (bit_and a n) e) z else 0)
      ≡ 0
pending-shrink true true a n e y z p =
    rw
      (
        bit_and-shrink_zero a n e y (bit_or-zero_left _ _ p),
        bit_and-shrink_zero a n e z (bit_or-zero_right _ _ p),
      )
      refl
pending-shrink true false a n e y z p =
    rw (bit_and-shrink_zero a n e y (bit_or-zero_left _ _ p)) refl
pending-shrink false true a n e y z p =
    rw (bit_and-shrink_zero a n e z (bit_or-zero_right _ _ p)) refl
pending-shrink false false a n e y z p = refl

-- Taking bits away from `mip` makes nothing pending.
pub deassert-IsAlerted :
    (c : Context) (mask : ℕ)
    → IsAlerted c
    → IsAlerted (record c { shared = deassert c.shared mask })
unfolding deassert interrupt_pending
deassert-IsAlerted c mask (inr a) = inr a
deassert-IsAlerted c mask (inl a) =
    inl (pending-shrink _ _ c.shared.mip (not64 mask) c.mie (not64 c.mideleg) c.mideleg a)

pub assert-IsAlerted :
    (c : Context) (mask : ℕ) → IsAlerted c → IsAlerted (record c { shared = assert c.shared mask })
unfolding assert alert
assert-IsAlerted c mask a = elim (Bool-cases (bit_and c.shared.mip mask == mask)) [
  | inl e ↦ rw e (
      same-IsAlerted c (record c { shared = record c.shared { mip = bit_or c.shared.mip mask } })
        (bit_or-absorb c.shared.mip mask (ground (arith, e))) refl refl refl refl refl refl a)
  | inr e ↦ rw e (inr (fires (record c.shared { mip = bit_or c.shared.mip mask })))
]
