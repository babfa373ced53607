-- ===== src/Io/Plic/Reachable.antt =====
-- The controller over its whole life: whatever the devices and the harts do, the output pins show
-- what is pending.
use r2vm.Base.{
  ℕ, ◌<◌, ◌≡◌, Bool, false, length, get_or, some, none, Option, arith, Bool-cases, inl, inr, ◌&&◌,
  not,
}
use mathlib.Core.Path.{subst}
use r2vm.Io.Plic.{PlicInner, PlicIrq, new, trigger, read, write, set_level, is_pending}
use r2vm.Io.Plic.Registers.{IsValid, new-IsValid, trigger-IsValid, read-IsValid, write-IsValid}

-- What can become of a new controller: reads and writes of the bus, of any address and size, and
-- changes of the input pins.
pub data Reachable (contexts : ℕ) : PlicInner → Type 0 where
  start : Reachable contexts (new contexts)
  reads :
      {p : PlicInner} (addr size : ℕ)
      → Reachable contexts p
      → Reachable contexts (read p addr size).1
  writes :
      {p : PlicInner} (addr value size : ℕ)
      → Reachable contexts p
      → Reachable contexts (write p addr value size)
  sets :
      {p p' : PlicInner} {pin' : PlicIrq} (pin : PlicIrq) (level : Bool)
      → set_level pin p level ≡ some (pin', p')
      → Reachable contexts p
      → Reachable contexts p'

-- A rising edge is a trigger.
triggered :
    (o : Option PlicInner) (x : PlicIrq) {pin' : PlicIrq} {p' : PlicInner}
    → (elim o as (λ _. Option (PlicIrq × PlicInner)) [ none ↦ none | some q ↦ some (x, q) ])
      ≡ some (pin', p')
    → o ≡ some p'
triggered none x e = absurd (ground (arith, e))
triggered (some q) x e = ground (arith, e)

settled :
    (x : PlicIrq) {pin' : PlicIrq} {p p' : PlicInner}
    → ◌≡◌ {A = Option (PlicIrq × PlicInner)} (some (x, p)) (some (pin', p'))
    → p ≡ p'
settled x e = ground (arith, e)

set_level-IsValid :
    {p p' : PlicInner} {pin' : PlicIrq} (pin : PlicIrq) (level : Bool)
    → set_level pin p level ≡ some (pin', p')
    → IsValid p
    → IsValid p'
unfolding set_level
set_level-IsValid {p} {p'} pin level e v = elim (Bool-cases (level && not pin.prev)) [
  | inl h ↦
      trigger-IsValid v pin.irq
        (triggered (trigger p pin.irq) (record pin { prev = level }) (rw h at e))
  | inr h ↦
      subst (λ (q : PlicInner). IsValid q) (settled (record pin { prev = level }) (rw h at e)) v
]

pub Reachable-IsValid : {contexts : ℕ} {p : PlicInner} → Reachable contexts p → IsValid p
Reachable-IsValid {contexts} start = new-IsValid contexts
Reachable-IsValid (reads addr size r) = read-IsValid (Reachable-IsValid r) addr size
Reachable-IsValid (writes addr value size r) = write-IsValid (Reachable-IsValid r) addr value size
Reachable-IsValid (sets pin level e r) = set_level-IsValid pin level e (Reachable-IsValid r)

-- In every state that a controller can reach, the output pin of a context is high exactly when an
-- interrupt is pending for it.
pub Reachable-pins :
    {contexts : ℕ} {p : PlicInner}
    → Reachable contexts p
    → (ctx : ℕ) → ctx < length p.enable
    → get_or p.levels ctx false ≡ is_pending p ctx
Reachable-pins r ctx h = (Reachable-IsValid r).driven ctx h
