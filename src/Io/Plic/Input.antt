-- ===== src/Io/Plic/Input.antt =====
-- The input pins: only a rising edge reaches the controller. And the completion of an interrupt.
use r2vm.Base.{
  sym, bit_and, not32, ◌≢◌, ℕ, ◌+◌, ◌*◌, ◌%◌, ◌^◌, ◌<◌, ◌≡◌, refl, arith, some, Bool, not, ◌&&◌,
}
use r2vm.Base.{◌==◌, if◌then◌else◌, length, flag, flag-set, flag-clear, bit_and-mask, bit_or}
use mathlib.Core.Path.{subst}
use r2vm.Io.Plic.Pins.{HasWords, HasPins, IsDriven, recompute_pending-IsDriven}
use r2vm.Io.Plic.Claim.{Claims, claim-Claims}
use r2vm.Io.Plic.{claim, PlicInner, PlicIrq, trigger, write, set_level, recompute_pending}

-- Setting the level of an input pin succeeds, is remembered, and makes the pin's interrupt pending if
-- the level was low and becomes high; in every other case the pending register stays, bit by bit.
pub set_level-edge :
    (pin : PlicIrq) (p : PlicInner) (level : Bool)
    → 0 < pin.irq
    → pin.irq < 32
    → (pin' : PlicIrq) × (p' : PlicInner) × (set_level pin p level ≡ some (pin', p'))
      × (pin' ≡ record pin { prev = level })
      × ((i : ℕ)
          → flag p'.pending i
            ≡ (if level && (not pin.prev && i == pin.irq) then 1 else flag p.pending i))
unfolding set_level trigger recompute_pending
set_level-edge pin p level lo hi = (
  record pin { prev = level },
  (if level && not pin.prev
      then recompute_pending (record p { pending = bit_or p.pending (2 ^ pin.irq) })
      else p),
  ground arith,
  refl,
  λ i. ground (arith, flag-set p.pending pin.irq i),
)

-- The write that completes an interrupt, to the claim register of a context in range.
write-completes :
    (p : PlicInner) (ctx value : ℕ)
    → ctx < length p.enable
    → value < 2 ^ 32
    → write p (0x200000 + ctx * 0x1000 + 4) value 4
      ≡ recompute_pending (record p { claimed = bit_and p.claimed (not32 (2 ^ (value % 32))) })
unfolding write
write-completes p ctx value h hv = ground (arith, bit_and-mask 12 (0x200000 + ctx * 0x1000 + 4))

-- A claim and its completion have left the controller as it was, but for the pending bit of the interrupt,
-- which is taken, and the output pins, which show what is pending now.
pub record IsServed (p : PlicInner) (irq : ℕ) (p' : PlicInner) : Type 0 where
  pub claimed_before : (i : ℕ) → i < 32 → flag p'.claimed i ≡ flag p.claimed i
  pub pending_taken :
      (i : ℕ) → i < 32 → flag p'.pending i ≡ (if i == irq then 0 else flag p.pending i)
  pub same_priority : p'.priority ≡ p.priority
  pub same_enable : p'.enable ≡ p.enable
  pub same_threshold : p'.threshold ≡ p.threshold
  pub pins : IsDriven p' × HasPins p'

-- A claim that returns an interrupt, and the write of its number to the claim register of any context in
-- range: the claimed register is as before the claim, the interrupt is no longer pending, every other
-- pending bit and every other register is unchanged, and each output pin shows whether an interrupt is
-- pending for its context.
pub write-claim :
    (p : PlicInner) (ctx other : ℕ)
    → HasWords p
    → HasPins p
    → other < length p.enable
    → (claim p ctx).0 ≢ 0
    → IsServed p
        (claim p ctx).0
        (write (claim p ctx).1 (0x200000 + other * 0x1000 + 4) (claim p ctx).0 4)
unfolding recompute_pending
write-claim p ctx other w pins h ne =
    subst (IsServed p irq) (sym (write-completes p' other irq in_range (omega (arith, irq_small))))
      (record {
        claimed_before = λ i hi. ground (
          arith,
          flag-clear 32 p'.claimed (irq % 32) i (omega arith) hi,
          first.claimed_after ne i hi,
          (first.is_best.can_claim ne).not_claimed,
          irq_small,
        );
        pending_taken = first.pending_after ne;
        same_priority = first.same_priority;
        same_enable = first.same_enable;
        same_threshold = first.same_threshold;
        pins =
            recompute_pending-IsDriven
              (record p' { claimed = bit_and p'.claimed (not32 (2 ^ (irq % 32))) })
              ((first.pins_after ne).1);
      })
  where
    irq : ℕ
    irq = (claim p ctx).0

    p' : PlicInner
    p' = (claim p ctx).1

    first : Claims p ctx irq p'
    first = claim-Claims p ctx w pins

    irq_small : irq < 32
    irq_small = first.is_best.in_range

    in_range : other < length p'.enable
    in_range = rw first.same_enable h
