-- ===== src/Io/Plic/Tests.antt =====
-- Concrete runs of the interrupt controller.
use r2vm.Base.{ℕ, ◌+◌, ◌*◌, ◌≤◌, ◌<◌, ◌≡◌, ◌↔◌, arith, true, false, ◌≢◌, refl, get_or}
use r2vm.Base.{[], ◌∷◌, length}
use r2vm.Io.Plic.{
  PlicInner, new, claim, claim_from, claimable, write, is_pending, recompute_pending,
}
use r2vm.Io.Plic.Pins.{HasWords, HasPins, Raises, is_pending_iff}
use r2vm.Io.Plic.Claim.{Claims, claim-Claims}
use r2vm.Io.Plic.Registers.{IsValid, new-IsValid, write-IsValid}
use r2vm.Io.Plic.Input.{IsServed, write-claim}
use r2vm.Io.Plic.Reachable.{start, writes, Reachable-pins}

-- Two contexts; interrupt 3 has priority 2, is enabled in context 1 and is pending.
abbrev raised : PlicInner
raised = record (new 2) { priority = 0 ∷ 0 ∷ 0 ∷ 2 ∷ []; pending = 8; enable = 0 ∷ 8 ∷ [] }

raised_words : HasWords raised
unfolding new
raised_words = record { pending_fits = omega arith; claimed_fits = omega arith }

raised_pins : HasPins raised
unfolding new
raised_pins = refl

is_pending_iff_example :
    (is_pending raised 1 ≡ true) ↔ ((irq : ℕ) × (1 ≤ irq) × (irq < 32) × Raises raised 1 irq)
is_pending_iff_example = is_pending_iff raised 1 raised_words

claim-Claims_example : Claims raised 1 (claim raised 1).0 (claim raised 1).1
claim-Claims_example = claim-Claims raised 1 raised_words raised_pins

write-IsValid_example : IsValid (write (new 2) 0x2080 8 4)
write-IsValid_example = write-IsValid (new-IsValid 2) 0x2080 8 4

raised_claimed : (claim raised 1).0 ≢ 0
unfolding claim claim_from claimable new
raised_claimed = λ e. omega (arith, e)

-- Context 1 claims interrupt 3, and context 0 completes it.
write-claim_example :
    IsServed raised
      (claim raised 1).0
      (write (claim raised 1).1 (0x200000 + 0 * 0x1000 + 4) (claim raised 1).0 4)
write-claim_example = write-claim raised 1 0 raised_words raised_pins (omega arith) raised_claimed

two_contexts : 1 < length (write (new 2) 0x2080 8 4).enable
unfolding write recompute_pending new
two_contexts = omega arith

Reachable-pins_example :
    get_or (write (new 2) 0x2080 8 4).levels 1 false ≡ is_pending (write (new 2) 0x2080 8 4) 1
Reachable-pins_example = Reachable-pins (writes 0x2080 8 4 start) 1 two_contexts
