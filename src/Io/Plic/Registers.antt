-- ===== src/Io/Plic/Registers.antt =====
-- The invariant of the controller: its registers are words, its arrays have their lengths, and after
-- each operation every output pin shows the condition of its context.
use r2vm.Base.{ℕ, ◌^◌, ◌<◌, ◌≡◌, ◌∙◌, refl, arith, some, u32}
use r2vm.Base.{
  Bool-cases, sym, pow-lt, set, u8, wrapping_sub, ◌-◌, ◌/◌, ◌%◌, false, inl, inr, length,
  length-set, length-replicate, get_or-replicate_self, flag-zero,
}
use r2vm.Base.{bit_and, bit_or, bit_or-lt, bit_and-le, not32}
use r2vm.Io.Plic.{is_pending}
use r2vm.Io.Plic.{PlicInner, new, trigger, claim, claim_from, read, write, recompute_pending}
use r2vm.Io.Plic.Pins.{HasWords, IsDriven, HasPins, is_pending_iff, recompute_pending-IsDriven}
use r2vm.Io.Plic.Claim.{claim_from-IsBest, nothing-IsBest}

-- All but the pins' levels.
pub record IsShaped (p : PlicInner) : Type 0 where
  pub words : HasWords p
  pub priorities : length p.priority ≡ 32
  pub thresholds : length p.threshold ≡ length p.enable
  pub pins : HasPins p

pub record IsValid (p : PlicInner) : Type 0 where
  pub shaped : IsShaped p
  pub driven : IsDriven p

recompute_pending-IsValid : {p : PlicInner} → IsShaped p → IsValid (recompute_pending p)
unfolding recompute_pending
recompute_pending-IsValid {p} s =
    let (driven, pins) = recompute_pending-IsDriven p s.pins in
    record {
      shaped = record {
        words = record { pending_fits = s.words.pending_fits; claimed_fits = s.words.claimed_fits };
        priorities = s.priorities;
        thresholds = s.thresholds;
        pins = pins;
      };
      driven = driven;
    }

-- A new controller has the invariant, for any number of contexts.
pub new-IsValid : (contexts : ℕ) → IsValid (new contexts)
unfolding new
new-IsValid contexts = record {
  shaped = record {
    words = record { pending_fits = omega arith; claimed_fits = omega arith };
    priorities = refl;
    thresholds = refl;
    pins = length-replicate contexts false ∙ sym (length-replicate contexts 0);
  };
  driven = λ ctx h. get_or-replicate_self contexts ctx false ∙ sym (quiet ctx);
}
  where
    quiet : (ctx : ℕ) → is_pending (new contexts) ctx ≡ false
    quiet ctx = elim (Bool-cases (is_pending (new contexts) ctx)) [
      | inl t ↦
          let words : HasWords (new contexts) = record {
            pending_fits = omega arith;
            claimed_fits = omega arith;
          } in
          let raises = (is_pending_iff (new contexts) ctx words).0 t in
          absurd (omega (arith, flag-zero raises.0, raises.3.0.pending))
      | inr f ↦ f
    ]

module _ {p : PlicInner} (v : IsValid p) where
  open v.shaped use {words, priorities, thresholds, pins}

  with_pending :
      (irq : ℕ)
      → irq < 32
      → IsValid (recompute_pending (record p { pending = bit_or p.pending (2 ^ irq) }))
  with_pending irq h = recompute_pending-IsValid (record {
    words = record {
      pending_fits = bit_or-lt 32 p.pending (2 ^ irq) words.pending_fits (pow-lt irq 32 h);
      claimed_fits = words.claimed_fits;
    };
    priorities = priorities;
    thresholds = thresholds;
    pins = pins;
  })

  -- A pin that is triggered keeps the invariant.
  pub trigger-IsValid : {p' : PlicInner} (irq : ℕ) → trigger p irq ≡ some p' → IsValid p'
  unfolding trigger
  trigger-IsValid {p'} irq e = ground (arith, with_pending irq, e)

  with_claimed :
      (irq : ℕ)
      → irq < 32
      → IsValid (
          recompute_pending (record p {
            pending = bit_and p.pending (not32 (2 ^ irq));
            claimed = bit_or p.claimed (2 ^ irq);
          }))
  with_claimed irq h = recompute_pending-IsValid (record {
    words = record {
      pending_fits = omega (arith, bit_and-le p.pending (not32 (2 ^ irq)), words.pending_fits);
      claimed_fits = bit_or-lt 32 p.claimed (2 ^ irq) words.claimed_fits (pow-lt irq 32 h);
    };
    priorities = priorities;
    thresholds = thresholds;
    pins = pins;
  })

  -- A claim keeps the invariant.
  pub claim-IsValid : (ctx : ℕ) → IsValid (claim p ctx).1
  unfolding claim
  claim-IsValid ctx =
      let chosen =
        claim_from-IsBest p ctx words 31 1 0 0 (omega arith) refl (nothing-IsBest p ctx words) in
      ground (arith, v, with_claimed (claim_from p ctx 31 1 0 0) chosen.1.in_range)

  -- A read, which may be a claim, keeps the invariant.
  pub read-IsValid : (addr size : ℕ) → IsValid (read p addr size).1
  unfolding read
  read-IsValid addr size = ground (arith, v, claim-IsValid (wrapping_sub 64 addr 0x200000 / 0x1000))

  with_priority :
      (irq prio : ℕ) → IsValid (recompute_pending (record p { priority = set p.priority irq prio }))
  with_priority irq prio = recompute_pending-IsValid (record {
    words = record { pending_fits = words.pending_fits; claimed_fits = words.claimed_fits };
    priorities = length-set p.priority irq prio ∙ priorities;
    thresholds = thresholds;
    pins = pins;
  })

  with_enable :
      (ctx bits : ℕ) → IsValid (recompute_pending (record p { enable = set p.enable ctx bits }))
  with_enable ctx bits = recompute_pending-IsValid (record {
    words = record { pending_fits = words.pending_fits; claimed_fits = words.claimed_fits };
    priorities = priorities;
    thresholds = thresholds ∙ sym (length-set p.enable ctx bits);
    pins = pins ∙ sym (length-set p.enable ctx bits);
  })

  with_threshold :
      (ctx prio : ℕ)
      → IsValid (recompute_pending (record p { threshold = set p.threshold ctx prio }))
  with_threshold ctx prio = recompute_pending-IsValid (record {
    words = record { pending_fits = words.pending_fits; claimed_fits = words.claimed_fits };
    priorities = priorities;
    thresholds = length-set p.threshold ctx prio ∙ thresholds;
    pins = pins;
  })

  with_completed :
      (mask : ℕ) → IsValid (recompute_pending (record p { claimed = bit_and p.claimed mask }))
  with_completed mask = recompute_pending-IsValid (record {
    words = record {
      pending_fits = words.pending_fits;
      claimed_fits = omega (arith, bit_and-le p.claimed mask, words.claimed_fits);
    };
    priorities = priorities;
    thresholds = thresholds;
    pins = pins;
  })

  -- A write keeps the invariant, whatever the address, the value and the size.
  pub write-IsValid : (addr value size : ℕ) → IsValid (write p addr value size)
  unfolding write
  write-IsValid addr value size = ground (
    arith,
    v,
    with_priority (addr / 4) (u8 (bit_and (u32 value) 7)),
    with_enable ((addr - 0x2000) / 0x80) (u32 value),
    with_threshold ((addr - 0x200000) / 0x1000) (u8 (bit_and (u32 value) 7)),
    with_completed (not32 (2 ^ (u32 value % 32))),
  )
