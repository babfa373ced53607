-- ===== src/Io/Plic/Claim.antt =====
-- The claim: which interrupt it takes, and what it does to the registers.
use r2vm.Base.{ℕ, zero, suc, ◌+◌, ◌^◌, ◌≤◌, ◌<◌, ◌≡◌, ◌≢◌, ◌↔◌, inl, inr, refl, arith}
use r2vm.Base.{Bool, Bool-cases, true, false, get_or, flag, ◌&&◌, is_set, ltb, ◌==◌, if◌then◌else◌}
use r2vm.Base.{is_set-flag}
use r2vm.Base.{flag-clear, flag-set}
use mathlib.Core.Path.{subst}
use native.Mathlib.Decide.{ℕ_discrete}
use r2vm.Io.Plic.{PlicInner, claimable, claim_from, claim, recompute_pending}
use r2vm.Base.{bit_and, bit_or, not32}
use r2vm.Io.Plic.Pins.{
  HasWords, HasPins, IsDriven, IsClaimable, flag-claimable, recompute_pending-IsDriven,
}

-- `cur` is the choice among the interrupts 1 to `upto - 1`, with priority `prio`; 0 is no choice.
-- It is claimable, has the highest priority and among those the lowest number, and no interrupt of
-- priority 0 is chosen.
pub record IsBest (p : PlicInner) (ctx upto cur prio : ℕ) : Type 0 where
  pub in_range : cur < upto
  pub can_claim : cur ≢ 0 → IsClaimable p ctx cur
  pub its_priority : cur ≢ 0 → prio ≡ get_or p.priority cur 0
  pub positive : (cur ≢ 0) ↔ (0 < prio)
  pub highest : (j : ℕ) → 1 ≤ j → j < upto → IsClaimable p ctx j → get_or p.priority j 0 ≤ prio
  pub lowest : (j : ℕ) → 1 ≤ j → j < cur → IsClaimable p ctx j → get_or p.priority j 0 < prio

module _ (p : PlicInner) (ctx : ℕ) (w : HasWords p) where
  abbrev better : ℕ → ℕ → Bool
  better irq prio = is_set (claimable p ctx) (2 ^ irq) && ltb prio (get_or p.priority irq 0)

  better-eq :
      (irq prio : ℕ)
      → irq < 32
      → (better irq prio ≡ true) ↔ (IsClaimable p ctx irq × (prio < get_or p.priority irq 0))
  better-eq irq prio h =
      ground (arith, is_set-flag (claimable p ctx) irq, flag-claimable {p = p} ctx irq w h)

  IsBest-better :
      (irq cur prio : ℕ)
      → 1 ≤ irq
      → irq < 32
      → IsBest p ctx irq cur prio
      → better irq prio ≡ true
      → IsBest p ctx (irq + 1) irq (get_or p.priority irq 0)
  IsBest-better irq cur prio lo hi b t =
      let new : IsClaimable p ctx irq × (prio < get_or p.priority irq 0) =
        (better-eq irq prio hi).0 t in
      record {
        in_range = omega arith;
        can_claim = λ _. new.0;
        its_priority = λ _. refl;
        positive = (λ _. omega (arith, new.1), λ _. omega arith);
        highest = λ j l u c. elim (ℕ_discrete j irq) [
          | yes e ↦ rw e (omega arith)
          | no e ↦ omega (arith, new.1, b.highest j l (omega arith) c)
        ];
        lowest = λ j l u c. omega (arith, new.1, b.highest j l u c);
      }

  IsBest-worse :
      (irq cur prio : ℕ)
      → irq < 32
      → IsBest p ctx irq cur prio
      → better irq prio ≡ false
      → IsBest p ctx (irq + 1) cur prio
  IsBest-worse irq cur prio hi b f = record {
    in_range = omega (arith, b.in_range);
    can_claim = b.can_claim;
    its_priority = b.its_priority;
    positive = b.positive;
    highest = λ j l u c. elim (ℕ_discrete j irq) [
      | yes e ↦ ground (arith, better-eq irq prio hi, c)
      | no e ↦ b.highest j l (omega arith) c
    ];
    lowest = b.lowest;
  }

  pub claim_from-IsBest :
      (rounds irq cur prio : ℕ)
      → 1 ≤ irq
      → irq + rounds ≡ 32
      → IsBest p ctx irq cur prio
      → (best : ℕ) × IsBest p ctx 32 (claim_from p ctx rounds irq cur prio) best
  unfolding claim_from
  claim_from-IsBest zero irq cur prio lo e b =
      (prio, subst (λ (n : ℕ). IsBest p ctx n cur prio) (omega arith) b)
  claim_from-IsBest (suc rounds) irq cur prio lo e b = elim (Bool-cases (better irq prio)) [
    | inl t ↦ rw t (
        claim_from-IsBest rounds (irq + 1) irq (get_or p.priority irq 0) (omega arith) (omega arith)
          (IsBest-better irq cur prio lo (omega arith) b t))
    | inr f ↦ rw f (
        claim_from-IsBest rounds (irq + 1) cur prio (omega arith) (omega arith)
          (IsBest-worse irq cur prio (omega arith) b f))
  ]

  pub nothing-IsBest : IsBest p ctx 1 0 0
  nothing-IsBest = record {
    in_range = omega arith;
    can_claim = λ ne. absurd (ne refl);
    its_priority = λ ne. absurd (ne refl);
    positive = (λ ne. absurd (ne refl), λ h. absurd (omega arith));
    highest = λ j l u c. absurd (omega arith);
    lowest = λ j l u c. absurd (omega arith);
  }

-- What a claim by a context returns and leaves: `best` is the priority of the interrupt it returns.
pub record Claims (p : PlicInner) (ctx irq : ℕ) (p' : PlicInner) : Type 0 where
  pub best : ℕ
  pub is_best : IsBest p ctx 32 irq best
  pub idle : irq ≡ 0 → p' ≡ p
  pub pending_after :
      irq ≢ 0 → (i : ℕ) → i < 32 → flag p'.pending i ≡ (if i == irq then 0 else flag p.pending i)
  pub claimed_after :
      irq ≢ 0 → (i : ℕ) → i < 32 → flag p'.claimed i ≡ (if i == irq then 1 else flag p.claimed i)
  pub same_priority : p'.priority ≡ p.priority
  pub same_enable : p'.enable ≡ p.enable
  pub same_threshold : p'.threshold ≡ p.threshold
  pub pins_after : irq ≢ 0 → IsDriven p' × HasPins p'

-- A claim returns the claimable interrupt with the highest priority, and the lowest number among
-- those; 0 if every claimable interrupt has priority 0. It moves that interrupt from pending to claimed
-- and changes no other bit, no priority, enable or threshold register, and each output pin, one for each
-- context, then shows whether an interrupt is pending for its context; at 0 it changes nothing.
pub claim-Claims :
    (p : PlicInner) (ctx : ℕ)
    → HasWords p
    → HasPins p
    → Claims p ctx (claim p ctx).0 (claim p ctx).1
unfolding claim recompute_pending
claim-Claims p ctx w pins =
    let chosen = claim_from-IsBest p ctx w 31 1 0 0 (omega arith) refl (nothing-IsBest p ctx w) in
    elim (Bool-cases (claim_from p ctx 31 1 0 0 == 0)) [
      | inl z ↦ rw z (record {
        best = chosen.0;
        is_best = subst (λ (n : ℕ). IsBest p ctx 32 n chosen.0) (ground arith) chosen.1;
        idle = λ _. refl;
        pending_after = λ ne. absurd (ne refl);
        claimed_after = λ ne. absurd (ne refl);
        same_priority = refl;
        same_enable = refl;
        same_threshold = refl;
        pins_after = λ ne. absurd (ne refl);
      })
      | inr n ↦ rw n (record {
        best = chosen.0;
        is_best = chosen.1;
        idle = λ e. ground arith;
        pending_after = λ _ i h. flag-clear 32 p.pending _ i chosen.1.in_range h;
        claimed_after = λ _ i h. flag-set p.claimed _ i;
        same_priority = refl;
        same_enable = refl;
        same_threshold = refl;
        pins_after = λ _. recompute_pending-IsDriven (taken p (claim_from p ctx 31 1 0 0)) pins;
      })
    ]
  where
    taken : PlicInner → ℕ → PlicInner
    taken p irq = record p {
      pending = bit_and p.pending (not32 (2 ^ irq));
      claimed = bit_or p.claimed (2 ^ irq);
    }
