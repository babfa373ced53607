-- ===== src/Io/Plic/Pins.antt =====
-- The output pins: when `pending` holds, and that `recompute_pending` drives every pin to it.
use r2vm.Base.{ℕ, zero, suc, ◌+◌, ◌^◌, ◌≤◌, ◌<◌, ◌≡◌, ◌↔◌, inl, inr, refl, sym, ◌∙◌, arith}
use r2vm.Base.{
  Bool, Bool-cases, true, false, List, length, get_or, set, flag, flag-bit_and, bit_and, not32,
  ◌&&◌, is_set, ltb,
}
use r2vm.Base.{flag-complement, is_set-flag, length-set, get_or-set_self, get_or-set_ne}
use native.Mathlib.Decide.{ℕ_discrete}
use r2vm.Io.Plic.{PlicInner, claimable, pending_from, is_pending, drive_from, recompute_pending}

-- The registers are 32-bit words.
pub record HasWords (p : PlicInner) : Type 0 where
  pub pending_fits : p.pending < 2 ^ 32
  pub claimed_fits : p.claimed < 2 ^ 32

-- Interrupt `irq` is pending, not claimed, and enabled in the context.
pub record IsClaimable (p : PlicInner) (ctx irq : ℕ) : Type 0 where
  pub pending : flag p.pending irq ≡ 1
  pub not_claimed : flag p.claimed irq ≡ 0
  pub enabled : flag (get_or p.enable ctx 0) irq ≡ 1

pub flag-claimable :
    {p : PlicInner} (ctx irq : ℕ)
    → HasWords p
    → irq < 32
    → (flag (claimable p ctx) irq ≡ 1) ↔ IsClaimable p ctx irq
unfolding claimable
flag-claimable {p} ctx irq w h = ground (
  arith,
  flag-bit_and (bit_and p.pending (not32 p.claimed)) (get_or p.enable ctx 0) irq,
  flag-bit_and p.pending (not32 p.claimed) irq,
  flag-complement 32 p.claimed irq,
)

-- An interrupt that raises the pin of the context.
abbrev pub Raises : PlicInner → ℕ → ℕ → Type 0
Raises p ctx irq = IsClaimable p ctx irq × (get_or p.threshold ctx 0 < get_or p.priority irq 0)

module _ (p : PlicInner) (ctx : ℕ) (w : HasWords p) where
  abbrev test : ℕ → Bool
  test irq =
      is_set (claimable p ctx) (2 ^ irq) && ltb (get_or p.threshold ctx 0) (get_or p.priority irq 0)

  test-Raises : (irq : ℕ) → irq < 32 → (test irq ≡ true) ↔ Raises p ctx irq
  test-Raises irq h =
      ground (arith, is_set-flag (claimable p ctx) irq, flag-claimable {p = p} ctx irq w h)

  pending_from_sound :
      (rounds irq : ℕ)
      → irq + rounds ≡ 32
      → pending_from p ctx rounds irq ≡ true
      → (i : ℕ) × (irq ≤ i) × (i < 32) × Raises p ctx i
  unfolding pending_from
  pending_from_sound zero irq e h = cc
  pending_from_sound (suc rounds) irq e h = elim (Bool-cases (test irq)) [
    | inl t ↦ (irq, omega arith, omega arith, (test-Raises irq (omega arith)).0 t)
    | inr f ↦
        let (i, lo, hi, r) = pending_from_sound rounds (irq + 1) (omega arith) (rw f at h) in
        (i, omega arith, hi, r)
  ]

  pending_from_complete :
      (rounds irq i : ℕ)
      → irq + rounds ≡ 32
      → irq ≤ i
      → i < 32
      → Raises p ctx i
      → pending_from p ctx rounds irq ≡ true
  unfolding pending_from
  pending_from_complete zero irq i e lo hi r = absurd (omega arith)
  pending_from_complete (suc rounds) irq i e lo hi r = elim (ℕ_discrete irq i) [
    | yes same ↦ rw ((test-Raises irq (omega arith)).1 (rw same r))
    | no differ ↦
        ground (arith, pending_from_complete rounds (irq + 1) i (omega arith) (omega arith) hi r)
  ]

  -- The pin condition of a context holds exactly when one of the interrupts 1 to 31 is pending, not
  -- claimed, enabled in the context and has a priority above the context's threshold.
  pub is_pending_iff :
      (is_pending p ctx ≡ true) ↔ ((irq : ℕ) × (1 ≤ irq) × (irq < 32) × Raises p ctx irq)
  unfolding is_pending
  is_pending_iff =
      (pending_from_sound 31 1 refl, λ r. pending_from_complete 31 1 r.0 refl r.1 r.2 r.3)

module _ (p : PlicInner) where
  length-drive_from :
      (rounds ctx : ℕ) (levels : List Bool)
      → length (drive_from p rounds ctx levels) ≡ length levels
  unfolding drive_from
  length-drive_from zero ctx levels = refl
  length-drive_from (suc rounds) ctx levels =
      length-drive_from rounds (ctx + 1) (set levels ctx (is_pending p ctx))
      ∙ length-set levels ctx (is_pending p ctx)

  drive_from-before :
      (rounds ctx i : ℕ) (levels : List Bool)
      → i < ctx
      → get_or (drive_from p rounds ctx levels) i false ≡ get_or levels i false
  unfolding drive_from
  drive_from-before zero ctx i levels h = refl
  drive_from-before (suc rounds) ctx i levels h =
      drive_from-before rounds (ctx + 1) i (set levels ctx (is_pending p ctx)) (omega arith)
      ∙ get_or-set_ne levels ctx i (is_pending p ctx) false (omega arith)

  drive_from-at :
      (rounds ctx i : ℕ) (levels : List Bool)
      → ctx ≤ i
      → i < ctx + rounds
      → i < length levels
      → get_or (drive_from p rounds ctx levels) i false ≡ is_pending p i
  unfolding drive_from
  drive_from-at zero ctx i levels lo hi h = absurd (omega arith)
  drive_from-at (suc rounds) ctx i levels lo hi h = elim (ℕ_discrete ctx i) [
    | yes same ↦
        drive_from-before rounds (ctx + 1) i _ (omega arith)
        ∙ rw (← same) (get_or-set_self levels ctx (is_pending p ctx) false (omega arith))
    | no differ ↦ drive_from-at rounds (ctx + 1) i _ (omega arith) (omega arith) (rw length-set h)
  ]

-- Every output pin shows the condition of its context.
abbrev pub IsDriven : PlicInner → Type 0
IsDriven p = (ctx : ℕ) → ctx < length p.enable → get_or p.levels ctx false ≡ is_pending p ctx

-- One pin for each context.
abbrev pub HasPins : PlicInner → Type 0
HasPins p = length p.levels ≡ length p.enable

pending_from-levels :
    (p : PlicInner) (levels : List Bool) (ctx rounds irq : ℕ)
    → pending_from (record p { levels = levels }) ctx rounds irq ≡ pending_from p ctx rounds irq
unfolding pending_from
pending_from-levels p levels ctx zero irq = refl
pending_from-levels p levels ctx (suc rounds) irq =
    rw (pending_from-levels p levels ctx rounds (irq + 1))

pub recompute_pending-IsDriven :
    (p : PlicInner) → HasPins p → IsDriven (recompute_pending p) × HasPins (recompute_pending p)
unfolding recompute_pending is_pending
recompute_pending-IsDriven p pins = (
  λ ctx h.
      drive_from-at p (length p.enable) 0 ctx p.levels (omega arith) (omega arith) (rw pins h)
      ∙ sym (pending_from-levels p (recompute_pending p).levels ctx 31 1),
  length-drive_from p (length p.enable) 0 p.levels ∙ pins,
)
