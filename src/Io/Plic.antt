-- ===== src/Io/Plic.antt =====
-- `lib/io/src/hw/intc/plic.rs`: the platform-level interrupt controller. `levels` holds what the
-- output pins `irq` (one for each context) were last set to. Logging is left out. Arithmetic wraps
-- as in a release build: `1 << value` takes `value` modulo 32, `usize` subtraction goes modulo 2^64.
pub mod Pins
pub mod Claim
pub mod Registers
pub mod Input
pub mod Reachable
mod Tests
use r2vm.Base.{ℕ, zero, suc, ◌+◌, ◌-◌, ◌*◌, ◌/◌, ◌%◌, ◌^◌, bit_and, bit_or, not32, u8, u32, is_set}
use r2vm.Base.{Bool, true, false, ◌&&◌, ◌||◌, not, ◌==◌, ltb, leb, if◌then◌else◌, wrapping_sub}
use r2vm.Base.{List, length, get_or, set, replicate, Option, none, some}

pub record PlicInner : Type 0 where
  pub priority : List ℕ
  pub pending : ℕ
  pub claimed : ℕ
  pub enable : List ℕ
  pub threshold : List ℕ
  pub levels : List Bool

-- `PlicInner::new` with `contexts` pins, all low.
pub new : ℕ → PlicInner
new contexts = record {
  priority = replicate 32 0;
  pending = 0;
  claimed = 0;
  enable = replicate contexts 0;
  threshold = replicate contexts 0;
  levels = replicate contexts false;
}

-- The interrupts of a context that are pending, not claimed and enabled.
pub claimable : PlicInner → ℕ → ℕ
claimable p ctx = bit_and (bit_and p.pending (not32 p.claimed)) (get_or p.enable ctx 0)

-- The `for irq in 1..32` of `pending`, with the rounds left.
pub pending_from : PlicInner → ℕ → ℕ → ℕ → Bool
unfolding claimable
pending_from p ctx zero irq = false
pending_from p ctx (suc rounds) irq =
    if is_set (claimable p ctx) (2 ^ irq)
      && ltb (get_or p.threshold ctx 0) (get_or p.priority irq 0)
    then true
    else pending_from p ctx rounds (irq + 1)

-- Whether interrupts are pending for a context.
pub is_pending : PlicInner → ℕ → Bool
is_pending p ctx = pending_from p ctx 31 1

-- The loop of `recompute_pending` over the contexts, with the rounds left.
pub drive_from : PlicInner → ℕ → ℕ → List Bool → List Bool
drive_from p zero ctx levels = levels
drive_from p (suc rounds) ctx levels =
    drive_from p rounds (ctx + 1) (set levels ctx (is_pending p ctx))

pub recompute_pending : PlicInner → PlicInner
recompute_pending p = record p { levels = drive_from p (length p.enable) 0 p.levels }

-- `none` is the panic of the `assert!`.
pub trigger : PlicInner → ℕ → Option PlicInner
trigger p irq =
    if ltb 0 irq && ltb irq 32
    then some (recompute_pending (record p { pending = bit_or p.pending (2 ^ irq) }))
    else none

-- The loop of `claim`, with the rounds left; `cur_irq` and `cur_prio` are the best so far.
pub claim_from : PlicInner → ℕ → ℕ → ℕ → ℕ → ℕ → ℕ
unfolding claimable
claim_from p ctx zero irq cur_irq cur_prio = cur_irq
claim_from p ctx (suc rounds) irq cur_irq cur_prio =
    let prio = get_or p.priority irq 0 in
    let better = is_set (claimable p ctx) (2 ^ irq) && ltb cur_prio prio in
    claim_from p ctx rounds (irq + 1) (if better then irq else cur_irq)
      (if better then prio else cur_prio)

pub claim : PlicInner → ℕ → ℕ × PlicInner
claim p ctx =
    let cur_irq = claim_from p ctx 31 1 0 0 in
    if cur_irq == 0 then (0, p) else (
      cur_irq,
      recompute_pending (record p {
        pending = bit_and p.pending (not32 (2 ^ cur_irq));
        claimed = bit_or p.claimed (2 ^ cur_irq);
      }),
    )

pub read : PlicInner → ℕ → ℕ → ℕ × PlicInner
read p addr size =
    if not (size == 4)
    then (0, p)
    else if leb addr 0xffc
    then (let irq = addr / 4 in
        if irq == 0 || leb 32 irq then (0, p) else (get_or p.priority irq 0, p))
    else if leb 0x1000 addr && leb addr 0x107c
    then (let irq = (addr - 0x1000) * 8 in if leb 32 irq then (0, p) else (p.pending, p))
    else if leb 0x2000 addr && leb addr 0x1fffff
    then (let ctx = (addr - 0x2000) / 0x80 in
        let irq = bit_and addr (0x80 - 1) * 8 in
        if leb (length p.enable) ctx || leb 32 irq then (0, p) else (get_or p.enable ctx 0, p))
    else if leb 0x1000 addr
    then (let ctx = wrapping_sub 64 addr 0x200000 / 0x1000 in
        let offset = bit_and addr (0x1000 - 1) in
        if leb (length p.enable) ctx
        then (0, p)
        else if offset == 0
        then (get_or p.threshold ctx 0, p)
        else if offset == 4
        then claim p ctx
        else (0, p))
    else (0, p)

pub write : PlicInner → ℕ → ℕ → ℕ → PlicInner
write p addr value size =
    let value32 = u32 value in
    if not (size == 4)
    then p
    else if leb addr 0xffc
    then (let irq = addr / 4 in
        if irq == 0 || leb 32 irq
        then p
        else recompute_pending
            (record p { priority = set p.priority irq (u8 (bit_and value32 7)) }))
    else if leb 0x1000 addr && leb addr 0x107c
    then p
    else if leb 0x2000 addr && leb addr 0x1fffff
    then (let ctx = (addr - 0x2000) / 0x80 in
        let irq = bit_and addr (0x80 - 1) * 8 in
        if leb (length p.enable) ctx || leb 32 irq
        then p
        else recompute_pending (record p { enable = set p.enable ctx value32 }))
    else if leb 0x200000 addr
    then (let ctx = (addr - 0x200000) / 0x1000 in
        let offset = bit_and addr (0x1000 - 1) in
        if leb (length p.enable) ctx
        then p
        else if offset == 0
        then recompute_pending
            (record p { threshold = set p.threshold ctx (u8 (bit_and value32 7)) })
        else if offset == 4
        then recompute_pending
            (record p { claimed = bit_and p.claimed (not32 (2 ^ (value32 % 32))) })
        else p)
    else p

-- `PlicIrq`, an input pin: its interrupt and the level it was last set to.
pub record PlicIrq : Type 0 where
  pub irq : ℕ
  pub prev : Bool

-- `Plic::irq_pin`; `none` is the panic of the `assert!`.
pub irq_pin : ℕ → Option PlicIrq
irq_pin irq = if ltb 0 irq && ltb irq 32 then some (record { irq = irq; prev = false }) else none

-- `PlicIrq::set_level` while the controller is alive: a rising edge triggers.
pub set_level : PlicIrq → PlicInner → Bool → Option (PlicIrq × PlicInner)
set_level pin p level =
    let pin' = record pin { prev = level } in
    if level && not pin.prev
    then (elim (trigger p pin.irq) [ none ↦ none | some p' ↦ some (pin', p') ])
    else some (pin', p)
