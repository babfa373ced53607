-- ===== src/Io/Clint.antt =====
-- `lib/io/src/hw/intc/clint.rs`: the core-local interruptor. Time is the `now()` of the runtime context
-- in microseconds, a parameter of each access. A pin is the level that it was set to last, and a
-- spawned task that waits for its timer is an entry of `timers`.
pub mod Expiry
pub mod Registers
mod Tests
use r2vm.Base.{
  ℕ, ◌-◌, ◌^◌, ◌/◌, List, Bool, true, false, ◌&&◌, ◌||◌, not, ◌==◌, ltb, leb, if◌then◌else◌,
}
use r2vm.Base.{bit_and, not64, is_set, is_clear, ◌>>>◌, get_or, set, length, replicate, ◌∷◌, []}

-- A task that waits until `time` to set the timer pin of `hart`.
pub record Timer : Type 0 where
  pub hart : ℕ
  pub time : ℕ

pub record Clint : Type 0 where
  pub msip : List Bool
  pub mtimecmp : List ℕ
  pub msip_irqs : List Bool
  pub mtip_irqs : List Bool
  pub timers : List Timer

abbrev pub u64_max : ℕ
u64_max = 2 ^ 64 - 1

-- `Clint::new` for as many harts, with every pin low.
unfoldable pub new : ℕ → Clint
new harts = record {
  msip = replicate harts false;
  mtimecmp = replicate harts u64_max;
  msip_irqs = replicate harts false;
  mtip_irqs = replicate harts false;
  timers = [];
}

abbrev pub as_u64 : Bool → ℕ
as_u64 b = if b then 1 else 0

module _ (s : Clint) (now : ℕ) where
  -- A 64-bit register, or the half of it that `addr` selects in a narrow read.
  abbrev selected : (value addr size : ℕ) → ℕ
  selected value addr size =
      if size == 8 then value else if is_clear addr 4 then value else value >>> 32

  unfoldable pub read : (addr size : ℕ) → ℕ
  read addr size =
      if ltb size 4
      then 0
      else (let base = bit_and addr (not64 4) in
          if leb base 0x3FFF
          then (let hart = addr / 4 in
              if not (size == 4) || leb (length s.msip) hart
              then 0
              else as_u64 (get_or s.msip hart false))
          else if leb 0x4000 base && leb base 0xBFF7
          then (let hart = (addr - 0x4000) / 8 in
              if leb (length s.mtimecmp) hart
              then 0
              else selected (get_or s.mtimecmp hart 0) addr size)
          else if base == 0xBFF8
          then selected now addr size
          else 0)

  unfoldable pub write_msip : (hart value : ℕ) → Clint
  write_msip hart value =
      let level = is_set value 1 in
      record s { msip = set s.msip hart level; msip_irqs = set s.msip_irqs hart level }

  -- The comparator is set, the pin follows it, and a task is spawned if the time is yet to come.
  unfoldable pub write_mtimecmp : (hart value : ℕ) → Clint
  write_mtimecmp hart value =
      let triggered = leb value now in
      record s {
        mtimecmp = set s.mtimecmp hart value;
        mtip_irqs = set s.mtip_irqs hart triggered;
        timers = if triggered then s.timers else record { hart = hart; time = value } ∷ s.timers;
      }

  unfoldable pub write : (addr value size : ℕ) → Clint
  unfolding write_msip write_mtimecmp
  write addr value size =
      if ltb size 4
      then s
      else (let base = bit_and addr (not64 4) in
          if leb base 0x3FFF
          then (let hart = addr / 4 in
              if not (size == 4) || leb (length s.msip) hart then s else write_msip hart value)
          else if leb 0x4000 base && leb base 0xBFF7
          then (let hart = (addr - 0x4000) / 8 in
              if not (size == 8) || leb (length s.mtimecmp) hart
              then s
              else write_mtimecmp hart value)
          else s)

  -- The task of a timer, once its time has come.
  unfoldable pub expire : (hart : ℕ) → Clint
  expire hart = record s { mtip_irqs = set s.mtip_irqs hart (leb (get_or s.mtimecmp hart 0) now) }
