-- ===== src/Emu/Context.antt =====
-- `Context` and `SharedContext` of `src/emu/interp.rs`: the state of a hart, and the operations that
-- the rest of the interpreter is made of. Registers are words below 2^64. The wake-up of a waiting
-- hart (`wfi_condvar`) is left out. The one kind of task is the removal of the blocks of translated code
-- that start in a range of addresses, and a task is that range. A `Context` also holds the global state
-- that a hart shares with the others: `code_prot`, the pages of `CODE_PROT`, and `peers`, the shared
-- contexts of the other harts.
use r2vm.Base.{
  ℕ, ◌-◌, ◌^◌, List, [], ◌∷◌, ◌++◌, map, Bool, ◌&&◌, ◌||◌, not, ◌==◌, ltb, if◌then◌else◌,
}
use r2vm.Base.{bit_and, bit_or, not64, is_set, is_clear, wrapping_add}

-- `i64::max_value()`, the tag that no address has.
abbrev pub invalid_tag : ℕ
invalid_tag = 2 ^ 63 - 1

pub record CacheLine : Type 0 where
  pub tag : ℕ
  pub paddr : ℕ

unfoldable pub invalidate : CacheLine → CacheLine
invalidate line = record line { tag = invalid_tag }

pub record SharedContext : Type 0 where
  pub alarm : ℕ
  pub mip : ℕ
  pub line : List CacheLine
  pub i_line : List CacheLine
  pub rm : ℕ
  pub fflags : ℕ
  pub tasks : List (ℕ × ℕ)

pub record Context : Type 0 where
  pub registers : List ℕ
  pub pc : ℕ
  pub instret : ℕ
  pub cause : ℕ
  pub tval : ℕ
  pub minstret : ℕ
  pub cycle_offset : ℕ
  pub shared : SharedContext
  pub fp_registers : List ℕ
  pub frm : ℕ
  pub lr_addr : ℕ
  pub lr_value : ℕ
  pub scause : ℕ
  pub stval : ℕ
  pub stvec : ℕ
  pub sscratch : ℕ
  pub sepc : ℕ
  pub satp : ℕ
  pub scounteren : ℕ
  pub mideleg : ℕ
  pub medeleg : ℕ
  pub mcause : ℕ
  pub mtval : ℕ
  pub mstatus : ℕ
  pub mie : ℕ
  pub mtvec : ℕ
  pub mscratch : ℕ
  pub mepc : ℕ
  pub mcounteren : ℕ
  pub prv : ℕ
  pub hartid : ℕ
  pub code_prot : List ℕ
  pub peers : List SharedContext

-- What the interpreter asks of its surroundings: the level that `--prv` emulates
-- (`get_flags().prv`), the event loop's clock, and whether the `float` feature is built in. The
-- `simcsr` feature is left out.
pub record Env : Type 0 where
  pub flags_prv : ℕ
  pub lockstep_cycles : ℕ
  pub time : ℕ
  pub float : Bool

-- A `Result<A, ()>` with the context as the call leaves it, or a panic.
pub data Outcome (A : Type 0) : Type 0 where
  ok : A → Context → Outcome A
  err : Context → Outcome A
  panic : Outcome A

-- The operator `?`.
infixl 5 ◌>>=◌
abbrev pub ◌>>=◌ : {A B : Type 0} → Outcome A → (A → Context → Outcome B) → Outcome B
ok a ctx >>= f = f a ctx
err ctx >>= f = err ctx
panic >>= f = panic

module _ (s : SharedContext) where
  unfoldable pub fire_alarm : ℕ → SharedContext
  fire_alarm mask = record s { alarm = bit_or s.alarm mask }

  unfoldable pub alert : SharedContext
  unfolding fire_alarm
  alert = fire_alarm 1

  unfoldable pub deassert : ℕ → SharedContext
  deassert mask = record s { mip = bit_and s.mip (not64 mask) }

  unfoldable pub clear_local_cache : SharedContext
  unfolding invalidate
  clear_local_cache = record s { line = map invalidate s.line }

  unfoldable pub clear_local_icache : SharedContext
  unfolding invalidate
  clear_local_icache = record s { i_line = map invalidate s.i_line }

unfoldable pub shutdown : SharedContext → SharedContext
unfolding fire_alarm
shutdown s = fire_alarm s 2

-- The task is queued, and the hart is made to look.
unfoldable pub run_on : SharedContext → ℕ × ℕ → SharedContext
unfolding alert
run_on s task = alert (record s { tasks = s.tasks ++ (task ∷ []) })

unfoldable pub assert : SharedContext → ℕ → SharedContext
unfolding alert
assert s mask =
    let s' = record s { mip = bit_or s.mip mask } in
    if bit_and s.mip mask == mask then s' else alert s'

-- Both caches, as they are always cleared together.
unfoldable pub clear_caches : SharedContext → SharedContext
unfolding clear_local_cache clear_local_icache
clear_caches s = clear_local_icache (clear_local_cache s)

-- An exception: `cause` and `tval` are set and `Err` is returned.
unfoldable pub raise : {A : Type 0} → Context → ℕ → ℕ → Outcome A
raise ctx cause tval = err (record ctx { cause = cause; tval = tval })

module _ (env : Env) (ctx : Context) where
  unfoldable pub test_and_set_fs : Outcome (Unit {0})
  unfolding raise
  test_and_set_fs =
      if not env.float
      then raise ctx 2 0
      else if is_clear ctx.mstatus 0x6000
      then raise ctx 2 0
      else ok tt (record ctx { mstatus = bit_or ctx.mstatus 0x6000 })

  unfoldable pub get_mcycle : ℕ
  get_mcycle = wrapping_add 64 env.lockstep_cycles ctx.cycle_offset

module _ (ctx : Context) where
  unfoldable pub test_counter : ℕ → Outcome (Unit {0})
  unfolding raise
  test_counter id =
      if (ltb ctx.prv 3 && is_clear ctx.mcounteren (2 ^ id))
        || (ltb ctx.prv 1 && is_clear ctx.scounteren (2 ^ id))
      then raise ctx 2 0
      else ok tt ctx

  -- The interrupts that are pending and may be taken now.
  unfoldable pub interrupt_pending : ℕ
  interrupt_pending =
      let int_ready = bit_and ctx.shared.mip ctx.mie in
      bit_or
        (if not (ctx.prv == 3) || is_set ctx.mstatus 0x8
          then bit_and int_ready (not64 ctx.mideleg)
          else 0)
        (if ctx.prv == 0 || (ctx.prv == 1 && is_set ctx.mstatus 0x2)
          then bit_and int_ready ctx.mideleg
          else 0)

  -- `if ctx.interrupt_pending() != 0 { ctx.shared.alert() }`
  unfoldable pub alert_if_pending : Context
  unfolding interrupt_pending alert
  alert_if_pending = record ctx {
    shared = if interrupt_pending == 0 then ctx.shared else alert ctx.shared;
  }

  unfoldable pub recheck_interrupt : Context
  unfolding interrupt_pending fire_alarm
  recheck_interrupt =
      let int_ready = bit_and ctx.shared.mip ctx.mie in
      record ctx {
        shared =
            if int_ready == 0
            then ctx.shared
            else if interrupt_pending == 0
            then fire_alarm ctx.shared 0
            else fire_alarm ctx.shared 1;
      }

-- The call returns `Ok`, and the context that it leaves satisfies `P`.
abbrev pub Returns : {A : Type 0} → Outcome A → (Context → Type 0) → Type 0
Returns (ok a ctx) P = P ctx
Returns (err ctx) P = ⊥
Returns panic P = ⊥

-- The call leaves a context that satisfies `P`, whether it returns `Ok` or `Err`, and does not panic.
abbrev pub Leaves : {A : Type 0} → Outcome A → (Context → Type 0) → Type 0
Leaves (ok a ctx) P = P ctx
Leaves (err ctx) P = P ctx
Leaves panic P = ⊥
