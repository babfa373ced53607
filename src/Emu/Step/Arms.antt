-- ===== src/Emu/Step/Arms.antt =====
-- The parts that the arms of `step` in `src/emu/interp.rs` are made of: registers, memory accesses,
-- atomics, control register accesses and calls out of the hart. The floating-point arms, `syscall` and
-- `sbi_call` are operations of a `Platform`, and so is the wait of WFI.
use r2vm.Base.{ℕ, ◌-◌, ◌*◌, ◌%◌, ◌^◌, Bool, not, ◌==◌, if◌then◌else◌}
use r2vm.Base.{is_set, is_clear, u32, get_or, set}
use r2vm.Base.{wrapping_add, wrapping_sub, Option, none, some}
use r2vm.Riscv.Op.{Op}
use r2vm.Riscv.Csr.{Csr}
use r2vm.Emu.Context.{Context, Env, SharedContext, Outcome, ok, panic, ◌>>=◌, raise}
use r2vm.Emu.Context.{clear_caches}
use r2vm.Emu.Csr.{read_csr, write_csr}
use r2vm.Emu.Translate.{MemoryModel, translate_read, translate_write}
use r2vm.Emu.Step.Bytes.{Memory, load, store}
use r2vm.Emu.Step.Arith.{i32_as_u64, imm_as_u64}

-- What the arms of `step` ask of the rest of the program. `none` of `sbi_call` is a panic; the words
-- are the call's number and its arguments. `wait_alarm` gives the shared state after the wait, and the
-- cycles that the clock has gone on meanwhile.
pub record Platform : Type 0 where
  pub model : MemoryModel
  pub env : Env
  pub syscall : Memory → (nr arg0 arg1 arg2 arg3 arg4 arg5 : ℕ) → ℕ × Memory
  pub sbi_call : Context → (nr arg0 arg1 arg2 arg3 : ℕ) → Option (ℕ × Context)
  pub wait_alarm : SharedContext → SharedContext × ℕ
  pub float : Op → Memory → Context → Outcome Memory

abbrev pub read_reg : Context → ℕ → ℕ
read_reg ctx rs = get_or ctx.registers rs 0

abbrev pub read_32 : Context → ℕ → ℕ
read_32 ctx rs = u32 (read_reg ctx rs)

unfoldable pub write_reg : Context → (rd value : ℕ) → Context
write_reg ctx rd value =
    if rd == 0 then ctx else record ctx { registers = set ctx.registers rd value }

abbrev pub write_32 : Context → (rd value : ℕ) → Context
write_32 ctx rd value = write_reg ctx rd (i32_as_u64 value)

abbrev pub pc_pre : Context → Bool → ℕ
pc_pre ctx compressed = wrapping_sub 64 ctx.pc (if compressed then 2 else 4)

-- The `Ok(())` of a `Result<(), ()>`, with the memory.
abbrev pub keeping : Memory → Outcome (Unit {0}) → Outcome Memory
keeping mem o = o >>= (λ _ c. ok mem c)

-- `global_sfence` as it acts on this hart's caches; the models have no hook.
unfoldable pub global_sfence : Context → ℕ → Context
unfolding clear_caches
global_sfence ctx mask =
    if is_clear mask (2 ^ ctx.hartid) then ctx else record ctx { shared = clear_caches ctx.shared }

abbrev pub counted : Context → Context
counted ctx = record ctx { minstret = wrapping_add 64 ctx.minstret 1 }

module _ (p : Platform) (mem : Memory) (ctx : Context) where
  -- `read_vaddr` and `ptr_vaddr_x`: the address that the reference points to.
  unfoldable pub read_vaddr : ℕ → Outcome ℕ
  unfolding translate_read
  read_vaddr addr = translate_read p.model (load 8 mem) (counted ctx) addr

  unfoldable pub ptr_vaddr_x : ℕ → Outcome ℕ
  unfolding translate_write
  ptr_vaddr_x addr = translate_write p.model (load 8 mem) (counted ctx) addr

  abbrev pub vaddr : (rs1 imm : ℕ) → ℕ
  vaddr rs1 imm = wrapping_add 64 (read_reg ctx rs1) (imm_as_u64 imm)

  -- A load of `size` bytes, aligned where they are more than one.
  unfoldable pub load_arm : (size : ℕ) → (extend : ℕ → ℕ) → (rd rs1 imm : ℕ) → Outcome Memory
  unfolding read_vaddr write_reg raise
  load_arm size extend rd rs1 imm =
      let addr = vaddr rs1 imm in
      if is_set addr (size - 1)
      then raise ctx 4 addr
      else read_vaddr addr >>= (λ paddr c. ok mem (write_reg c rd (extend (load size mem paddr))))

  unfoldable pub store_arm : (size : ℕ) → (rs1 rs2 imm : ℕ) → Outcome Memory
  unfolding ptr_vaddr_x raise
  store_arm size rs1 rs2 imm =
      let addr = vaddr rs1 imm in
      if is_set addr (size - 1)
      then raise ctx 5 addr
      else ptr_vaddr_x addr >>= (λ paddr c. ok (store size mem paddr (read_reg c rs2)) c)

  unfoldable pub lr_arm : (size : ℕ) → (extend : ℕ → ℕ) → (rd rs1 : ℕ) → Outcome Memory
  unfolding ptr_vaddr_x write_reg raise
  lr_arm size extend rd rs1 =
      let addr = read_reg ctx rs1 in
      if is_set addr (size - 1)
      then raise ctx 5 addr
      else ptr_vaddr_x addr >>= (λ paddr c.
        let value = extend (load size mem paddr) in
        ok mem (record (write_reg c rd value) { lr_addr = addr; lr_value = value }))

  -- The compare-exchange of SC, once the reservation is for the right address: 0 is success.
  unfoldable pub exchange : (size paddr src : ℕ) → Context → (rd : ℕ) → Outcome Memory
  unfolding write_reg
  exchange size paddr src c rd =
      if load size mem paddr == c.lr_value % 2 ^ (8 * size)
      then ok (store size mem paddr src) (write_reg c rd 0)
      else ok mem (write_reg c rd 1)

  unfoldable pub sc_arm : (size : ℕ) → (rd rs1 rs2 : ℕ) → Outcome Memory
  unfolding ptr_vaddr_x write_reg exchange raise
  sc_arm size rd rs1 rs2 =
      let addr = read_reg ctx rs1 in
      let src = read_reg ctx rs2 in
      if is_set addr (size - 1)
      then raise ctx 5 addr
      else if not (addr == ctx.lr_addr)
      then ok mem (write_reg ctx rd 1)
      else ptr_vaddr_x addr >>= (λ paddr c. exchange size paddr src c rd)

  -- The atomic operations that read a word, put `change current src` in its place and give `current`.
  unfoldable pub amo_arm :
      (size : ℕ) → (extend : ℕ → ℕ) → (change : ℕ → ℕ → ℕ) → (rd rs1 rs2 : ℕ) → Outcome Memory
  unfolding ptr_vaddr_x write_reg raise
  amo_arm size extend change rd rs1 rs2 =
      let addr = read_reg ctx rs1 in
      let src = read_reg ctx rs2 % 2 ^ (8 * size) in
      if is_set addr (size - 1)
      then raise ctx 5 addr
      else ptr_vaddr_x addr >>= (λ paddr c.
        let current = load size mem paddr in
        ok (store size mem paddr (change current src)) (write_reg c rd (extend current)))

  unfoldable pub branch : Bool → (compressed : Bool) → (imm : ℕ) → Outcome Memory
  branch taken compressed imm = ok mem (
      if taken
      then record ctx { pc = wrapping_add 64 (pc_pre ctx compressed) (imm_as_u64 imm) }
      else ctx)

  -- CSRRW and CSRRWI with the value to write, which read only where `rd` wants the old value.
  unfoldable pub csr_swap : (rd value : ℕ) → Csr → Outcome Memory
  unfolding read_csr write_csr write_reg
  csr_swap rd value csr =
      (if not (rd == 0) then read_csr p.env ctx csr else ok 0 ctx)
      >>= (λ result c. write_csr p.env c csr value >>= (λ _ c'. ok mem (write_reg c' rd result)))

  -- CSRRS, CSRRC and their immediate forms, which write only where there is a bit to change.
  unfoldable pub csr_change : (rd : ℕ) → (writes : Bool) → (ℕ → Context → ℕ) → Csr → Outcome Memory
  unfolding read_csr write_csr write_reg
  csr_change rd writes change csr = read_csr p.env ctx csr >>= (λ result c.
      (if writes then write_csr p.env c csr (change result c) else ok tt c)
      >>= (λ _ c'. ok mem (write_reg c' rd result)))

  abbrev arg : ℕ → ℕ
  arg i = read_reg ctx i

  unfoldable pub sbi_arm : Outcome Memory
  sbi_arm = elim (p.sbi_call ctx (arg 17) (arg 10) (arg 11) (arg 12) (arg 13)) [
    | none ↦ panic
    | some result ↦ ok mem (record result.1 { registers = set (result.1).registers 10 (result.0) })
  ]

  unfoldable pub syscall_arm : Outcome Memory
  syscall_arm =
      let result = p.syscall mem (arg 17) (arg 10) (arg 11) (arg 12) (arg 13) (arg 14) (arg 15) in
      ok (result.1) (record ctx { registers = set ctx.registers 10 (result.0) })

  -- `panic` is the `unreachable!()` of the reserved privilege 2.
  unfoldable pub ecall_arm : Outcome Memory
  unfolding sbi_arm syscall_arm raise
  ecall_arm =
      if ctx.prv == 0
      then (if p.env.flags_prv == 0 then syscall_arm else raise ctx 8 0)
      else if ctx.prv == 1
      then (if p.env.flags_prv == 1 then sbi_arm else raise ctx 9 0)
      else if ctx.prv == 3
      then sbi_arm
      else panic

  -- WFI, with the cycles of the wait taken off the hart's count.
  unfoldable pub wfi_arm : Outcome Memory
  wfi_arm =
      let waited = p.wait_alarm ctx.shared in
      ok mem (record ctx {
        shared = waited.0;
        cycle_offset = wrapping_sub 64 ctx.cycle_offset (waited.1);
      })
