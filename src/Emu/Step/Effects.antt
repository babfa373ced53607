-- ===== src/Emu/Step/Effects.antt =====
-- What one step may change: the destination register that `get_regs` names, and the program counter
-- only where `can_change_control_flow` says so.
use r2vm.Base.{ℕ, ◌≡◌, ◌≢◌, ◌⊎◌, inl, inr, refl, ap, ◌∙◌, arith, Bool, Bool-cases}
use r2vm.Base.{true, false, ◌==◌, if◌then◌else◌, List, get_or, length, length-set, get_or-set_ne}
use r2vm.Riscv.Csr.{Csr}
use r2vm.Emu.Context.{Context, Outcome, ok, err, panic, ◌>>=◌, raise}
use r2vm.Emu.Step.Arms.{
  Platform, counted, write_reg, load_arm, store_arm, lr_arm, sc_arm, exchange, amo_arm,
}
use r2vm.Emu.Step.Arms.{csr_swap, csr_change, read_vaddr, ptr_vaddr_x}
use r2vm.Emu.Step.Bytes.{Memory, load}
use r2vm.Emu.Step.Quiet.{Quiet, Undisturbed, undisturbed, quiet_ok, quiet_err, quiet_panic}
use r2vm.Emu.Step.Quiet.{
  read_csr-Quiet, write_csr-Quiet, translate_read-Quiet, translate_write-Quiet, either_call,
}

-- The context after a step that returns: as many registers, none changed but `rd`, which is not
-- register 0, and the program counter kept unless the instruction may change the control flow.
pub record Writes (flow : Bool) (rd : ℕ) (ctx c : Context) : Type 0 where
  pub size : length c.registers ≡ length ctx.registers
  pub others : (j : ℕ) → (j ≡ 0) ⊎ (j ≢ rd) → get_or c.registers j 0 ≡ get_or ctx.registers j 0
  pub same_pc : flow ≡ false → c.pc ≡ ctx.pc

-- The outcome of a step from `ctx`: where it raises an exception, no register and not the program
-- counter has changed.
pub data Follows (flow : Bool) (rd : ℕ) (ctx : Context) : Outcome Memory → Type 0 where
  returns : (m : Memory) (c : Context) → Writes flow rd ctx c → Follows flow rd ctx (ok m c)
  raises : (c : Context) → Undisturbed ctx c → Follows flow rd ctx (err c)
  panics : Follows flow rd ctx panic

module _ (flow : Bool) (rd : ℕ) (ctx : Context) where
  pub write_reg-Writes :
      (c : Context) (v : ℕ) → Undisturbed ctx c → Writes flow rd ctx (write_reg c rd v)
  unfolding write_reg
  write_reg-Writes c v u = elim (Bool-cases (rd == 0)) [
    | inl e ↦ rw e (record {
      size = ap length u.same_registers;
      others = λ j _. ap (λ (r : List ℕ). get_or r j 0) u.same_registers;
      same_pc = λ _. u.same_pc;
    })
    | inr e ↦ rw e (record {
      size = length-set c.registers rd v ∙ ap length u.same_registers;
      others = λ j away.
          get_or-set_ne c.registers rd j v 0 (ground (arith, e, away))
          ∙ ap (λ (r : List ℕ). get_or r j 0) u.same_registers;
      same_pc = λ _. u.same_pc;
    })
  ]

  pub same-Writes : (c : Context) → Undisturbed ctx c → Writes flow rd ctx c
  same-Writes c u = record {
    size = ap length u.same_registers;
    others = λ j _. ap (λ (r : List ℕ). get_or r j 0) u.same_registers;
    same_pc = λ _. u.same_pc;
  }

  pub raised : (cause tval : ℕ) → Follows flow rd ctx (raise ctx cause tval)
  unfolding raise
  raised cause tval = raises _ (record { same_registers = refl; same_pc = refl })

  unless_raised :
      (b : Bool) (cause tval : ℕ) {o : Outcome Memory}
      → Follows flow rd ctx o
      → Follows flow rd ctx (if b then raise ctx cause tval else o)
  unless_raised true cause tval f = raised cause tval
  unless_raised false cause tval f = f

  after :
      {A : Type 0} {o : Outcome A} {k : A → Context → Outcome Memory}
      → Quiet ctx o
      → ((a : A) (c : Context) → Undisturbed ctx c → Follows flow rd ctx (k a c))
      → Follows flow rd ctx (o >>= k)
  after (quiet_ok a c u) f = f a c u
  after (quiet_err c u) f = raises c u
  after quiet_panic f = panics

  through : {A : Type 0} {o : Outcome A} (c : Context) → Undisturbed ctx c → Quiet c o → Quiet ctx o
  through c u (quiet_ok a d v) = quiet_ok a d (record {
    same_registers = v.same_registers ∙ u.same_registers;
    same_pc = v.same_pc ∙ u.same_pc;
  })
  through c u (quiet_err d v) = quiet_err d (record {
    same_registers = v.same_registers ∙ u.same_registers;
    same_pc = v.same_pc ∙ u.same_pc;
  })
  through c u quiet_panic = quiet_panic

  module _ (p : Platform) (mem : Memory) where
    read_vaddr-Quiet : (addr : ℕ) → Quiet ctx (read_vaddr p mem ctx addr)
    unfolding read_vaddr
    read_vaddr-Quiet addr =
        through (counted ctx) (record { same_registers = refl; same_pc = refl })
          (translate_read-Quiet (counted ctx) p.model (load 8 mem) addr)

    ptr_vaddr_x-Quiet : (addr : ℕ) → Quiet ctx (ptr_vaddr_x p mem ctx addr)
    unfolding ptr_vaddr_x
    ptr_vaddr_x-Quiet addr =
        through (counted ctx) (record { same_registers = refl; same_pc = refl })
          (translate_write-Quiet (counted ctx) p.model (load 8 mem) addr)

    pub result-Follows : (m : Memory) (v : ℕ) → Follows flow rd ctx (ok m (write_reg ctx rd v))
    result-Follows m v = returns m (write_reg ctx rd v) (write_reg-Writes ctx v (undisturbed ctx))

    pub load-Follows :
        (size : ℕ) (extend : ℕ → ℕ) (rs1 imm : ℕ)
        → Follows flow rd ctx (load_arm p mem ctx size extend rd rs1 imm)
    unfolding load_arm
    load-Follows size extend rs1 imm =
        unless_raised _ 4 _
          (after (read_vaddr-Quiet _) (λ paddr c u. returns mem _ (write_reg-Writes c _ u)))

    pub store-Follows :
        (size rs1 rs2 imm : ℕ) → Follows flow rd ctx (store_arm p mem ctx size rs1 rs2 imm)
    unfolding store_arm
    store-Follows size rs1 rs2 imm =
        unless_raised _ 5 _
          (after (ptr_vaddr_x-Quiet _) (λ paddr c u. returns _ c (same-Writes c u)))

    pub lr-Follows :
        (size : ℕ) (extend : ℕ → ℕ) (rs1 : ℕ)
        → Follows flow rd ctx (lr_arm p mem ctx size extend rd rs1)
    unfolding lr_arm
    lr-Follows size extend rs1 = unless_raised _ 5 _ (
        after (ptr_vaddr_x-Quiet _) (λ paddr c u.
          let w = write_reg-Writes c (extend (load size mem paddr)) u in
          returns mem _ (record { size = w.size; others = w.others; same_pc = w.same_pc })))

    choose :
        (b : Bool) {o o' : Outcome Memory}
        → Follows flow rd ctx o
        → Follows flow rd ctx o'
        → Follows flow rd ctx (if b then o else o')
    choose true f g = f
    choose false f g = g

    pub sc-Follows : (size rs1 rs2 : ℕ) → Follows flow rd ctx (sc_arm p mem ctx size rd rs1 rs2)
    unfolding sc_arm exchange
    sc-Follows size rs1 rs2 = unless_raised _ 5 _ (
        choose _ (result-Follows mem 1) (
          after (ptr_vaddr_x-Quiet _) (λ paddr c u.
            choose _ (returns _ _ (write_reg-Writes c 0 u))
              (returns _ _ (write_reg-Writes c 1 u)))))

    pub amo-Follows :
        (size : ℕ) (extend : ℕ → ℕ) (change : ℕ → ℕ → ℕ) (rs1 rs2 : ℕ)
        → Follows flow rd ctx (amo_arm p mem ctx size extend change rd rs1 rs2)
    unfolding amo_arm
    amo-Follows size extend change rs1 rs2 =
        unless_raised _ 5 _
          (after (ptr_vaddr_x-Quiet _) (λ paddr c u. returns _ _ (write_reg-Writes c _ u)))

    pub csr_swap-Follows : (v : ℕ) (csr : Csr) → Follows flow rd ctx (csr_swap p mem ctx rd v csr)
    unfolding csr_swap
    csr_swap-Follows v csr =
        after (either_call _ (read_csr-Quiet ctx p.env csr) (quiet_ok 0 ctx (undisturbed ctx)))
          (λ x c u.
            after (through c u (write_csr-Quiet c p.env csr v))
              (λ _ d w. returns mem _ (write_reg-Writes d x w)))

    pub csr_change-Follows :
        (writes : Bool) (change : ℕ → Context → ℕ) (csr : Csr)
        → Follows flow rd ctx (csr_change p mem ctx rd writes change csr)
    unfolding csr_change
    csr_change-Follows writes change csr = after (read_csr-Quiet ctx p.env csr) (λ x c u.
        after
          (through c u (
            either_call writes (write_csr-Quiet c p.env csr (change x c))
              (quiet_ok tt c (undisturbed c))))
          (λ _ d w. returns mem _ (write_reg-Writes d x w)))
