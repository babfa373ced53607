-- ===== src/Emu/Step/Quiet.antt =====
-- The parts of `step` that translate an address or access a control register leave the registers and
-- the program counter alone.
use r2vm.Base.{ℕ, ◌≡◌, refl, Bool, ◌==◌, not, if◌then◌else◌, true, false, Option, none, some}
use r2vm.Base.{◌*◌, bit_or, u32, wrapping_sub, bit_and, is_set, is_clear, ◌^◌}
use r2vm.Riscv.Csr
use r2vm.Riscv.Csr.{Csr}
use r2vm.Riscv.Mmu.{AccessType}
use r2vm.Emu.Context.{
  Context, Env, Outcome, ok, err, panic, ◌>>=◌, Leaves, raise, test_and_set_fs, test_counter,
}
use r2vm.Emu.Context.{alert_if_pending, recheck_interrupt, get_mcycle}
use r2vm.Emu.Csr.{
  read_csr, read_plain, write_csr, masked, write_status, write_sie, write_sip, write_satp,
  write_mideleg, write_mie, write_mip, write_fflags, write_frm, write_fcsr,
}
use r2vm.Emu.Csr.Arms.{HoldsInArms, write_csr-Leaves}
use r2vm.Emu.Translate.{
  MemoryModel, delivered, translate_vaddr, insert_data_cache_line, data_access, translate_read,
  translate_write, translate_cache_miss,
}
use r2vm.Base.{wrapping_add}
use r2vm.Emu.Translate.Invalidate.{icache_invalidate}

-- `c` has the registers and the program counter of `ctx`.
pub record Undisturbed (ctx c : Context) : Type 0 where
  pub same_registers : c.registers ≡ ctx.registers
  pub same_pc : c.pc ≡ ctx.pc

abbrev pub undisturbed : (ctx : Context) → Undisturbed ctx ctx
undisturbed ctx = record { same_registers = refl; same_pc = refl }

-- A call that does not disturb the context, whether it returns `Ok` or `Err`.
pub data Quiet (ctx : Context) {A : Type 0} : Outcome A → Type 0 where
  quiet_ok : (a : A) (c : Context) → Undisturbed ctx c → Quiet ctx (ok a c)
  quiet_err : (c : Context) → Undisturbed ctx c → Quiet ctx (err c)
  quiet_panic : Quiet ctx panic

pub either_call :
    {A : Type 0} {ctx : Context} (b : Bool) {o o' : Outcome A}
    → Quiet ctx o
    → Quiet ctx o'
    → Quiet ctx (if b then o else o')
either_call true p q = p
either_call false p q = q

of-Leaves : {A : Type 0} (ctx : Context) (o : Outcome A) → Leaves o (Undisturbed ctx) → Quiet ctx o
of-Leaves ctx (ok a c) h = quiet_ok a c h
of-Leaves ctx (err c) h = quiet_err c h
of-Leaves ctx panic h = absurd h

arms_undisturbed : (ctx : Context) (v : ℕ) → HoldsInArms (Undisturbed ctx) ctx v
unfolding write_status write_sie write_sip write_satp write_mideleg write_mie write_mip write_fflags
    write_frm write_fcsr alert_if_pending recheck_interrupt
arms_undisturbed ctx v = record {
  refused = calm _ refl refl;
  fflags = calm _ refl refl;
  frm = calm _ refl refl;
  fcsr = calm _ refl refl;
  sstatus = status 0xC6122 0xC0000;
  sie = calm _ refl refl;
  stvec = calm _ refl refl;
  scounteren = calm _ refl refl;
  sscratch = calm _ refl refl;
  sepc = calm _ refl refl;
  scause = calm _ refl refl;
  stval = calm _ refl refl;
  sip = either_context (is_set ctx.mideleg 0x2) (calm _ refl refl) (calm _ refl refl);
  satp = calm _ refl refl;
  mstatus = status 0x7E79AA 0xE1800;
  misa = calm _ refl refl;
  medeleg = calm _ refl refl;
  mideleg = calm _ refl refl;
  mie = calm _ refl refl;
  mtvec = calm _ refl refl;
  mcounteren = calm _ refl refl;
  mscratch = calm _ refl refl;
  mepc = calm _ refl refl;
  mcause = calm _ refl refl;
  mtval = calm _ refl refl;
  mip = calm _ refl refl;
  minstret = calm _ refl refl;
}
  where
    calm : (c : Context) → c.registers ≡ ctx.registers → c.pc ≡ ctx.pc → Undisturbed ctx c
    calm c r p = record { same_registers = r; same_pc = p }

    either_context :
        (b : Bool) {x y : Context}
        → Undisturbed ctx x
        → Undisturbed ctx y
        → Undisturbed ctx (if b then x else y)
    either_context true p q = p
    either_context false p q = q

    status : (writable flushing : ℕ) → Undisturbed ctx (write_status ctx v writable flushing)
    status writable flushing =
        either_context
          (bit_and ctx.mstatus flushing == bit_and (masked writable ctx.mstatus v) flushing)
          (calm _ refl refl) (calm _ refl refl)

module _ (ctx : Context) where
  pub write_csr-Quiet : (env : Env) (csr : Csr) (v : ℕ) → Quiet ctx (write_csr env ctx csr v)
  write_csr-Quiet env csr v =
      of-Leaves ctx (write_csr env ctx csr v)
        (write_csr-Leaves (Undisturbed ctx) ctx v (arms_undisturbed ctx v) env csr)

  test_and_set_fs-Quiet : (env : Env) → Quiet ctx (test_and_set_fs env ctx)
  unfolding test_and_set_fs raise
  test_and_set_fs-Quiet env =
      either_call (not env.float) (quiet_err _ (record { same_registers = refl; same_pc = refl })) (
        either_call (is_clear ctx.mstatus 0x6000)
          (quiet_err _ (record { same_registers = refl; same_pc = refl }))
          (quiet_ok _ _ (record { same_registers = refl; same_pc = refl })))

  test_counter-Quiet : (id : ℕ) → Quiet ctx (test_counter ctx id)
  unfolding test_counter raise
  test_counter-Quiet id =
      either_call _ (quiet_err _ (record { same_registers = refl; same_pc = refl }))
        (quiet_ok _ _ (undisturbed ctx))

  then_value :
      {A B : Type 0} {o : Outcome A} (value : A → Context → B)
      → Quiet ctx o
      → Quiet ctx (o >>= (λ a c. ok (value a c) c))
  then_value value (quiet_ok a c u) = quiet_ok (value a c) c u
  then_value value (quiet_err c u) = quiet_err c u
  then_value value quiet_panic = quiet_panic

  or_illegal :
      (o : Option ℕ)
      → Quiet ctx {A = ℕ} (elim o [ some value ↦ ok value ctx | none ↦ raise ctx 2 0 ])
  unfolding raise
  or_illegal (some value) = quiet_ok value ctx (undisturbed ctx)
  or_illegal none = quiet_err _ (record { same_registers = refl; same_pc = refl })

  pub read_csr-Quiet : (env : Env) (csr : Csr) → Quiet ctx (read_csr env ctx csr)
  unfolding read_csr
  read_csr-Quiet env csr =
      either_call (csr == Csr.fflags)
        (then_value (λ _ c. c.shared.fflags) (test_and_set_fs-Quiet env))
        (either_call (csr == Csr.frm) (then_value (λ _ c. c.frm) (test_and_set_fs-Quiet env)) (
          either_call (csr == Csr.fcsr)
            (then_value (λ _ c. bit_or (u32 (c.frm * 2 ^ 5)) c.shared.fflags)
              (test_and_set_fs-Quiet env))
            (either_call (csr == Csr.cycle)
              (then_value (λ _ c. get_mcycle env c) (test_counter-Quiet 0))
              (either_call (csr == Csr.time) (then_value (λ _ c. env.time) (test_counter-Quiet 1)) (
                either_call (csr == Csr.instret)
                  (then_value (λ _ c. wrapping_sub 64 c.instret 1) (test_counter-Quiet 2))
                  (either_call (csr == Csr.misa) quiet_panic
                    (or_illegal (read_plain env ctx csr))))))))

  delivered-Quiet :
      (addr : ℕ) (access : AccessType) (o : Option ℕ) (refill : ℕ → Context → Context)
      → ((paddr : ℕ) → Undisturbed ctx (refill paddr ctx))
      → Quiet ctx (delivered ctx addr access o >>= (λ paddr c. ok paddr (refill paddr c)))
  unfolding delivered raise
  delivered-Quiet addr access none refill u =
      quiet_err _ (record { same_registers = refl; same_pc = refl })
  delivered-Quiet addr access (some paddr) refill u = quiet_ok paddr _ (u paddr)

  data_access-Quiet :
      (model : MemoryModel) (read_memory : ℕ → ℕ) (addr : ℕ) (write : Bool)
      → Quiet ctx (data_access model read_memory ctx addr write)
  unfolding data_access translate_vaddr
  data_access-Quiet model read_memory addr write =
      delivered-Quiet addr _ _
        (λ paddr c. record c { shared = insert_data_cache_line model c.shared addr paddr write })
        (λ paddr. record { same_registers = refl; same_pc = refl })

  translate_cache_miss-Quiet :
      (model : MemoryModel) (read_memory : ℕ → ℕ) (addr : ℕ) (write : Bool)
      → Quiet ctx (translate_cache_miss model read_memory ctx addr write)
  unfolding translate_cache_miss icache_invalidate
  translate_cache_miss-Quiet model read_memory addr true =
      invalidated _ (data_access-Quiet model read_memory addr true)
    where
      invalidated :
          (o : Outcome ℕ)
          → Quiet ctx o
          → Quiet ctx (o >>= (λ out c. ok out (icache_invalidate c out (wrapping_add 64 out 1))))
      invalidated _ (quiet_ok a c u) =
          quiet_ok a _ (record { same_registers = u.same_registers; same_pc = u.same_pc })
      invalidated _ (quiet_err c u) = quiet_err c u
      invalidated _ quiet_panic = quiet_panic
  translate_cache_miss-Quiet model read_memory addr false =
      data_access-Quiet model read_memory addr false

  pub translate_read-Quiet :
      (model : MemoryModel) (read_memory : ℕ → ℕ) (addr : ℕ)
      → Quiet ctx (translate_read model read_memory ctx addr)
  unfolding translate_read
  translate_read-Quiet model read_memory addr =
      either_call _ (translate_cache_miss-Quiet model read_memory addr false)
        (quiet_ok _ ctx (undisturbed ctx))

  pub translate_write-Quiet :
      (model : MemoryModel) (read_memory : ℕ → ℕ) (addr : ℕ)
      → Quiet ctx (translate_write model read_memory ctx addr)
  unfolding translate_write
  translate_write-Quiet model read_memory addr =
      either_call _ (translate_cache_miss-Quiet model read_memory addr true)
        (quiet_ok _ ctx (undisturbed ctx))
