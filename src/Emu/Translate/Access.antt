-- ===== src/Emu/Translate/Access.antt =====
-- An access through the caches against the page walk that it stands for.
use r2vm.Base.{ℕ, ◌^◌, ◌<◌, ◌≡◌, inl, inr, refl, sym, arith, Option, some, none}
use r2vm.Base.{bit_xor, sll, ◌>>>◌, ◌==◌, Bool-cases, true, false}
use mathlib.Core.Path.{subst}
use r2vm.Riscv.Mmu.{AccessType}
use r2vm.Emu.Context.{Context, Outcome, ok, err, raise, ◌>>=◌}
use r2vm.Emu.Translate.{MemoryModel, line_at, line_of, translation, translate_vaddr, delivered}
use r2vm.Base.{wrapping_add}
use r2vm.Emu.Translate.Invalidate.{icache_invalidate, icache_invalidate-OnlyCodeChanges}
use r2vm.Emu.Translate.{
  translate_cache_miss, data_access, instruction_access, insn_translate, translate_read,
}
use r2vm.Emu.Translate.{translate_write, insert_data_cache_line, insert_instruction_cache_line}
use r2vm.Emu.Translate.Coherence.{HasCoherentCaches}
use r2vm.Emu.Translate.Refill.{insert_read_line-IsCoherent, insert_write_line-IsCoherent}
use r2vm.Emu.Translate.Refill.{insert_instruction_cache_line-IsCoherent}

-- `c` is `ctx` with other lines in the caches.
abbrev pub OnlyCachesChange : Context → Context → Type 0
OnlyCachesChange ctx c =
    c ≡ record ctx { shared = record ctx.shared { line = c.shared.line; i_line = c.shared.i_line } }

-- The outcome of an access through the caches, next to that of the page walk: the same address, with
-- nothing but the caches changed, and these coherent; or the same exception.
pub data Serves (model : MemoryModel) (read_memory : ℕ → ℕ) (ctx : Context)
    : Outcome ℕ → Outcome ℕ → Type 0 where
  served :
      (paddr : ℕ) (c : Context)
      → OnlyCachesChange ctx c
      → HasCoherentCaches model read_memory c
      → Serves model read_memory ctx (ok paddr c) (ok paddr ctx)
  refused : (c : Context) → Serves model read_memory ctx (err c) (err c)

-- The same for a write, which removes translated code where it misses.
pub data Writes (model : MemoryModel) (read_memory : ℕ → ℕ) (ctx : Context)
    : Outcome ℕ → Outcome ℕ → Type 0 where
  hit :
      (paddr : ℕ)
      → HasCoherentCaches model read_memory ctx
      → Writes model read_memory ctx (ok paddr ctx) (ok paddr ctx)
  miss :
      (paddr : ℕ) (c : Context)
      → OnlyCachesChange ctx c
      → HasCoherentCaches model read_memory (icache_invalidate c paddr (wrapping_add 64 paddr 1))
      → Writes model read_memory ctx
          (ok paddr (icache_invalidate c paddr (wrapping_add 64 paddr 1)))
          (ok paddr ctx)
  refused_write : (c : Context) → Writes model read_memory ctx (err c) (err c)

-- The removal of code leaves the caches coherent.
icache_invalidate-HasCoherentCaches :
    (model : MemoryModel) (read_memory : ℕ → ℕ) (ctx : Context) (start end : ℕ)
    → HasCoherentCaches model read_memory ctx
    → HasCoherentCaches model read_memory (icache_invalidate ctx start end)
icache_invalidate-HasCoherentCaches model read_memory ctx start end k =
    subst (HasCoherentCaches model read_memory)
      (sym (icache_invalidate-OnlyCodeChanges ctx start end))
      (record {
        size = k.size;
        i_size = k.i_size;
        reads = k.reads;
        writes = k.writes;
        fetches = k.fetches;
      })

module _ (model : MemoryModel) (read_memory : ℕ → ℕ) (ctx : Context)
    (coherent : HasCoherentCaches model read_memory ctx) (addr : ℕ) (word : addr < 2 ^ 64) where
  abbrev walked : AccessType → Option ℕ
  walked access = translation read_memory ctx.satp ctx.prv ctx.mstatus addr access

  hit-Serves :
      (access : AccessType) (paddr : ℕ)
      → walked access ≡ some paddr
      → Serves model read_memory ctx (ok paddr ctx) (translate_vaddr read_memory ctx addr access)
  unfolding translate_vaddr
  hit-Serves access paddr t =
      subst (λ o. Serves model read_memory ctx (ok paddr ctx) (delivered ctx addr access o)) (sym t)
        (served paddr ctx refl coherent)

  -- A page walk, and the refill that follows where it finds an address.
  miss-Serves :
      (access : AccessType) (refill : ℕ → Context → Context)
      → ((paddr : ℕ)
          → walked access ≡ some paddr
          → OnlyCachesChange ctx (refill paddr ctx)
            × HasCoherentCaches model read_memory (refill paddr ctx))
      → (o : Option ℕ) → walked access ≡ o
      → Serves model read_memory ctx
          (delivered ctx addr access o >>= λ paddr c. ok paddr (refill paddr c))
          (delivered ctx addr access o)
  unfolding delivered raise
  miss-Serves access refill good none t = refused _
  miss-Serves access refill good (some paddr) t =
      served paddr (refill paddr ctx) ((good paddr t).0) ((good paddr t).1)

  miss_read :
      Serves model read_memory ctx
        (data_access model read_memory ctx addr false)
        (translate_vaddr read_memory ctx addr AccessType.read)
  unfolding translate_vaddr data_access insert_data_cache_line
  miss_read =
      miss-Serves AccessType.read
        (λ paddr c. record c { shared = insert_data_cache_line model c.shared addr paddr false })
        (λ paddr t. (
          refl,
          insert_read_line-IsCoherent model read_memory ctx.satp ctx.prv ctx.mstatus ctx.shared
              coherent addr paddr word t,
        ))
        (walked AccessType.read) refl

  -- A page walk for a write, with the refill and the removal of code that follow where it finds an address.
  miss-Writes :
      (o : Option ℕ)
      → walked AccessType.write ≡ o
      → Writes model read_memory ctx
          (delivered ctx addr AccessType.write o
            >>= (λ paddr c.
                ok paddr
                  (record c { shared = insert_data_cache_line model c.shared addr paddr true }))
            >>= (λ out c. ok out (icache_invalidate c out (wrapping_add 64 out 1))))
          (delivered ctx addr AccessType.write o)
  unfolding delivered raise insert_data_cache_line
  miss-Writes none t = refused_write _
  miss-Writes (some paddr) t =
      let c : Context = record ctx {
        shared = insert_data_cache_line model ctx.shared addr paddr true;
      } in
      miss paddr c refl (
        icache_invalidate-HasCoherentCaches model read_memory c paddr (wrapping_add 64 paddr 1) (
          insert_write_line-IsCoherent model read_memory ctx.satp ctx.prv ctx.mstatus ctx.shared
            coherent addr paddr word t))

  miss_write :
      Writes model read_memory ctx
        (translate_cache_miss model read_memory ctx addr true)
        (translate_vaddr read_memory ctx addr AccessType.write)
  unfolding translate_vaddr translate_cache_miss data_access insert_data_cache_line
  miss_write = miss-Writes (walked AccessType.write) refl

  miss_fetch :
      Serves model read_memory ctx
        (instruction_access model read_memory ctx addr)
        (translate_vaddr read_memory ctx addr AccessType.execute)
  unfolding translate_vaddr instruction_access insert_instruction_cache_line
  miss_fetch =
      miss-Serves AccessType.execute
        (λ paddr c. record c { shared = insert_instruction_cache_line model c.shared addr paddr })
        (λ paddr t. (
          refl,
          insert_instruction_cache_line-IsCoherent model read_memory ctx.satp ctx.prv ctx.mstatus
              ctx.shared coherent addr paddr word t,
        ))
        (walked AccessType.execute) refl

  translate_read-Serves :
      Serves model read_memory ctx
        (translate_read model read_memory ctx addr)
        (translate_vaddr read_memory ctx addr AccessType.read)
  unfolding translate_read translate_cache_miss
  translate_read-Serves =
      let line = line_at ctx.shared.line (line_of model addr) in
      elim (Bool-cases (line.tag >>> 1 == line_of model addr)) [
        | inl e ↦ rw e (
            hit-Serves AccessType.read (bit_xor line.paddr addr)
              (coherent.reads addr word (ground (arith, e))))
        | inr e ↦ rw e miss_read
      ]

  hit-Writes :
      (paddr : ℕ)
      → walked AccessType.write ≡ some paddr
      → Writes model read_memory ctx
          (ok paddr ctx)
          (translate_vaddr read_memory ctx addr AccessType.write)
  unfolding translate_vaddr
  hit-Writes paddr t =
      subst
        (λ o. Writes model read_memory ctx (ok paddr ctx) (delivered ctx addr AccessType.write o))
        (sym t) (hit paddr coherent)

  translate_write-Writes :
      Writes model read_memory ctx
        (translate_write model read_memory ctx addr)
        (translate_vaddr read_memory ctx addr AccessType.write)
  unfolding translate_write
  translate_write-Writes =
      let line = line_at ctx.shared.line (line_of model addr) in
      elim (Bool-cases (line.tag == sll 64 (line_of model addr) 1)) [
        | inl e ↦
            rw e
              (hit-Writes (bit_xor line.paddr addr) (coherent.writes addr word (ground (arith, e))))
        | inr e ↦ rw e miss_write
      ]

  insn_translate-Serves :
      Serves model read_memory ctx
        (insn_translate model read_memory ctx addr)
        (translate_vaddr read_memory ctx addr AccessType.execute)
  unfolding insn_translate
  insn_translate-Serves =
      let line = line_at ctx.shared.i_line (line_of model addr) in
      elim (Bool-cases (line.tag == line_of model addr)) [
        | inl e ↦ rw e (
            hit-Serves AccessType.execute (bit_xor line.paddr addr)
              (coherent.fetches addr word (ground (arith, e))))
        | inr e ↦ rw e miss_fetch
      ]

  -- The three kinds of access through the caches of a hart whose caches are coherent, reads, writes and
  -- instruction fetches of a 64-bit address, each give what the page walk gives: the same address, or
  -- the same page fault. A read and a fetch change nothing but the caches, a write that hits changes
  -- nothing, and a write that misses refills a line and then removes the code of the page it goes to.
  -- All leave the caches coherent.
  pub access-Serves :
      Serves model read_memory ctx
        (translate_read model read_memory ctx addr)
        (translate_vaddr read_memory ctx addr AccessType.read)
      × Writes model read_memory ctx
          (translate_write model read_memory ctx addr)
          (translate_vaddr read_memory ctx addr AccessType.write)
      × Serves model read_memory ctx
          (insn_translate model read_memory ctx addr)
          (translate_vaddr read_memory ctx addr AccessType.execute)
  access-Serves = (translate_read-Serves, translate_write-Writes, insn_translate-Serves)
