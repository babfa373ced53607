-- ===== src/Emu/Step/ReadBack.antt =====
-- What SD stores, LD reads back.
use r2vm.Base.{
  ℕ, ◌^◌, ◌<◌, ◌≡◌, inl, inr, refl, ap, ◌∙◌, arith, Bool, Bool-cases, ◌==◌, true, false,
}
use r2vm.Base.{
  List, get_or, sll, ◌>>>◌, bit_xor, bit_or, bit_and, bit_xor-cancel, is_set, some, length,
  get_or-set_self, wrapping_add,
}
use r2vm.Riscv.Op.{Op}
use r2vm.Riscv.Mmu.{AccessType}
use r2vm.Emu.Context.{Context, CacheLine, Outcome, ok, ◌>>=◌}
use r2vm.Emu.Translate.{
  MemoryModel, line_at, line_of, no_line, translation, delivered, translate_vaddr, translate_read,
  translate_write, data_access, insert_data_cache_line,
}
use r2vm.Emu.Translate.Coherence.{line_of-lt, index-lt}
use r2vm.Emu.Translate.Refill.{tag_of-value}
use r2vm.Base.{sym}
use mathlib.Core.Path.{subst}
use r2vm.Emu.Translate.{translate_cache_miss}
use r2vm.Emu.Translate.Invalidate.{icache_invalidate, icache_invalidate-OnlyCodeChanges}
use r2vm.Emu.Step.{step}
use r2vm.Emu.Step.Arms.{
  Platform, read_reg, write_reg, counted, load_arm, store_arm, read_vaddr, ptr_vaddr_x, vaddr,
}
use r2vm.Emu.Step.Arith.{imm_as_u64}
use r2vm.Emu.Step.Bytes.{Memory, load, store, load-store}

-- After a translation for a write, the cache reads the same address back.
record Hits (model : MemoryModel) (addr paddr : ℕ) (c : Context) : Type 0 where
  hit : (line_at c.shared.line (line_of model addr)).tag >>> 1 ≡ line_of model addr
  target : bit_xor (line_at c.shared.line (line_of model addr)).paddr addr ≡ paddr

-- The removal of code leaves the lines.
Hits-icache_invalidate :
    (model : MemoryModel) (addr paddr : ℕ) (c : Context) (start end : ℕ)
    → Hits model addr paddr c
    → Hits model addr paddr (icache_invalidate c start end)
Hits-icache_invalidate model addr paddr c start end h =
    subst (Hits model addr paddr) (sym (icache_invalidate-OnlyCodeChanges c start end))
      (record { hit = h.hit; target = h.target })

module _ (model : MemoryModel) (mem : ℕ → ℕ) (ctx : Context) (addr : ℕ) (word : addr < 2 ^ 64) where
  -- The translation succeeds, with the line in the cache.
  abbrev Filled : Outcome ℕ → Type 0
  Filled o =
      (paddr : ℕ) × (c : Context) × (o ≡ ok paddr c)
      × (c.registers ≡ ctx.registers)
      × Hits model addr paddr c

  miss-Filled :
      (paddr : ℕ)
      → length ctx.shared.line ≡ 1024
      → translation mem ctx.satp ctx.prv ctx.mstatus addr AccessType.write ≡ some paddr
      → Filled (translate_cache_miss model mem ctx addr true)
  unfolding translate_cache_miss data_access translate_vaddr insert_data_cache_line delivered
  miss-Filled paddr size t =
      let idx = line_of model addr in
      let line : CacheLine = record { tag = bit_or (sll 64 idx 1) 0; paddr = bit_xor paddr addr } in
      let put =
        get_or-set_self ctx.shared.line (bit_and idx 1023) line no_line
          (omega (arith, size, index-lt idx)) in
      (
        paddr,
        icache_invalidate filled paddr (wrapping_add 64 paddr 1),
        ap
            (λ o.
              delivered ctx addr AccessType.write o
              >>= (λ q c.
                  ok q (record c { shared = insert_data_cache_line model c.shared addr q true }))
              >>= (λ out c. ok out (icache_invalidate c out (wrapping_add 64 out 1))))
            t,
        ap (λ (c : Context). c.registers)
            (icache_invalidate-OnlyCodeChanges filled paddr (wrapping_add 64 paddr 1)),
        Hits-icache_invalidate model addr paddr filled paddr (wrapping_add 64 paddr 1) (record {
          hit = omega (
            arith,
            ap (λ (l : CacheLine). l.tag) put,
            tag_of-value idx true (line_of-lt model addr word),
          );
          target = ap (λ (l : CacheLine). bit_xor l.paddr addr) put ∙ bit_xor-cancel paddr addr;
        }),
      )
    where
      filled : Context
      filled = record ctx { shared = insert_data_cache_line model ctx.shared addr paddr true }

  translate_write-Filled :
      (paddr : ℕ)
      → length ctx.shared.line ≡ 1024
      → translation mem ctx.satp ctx.prv ctx.mstatus addr AccessType.write ≡ some paddr
      → Filled (translate_write model mem ctx addr)
  unfolding translate_write
  translate_write-Filled paddr size t =
      let idx = line_of model addr in
      let line = line_at ctx.shared.line idx in
      elim (Bool-cases (line.tag == sll 64 idx 1)) [
        | inl e ↦ rw e (
          bit_xor line.paddr addr,
          ctx,
          refl,
          refl,
          record { hit = ground (arith, e, line_of-lt model addr word); target = refl },
        )
        | inr e ↦ rw e (miss-Filled paddr size t)
      ]

  -- A read that hits.
  read_hit :
      (read_memory : ℕ → ℕ) (c : Context) (paddr : ℕ)
      → Hits model addr paddr c
      → translate_read model read_memory (counted c) addr ≡ ok paddr (counted c)
  unfolding translate_read
  read_hit read_memory c paddr h =
      let line = line_at c.shared.line (line_of model addr) in
      let e : (line.tag >>> 1 == line_of model addr) ≡ true = ground (arith, h.hit) in
      rw e (ap (λ (t : ℕ). ok t (counted c)) h.target)

module _ (p : Platform) (mem : Memory) (ctx : Context) (rs1 imm : ℕ) where
  abbrev addr : ℕ
  addr = vaddr p mem ctx rs1 imm

  stored :
      (rs2 : ℕ) (compressed : Bool)
      → is_set addr 7 ≡ false
      → (paddr : ℕ) (c : Context)
      → translate_write p.model (load 8 mem) (counted ctx) addr ≡ ok paddr c
      → step p mem ctx (Op.sd rs1 rs2 imm) compressed ≡ ok (store 8 mem paddr (read_reg c rs2)) c
  unfolding step store_arm ptr_vaddr_x
  stored rs2 compressed aligned paddr c e =
      rw aligned (ap (λ o. o >>= (λ q d. ok (store 8 mem q (read_reg d rs2)) d)) e)

  loaded :
      (m : Memory) (c : Context) (rd paddr v : ℕ) (compressed : Bool)
      → is_set addr 7 ≡ false
      → c.registers ≡ ctx.registers
      → Hits p.model addr paddr c
      → load 8 m paddr ≡ v
      → step p m c (Op.ld rd rs1 imm) compressed ≡ ok m (write_reg (counted c) rd v)
  unfolding step load_arm read_vaddr
  loaded m c rd paddr v compressed aligned same hits value =
      let same_addr : vaddr p m c rs1 imm ≡ addr =
        ap (λ (r : List ℕ). wrapping_add 64 (get_or r rs1 0) (imm_as_u64 imm)) same in
      rw (same_addr, aligned)
        (ap (λ o. o >>= (λ q d. ok m (write_reg d rd (load 8 m q))))
            (read_hit p.model (load 8 mem) ctx addr (omega arith) (load 8 m) c paddr hits)
          ∙ ap (λ (t : ℕ). ok m (write_reg (counted c) rd t)) value)

  -- A double word that SD stores, LD reads back: for an aligned address whose page is open to writes,
  -- SD returns, and an LD from the same address right after it returns too and gives the register that
  -- was stored, even where the store has changed a page table. The cache has its 1024 lines.
  pub ld-sd :
      (rs2 rd : ℕ) (compressed compressed' : Bool) (paddr : ℕ)
      → is_set addr 7 ≡ false
      → length ctx.shared.line ≡ 1024
      → read_reg ctx rs2 < 2 ^ 64
      → translation (load 8 mem) ctx.satp ctx.prv ctx.mstatus addr AccessType.write ≡ some paddr
      → (m : Memory) × (c : Context) × (step p mem ctx (Op.sd rs1 rs2 imm) compressed ≡ ok m c)
        × (step p m c (Op.ld rd rs1 imm) compressed'
            ≡ ok m (write_reg (counted c) rd (read_reg ctx rs2)))
  ld-sd rs2 rd compressed compressed' paddr aligned size word t =
      let (at, c, e, same, hits) =
        translate_write-Filled p.model (load 8 mem) (counted ctx) addr (omega arith) paddr size t in
      (
        store 8 mem at (read_reg c rs2),
        c,
        stored rs2 compressed aligned at c e,
        loaded _ c rd at (read_reg ctx rs2) compressed' aligned same hits (
            ap (λ (r : List ℕ). load 8 (store 8 mem at (get_or r rs2 0)) at) same
            ∙ load-store 8 mem at (read_reg ctx rs2) word),
      )
