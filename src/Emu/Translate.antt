-- ===== src/Emu/Translate.antt =====
-- Address translation and the L0 caches in front of it: `translate_vaddr`, the cache lines and
-- `translate_read`, `translate_write` and `insn_translate` of `src/emu/interp.rs`, and the memory
-- models of `src/sim/memory/mod.rs`. Memory is what `read_memory::<u64>` reads.
pub mod Permission
pub mod Invalidate
pub mod CodePages
pub mod Coherence
pub mod Refill
pub mod Access
pub mod Switch
pub mod Csr
pub mod Trap
use r2vm.Base.{
  ℕ, zero, suc, ◌+◌, ◌-◌, ◌*◌, ◌/◌, ◌%◌, ◌^◌, List, Bool, true, false, ◌&&◌, ◌||◌, not, ◌==◌,
  if◌then◌else◌,
}
use r2vm.Base.{bit_and, bit_or, bit_xor, is_set, sll, ◌>>>◌, get_or, set, Option, none, some}
use r2vm.Riscv.Mmu.{AccessType, walk_page, check_permission}
use r2vm.Emu.Context.{CacheLine, SharedContext, Context, Outcome, ok, ◌>>=◌, raise, invalidate}
use r2vm.Emu.Context.{invalid_tag}
use r2vm.Base.{wrapping_add}
use r2vm.Emu.Translate.Invalidate.{icache_invalidate}

pub data MemoryModel : Type 0 where
  atomic simple : MemoryModel

pub cache_line_size_log2 : MemoryModel → ℕ
cache_line_size_log2 MemoryModel.atomic = 12
cache_line_size_log2 MemoryModel.simple = 6

pub require_lockstep : MemoryModel → Bool
require_lockstep MemoryModel.atomic = false
require_lockstep MemoryModel.simple = true

-- What an index out of range would give; the caches have 1024 lines and indices are `& 1023`.
abbrev pub no_line : CacheLine
no_line = record { tag = invalid_tag; paddr = 0 }

abbrev pub line_at : List CacheLine → ℕ → CacheLine
line_at lines idx = get_or lines (bit_and idx 1023) no_line

abbrev pub is_execute : AccessType → Bool
is_execute AccessType.execute = true
is_execute AccessType.read = false
is_execute AccessType.write = false

-- The privilege that an access is made with: MPRV (bit 17) puts MPP in the place of M mode.
unfoldable pub access_prv : ℕ → ℕ → AccessType → ℕ
access_prv prv mstatus access =
    if prv == 3 && (is_set mstatus 0x20000 && not (is_execute access))
    then bit_and (mstatus >>> 11) 3
    else prv

abbrev pub page_fault : AccessType → ℕ
page_fault AccessType.read = 13
page_fault AccessType.write = 15
page_fault AccessType.execute = 12

-- The address, if the check of the permission (`Ok(())`) grants it.
abbrev pub granted : Option (Unit {0}) → ℕ → Option ℕ
granted none paddr = none
granted (some _) paddr = some paddr

-- How `translate_vaddr` returns: the address, or a page fault.
unfoldable pub delivered : Context → ℕ → AccessType → Option ℕ → Outcome ℕ
unfolding raise
delivered ctx addr access none = raise ctx (page_fault access) addr
delivered ctx addr access (some paddr) = ok paddr ctx

module _ (read_memory : ℕ → ℕ) where
  -- The address that an access is made to, or none if the page is not open to it.
  unfoldable pub translation : (satp prv mstatus addr : ℕ) → AccessType → Option ℕ
  unfolding access_prv
  translation satp prv mstatus addr access =
      let p = access_prv prv mstatus access in
      if satp >>> 60 == 0 || p == 3
      then some addr
      else let pte = walk_page (addr >>> 12) read_memory satp in
        granted (check_permission pte access p mstatus)
          (bit_or (sll 64 (pte >>> 10) 12) (bit_and addr 4095))

  unfoldable pub translate_vaddr : Context → ℕ → AccessType → Outcome ℕ
  unfolding translation delivered
  translate_vaddr ctx addr access =
      delivered ctx addr access (translation ctx.satp ctx.prv ctx.mstatus addr access)

module _ (model : MemoryModel) where
  abbrev pub line_of : ℕ → ℕ
  line_of addr = addr >>> cache_line_size_log2 model

  unfoldable pub insert_instruction_cache_line : SharedContext → (vaddr paddr : ℕ) → SharedContext
  insert_instruction_cache_line s vaddr paddr =
      let idx = line_of vaddr in
      record s {
        i_line =
            set s.i_line (bit_and idx 1023) (record { tag = idx; paddr = bit_xor paddr vaddr });
      }

  unfoldable pub insert_data_cache_line :
      SharedContext → (vaddr paddr : ℕ) → (writable : Bool) → SharedContext
  insert_data_cache_line s vaddr paddr writable =
      let idx = line_of vaddr in
      let tag = bit_or (sll 64 idx 1) (if writable then 0 else 1) in
      record s {
        line = set s.line (bit_and idx 1023) (record { tag = tag; paddr = bit_xor paddr vaddr });
      }

  -- `invalidate_cache_virtual` and `invalidate_icache_virtual`.
  unfoldable pub invalidate_cache_virtual : SharedContext → ℕ → SharedContext
  unfolding invalidate
  invalidate_cache_virtual s addr =
      let idx = line_of addr in
      record s { line = set s.line (bit_and idx 1023) (invalidate (line_at s.line idx)) }

  unfoldable pub invalidate_icache_virtual : SharedContext → ℕ → SharedContext
  unfolding invalidate
  invalidate_icache_virtual s addr =
      let idx = line_of addr in
      record s { i_line = set s.i_line (bit_and idx 1023) (invalidate (line_at s.i_line idx)) }

module _ (model : MemoryModel) (read_memory : ℕ → ℕ) (ctx : Context) where
  unfoldable pub instruction_access : ℕ → Outcome ℕ
  unfolding translate_vaddr insert_instruction_cache_line
  instruction_access addr = translate_vaddr read_memory ctx addr AccessType.execute >>= λ paddr c.
      ok paddr (record c { shared = insert_instruction_cache_line model c.shared addr paddr })

  unfoldable pub data_access : ℕ → (write : Bool) → Outcome ℕ
  unfolding translate_vaddr insert_data_cache_line
  data_access addr write =
      let access = if write then AccessType.write else AccessType.read in
      translate_vaddr read_memory ctx addr access >>= λ paddr c.
      ok paddr (record c { shared = insert_data_cache_line model c.shared addr paddr write })

  -- A page that is written is no longer one of translated code.
  unfoldable pub translate_cache_miss : ℕ → (write : Bool) → Outcome ℕ
  unfolding data_access icache_invalidate
  translate_cache_miss addr true =
      data_access addr true >>= λ out c. ok out (icache_invalidate c out (wrapping_add 64 out 1))
  translate_cache_miss addr false = data_access addr false

  unfoldable pub insn_translate : ℕ → Outcome ℕ
  unfolding instruction_access
  insn_translate addr =
      let idx = line_of model addr in
      let line = line_at ctx.shared.i_line idx in
      if not (line.tag == idx) then instruction_access addr else ok (bit_xor line.paddr addr) ctx

  unfoldable pub translate_read : ℕ → Outcome ℕ
  unfolding translate_cache_miss
  translate_read addr =
      let idx = line_of model addr in
      let line = line_at ctx.shared.line idx in
      if not (line.tag >>> 1 == idx)
      then translate_cache_miss addr false
      else ok (bit_xor line.paddr addr) ctx

  unfoldable pub translate_write : ℕ → Outcome ℕ
  unfolding translate_cache_miss
  translate_write addr =
      let idx = line_of model addr in
      let line = line_at ctx.shared.line idx in
      if not (line.tag == sll 64 idx 1)
      then translate_cache_miss addr true
      else ok (bit_xor line.paddr addr) ctx
