-- ===== src/Emu/Translate/Coherence.antt =====
-- What the L0 caches promise: a hit gives what a translation gives.
use r2vm.Base.{ℕ, ◌/◌, ◌^◌, ◌<◌, ◌≡◌, arith, some, length}
use r2vm.Base.{bit_and, bit_and-mask, bit_xor, sll, ◌>>>◌}
use r2vm.Riscv.Mmu.{AccessType}
use r2vm.Emu.Context.{Context, SharedContext, CacheLine}
use r2vm.Emu.Translate.{MemoryModel, line_at, line_of, translation, cache_line_size_log2}

-- What a line says of an address: where the address hits, as `translate_read`, `translate_write` and
-- `insn_translate` test it, the page walk allows the access and gives the address that the hit gives.
module _ (model : MemoryModel) (read_memory : ℕ → ℕ) (satp prv status addr : ℕ) where
  abbrev pub ServesRead : CacheLine → Type 0
  ServesRead line =
      line.tag >>> 1 ≡ line_of model addr
      → translation read_memory satp prv status addr AccessType.read
        ≡ some (bit_xor line.paddr addr)

  abbrev pub ServesWrite : CacheLine → Type 0
  ServesWrite line =
      line.tag ≡ sll 64 (line_of model addr) 1
      → translation read_memory satp prv status addr AccessType.write
        ≡ some (bit_xor line.paddr addr)

  abbrev pub ServesFetch : CacheLine → Type 0
  ServesFetch line =
      line.tag ≡ line_of model addr
      → translation read_memory satp prv status addr AccessType.execute
        ≡ some (bit_xor line.paddr addr)

-- The caches have 1024 lines each, and the line that a 64-bit address looks at serves it.
pub record IsCoherent (model : MemoryModel) (read_memory : ℕ → ℕ) (satp prv status : ℕ)
    (s : SharedContext) : Type 0 where
  pub size : length s.line ≡ 1024
  pub i_size : length s.i_line ≡ 1024
  pub reads :
      (addr : ℕ)
      → addr < 2 ^ 64
      → ServesRead model read_memory satp prv status addr (line_at s.line (line_of model addr))
  pub writes :
      (addr : ℕ)
      → addr < 2 ^ 64
      → ServesWrite model read_memory satp prv status addr (line_at s.line (line_of model addr))
  pub fetches :
      (addr : ℕ)
      → addr < 2 ^ 64
      → ServesFetch model read_memory satp prv status addr (line_at s.i_line (line_of model addr))

-- The caches of a hart.
abbrev pub HasCoherentCaches : MemoryModel → (ℕ → ℕ) → Context → Type 0
HasCoherentCaches model read_memory ctx =
    IsCoherent model read_memory ctx.satp ctx.prv ctx.mstatus ctx.shared

pub line_of-lt : (model : MemoryModel) (addr : ℕ) → addr < 2 ^ 64 → line_of model addr < 2 ^ 58
unfolding cache_line_size_log2
line_of-lt MemoryModel.atomic addr h = omega arith
line_of-lt MemoryModel.simple addr h = omega arith

-- A line lies in one page.
pub line_of-page :
    (model : MemoryModel) (a b : ℕ) → line_of model a ≡ line_of model b → a / 2 ^ 12 ≡ b / 2 ^ 12
unfolding cache_line_size_log2
line_of-page MemoryModel.atomic a b h = h
line_of-page MemoryModel.simple a b h = omega (arith, h)

pub index-lt : (idx : ℕ) → bit_and idx 1023 < 1024
index-lt idx = omega (arith, bit_and-mask 10 idx)
