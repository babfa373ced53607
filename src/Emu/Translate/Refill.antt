-- ===== src/Emu/Translate/Refill.antt =====
-- A line that is put in after a page walk keeps the caches coherent, and so does a line that is taken
-- out.
use r2vm.Base.{ℕ, ◌/◌, ◌^◌, ◌*◌, ◌+◌, ◌<◌, ◌≡◌, refl, ap, sym, ◌∙◌, arith, some, length}
use r2vm.Base.{
  bit_and, bit_or, sll, ◌>>>◌, set, get_or, length-set, get_or-set_self, get_or-set_ne, List,
}
use r2vm.Base.{bit_or-zero, bit_or-fields, Bool, true, false, if◌then◌else◌}
use native.Mathlib.Decide.{ℕ_discrete}
use mathlib.Core.Path.{subst}
use r2vm.Riscv.Mmu.{AccessType}
use r2vm.Emu.Context.{SharedContext, CacheLine}
use r2vm.Emu.Translate.{
  MemoryModel, line_at, line_of, no_line, translation, insert_data_cache_line,
  insert_instruction_cache_line,
}
use r2vm.Emu.Translate.Coherence.{
  IsCoherent, line_of-lt, line_of-page, index-lt, ServesRead, ServesWrite, ServesFetch,
}
use r2vm.Emu.Translate.Permission.{translation-moved, translation-write-read}

-- What holds for a line that is put in and for the line that was there holds afterwards.
line_at-set :
    (P : CacheLine → Type 0) (lines : List CacheLine) (line : CacheLine) (i j : ℕ)
    → length lines ≡ 1024
    → P line
    → P (line_at lines j)
    → P (line_at (set lines (bit_and i 1023) line) j)
line_at-set P lines line i j size new old = elim (ℕ_discrete (bit_and i 1023) (bit_and j 1023)) [
  | yes e ↦
      subst P
        (sym (
          ap (λ (t : ℕ). get_or (set lines (bit_and i 1023) line) t no_line) (sym e)
          ∙ get_or-set_self lines (bit_and i 1023) line no_line (omega (arith, index-lt i, size))))
        new
  | no ne ↦
      subst P (sym (get_or-set_ne lines (bit_and i 1023) (bit_and j 1023) line no_line ne)) old
]

-- The tag of a data line, and what is read back from it.
abbrev pub tag_of : ℕ → Bool → ℕ
tag_of idx writable = bit_or (sll 64 idx 1) (if writable then 0 else 1)

pub tag_of-value :
    (idx : ℕ) (writable : Bool)
    → idx < 2 ^ 58
    → tag_of idx writable ≡ idx * 2 + (if writable then 0 else 1)
tag_of-value idx true h = bit_or-zero (sll 64 idx 1) ∙ omega arith
tag_of-value idx false h =
    ap (λ (t : ℕ). bit_or t 1) {y = idx * 2 ^ 1} (omega arith) ∙ bit_or-fields 1 idx 1 (omega arith)

pub tag_of-read :
    (idx other : ℕ) (write : Bool) → idx < 2 ^ 58 → tag_of idx write >>> 1 ≡ other → idx ≡ other
tag_of-read idx other true h e = omega (arith, tag_of-value idx true h, e)
tag_of-read idx other false h e = omega (arith, tag_of-value idx false h, e)

tag_of-write :
    (idx other : ℕ) (write : Bool)
    → idx < 2 ^ 58
    → other < 2 ^ 58
    → tag_of idx write ≡ sll 64 other 1
    → (idx ≡ other) × (write ≡ true)
tag_of-write idx other true h h' e = (omega (arith, tag_of-value idx true h, e), refl)
tag_of-write idx other false h h' e = absurd (omega (arith, tag_of-value idx false h, e))

module _ (model : MemoryModel) (read_memory : ℕ → ℕ) (satp prv status : ℕ) (s : SharedContext)
    (c : IsCoherent model read_memory satp prv status s) (vaddr paddr : ℕ)
    (hv : vaddr < 2 ^ 64) where
  same_page : (addr : ℕ) → line_of model vaddr ≡ line_of model addr → vaddr / 2 ^ 12 ≡ addr / 2 ^ 12
  same_page addr e = line_of-page model vaddr addr e

  -- A read line, of a page that the walk opens to reads.
  pub insert_read_line-IsCoherent :
      translation read_memory satp prv status vaddr AccessType.read ≡ some paddr
      → IsCoherent model read_memory satp prv status
          (insert_data_cache_line model s vaddr paddr false)
  unfolding insert_data_cache_line
  insert_read_line-IsCoherent t = record {
    size = length-set s.line _ _ ∙ c.size;
    i_size = c.i_size;
    reads = λ addr ha.
        line_at-set (ServesRead model read_memory satp prv status addr) s.line _
          (line_of model vaddr) (line_of model addr) c.size
          (λ hit.
            translation-moved read_memory satp prv status AccessType.read vaddr addr paddr
              (same_page addr (
                tag_of-read (line_of model vaddr) (line_of model addr) false
                  (line_of-lt model vaddr hv) hit))
              t)
          (c.reads addr ha);
    writes = λ addr ha.
        line_at-set (ServesWrite model read_memory satp prv status addr) s.line _
          (line_of model vaddr) (line_of model addr) c.size
          (λ hit. absurd (
            ground (
              arith,
              (tag_of-write (line_of model vaddr) (line_of model addr) false
                  (line_of-lt model vaddr hv) (line_of-lt model addr ha) hit).1,
            )))
          (c.writes addr ha);
    fetches = c.fetches;
  }

  -- A writable line, of a page that the walk opens to writes.
  pub insert_write_line-IsCoherent :
      translation read_memory satp prv status vaddr AccessType.write ≡ some paddr
      → IsCoherent model read_memory satp prv status
          (insert_data_cache_line model s vaddr paddr true)
  unfolding insert_data_cache_line
  insert_write_line-IsCoherent t = record {
    size = length-set s.line _ _ ∙ c.size;
    i_size = c.i_size;
    reads = λ addr ha.
        line_at-set (ServesRead model read_memory satp prv status addr) s.line _
          (line_of model vaddr) (line_of model addr) c.size
          (λ hit.
            translation-moved read_memory satp prv status AccessType.read vaddr addr paddr
              (same_page addr (
                tag_of-read (line_of model vaddr) (line_of model addr) true
                  (line_of-lt model vaddr hv) hit))
              (translation-write-read read_memory satp prv status vaddr paddr t))
          (c.reads addr ha);
    writes = λ addr ha.
        line_at-set (ServesWrite model read_memory satp prv status addr) s.line _
          (line_of model vaddr) (line_of model addr) c.size
          (λ hit.
            translation-moved read_memory satp prv status AccessType.write vaddr addr paddr
              (same_page addr
                (tag_of-write (line_of model vaddr) (line_of model addr) true
                  (line_of-lt model vaddr hv) (line_of-lt model addr ha) hit).0)
              t)
          (c.writes addr ha);
    fetches = c.fetches;
  }

  pub insert_instruction_cache_line-IsCoherent :
      translation read_memory satp prv status vaddr AccessType.execute ≡ some paddr
      → IsCoherent model read_memory satp prv status
          (insert_instruction_cache_line model s vaddr paddr)
  unfolding insert_instruction_cache_line
  insert_instruction_cache_line-IsCoherent t = record {
    size = c.size;
    i_size = length-set s.i_line _ _ ∙ c.i_size;
    reads = c.reads;
    writes = c.writes;
    fetches = λ addr ha.
        line_at-set (ServesFetch model read_memory satp prv status addr) s.i_line _
          (line_of model vaddr) (line_of model addr) c.i_size
          (λ hit.
            translation-moved read_memory satp prv status AccessType.execute vaddr addr paddr
              (same_page addr hit) t)
          (c.fetches addr ha);
  }
