-- ===== src/Emu/Tests/Caches.antt =====
-- Concrete runs of accesses through the caches, and of the switches that flush them.
use r2vm.Base.{ℕ, ◌+◌, ◌*◌, ◌^◌, ◌≡◌, inl, refl, arith, replicate, length-replicate, some, List}
use r2vm.Riscv.Csr
use r2vm.Riscv.Mmu.{AccessType}
use r2vm.Emu.Context.{Context, CacheLine, Leaves, clear_caches}
use r2vm.Emu.Csr.{write_csr}
use r2vm.Emu.Trap.{trap, trap_to_m, mret, delegated}
use r2vm.Emu.Translate.{
  MemoryModel, no_line, translate_read, translate_write, insn_translate, translate_vaddr,
}
use r2vm.Base.{[], ◌∷◌}
use r2vm.Emu.Translate.Invalidate.{icache_invalidate}
use r2vm.Emu.Translate.CodePages.{IsInvalidated, icache_invalidate-IsInvalidated}
use r2vm.Emu.Translate.Coherence.{HasCoherentCaches}
use r2vm.Emu.Translate.Access.{Serves, Writes, access-Serves}
use r2vm.Emu.Translate.Switch.{clear_caches-IsCoherent}
use r2vm.Emu.Translate.Csr.{write_csr-HasCoherentCaches}
use r2vm.Emu.Translate.Trap.{trap-HasCoherentCaches, mret-HasCoherentCaches}
use r2vm.Emu.Tests.{env, hart}

-- Every entry of the page table is a leaf that is open to S mode, with a superpage at frame 0.
abbrev table : ℕ → ℕ
table = λ _. 0xCF

abbrev lines : List CacheLine
lines = replicate 1024 no_line

-- A hart in a given mode with empty caches and address translation on.
abbrev pub paged : ℕ → Context
paged prv = record hart {
  prv = prv;
  satp = 8 * 2 ^ 60 + 1;
  shared = clear_caches (record hart.shared { line = lines; i_line = lines });
}

pub coherent : (prv : ℕ) → HasCoherentCaches MemoryModel.simple table (paged prv)
coherent prv =
    clear_caches-IsCoherent MemoryModel.simple table (8 * 2 ^ 60 + 1) prv hart.mstatus
      (record hart.shared { line = lines; i_line = lines }) (length-replicate 1024 no_line)
      (length-replicate 1024 no_line)

access-Serves_example :
    Serves MemoryModel.simple table
      (paged 1)
      (translate_read MemoryModel.simple table (paged 1) 0x1234)
      (translate_vaddr table (paged 1) 0x1234 AccessType.read)
    × Writes MemoryModel.simple table
        (paged 1)
        (translate_write MemoryModel.simple table (paged 1) 0x1234)
        (translate_vaddr table (paged 1) 0x1234 AccessType.write)
    × Serves MemoryModel.simple table
        (paged 1)
        (insn_translate MemoryModel.simple table (paged 1) 0x1234)
        (translate_vaddr table (paged 1) 0x1234 AccessType.execute)
access-Serves_example =
    access-Serves MemoryModel.simple table (paged 1) (coherent 1) 0x1234 (omega arith)

write_csr-HasCoherentCaches_example :
    Leaves
      (write_csr env (paged 1) Csr.sstatus 0xC0000)
      (HasCoherentCaches MemoryModel.simple table)
write_csr-HasCoherentCaches_example =
    write_csr-HasCoherentCaches MemoryModel.simple table (paged 1) (coherent 1) 0xC0000 env
      Csr.sstatus

ecall : trap env (paged 1) ≡ some (trap_to_m (paged 1))
unfolding trap delegated
ecall = refl

trap-HasCoherentCaches_example : HasCoherentCaches MemoryModel.simple table (trap_to_m (paged 1))
trap-HasCoherentCaches_example =
    trap-HasCoherentCaches MemoryModel.simple table env (paged 1) (trap_to_m (paged 1))
      (inl (omega arith)) refl (coherent 1) ecall

mret-HasCoherentCaches_example :
    Leaves (mret (paged 3)) (HasCoherentCaches MemoryModel.simple table)
mret-HasCoherentCaches_example =
    mret-HasCoherentCaches MemoryModel.simple table (paged 3) refl refl (omega arith) (coherent 3)

-- A page of code is written: the hart and its peer are told.
abbrev coded : Context
coded = record hart { code_prot = 3 ∷ 8 ∷ []; peers = hart.shared ∷ [] }

icache_invalidate-IsInvalidated_example :
    IsInvalidated coded 8 9 (icache_invalidate coded 0x8010 0x8011)
icache_invalidate-IsInvalidated_example =
    icache_invalidate-IsInvalidated coded 0x8010 0x8011 (omega arith) (omega arith)
