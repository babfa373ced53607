-- ===== src/Riscv/Mmu/Tests.antt =====
-- Concrete runs of the page walk and the permission check.
use r2vm.Base.{ℕ, ◌%◌, ◌^◌, ◌<◌, ◌≡◌, ◌↔◌, inl, refl, arith, Bool, false, some, if◌then◌else◌, ◌==◌}
use r2vm.Riscv.Mmu.{AccessType, check_permission, walk_page, walk_from, visit_entry}
use r2vm.Riscv.Mmu.Permission.{IsPermitted, check_permission_iff}
use r2vm.Riscv.Mmu.Walk.{IsCanonical, Walks, page_entry, leaf, down, walk_page-Walks, walk_page-inv}

check_permission_iff_example :
    (check_permission 0xdf AccessType.write 0 0 ≡ some tt) ↔ IsPermitted 0xdf AccessType.write 0 0
check_permission_iff_example = check_permission_iff 0xdf AccessType.write 0 0

-- A table of tables at page 1, whose first entry points to page 2, whose first entry is a 2M page.
abbrev memory : ℕ → ℕ
memory a = if a == 0x1000 then 0x801 else if a == 0x2000 then 0x800cf else 0

memory_words : (a : ℕ) → memory a < 2 ^ 64
memory_words a = ground arith

abbrev memory_walk : Walks 5 memory 0 1 false 1 0x800cf false
memory_walk =
    down 0 1 false (omega arith)
      (record { valid = refl; no_read = refl; no_write = refl; no_execute = refl })
      (leaf 1 2 false (omega arith) (record { valid = refl; rights = inl refl; aligned = refl }))

-- The entry is that of the page 0x205.
walked : walk_page 5 memory 1 ≡ 0x814cf
unfolding walk_page walk_from visit_entry
walked = refl

walk_page-Walks_example : walk_page 5 memory 1 ≡ page_entry 5 1 0x800cf false
walk_page-Walks_example = walk_page-Walks 5 memory memory_words 1 (inl (omega arith)) memory_walk

walk_page-inv_example :
    IsCanonical 5 × ((j pte : ℕ) × (g : Bool) × Walks 5 memory 0 (1 % 2 ^ 44) false j pte g)
walk_page-inv_example =
    walk_page-inv 5 memory memory_words 1 (omega arith) (λ e. omega (arith, walked, e))
