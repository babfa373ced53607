-- ===== src/Emu/Translate/Invalidate.antt =====
-- The removal of translated code behind a page that is written: `icache_invalidate` of
-- `src/emu/interp.rs`. The loops over the pages count the rounds that are left.
use r2vm.Base.{
  ℕ, zero, suc, ◌+◌, ◌-◌, ◌/◌, List, [], ◌∷◌, map, Bool, true, false, ◌||◌, ◌==◌, if◌then◌else◌,
  bit_and, not64, ◌>>>◌, wrapping_add, ◌≡◌, refl, ap,
}
use r2vm.Emu.Context.{SharedContext, Context, run_on, alert}

-- `remove` of the set of pages: whether the page is in it, and the set without it.
unfoldable pub contains : ℕ → List ℕ → Bool
contains page [] = false
contains page (q ∷ pages) = let rest = contains page pages in if q == page then true else rest

unfoldable pub remove : ℕ → List ℕ → List ℕ
remove page [] = []
remove page (q ∷ pages) = let rest = remove page pages in if q == page then rest else q ∷ rest

-- The pages from `start` are removed; whether any of them was in the set.
unfoldable pub remove_pages : (rounds start : ℕ) → List ℕ → Bool → Bool × List ℕ
unfolding contains remove
remove_pages zero start prot need_inv = (need_inv, prot)
remove_pages (suc rounds) start prot need_inv =
    remove_pages rounds (start + 4096) (remove (start >>> 12) prot)
      (need_inv || contains (start >>> 12) prot)

-- The task goes to a hart if it is needed.
unfoldable pub run_if : Bool → ℕ × ℕ → SharedContext → SharedContext
unfolding run_on
run_if true task s = run_on s task
run_if false task s = s

-- `start` is rounded down and `end` up to a page.
unfoldable pub icache_invalidate : Context → (start end : ℕ) → Context
unfolding remove_pages run_if
icache_invalidate ctx start end =
    let first = bit_and start (not64 4095) in
    let last = bit_and (wrapping_add 64 end 4095) (not64 4095) in
    let removed = remove_pages ((last - first) / 4096) first ctx.code_prot false in
    record ctx {
      code_prot = removed.1;
      shared = run_if removed.0 (first, last) ctx.shared;
      peers = map (run_if removed.0 (first, last)) ctx.peers;
    }

-- Nothing but the alarm and the queue of a hart changes.
run_if-fields :
    (need_inv : Bool) (task : ℕ × ℕ) (s : SharedContext)
    → run_if need_inv task s
      ≡ record s { alarm = (run_if need_inv task s).alarm; tasks = (run_if need_inv task s).tasks }
unfolding run_if run_on alert
run_if-fields true task s = refl
run_if-fields false task s = refl

-- `c` is `ctx` with other pages of code, and with tasks and alarms for the harts.
abbrev pub OnlyCodeChanges : Context → Context → Type 0
OnlyCodeChanges ctx c = c ≡ record ctx {
  code_prot = c.code_prot;
  peers = c.peers;
  shared = record ctx.shared { alarm = c.shared.alarm; tasks = c.shared.tasks };
}

pub icache_invalidate-OnlyCodeChanges :
    (ctx : Context) (start end : ℕ) → OnlyCodeChanges ctx (icache_invalidate ctx start end)
unfolding icache_invalidate
icache_invalidate-OnlyCodeChanges ctx start end =
    ap (λ s. record (icache_invalidate ctx start end) { shared = s }) (run_if-fields _ _ ctx.shared)
