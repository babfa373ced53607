-- ===== src/Emu/Translate/Switch.antt =====
-- What changes the translation flushes the caches.
use r2vm.Base.{ℕ, ◌≡◌, refl, ap, ◌∙◌, arith, length, List, [], ◌∷◌, map, suc, zero}
use r2vm.Base.{bit_and, ◌>>>◌, get_or, flag, bit_and-flag, bit_and-mask}
use r2vm.Riscv.Mmu.{AccessType, walk_page}
use r2vm.Riscv.Mmu.Permission.{check_permission-status}
use r2vm.Emu.Context.{
  SharedContext, CacheLine, invalidate, invalid_tag, clear_caches, clear_local_cache,
  clear_local_icache,
}
use r2vm.Emu.Translate.{MemoryModel, line_at, line_of, no_line, translation, access_prv}
use r2vm.Emu.Translate.Coherence.{IsCoherent, line_of-lt}

get_or-map :
    {A B : Type 0} (f : A → B) (xs : List A) (i : ℕ) (d : A)
    → get_or (map f xs) i (f d) ≡ f (get_or xs i d)
get_or-map f [] i d = refl
get_or-map f (x ∷ xs) zero d = refl
get_or-map f (x ∷ xs) (suc i) d = get_or-map f xs i d

length-map : {A B : Type 0} (f : A → B) (xs : List A) → length (map f xs) ≡ length xs
length-map f [] = refl
length-map f (x ∷ xs) = ap suc (length-map f xs)

cleared : (lines : List CacheLine) (j : ℕ) → (line_at (map invalidate lines) j).tag ≡ invalid_tag
unfolding invalidate
cleared lines j =
    ap (λ (l : CacheLine). l.tag) (get_or-map invalidate lines (bit_and j 1023) no_line)

module _ (model : MemoryModel) (read_memory : ℕ → ℕ) where
  -- Caches that are flushed are coherent with any page table, in any mode.
  pub clear_caches-IsCoherent :
      (satp prv status : ℕ) (s : SharedContext)
      → length s.line ≡ 1024
      → length s.i_line ≡ 1024
      → IsCoherent model read_memory satp prv status (clear_caches s)
  unfolding clear_caches clear_local_cache clear_local_icache
  clear_caches-IsCoherent satp prv status s l i = record {
    size = length-map invalidate s.line ∙ l;
    i_size = length-map invalidate s.i_line ∙ i;
    reads = λ addr ha hit.
        absurd (omega (arith, hit, cleared s.line (line_of model addr), line_of-lt model addr ha));
    writes = λ addr ha hit.
        absurd (omega (arith, hit, cleared s.line (line_of model addr), line_of-lt model addr ha));
    fetches = λ addr ha hit.
        absurd
          (omega (arith, hit, cleared s.i_line (line_of model addr), line_of-lt model addr ha));
  }

-- Two status words that every access reads in the same way at privilege `prv`.
pub record SameView (prv a b : ℕ) : Type 0 where
  pub sum : flag a 18 ≡ flag b 18
  pub mxr : flag a 19 ≡ flag b 19
  pub mode : (access : AccessType) → access_prv prv a access ≡ access_prv prv b access

pub refl-SameView : (prv a : ℕ) → SameView prv a a
refl-SameView prv a = record { sum = refl; mxr = refl; mode = λ access. refl }

-- MPRV and MPP decide the privilege of an access in M mode.
pub flags-SameView :
    (prv a b : ℕ)
    → flag a 11 ≡ flag b 11
    → flag a 12 ≡ flag b 12
    → flag a 17 ≡ flag b 17
    → flag a 18 ≡ flag b 18
    → flag a 19 ≡ flag b 19
    → SameView prv a b
unfolding access_prv
flags-SameView prv a b low high on sum mxr = record {
  sum = sum;
  mxr = mxr;
  mode = λ access. rw (mprv, mpp) refl;
}
  where
    mprv : bit_and a 0x20000 ≡ bit_and b 0x20000
    mprv = omega (arith, bit_and-flag 17 a, bit_and-flag 17 b, on)

    mpp : bit_and (a >>> 11) 3 ≡ bit_and (b >>> 11) 3
    mpp = omega (arith, bit_and-mask 2 (a >>> 11), bit_and-mask 2 (b >>> 11), low, high)

module _ (model : MemoryModel) (read_memory : ℕ → ℕ) where
  translation-view :
      (satp prv a b addr : ℕ) (access : AccessType)
      → SameView prv a b
      → translation read_memory satp prv a addr access
        ≡ translation read_memory satp prv b addr access
  unfolding translation
  translation-view satp prv a b addr access v =
      rw
        (
          v.mode access,
          check_permission-status (walk_page (addr >>> 12) read_memory satp) access
              (access_prv prv b access) a b v.sum v.mxr,
        )
        refl

  -- Coherence goes over to a context with the same view of memory and the same lines.
  pub same-IsCoherent :
      (satp prv a b : ℕ) (s t : SharedContext)
      → SameView prv a b
      → t.line ≡ s.line
      → t.i_line ≡ s.i_line
      → IsCoherent model read_memory satp prv b s
      → IsCoherent model read_memory satp prv a t
  same-IsCoherent satp prv a b s t v l i c = record {
    size = ap length l ∙ c.size;
    i_size = ap length i ∙ c.i_size;
    reads =
        λ addr ha. rw (l, translation-view satp prv a b addr AccessType.read v) (c.reads addr ha);
    writes =
        λ addr ha. rw (l, translation-view satp prv a b addr AccessType.write v) (c.writes addr ha);
    fetches = λ addr ha.
        rw (i, translation-view satp prv a b addr AccessType.execute v) (c.fetches addr ha);
  }
