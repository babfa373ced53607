-- ===== src/Riscv/Mmu/Walk.antt =====
-- `walk_page` against the translation process of the privileged manual (Sv39).
use r2vm.Base.{
  ℕ, zero, suc, ◌+◌, ◌-◌, ◌*◌, ◌/◌, ◌%◌, ◌^◌, ◌≤◌, ◌<◌, ◌≡◌, ◌≢◌, ◌⊎◌, ◌∙◌, refl, arith,
}
use r2vm.Base.{
  Bool, Bool-cases, true, false, is_set, sra, sll, ◌>>>◌, ◌↔◌, ◌||◌, ◌==◌, if◌then◌else◌, inl, inr,
  bit_and, bit_or, flag,
}
use r2vm.Base.{bit_and-flag, bit_and-mask, bit_and-field, bit_or-fields, bit_or-low_part}
use r2vm.Riscv.Mmu.{walk_page, walk_from, visit_entry, pte_g}

-- What `walk_page` hands back for a leaf: a 4K entry for the page that holds the address, with the
-- leaf's low ten bits and the G bit of all the entries on the way.
abbrev pub page_entry : ℕ → ℕ → ℕ → Bool → ℕ
page_entry vpn j pte global =
    (pte / 2 ^ 10 + vpn % 2 ^ (18 - j * 9)) * 2 ^ 10
    + bit_or (pte % 2 ^ 10) (if global then pte_g else 0)

-- A virtual page number of Sv39: 27 bits and their sign, in a word without its twelve low bits.
abbrev pub IsCanonical : ℕ → Type 0
IsCanonical vpn = (vpn < 2 ^ 26) ⊎ ((2 ^ 52 - 2 ^ 26 ≤ vpn) × (vpn < 2 ^ 52))

abbrev pub IsWord : ℕ → Type 0
IsWord x = x < 2 ^ 64

-- An entry that points to the next table: V, and none of R, W, X.
pub record IsPointer (pte : ℕ) : Type 0 where
  pub valid : flag pte 0 ≡ 1
  pub no_read : flag pte 1 ≡ 0
  pub no_write : flag pte 2 ≡ 0
  pub no_execute : flag pte 3 ≡ 0

-- An entry of round `i` that ends the walk: valid, readable or executable, readable if it is
-- writable, and aligned if it is a superpage.
pub record IsLeaf (i pte : ℕ) : Type 0 where
  pub valid : flag pte 0 ≡ 1
  pub rights : (flag pte 1 ≡ 1) ⊎ ((flag pte 2 ≡ 0) × (flag pte 3 ≡ 1))
  pub aligned : pte / 2 ^ 10 % 2 ^ (18 - i * 9) ≡ 0

-- A leaf of round `i` makes the 4K entry.
visit_entry-leaf :
    (vpn i pte : ℕ) (global : Bool) (down : ℕ)
    → i < 3
    → IsLeaf i pte
    → IsWord pte
    → visit_entry vpn (18 - i * 9) pte global down ≡ page_entry vpn i pte global
unfolding visit_entry
visit_entry-leaf vpn zero pte global down hi l w = ground (
  arith,
  bit_and-flag 0 pte,
  bit_and-field 1 3 pte,
  bit_and-mask 18 vpn,
  bit_and-mask 18 (pte / 2 ^ 10),
  bit_and-mask 10 pte,
  bit_or-fields 18 (pte / 2 ^ 28) (vpn % 2 ^ 18),
  bit_or-fields 10 (pte / 2 ^ 10 + vpn % 2 ^ 18) (pte % 2 ^ 10),
  bit_or-low_part 10 (pte / 2 ^ 10 + vpn % 2 ^ 18) (pte % 2 ^ 10) (if global then pte_g else 0),
)
visit_entry-leaf vpn (suc zero) pte global down hi l w = ground (
  arith,
  bit_and-flag 0 pte,
  bit_and-field 1 3 pte,
  bit_and-mask 9 vpn,
  bit_and-mask 9 (pte / 2 ^ 10),
  bit_and-mask 10 pte,
  bit_or-fields 9 (pte / 2 ^ 19) (vpn % 2 ^ 9),
  bit_or-fields 10 (pte / 2 ^ 10 + vpn % 2 ^ 9) (pte % 2 ^ 10),
  bit_or-low_part 10 (pte / 2 ^ 10 + vpn % 2 ^ 9) (pte % 2 ^ 10) (if global then pte_g else 0),
)
visit_entry-leaf vpn (suc (suc zero)) pte global down hi l w = ground (
  arith,
  bit_and-flag 0 pte,
  bit_and-field 1 3 pte,
  bit_and-mask 0 vpn,
  bit_and-mask 0 (pte / 2 ^ 10),
  bit_and-mask 10 pte,
  bit_or-fields 0 (pte / 2 ^ 10) (vpn % 2 ^ 0),
  bit_or-fields 10 (pte / 2 ^ 10 + vpn % 2 ^ 0) (pte % 2 ^ 10),
  bit_or-low_part 10 (pte / 2 ^ 10 + vpn % 2 ^ 0) (pte % 2 ^ 10) (if global then pte_g else 0),
)
visit_entry-leaf vpn (suc (suc (suc i))) pte global down hi l w = absurd (omega arith)

-- A pointer lets the loop go on.
visit_entry-pointer :
    (vpn bits_left pte : ℕ) (global : Bool) (down : ℕ)
    → IsPointer pte
    → visit_entry vpn bits_left pte global down ≡ down
unfolding visit_entry
visit_entry-pointer vpn bits_left pte global down p =
    ground (arith, bit_and-flag 0 pte, bit_and-field 1 3 pte)

-- What is not zero comes from a leaf, or from the rest of the loop behind a pointer.
visit_entry-inv :
    (vpn i pte : ℕ) (global : Bool) (down : ℕ)
    → visit_entry vpn (18 - i * 9) pte global down ≢ 0
    → IsLeaf i pte ⊎ (IsPointer pte × (down ≢ 0))
unfolding visit_entry
visit_entry-inv vpn i pte global down ne =
    ground
      (arith, bit_and-flag 0 pte, bit_and-field 1 3 pte, bit_and-mask (18 - i * 9) (pte / 2 ^ 10))

global_bit :
    (pte : ℕ) (global : Bool)
    → (if is_set pte pte_g then true else global) ≡ (flag pte 5 == 1 || global)
global_bit pte global = ground (arith, bit_and-flag 5 pte)

-- The upper bits of the page number repeat bit 26, as `walk_page` checks it.
IsCanonical-check :
    (vpn : ℕ) → vpn < 2 ^ 52 → ((sra 64 (sll 64 vpn 37) 25 >>> 12) == vpn ≡ true) ↔ IsCanonical vpn
IsCanonical-check vpn h = ground arith

module _ (vpn : ℕ) (read_mem : ℕ → ℕ) where
  -- The page table entry that round `i` of the walk reads, from the table with page number `table`.
  abbrev pub entry : ℕ → ℕ → ℕ
  entry i table = read_mem (table * 2 ^ 12 % 2 ^ 64 + vpn / 2 ^ (18 - i * 9) % 2 ^ 9 * 8)

  -- From round `i`, with table `table`, and `global` for the G bits above, the walk ends in round `j`
  -- at the leaf `pte`, with `g` for all the G bits on the way.
  pub data Walks : ℕ → ℕ → Bool → ℕ → ℕ → Bool → Type 0 where
    leaf :
        (i table : ℕ) (global : Bool)
        → i < 3
        → IsLeaf i (entry i table)
        → Walks i table global i (entry i table) (flag (entry i table) 5 == 1 || global)
    down :
        (i table : ℕ) (global : Bool) {j pte : ℕ} {g : Bool}
        → i < 3
        → IsPointer (entry i table)
        → Walks (i + 1) (entry i table / 2 ^ 10) (flag (entry i table) 5 == 1 || global) j pte g
        → Walks i table global j pte g

  index_mask : (i : ℕ) → bit_and (vpn / 2 ^ (18 - i * 9)) 511 ≡ vpn / 2 ^ (18 - i * 9) % 2 ^ 9
  index_mask i = bit_and-mask 9 (vpn / 2 ^ (18 - i * 9))

  walk_from-step :
      (rounds i table : ℕ) (global : Bool)
      → walk_from vpn read_mem (suc rounds) i table global ≡ (
          let g = flag (entry i table) 5 == 1 || global in
          visit_entry vpn
            (18 - i * 9)
            (entry i table)
            g
            (walk_from vpn read_mem rounds (i + 1) (entry i table / 2 ^ 10) g))
  unfolding walk_from
  walk_from-step rounds i table global = rw (index_mask i) (rw (global_bit (entry i table) global))

  -- Every read is a 64-bit word.
  module _ (words : (a : ℕ) → IsWord (read_mem a)) where
    walk_from-Walks :
        (rounds : ℕ) {i table : ℕ} {global : Bool} {j pte : ℕ} {g : Bool}
        → i + rounds ≡ 3
        → Walks i table global j pte g
        → walk_from vpn read_mem rounds i table global ≡ page_entry vpn j pte g
    walk_from-Walks zero e (leaf i table global hi l) = absurd (omega arith)
    walk_from-Walks zero e (down i table global hi p rest) = absurd (omega arith)
    walk_from-Walks (suc rounds) e (leaf i table global hi l) =
        walk_from-step rounds i table global ∙ visit_entry-leaf vpn i _ _ _ hi l (words _)
    walk_from-Walks (suc rounds) e (down i table global hi p rest) =
        walk_from-step rounds i table global
        ∙ visit_entry-pointer vpn _ _ _ _ p
        ∙ walk_from-Walks rounds (omega arith) rest

    walk_from-inv :
        (rounds i table : ℕ) (global : Bool)
        → i + rounds ≡ 3
        → walk_from vpn read_mem rounds i table global ≢ 0
        → (j pte : ℕ) × (g : Bool) × Walks i table global j pte g
    walk_from-inv zero i table global e ne = absurd (ne (unfold walk_from in refl))
    walk_from-inv (suc rounds) i table global e ne =
        elim (visit_entry-inv vpn i (entry i table) _ _ (rw walk_from-step at ne)) [
          | inl l ↦ (i, entry i table, _, leaf i table global (omega arith) l)
          | inr (p, rest) ↦
              let (j, pte, g, w) = walk_from-inv rounds (i + 1) _ _ (omega arith) rest in
              (j, pte, g, down i table global (omega arith) p w)
        ]

    root : (satp : ℕ) → bit_and satp (2 ^ 44 - 1) ≡ satp % 2 ^ 44
    root satp = bit_and-mask 44 satp

    -- For a memory of 64-bit words and a canonical page number, where the walk from the root table of `satp` ends in a leaf, at any of
    -- the three levels, `walk_page` returns that leaf's page, aligned to 4K within a
    -- superpage, with the leaf's low bits and the G bits of the whole way.
    pub walk_page-Walks :
        (satp : ℕ) {j pte : ℕ} {g : Bool}
        → IsCanonical vpn
        → Walks 0 (satp % 2 ^ 44) false j pte g
        → walk_page vpn read_mem satp ≡ page_entry vpn j pte g
    unfolding walk_page
    walk_page-Walks satp c w = rw (root satp) (
        ground (
          arith,
          IsCanonical-check vpn,
          walk_from-Walks 3 {i = 0} {table = satp % 2 ^ 44} {global = false} refl w,
        ))

    -- For a memory of 64-bit words and a page number below 2^52, a result that is not zero comes from
    -- such a walk, of a canonical page number: for any other page
    -- number, and where an entry is invalid, reserved, misaligned or a pointer at the last level,
    -- `walk_page` returns zero.
    pub walk_page-inv :
        (satp : ℕ)
        → vpn < 2 ^ 52
        → walk_page vpn read_mem satp ≢ 0
        → IsCanonical vpn × ((j pte : ℕ) × (g : Bool) × Walks 0 (satp % 2 ^ 44) false j pte g)
    unfolding walk_page
    walk_page-inv satp h ne = elim (Bool-cases ((sra 64 (sll 64 vpn 37) 25 >>> 12) == vpn)) [
      | inl c ↦ (
        (IsCanonical-check vpn h).0 c,
        walk_from-inv 3 0 (satp % 2 ^ 44) false refl (rw (c, root satp) at ne),
      )
      | inr c ↦ absurd (rw c at ne refl)
    ]
