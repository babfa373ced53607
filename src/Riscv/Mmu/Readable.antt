-- ===== src/Riscv/Mmu/Readable.antt =====
-- `walk_page` never gives an entry that may be written but not read.
use r2vm.Base.{ℕ, zero, suc, ◌+◌, ◌-◌, ◌*◌, ◌^◌, ◌≡◌, inl, inr, refl, arith, Bool}
use r2vm.Base.{Bool-cases, true, false, ◌==◌, ◌>>>◌, if◌then◌else◌, not, sll, sra, is_set, is_clear}
use r2vm.Base.{bit_and, bit_or, flag, flag-bit_or, bit_and-mask}
use r2vm.Base.{bit_and-field}
use r2vm.Riscv.Mmu.{walk_page, walk_from, visit_entry, pte_g, pte_v, pte_w, pte_rwx}

-- An entry that is writable is readable.
pub record IsReadable (pte : ℕ) : Type 0 where
  pub readable : flag pte 2 ≡ 1 → flag pte 1 ≡ 1

leaf-IsReadable :
    (x pte g : ℕ)
    → flag g 1 ≡ 0
    → flag g 2 ≡ 0
    → IsReadable pte
    → IsReadable (bit_or (bit_or (sll 64 x 10) (bit_and pte 1023)) g)
leaf-IsReadable x pte g g1 g2 h = record {
  readable = λ w. grind (
    arith,
    flag-bit_or (bit_or (sll 64 x 10) (bit_and pte 1023)) g 1,
    flag-bit_or (bit_or (sll 64 x 10) (bit_and pte 1023)) g 2,
    flag-bit_or (sll 64 x 10) (bit_and pte 1023) 1,
    flag-bit_or (sll 64 x 10) (bit_and pte 1023) 2,
    bit_and-mask 10 pte,
    h.readable,
    w,
  );
}

unless :
    (b : Bool) {x y : ℕ}
    → IsReadable x
    → (b ≡ false → IsReadable y)
    → IsReadable (if b then x else y)
unless true p q = p
unless false p q = q refl

zero-IsReadable : IsReadable 0
zero-IsReadable = record { readable = λ w. omega arith }

checked-IsReadable :
    (pte : ℕ)
    → (bit_and pte pte_rwx == pte_w) ≡ false
    → (bit_and pte pte_rwx == 0x0c) ≡ false
    → IsReadable pte
checked-IsReadable pte e f = record {
  readable = λ w. ground (arith, bit_and-field 1 3 pte, e, f, w);
}

global-IsReadable :
    (x pte : ℕ) (global : Bool)
    → IsReadable pte
    → IsReadable (bit_or (bit_or (sll 64 x 10) (bit_and pte 1023)) (if global then pte_g else 0))
global-IsReadable x pte true h = leaf-IsReadable x pte pte_g (omega arith) (omega arith) h
global-IsReadable x pte false h = leaf-IsReadable x pte 0 (omega arith) (omega arith) h

visit_entry-IsReadable :
    (vpn bits_left pte : ℕ) (global : Bool) (down : ℕ)
    → IsReadable down
    → IsReadable (visit_entry vpn bits_left pte global down)
unfolding visit_entry
visit_entry-IsReadable vpn bits_left pte global down h =
    let ppn = pte >>> 10 in
    let rwx = bit_and pte pte_rwx in
    unless (is_clear pte pte_v) zero-IsReadable (λ _. unless (rwx == pte_w) zero-IsReadable (λ e.
      unless (rwx == 0x0c) zero-IsReadable (λ f. unless (rwx == 0) h (λ _.
        unless (not (bit_and ppn (2 ^ bits_left - 1) == 0)) zero-IsReadable (λ _.
          global-IsReadable (bit_or ppn (bit_and vpn (2 ^ bits_left - 1))) pte global
            (checked-IsReadable pte e f))))))

walk_from-IsReadable :
    (vpn : ℕ) (read_mem : ℕ → ℕ) (rounds i ppn : ℕ) (global : Bool)
    → IsReadable (walk_from vpn read_mem rounds i ppn global)
unfolding walk_from
walk_from-IsReadable vpn m zero i ppn global = zero-IsReadable
walk_from-IsReadable vpn m (suc rounds) i ppn global =
    let pte = m (sll 64 ppn 12 + bit_and (vpn >>> (18 - i * 9)) 511 * 8) in
    let g = if is_set pte pte_g then true else global in
    visit_entry-IsReadable vpn (18 - i * 9) pte g (walk_from vpn m rounds (i + 1) (pte >>> 10) g)
      (walk_from-IsReadable vpn m rounds (i + 1) (pte >>> 10) g)

pub walk_page-IsReadable : (vpn : ℕ) (m : ℕ → ℕ) (satp : ℕ) → IsReadable (walk_page vpn m satp)
unfolding walk_page
walk_page-IsReadable vpn m satp = elim (Bool-cases (sra 64 (sll 64 vpn 37) 25 >>> 12 == vpn)) [
  | inl e ↦ rw e (walk_from-IsReadable vpn m 3 0 (bit_and satp (2 ^ 44 - 1)) false)
  | inr e ↦ rw e zero-IsReadable
]
