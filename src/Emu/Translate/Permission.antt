-- ===== src/Emu/Translate/Permission.antt =====
-- A page that is open to a write is open to a read, and pages are translated as a whole.
use r2vm.Base.{ℕ, ◌+◌, ◌*◌, ◌/◌, ◌%◌, ◌^◌, ◌<◌, ◌≡◌, inl, inr, refl, ap, sym, ◌∙◌, arith}
use r2vm.Base.{Bool-cases, ◌||◌, ◌==◌, ◌>>>◌, sll}
use r2vm.Base.{bit_and, bit_or, bit_xor, bit_and-mask}
use r2vm.Base.{bit_xor-cancel, bit_xor_self, bit_xor-fields, zero-bit_xor}
use r2vm.Base.{bit_or-fields, Option, none, some, none_ne_some, some_injective}
use r2vm.Riscv.Mmu.{AccessType, walk_page, check_permission}
use r2vm.Riscv.Mmu.Readable.{IsReadable, walk_page-IsReadable}
use r2vm.Riscv.Mmu.Permission.{check_permission_iff}
use r2vm.Emu.Translate.{translation, access_prv, granted}

write-permits_read :
    (pte prv status : ℕ)
    → IsReadable pte
    → check_permission pte AccessType.write prv status ≡ some tt
    → check_permission pte AccessType.read prv status ≡ some tt
write-permits_read pte prv status r ok =
    let w = (check_permission_iff pte AccessType.write prv status).0 ok in
    (check_permission_iff pte AccessType.read prv status).1 (record {
      valid = w.valid;
      accessed = w.accessed;
      user = w.user;
      supervisor = w.supervisor;
      right = inl (r.readable (w.right.0));
    })

-- An address with its page number and its offset apart.
placed :
    (p a : ℕ) → bit_or (p * 2 ^ 12 % 2 ^ 64) (bit_and a 4095) ≡ p % 2 ^ 52 * 2 ^ 12 + a % 2 ^ 12
placed p a = ground (arith, bit_and-mask 12 a, bit_or-fields 12 (p % 2 ^ 52) (a % 2 ^ 12))

xor_pages :
    (p r a : ℕ)
    → r < 2 ^ 12
    → bit_xor (p * 2 ^ 12 + r) a ≡ bit_xor p (a / 2 ^ 12) * 2 ^ 12 + bit_xor r (a % 2 ^ 12)
xor_pages p r a h =
    ap (bit_xor (p * 2 ^ 12 + r)) {y = a / 2 ^ 12 * 2 ^ 12 + a % 2 ^ 12} (omega arith)
    ∙ bit_xor-fields 12 p (a / 2 ^ 12) r (a % 2 ^ 12) h (omega arith)

-- Taking the offset of one address in a page out of a translation, and another in.
relocated :
    (p a b : ℕ)
    → a / 2 ^ 12 ≡ b / 2 ^ 12
    → bit_xor (bit_xor (bit_or (p * 2 ^ 12 % 2 ^ 64) (bit_and a 4095)) a) b
      ≡ bit_or (p * 2 ^ 12 % 2 ^ 64) (bit_and b 4095)
relocated p a b same =
    let q = p % 2 ^ 52 in
    let page = a / 2 ^ 12 in
    rw
      (
        placed p a,
        placed p b,
        xor_pages q (a % 2 ^ 12) a (omega arith),
        bit_xor_self (a % 2 ^ 12),
        xor_pages (bit_xor q page) 0 b (omega arith),
        sym same,
        bit_xor-cancel q page,
        zero-bit_xor (b % 2 ^ 12),
      )
      refl

identity_moved : (a b paddr : ℕ) → a ≡ paddr → b ≡ bit_xor (bit_xor paddr a) b
identity_moved a b paddr h = rw (sym h, bit_xor_self a) (sym (zero-bit_xor b))

module _ (read_memory : ℕ → ℕ) (satp prv status : ℕ) where
  moved_in_page :
      (o : Option (Unit {0})) (p a b paddr : ℕ)
      → a / 2 ^ 12 ≡ b / 2 ^ 12
      → granted o (bit_or (sll 64 p 12) (bit_and a 4095)) ≡ some paddr
      → granted o (bit_or (sll 64 p 12) (bit_and b 4095)) ≡ some (bit_xor (bit_xor paddr a) b)
  moved_in_page none p a b paddr same h = absurd (none_ne_some h)
  moved_in_page (some _) p a b paddr same h =
      ap some
        (sym (relocated p a b same) ∙ ap (λ (t : ℕ). bit_xor (bit_xor t a) b) (some_injective h))

  -- An address in the same page goes to the same frame.
  pub translation-moved :
      (access : AccessType) (a b paddr : ℕ)
      → a / 2 ^ 12 ≡ b / 2 ^ 12
      → translation read_memory satp prv status a access ≡ some paddr
      → translation read_memory satp prv status b access ≡ some (bit_xor (bit_xor paddr a) b)
  unfolding translation
  translation-moved access a b paddr same h =
      let p = access_prv prv status access in
      elim (Bool-cases (satp >>> 60 == 0 || p == 3)) [
        | inl e ↦ rw e (ap some (identity_moved a b paddr (some_injective (rw e at h))))
        | inr e ↦
            rw (e, sym same)
              (moved_in_page
                (check_permission (walk_page (a >>> 12) read_memory satp) access p status)
                (walk_page (a >>> 12) read_memory satp >>> 10) a b paddr same (rw e at h))
      ]

  opened :
      (o o' : Option (Unit {0})) (x paddr : ℕ)
      → (o ≡ some tt → o' ≡ some tt)
      → granted o x ≡ some paddr
      → granted o' x ≡ some paddr
  opened none o' x paddr f h = absurd (none_ne_some h)
  opened (some _) o' x paddr f h = rw (f refl) h

  -- Where a write goes, a read goes too.
  pub translation-write-read :
      (a paddr : ℕ)
      → translation read_memory satp prv status a AccessType.write ≡ some paddr
      → translation read_memory satp prv status a AccessType.read ≡ some paddr
  unfolding translation access_prv
  translation-write-read a paddr h =
      let p = access_prv prv status AccessType.read in
      let pte = walk_page (a >>> 12) read_memory satp in
      elim (Bool-cases (satp >>> 60 == 0 || p == 3)) [
        | inl e ↦ rw e (rw e at h)
        | inr e ↦ rw e (
            opened (check_permission pte AccessType.write p status)
              (check_permission pte AccessType.read p status)
              (bit_or (sll 64 (pte >>> 10) 12) (bit_and a 4095)) paddr
              (write-permits_read pte p status (walk_page-IsReadable (a >>> 12) read_memory satp))
              (rw e at h))
      ]
