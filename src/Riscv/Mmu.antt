-- ===== src/Riscv/Mmu.antt =====
-- `lib/riscv/src/mmu.rs`: the Sv39 page walk and the permission check. The memory read is the
-- closure that the caller passes in, a function from physical addresses to words here.
pub mod Permission
pub mod Walk
pub mod Readable
mod Tests
use r2vm.Base.{
  ℕ, zero, suc, ◌+◌, ◌-◌, ◌*◌, ◌^◌, Bool, true, false, not, ◌&&◌, ◌||◌, ◌==◌, if◌then◌else◌,
}
use r2vm.Base.{Option, none, some, bit_and, bit_or, ◌>>>◌, sll, sra, is_set, is_clear}

abbrev pub pte_v : ℕ
pte_v = 0x01

abbrev pub pte_r : ℕ
pte_r = 0x02

abbrev pub pte_w : ℕ
pte_w = 0x04

abbrev pub pte_x : ℕ
pte_x = 0x08

abbrev pub pte_u : ℕ
pte_u = 0x10

abbrev pub pte_g : ℕ
pte_g = 0x20

abbrev pub pte_a : ℕ
pte_a = 0x40

abbrev pub pte_d : ℕ
pte_d = 0x80

-- `PTE_R | PTE_W | PTE_X`.
abbrev pub pte_rwx : ℕ
pte_rwx = 0x0e

pub data AccessType : Type 0 where
  read write execute : AccessType

-- One round of the `for i in 0..3` once `pte` is read: what it returns, where `down` stands for the
-- rest of the loop (the `continue`).
pub visit_entry : ℕ → ℕ → ℕ → Bool → ℕ → ℕ
visit_entry vpn bits_left pte global down =
    let ppn = pte >>> 10 in
    if is_clear pte pte_v
    then 0
    else if bit_and pte pte_rwx == pte_w
    then 0
    else if bit_and pte pte_rwx == 0x0c
    then 0
    else if bit_and pte pte_rwx == 0
    then down
    else if not (bit_and ppn (2 ^ bits_left - 1) == 0)
    then 0
    else bit_or
        (bit_or (sll 64 (bit_or ppn (bit_and vpn (2 ^ bits_left - 1))) 10)
          (bit_and pte (2 ^ 10 - 1)))
        (if global then pte_g else 0)

module _ (vpn : ℕ) (read_mem : ℕ → ℕ) where
  -- The loop with the rounds left, and `ppn` and `global` as the rounds before leave them.
  pub walk_from : ℕ → ℕ → ℕ → Bool → ℕ
  walk_from zero i ppn global = 0
  walk_from (suc rounds) i ppn global =
      let bits_left = 18 - i * 9 in
      let index = bit_and (vpn >>> bits_left) 511 in
      let pte = read_mem (sll 64 ppn 12 + index * 8) in
      let global' = if is_set pte pte_g then true else global in
      visit_entry vpn bits_left pte global' (walk_from rounds (i + 1) (pte >>> 10) global')

  pub walk_page : ℕ → ℕ
  unfolding walk_from
  walk_page satp =
      if not (sra 64 (sll 64 vpn 37) 25 >>> 12 == vpn)
      then 0
      else walk_from 3 0 (bit_and satp (2 ^ 44 - 1)) false

-- `some tt` stands for `Ok(())`, `none` for `Err(())`.
pub access_allowed : ℕ → AccessType → ℕ → Bool
access_allowed pte AccessType.read status =
    not (is_clear pte pte_r && (is_clear pte pte_x || is_clear status (2 ^ 19)))
access_allowed pte AccessType.write status = not (is_clear pte pte_w || is_clear pte pte_d)
access_allowed pte AccessType.execute status = not (is_clear pte pte_x)

pub check_permission : ℕ → AccessType → ℕ → ℕ → Option (Unit {0})
unfolding access_allowed
check_permission pte access prv status =
    if is_clear pte pte_v
    then none
    else if prv == 0 && is_clear pte pte_u
    then none
    else if not (prv == 0) && (is_set pte pte_u && is_clear status (2 ^ 18))
    then none
    else if is_clear pte pte_a
    then none
    else if access_allowed pte access status
    then some tt
    else none
