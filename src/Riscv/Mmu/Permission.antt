-- ===== src/Riscv/Mmu/Permission.antt =====
-- `check_permission` against a description of its rules in terms of the entry's bits.
use r2vm.Base.{ℕ, ◌*◌, ◌^◌, ◌≡◌, ◌≢◌, ◌↔◌, ◌⊎◌, ap, refl, arith, some, flag, bit_and, bit_and-flag}
use r2vm.Riscv.Mmu.{AccessType, check_permission, access_allowed}

-- The right that an access needs. MXR is bit 19 of the status word.
abbrev pub HasRight : ℕ → AccessType → ℕ → Type 0
HasRight pte AccessType.read status = (flag pte 1 ≡ 1) ⊎ ((flag pte 3 ≡ 1) × (flag status 19 ≡ 1))
HasRight pte AccessType.write status = (flag pte 2 ≡ 1) × (flag pte 7 ≡ 1)
HasRight pte AccessType.execute status = flag pte 3 ≡ 1

-- What an access asks of a page: it is valid and accessed, a user page for user mode
-- (privilege 0), a supervisor page or SUM (bit 18 of the status word) for any other mode, and it has
-- the right.
pub record IsPermitted (pte : ℕ) (access : AccessType) (prv status : ℕ) : Type 0 where
  pub valid : flag pte 0 ≡ 1
  pub accessed : flag pte 6 ≡ 1
  pub user : prv ≡ 0 → flag pte 4 ≡ 1
  pub supervisor : prv ≢ 0 → (flag pte 4 ≡ 0) ⊎ (flag status 18 ≡ 1)
  pub right : HasRight pte access status

-- `check_permission` succeeds exactly when the access is permitted: the page is valid and accessed, is
-- open to the privilege, and has the right that the access needs.
pub check_permission_iff :
    (pte : ℕ) (access : AccessType) (prv status : ℕ)
    → (check_permission pte access prv status ≡ some tt) ↔ IsPermitted pte access prv status
unfolding check_permission
check_permission_iff pte AccessType.read prv status = ground (
  arith,
  bit_and-flag 0 pte,
  bit_and-flag 6 pte,
  bit_and-flag 4 pte,
  bit_and-flag 1 pte,
  bit_and-flag 3 pte,
  bit_and-flag 18 status,
  bit_and-flag 19 status,
)
check_permission_iff pte AccessType.write prv status = ground (
  arith,
  bit_and-flag 0 pte,
  bit_and-flag 6 pte,
  bit_and-flag 4 pte,
  bit_and-flag 2 pte,
  bit_and-flag 7 pte,
  bit_and-flag 18 status,
)
check_permission_iff pte AccessType.execute prv status = ground (
  arith,
  bit_and-flag 0 pte,
  bit_and-flag 6 pte,
  bit_and-flag 4 pte,
  bit_and-flag 3 pte,
  bit_and-flag 18 status,
)

read_bit : (k a b : ℕ) → flag a k ≡ flag b k → bit_and a (2 ^ k) ≡ bit_and b (2 ^ k)
read_bit k a b h = omega (arith, bit_and-flag k a, bit_and-flag k b, ap (λ (t : ℕ). t * 2 ^ k) h)

access_allowed-status :
    (pte : ℕ) (access : AccessType) (a b : ℕ)
    → flag a 19 ≡ flag b 19
    → access_allowed pte access a ≡ access_allowed pte access b
unfolding access_allowed
access_allowed-status pte AccessType.read a b mxr = rw (read_bit 19 a b mxr) refl
access_allowed-status pte AccessType.write a b mxr = refl
access_allowed-status pte AccessType.execute a b mxr = refl

-- Of the status word the check reads SUM and MXR only.
pub check_permission-status :
    (pte : ℕ) (access : AccessType) (prv a b : ℕ)
    → flag a 18 ≡ flag b 18
    → flag a 19 ≡ flag b 19
    → check_permission pte access prv a ≡ check_permission pte access prv b
unfolding check_permission
check_permission-status pte access prv a b sum mxr =
    rw (read_bit 18 a b sum, access_allowed-status pte access a b mxr) refl
