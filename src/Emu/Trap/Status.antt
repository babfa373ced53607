-- ===== src/Emu/Trap/Status.antt =====
-- What traps and returns do to the status word, bit by bit. SIE is bit 1, MIE 3, SPIE 5, MPIE 7, SPP 8
-- and MPP bits 11 and 12.
use r2vm.Base.{
  ℕ, zero, suc, ◌-◌, ◌*◌, ◌/◌, ◌%◌, ◌^◌, ◌<◌, ◌≡◌, arith, Bool, true, false, ◌==◌, if◌then◌else◌,
}
use r2vm.Base.{
  not, bit_and, bit_or, not64, sll, ◌>>>◌, flag, flag-set, flag-clear, flag-pow, flag-zero,
}
use r2vm.Base.{flag-bit_and, flag-bit_or, flag-complement, is_set-flag, bit_and-flag, is_set}
use r2vm.Emu.Trap.{status_to_s, status_to_m, status_of_mret, status_of_sret}

-- Bit `k` is set or cleared by a test.
flag-choose :
    (b : Bool) (m k i : ℕ)
    → k < 64
    → i < 64
    → flag (if b then bit_or m (2 ^ k) else bit_and m (2 ^ 64 - 1 - 2 ^ k)) i
      ≡ (if i == k then (if b then 1 else 0) else flag m i)
flag-choose true m k i hk h = flag-set m k i
flag-choose false m k i hk h = flag-clear 64 m k i hk h

-- A trap into S mode: SIE moves to SPIE and is cleared, SPP tells whether the trap came from a mode
-- other than U, and no other bit changes.
pub flag-status_to_s :
    (prv m i : ℕ)
    → i < 64
    → flag (status_to_s prv m) i ≡ (
        if i == 1
        then 0
        else if i == 5
        then flag m 1
        else if i == 8
        then (if prv == 0 then 0 else 1)
        else flag m i)
unfolding status_to_s
flag-status_to_s prv m i h =
    let s : ℕ = if not (prv == 0) then bit_or m 0x100 else bit_and m (not64 0x100) in
    let t : ℕ = if is_set s 0x2 then bit_or s 0x20 else bit_and s (not64 0x20) in
    ground (
      arith,
      flag-choose (not (prv == 0)) m 8 1 (omega arith) (omega arith),
      flag-choose (not (prv == 0)) m 8 i (omega arith) h,
      is_set-flag s 1,
      flag-choose (is_set s 0x2) s 5 i (omega arith) h,
      flag-clear 64 t 1 i (omega arith) h,
    )

flag-mpp_mask : (i : ℕ) → flag 0x1800 i ≡ (if i == 11 then 1 else if i == 12 then 1 else 0)
flag-mpp_mask i = ground (arith, flag-bit_or 0x800 0x1000 i, flag-pow 11 i, flag-pow 12 i)

flag-clear_mpp :
    (m i : ℕ)
    → i < 64
    → flag (bit_and m (not64 0x1800)) i ≡ (if i == 11 then 0 else if i == 12 then 0 else flag m i)
flag-clear_mpp m i h = ground (
  arith,
  flag-bit_and m (not64 0x1800) i,
  flag-mpp_mask i,
  flag-complement 64 0x1800 i (omega arith) h,
)

flag-prv :
    (prv i : ℕ)
    → prv < 4
    → flag (sll 64 prv 11) i ≡ (if i == 11 then prv % 2 else if i == 12 then prv / 2 else 0)
flag-prv zero i h = ground (arith, flag-zero i)
flag-prv (suc zero) i h = ground (arith, flag-pow 11 i)
flag-prv (suc (suc zero)) i h = ground (arith, flag-pow 12 i)
flag-prv (suc (suc (suc zero))) i h = ground (arith, flag-mpp_mask i)
flag-prv (suc (suc (suc (suc prv)))) i h = absurd (omega arith)

-- A trap into M mode: MIE moves to MPIE and is cleared, MPP holds the privilege that it came from,
-- and no other bit changes.
pub flag-status_to_m :
    (prv m i : ℕ)
    → prv < 4
    → i < 64
    → flag (status_to_m prv m) i ≡ (
        if i == 3
        then 0
        else if i == 7
        then flag m 3
        else if i == 11
        then prv % 2
        else if i == 12
        then prv / 2
        else flag m i)
unfolding status_to_m
flag-status_to_m prv m i hp h =
    let s : ℕ = bit_or (bit_and m (not64 0x1800)) (sll 64 prv 11) in
    let t : ℕ = if is_set s 0x8 then bit_or s 0x80 else bit_and s (not64 0x80) in
    ground (
      arith,
      flag-bit_or (bit_and m (not64 0x1800)) (sll 64 prv 11) i,
      flag-bit_or (bit_and m (not64 0x1800)) (sll 64 prv 11) 3,
      flag-clear_mpp m i h,
      flag-clear_mpp m 3,
      flag-prv prv i hp,
      flag-prv prv 3 hp,
      is_set-flag s 3,
      flag-choose (is_set s 0x8) s 7 i (omega arith) h,
      flag-clear 64 t 3 i (omega arith) h,
    )

-- After SRET: SPIE moves to SIE and is set, SPP is cleared, and no other bit changes.
pub flag-status_of_sret :
    (m i : ℕ)
    → i < 64
    → flag (status_of_sret m) i
      ≡ (if i == 1 then flag m 5 else if i == 5 then 1 else if i == 8 then 0 else flag m i)
unfolding status_of_sret
flag-status_of_sret m i h =
    let s : ℕ = if is_set m 0x20 then bit_or m 0x2 else bit_and m (not64 0x2) in
    ground (
      arith,
      is_set-flag m 5,
      flag-set m 1 i,
      flag-clear 64 m 1 i,
      flag-set s 5 i,
      flag-clear 64 (bit_or s 0x20) 8 i,
    )

flag-bit_at_three : (b i : ℕ) → b < 2 → flag (b * 2 ^ 3) i ≡ (if i == 3 then b else 0)
flag-bit_at_three zero i h = ground (arith, flag-zero i)
flag-bit_at_three (suc zero) i h = ground (arith, flag-pow 3 i)
flag-bit_at_three (suc (suc b)) i h = absurd (omega arith)

-- After MRET: MPIE moves to MIE and is set, MPP is cleared, and no other bit changes.
pub flag-status_of_mret :
    (m i : ℕ)
    → i < 64
    → flag (status_of_mret m) i ≡ (
        if i == 3
        then flag m 7
        else if i == 7
        then 1
        else if i == 11
        then 0
        else if i == 12
        then 0
        else flag m i)
unfolding status_of_mret
flag-status_of_mret m i h =
    let s : ℕ = bit_or (bit_and m (not64 0x8)) (bit_and m 0x80 >>> 4) in
    ground (
      arith,
      bit_and-flag 7 m,
      flag-bit_at_three (flag m 7) i (omega arith),
      flag-bit_or (bit_and m (not64 0x8)) (bit_and m 0x80 >>> 4) i,
      flag-clear 64 m 3 i (omega arith) h,
      flag-set s 7 i,
      flag-clear_mpp (bit_or s 0x80) i h,
    )
