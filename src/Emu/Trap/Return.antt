-- ===== src/Emu/Trap/Return.antt =====
-- A trap and the return from it bring a hart back to where it was.
use r2vm.Base.{ℕ, ◌/◌, ◌^◌, ◌≤◌, ◌<◌, ◌≡◌, ◌⊎◌, inl, inr, refl, arith, Bool, Bool-cases, true}
use r2vm.Base.{◌&&◌, ◌==◌, not, bit_and, flag, is_set-flag, bit_and-field}
use r2vm.Emu.Context.{Context, Returns}
use r2vm.Emu.Trap.{trap_to_s, trap_to_m, status_to_s, status_to_m}
use r2vm.Emu.Trap.{sret, mret}
use r2vm.Emu.Trap.Status.{flag-status_to_s, flag-status_to_m, flag-status_of_mret}
use r2vm.Emu.Trap.Status.{flag-status_of_sret}

-- `c` goes on where `ctx` was: at its `pc` and privilege, with its registers, and with the status
-- word `status` up to the bits of the trap's own stack.
pub record Resumes (ctx c : Context) (kept : ℕ → Bool) : Type 0 where
  pub same_pc : c.pc ≡ ctx.pc
  pub same_prv : c.prv ≡ ctx.prv
  pub same_registers : c.registers ≡ ctx.registers
  pub same_fp_registers : c.fp_registers ≡ ctx.fp_registers
  pub same_satp : c.satp ≡ ctx.satp
  pub same_status : (i : ℕ) → i < 64 → kept i ≡ true → flag c.mstatus i ≡ flag ctx.mstatus i

-- All bits but SPIE (5) and SPP (8).
abbrev pub outside_s_stack : ℕ → Bool
outside_s_stack i = not (i == 5) && not (i == 8)

-- A trap that S mode handles, from U or S mode, and the SRET that follows: the hart goes on at the same
-- instruction, in the same mode, with the same registers, and with a status word in which only SPIE and
-- SPP may differ.
pub sret-trap_to_s :
    (ctx : Context)
    → ctx.prv ≤ 1
    → Returns (sret (trap_to_s ctx)) (λ c. Resumes ctx c outside_s_stack)
unfolding sret trap_to_s
sret-trap_to_s ctx h = record {
  same_pc = refl;
  same_prv = ground (
    arith,
    is_set-flag (status_to_s ctx.prv ctx.mstatus) 8,
    flag-status_to_s ctx.prv ctx.mstatus 8 (omega arith),
  );
  same_registers = refl;
  same_fp_registers = refl;
  same_satp = refl;
  same_status = λ i hi k. ground (
    arith,
    flag-status_of_sret (status_to_s ctx.prv ctx.mstatus) i hi,
    flag-status_to_s ctx.prv ctx.mstatus i hi,
    flag-status_to_s ctx.prv ctx.mstatus 5 (omega arith),
  );
}

-- MRET reads back the privilege that the trap stored.
mpp_back : (prv m : ℕ) → prv < 4 → bit_and (status_to_m prv m) 0x1800 / 2 ^ 11 ≡ prv
mpp_back prv m h = omega (
  arith,
  bit_and-field 11 2 (status_to_m prv m),
  flag-status_to_m prv m 11 h (omega arith),
  flag-status_to_m prv m 12 h (omega arith),
)

-- All bits but MPIE (7) and MPP (11 and 12).
abbrev pub outside_m_stack : ℕ → Bool
outside_m_stack i = not (i == 7) && (not (i == 11) && not (i == 12))

-- A trap that M mode handles, from U, S or M mode, and the MRET that follows: the hart goes on at the
-- same instruction, in the same mode, with the same registers, and with a status word in which only
-- MPIE and MPP may differ. In particular MRET does not panic.
pub mret-trap_to_m :
    (ctx : Context)
    → (ctx.prv ≤ 1) ⊎ (ctx.prv ≡ 3)
    → Returns (mret (trap_to_m ctx)) (λ c. Resumes ctx c outside_m_stack)
unfolding mret trap_to_m
mret-trap_to_m ctx h =
    rw (mpp_back ctx.prv ctx.mstatus (omega arith)) (elim (Bool-cases (ctx.prv == 2)) [
      | inl e ↦ absurd (ground (arith, e, h))
      | inr e ↦ rw e (record {
        same_pc = refl;
        same_prv = refl;
        same_registers = refl;
        same_fp_registers = refl;
        same_satp = refl;
        same_status = λ i hi k. ground (
          arith,
          flag-status_of_mret (status_to_m ctx.prv ctx.mstatus) i hi,
          flag-status_to_m ctx.prv ctx.mstatus i (omega arith) hi,
          flag-status_to_m ctx.prv ctx.mstatus 7 (omega arith) (omega arith),
        );
      })
    ])
