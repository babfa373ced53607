-- ===== src/Emu/Csr/ReadBack.antt =====
-- What software reads back from the status registers after it has written them.
use r2vm.Base.{ℕ, ◌<◌, ◌≡◌, refl, arith, Bool-cases, ◌==◌, inl, inr, if◌then◌else◌}
use r2vm.Base.{bit_and, bit_or, flag, flag-bit_and, flag-bit_or, flag-pow}
use r2vm.Riscv.Csr
use r2vm.Emu.Context.{Context, Env, Outcome, ok, err, panic, ◌>>=◌, alert_if_pending}
use r2vm.Emu.Csr.{
  read_csr, write_csr, read_plain, shown_status, masked, write_status, write_supervisor,
}
use r2vm.Emu.Csr.{written_or_illegal}
use r2vm.Emu.Csr.Confined.{flag-masked}

-- The call returns `Ok` with a value that satisfies `P`.
abbrev pub Yields : {A : Type 0} → Outcome A → (A → Type 0) → Type 0
Yields (ok a c) P = P a
Yields (err c) P = ⊥
Yields panic P = ⊥

mstatus-write_status :
    (c : Context) (v w f : ℕ) → (write_status c v w f).mstatus ≡ masked w c.mstatus v
unfolding write_status alert_if_pending
mstatus-write_status c v w f =
    let d : Context = alert_if_pending (record c { mstatus = masked w c.mstatus v }) in
    elim (Bool-cases (bit_and c.mstatus f == bit_and d.mstatus f)) [
      | inl e ↦ rw e refl
      | inr e ↦ rw e refl
    ]

-- Below bit 33 a register shows the status word as it is.
flag-shown_status : (x i : ℕ) → i < 33 → flag (shown_status x) i ≡ flag x i
unfolding shown_status
flag-shown_status x i h = ground (
  arith,
  flag-bit_or (if bit_and x 0x6000 == 0x6000 then bit_or x 0x8000000000000000 else x) 0x200000000 i,
  flag-bit_or x 0x8000000000000000 i,
  flag-pow 33 i,
  flag-pow 63 i,
)

-- A read of SSTATUS after a write of `v` succeeds, and below bit 33 gives the bits of `v` that the
-- register has, and zeros elsewhere.
pub sstatus-read_back :
    (env : Env) (ctx : Context) (v i : ℕ)
    → i < 33
    → Yields
        (write_csr env ctx Csr.sstatus v >>= (λ _ c. read_csr env c Csr.sstatus))
        (λ x. flag x i ≡ (if flag 0xC6122 i == 1 then flag v i else 0))
unfolding write_csr written_or_illegal write_supervisor read_csr read_plain
sstatus-read_back env ctx v i h = rw (mstatus-write_status ctx v 0xC6122 0xC0000) (
    ground (
      arith,
      flag-shown_status (bit_and (masked 0xC6122 ctx.mstatus v) 0xC6122) i h,
      flag-bit_and (masked 0xC6122 ctx.mstatus v) 0xC6122 i,
      flag-masked 0xC6122 ctx.mstatus v i (omega arith) (omega arith),
    ))
