-- ===== src/Emu/Tests.antt =====
-- Concrete runs of traps, interrupts and control register writes.
mod Caches
mod Steps
use r2vm.Base.{ℕ, ◌<◌, ◌≡◌, inl, inr, refl, arith, true, ◌||◌, ◌&&◌, not, ◌==◌}
use r2vm.Base.{replicate, flag, min, if◌then◌else◌, []}
use r2vm.Riscv.Csr
use r2vm.Riscv.Csr.{min_prv_level}
use r2vm.Emu.Context.{Context, Env, Returns, Leaves, interrupt_pending}
use r2vm.Emu.Trap.{trap_to_s, trap_to_m, sret, mret, check_interrupt}
use r2vm.Emu.Trap.Return.{Resumes, outside_s_stack, outside_m_stack, sret-trap_to_s, mret-trap_to_m}
use r2vm.Emu.Trap.Interrupt.{Takes, flag-interrupt_pending, check_interrupt-Takes}
use r2vm.Emu.Csr.{write_csr, read_csr}
use r2vm.Emu.Context.{◌>>=◌}
use r2vm.Emu.Csr.ReadBack.{Yields, sstatus-read_back}
use r2vm.Emu.Alarm.{IsAlerted}
use r2vm.Emu.Trap.Alarm.{trap-IsAlerted}
use r2vm.Emu.Trap.{trap, delegated}
use r2vm.Base.{some}
use r2vm.Emu.Csr.Alarm.{write_csr-IsAlerted}
use r2vm.Emu.Csr.Confined.{IsConfined, write_csr-IsConfined}

abbrev pub env : Env
env = record { flags_prv = 3; lockstep_cycles = 0; time = 0; float = true }

-- A hart in U mode; the timer interrupt of M mode (7) and the external interrupt of S mode (9), which
-- is delegated, are pending and enabled, and the alarm is set.
abbrev pub hart : Context
hart = record {
  registers = replicate 32 0;
  pc = 0x1000;
  instret = 0;
  cause = 8;
  tval = 0;
  minstret = 0;
  cycle_offset = 0;
  shared = record {
    alarm = 1;
    mip = 0x280;
    line = [];
    i_line = [];
    rm = 0;
    fflags = 0;
    tasks = [];
  };
  fp_registers = replicate 32 0;
  frm = 0;
  lr_addr = 0;
  lr_value = 0;
  scause = 0;
  stval = 0;
  stvec = 0x2000;
  sscratch = 0;
  sepc = 0;
  satp = 0;
  scounteren = 0;
  mideleg = 0x222;
  medeleg = 0;
  mcause = 0;
  mtval = 0;
  mstatus = 0x2;
  mie = 0x280;
  mtvec = 0x3000;
  mscratch = 0;
  mepc = 0;
  mcounteren = 0;
  prv = 0;
  hartid = 0;
  code_prot = [];
  peers = [];
}

sret-trap_to_s_example : Returns (sret (trap_to_s hart)) (λ c. Resumes hart c outside_s_stack)
sret-trap_to_s_example = sret-trap_to_s hart (omega arith)

mret-trap_to_m_example : Returns (mret (trap_to_m hart)) (λ c. Resumes hart c outside_m_stack)
mret-trap_to_m_example = mret-trap_to_m hart (inl (omega arith))

flag-interrupt_pending_example : flag (interrupt_pending hart) 9 ≡ (
    if if flag hart.mideleg 9 == 1
      then hart.prv == 0 || (hart.prv == 1 && flag hart.mstatus 1 == 1)
      else not (hart.prv == 3) || flag hart.mstatus 3 == 1
    then min (flag hart.shared.mip 9) (flag hart.mie 9)
    else 0)
flag-interrupt_pending_example = flag-interrupt_pending hart 9 (omega arith) (omega arith)

pending : interrupt_pending hart ≡ 0x280
unfolding interrupt_pending
pending = refl

check_interrupt-Takes_example : (i : ℕ) × Returns (check_interrupt env hart) (λ c. Takes hart c i)
check_interrupt-Takes_example =
    check_interrupt-Takes env hart refl (omega arith) (omega arith) refl
      (λ e. omega (arith, pending, e))

write_csr-IsAlerted_example : Leaves (write_csr env hart Csr.sie 0x200) IsAlerted
write_csr-IsAlerted_example = write_csr-IsAlerted env hart Csr.sie 0x200 (inr refl)

supervisor_csr : min_prv_level Csr.sie < 3
unfolding min_prv_level
supervisor_csr = omega arith

write_csr-IsConfined_example : Leaves (write_csr env hart Csr.sie 0x280) (IsConfined hart)
write_csr-IsConfined_example =
    write_csr-IsConfined env hart Csr.sie 0x280 supervisor_csr (omega arith)

-- An ECALL from U mode, which is not delegated.
ecall : trap env hart ≡ some (trap_to_m hart)
unfolding trap delegated
ecall = refl

trap-IsAlerted_example : IsAlerted (trap_to_m hart)
trap-IsAlerted_example = trap-IsAlerted env hart (trap_to_m hart) (omega arith) (inr refl) ecall

sstatus-read_back_example :
    Yields
      (write_csr env hart Csr.sstatus 0x40002 >>= (λ _ c. read_csr env c Csr.sstatus))
      (λ x. flag x 18 ≡ (if flag 0xC6122 18 == 1 then flag 0x40002 18 else 0))
sstatus-read_back_example = sstatus-read_back env hart 0x40002 18 (omega arith)
