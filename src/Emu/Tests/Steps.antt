-- ===== src/Emu/Tests/Steps.antt =====
-- Concrete runs of `step`.
use r2vm.Base.{◌≡◌, refl, arith, replicate, length-replicate, some, none, set, false, true}
use r2vm.Riscv.Op.{Op}
use r2vm.Riscv.Op.Info.{get_regs, can_change_control_flow}
use r2vm.Riscv.Mmu.{AccessType}
use r2vm.Emu.Context.{Context, ok, panic}
use r2vm.Emu.Translate.{MemoryModel, no_line, translation}
use r2vm.Emu.Step.{step}
use r2vm.Emu.Step.Arms.{Platform, read_reg, write_reg, counted}
use r2vm.Emu.Step.Arith.{div, rem}
use r2vm.Emu.Step.Bytes.{Memory, load}
use r2vm.Emu.Step.Core.{is_core, step-Follows}
use r2vm.Emu.Step.Effects.{Follows}
use r2vm.Emu.Step.Divide.{IsSignedDivision, div-rem}
use r2vm.Emu.Step.ReadBack.{ld-sd}
use r2vm.Emu.Tests.{env, hart}

abbrev platform : Platform
platform = record {
  model = MemoryModel.simple;
  env = env;
  syscall = λ mem nr a b c d e f. (0, mem);
  sbi_call = λ ctx nr a b c d. none;
  wait_alarm = λ s. (s, 0);
  float = λ op mem ctx. panic;
}

abbrev memory : Memory
memory = λ a. 0

-- A hart in M mode: x1 is an address, x2 a double word.
abbrev machine : Context
machine = record hart {
  prv = 3;
  registers = set (set (replicate 32 0) 1 0x80000000) 2 0x1122334455667788;
  shared = record hart.shared { line = replicate 1024 no_line; i_line = replicate 1024 no_line };
}

lw_is_core : is_core (Op.lw 5 1 0) ≡ true
unfolding is_core
lw_is_core = refl

step-Follows_example :
    Follows
      (can_change_control_flow (Op.lw 5 1 0))
      ((get_regs (Op.lw 5 1 0)).0)
      machine
      (step platform memory machine (Op.lw 5 1 0) false)
step-Follows_example = step-Follows platform memory machine (Op.lw 5 1 0) false lw_is_core

-- -7 by 2.
div-rem_example :
    IsSignedDivision 64 0xFFFFFFFFFFFFFFF9 2
      (div 64 0xFFFFFFFFFFFFFFF9 2)
      (rem 64 0xFFFFFFFFFFFFFFF9 2)
div-rem_example = div-rem 64 (omega arith) 0xFFFFFFFFFFFFFFF9 2 (omega arith) (omega arith)

untranslated :
    translation (load 8 memory) machine.satp machine.prv machine.mstatus 0x80000008 AccessType.write
    ≡ some 0x80000008
unfolding translation
untranslated = refl

ld-sd_example :
    (m : Memory) × (c : Context) × (step platform memory machine (Op.sd 1 2 8) false ≡ ok m c)
    × (step platform m c (Op.ld 5 1 8) false ≡ ok m (write_reg (counted c) 5 (read_reg machine 2)))
ld-sd_example =
    ld-sd platform memory machine 1 8 2 5 false false 0x80000008 refl
      (length-replicate 1024 no_line) (omega arith) untranslated
