-- ===== src/Lib.antt =====
-- R2VM: a verification library for the core of the R2VM emulator.
--
-- R2VM runs RISC-V guests. A hart fetches instructions, decodes them (lib/riscv/src/decode.rs) to the
-- operations of lib/riscv/src/op.rs and executes them (src/emu/interp.rs, or translated by src/emu/dbt.rs).
-- Addresses go through the Sv39 page walk of lib/riscv/src/mmu.rs, behind two L0 caches. Control registers
-- (lib/riscv/src/csr.rs) are read and written by read_csr and write_csr of src/emu/interp.rs, which also
-- holds the trap and interrupt logic. Devices raise interrupts through the controller of
-- lib/io/src/hw/intc/plic.rs, whose output pins set bits of a hart's mip; an alarm makes the hart look.
-- Floating-point instructions use the software arithmetic of lib/softfp.
--
-- The files:
-- - Base: machine words as native numbers with their wrap-around written out, the laws of the bit
--   operations, arrays as lists. `flag x k` is bit k of x.
-- - Riscv/Csr, Riscv/Op, Riscv/Op/Info: csr.rs and op.rs; the type Op has the source's 161 operations.
--   An i32 immediate is held as its 32-bit pattern.
-- - Riscv/Decode and Riscv/Compressed: decode and decode_compressed, with one function for each opcode
--   group or quadrant, and their field helpers; `none` is a panic. Riscv/Encode is no code of the
--   repository: it states the instruction tables of the RISC-V manuals, as a specification of decode.
-- - Riscv/Mmu: walk_page and check_permission. The closure that reads memory is a function parameter.
--   The loop has three rounds, as in the source.
-- - Io/Plic: PlicInner, Plic and PlicIrq. The loops over interrupts and contexts count down the rounds
--   that are left: 31 interrupts, and as many contexts as there are.
-- - Io/Clint: the core-local interruptor. Time is a parameter of each access, and a task that waits for a
--   timer is an entry of a list; the clock is assumed below 2^64 - 1 microseconds.
-- - Emu/Context: CacheLine, SharedContext and Context, with a call's result as an Outcome: Ok, Err, or a
--   panic. Emu/Trap: trap, check_interrupt, MRET and SRET. Emu/Csr: read_csr and write_csr. Emu/Alarm:
--   the invariant that ties the alarm to the pending interrupts.
-- - Emu/Translate: translate_vaddr, the two L0 caches and the memory models of src/sim/memory/mod.rs.
--   Coherence is the invariant of the caches, Refill and Access are what an access does to it, Csr and
--   Trap what a switch does. Invalidate is icache_invalidate, which a write that misses calls: the loop
--   over the pages counts the rounds that are left, and the closure that run_on queues is the range of
--   addresses whose code it forgets. CODE_PROT and the shared contexts of the other harts, which are
--   global in the source, are fields of Context.
-- - Emu/Step: step, for the integer, multiplication, atomic, control register and privileged
--   instructions. Memory is a function from addresses to bytes. The floating-point arms and the calls
--   syscall and sbi_call are operations of a Platform, as is the wait of WFI.
-- - P9: lib/p9/src/serialize.rs. A stream is the list of the bytes that are left; a read gives the value and
--   the rest, or `none` for an error or a panic. ByteOrder is the byteorder crate, a parameter, as is the
--   test of UTF-8. Request states the layout of the protocol's requests, as a specification of decode.
-- - Softfp: lib/softfp/src/fp.rs and int.rs. Format holds the formats, the flags and the computations that
--   raise them, Fields the accessors, Round the rounding, Arith, Compare and Convert the operations. A
--   number is its bit pattern, an integer type its width, an i32 exponent its 32-bit pattern. A loop counts
--   the rounds that are left, as many as there are digits: that is enough, since each
--   round halves the current bit, and `none` is a panic or that the rounds ran out. The rounding mode, which the source gets from a registered
--   function, is a parameter. `rounded`, `finished`, `raised` and `underflowed` are no code of the
--   repository: they state IEEE 754's rounding of an exact quotient, as a specification.
--
-- Atomics are plain fields, so a call is one step; memory orderings are not modelled. Arithmetic wraps
-- as in a release build. Logging, the condition variable that wakes a waiting hart, what a task does to
-- the code cache and the simcsr feature are left out. Not modelled: the floating-point arms of step, SBI calls, the code
-- cache and the loop that fills it, the translator and lib/x86,
-- lib/fiber, the file systems of lib/p9, lib/usernet, lib/fdt, the other devices of lib/io,
-- and the loader, system call, signal and start-up code, which are host I/O, generated code or separate
-- libraries.
pub mod Base
pub mod Riscv
pub mod Io
pub mod Emu
pub mod P9
pub mod Softfp
