-- ===== src/Io/Clint/Tests.antt =====
-- Concrete runs of the core-local interruptor.
use r2vm.Base.{ℕ, ◌+◌, ◌*◌, ◌≡◌, ◌<◌, arith, length, get_or, leb, false, []}
use r2vm.Io.Clint.{Clint, Timer, new, read, write, write_mtimecmp, expire}
use r2vm.Io.Clint.Expiry.{Runs, Waits, Takes, start, goes_on, writes, expires, timer_pin}
use r2vm.Io.Clint.Registers.{read-write}

-- One hart, whose comparator is set to 5 at time 3 and whose task runs at time 7.
abbrev timer : Timer
timer = record { hart = 0; time = 5 }

abbrev written : Clint
written = write (new 1) 3 0x4000 5 8

abbrev expired : Clint
expired = expire (record written { timers = [] }) 7 0

run : Runs 1 expired 7
unfolding new write write_mtimecmp expire
run = expires timer [] task (omega arith) (goes_on 7 (omega arith) (writes 0x4000 5 8 (start 3)))
  where
    task : Takes timer written.timers []
    task = Takes.first []

idle : (time : ℕ) → Waits 0 time expired.timers → 7 < time
unfolding expire
idle time w = elim w [ ]

inside : 0 < length expired.mtimecmp
unfolding new write write_mtimecmp expire
inside = omega arith

timer_pin_example : get_or expired.mtip_irqs 0 false ≡ leb (get_or expired.mtimecmp 0 0) 7
timer_pin_example = timer_pin run (omega arith) 0 inside idle

read-write_example : read (write (new 2) 1 (0x4000 + 8 * 1) 77 8) 9 (0x4000 + 8 * 1) 8 ≡ 77
unfolding new
read-write_example = read-write (new 2) 1 9 1 77 (omega arith) (omega arith)
