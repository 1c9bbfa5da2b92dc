-- ===== src/Tasks/Tests.antt =====
-- The theorems of the scheduler and of fork at two tasks.
use shed_os.Base.{ℕ, suc, ◌*◌, ◌≤◌, List, refl, ◌==◌, if◌then◌else◌, [], ◌∷◌, none, arith}
use shed_os.Tasks.{Registers, Task, InterruptFrame, Sched, syscall_fork, sched_tick}
use shed_os.Tasks.Ring.{IsRing, fork-IsRing, Switched, tick-Switched}
use shed_os.Tasks.Turns.{Turn, ticks, every-Turn}

abbrev zeros : Registers
zeros = record {
  r15 = 0;
  r14 = 0;
  r13 = 0;
  r12 = 0;
  r11 = 0;
  r10 = 0;
  r9 = 0;
  r8 = 0;
  rbp = 0;
  rdi = 0;
  rsi = 0;
  rdx = 0;
  rcx = 0;
  rbx = 0;
  rax = 57;
}

abbrev task : ℕ → Task
task next = record {
  regs = zeros;
  rsp = 0x7000;
  rflags = 0x202;
  rip = 0x1000;
  next_task = next;
  vmap = 0;
  deadline = 5;
  id = 0;
}

-- Tasks at 0x100 and 0x200 that lead to each other.
abbrev two : Sched
two = record {
  tasks = λ a. if a == 0x100 then task 0x200 else task 0x100;
  current_task = 0x100;
  tid_next = 2;
  timer_elapsed_us = 9;
  running = none;
}

abbrev frame : InterruptFrame
frame = record {
  gprs = zeros;
  frame = record { rip = 0x1004; cs = 0x1b; rflags = 0x202; rsp = 0x6ff0; ss = 0x23 };
}

two-IsRing : IsRing two (0x200 ∷ [])
two-IsRing = (refl, refl)

fork-IsRing_example : IsRing (syscall_fork 0x300 0x5000 frame two).1 (0x300 ∷ 0x200 ∷ [])
fork-IsRing_example =
    fork-IsRing 0x300 0x5000 frame two (0x200 ∷ []) two-IsRing (omega arith) (omega arith, tt)
      (omega arith, tt)

tick-Switched_example : Switched frame two (sched_tick frame two) 0x200 []
tick-Switched_example = tick-Switched frame two 0x200 [] two-IsRing (omega arith)

every-Turn_example :
    (k : ℕ) × (k ≤ suc 0 * suc 1000)
    × (rest : List ℕ) × Turn two (ticks (λ i. frame) 1000 k 0 two) 0x200 rest (k * 1000)
every-Turn_example =
    every-Turn (λ i. frame) 1000 (omega arith) [] 1000 0 two 0x200 [] (omega arith) two-IsRing
      (omega arith) (omega arith)
