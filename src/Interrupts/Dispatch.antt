-- ===== src/Interrupts/Dispatch.antt =====
-- kernel/src/interrupts/interrupts.c and timer.c: what runs for an interrupt.
pub mod Faults
use shed_os.Base.{
  ℕ, ◌+◌, ◌-◌, ◌*◌, ◌/◌, ◌%◌, ◌^◌, Bool, true, false, ◌==◌, ltb, leb, if◌then◌else◌, Option, none,
  some, List, [], update,
}
use shed_os.Base.Word.{sub64, u32_mod}
use shed_os.Memory.Addr.{ptr_is_user}
use shed_os.Memory.Paging.{Machine}
use shed_os.Memory.Cow.{Copy, cow_copy_on_write}
use shed_os.Libk.Memutil.{Ram}
use shed_os.Libk.Strutil.{utos, strlen, strcpy}
use shed_os.Tasks.{InterruptFrame, Sched, timer_tick}

-- How an exception ends: back to the task, or with the registers on the screen and the machine halted.
pub data Ending : Type 0 where
  resume : Ending
  halt : Ending

-- `cr2` is the faulting address, `vmap` the table of the current task.
unfoldable pub exception_handle : (int_no cr2 vmap : ℕ) → Machine → Ending × List Copy × Machine
exception_handle int_no cr2 vmap s =
    let (copied, copies, s') = cow_copy_on_write vmap cr2 s in
    if int_no == 14
    then (if ptr_is_user cr2
        then (if copied then (resume, copies, s') else (halt, copies, s'))
        else (halt, [], s))
    else if int_no == 1
    then (resume, [], s)
    else (halt, [], s)

-- `isr34`: `counter` is what `hpet_read_counter` answers, `prev_time` the answer before. `dus` is cut to
-- an `int`.
unfoldable pub isr34 : (counter prev_time : ℕ) → InterruptFrame → Sched → ℕ × Sched
isr34 counter prev_time frame s = (counter, timer_tick frame (sub64 counter prev_time % u32_mod) s)

pub data Call : Type 0 where
  print : Call
  fork : Call

-- `isr128`: the low byte of rax is the number. The table has an entry for print and fork, 58 in all;
-- `beyond` is what lies in memory behind it, where the source reads for greater numbers.
unfoldable pub syscall_entry : (beyond : ℕ → Option Call) → ℕ → Option Call
syscall_entry beyond id =
    if id == 2
    then some print
    else if id == 57
    then some fork
    else if leb id 57
    then none
    else beyond id

unfoldable pub isr128 : (beyond : ℕ → Option Call) → InterruptFrame → Option Call
isr128 beyond frame = syscall_entry beyond (frame.gprs.rax % 256)

-- The loops of `timer_format` that put in the blanks and the zeros.
abbrev pub fill : (a n c : ℕ) → Ram → Ram
fill a n c m b = if leb a b then (if ltb b (a + n) then c else m b) else m b

-- `timer_format`: `tmp` is the array on the stack. `fuel` is for the strings' lengths.
unfoldable pub timer_format : (fuel timer_elapsed_us tmp buf : ℕ) → Ram → Option Ram
timer_format fuel timer_elapsed_us tmp buf m =
    let seconds = timer_elapsed_us / 1000000 in
    let milliseconds = timer_elapsed_us % 1000000 / 100 in
    let m1 = fill (buf + 5) 4 48 (fill buf 4 32 m) in
    let (len1, m2) = utos seconds 10 tmp 0 m1 in
    elim (strcpy fuel (buf + 4 - len1) tmp m2) [
      | none ↦ none
      | some m3 ↦
          (let (len2, m4) = utos milliseconds 10 tmp 0 m3 in
            strcpy fuel (buf + 9 - len2) tmp (update m4 (buf + 4) 46))
    ]
