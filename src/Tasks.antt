-- ===== src/Tasks.antt =====
-- kernel/src/task and kernel/src/syscall/fork.c: tasks on a ring, the timer's switches, and fork.
pub mod Ring
pub mod Turns
pub mod Loader
pub mod Fork
mod Tests
use shed_os.Base.{ℕ, ◌+◌, ◌%◌, not, ltb, if◌then◌else◌, update, Option, none, some}
use shed_os.Base.Word.{add64}

pub record Registers : Type 0 where
  pub r15 : ℕ
  pub r14 : ℕ
  pub r13 : ℕ
  pub r12 : ℕ
  pub r11 : ℕ
  pub r10 : ℕ
  pub r9 : ℕ
  pub r8 : ℕ
  pub rbp : ℕ
  pub rdi : ℕ
  pub rsi : ℕ
  pub rdx : ℕ
  pub rcx : ℕ
  pub rbx : ℕ
  pub rax : ℕ

pub record Task : Type 0 where
  pub regs : Registers
  pub rsp : ℕ
  pub rflags : ℕ
  pub rip : ℕ
  pub next_task : ℕ
  pub vmap : ℕ
  pub deadline : ℕ
  pub id : ℕ

pub record InterruptFrameOther : Type 0 where
  pub rip : ℕ
  pub cs : ℕ
  pub rflags : ℕ
  pub rsp : ℕ
  pub ss : ℕ

pub record InterruptFrame : Type 0 where
  pub gprs : Registers
  pub frame : InterruptFrameOther

-- The tasks in memory, `current_task`, `tid_next` and `timer_elapsed_us`; `running` is the task whose
-- context the last `switch_to_task` loaded.
pub record Sched : Type 0 where
  pub tasks : ℕ → Task
  pub current_task : ℕ
  pub tid_next : ℕ
  pub timer_elapsed_us : ℕ
  pub running : Option ℕ

unfoldable pub task_new_tid : Sched → ℕ × Sched
task_new_tid s = (s.tid_next, record s { tid_next = (s.tid_next + 1) % 256 })

unfoldable pub switch_to_task : ℕ → Sched → Sched
switch_to_task task s = record s { running = some task }

-- `task->deadline = current_time + 1000000`
unfoldable pub set_deadline : ℕ → Sched → Sched
set_deadline task s = record s {
  tasks =
      update s.tasks task (record (s.tasks task) { deadline = add64 s.timer_elapsed_us 1000000 });
}

unfoldable pub sched_run : ℕ → Sched → Sched
sched_run initial_task s =
    switch_to_task initial_task
      (set_deadline initial_task (record s { current_task = initial_task }))

-- The context of the interrupted task goes into its structure.
unfoldable pub save_context : InterruptFrame → Sched → Sched
save_context ifr s = record s {
  tasks = update s.tasks s.current_task (record (s.tasks s.current_task) {
    regs = ifr.gprs;
    rflags = ifr.frame.rflags;
    rip = ifr.frame.rip;
    rsp = ifr.frame.rsp;
  });
}

unfoldable pub sched_tick : InterruptFrame → Sched → Sched
sched_tick ifr s =
    let saved = save_context ifr s in
    let next = (saved.tasks saved.current_task).next_task in
    if ltb (s.tasks s.current_task).deadline s.timer_elapsed_us
    then switch_to_task next (set_deadline next (record saved { current_task = next }))
    else s

-- `dus` is an `int`, here one that is not negative.
unfoldable pub timer_tick : InterruptFrame → ℕ → Sched → Sched
timer_tick ifr dus s = sched_tick ifr (record s { timer_elapsed_us = add64 s.timer_elapsed_us dus })

-- `syscall_fork` as it changes the tasks. `new_task` and `new_vmap` are what `malloc` and `paging_copy`
-- answer; the fields that the source does not set keep what the memory held.
unfoldable pub syscall_fork : (new_task new_vmap : ℕ) → InterruptFrame → Sched → ℕ × Sched
syscall_fork new_task new_vmap frame s =
    let (tid, s1) = task_new_tid s in
    let made : Task = record (s1.tasks new_task) {
      vmap = new_vmap;
      regs = record frame.gprs { rax = 0 };
      rflags = frame.frame.rflags;
      rip = frame.frame.rip;
      rsp = frame.frame.rsp;
      id = tid;
      next_task = (s1.tasks s1.current_task).next_task;
    } in
    let tasks1 = update s1.tasks new_task made in
    (
      2,
      record s1 {
        tasks =
            update tasks1 s1.current_task
              (record (tasks1 s1.current_task) { next_task = new_task });
      },
    )

unfoldable pub timer_read_counter : Sched → ℕ
timer_read_counter s = s.timer_elapsed_us
