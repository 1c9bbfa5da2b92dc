-- ===== src/Tasks/Fork.antt =====
-- kernel/src/syscall/fork.c with the address spaces: the task's own one and its copy both lose the right
-- to write.
use shed_os.Base.{ℕ}
use shed_os.Memory.Paging.{Machine}
use shed_os.Memory.Spaces.{paging_copy, paging_make_readonly}
use shed_os.Tasks.{InterruptFrame, Sched, syscall_fork}

unfoldable pub fork_spaces : (vmap : ℕ) → Machine → ℕ × Machine
fork_spaces vmap s =
    let (new_vmap, s1) = paging_copy vmap s in
    (new_vmap, paging_make_readonly new_vmap (paging_make_readonly vmap s1))

-- The answer, the tasks and the machine; `new_task` is what `malloc` answers.
unfoldable pub fork_task : (new_task : ℕ) → InterruptFrame → Sched → Machine → ℕ × Sched × Machine
fork_task new_task frame s m =
    let (new_vmap, m1) = fork_spaces (s.tasks s.current_task).vmap m in
    let (answer, s1) = syscall_fork new_task new_vmap frame s in (answer, s1, m1)
