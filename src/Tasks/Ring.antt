-- ===== src/Tasks/Ring.antt =====
-- The ring of tasks: what `syscall_fork` and `sched_tick` do to it.
use shed_os.Base.{ℕ, ◌<◌, ◌≡◌, ◌≢◌, ◌∙◌, sym, subst, List, [], ◌∷◌, ◌++◌, some, arith}
use shed_os.Base.Word.{add64}
use shed_os.Tasks.{
  Task, Sched, InterruptFrame, sched_tick, syscall_fork, task_new_tid, save_context, set_deadline,
  switch_to_task,
}

-- From `a` the tasks of the list follow one another, and the last one leads to `b`.
abbrev pub PathTo : (ℕ → Task) → ℕ → List ℕ → ℕ → Type 0
PathTo tasks a [] b = (tasks a).next_task ≡ b
PathTo tasks a (c ∷ cs) b = ((tasks a).next_task ≡ c) × PathTo tasks c cs b

-- The tasks run in a ring: the current one, the others, and back.
abbrev pub IsRing : Sched → List ℕ → Type 0
IsRing s cs = PathTo s.tasks s.current_task cs s.current_task

abbrev pub Lacks : ℕ → List ℕ → Type 0
Lacks x [] = Unit {0}
Lacks x (c ∷ cs) = (c ≢ x) × Lacks x cs

PathTo-same :
    (tasks tasks' : ℕ → Task) (x y a : ℕ) (cs : List ℕ) (b : ℕ)
    → ((d : ℕ) → d ≢ x → d ≢ y → (tasks' d).next_task ≡ (tasks d).next_task)
    → a ≢ x
    → a ≢ y
    → Lacks x cs
    → Lacks y cs
    → PathTo tasks a cs b
    → PathTo tasks' a cs b
PathTo-same tasks tasks' x y a [] b same ax ay lx ly p = ground (arith, same a)
PathTo-same tasks tasks' x y a (c ∷ cs) b same ax ay (cx, lx) (cy, ly) (p, q) =
    (ground (arith, same a), PathTo-same tasks tasks' x y c cs b same cx cy lx ly q)

fork_next :
    (new_task new_vmap : ℕ) (frame : InterruptFrame) (s : Sched)
    → new_task ≢ s.current_task
    → let tasks = (syscall_fork new_task new_vmap frame s).1.tasks in
      ((tasks s.current_task).next_task ≡ new_task)
      × (((tasks new_task).next_task ≡ (s.tasks s.current_task).next_task)
          × ((d : ℕ)
              → d ≢ new_task
              → d ≢ s.current_task
              → (tasks d).next_task ≡ (s.tasks d).next_task))
unfolding syscall_fork task_new_tid
fork_next new_task new_vmap frame s fresh = (ground arith, (ground arith, λ d a b. ground arith))

-- After a fork to a task that is not on the ring, where the current task is on it once, the new
-- task stands right behind the current one, and the others follow as before.
pub fork-IsRing :
    (new_task new_vmap : ℕ) (frame : InterruptFrame) (s : Sched) (cs : List ℕ)
    → IsRing s cs
    → new_task ≢ s.current_task
    → Lacks new_task cs
    → Lacks s.current_task cs
    → IsRing (syscall_fork new_task new_vmap frame s).1 (new_task ∷ cs)
unfolding syscall_fork task_new_tid
fork-IsRing new_task new_vmap frame s [] ring fresh ln lc = (
  (fork_next new_task new_vmap frame s fresh).0,
  (fork_next new_task new_vmap frame s fresh).1.0 ∙ ring,
)
fork-IsRing new_task new_vmap frame s (c ∷ cs) (ring, rest) fresh (cn, ln) (cc', lc) = (
  (fork_next new_task new_vmap frame s fresh).0,
  (
    (fork_next new_task new_vmap frame s fresh).1.0 ∙ ring,
    PathTo-same s.tasks (syscall_fork new_task new_vmap frame s).1.tasks new_task s.current_task c
        cs s.current_task (fork_next new_task new_vmap frame s fresh).1.1 cn cc' ln lc rest,
  ),
)

-- The ring, once the first task has moved to its end.
turned :
    (tasks : ℕ → Task) (a : ℕ) (cs : List ℕ) (b c : ℕ)
    → PathTo tasks a cs b
    → (tasks b).next_task ≡ c
    → PathTo tasks a (cs ++ b ∷ []) c
turned tasks a [] b c p e = (p, e)
turned tasks a (d ∷ cs) b c (p, q) e = (p, turned tasks d cs b c q e)

PathTo-next :
    (tasks tasks' : ℕ → Task) (a : ℕ) (cs : List ℕ) (b : ℕ)
    → ((d : ℕ) → (tasks' d).next_task ≡ (tasks d).next_task)
    → PathTo tasks a cs b
    → PathTo tasks' a cs b
PathTo-next tasks tasks' a [] b same p = same a ∙ p
PathTo-next tasks tasks' a (c ∷ cs) b same (p, q) =
    (same a ∙ p, PathTo-next tasks tasks' c cs b same q)

-- The machine when the task after the current one runs, `next`, with the tasks `cs` behind it.
pub record Switched (ifr : InterruptFrame) (s s' : Sched) (next : ℕ) (cs : List ℕ) : Type 0 where
  pub current : s'.current_task ≡ next
  pub runs : s'.running ≡ some next
  pub saved_regs : (s'.tasks s.current_task).regs ≡ ifr.gprs
  pub saved_rip : (s'.tasks s.current_task).rip ≡ ifr.frame.rip
  pub saved_rsp : (s'.tasks s.current_task).rsp ≡ ifr.frame.rsp
  pub saved_rflags : (s'.tasks s.current_task).rflags ≡ ifr.frame.rflags
  pub deadline : (s'.tasks next).deadline ≡ add64 s.timer_elapsed_us 1000000
  pub others : (d : ℕ) → d ≢ s.current_task → d ≢ next → s'.tasks d ≡ s.tasks d
  pub ring : IsRing s' (cs ++ s.current_task ∷ [])

tick_next :
    (ifr : InterruptFrame) (s : Sched) (d : ℕ)
    → ((sched_tick ifr s).tasks d).next_task ≡ (s.tasks d).next_task
unfolding sched_tick save_context set_deadline switch_to_task
tick_next ifr s d = ground arith

tick_current :
    (ifr : InterruptFrame) (s : Sched) (c : ℕ)
    → (s.tasks s.current_task).next_task ≡ c
    → (s.tasks s.current_task).deadline < s.timer_elapsed_us
    → (sched_tick ifr s).current_task ≡ c
unfolding sched_tick save_context set_deadline switch_to_task
tick_current ifr s c p late = ground (arith, p)

tick-IsRing :
    (ifr : InterruptFrame) (s : Sched) (c : ℕ) (cs : List ℕ)
    → (s.tasks s.current_task).next_task ≡ c
    → PathTo s.tasks c cs s.current_task
    → (s.tasks s.current_task).deadline < s.timer_elapsed_us
    → IsRing (sched_tick ifr s) (cs ++ s.current_task ∷ [])
tick-IsRing ifr s c cs p q late =
    subst (λ (x : ℕ). PathTo (sched_tick ifr s).tasks x (cs ++ s.current_task ∷ []) x)
      (sym (tick_current ifr s c p late))
      (PathTo-next s.tasks (sched_tick ifr s).tasks c (cs ++ s.current_task ∷ []) c
        (tick_next ifr s) (turned s.tasks c cs s.current_task c q p))

-- On a ring of at least two tasks, a tick after the deadline saves the interrupted task's context,
-- goes on to the next task with a deadline of one more second, changes no third task, and leaves
-- the ring as it was, with the interrupted task last.
pub tick-Switched :
    (ifr : InterruptFrame) (s : Sched) (c : ℕ) (cs : List ℕ)
    → IsRing s (c ∷ cs)
    → (s.tasks s.current_task).deadline < s.timer_elapsed_us
    → Switched ifr s (sched_tick ifr s) c cs
unfolding sched_tick save_context set_deadline switch_to_task
tick-Switched ifr s c cs (p, q) late = record {
  current = ground (arith, p);
  runs = ground (arith, p);
  saved_regs = ground (arith, p);
  saved_rip = ground (arith, p);
  saved_rsp = ground (arith, p);
  saved_rflags = ground (arith, p);
  deadline = ground (arith, p);
  others = λ d a b. ground (arith, p);
  ring = tick-IsRing ifr s c cs p q late;
}
