-- ===== src/Tasks/Turns.antt =====
-- Runs of the timer (kernel/src/interrupts/timer.c) on the ring of tasks: every task gets its turn.
use shed_os.Base.{
  ℕ, zero, suc, ◌+◌, ◌*◌, ◌^◌, ◌<◌, ◌≤◌, ◌≡◌, ◌∙◌, refl, sym, ap, ap₂, subst, inl, inr, lt_cases,
  List, [], ◌∷◌, ◌++◌, length, some, arith,
}
use mathlib.Core.List.{append_assoc}
use shed_os.Base.Word.{add64}
use shed_os.Tasks.{
  Sched, InterruptFrame, sched_tick, timer_tick, save_context, set_deadline, switch_to_task,
}
use shed_os.Tasks.Ring.{IsRing, tick-Switched}

-- `k` ticks of `dus` microseconds; `ifrs i`, `ifrs (i + 1)` and so on are the interrupted contexts.
abbrev pub ticks : (ifrs : ℕ → InterruptFrame) → (dus : ℕ) → (k i : ℕ) → Sched → Sched
ticks ifrs dus zero i s = s
ticks ifrs dus (suc k) i s = ticks ifrs dus k (i + 1) (timer_tick (ifrs i) dus s)

abbrev pub deadline_of : Sched → ℕ
deadline_of s = (s.tasks s.current_task).deadline

-- `c` has just got its turn, `spent` microseconds after `s`, and `rest` come after it.
pub record Turn (s t : Sched) (c : ℕ) (rest : List ℕ) (spent : ℕ) : Type 0 where
  pub current : t.current_task ≡ c
  pub runs : t.running ≡ some c
  pub ring : IsRing t rest
  pub elapsed : t.timer_elapsed_us ≡ s.timer_elapsed_us + spent
  pub deadline : deadline_of t ≡ t.timer_elapsed_us + 1000000

tick_early :
    (ifr : InterruptFrame) (dus : ℕ) (s : Sched)
    → s.timer_elapsed_us + dus < 2 ^ 64
    → s.timer_elapsed_us + dus ≤ deadline_of s
    → timer_tick ifr dus s ≡ record s { timer_elapsed_us = s.timer_elapsed_us + dus }
unfolding timer_tick sched_tick
tick_early ifr dus s fits early = ground arith

tick_elapsed :
    (ifr : InterruptFrame) (s : Sched) → (sched_tick ifr s).timer_elapsed_us ≡ s.timer_elapsed_us
unfolding sched_tick save_context set_deadline switch_to_task
tick_elapsed ifr s = ground arith

tick_late :
    (ifr : InterruptFrame) (dus : ℕ) (s : Sched) (c : ℕ) (cs : List ℕ)
    → IsRing s (c ∷ cs)
    → s.timer_elapsed_us + dus + 1000000 < 2 ^ 64
    → deadline_of s < s.timer_elapsed_us + dus
    → Turn s (timer_tick ifr dus s) c (cs ++ s.current_task ∷ []) dus
unfolding timer_tick
tick_late ifr dus s c cs ring fits late =
    let s1 : Sched = record s { timer_elapsed_us = add64 s.timer_elapsed_us dus } in
    let w = tick-Switched ifr s1 c cs ring (omega arith) in
    let time = tick_elapsed ifr s1 in
    record {
      current = w.current;
      runs = w.runs;
      ring = w.ring;
      elapsed = time ∙ omega arith;
      deadline =
          ap (λ (d : ℕ). ((sched_tick ifr s1).tasks d).deadline) w.current
          ∙ (w.deadline ∙ omega (arith, time));
    }

Turn-later :
    (s s1 u : Sched) (c : ℕ) (rest : List ℕ) (x y z : ℕ)
    → s1.timer_elapsed_us ≡ s.timer_elapsed_us + x
    → z ≡ x + y
    → Turn s1 u c rest y
    → Turn s u c rest z
Turn-later s s1 u c rest x y z e f t = record {
  current = t.current;
  runs = t.runs;
  ring = t.ring;
  elapsed = t.elapsed ∙ omega (arith, e, f);
  deadline = t.deadline;
}

module _ (ifrs : ℕ → InterruptFrame) (dus : ℕ) (one : 1 ≤ dus) where
  -- The next task gets its turn when the time to the deadline has passed.
  turn_lem :
      (m i : ℕ) (s : Sched) (c : ℕ) (cs : List ℕ)
      → IsRing s (c ∷ cs)
      → deadline_of s ≤ s.timer_elapsed_us + m * dus
      → s.timer_elapsed_us + suc m * dus + 1000000 < 2 ^ 64
      → (k : ℕ) × (k ≤ suc m)
        × Turn s (ticks ifrs dus k i s) c (cs ++ s.current_task ∷ []) (k * dus)
  turn_lem zero i s c cs ring due fits = (
    1,
    omega arith,
    subst (Turn s _ c _) {x = dus} {y = 1 * dus} (omega arith)
        (tick_late (ifrs i) dus s c cs ring (omega arith) (omega (arith, one))),
  )
  turn_lem (suc m) i s c cs ring due fits =
      elim (lt_cases (deadline_of s) (s.timer_elapsed_us + dus)) [
        | inl late ↦ (
          1,
          omega arith,
          subst (Turn s _ c _) {x = dus} {y = 1 * dus} (omega arith)
              (tick_late (ifrs i) dus s c cs ring (omega arith) late),
        )
        | inr early ↦
            let s1 : Sched = record s { timer_elapsed_us = s.timer_elapsed_us + dus } in
            let (k, le, t) = turn_lem m (i + 1) s1 c cs ring (omega arith) (omega arith) in
            (
              suc k,
              omega arith,
              subst
                  (λ (u : Sched).
                    Turn s (ticks ifrs dus k (i + 1) u) c (cs ++ s.current_task ∷ []) (suc k * dus))
                  (sym (tick_early (ifrs i) dus s (omega arith) early))
                  (Turn-later s s1 _ c _ dus (k * dus) (suc k * dus) refl (omega arith) t),
            )
      ]

  ticks_add :
      (k l i : ℕ) (s : Sched)
      → ticks ifrs dus (k + l) i s ≡ ticks ifrs dus l (i + k) (ticks ifrs dus k i s)
  ticks_add zero l i s =
      ap₂ (λ (x y : ℕ). ticks ifrs dus x y s) {x = 0 + l} {y = l} {u = i} {v = i + 0} (omega arith)
        (omega arith)
  ticks_add (suc k) l i s =
      ap (λ (x : ℕ). ticks ifrs dus x i s) {x = suc k + l} {y = suc (k + l)} (omega arith)
      ∙ (ticks_add k l (i + 1) (timer_tick (ifrs i) dus s)
          ∙ ap
              (λ (x : ℕ). ticks ifrs dus l x (ticks ifrs dus k (i + 1) (timer_tick (ifrs i) dus s)))
              {x = i + 1 + k} {y = i + suc k} (omega arith))

  grown : (m k : ℕ) → k ≤ m → k * dus ≤ m * dus
  grown zero zero le = omega arith
  grown zero (suc k) le = absurd (omega arith)
  grown (suc m) zero le = omega arith
  grown (suc m) (suc k) le = omega (arith, grown m k (omega arith))

  -- A task with `cs` before it on the ring has its turn after at most `(length cs + 1) * (m + 1)` ticks,
  -- when `m` ticks take a second or more, the next deadline is at most a second away, and the clock does
  -- not overflow meanwhile.
  pub every-Turn :
      (cs : List ℕ) (m i : ℕ) (s : Sched) (c : ℕ) (ds : List ℕ)
      → 1000000 ≤ m * dus
      → IsRing s (cs ++ c ∷ ds)
      → deadline_of s ≤ s.timer_elapsed_us + 1000000
      → s.timer_elapsed_us + suc (length cs) * (suc m * dus) + 1000000 < 2 ^ 64
      → (k : ℕ) × (k ≤ suc (length cs) * suc m)
        × (rest : List ℕ) × Turn s (ticks ifrs dus k i s) c rest (k * dus)
  every-Turn [] m i s c ds second ring due fits =
      let (k, le, t) = turn_lem m i s c ds ring (omega arith) (omega arith) in
      (k, omega arith, ds ++ s.current_task ∷ [], t)
  every-Turn (d ∷ cs) m i s c ds second ring due fits =
      let (k, le, t) = turn_lem m i s d (cs ++ c ∷ ds) ring (omega arith) (omega arith) in
      let s1 = ticks ifrs dus k i s in
      let ring1 : IsRing s1 (cs ++ c ∷ (ds ++ s.current_task ∷ [])) =
        subst (IsRing s1) (append_assoc cs (c ∷ ds) (s.current_task ∷ [])) t.ring in
      let (l, le', rest, u) =
        every-Turn cs m (i + k) s1 c (ds ++ s.current_task ∷ []) second ring1
          (omega (arith, t.deadline)) (omega (arith, t.elapsed, grown (suc m) k le)) in
      (
        k + l,
        omega arith,
        rest,
        subst (λ (v : Sched). Turn s v c rest ((k + l) * dus)) (sym (ticks_add k l i s))
            (Turn-later s s1 _ c rest (k * dus) (l * dus) ((k + l) * dus) t.elapsed (grind arith)
              u),
      )
