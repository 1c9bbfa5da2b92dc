-- ===== src/Devices/Nvme/Rings.antt =====
-- The two rings of a queue (nvme.c) move together.
use shed_os.Base.{
  ℕ, ◌+◌, ◌*◌, ◌/◌, ◌%◌, ◌<◌, ◌≡◌, refl, ap, ◌⊎◌, subst, Bool-cases, ◌==◌, inl, inr, List, [], ◌∷◌,
  length, some, arith,
}
use shed_os.Devices.Nvme.{SqEntry, CqEntry, Queue, submit, wait, complete, send_cmd_sync, send_all}

-- The device answers some time while it is looked at.
abbrev pub Answers : List CqEntry → Type 0
Answers [] = ⊥
Answers (c ∷ polls) = (c.status_field % 2 ≡ 1) ⊎ Answers polls

abbrev pub AllAnswer : List (List CqEntry) → Type 0
AllAnswer [] = Unit {0}
AllAnswer (p ∷ ps) = Answers p × AllAnswer ps

-- As many commands were taken from the submission ring as were answered, and the doorbells say so.
pub record InStep (q : Queue) (at : ℕ) : Type 0 where
  pub tail : q.sq_tail ≡ at
  pub head : q.cq_head ≡ at
  pub bound : at < 256
  pub tail_bell : q.sq_tail_dbl ≡ at
  pub head_bell : q.cq_head_dbl ≡ at

-- `a` is the first entry with the phase bit set.
abbrev pub FirstAnswer : List CqEntry → CqEntry → Type 0
FirstAnswer [] a = ⊥
FirstAnswer (c ∷ polls) a =
    ((c.status_field % 2 ≡ 1) × (c ≡ a)) ⊎ ((c.status_field % 2 ≡ 0) × FirstAnswer polls a)

-- The entry, with its phase bit cleared.
abbrev pub cleared : CqEntry → CqEntry
cleared a = record a { status_field = 2 * (a.status_field / 2) }

wait_lem :
    (polls : List CqEntry)
    → Answers polls
    → (a : CqEntry) × FirstAnswer polls a × (wait polls ≡ some a)
unfolding wait
wait_lem [] a = absurd a
wait_lem (c ∷ polls) (inl set) = (c, inl (set, refl), ground (arith, set))
wait_lem (c ∷ polls) (inr later) = elim (Bool-cases (c.status_field % 2 == 0)) [
  | inl k ↦ (let (d, f, e) = wait_lem polls later in (d, inr (ground (arith, k), f), rw k e))
  | inr k ↦ (c, inl (ground (arith, k), refl), rw k refl)
]

-- On a queue whose rings and doorbells are in step, where the device answers while it is looked
-- at, a command is put into the submission ring at the old tail; the answer is the first entry
-- that was seen with its phase bit set, with that bit cleared, there and in the completion ring;
-- both rings move on by one place, round the end after 256, and both doorbells are told.
pub send_cmd_sync_lem :
    (command : SqEntry) (polls : List CqEntry) (q : Queue) (at : ℕ)
    → Answers polls
    → InStep q at
    → (a : CqEntry) × (q' : Queue) × FirstAnswer polls a
      × (send_cmd_sync command polls q ≡ some (cleared a, q'))
      × InStep q' ((at + 1) % 256)
      × (q'.sq at ≡ command)
      × (q'.cq at ≡ cleared a)
unfolding send_cmd_sync submit complete
send_cmd_sync_lem command polls q at ans s =
    let (c, f, e) = wait_lem polls ans in
    (
      c,
      (complete c (submit command q)).1,
      f,
      rw (e, send_cmd_sync)
          (ap (λ (n : ℕ). some (record c { status_field = n }, (complete c (submit command q)).1))
            (omega arith)),
      record {
        tail = ground (arith, s.tail);
        head = ground (arith, s.head);
        bound = omega arith;
        tail_bell = ground (arith, s.tail);
        head_bell = ground (arith, s.head);
      },
      ground (arith, s.tail),
      ground (arith, s.head),
    )

-- A list of commands, as `read_blocks` sends them, goes through when the device answers each, and
-- moves the rings by its length.
pub send_all_lem :
    (commands : List SqEntry) (polls : List (List CqEntry)) (q : Queue) (at : ℕ)
    → length commands ≡ length polls
    → AllAnswer polls
    → InStep q at
    → (q' : Queue) × (send_all commands polls q ≡ some q')
      × InStep q' ((at + length commands) % 256)
unfolding send_all
send_all_lem [] polls q at e ans s = (q, refl, subst (InStep q) {x = at} (omega (arith, s.bound)) s)
send_all_lem (c ∷ cs) [] q at e ans s = absurd (omega arith)
send_all_lem (c ∷ cs) (p ∷ ps) q at e (a, ans) s =
    let (answer, q1, first, sent, step, placed, taken) = send_cmd_sync_lem c p q at a s in
    let (q2, all, end) = send_all_lem cs ps q1 ((at + 1) % 256) (omega arith) ans step in
    (
      q2,
      rw (sent, send_all) all,
      subst (InStep q2) {x = ((at + 1) % 256 + length cs) % 256} (omega arith) end,
    )
