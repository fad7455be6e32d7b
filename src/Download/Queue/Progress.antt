-- ===== src/Download/Queue/Progress.antt =====
-- A queue does not stop before its tasks are done.
use httper.Download.Queue.{
  IsFinished, Reach, Queue, new_sem, Pc, queued, running, recording, leaving, finished, Task,
  Shared, Move, enter, acquire, succeed, record_err, release, close,
}
use httper.Download.Queue.Invariant.{Reach-Inv, total, slots}
use httper.Base.{
  dec_lt, All, zero, suc, pos, negsuc, ℤ, ℕ, ◌<◌, ◌≡◌, refl, ap, ◌⊎◌, inl, inr, true, false, Option,
  List, [], ◌∷◌, ◌++◌, arith,
}

-- Some task of the list can move.
abbrev CanMove : Option ℕ → Shared → Task → Type 0
CanMove sem s t = (s' : Shared) × (t' : Task) × Move sem s t s' t'

pub record Mover (sem : Option ℕ) (s : Shared) (ts : List Task) : Type 0 where
  pub before : List Task
  pub after : List Task
  pub task : Task
  pub stands : ts ≡ before ++ task ∷ after
  pub can : CanMove sem s task

here :
    {sem : Option ℕ} {s : Shared} (t : Task) (ts : List Task)
    → CanMove sem s t
    → Mover sem s (t ∷ ts)
here t ts can = record { before = []; after = ts; task = t; stands = refl; can = can }

there :
    {sem : Option ℕ} {s : Shared} (t : Task) {ts : List Task}
    → Mover sem s ts
    → Mover sem s (t ∷ ts)
there t m = record {
  before = t ∷ m.before;
  after = m.after;
  task = m.task;
  stands = ap (λ l. t ∷ l) m.stands;
  can = m.can;
}

-- A task that holds a slot can move, and so can any that has left the queue.
past_queue :
    (sem : Option ℕ) (s : Shared) (t : Task) (p : Pc)
    → t.pc ≡ p
    → (p ≡ queued) ⊎ (p ≡ finished) ⊎ CanMove sem s t
past_queue sem s t queued e = inl refl
past_queue sem s t (running b) e = inr (inr (_, _, succeed b e))
past_queue sem s t (recording b d) e = inr (inr (_, _, record_err b d e))
past_queue sem s t (leaving true) e = inr (inr (_, _, release e))
past_queue sem s t (leaving false) e = inr (inr (_, _, close e))
past_queue sem s t finished e = inr (inl refl)

-- Where slots are held, a task can move.
slot-Mover : (sem : Option ℕ) (s : Shared) (ts : List Task) → 0 < total slots ts → Mover sem s ts
unfolding total
slot-Mover sem s [] h = absurd (omega arith)
slot-Mover sem s (t ∷ ts) h = elim (past_queue sem s t t.pc refl) [
  | inl at ↦ there t (slot-Mover sem s ts (ground arith))
  | inr (inl at) ↦ there t (slot-Mover sem s ts (ground arith))
  | inr (inr can) ↦ here t ts can
]

-- A queued task can go on, unless every slot is taken.
queued_moves :
    (max : ℤ) (s : Shared) (t : Task) → t.pc ≡ queued → CanMove (new_sem max) s t ⊎ (0 < s.used)
unfolding new_sem
queued_moves (pos zero) s t at = inl (_, _, enter at refl)
queued_moves (negsuc n) s t at = inl (_, _, enter at refl)
queued_moves (pos (suc n)) s t at = elim (dec_lt s.used (suc n)) [
  | yes room ↦ inl (_, _, acquire (suc n) at refl room)
  | no full ↦ inr (omega arith)
]

scan :
    (max : ℤ) (s : Shared) (ts : List Task)
    → All IsFinished ts ⊎ Mover (new_sem max) s ts ⊎ (0 < s.used)
scan max s [] = inl tt
scan max s (t ∷ ts) = elim (past_queue (new_sem max) s t t.pc refl) [
  | inl at ↦ elim (queued_moves max s t at) [
    | inl can ↦ inr (inl (here t ts can))
    | inr taken ↦ inr (inr taken)
  ]
  | inr (inl over) ↦ elim (scan max s ts) [
    | inl rest ↦ inl (over, rest)
    | inr (inl m) ↦ inr (inl (there t m))
    | inr (inr taken) ↦ inr (inr taken)
  ]
  | inr (inr can) ↦ inr (inl (here t ts can))
]

-- No deadlock: in every reachable state of a queue made with any limit, either every task has
-- finished or some task can move, whatever the functions that run return.
pub no_deadlock :
    (max : ℤ) {q : Queue}
    → Reach (new_sem max) q
    → All IsFinished q.tasks ⊎ Mover (new_sem max) q.shared q.tasks
no_deadlock max {q} r = elim (scan max q.shared q.tasks) [
  | inl over ↦ inl over
  | inr (inl m) ↦ inr m
  | inr (inr taken) ↦
      inr (slot-Mover (new_sem max) q.shared q.tasks (omega (arith, (Reach-Inv r).held)))
]
