-- ===== src/Download/Queue.antt =====
-- client/download/queue.go, and what queue_result.go does to the queue. The goroutines of a queue
-- are tasks that step one at a time, in any order. A task is what Start launches: its goroutine,
-- its context and its Result.
pub mod Invariant
pub mod Progress
mod Tests
pub mod Wait
pub mod Bag
pub mod Results
use httper.GoError.{GoError, join_all}
use httper.Base.{
  if◌then◌else◌, ℕ, zero, suc, ◌+◌, ◌-◌, ◌<◌, ◌≡◌, Bool, true, false, Option, none, some, List, [],
  ◌∷◌, ◌++◌, ℤ, pos, negsuc,
}

-- Where a task's goroutine stands. The Bool says whether it holds a slot of the semaphore.
pub data Pc : Type 0 where
  queued : Pc  -- before the select on the semaphore
  running : Bool → Pc  -- in fn(ctx)
  recording : Bool → GoError → Pc  -- r.err is set, recordErr comes next
  leaving : Bool → Pc  -- in the deferred functions
  finished : Pc  -- doneCh is closed

-- `cancelled` is whether the task's context has ended, `err` the Result's field.
pub record Task : Type 0 where
  pub pc : Pc
  pub cancelled : Bool
  pub err : Option GoError

-- The fields of `queue` that change. `used` is the number of elements in the channel `sem`.
pub record Shared : Type 0 where
  pub used : ℕ
  pub errs : List GoError
  pub cancel_all : Bool

-- A queue with its tasks; `added` counts the errors that Result.Add recorded.
pub record Queue : Type 0 where
  pub shared : Shared
  pub tasks : List Task
  pub added : ℕ

-- newQueue: the capacity of the semaphore, if there is one
pub new_sem : ℤ → Option ℕ
new_sem (pos zero) = none
new_sem (pos (suc n)) = some (suc n)
new_sem (negsuc n) = none

abbrev pub new_queue : Queue
new_queue = record {
  shared = record { used = 0; errs = []; cancel_all = false };
  tasks = [];
  added = 0;
}

abbrev pub new_task : Bool → Task
new_task cancelled = record { pc = queued; cancelled = cancelled; err = none }

-- recordErr; the mutex makes it one step
abbrev pub record_error : GoError → Shared → Shared
record_error e s = record s { errs = s.errs ++ e ∷ [] }

-- doCancelAll: closeOnce makes a second call do nothing
abbrev pub do_cancel_all : Shared → Shared
do_cancel_all s = record s { cancel_all = true }

-- The cancel function of a task's context
abbrev pub cancel_task : Task → Task
cancel_task t = record t { cancelled = true }

-- Whether the channel of Result.Done is closed
unfoldable pub is_done : Task → Bool
is_done t = elim t.pc [ finished ↦ true | _ ↦ false ]

-- Result.Err, which blocks (`none`) until the channel is closed
unfoldable pub result_err : Task → Option (Option GoError)
unfolding is_done
result_err t = if is_done t then some t.err else none

-- A step of one goroutine that Start launched. What fn returns is open.
pub data Move (sem : Option ℕ) (s : Shared) (t : Task) : Shared → Task → Type 0 where
  -- there is no semaphore
  enter : t.pc ≡ queued → sem ≡ none → Move sem s t s (record t { pc = running false })
  -- q.sem <- struct{}{}
  acquire :
      (c : ℕ)
      → t.pc ≡ queued
      → sem ≡ some c
      → s.used < c
      → Move sem s t (record s { used = s.used + 1 }) (record t { pc = running true })
  -- <-ctx.Done()
  give_up :
      (c : ℕ) (e : GoError)
      → t.pc ≡ queued
      → sem ≡ some c
      → t.cancelled ≡ true
      → Move sem s t s (record t { pc = recording false e; err = some e })
  -- fn(ctx) returns nil
  succeed : (b : Bool) → t.pc ≡ running b → Move sem s t s (record t { pc = leaving b })
  -- fn(ctx) returns an error
  fail :
      (b : Bool) (e : GoError)
      → t.pc ≡ running b
      → Move sem s t s (record t { pc = recording b e; err = some e })
  -- recordErr
  record_err :
      (b : Bool) (e : GoError)
      → t.pc ≡ recording b e
      → Move sem s t (record_error e s) (record t { pc = leaving b })
  -- <-q.sem
  release :
      t.pc ≡ leaving true
      → Move sem s t (record s { used = s.used - 1 }) (record t { pc = leaving false })
  -- cancel() and close(doneCh)
  close : t.pc ≡ leaving false → Move sem s t s (record t { pc = finished; cancelled = true })

-- A step of the program around the goroutines.
pub data Step (sem : Option ℕ) (q : Queue) : Queue → Type 0 where
  move :
      (before after : List Task) (t : Task) {s' : Shared} {t' : Task}
      → q.tasks ≡ before ++ t ∷ after
      → Move sem q.shared t s' t'
      → Step sem q (record q { shared = s'; tasks = before ++ t' ∷ after })
  -- Start, with a context that may have ended
  start : (cancelled : Bool) → Step sem q (record q { tasks = q.tasks ++ new_task cancelled ∷ [] })
  -- Result.Cancel, or the end of the parent's context
  cancel :
      (before after : List Task) (t : Task)
      → q.tasks ≡ before ++ t ∷ after
      → Step sem q (record q { tasks = before ++ cancel_task t ∷ after })
  -- Result.CancelAll
  cancel_all : Step sem q (record q { shared = do_cancel_all q.shared })
  -- the goroutine that waits for cancelAll
  watch :
      (before after : List Task) (t : Task)
      → q.tasks ≡ before ++ t ∷ after
      → q.shared.cancel_all ≡ true
      → Step sem q (record q { tasks = before ++ cancel_task t ∷ after })
  -- Result.Add whose adder fails
  add_fails :
      (e : GoError)
      → Step sem q (record q { shared = record_error e q.shared; added = q.added + 1 })

-- The states of a queue made by newQueue.
pub data Reach (sem : Option ℕ) : Queue → Type 0 where
  fresh_queue : Reach sem new_queue
  later : {q q' : Queue} → Reach sem q → Step sem q q' → Reach sem q'

-- wait, once every task has finished
pub wait : Queue → Option GoError
wait q = join_all q.shared.errs

abbrev pub IsFinished : Task → Type 0
IsFinished t = t.pc ≡ finished
