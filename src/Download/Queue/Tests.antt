-- ===== src/Download/Queue/Tests.antt =====
-- A queue of one slot, with a download that fails and one that waits.
use httper.Base.{
  ℕ, List, length, ◌++◌, ◌≤◌, ◌≡◌, refl, ◌⊎◌, true, false, none, some, [], ◌∷◌, arith, All, pos,
}
use httper.Download.Queue.{
  result_err, Queue, Reach, Task, new_sem, new_task, wait, IsFinished, fresh_queue, later, start,
  move, acquire, fail, record_err, release, close, running, finished, leaving, recording,
}
use httper.GoError.{is_error, join_all, GoError}
use httper.Download.Queue.Results.{wait_of-result_err}
use httper.Download.Model.{err_canceled}
use httper.Download.Queue.Bag.{wait-Perm, task_errs}
use mathlib.Core.List.{Perm}
use httper.Download.Queue.Invariant.{Inv, Step-Inv, Reach-Inv, total, busy}
use httper.Download.Queue.Wait.{busy-le_limit}
use httper.Download.Queue.Progress.{no_deadlock, Mover}

abbrev failure : GoError
failure = err_canceled

abbrev first_task : Task
first_task = record { pc = running true; cancelled = false; err = none }

-- Two tasks are started and the first has the slot.
abbrev one_running : Queue
one_running = record {
  shared = record { used = 1; errs = []; cancel_all = false };
  tasks = first_task ∷ new_task false ∷ [];
  added = 0;
}

one_running-Reach : Reach (new_sem (pos 1)) one_running
unfolding new_sem
one_running-Reach =
    later (later (later fresh_queue (start false)) (start false))
      (move [] (new_task false ∷ []) (new_task false) refl (acquire 1 refl refl (omega arith)))

busy-le_limit_example : total busy one_running.tasks ≤ 1
busy-le_limit_example = busy-le_limit 0 one_running-Reach

no_deadlock_example :
    All IsFinished one_running.tasks ⊎ Mover (new_sem (pos 1)) one_running.shared one_running.tasks
no_deadlock_example = no_deadlock (pos 1) one_running-Reach

-- One task that failed and is done.
abbrev failed_task : Task
failed_task = record { pc = finished; cancelled = true; err = some failure }

abbrev one_failed : Queue
one_failed = record {
  shared = record { used = 0; errs = failure ∷ []; cancel_all = false };
  tasks = failed_task ∷ [];
  added = 0;
}

one_failed-Reach : Reach (some 1) one_failed
one_failed-Reach =
    later
      (later
        (later
          (later
            (later (later fresh_queue (start false))
              (move [] [] (new_task false) refl (acquire 1 refl refl (omega arith))))
            (move [] [] first_task refl (fail true failure refl)))
          (move [] []
            (record { pc = recording true failure; cancelled = false; err = some failure }) refl
            (record_err true failure refl)))
        (move [] [] (record { pc = leaving true; cancelled = false; err = some failure }) refl
          (release refl)))
      (move [] [] (record { pc = leaving false; cancelled = false; err = some failure }) refl
        (close refl))

wait_of-result_err_example :
    (j : GoError) × (wait one_failed ≡ some j)
    × ((target : ℕ) → is_error failure target ≡ true → is_error j target ≡ true)
unfolding result_err
wait_of-result_err_example =
    wait_of-result_err [] [] failed_task failure one_failed-Reach (refl, tt) refl refl

wait-Perm_example :
    (es extra : List GoError) × (wait one_failed ≡ join_all es)
    × (length extra ≡ one_failed.added)
    × Perm es (task_errs one_failed.tasks ++ extra)
wait-Perm_example = wait-Perm one_failed-Reach (refl, tt)

Step-Inv_example :
    Inv (new_sem (pos 1)) (record one_running { tasks = one_running.tasks ++ new_task true ∷ [] })
Step-Inv_example = Step-Inv (start true) (Reach-Inv one_running-Reach)
