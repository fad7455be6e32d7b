-- ===== src/Download/Queue/Wait.antt =====
-- What the semaphore and Wait promise in every reachable state.
use httper.GoError.{GoError}
use httper.GoError.Laws.{join_all-none_iff}
use httper.Download.Queue.{Task, Queue, Reach, wait, IsFinished, new_sem}
use httper.Download.Queue.Invariant.{
  All-split, busy, IsSlotted, total, slots, noted, In, IsSound, Reach-Inv,
}
use httper.Base.{
  ◌++◌, suc, pos, ℕ, ◌≤◌, ◌≡◌, refl, ◌↔◌, Option, none, some, List, [], ◌∷◌, arith, length, All,
}

total_mono : (v w : Task → ℕ) (ts : List Task) → All (λ t. v t ≤ w t) ts → total v ts ≤ total w ts
unfolding total
total_mono v w [] h = omega arith
total_mono v w (t ∷ ts) h = omega (arith, total_mono v w ts h.1, h.0)

-- With the tasks of a queue done, each error of a task is among the recorded ones.
finished-err-In :
    (es : List GoError) (t : Task) (e : GoError)
    → IsSound es t
    → IsFinished t
    → t.err ≡ some e
    → In e es
finished-err-In es t e sound done failed = ground arith

-- Once every task has finished, Wait returns nil exactly when no task failed and Result.Add
-- recorded nothing.
abbrev pub NoError : Queue → Type 0
NoError q = All (λ t. t.err ≡ none) q.tasks × (q.added ≡ 0)

noted-zero : (ts : List Task) → All (λ t. t.err ≡ none) ts → total noted ts ≡ 0
unfolding total
noted-zero [] h = refl
noted-zero (t ∷ ts) h = ground (arith, noted-zero ts h.1)

zero-noted : (ts : List Task) → All IsFinished ts → total noted ts ≡ 0 → All (λ t. t.err ≡ none) ts
unfolding total
zero-noted [] h e = tt
zero-noted (t ∷ ts) h e = (ground arith, zero-noted ts h.1 (omega arith))

length-zero : {A : Type 0} (xs : List A) → length xs ≡ 0 → xs ≡ []
length-zero [] h = refl
length-zero (x ∷ xs) h = absurd (omega arith)

-- Once every task of a reachable queue has finished, Wait returns nil exactly when no task ended
-- with an error and no error was recorded by Result.Add.
pub wait-none_iff :
    {sem : Option ℕ} {q : Queue}
    → Reach sem q
    → All IsFinished q.tasks
    → (wait q ≡ none) ↔ NoError q
unfolding wait
wait-none_iff {q} r over =
    let inv = Reach-Inv r in
    (
      λ h.
          let no_errs = (join_all-none_iff q.shared.errs).0 h in
          let none_there : length q.shared.errs ≡ 0 = rw no_errs refl in
          (
            zero-noted q.tasks over (omega (arith, inv.counted, none_there)),
            omega (arith, inv.counted, none_there),
          ),
      λ h.
          (join_all-none_iff q.shared.errs).1
            (length-zero q.shared.errs (omega (arith, inv.counted, noted-zero q.tasks h.0, h.1))),
    )

total-busy-le :
    (c : ℕ) (ts : List Task) → All (IsSlotted (some c)) ts → total busy ts ≤ total slots ts
total-busy-le c ts h = total_mono busy slots ts h

-- With a limit of `n + 1` on a queue, never more than `n + 1` of its downloads run at once.
pub busy-le_limit :
    (n : ℕ) {q : Queue} → Reach (new_sem (pos (suc n))) q → total busy q.tasks ≤ suc n
unfolding new_sem
busy-le_limit n {q} r =
    let inv = Reach-Inv r in
    omega (arith, total-busy-le (suc n) q.tasks inv.slotted, inv.held, inv.within)

-- Every error that a finished task of a reachable queue ended with is among the errors that Wait
-- joins.
pub finished-recorded :
    {sem : Option ℕ} {q : Queue} (before after : List Task) (t : Task) (e : GoError)
    → Reach sem q
    → q.tasks ≡ before ++ t ∷ after
    → IsFinished t
    → t.err ≡ some e
    → In e q.shared.errs
finished-recorded {q} before after t e r stands over failed =
    let (_, rest) =
      All-split (IsSound q.shared.errs) before (t ∷ after) (rw stands at (Reach-Inv r).sound) in
    finished-err-In q.shared.errs t e rest.0 over failed
