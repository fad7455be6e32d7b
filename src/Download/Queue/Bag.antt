-- ===== src/Download/Queue/Bag.antt =====
-- Which errors a queue has recorded: those of its tasks and those of Result.Add, each once.
use httper.Base.{
  true, subst, Bool, length, length-append, All, sym, ℕ, ◌≡◌, refl, ap, ◌∙◌, Option, none, some,
  List, [], ◌∷◌, ◌++◌, arith,
}
use mathlib.Core.List.{perm_append_comm, Perm, append_assoc, append-nil}
use mathlib.Core.List.Perm
use httper.GoError.{GoError, join_all}
use httper.Download.Queue.{
  Shared, Task, Queue, Move, Step, Reach, enter, acquire, give_up, succeed, fail, record_err,
  release, close, move, start, cancel, cancel_all, watch, add_fails, fresh_queue, later, new_task,
  leaving, finished, wait, IsFinished,
}
use httper.Download.Queue.Invariant.{IsSound, Reach-Inv, All-split, Inv}

-- The error that a task has recorded
abbrev noted_errs : Task → List GoError
noted_errs t = elim t.err [
  | none ↦ []
  | some e ↦ elim t.pc [ leaving _ ↦ e ∷ [] | finished ↦ e ∷ [] | _ ↦ [] ]
]

all_errs : List Task → List GoError
all_errs [] = []
all_errs (t ∷ ts) = noted_errs t ++ all_errs ts

all_errs-append : (xs ys : List Task) → all_errs (xs ++ ys) ≡ all_errs xs ++ all_errs ys
unfolding all_errs
all_errs-append [] ys = refl
all_errs-append (x ∷ xs) ys =
    ap (λ l. noted_errs x ++ l) (all_errs-append xs ys)
    ∙ sym (append_assoc (noted_errs x) (all_errs xs) (all_errs ys))

-- The recorded errors are those of the tasks and as many more as Result.Add has recorded.
Bagged : Queue → Type 0
Bagged q =
    (extra : List GoError) × (length extra ≡ q.added)
    × Perm q.shared.errs (all_errs q.tasks ++ extra)

-- What a move adds to the recorded errors, it adds to those of the task.
Added : (s s' : Shared) (t t' : Task) → Type 0
Added s s' t t' =
    (ds : List GoError) × (s'.errs ≡ s.errs ++ ds) × (noted_errs t' ≡ ds ++ noted_errs t)

module _ {sem : Option ℕ} {s : Shared} {t : Task} (sound : IsSound s.errs t) where
  Move-Added : {s' : Shared} {t' : Task} → Move sem s t s' t' → Added s s' t t'
  unfolding Added
  Move-Added (enter at no_sem) = ([], ground (arith, append-nil s.errs), ground arith)
  Move-Added (acquire c at has_sem room) = ([], ground (arith, append-nil s.errs), ground arith)
  Move-Added (give_up c e at has_sem over) = ([], ground (arith, append-nil s.errs), ground arith)
  Move-Added (succeed b at) = ([], ground (arith, append-nil s.errs), ground arith)
  Move-Added (fail b e at) = ([], ground (arith, append-nil s.errs), ground arith)
  Move-Added (record_err b e at) = (e ∷ [], refl, ground arith)
  Move-Added (release at) = ([], ground (arith, append-nil s.errs), ground arith)
  Move-Added (close at) = ([], ground (arith, append-nil s.errs), ground arith)

-- Errors put last stand for the same errors put in the middle.
Perm-middle :
    (es ds before noted after extra : List GoError)
    → Perm es ((before ++ (noted ++ after)) ++ extra)
    → Perm (es ++ ds) ((before ++ ((ds ++ noted) ++ after)) ++ extra)
Perm-middle es ds before noted after extra p = Perm.trans (Perm.append_right ds p) (
    Perm.trans (perm_append_comm ((before ++ (noted ++ after)) ++ extra) ds) (
      subst (λ l. Perm l ((before ++ ((ds ++ noted) ++ after)) ++ extra)) (simp append_assoc)
        (subst (λ l. Perm (((ds ++ before) ++ (noted ++ after)) ++ extra) l) (simp append_assoc)
          (Perm.append_right extra
            (Perm.append_right (noted ++ after) (perm_append_comm ds before))))))

all_errs-middle :
    (before : List Task) (t : Task) (after : List Task)
    → all_errs (before ++ t ∷ after) ≡ all_errs before ++ (noted_errs t ++ all_errs after)
unfolding all_errs
all_errs-middle before t after = all_errs-append before (t ∷ after)

started :
    (ts : List Task) (cancelled : Bool) → all_errs (ts ++ new_task cancelled ∷ []) ≡ all_errs ts
unfolding all_errs
started ts cancelled = all_errs-append ts (new_task cancelled ∷ []) ∙ append-nil (all_errs ts)

-- The end of a context changes no error.
unchanged : (s : Shared) (t : Task) → Added s s t (record t { cancelled = true })
unfolding Added
unchanged s t = ([], sym (append-nil s.errs), refl)

move-Bagged :
    (q : Queue) (s' : Shared) (before after : List Task) (t t' : Task)
    → q.tasks ≡ before ++ t ∷ after
    → Added q.shared s' t t'
    → Bagged q
    → Bagged (record q { shared = s'; tasks = before ++ t' ∷ after })
unfolding Bagged Added
move-Bagged q s' before after t t' stands (ds, grown, noted) (extra, count, p) = (
  extra,
  count,
  subst (λ l. Perm l (all_errs (before ++ t' ∷ after) ++ extra)) (sym grown)
      (subst (λ l. Perm (q.shared.errs ++ ds) (l ++ extra))
        (sym (
          all_errs-middle before t' after
          ∙ ap (λ n. all_errs before ++ (n ++ all_errs after)) noted))
        (Perm-middle q.shared.errs ds (all_errs before) (noted_errs t) (all_errs after) extra (
          subst (λ l. Perm q.shared.errs (l ++ extra))
            (ap all_errs stands ∙ all_errs-middle before t after) p))),
)

Step-Bagged : {sem : Option ℕ} {q q' : Queue} → Inv sem q → Step sem q q' → Bagged q → Bagged q'
unfolding Bagged
Step-Bagged {sem} {q} inv (move before after t {s'} {t'} stands m) b =
    let (_, rest) = All-split (IsSound q.shared.errs) before (t ∷ after) (rw stands at inv.sound) in
    move-Bagged q s' before after t t' stands (Move-Added rest.0 m) b
Step-Bagged {sem} {q} inv (start cancelled) (extra, count, p) =
    (extra, count, subst (λ l. Perm q.shared.errs (l ++ extra)) (sym (started q.tasks cancelled)) p)
Step-Bagged {sem} {q} inv (cancel before after t stands) b =
    move-Bagged q q.shared before after t (record t { cancelled = true }) stands
      (unchanged q.shared t) b
Step-Bagged {sem} {q} inv cancel_all b = b
Step-Bagged {sem} {q} inv (watch before after t stands all) b =
    move-Bagged q q.shared before after t (record t { cancelled = true }) stands
      (unchanged q.shared t) b
Step-Bagged {sem} {q} inv (add_fails e) (extra, count, p) = (
  extra ++ e ∷ [],
  omega (arith, count, length-append extra (e ∷ [])),
  subst (λ l. Perm (q.shared.errs ++ e ∷ []) l) (append_assoc (all_errs q.tasks) extra (e ∷ []))
      (Perm.append_right (e ∷ []) p),
)

Reach-Bagged : {sem : Option ℕ} {q : Queue} → Reach sem q → Bagged q
unfolding Bagged all_errs
Reach-Bagged fresh_queue = ([], refl, Perm.refl [])
Reach-Bagged (later r st) = Step-Bagged (Reach-Inv r) st (Reach-Bagged r)

-- The errors of the tasks
pub task_errs : List Task → List GoError
task_errs [] = []
task_errs (t ∷ ts) = elim t.err [ none ↦ task_errs ts | some e ↦ e ∷ task_errs ts ]

all_errs-task_errs : (ts : List Task) → All IsFinished ts → all_errs ts ≡ task_errs ts
unfolding all_errs task_errs
all_errs-task_errs [] h = refl
all_errs-task_errs (t ∷ ts) h = ground (arith, all_errs-task_errs ts h.1)

-- Once every task of a reachable queue has finished, Wait joins, in some order, the error of each
-- task that failed, once, and as many more as Result.Add has recorded, and no others.
pub wait-Perm :
    {sem : Option ℕ} {q : Queue}
    → Reach sem q
    → All IsFinished q.tasks
    → (es extra : List GoError) × (wait q ≡ join_all es)
      × (length extra ≡ q.added)
      × Perm es (task_errs q.tasks ++ extra)
unfolding wait Bagged
wait-Perm {q} r over =
    let (extra, count, p) = Reach-Bagged r in
    (
      q.shared.errs,
      extra,
      refl,
      count,
      subst (λ l. Perm q.shared.errs (l ++ extra)) (all_errs-task_errs q.tasks over) p,
    )
