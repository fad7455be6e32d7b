-- ===== src/Download/Queue/Invariant.antt =====
-- What holds of every reachable queue: the slots in use are those that tasks hold, never more than
-- the capacity, and every error of a task is recorded before the task is done.
pub mod Counts
pub mod Moves
unfoldable pub use Counts.*
use httper.Download.Queue.Invariant.Moves.{Move-Moved}
use httper.GoError.{GoError}
use httper.Download.Queue.{
  cancel_all, fresh_queue, Reach, Step, Move, new_task, Queue, move, start, cancel, watch,
  add_fails, later, Task, Shared,
}
use httper.Base.{
  Bool, ap, All-append, ◌∙◌, length-append, ℕ, ◌+◌, ◌≡◌, refl, true, Option, none, some, List, [],
  ◌∷◌, ◌++◌, arith, length, All,
}

pub record Inv (sem : Option ℕ) (q : Queue) : Type 0 where
  pub within : Within sem q.shared.used
  pub held : q.shared.used ≡ total slots q.tasks
  pub counted : length q.shared.errs ≡ total noted q.tasks + q.added
  pub sound : All (IsSound q.shared.errs) q.tasks
  pub slotted : All (IsSlotted sem) q.tasks

pub All-split {ℓ κ} :
    {A : Type ℓ} (P : A → Type κ) (xs ys : List A) → All P (xs ++ ys) → All P xs × All P ys
All-split P [] ys h = (tt, h)
All-split P (x ∷ xs) ys h = let (a, b) = All-split P xs ys h.1 in ((h.0, a), b)

total-split :
    (w : Task → ℕ) {ts : List Task} (xs : List Task) (t : Task) (ys : List Task)
    → ts ≡ xs ++ t ∷ ys
    → total w ts ≡ total w xs + (w t + total w ys)
total-split w xs t ys e = ap (total w) e ∙ total-middle w xs t ys

IsSound-grows :
    (es es' : List GoError) (ts : List Task)
    → (ds : List GoError) × (es' ≡ es ++ ds)
    → All (IsSound es) ts
    → All (IsSound es') ts
IsSound-grows es es' ts (ds, e) h = rw e (All-IsSound-append es ds ts h)

IsSlotted-cancel :
    (sem : Option ℕ) (t : Task) → IsSlotted sem t → IsSlotted sem (record t { cancelled = true })
IsSlotted-cancel none t h = tt
IsSlotted-cancel (some c) t h = h

module _ {sem : Option ℕ} {q : Queue} (inv : Inv sem q) where
  Move-Inv :
      (before after : List Task) (t : Task) {s' : Shared} {t' : Task}
      → q.tasks ≡ before ++ t ∷ after
      → Move sem q.shared t s' t'
      → Inv sem (record q { shared = s'; tasks = before ++ t' ∷ after })
  Move-Inv before after t {s'} {t'} e m =
      let (sound_before, sound_rest) = All-split _ before (t ∷ after) (rw e at inv.sound) in
      let (slotted_before, slotted_rest) = All-split _ before (t ∷ after) (rw e at inv.slotted) in
      let slots_before = total-split slots before t after e in
      let noted_before = total-split noted before t after e in
      let moved = Move-Moved inv.within (omega (arith, inv.held, slots_before)) sound_rest.0 m in
      record {
        within = moved.within;
        held =
            omega (arith, inv.held, slots_before, moved.held, total-middle slots before t' after);
        counted =
            omega
              (arith, inv.counted, noted_before, moved.counted, total-middle noted before t' after);
        sound =
            All-append _ before (t' ∷ after)
              (IsSound-grows q.shared.errs s'.errs before moved.extra sound_before)
              (moved.sound, IsSound-grows q.shared.errs s'.errs after moved.extra sound_rest.1);
        slotted = All-append _ before (t' ∷ after) slotted_before (moved.slotted, slotted_rest.1);
      }

  cancel-Inv :
      (before after : List Task) (t : Task)
      → q.tasks ≡ before ++ t ∷ after
      → Inv sem (record q { tasks = before ++ record t { cancelled = true } ∷ after })
  cancel-Inv before after t e =
      let (sound_before, sound_rest) = All-split _ before (t ∷ after) (rw e at inv.sound) in
      let (slotted_before, slotted_rest) = All-split _ before (t ∷ after) (rw e at inv.slotted) in
      record {
        within = inv.within;
        held = omega (
          arith,
          inv.held,
          total-split slots before t after e,
          total-middle slots before (record t { cancelled = true }) after,
        );
        counted = omega (
          arith,
          inv.counted,
          total-split noted before t after e,
          total-middle noted before (record t { cancelled = true }) after,
        );
        sound = All-append _ before (record t { cancelled = true } ∷ after) sound_before sound_rest;
        slotted =
            All-append _ before (record t { cancelled = true } ∷ after) slotted_before
              (IsSlotted-cancel sem t slotted_rest.0, slotted_rest.1);
      }

new_task-IsSlotted : (sem : Option ℕ) (cancelled : Bool) → IsSlotted sem (new_task cancelled)
new_task-IsSlotted none cancelled = tt
new_task-IsSlotted (some c) cancelled = omega arith

-- Every step of a queue keeps its invariant: the slots in use are those that tasks hold, and no more
-- than the capacity; as many errors are recorded as tasks have recorded one and Result.Add has
-- failed; the error of a task fits its place and is recorded when the task leaves; and with a
-- semaphore a task runs only with a slot.
pub Step-Inv : {sem : Option ℕ} {q q' : Queue} → Step sem q q' → Inv sem q → Inv sem q'
unfolding total
Step-Inv (move before after t e m) inv = Move-Inv inv before after t e m
Step-Inv {sem} {q} (start cancelled) inv = record {
  within = inv.within;
  held = omega (arith, inv.held, total-append slots q.tasks (new_task cancelled ∷ []));
  counted = omega (arith, inv.counted, total-append noted q.tasks (new_task cancelled ∷ []));
  sound = All-append _ q.tasks (new_task cancelled ∷ []) inv.sound (refl, tt);
  slotted =
      All-append _ q.tasks (new_task cancelled ∷ []) inv.slotted
        (new_task-IsSlotted sem cancelled, tt);
}
Step-Inv (cancel before after t e) inv = cancel-Inv inv before after t e
Step-Inv cancel_all inv = record {
  within = inv.within;
  held = inv.held;
  counted = inv.counted;
  sound = inv.sound;
  slotted = inv.slotted;
}
Step-Inv (watch before after t e all) inv = cancel-Inv inv before after t e
Step-Inv {q} (add_fails e) inv = record {
  within = inv.within;
  held = inv.held;
  counted = omega (arith, inv.counted, length-append {0} q.shared.errs (e ∷ []));
  sound = All-IsSound-append q.shared.errs (e ∷ []) q.tasks inv.sound;
  slotted = inv.slotted;
}

pub Reach-Inv : {sem : Option ℕ} {q : Queue} → Reach sem q → Inv sem q
unfolding total
Reach-Inv {sem} fresh_queue = record {
  within = fresh_within sem;
  held = refl;
  counted = omega arith;
  sound = tt;
  slotted = tt;
}
  where
    fresh_within : (sem : Option ℕ) → Within sem 0
    fresh_within none = refl
    fresh_within (some c) = omega arith
Reach-Inv (later r st) = Step-Inv st (Reach-Inv r)
