-- ===== src/Download/Queue/Invariant/Moves.antt =====
-- What one move of a task does to the counts.
use httper.GoError.{GoError}
use mathlib.Core.List.{append-nil}
use httper.Download.Queue.{
  Move, close, release, record_err, fail, succeed, give_up, acquire, enter, Task, Shared,
}
use httper.Base.{length-append, ℕ, ◌+◌, ◌≤◌, ◌≡◌, refl, Option, List, [], ◌∷◌, ◌++◌, arith, length}
use httper.Download.Queue.Invariant.Counts.{
  slots, noted, IsSound, Within, IsSlotted, In-append_last,
}

-- What one move of a task does to the three counts and to the task.
pub record Moved (sem : Option ℕ) (s s' : Shared) (t t' : Task) : Type 0 where
  pub within : Within sem s'.used
  pub held : s'.used + slots t ≡ s.used + slots t'
  pub counted : length s'.errs + noted t ≡ length s.errs + noted t'
  pub sound : IsSound s'.errs t'
  pub slotted : IsSlotted sem t'
  pub extra : (ds : List GoError) × (s'.errs ≡ s.errs ++ ds)

module _ {sem : Option ℕ} {s : Shared} {t : Task} (within : Within sem s.used)
    (held : slots t ≤ s.used) (sound : IsSound s.errs t) where
  pub Move-Moved : {s' : Shared} {t' : Task} → Move sem s t s' t' → Moved sem s s' t t'
  Move-Moved (enter at no_sem) = record {
    within = within;
    held = ground arith;
    counted = ground arith;
    sound = ground arith;
    slotted = ground arith;
    extra = ([], ground (arith, append-nil s.errs));
  }
  Move-Moved (acquire c at has_sem room) = record {
    within = ground arith;
    held = ground arith;
    counted = ground arith;
    sound = ground arith;
    slotted = ground arith;
    extra = ([], ground (arith, append-nil s.errs));
  }
  Move-Moved (give_up c e at has_sem over) = record {
    within = within;
    held = ground arith;
    counted = ground arith;
    sound = ground arith;
    slotted = ground arith;
    extra = ([], ground (arith, append-nil s.errs));
  }
  Move-Moved (succeed b at) = record {
    within = within;
    held = ground arith;
    counted = ground arith;
    sound = ground arith;
    slotted = ground arith;
    extra = ([], ground (arith, append-nil s.errs));
  }
  Move-Moved (fail b e at) = record {
    within = within;
    held = ground arith;
    counted = ground arith;
    sound = ground arith;
    slotted = ground arith;
    extra = ([], ground (arith, append-nil s.errs));
  }
  Move-Moved (record_err b e at) = record {
    within = within;
    held = ground arith;
    counted = ground (arith, length-append s.errs (e ∷ []));
    sound = ground (arith, In-append_last e s.errs);
    slotted = ground arith;
    extra = (e ∷ [], refl);
  }
  Move-Moved (release at) = record {
    within = ground arith;
    held = ground arith;
    counted = ground arith;
    sound = ground arith;
    slotted = ground arith;
    extra = ([], ground (arith, append-nil s.errs));
  }
  Move-Moved (close at) = record {
    within = within;
    held = ground arith;
    counted = ground arith;
    sound = ground arith;
    slotted = ground arith;
    extra = ([], ground (arith, append-nil s.errs));
  }
