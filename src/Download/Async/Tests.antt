-- ===== src/Download/Async/Tests.antt =====
-- One more download for the second queue of a store.
use httper.Base.{ℕ, refl, false, Option, none, some, [], ◌∷◌, pos}
use httper.Download.Queue.{new_queue}
use httper.Download.Async.{Batch, Store, with_progress, with_batch, add}
use httper.Download.Async.Laws.{StepsIn, add-StepsIn}

abbrev batch : Option ℕ → Batch
batch sem = record { sem = sem; queue = new_queue }

abbrev store : Store
store = batch none ∷ batch (some 2) ∷ []

add-StepsIn_example :
    StepsIn 1
      (batch (some 2))
      store
      (add 1 false "dir/file" (with_progress ∷ with_batch (pos 3) ∷ []) store)
add-StepsIn_example =
    add-StepsIn 1 (batch (some 2)) false "dir/file" (with_progress ∷ with_batch (pos 3) ∷ []) store
      (tt, (tt, tt)) refl
