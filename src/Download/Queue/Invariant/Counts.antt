-- ===== src/Download/Queue/Invariant/Counts.antt =====
-- What is counted over the tasks of a queue, and what a task says of its error.
use httper.GoError.{GoError}
use httper.Download.Queue.{Pc, queued, running, recording, leaving, finished, Task}
use httper.Base.{
  ℕ, ◌+◌, ◌≤◌, ◌≡◌, refl, ◌⊎◌, inl, inr, true, Option, none, some, List, [], ◌∷◌, ◌++◌, arith, All,
}

-- A weighted sum over the tasks
unfoldable pub total : (Task → ℕ) → List Task → ℕ
total w [] = 0
total w (t ∷ ts) = w t + total w ts

pub total-append : (w : Task → ℕ) (xs ys : List Task) → total w (xs ++ ys) ≡ total w xs + total w ys
unfolding total
total-append w [] ys = omega arith
total-append w (x ∷ xs) ys = omega (arith, total-append w xs ys)

pub total-middle :
    (w : Task → ℕ) (xs : List Task) (t : Task) (ys : List Task)
    → total w (xs ++ t ∷ ys) ≡ total w xs + (w t + total w ys)
unfolding total
total-middle w xs t ys = total-append w xs (t ∷ ys)

-- The slot that a task holds
abbrev pub slots : Task → ℕ
slots t = elim t.pc [ running true ↦ 1 | recording true _ ↦ 1 | leaving true ↦ 1 | _ ↦ 0 ]

-- An error that the task has recorded
abbrev pub noted : Task → ℕ
noted t = elim t.err [ none ↦ 0 | some _ ↦ elim t.pc [ leaving _ ↦ 1 | finished ↦ 1 | _ ↦ 0 ] ]

abbrev pub In : GoError → List GoError → Type 0
In e [] = ⊥
In e (d ∷ es) = (e ≡ d) ⊎ In e es

pub In-append_left : (e : GoError) (es ds : List GoError) → In e es → In e (es ++ ds)
In-append_left e [] ds h = absurd h
In-append_left e (x ∷ es) ds (inl h) = inl h
In-append_left e (x ∷ es) ds (inr h) = inr (In-append_left e es ds h)

pub In-append_last : (e : GoError) (es : List GoError) → In e (es ++ e ∷ [])
In-append_last e [] = inl refl
In-append_last e (x ∷ es) = inr (In-append_last e es)

abbrev pub RecordedErr : List GoError → Option GoError → Type 0
RecordedErr es none = Unit
RecordedErr es (some e) = In e es

-- What a task's place says of its error.
abbrev pub IsSound : List GoError → Task → Type 0
IsSound es t = elim t.pc [
  | queued ↦ t.err ≡ none
  | running _ ↦ t.err ≡ none
  | recording _ e ↦ t.err ≡ some e
  | leaving _ ↦ RecordedErr es t.err
  | finished ↦ RecordedErr es t.err
]

abbrev pub Within : Option ℕ → ℕ → Type 0
Within none used = used ≡ 0
Within (some c) used = used ≤ c

-- A download in progress
abbrev pub busy : Task → ℕ
busy t = elim t.pc [ running _ ↦ 1 | _ ↦ 0 ]

-- Where there is a semaphore, a task runs only with a slot.
abbrev pub IsSlotted : Option ℕ → Task → Type 0
IsSlotted none t = Unit
IsSlotted (some c) t = busy t ≤ slots t

RecordedErr-append :
    (es ds : List GoError) (o : Option GoError) → RecordedErr es o → RecordedErr (es ++ ds) o
RecordedErr-append es ds none h = tt
RecordedErr-append es ds (some e) h = In-append_left e es ds h

pub IsSound-append : (es ds : List GoError) (t : Task) → IsSound es t → IsSound (es ++ ds) t
IsSound-append es ds t h = go t.pc t.err h
  where
    go :
        (p : Pc) (o : Option GoError)
        → IsSound es (record { pc = p; cancelled = true; err = o })
        → IsSound (es ++ ds) (record { pc = p; cancelled = true; err = o })
    go queued o h = h
    go (running b) o h = h
    go (recording b e) o h = h
    go (leaving b) o h = RecordedErr-append es ds o h
    go finished o h = RecordedErr-append es ds o h

pub All-IsSound-append :
    (es ds : List GoError) (ts : List Task) → All (IsSound es) ts → All (IsSound (es ++ ds)) ts
All-IsSound-append es ds [] h = tt
All-IsSound-append es ds (t ∷ ts) h = (IsSound-append es ds t h.0, All-IsSound-append es ds ts h.1)
