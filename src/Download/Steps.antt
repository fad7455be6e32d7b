-- ===== src/Download/Steps.antt =====
-- Downloads that run at the same time on the same files, as the goroutines of client/download/queue.go
-- run download.Handle of client/download/download.go: each by steps that touch the files once, in any
-- order.
pub mod Alone
pub mod Effects
pub mod Isolation
pub mod Serial
pub mod Abstract
mod Tests
use httper.GoError.{GoError, wrap}
use httper.Download.Files.{Fs, store, exists}
use httper.Download.Writers.{Log, skipping_existing}
use httper.Download.Handle.{
  Created, Outcome, Attempt, Body, last, more, Copying, write_chunk, first_error, Settings, Os,
  created, not_created, start, finish,
}
use httper.Base.{
  Bool, ℕ, zero, suc, String, ◌&&◌, Option, none, some, List, [], ◌∷◌, if◌then◌else◌, get_elem?,
  set, ℤ,
}

-- A call of Handle
pub record Job : Type 0 where
  pub os : Os
  pub body : Body
  pub content_length : ℤ
  pub dest : String
  pub opts : Settings

-- Where a call stands: before os.Stat, before os.CreateTemp, in io.Copy with what is still to be read, behind it, and
-- behind the deferred function.
pub data Stage : Type 0 where
  entering : Stage
  opening : Stage
  copying : Body → Copying → Stage
  ended : Option GoError → Copying → Stage
  returned : Option GoError → List Log → Stage

-- One round of io.Copy
pub round : Attempt → Copying → Option GoError × Copying
unfolding write_chunk
round a c = elim a.ctx_err [ some e ↦ (some e, c) | none ↦ write_chunk a c ]

abbrev behind : Body → Option GoError × Copying → Stage × Copying
behind body (some e, c) = (ended (some e) c, c)
behind body (none, c) = (copying body c, c)

pub next_round : Body → Copying → Stage × Copying
unfolding round
next_round (last a end) c = let (e, c') = round a c in (ended (first_error e end) c', c')
next_round (more a body) c = behind body (round a c)

-- The stage and the files behind the deferred function
abbrev pub return_of : Outcome → Stage × Fs
return_of (e, fs, logs) = (returned e logs, fs)

abbrev pub copied_to : String → Fs → Stage × Copying → Stage × Fs
copied_to temp fs (s, c) = (s, store temp c.content fs)

-- os.CreateTemp, which makes an empty file
abbrev pub opened : Job → Fs → Created → Stage × Fs
opened j fs (not_created e) = (returned (some (wrap "creating temp file: " e)) [], fs)
opened j fs (created temp) =
    (copying j.body (start j.os.start_time j.content_length j.opts), store temp [] fs)

-- os.Stat, which finds the destination or not
abbrev pub entered : Job → Fs → Bool → Stage × Fs
entered j fs there =
    if j.opts.skip_existing && there
    then (returned none (skipping_existing ∷ []), fs)
    else (opening, fs)

-- What is done with the temporary file, where it was created
abbrev pub in_file : Created → (String → Stage × Fs) → Stage × Fs → Stage × Fs
in_file (not_created e) f x = x
in_file (created temp) f x = f temp

-- The calls on their files
abbrev pub Calls : Type 0
Calls = Fs × List (Job × Stage)

module _ (digest : List ℕ → String) where
  -- What a call does up to the next moment at which others may run. A file that could not be
  -- created is not copied to.
  pub step : Job → Stage → Fs → Stage × Fs
  unfolding next_round
  step j entering fs = entered j fs (exists j.dest fs)
  step j opening fs = opened j fs j.os.create_temp
  step j (copying body c) fs =
      in_file j.os.create_temp (λ temp. copied_to temp fs (next_round body c)) (copying body c, fs)
  step j (ended e c) fs =
      in_file j.os.create_temp
        (λ temp. return_of (finish digest j.os temp j.dest j.content_length fs (e, c)))
        (ended e c, fs)
  step j (returned e logs) fs = (returned e logs, fs)

  -- That many steps of one call, with no other
  pub alone : ℕ → Job → Stage → Fs → Stage × Fs
  unfolding step
  alone zero j s fs = (s, fs)
  alone (suc n) j s fs = let (s', fs') = step j s fs in alone n j s' fs'

  abbrev turned : ℕ → Calls → Option (Job × Stage) → Calls
  turned k (fs, l) none = (fs, l)
  turned k (fs, l) (some (j, s)) = let (s', fs') = step j s fs in (fs', set l k (j, s'))

  -- One step of the call at this index
  pub turn : ℕ → Calls → Calls
  unfolding step
  turn k x = turned k x (get_elem? x.1 k)

  -- A schedule: whose turn it is, step by step
  pub run : List ℕ → Calls → Calls
  unfolding turn
  run [] x = x
  run (k ∷ ks) x = run ks (turn k x)
