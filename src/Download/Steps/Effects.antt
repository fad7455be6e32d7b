-- ===== src/Download/Steps/Effects.antt =====
-- What a step of one download does to the files: nothing outside its own two paths, and nothing that
-- depends on other paths.
use httper.GoError.{GoError}
use httper.Download.Files.{exists, Fs, lookup, store}
use httper.Download.Files.Laws.{lookup-store_self, lookup-store, lookup-rename, lookup-remove}
use httper.Download.Handle.{Body, Copying, Os, Created, created, not_created, finish}
use httper.Download.Steps.{
  entered, entering, opening, returned, copied_to, ended, copying, in_file, next_round, Stage,
  return_of, opened, step, Job,
}
use httper.Base.{
  Bool-cases, inl, inr, ◌&&◌, refl, none, some, [], ℕ, String, ◌≡◌, Bool, false, ◌||◌, Option, List,
  arith, str_eq, ℤ,
}

abbrev pub is_temp : Created → String → Bool
is_temp (not_created e) q = false
is_temp (created temp) q = str_eq temp q

-- The destination and the temporary file of a call
abbrev pub owned : String → Created → String → Bool
owned dest o q = str_eq dest q || is_temp o q

abbrev pub owns : Job → String → Bool
owns j q = owned j.dest j.os.create_temp q

-- A part of a call that changes only these paths, each by what it held, and leads to one stage.
record IsLocal (mine : String → Bool) (f : Fs → Stage × Fs) : Type 0 where
  frame : (fs : Fs) (q : String) → mine q ≡ false → lookup q (f fs).1 ≡ lookup q fs
  stage : (fs fs' : Fs) → (f fs).0 ≡ (f fs').0
  read :
      (fs fs' : Fs) (q : String)
      → lookup q fs ≡ lookup q fs'
      → lookup q (f fs).1 ≡ lookup q (f fs').1

kept-IsLocal : {mine : String → Bool} (s : Stage) → IsLocal mine (λ fs. (s, fs))
kept-IsLocal s = record { frame = λ fs q h. refl; stage = λ fs fs'. refl; read = λ fs fs' q h. h }

stored-IsLocal :
    (dest temp : String) (s : Stage) (c : List ℕ)
    → IsLocal (owned dest (created temp)) (λ fs. (s, store temp c fs))
stored-IsLocal dest temp s c = record {
  frame = λ fs q h. ground (arith, lookup-store temp q c fs);
  stage = λ fs fs'. refl;
  read = λ fs fs' q h. ground (arith, lookup-store temp q c fs, lookup-store temp q c fs');
}

module _ (digest : List ℕ → String) (os : Os) (temp dest : String) (content_length : ℤ)
    (c : Copying) where
  finish-frame :
      (e : Option GoError) (fs : Fs) (q : String)
      → str_eq dest q ≡ false
      → str_eq temp q ≡ false
      → lookup q (finish digest os temp dest content_length fs (e, c)).1 ≡ lookup q fs
  unfolding finish
  finish-frame none fs q d t = ground (
    arith,
    lookup-rename temp dest q c.content (store temp c.content fs)
        (lookup-store_self temp c.content fs),
    lookup-store temp q c.content fs,
    lookup-remove temp q (store temp c.content fs),
  )
  finish-frame (some e) fs q d t =
      ground
        (arith, lookup-store temp q c.content fs, lookup-remove temp q (store temp c.content fs))

  finish-stage :
      (e : Option GoError) (fs fs' : Fs)
      → (return_of (finish digest os temp dest content_length fs (e, c))).0
        ≡ (return_of (finish digest os temp dest content_length fs' (e, c))).0
  unfolding finish
  finish-stage none fs fs' = ground arith
  finish-stage (some e) fs fs' = ground arith

  finish-lookup :
      (e : Option GoError) (fs fs' : Fs) (q : String)
      → lookup q fs ≡ lookup q fs'
      → lookup q (finish digest os temp dest content_length fs (e, c)).1
        ≡ lookup q (finish digest os temp dest content_length fs' (e, c)).1
  unfolding finish
  finish-lookup none fs fs' q h = ground (
    arith,
    lookup-rename temp dest q c.content (store temp c.content fs)
        (lookup-store_self temp c.content fs),
    lookup-store temp q c.content fs,
    lookup-remove temp q (store temp c.content fs),
    lookup-rename temp dest q c.content (store temp c.content fs')
        (lookup-store_self temp c.content fs'),
    lookup-store temp q c.content fs',
    lookup-remove temp q (store temp c.content fs'),
  )
  finish-lookup (some e) fs fs' q h = ground (
    arith,
    lookup-store temp q c.content fs,
    lookup-remove temp q (store temp c.content fs),
    lookup-store temp q c.content fs',
    lookup-remove temp q (store temp c.content fs'),
  )

  finish-IsLocal :
      (e : Option GoError)
      → IsLocal
          (owned dest (created temp))
          (λ fs. return_of (finish digest os temp dest content_length fs (e, c)))
  finish-IsLocal e = record {
    frame = λ fs q h. finish-frame e fs q (ground arith) (ground arith);
    stage = finish-stage e;
    read = finish-lookup e;
  }

module _ (digest : List ℕ → String) (j : Job) where
  opened-IsLocal : (o : Created) → IsLocal (owned j.dest o) (λ fs. opened j fs o)
  opened-IsLocal (not_created e) = kept-IsLocal _
  opened-IsLocal (created temp) = stored-IsLocal j.dest temp _ []

  copied-IsLocal :
      (o : Created) (body : Body) (c : Copying)
      → IsLocal
          (owned j.dest o)
          (λ fs. in_file o (λ t. copied_to t fs (next_round body c)) (copying body c, fs))
  copied-IsLocal (not_created e) body c = kept-IsLocal _
  copied-IsLocal (created temp) body c = stored-IsLocal j.dest temp _ (next_round body c).1.content

  finished-IsLocal :
      (o : Created) (e : Option GoError) (c : Copying)
      → IsLocal (owned j.dest o) (λ fs.
        in_file o
          (λ t. return_of (finish digest j.os t j.dest j.content_length fs (e, c)))
          (ended e c, fs))
  finished-IsLocal (not_created e') e c = kept-IsLocal _
  finished-IsLocal (created temp) e c = finish-IsLocal digest j.os temp j.dest j.content_length c e

  entered-IsLocal : (there : Bool) → IsLocal (owns j) (λ fs. entered j fs there)
  entered-IsLocal there = elim (Bool-cases (j.opts.skip_existing && there)) [
    | inl skips ↦ rw skips (kept-IsLocal _)
    | inr runs ↦ rw runs (kept-IsLocal _)
  ]

  -- A step that finds the destination, or not
  step_from : Stage → Bool → Fs → Stage × Fs
  unfolding step
  step_from entering there fs = entered j fs there
  step_from opening there fs = step digest j opening fs
  step_from (copying body c) there fs = step digest j (copying body c) fs
  step_from (ended e c) there fs = step digest j (ended e c) fs
  step_from (returned e logs) there fs = step digest j (returned e logs) fs

  step_lem : (s : Stage) (fs : Fs) → step digest j s fs ≡ step_from s (exists j.dest fs) fs
  unfolding step step_from
  step_lem entering fs = refl
  step_lem opening fs = refl
  step_lem (copying body c) fs = refl
  step_lem (ended e c) fs = refl
  step_lem (returned e logs) fs = refl

  step_from-IsLocal : (s : Stage) (there : Bool) → IsLocal (owns j) (step_from s there)
  unfolding step step_from
  step_from-IsLocal entering there = entered-IsLocal there
  step_from-IsLocal opening there = opened-IsLocal j.os.create_temp
  step_from-IsLocal (copying body c) there = copied-IsLocal j.os.create_temp body c
  step_from-IsLocal (ended e c) there = finished-IsLocal j.os.create_temp e c
  step_from-IsLocal (returned e logs) there = kept-IsLocal _

  -- A step leaves the paths of others as they were.
  pub step-frame :
      (s : Stage) (fs : Fs) (q : String)
      → owns j q ≡ false
      → lookup q (step digest j s fs).1 ≡ lookup q fs
  step-frame s fs q h = rw (step_lem s fs) ((step_from-IsLocal s (exists j.dest fs)).frame fs q h)

  module _ (s : Stage) (fs fs' : Fs) (same : exists j.dest fs ≡ exists j.dest fs') where
    -- Where a step leads depends on whether the destination is there,
    pub step-stage : (step digest j s fs).0 ≡ (step digest j s fs').0
    step-stage =
        rw (step_lem s fs, step_lem s fs', same)
          ((step_from-IsLocal s (exists j.dest fs')).stage fs fs')

    -- and what it makes of a path, besides, on what the path held.
    pub step-lookup :
        (q : String)
        → lookup q fs ≡ lookup q fs'
        → lookup q (step digest j s fs).1 ≡ lookup q (step digest j s fs').1
    step-lookup q h =
        rw (step_lem s fs, step_lem s fs', same)
          ((step_from-IsLocal s (exists j.dest fs')).read fs fs' q h)
