-- ===== src/Download/Steps/Abstract.antt =====
-- The files as the paths show them, without the list that holds them: downloads as functions on
-- these.
use mathlib.Core.Quot
use mathlib.Core.Quot.{Quot, Quot-set}
use httper.Download.Files.{Fs, lookup}
use httper.Download.Steps.{Job, Stage, entering, step, alone, run}
use httper.Download.Steps.Alone.{rounds, handle_job}
use httper.Download.Steps.Effects.{owns, step-stage, step-lookup}
use httper.Download.Steps.Isolation.{Apart, launch, turns_of, exists-lookup}
use httper.Download.Steps.Serial.{in_turn, run-in_turn, handle-frame, handle-Agrees, files-handle}
use httper.Base.{
  ℕ, zero, suc, ◌+◌, ◌≤◌, String, ◌≡◌, refl, sym, ap, ◌∙◌, subst, inl, inr, true, false, some, List,
  [], ◌∷◌, foldl, Bool-cases, get_elem?,
}

-- Every path holds the same.
abbrev pub SameFiles : Fs → Fs → Type 0
SameFiles fs fs' = (q : String) → lookup q fs ≡ lookup q fs'

abbrev pub Files : Type 0
Files = Quot SameFiles

abbrev pub files : Fs → Files
files = Quot.mk

module _ (digest : List ℕ → String) where
  alone-SameFiles :
      (j : Job) (n : ℕ) (s : Stage) (fs fs' : Fs)
      → SameFiles fs fs'
      → SameFiles (alone digest n j s fs).1 (alone digest n j s fs').1
  unfolding alone
  alone-SameFiles j zero s fs fs' g = g
  alone-SameFiles j (suc n) s fs fs' g =
      let same = exists-lookup j.dest fs fs' (g j.dest) in
      subst
        (λ t.
          SameFiles (alone digest n j t (step digest j s fs).1).1
            (alone digest n j (step digest j s fs').0 (step digest j s fs').1).1)
        (sym (step-stage digest j s fs fs' same))
        (alone-SameFiles j n (step digest j s fs').0 (step digest j s fs).1 (step digest j s fs').1
          (λ q. step-lookup digest j s fs fs' same q (g q)))

  handle-SameFiles :
      (j : Job) (fs fs' : Fs)
      → SameFiles fs fs'
      → SameFiles (handle_job digest j fs).1 (handle_job digest j fs').1
  handle-SameFiles j fs fs' g q =
      ap (lookup q) (sym (files-handle digest j fs))
      ∙ alone-SameFiles j (rounds j.body + 3) entering fs fs' g q
      ∙ ap (lookup q) (files-handle digest j fs')

  -- What Handle makes of the files
  pub handled : Job → Files → Files
  handled j =
      Quot.lift Quot-set (λ fs. files (handle_job digest j fs).1)
        (λ fs fs' g. Quot.sound (handle-SameFiles j fs fs' g))

  files-in_turn :
      (jobs : List Job) (fs : Fs)
      → files (in_turn digest jobs fs) ≡ foldl (λ f j. handled j f) (files fs) jobs
  unfolding in_turn handled
  files-in_turn [] fs = refl
  files-in_turn (j ∷ jobs) fs = files-in_turn jobs (handle_job digest j fs).1

  -- Downloads with a hash each run at the same time, in any order of their steps, none having a path of another, with
  -- enough turns for each: the files are in the end, path by path, what Handle makes of them for one
  -- download after the other, in the order of their start.
  pub run-files :
      (jobs : List Job) (fs : Fs) (ks : List ℕ)
      → ((i : ℕ) (j : Job) → get_elem? jobs i ≡ some j → Apart i j jobs)
      → ((i : ℕ) (j : Job) → get_elem? jobs i ≡ some j → rounds j.body + 3 ≤ turns_of i ks)
      → files (run digest ks (launch fs jobs)).0 ≡ foldl (λ f j. handled j f) (files fs) jobs
  run-files jobs fs ks a enough =
      Quot.sound (λ q. run-in_turn digest jobs fs ks q a enough) ∙ files-in_turn jobs fs

  -- No path is a path of both calls.
  abbrev pub Disjoint : Job → Job → Type 0
  Disjoint j j' = (q : String) → owns j q ≡ true → owns j' q ≡ false

  Disjoint-sym : (j j' : Job) → Disjoint j j' → Disjoint j' j
  Disjoint-sym j j' d q theirs = elim (Bool-cases (owns j q)) [
    | inl mine ↦ absurd (cc (d q mine, theirs))
    | inr other ↦ other
  ]

  abbrev after : Job → Fs → Fs
  after j fs = (handle_job digest j fs).1

  swapped-owned :
      (j j' : Job) (fs : Fs) (q : String)
      → Disjoint j j'
      → owns j q ≡ true
      → lookup q (after j (after j' fs)) ≡ lookup q (after j' (after j fs))
  swapped-owned j j' fs q d mine =
      handle-Agrees digest j (after j' fs) fs (λ p m. handle-frame digest j' fs p (d p m)) q mine
      ∙ sym (handle-frame digest j' (after j fs) q (d q mine))

  swapped :
      (j j' : Job) (fs : Fs)
      → Disjoint j j'
      → SameFiles (after j (after j' fs)) (after j' (after j fs))
  swapped j j' fs d q = elim (Bool-cases (owns j q)) [
    | inl mine ↦ swapped-owned j j' fs q d mine
    | inr other ↦ elim (Bool-cases (owns j' q)) [
      | inl theirs ↦ sym (swapped-owned j' j fs q (Disjoint-sym j j' d) theirs)
      | inr none_has ↦
          handle-frame digest j (after j' fs) q other
          ∙ handle-frame digest j' fs q none_has
          ∙ sym (handle-frame digest j fs q other)
          ∙ sym (handle-frame digest j' (after j fs) q none_has)
    ]
  ]

  -- Handle for two calls without a common path comes to the same in both orders.
  pub handled_comm :
      (j j' : Job)
      → Disjoint j j'
      → (f : Files) → handled j (handled j' f) ≡ handled j' (handled j f)
  unfolding handled
  handled_comm j j' d =
      Quot.ind (λ f. Quot-set _ _)
        (λ fs.
          Quot.sound {a = after j (after j' fs)} {b = after j' (after j fs)} (swapped j j' fs d))
