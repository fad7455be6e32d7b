-- ===== src/Download/Steps/Serial.antt =====
-- Downloads that run at the same time leave the files that they leave one after the other.
use httper.Download.Files.{Fs, lookup}
use httper.Download.Steps.{Job, Stage, entering, step, alone, run}
use httper.Download.Steps.Alone.{rounds, handle_job, alone-handle}
use httper.Download.Steps.Effects.{owns, step-frame, step-stage, step-lookup}
use httper.Download.Steps.Isolation.{
  jobs_of-launch, Agrees, Agrees-exists, Apart, IsFree, launch, turns_of, run-handle, run-frame,
}
use httper.Base.{
  subst, get_elem?, ℕ, zero, suc, ◌+◌, ◌≤◌, String, ◌≡◌, refl, sym, ap, ◌∙◌, ◌⊎◌, inl, inr, true,
  false, some, List, [], ◌∷◌, arith, Bool-cases, get_elem?,
}

IsFree-cons :
    (q : String) (j : Job) (jobs : List Job)
    → owns j q ≡ false
    → IsFree q jobs
    → IsFree q (j ∷ jobs)
IsFree-cons q j jobs h free zero j' there =
    let same : j ≡ j' = cc in subst (λ o. owns o q ≡ false) same h
IsFree-cons q j jobs h free (suc k) j' there = free k j' there

-- Some call has the path, or none has it.
find_owner :
    (q : String) (jobs : List Job)
    → IsFree q jobs ⊎ ((i : ℕ) × (j : Job) × (get_elem? jobs i ≡ some j) × (owns j q ≡ true))
find_owner q [] = inl (λ k j h. cc)
find_owner q (j ∷ jobs) = elim (Bool-cases (owns j q)) [
  | inl mine ↦ inr (0, j, refl, mine)
  | inr other ↦ elim (find_owner q jobs) [
    | inl free ↦ inl (IsFree-cons q j jobs other free)
    | inr (i, j', there, mine) ↦ inr (suc i, j', there, mine)
  ]
]

module _ (digest : List ℕ → String) where
  -- Handle for each call, one after the other
  unfoldable pub in_turn : List Job → Fs → Fs
  in_turn [] fs = fs
  in_turn (j ∷ jobs) fs = in_turn jobs (handle_job digest j fs).1

  module _ (j : Job) where
    alone-frame :
        (n : ℕ) (s : Stage) (fs : Fs) (q : String)
        → owns j q ≡ false
        → lookup q (alone digest n j s fs).1 ≡ lookup q fs
    unfolding alone
    alone-frame zero s fs q h = refl
    alone-frame (suc n) s fs q h =
        alone-frame n (step digest j s fs).0 (step digest j s fs).1 q h
        ∙ step-frame digest j s fs q h

    alone-Agrees :
        (n : ℕ) (s : Stage) (fs fs' : Fs)
        → Agrees j fs fs'
        → Agrees j (alone digest n j s fs).1 (alone digest n j s fs').1
    unfolding alone
    alone-Agrees zero s fs fs' g = g
    alone-Agrees (suc n) s fs fs' g =
        let same = Agrees-exists j fs fs' g in
        subst
          (λ t.
            Agrees j (alone digest n j t (step digest j s fs).1).1
              (alone digest n j (step digest j s fs').0 (step digest j s fs').1).1)
          (sym (step-stage digest j s fs fs' same))
          (alone-Agrees n (step digest j s fs').0 (step digest j s fs).1 (step digest j s fs').1
            (λ q o. step-lookup digest j s fs fs' same q (g q o)))

    pub files-handle :
        (fs : Fs) → (alone digest (rounds j.body + 3) j entering fs).1 ≡ (handle_job digest j fs).1
    files-handle fs = ap (λ r. r.1) (alone-handle digest j (rounds j.body + 3) fs (omega arith))

    -- Handle leaves the paths of others as they were,
    pub handle-frame :
        (fs : Fs) (q : String)
        → owns j q ≡ false
        → lookup q (handle_job digest j fs).1 ≡ lookup q fs
    handle-frame fs q h =
        ap (lookup q) (sym (files-handle fs)) ∙ alone-frame (rounds j.body + 3) entering fs q h

    -- and what it leaves at its own depends on them alone.
    pub handle-Agrees :
        (fs fs' : Fs)
        → Agrees j fs fs'
        → Agrees j (handle_job digest j fs).1 (handle_job digest j fs').1
    handle-Agrees fs fs' g q o =
        ap (lookup q) (sym (files-handle fs))
        ∙ alone-Agrees (rounds j.body + 3) entering fs fs' g q o
        ∙ ap (lookup q) (files-handle fs')

  in_turn-frame :
      (jobs : List Job) (fs : Fs) (q : String)
      → IsFree q jobs
      → lookup q (in_turn jobs fs) ≡ lookup q fs
  unfolding in_turn
  in_turn-frame [] fs q h = refl
  in_turn-frame (j ∷ jobs) fs q h =
      in_turn-frame jobs (handle_job digest j fs).1 q (λ k j' there. h (suc k) j' there)
      ∙ handle-frame j fs q (h 0 j refl)

  in_turn-owned :
      (jobs : List Job) (fs : Fs) (i : ℕ) (j : Job)
      → get_elem? jobs i ≡ some j
      → Apart i j jobs
      → Agrees j (in_turn jobs fs) (handle_job digest j fs).1
  unfolding in_turn
  in_turn-owned [] fs i j h a q o = cc
  in_turn-owned (x ∷ jobs) fs zero j h a q o =
      in_turn-frame jobs (handle_job digest x fs).1 q
        (λ k j' there. a (suc k) j' (λ e. omega (arith, e)) there q o)
      ∙ ap (λ y. lookup q (handle_job digest y fs).1) cc
  in_turn-owned (x ∷ jobs) fs (suc i) j h a q o =
      in_turn-owned jobs (handle_job digest x fs).1 i j h
        (λ k j' other. a (suc k) j' (λ e. other (omega (arith, e)))) q o
      ∙ handle-Agrees j (handle_job digest x fs).1 fs
          (λ p mine. handle-frame x fs p (a 0 x (λ e. omega (arith, e)) refl p mine)) q o

  -- Downloads run at the same time, in any order of their steps, none having a path of another, with
  -- enough turns for each: every path holds in the end what it holds when Handle runs for one
  -- download after the other, in the order of their start.
  pub run-in_turn :
      (jobs : List Job) (fs : Fs) (ks : List ℕ) (q : String)
      → ((i : ℕ) (j : Job) → get_elem? jobs i ≡ some j → Apart i j jobs)
      → ((i : ℕ) (j : Job) → get_elem? jobs i ≡ some j → rounds j.body + 3 ≤ turns_of i ks)
      → lookup q (run digest ks (launch fs jobs)).0 ≡ lookup q (in_turn jobs fs)
  run-in_turn jobs fs ks q a enough = elim (find_owner q jobs) [
    | inl free ↦
        run-frame digest ks (launch fs jobs) q
          (subst (λ l. IsFree q l) (sym (jobs_of-launch jobs)) free)
        ∙ sym (in_turn-frame jobs fs q free)
    | inr (i, j, there, mine) ↦
        (run-handle digest i j jobs fs ks there (a i j there) (enough i j there)).1 q mine
        ∙ sym (in_turn-owned jobs fs i j there (a i j there) q mine)
  ]
