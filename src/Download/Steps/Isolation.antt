-- ===== src/Download/Steps/Isolation.antt =====
-- Downloads that run at the same time do not disturb each other.
use httper.Download.Files.{Fs, lookup, exists}
use httper.Download.Steps.{Job, Stage, entering, returned, step, alone, Calls, turn, run}
use httper.Download.Steps.Alone.{rounds, handle_job, alone-handle}
use httper.Download.Steps.Effects.{owns, step-frame, step-stage, step-lookup}
use httper.Base.{
  ◌≤◌, ◌+◌, get_elem?-set_self, get_elem?-set_other, get_elem?-map, sym, subst, ◌∙◌, ℕ, zero, suc,
  String, ◌≡◌, refl, ap, ◌≢◌, inl, inr, true, false, none, some, List, [], ◌∷◌, map, arith, eq_iff,
  ◌==◌, if◌then◌else◌, Bool-cases, Option-cases, get_elem?, set,
}

-- How many turns the call at this index gets
unfoldable pub turns_of : ℕ → List ℕ → ℕ
turns_of i [] = 0
turns_of i (k ∷ ks) = if k == i then suc (turns_of i ks) else turns_of i ks

abbrev pub launch : Fs → List Job → Calls
launch fs jobs = (fs, map (λ j. (j, entering)) jobs)

abbrev jobs_of : List (Job × Stage) → List Job
jobs_of l = map (λ x. x.0) l

-- No other call has a path of the call at this index.
abbrev pub Apart : ℕ → Job → List Job → Type 0
Apart i j jobs =
    (k : ℕ) (j' : Job)
    → k ≢ i
    → get_elem? jobs k ≡ some j'
    → (q : String) → owns j q ≡ true
    → owns j' q ≡ false

-- No call has the path.
abbrev pub IsFree : String → List Job → Type 0
IsFree q jobs = (k : ℕ) (j : Job) → get_elem? jobs k ≡ some j → owns j q ≡ false

-- The paths of a call hold the same.
abbrev pub Agrees : Job → Fs → Fs → Type 0
Agrees j fs fs' = (q : String) → owns j q ≡ true → lookup q fs ≡ lookup q fs'

owns-dest : (j : Job) → owns j j.dest ≡ true
owns-dest j = ground (arith, eq_iff j.dest j.dest)

pub exists-lookup :
    (p : String) (fs fs' : Fs) → lookup p fs ≡ lookup p fs' → exists p fs ≡ exists p fs'
unfolding exists
exists-lookup p fs fs' h = ap (λ o. elim o [ none ↦ false | some _ ↦ true ]) h

pub Agrees-exists : (j : Job) (fs fs' : Fs) → Agrees j fs fs' → exists j.dest fs ≡ exists j.dest fs'
Agrees-exists j fs fs' h = exists-lookup j.dest fs fs' (h j.dest (owns-dest j))

jobs_of-set :
    (l : List (Job × Stage)) (k : ℕ) (j : Job) (s s' : Stage)
    → get_elem? l k ≡ some (j, s)
    → jobs_of (set l k (j, s')) ≡ jobs_of l
jobs_of-set [] k j s s' h = refl
jobs_of-set (x ∷ l) zero j s s' h = cc
jobs_of-set (x ∷ l) (suc k) j s s' h = ap (λ r. x.0 ∷ r) (jobs_of-set l k j s s' h)

pub jobs_of-launch : (jobs : List Job) → jobs_of (map (λ j. (j, entering)) jobs) ≡ jobs
jobs_of-launch [] = refl
jobs_of-launch (j ∷ jobs) = ap (λ l. j ∷ l) (jobs_of-launch jobs)

module _ (digest : List ℕ → String) where
  turn-some :
      (k : ℕ) (fs : Fs) (l : List (Job × Stage)) (j : Job) (s : Stage)
      → get_elem? l k ≡ some (j, s)
      → turn digest k (fs, l) ≡ ((step digest j s fs).1, set l k (j, (step digest j s fs).0))
  unfolding turn
  turn-some k fs l j s h = rw h refl

  turn-none :
      (k : ℕ) (fs : Fs) (l : List (Job × Stage))
      → get_elem? l k ≡ none
      → turn digest k (fs, l) ≡ (fs, l)
  unfolding turn
  turn-none k fs l h = rw h refl

  jobs_of-turn : (k : ℕ) (x : Calls) → jobs_of (turn digest k x).1 ≡ jobs_of x.1
  jobs_of-turn k (fs, l) = elim (Option-cases (get_elem? l k)) [
    | inl out ↦ rw (turn-none k fs l out) refl
    | inr ((j, s), there) ↦ rw (turn-some k fs l j s there) (jobs_of-set l k j s _ there)
  ]

  turn-frame :
      (k : ℕ) (x : Calls) (q : String)
      → IsFree q (jobs_of x.1)
      → lookup q (turn digest k x).0 ≡ lookup q x.0
  turn-frame k (fs, l) q h = elim (Option-cases (get_elem? l k)) [
    | inl out ↦ rw (turn-none k fs l out) refl
    | inr ((j, s), there) ↦
        rw (turn-some k fs l j s there)
          (step-frame digest j s fs q (h k j (get_elem?-map (λ x. x.0) l k (j, s) there)))
  ]

  pub run-frame :
      (ks : List ℕ) (x : Calls) (q : String)
      → IsFree q (jobs_of x.1)
      → lookup q (run digest ks x).0 ≡ lookup q x.0
  unfolding run
  run-frame [] x q h = refl
  run-frame (k ∷ ks) x q h =
      run-frame ks (turn digest k x) q (subst (λ l. IsFree q l) (sym (jobs_of-turn k x)) h)
      ∙ turn-frame k x q h

  module _ (i : ℕ) (j : Job) where
    -- What the schedule makes of the call at `i` is what as many steps alone make of it.
    Simulates : List ℕ → Calls → Stage → Fs → Type 0
    Simulates ks x s fs' =
        (get_elem? (run digest ks x).1 i ≡ some (j, (alone digest (turns_of i ks) j s fs').0))
        × Agrees j (run digest ks x).0 (alone digest (turns_of i ks) j s fs').1

    -- A turn of the call itself
    turn-own :
        (x : Calls) (s : Stage) (fs' : Fs)
        → get_elem? x.1 i ≡ some (j, s)
        → Agrees j x.0 fs'
        → (get_elem? (turn digest i x).1 i ≡ some (j, (step digest j s fs').0))
          × Agrees j (turn digest i x).0 (step digest j s fs').1
    turn-own (fs, l) s fs' h g =
        let same = Agrees-exists j fs fs' g in
        rw (turn-some i fs l j s h, step-stage digest j s fs fs' same)
          (get_elem?-set_self l i _ h, λ q o. step-lookup digest j s fs fs' same q (g q o))

    -- A turn of another call
    turn-other :
        (k : ℕ) (x : Calls)
        → k ≢ i
        → Apart i j (jobs_of x.1)
        → (get_elem? (turn digest k x).1 i ≡ get_elem? x.1 i) × Agrees j (turn digest k x).0 x.0
    turn-other k (fs, l) other a = elim (Option-cases (get_elem? l k)) [
      | inl out ↦ rw (turn-none k fs l out) (refl, λ q o. refl)
      | inr ((j', s'), there) ↦ rw (turn-some k fs l j' s' there) (
        get_elem?-set_other l k i _ other,
        λ q o.
            step-frame digest j' s' fs q
              (a k j' other (get_elem?-map (λ x. x.0) l k (j', s') there) q o),
      )
    ]

    run-Simulates :
        (ks : List ℕ) (x : Calls) (s : Stage) (fs' : Fs)
        → get_elem? x.1 i ≡ some (j, s)
        → Apart i j (jobs_of x.1)
        → Agrees j x.0 fs'
        → Simulates ks x s fs'
    unfolding Simulates run alone turns_of
    run-Simulates [] x s fs' h a g = (h, g)
    run-Simulates (k ∷ ks) x s fs' h a g =
        let a' : Apart i j (jobs_of (turn digest k x).1) =
          subst (λ l. Apart i j l) (sym (jobs_of-turn k x)) a in
        elim (Bool-cases (k == i)) [
          | inl own ↦
              let mine = turn-own x s fs' h g in
              let e : k ≡ i = ground arith in
              rw own (
                run-Simulates ks (turn digest k x) (step digest j s fs').0 (step digest j s fs').1
                  (rw e mine.0) a' (rw e mine.1))
          | inr other ↦
              let theirs = turn-other k x (ground arith) a in
              rw other (
                run-Simulates ks (turn digest k x) s fs' (theirs.0 ∙ h) a'
                  (λ q o. theirs.1 q o ∙ g q o))
        ]

    -- Downloads with a hash each run at the same time, in any order of their steps: a call whose two paths no other
    -- call has, and that gets three turns more than its body has rounds, has returned, with the error
    -- and the log lines of Handle as it runs alone on the files of the start, and its paths hold
    -- what Handle leaves there.
    pub run-handle :
        (jobs : List Job) (fs : Fs) (ks : List ℕ)
        → get_elem? jobs i ≡ some j
        → Apart i j jobs
        → rounds j.body + 3 ≤ turns_of i ks
        → let x = run digest ks (launch fs jobs) in
          let o = handle_job digest j fs in
          (get_elem? x.1 i ≡ some (j, returned o.0 o.2)) × Agrees j x.0 o.1
    unfolding Simulates
    run-handle jobs fs ks h a enough =
        let same = jobs_of-launch jobs in
        let sim =
          run-Simulates ks (launch fs jobs) entering fs
            (get_elem?-map (λ j'. (j', entering)) jobs i j h)
            (subst (λ l. Apart i j l) (sym same) a) (λ q o. refl) in
        subst
          (λ r.
            (get_elem? (run digest ks (launch fs jobs)).1 i ≡ some (j, r.0))
            × Agrees j (run digest ks (launch fs jobs)).0 r.1)
          (alone-handle digest j (turns_of i ks) fs enough) sim
