-- ===== src/Download/Steps/Alone.antt =====
-- One download by steps, with no other beside it.
use httper.GoError.{GoError, wrap}
use httper.Download.Files.{Fs, store, remove, exists}
use httper.Download.Handle.{
  Attempt, Body, last, more, Copying, copy, first_error, Created, created, not_created, start,
  finish, handle, Outcome,
}
use httper.Download.Writers.{skipping_existing, Log}
use httper.Download.Steps.{
  opened, in_file, return_of, copied_to, Job, Stage, entering, copying, ended, returned, round,
  behind, next_round, step, alone,
}
use httper.Base.{
  Bool-cases, ◌&&◌, sym, ◌<◌, ◌≤◌, ℕ, zero, suc, ◌+◌, String, ◌≡◌, refl, ap, ◌∙◌, inl, inr, Option,
  none, some, List, [], ◌∷◌, arith, eq_iff,
}

remove-remove : (p : String) (fs : Fs) → remove p (remove p fs) ≡ remove p fs
unfolding remove
remove-remove p [] = refl
remove-remove p ((q, c) ∷ fs) = ground (arith, remove-remove p fs)

store-store : (p : String) (c d : List ℕ) (fs : Fs) → store p c (store p d fs) ≡ store p c fs
unfolding store remove
store-store p c d fs = ground (arith, eq_iff p p, remove-remove p fs)

-- More rounds than io.Copy makes of the body
unfoldable pub rounds : Body → ℕ
rounds (last a end) = 1
rounds (more a body) = suc (rounds body)

-- What Handle makes of the call
abbrev pub handle_job : (List ℕ → String) → Job → Fs → Outcome
handle_job digest j fs = handle digest j.os j.body j.content_length j.dest j.opts fs

copy-more :
    (a : Attempt) (body : Body) (c : Copying)
    → copy (more a body) c
      ≡ (elim (round a c).0 [ some e ↦ (some e, (round a c).1) | none ↦ copy body (round a c).1 ])
unfolding copy round
copy-more a body c = ground arith

copy-last :
    (a : Attempt) (end : Option GoError) (c : Copying)
    → copy (last a end) c ≡ (first_error (round a c).0 end, (round a c).1)
unfolding copy round
copy-last a end c = ground arith

module _ (digest : List ℕ → String) (j : Job) where
  alone-returned :
      (n : ℕ) (e : Option GoError) (logs : List Log) (fs : Fs)
      → alone digest n j (returned e logs) fs ≡ (returned e logs, fs)
  unfolding alone step
  alone-returned zero e logs fs = refl
  alone-returned (suc n) e logs fs = alone-returned n e logs fs

  module _ (temp : String) (made : j.os.create_temp ≡ created temp) where
    abbrev finished : Fs → Option GoError × Copying → Outcome
    finished fs r = finish digest j.os temp j.dest j.content_length fs r

    finish-store :
        (e : Option GoError) (c : Copying) (fs : Fs)
        → finished (store temp c.content fs) (e, c) ≡ finished fs (e, c)
    unfolding finish
    finish-store (some e) c fs = ground (arith, store-store temp c.content c.content fs)
    finish-store none c fs = ground (arith, store-store temp c.content c.content fs)

    step-copying :
        (body : Body) (c : Copying) (fs : Fs)
        → step digest j (copying body c) fs ≡ copied_to temp fs (next_round body c)
    unfolding step
    step-copying body c fs =
        ap (λ o. in_file o (λ t. copied_to t fs (next_round body c)) (copying body c, fs)) made

    step-ended :
        (e : Option GoError) (c : Copying) (fs : Fs)
        → step digest j (ended e c) fs ≡ return_of (finished fs (e, c))
    unfolding step
    step-ended e c fs =
        ap
          (λ o.
            in_file o (λ t. return_of (finish digest j.os t j.dest j.content_length fs (e, c)))
              (ended e c, fs))
          made

    abbrev on : ℕ → Stage × Fs → Stage × Fs
    on n (s, fs) = alone digest n j s fs

    alone-ended :
        (n : ℕ) (e : Option GoError) (c : Copying) (fs : Fs)
        → alone digest (suc n) j (ended e c) (store temp c.content fs)
          ≡ return_of (finished fs (e, c))
    unfolding alone
    alone-ended n e c fs =
        let o = finished (store temp c.content fs) (e, c) in
        ap (on n) (step-ended e c (store temp c.content fs))
        ∙ alone-returned n o.0 o.2 o.1
        ∙ ap return_of (finish-store e c fs)

    alone-round :
        (body : Body) (n : ℕ) (c : Copying) (fs : Fs)
        → alone digest (suc n) j (copying body c) (store temp c.content fs)
          ≡ on n (copied_to temp fs (next_round body c))
    unfolding alone
    alone-round body n c fs =
        let x = next_round body c in
        ap (on n) (step-copying body c (store temp c.content fs))
        ∙ ap (λ f. alone digest n j x.0 f) (store-store temp x.1.content c.content fs)

    continued :
        (body : Body) (n : ℕ) (x : Option GoError × Copying) (fs : Fs)
        → ((c : Copying)
            → alone digest (suc n) j (copying body c) (store temp c.content fs)
              ≡ return_of (finished fs (copy body c)))
        → on (suc n) (copied_to temp fs (behind body x))
          ≡ return_of (finished fs (elim x.0 [ some e ↦ (some e, x.1) | none ↦ copy body x.1 ]))
    continued body n (none, c) fs rest = rest c
    continued body n (some e, c) fs rest = alone-ended n (some e) c fs

    alone-copying :
        (body : Body) (n : ℕ) (c : Copying) (fs : Fs)
        → rounds body ≤ n
        → alone digest (suc n) j (copying body c) (store temp c.content fs)
          ≡ return_of (finished fs (copy body c))
    unfolding rounds next_round
    alone-copying (last a end) zero c fs h = absurd (omega (arith, h))
    alone-copying (last a end) (suc n) c fs h =
        let r = round a c in
        alone-round (last a end) (suc n) c fs
        ∙ alone-ended n (first_error r.0 end) r.1 fs
        ∙ ap (λ x. return_of (finished fs x)) (sym (copy-last a end c))
    alone-copying (more a body) zero c fs h = absurd (omega (arith, h))
    alone-copying (more a body) (suc n) c fs h =
        alone-round (more a body) (suc n) c fs
        ∙ continued body n (round a c) fs (λ c'. alone-copying body n c' fs (omega (arith, h)))
        ∙ ap (λ x. return_of (finished fs x)) (sym (copy-more a body c))

  abbrev created_outcome : Fs → Created → Outcome
  created_outcome fs o = elim o [
    | not_created e ↦ (some (wrap "creating temp file: " e), fs, [])
    | created temp ↦
        finish digest j.os temp j.dest j.content_length fs
          (copy j.body (start j.os.start_time j.content_length j.opts))
  ]

  alone-created :
      (n : ℕ) (fs : Fs) (o : Created)
      → rounds j.body < n
      → j.os.create_temp ≡ o
      → alone digest n j (opened j fs o).0 (opened j fs o).1 ≡ return_of (created_outcome fs o)
  alone-created n fs (not_created e) enough made = alone-returned n (some _) [] fs
  alone-created zero fs (created temp) enough made = absurd (omega (arith, enough))
  alone-created (suc n) fs (created temp) enough made =
      alone-copying temp made j.body n (start j.os.start_time j.content_length j.opts) fs
        (omega (arith, enough))

  -- Alone, a call that gets three steps more than its body has rounds comes to what Handle comes to.
  pub alone-handle :
      (n : ℕ) (fs : Fs)
      → rounds j.body + 3 ≤ n
      → alone digest n j entering fs ≡ return_of (handle_job digest j fs)
  unfolding alone step handle
  alone-handle zero fs enough = absurd (omega (arith, enough))
  alone-handle (suc zero) fs enough = absurd (omega (arith, enough))
  alone-handle (suc (suc n)) fs enough =
      elim (Bool-cases (j.opts.skip_existing && exists j.dest fs)) [
        | inl skips ↦ rw skips (alone-returned n none (skipping_existing ∷ []) fs)
        | inr runs ↦ rw runs (alone-created n fs j.os.create_temp (omega (arith, enough)) refl)
      ]
