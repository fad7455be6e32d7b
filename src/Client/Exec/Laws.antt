-- ===== src/Client/Exec/Laws.antt =====
-- What exec returns, and what becomes of the body.
use httper.Base.{
  ℕ, String, ◌≡◌, refl, sym, ap, ◌∙◌, ◌≢◌, ◌↔◌, ◌⊎◌, inl, inr, true, false, Option, none, some,
  List, [], arith, leb, if◌then◌else◌, Bool-cases, length, take, take-short, ℤ, pos, negsuc, ◌==◌,
  eq_ℤ,
}
use httper.GoError.{wrap, GoError, is_error, ok, unexpected_status}
use httper.Client.Exec.{
  Stream, Response, exec, exec_response, read_limited, err_body, unexpected_status_code,
  auth_failure, is_auth, ret_err, max_err_body_size,
}

-- The error for the status names it, and authentication exactly for 401 and 403.
pub record IsStatusError (code : ℤ) (e : GoError) : Type 0 where
  pub unexpected : is_error e unexpected_status_code ≡ true
  pub auth : (is_error e auth_failure ≡ true) ↔ ((code ≡ pos 401) ⊎ (code ≡ pos 403))

is_auth_iff : (code : ℤ) → (is_auth code ≡ true) ↔ ((code ≡ pos 401) ⊎ (code ≡ pos 403))
is_auth_iff (pos n) = (
  λ h. elim (Bool-cases (n == 401)) [
    | inl first ↦ inl (ap pos (ground arith))
    | inr differs ↦ inr (ap pos (ground arith))
  ],
  λ h. elim h [ inl first ↦ ap is_auth first | inr second ↦ ap is_auth second ],
)
is_auth_iff (negsuc n) = (
  λ h. absurd (cc h),
  λ h. elim h [ inl first ↦ ap is_auth first | inr second ↦ ap is_auth second ],
)

is_error-ret_err : (code : ℤ) → is_error (ret_err code) auth_failure ≡ is_auth code
unfolding is_error
is_error-ret_err code = ground arith

ret_err-IsStatusError : (code : ℤ) → IsStatusError code (ret_err code)
unfolding is_error
ret_err-IsStatusError code =
    let same = is_error-ret_err code in
    record {
      unexpected = ground arith;
      auth = (λ h. (is_auth_iff code).0 (sym same ∙ h), λ h. same ∙ (is_auth_iff code).1 h);
    }

module _ {S : Type 0} (text : List ℕ → String) (exp_code : ℤ)
    (fn : Response → Stream → S → Option GoError × Stream × S) where
  pub shown : Stream → String
  shown b =
      if leb max_err_body_size (length b.rest)
      then text (take max_err_body_size b.rest)
      else err_body text b.read_err b.rest

  -- A body that is read to its end or to the limit is shown by its first 4096 bytes.
  shown_lem : (b : Stream) → b.read_err ≡ none → shown b ≡ text (take max_err_body_size b.rest)
  unfolding shown
  shown_lem b h = elim (Bool-cases (leb max_err_body_size (length b.rest))) [
    | inl long ↦ rw long refl
    | inr short ↦ rw (short, h) (ap text (sym (take-short max_err_body_size b.rest (ground arith))))
  ]

  pub exec-status :
      (resp : Response) (b : Stream) (s : S)
      → eq_ℤ resp.status_code exp_code ≡ false
      → ((exec text exp_code fn (ok (resp, b)) s).0
          ≡ some (unexpected_status resp.status_code (shown b) (ret_err resp.status_code)))
        × ((exec text exp_code fn (ok (resp, b)) s).1
            ≡ some (record b { rest = []; closed = true }))
        × ((exec text exp_code fn (ok (resp, b)) s).2 ≡ s)
  unfolding exec exec_response read_limited shown
  exec-status resp b s h = elim (Bool-cases (leb max_err_body_size (length b.rest))) [
    | inl long ↦ rw (h, long) (refl, refl, refl)
    | inr short ↦ rw (h, short) (refl, refl, refl)
  ]

  -- A response with another status than the expected one, whose body is read without an error: exec
  -- returns the error for that status, with the first 4096 bytes of the body, which matches
  -- ErrUnexpectedStatusCode, and ErrAuthFailure exactly for 401 and 403. What the injected function
  -- would write to is unchanged, and the body is drained and closed.
  pub exec_unexpected :
      (resp : Response) (b : Stream) (s : S)
      → eq_ℤ resp.status_code exp_code ≡ false
      → b.read_err ≡ none
      → (e : GoError) × ((exec text exp_code fn (ok (resp, b)) s).0
          ≡ some (unexpected_status resp.status_code (text (take 4096 b.rest)) e))
        × IsStatusError resp.status_code e
        × ((exec text exp_code fn (ok (resp, b)) s).1
            ≡ some (record b { rest = []; closed = true }))
        × ((exec text exp_code fn (ok (resp, b)) s).2 ≡ s)
  exec_unexpected resp b s h reads =
      let ran = exec-status resp b s h in
      (
        ret_err resp.status_code,
        rw (← shown_lem b reads) ran.0,
        ret_err-IsStatusError resp.status_code,
        ran.1,
        ran.2,
      )

  -- What exec makes of a response with the expected status
  exec-expected :
      (resp : Response) (b b' : Stream) (s s' : S) (o : Option GoError)
      → eq_ℤ resp.status_code exp_code ≡ true
      → fn resp b s ≡ (o, b', s')
      → ((exec text exp_code fn (ok (resp, b)) s).0 ≡ none) ↔ (o ≡ none)
  unfolding exec exec_response
  exec-expected resp b b' s s' none h ran = rw (h, ran) (λ _. refl, λ _. refl)
  exec-expected resp b b' s s' (some e) h ran = rw (h, ran) (λ x. cc, λ x. cc)

  -- An error of the injected function is wrapped.
  fails-with :
      (resp : Response) (b b' : Stream) (s s' : S) (e : GoError)
      → eq_ℤ resp.status_code exp_code ≡ true
      → fn resp b s ≡ (some e, b', s')
      → (exec text exp_code fn (ok (resp, b)) s).0 ≡ some (wrap "exec fn: " e)
  unfolding exec exec_response
  fails-with resp b b' s s' e h ran = rw (h, ran) refl

  pub exec-fails :
      (resp : Response) (b : Stream) (s : S) (e : GoError)
      → eq_ℤ resp.status_code exp_code ≡ true
      → (fn resp b s).0 ≡ some e
      → (exec text exp_code fn (ok (resp, b)) s).0 ≡ some (wrap "exec fn: " e)
  exec-fails resp b s e h failed =
      fails-with resp b (fn resp b s).1 s (fn resp b s).2 e h
        (ap (λ o. (o, (fn resp b s).1, (fn resp b s).2)) failed)

  -- exec reports no error exactly when the status is the expected one and the injected function
  -- reports none.
  pub exec-none_iff :
      (resp : Response) (b : Stream) (s : S)
      → ((exec text exp_code fn (ok (resp, b)) s).0 ≡ none)
        ↔ ((eq_ℤ resp.status_code exp_code ≡ true) × ((fn resp b s).0 ≡ none))
  exec-none_iff resp b s = elim (Bool-cases (eq_ℤ resp.status_code exp_code)) [
    | inl h ↦
        let iff = exec-expected resp b (fn resp b s).1 s (fn resp b s).2 (fn resp b s).0 h refl in
        (λ x. (h, iff.0 x), λ x. iff.1 x.1)
    | inr h ↦ (λ x. absurd (cc (exec-status resp b s h).0), λ x. cc)
  ]

  abbrev pub IsEnded : Response → Stream → S → Stream → Type 0
  IsEnded resp b s b' =
      ((exec text exp_code fn (ok (resp, b)) s).1 ≡ some b')
      × (b'.closed ≡ true)
      × ((b'.rest ≡ []) ⊎ ((fn resp b s).0 ≢ none))

  expected-IsEnded :
      (resp : Response) (b b' : Stream) (s s' : S) (o : Option GoError)
      → eq_ℤ resp.status_code exp_code ≡ true
      → fn resp b s ≡ (o, b', s')
      → (c : Stream) × IsEnded resp b s c
  unfolding exec exec_response
  expected-IsEnded resp b b' s s' none h ran =
      (record b' { rest = []; closed = true }, (rw (h, ran) refl, refl, inl refl))
  expected-IsEnded resp b b' s s' (some e) h ran =
      (record b' { closed = true }, (rw (h, ran) refl, refl, inr (λ x. cc (ap (λ r. r.0) ran, x))))

  -- The body of a response is closed when exec returns, and drained unless the injected function
  -- has reported an error.
  pub exec-closed : (resp : Response) (b : Stream) (s : S) → (b' : Stream) × IsEnded resp b s b'
  exec-closed resp b s = elim (Bool-cases (eq_ℤ resp.status_code exp_code)) [
    | inl h ↦ expected-IsEnded resp b (fn resp b s).1 s (fn resp b s).2 (fn resp b s).0 h refl
    | inr h ↦ (_, ((exec-status resp b s h).1, refl, inl refl))
  ]

  expected-state :
      (resp : Response) (b b' : Stream) (s s' : S) (o : Option GoError)
      → eq_ℤ resp.status_code exp_code ≡ true
      → fn resp b s ≡ (o, b', s')
      → (exec text exp_code fn (ok (resp, b)) s).2 ≡ s'
  unfolding exec exec_response
  expected-state resp b b' s s' none h ran = rw (h, ran) refl
  expected-state resp b b' s s' (some e) h ran = rw (h, ran) refl

  -- What the injected function writes to is as it left it.
  pub exec-state :
      (resp : Response) (b : Stream) (s : S)
      → eq_ℤ resp.status_code exp_code ≡ true
      → (exec text exp_code fn (ok (resp, b)) s).2 ≡ (fn resp b s).2
  exec-state resp b s h =
      expected-state resp b (fn resp b s).1 s (fn resp b s).2 (fn resp b s).0 h refl
