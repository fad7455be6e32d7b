-- ===== src/Client/Throttle.antt =====
-- client/throttle/throttle.go and model.go. The limiter is that of golang.org/x/time/rate, a
-- parameter: its state, Allow, and Wait with the context's fate during the wait.
pub mod Tokens
use httper.GoError.{GoError, new, wrap, wrap_both, Try, ok, err}
use httper.Base.{
  ℕ, ◌<>◌, Bool, true, false, ◌||◌, Option, none, some, List, [], ◌∷◌, ◌++◌, if◌then◌else◌, ℤ, pos,
  leb_ℤ, show_ℤ,
}

abbrev pub must_not_be_zero : ℕ
must_not_be_zero = 5

abbrev pub waiting_failed : ℕ
waiting_failed = 6

abbrev pub context_ended : ℕ
context_ended = 7

abbrev pub err_must_not_be_zero : GoError
err_must_not_be_zero = new must_not_be_zero "must be greater than zero"

abbrev pub err_waiting_failed : GoError
err_waiting_failed = new waiting_failed "limiter waiting failed"

abbrev pub err_context_ended : GoError
err_context_ended = new context_ended "throttle context ended"

-- throttle.Config
pub record Config : Type 0 where
  pub rps : ℤ
  pub burst : ℤ

-- The test that NewRoundTripper and WithThrottle make, and their error
abbrev pub is_refused : ℤ → ℤ → Bool
is_refused rps burst = leb_ℤ rps (pos 0) || leb_ℤ burst (pos 0)

abbrev pub refusal : ℤ → ℤ → GoError
refusal rps burst =
    wrap ("rps[" <> (show_ℤ rps <> ("] and burst[" <> (show_ℤ burst <> "] ")))) err_must_not_be_zero

-- NewRoundTripper: the configuration that the round tripper is built with
unfoldable pub new_config : ℤ → ℤ → Try Config
new_config rps burst =
    if is_refused rps burst
    then err (refusal rps burst)
    else ok (record { rps = rps; burst = burst })

-- What the context of a request comes to: its error before the throttle and behind the wait.
pub record Fate : Type 0 where
  pub before : Option GoError
  pub after : Option GoError

-- The two log lines.
pub data Line : Type 0 where
  tokens_exhausted : Line
  wait_complete : Line

-- What RoundTrip did: the response or error, the limiter, the lines, and whether the next round
-- tripper was called.
abbrev pub Trip : Type 0 → Type 0 → Type 0
Trip L R = Try R × L × List Line × Bool

module _ {L R : Type 0} (allow : L → Bool × L) (wait : L → Option GoError × L) where
  -- From limiter.Wait on; `lines` are those that the deferred function adds.
  unfoldable pub wait_and_go : Fate → Try R → List Line → List Line → L → Trip L R
  wait_and_go fate next logged lines l =
      let (wait_err, l') = wait l in
      elim wait_err [
        | some e ↦ (err (wrap_both err_waiting_failed ": " e), l', logged ++ lines, false)
        | none ↦ elim fate.after [
          | some e ↦
              (err (wrap_both err_context_ended " post-wait: " e), l', logged ++ lines, false)
          | none ↦ (next, l', logged ++ lines, true)
        ]
      ]

  -- (*throttle).RoundTrip; `has_logger` is whether logFn returns a logger, and `next` what the
  -- next round tripper returns. NewRoundTripper always makes a limiter.
  unfoldable pub round_trip : Bool → Fate → Try R → L → Trip L R
  unfolding wait_and_go
  round_trip has_logger fate next l = elim fate.before [
    | some e ↦ (err (wrap_both err_context_ended " early: " e), l, [], false)
    | none ↦
        if has_logger
        then (let (allowed, l') = allow l in
            if allowed
            then wait_and_go fate next [] [] l'
            else wait_and_go fate next (tokens_exhausted ∷ []) (wait_complete ∷ []) l')
        else wait_and_go fate next [] [] l
  ]
