-- ===== src/Client/Tests.antt =====
-- A client with a throttle, and a refused one.
use httper.Base.{
  last_given, get_elem?, ◌≢◌, ◌<◌, length, take, show_ℕ, false, ℤ, ◌<>◌, ℕ, ◌+◌, String, ◌≡◌, refl,
  Bool, true, Option, none, some, List, [], ◌∷◌, pos,
}
use httper.GoError.{unexpected_status, GoError, ok, wrap, message}
use httper.Client.Throttle.{Fate, round_trip}
use httper.Client.Throttle.Tokens.{round_trip-takes}
use httper.Client.Build.{
  Opt, with_client, with_transport, with_no_follow_redirects, custom, throttled, user_agent,
  use_last_response, with_timeout, with_throttle, with_user_agent, build, Store, zero_client,
}
use httper.Client.Exec.{Stream, Response, exec, max_err_body_size}
use httper.Client.Exec.Laws.{IsStatusError, IsEnded, exec_unexpected, exec-closed}
use httper.Client.Build.Laws.{build-err}
use httper.Client.Build.Given.{build_lem}

-- A bucket that always has a token; the state counts those handed out.
abbrev allow : ℕ → Bool × ℕ
allow l = (true, l + 1)

abbrev wait : ℕ → Option GoError × ℕ
wait l = (none, l + 1)

abbrev fate : Fate
fate = record { before = none; after = none }

round_trip-takes_example : (round_trip {L = ℕ} {R = String} allow wait true fate (ok "OK") 4).1 ≡ 6
unfolding round_trip
round_trip-takes_example =
    round_trip-takes {R = String} allow wait (λ l. l)
      (record { allow_takes = λ l. refl; wait_takes = λ l. refl }) true fate (ok "OK") 4 refl

abbrev store : Store
store = zero_client ∷ []

-- Options with one that is given twice
abbrev fns : List Opt
fns =
    with_timeout (pos 30)
    ∷ with_throttle (pos 5) (pos 2)
    ∷ with_no_follow_redirects
    ∷ with_transport (some (custom 7))
    ∷ with_client (some 0)
    ∷ with_user_agent "httper"
    ∷ with_timeout (pos 40)
    ∷ []

build_lem_example :
    ((build fns store).0 ≡ ok (record { c = 0; logger = 0 }))
    × (get_elem? (build fns store).1 0
        ≡ some (record {
          transport = some (
              throttled (record { rps = pos 5; burst = pos 2 }) 0 (user_agent "httper" (custom 7)));
          timeout = pos 40;
          check_redirect = use_last_response;
        }))
    × ((q : ℕ) → q < 1 → q ≢ 0 → get_elem? (build fns store).1 q ≡ get_elem? store q)
unfolding last_given
build_lem_example =
    build_lem fns store 0 zero_client (refl, ((refl, refl), (tt, (tt, (tt, (tt, (refl, tt)))))))
      (refl, refl)

build-err_example : (build (with_client (some 0) ∷ with_client none ∷ []) store).1 ≡ store
unfolding build
build-err_example =
    build-err (with_client (some 0) ∷ with_client none ∷ []) store
      (wrap "applying option: " (message "client must not be nil")) refl

abbrev body : Stream
body = record { rest = b'n' ∷ b'o' ∷ []; read_err = none; close_err = none; closed = false }

abbrev response : ℤ → Response
response code = record { status_code = code; content_length = pos 2 }

-- An injected function that reads nothing and fails.
abbrev stops : Response → Stream → ℕ → Option GoError × Stream × ℕ
stops resp b s = (some (message "bad json"), b, s + 1)

abbrev text : List ℕ → String
text bytes = "body of " <> show_ℕ (length bytes)

exec_unexpected_example :
    (e : GoError) × ((exec text (pos 200) stops (ok (response (pos 401), body)) 0).0
      ≡ some (unexpected_status (pos 401) (text (take max_err_body_size body.rest)) e))
    × IsStatusError (pos 401) e
    × ((exec text (pos 200) stops (ok (response (pos 401), body)) 0).1
        ≡ some (record body { rest = []; closed = true }))
    × ((exec text (pos 200) stops (ok (response (pos 401), body)) 0).2 ≡ 0)
exec_unexpected_example = exec_unexpected text (pos 200) stops (response (pos 401)) body 0 refl refl

exec-closed_example : (b' : Stream) × IsEnded text (pos 200) stops (response (pos 200)) body 0 b'
exec-closed_example = exec-closed text (pos 200) stops (response (pos 200)) body 0
