-- ===== src/Web/Tests/Reached.antt =====
-- A client that asks the app of Web.Tests.Served.
use httper.Web.Tests.Served.{
  users, router, given, asked, app, table, is_route, entry, missing_user, answering,
}
use httper.Web.Tests.Samples.{failing, no_text, caller, world, stack}
use httper.EndToEnd.{Delivers, Refused, Accepted, do_request-app_error, do_request-respond_json}
use httper.Client.Exec.{Stream, Response, with_destination, with_json_numb, apply_do}
use httper.Web.World.{World, Header, Payload, error_json, fields_json, value_json, plain}
use httper.Web.Middleware.Stack.{Served, serve_http-app_error, serve_http-respond_json, reported}
use httper.Web.Middleware.Errors.{obscure, to_app_error}
use httper.GoError.{GoError, as_field_errors, as_app_error}
use httper.Base.{
  true, false, ℕ, String, Bool, Option, none, some, List, [], ◌∷◌, refl, pos, ℤ, ap, ◌≡◌, ◌∙◌, sym,
}

-- The bytes of a text are left open.
abbrev bytes : Payload → List ℕ
bytes (error_json code msg) = 1 ∷ []
bytes (fields_json fs) = 2 ∷ []
bytes (value_json v) = 3 ∷ 4 ∷ []
bytes (plain v) = 5 ∷ []

abbrev text : List ℕ → String
text bs = "text"

abbrev body : List ℕ → Stream
body bs = record { rest = bs; read_err = none; close_err = none; closed = false }

abbrev response : ℤ → Response
response code = record { status_code = code; content_length = pos 1 }

-- The destination gets the bytes.
abbrev decode : Bool → ℕ → Stream → List ℕ → Option GoError × Stream × List ℕ
decode numb d b s = (none, record b { rest = [] }, b.rest)

first_payload : Payload → List Payload → Payload
first_payload d [] = d
first_payload d (p ∷ ps) = p

arrived :
    (w : World) (code : ℤ) (h : Header) (p : Payload)
    → w.response.sent ≡ some (code, h)
    → w.response.body ≡ p ∷ []
    → Delivers bytes w (response code) (body (bytes p))
unfolding first_payload
arrived w code h p sent written = record {
  status = λ code' h' sent'. cc;
  whole = λ p' written'. ap (λ l. bytes (first_payload p l)) (sym written ∙ written');
  intact = refl;
}

abbrev MissingServed : Type 0
MissingServed =
    Served no_text caller 3 stack router (failing missing_user) asked world [] given
      (users (failing missing_user)) app [] (table (failing missing_user)) (pos 404)
      (error_json (pos 404) "no such user")
      (reported no_text caller 3 stack router (failing missing_user) asked world
        (entry (failing missing_user)) missing_user)

missing_user-Served : MissingServed
unfolding as_field_errors to_app_error as_app_error obscure
missing_user-Served =
    serve_http-app_error no_text caller 3 stack router (failing missing_user) asked world [] given
      (users (failing missing_user)) app [] (table (failing missing_user))
      (entry (failing missing_user)) missing_user (is_route (failing missing_user)) refl refl
      (record { valid = refl; final = refl; no_content = refl; modified = refl })
      (record { unsent = refl; unwritten = refl; works = refl }) refl

answering-Served :
    Served no_text caller 3 stack router answering asked world [] given
      (users answering)
      app
      []
      (table answering)
      (pos 201)
      (value_json "{}")
      (entry answering)
answering-Served =
    serve_http-respond_json no_text caller 3 stack router answering asked world [] given
      (users answering) app [] (table answering) (pos 201) (value_json "{}") (entry answering)
      (is_route answering) refl (record { unsent = refl; unwritten = refl; works = refl })
      (record { valid = refl; final = refl; no_content = refl; modified = refl }) refl

do_request-app_error_example :
    Refused text decode
      (with_destination 0 ∷ [])
      (pos 200)
      (response (pos 404))
      (body (1 ∷ []))
      (9 ∷ [])
      (pos 404)
      (1 ∷ [])
unfolding as_field_errors to_app_error as_app_error obscure
do_request-app_error_example =
    do_request-app_error no_text caller 3 stack router (failing missing_user) asked world [] given
      (users (failing missing_user)) app [] (table (failing missing_user)) bytes
      (response (pos 404)) (body (1 ∷ []))
      (arrived _ (pos 404) _ (error_json (pos 404) "no such user") missing_user-Served.2
        missing_user-Served.1)
      (is_route (failing missing_user)) text decode (pos 200) (9 ∷ [])
      (entry (failing missing_user)) missing_user (with_destination 0 ∷ []) refl refl
      (record { valid = refl; final = refl; no_content = refl; modified = refl })
      (record { unsent = refl; unwritten = refl; works = refl }) refl refl

do_request-respond_json_example :
    Accepted text decode
      (with_json_numb ∷ with_destination 0 ∷ [])
      (pos 201)
      (response (pos 201))
      (body (3 ∷ 4 ∷ []))
      (9 ∷ [])
      (3 ∷ 4 ∷ [])
unfolding apply_do
do_request-respond_json_example =
    do_request-respond_json no_text caller 3 stack router answering asked world [] given
      (users answering) app [] (table answering) bytes (response (pos 201)) (body (3 ∷ 4 ∷ []))
      (arrived _ (pos 201) _ (value_json "{}") answering-Served.2 answering-Served.1)
      (is_route answering) text decode (pos 201) (9 ∷ []) (pos 201) (value_json "{}")
      (entry answering) (with_json_numb ∷ with_destination 0 ∷ []) 0 true (3 ∷ 4 ∷ []) refl
      (record { unsent = refl; unwritten = refl; works = refl })
      (record { valid = refl; final = refl; no_content = refl; modified = refl }) refl refl refl
      (λ c whole intact. (_, ap (λ l. (none, record c { rest = [] }, l)) whole))
