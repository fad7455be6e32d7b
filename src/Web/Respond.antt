-- ===== src/Web/Respond.antt =====
-- web/response.go. json.Marshal of the data is the argument `encoded`: its error or its output.
pub mod Laws
pub mod Redirect
use httper.GoError.{GoError, AppError, message}
use httper.Web.World.{
  Ctx, Header, Request, Payload, error_json, plain, Act, pure, ◌>>=◌, ◌>>◌, get, header_set,
  write_header, write, set_header,
}
use httper.Web.Context.{set_status_code}
use httper.Base.{
  String, ◌<>◌, Bool, false, not, ◌&&◌, ◌||◌, Option, none, some, [], ◌∷◌, str_eq, if◌then◌else◌, ℤ,
  pos, eq_ℤ, ltb_ℤ, show_ℤ,
}

pub data Encoded : Type 0 where
  marshal_error : GoError → Encoded
  marshalled : Payload → Encoded

-- RespondJSON behind the test for 204
respond_body : Ctx → ℤ → Encoded → Act (Option GoError)
respond_body ctx status_code (marshal_error e) = pure (some e)
respond_body ctx status_code (marshalled payload) = do
  header_set "Content-Type" "application/json"
  write_header status_code
  write payload

-- RespondJSON
unfoldable pub respond_json : Ctx → ℤ → Encoded → Act (Option GoError)
unfolding set_status_code write_header write set_header respond_body
respond_json ctx status_code encoded = do
  set_status_code ctx status_code
  if eq_ℤ status_code (pos 204)
      then (do write_header status_code; pure none)
      else respond_body ctx status_code encoded

-- json.Marshal of an *errs.Error: the fields that are not tagged "-". It does not fail.
abbrev pub encode_error : AppError → Encoded
encode_error e = marshalled (error_json e.code e.message)

-- RespondError
unfoldable pub respond_error : Ctx → AppError → Act (Option GoError)
respond_error ctx e = respond_json ctx e.code (encode_error e)

pub has_header : String → Header → Bool
has_header k [] = false
has_header k ((j, v) ∷ h) = str_eq j k || has_header k h

abbrev pub is_method : Request → String → Bool
is_method r m = str_eq r.method m

-- http.Redirect of the standard library; `location` makes the Location header of a request and a
-- target.
http_redirect : (Request → String → String) → Request → String → ℤ → Act (Unit {0})
http_redirect location r url code = do
  w ← get
  let had_type = has_header "Content-Type" w.response.header
  header_set "Location" (location r url)
  if not had_type && (is_method r "GET" || is_method r "HEAD")
      then header_set "Content-Type" "text/html; charset=utf-8"
      else pure tt
  write_header code
  if not had_type && is_method r "GET"
      then (do _ ← write (plain (location r url)); pure tt)
      else pure tt

-- Redirect
unfoldable pub redirect : (Request → String → String) → Request → String → ℤ → Act (Option GoError)
unfolding set_status_code http_redirect
redirect location r url code =
    if ltb_ℤ code (pos 300) || ltb_ℤ (pos 399) code
    then pure (some (message ("invalid redirect code: " <> show_ℤ code)))
    else (do set_status_code r.ctx code; http_redirect location r url code; pure none)
