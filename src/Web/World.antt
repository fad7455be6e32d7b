-- ===== src/Web/World.antt =====
-- What a handler of web/mux works on: the request, the response writer, the `*BaseValues` that a
-- context points to, the log. A handler is an action: a function from the state to a result and the
-- next state. Its error is a value (`Option GoError`, nil is `none`), a Go panic ends the action.
-- The response writer is net/http's: the first WriteHeader fixes status and header.
pub mod Laws
use httper.GoError.{GoError, new, FieldError}
use httper.Base.{
  ◌<>◌, ℕ, String, Bool, false, not, ◌&&◌, ◌||◌, Option, none, some, List, [], ◌∷◌, ◌++◌, str_eq,
  if◌then◌else◌, ℤ, pos, eq_ℤ, leb_ℤ,
}

pub record Span : Type 0 where
  pub trace_id : String
  pub is_valid : Bool

-- A context.Context: the pointer stored under `base`, if any, and the span that it carries.
pub record Ctx : Type 0 where
  pub base : Option ℕ
  pub span : Span

abbrev pub Header : Type 0
Header = List (String × String)

-- An *http.Request. Header keys are canonical.
pub record Request : Type 0 where
  pub ctx : Ctx
  pub method : String
  pub host : String
  pub path : String
  pub raw_query : String
  pub remote_addr : String
  pub request_uri : String
  pub header : Header

-- mux.BaseValues. A nil tracer is `none`; a tracer is named by a number.
pub record BaseValues : Type 0 where
  pub trace_id : String
  pub now : ℕ
  pub tracer : Option ℕ
  pub status_code : ℤ

-- What is written to a body: the JSON of an errs.Error (its other fields are tagged "-"), of
-- errs.FieldErrors, of another value, or plain text.
pub data Payload : Type 0 where
  error_json : ℤ → String → Payload
  fields_json : List FieldError → Payload
  value_json : String → Payload
  plain : String → Payload

-- The log lines of the package, without times.
pub data LogEntry : Type 0 where
  request_started : (trace_id method path remote_addr : String) → LogEntry
  request_completed : (trace_id method path remote_addr : String) → ℤ → LogEntry
  request_error : (trace_id : String) → GoError → (file func : String) → LogEntry
  mux_error : String → GoError → LogEntry

-- An http.ResponseWriter. `sent` is the status with the header as it was when it was written.
-- `broken` is the error of every write, on a connection that is gone.
pub record Response : Type 0 where
  pub header : Header
  pub sent : Option (ℤ × Header)
  pub body : List Payload
  pub broken : Option GoError

pub record World : Type 0 where
  pub response : Response
  pub values : List BaseValues
  pub logs : List LogEntry

pub data Result {ℓ} (A : Type ℓ) : Type ℓ where
  done : A → Result A
  panicked : String → Result A

abbrev pub map_result {ℓ κ} : {A : Type ℓ} {B : Type κ} → (A → B) → Result A → Result B
map_result f (done a) = done (f a)
map_result f (panicked s) = panicked s

abbrev pub Act {ℓ} : Type ℓ → Type ℓ
Act A = World → Result A × World

module _ {ℓ} {A : Type ℓ} where
  abbrev pub pure : A → Act A
  pure a w = (done a, w)

  abbrev pub panic : String → Act A
  panic s w = (panicked s, w)

module _ {ℓ κ} {A : Type ℓ} {B : Type κ} where
  abbrev pub and_then : Result A → (A → Act B) → Act B
  and_then (done a) f = f a
  and_then (panicked s) f = panic s

  infixl 5 ◌>>=◌
  abbrev pub ◌>>=◌ : Act A → (A → Act B) → Act B
  m >>= f = λ w. let (r, after) = m w in and_then r f after

infixl 5 ◌>>◌
abbrev pub ◌>>◌ {ℓ} : {B : Type ℓ} → Act (Unit {0}) → Act B → Act B
m >> k = m >>= λ _. k

abbrev pub get : Act World
get w = (done w, w)

abbrev pub modify : (World → World) → Act (Unit {0})
modify f w = (done tt, f w)

abbrev pub log : LogEntry → Act (Unit {0})
log entry = modify (λ w. record w { logs = w.logs ++ entry ∷ [] })

-- Handler and Middleware of web/mux/mux.go. `named` carries what runtime.FuncForPC reports as the
-- name of the function, which web/mux/options.go reads.
abbrev pub Handler : Type 0
Handler = Ctx → Request → Act (Option GoError)

pub data Middleware : Type 0 where
  nil : Middleware
  named : String → (Handler → Handler) → Middleware

-- Header.Get: the empty text where the key is missing
unfoldable pub get_header : String → Header → String
get_header k [] = ""
get_header k ((j, v) ∷ h) = if str_eq j k then v else get_header k h

-- Header.Del
unfoldable pub del_header : String → Header → Header
del_header k [] = []
del_header k ((j, u) ∷ h) = let rest = del_header k h in if str_eq j k then rest else (j, u) ∷ rest

-- Header.Set
unfoldable pub set_header : String → String → Header → Header
unfolding del_header
set_header k v [] = (k, v) ∷ []
set_header k v ((j, u) ∷ h) =
    if str_eq j k then (j, v) ∷ del_header k h else (j, u) ∷ set_header k v h

abbrev pub with_header : Header → World → World
with_header h w = record w { response = record w.response { header = h } }

abbrev pub header_set : String → String → Act (Unit {0})
header_set k v = modify (λ w. with_header (set_header k v w.response.header) w)

abbrev pub header_del : String → Act (Unit {0})
header_del k = modify (λ w. with_header (del_header k w.response.header) w)

-- A status line that is not the last one: 1xx other than 101.
abbrev pub is_informational : ℤ → Bool
is_informational code = leb_ℤ (pos 100) code && leb_ℤ code (pos 199) && not (eq_ℤ code (pos 101))

abbrev pub send : ℤ → Response → Response
send code r = elim r.sent [
  | none ↦ if is_informational code then r else record r { sent = some (code, r.header) }
  | some _ ↦ r
]

abbrev pub is_status_code : ℤ → Bool
is_status_code code = leb_ℤ (pos 100) code && leb_ℤ code (pos 999)

-- w.WriteHeader(code): only the first call counts; a code that has not three digits panics.
unfoldable pub write_header : ℤ → Act (Unit {0})
write_header code w =
    if is_status_code code
    then (done tt, record w { response = send code w.response })
    else (panicked "invalid WriteHeader code", w)

abbrev pub err_body_not_allowed : GoError
err_body_not_allowed = new 20 "http: request method or response status code does not allow body"

abbrev forbids_body : Option (ℤ × Header) → Bool
forbids_body none = false
forbids_body (some (code, _)) = eq_ℤ code (pos 204) || eq_ℤ code (pos 304)

abbrev write_sent : Payload → Response → Option GoError × Response
write_sent p r = elim r.broken [
  | some e ↦ (some e, r)
  | none ↦
      if forbids_body r.sent
      then (some err_body_not_allowed, r)
      else (none, record r { body = r.body ++ p ∷ [] })
]

-- w.Write: sends status 200 first where no status was written.
unfoldable pub write : Payload → Act (Option GoError)
write p w =
    let (e, r) = write_sent p (send (pos 200) w.response) in (done e, record w { response = r })

-- http.Error(w, text, code)
unfoldable pub http_error : String → ℤ → Act (Unit {0})
unfolding write_header write set_header del_header
http_error text code = do
  header_del "Content-Length"
  header_set "Content-Type" "text/plain; charset=utf-8"
  header_set "X-Content-Type-Options" "nosniff"
  write_header code
  _ ← write (plain (text <> "\n"))
  pure tt
