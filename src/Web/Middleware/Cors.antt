-- ===== src/Web/Middleware/Cors.antt =====
-- web/middleware/cors.go.
pub mod Laws
pub mod Answers
use httper.GoError.{FieldError, message}
use httper.Web.World.{Act, pure, ◌>>=◌, ◌>>◌, get_header, header_set, Handler, Middleware, named}
use httper.Web.Errs.{Caller, new_error}
use httper.Web.Respond.{respond_json, respond_error, Encoded}
use httper.Web.Glob.{path_match}
use httper.Base.{
  String, ◌<>◌, Bool, ◌||◌, List, [], ◌∷◌, ◌++◌, foldl, str_eq, if◌then◌else◌, any, pos,
  contains_char, split, join_strings,
}

abbrev pub default_headers : List String
default_headers =
    "Authorization" ∷ "Content-Type" ∷ "Accept" ∷ "X-Requested-With" ∷ "Cache-Control" ∷ []

-- The loop over `allowedOrigins` of CheckOriginFunc
unfoldable pub separate : List String → List String
unfolding split
separate [] = []
separate (o ∷ os) = split b',' o ++ separate os

-- The keys of the map `allowed`, and `wildCardOrigins`.
abbrev pub Origins : Type 0
Origins = List String × List String

-- One round of the loop over `separated`
unfoldable pub collect : Origins → String → Origins
unfolding contains_char
collect (allowed, wild) o =
    if str_eq o "*"
    then ("*" ∷ allowed, wild)
    else if contains_char b'*' o
    then (allowed, wild ++ o ∷ [])
    else (o ∷ allowed, wild)

-- A read of the map `allowed`
abbrev pub is_allowed : List String → String → Bool
is_allowed allowed o = any (λ a. str_eq a o) allowed

-- CheckOriginFunc, with the function that it returns applied
unfoldable pub check_origin : List String → String → Bool
unfolding separate collect path_match
check_origin allowed_origins origin =
    let (allowed, wild) = foldl collect ([], []) (separate allowed_origins) in
    is_allowed allowed "*" || (is_allowed allowed origin || any (λ o. path_match o origin) wild)

-- The header lines of an allowed origin
pub set_cors : String → String → Act (Unit {0})
set_cors origin headers = do
  header_set "Access-Control-Allow-Origin" origin
  header_set "Vary" "Origin"
  header_set "Access-Control-Allow-Methods" "GET, OPTIONS, PUT, POST, PATCH, DELETE"
  header_set "Access-Control-Allow-Credentials" "true"
  header_set "Access-Control-Max-Age" "86400"
  header_set "Access-Control-Allow-Headers" headers

-- `headers`, from the list given or the default one
unfoldable pub headers_text : List String → String
unfolding join_strings
headers_text [] = join_strings ", " default_headers
headers_text (h ∷ hs) = join_strings ", " (h ∷ hs)

-- CORS. `no_data` is json.Marshal(nil).
module _ (fields_text : List FieldError → String) (caller : Caller) (no_data : Encoded) where
  unfoldable pub cors_handler : List String → List String → Handler → Handler
  cors_handler allowed_origins allowed_headers handler ctx r =
      let origin = get_header "Origin" r.header in
      if str_eq origin ""
      then handler ctx r
      else if check_origin allowed_origins origin
      then (do
        set_cors origin (headers_text allowed_headers)
        if str_eq r.method "OPTIONS" then respond_json ctx (pos 204) no_data else handler ctx r)
      else respond_error ctx (
          new_error fields_text caller (pos 403)
            (message ("CORS origin[" <> (origin <> "] not allowed"))))

  abbrev pub cors : List String → List String → Middleware
  cors allowed_origins allowed_headers =
      named "github.com/adamwoolhether/httper/web/middleware.CORS.func1"
        (cors_handler allowed_origins allowed_headers)
