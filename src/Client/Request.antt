-- ===== src/Client/Request.antt =====
-- Request of client/client.go, with the request options of client/options.go. A header is the list
-- of its lines in the order in which they were added to their keys.
pub mod Laws
mod Tests
use httper.Base.{
  String, ◌<>◌, Option, none, some, List, [], ◌∷◌, ◌++◌, foldl, str_eq, if◌then◌else◌,
}
use httper.GoError.{GoError, message, wrap, Try, ok, err}
use httper.Client.Url.{Url}

abbrev pub Lines : Type 0
Lines = List (String × String)

-- The values of a key, in order
unfoldable pub values_of : String → Lines → List String
values_of k [] = []
values_of k ((j, v) ∷ h) = if str_eq j k then v ∷ values_of k h else values_of k h

unfoldable pub delete : String → Lines → Lines
delete k [] = []
delete k ((j, v) ∷ h) = let rest = delete k h in if str_eq j k then rest else (j, v) ∷ rest

-- Header.Set and Header.Add
abbrev pub set_line : String → String → Lines → Lines
set_line k v h = delete k h ++ (k, v) ∷ []

abbrev pub add_line : String → String → Lines → Lines
add_line k v h = h ++ (k, v) ∷ []

-- The options, for payloads of a type `P`. A cookie is its text, name=value, which is never empty;
-- the headers are the entries of the map, in the order in which the loop meets them.
pub data RequestOption (P : Type 0) : Type 0 where
  with_payload : Option P → RequestOption P
  with_content_type : String → RequestOption P
  with_headers : List (String × List String) → RequestOption P
  with_cookies : List String → RequestOption P

pub record RequestOpts (P : Type 0) : Type 0 where
  pub body : Option P
  pub content_type : Option String
  pub cookies : List String
  pub headers : List (String × List String)

-- An *http.Request, with the fields that the package sets; `url` is the one whose text it was made
-- of.
pub record Outgoing : Type 0 where
  pub method : String
  pub url : Url
  pub body : String
  pub header : Lines

module _ {P : Type 0} where
  unfoldable pub apply_request : RequestOption P → RequestOpts P → Try (RequestOpts P)
  apply_request (with_payload body) o = ok (record o { body = body })
  apply_request (with_content_type content_type) o =
      if str_eq content_type ""
      then err (message "cannot use empty content type")
      else ok (record o { content_type = some content_type })
  apply_request (with_headers headers) o = ok (record o { headers = headers })
  apply_request (with_cookies cookies) o = ok (record o { cookies = cookies })

  -- The loop over the options
  unfoldable pub apply_requests : List (RequestOption P) → RequestOpts P → Try (RequestOpts P)
  unfolding apply_request
  apply_requests [] o = ok o
  apply_requests (f ∷ fs) o = elim (apply_request f o) [
    | ok o' ↦ apply_requests fs o'
    | err e ↦ err e
  ]

  abbrev pub no_request_opts : RequestOpts P
  no_request_opts = record { body = none; content_type = none; cookies = []; headers = [] }

-- (*Request).AddCookie
abbrev joined : List String → String → String
joined [] cookie = cookie
joined (c ∷ _) cookie = c <> ("; " <> cookie)

add_cookie : Lines → String → Lines
unfolding values_of delete
add_cookie h cookie = set_line "Cookie" (joined (values_of "Cookie" h) cookie) h

abbrev content_type_or : Option String → String
content_type_or none = "application/json"
content_type_or (some t) = t

-- http.NewRequestWithContext reads an empty method as GET.
abbrev pub method_or_get : String → String
method_or_get method = if str_eq method "" then "GET" else method

-- The loops over the headers; `canonical` is http.CanonicalHeaderKey, which Add applies.
module _ (canonical : String → String) where
  pub add_values : String → List String → Lines → Lines
  add_values k vs h = foldl (λ g v. add_line (canonical k) v g) h vs

  pub add_headers : List (String × List String) → Lines → Lines
  unfolding add_values
  add_headers headers h = foldl (λ g e. add_values e.0 e.1 g) h headers

  -- The header that Request sets on a new request
  pub header_of : {P : Type 0} → RequestOpts P → Lines
  unfolding add_cookie add_headers
  header_of settings = add_headers settings.headers (
      set_line "Content-Type" (content_type_or settings.content_type)
        (foldl add_cookie [] settings.cookies))

  -- `encode` is the json.Encoder on a payload, and `new_request` the error that
  -- http.NewRequestWithContext returns for a method and a URL.
  module _ {P : Type 0} (json_encode : P → Try String)
      (new_request : String → Url → Option GoError) where
    abbrev pub payload_of : Option P → Try String
    payload_of none = ok ""
    payload_of (some body) = elim (json_encode body) [
      | ok text ↦ ok text
      | err e ↦ err (wrap "encoding request payload: " e)
    ]

    abbrev instantiate : String → Url → RequestOpts P → Try String → Try Outgoing
    instantiate method url settings (err e) = err e
    instantiate method url settings (ok payload) = elim (new_request method url) [
      | some e ↦ err (wrap "instantiating request: " e)
      | none ↦ ok (record {
        method = method_or_get method;
        url = url;
        body = payload;
        header = header_of settings;
      })
    ]

    abbrev with_settings : String → Url → Try (RequestOpts P) → Try Outgoing
    with_settings method url (err e) = err e
    with_settings method url (ok settings) =
        instantiate method url settings (payload_of settings.body)

    -- Request
    pub request : Url → String → List (RequestOption P) → Try Outgoing
    unfolding apply_requests header_of
    request req_url method opts = with_settings method req_url (apply_requests opts no_request_opts)
