-- ===== src/Client/Request/Laws.antt =====
-- What stands in the header of a new request.
use httper.Client.Request.{
  with_settings, instantiate, method_or_get, payload_of, no_request_opts, apply_requests,
  RequestOption, with_payload, with_content_type, with_headers, with_cookies, apply_request,
  Outgoing, request, joined, content_type_or, add_cookie, add_headers, add_values, RequestOpts,
  add_line, header_of, Lines, values_of, delete, set_line,
}
use httper.Base.{
  none, some, last_given, All, Option, foldl, sym, ap, Bool-cases, join_strings, inl, inr, false,
  Bool, ◌∙◌, ◌<>◌, String, ◌≡◌, refl, List, [], ◌∷◌, ◌++◌, arith, str_eq, eq_iff, if◌then◌else◌,
}
use httper.Client.Url.{Url}
use httper.GoError.{ok, err, wrap, GoError, Try}
use mathlib.Core.Option
use text.Mathlib.TextLemmas as Text
use mathlib.Core.List.{append-nil, append_assoc}

values_of-append :
    (k : String) (g h : Lines) → values_of k (g ++ h) ≡ values_of k g ++ values_of k h
unfolding values_of
values_of-append k [] h = refl
values_of-append k ((j, v) ∷ g) h = ground (arith, values_of-append k g h)

values_of-delete :
    (j k : String) (h : Lines)
    → values_of k (delete j h) ≡ (if str_eq j k then [] else values_of k h)
unfolding values_of delete
values_of-delete j k [] = ground arith
values_of-delete j k ((i, v) ∷ h) =
    ground (arith, eq_iff i j, eq_iff i k, eq_iff j k, values_of-delete j k h)

pub values_of-set_line :
    (j k v : String) (h : Lines)
    → values_of k (set_line j v h) ≡ (if str_eq j k then v ∷ [] else values_of k h)
unfolding values_of
values_of-set_line j k v h = elim (Bool-cases (str_eq j k)) [
  | inl same ↦ rw (values_of-append k (delete j h) ((j, v) ∷ []), values_of-delete j k h, same) refl
  | inr other ↦
      rw (values_of-append k (delete j h) ((j, v) ∷ []), values_of-delete j k h, other)
        (append-nil (values_of k h))
]

values_of-add_line :
    (j k v : String) (h : Lines)
    → values_of k (add_line j v h) ≡ values_of k h ++ (if str_eq j k then v ∷ [] else [])
unfolding values_of
values_of-add_line j k v h = values_of-append k h ((j, v) ∷ [])

-- The values that the map of headers gives for a key
pub listed : (canonical : String → String) → String → List (String × List String) → List String
listed canonical k [] = []
listed canonical k ((j, vs) ∷ hs) =
    (if str_eq (canonical j) k then vs else []) ++ listed canonical k hs

abbrev when : Bool → List String → List String
when b vs = if b then vs else []

module _ (canonical : String → String) (k : String) where
  values_of-add_values :
      (j : String) (vs : List String) (h : Lines)
      → values_of k (add_values canonical j vs h)
        ≡ values_of k h ++ when (str_eq (canonical j) k) vs
  unfolding add_values
  values_of-add_values j [] h = ground (arith, append-nil (values_of k h))
  values_of-add_values j (v ∷ vs) h =
      values_of-add_values j vs (add_line (canonical j) v h)
      ∙ ap (λ l. l ++ when (str_eq (canonical j) k) vs) (values_of-add_line (canonical j) k v h)
      ∙ append_assoc (values_of k h) (when (str_eq (canonical j) k) (v ∷ [])) _
      ∙ ap (λ l. values_of k h ++ l)
          (elim (Bool-cases (str_eq (canonical j) k)) [
            | inl same ↦ rw same refl
            | inr other ↦ rw other refl
          ])

  values_of-add_headers :
      (hs : List (String × List String)) (h : Lines)
      → values_of k (add_headers canonical hs h) ≡ values_of k h ++ listed canonical k hs
  unfolding add_headers listed
  values_of-add_headers [] h = sym (append-nil (values_of k h))
  values_of-add_headers ((j, vs) ∷ hs) h =
      values_of-add_headers hs (add_values canonical j vs h)
      ∙ ap (λ l. l ++ listed canonical k hs) (values_of-add_values j vs h)
      ∙ append_assoc (values_of k h) (when (str_eq (canonical j) k) vs) (listed canonical k hs)

-- The one line that cookies make.
pub cookie_values : List String → List String
cookie_values [] = []
cookie_values (c ∷ cs) = join_strings "; " (c ∷ cs) ∷ []

values_of-add_cookie_other :
    (k : String) (cs : List String) (h : Lines)
    → str_eq "Cookie" k ≡ false
    → values_of k (foldl add_cookie h cs) ≡ values_of k h
unfolding add_cookie
values_of-add_cookie_other k [] h other = refl
values_of-add_cookie_other k (c ∷ cs) h other =
    values_of-add_cookie_other k cs (add_cookie h c) other
    ∙ values_of-set_line "Cookie" k (joined (values_of "Cookie" h) c) h
    ∙ rw other refl

join_strings_assoc :
    (t c : String) (cs : List String)
    → join_strings "; " ((t <> ("; " <> c)) ∷ cs) ≡ join_strings "; " (t ∷ c ∷ cs)
unfolding join_strings
join_strings_assoc t c [] = refl
join_strings_assoc t c (d ∷ cs) =
    Text.append_assoc t ("; " <> c) ("; " <> join_strings "; " (d ∷ cs))
    ∙ ap (λ x. t <> x) (Text.append_assoc "; " c ("; " <> join_strings "; " (d ∷ cs)))

values_of-add_cookie_more :
    (t : String) (cs : List String) (h : Lines)
    → values_of "Cookie" h ≡ t ∷ []
    → values_of "Cookie" (foldl add_cookie h cs) ≡ join_strings "; " (t ∷ cs) ∷ []
unfolding add_cookie join_strings
values_of-add_cookie_more t [] h stands = stands
values_of-add_cookie_more t (c ∷ cs) h stands =
    values_of-add_cookie_more (t <> ("; " <> c)) cs (add_cookie h c) (
      values_of-set_line "Cookie" "Cookie" (joined (values_of "Cookie" h) c) h
      ∙ ap (λ l. joined l c ∷ []) stands)
    ∙ ap (λ x. x ∷ []) (join_strings_assoc t c cs)

values_of-cookies :
    (cs : List String) → values_of "Cookie" (foldl add_cookie [] cs) ≡ cookie_values cs
unfolding add_cookie cookie_values values_of
values_of-cookies [] = refl
values_of-cookies (c ∷ cs) =
    values_of-add_cookie_more c cs (add_cookie [] c) (values_of-set_line "Cookie" "Cookie" c [])

values_of-all_cookies :
    (k : String) (cs : List String)
    → values_of k (foldl add_cookie [] cs) ≡ when (str_eq "Cookie" k) (cookie_values cs)
unfolding values_of
values_of-all_cookies k cs = elim (Bool-cases (str_eq "Cookie" k)) [
  | inl same ↦ rw (← (eq_iff "Cookie" k).0 same) (values_of-cookies cs)
  | inr other ↦ rw other (values_of-add_cookie_other k cs [] other)
]

module _ {P : Type 0} where
  abbrev pub given_payload : RequestOption P → Option (Option P)
  given_payload (with_payload body) = some body
  given_payload f = none

  abbrev pub given_type : RequestOption P → Option (Option String)
  given_type (with_content_type content_type) = some (some content_type)
  given_type f = none

  abbrev pub given_headers : RequestOption P → Option (List (String × List String))
  given_headers (with_headers headers) = some headers
  given_headers f = none

  abbrev pub given_cookies : RequestOption P → Option (List String)
  given_cookies (with_cookies cookies) = some cookies
  given_cookies f = none

  -- No content type is the empty text.
  abbrev pub IsTyped : RequestOption P → Type 0
  IsTyped (with_content_type content_type) = str_eq content_type "" ≡ false
  IsTyped f = Unit

  abbrev resolved : List (RequestOption P) → RequestOpts P → RequestOpts P
  resolved fs o = record {
    body = last_given given_payload o.body fs;
    content_type = last_given given_type o.content_type fs;
    cookies = last_given given_cookies o.cookies fs;
    headers = last_given given_headers o.headers fs;
  }

  apply_requests-resolved :
      (fs : List (RequestOption P)) (o : RequestOpts P)
      → All IsTyped fs
      → apply_requests fs o ≡ ok (resolved fs o)
  unfolding apply_requests apply_request last_given
  apply_requests-resolved [] o h = refl
  apply_requests-resolved (with_payload body ∷ fs) o h = apply_requests-resolved fs _ h.1
  apply_requests-resolved (with_content_type t ∷ fs) o h =
      rw (apply_requests, apply_request, h.0) (apply_requests-resolved fs _ h.1)
  apply_requests-resolved (with_headers headers ∷ fs) o h = apply_requests-resolved fs _ h.1
  apply_requests-resolved (with_cookies cookies ∷ fs) o h = apply_requests-resolved fs _ h.1

  -- The text of a payload as the body
  abbrev pub IsText : (P → Try String) → Option P → String → Type 0
  IsText json_encode none text = text ≡ ""
  IsText json_encode (some body) text = json_encode body ≡ ok text

  -- The lines of a key that Request sets by itself
  abbrev pub own_lines : String → List (RequestOption P) → List String
  own_lines k opts =
      if str_eq "Content-Type" k
      then Option.get_or (last_given given_type none opts) "application/json" ∷ []
      else if str_eq "Cookie" k
      then cookie_values (last_given given_cookies [] opts)
      else []

content_type_or_lem : (t : Option String) → content_type_or t ≡ Option.get_or t "application/json"
content_type_or_lem none = refl
content_type_or_lem (some t) = refl

module _ {P : Type 0} (canonical : String → String) where
  abbrev own_values : String → RequestOpts P → List String
  own_values k o =
      if str_eq "Content-Type" k
      then content_type_or o.content_type ∷ []
      else if str_eq "Cookie" k
      then cookie_values o.cookies
      else []

  values_of-header_of :
      (k : String) (o : RequestOpts P)
      → values_of k (header_of canonical o) ≡ own_values k o ++ listed canonical k o.headers
  unfolding header_of
  values_of-header_of k o =
      let cookies = foldl add_cookie [] o.cookies in
      values_of-add_headers canonical k o.headers
        (set_line "Content-Type" (content_type_or o.content_type) cookies)
      ∙ ap (λ l. l ++ listed canonical k o.headers)
          (values_of-set_line "Content-Type" k (content_type_or o.content_type) cookies
            ∙ ap (λ l. if str_eq "Content-Type" k then content_type_or o.content_type ∷ [] else l)
                (values_of-all_cookies k o.cookies))

  module _ (json_encode : P → Try String) (new_request : String → Url → Option GoError) where
    payload_of-IsText :
        (body : Option P) (text : String)
        → IsText json_encode body text
        → payload_of canonical json_encode new_request body ≡ ok text
    payload_of-IsText none text h = ap (λ t. ok t) (sym h)
    payload_of-IsText (some body) text h =
        ap (λ r. elim r [ ok t ↦ ok t | err e ↦ err (wrap "encoding request payload: " e) ]) h

    -- Where no content type given is empty, the last payload given encodes to `text`, and net/http
    -- accepts the method and the URL, Request builds a request with the method, GET if it is empty,
    -- that URL, and that text as its body, or no body without a payload. For each key the request
    -- has first what Request sets by itself: the last content type given or application/json, and
    -- one Cookie line with all cookies of the last WithCookies in order; and then the values that
    -- the last WithHeaders gives, in their order.
    pub request-values_of :
        (req_url : Url) (method : String) (opts : List (RequestOption P)) (text : String)
        → All IsTyped opts
        → IsText json_encode (last_given given_payload none opts) text
        → new_request method req_url ≡ none
        → (r : Outgoing) × (request canonical json_encode new_request req_url method opts ≡ ok r)
          × (r.method ≡ (if str_eq method "" then "GET" else method))
          × (r.url ≡ req_url)
          × (r.body ≡ text)
          × ((k : String)
              → values_of k r.header
                ≡ own_lines k opts ++ listed canonical k (last_given given_headers [] opts))
    unfolding request
    request-values_of req_url method opts text typed encodes accepted =
        let o = resolved opts no_request_opts in
        (
          record {
            method = method_or_get method;
            url = req_url;
            body = text;
            header = header_of canonical o;
          },
          ap (with_settings canonical json_encode new_request method req_url)
                (apply_requests-resolved opts no_request_opts typed)
              ∙ ap (instantiate canonical json_encode new_request method req_url o)
                  (payload_of-IsText (last_given given_payload none opts) text encodes)
              ∙ rw (accepted, instantiate) refl,
          refl,
          refl,
          refl,
          λ k.
              values_of-header_of k o
              ∙ rw (content_type_or_lem (last_given given_type none opts)) refl,
        )
