-- ===== src/Client/Request/Tests.antt =====
-- A request with a payload, two cookies and a header.
use httper.Client.Request.{
  with_payload, RequestOption, with_content_type, with_cookies, with_headers, values_of, Outgoing,
  request,
}
use httper.Base.{last_given, some, List, String, ◌≡◌, refl, Option, none, [], ◌∷◌, ◌++◌}
use httper.GoError.{GoError, ok}
use httper.Client.Url.{Url}
use httper.Client.Request.Laws.{request-values_of, own_lines, listed}

abbrev target : Url
target = record { scheme = "https"; host = "example.com"; path = "/users"; raw_query = "" }

abbrev canonical : String → String
canonical k = k

abbrev no_error : String → Url → Option GoError
no_error method u = none

abbrev sent : List (RequestOption String)
sent =
    with_payload (some "{}")
    ∷ with_content_type "application/merge-patch+json"
    ∷ with_cookies ("a=1" ∷ "b=2" ∷ [])
    ∷ with_headers (("Cookie", "c=3" ∷ []) ∷ [])
    ∷ []

request-values_of_example :
    (r : Outgoing) × (request canonical (λ s. ok s) no_error target "POST" sent ≡ ok r)
    × (r.method ≡ "POST")
    × (r.url ≡ target)
    × (r.body ≡ "{}")
    × ((k : String)
        → values_of k r.header
          ≡ own_lines k sent ++ listed canonical k (("Cookie", "c=3" ∷ []) ∷ []))
unfolding last_given
request-values_of_example =
    request-values_of canonical (λ s. ok s) no_error target "POST" sent "{}"
      (tt, (refl, (tt, (tt, tt)))) refl refl
