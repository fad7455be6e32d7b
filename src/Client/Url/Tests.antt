-- ===== src/Client/Url/Tests.antt =====
-- A search, with a query of two parameters.
use mathlib.Core.List.{Permᴰ}
use httper.Client.Url.Order.{url-Permᴰ}
use httper.Base.{String, ◌≡◌, refl, false, contains_char, Option, some, [], ◌∷◌, ◌++◌, pos}
use httper.Client.Url.{Entries, with_port, with_query_strings, url}
use httper.Client.Url.RoundTrip.{first_value-url, Survives}
use httper.Web.Request.{first_value, query_values}

abbrev entries : Entries
entries = ("q", "go") ∷ ("page", "2") ∷ []

-- Letters and digits stand for themselves.
abbrev escape : String → String
escape s = s

abbrev unescape : String → Option String
unescape s = some s

survives :
    (s : String)
    → contains_char b'&' s ≡ false
    → contains_char b';' s ≡ false
    → contains_char b'=' s ≡ false
    → Survives escape unescape s
survives s amp semi eq = record {
  restored = refl;
  no_ampersand = amp;
  no_semicolon = semi;
  no_equals = eq;
}

first_value-url_example :
    first_value "page" (
      query_values unescape
        (url escape "https" "example.com" "/search"
          (with_port (pos 8080) ∷ [] ++ with_query_strings (some entries) ∷ [])).raw_query)
    ≡ first_value "page" entries
unfolding contains_char
first_value-url_example =
    first_value-url escape unescape "https" "example.com" "/search" (with_port (pos 8080) ∷ [])
      entries "page" ((refl, tt), (tt, tt))
      (
        (survives "q" refl refl refl, survives "go" refl refl refl),
        ((survives "page" refl refl refl, survives "2" refl refl refl), tt),
      )

abbrev reordered : Entries
reordered = ("page", "2") ∷ ("q", "go") ∷ []

url-Permᴰ_example :
    url escape "https" "example.com" "/search" ([] ++ with_query_strings (some entries) ∷ [])
    ≡ url escape "https" "example.com" "/search" ([] ++ with_query_strings (some reordered) ∷ [])
url-Permᴰ_example =
    url-Permᴰ escape "https" "example.com" "/search" [] {m = entries} {m' = reordered}
      (Permᴰ.swap refl refl) ((refl, tt), (tt, tt))
