-- ===== src/Client/Url.antt =====
-- URL of client/client.go, with the options of client/options.go. url.Values.Encode is net/url's,
-- with its QueryEscape as the argument `escape`.
pub mod RoundTrip
pub mod Order
mod Tests
use httper.Base.{
  str_leb, String, ◌<>◌, Option, none, some, List, [], ◌∷◌, map, foldl, if◌then◌else◌, ℤ,
  join_strings, show_ℤ,
}

-- A map[string]string by its entries, whose keys differ.
abbrev pub Entries : Type 0
Entries = List (String × String)

-- A url.URL, with the fields that the package sets
pub record Url : Type 0 where
  pub scheme : String
  pub host : String
  pub path : String
  pub raw_query : String

pub data UrlOption : Type 0 where
  with_query_strings : Option Entries → UrlOption
  with_port : ℤ → UrlOption

pub record UrlOpts : Type 0 where
  pub query_strings : Option Entries
  pub port : Option ℤ

unfoldable pub apply_url : UrlOpts → UrlOption → UrlOpts
apply_url o (with_query_strings kv) = record o { query_strings = kv }
apply_url o (with_port port) = record o { port = some port }

-- Encode goes through the keys in their order.
insert_entry : String × String → Entries → Entries
insert_entry e [] = e ∷ []
insert_entry e (f ∷ m) = if str_leb e.0 f.0 then e ∷ f ∷ m else f ∷ insert_entry e m

pub sort_entries : Entries → Entries
unfolding insert_entry
sort_entries [] = []
sort_entries (e ∷ m) = insert_entry e (sort_entries m)

module _ (escape : String → String) where
  abbrev pub encode_entry : String × String → String
  encode_entry (k, v) = escape k <> ("=" <> escape v)

  -- Values.Encode, of values with one entry for each key
  unfoldable pub encode : Entries → String
  unfolding sort_entries
  encode m = join_strings "&" (map encode_entry (sort_entries m))

  abbrev raw_query_of : Option Entries → String
  raw_query_of none = ""
  raw_query_of (some m) = encode m

  abbrev host_of : String → Option ℤ → String
  host_of host none = host
  host_of host (some port) = host <> (":" <> show_ℤ port)

  -- URL
  unfoldable pub url : (scheme host path : String) → List UrlOption → Url
  unfolding encode apply_url
  url scheme host path opts =
      let settings = foldl apply_url (record { query_strings = none; port = none }) opts in
      record {
        scheme = scheme;
        host = host_of host settings.port;
        path = path;
        raw_query = raw_query_of settings.query_strings;
      }
