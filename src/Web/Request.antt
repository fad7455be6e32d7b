-- ===== src/Web/Request.antt =====
-- web/request.go. The path values of a request are those that net/http's mux matched; the query is
-- read from the URL as net/url does, with its QueryUnescape as the argument `unescape`. `quote` is
-- strconv.Quote.
pub mod Laws
mod Tests
pub mod Answers
use httper.Base.{
  ℕ, String, ◌<>◌, Bool, true, false, ◌||◌, Option, none, some, List, [], ◌∷◌, str_eq,
  if◌then◌else◌, any, ℤ, contains_char, split, cut,
}
use httper.GoError.{GoError, message, new, wrap, Try, ok, err}
use httper.Base.Text.Decimal.{Parsed, parsed, refused, NumErr, syntax_err, range_err, parse_int}
use httper.Web.Validate.{Verdict, validate}

abbrev pub Pairs : Type 0
Pairs = List (String × String)

-- The first value of a key, "" where there is none: (*Request).PathValue and Values.Get
unfoldable pub first_value : String → Pairs → String
first_value k [] = ""
first_value k ((j, v) ∷ m) = if str_eq j k then v else first_value k m

abbrev pub err_syntax : GoError
err_syntax = new 11 "invalid syntax"

-- The pointer of strconv.ErrRange
abbrev pub out_of_range : ℕ
out_of_range = 12

abbrev pub err_range : GoError
err_range = new out_of_range "value out of range"

abbrev cause : NumErr → GoError
cause syntax_err = err_syntax
cause range_err = err_range

module _ (unescape : String → Option String) where
  abbrev pub unescaped : Option String → Option String → Pairs → Pairs
  unescaped (some k) (some v) m = (k, v) ∷ m
  unescaped _ _ m = m

  -- One part of a query behind the split at `&`: url.ParseQuery leaves it out where it is empty,
  -- holds a semicolon, or does not unescape.
  abbrev pub add_part : String → Pairs → Pairs
  add_part part m =
      if contains_char b';' part || str_eq part ""
      then m
      else (let (k, v) = cut b'=' part in unescaped (unescape k) (unescape v) m)

  unfoldable pub parse_parts : List String → Pairs
  unfolding contains_char cut
  parse_parts [] = []
  parse_parts (part ∷ parts) = add_part part (parse_parts parts)

  -- (*URL).Query
  unfoldable pub query_values : String → Pairs
  unfolding parse_parts split
  query_values raw_query = parse_parts (split b'&' raw_query)

abbrev is_one_of : String → List String → Bool
is_one_of s texts = any (λ t. str_eq s t) texts

-- strconv.ParseBool; it has no range
unfoldable pub parse_bool : String → Parsed Bool
parse_bool s =
    if is_one_of s ("1" ∷ "t" ∷ "T" ∷ "true" ∷ "TRUE" ∷ "True" ∷ [])
    then parsed true
    else if is_one_of s ("0" ∷ "f" ∷ "F" ∷ "false" ∷ "FALSE" ∷ "False" ∷ [])
    then parsed false
    else refused syntax_err

abbrev param_text : (what key text : String) → String
param_text what key text = what <> (" param[" <> (key <> ("]" <> text)))

-- What Param, ParamInt and ParamInt64 share with the readers of the query: an empty value is
-- missing.
abbrev present {ℓ} : {A : Type ℓ} → (what key absent value : String) → Try A → Try A
present what key absent value found =
    if str_eq value "" then err (message (param_text what key absent)) else found

-- Param, on the path values of the request
unfoldable pub param : Pairs → String → Try String
unfolding first_value
param path_values key =
    let value = first_value key path_values in present "path" key " not found" value (ok value)

-- QueryString, on the values of the query
unfoldable pub query_string : Pairs → String → Try String
unfolding first_value
query_string query key =
    let value = first_value key query in present "query" key " is empty" value (ok value)

module _ (quote : String → String) where
  -- A *strconv.NumError
  abbrev num_error : (fn text : String) → NumErr → GoError
  num_error fn text e =
      wrap ("strconv." <> (fn <> (": parsing " <> (quote text <> ": ")))) (cause e)

  abbrev converted {ℓ} : {A : Type ℓ} → (what key kind fn text : String) → Parsed A → Try A
  converted what key kind fn text (parsed a) = ok a
  converted what key kind fn text (refused e) =
      err (wrap (param_text what key (" must be " <> (kind <> ": "))) (num_error fn text e))

  abbrev read_int : (what kind fn : String) → Pairs → String → Try ℤ
  read_int what kind fn values key =
      let value = first_value key values in
      present what key " not found" value (converted what key kind fn value (parse_int value))

  -- ParamInt; an int has 64 bits
  unfoldable pub param_int : Pairs → String → Try ℤ
  unfolding first_value
  param_int = read_int "path" "integer" "Atoi"

  -- ParamInt64
  unfoldable pub param_int64 : Pairs → String → Try ℤ
  unfolding first_value
  param_int64 = read_int "path" "integer" "ParseInt"

  -- QueryInt
  unfoldable pub query_int : Pairs → String → Try ℤ
  unfolding first_value
  query_int = read_int "query" "integer" "Atoi"

  -- QueryInt64
  unfoldable pub query_int64 : Pairs → String → Try ℤ
  unfolding first_value
  query_int64 = read_int "query" "int64" "ParseInt"

  -- QueryBool
  unfoldable pub query_bool : Pairs → String → Try Bool
  unfolding first_value parse_bool
  query_bool query key =
      let value = first_value key query in
      present "query" key " not found" value
        (converted "query" key "boolean" "ParseBool" value (parse_bool value))

-- `json_decode` is the Decode of a json.Decoder on the body, with DisallowUnknownFields or not: its
-- error, and the value that it leaves. `check` is validate.Struct.
module _ {V : Type 0} (json_decode : (disallow_unknown : Bool) → V → Option GoError × V)
    (check : V → Verdict) where
  abbrev decoded : Option GoError × V → Option GoError × V
  decoded (some e, v) = (some (wrap "decode: " e), v)
  decoded (none, v) = (validate (check v), v)

  -- Decode
  unfoldable pub decode : V → Option GoError × V
  decode val = decoded (json_decode true val)

  -- DecodeAllowUnknownFields
  unfoldable pub decode_allow_unknown_fields : V → Option GoError × V
  decode_allow_unknown_fields val = decoded (json_decode false val)
