-- ===== src/Client/Url/RoundTrip.antt =====
-- The query that URL writes, read by the server's side.
use httper.Base.{
  str_leb, foldl-append, str_ne, map, none, true, ◌++◌, ℕ, String, ◌<>◌, ◌≡◌, refl, ap, ◌∙◌, ◌≢◌,
  inl, inr, false, Option, some, List, [], ◌∷◌, arith, str_eq, eq_iff, ◌==◌, if◌then◌else◌,
  Bool-cases, All, contains_char, split, join_strings, cut,
}
use httper.Base.Text.Split.{one-append, contains_char-append, split-join_strings, cut-append}
use httper.Client.Url.{
  raw_query_of, UrlOpts, Entries, UrlOption, with_query_strings, apply_url, insert_entry,
  sort_entries, encode_entry, encode, url,
}
use httper.Web.Request.{Pairs, first_value, parse_parts, query_values, add_part}

-- The keys of the entries differ.
abbrev pub IsDistinct : Entries → Type 0
IsDistinct [] = Unit
IsDistinct ((k, v) ∷ m) = All (λ e. str_eq e.0 k ≡ false) m × IsDistinct m

first_value-insert_entry :
    (q k v : String) (m : Entries)
    → All (λ e. str_eq e.0 k ≡ false) m
    → first_value q (insert_entry (k, v) m) ≡ (if str_eq k q then v else first_value q m)
unfolding first_value insert_entry
first_value-insert_entry q k v [] h = refl
first_value-insert_entry q k v ((j, u) ∷ m) h = elim (Bool-cases (str_leb k j)) [
  | inl before ↦ rw before refl
  | inr behind ↦
      rw behind
        (ground (arith, eq_iff j q, eq_iff k q, eq_iff j k, first_value-insert_entry q k v m h.1))
]

All-insert_entry :
    (P : String × String → Type 0) (e : String × String) (m : Entries)
    → P e
    → All P m
    → All P (insert_entry e m)
unfolding insert_entry
All-insert_entry P e [] p h = (p, h)
All-insert_entry P e (f ∷ m) p h = elim (Bool-cases (str_leb e.0 f.0)) [
  | inl before ↦ rw before (p, h)
  | inr behind ↦ rw behind (h.0, All-insert_entry P e m p h.1)
]

All-sort_entries : (P : String × String → Type 0) (m : Entries) → All P m → All P (sort_entries m)
unfolding sort_entries
All-sort_entries P [] h = h
All-sort_entries P (e ∷ m) h = All-insert_entry P e (sort_entries m) h.0 (All-sort_entries P m h.1)

-- The order does not matter to a reader.
first_value-sort_entries :
    (q : String) (m : Entries) → IsDistinct m → first_value q (sort_entries m) ≡ first_value q m
unfolding sort_entries first_value
first_value-sort_entries q [] h = refl
first_value-sort_entries q ((k, v) ∷ m) h =
    first_value-insert_entry q k v (sort_entries m) (All-sort_entries _ m h.0)
    ∙ ap (λ x. if str_eq k q then v else x) (first_value-sort_entries q m h.1)

module _ (escape : String → String) (unescape : String → Option String) where
  -- What net/url's documentation says of escaping, for one text: it is restored, and its escaped
  -- form has no character that separates the parts of a query.
  pub record Survives (s : String) : Type 0 where
    pub restored : unescape (escape s) ≡ some s
    pub no_ampersand : contains_char b'&' (escape s) ≡ false
    pub no_semicolon : contains_char b';' (escape s) ≡ false
    pub no_equals : contains_char b'=' (escape s) ≡ false

  abbrev pub EntrySurvives : String × String → Type 0
  EntrySurvives (k, v) = Survives k × Survives v

  no_separator :
      (c : ℕ) (k v : String)
      → (b'=' == c) ≡ false
      → contains_char c (escape k) ≡ false
      → contains_char c (escape v) ≡ false
      → contains_char c (encode_entry escape (k, v)) ≡ false
  unfolding contains_char
  no_separator c k v other hk hv =
      rw (contains_char-append c (escape k) ("=" <> escape v), hk)
        (rw (one-append "=" (escape v), other) hv)

  has_equals : (k v : String) → contains_char b'=' (encode_entry escape (k, v)) ≡ true
  unfolding contains_char
  has_equals k v =
      rw (contains_char-append b'=' (escape k) ("=" <> escape v), one-append "=" (escape v))
        (ground arith)

  encode_entry-ne-empty : (k v : String) → encode_entry escape (k, v) ≢ ""
  unfolding contains_char
  encode_entry-ne-empty k v h = absurd (cc (ap (contains_char b'=') h, has_equals k v))

  cut-encode_entry :
      (k v : String) → Survives k → cut b'=' (encode_entry escape (k, v)) ≡ (escape k, escape v)
  cut-encode_entry k v sk =
      ap (λ t. cut b'=' (escape k <> t)) (one-append "=" (escape v))
      ∙ cut-append b'=' "=" (escape k) (escape v) refl sk.no_equals

  add_part-encode_entry :
      (k v : String) (m : Pairs)
      → Survives k
      → Survives v
      → add_part unescape (encode_entry escape (k, v)) m ≡ (k, v) ∷ m
  add_part-encode_entry k v m sk sv =
      rw
        (
          no_separator b';' k v refl sk.no_semicolon sv.no_semicolon,
          str_ne (encode_entry escape (k, v)) "" (encode_entry-ne-empty k v),
          cut-encode_entry k v sk,
          sk.restored,
          sv.restored,
        )
        refl

  parse_parts-encode_entry :
      (m : Entries) → All EntrySurvives m → parse_parts unescape (map (encode_entry escape) m) ≡ m
  unfolding parse_parts
  parse_parts-encode_entry [] h = refl
  parse_parts-encode_entry ((k, v) ∷ m) h =
      add_part-encode_entry k v (parse_parts unescape (map (encode_entry escape) m)) h.0.0 h.0.1
      ∙ ap (λ l. (k, v) ∷ l) (parse_parts-encode_entry m h.1)

  All-no_ampersand :
      (m : Entries)
      → All EntrySurvives m
      → All (λ t. contains_char b'&' t ≡ false) (map (encode_entry escape) m)
  All-no_ampersand [] h = tt
  All-no_ampersand ((k, v) ∷ m) h =
      (no_separator b'&' k v refl h.0.0.no_ampersand h.0.1.no_ampersand, All-no_ampersand m h.1)

  split-encode_entry :
      (e : String × String) (m : Entries)
      → All EntrySurvives (e ∷ m)
      → split b'&' (join_strings "&" (map (encode_entry escape) (e ∷ m)))
        ≡ map (encode_entry escape) (e ∷ m)
  split-encode_entry e m h =
      let plain = All-no_ampersand (e ∷ m) h in
      split-join_strings b'&' "&" (encode_entry escape e) (map (encode_entry escape) m) refl plain.0
        plain.1

  query_values-sorted :
      (m : Entries)
      → All EntrySurvives m
      → query_values unescape (join_strings "&" (map (encode_entry escape) m)) ≡ m
  unfolding query_values join_strings
  query_values-sorted [] h = refl
  query_values-sorted (e ∷ m) h =
      ap (parse_parts unescape) (split-encode_entry e m h) ∙ parse_parts-encode_entry (e ∷ m) h

  query_values-encode :
      (m : Entries) → All EntrySurvives m → query_values unescape (encode escape m) ≡ sort_entries m
  unfolding encode
  query_values-encode m h =
      query_values-sorted (sort_entries m) (All-sort_entries EntrySurvives m h)

  raw_query-with_query_strings :
      (scheme host path : String) (opts : List UrlOption) (m : Entries)
      → (url escape scheme host path (opts ++ with_query_strings (some m) ∷ [])).raw_query
        ≡ encode escape m
  unfolding url apply_url
  raw_query-with_query_strings scheme host path opts m =
      ap (λ o. raw_query_of escape (UrlOpts.query_strings o))
        (foldl-append apply_url (record { query_strings = none; port = none }) opts
          (with_query_strings (some m) ∷ []))

  -- The query of a URL that the client builds from a map is read back by the server: for each key
  -- the value that the map has for it, and the empty text for any other key. The options before
  -- the last WithQueryStrings do not matter. The texts must survive the escaping of net/url.
  pub first_value-url :
      (scheme host path : String) (opts : List UrlOption) (m : Entries) (key : String)
      → IsDistinct m
      → All EntrySurvives m
      → first_value key (
          query_values unescape
            (url escape scheme host path (opts ++ with_query_strings (some m) ∷ [])).raw_query)
        ≡ first_value key m
  first_value-url scheme host path opts m key distinct survives =
      ap (λ t. first_value key (query_values unescape t))
        (raw_query-with_query_strings scheme host path opts m)
      ∙ ap (first_value key) (query_values-encode m survives)
      ∙ first_value-sort_entries key m distinct
