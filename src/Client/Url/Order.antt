-- ===== src/Client/Url/Order.antt =====
-- The order in which the map of query parameters is gone through does not matter.
use httper.Client.Url.{
  Url, host_of, raw_query_of, encode_entry, apply_url, UrlOpts, with_query_strings, UrlOption,
  encode, url, sort_entries, Entries, insert_entry,
}
use httper.Base.{
  foldl-append, foldl, sym, none, some, join_strings, map, ◌++◌, All, subst, ap, ◌∙◌, refl, List,
  arith, str_leb, String, ◌≡◌, inl, inr, true, false, [], ◌∷◌, str_eq, eq_iff, Bool-cases,
}
use httper.Client.Url.RoundTrip.{IsDistinct}
use mathlib.Core.List.{Permᴰ}
use httper.Base.Text.Order.{str_leb_total, str_leb_trans, str_leb_antisym}

abbrev Differ : String × String → String × String → Type 0
Differ d e = str_eq d.0 e.0 ≡ false

ne-swap : (d e : String × String) → str_leb d.0 e.0 ≡ true → Differ d e → str_leb e.0 d.0 ≡ false
ne-swap d e h other = elim (Bool-cases (str_leb e.0 d.0)) [
  | inl both ↦ absurd (cc (other, (eq_iff d.0 e.0).1 (str_leb_antisym d.0 e.0 h both)))
  | inr fine ↦ fine
]

insert_entry_comm :
    (d e : String × String) (m : Entries)
    → Differ d e
    → insert_entry d (insert_entry e m) ≡ insert_entry e (insert_entry d m)
unfolding insert_entry
insert_entry_comm d e [] other = ground (arith, ne-swap d e, str_leb_total d.0 e.0)
insert_entry_comm d e (f ∷ m) other = ground (
  arith,
  ne-swap d e,
  str_leb_total d.0 e.0,
  str_leb_trans d.0 e.0 f.0,
  str_leb_trans e.0 d.0 f.0,
  insert_entry_comm d e m other,
)

Differ-sym : (d e : String × String) → Differ d e → Differ e d
Differ-sym d e other = ground (arith, eq_iff d.0 e.0, eq_iff e.0 d.0)

All-Permᴰ : (P : String × String → Type 0) {m m' : Entries} → Permᴰ m m' → All P m → All P m'
All-Permᴰ P Permᴰ.nil h = h
All-Permᴰ P (Permᴰ.cons e p) h = (subst P e h.0, All-Permᴰ P p h.1)
All-Permᴰ P (Permᴰ.swap e e') h = (subst P e' h.1.0, (subst P e h.0, h.1.1))
All-Permᴰ P (Permᴰ.trans p p') h = All-Permᴰ P p' (All-Permᴰ P p h)

IsDistinct-Permᴰ : {m m' : Entries} → Permᴰ m m' → IsDistinct m → IsDistinct m'
IsDistinct-Permᴰ Permᴰ.nil h = h
IsDistinct-Permᴰ (Permᴰ.cons {l₂ = l} e p) h =
    subst (λ x. IsDistinct (x ∷ l)) e (All-Permᴰ _ p h.0, IsDistinct-Permᴰ p h.1)
IsDistinct-Permᴰ (Permᴰ.swap {a} {b} {a'} {b'} {l} e e') h =
    subst (λ x. IsDistinct (x ∷ b' ∷ l)) e'
      (subst (λ x. IsDistinct (b ∷ x ∷ l)) e ((Differ-sym b a h.0.0, h.1.0), (h.0.1, h.1.1)))
IsDistinct-Permᴰ (Permᴰ.trans p p') h = IsDistinct-Permᴰ p' (IsDistinct-Permᴰ p h)

sort_entries-Permᴰ : {m m' : Entries} → Permᴰ m m' → IsDistinct m → sort_entries m ≡ sort_entries m'
unfolding sort_entries
sort_entries-Permᴰ Permᴰ.nil h = refl
sort_entries-Permᴰ (Permᴰ.cons {a} {b} {l₁} {l₂} e p) h =
    ap (λ x. insert_entry x (sort_entries l₁)) e ∙ ap (insert_entry b) (sort_entries-Permᴰ p h.1)
sort_entries-Permᴰ (Permᴰ.swap {a} {b} {a'} {b'} {l} e e') h =
    insert_entry_comm a b (sort_entries l) (Differ-sym b a h.0.0)
    ∙ ap (λ x. insert_entry x (insert_entry a (sort_entries l))) e'
    ∙ ap (λ x. insert_entry a' (insert_entry x (sort_entries l))) e
sort_entries-Permᴰ (Permᴰ.trans p p') h =
    sort_entries-Permᴰ p h ∙ sort_entries-Permᴰ p' (IsDistinct-Permᴰ p h)

encode-Permᴰ :
    (escape : String → String) {m m' : Entries}
    → Permᴰ m m'
    → IsDistinct m
    → encode escape m ≡ encode escape m'
unfolding encode
encode-Permᴰ escape p distinct =
    ap (λ l. join_strings "&" (map (encode_entry escape) l)) (sort_entries-Permᴰ p distinct)

module _ (escape : String → String) (scheme host path : String) (opts : List UrlOption) where
  -- The URL of options that end in WithQueryStrings, by the text of its query
  abbrev with_query : String → Url
  with_query raw_query = record {
    scheme = scheme;
    host =
        host_of escape host
          (foldl apply_url (record { query_strings = none; port = none }) opts).port;
    path = path;
    raw_query = raw_query;
  }

  url-with_query :
      (m : Entries)
      → url escape scheme host path (opts ++ with_query_strings (some m) ∷ [])
        ≡ with_query (encode escape m)
  unfolding url apply_url
  url-with_query m =
      ap
        (λ o. record {
          scheme = scheme;
          host = host_of escape host (UrlOpts.port o);
          path = path;
          raw_query = raw_query_of escape (UrlOpts.query_strings o);
        })
        (foldl-append apply_url (record { query_strings = none; port = none }) opts
          (with_query_strings (some m) ∷ []))

  -- Two lists of the same entries, whose keys differ, make the same URL: the order in which the map
  -- of WithQueryStrings is gone through does not matter.
  pub url-Permᴰ :
      {m m' : Entries}
      → Permᴰ m m'
      → IsDistinct m
      → url escape scheme host path (opts ++ with_query_strings (some m) ∷ [])
        ≡ url escape scheme host path (opts ++ with_query_strings (some m') ∷ [])
  url-Permᴰ {m} {m'} p distinct =
      url-with_query m ∙ ap with_query (encode-Permᴰ escape p distinct) ∙ sym (url-with_query m')
