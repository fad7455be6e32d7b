-- ===== src/Web/Request/Laws.antt =====
-- Which values the readers of a request accept.
use httper.Base.Text.Decimal.Past.{parse_int-past}
use httper.Base.Text.Decimal.{range_err, Parsed, parsed, refused, parse_int}
use httper.Web.Request.{
  out_of_range, param_int64, query_int, param_int, query_int64, Pairs, first_value, converted,
  read_int,
}
use httper.GoError.{Try, err, is_error, ok}
use httper.Base.{true, show_ℤ, ◌⊎◌, String, ◌≡◌, refl, ◌≢◌, inl, inr, str_eq, Bool-cases, ℤ, str_ne}
use httper.Base.Text.Decimal.Laws.{IsInt64, parse_int-IsInt64, parse_int-show_ℤ}

module _ (quote : String → String) (what kind fn : String) (values : Pairs) (key : String) where
  read_int-parsed :
      (v : ℤ)
      → first_value key values ≢ ""
      → parse_int (first_value key values) ≡ parsed v
      → read_int quote what kind fn values key ≡ ok v
  read_int-parsed v there reads = rw (str_ne (first_value key values) "" there, reads) refl

  parsed-read_int :
      (r : Parsed ℤ) {v : ℤ}
      → converted quote what key kind fn (first_value key values) r ≡ ok v
      → r ≡ parsed v
  parsed-read_int (parsed a) h = cc
  parsed-read_int (refused e) h = cc

  read_int-inv :
      {v : ℤ}
      → read_int quote what kind fn values key ≡ ok v
      → parse_int (first_value key values) ≡ parsed v
  read_int-inv {v} h = elim (Bool-cases (str_eq (first_value key values) "")) [
    | inl empty ↦ cc (rw empty at h)
    | inr there ↦ parsed-read_int (parse_int (first_value key values)) (rw there at h)
  ]

-- An error that wraps strconv.ErrRange
abbrev pub IsOutOfRange : Try ℤ → Type 0
IsOutOfRange (ok n) = ⊥
IsOutOfRange (err e) = is_error e out_of_range ≡ true

module _ (quote : String → String) (values : Pairs) (key : String) (v : ℤ) where
  read_int-refused :
      (what kind fn : String)
      → first_value key values ≢ ""
      → parse_int (first_value key values) ≡ refused range_err
      → IsOutOfRange (read_int quote what kind fn values key)
  unfolding is_error
  read_int-refused what kind fn there reads =
      rw (str_ne (first_value key values) "" there, reads) refl

  past-IsOutOfRange :
      (what kind fn : String)
      → first_value key values ≡ show_ℤ v
      → (IsInt64 v → ⊥)
      → IsOutOfRange (read_int quote what kind fn values key)
  unfolding parse_int
  past-IsOutOfRange what kind fn stands past =
      let reads : parse_int (first_value key values) ≡ refused range_err =
        rw stands (parse_int-past v past) in
      read_int-refused what kind fn (λ empty. cc (rw empty at reads)) reads

  -- A value that is the decimal text of an integer of more than 64 bits is refused by ParamInt,
  -- ParamInt64, QueryInt and QueryInt64, with an error that wraps strconv.ErrRange.
  pub int_readers-IsOutOfRange :
      first_value key values ≡ show_ℤ v
      → (IsInt64 v → ⊥)
      → IsOutOfRange (param_int quote values key)
        × IsOutOfRange (param_int64 quote values key)
        × IsOutOfRange (query_int quote values key)
        × IsOutOfRange (query_int64 quote values key)
  unfolding param_int param_int64 query_int query_int64
  int_readers-IsOutOfRange stands past = (
    past-IsOutOfRange "path" "integer" "Atoi" stands past,
    past-IsOutOfRange "path" "integer" "ParseInt" stands past,
    past-IsOutOfRange "query" "integer" "Atoi" stands past,
    past-IsOutOfRange "query" "int64" "ParseInt" stands past,
  )

  show_ℤ-ne-empty : IsInt64 v → show_ℤ v ≢ ""
  unfolding parse_int
  show_ℤ-ne-empty fits h = cc (rw h at (parse_int-show_ℤ v fits))

  reads-show_ℤ :
      (what kind fn : String)
      → first_value key values ≡ show_ℤ v
      → IsInt64 v
      → read_int quote what kind fn values key ≡ ok v
  reads-show_ℤ what kind fn stands fits =
      read_int-parsed quote what kind fn values key v (rw stands (show_ℤ-ne-empty fits))
        (rw stands (parse_int-show_ℤ v fits))

  -- A value that is the decimal text of a number of 64 bits is read back as that number, by
  -- ParamInt and ParamInt64 from the path, by QueryInt and QueryInt64 from the query.
  pub int_readers-show_ℤ :
      first_value key values ≡ show_ℤ v
      → IsInt64 v
      → (param_int quote values key ≡ ok v)
        × (param_int64 quote values key ≡ ok v)
        × (query_int quote values key ≡ ok v)
        × (query_int64 quote values key ≡ ok v)
  unfolding param_int param_int64 query_int query_int64
  int_readers-show_ℤ stands fits = (
    reads-show_ℤ "path" "integer" "Atoi" stands fits,
    reads-show_ℤ "path" "integer" "ParseInt" stands fits,
    reads-show_ℤ "query" "integer" "Atoi" stands fits,
    reads-show_ℤ "query" "int64" "ParseInt" stands fits,
  )

  read_int-IsInt64 :
      (what kind fn : String) → read_int quote what kind fn values key ≡ ok v → IsInt64 v
  read_int-IsInt64 what kind fn h =
      parse_int-IsInt64 (first_value key values) (read_int-inv quote what kind fn values key h)

  -- A number that ParamInt, ParamInt64, QueryInt or QueryInt64 returns without an error lies in the
  -- range of an int64.
  pub int_readers-IsInt64 :
      (param_int quote values key ≡ ok v)
        ⊎ (param_int64 quote values key ≡ ok v)
        ⊎ (query_int quote values key ≡ ok v)
        ⊎ (query_int64 quote values key ≡ ok v)
      → IsInt64 v
  unfolding param_int param_int64 query_int query_int64
  int_readers-IsInt64 (inl h) = read_int-IsInt64 "path" "integer" "Atoi" h
  int_readers-IsInt64 (inr (inl h)) = read_int-IsInt64 "path" "integer" "ParseInt" h
  int_readers-IsInt64 (inr (inr (inl h))) = read_int-IsInt64 "query" "integer" "Atoi" h
  int_readers-IsInt64 (inr (inr (inr h))) = read_int-IsInt64 "query" "int64" "ParseInt" h
