-- ===== src/Web/Errs/Laws.antt =====
-- The map of FieldErrors.Fields, read back.
use httper.GoError.{GoError, FieldError, wrap, as_field_errors}
use httper.Web.Errs.{assign, fields_from, fields, lookup}
use httper.Base.{
  String, ◌≡◌, refl, ap, ◌∙◌, Option, none, some, List, [], ◌∷◌, arith, str_eq, eq_iff,
  if◌then◌else◌,
}

lookup-assign :
    (j k v : String) (m : List (String × String))
    → lookup j (assign k v m) ≡ (if str_eq k j then some v else lookup j m)
unfolding lookup assign
lookup-assign j k v [] = refl
lookup-assign j k v ((i, u) ∷ m) =
    ground (arith, eq_iff k j, eq_iff i k, eq_iff i j, lookup-assign j k v m)

-- The message of the last entry for a field, `before` where there is none.
pub last_message : Option String → String → List FieldError → Option String
last_message before k [] = before
last_message before k (f ∷ fs) = last_message (if str_eq f.field k then some f.err else before) k fs

lookup-fields_from :
    (k : String) (m : List (String × String)) (fs : List FieldError)
    → lookup k (fields_from m fs) ≡ last_message (lookup k m) k fs
unfolding fields_from last_message
lookup-fields_from k m [] = refl
lookup-fields_from k m (f ∷ fs) =
    lookup-fields_from k (assign f.field f.err m) fs
    ∙ ap (λ o. last_message o k fs) (lookup-assign k f.field f.err m)

-- Fields maps each field to the message of its last entry, and no other field to anything.
pub lookup-fields :
    (k : String) (fs : List FieldError) → lookup k (fields fs) ≡ last_message none k fs
unfolding fields lookup
lookup-fields k fs = lookup-fields_from k [] fs

-- What NewFieldsError makes is found again by IsFieldErrors and GetFieldErrors, also behind any
-- number of wrappings with fmt.Errorf.
wrap_all : List String → GoError → GoError
wrap_all [] e = e
wrap_all (s ∷ ss) e = wrap s (wrap_all ss e)

as_field_errors-wrap_all :
    (ss : List String) (e : GoError) → as_field_errors (wrap_all ss e) ≡ as_field_errors e
unfolding wrap_all as_field_errors
as_field_errors-wrap_all [] e = refl
as_field_errors-wrap_all (s ∷ ss) e = as_field_errors-wrap_all ss e
