-- ===== src/Web/Errs.antt =====
-- web/errs/errors.go. runtime.Caller(1) is an argument: the caller's function and its file and
-- line as one text.
pub mod Laws
use httper.GoError.{GoError, AppError, FieldError, field_errors, as_field_errors, error_text}
use httper.Base.{
  String, Bool, true, false, Option, none, some, List, [], ◌∷◌, str_eq, if◌then◌else◌, ℤ, pos,
}

pub record Caller : Type 0 where
  pub func_name : String
  pub file_name : String

module _ (fields_text : List FieldError → String) where
  -- New
  unfoldable pub new_error : Caller → ℤ → GoError → AppError
  new_error caller code err = record {
    code = code;
    message = error_text fields_text err;
    func_name = caller.func_name;
    file_name = caller.file_name;
    inner_err = false;
  }

  -- NewInternal
  unfoldable pub new_internal : Caller → GoError → AppError
  new_internal caller err = record {
    code = pos 500;
    message = error_text fields_text err;
    func_name = caller.func_name;
    file_name = caller.file_name;
    inner_err = true;
  }

  -- NewFieldsError
  unfoldable pub new_fields_error : String → GoError → GoError
  new_fields_error field err =
      field_errors (record { field = field; err = error_text fields_text err } ∷ [])

-- (*Error).IsInternal
unfoldable pub is_internal : AppError → Bool
is_internal e = e.inner_err

-- The map of FieldErrors.Fields as the list of its entries: an assignment replaces the value of a
-- key that is there.
unfoldable pub assign : String → String → List (String × String) → List (String × String)
assign k v [] = (k, v) ∷ []
assign k v ((j, u) ∷ m) = if str_eq j k then (k, v) ∷ m else (j, u) ∷ assign k v m

unfoldable pub fields_from : List (String × String) → List FieldError → List (String × String)
unfolding assign
fields_from m [] = m
fields_from m (f ∷ fs) = fields_from (assign f.field f.err m) fs

-- FieldErrors.Fields
unfoldable pub fields : List FieldError → List (String × String)
unfolding fields_from
fields fs = fields_from [] fs

-- A read of that map
unfoldable pub lookup : String → List (String × String) → Option String
lookup k [] = none
lookup k ((j, v) ∷ m) = if str_eq j k then some v else lookup k m

-- IsFieldErrors. A nil error is `none`.
unfoldable pub is_field_errors : Option GoError → Bool
unfolding as_field_errors
is_field_errors none = false
is_field_errors (some e) = elim (as_field_errors e) [ none ↦ false | some _ ↦ true ]

-- GetFieldErrors; nil is the empty list
unfoldable pub get_field_errors : Option GoError → List FieldError
unfolding as_field_errors
get_field_errors none = []
get_field_errors (some e) = elim (as_field_errors e) [ none ↦ [] | some fs ↦ fs ]
