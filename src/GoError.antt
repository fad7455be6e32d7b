-- ===== src/GoError.antt =====
-- Go's `error` values as the program builds them, and the functions of package `errors` that it
-- calls. An error is compared by its pointer in Go; here `new` carries a number for that pointer.
-- The error types that the program declares are constructors: client/model.go
-- (UnexpectedStatusError), client/download/model.go (Error), web/errs/errors.go (Error and
-- FieldErrors).
pub mod Laws
use mathlib.Core.Option
use httper.Base.{
  ◌<>◌, show_ℤ, ℕ, String, Bool, false, ◌||◌, Option, none, some, List, [], ◌∷◌, map, ◌==◌, ℤ,
}

-- errs.Error
pub record AppError : Type 0 where
  pub code : ℤ
  pub message : String
  pub func_name : String
  pub file_name : String
  pub inner_err : Bool

-- errs.FieldError
pub record FieldError : Type 0 where
  pub field : String
  pub err : String

-- `wrap s e` is fmt.Errorf("<s>%w", e), `wrap_both e s d` is fmt.Errorf("%w<s>%w", e, d), and
-- `join e d` is errors.Join(e, d).
pub data GoError : Type 0 where
  new : ℕ → String → GoError
  wrap : String → GoError → GoError
  wrap_both : GoError → String → GoError → GoError
  join : GoError → GoError → GoError
  unexpected_status : ℤ → String → GoError → GoError
  download_error : String → GoError → GoError
  app_error : AppError → GoError
  field_errors : List FieldError → GoError

-- A pointer that no sentinel of the program has: errors.New("...") or fmt.Errorf with no %w in
-- a function body.
abbrev pub fresh : ℕ
fresh = 0

abbrev pub message : String → GoError
message s = GoError.new fresh s

-- errors.Is(err, target), for a target that is a sentinel: `target` is its pointer.
unfoldable pub is_error : GoError → ℕ → Bool
is_error (new p s) target = p == target
is_error (wrap s e) target = is_error e target
is_error (wrap_both e s d) target = is_error e target || is_error d target
is_error (join e d) target = is_error e target || is_error d target
is_error (unexpected_status c b e) target = is_error e target
is_error (download_error s e) target = is_error e target
is_error (app_error e) target = false
is_error (field_errors fs) target = false

-- The first of two answers.
abbrev pub or_else {ℓ} : {A : Type ℓ} → Option A → Option A → Option A
or_else none o = o
or_else (some a) o = some a

-- errors.As(err, &fe) for a target of type errs.FieldErrors: depth first, left to right
unfoldable pub as_field_errors : GoError → Option (List FieldError)
as_field_errors (new p s) = none
as_field_errors (wrap s e) = as_field_errors e
as_field_errors (wrap_both e s d) = or_else (as_field_errors e) (as_field_errors d)
as_field_errors (join e d) = or_else (as_field_errors e) (as_field_errors d)
as_field_errors (unexpected_status c b e) = as_field_errors e
as_field_errors (download_error s e) = as_field_errors e
as_field_errors (app_error e) = none
as_field_errors (field_errors fs) = some fs

-- errors.As(err, &e) for a target of type *errs.Error
unfoldable pub as_app_error : GoError → Option AppError
as_app_error (new p s) = none
as_app_error (wrap s e) = as_app_error e
as_app_error (wrap_both e s d) = or_else (as_app_error e) (as_app_error d)
as_app_error (join e d) = or_else (as_app_error e) (as_app_error d)
as_app_error (unexpected_status c b e) = as_app_error e
as_app_error (download_error s e) = as_app_error e
as_app_error (app_error e) = some e
as_app_error (field_errors fs) = none

-- errors.Join(errs...): nil where there is no error
unfoldable pub join_all : List GoError → Option GoError
join_all [] = none
join_all (e ∷ []) = some e
join_all (e ∷ d ∷ es) = Option.map (join e) (join_all (d ∷ es))

-- err.Error(). `fields_text` is the text that json.Marshal makes of errs.FieldErrors.
unfoldable pub error_text : (List FieldError → String) → GoError → String
error_text fields_text (new p s) = s
error_text fields_text (wrap s e) = s <> error_text fields_text e
error_text fields_text (wrap_both e s d) =
    error_text fields_text e <> (s <> error_text fields_text d)
error_text fields_text (join e d) = error_text fields_text e <> ("\n" <> error_text fields_text d)
error_text fields_text (unexpected_status c b e) =
    error_text fields_text e <> (": " <> (show_ℤ c <> (", body: " <> b)))
error_text fields_text (download_error s e) = error_text fields_text e <> (": " <> s)
error_text fields_text (app_error e) = e.message
error_text fields_text (field_errors fs) = fields_text fs

-- A value and an error of which one is meant: `(v, nil)` and `(nil, err)`.
pub data Try {ℓ} (A : Type ℓ) : Type ℓ where
  ok : A → Try A
  err : GoError → Try A
