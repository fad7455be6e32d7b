-- ===== src/Web/Validate.antt =====
-- web/validate.go. The validator and its English texts are a library: what validate.Struct finds is
-- the argument `verdict`.
use httper.Base.{Bool, not, String, Option, none, some, List, map, str_eq, if◌then◌else◌, cut}
use httper.GoError.{GoError, FieldError, field_errors}

-- A validator.FieldError: Field(), Tag() and Translate(translator).
pub record Violation : Type 0 where
  pub field : String
  pub tag : String
  pub translated : String

-- The error of validate.Struct: nil, one that is not validator.ValidationErrors, or these.
pub data Verdict : Type 0 where
  passed : Verdict
  not_validated : GoError → Verdict
  violated : List Violation → Verdict

-- customErrForTag
unfoldable pub custom_err_for_tag : String → Violation → String
custom_err_for_tag tag v = if str_eq tag "required" then "This field is required" else v.translated

abbrev pub field_of : Violation → FieldError
field_of v = record { field = v.field; err = custom_err_for_tag v.tag v }

-- Validate
unfoldable pub validate : Verdict → Option GoError
unfolding custom_err_for_tag
validate passed = none
validate (not_validated e) = some e
validate (violated vs) = some (field_errors (map field_of vs))

-- The name that the function given to RegisterTagNameFunc makes of a field's json tag
unfoldable pub tag_name : String → String
unfolding cut
tag_name tag = let name = (cut b',' tag).0 in if str_eq name "-" then "" else name

-- init: whether the translator for "en" is found, what the registration of the translations comes
-- to; a panic carries its value as the runtime prints it, by `text`.
pub data Setup : Type 0 where
  ready : Setup
  panics : String → Setup

pub init : (text : GoError → String) → (found : Bool) → Option GoError → Setup
init text found register_err =
    if not found
    then panics "web: failed to get 'en' translator"
    else elim register_err [ some e ↦ panics (text e) | none ↦ ready ]
