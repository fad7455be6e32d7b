-- ===== src/Web/Middleware/Errors/Shown.antt =====
-- What a client may see of an error that wraps no field errors.
use mathlib.Core.Option
use httper.GoError.{AppError, GoError, FieldError, as_app_error}
use httper.Web.Errs.{Caller, new_internal}
use httper.Web.Status.{status_text}
use httper.Web.Middleware.Errors.{obscure, to_app_error}
use httper.Base.{
  Option, Bool-cases, inl, inr, ℕ, String, ◌≡◌, refl, none, some, List, ℤ, pos, if◌then◌else◌,
}

-- The code of the *errs.Error that the error wraps, or 500 where it wraps none
abbrev pub shown_code : GoError → ℤ
shown_code e = elim (as_app_error e) as (λ _. ℤ) [ none ↦ pos 500 | some a ↦ a.code ]

-- Its message, but the text of the status where it is internal
abbrev pub public_text : AppError → String
public_text a = if a.inner_err then status_text a.code else a.message

abbrev pub shown_text : GoError → String
shown_text e = elim (as_app_error e) as (λ _. String) [
  | none ↦ "Internal Server Error"
  | some a ↦ public_text a
]

obscure-public_text : (a : AppError) → (obscure a).message ≡ public_text a
unfolding obscure
obscure-public_text a = elim (Bool-cases a.inner_err) [
  | inl inner ↦ rw inner refl
  | inr outer ↦ rw outer refl
]

module _ (fields_text : List FieldError → String) (caller : Caller) (time_now : ℕ) where
  code_or_internal :
      (e : GoError) (o : Option AppError)
      → (Option.get_or o (new_internal fields_text caller e)).code
        ≡ elim o as (λ _. ℤ) [ none ↦ pos 500 | some a ↦ a.code ]
  unfolding new_internal
  code_or_internal e none = refl
  code_or_internal e (some a) = refl

  pub to_app_error-shown_code :
      (e : GoError) → (to_app_error fields_text caller time_now e).code ≡ shown_code e
  unfolding to_app_error
  to_app_error-shown_code e = code_or_internal e (as_app_error e)

  text_or_internal :
      (e : GoError) (o : Option AppError)
      → (obscure (Option.get_or o (new_internal fields_text caller e))).message
        ≡ elim o as (λ _. String) [ none ↦ "Internal Server Error" | some a ↦ public_text a ]
  unfolding new_internal obscure status_text
  text_or_internal e none = refl
  text_or_internal e (some a) = obscure-public_text a

  pub to_app_error-shown_text :
      (e : GoError) → (obscure (to_app_error fields_text caller time_now e)).message ≡ shown_text e
  unfolding to_app_error
  to_app_error-shown_text e = text_or_internal e (as_app_error e)
