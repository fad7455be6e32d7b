-- ===== src/GoError/Laws.antt =====
-- Package `errors`: what a joined error reports.
use mathlib.Core.Option
use httper.Base.{ℕ, ◌≡◌, refl, ap, ◌↔◌, ◌||◌, none, some, List, [], ◌∷◌, arith, any}
use httper.GoError.{GoError, join, is_error, join_all}

-- errors.Join(errs...) is nil exactly when there is no error.
pub join_all-none_iff : (es : List GoError) → (join_all es ≡ none) ↔ (es ≡ [])
unfolding join_all
join_all-none_iff [] = (λ _. refl, λ _. refl)
join_all-none_iff (e ∷ []) = (λ h. cc, λ h. cc)
join_all-none_iff (e ∷ d ∷ es) = (
  λ h. let r = (join_all-none_iff (d ∷ es)).0 ((Option.map-eq-none_iff (join e) _).0 h) in cc,
  λ h. cc,
)

-- The joined error matches a sentinel if one of the joined errors does.
pub is_error-join_all :
    (es : List GoError) (target : ℕ) {j : GoError}
    → join_all es ≡ some j
    → is_error j target ≡ any (λ e. is_error e target) es
unfolding join_all is_error
is_error-join_all [] target h = cc
is_error-join_all (e ∷ []) target h = ground arith
is_error-join_all (e ∷ d ∷ es) target h =
    let (r, found, same) = (Option.map-eq-some_iff (join e) _).0 h in
    rw (← same) (ap (λ b. is_error e target || b) (is_error-join_all (d ∷ es) target found))
