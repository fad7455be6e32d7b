-- ===== src/Web/Request/Tests.antt =====
-- The id of a path and the number of a page.
use httper.Web.Request.Laws.{int_readers-show_ℤ}
use httper.Base.{String, ◌≡◌, refl, [], ◌∷◌, negsuc, show_ℤ, arith}
use httper.Web.Request.{Pairs, first_value, param_int, param_int64, query_int, query_int64}
use httper.GoError.{ok}

abbrev values : Pairs
values = ("page", "7") ∷ ("id", "-42") ∷ ("id", "8") ∷ []

abbrev quote : String → String
quote s = s

int_readers-show_ℤ_example :
    (param_int quote values "id" ≡ ok (negsuc 41))
    × (param_int64 quote values "id" ≡ ok (negsuc 41))
    × (query_int quote values "id" ≡ ok (negsuc 41))
    × (query_int64 quote values "id" ≡ ok (negsuc 41))
unfolding first_value show_ℤ
int_readers-show_ℤ_example = int_readers-show_ℤ quote values "id" (negsuc 41) refl (omega arith)
