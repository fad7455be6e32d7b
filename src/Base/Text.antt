-- ===== src/Base/Text.antt =====
-- Go's `strings` functions that the program calls, over native strings. The separators are ASCII,
-- so characters stand for bytes. Go's `%s` of a number is the decimal text.
pub mod Decimal
pub mod Order
pub mod Split
use Prim.Native.Nat.{ℕ, zero, suc, Ordering, ◌/◌, ◌%◌}
use mathlib.Core.Path.{◌≡◌}
use mathlib.Core.Logic.{◌≢◌}
use text.Mathlib.TextEquality.{eq_iff}
use native.Mathlib.Omega.{arith}
use Prim.Native.Char.{Char, code}
use Prim.Native.String
use Prim.Native.String.{String, [], ◌∷◌}
use mathlib.Core.Bool.{Bool, true, false, ◌||◌, ◌&&◌}
use mathlib.Core.List.{List}
use httper.Base.Tests.{◌==◌, ltb, if◌then◌else◌}
use httper.Base.Int.{ℤ, pos, negsuc}
use text.Mathlib.Text.{◌==◌ as str_eq}

-- The code points of a text
abbrev pub codes : String → List ℕ
codes [] = List.[]
codes (c ∷ s) = List.◌∷◌ (code c) (codes s)

-- The order of strings in Go; that of code points is that of the bytes of their UTF-8.
abbrev pub str_leb : String → String → Bool
str_leb s t = elim (String.compare s t) [ Ordering.gt ↦ false | _ ↦ true ]

-- strings.TrimLeft(s, "c") for a cutset of one character
unfoldable pub trim_left : ℕ → String → String
trim_left c [] = []
trim_left c (d ∷ s) = if code d == c then trim_left c s else d ∷ s

-- strings.Contains(s, "c") for a text of one character
unfoldable pub contains_char : ℕ → String → Bool
contains_char c [] = false
contains_char c (d ∷ s) = code d == c || contains_char c s

abbrev push : String → Char → String
push s c = String.◌++◌ s (c ∷ [])

-- strings.Split(s, "c"): `cur` is the part read so far.
unfoldable pub split_from : ℕ → String → String → List String
split_from c cur [] = List.◌∷◌ cur List.[]
split_from c cur (d ∷ s) =
    let closed = split_from c "" s in
    let longer = split_from c (push cur d) s in if code d == c then List.◌∷◌ cur closed else longer

unfoldable pub split : ℕ → String → List String
unfolding split_from
split c s = split_from c "" s

-- strings.Cut(s, "c"): what stands before and behind the first `c`, all of `s` and nothing where
-- there is none
unfoldable pub cut : ℕ → String → String × String
cut c [] = ("", "")
cut c (d ∷ s) =
    let (before, after) = cut c s in if code d == c then ("", s) else (d ∷ before, after)

-- s[strings.LastIndex(s, "c")+1:]: what stands behind the last `c`, all of `s` where there is none.
-- `best` stands behind the last `c` met so far.
unfoldable pub after_last_from : ℕ → String → String → String
after_last_from c best [] = best
after_last_from c best (d ∷ s) = after_last_from c (if code d == c then s else best) s

unfoldable pub after_last : ℕ → String → String
unfolding after_last_from
after_last c s = after_last_from c s s

-- strings.Join(parts, sep)
unfoldable pub join_strings : String → List String → String
join_strings sep List.[] = ""
join_strings sep (List.◌∷◌ part List.[]) = part
join_strings sep (List.◌∷◌ part (List.◌∷◌ next parts)) =
    String.◌++◌ part (String.◌++◌ sep (join_strings sep (List.◌∷◌ next parts)))

-- strings.TrimRight(s, "c") for a cutset of one character
unfoldable pub trim_right : ℕ → String → String
trim_right c [] = []
trim_right c (d ∷ s) =
    let rest = trim_right c s in if str_eq rest "" && code d == c then "" else d ∷ rest

-- path.Base
unfoldable pub path_base : String → String
unfolding trim_right after_last
path_base s =
    if str_eq s ""
    then "."
    else (let trimmed = trim_right b'/' s in
        if str_eq trimmed "" then "/" else after_last b'/' trimmed)

pub digit : ℕ → String
digit n =
    if n == 0
    then "0"
    else if n == 1
    then "1"
    else if n == 2
    then "2"
    else if n == 3
    then "3"
    else if n == 4
    then "4"
    else if n == 5
    then "5"
    else if n == 6
    then "6"
    else if n == 7
    then "7"
    else if n == 8
    then "8"
    else "9"

-- `fuel` bounds the number of digits.
pub show_from : ℕ → ℕ → String
show_from zero n = ""
show_from (suc fuel) n =
    let rest = String.◌++◌ (show_from fuel (n / 10)) (digit (n % 10)) in
    if ltb n 10 then digit n else rest

-- `%d`; a number has at most as many digits as its successor counts.
unfoldable pub show_ℕ : ℕ → String
unfolding show_from digit
show_ℕ n = show_from (suc n) n

unfoldable pub show_ℤ : ℤ → String
unfolding show_ℕ
show_ℤ (pos n) = show_ℕ n
show_ℤ (negsuc n) = String.◌++◌ "-" (show_ℕ (suc n))

pub str_ne : (s t : String) → s ≢ t → str_eq s t ≡ false
str_ne s t h = ground (arith, eq_iff s t)
