-- ===== src/Web/Glob.antt =====
-- path.Match of the standard library, over code points. A pattern is read into tokens; a pattern
-- that does not read is ErrBadPattern, on which the caller sees no match.
pub mod Laws
use mathlib.Core.Option
use httper.Base.{
  codes, ℕ, zero, suc, String, Bool, true, false, not, ◌&&◌, ◌||◌, Option, none, some, List, [],
  ◌∷◌, ◌++◌, map, ltb, leb, ◌==◌, if◌then◌else◌, length,
}

-- A literal, `?`, `*`, and `[...]` or `[^...]` with its ranges.
pub data Token : Type 0 where
  lit : ℕ → Token
  single : Token
  star : Token
  class : Bool → List (ℕ × ℕ) → Token

-- One bound of a range: a character, or one behind a backslash.
bound : List ℕ → Option (ℕ × List ℕ)
bound [] = none
bound (c ∷ []) = none
bound (c ∷ d ∷ cs) =
    if c == b'-' || c == b']' then none else if c == b'\\' then some (d, cs) else some (c, d ∷ cs)

-- The upper bound of a range that begins with `lo`; it is `lo` where no `-` follows.
upper : ℕ → List ℕ → Option ((ℕ × ℕ) × List ℕ)
upper lo [] = none
upper lo (c ∷ cs) =
    if c == b'-' then Option.map (λ r. ((lo, r.0), r.1)) (bound cs) else some ((lo, lo), c ∷ cs)

abbrev range_of : List ℕ → Option ((ℕ × ℕ) × List ℕ)
range_of cs = elim (bound cs) [ none ↦ none | some (lo, rest) ↦ upper lo rest ]

-- The ranges up to `]`; there is at least one. Each takes a character, so fuel for the length of
-- the text is enough.
ranges : ℕ → List (ℕ × ℕ) → List ℕ → Option (List (ℕ × ℕ) × List ℕ)
ranges zero rs cs = none
ranges (suc fuel) rs [] = none
ranges (suc fuel) rs (c ∷ cs) =
    let more : Option (List (ℕ × ℕ) × List ℕ) = (elim (range_of (c ∷ cs)) [
      | none ↦ none
      | some (r, rest) ↦ ranges fuel (rs ++ r ∷ []) rest
    ]) in
    if c == b']' && ltb 0 (length rs) then some (rs, cs) else more

abbrev class_of : ℕ → List ℕ → Option (Token × List ℕ)
class_of fuel [] = none
class_of fuel (c ∷ cs) =
    if c == b'^'
    then Option.map (λ r. (class true r.0, r.1)) (ranges fuel [] cs)
    else Option.map (λ r. (class false r.0, r.1)) (ranges fuel [] (c ∷ cs))

-- The first token of a text that is not empty.
abbrev token : ℕ → ℕ → List ℕ → Option (Token × List ℕ)
token fuel c cs =
    if c == b'*'
    then some (star, cs)
    else if c == b'?'
    then some (single, cs)
    else if c == b'['
    then class_of fuel cs
    else if c == b'\\'
    then elim cs [ [] ↦ none | d ∷ ds ↦ some (lit d, ds) ]
    else some (lit c, cs)

tokens : ℕ → List ℕ → Option (List Token)
tokens fuel [] = some []
tokens zero (c ∷ cs) = none
tokens (suc fuel) (c ∷ cs) = elim (token fuel c cs) [
  | none ↦ none
  | some (t, rest) ↦ Option.map (λ ts. t ∷ ts) (tokens fuel rest)
]

-- A pattern has no more tokens than characters.
unfoldable pub parse : String → Option (List Token)
unfolding tokens ranges upper bound
parse s = let cs = codes s in tokens (length cs) cs

in_ranges : ℕ → List (ℕ × ℕ) → Bool
in_ranges c [] = false
in_ranges c ((lo, hi) ∷ rs) = (leb lo c && leb c hi) || in_ranges c rs

-- A token that takes one character takes this one.
unfoldable pub takes : Token → ℕ → Bool
unfolding in_ranges
takes (lit d) c = c == d
takes single c = not (c == b'/')
takes star c = false
takes (class negated rs) c = if negated then not (in_ranges c rs) else in_ranges c rs

-- Whether the tokens take the whole text. A star takes any run of characters other than `/`.
unfoldable pub matches : List Token → List ℕ → Bool
unfolding takes
matches [] [] = true
matches [] (c ∷ cs) = false
matches (star ∷ ts) [] = matches ts []
matches (star ∷ ts) (c ∷ cs) = elim (matches ts (c ∷ cs)) [
  | true ↦ true
  | false ↦ elim (c == b'/') [ true ↦ false | false ↦ matches (star ∷ ts) cs ]
]
matches (t ∷ ts) [] = false
matches (t ∷ ts) (c ∷ cs) = elim (takes t c) [ true ↦ matches ts cs | false ↦ false ]

-- path.Match(pattern, name), true only with no error
unfoldable pub path_match : String → String → Bool
unfolding parse matches
path_match pattern name = elim (parse pattern) [ none ↦ false | some ts ↦ matches ts (codes name) ]
