-- ===== src/Base/Text/Decimal.antt =====
-- Decimal numbers: strconv.ParseInt(s, 10, 64), which strconv.Atoi agrees with, and what it makes of
-- a printed number.
pub mod Laws
pub mod Past
use Prim.Native.Nat.{ℕ, suc, ◌/◌, ◌+◌, ◌-◌, ◌*◌, ◌%◌, ◌^◌}
use Prim.Native.String.{String}
use mathlib.Core.Bool.{Bool, true, false, ◌||◌}
use mathlib.Core.List.{List, [], ◌∷◌}
use httper.Base.Tests.{◌==◌, ltb, leb, if◌then◌else◌}
use httper.Base.Int.{ℤ, pos, negsuc}
use httper.Base.Text.{codes}

-- strconv.ErrSyntax and strconv.ErrRange
pub data NumErr : Type 0 where
  syntax_err : NumErr
  range_err : NumErr

pub data Parsed {ℓ} (A : Type ℓ) : Type ℓ where
  parsed : A → Parsed A
  refused : NumErr → Parsed A

-- math.MaxUint64/10 + 1
abbrev pub cutoff : ℕ
cutoff = (2 ^ 64 - 1) / 10 + 1

-- The loop of ParseUint, in uint64: `n` is the number read so far.
pub scan : List ℕ → ℕ → Parsed ℕ
scan [] n = parsed n
scan (c ∷ cs) n =
    let shifted = n * 10 in
    let next = (shifted + (c - b'0')) % 2 ^ 64 in
    let rest = scan cs next in
    if ltb c b'0' || ltb b'9' c
    then refused syntax_err
    else if leb cutoff n
    then refused range_err
    else if ltb next shifted
    then refused range_err
    else rest

-- int64(un), or its negation
abbrev signed : Bool → ℕ → ℤ
signed true (suc n) = negsuc n
signed _ n = pos n

-- The range test of ParseInt: it refuses 2^63 and more, and behind a minus what is more than 2^63.
abbrev bounded : Bool → Parsed ℕ → Parsed ℤ
bounded negative (refused e) = refused e
bounded true (parsed n) = if ltb (2 ^ 63) n then refused range_err else parsed (signed true n)
bounded false (parsed n) = if leb (2 ^ 63) n then refused range_err else parsed (signed false n)

-- ParseUint refuses the empty text.
abbrev unsigned : List ℕ → Parsed ℕ
unsigned [] = refused syntax_err
unsigned (c ∷ cs) = scan (c ∷ cs) 0

abbrev parse_codes : List ℕ → Parsed ℤ
parse_codes [] = refused syntax_err
parse_codes (c ∷ cs) =
    if c == b'+'
    then bounded false (unsigned cs)
    else if c == b'-'
    then bounded true (unsigned cs)
    else bounded false (unsigned (c ∷ cs))

unfoldable pub parse_int : String → Parsed ℤ
unfolding scan
parse_int s = parse_codes (codes s)
