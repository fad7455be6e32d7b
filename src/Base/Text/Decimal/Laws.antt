-- ===== src/Base/Text/Decimal/Laws.antt =====
-- A printed number is read back, and what is read fits in 64 bits.
use Prim.Native.Nat.{ℕ, zero, suc, ◌+◌, ◌*◌, ◌/◌, ◌%◌, ◌^◌, ◌<◌}
use Prim.Native.Char.{code}
use Prim.Native.String
use Prim.Native.String.{String}
use mathlib.Core.Path.{◌≡◌, refl, ap, ◌∙◌, sym}
use mathlib.Core.Logic.{◌≢◌, inl, inr}
use mathlib.Core.Bool.{Bool, true, false}
use mathlib.Core.List.{List, [], ◌∷◌, ◌++◌, append_assoc, append-nil}
use native.Mathlib.Omega.{arith}
use text.Mathlib.TextLemmas.{nil-append, cons-append}
use httper.Base.Tests.{◌==◌, ltb, Bool-cases}
use httper.Base.Int.{ℤ, pos, negsuc}
use httper.Base.Text.{codes, digit, show_from, show_ℕ, show_ℤ}
use httper.Base.Text.Decimal.{
  Parsed, parsed, refused, scan, bounded, unsigned, parse_codes, parse_int,
}

abbrev pub IsInt64 : ℤ → Type 0
IsInt64 (pos n) = n < 2 ^ 63
IsInt64 (negsuc n) = n < 2 ^ 63

bounded-IsInt64 :
    (negative : Bool) (r : Parsed ℕ) {v : ℤ} → bounded negative r ≡ parsed v → IsInt64 v
bounded-IsInt64 negative (refused e) h = cc
bounded-IsInt64 true (parsed zero) h = ground arith
bounded-IsInt64 true (parsed (suc n)) h = ground arith
bounded-IsInt64 false (parsed n) h = ground arith

parse_codes-IsInt64 : (cs : List ℕ) {v : ℤ} → parse_codes cs ≡ parsed v → IsInt64 v
parse_codes-IsInt64 [] h = cc
parse_codes-IsInt64 (c ∷ cs) h = elim (Bool-cases (c == b'+')) [
  | inl plus ↦ bounded-IsInt64 false (unsigned cs) (rw plus at h)
  | inr other ↦ elim (Bool-cases (c == b'-')) [
    | inl minus ↦ bounded-IsInt64 true (unsigned cs) (rw (other, minus) at h)
    | inr none ↦ bounded-IsInt64 false (unsigned (c ∷ cs)) (rw (other, none) at h)
  ]
]

-- What ParseInt returns fits in an int64.
pub parse_int-IsInt64 : (s : String) {v : ℤ} → parse_int s ≡ parsed v → IsInt64 v
unfolding parse_int
parse_int-IsInt64 s h = parse_codes-IsInt64 (codes s) h

pub codes-append : (s t : String) → codes (String.◌++◌ s t) ≡ codes s ++ codes t
codes-append String.[] t = ap codes (nil-append t)
codes-append (String.◌∷◌ c s) t =
    ap codes (cons-append c s t) ∙ ap (λ l. code c ∷ l) (codes-append s t)

pub codes-digit : (n : ℕ) → n < 10 → codes (digit n) ≡ (b'0' + n) ∷ []
unfolding digit
codes-digit zero h = refl
codes-digit (suc zero) h = refl
codes-digit (suc (suc zero)) h = refl
codes-digit (suc (suc (suc zero))) h = refl
codes-digit (suc (suc (suc (suc zero)))) h = refl
codes-digit (suc (suc (suc (suc (suc zero))))) h = refl
codes-digit (suc (suc (suc (suc (suc (suc zero)))))) h = refl
codes-digit (suc (suc (suc (suc (suc (suc (suc zero))))))) h = refl
codes-digit (suc (suc (suc (suc (suc (suc (suc (suc zero)))))))) h = refl
codes-digit (suc (suc (suc (suc (suc (suc (suc (suc (suc zero))))))))) h = refl
codes-digit (suc (suc (suc (suc (suc (suc (suc (suc (suc (suc n)))))))))) h = absurd (omega arith)

-- Reading one more digit
scan_digit :
    (d m : ℕ) (rest : List ℕ)
    → d < 10
    → m * 10 + d < 2 ^ 64
    → scan ((b'0' + d) ∷ rest) m ≡ scan rest (m * 10 + d)
unfolding scan
scan_digit d m rest h fits = ground arith

pub scan-show_from :
    (fuel n : ℕ) (rest : List ℕ)
    → n < fuel
    → n < 2 ^ 64
    → scan (codes (show_from fuel n) ++ rest) 0 ≡ scan rest n
unfolding show_from
scan-show_from zero n rest h fits = absurd (omega arith)
scan-show_from (suc fuel) n rest h fits = elim (Bool-cases (ltb n 10)) [
  | inl small ↦
      rw (small, codes-digit n (ground arith))
        (scan_digit n 0 rest (ground arith) (omega arith) ∙ ap (scan rest) (omega arith))
  | inr large ↦
      rw
        (
          large,
          codes-append (show_from fuel (n / 10)) (digit (n % 10)),
          codes-digit (n % 10) (omega arith),
          append_assoc (codes (show_from fuel (n / 10))) ((b'0' + n % 10) ∷ []) rest,
          scan-show_from fuel (n / 10) ((b'0' + n % 10) ∷ rest) (ground arith) (omega arith),
        )
        (scan_digit (n % 10) (n / 10) rest (omega arith) (omega arith)
          ∙ ap (scan rest) (omega arith))
]

snoc-ne-nil : (xs : List ℕ) (x : ℕ) → xs ++ x ∷ [] ≢ []
snoc-ne-nil [] x h = cc
snoc-ne-nil (y ∷ xs) x h = cc

pub show_ℕ-ne-nil : (n : ℕ) → codes (show_ℕ n) ≢ []
unfolding show_ℕ
show_ℕ-ne-nil n h = elim (Bool-cases (ltb n 10)) [
  | inl small ↦ cc (rw (small, codes-digit n (ground arith)) at h)
  | inr large ↦ snoc-ne-nil (codes (show_from n (n / 10))) (b'0' + n % 10) (
      rw
        (
          large,
          codes-append (show_from n (n / 10)) (digit (n % 10)),
          codes-digit (n % 10) (omega arith),
        )
        at h)
]

pub scan-show_ℕ : (n : ℕ) → n < 2 ^ 64 → scan (codes (show_ℕ n)) 0 ≡ parsed n
unfolding show_ℕ scan
scan-show_ℕ n fits =
    ap (λ cs. scan cs 0) (sym (append-nil (codes (show_from (suc n) n))))
    ∙ scan-show_from (suc n) n [] (omega arith) fits

pub unsigned-scan : (cs : List ℕ) → cs ≢ [] → unsigned cs ≡ scan cs 0
unsigned-scan [] h = absurd (h refl)
unsigned-scan (c ∷ cs) h = refl

-- What reads as digits has no sign.
pub parse_codes-scan :
    (cs : List ℕ) (n : ℕ)
    → cs ≢ []
    → scan cs 0 ≡ parsed n
    → parse_codes cs ≡ bounded false (parsed n)
unfolding scan
parse_codes-scan [] n h digits = absurd (h refl)
parse_codes-scan (c ∷ cs) n h digits = elim (Bool-cases (c == b'+')) [
  | inl plus ↦ absurd (ground arith)
  | inr other ↦ elim (Bool-cases (c == b'-')) [
    | inl minus ↦ absurd (ground arith)
    | inr unsigned_text ↦ rw (other, unsigned_text) (ap (bounded false) digits)
  ]
]

-- An int64 that is printed is read back.
pub parse_int-show_ℤ : (v : ℤ) → IsInt64 v → parse_int (show_ℤ v) ≡ parsed v
unfolding parse_int show_ℤ
parse_int-show_ℤ (pos n) fits =
    parse_codes-scan (codes (show_ℕ n)) n (show_ℕ-ne-nil n) (scan-show_ℕ n (omega arith))
    ∙ ground arith
parse_int-show_ℤ (negsuc n) fits =
    ap parse_codes (codes-append "-" (show_ℕ (suc n)))
    ∙ ap (bounded true) (
        unsigned-scan (codes (show_ℕ (suc n))) (show_ℕ-ne-nil (suc n))
        ∙ scan-show_ℕ (suc n) (omega arith))
    ∙ ground arith
