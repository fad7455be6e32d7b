-- ===== src/Base/Text/Decimal/Past.antt =====
-- A printed number that does not fit in an int64.
use Prim.Native.Nat.{ℕ, zero, suc, ◌+◌, ◌*◌, ◌/◌, ◌%◌, ◌^◌, ◌<◌, ◌≤◌}
use mathlib.Core.Path.{◌≡◌, refl, ap, ◌∙◌, sym}
use mathlib.Core.Logic.{◌≢◌, inl, inr}
use mathlib.Core.Bool.{true, false}
use mathlib.Core.List.{List, [], ◌∷◌, ◌++◌, append_assoc, append-nil}
use native.Mathlib.Omega.{arith}
use httper.Base.Tests.{◌==◌, ltb, Bool-cases}
use httper.Base.Int.{ℤ, pos, negsuc}
use httper.Base.Text.{codes, digit, show_from, show_ℕ, show_ℤ}
use httper.Base.Text.Decimal.{refused, range_err, scan, bounded, parse_codes, parse_int}
use httper.Base.Text.Decimal.Laws.{
  IsInt64, codes-append, codes-digit, scan-show_from, show_ℕ-ne-nil, scan-show_ℕ, unsigned-scan,
  parse_codes-scan,
}

-- A digit that takes the number past a uint64
scan_digit_past :
    (d m : ℕ) (rest : List ℕ)
    → d < 10
    → m < 2 ^ 64
    → 2 ^ 64 ≤ m * 10 + d
    → scan ((b'0' + d) ∷ rest) m ≡ refused range_err
unfolding scan
scan_digit_past d m rest h fits past = ground arith

scan-show_from_past :
    (fuel n : ℕ) (rest : List ℕ)
    → n < fuel
    → 2 ^ 64 ≤ n
    → scan (codes (show_from fuel n) ++ rest) 0 ≡ refused range_err
unfolding show_from
scan-show_from_past zero n rest h past = absurd (omega arith)
scan-show_from_past (suc fuel) n rest h past =
    rw
      (
        large,
        codes-append (show_from fuel (n / 10)) (digit (n % 10)),
        codes-digit (n % 10) (omega arith),
        append_assoc (codes (show_from fuel (n / 10))) ((b'0' + n % 10) ∷ []) rest,
      )
      (elim (Bool-cases (ltb (n / 10) (2 ^ 64))) [
        | inl small ↦
            scan-show_from fuel (n / 10) ((b'0' + n % 10) ∷ rest) (omega arith) (ground arith)
            ∙ scan_digit_past (n % 10) (n / 10) rest (omega arith) (ground arith) (omega arith)
        | inr big ↦
            scan-show_from_past fuel (n / 10) ((b'0' + n % 10) ∷ rest) (omega arith) (ground arith)
      ])
  where
    large : ltb n 10 ≡ false
    large = ground arith

scan-show_ℕ_past : (n : ℕ) → 2 ^ 64 ≤ n → scan (codes (show_ℕ n)) 0 ≡ refused range_err
unfolding show_ℕ
scan-show_ℕ_past n past =
    ap (λ cs. scan cs 0) (sym (append-nil (codes (show_from (suc n) n))))
    ∙ scan-show_from_past (suc n) n [] (omega arith) past

parse_codes-past :
    (cs : List ℕ) → cs ≢ [] → scan cs 0 ≡ refused range_err → parse_codes cs ≡ refused range_err
unfolding scan
parse_codes-past [] h digits = absurd (h refl)
parse_codes-past (c ∷ cs) h digits = elim (Bool-cases (c == b'+')) [
  | inl plus ↦ absurd (ground arith)
  | inr other ↦ elim (Bool-cases (c == b'-')) [
    | inl minus ↦ absurd (ground arith)
    | inr unsigned_text ↦ rw (other, unsigned_text) (ap (bounded false) digits)
  ]
]

-- An integer that is not an int64 is refused for its range when it is printed and read.
pub parse_int-past : (v : ℤ) → (IsInt64 v → ⊥) → parse_int (show_ℤ v) ≡ refused range_err
unfolding parse_int show_ℤ
parse_int-past (pos n) past = elim (Bool-cases (ltb n (2 ^ 64))) [
  | inl small ↦
      parse_codes-scan (codes (show_ℕ n)) n (show_ℕ-ne-nil n) (scan-show_ℕ n (ground arith))
      ∙ ground arith
  | inr big ↦
      parse_codes-past (codes (show_ℕ n)) (show_ℕ-ne-nil n) (scan-show_ℕ_past n (ground arith))
]
parse_int-past (negsuc n) past =
    ap parse_codes (codes-append "-" (show_ℕ (suc n)))
    ∙ ap (bounded true) (unsigned-scan (codes (show_ℕ (suc n))) (show_ℕ-ne-nil (suc n)))
    ∙ (elim (Bool-cases (ltb (suc n) (2 ^ 64))) [
      | inl small ↦ ap (bounded true) (scan-show_ℕ (suc n) (ground arith)) ∙ ground arith
      | inr big ↦ ap (bounded true) (scan-show_ℕ_past (suc n) (ground arith))
    ])
