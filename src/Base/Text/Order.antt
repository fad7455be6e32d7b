-- ===== src/Base/Text/Order.antt =====
-- The order of texts is a total order.
use Prim.Native.Nat.{ℕ, compare, Ordering}
use Prim.Native.Char.{code}
use Prim.Native.String
use Prim.Native.String.{String, [], ◌∷◌}
use Prim.Native.String.compare as compare_String
use mathlib.Core.Path.{◌≡◌, refl, sym, ap, ◌∙◌}
use mathlib.Core.Bool.{Bool, true, false}
use mathlib.Core.List.{List}
use text.Mathlib.TextEquality.{Char-path}
use native.Mathlib.Omega.{arith}
use httper.Base.Tests.{◌==◌, ltb, if◌then◌else◌}
use httper.Base.Text.{codes, str_leb}

codes_leb : List ℕ → List ℕ → Bool
codes_leb List.[] ys = true
codes_leb (List.◌∷◌ x xs) List.[] = false
codes_leb (List.◌∷◌ x xs) (List.◌∷◌ y ys) =
    let rest = codes_leb xs ys in if ltb x y then true else if x == y then rest else false

abbrev is_le : Ordering → Bool
is_le Ordering.gt = false
is_le _ = true

-- One character, then the rest of the texts
compare_step :
    (o : Ordering) (s t : String)
    → str_leb s t ≡ codes_leb (codes s) (codes t)
    → is_le (String.then o (String.compare s t)) ≡ (
        if elim o [ Ordering.lt ↦ true | Ordering.eq ↦ false | Ordering.gt ↦ false ]
        then true
        else if elim o [ Ordering.lt ↦ false | Ordering.eq ↦ true | Ordering.gt ↦ false ]
        then codes_leb (codes s) (codes t)
        else false)
compare_step Ordering.lt s t h = refl
compare_step Ordering.eq s t h = h
compare_step Ordering.gt s t h = refl

str_leb-codes : (s t : String) → str_leb s t ≡ codes_leb (codes s) (codes t)
unfolding codes_leb
str_leb-codes [] [] = refl
str_leb-codes [] (d ∷ t) = ap is_le (compare_String.nil-cons d t)
str_leb-codes (c ∷ s) [] = ap is_le (compare_String.cons-nil c s)
str_leb-codes (c ∷ s) (d ∷ t) =
    ap is_le (compare_String.cons-cons c d s t)
    ∙ compare_step (compare (code c) (code d)) s t (str_leb-codes s t)

codes_leb_total : (xs ys : List ℕ) → codes_leb xs ys ≡ false → codes_leb ys xs ≡ true
unfolding codes_leb
codes_leb_total List.[] ys h = ground arith
codes_leb_total (List.◌∷◌ x xs) List.[] h = refl
codes_leb_total (List.◌∷◌ x xs) (List.◌∷◌ y ys) h = ground (arith, codes_leb_total xs ys)

codes_leb_trans :
    (xs ys zs : List ℕ) → codes_leb xs ys ≡ true → codes_leb ys zs ≡ true → codes_leb xs zs ≡ true
unfolding codes_leb
codes_leb_trans List.[] ys zs h k = refl
codes_leb_trans (List.◌∷◌ x xs) List.[] zs h k = absurd (ground arith)
codes_leb_trans (List.◌∷◌ x xs) (List.◌∷◌ y ys) List.[] h k = absurd (ground arith)
codes_leb_trans (List.◌∷◌ x xs) (List.◌∷◌ y ys) (List.◌∷◌ z zs) h k =
    ground (arith, codes_leb_trans xs ys zs)

codes_leb_antisym : (xs ys : List ℕ) → codes_leb xs ys ≡ true → codes_leb ys xs ≡ true → xs ≡ ys
unfolding codes_leb
codes_leb_antisym List.[] List.[] h k = refl
codes_leb_antisym List.[] (List.◌∷◌ y ys) h k = absurd (ground arith)
codes_leb_antisym (List.◌∷◌ x xs) List.[] h k = absurd (ground arith)
codes_leb_antisym (List.◌∷◌ x xs) (List.◌∷◌ y ys) h k = ground (arith, codes_leb_antisym xs ys)

codes_injective : (s t : String) → codes s ≡ codes t → s ≡ t
codes_injective [] [] h = refl
codes_injective [] (d ∷ t) h = cc
codes_injective (c ∷ s) [] h = cc
codes_injective (c ∷ s) (d ∷ t) h =
    let first : code c ≡ code d = cc in
    let rest : codes s ≡ codes t = cc in
    ap (λ e. e ∷ s) (Char-path c d first) ∙ ap (λ u. d ∷ u) (codes_injective s t rest)

pub str_leb_total : (s t : String) → str_leb s t ≡ false → str_leb t s ≡ true
str_leb_total s t h =
    str_leb-codes t s ∙ codes_leb_total (codes s) (codes t) (sym (str_leb-codes s t) ∙ h)

pub str_leb_trans : (s t u : String) → str_leb s t ≡ true → str_leb t u ≡ true → str_leb s u ≡ true
str_leb_trans s t u h k =
    str_leb-codes s u
    ∙ codes_leb_trans (codes s) (codes t) (codes u) (sym (str_leb-codes s t) ∙ h)
        (sym (str_leb-codes t u) ∙ k)

pub str_leb_antisym : (s t : String) → str_leb s t ≡ true → str_leb t s ≡ true → s ≡ t
str_leb_antisym s t h k = codes_injective s t (
    codes_leb_antisym (codes s) (codes t) (sym (str_leb-codes s t) ∙ h)
      (sym (str_leb-codes t s) ∙ k))
