-- ===== src/Base/Text/Split.antt =====
-- strings.Split and strings.Cut on texts that were put together with a separator.
use Prim.Native.Nat.{ℕ}
use Prim.Native.Char.{Char, code}
use Prim.Native.String
use Prim.Native.String.{String}
use mathlib.Core.Path.{◌≡◌, refl, ap, ◌∙◌}
use mathlib.Core.Bool.{true, false, ◌||◌}
use mathlib.Core.List.{List, [], ◌∷◌}
use native.Mathlib.Omega.{arith}
use text.Mathlib.TextLemmas.{nil-append, cons-append, append-nil, append_assoc}
use httper.Base.Tests.{◌==◌}
use httper.Base.Lists.{All}
use httper.Base.Text.{contains_char, push, split_from, split, cut, join_strings}

-- A text of one character in front of another
pub one-append : (d : Char) (t : String) → String.◌++◌ (String.◌∷◌ d String.[]) t ≡ String.◌∷◌ d t
one-append d t = cons-append d String.[] t ∙ ap (String.◌∷◌ d) (nil-append t)

pub contains_char-append :
    (c : ℕ) (s t : String)
    → contains_char c (String.◌++◌ s t) ≡ (contains_char c s || contains_char c t)
unfolding contains_char
contains_char-append c String.[] t = rw (nil-append t) refl
contains_char-append c (String.◌∷◌ d s) t =
    rw (cons-append d s t) (ground (arith, contains_char-append c s t))

push-append :
    (cur : String) (d : Char) (s : String)
    → String.◌++◌ (push cur d) s ≡ String.◌++◌ cur (String.◌∷◌ d s)
push-append cur d s =
    append_assoc cur (String.◌∷◌ d String.[]) s ∙ ap (String.◌++◌ cur) (one-append d s)

split_from-last :
    (c : ℕ) (cur p : String)
    → contains_char c p ≡ false
    → split_from c cur p ≡ String.◌++◌ cur p ∷ []
unfolding contains_char split_from
split_from-last c cur String.[] h = rw (append-nil cur) refl
split_from-last c cur (String.◌∷◌ d p) h =
    rw (← push-append cur d p) (ground (arith, split_from-last c (push cur d) p))

split_from-append :
    (c : ℕ) (d : Char) (cur p rest : String)
    → (code d == c) ≡ true
    → contains_char c p ≡ false
    → split_from c cur (String.◌++◌ p (String.◌∷◌ d rest))
      ≡ String.◌++◌ cur p ∷ split_from c "" rest
unfolding contains_char split_from
split_from-append c d cur String.[] rest same h =
    rw (nil-append (String.◌∷◌ d rest), append-nil cur, same) refl
split_from-append c d cur (String.◌∷◌ x p) rest same h =
    rw (cons-append x p (String.◌∷◌ d rest), ← push-append cur x p)
      (ground (arith, split_from-append c d (push cur x) p rest same))

-- A list of parts without the separator, joined and split again
pub split-join_strings :
    (c : ℕ) (d : Char) (p : String) (ps : List String)
    → (code d == c) ≡ true
    → contains_char c p ≡ false
    → All (λ q. contains_char c q ≡ false) ps
    → split c (join_strings (String.◌∷◌ d String.[]) (p ∷ ps)) ≡ p ∷ ps
unfolding split join_strings
split-join_strings c d p [] same h hs = split_from-last c "" p h ∙ ap (λ x. x ∷ []) (nil-append p)
split-join_strings c d p (q ∷ ps) same h hs =
    let rest = join_strings (String.◌∷◌ d String.[]) (q ∷ ps) in
    ap (λ t. split_from c "" (String.◌++◌ p t)) (one-append d rest)
    ∙ split_from-append c d "" p rest same h
    ∙ ap (λ x. x ∷ split_from c "" rest) (nil-append p)
    ∙ ap (λ l. p ∷ l) (split-join_strings c d q ps same hs.0 hs.1)

pub cut-append :
    (c : ℕ) (d : Char) (p rest : String)
    → (code d == c) ≡ true
    → contains_char c p ≡ false
    → cut c (String.◌++◌ p (String.◌∷◌ d rest)) ≡ (p, rest)
unfolding contains_char cut
cut-append c d String.[] rest same h = rw (nil-append (String.◌∷◌ d rest), same) refl
cut-append c d (String.◌∷◌ x p) rest same h =
    rw (cons-append x p (String.◌∷◌ d rest)) (ground (arith, cut-append c d p rest same))
