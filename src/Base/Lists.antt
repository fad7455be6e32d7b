-- ===== src/Base/Lists.antt =====
-- Lists measured by native numbers, and predicates on them by recursion.
use Prim.Native.Nat.{ℕ, zero, suc, ◌+◌, ◌≤◌, ◌<◌}
use mathlib.Core.Path.{◌≡◌, refl, ap}
use mathlib.Core.Logic.{◌⊎◌, inl, inr, ◌≢◌}
use mathlib.Core.Bool.{Bool, false, ◌||◌}
use mathlib.Core.List.{map, foldl, List, [], ◌∷◌, ◌++◌}
use mathlib.Core.Option
use mathlib.Core.Option.{Option, none, some}
use native.Mathlib.Omega.{arith}

module _ {ℓ} {A : Type ℓ} where
  abbrev pub length : List A → ℕ
  length [] = 0
  length (x ∷ xs) = suc (length xs)

  pub length-append : (xs ys : List A) → length (xs ++ ys) ≡ length xs + length ys
  length-append [] ys = omega arith
  length-append (x ∷ xs) ys = omega (arith, length-append xs ys)

  abbrev pub get_elem? : List A → ℕ → Option A
  get_elem? [] i = none
  get_elem? (x ∷ xs) zero = some x
  get_elem? (x ∷ xs) (suc i) = get_elem? xs i

  -- A write out of bounds changes nothing.
  abbrev pub set : List A → ℕ → A → List A
  set [] i v = []
  set (x ∷ xs) zero v = v ∷ xs
  set (x ∷ xs) (suc i) v = x ∷ set xs i v

  -- Whether some element passes the test.
  abbrev pub any : (A → Bool) → List A → Bool
  any p [] = false
  any p (x ∷ xs) = p x || any p xs

module _ {ℓ κ} {A : Type ℓ} (P : A → Type κ) where
  abbrev pub All : List A → Type κ
  All [] = Unit
  All (x ∷ xs) = P x × All xs

  pub All-append : (xs ys : List A) → All xs → All ys → All (xs ++ ys)
  All-append [] ys hx hy = hy
  All-append (x ∷ xs) ys hx hy = (hx.0, All-append xs ys hx.1 hy)

pub take {ℓ} : {A : Type ℓ} → ℕ → List A → List A
take zero xs = []
take (suc n) [] = []
take (suc n) (x ∷ xs) = x ∷ take n xs

pub drop {ℓ} : {A : Type ℓ} → ℕ → List A → List A
drop zero xs = xs
drop (suc n) [] = []
drop (suc n) (x ∷ xs) = drop n xs

pub take-short {ℓ} : {A : Type ℓ} (n : ℕ) (xs : List A) → length xs ≤ n → take n xs ≡ xs
unfolding take
take-short zero [] h = refl
take-short zero (x ∷ xs) h = absurd (omega arith)
take-short (suc n) [] h = refl
take-short (suc n) (x ∷ xs) h = ap (λ l. x ∷ l) (take-short n xs (omega arith))

pub foldl-append {ℓ κ} :
    {A : Type ℓ} {B : Type κ} (f : A → B → A) (a : A) (xs ys : List B)
    → foldl f a (xs ++ ys) ≡ foldl f (foldl f a xs) ys
foldl-append f a [] ys = refl
foldl-append f a (x ∷ xs) ys = foldl-append f (f a x) xs ys

pub get_elem?-append_length {ℓ} :
    {A : Type ℓ} (xs : List A) (v : A) → get_elem? (xs ++ v ∷ []) (length xs) ≡ some v
get_elem?-append_length [] v = refl
get_elem?-append_length (x ∷ xs) v = get_elem?-append_length xs v

pub get_elem?-set_self {ℓ} :
    {A : Type ℓ} (xs : List A) (i : ℕ) (v : A) {x : A}
    → get_elem? xs i ≡ some x
    → get_elem? (set xs i v) i ≡ some v
get_elem?-set_self [] i v h = cc
get_elem?-set_self (x ∷ xs) zero v h = refl
get_elem?-set_self (x ∷ xs) (suc i) v h = get_elem?-set_self xs i v h

pub get_elem?-set_other {ℓ} :
    {A : Type ℓ} (xs : List A) (k i : ℕ) (v : A) → k ≢ i → get_elem? (set xs k v) i ≡ get_elem? xs i
get_elem?-set_other [] k i v h = refl
get_elem?-set_other (x ∷ xs) zero zero v h = absurd (h refl)
get_elem?-set_other (x ∷ xs) zero (suc i) v h = refl
get_elem?-set_other (x ∷ xs) (suc k) zero v h = refl
get_elem?-set_other (x ∷ xs) (suc k) (suc i) v h = get_elem?-set_other xs k i v (λ e. h (ap suc e))

pub get_elem?-map {ℓ κ} :
    {A : Type ℓ} {B : Type κ} (f : A → B) (xs : List A) (i : ℕ) (x : A)
    → get_elem? xs i ≡ some x
    → get_elem? (map f xs) i ≡ some (f x)
get_elem?-map f [] i x h = cc
get_elem?-map f (y ∷ xs) zero x h = ap (Option.map f) h
get_elem?-map f (y ∷ xs) (suc i) x h = get_elem?-map f xs i x h

pub length-take {ℓ} : {A : Type ℓ} (n : ℕ) (l : List A) → n ≤ length l → length (take n l) ≡ n
unfolding take
length-take zero l h = refl
length-take (suc n) [] h = absurd (omega (arith, h))
length-take (suc n) (x ∷ l) h = ap suc (length-take n l (omega (arith, h)))

-- The first elements of an append are those of the first list.
pub take-append {ℓ} : {A : Type ℓ} (xs ys : List A) → take (length xs) (xs ++ ys) ≡ xs
unfolding take
take-append [] ys = refl
take-append (x ∷ xs) ys = ap (λ l. x ∷ l) (take-append xs ys)

pub get_elem?-append_short {ℓ} :
    {A : Type ℓ} (l : List A) (x : A) (i : ℕ)
    → i < length l
    → get_elem? (l ++ x ∷ []) i ≡ get_elem? l i
get_elem?-append_short [] x i b = absurd (omega (arith, b))
get_elem?-append_short (y ∷ l) x zero b = refl
get_elem?-append_short (y ∷ l) x (suc i) b = get_elem?-append_short l x i (omega (arith, b))

pub length-set {ℓ} : {A : Type ℓ} (l : List A) (i : ℕ) (x : A) → length (set l i x) ≡ length l
length-set [] i x = refl
length-set (y ∷ l) zero x = refl
length-set (y ∷ l) (suc i) x = ap suc (length-set l i x)

-- What stands in a list to which an element was added
pub get_elem?-snoc {ℓ} :
    {A : Type ℓ} (l : List A) (x : A) (i : ℕ) {y : A}
    → get_elem? (l ++ x ∷ []) i ≡ some y
    → (get_elem? l i ≡ some y) ⊎ ((i ≡ length l) × (x ≡ y))
get_elem?-snoc [] x zero h = inr (refl, cc)
get_elem?-snoc [] x (suc i) h = cc
get_elem?-snoc (z ∷ l) x zero h = inl h
get_elem?-snoc (z ∷ l) x (suc i) h = elim (get_elem?-snoc l x i h) [
  | inl there ↦ inl there
  | inr (last, same) ↦ inr (ap suc last, same)
]

pub get_elem?-map_eq {ℓ κ} :
    {A : Type ℓ} {B : Type κ} (f : A → B) (l : List A) (i : ℕ)
    → get_elem? (map f l) i ≡ Option.map f (get_elem? l i)
get_elem?-map_eq f [] i = refl
get_elem?-map_eq f (x ∷ l) zero = refl
get_elem?-map_eq f (x ∷ l) (suc i) = get_elem?-map_eq f l i

-- Functions that agree on the elements
pub map-agree {ℓ κ} :
    {A : Type ℓ} {B : Type κ} (f g : A → B) (l : List A)
    → ((k : ℕ) (a : A) → get_elem? l k ≡ some a → f a ≡ g a)
    → map f l ≡ map g l
map-agree f g [] h = refl
map-agree f g (x ∷ l) h = cc (h 0 x refl, map-agree f g l (λ k a there. h (suc k) a there))

-- and on all but one, which is replaced
pub map-set {ℓ κ} :
    {A : Type ℓ} {B : Type κ} (f g : A → B) (l : List A) (i : ℕ) (x : A) (y : B)
    → f x ≡ y
    → ((k : ℕ) (a : A) → k ≢ i → get_elem? l k ≡ some a → f a ≡ g a)
    → map f (set l i x) ≡ set (map g l) i y
map-set f g [] i x y e h = refl
map-set f g (z ∷ l) zero x y e h =
    cc (e, map-agree f g l (λ k a there. h (suc k) a (λ s. omega (arith, s)) there))
map-set f g (z ∷ l) (suc i) x y e h = cc (
  h 0 z (λ s. omega (arith, s)) refl,
  map-set f g l i x y e (λ k a other there. h (suc k) a (λ s. other (omega (arith, s))) there),
)

-- The value of the last element that gives one, or `d`
unfoldable pub last_given {ℓ κ} : {A : Type ℓ} {B : Type κ} → (A → Option B) → B → List A → B
last_given pick d [] = d
last_given pick d (x ∷ xs) = last_given pick (elim (pick x) [ none ↦ d | some b ↦ b ]) xs
