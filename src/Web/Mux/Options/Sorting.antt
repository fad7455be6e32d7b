-- ===== src/Web/Mux/Options/Sorting.antt =====
-- The stable sort by priority, and the split by class.
use httper.Web.Mux.Options.{Ordered, insert_ordered, sort_stable}
use httper.Base.{
  ℕ, ◌≤◌, ◌<◌, ◌≡◌, refl, sym, ◌∙◌, ◌≢◌, ◌⊎◌, inl, inr, List, [], ◌∷◌, ◌++◌, arith, ◌==◌,
  if◌then◌else◌, All, All-append,
}

-- The entries of one priority, in order.
unfoldable pub at : ℕ → List Ordered → List Ordered
at p [] = []
at p (x ∷ xs) = if x.priority == p then x ∷ at p xs else at p xs

at-priority : (p : ℕ) (xs : List Ordered) → All (λ y. y.priority ≡ p) (at p xs)
unfolding at
at-priority p [] = tt
at-priority p (x ∷ xs) = ground (arith, at-priority p xs)

-- An element goes behind all that is below it,
insert_ordered_skip :
    (x : Ordered) (ys zs : List Ordered) (p : ℕ)
    → All (λ y. y.priority ≡ p) ys
    → p < x.priority
    → insert_ordered x (ys ++ zs) ≡ ys ++ insert_ordered x zs
unfolding insert_ordered
insert_ordered_skip x [] zs p h lt = refl
insert_ordered_skip x (y ∷ ys) zs p h lt = ground (arith, insert_ordered_skip x ys zs p h.1 lt)

-- and before all that is not below it.
insert_ordered_front :
    (x : Ordered) (ys : List Ordered)
    → All (λ y. x.priority ≤ y.priority) ys
    → insert_ordered x ys ≡ x ∷ ys
unfolding insert_ordered
insert_ordered_front x [] h = refl
insert_ordered_front x (y ∷ ys) h = ground arith

-- The entries of the priorities of `ps`, one priority after the other.
unfoldable pub buckets : List ℕ → List Ordered → List Ordered
buckets [] xs = []
buckets (p ∷ ps) xs = at p xs ++ buckets ps xs

-- The priorities rise, and all are above `p`.
abbrev pub IsRising : ℕ → List ℕ → Type 0
IsRising p [] = Unit
IsRising p (q ∷ qs) = (p < q) × IsRising q qs

All-le :
    (x : ℕ) (p : ℕ) (ys : List Ordered)
    → x ≤ p
    → All (λ y. y.priority ≡ p) ys
    → All (λ y. x ≤ y.priority) ys
All-le x p [] h a = tt
All-le x p (y ∷ ys) h a = (omega arith, All-le x p ys h a.1)

buckets-above :
    (q x : ℕ) (ps : List ℕ) (xs : List Ordered)
    → x ≤ q
    → IsRising q ps
    → All (λ y. x ≤ y.priority) (buckets ps xs)
unfolding buckets
buckets-above q x [] xs h r = tt
buckets-above q x (p ∷ ps) xs h r =
    All-append _ (at p xs) (buckets ps xs) (All-le x p (at p xs) (omega arith) (at-priority p xs))
      (buckets-above p x ps xs (omega arith) r.1)

at-cons_ne : (p : ℕ) (x : Ordered) (xs : List Ordered) → x.priority ≢ p → at p (x ∷ xs) ≡ at p xs
unfolding at
at-cons_ne p x xs h = ground arith

at-cons_eq :
    (p : ℕ) (x : Ordered) (xs : List Ordered) → x.priority ≡ p → at p (x ∷ xs) ≡ x ∷ at p xs
unfolding at
at-cons_eq p x xs h = ground arith

buckets-cons_below :
    (q : ℕ) (ps : List ℕ) (x : Ordered) (xs : List Ordered)
    → x.priority ≤ q
    → IsRising q ps
    → buckets ps (x ∷ xs) ≡ buckets ps xs
unfolding buckets
buckets-cons_below q [] x xs h r = refl
buckets-cons_below q (p ∷ ps) x xs h r =
    rw (at-cons_ne p x xs (omega arith), buckets-cons_below p ps x xs (omega arith) r.1)

-- The priority is one of the list.
abbrev pub IsOneOf : ℕ → List ℕ → Type 0
IsOneOf x [] = ⊥
IsOneOf x (p ∷ ps) = (x ≡ p) ⊎ IsOneOf x ps

IsOneOf-above : (q x : ℕ) (ps : List ℕ) → IsRising q ps → IsOneOf x ps → q < x
IsOneOf-above q x [] r o = absurd o
IsOneOf-above q x (p ∷ ps) r (inl e) = omega arith
IsOneOf-above q x (p ∷ ps) r (inr o) = let above = IsOneOf-above p x ps r.1 o in omega arith

insert-buckets :
    (q : ℕ) (ps : List ℕ) (x : Ordered) (xs : List Ordered)
    → IsRising q ps
    → IsOneOf x.priority ps
    → insert_ordered x (buckets ps xs) ≡ buckets ps (x ∷ xs)
unfolding buckets
insert-buckets q [] x xs r o = absurd o
insert-buckets q (p ∷ ps) x xs r (inl e) =
    insert_ordered_front x (at p xs ++ buckets ps xs) (
      All-append _ (at p xs) (buckets ps xs)
        (All-le x.priority p (at p xs) (omega arith) (at-priority p xs))
        (buckets-above p x.priority ps xs (omega arith) r.1))
    ∙ rw (at-cons_eq p x xs e, buckets-cons_below p ps x xs (omega arith) r.1)
insert-buckets q (p ∷ ps) x xs r (inr o) =
    let above = IsOneOf-above p x.priority ps r.1 o in
    insert_ordered_skip x (at p xs) (buckets ps xs) p (at-priority p xs) above
    ∙ rw (at-cons_ne p x xs (omega arith), insert-buckets p ps x xs r.1 o)

buckets-nil : (ps : List ℕ) → buckets ps [] ≡ []
unfolding buckets at
buckets-nil [] = refl
buckets-nil (p ∷ ps) = buckets-nil ps

-- The stable sort puts the priorities one after the other and keeps the order within each.
pub sort_stable-buckets :
    (q : ℕ) (ps : List ℕ) (xs : List Ordered)
    → IsRising q ps
    → All (λ x. IsOneOf x.priority ps) xs
    → sort_stable xs ≡ buckets ps xs
unfolding sort_stable
sort_stable-buckets q ps [] r a = sym (buckets-nil ps)
sort_stable-buckets q ps (x ∷ xs) r a =
    rw (sort_stable-buckets q ps xs r a.1) (insert-buckets q ps x xs r a.0)
