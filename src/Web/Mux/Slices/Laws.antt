-- ===== src/Web/Mux/Slices/Laws.antt =====
-- What is read from slices after an append and a clone.
use httper.Base.{
  length-set, ◌⊎◌, inl, inr, Bool-cases, ◌≢◌, refl, ◌<◌, ◌≤◌, leb, get_elem?-append_short,
  length-take, take-append, get_elem?-append_length, get_elem?-set_other, length-append, ℕ, zero,
  suc, ◌+◌, ◌≡◌, sym, ap, ◌∙◌, none, some, List, [], ◌∷◌, ◌++◌, arith, length, set, take, drop,
}
use mathlib.Core.List.{append_assoc}
use httper.Web.World.{Middleware}
use httper.Web.Mux.Slices.{
  Heap, Slice, array_at, read, overwrite, spare, allocate, append_to, clone,
}

take-overwrite :
    (l : List Middleware) (n : ℕ) (xs : List Middleware)
    → n ≤ length l
    → take (n + length xs) (overwrite l n xs) ≡ take n l ++ xs
unfolding overwrite
take-overwrite l n xs h =
    let size : length (take n l ++ xs) ≡ n + length xs =
      length-append (take n l) xs ∙ ap (λ m. m + length xs) (length-take n l h) in
    ap (λ m. take m (take n l ++ (xs ++ drop (n + length xs) l))) (sym size)
    ∙ ap (take (length (take n l ++ xs)))
        (sym (append_assoc (take n l) xs (drop (n + length xs) l)))
    ∙ take-append (take n l ++ xs) (drop (n + length xs) l)

length-overwrite :
    (l : List Middleware) (n : ℕ) (xs : List Middleware)
    → n ≤ length l
    → n + length xs ≤ length (overwrite l n xs)
unfolding overwrite
length-overwrite l n xs h = omega (
  arith,
  length-take n l h,
  length-append (take n l) (xs ++ drop (n + length xs) l),
  length-append xs (drop (n + length xs) l),
)

array_at-allocate :
    (h : Heap) (l : List Middleware) (a : ℕ)
    → a < length h
    → array_at (h ++ l ∷ []) a ≡ array_at h a
unfolding array_at
array_at-allocate h l a b =
    ap (λ o. elim o [ none ↦ [] | some m ↦ m ]) (get_elem?-append_short h l a b)

array_at-new : (h : Heap) (l : List Middleware) → array_at (h ++ l ∷ []) (length h) ≡ l
unfolding array_at
array_at-new h l = ap (λ o. elim o [ none ↦ [] | some m ↦ m ]) (get_elem?-append_length h l)

array_at-set : (h : Heap) (a : ℕ) (l : List Middleware) → a < length h → array_at (set h a l) a ≡ l
unfolding array_at
array_at-set [] a l b = absurd (omega (arith, b))
array_at-set (x ∷ h) zero l b = refl
array_at-set (x ∷ h) (suc a) l b = array_at-set h a l (omega (arith, b))

array_at-set_other :
    (h : Heap) (k a : ℕ) (l : List Middleware) → k ≢ a → array_at (set h k l) a ≡ array_at h a
unfolding array_at
array_at-set_other h k a l other =
    ap (λ o. elim o [ none ↦ [] | some m ↦ m ]) (get_elem?-set_other h k a l other)

-- The slice lies in its array.
pub record IsSlot (h : Heap) (s : Slice) : Type 0 where
  pub bounded : s.array < length h
  pub fits : s.len ≤ length (array_at h s.array)

-- A slice with these elements, and the heap on which it lies, from the heap before: in an array that
-- is new or that was `own`, with the other arrays as they were.
pub record Yields (own : ℕ → Type 0) (l : List Middleware) (h : Heap) (x : Slice × Heap)
    : Type 0 where
  pub holds : read x.1 x.0 ≡ l
  pub slot : IsSlot x.1 x.0
  pub grows : length h ≤ length x.1
  pub place : own x.0.array ⊎ (length h ≤ x.0.array)
  pub others : (a : ℕ) → a < length h → a ≢ x.0.array → array_at x.1 a ≡ array_at h a

module _ (grow : ℕ → ℕ) where
  pub allocate-Yields :
      (own : ℕ → Type 0) (l : List Middleware) (h : Heap) → Yields own l h (allocate grow l h)
  unfolding read
  allocate-Yields own l h =
      let arr = l ++ spare (grow (length l)) in
      record {
        holds = ap (take (length l)) (array_at-new h arr) ∙ take-append l (spare (grow (length l)));
        slot = record {
          bounded = omega (arith, length-append h (arr ∷ []));
          fits =
              omega
                (arith, ap length (array_at-new h arr), length-append l (spare (grow (length l))));
        };
        grows = omega (arith, length-append h (arr ∷ []));
        place = inr (omega arith);
        others = λ a b other. array_at-allocate h arr a b;
      }

  pub clone-Yields : (s : Slice) (h : Heap) → Yields (λ a. ⊥) (read h s) h (clone grow s h)
  unfolding clone
  clone-Yields s h = allocate-Yields (λ a. ⊥) (read h s) h

  in_place-Yields :
      (s : Slice) (xs : List Middleware) (h : Heap)
      → IsSlot h s
      → Yields
          (λ a. a ≡ s.array)
          (read h s ++ xs)
          h
          (
            record s { len = s.len + length xs },
            set h s.array (overwrite (array_at h s.array) s.len xs),
          )
  unfolding read
  in_place-Yields s xs h slot =
      let arr = overwrite (array_at h s.array) s.len xs in
      let stands = array_at-set h s.array arr slot.bounded in
      record {
        holds =
            ap (take (s.len + length xs)) stands
            ∙ take-overwrite (array_at h s.array) s.len xs slot.fits;
        slot = record {
          bounded = omega (arith, slot.bounded, length-set h s.array arr);
          fits =
              omega
                (arith, ap length stands, length-overwrite (array_at h s.array) s.len xs slot.fits);
        };
        grows = omega (arith, length-set h s.array arr);
        place = inl refl;
        others = λ a b other. array_at-set_other h s.array a arr (λ e. other (sym e));
      }

  pub append_to-Yields :
      (s : Slice) (xs : List Middleware) (h : Heap)
      → IsSlot h s
      → Yields (λ a. a ≡ s.array) (read h s ++ xs) h (append_to grow s xs h)
  unfolding append_to
  append_to-Yields s xs h slot =
      elim (Bool-cases (leb (s.len + length xs) (length (array_at h s.array)))) [
        | inl room ↦ rw room (in_place-Yields s xs h slot)
        | inr full ↦ rw full (allocate-Yields (λ a. a ≡ s.array) (read h s ++ xs) h)
      ]
