-- ===== src/Download/Files/Laws.antt =====
-- What is read back after a change of the files.
use httper.Download.Files.{Fs, lookup, remove, store, rename}
use httper.Base.{
  ℕ, String, ◌≡◌, ◌∙◌, none, some, List, [], ◌∷◌, arith, str_eq, eq_iff, if◌then◌else◌,
}

pub lookup-remove :
    (p q : String) (fs : Fs) → lookup q (remove p fs) ≡ (if str_eq p q then none else lookup q fs)
unfolding lookup remove
lookup-remove p q [] = ground arith
lookup-remove p q ((r, c) ∷ fs) =
    ground (arith, eq_iff p q, eq_iff r p, eq_iff r q, lookup-remove p q fs)

pub lookup-store :
    (p q : String) (c : List ℕ) (fs : Fs)
    → lookup q (store p c fs) ≡ (if str_eq p q then some c else lookup q fs)
unfolding store lookup
lookup-store p q c fs = ground (arith, eq_iff p q, lookup-remove p q fs)

pub lookup-rename :
    (p q r : String) (c : List ℕ) (fs : Fs)
    → lookup p fs ≡ some c
    → lookup r (rename p q fs)
      ≡ (if str_eq q r then some c else if str_eq p r then none else lookup r fs)
unfolding rename
lookup-rename p q r c fs h =
    rw h (lookup-store q r c (remove p fs) ∙ ground (arith, lookup-remove p r fs))

pub lookup-store_self : (p : String) (c : List ℕ) (fs : Fs) → lookup p (store p c fs) ≡ some c
lookup-store_self p c fs = ground (arith, eq_iff p p, lookup-store p p c fs)
