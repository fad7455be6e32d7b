-- ===== src/Download/Files.antt =====
-- The files that the program sees: paths with their contents, as package os changes them.
pub mod Laws
use httper.Base.{
  ℕ, String, Bool, true, false, Option, none, some, List, [], ◌∷◌, str_eq, if◌then◌else◌,
}

abbrev pub Fs : Type 0
Fs = List (String × List ℕ)

unfoldable pub lookup : String → Fs → Option (List ℕ)
lookup p [] = none
lookup p ((q, c) ∷ fs) = if str_eq q p then some c else lookup p fs

unfoldable pub remove : String → Fs → Fs
remove p [] = []
remove p ((q, c) ∷ fs) = if str_eq q p then remove p fs else (q, c) ∷ remove p fs

-- The file holds this, whatever was there.
unfoldable pub store : String → List ℕ → Fs → Fs
unfolding remove
store p c fs = (p, c) ∷ remove p fs

abbrev rename_to : Option (List ℕ) → String → String → Fs → Fs
rename_to none p q fs = fs
rename_to (some c) p q fs = store q c (remove p fs)

-- os.Rename, which replaces the target
unfoldable pub rename : String → String → Fs → Fs
rename p q fs = rename_to (lookup p fs) p q fs

-- os.Stat finds the path
unfoldable pub exists : String → Fs → Bool
unfolding lookup
exists p fs = elim (lookup p fs) [ none ↦ false | some _ ↦ true ]
