-- ===== src/Web/Glob/Laws.antt =====
-- The matcher decides the declarative meaning of a pattern.
use httper.Web.Glob.{Token, lit, single, star, class, takes, matches}
use httper.Base.{
  ℕ, ◌≡◌, refl, ◌≢◌, ◌↔◌, inl, inr, true, false, List, [], ◌∷◌, arith, ◌==◌, Bool-cases,
}

-- The tokens take the text.
pub data Matches : List Token → List ℕ → Type 0 where
  nothing : Matches [] []
  skip : {ts : List Token} {cs : List ℕ} → Matches ts cs → Matches (star ∷ ts) cs
  stretch :
      {ts : List Token} {c : ℕ} {cs : List ℕ}
      → c ≢ b'/'
      → Matches (star ∷ ts) cs
      → Matches (star ∷ ts) (c ∷ cs)
  one :
      {t : Token} {ts : List Token} {c : ℕ} {cs : List ℕ}
      → takes t c ≡ true
      → Matches ts cs
      → Matches (t ∷ ts) (c ∷ cs)

matches_sound : (ts : List Token) (cs : List ℕ) → matches ts cs ≡ true → Matches ts cs
unfolding matches
matches_sound [] [] h = nothing
matches_sound [] (c ∷ cs) h = cc
matches_sound (star ∷ ts) [] h = skip (matches_sound ts [] h)
matches_sound (star ∷ ts) (c ∷ cs) h = elim (Bool-cases (matches ts (c ∷ cs))) [
  | inl now ↦ skip (matches_sound ts (c ∷ cs) now)
  | inr later ↦ elim (Bool-cases (c == b'/')) [
    | inl slash ↦ absurd (ground arith)
    | inr other ↦ stretch (ground arith) (matches_sound (star ∷ ts) cs (ground arith))
  ]
]
matches_sound (t ∷ ts) [] h = cc
matches_sound (t ∷ ts) (c ∷ cs) h = elim (Bool-cases (takes t c)) [
  | inl e ↦ one e (matches_sound ts cs (ground arith))
  | inr e ↦ absurd (ground arith)
]

matches-skip :
    (ts : List Token) (cs : List ℕ) → matches ts cs ≡ true → matches (star ∷ ts) cs ≡ true
unfolding matches
matches-skip ts [] h = h
matches-skip ts (c ∷ cs) h = rw h refl

matches-stretch :
    (ts : List Token) (c : ℕ) (cs : List ℕ)
    → (c == b'/') ≡ false
    → matches (star ∷ ts) cs ≡ true
    → matches (star ∷ ts) (c ∷ cs) ≡ true
unfolding matches
matches-stretch ts c cs other h = elim (Bool-cases (matches ts (c ∷ cs))) [
  | inl now ↦ matches-skip ts (c ∷ cs) now
  | inr later ↦ rw (later, other) h
]

matches-one :
    (t : Token) (ts : List Token) (c : ℕ) (cs : List ℕ)
    → takes t c ≡ true
    → matches ts cs ≡ true
    → matches (t ∷ ts) (c ∷ cs) ≡ true
unfolding matches
matches-one (lit d) ts c cs e h = ground arith
matches-one single ts c cs e h = ground arith
matches-one star ts c cs e h = cc
matches-one (class n rs) ts c cs e h = rw (e, takes, matches) h

matches_complete : {ts : List Token} {cs : List ℕ} → Matches ts cs → matches ts cs ≡ true
unfolding matches
matches_complete nothing = refl
matches_complete (skip {ts} {cs} m) = matches-skip ts cs (matches_complete m)
matches_complete (stretch {ts} {c} {cs} ne m) =
    matches-stretch ts c cs (ground arith) (matches_complete m)
matches_complete (one {t} {ts} {c} {cs} e m) = matches-one t ts c cs e (matches_complete m)

-- path.Match accepts exactly the texts that the tokens of the pattern take.
pub matches_iff : (ts : List Token) (cs : List ℕ) → (matches ts cs ≡ true) ↔ Matches ts cs
matches_iff ts cs = (matches_sound ts cs, matches_complete)
