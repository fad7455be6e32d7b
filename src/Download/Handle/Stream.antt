-- ===== src/Download/Handle/Stream.antt =====
-- What io.Copy leaves in the writers.
use mathlib.Core.List.{append-nil, append_assoc}
use httper.Download.Writers.{ChecksumVerifier, hash_write}
use httper.Download.Handle.{Attempt, Body, last, more, Copying, write_chunk, copy}
use httper.Base.{
  refl, some, inl, inr, sym, Option-cases, [], Option, arith, ◌∙◌, ℕ, ◌≡◌, none, List, ◌++◌,
}

-- The bytes that the body yields.
pub body_bytes : Body → List ℕ
body_bytes (last a end) = a.bytes
body_bytes (more a body) = a.bytes ++ body_bytes body

hash_write-nil : (v : Option ChecksumVerifier) → hash_write [] v ≡ v
unfolding hash_write
hash_write-nil none = refl
hash_write-nil (some v) = ground (arith, append-nil v.hashed)

hash_write-append :
    (p q : List ℕ) (v : Option ChecksumVerifier)
    → hash_write (p ++ q) v ≡ hash_write q (hash_write p v)
unfolding hash_write
hash_write-append p q none = refl
hash_write-append p q (some v) = ground (arith, append_assoc v.hashed p q)

-- Both writers have got the bytes.
abbrev Written : List ℕ → Copying → Copying → Type 0
Written p c c' = (c'.content ≡ c.content ++ p) × (c'.checksum ≡ hash_write p c.checksum)

write_chunk-Written :
    (a : Attempt) (c : Copying) → (write_chunk a c).0 ≡ none → Written a.bytes c (write_chunk a c).1
unfolding write_chunk
write_chunk-Written a c h = ground (arith, append-nil c.content, hash_write-nil c.checksum)

Written-append :
    (p q : List ℕ) (c c' c'' : Copying) → Written p c c' → Written q c' c'' → Written (p ++ q) c c''
Written-append p q c c' c'' h k = (
  k.0 ∙ rw (h.0) (append_assoc c.content p q),
  k.1 ∙ rw (h.1) (sym (hash_write-append p q c.checksum)),
)

-- A copy that ends with no error has put every byte of the body, in order, into the file and into
-- the checksum.
pub copy-Written :
    (body : Body) (c : Copying)
    → (copy body c).0 ≡ none
    → Written (body_bytes body) c (copy body c).1
unfolding copy body_bytes
copy-Written (last a end) c h = ground (arith, write_chunk-Written a c)
copy-Written (more a body) c h = elim (Option-cases a.ctx_err) [
  | inl live ↦ elim (Option-cases (write_chunk a c).0) [
    | inl wrote ↦
        let c' = (write_chunk a c).1 in
        let rest = copy-Written body c' (ground arith) in
        let both =
          Written-append a.bytes (body_bytes body) c c' (copy body c').1
            (write_chunk-Written a c wrote) rest in
        ground (arith, both)
    | inr (e, failed) ↦ absurd (ground arith)
  ]
  | inr (e, over) ↦ absurd (ground arith)
]
