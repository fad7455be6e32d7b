-- ===== src/Download/Handle/Success.antt =====
-- When a download succeeds, in terms of what it is given.
use httper.Base.{
  inl, inr, Bool-cases, refl, ◌++◌, length, not, ap, ℕ, String, List, ℤ, ◌∙◌, ◌≡◌, Bool, true,
  false, ◌&&◌, Option, none, some, [], ◌∷◌, arith,
}
use httper.Download.Writers.{ChecksumVerifier, hash_write, verify}
use httper.GoError.{GoError}
use httper.Download.Files.{Fs, exists}
use httper.Download.Handle.{
  Attempt, Body, last, more, Copying, write_chunk, copy, mismatches, finish, start, handle,
  Settings, Os, created,
}
use httper.Download.Handle.Laws.{handle-finish}
use httper.Download.Handle.Stream.{body_bytes, copy-Written}

-- The context is live at this round, and what was read, if anything, can be written.
abbrev is_written : Attempt → Bool
is_written a = elim a.ctx_err [
  | some e ↦ false
  | none ↦ elim a.bytes [ [] ↦ true | b ∷ bs ↦ elim a.write_err [ none ↦ true | some e ↦ false ] ]
]

abbrev pub is_nil : Option GoError → Bool
is_nil none = true
is_nil (some e) = false

-- So at every round, and the body ends with no error.
pub is_intact : Body → Bool
is_intact (last a end) = is_written a && is_nil end
is_intact (more a body) = is_written a && is_intact body

is_nil-copy : (body : Body) (c : Copying) → is_nil (copy body c).0 ≡ is_intact body
unfolding copy write_chunk is_intact
is_nil-copy (last a end) c = ground arith
is_nil-copy (more a body) c = ground (arith, is_nil-copy body (write_chunk a c).1)

nil_none : (o : Option GoError) → is_nil o ≡ true → o ≡ none
nil_none none h = refl
nil_none (some e) h = cc

module _ (digest : List ℕ → String) (os : Os) where
  -- Behind the copy: the announced length and the checksum are right, and the file is published.
  abbrev pub is_accepted : ℤ → List ℕ → Option ChecksumVerifier → Bool
  is_accepted content_length bytes checksum =
      not (mismatches content_length (length bytes))
      && (is_nil (verify digest checksum)
          && (is_nil os.sync_err && (is_nil os.close_err && is_nil os.rename_err)))

  is_nil-finish :
      (temp dest : String) (content_length : ℤ) (fs : Fs) (e : Option GoError) (c : Copying)
      → is_nil (finish digest os temp dest content_length fs (e, c)).0
        ≡ (is_nil e && is_accepted content_length c.content c.checksum)
  unfolding finish
  is_nil-finish temp dest content_length fs none c = ground arith
  is_nil-finish temp dest content_length fs (some e) c = ground arith

  accepted :
      (body : Body) (content_length : ℤ) (c : Copying)
      → c.content ≡ []
      → (is_nil (copy body c).0
          && is_accepted content_length (copy body c).1.content (copy body c).1.checksum)
        ≡ (is_intact body
            && is_accepted content_length
                (body_bytes body)
                (hash_write (body_bytes body) c.checksum))
  accepted body content_length c empty = elim (Bool-cases (is_intact body)) [
    | inr broken ↦ rw (is_nil-copy body c, broken) refl
    | inl intact ↦
        let written =
          copy-Written body c (nil_none (copy body c).0 (is_nil-copy body c ∙ intact)) in
        let content = written.0 ∙ ap (λ l. l ++ body_bytes body) empty in
        rw (is_nil-copy body c, intact, content, written.1) refl
  ]

  -- Handle, which does not skip the download and has created its temporary file, reports no error
  -- exactly when, at every round, the context is live and what was read can be written, the body
  -- ends with no error, its length is the announced one, if one was announced, the checksum of its
  -- bytes behind what the hash was fed before is the expected one, if one was asked for, and Sync,
  -- Close and Rename report none.
  pub is_nil-handle :
      (body : Body) (content_length : ℤ) (dest : String) (opts : Settings) (fs : Fs) (temp : String)
      → (opts.skip_existing && exists dest fs) ≡ false
      → os.create_temp ≡ created temp
      → is_nil (handle digest os body content_length dest opts fs).0 ≡ (
          is_intact body
          && is_accepted content_length
              (body_bytes body)
              (hash_write (body_bytes body) opts.checksum))
  is_nil-handle body content_length dest opts fs temp runs made =
      let r = copy body (start os.start_time content_length opts) in
      ap (λ o. is_nil o.0) (handle-finish digest os body content_length dest opts fs temp runs made)
      ∙ is_nil-finish temp dest content_length fs r.0 r.1
      ∙ accepted body content_length (start os.start_time content_length opts) refl
