-- ===== src/Download/Handle/Laws.antt =====
-- A download is all or nothing: on success the file holds the body, on failure the files are as
-- they were.
use httper.Download.Files.Laws.{lookup-store_self, lookup-store, lookup-rename, lookup-remove}
use httper.Download.Model.{download_cancelled, canceled}
use httper.Download.Handle.Stream.{copy-Written, body_bytes}
use httper.GoError.{is_error, GoError}
use httper.Download.Files.{lookup, exists, Fs, store, remove, rename}
use httper.Download.Writers.{hash_write, verify}
use httper.Download.Handle.{
  start, copy, created, copy_error, handle, Settings, Body, Copying, Os, mismatches, finish,
}
use httper.Base.{
  eq_iff, str_eq, refl, true, ◌∙◌, ◌&&◌, if◌then◌else◌, ℕ, String, ◌≡◌, false, Option, none, some,
  List, arith, length, ℤ,
}

module _ (digest : List ℕ → String) (os : Os) (temp dest : String) where
  finish-fails :
      (content_length : ℤ) (fs : Fs) (r : Option GoError × Copying) {e : GoError}
      → (finish digest os temp dest content_length fs r).0 ≡ some e
      → os.remove_err ≡ none
      → (finish digest os temp dest content_length fs r).1 ≡ remove temp (store temp r.1.content fs)
  unfolding finish
  finish-fails content_length fs (some e, c) h removes = ground arith
  finish-fails content_length fs (none, c) h removes = ground arith

  -- What holds when everything went well.
  record IsFinished (content_length : ℤ) (fs fs' : Fs) (r : Option GoError × Copying) : Type 0 where
    copied : r.0 ≡ none
    complete : mismatches content_length (length r.1.content) ≡ false
    verified : verify digest r.1.checksum ≡ none
    moved : fs' ≡ rename temp dest (store temp r.1.content fs)

  finish-succeeds :
      (content_length : ℤ) (fs : Fs) (r : Option GoError × Copying)
      → (finish digest os temp dest content_length fs r).0 ≡ none
      → IsFinished content_length fs (finish digest os temp dest content_length fs r).1 r
  unfolding finish
  finish-succeeds content_length fs (some e, c) h = ground arith
  finish-succeeds content_length fs (none, c) h = ground arith

module _ (digest : List ℕ → String) (os : Os) (body : Body) (content_length : ℤ) (dest : String)
    (opts : Settings) (fs : Fs) (temp : String) where
  pub handle-finish :
      (opts.skip_existing && exists dest fs) ≡ false
      → os.create_temp ≡ created temp
      → handle digest os body content_length dest opts fs
        ≡ finish digest os temp dest content_length fs
            (copy body (start os.start_time content_length opts))
  unfolding handle
  handle-finish runs made = rw (runs, made) refl

  -- What Handle promises when it reports no error, at any path `q`: the destination holds the whole
  -- body, the temporary file is gone, and every other file is as it was. The announced length, if
  -- there was one, is the length of the body, and the checksum, if one was asked for, is that of
  -- what the hash was fed before and the body.
  abbrev pub Published : String → Type 0
  Published q =
      (lookup q (handle digest os body content_length dest opts fs).1 ≡ (
        if str_eq dest q
        then some (body_bytes body)
        else if str_eq temp q
        then none
        else lookup q fs))
      × (mismatches content_length (length (body_bytes body)) ≡ false)
      × (verify digest (hash_write (body_bytes body) opts.checksum) ≡ none)

  -- If Handle does not skip the download, has created its temporary file and reports no error, then
  -- the destination holds exactly the bytes of the body, the temporary file is gone, every other
  -- path is unchanged, an announced length is the body's, and an asked for checksum is matched.
  pub handle-publishes :
      (q : String)
      → (opts.skip_existing && exists dest fs) ≡ false
      → os.create_temp ≡ created temp
      → (handle digest os body content_length dest opts fs).0 ≡ none
      → Published q
  unfolding verify
  handle-publishes q runs made succeeded =
      let r = copy body (start os.start_time content_length opts) in
      let done =
        finish-succeeds digest os temp dest content_length fs r
          (rw (handle-finish runs made) at succeeded) in
      let written = copy-Written body (start os.start_time content_length opts) done.copied in
      (
        rw (handle-finish runs made, done.moved)
            (lookup-rename temp dest q r.1.content (store temp r.1.content fs)
                (lookup-store_self temp r.1.content fs)
              ∙ ground (arith, written.0, lookup-store temp q r.1.content fs)),
        rw (← written.0) done.complete,
        rw (← written.1) done.verified,
      )

  -- If Handle, which does not skip the download and has created its temporary file under a new
  -- name, reports an error and can remove that file, then every path holds what it held before.
  pub handle_restores :
      (q : String) {e : GoError}
      → (opts.skip_existing && exists dest fs) ≡ false
      → os.create_temp ≡ created temp
      → lookup temp fs ≡ none
      → os.remove_err ≡ none
      → (handle digest os body content_length dest opts fs).0 ≡ some e
      → lookup q (handle digest os body content_length dest opts fs).1 ≡ lookup q fs
  handle_restores q runs made new removes failed =
      let r = copy body (start os.start_time content_length opts) in
      let cleaned =
        finish-fails digest os temp dest content_length fs r
          (rw (handle-finish runs made) at failed) removes in
      rw (handle-finish runs made, cleaned)
        (ground (
          arith,
          eq_iff temp q,
          lookup-remove temp q (store temp r.1.content fs),
          lookup-store temp q r.1.content fs,
        ))

  -- Where Handle does not skip the download and has created its temporary file, a copy that stops
  -- with an error that errors.Is takes for context.Canceled makes Handle fail with an error that it
  -- takes for ErrDownloadCancelled and for context.Canceled.
  pub handle-cancelled :
      (e : GoError)
      → (opts.skip_existing && exists dest fs) ≡ false
      → os.create_temp ≡ created temp
      → (copy body (start os.start_time content_length opts)).0 ≡ some e
      → is_error e canceled ≡ true
      → (err : GoError) × ((handle digest os body content_length dest opts fs).0 ≡ some err)
        × (is_error err download_cancelled ≡ true)
        × (is_error err canceled ≡ true)
  unfolding finish copy_error is_error
  handle-cancelled e runs made stopped cancelled =
      (copy_error e, rw (handle-finish runs made) (ground arith), ground arith, ground arith)
