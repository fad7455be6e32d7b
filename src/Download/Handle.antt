-- ===== src/Download/Handle.antt =====
-- client/download/download.go and the contextReader of model.go.
pub mod Laws
pub mod Stream
pub mod Lines
pub mod Success
mod Tests
use httper.GoError.{GoError, wrap, wrap_both, download_error, is_error}
use httper.Download.Model.{canceled, err_content_length_mismatch, err_download_cancelled}
use httper.Download.Files.{Fs, store, remove, rename, exists}
use httper.Download.Writers.{
  ChecksumVerifier, hash_write, verify, ProgressWriter, Log, skipping_existing, closing_failed,
  removing_failed, progress_write, Clock,
}
use httper.Base.{
  ℕ, String, ◌<>◌, Bool, not, ◌&&◌, Option, none, some, List, [], ◌∷◌, ◌++◌, if◌then◌else◌, length,
  take, ℤ, pos, eq_ℤ, leb_ℤ, show_ℕ, show_ℤ,
}

-- One round of io.Copy: whether the context has ended before the read, the bytes read, what the
-- write of these bytes to the file comes to, how many of them a write that fails has written, and
-- the clock at the write.
pub record Attempt : Type 0 where
  pub ctx_err : Option GoError
  pub bytes : List ℕ
  pub write_err : Option GoError
  pub short : ℕ
  pub clock : Clock

-- What the response body yields, round by round, up to its end: with no error (io.EOF) or with one.
pub data Body : Type 0 where
  last : Attempt → Option GoError → Body
  more : Attempt → Body → Body

-- The writers, and what has gone through them. `written` is io.Copy's count, and `content` what
-- the temporary file holds.
pub record Copying : Type 0 where
  pub content : List ℕ
  pub checksum : Option ChecksumVerifier
  pub progress : Option ProgressWriter
  pub logs : List Log

abbrev pub advance : Clock → ℕ → Copying → Copying
advance clock n c =
    let (p, lines) = progress_write clock n c.progress in
    record c { progress = p; logs = c.logs ++ lines }

-- A write: to the file, then to the checksum (io.MultiWriter stops at an error), and then the
-- progress. A read of no bytes writes nothing.
unfoldable pub write_chunk : Attempt → Copying → Option GoError × Copying
unfolding hash_write progress_write
write_chunk a c = elim a.bytes [
  | [] ↦ (none, c)
  | b ∷ bs ↦ elim a.write_err [
    | some e ↦
        (some e, advance a.clock a.short (record c { content = c.content ++ take a.short a.bytes }))
    | none ↦ (
      none,
      advance a.clock (length a.bytes)
          (record c { content = c.content ++ a.bytes; checksum = hash_write a.bytes c.checksum }),
    )
  ]
]

-- (*contextReader).Read ends the copy where the context has ended; else the bytes are written, and
-- then the reader's error counts.
abbrev pub first_error : Option GoError → Option GoError → Option GoError
first_error none e = e
first_error (some e) _ = some e

-- io.Copy(writer, body)
unfoldable pub copy : Body → Copying → Option GoError × Copying
unfolding write_chunk
copy (last a end) c = elim a.ctx_err [
  | some e ↦ (some e, c)
  | none ↦ let (e, c') = write_chunk a c in (first_error e end, c')
]
copy (more a body) c = elim a.ctx_err [
  | some e ↦ (some e, c)
  | none ↦ let (e, c') = write_chunk a c in elim e [ some e' ↦ (some e', c') | none ↦ copy body c' ]
]

-- The options of a download, resolved: the fields of download.Options without the queue.
pub record Settings : Type 0 where
  pub checksum : Option ChecksumVerifier
  pub progress : Bool
  pub skip_existing : Bool

-- What the operating system answers: os.CreateTemp (an error, or the new file's name), Sync,
-- Close, Rename and Remove; and the time at which the copy begins.
pub data Created : Type 0 where
  not_created : GoError → Created
  created : String → Created

pub record Os : Type 0 where
  pub create_temp : Created
  pub sync_err : Option GoError
  pub close_err : Option GoError
  pub rename_err : Option GoError
  pub remove_err : Option GoError
  pub start_time : ℕ

abbrev pub Outcome : Type 0
Outcome = Option GoError × Fs × List Log

-- The deferred function where the file is still open, and where it is closed.
abbrev pub close_log : Option GoError → List Log
close_log none = []
close_log (some e) = closing_failed e ∷ []

abbrev pub clean_up : Os → String → GoError → Fs → List Log → Outcome
clean_up os temp err fs logs = elim os.remove_err [
  | none ↦ (some err, remove temp fs, logs)
  | some e ↦ (some err, fs, logs ++ removing_failed e ∷ [])
]

pub fail_open : Os → String → GoError → Fs → List Log → Outcome
fail_open os temp err fs logs = clean_up os temp err fs (logs ++ close_log os.close_err)

pub fail_closed : Os → String → GoError → Fs → List Log → Outcome
fail_closed os temp err fs logs = clean_up os temp err fs logs

-- The error of io.Copy, as Handle reports it
unfoldable pub copy_error : GoError → GoError
copy_error e =
    if is_error e canceled
    then wrap_both err_download_cancelled ": " e
    else wrap "copying file body: " e

-- contentLength >= 0 && n != contentLength
abbrev mismatches : ℤ → ℕ → Bool
mismatches content_length n = leb_ℤ (pos 0) content_length && not (eq_ℤ (pos n) content_length)

abbrev mismatch_error : ℤ → ℕ → GoError
mismatch_error content_length n =
    download_error ("expected " <> (show_ℤ content_length <> (" bytes, got " <> show_ℕ n)))
      err_content_length_mismatch

module _ (digest : List ℕ → String) (os : Os) (temp dest : String) where
  -- From file.Sync on
  pub publish : Fs → List Log → Outcome
  unfolding fail_open fail_closed
  publish fs logs = elim os.sync_err [
    | some e ↦ fail_open os temp (wrap "syncing temp file: " e) fs logs
    | none ↦ elim os.close_err [
      | some e ↦ fail_closed os temp (wrap "closing temp file: " e) fs logs
      | none ↦ elim os.rename_err [
        | some e ↦ fail_closed os temp (wrap "renaming temp file: " e) fs logs
        | none ↦ (none, rename temp dest fs, logs)
      ]
    ]
  ]

  -- From the end of io.Copy on
  unfoldable pub finish : ℤ → Fs → Option GoError × Copying → Outcome
  unfolding publish copy_error
  finish content_length fs (some e, c) =
      fail_open os temp (copy_error e) (store temp c.content fs) c.logs
  finish content_length fs (none, c) =
      if mismatches content_length (length c.content)
      then fail_open os temp (mismatch_error content_length (length c.content))
          (store temp c.content fs) c.logs
      else elim (verify digest c.checksum) [
        | some e ↦ fail_open os temp e (store temp c.content fs) c.logs
        | none ↦ publish (store temp c.content fs) c.logs
      ]

abbrev pub start : ℕ → ℤ → Settings → Copying
start start_time content_length opts = record {
  content = [];
  checksum = opts.checksum;
  progress =
      if opts.progress
      then some (record {
        transferred = 0;
        total = content_length;
        start_time = start_time;
        last_log = none;
      })
      else none;
  logs = [];
}

-- Handle
unfoldable pub handle : (List ℕ → String) → Os → Body → ℤ → String → Settings → Fs → Outcome
unfolding copy finish
handle digest os body content_length dest opts fs =
    if opts.skip_existing && exists dest fs
    then (none, fs, skipping_existing ∷ [])
    else elim os.create_temp [
      | not_created e ↦ (some (wrap "creating temp file: " e), fs, [])
      | created temp ↦
          finish digest os temp dest content_length fs
            (copy body (start os.start_time content_length opts))
    ]
