-- ===== src/Download/Writers.antt =====
-- The writers that a download goes through: client/download/checksumverify.go and progress.go.
use httper.GoError.{GoError, download_error}
use httper.Download.Model.{err_checksum_mismatch}
use httper.Base.{
  ℕ, ◌+◌, ◌-◌, ◌/◌, ◌*◌, ltb, ltb_ℤ, String, ◌<>◌, Bool, true, Option, none, some, List, [], ◌∷◌,
  ◌++◌, str_eq, leb, if◌then◌else◌, ℤ, pos, eq_ℤ,
}

-- checksumVerifier: a hash.Hash, which is the download's own, with what was written to it so far, and
-- the expected text.
pub record ChecksumVerifier : Type 0 where
  pub hashed : List ℕ
  pub expected : String

-- (*checksumVerifier).Write
unfoldable pub hash_write : List ℕ → Option ChecksumVerifier → Option ChecksumVerifier
hash_write p none = none
hash_write p (some v) = some (record v { hashed = v.hashed ++ p })

-- (*checksumVerifier).Verify. `digest` is the hex text of the hash's sum of what was written.
unfoldable pub verify : (digest : List ℕ → String) → Option ChecksumVerifier → Option GoError
verify digest none = none
verify digest (some v) =
    if str_eq (digest v.hashed) v.expected
    then none
    else some (
        download_error ("expected " <> (v.expected <> (", got " <> digest v.hashed)))
          err_checksum_mismatch)

-- progressWriter. The time of the last log line is `none` at first (Go's zero time). Times are in
-- nanoseconds.
pub record ProgressWriter : Type 0 where
  pub transferred : ℕ
  pub total : ℤ
  pub start_time : ℕ
  pub last_log : Option ℕ

-- What a progress line is made of.
pub record Figures : Type 0 where
  pub transferred : ℕ
  pub total : ℤ
  pub elapsed : ℕ

pub data Log : Type 0 where
  skipping_existing : Log
  downloading : Figures → Log
  download_complete : Figures → Log
  closing_failed : GoError → Log
  removing_failed : GoError → Log

-- What the clock shows in one Write: when it asks how long the last line is ago, when it keeps the
-- time of a line, and when `log` takes the time for a line `downloading` and for the last one.
pub record Clock : Type 0 where
  pub asked : ℕ
  pub kept : ℕ
  pub shown : ℕ
  pub completed : ℕ

-- A Write that takes no time
abbrev pub still : ℕ → Clock
still t = record { asked = t; kept = t; shown = t; completed = t }

-- time.Since(pw.lastLog) >= time.Second
abbrev pub is_due : ℕ → Option ℕ → Bool
is_due now none = true
is_due now (some t) = leb (t + 1000000000) now

abbrev pub figures : ℕ → ℕ → ProgressWriter → Figures
figures now sent pw = record { transferred = sent; total = pw.total; elapsed = now - pw.start_time }

-- (*progressWriter).Write behind the write to `w`, which wrote `n` bytes
unfoldable pub progress_write : Clock → ℕ → Option ProgressWriter → Option ProgressWriter × List Log
progress_write clock n none = (none, [])
progress_write clock n (some pw) =
    let sent = pw.transferred + n in
    let due = is_due clock.asked pw.last_log in
    (
      some (record pw {
        transferred = sent;
        last_log = if due then some clock.kept else pw.last_log;
      }),
      (if due then downloading (figures clock.shown sent pw) ∷ [] else [])
          ++ (if eq_ℤ pw.total (pos sent)
              then download_complete (figures clock.completed sent pw) ∷ []
              else []),
    )

-- The attributes of a progress line
pub record Attrs : Type 0 where
  pub progress : String
  pub elapsed : ℕ
  pub transferred : ℕ
  pub total : ℤ
  pub mbps : String

-- (*progressWriter).log: what it shows. `percent` and `rate` print the quotients of floating point
-- numbers; Duration.Round goes to the nearest millisecond.
unfoldable pub shown_attrs : (percent : ℕ → ℤ → String) → (rate : ℕ → ℕ → String) → Figures → Attrs
shown_attrs percent rate f = record {
  progress = if ltb_ℤ (pos 0) f.total then percent f.transferred f.total else "unknown";
  elapsed = (f.elapsed + 500000) / 1000000 * 1000000;
  transferred = f.transferred;
  total = f.total;
  mbps = if ltb 0 f.elapsed then rate f.transferred f.elapsed else "0.00";
}
