-- ===== src/Download/Model.antt =====
-- client/download/model.go: the sentinel errors of the package, and those of the packages context
-- and os that it looks for.
use httper.GoError.{GoError, new}
use httper.Base.{ℕ}

abbrev pub content_length_mismatch : ℕ
content_length_mismatch = 1

abbrev pub checksum_mismatch : ℕ
checksum_mismatch = 2

abbrev pub download_cancelled : ℕ
download_cancelled = 3

-- The pointer of context.Canceled
abbrev pub canceled : ℕ
canceled = 4

abbrev pub err_content_length_mismatch : GoError
err_content_length_mismatch = new content_length_mismatch "content length mismatch"

abbrev pub err_checksum_mismatch : GoError
err_checksum_mismatch = new checksum_mismatch "checksum mismatch"

abbrev pub err_download_cancelled : GoError
err_download_cancelled = new download_cancelled "download cancelled"

abbrev pub err_canceled : GoError
err_canceled = new canceled "context canceled"
