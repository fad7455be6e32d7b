-- ===== src/Client/Fetch.antt =====
-- Download of client/client.go, and the function that DownloadAsync starts: download.Handle under
-- exec. `chunks` is how io.Copy reads the body
-- of a response, round by round, and `left` what it leaves of it.
pub mod Laws
pub mod Cancelled
mod Tests
use httper.Base.{ℕ, String, Option, none, some, List, [], ◌++◌, map, str_eq, if◌then◌else◌, ℤ}
use mathlib.Core.Option
use httper.GoError.{GoError, message, wrap, Try, ok, err}
use httper.Download.Files.{Fs}
use httper.Download.Writers.{Log}
use httper.Download.Handle.{Os, Body, Settings, handle}
use httper.Download.Async
use httper.Download.Async.{Opt, apply_all, no_options}
use httper.Client.Exec.{Stream, Response, Line, exec}

-- What Download came to: its error, the body of the response, the files with the lines of Handle,
-- and the lines of exec.
abbrev pub Fetched : Type 0
Fetched = Option GoError × Option Stream × (Fs × List Log) × List Line

abbrev settings_of : Async.Options → Settings
settings_of o = record {
  checksum = o.checksum;
  progress = o.progress;
  skip_existing = o.skip_existing;
}

module _ (digest : List ℕ → String) (os : Os) (text : List ℕ → String) (chunks : Stream → Body)
    (left : Stream → Stream) where
  -- dlFunc of Download
  abbrev dl_func :
      String
      → Settings
      → Response
      → Stream
      → Fs × List Log
      → Option GoError × Stream × (Fs × List Log)
  dl_func dest_path opts resp b s =
      let (e, fs, logs) = handle digest os (chunks b) resp.content_length dest_path opts s.0 in
      (Option.map (wrap "download: ") e, left b, (fs, s.1 ++ logs))

  -- dlFunc of DownloadAsync, which returns the error of Handle as it is
  abbrev async_dl_func :
      String
      → Settings
      → Response
      → Stream
      → Fs × List Log
      → Option GoError × Stream × (Fs × List Log)
  async_dl_func dest_path opts resp b s =
      let (e, fs, logs) = handle digest os (chunks b) resp.content_length dest_path opts s.0 in
      (e, left b, (fs, s.1 ++ logs))

  -- fn of DownloadAsync, which a task of the queue runs. Its context counts in what the reads of the
  -- body report.
  unfoldable pub run_async : ℤ → String → Settings → Try (Response × Stream) → Fs → Fetched
  run_async exp_code dest_path opts answer fs =
      exec text exp_code (async_dl_func dest_path opts) answer (fs, [])

  -- Download, behind the loop over the options
  pub fetch : ℤ → String → Settings → Try (Response × Stream) → Fs → Fetched
  fetch exp_code dest_path opts answer fs =
      exec text exp_code (dl_func dest_path opts) answer (fs, [])

  abbrev with_options : ℤ → String → Try Async.Options → Try (Response × Stream) → Fs → Fetched
  with_options exp_code dest_path (err e) answer fs =
      (some (wrap "applying option: " e), none, (fs, []), [])
  with_options exp_code dest_path (ok o) answer fs =
      fetch exp_code dest_path (settings_of o) answer fs

  -- Download. The queues that WithBatch makes are not used.
  pub download : ℤ → String → List Opt → Try (Response × Stream) → Fs → Fetched
  unfolding fetch
  download exp_code dest_path opt_fns answer fs =
      if str_eq dest_path ""
      then (some (message "destPath must not be empty"), none, (fs, []), [])
      else with_options exp_code dest_path (apply_all opt_fns no_options []).0 answer fs
