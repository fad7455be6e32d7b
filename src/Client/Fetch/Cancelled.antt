-- ===== src/Client/Fetch/Cancelled.antt =====
-- A download of a batch that is cancelled, from its copy to Result.Wait.
use httper.GoError.{GoError, wrap, is_error, ok}
use httper.Download.Model.{canceled, download_cancelled}
use httper.Download.Files.{Fs, exists}
use httper.Download.Handle.{Os, Body, Settings, created, start, copy}
use httper.Download.Handle.Laws.{handle-cancelled}
use httper.Download.Queue.{Queue, Task, Reach, IsFinished, wait, result_err}
use httper.Download.Queue.Results.{wait_of-result_err}
use httper.Client.Exec.{Stream, Response}
use httper.Client.Exec.Laws.{exec-fails}
use httper.Client.Fetch.{run_async, async_dl_func}
use httper.Base.{
  ℕ, String, ◌≡◌, ap, ◌∙◌, true, false, ◌&&◌, Option, some, List, [], ◌∷◌, ◌++◌, All, ℤ, eq_ℤ,
}

module _ (digest : List ℕ → String) (os : Os) (text : List ℕ → String) (chunks : Stream → Body)
    (left : Stream → Stream) (exp_code : ℤ) (dest_path temp : String) (fs : Fs) (opts : Settings)
    (resp : Response) (b : Stream) where
  abbrev fetched : Option GoError
  fetched = (run_async digest os text chunks left exp_code dest_path opts (ok (resp, b)) fs).0

  run_async-cancelled :
      (e : GoError)
      → os.create_temp ≡ created temp
      → (opts.skip_existing && exists dest_path fs) ≡ false
      → eq_ℤ resp.status_code exp_code ≡ true
      → (copy (chunks b) (start os.start_time resp.content_length opts)).0 ≡ some e
      → is_error e canceled ≡ true
      → (err : GoError) × (fetched ≡ some err)
        × (is_error err download_cancelled ≡ true)
        × (is_error err canceled ≡ true)
  unfolding run_async is_error
  run_async-cancelled e made runs same stopped cancels =
      let (err, failed, download, context) =
        handle-cancelled digest os (chunks b) resp.content_length dest_path opts fs temp e runs made
          stopped cancels in
      (
        wrap "exec fn: " err,
        exec-fails text exp_code (async_dl_func digest os text chunks left dest_path opts) resp b
            (fs, []) err same failed,
        download,
        context,
      )

  -- In a batch of which every task has finished, a download of DownloadAsync whose options do not skip it, whose
  -- temporary file was created, whose response had the expected status, and whose copy stopped with
  -- an error that errors.Is takes for context.Canceled, makes Wait return an error that it takes for
  -- ErrDownloadCancelled and for context.Canceled.
  pub wait-run_async_cancelled :
      {sem : Option ℕ} {q : Queue} (before after : List Task) (t : Task) (e : GoError)
      → Reach sem q
      → All IsFinished q.tasks
      → q.tasks ≡ before ++ t ∷ after
      → result_err t ≡ some fetched
      → os.create_temp ≡ created temp
      → (opts.skip_existing && exists dest_path fs) ≡ false
      → eq_ℤ resp.status_code exp_code ≡ true
      → (copy (chunks b) (start os.start_time resp.content_length opts)).0 ≡ some e
      → is_error e canceled ≡ true
      → (j : GoError) × (wait q ≡ some j)
        × (is_error j download_cancelled ≡ true)
        × (is_error j canceled ≡ true)
  wait-run_async_cancelled before after t e r over stands returns made runs same stopped cancels =
      let (err, failed, download, context) = run_async-cancelled e made runs same stopped cancels in
      let (j, joined, found) =
        wait_of-result_err before after t err r over stands (returns ∙ ap (λ o. some o) failed) in
      (j, joined, found download_cancelled download, found canceled context)
