-- ===== src/Client/Fetch/Tests.antt =====
-- A download of two bytes, and one that the server refuses.
use httper.Client.Fetch.{run_async, settings_of, download}
use httper.Client.Fetch.Cancelled.{wait-run_async_cancelled}
use httper.Download.Queue.{
  Queue, Task, Reach, wait, result_err, fresh_queue, later, start, move, enter, fail, record_err,
  close, running, recording, leaving, finished, new_task,
}
use httper.Download.Handle.{more, copy, copy_error, Os, Body, last, created, handle}
use httper.Download.Model.{err_canceled, canceled, download_cancelled}
use httper.GoError.{GoError, wrap, is_error, ok}
use httper.Base.{ℕ, String, ◌≡◌, refl, true, false, none, some, List, [], ◌∷◌, ℤ, pos, eq_ℤ}
use httper.Download.Files.{Fs, lookup, exists}
use httper.Download.Writers.{still, verify}
use httper.Download.Handle.Stream.{body_bytes}
use httper.Download.Async
use httper.Download.Async.{Opt, with_progress, with_skip_existing, no_options, apply_all}
use httper.Client.Exec.{Stream, Response, exec}
use httper.Client.Fetch.Laws.{download-publishes, download_restores}

abbrev digest : List ℕ → String
digest bytes = "sum"

abbrev os : Os
os = record {
  create_temp = created "dir/.httper-dl-1";
  sync_err = none;
  close_err = none;
  rename_err = none;
  remove_err = none;
  start_time = 0;
}

abbrev text : List ℕ → String
text bytes = "refused"

-- The body is read in one round.
abbrev chunks : Stream → Body
chunks b =
    last (record { ctx_err = none; bytes = b.rest; write_err = none; short = 0; clock = still 1 })
      none

abbrev left : Stream → Stream
left b = record b { rest = [] }

abbrev body : Stream
body = record { rest = 1 ∷ 2 ∷ []; read_err = none; close_err = none; closed = false }

abbrev answer : ℤ → Response
answer code = record { status_code = code; content_length = pos 2 }

abbrev opts : List Opt
opts = with_progress ∷ with_skip_existing ∷ []

abbrev resolved_opts : Async.Options
resolved_opts = record no_options { progress = true; skip_existing = true }

abbrev fs : Fs
fs = ("dir/other", 7 ∷ []) ∷ []

download-publishes_example :
    (eq_ℤ (pos 200) (pos 200) ≡ true)
    × (lookup "dir/file"
          (download digest os text chunks left
            (pos 200)
            "dir/file"
            opts
            (ok (answer (pos 200), body))
            fs).2.0
        ≡ some (body_bytes (chunks body)))
unfolding download exists apply_all handle exec verify
download-publishes_example =
    download-publishes digest os text chunks left (pos 200) "dir/file" "dir/.httper-dl-1" fs refl
      opts resolved_opts refl refl (answer (pos 200)) body "dir/file" refl

download_restores_example :
    lookup "dir/other"
      (download digest os text chunks left
        (pos 200)
        "dir/file"
        opts
        (ok (answer (pos 404), body))
        fs).2.0
    ≡ lookup "dir/other" fs
unfolding download exists apply_all handle exec lookup
download_restores_example =
    download_restores digest os text chunks left (pos 200) "dir/file" "dir/.httper-dl-1" fs refl
      opts resolved_opts refl refl (ok (answer (pos 404), body)) "dir/other" _ refl refl refl

-- The context ends before the second round.
abbrev cut : Stream → Body
cut b =
    more (record { ctx_err = none; bytes = b.rest; write_err = none; short = 0; clock = still 1 })
      (last
        (record {
          ctx_err = some err_canceled;
          bytes = [];
          write_err = none;
          short = 0;
          clock = still 2;
        })
        none)

abbrev cancelled_err : GoError
cancelled_err = wrap "exec fn: " (copy_error err_canceled)

abbrev cancelled_task : Task
cancelled_task = record { pc = finished; cancelled = true; err = some cancelled_err }

abbrev cancelled_queue : Queue
cancelled_queue = record {
  shared = record { used = 0; errs = cancelled_err ∷ []; cancel_all = false };
  tasks = cancelled_task ∷ [];
  added = 0;
}

cancelled_queue-Reach : Reach none cancelled_queue
cancelled_queue-Reach =
    later
      (later
        (later
          (later (later fresh_queue (start false))
            (move [] [] (new_task false) refl (enter refl refl)))
          (move [] [] (record { pc = running false; cancelled = false; err = none }) refl
            (fail false cancelled_err refl)))
        (move [] []
          (record {
            pc = recording false cancelled_err;
            cancelled = false;
            err = some cancelled_err;
          })
          refl (record_err false cancelled_err refl)))
      (move [] [] (record { pc = leaving false; cancelled = false; err = some cancelled_err }) refl
        (close refl))

wait-run_async_cancelled_example :
    (j : GoError) × (wait cancelled_queue ≡ some j)
    × (is_error j download_cancelled ≡ true)
    × (is_error j canceled ≡ true)
unfolding run_async result_err exec handle copy is_error exists
wait-run_async_cancelled_example =
    wait-run_async_cancelled digest os text cut left (pos 200) "dir/file" "dir/.httper-dl-1" fs
      (settings_of resolved_opts) (answer (pos 200)) body [] [] cancelled_task err_canceled
      cancelled_queue-Reach (refl, tt) refl refl refl refl refl refl refl
