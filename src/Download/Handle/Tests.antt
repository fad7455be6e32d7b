-- ===== src/Download/Handle/Tests.antt =====
-- Downloads of three bytes.
use httper.Base.{
  ◌&&◌, ◌*◌, ℕ, String, ◌<>◌, ◌≡◌, refl, true, false, none, some, List, [], ◌∷◌, length, pos,
  show_ℕ,
}
use httper.Download.Writers.{Clock, still, hash_write, shown_attrs, verify}
use httper.Download.Handle.Stream.{body_bytes}
use httper.Download.Handle.Success.{is_nil, is_intact, is_accepted, is_nil-handle}
use httper.Download.Handle.{Os, Body, last, more, Attempt, Settings, created, handle}
use httper.Download.Handle.Laws.{handle-publishes, handle_restores, Published}
use httper.Download.Files.{Fs, lookup}
use httper.Download.Model.{err_canceled}

abbrev digest : List ℕ → String
digest bytes = "sum " <> show_ℕ (length bytes)

abbrev os : Os
os = record {
  create_temp = created "dir/.file.tmp";
  sync_err = none;
  close_err = none;
  rename_err = none;
  remove_err = none;
  start_time = 0;
}

abbrev chunk : List ℕ → Attempt
chunk bytes = record { ctx_err = none; bytes = bytes; write_err = none; short = 0; clock = still 5 }

abbrev whole : Body
whole = more (chunk (1 ∷ 2 ∷ [])) (last (chunk (3 ∷ [])) none)

-- The context ends behind the first round.
abbrev cut : Body
cut = more (chunk (1 ∷ 2 ∷ [])) (
    last
      (record {
        ctx_err = some err_canceled;
        bytes = [];
        write_err = none;
        short = 0;
        clock = still 6;
      })
      none)

abbrev settings : String → Settings
settings expected = record {
  checksum = some (record { hashed = []; expected = expected });
  progress = true;
  skip_existing = false;
}

abbrev old : Fs
old = ("dir/file", 9 ∷ []) ∷ []

handle-publishes_example :
    Published digest os whole (pos 3) "dir/file" (settings "sum 3") old "dir/.file.tmp" "dir/file"
unfolding handle verify show_ℕ
handle-publishes_example =
    handle-publishes digest os whole (pos 3) "dir/file" (settings "sum 3") old "dir/.file.tmp"
      "dir/file" refl refl refl

handle_restores_example :
    lookup "dir/file" (handle digest os whole (pos 3) "dir/file" (settings "sum 4") old).1
    ≡ lookup "dir/file" old
unfolding handle lookup verify show_ℕ
handle_restores_example =
    handle_restores digest os whole (pos 3) "dir/file" (settings "sum 4") old "dir/.file.tmp"
      "dir/file" refl refl refl refl refl

-- The second round comes two seconds behind the first, and its line takes two nanoseconds.
abbrev late : Clock
late = record { asked = 2000000005; kept = 2000000006; shown = 2000000008; completed = 2000000009 }

abbrev slow : Body
slow = more (chunk (1 ∷ 2 ∷ [])) (
    last (record { ctx_err = none; bytes = 3 ∷ []; write_err = none; short = 0; clock = late })
      none)

-- What a line of a download of unknown length shows
shown_attrs_lem :
    shown_attrs
      (λ n total. show_ℕ (n * 100))
      (λ n t. "fast")
      (record { transferred = 3; total = pos 0; elapsed = 2000500005 })
    ≡ record {
      progress = "unknown";
      elapsed = 2001000000;
      transferred = 3;
      total = pos 0;
      mbps = "fast";
    }
unfolding shown_attrs
shown_attrs_lem = refl

is_nil-handle_example :
    is_nil (handle digest os cut (pos 3) "dir/file" (settings "sum 3") old).0 ≡ (
      is_intact cut
      && is_accepted digest os
          (pos 3)
          (body_bytes cut)
          (hash_write (body_bytes cut) (some (record { hashed = []; expected = "sum 3" }))))
is_nil-handle_example =
    is_nil-handle digest os cut (pos 3) "dir/file" (settings "sum 3") old "dir/.file.tmp" refl refl
