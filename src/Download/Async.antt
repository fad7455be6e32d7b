-- ===== src/Download/Async.antt =====
-- client/download/options.go, DownloadAsync of client/client.go and Result.Add of
-- client/download/queue_result.go. Options point to a queue, so the queues stand in a store.
pub mod Laws
mod Tests
use httper.Base.{
  ℕ, ◌+◌, String, Bool, true, false, Option, none, some, List, [], ◌∷◌, ◌++◌, str_eq, if◌then◌else◌,
  length, get_elem?, set, ℤ, pos,
}
use httper.GoError.{GoError, message, wrap, Try, ok, err}
use httper.Download.Writers.{ChecksumVerifier}
use httper.Download.Queue.{Queue, new_sem, new_queue, new_task}

-- A queue with the capacity of its semaphore
pub record Batch : Type 0 where
  pub sem : Option ℕ
  pub queue : Queue

abbrev pub Store : Type 0
Store = List Batch

pub record Options : Type 0 where
  pub checksum : Option ChecksumVerifier
  pub progress : Bool
  pub skip_existing : Bool
  pub group : Option ℕ

-- The option functions by their arguments; `in_queue` is the unexported withBatch. A hash.Hash is
-- what was written to it, and nil is `none`.
pub data Opt : Type 0 where
  with_batch : ℤ → Opt
  in_queue : ℕ → Opt
  with_checksum : Option (List ℕ) → String → Opt
  with_progress : Opt
  with_skip_existing : Opt

abbrev checksum_option : Option (List ℕ) → String → Options → Try Options
checksum_option none expected o = err (message "hash must not be nil")
checksum_option (some h) expected o =
    if str_eq expected ""
    then err (message "expected checksum must not be empty")
    else ok (record o { checksum = some (record { hashed = h; expected = expected }) })

abbrev batch_option : ℤ → Option ℕ → Options → Store → Try Options × Store
batch_option max (some p) o s = (err (message "WithBatch cannot be used with Result.Add"), s)
batch_option max none o s = (
  ok (record o { group = some (length s) }),
  s ++ record { sem = new_sem max; queue = new_queue } ∷ [],
)

pub apply : Opt → Options → Store → Try Options × Store
apply (with_batch max) o s = batch_option max o.group o s
apply (in_queue p) o s = (ok (record o { group = some p }), s)
apply (with_checksum h expected) o s = (checksum_option h expected o, s)
apply with_progress o s = (ok (record o { progress = true }), s)
apply with_skip_existing o s = (ok (record o { skip_existing = true }), s)

-- The loop over the options
unfoldable pub apply_all : List Opt → Options → Store → Try Options × Store
unfolding apply
apply_all [] o s = (ok o, s)
apply_all (f ∷ fs) o s =
    let (r, s') = apply f o s in elim r [ err e ↦ (err e, s') | ok o' ↦ apply_all fs o' s' ]

abbrev pub no_options : Options
no_options = record { checksum = none; progress = false; skip_existing = false; group = none }

-- A download.Result, by its queue
pub record Result : Type 0 where
  pub group : ℕ
  pub options : Options

abbrev start_in : Bool → Batch → Batch
start_in cancelled b = record b {
  queue = record b.queue { tasks = b.queue.tasks ++ new_task cancelled ∷ [] };
}

abbrev record_in : GoError → Batch → Batch
record_in e b = record b {
  queue = record b.queue {
    shared = record b.queue.shared { errs = b.queue.shared.errs ++ e ∷ [] };
    added = b.queue.added + 1;
  };
}

-- A change of the queue that the pointer names
abbrev updated : (Batch → Batch) → ℕ → Store → Option Batch → Store
updated f p s none = s
updated f p s (some b) = set s p (f b)

abbrev update : (Batch → Batch) → ℕ → Store → Store
update f p s = updated f p s (get_elem? s p)

-- queue.Start, with the default batch where no option named a queue. `cancelled` is whether the
-- context of the request has ended.
abbrev start_group : Bool → Options → Option ℕ → Store → Try Result × Store
start_group cancelled o (some p) s =
    (ok (record { group = p; options = o }), update (start_in cancelled) p s)
start_group cancelled o none s =
    let p = length s in
    (
      ok (record { group = p; options = record o { group = some p } }),
      update (start_in cancelled) p (s ++ record { sem = new_sem (pos 0); queue = new_queue } ∷ []),
    )

abbrev after_options : Bool → Try Options × Store → Try Result × Store
after_options cancelled (err e, s) = (err (wrap "applying option: " e), s)
after_options cancelled (ok o, s) = start_group cancelled o o.group s

-- DownloadAsync; what the task then does is Download.Handle under exec.
pub download_async : Bool → String → List Opt → Store → Try Result × Store
unfolding apply_all
download_async cancelled dest_path opts s =
    if str_eq dest_path ""
    then (err (message "destPath must not be empty"), s)
    else after_options cancelled (apply_all opts no_options s)

abbrev added : ℕ → Try Result × Store → Store
added p (ok r, s) = s
added p (err e, s) = update (record_in e) p s

-- (*Result).Add: what it does to the queues, for a Result of the queue at `p`
pub add : ℕ → Bool → String → List Opt → Store → Store
unfolding download_async
add p cancelled dest_path opts s =
    added p (download_async cancelled dest_path (in_queue p ∷ opts) s)
