-- ===== src/Download/Async/Laws.antt =====
-- What Result.Add does to the queues.
use httper.Base.{
  ap, ◌++◌, ◌+◌, ℕ, String, ◌≡◌, refl, inl, inr, Bool, Option, none, some, List, [], ◌∷◌, str_eq,
  Bool-cases, get_elem?, set, All,
}
use httper.GoError.{wrap, message, Try, ok, err}
use httper.Download.Queue.{new_task, Queue, Step, start, add_fails}
use httper.Download.Async.{
  updated, start_in, record_in, Batch, Store, Options, Opt, with_batch, in_queue, with_checksum,
  with_progress, with_skip_existing, apply, apply_all, checksum_option, no_options, download_async,
  add, added, after_options,
}

-- An option that a caller outside the package can give.
abbrev pub IsPublic : Opt → Type 0
IsPublic (in_queue p) = ⊥
IsPublic o = Unit

-- Options with a queue keep it, and make no other.
abbrev Keeps : ℕ → Store → Try Options × Store → Type 0
Keeps p s (ok o, s') = (o.group ≡ some p) × (s' ≡ s)
Keeps p s (err e, s') = s' ≡ s

checksum_option-Keeps :
    (h : Option (List ℕ)) (expected : String) (o : Options) (p : ℕ) (s : Store)
    → o.group ≡ some p
    → Keeps p s (checksum_option h expected o, s)
checksum_option-Keeps none expected o p s h = refl
checksum_option-Keeps (some bytes) expected o p s h = elim (Bool-cases (str_eq expected "")) [
  | inl e ↦ rw e refl
  | inr e ↦ rw e (h, refl)
]

apply-Keeps :
    (f : Opt) (o : Options) (p : ℕ) (s : Store)
    → IsPublic f
    → o.group ≡ some p
    → Keeps p s (apply f o s)
unfolding apply
apply-Keeps (with_batch max) o p s public h = rw h refl
apply-Keeps (in_queue q) o p s public h = absurd public
apply-Keeps (with_checksum x expected) o p s public h = checksum_option-Keeps x expected o p s h
apply-Keeps with_progress o p s public h = (h, refl)
apply-Keeps with_skip_existing o p s public h = (h, refl)

following :
    (fs : List Opt) (p : ℕ) (s : Store) (r : Try Options × Store)
    → ((o : Options) → o.group ≡ some p → Keeps p s (apply_all fs o s))
    → Keeps p s r
    → Keeps p s (elim r.0 [ err e ↦ (err e, r.1) | ok o' ↦ apply_all fs o' r.1 ])
following fs p s (ok o, s') ih k = rw k.1 (ih o k.0)
following fs p s (err e, s') ih k = k

apply_all-Keeps :
    (fs : List Opt) (o : Options) (p : ℕ) (s : Store)
    → All IsPublic fs
    → o.group ≡ some p
    → Keeps p s (apply_all fs o s)
unfolding apply_all
apply_all-Keeps [] o p s public h = (h, refl)
apply_all-Keeps (f ∷ fs) o p s public h =
    following fs p s (apply f o s) (λ o' h'. apply_all-Keeps fs o' p s public.1 h')
      (apply-Keeps f o p s public.0 h)

-- One step of the queue at `p`, and no change of another.
abbrev pub StepsIn : ℕ → Batch → Store → Store → Type 0
StepsIn p b s s' = (q : Queue) × Step b.sem b.queue q × (s' ≡ set s p (record b { queue = q }))

after_options-StepsIn :
    (cancelled : Bool) (p : ℕ) (b : Batch) (s : Store) (r : Try Options × Store)
    → get_elem? s p ≡ some b
    → Keeps p s r
    → StepsIn p b s (added p (after_options cancelled r))
after_options-StepsIn cancelled p b s (ok o, s') stands k = (
  record b.queue { tasks = b.queue.tasks ++ new_task cancelled ∷ [] },
  start cancelled,
  rw (k.0, k.1) (ap (updated (start_in cancelled) p s) stands),
)
after_options-StepsIn cancelled p b s (err e, s') stands k = (
  record b.queue {
    shared = record b.queue.shared {
      errs = b.queue.shared.errs ++ wrap "applying option: " e ∷ [];
    };
    added = b.queue.added + 1;
  },
  add_fails (wrap "applying option: " e),
  rw k (ap (updated (record_in (wrap "applying option: " e)) p s) stands),
)

-- Result.Add, with any options that a caller can give and any path, is one step of the queue of the
-- Result, which is in the store: no other queue changes and none is made.
pub add-StepsIn :
    (p : ℕ) (b : Batch) (cancelled : Bool) (dest_path : String) (opts : List Opt) (s : Store)
    → All IsPublic opts
    → get_elem? s p ≡ some b
    → StepsIn p b s (add p cancelled dest_path opts s)
unfolding add download_async
add-StepsIn p b cancelled dest_path opts s public stands = elim (Bool-cases (str_eq dest_path "")) [
  | inl e ↦ (
    record b.queue {
      shared = record b.queue.shared {
        errs = b.queue.shared.errs ++ message "destPath must not be empty" ∷ [];
      };
      added = b.queue.added + 1;
    },
    add_fails (message "destPath must not be empty"),
    rw e (ap (updated (record_in (message "destPath must not be empty")) p s) stands),
  )
  | inr e ↦ rw e (
      after_options-StepsIn cancelled p b s (apply_all (in_queue p ∷ opts) no_options s) stands
        (apply_all-Keeps opts (record no_options { group = some p }) p s public refl))
]
