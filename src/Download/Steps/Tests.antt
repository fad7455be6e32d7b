-- ===== src/Download/Steps/Tests.antt =====
-- Two downloads at the same time, one of which fails its checksum.
use httper.Base.{
  foldl, ℕ, zero, suc, ◌+◌, ◌≤◌, String, ◌<>◌, ◌≡◌, refl, subst, true, false, none, some, List, [],
  ◌∷◌, arith, str_eq, eq_iff, length, get_elem?, pos, show_ℕ,
}
use httper.Download.Files.{Fs}
use httper.Download.Writers.{still}
use httper.Download.Handle.{Os, last, more, Attempt, created}
use httper.Download.Steps.{Job, returned, run}
use httper.Download.Steps.Alone.{rounds, handle_job}
use httper.Download.Steps.Effects.{owned, owns}
use httper.Download.Steps.Isolation.{Agrees, Apart, launch, turns_of, run-handle}
use httper.Download.Steps.Abstract.{files, handled, run-files}

abbrev digest : List ℕ → String
digest bytes = "sum " <> show_ℕ (length bytes)

abbrev os : String → Os
os temp = record {
  create_temp = created temp;
  sync_err = none;
  close_err = none;
  rename_err = none;
  remove_err = none;
  start_time = 0;
}

abbrev chunk : List ℕ → Attempt
chunk bytes = record { ctx_err = none; bytes = bytes; write_err = none; short = 0; clock = still 5 }

abbrev good : Job
good = record {
  os = os "dir/.one";
  body = more (chunk (1 ∷ 2 ∷ [])) (last (chunk (3 ∷ [])) none);
  content_length = pos 3;
  dest = "dir/one";
  opts = record {
    checksum = some (record { hashed = []; expected = "sum 3" });
    progress = false;
    skip_existing = false;
  };
}

abbrev bad : Job
bad = record {
  os = os "dir/.two";
  body = last (chunk (4 ∷ [])) none;
  content_length = pos 1;
  dest = "dir/two";
  opts = record {
    checksum = some (record { hashed = []; expected = "sum 2" });
    progress = true;
    skip_existing = true;
  };
}

abbrev jobs : List Job
jobs = good ∷ bad ∷ []

abbrev old : Fs
old = ("dir/one", 9 ∷ []) ∷ []

abbrev schedule : List ℕ
schedule = 1 ∷ 0 ∷ 0 ∷ 1 ∷ 1 ∷ 0 ∷ 0 ∷ 1 ∷ 0 ∷ []

owned_apart :
    (d t d' t' q : String)
    → str_eq d d' ≡ false
    → str_eq d t' ≡ false
    → str_eq t d' ≡ false
    → str_eq t t' ≡ false
    → owned d (created t) q ≡ true
    → owned d' (created t') q ≡ false
owned_apart d t d' t' q a b c e o = ground (
  arith,
  eq_iff d q,
  eq_iff t q,
  eq_iff d' q,
  eq_iff t' q,
  eq_iff d d',
  eq_iff d t',
  eq_iff t d',
  eq_iff t t',
)

good-Apart : Apart 0 good jobs
good-Apart zero j other h q o = absurd (other refl)
good-Apart (suc zero) j other h q o =
    let same : bad ≡ j = cc in
    subst (λ x. owns x q ≡ false) same
      (owned_apart "dir/one" "dir/.one" "dir/two" "dir/.two" q refl refl refl refl o)
good-Apart (suc (suc k)) j other h q o = cc

bad-Apart : Apart 1 bad jobs
bad-Apart zero j other h q o =
    let same : good ≡ j = cc in
    subst (λ x. owns x q ≡ false) same
      (owned_apart "dir/two" "dir/.two" "dir/one" "dir/.one" q refl refl refl refl o)
bad-Apart (suc zero) j other h q o = absurd (other refl)
bad-Apart (suc (suc k)) j other h q o = cc

all-Apart : (i : ℕ) (j : Job) → get_elem? jobs i ≡ some j → Apart i j jobs
all-Apart zero j h = let same : good ≡ j = cc in subst (λ x. Apart 0 x jobs) same good-Apart
all-Apart (suc zero) j h = let same : bad ≡ j = cc in subst (λ x. Apart 1 x jobs) same bad-Apart
all-Apart (suc (suc i)) j h = cc

enough : (i : ℕ) (j : Job) → get_elem? jobs i ≡ some j → rounds j.body + 3 ≤ turns_of i schedule
unfolding rounds turns_of
enough zero j h =
    let same : good ≡ j = cc in subst (λ x. rounds (Job.body x) + 3 ≤ 5) same (omega arith)
enough (suc zero) j h =
    let same : bad ≡ j = cc in subst (λ x. rounds (Job.body x) + 3 ≤ 4) same (omega arith)
enough (suc (suc i)) j h = cc

run-handle_example :
    (get_elem? (run digest schedule (launch old jobs)).1 0
      ≡ some (good, returned (handle_job digest good old).0 (handle_job digest good old).2))
    × Agrees good (run digest schedule (launch old jobs)).0 (handle_job digest good old).1
unfolding rounds turns_of
run-handle_example = run-handle digest 0 good jobs old schedule refl good-Apart (omega arith)

run-files_example :
    files (run digest schedule (launch old jobs)).0
    ≡ foldl (λ f j. handled digest j f) (files old) jobs
run-files_example = run-files digest jobs old schedule all-Apart enough
