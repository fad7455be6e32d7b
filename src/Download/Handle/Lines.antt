-- ===== src/Download/Handle/Lines.antt =====
-- When a download logs its progress.
pub mod Outcome
use httper.GoError.{GoError}
use httper.Download.Handle.{more, last, copy, Body, Attempt, write_chunk, Copying}
use httper.Download.Writers.{
  progress_write, ProgressWriter, Log, skipping_existing, downloading, download_complete,
  closing_failed, removing_failed, is_due, figures, Clock,
}
use httper.Base.{
  Option-cases, length, sym, subst, ◌∙◌, ℕ, ◌+◌, ◌-◌, ◌≤◌, ◌≡◌, refl, inl, inr, true, Option, none,
  some, List, [], ◌∷◌, ◌++◌, arith, if◌then◌else◌, Bool-cases, pos, eq_ℤ,
}
use mathlib.Core.List.{append-nil}

abbrev second : ℕ
second = 1000000000

-- `pause` at most passes between the time that a line keeps and the time that it shows.
module _ (pause : ℕ) where
  -- At least a second behind the line before, if there was one, but for the pause
  abbrev IsLater : Option ℕ → ℕ → Type 0
  IsLater none e = Unit
  IsLater (some p) e = p + second ≤ e + pause

  -- Each line `downloading` is later than the one before, `prev` at first.
  pub Spaced : Option ℕ → List Log → Type 0
  Spaced prev [] = Unit
  Spaced prev (skipping_existing ∷ l) = Spaced prev l
  Spaced prev (downloading f ∷ l) = IsLater prev f.elapsed × Spaced (some f.elapsed) l
  Spaced prev (download_complete f ∷ l) = Spaced prev l
  Spaced prev (closing_failed e ∷ l) = Spaced prev l
  Spaced prev (removing_failed e ∷ l) = Spaced prev l

pub latest : Option ℕ → List Log → Option ℕ
latest prev [] = prev
latest prev (skipping_existing ∷ l) = latest prev l
latest prev (downloading f ∷ l) = latest (some f.elapsed) l
latest prev (download_complete f ∷ l) = latest prev l
latest prev (closing_failed e ∷ l) = latest prev l
latest prev (removing_failed e ∷ l) = latest prev l

latest-append :
    (prev : Option ℕ) (xs ys : List Log) → latest prev (xs ++ ys) ≡ latest (latest prev xs) ys
unfolding latest
latest-append prev [] ys = refl
latest-append prev (skipping_existing ∷ l) ys = latest-append prev l ys
latest-append prev (downloading f ∷ l) ys = latest-append (some f.elapsed) l ys
latest-append prev (download_complete f ∷ l) ys = latest-append prev l ys
latest-append prev (closing_failed e ∷ l) ys = latest-append prev l ys
latest-append prev (removing_failed e ∷ l) ys = latest-append prev l ys

-- The times of Write are in order, from `s` on, and the pause before a line shows its time is at
-- most `pause`.
pub record IsOrdered (pause s : ℕ) (c : Clock) : Type 0 where
  pub from_start : s ≤ c.asked
  pub in_order : c.asked ≤ c.kept
  pub shown_after : c.kept ≤ c.shown
  pub prompt : c.shown ≤ c.kept + pause

module _ (pause : ℕ) where
  pub Spaced-append :
      (prev : Option ℕ) (xs ys : List Log)
      → Spaced pause prev xs
      → Spaced pause (latest prev xs) ys
      → Spaced pause prev (xs ++ ys)
  unfolding Spaced latest
  Spaced-append prev [] ys h k = k
  Spaced-append prev (skipping_existing ∷ l) ys h k = Spaced-append prev l ys h k
  Spaced-append prev (downloading f ∷ l) ys h k = (h.0, Spaced-append (some f.elapsed) l ys h.1 k)
  Spaced-append prev (download_complete f ∷ l) ys h k = Spaced-append prev l ys h k
  Spaced-append prev (closing_failed e ∷ l) ys h k = Spaced-append prev l ys h k
  Spaced-append prev (removing_failed e ∷ l) ys h k = Spaced-append prev l ys h k

  -- The time that the last line shows against the one that it keeps
  abbrev pub IsKept : ℕ → Option ℕ → Option ℕ → Type 0
  IsKept s none none = Unit
  IsKept s (some p) (some t) = p + s ≤ t + pause
  IsKept s (some p) none = ⊥
  IsKept s none (some t) = ⊥

  -- The lines so far, with the writer that has written them
  pub record IsSteady (s : ℕ) (pw : ProgressWriter) (logs : List Log) : Type 0 where
    pub started : pw.start_time ≡ s
    pub spaced : Spaced pause none logs
    pub last_line : IsKept s (latest none logs) pw.last_log

  abbrev pub Steady : ℕ → Option ProgressWriter → List Log → Type 0
  Steady s none logs = Spaced pause none logs
  Steady s (some pw) logs = IsSteady s pw logs

  IsLater-due :
      (s : ℕ) (c : Clock) (p o : Option ℕ)
      → IsOrdered pause s c
      → IsKept s p o
      → is_due c.asked o ≡ true
      → IsLater pause p (c.shown - s)
  IsLater-due s c none o ordered k d = tt
  IsLater-due s c (some p) none ordered k d = absurd k
  IsLater-due s c (some p) (some t) ordered k d =
      let waited : t + second ≤ c.asked = ground arith in
      omega (arith, waited, k, ordered.from_start, ordered.in_order, ordered.shown_after)

-- The line at the end of the body, if any
abbrev completion : ℕ → ℕ → ProgressWriter → List Log
completion now sent pw =
    if eq_ℤ pw.total (pos sent) then download_complete (figures now sent pw) ∷ [] else []

completion-Spaced :
    (pause : ℕ) (prev : Option ℕ) (now sent : ℕ) (pw : ProgressWriter)
    → Spaced pause prev (completion now sent pw) × (latest prev (completion now sent pw) ≡ prev)
unfolding Spaced latest
completion-Spaced pause prev now sent pw = elim (Bool-cases (eq_ℤ pw.total (pos sent))) [
  | inl e ↦ rw e (tt, refl)
  | inr e ↦ rw e (tt, refl)
]

module _ (pause s : ℕ) (clock : Clock) (n : ℕ) (ordered : IsOrdered pause s clock) where
  written-IsSteady :
      (pw : ProgressWriter) (logs : List Log)
      → IsSteady pause s pw logs
      → Steady pause s
          (progress_write clock n (some pw)).0
          (logs ++ (progress_write clock n (some pw)).1)
  unfolding progress_write Spaced latest
  written-IsSteady pw logs st =
      let sent = pw.transferred + n in
      let ends = completion clock.completed sent pw in
      elim (Bool-cases (is_due clock.asked pw.last_log)) [
        | inl due ↦
            let e = clock.shown - pw.start_time in
            let done = completion-Spaced pause (some e) clock.completed sent pw in
            let later : IsLater pause (latest none logs) e =
              rw st.started (
                IsLater-due pause s clock (latest none logs) pw.last_log ordered st.last_line
                  due) in
            rw due (record {
              started = st.started;
              spaced =
                  Spaced-append pause none logs (downloading (figures clock.shown sent pw) ∷ ends)
                    st.spaced (later, done.0);
              last_line =
                  subst (λ l. IsKept pause s l (some clock.kept))
                    (sym (
                      latest-append none logs (downloading (figures clock.shown sent pw) ∷ ends)
                      ∙ done.1))
                    (omega (
                      arith, st.started, ordered.prompt, ordered.from_start, ordered.in_order,
                      ordered.shown_after,
                    ));
            })
        | inr early ↦
            let done = completion-Spaced pause (latest none logs) clock.completed sent pw in
            rw early (record {
              started = st.started;
              spaced = Spaced-append pause none logs ends st.spaced done.0;
              last_line =
                  subst (λ l. IsKept pause s l pw.last_log)
                    (sym (latest-append none logs ends ∙ done.1)) st.last_line;
            })
      ]

  progress_write-Steady :
      (p : Option ProgressWriter) (logs : List Log)
      → Steady pause s p logs
      → Steady pause s (progress_write clock n p).0 (logs ++ (progress_write clock n p).1)
  unfolding progress_write
  progress_write-Steady none logs h = subst (λ l. Spaced pause none l) (sym (append-nil logs)) h
  progress_write-Steady (some pw) logs h = written-IsSteady pw logs h

module _ (pause s : ℕ) where
  abbrev pub Fine : Copying → Type 0
  Fine c = Steady pause s c.progress c.logs

  module _ (a : Attempt) (c : Copying) (ordered : IsOrdered pause s a.clock) (h : Fine c) where
    chunk-Fine :
        (bytes : List ℕ) (write_err : Option GoError)
        → a.bytes ≡ bytes
        → a.write_err ≡ write_err
        → Fine (write_chunk a c).1
    unfolding write_chunk
    chunk-Fine [] w read wrote = rw (read, write_chunk) h
    chunk-Fine (b ∷ bs) none read wrote =
        rw (read, wrote)
          (progress_write-Steady pause s a.clock (length (b ∷ bs)) ordered c.progress c.logs h)
    chunk-Fine (b ∷ bs) (some e) read wrote =
        rw (read, wrote) (progress_write-Steady pause s a.clock a.short ordered c.progress c.logs h)

    write_chunk-Fine : Fine (write_chunk a c).1
    write_chunk-Fine = chunk-Fine a.bytes a.write_err refl refl

  -- The clock at every write of the body
  abbrev pub IsClocked : Body → Type 0
  IsClocked (last a end) = IsOrdered pause s a.clock
  IsClocked (more a body) = IsOrdered pause s a.clock × IsClocked body

  continued-Fine :
      (body : Body) (x : Option GoError × Copying)
      → Fine x.1
      → ((c : Copying) → Fine c → Fine (copy body c).1)
      → Fine
          (elim x.0 as (λ _. Option GoError × Copying) [
            | some e ↦ (some e, x.1)
            | none ↦ copy body x.1
          ]).1
  continued-Fine body (none, c) h rest = rest c h
  continued-Fine body (some e, c) h rest = h

  pub copy-Fine : (body : Body) (c : Copying) → IsClocked body → Fine c → Fine (copy body c).1
  unfolding copy
  copy-Fine (last a end) c ordered h = elim (Option-cases a.ctx_err) [
    | inl live ↦ rw live (write_chunk-Fine a c ordered h)
    | inr (e, over) ↦ rw over h
  ]
  copy-Fine (more a body) c ordered h = elim (Option-cases a.ctx_err) [
    | inl live ↦ rw live (
        continued-Fine body (write_chunk a c) (write_chunk-Fine a c ordered.0 h)
          (λ c' h'. copy-Fine body c' ordered.1 h'))
    | inr (e, over) ↦ rw over h
  ]
