-- ===== src/Download/Queue/Results.antt =====
-- Result.Err of one download against Result.Wait of its batch.
use httper.GoError.{GoError, is_error, join_all}
use httper.GoError.Laws.{is_error-join_all, join_all-none_iff}
use httper.Download.Queue.{Task, Queue, Reach, wait, IsFinished, is_done, result_err}
use httper.Download.Queue.Invariant.{In}
use httper.Download.Queue.Wait.{finished-recorded}
use httper.Base.{
  Option, inl, inr, Option-cases, All, ◌++◌, refl, ◌∙◌, ℕ, ◌≡◌, true, some, List, [], ◌∷◌, arith,
  any,
}

any-In :
    (es : List GoError) (e : GoError) (target : ℕ)
    → In e es
    → is_error e target ≡ true
    → any (λ d. is_error d target) es ≡ true
any-In [] e target h m = absurd h
any-In (d ∷ es) e target (inl same) m = rw (← same, m) refl
any-In (d ∷ es) e target (inr there) m = ground (arith, any-In es e target there m)

result_err-IsFinished :
    (t : Task) (e : GoError) → result_err t ≡ some (some e) → IsFinished t × (t.err ≡ some e)
unfolding result_err is_done
result_err-IsFinished t e h = ground arith

-- Once every task of a reachable queue has finished, an error that Result.Err of one of them returns
-- is in what Wait returns: Wait returns an error, and errors.Is takes it for every target for which
-- it takes that error.
pub wait_of-result_err :
    {sem : Option ℕ} {q : Queue} (before after : List Task) (t : Task) (e : GoError)
    → Reach sem q
    → All IsFinished q.tasks
    → q.tasks ≡ before ++ t ∷ after
    → result_err t ≡ some (some e)
    → (j : GoError) × (wait q ≡ some j)
      × ((target : ℕ) → is_error e target ≡ true → is_error j target ≡ true)
unfolding wait
wait_of-result_err {sem} {q} before after t e r over stands failed =
    let (done, err) = result_err-IsFinished t e failed in
    let recorded = finished-recorded before after t e r stands done err in
    elim (Option-cases (join_all q.shared.errs)) [
      | inl nil ↦ absurd (rw ((join_all-none_iff q.shared.errs).0 nil) at recorded)
      | inr (j, joined) ↦ (
        j,
        joined,
        λ target m.
            is_error-join_all q.shared.errs target joined
            ∙ any-In q.shared.errs e target recorded m,
      )
    ]
