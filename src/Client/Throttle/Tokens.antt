-- ===== src/Client/Throttle/Tokens.antt =====
-- How many tokens a request takes from the bucket.
use httper.GoError.{GoError, Try}
use httper.Client.Throttle.{Fate, round_trip}
use httper.Base.{ℕ, ◌+◌, ◌≡◌, Bool, true, false, ◌&&◌, Option, none, some, arith}

abbrev one_if : Bool → ℕ
one_if true = 1
one_if false = 0

abbrev is_nil : Option GoError → Bool
is_nil none = true
is_nil (some _) = false

-- What the documentation of package rate says of a token bucket: `taken` counts the tokens handed
-- out so far, Allow takes one if it reports true, and Wait takes one if it returns nil.
pub record IsBucket {L : Type 0} (allow : L → Bool × L) (wait : L → Option GoError × L)
    (taken : L → ℕ) : Type 0 where
  pub allow_takes : (l : L) → taken (allow l).1 ≡ taken l + one_if (allow l).0
  pub wait_takes : (l : L) → taken (wait l).1 ≡ taken l + one_if (is_nil (wait l).0)

module _ {L R : Type 0} (allow : L → Bool × L) (wait : L → Option GoError × L) (taken : L → ℕ)
    (bucket : IsBucket allow wait taken) where
  -- With a bucket that counts as package rate documents, a request that is passed on takes one
  -- token if there is no logger, or if Allow reported that there was none, and two tokens
  -- otherwise.
  pub round_trip-takes :
      (has_logger : Bool) (fate : Fate) (next : Try R) (l : L)
      → (round_trip allow wait has_logger fate next l).3 ≡ true
      → taken (round_trip allow wait has_logger fate next l).1
        ≡ taken l + (1 + one_if (has_logger && (allow l).0))
  unfolding round_trip
  round_trip-takes has_logger fate next l h =
      ground (arith, bucket.allow_takes l, bucket.wait_takes l, bucket.wait_takes (allow l).1)
