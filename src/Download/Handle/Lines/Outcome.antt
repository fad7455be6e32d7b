-- ===== src/Download/Handle/Lines/Outcome.antt =====
-- The log lines of a whole download.
use httper.Base.{ℕ, none}
use httper.Download.Handle.Lines.{Spaced}
use httper.Download.Handle.{Outcome}
use httper.GoError.{GoError}

-- The lines of an outcome
abbrev Quiet : ℕ → Outcome → Type 0
Quiet pause o = Spaced pause none o.2
