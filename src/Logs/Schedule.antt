-- ===== src/Logs/Schedule.antt =====
-- The writer and the callers of a log as sequences of steps, in any order, with any failures of the
-- database; and what the callers recorded.
use gosshd_bastion.Base.{ℕ, Bool, true, List, [], ◌∷◌, ◌++◌, none, some, if◌then◌else◌, ◌==◌}
use gosshd_bastion.Base.Bytes.{Bytes}
use gosshd_bastion.Logs.{Event}
use gosshd_bastion.Logs.Overflow.{Logs, begin_flush, end_flush}
use gosshd_bastion.Logs.Writer.{
  prepared, record_event, record_traffic, take_job, write_batch, prune, close,
}

pub data Step : Type 0 where
  records : (fresh : Bytes) → (now : ℕ) → (event : Event) → Step
  counts : (now : ℕ) → (event : Event) → Step
  takes : Step
  writes : (accepted : Bool) → Step
  begins : Step
  ends : (accepted : Bool) → Step
  prunes : (cutoff : ℕ) → Step
  closes : Step

-- The one writer begins a flush when none is under way.
unfoldable pub begin_step : Logs → Logs
unfolding begin_flush
begin_step l = elim l.flushing [ none ↦ begin_flush l | some flushing ↦ l ]

unfoldable pub step : Step → Logs → Logs
unfolding begin_step
step (records fresh now e) l = record_event fresh now e l
step (counts now e) l = record_traffic now e l
step takes l = (take_job l).0
step (writes accepted) l = write_batch accepted l
step begins l = begin_step l
step (ends accepted) l = end_flush accepted l
step (prunes cutoff) l = prune cutoff l
step closes l = close l

unfoldable pub run : List Step → Logs → Logs
unfolding step
run [] l = l
run (s ∷ steps) l = run steps (step s l)

abbrev pub timed : ℕ → Event → Event
timed now e = record e { time = if e.time == 0 then now else e.time }

-- The event that a step records, if the log is not closed.
abbrev pub news : Step → Bool → List Event
news (records fresh now e) closed = if closed then [] else prepared fresh now e ∷ []
news (counts now e) closed = if closed then [] else timed now e ∷ []
news takes closed = []
news (writes accepted) closed = []
news begins closed = []
news (ends accepted) closed = []
news (prunes cutoff) closed = []
news closes closed = []

-- The same, where the event is to have a row in the log.
abbrev pub rows : Step → Bool → List Event
rows (records fresh now e) closed = if closed then [] else prepared fresh now e ∷ []
rows (counts now e) closed = []
rows takes closed = []
rows (writes accepted) closed = []
rows begins closed = []
rows (ends accepted) closed = []
rows (prunes cutoff) closed = []
rows closes closed = []

abbrev pub closed_after : Step → Bool → Bool
closed_after closes closed = true
closed_after (records fresh now e) closed = closed
closed_after (counts now e) closed = closed
closed_after takes closed = closed
closed_after (writes accepted) closed = closed
closed_after begins closed = closed
closed_after (ends accepted) closed = closed
closed_after (prunes cutoff) closed = closed

-- All events that the steps record.
abbrev pub recorded : List Step → Bool → List Event
recorded [] closed = []
recorded (s ∷ steps) closed = news s closed ++ recorded steps (closed_after s closed)

-- Those of them that are to have a row.
abbrev pub logged : List Step → Bool → List Event
logged [] closed = []
logged (s ∷ steps) closed = rows s closed ++ logged steps (closed_after s closed)
