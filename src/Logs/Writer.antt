-- ===== src/Logs/Writer.antt =====
-- internal/forward/logs.go, log_limits.go, traffic_recorder.go: what records an event, and the goroutine that
-- writes the events to the database.
use gosshd_bastion.Base.{
  ℕ, ◌+◌, Bool, true, false, not, ◌||◌, List, [], ◌∷◌, ◌++◌, Option, none, some, ltb, leb, ◌==◌,
  if◌then◌else◌, is_empty, any, length, take,
}
use gosshd_bastion.Base.Bytes.{Bytes, bytes_eq}
use gosshd_bastion.Logs.{Event, Stats}
use gosshd_bastion.Logs.Sums.{no_stats, add_stats, event_stats}
use gosshd_bastion.Logs.Overflow.{
  Database, Job, Logs, write_traffic, keep_accounting, flush_accounting,
}

unfoldable pub clip : Bytes → ℕ → Bytes
clip s n = if ltb n (length s) then take n s else s

-- The event that `Record` queues; `fresh` is the identifier that the package `uuid` makes.
unfoldable pub prepared : Bytes → ℕ → Event → Event
unfolding clip
prepared fresh now e = record e {
  path = clip e.path 8192;
  host = clip e.host 253;
  error = clip e.error 2048;
  id = if is_empty e.id then fresh else e.id;
  time = if e.time == 0 then now else e.time;
}

-- The capacity of the channel `jobs`.
abbrev pub capacity : ℕ
capacity = 4096

-- `Record`: an event that finds no room is only counted.
unfoldable pub record_event : Bytes → ℕ → Event → Logs → Logs
unfolding prepared keep_accounting
record_event fresh now e l =
    let e' = prepared fresh now e in
    if l.closed
    then l
    else if ltb (length l.jobs) capacity
    then record l {
      jobs = l.jobs ++ record { events = e' ∷ []; replies = false; access_only = false } ∷ [];
    }
    else keep_accounting e' (record l { dropped = l.dropped + 1 })

-- `Record` of a `TrafficRecorder`.
unfoldable pub record_traffic : ℕ → Event → Logs → Logs
unfolding keep_accounting
record_traffic now e l =
    let e' = record e { time = if e.time == 0 then now else e.time } in
    if l.closed then l else keep_accounting e' l

-- `importEvents`, up to where the job is queued. `none` is an error: the log is closed, or the caller gave
-- up while there was no room.
unfoldable pub import_events : List Event → Bool → Logs → Option Logs
import_events events access_only l =
    if l.closed
    then none
    else if ltb (length l.jobs) capacity
    then some (record l {
      jobs = l.jobs ++ record { events = events; replies = true; access_only = access_only } ∷ [];
    })
    else none

-- The variables of `commit`.
pub record Tx : Type 0 where
  pub access : List (ℕ × Event)
  pub last_seq : ℕ
  pub inserted : List Event

unfoldable pub has_id : Bytes → List (ℕ × Event) → Bool
unfolding bytes_eq
has_id id [] = false
has_id id ((seq, e) ∷ rows) = bytes_eq e.id id || has_id id rows

-- The body of the loop over the events of a job. An event whose ID is known is ignored.
unfoldable pub insert_event : Bool → Event → Tx → Option Tx
unfolding has_id
insert_event access_only e tx =
    let row : Tx = record tx {
      access = (tx.last_seq + 1, e) ∷ tx.access;
      last_seq = tx.last_seq + 1;
    } in
    if is_empty e.id
    then none
    else if has_id e.id tx.access
    then some tx
    else if access_only
    then some row
    else some (record row { inserted = tx.inserted ++ e ∷ [] })

unfoldable pub insert_events : Bool → List Event → Tx → Option Tx
unfolding insert_event
insert_events access_only [] tx = some tx
insert_events access_only (e ∷ events) tx = elim (insert_event access_only e tx) [
  | none ↦ none
  | some tx' ↦ insert_events access_only events tx'
]

unfoldable pub insert_jobs : List Job → Tx → Option Tx
unfolding insert_events
insert_jobs [] tx = some tx
insert_jobs (j ∷ jobs) tx = elim (insert_events j.access_only j.events tx) [
  | none ↦ none
  | some tx' ↦ insert_jobs jobs tx'
]

unfoldable pub batch_stats : List Event → Stats → Stats
unfolding event_stats add_stats
batch_stats [] s = s
batch_stats (e ∷ events) s = batch_stats events (add_stats s (event_stats e))

abbrev pub has_events : List Job → Bool
has_events = any (λ j. not (is_empty j.events))

-- The database once the rows are in.
unfoldable pub commit_tx : Database → Tx → Database
unfolding batch_stats write_traffic add_stats
commit_tx db tx = write_traffic tx.inserted (record db {
  access = tx.access;
  last_seq = tx.last_seq;
  totals = add_stats db.totals (batch_stats tx.inserted no_stats);
})

-- `commit`; `none` is an error.
unfoldable pub commit : Bool → List Job → Database → Option Database
unfolding insert_jobs commit_tx
commit accepted jobs db =
    if not (has_events jobs)
    then some db
    else elim (insert_jobs jobs
        (record { access = db.access; last_seq = db.last_seq; inserted = [] })) [
          | none ↦ none
          | some tx ↦ if accepted then some (commit_tx db tx) else none
        ]

abbrev pub job_events : List Job → List Event
job_events [] = []
job_events (j ∷ jobs) = j.events ++ job_events jobs

unfoldable pub keep_events : List Event → Logs → Logs
unfolding keep_accounting
keep_events [] l = l
keep_events (e ∷ events) l =
    keep_events events
      (let kept = keep_accounting e l in record kept { dropped = kept.dropped + 1 })

-- A job that no caller waits for is counted when it cannot be written.
unfoldable pub keep_jobs : List Job → Logs → Logs
unfolding keep_events
keep_jobs [] l = l
keep_jobs (j ∷ jobs) l = keep_jobs jobs (if j.replies then l else keep_events j.events l)

-- The function `commit` of the writer up to its flush; each caller that waits gets the result at its end.
unfoldable pub write_batch : Bool → Logs → Logs
unfolding commit keep_jobs
write_batch accepted l =
    let written : Logs = record l { batch = [] } in
    elim (commit accepted l.batch l.db) [
      | some db ↦ record written { db = db }
      | none ↦
          keep_jobs l.batch (record written { failures = l.failures + length (job_events l.batch) })
    ]

unfoldable pub write_and_flush : Bool → Bool → Logs → Logs
unfolding write_batch flush_accounting
write_and_flush accepted flushed l = flush_accounting flushed (write_batch accepted l)

-- A job that the writer takes; it writes at once if it has enough or if a caller waits.
unfoldable pub take_job : Logs → Logs × Bool
take_job l = elim l.jobs [
  | [] ↦ (l, false)
  | j ∷ rest ↦
      let batch = l.batch ++ j ∷ [] in
      (record l { jobs = rest; batch = batch }, leb 256 (length (job_events batch)) || j.replies)
]

-- The rows that the `DELETE` of `Prune` leaves.
unfoldable pub kept_rows : ℕ → List (ℕ × Event) → List (ℕ × Event)
kept_rows cutoff [] = []
kept_rows cutoff ((seq, e) ∷ rows) =
    let rest = kept_rows cutoff rows in if ltb e.time cutoff then rest else (seq, e) ∷ rest

unfoldable pub prune : ℕ → Logs → Logs
unfolding kept_rows
prune cutoff l = record l { db = record l.db { access = kept_rows cutoff l.db.access } }

unfoldable pub close : Logs → Logs
close l = record l { closed = true }
