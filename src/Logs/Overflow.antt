-- ===== src/Logs/Overflow.antt =====
-- internal/forward/overflow.go, traffic.go, logs.go: the database, the accounting that waits in memory,
-- and the writer. A transaction that the database does not accept leaves it as it was.
use gosshd_bastion.Base.{
  ℕ, ◌+◌, ◌-◌, Bool, List, [], ◌∷◌, Option, none, some, ◌==◌, if◌then◌else◌, is_empty, length,
}
use gosshd_bastion.Logs.{Event, Stats, TrafficKey}
use gosshd_bastion.Logs.Sums.{no_stats, add_stats, same_key, merge, event_stats, add_event}

-- A row of `traffic_buckets`.
pub record Bucket : Type 0 where
  pub key : TrafficKey
  pub stats : Stats
  pub updated_seq : ℕ

-- The tables of the file; `access_logs` has the last row in front.
pub record Database : Type 0 where
  pub access : List (ℕ × Event)
  pub last_seq : ℕ
  pub totals : Stats
  pub buckets : List Bucket
  pub traffic_seq : ℕ
  pub ack : ℕ
  pub traffic_ack : ℕ

-- `replies` says that a caller waits for the result.
pub record Job : Type 0 where
  pub events : List Event
  pub replies : Bool
  pub access_only : Bool

-- `batch` is the variable `jobs` of the writer, and `flushing` its variables `total` and `values` while
-- it persists them.
pub record Logs : Type 0 where
  pub db : Database
  pub jobs : List Job
  pub batch : List Job
  pub flushing : Option (Stats × List (TrafficKey × Stats))
  pub closed : Bool
  pub dropped : ℕ
  pub failures : ℕ
  pub overflow : List (TrafficKey × Stats)
  pub overflow_total : Stats

-- `INSERT … ON CONFLICT … DO UPDATE`.
unfoldable pub upsert : TrafficKey → Stats → ℕ → List Bucket → List Bucket
unfolding same_key
upsert key s seq [] = record { key = key; stats = s; updated_seq = seq } ∷ []
upsert key s seq (b ∷ bs) =
    if same_key b.key key
    then record b { stats = add_stats b.stats s; updated_seq = seq } ∷ bs
    else b ∷ upsert key s seq bs

unfoldable pub write_values : List (TrafficKey × Stats) → ℕ → List Bucket → List Bucket
unfolding upsert
write_values [] seq bs = bs
write_values ((key, s) ∷ values) seq bs = write_values values (seq + 1) (upsert key s (seq + 1) bs)

unfoldable pub write_traffic_values : List (TrafficKey × Stats) → Database → Database
unfolding write_values
write_traffic_values values db =
    let last = db.traffic_seq + length values in
    if is_empty values then db else record db {
      buckets = write_values values (last - length values) db.buckets;
      traffic_seq = last;
    }

unfoldable pub collect : List Event → List (TrafficKey × Stats) → List (TrafficKey × Stats)
unfolding add_event
collect [] values = values
collect (e ∷ events) values = collect events (add_event e values)

unfoldable pub write_traffic : List Event → Database → Database
unfolding collect write_traffic_values
write_traffic events db = write_traffic_values (collect events []) db

unfoldable pub keep_accounting : Event → Logs → Logs
unfolding add_event event_stats add_stats
keep_accounting e l = record l {
  overflow_total = add_stats l.overflow_total (event_stats e);
  overflow = add_event e l.overflow;
}

-- The database after the transaction of `flushAccounting`.
abbrev pub persisted : Stats → List (TrafficKey × Stats) → Database → Database
persisted total values db =
    write_traffic_values values (record db { totals = add_stats db.totals total })

-- `flushAccounting` up to where it leaves the lock.
unfoldable pub begin_flush : Logs → Logs
begin_flush l = record l {
  overflow_total = no_stats;
  overflow = [];
  flushing = some (l.overflow_total, l.overflow);
}

-- The rest of it: what the database does not accept is put back.
unfoldable pub finish_flush : Bool → Stats → List (TrafficKey × Stats) → Logs → Logs
unfolding write_traffic_values merge add_stats
finish_flush accepted total values l =
    if total.requests == 0
    then record l { flushing = none }
    else if accepted
    then record l { flushing = none; db = persisted total values l.db }
    else record l {
      flushing = none;
      failures = l.failures + 1;
      overflow_total = add_stats l.overflow_total total;
      overflow = merge values l.overflow;
    }

unfoldable pub end_flush : Bool → Logs → Logs
unfolding finish_flush
end_flush accepted l = elim l.flushing [
  | none ↦ l
  | some (total, values) ↦ finish_flush accepted total values l
]

unfoldable pub flush_accounting : Bool → Logs → Logs
unfolding begin_flush end_flush
flush_accounting accepted l = end_flush accepted (begin_flush l)
