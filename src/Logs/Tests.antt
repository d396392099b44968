-- ===== src/Logs/Tests.antt =====
-- Runs of a log, and the theorems at concrete steps.
use gosshd_bastion.Base.{ℕ, true, false, List, [], ◌∷◌, none, ◌≡◌, refl}
use gosshd_bastion.Base.Bytes.{Bytes, codes, bytes_eq}
use gosshd_bastion.Base.Texts.{is_among}
use gosshd_bastion.Logs.{Event, Stats, TrafficKey}
use gosshd_bastion.Logs.Sums.{
  no_stats, add_stats, event_stats, bucket_of, add_event, source_stats, add_at, same_key,
}
use gosshd_bastion.Logs.Overflow.{Logs, keep_accounting, begin_flush, end_flush, write_traffic}
use gosshd_bastion.Logs.Writer.{
  prepared, record_event, record_traffic, take_job, write_batch, prune, close, commit_tx,
}
use gosshd_bastion.Logs.Persist.{shares, all_stats, sum_buckets}
use gosshd_bastion.Logs.Schedule.{
  Step, records, counts, takes, writes, begins, ends, closes, run, recorded,
}
use gosshd_bastion.Logs.Account.{account, overall}
use gosshd_bastion.Logs.Sound.{IsSound}
use gosshd_bastion.Logs.Refine.{run-account}
use gosshd_bastion.Logs.Telemetry.{Peers, max_stats}
use gosshd_bastion.Logs.Telemetry.Converge.{
  Delivery, import_all, total_at, traffic_at, highest_total, highest_traffic, import_all-highest,
}

abbrev event_of : Bytes → ℕ → ℕ → Event
event_of id time up = record {
  id = id;
  time = time;
  source_ip = codes "10.0.0.1";
  method = codes "GET";
  host = [];
  path = codes "/";
  server_id = [];
  route_id = [];
  upstream = [];
  status = 200;
  up = up;
  down = 1;
  duration_ms = 0;
  source_concurrent = 2;
  direct_up = 0;
  direct_down = 0;
  concurrent = 5;
  direct = false;
  error = [];
}

abbrev new_log : Logs
new_log = record {
  db = record {
    access = [];
    last_seq = 0;
    totals = no_stats;
    buckets = [];
    traffic_seq = 0;
    ack = 0;
    traffic_ack = 0;
  };
  jobs = [];
  batch = [];
  flushing = none;
  closed = false;
  dropped = 0;
  failures = 0;
  overflow = [];
  overflow_total = no_stats;
}

-- The first batch is refused, its event is counted in memory, a flush is refused too; then all is written.
abbrev rough_day : List Step
rough_day =
    records (codes "e1") 300000 (event_of [] 0 7)
    ∷ takes
    ∷ writes false
    ∷ begins
    ∷ records (codes "e2") 300001 (event_of [] 0 4)
    ∷ ends false
    ∷ counts 300002 (event_of [] 0 1)
    ∷ takes
    ∷ writes true
    ∷ begins
    ∷ ends true
    ∷ closes
    ∷ records (codes "e3") 300003 (event_of [] 0 9)
    ∷ []

abbrev source_bucket : TrafficKey
source_bucket = record { source = codes "10.0.0.1"; bucket = 300 }

-- All three recorded events are in the database, under the source too.
all_written : sum_buckets source_bucket (run rough_day new_log).db.buckets ≡ record {
  requests = 3;
  up = 12;
  down = 3;
  direct_up = 0;
  direct_down = 0;
  peak = 2;
  errors = 0;
}
unfolding run record_event record_traffic take_job write_batch end_flush begin_flush prune close
    keep_accounting add_event event_stats source_stats bucket_of add_at add_stats same_key bytes_eq
    commit_tx write_traffic
all_written = refl

new_log-IsSound : IsSound new_log (
    prepared (codes "e1") 300000 (event_of [] 0 7)
    ∷ prepared (codes "e2") 300001 (event_of [] 0 4)
    ∷ [])
unfolding is_among bytes_eq prepared
new_log-IsSound = record {
  fresh = (refl, (refl, tt));
  named = (refl, (refl, tt));
  plain_batch = tt;
  plain_jobs = tt;
  waiting = λ h. (refl, refl);
  flushing = λ t v h. absurd (cc);
}

run-account_example :
    ((k : TrafficKey)
      → account k (run rough_day new_log)
        ≡ add_stats (account k new_log) (shares k (recorded rough_day false)))
    × (overall (run rough_day new_log)
        ≡ add_stats (overall new_log) (all_stats (recorded rough_day false)))
run-account_example = run-account rough_day new_log new_log-IsSound

abbrev snapshot : ℕ → Stats
snapshot n = record {
  requests = n;
  up = 10;
  down = 0;
  direct_up = 0;
  direct_down = 0;
  peak = n;
  errors = 0;
}

abbrev delivery : ℕ → Delivery
delivery n = record {
  accepted = true;
  agent = codes "a";
  total = snapshot n;
  buckets = (source_bucket, snapshot n) ∷ [];
}

abbrev no_peers : Peers
no_peers = record { totals = []; traffic = [] }

import_all-highest_example :
    (total_at (codes "a") (import_all (delivery 5 ∷ delivery 3 ∷ delivery 5 ∷ []) no_peers).totals
      ≡ max_stats
          (total_at (codes "a") [])
          (highest_total (codes "a") (delivery 5 ∷ delivery 3 ∷ delivery 5 ∷ [])))
    × (traffic_at
          (codes "a", source_bucket)
          (import_all (delivery 5 ∷ delivery 3 ∷ delivery 5 ∷ []) no_peers).traffic
        ≡ max_stats (traffic_at (codes "a", source_bucket) []) (
            highest_traffic (codes "a", source_bucket) (delivery 5 ∷ delivery 3 ∷ delivery 5 ∷ [])))
import_all-highest_example =
    import_all-highest (delivery 5 ∷ delivery 3 ∷ delivery 5 ∷ []) no_peers (codes "a")
      (codes "a", source_bucket)
