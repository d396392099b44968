-- ===== src/Logs/Outbox/Tests.antt =====
-- Runs of an agent's log and the server's.
use gosshd_bastion.Base.{true, false, List, [], ◌∷◌, length, ◌≡◌, refl, arith}
use gosshd_bastion.Base.Bytes.{Bytes, codes}
use gosshd_bastion.Logs.{Event}
use gosshd_bastion.Logs.Sums.{no_stats, add_at, bucket_of}
use gosshd_bastion.Logs.Overflow.{Database, Job}
use gosshd_bastion.Logs.Outbox.{highest}
use gosshd_bastion.Logs.Outbox.Link.{
  Link, LinkStep, commits, reports, arrives, acknowledges, link_run, IsSynced,
}
use gosshd_bastion.Logs.Outbox.Sync.{link_run-IsSynced}

abbrev request : Bytes → Event
request id = record {
  id = id;
  time = 300000;
  source_ip = codes "10.0.0.1";
  method = codes "GET";
  host = [];
  path = codes "/";
  server_id = [];
  route_id = [];
  upstream = [];
  status = 200;
  up = 1;
  down = 1;
  duration_ms = 0;
  source_concurrent = 1;
  direct_up = 0;
  direct_down = 0;
  concurrent = 1;
  direct = false;
  error = [];
}

abbrev no_rows : Database
no_rows = record {
  access = [];
  last_seq = 0;
  totals = no_stats;
  buckets = [];
  traffic_seq = 0;
  ack = 0;
  traffic_ack = 0;
}

abbrev new_link : Link
new_link = record { agent = no_rows; sent = []; server = record { db = no_rows; ack = 0 } }

abbrev batch : Job
batch = record {
  events = request (codes "a") ∷ request (codes "b") ∷ request (codes "c") ∷ [];
  replies = false;
  access_only = false;
}

-- The first import fails, the second report arrives twice, and a third is on its way at the end.
abbrev uneven : List LinkStep
uneven =
    commits true (batch ∷ [])
    ∷ reports 2
    ∷ arrives false true
    ∷ acknowledges
    ∷ reports 2
    ∷ arrives true false
    ∷ arrives true true
    ∷ acknowledges
    ∷ reports 2
    ∷ []

two_arrived : length (link_run uneven new_link).server.db.access ≡ 2
unfolding link_run add_at bucket_of
two_arrived = refl

two_acknowledged : (link_run uneven new_link).agent.ack ≡ 2
unfolding link_run add_at bucket_of
two_acknowledged = refl

third_sent : length (link_run uneven new_link).sent ≡ 1
unfolding link_run add_at bucket_of
third_sent = refl

link_run-IsSynced_example : IsSynced (link_run uneven new_link)
link_run-IsSynced_example = link_run-IsSynced uneven new_link (record {
  ordered = tt;
  known = (omega arith, omega arith, unfold highest in omega arith);
  delivered = tt;
  acknowledged = tt;
  reported = tt;
})
