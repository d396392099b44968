-- ===== src/Logs/Telemetry/Converge.antt =====
-- The order of the snapshots does not matter, nor how often each arrives.
use gosshd_bastion.Base.{
  Bool, true, false, ◌&&◌, List, [], ◌∷◌, if◌then◌else◌, ◌≡◌, refl, sym, ap, ap₂, ◌∙◌, arith,
  Bool-cases, and_split, inl, inr,
}
use gosshd_bastion.Base.Bytes.{Bytes, bytes_eq, bytes_eq_iff}
use gosshd_bastion.Logs.{Stats, TrafficKey}
use gosshd_bastion.Logs.Sums.{no_stats, same_key, same_key_trans}
use gosshd_bastion.Logs.Telemetry.{
  Peers, max_stats, is_behind, import_total, same_peer_key, import_bucket, import_buckets,
  import_telemetry,
}

-- A delivery: whether the database accepts it, from whom, the total and the buckets.
pub record Delivery : Type 0 where
  pub accepted : Bool
  pub agent : Bytes
  pub total : Stats
  pub buckets : List (TrafficKey × Stats)

unfoldable pub import_all : List Delivery → Peers → Peers
unfolding import_telemetry
import_all [] p = p
import_all (d ∷ ds) p = import_all ds (import_telemetry d.accepted d.agent d.total d.buckets p).0

-- What the tables hold.
abbrev pub total_at : Bytes → List (Bytes × Stats) → Stats
total_at agent [] = no_stats
total_at agent ((a, t) ∷ rest) =
    if bytes_eq a agent then max_stats t (total_at agent rest) else total_at agent rest

abbrev pub traffic_at : Bytes × TrafficKey → List ((Bytes × TrafficKey) × Stats) → Stats
traffic_at key [] = no_stats
traffic_at key ((j, t) ∷ rest) =
    if same_peer_key j key then max_stats t (traffic_at key rest) else traffic_at key rest

-- The highest counters among the accepted snapshots.
abbrev pub highest_total : Bytes → List Delivery → Stats
highest_total agent [] = no_stats
highest_total agent (d ∷ ds) =
    if d.accepted && bytes_eq d.agent agent
    then max_stats d.total (highest_total agent ds)
    else highest_total agent ds

abbrev pub highest_bucket : Bytes × TrafficKey → Bytes → List (TrafficKey × Stats) → Stats
highest_bucket key agent [] = no_stats
highest_bucket key agent ((j, s) ∷ buckets) =
    if same_peer_key (agent, j) key
    then max_stats s (highest_bucket key agent buckets)
    else highest_bucket key agent buckets

abbrev pub highest_traffic : Bytes × TrafficKey → List Delivery → Stats
highest_traffic key [] = no_stats
highest_traffic key (d ∷ ds) =
    if d.accepted
    then max_stats (highest_bucket key d.agent d.buckets) (highest_traffic key ds)
    else highest_traffic key ds

max_stats_comm : (a b : Stats) → max_stats a b ≡ max_stats b a
unfolding max_stats
max_stats_comm a b = ground arith

max_stats_assoc : (a b c : Stats) → max_stats (max_stats a b) c ≡ max_stats a (max_stats b c)
unfolding max_stats
max_stats_assoc a b c = ground arith

max_stats-none : (a : Stats) → max_stats a no_stats ≡ a
unfolding max_stats
max_stats-none a = ground arith

max_stats_last : (a b c : Stats) → max_stats (max_stats a c) b ≡ max_stats (max_stats a b) c
unfolding max_stats
max_stats_last a b c = ground arith

-- A row that is not behind already has the highest counters.
if_behind : (a b : Stats) → (if is_behind a b then max_stats a b else a) ≡ max_stats a b
if_behind a b = elim (Bool-cases (is_behind a b)) [
  | inl e ↦ rw e refl
  | inr e ↦ rw e (unfold is_behind max_stats in ground arith)
]

if_both :
    (b : Bool) (t s r : Stats)
    → (if b then max_stats (max_stats t s) r else r) ≡ (
        if b
        then max_stats (if b then max_stats t r else r) s
        else (if b then max_stats t r else r))
if_both true t s r = max_stats_last t r s
if_both false t s r = refl

if_apart :
    (a b : Bool) (t s r : Stats)
    → (if a then max_stats t (if b then max_stats r s else r) else (if b then max_stats r s else r))
      ≡ (if b
          then max_stats (if a then max_stats t r else r) s
          else (if a then max_stats t r else r))
if_apart true true t s r = sym (max_stats_assoc t r s)
if_apart true false t s r = refl
if_apart false true t s r = refl
if_apart false false t s r = refl

if_max :
    (b : Bool) (a s r : Stats)
    → max_stats (if b then max_stats a s else a) r ≡ max_stats a (if b then max_stats s r else r)
if_max true a s r = max_stats_assoc a s r
if_max false a s r = refl

total_at-import_total :
    (agent a : Bytes) (s : Stats) (table : List (Bytes × Stats))
    → total_at agent (import_total a s table)
      ≡ (if bytes_eq a agent then max_stats (total_at agent table) s else total_at agent table)
unfolding import_total
total_at-import_total agent a s [] = ground (arith, max_stats_comm s no_stats)
total_at-import_total agent a s ((b, t) ∷ rest) = elim (Bool-cases (bytes_eq b a)) [
  | inl e ↦
      let same = (bytes_eq_iff b a).0 e in
      rw (e, import_total, if_behind t s)
        (rw same (ground (arith, max_stats_last t s (total_at agent rest))))
  | inr e ↦
      ground
        (arith, total_at-import_total agent a s rest, max_stats_assoc t (total_at agent rest) s)
]

same_peer_key_trans :
    (i j k : Bytes × TrafficKey) → same_peer_key i j ≡ true → same_peer_key i k ≡ same_peer_key j k
same_peer_key_trans i j k h =
    let (agents, keys) = and_split (bytes_eq i.0 j.0) (same_key i.1 j.1) h in
    ap₂ ◌&&◌ (ap (λ (a : Bytes). bytes_eq a k.0) ((bytes_eq_iff i.0 j.0).0 agents))
      (same_key_trans i.1 j.1 k.1 keys)

traffic_at-import_bucket :
    (key j : Bytes × TrafficKey) (s : Stats) (table : List ((Bytes × TrafficKey) × Stats))
    → traffic_at key (import_bucket j s table)
      ≡ (if same_peer_key j key then max_stats (traffic_at key table) s else traffic_at key table)
unfolding import_bucket
traffic_at-import_bucket key j s [] = ground (arith, max_stats_comm s no_stats)
traffic_at-import_bucket key j s ((i, t) ∷ rest) = elim (Bool-cases (same_peer_key i j)) [
  | inl e ↦
      rw (e, import_bucket, same_peer_key_trans i j key e)
        (if_both (same_peer_key j key) t s (traffic_at key rest))
  | inr e ↦
      rw (e, import_bucket, traffic_at-import_bucket key j s rest)
        (if_apart (same_peer_key i key) (same_peer_key j key) t s (traffic_at key rest))
]

traffic_at-import_buckets :
    (key : Bytes × TrafficKey) (agent : Bytes) (buckets : List (TrafficKey × Stats))
    (table : List ((Bytes × TrafficKey) × Stats))
    → traffic_at key (import_buckets agent buckets table)
      ≡ max_stats (traffic_at key table) (highest_bucket key agent buckets)
unfolding import_buckets
traffic_at-import_buckets key agent [] table = sym (max_stats-none (traffic_at key table))
traffic_at-import_buckets key agent ((j, s) ∷ buckets) table =
    traffic_at-import_buckets key agent buckets (import_bucket (agent, j) s table)
    ∙ ap (λ (t : Stats). max_stats t (highest_bucket key agent buckets))
        (traffic_at-import_bucket key (agent, j) s table)
    ∙ if_max (same_peer_key (agent, j) key) (traffic_at key table) s
        (highest_bucket key agent buckets)

-- Snapshots may arrive in any order, more than once, or not be accepted: the totals of an agent are the highest of
-- what they were and of its accepted snapshots, counter by counter, and so is each of its traffic buckets.
pub import_all-highest :
    (ds : List Delivery) (p : Peers) (agent : Bytes) (key : Bytes × TrafficKey)
    → (total_at agent (import_all ds p).totals
        ≡ max_stats (total_at agent p.totals) (highest_total agent ds))
      × (traffic_at key (import_all ds p).traffic
          ≡ max_stats (traffic_at key p.traffic) (highest_traffic key ds))
unfolding import_all import_telemetry
import_all-highest [] p agent key = (
  sym (max_stats-none (total_at agent p.totals)),
  sym (max_stats-none (traffic_at key p.traffic)),
)
import_all-highest (d ∷ ds) p agent key = elim (Bool-cases d.accepted) [
  | inr e ↦ rw e (import_all-highest ds p agent key)
  | inl e ↦
      let p' : Peers = record {
        totals = import_total d.agent d.total p.totals;
        traffic = import_buckets d.agent d.buckets p.traffic;
      } in
      let (totals, traffic) = import_all-highest ds p' agent key in
      rw e (
        totals
            ∙ ap (λ (t : Stats). max_stats t (highest_total agent ds))
                (total_at-import_total agent d.agent d.total p.totals)
            ∙ if_max (bytes_eq d.agent agent) (total_at agent p.totals) d.total
                (highest_total agent ds),
        traffic
            ∙ ap (λ (t : Stats). max_stats t (highest_traffic key ds))
                (traffic_at-import_buckets key d.agent d.buckets p.traffic)
            ∙ max_stats_assoc (traffic_at key p.traffic) (highest_bucket key d.agent d.buckets)
                (highest_traffic key ds),
      )
]
