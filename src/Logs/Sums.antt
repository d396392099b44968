-- ===== src/Logs/Sums.antt =====
-- internal/forward/overflow.go, traffic.go: sums of counters, and maps from keys to them.
use gosshd_bastion.Base.{
  ℕ, ◌+◌, ◌*◌, ◌/◌, Bool, true, not, ◌&&◌, ◌||◌, List, [], ◌∷◌, ltb, leb, ◌==◌, if◌then◌else◌,
  is_empty, max, ◌≡◌, sym, ◌∙◌, arith, Bool-cases, inl, inr,
}
use gosshd_bastion.Base.Bytes.{bytes_eq, bytes_eq_iff}
use gosshd_bastion.Logs.{Event, Stats, TrafficKey}

abbrev pub no_stats : Stats
no_stats = record {
  requests = 0;
  up = 0;
  down = 0;
  direct_up = 0;
  direct_down = 0;
  peak = 0;
  errors = 0;
}

unfoldable pub add_stats : Stats → Stats → Stats
add_stats dst s = record {
  requests = dst.requests + s.requests;
  up = dst.up + s.up;
  down = dst.down + s.down;
  direct_up = dst.direct_up + s.direct_up;
  direct_down = dst.direct_down + s.direct_down;
  peak = max dst.peak s.peak;
  errors = dst.errors + s.errors;
}

pub add_stats_comm : (a b : Stats) → add_stats a b ≡ add_stats b a
unfolding add_stats
add_stats_comm a b = ground arith

pub add_stats_assoc : (a b c : Stats) → add_stats (add_stats a b) c ≡ add_stats a (add_stats b c)
unfolding add_stats
add_stats_assoc a b c = ground arith

pub add_stats-none : (a : Stats) → add_stats a no_stats ≡ a
unfolding add_stats
add_stats-none a = ground arith

pub none-add_stats : (a : Stats) → add_stats no_stats a ≡ a
unfolding add_stats
none-add_stats a = ground arith

unfoldable pub same_key : TrafficKey → TrafficKey → Bool
unfolding bytes_eq
same_key j k = bytes_eq j.source k.source && (j.bucket == k.bucket)

-- `v := m[key]; addStats(&v, s); m[key] = v`, the map as a list of entries.
unfoldable pub add_at : TrafficKey → Stats → List (TrafficKey × Stats) → List (TrafficKey × Stats)
unfolding add_stats same_key
add_at key s [] = (key, add_stats no_stats s) ∷ []
add_at key s ((j, t) ∷ m) =
    if same_key j key then (j, add_stats t s) ∷ m else (j, t) ∷ add_at key s m

-- What a map holds under a key.
unfoldable pub sum_at : TrafficKey → List (TrafficKey × Stats) → Stats
unfolding add_stats same_key
sum_at key [] = no_stats
sum_at key ((j, t) ∷ m) = if same_key j key then add_stats t (sum_at key m) else sum_at key m

pub add_stats_swap : (a b c : Stats) → add_stats (add_stats a b) c ≡ add_stats (add_stats a c) b
unfolding add_stats
add_stats_swap a b c = ground arith

pub same_key_refl : (k : TrafficKey) → same_key k k ≡ true
unfolding same_key
same_key_refl k = ground (arith, bytes_eq_iff k.source k.source)

-- Equal keys are the same key for every third one.
pub same_key_trans : (i j k : TrafficKey) → same_key i j ≡ true → same_key i k ≡ same_key j k
unfolding same_key
same_key_trans i j k h =
    let same : i.source ≡ j.source = (bytes_eq_iff i.source j.source).0 (ground arith) in
    rw same (ground arith)

pub sum_at-add_at :
    (k j : TrafficKey) (s : Stats) (m : List (TrafficKey × Stats))
    → sum_at k (add_at j s m) ≡ (if same_key j k then add_stats (sum_at k m) s else sum_at k m)
unfolding add_at sum_at
sum_at-add_at k j s [] = ground (arith, add_stats-none (add_stats no_stats s))
sum_at-add_at k j s ((i, t) ∷ m) = elim (Bool-cases (same_key i j)) [
  | inl e ↦ ground (arith, same_key_trans i j k e, add_stats_swap t s (sum_at k m))
  | inr e ↦ ground (arith, sum_at-add_at k j s m, add_stats_assoc t (sum_at k m) s)
]

-- `for key, s := range values { v := m[key]; addStats(&v, s); m[key] = v }`
unfoldable pub merge :
    List (TrafficKey × Stats) → List (TrafficKey × Stats) → List (TrafficKey × Stats)
unfolding add_at
merge [] m = m
merge ((key, s) ∷ values) m = merge values (add_at key s m)

pub sum_at-merge :
    (k : TrafficKey) (values m : List (TrafficKey × Stats))
    → sum_at k (merge values m) ≡ add_stats (sum_at k m) (sum_at k values)
unfolding merge sum_at
sum_at-merge k [] m = sym (add_stats-none (sum_at k m))
sum_at-merge k ((j, s) ∷ values) m =
    sum_at-merge k values (add_at j s m)
    ∙ ground (arith, sum_at-add_at k j s m, add_stats_assoc (sum_at k m) s (sum_at k values))

-- What an event adds, to all sources together and to its own.
unfoldable pub event_stats : Event → Stats
event_stats e = record {
  requests = 1;
  up = e.up;
  down = e.down;
  direct_up = e.direct_up;
  direct_down = e.direct_down;
  peak = e.concurrent;
  errors = if leb 500 e.status || not (is_empty e.error) then 1 else 0;
}

unfoldable pub source_stats : Event → Stats
unfolding event_stats
source_stats e = record (event_stats e) {
  peak = if ltb 0 e.source_concurrent then e.source_concurrent else e.concurrent;
}

unfoldable pub bucket_of : ℕ → ℕ
bucket_of time = time / 300000 * 300

abbrev pub all_key : Event → TrafficKey
all_key e = record { source = []; bucket = bucket_of e.time }

abbrev pub source_key : Event → TrafficKey
source_key e = record { source = e.source_ip; bucket = bucket_of e.time }

-- The inner loop over `ips`: the entry of all sources, and that of the event's own if it has one.
unfoldable pub add_event : Event → List (TrafficKey × Stats) → List (TrafficKey × Stats)
add_event e m =
    let all = add_at (all_key e) (event_stats e) m in
    if is_empty e.source_ip then all else add_at (source_key e) (source_stats e) all

-- What an event adds under a key.
unfoldable pub share : TrafficKey → Event → Stats
share key e =
    add_stats (if same_key (all_key e) key then event_stats e else no_stats) (
      if not (is_empty e.source_ip) && same_key (source_key e) key
      then source_stats e
      else no_stats)

pub sum_at-add_event :
    (k : TrafficKey) (e : Event) (m : List (TrafficKey × Stats))
    → sum_at k (add_event e m) ≡ add_stats (sum_at k m) (share k e)
unfolding add_event share
sum_at-add_event k e m =
    let all = add_at (all_key e) (event_stats e) m in
    let sum = sum_at k m in
    ground (
      arith,
      sum_at-add_at k (source_key e) (source_stats e) all,
      sum_at-add_at k (all_key e) (event_stats e) m,
      add_stats-none sum,
      add_stats-none (event_stats e),
      add_stats-none no_stats,
      none-add_stats (source_stats e),
      add_stats_assoc sum (event_stats e) (source_stats e),
    )
