-- ===== src/Logs/Telemetry.antt =====
-- internal/forward/telemetry.go: the counters of other agents, which arrive as absolute snapshots.
pub mod Converge
use gosshd_bastion.Base.{ℕ, Bool, true, false, ◌&&◌, ◌||◌, List, [], ◌∷◌, ltb, if◌then◌else◌, max}
use gosshd_bastion.Base.Bytes.{Bytes, bytes_eq}
use gosshd_bastion.Logs.{Stats, TrafficKey}
use gosshd_bastion.Logs.Sums.{same_key}

-- The tables `peer_totals` and `peer_traffic`.
pub record Peers : Type 0 where
  pub totals : List (Bytes × Stats)
  pub traffic : List ((Bytes × TrafficKey) × Stats)

unfoldable pub max_stats : Stats → Stats → Stats
max_stats a b = record {
  requests = max a.requests b.requests;
  up = max a.up b.up;
  down = max a.down b.down;
  direct_up = max a.direct_up b.direct_up;
  direct_down = max a.direct_down b.direct_down;
  peak = max a.peak b.peak;
  errors = max a.errors b.errors;
}

-- The `WHERE` of the update of a total.
unfoldable pub is_behind : Stats → Stats → Bool
is_behind a b =
    ltb a.requests b.requests
    || ltb a.up b.up
    || ltb a.down b.down
    || ltb a.direct_up b.direct_up
    || ltb a.direct_down b.direct_down
    || ltb a.peak b.peak
    || ltb a.errors b.errors

unfoldable pub import_total : Bytes → Stats → List (Bytes × Stats) → List (Bytes × Stats)
import_total agent s [] = (agent, s) ∷ []
import_total agent s ((a, t) ∷ rest) =
    if bytes_eq a agent
    then (a, if is_behind t s then max_stats t s else t) ∷ rest
    else (a, t) ∷ import_total agent s rest

abbrev pub same_peer_key : Bytes × TrafficKey → Bytes × TrafficKey → Bool
same_peer_key j k = bytes_eq j.0 k.0 && same_key j.1 k.1

unfoldable pub import_bucket :
    Bytes × TrafficKey
    → Stats
    → List ((Bytes × TrafficKey) × Stats)
    → List ((Bytes × TrafficKey) × Stats)
import_bucket key s [] = (key, s) ∷ []
import_bucket key s ((j, t) ∷ rest) =
    if same_peer_key j key then (j, max_stats t s) ∷ rest else (j, t) ∷ import_bucket key s rest

unfoldable pub import_buckets :
    Bytes
    → List (TrafficKey × Stats)
    → List ((Bytes × TrafficKey) × Stats)
    → List ((Bytes × TrafficKey) × Stats)
unfolding import_bucket
import_buckets agent [] table = table
import_buckets agent ((key, s) ∷ buckets) table =
    import_buckets agent buckets (import_bucket (agent, key) s table)

-- `ImportTelemetry`; the result is whether the transaction was accepted.
unfoldable pub import_telemetry :
    Bool → Bytes → Stats → List (TrafficKey × Stats) → Peers → Peers × Bool
unfolding import_total import_buckets
import_telemetry accepted agent total buckets p =
    if accepted
    then (
      record {
        totals = import_total agent total p.totals;
        traffic = import_buckets agent buckets p.traffic;
      },
      true,
    )
    else (p, false)
