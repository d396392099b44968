-- ===== src/Logs.antt =====
-- internal/forward/logs.go, overflow.go, traffic.go, telemetry.go: the access log of a forward and its
-- accounting. Here are the data of internal/protocol/types/forward.go; a database call that may fail
-- takes as an argument whether the database accepts the transaction.
pub mod Sums
pub mod Overflow
pub mod Outbox
pub mod Writer
pub mod Telemetry
pub mod Persist
pub mod Insert
pub mod Schedule
pub mod Account
pub mod Keep
pub mod Sound
pub mod Writing
pub mod Refine
mod Tests
use gosshd_bastion.Base.{ℕ, Bool, List}
use gosshd_bastion.Base.Bytes.{Bytes}

-- The counters are numbers without a bound.
pub record Event : Type 0 where
  pub id : Bytes
  pub time : ℕ
  pub source_ip : Bytes
  pub method : Bytes
  pub host : Bytes
  pub path : Bytes
  pub server_id : Bytes
  pub route_id : Bytes
  pub upstream : Bytes
  pub status : ℕ
  pub up : ℕ
  pub down : ℕ
  pub duration_ms : ℕ
  pub source_concurrent : ℕ
  pub direct_up : ℕ
  pub direct_down : ℕ
  pub concurrent : ℕ
  pub direct : Bool
  pub error : Bytes

pub record Stats : Type 0 where
  pub requests : ℕ
  pub up : ℕ
  pub down : ℕ
  pub direct_up : ℕ
  pub direct_down : ℕ
  pub peak : ℕ
  pub errors : ℕ

pub record TrafficKey : Type 0 where
  pub source : Bytes
  pub bucket : ℕ
