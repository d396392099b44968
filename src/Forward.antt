-- ===== src/Forward.antt =====
-- internal/forward/config.go: the routes of an HTTP forward. Here are the data of
-- internal/protocol/types/forward.go; the children hold the checks of `Compile`, the router that it
-- builds, and `Match`.
pub mod Compile
pub mod Router
pub mod Udp
mod Tests
use gosshd_bastion.Base.{ℕ, Bool, List, Option}
use gosshd_bastion.Base.Bytes.{Bytes}

-- `Match` is `modifier` here.
pub record Location : Type 0 where
  pub id : Bytes
  pub name : Bytes
  pub modifier : Bytes
  pub path : Bytes
  pub exit_target_id : Bytes
  pub scheme : Bytes
  pub host : Bytes
  pub port : ℕ
  pub strip_prefix : Bool
  pub preserve_host : Bool
  pub headers : List (Bytes × Bytes)

pub record ServerBlock : Type 0 where
  pub id : Bytes
  pub name : Bytes
  pub hosts : List Bytes
  pub locations : List Location

-- What the code takes from the packages `net` and `regexp`: whether a text is an IP address, the
-- host of a `host:port` (`none` for an error), and a compiled pattern (`none` for an error).
pub record Net : Type 0 where
  pub is_ip : Bytes → Bool
  pub split_host_port : Bytes → Option Bytes
  pub compile_pattern : Bytes → Option (Bytes → Bool)

-- A location, with its compiled pattern if it has one.
pub record CompiledLocation : Type 0 where
  pub location : Location
  pub regex : Option (Bytes → Bool)
