-- ===== src/Terminal.antt =====
-- internal/server/terminal_session_manager.go: the sessions of web terminals.
pub mod Integration
pub mod Screen
pub mod Session
pub mod Routing
pub mod Bounded
pub mod Earliest
mod Tests
pub mod Marks
pub mod Skip
pub mod Ends
pub mod Feed
pub mod Mismatch
pub mod Payload
pub mod Stream
pub mod Chunks
use gosshd_bastion.Base.{ℕ, Bool, List}
use gosshd_bastion.Base.Bytes.{Bytes}

-- `negsuc n` is -(n + 1).
pub data ℤ : Type 0 where
  pos : ℕ → ℤ
  negsuc : ℕ → ℤ

pub record IntegrationEvent : Type 0 where
  pub kind : Bytes
  pub id : Bytes
  pub exit_code : ℤ
  pub directory : Bytes
