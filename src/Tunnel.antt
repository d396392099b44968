-- ===== src/Tunnel.antt =====
-- internal/tunnel: the packets and their framing on the relay (wire.go), and the connection that
-- keeps a byte stream over relay and direct paths (conn.go).
pub mod Wire
pub mod Conn
pub mod Receive
pub mod Session
pub mod Delivery
pub mod SameStream
pub mod System
pub mod Progress
mod Tests
