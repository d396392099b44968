-- ===== src/Logs/Outbox.antt =====
-- internal/forward/logs.go, internal/agent/forward.go, internal/server/forward_sync.go: how the rows of an
-- agent's log reach the log of the server.
pub mod Rows
pub mod Import
pub mod Link
pub mod Sync
mod Tests
use gosshd_bastion.Base.{
  ℕ, Bool, true, not, ◌&&◌, List, [], ◌∷◌, ◌++◌, none, some, ltb, if◌then◌else◌, is_empty, length,
  take, map, min, max,
}
use gosshd_bastion.Logs.{Event}
use gosshd_bastion.Logs.Overflow.{Database, Job}
use gosshd_bastion.Logs.Writer.{commit}

abbrev pub Row : Type 0
Row = ℕ × Event

-- The rows behind the acknowledged one, the oldest in front.
unfoldable pub unacked : ℕ → List Row → List Row
unacked ack [] = []
unacked ack (row ∷ rows) =
    let older = unacked ack rows in if ltb ack row.0 then older ++ row ∷ [] else older

-- `Pending`; the sequence number of an event stands beside it.
unfoldable pub pending_rows : ℕ → Database → List Row
unfolding unacked
pending_rows limit db = take (min (max limit 1) 256) (unacked db.ack db.access)

-- `Ack`
unfoldable pub ack_rows : ℕ → Database → Database
ack_rows seq db = record db { ack = max db.ack seq }

-- An agent's part of a synchronisation that brings the server's `acks`.
unfoldable pub receive_ack : ℕ → Database → Database
unfolding ack_rows
receive_ack ack db = if ltb 0 ack then ack_rows ack db else db

-- The loop that computes `ack`.
unfoldable pub highest : List Row → ℕ
highest [] = 0
highest (row ∷ rows) = max row.0 (highest rows)

-- The server's log of a forward, and its entry in `acks` for the agent.
pub record Server : Type 0 where
  pub db : Database
  pub ack : ℕ

-- A report of an agent, for a forward of the server that the agent may report on: whether the forward is for HTTP,
-- and whether the two imports are accepted.
unfoldable pub receive_report : Bool → Bool → Bool → List Row → Server → Server
unfolding commit highest
receive_report http imported counted sent s =
    let acked = max s.ack (highest sent) in
    let job : Job = record {
      events = map (λ row. row.1) sent;
      replies = true;
      access_only = true;
    } in
    if ltb 256 (length sent)
    then s
    else if http && not (is_empty sent)
    then elim (commit imported (job ∷ []) s.db) [
      | none ↦ s
      | some db ↦ record { db = db; ack = if counted then acked else s.ack }
    ]
    else record s { ack = if counted then acked else s.ack }
