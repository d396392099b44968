-- ===== src/Logs/Outbox/Link.antt =====
-- An agent's log of an HTTP forward and the server's as a sequence of steps, and those that write the agent's rows.
use gosshd_bastion.Base.{
  ℕ, ◌+◌, ◌≤◌, Bool, true, List, [], ◌∷◌, Option, none, some, ltb, ◌≡◌, refl, arith, Bool-cases,
  ◌⊎◌, inl, inr, All,
}
use gosshd_bastion.Logs.{Event}
use gosshd_bastion.Logs.Overflow.{Database, Job}
use gosshd_bastion.Logs.Writer.{has_id, commit, kept_rows}
use gosshd_bastion.Logs.Outbox.{Row, Server, pending_rows, receive_ack, highest, receive_report}
use gosshd_bastion.Logs.Outbox.Rows.{AreBelow, AreBelow-le}
use gosshd_bastion.Logs.Outbox.Import.{OnSuccess, commit-keeps, commit-ack}

-- The agent's database, the last report on its way or arrived, and the server.
pub record Link : Type 0 where
  pub agent : Database
  pub sent : List Row
  pub server : Server

-- The agent writes a batch, prunes, or reports its next rows; a report arrives, once, more often or never; an
-- acknowledgement arrives.
pub data LinkStep : Type 0 where
  commits : (accepted : Bool) → (jobs : List Job) → LinkStep
  drops : (cutoff : ℕ) → LinkStep
  reports : (limit : ℕ) → LinkStep
  arrives : (imported : Bool) → (counted : Bool) → LinkStep
  acknowledges : LinkStep

abbrev or_same : Database → Option Database → Database
or_same db none = db
or_same db (some db') = db'

unfoldable pub link_step : LinkStep → Link → Link
unfolding commit kept_rows pending_rows receive_report receive_ack
link_step (commits accepted jobs) l = record l {
  agent = or_same l.agent (commit accepted jobs l.agent);
}
link_step (drops cutoff) l = record l {
  agent = record l.agent { access = kept_rows cutoff l.agent.access };
}
link_step (reports limit) l = record l { sent = pending_rows limit l.agent }
link_step (arrives imported counted) l = record l {
  server = receive_report true imported counted l.sent l.server;
}
link_step acknowledges l = record l { agent = receive_ack l.server.ack l.agent }

unfoldable pub link_run : List LinkStep → Link → Link
unfolding link_step
link_run [] l = l
link_run (s ∷ steps) l = link_run steps (link_step s l)

-- The rows up to a number are in the server's log.
abbrev pub AreDelivered : ℕ → Server → List Row → Type 0
AreDelivered n server = All (λ row. row.0 ≤ n → has_id row.1.id server.db.access ≡ true)

-- A row up to the end of the report is in the server's log or in the report.
abbrev pub AreReported : List Row → Server → List Row → Type 0
AreReported sent server = All (λ row.
    row.0 ≤ highest sent
    → (has_id row.1.id server.db.access ≡ true) ⊎ (has_id row.1.id sent ≡ true))

pub record IsSynced (l : Link) : Type 0 where
  pub ordered : AreBelow (l.agent.last_seq + 1) l.agent.access
  pub known :
      (l.agent.ack ≤ l.agent.last_seq)
      × (l.server.ack ≤ l.agent.last_seq)
      × (highest l.sent ≤ l.agent.last_seq)
  pub delivered : AreDelivered l.agent.ack l.server l.agent.access
  pub acknowledged : AreDelivered l.server.ack l.server l.agent.access
  pub reported : AreReported l.sent l.server l.agent.access

-- What the agent's table must keep.
abbrev IsTable : Link → ℕ → List Row → Type 0
IsTable l n rows =
    AreBelow (n + 1) rows
    × (l.agent.last_seq ≤ n)
    × AreDelivered l.agent.ack l.server rows
    × AreDelivered l.server.ack l.server rows
    × AreReported l.sent l.server rows

IsTable-new :
    (l : Link)
    → IsSynced l
    → (e : Event) (n : ℕ) (rows : List Row) → IsTable l n rows
    → IsTable l (n + 1) ((n + 1, e) ∷ rows)
IsTable-new l h e n rows (ordered, le, own, theirs, sent) =
    let (k1, k2, k3) = h.known in
    (
      (omega arith, ordered),
      omega arith,
      (λ lt. absurd (omega (arith, lt, le, k1)), own),
      (λ lt. absurd (omega (arith, lt, le, k2)), theirs),
      (λ lt. absurd (omega (arith, lt, le, k3)), sent),
    )

IsTable-IsSynced :
    (l : Link) (db : Database)
    → db.ack ≡ l.agent.ack
    → IsSynced l
    → IsTable l db.last_seq db.access
    → IsSynced (record l { agent = db })
IsTable-IsSynced l db same h (ordered, le, own, theirs, sent) =
    let (k1, k2, k3) = h.known in
    record {
      ordered = ordered;
      known = (omega (arith, same, k1, le), omega (arith, k2, le), omega (arith, k3, le));
      delivered = rw same own;
      acknowledged = theirs;
      reported = sent;
    }

kept_rows-All :
    (P : Row → Type 0) (cutoff : ℕ) (rows : List Row) → All P rows → All P (kept_rows cutoff rows)
unfolding kept_rows
kept_rows-All P cutoff [] h = tt
kept_rows-All P cutoff (row ∷ rows) (hr, h) = elim (Bool-cases (ltb row.1.time cutoff)) [
  | inl old ↦ rw old (kept_rows-All P cutoff rows h)
  | inr young ↦ rw young (hr, kept_rows-All P cutoff rows h)
]

kept_rows-AreBelow :
    (n cutoff : ℕ) (rows : List Row) → AreBelow n rows → AreBelow n (kept_rows cutoff rows)
unfolding kept_rows
kept_rows-AreBelow n cutoff [] h = tt
kept_rows-AreBelow n cutoff (row ∷ rows) (lt, h) = elim (Bool-cases (ltb row.1.time cutoff)) [
  | inl old ↦ rw old (AreBelow-le row.0 n _ (omega arith) (kept_rows-AreBelow row.0 cutoff rows h))
  | inr young ↦ rw young (lt, kept_rows-AreBelow row.0 cutoff rows h)
]

module _ (l : Link) (h : IsSynced l) where
  table : IsTable l l.agent.last_seq l.agent.access
  table = (h.ordered, omega arith, h.delivered, h.acknowledged, h.reported)

  or_same-IsSynced :
      (o : Option Database)
      → OnSuccess (λ db. IsTable l db.last_seq db.access) o
      → OnSuccess (λ db. db.ack ≡ l.agent.ack) o
      → IsSynced (record l { agent = or_same l.agent o })
  or_same-IsSynced none t same = h
  or_same-IsSynced (some db) t same = IsTable-IsSynced l db same h t

  pub commits-IsSynced :
      (accepted : Bool) (jobs : List Job) → IsSynced (link_step (commits accepted jobs) l)
  unfolding link_step
  commits-IsSynced accepted jobs =
      or_same-IsSynced (commit accepted jobs l.agent)
        (commit-keeps (IsTable l) (IsTable-new l h) accepted jobs l.agent table)
        (commit-ack accepted jobs l.agent)

  pub drops-IsSynced : (cutoff : ℕ) → IsSynced (link_step (drops cutoff) l)
  unfolding link_step
  drops-IsSynced cutoff =
      let rows = l.agent.access in
      let kept = λ (P : Row → Type 0). kept_rows-All P cutoff rows in
      IsTable-IsSynced l (record l.agent { access = kept_rows cutoff rows }) refl h
        (
          kept_rows-AreBelow (l.agent.last_seq + 1) cutoff rows h.ordered,
          omega arith,
          kept _ h.delivered,
          kept _ h.acknowledged,
          kept _ h.reported,
        )
