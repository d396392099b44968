-- ===== src/Logs/Outbox/Sync.antt =====
-- What is acknowledged has arrived: reports, arrivals and acknowledgements.
use gosshd_bastion.Base.{
  ℕ, ◌+◌, ◌≤◌, ◌<◌, Bool, true, List, [], ◌∷◌, Option, none, some, ltb, leb, if◌then◌else◌, ◌≡◌,
  suc, zero, subst, arith, Bool-cases, Option-cases, ◌⊎◌, inl, inr, All, take, max, min, map,
  length, is_empty,
}
use gosshd_bastion.Base.Bytes.{Bytes, bytes_eq, bytes_eq_iff}
use gosshd_bastion.Logs.Overflow.{Database, Job}
use gosshd_bastion.Logs.Writer.{has_id, commit}
use gosshd_bastion.Logs.Outbox.{
  Row, Server, unacked, pending_rows, ack_rows, receive_ack, highest, receive_report,
}
use gosshd_bastion.Logs.Outbox.Rows.{AreBelow-All, unacked-All, All-map, page-covers, highest-lt}
use gosshd_bastion.Logs.Outbox.Import.{OnSuccess, commit-has_id, commit-one}
use gosshd_bastion.Logs.Outbox.Link.{
  Link, LinkStep, commits, drops, reports, arrives, acknowledges, link_step, link_run, AreDelivered,
  IsSynced, commits-IsSynced, drops-IsSynced,
}

All-pair :
    (P Q : Row → Type 0) (rows : List Row)
    → All P rows
    → All Q rows
    → All (λ row. P row × Q row) rows
All-pair P Q [] p q = tt
All-pair P Q (row ∷ rows) (p, ps) (q, qs) = ((p, q), All-pair P Q rows ps qs)

take-All : (P : Row → Type 0) (n : ℕ) (rows : List Row) → All P rows → All P (take n rows)
take-All P zero rows h = tt
take-All P (suc n) [] h = tt
take-All P (suc n) (row ∷ rows) (hr, h) = (hr, take-All P n rows h)

AreDelivered-max :
    (a b : ℕ) (server : Server) (rows : List Row)
    → AreDelivered a server rows
    → AreDelivered b server rows
    → AreDelivered (max a b) server rows
AreDelivered-max a b server rows ha hb =
    All-map _ (λ row. row.0 ≤ max a b → has_id row.1.id server.db.access ≡ true) rows
      (λ row (fa, fb) le. elim (Bool-cases (leb row.0 a)) [
        | inl low ↦ fa (ground (arith, low))
        | inr high ↦ fb (ground (arith, high, le))
      ])
      (All-pair _ _ rows ha hb)

-- Who has the row of a page that is behind an acknowledged one.
placed :
    (ack : ℕ) (page : List Row) (server : Server) (row : Row)
    → ((row.0 ≤ ack) ⊎ ((highest page < row.0) ⊎ (has_id row.1.id page ≡ true)))
      × (row.0 ≤ ack → has_id row.1.id server.db.access ≡ true)
    → row.0 ≤ highest page
    → (has_id row.1.id server.db.access ≡ true) ⊎ (has_id row.1.id page ≡ true)
placed ack page server row (inl low, got) le = inl (got low)
placed ack page server row (inr (inl behind), got) le = absurd (omega (arith, behind, le))
placed ack page server row (inr (inr here), got) le = inr here

has_id-arrived :
    (id : Bytes) (sent : List Row) (db : Database)
    → All (λ e. has_id e.id db.access ≡ true) (map (λ row. row.1) sent)
    → has_id id sent ≡ true
    → has_id id db.access ≡ true
unfolding has_id
has_id-arrived id [] db h here = absurd (cc)
has_id-arrived id (row ∷ sent) db (own, h) here = elim (Bool-cases (bytes_eq row.1.id id)) [
  | inl same ↦
      subst (λ (i : Bytes). has_id i db.access ≡ true) ((bytes_eq_iff row.1.id id).0 same) own
  | inr other ↦ has_id-arrived id sent db h (ground (arith, other, here))
]

abbrev job_of : List Row → Job
job_of sent = record { events = map (λ row. row.1) sent; replies = true; access_only = true }

on_some :
    {o : Option Database} {db : Database} (P : Database → Type 0)
    → o ≡ some db
    → OnSuccess P o
    → P db
on_some P e h = subst (OnSuccess P) e h

module _ (l : Link) (h : IsSynced l) where
  reports-IsSynced : (limit : ℕ) → IsSynced (link_step (reports limit) l)
  unfolding link_step pending_rows
  reports-IsSynced limit =
      let rows = l.agent.access in
      let n = min (max limit 1) 256 in
      let page = take n (unacked l.agent.ack rows) in
      let all = AreBelow-All (l.agent.last_seq + 1) rows h.ordered in
      let below =
        take-All (λ row. row.0 < l.agent.last_seq + 1) n (unacked l.agent.ack rows)
          (unacked-All _ l.agent.ack rows all) in
      let (k1, k2, k3) = h.known in
      record {
        ordered = h.ordered;
        known = (
          k1,
          k2,
          highest-lt l.agent.last_seq page (All-map _ _ page (λ row lt. omega (arith, lt)) below),
        );
        delivered = h.delivered;
        acknowledged = h.acknowledged;
        reported = All-map _ _ rows (placed l.agent.ack page l.server) (
            All-pair _ _ rows (page-covers l.agent.ack n (l.agent.last_seq + 1) rows h.ordered)
              h.delivered);
      }

  acknowledges-IsSynced : IsSynced (link_step acknowledges l)
  unfolding link_step receive_ack ack_rows
  acknowledges-IsSynced = elim (Bool-cases (ltb 0 l.server.ack)) [
    | inr none_ ↦ rw none_ h
    | inl some_ ↦ rw some_ (
        let (k1, k2, k3) = h.known in
        record {
          ordered = h.ordered;
          known = (ground (arith, k1, k2), k2, k3);
          delivered =
              AreDelivered-max l.agent.ack l.server.ack l.server l.agent.access h.delivered
                h.acknowledged;
          acknowledged = h.acknowledged;
          reported = h.reported;
        })
  ]

  -- A server that has all that it had and all that is sent.
  arrived-IsSynced :
      (db : Database) (counted : Bool)
      → ((id : Bytes) → has_id id l.server.db.access ≡ true → has_id id db.access ≡ true)
      → ((id : Bytes) → has_id id l.sent ≡ true → has_id id db.access ≡ true)
      → IsSynced (record l {
        server = record {
          db = db;
          ack = if counted then max l.server.ack (highest l.sent) else l.server.ack;
        };
      })
  arrived-IsSynced db counted grown here =
      let rows = l.agent.access in
      let server : Server = record { db = db; ack = 0 } in
      let (k1, k2, k3) = h.known in
      let still = λ (n : ℕ) (d : AreDelivered n l.server rows).
        All-map _ (λ (row : Row). row.0 ≤ n → has_id row.1.id db.access ≡ true) rows
          (λ row got le. grown row.1.id (got le)) d in
      let all =
        All-map _ (λ (row : Row). row.0 ≤ highest l.sent → has_id row.1.id db.access ≡ true) rows
          (λ row got le. elim (got le) [
            | inl old ↦ grown row.1.id old
            | inr new ↦ here row.1.id new
          ])
          h.reported in
      record {
        ordered = h.ordered;
        known = (k1, ground (arith, k2, k3), k3);
        delivered = still l.agent.ack h.delivered;
        acknowledged = elim (Bool-cases counted) [
          | inl yes_ ↦ rw yes_ (
              AreDelivered-max l.server.ack (highest l.sent) server rows
                (still l.server.ack h.acknowledged) all)
          | inr no_ ↦ rw no_ (still l.server.ack h.acknowledged)
        ];
        reported = All-map _ _ rows (λ row got le. inl (got le)) all;
      }

  nothing_sent :
      (sent : List Row) (db : Database)
      → is_empty sent ≡ true
      → (id : Bytes) → has_id id sent ≡ true
      → has_id id db.access ≡ true
  unfolding has_id
  nothing_sent [] db none_ id here = absurd (cc)
  nothing_sent (row ∷ sent) db none_ id here = absurd (cc)

  import-IsSynced :
      (imported counted : Bool)
      → IsSynced (record l {
        server = elim (commit imported (job_of l.sent ∷ []) l.server.db) [
          | none ↦ l.server
          | some db ↦ record {
            db = db;
            ack = if counted then max l.server.ack (highest l.sent) else l.server.ack;
          }
        ];
      })
  import-IsSynced imported counted =
      elim (Option-cases (commit imported (job_of l.sent ∷ []) l.server.db)) [
        | inl none_ ↦ rw none_ h
        | inr (db, done) ↦ rw done (
            arrived-IsSynced db counted
              (λ id old.
                on_some _ done (commit-has_id id imported (job_of l.sent ∷ []) l.server.db old))
              (λ id. has_id-arrived id l.sent db (
                on_some
                  (λ (d : Database).
                    All (λ e. has_id e.id d.access ≡ true) (map (λ row. row.1) l.sent))
                  done (commit-one imported (job_of l.sent) l.server.db))))
      ]

  arrives-IsSynced : (imported counted : Bool) → IsSynced (link_step (arrives imported counted) l)
  unfolding link_step receive_report
  arrives-IsSynced imported counted = elim (Bool-cases (ltb 256 (length l.sent))) [
    | inl long ↦ rw long h
    | inr short ↦ elim (Bool-cases (is_empty l.sent)) [
      | inl none_ ↦
          rw (short, none_)
            (arrived-IsSynced l.server.db counted (λ id old. old)
              (nothing_sent l.sent l.server.db none_))
      | inr some_ ↦ rw (short, some_) (import-IsSynced imported counted)
    ]
  ]

link_step-IsSynced : (step : LinkStep) (l : Link) → IsSynced l → IsSynced (link_step step l)
link_step-IsSynced (commits accepted jobs) l h = commits-IsSynced l h accepted jobs
link_step-IsSynced (drops cutoff) l h = drops-IsSynced l h cutoff
link_step-IsSynced (reports limit) l h = reports-IsSynced l h limit
link_step-IsSynced (arrives imported counted) l h = arrives-IsSynced l h imported counted
link_step-IsSynced acknowledges l h = acknowledges-IsSynced l h

-- Every step of the two logs keeps this: the rows of the agent's log stand in order; those up to the
-- number that was acknowledged to the agent, which it reports no more, are in the server's log, and so
-- are those up to the number that the server acknowledges next; those up to the end of the last report
-- are in the server's log or in the report. Batches and imports may fail, reports and acknowledgements
-- may be late, lost or repeated, the agent may prune rows, and a report may have any limit; the server
-- does not prune here.
pub link_run-IsSynced :
    (steps : List LinkStep) (l : Link) → IsSynced l → IsSynced (link_run steps l)
unfolding link_run
link_run-IsSynced [] l h = h
link_run-IsSynced (step ∷ steps) l h =
    link_run-IsSynced steps (link_step step l) (link_step-IsSynced step l h)
