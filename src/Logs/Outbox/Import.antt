-- ===== src/Logs/Outbox/Import.antt =====
-- What a transaction of the writer keeps, whatever its jobs, and that every event has its row in the end.
use gosshd_bastion.Base.{
  ℕ, ◌+◌, Bool, true, false, not, ◌||◌, List, [], ◌∷◌, Option, none, some, is_empty, ◌≡◌, refl,
  arith, Bool-cases, inl, inr, All,
}
use gosshd_bastion.Base.Bytes.{Bytes, bytes_eq_iff}
use gosshd_bastion.Logs.{Event}
use gosshd_bastion.Logs.Overflow.{Database, Job}
use gosshd_bastion.Logs.Writer.{
  Tx, has_id, insert_event, insert_events, insert_jobs, commit, has_events,
}
use gosshd_bastion.Logs.Persist.{commit_tx-access, commit_tx-last_seq, commit_tx-ack}
use gosshd_bastion.Logs.Outbox.{Row}

-- What holds of a result, if there is one.
abbrev pub OnSuccess {ℓ} : {A : Type ℓ} → (A → Type 0) → Option A → Type 0
OnSuccess P none = Unit
OnSuccess P (some a) = P a

OnSuccess-then {ℓ κ} :
    {A : Type ℓ} {B : Type κ} (P : A → Type 0) (Q : B → Type 0) (r : Option A) (next : A → Option B)
    → OnSuccess P r
    → ((a : A) → P a → OnSuccess Q (next a))
    → OnSuccess Q (elim r [ none ↦ none | some a ↦ next a ])
OnSuccess-then P Q none next h step = tt
OnSuccess-then P Q (some a) next h step = step a h

pub OnSuccess-pair {ℓ} :
    {A : Type ℓ} (P : A → Type 0) (Q : A → Type 0) (r : Option A)
    → OnSuccess P r
    → OnSuccess Q r
    → OnSuccess (λ a. P a × Q a) r
OnSuccess-pair P Q none p q = tt
OnSuccess-pair P Q (some a) p q = (p, q)

start : Database → Tx
start db = record { access = db.access; last_seq = db.last_seq; inserted = [] }

-- What holds of the rows and the last number of a transaction holds of the database it leaves.
commit-OnSuccess :
    (R : ℕ → List Row → Type 0) (accepted : Bool) (jobs : List Job) (db : Database)
    → (has_events jobs ≡ false → R db.last_seq db.access)
    → OnSuccess (λ tx. R tx.last_seq tx.access) (insert_jobs jobs (start db))
    → OnSuccess (λ db'. R db'.last_seq db'.access) (commit accepted jobs db)
unfolding commit start
commit-OnSuccess R accepted jobs db quiet busy =
    let P = λ (tx : Tx). R tx.last_seq tx.access in
    let Q = λ (d : Database). R d.last_seq d.access in
    elim (Bool-cases (has_events jobs)) [
      | inr e ↦ rw e (quiet e)
      | inl e ↦ rw e (
          OnSuccess-then P Q (insert_jobs jobs (start db)) _ busy (λ tx h.
            elim (Bool-cases accepted) [
              | inl taken ↦ rw (taken, commit_tx-last_seq db tx, commit_tx-access db tx) h
              | inr refused ↦ rw refused tt
            ]))
    ]

module _ (I : ℕ → List Row → Type 0)
    (new : (e : Event) (seq : ℕ) (rows : List Row)
      → I seq rows
      → I (seq + 1) ((seq + 1, e) ∷ rows)) where
  abbrev HoldsIn : Tx → Type 0
  HoldsIn tx = I tx.last_seq tx.access

  insert_event-keeps :
      (access_only : Bool) (e : Event) (tx : Tx)
      → HoldsIn tx
      → OnSuccess HoldsIn (insert_event access_only e tx)
  unfolding insert_event
  insert_event-keeps access_only e tx i = elim (Bool-cases (is_empty e.id)) [
    | inl empty ↦ rw empty tt
    | inr named ↦ elim (Bool-cases (has_id e.id tx.access)) [
      | inl old ↦ rw (named, old) i
      | inr fresh ↦ elim (Bool-cases access_only) [
        | inl only ↦ rw (named, fresh, only) (new e tx.last_seq tx.access i)
        | inr counted ↦ rw (named, fresh, counted) (new e tx.last_seq tx.access i)
      ]
    ]
  ]

  insert_events-keeps :
      (access_only : Bool) (events : List Event) (tx : Tx)
      → HoldsIn tx
      → OnSuccess HoldsIn (insert_events access_only events tx)
  unfolding insert_events
  insert_events-keeps access_only [] tx i = i
  insert_events-keeps access_only (e ∷ events) tx i =
      OnSuccess-then HoldsIn HoldsIn (insert_event access_only e tx)
        (insert_events access_only events) (insert_event-keeps access_only e tx i)
        (insert_events-keeps access_only events)

  insert_jobs-keeps :
      (jobs : List Job) (tx : Tx) → HoldsIn tx → OnSuccess HoldsIn (insert_jobs jobs tx)
  unfolding insert_jobs
  insert_jobs-keeps [] tx i = i
  insert_jobs-keeps (j ∷ jobs) tx i =
      OnSuccess-then HoldsIn HoldsIn (insert_events j.access_only j.events tx) (insert_jobs jobs)
        (insert_events-keeps j.access_only j.events tx i) (insert_jobs-keeps jobs)

  -- So does a commit, if it succeeds.
  pub commit-keeps :
      (accepted : Bool) (jobs : List Job) (db : Database)
      → I db.last_seq db.access
      → OnSuccess (λ db'. I db'.last_seq db'.access) (commit accepted jobs db)
  commit-keeps accepted jobs db i =
      commit-OnSuccess I accepted jobs db (λ _. i)
        (unfold start in insert_jobs-keeps jobs (start db) i)

-- A row stays.
has_id-new :
    (id : Bytes) (e : Event) (seq : ℕ) (rows : List Row)
    → has_id id rows ≡ true
    → has_id id ((seq + 1, e) ∷ rows) ≡ true
unfolding has_id
has_id-new id e seq rows h = ground arith

pub commit-has_id :
    (id : Bytes) (accepted : Bool) (jobs : List Job) (db : Database)
    → has_id id db.access ≡ true
    → OnSuccess (λ db'. has_id id db'.access ≡ true) (commit accepted jobs db)
commit-has_id id = commit-keeps (λ seq rows. has_id id rows ≡ true) (has_id-new id)

has_id-own : (e : Event) (seq : ℕ) (rows : List Row) → has_id e.id ((seq, e) ∷ rows) ≡ true
unfolding has_id
has_id-own e seq rows = ground (arith, bytes_eq_iff e.id e.id)

insert_event-has_id :
    (access_only : Bool) (e : Event) (tx : Tx)
    → OnSuccess (λ tx'. has_id e.id tx'.access ≡ true) (insert_event access_only e tx)
unfolding insert_event has_id
insert_event-has_id access_only e tx = elim (Bool-cases (is_empty e.id)) [
  | inl empty ↦ rw empty tt
  | inr named ↦ elim (Bool-cases (has_id e.id tx.access)) [
    | inl old ↦ rw (named, old) old
    | inr fresh ↦ elim (Bool-cases access_only) [
      | inl only ↦ rw (named, fresh, only) (has_id-own e (tx.last_seq + 1) tx.access)
      | inr counted ↦ rw (named, fresh, counted) (has_id-own e (tx.last_seq + 1) tx.access)
    ]
  ]
]

insert_events-has_id :
    (access_only : Bool) (events : List Event) (tx : Tx)
    → OnSuccess
        (λ tx'. All (λ e. has_id e.id tx'.access ≡ true) events)
        (insert_events access_only events tx)
unfolding insert_events
insert_events-has_id access_only [] tx = tt
insert_events-has_id access_only (e ∷ events) tx =
    OnSuccess-then (λ (t : Tx). has_id e.id t.access ≡ true) _ (insert_event access_only e tx)
      (insert_events access_only events) (insert_event-has_id access_only e tx)
      (λ tx1 h.
        OnSuccess-pair _ _ (insert_events access_only events tx1)
          (insert_events-keeps (λ seq rows. has_id e.id rows ≡ true) (has_id-new e.id) access_only
            events tx1 h)
          (insert_events-has_id access_only events tx1))

All-none :
    (P : Event → Type 0) (events : List Event)
    → (not (is_empty events) || false) ≡ false
    → All P events
All-none P [] h = tt
All-none P (e ∷ events) h = absurd (cc)

-- The events of a job that is committed are all there.
pub commit-one :
    (accepted : Bool) (j : Job) (db : Database)
    → OnSuccess
        (λ db'. All (λ e. has_id e.id db'.access ≡ true) j.events)
        (commit accepted (j ∷ []) db)
unfolding insert_jobs
commit-one accepted j db =
    commit-OnSuccess (λ seq rows. All (λ e. has_id e.id rows ≡ true) j.events) accepted (j ∷ []) db
      (All-none (λ e. has_id e.id db.access ≡ true) j.events)
      (OnSuccess-then (λ (t : Tx). All (λ e. has_id e.id t.access ≡ true) j.events) _
        (insert_events j.access_only j.events (start db)) _
        (insert_events-has_id j.access_only j.events (start db)) (λ t h. h))

OnSuccess-any {ℓ} : {A : Type ℓ} (r : Option A) → OnSuccess (λ _. Unit) r
OnSuccess-any none = tt
OnSuccess-any (some a) = tt

pub commit-ack :
    (accepted : Bool) (jobs : List Job) (db : Database)
    → OnSuccess (λ db'. db'.ack ≡ db.ack) (commit accepted jobs db)
unfolding commit start
commit-ack accepted jobs db =
    let Q = λ (d : Database). d.ack ≡ db.ack in
    elim (Bool-cases (has_events jobs)) [
      | inr e ↦ rw e refl
      | inl e ↦ rw e (
          OnSuccess-then (λ _. Unit) Q (insert_jobs jobs (start db)) _
            (OnSuccess-any (insert_jobs jobs (start db)))
            (λ tx _. elim (Bool-cases accepted) [
              | inl taken ↦ rw (taken, commit_tx-ack db tx) refl
              | inr refused ↦ rw refused tt
            ]))
    ]
