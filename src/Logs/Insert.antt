-- ===== src/Logs/Insert.antt =====
-- The rows that a transaction of the writer inserts when the IDs are new: all of them.
use gosshd_bastion.Base.{
  ℕ, ◌+◌, Bool, false, not, ◌||◌, List, [], ◌∷◌, ◌++◌, Option, none, some, is_empty, ◌≡◌, refl, sym,
  ap, ◌∙◌, subst, arith, Bool-cases, ◌⊎◌, inl, inr, All, map, append_assoc, append-nil,
}
use gosshd_bastion.Base.Bytes.{Bytes, bytes_eq}
use gosshd_bastion.Base.Texts.{is_among}
use gosshd_bastion.Base.Fresh.{AreFresh, with_ids, AreFresh-split}
use gosshd_bastion.Logs.{Event}
use gosshd_bastion.Logs.Overflow.{Database, Job}
use gosshd_bastion.Logs.Writer.{
  Tx, has_id, insert_event, insert_events, insert_jobs, commit_tx, commit, has_events, job_events,
}

abbrev pub ids : List Event → List Bytes
ids = map (λ e. e.id)

abbrev pub known : List (ℕ × Event) → List Bytes
known = map (λ row. row.1.id)

abbrev pub IsNamed : Event → Type 0
IsNamed e = is_empty e.id ≡ false

-- A job of `Record`: no caller waits for it, and it is counted.
abbrev pub IsPlain : Job → Type 0
IsPlain j = (j.replies ≡ false) × (j.access_only ≡ false)

has_id-is_among : (id : Bytes) (rows : List (ℕ × Event)) → has_id id rows ≡ is_among id (known rows)
unfolding has_id is_among
has_id-is_among id [] = refl
has_id-is_among id ((seq, e) ∷ rows) = ap (λ b. bytes_eq e.id id || b) (has_id-is_among id rows)

abbrev Inserted : Tx → List Event → Option Tx → Type 0
Inserted tx events result =
    (tx' : Tx) × (result ≡ some tx')
    × (tx'.inserted ≡ tx.inserted ++ events)
    × (known tx'.access ≡ with_ids (ids events) (known tx.access))

abbrev with_row : Event → Tx → Tx
with_row e tx = record {
  access = (tx.last_seq + 1, e) ∷ tx.access;
  last_seq = tx.last_seq + 1;
  inserted = tx.inserted ++ e ∷ [];
}

insert_event-new :
    (e : Event) (tx : Tx)
    → IsNamed e
    → is_among e.id (known tx.access) ≡ false
    → insert_event false e tx ≡ some (with_row e tx)
unfolding insert_event
insert_event-new e tx name new = ground (arith, has_id-is_among e.id tx.access)

insert_events-cons :
    (access_only : Bool) (e : Event) (events : List Event) (tx tx' : Tx)
    → insert_event access_only e tx ≡ some tx'
    → insert_events access_only (e ∷ events) tx ≡ insert_events access_only events tx'
unfolding insert_events
insert_events-cons access_only e events tx tx' h = ground arith

insert_jobs-cons :
    (j : Job) (jobs : List Job) (tx tx' : Tx)
    → insert_events j.access_only j.events tx ≡ some tx'
    → insert_jobs (j ∷ jobs) tx ≡ insert_jobs jobs tx'
unfolding insert_jobs
insert_jobs-cons j jobs tx tx' h = ground arith

insert_events-Inserted :
    (events : List Event) (tx : Tx)
    → AreFresh (ids events) (known tx.access)
    → All IsNamed events
    → Inserted tx events (insert_events false events tx)
unfolding insert_events
insert_events-Inserted [] tx h n = (tx, refl, sym (append-nil tx.inserted), refl)
insert_events-Inserted (e ∷ events) tx (new, h) (name, n) =
    let row = with_row e tx in
    let (tx', done, counted, kept) = insert_events-Inserted events row h n in
    (
      tx',
      insert_events-cons false e events tx row (insert_event-new e tx name new) ∙ done,
      counted ∙ append_assoc tx.inserted (e ∷ []) events,
      kept,
    )

with_ids-append :
    (xs ys : List Event) (old : List Bytes)
    → with_ids (ids (xs ++ ys)) old ≡ with_ids (ids ys) (with_ids (ids xs) old)
with_ids-append [] ys old = refl
with_ids-append (x ∷ xs) ys old = with_ids-append xs ys (x.id ∷ old)

pub ids-append : (xs ys : List Event) → ids (xs ++ ys) ≡ ids xs ++ ids ys
ids-append [] ys = refl
ids-append (x ∷ xs) ys = ap (λ (t : List Bytes). x.id ∷ t) (ids-append xs ys)

pub All-split {ℓ κ} :
    {A : Type ℓ} (P : A → Type κ) (xs ys : List A) → All P (xs ++ ys) → All P xs × All P ys
All-split P [] ys h = (tt, h)
All-split P (x ∷ xs) ys (h, hs) = let (hx, hy) = All-split P xs ys hs in ((h, hx), hy)

insert_jobs-Inserted :
    (jobs : List Job) (tx : Tx)
    → AreFresh (ids (job_events jobs)) (known tx.access)
    → All IsNamed (job_events jobs)
    → All IsPlain jobs
    → Inserted tx (job_events jobs) (insert_jobs jobs tx)
unfolding insert_jobs
insert_jobs-Inserted [] tx h n p = (tx, refl, sym (append-nil tx.inserted), refl)
insert_jobs-Inserted (j ∷ jobs) tx h n ((_, counted), p) =
    let fresh = AreFresh-split (ids j.events) (ids (job_events jobs)) (known tx.access) (
      subst (λ (t : List Bytes). AreFresh t (known tx.access))
        (ids-append j.events (job_events jobs)) h) in
    let named = All-split IsNamed j.events (job_events jobs) n in
    let (tx1, done, first, kept) = insert_events-Inserted j.events tx fresh.0 named.0 in
    let (tx2, done', second, kept') =
      insert_jobs-Inserted jobs tx1
        (subst (λ (t : List Bytes). AreFresh (ids (job_events jobs)) t) (sym kept) fresh.1) named.1
        p in
    let step = ap (λ (b : Bool). insert_events b j.events tx) counted ∙ done in
    (
      tx2,
      insert_jobs-cons j jobs tx tx1 step ∙ done',
      second
          ∙ ap (λ (t : List Event). t ++ job_events jobs) first
          ∙ append_assoc tx.inserted j.events (job_events jobs),
      kept'
          ∙ ap (with_ids (ids (job_events jobs))) kept
          ∙ sym (with_ids-append j.events (job_events jobs) (known tx.access)),
    )

start_tx : Database → Tx
start_tx db = record { access = db.access; last_seq = db.last_seq; inserted = [] }

no_event :
    (events : List Event) (more : Bool)
    → (not (is_empty events) || more) ≡ false
    → (events ≡ []) × (more ≡ false)
no_event [] more h = (refl, h)
no_event (e ∷ events) more h = absurd (cc)

-- Without an event there is nothing to write.
job_events-none : (jobs : List Job) → has_events jobs ≡ false → job_events jobs ≡ []
job_events-none [] h = refl
job_events-none (j ∷ jobs) h =
    let (quiet, rest) = no_event j.events (has_events jobs) h in
    ap (λ (t : List Event). t ++ job_events jobs) quiet ∙ job_events-none jobs rest

-- The two ends of a transaction whose events are new.
pub commit-cases :
    (accepted : Bool) (jobs : List Job) (db : Database)
    → AreFresh (ids (job_events jobs)) (known db.access)
    → All IsNamed (job_events jobs)
    → All IsPlain jobs
    → ((job_events jobs ≡ []) × (commit accepted jobs db ≡ some db))
      ⊎ ((accepted ≡ false) × (commit accepted jobs db ≡ none))
      ⊎ ((tx : Tx) × (commit accepted jobs db ≡ some (commit_tx db tx))
          × (tx.inserted ≡ job_events jobs)
          × (known tx.access ≡ with_ids (ids (job_events jobs)) (known db.access)))
unfolding commit start_tx
commit-cases accepted jobs db h n p =
    let (tx, done, inserted, kept) = insert_jobs-Inserted jobs (start_tx db) h n p in
    elim (Bool-cases (has_events jobs)) [
      | inr quiet ↦ inl (job_events-none jobs quiet, rw quiet)
      | inl busy ↦ inr (elim (Bool-cases accepted) [
        | inr refused ↦ inl (refused, rw (busy, done, refused) refl)
        | inl taken ↦ inr (tx, rw (busy, done, taken) refl, inserted, kept)
      ])
    ]
