-- ===== src/Logs/Refine.antt =====
-- The refinement: whatever the order of the steps and the failures of the database, a log has counted
-- what its callers recorded, once.
use gosshd_bastion.Base.{
  ℕ, ◌+◌, Bool, true, false, List, [], ◌∷◌, ◌++◌, ltb, length, ◌≡◌, refl, sym, ap, ap₂, ◌∙◌, subst,
  arith, Bool-cases, ◌⊎◌, inl, inr, All, All-append, append_assoc,
}
use gosshd_bastion.Base.Bytes.{Bytes}
use gosshd_bastion.Base.Fresh.{AreFresh, AreFresh-without}
use gosshd_bastion.Logs.{Event, TrafficKey}
use gosshd_bastion.Logs.Sums.{
  add_stats, share, event_stats, add_stats-none, add_stats_assoc, add_stats_swap,
}
use gosshd_bastion.Logs.Overflow.{Job, Logs, keep_accounting}
use gosshd_bastion.Logs.Writer.{job_events, record_event, prepared, capacity}
use gosshd_bastion.Logs.Persist.{shares, all_stats, shares-append, all_stats-append}
use gosshd_bastion.Logs.Insert.{ids, known, IsNamed, IsPlain, ids-append, All-split}
use gosshd_bastion.Logs.Account.{pending, settled, settled_total, account, overall}
use gosshd_bastion.Logs.Keep.{keep_accounting-IsBalanced}
use gosshd_bastion.Logs.Schedule.{
  Step, records, counts, takes, writes, begins, ends, prunes, closes, step, run, news, rows,
  closed_after, recorded, logged, timed,
}
use gosshd_bastion.Logs.Sound.{
  IsSound, Follows, IsKept, stay-Follows, job_events-append, take-IsKept, begin-IsKept,
  prune-IsKept, close-IsKept,
}
use gosshd_bastion.Logs.Account.{settled-keep_accounting, settled_total-keep_accounting}
use gosshd_bastion.Logs.Writer.{record_traffic}
use gosshd_bastion.Logs.Writing.{end-IsKept, write-IsKept}

abbrev job_of : Event → Job
job_of e = record { events = e ∷ []; replies = false; access_only = false }

kept_pending : (e : Event) (l : Logs) → pending (keep_accounting e l) ≡ pending l
unfolding keep_accounting
kept_pending e l = refl

module _ (e : Event) (l : Logs) (upcoming : List Event) where
  -- The event goes into a job.
  abbrev with_job : Logs
  with_job = record l { jobs = l.jobs ++ job_of e ∷ [] }

  with_job-pending : pending with_job ≡ pending l ++ e ∷ []
  with_job-pending =
      ap (λ (t : List Event). job_events l.batch ++ t) (job_events-append l.jobs (job_of e ∷ []))
      ∙ sym (append_assoc (job_events l.batch) (job_events l.jobs) (e ∷ []))

  with_job-Follows : IsSound l (e ∷ upcoming) → Follows l upcoming (e ∷ []) l.closed with_job
  with_job-Follows h =
      let same : pending l ++ e ∷ upcoming ≡ pending with_job ++ upcoming =
        sym (append_assoc (pending l) (e ∷ []) upcoming)
        ∙ ap (λ (t : List Event). t ++ upcoming) (sym with_job-pending) in
      (
        record {
          fresh = subst (λ t. AreFresh (ids t) (known l.db.access)) same h.fresh;
          named = subst (All IsNamed) same h.named;
          plain_batch = h.plain_batch;
          plain_jobs = All-append IsPlain l.jobs (job_of e ∷ []) h.plain_jobs ((refl, refl), tt);
          waiting = h.waiting;
          flushing = h.flushing;
        },
        refl,
        λ k.
            ap (add_stats (settled k l))
              (ap (shares k) with_job-pending ∙ shares-append k (pending l) (e ∷ []))
            ∙ sym (add_stats_assoc (settled k l) (shares k (pending l)) (shares k (e ∷ []))),
        ap (add_stats (settled_total l))
              (ap all_stats with_job-pending ∙ all_stats-append (pending l) (e ∷ []))
            ∙ sym (add_stats_assoc (settled_total l) (all_stats (pending l)) (all_stats (e ∷ []))),
      )

  -- The event is only counted.
  counted-Follows : IsSound l upcoming → Follows l upcoming (e ∷ []) l.closed (keep_accounting e l)
  counted-Follows h =
      let balanced = keep_accounting-IsBalanced e l in
      (
        unfold keep_accounting in
            (record {
              fresh = h.fresh;
              named = h.named;
              plain_batch = h.plain_batch;
              plain_jobs = h.plain_jobs;
              waiting = balanced;
              flushing = h.flushing;
            }),
        unfold keep_accounting in refl,
        λ k.
            ap₂ add_stats (settled-keep_accounting e l k) (ap (shares k) (kept_pending e l))
            ∙ add_stats_swap (settled k l) (share k e) (shares k (pending l))
            ∙ ap (add_stats (account k l)) (sym (add_stats-none (share k e))),
        ap₂ add_stats (settled_total-keep_accounting e l) (ap all_stats (kept_pending e l))
            ∙ add_stats_swap (settled_total l) (event_stats e) (all_stats (pending l))
            ∙ ap (add_stats (overall l)) (sym (add_stats-none (event_stats e))),
      )

  -- The ID of an event that has no row may be used again.
  without_id : IsSound l (e ∷ upcoming) → IsSound l upcoming
  without_id h =
      let old = known l.db.access in
      let fresh =
        AreFresh-without (ids (pending l)) e.id (ids upcoming) old
          (subst (λ t. AreFresh t old) (ids-append (pending l) (e ∷ upcoming)) h.fresh) in
      let named = All-split IsNamed (pending l) (e ∷ upcoming) h.named in
      record {
        fresh = subst (λ t. AreFresh t old) (sym (ids-append (pending l) upcoming)) fresh;
        named = All-append IsNamed (pending l) upcoming named.0 named.1.1;
        plain_batch = h.plain_batch;
        plain_jobs = h.plain_jobs;
        waiting = h.waiting;
        flushing = h.flushing;
      }

lossy :
    (n : ℕ) (l : Logs) (upcoming : List Event)
    → IsSound l upcoming
    → IsSound (record l { dropped = n }) upcoming
lossy n l upcoming h = record {
  fresh = h.fresh;
  named = h.named;
  plain_batch = h.plain_batch;
  plain_jobs = h.plain_jobs;
  waiting = h.waiting;
  flushing = h.flushing;
}

module _ (fresh : Bytes) (now : ℕ) (e : Event) (l : Logs) (upcoming : List Event) where
  abbrev queued : Event
  queued = prepared fresh now e

  abbrev with_loss : Logs
  with_loss = record l { dropped = l.dropped + 1 }

  record_event-closed : l.closed ≡ true → record_event fresh now e l ≡ l
  unfolding record_event
  record_event-closed h = ground arith

  record_event-cases :
      l.closed ≡ false
      → (record_event fresh now e l ≡ with_job queued l upcoming)
        ⊎ (record_event fresh now e l ≡ keep_accounting queued with_loss)
  unfolding record_event
  record_event-cases h = elim (Bool-cases (ltb (length l.jobs) capacity)) [
    | inl room ↦ inl (rw (h, record_event, room) refl)
    | inr full ↦ inr (rw (h, record_event, full) refl)
  ]

  record_event-Follows :
      l.closed ≡ false
      → IsSound l (queued ∷ upcoming)
      → Follows l upcoming (queued ∷ []) l.closed (record_event fresh now e l)
  record_event-Follows open_still h =
      let follows = Follows l upcoming (queued ∷ []) l.closed in
      elim (record_event-cases open_still) [
        | inl room ↦ subst follows (sym room) (with_job-Follows queued l upcoming h)
        | inr full ↦ subst follows (sym full) (
            counted-Follows queued with_loss upcoming
              (lossy (l.dropped + 1) l upcoming (without_id queued l upcoming h)))
      ]

record-IsKept :
    (fresh : Bytes) (now : ℕ) (e : Event) (l : Logs) (upcoming : List Event)
    → IsSound l (rows (records fresh now e) l.closed ++ upcoming)
    → IsKept (records fresh now e) l upcoming
unfolding step
record-IsKept fresh now e l upcoming h =
    let s = records fresh now e in
    let sound = λ (b : Bool). IsSound l (rows s b ++ upcoming) in
    let follows =
      λ (b : Bool). Follows l upcoming (news s b) l.closed (record_event fresh now e l) in
    elim (Bool-cases l.closed) [
      | inl shut ↦ subst follows (sym shut) (
          subst (Follows l upcoming [] l.closed)
            (sym (record_event-closed fresh now e l upcoming shut))
            (stay-Follows l upcoming (subst sound shut h)))
      | inr open_still ↦
          subst follows (sym open_still)
            (record_event-Follows fresh now e l upcoming open_still (subst sound open_still h))
    ]

record_traffic-cases :
    (now : ℕ) (e : Event) (l : Logs)
    → ((l.closed ≡ true) × (record_traffic now e l ≡ l))
      ⊎ ((l.closed ≡ false) × (record_traffic now e l ≡ keep_accounting (timed now e) l))
unfolding record_traffic
record_traffic-cases now e l = elim (Bool-cases l.closed) [
  | inl shut ↦ inl (shut, rw (shut, record_traffic) refl)
  | inr open_still ↦ inr (open_still, rw (open_still, record_traffic) refl)
]

count-IsKept :
    (now : ℕ) (e : Event) (l : Logs) (upcoming : List Event)
    → IsSound l upcoming
    → IsKept (counts now e) l upcoming
unfolding step
count-IsKept now e l upcoming h =
    let follows =
      λ (b : Bool). Follows l upcoming (news (counts now e) b) l.closed (record_traffic now e l) in
    elim (record_traffic-cases now e l) [
      | inl (shut, same) ↦
          subst follows (sym shut)
            (subst (Follows l upcoming [] l.closed) (sym same) (stay-Follows l upcoming h))
      | inr (open_still, same) ↦ subst follows (sym open_still) (
          subst (Follows l upcoming (timed now e ∷ []) l.closed) (sym same)
            (counted-Follows (timed now e) l upcoming h))
    ]

step-IsKept :
    (s : Step) (l : Logs) (upcoming : List Event)
    → IsSound l (rows s l.closed ++ upcoming)
    → IsKept s l upcoming
step-IsKept (records fresh now e) l upcoming h = record-IsKept fresh now e l upcoming h
step-IsKept (counts now e) l upcoming h = count-IsKept now e l upcoming h
step-IsKept takes l upcoming h = take-IsKept l upcoming h
step-IsKept (writes accepted) l upcoming h = write-IsKept accepted l upcoming h
step-IsKept begins l upcoming h = begin-IsKept l upcoming h
step-IsKept (ends accepted) l upcoming h = end-IsKept accepted l upcoming h
step-IsKept (prunes cutoff) l upcoming h = prune-IsKept cutoff l upcoming h
step-IsKept closes l upcoming h = close-IsKept l upcoming h

-- Whatever the order of the steps and the transactions that the database refuses: if the jobs are those of
-- `Record` and the IDs of the events that are to have a row are new, then what the log has counted under a key, in the database, in
-- memory and in jobs together, grows by the shares of the events that were recorded while it was open, and
-- the total by their counters. No event is lost and none is counted twice.
pub run-account :
    (steps : List Step) (l : Logs)
    → IsSound l (logged steps l.closed)
    → ((k : TrafficKey)
        → account k (run steps l) ≡ add_stats (account k l) (shares k (recorded steps l.closed)))
      × (overall (run steps l) ≡ add_stats (overall l) (all_stats (recorded steps l.closed)))
unfolding run
run-account [] l h = (λ k. sym (add_stats-none (account k l)), sym (add_stats-none (overall l)))
run-account (s ∷ steps) l h =
    let l' = step s l in
    let now = news s l.closed in
    let after = closed_after s l.closed in
    let (sound, closed, one, all) = step-IsKept s l (logged steps after) h in
    let (each, total) =
      run-account steps l' (subst (λ (b : Bool). IsSound l' (logged steps b)) (sym closed) sound) in
    (
      λ k.
          each k
          ∙ ap₂ add_stats (one k) (ap (λ (b : Bool). shares k (recorded steps b)) closed)
          ∙ add_stats_assoc (account k l) (shares k now) (shares k (recorded steps after))
          ∙ ap (add_stats (account k l)) (sym (shares-append k now (recorded steps after))),
      total
          ∙ ap₂ add_stats all (ap (λ (b : Bool). all_stats (recorded steps b)) closed)
          ∙ add_stats_assoc (overall l) (all_stats now) (all_stats (recorded steps after))
          ∙ ap (add_stats (overall l)) (sym (all_stats-append now (recorded steps after))),
    )
