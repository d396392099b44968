-- ===== src/Logs/Account.antt =====
-- What a log has counted, wherever it stands: in the database, with the writer, in memory, or in a job.
-- Each step keeps it, but for the events that it records.
use gosshd_bastion.Base.{
  ◌+◌, Bool, false, List, [], ◌∷◌, ◌++◌, Option, none, some, ◌==◌, ◌≡◌, refl, sym, ap, ◌∙◌, arith,
  Bool-cases, ◌⊎◌, inl, inr, All,
}
use gosshd_bastion.Logs.{Event, Stats, TrafficKey}
use gosshd_bastion.Logs.Sums.{
  no_stats, add_stats, sum_at, merge, share, event_stats, sum_at-add_event, sum_at-merge,
  add_stats-none, add_stats_assoc,
}
use gosshd_bastion.Logs.Overflow.{Database, Job, Logs, keep_accounting, persisted, finish_flush}
use gosshd_bastion.Logs.Writer.{job_events, keep_events, keep_jobs}
use gosshd_bastion.Logs.Persist.{
  sum_buckets, shares, all_stats, shares-append, all_stats-append, sum_buckets-persisted,
  write_traffic_values-kept,
}
use gosshd_bastion.Logs.Insert.{IsPlain}

-- The events of the jobs, those of the writer first.
abbrev pub pending : Logs → List Event
pending l = job_events l.batch ++ job_events l.jobs

abbrev pub sum_flushing : TrafficKey → Option (Stats × List (TrafficKey × Stats)) → Stats
sum_flushing k none = no_stats
sum_flushing k (some (total, values)) = sum_at k values

abbrev pub total_flushing : Option (Stats × List (TrafficKey × Stats)) → Stats
total_flushing none = no_stats
total_flushing (some (total, values)) = total

-- What is counted under a key but not in a job.
abbrev pub settled : TrafficKey → Logs → Stats
settled k l =
    add_stats (sum_buckets k l.db.buckets)
      (add_stats (sum_flushing k l.flushing) (sum_at k l.overflow))

abbrev pub settled_total : Logs → Stats
settled_total l = add_stats l.db.totals (add_stats (total_flushing l.flushing) l.overflow_total)

abbrev pub account : TrafficKey → Logs → Stats
account k l = add_stats (settled k l) (shares k (pending l))

abbrev pub overall : Logs → Stats
overall l = add_stats (settled_total l) (all_stats (pending l))

-- A total without requests is that of no event.
abbrev pub IsBalanced : Stats → List (TrafficKey × Stats) → Type 0
IsBalanced total values = total.requests ≡ 0 → (total ≡ no_stats) × (values ≡ [])

add_last :
    (a b c s : Stats)
    → add_stats a (add_stats b (add_stats c s)) ≡ add_stats (add_stats a (add_stats b c)) s
unfolding add_stats
add_last a b c s = ground arith

module _ (e : Event) (l : Logs) where
  pub settled-keep_accounting :
      (k : TrafficKey) → settled k (keep_accounting e l) ≡ add_stats (settled k l) (share k e)
  unfolding keep_accounting
  settled-keep_accounting k =
      ap
        (λ (s : Stats).
          add_stats (sum_buckets k l.db.buckets) (add_stats (sum_flushing k l.flushing) s))
        (sum_at-add_event k e l.overflow)
      ∙ add_last (sum_buckets k l.db.buckets) (sum_flushing k l.flushing) (sum_at k l.overflow)
          (share k e)

  pub settled_total-keep_accounting :
      settled_total (keep_accounting e l) ≡ add_stats (settled_total l) (event_stats e)
  unfolding keep_accounting
  settled_total-keep_accounting =
      add_last l.db.totals (total_flushing l.flushing) l.overflow_total (event_stats e)

-- The total that is put back stands behind the one that came meanwhile.
persisted-totals :
    (total : Stats) (values : List (TrafficKey × Stats)) (db : Database)
    → (persisted total values db).totals ≡ add_stats db.totals total
persisted-totals total values db =
    (write_traffic_values-kept values (record db { totals = add_stats db.totals total })).0

pub persisted-access :
    (total : Stats) (values : List (TrafficKey × Stats)) (db : Database)
    → (persisted total values db).access ≡ db.access
persisted-access total values db =
    (write_traffic_values-kept values (record db { totals = add_stats db.totals total })).1

put_back :
    (a b c : Stats) → add_stats a (add_stats no_stats (add_stats c b)) ≡ add_stats a (add_stats b c)
unfolding add_stats
put_back a b c = ground arith

moved :
    (a b c : Stats) → add_stats (add_stats a b) (add_stats no_stats c) ≡ add_stats a (add_stats b c)
unfolding add_stats
moved a b c = ground arith

module _ (accepted : Bool) (total : Stats) (values : List (TrafficKey × Stats)) (l : Logs) where
  -- The three ends of a flush.
  abbrev pub put_back_in : Logs
  put_back_in = record l {
    flushing = none;
    failures = l.failures + 1;
    overflow_total = add_stats l.overflow_total total;
    overflow = merge values l.overflow;
  }

  pub finish_flush-cases :
      ((total.requests ≡ 0) × (finish_flush accepted total values l ≡ record l { flushing = none }))
      ⊎ (finish_flush accepted total values l
          ≡ record l { flushing = none; db = persisted total values l.db })
      ⊎ (((total.requests ≡ 0) → ⊥) × (finish_flush accepted total values l ≡ put_back_in))
  unfolding finish_flush
  finish_flush-cases = elim (Bool-cases (total.requests == 0)) [
    | inl e ↦ inl (ground arith, rw e)
    | inr e ↦ elim (Bool-cases accepted) [
      | inl taken ↦ inr (inl (rw (e, taken) refl))
      | inr refused ↦ inr (inr (λ zero_requests. ground arith, rw (e, refused) refl))
    ]
  ]

  module _ (balanced : IsBalanced total values)
      (under_way : l.flushing ≡ some (total, values)) where
    pub settled-finish_flush :
        (k : TrafficKey) → settled k (finish_flush accepted total values l) ≡ settled k l
    unfolding sum_at add_stats
    settled-finish_flush k =
        let tables = sum_buckets k l.db.buckets in
        let waiting = sum_at k l.overflow in
        let before : add_stats tables (add_stats (sum_at k values) waiting) ≡ settled k l =
          ap (λ (s : Stats). add_stats tables (add_stats s waiting))
            (sym (ap (sum_flushing k) under_way)) in
        elim finish_flush-cases [
          | inl (quiet, e) ↦
              ap (settled k) e
              ∙ ap
                  (λ (v : List (TrafficKey × Stats)).
                    add_stats tables (add_stats (sum_at k v) waiting))
                  (sym (balanced quiet).1)
              ∙ before
          | inr (inl e) ↦
              ap (settled k) e
              ∙ ap (λ (s : Stats). add_stats s (add_stats no_stats waiting))
                  (sum_buckets-persisted k total values l.db)
              ∙ moved tables (sum_at k values) waiting
              ∙ before
          | inr (inr (_, e)) ↦
              ap (settled k) e
              ∙ ap (λ (s : Stats). add_stats tables (add_stats no_stats s))
                  (sum_at-merge k values l.overflow)
              ∙ put_back tables (sum_at k values) waiting
              ∙ before
        ]

    pub settled_total-finish_flush :
        settled_total (finish_flush accepted total values l) ≡ settled_total l
    settled_total-finish_flush =
        let waiting = l.overflow_total in
        let before : add_stats l.db.totals (add_stats total waiting) ≡ settled_total l =
          ap (λ (s : Stats). add_stats l.db.totals (add_stats s waiting))
            (sym (ap total_flushing under_way)) in
        elim finish_flush-cases [
          | inl (quiet, e) ↦
              ap settled_total e
              ∙ ap (λ (s : Stats). add_stats l.db.totals (add_stats s waiting))
                  (sym (balanced quiet).0)
              ∙ before
          | inr (inl e) ↦
              ap settled_total e
              ∙ ap (λ (s : Stats). add_stats s (add_stats no_stats waiting))
                  (persisted-totals total values l.db)
              ∙ moved l.db.totals total waiting
              ∙ before
          | inr (inr (_, e)) ↦ ap settled_total e ∙ put_back l.db.totals total waiting ∙ before
        ]

-- A job that was refused is counted all the same.
keep_events-settled :
    (k : TrafficKey) (events : List Event) (l : Logs)
    → (settled k (keep_events events l) ≡ add_stats (settled k l) (shares k events))
      × (settled_total (keep_events events l) ≡ add_stats (settled_total l) (all_stats events))
unfolding keep_events
keep_events-settled k [] l =
    (sym (add_stats-none (settled k l)), sym (add_stats-none (settled_total l)))
keep_events-settled k (e ∷ events) l =
    let kept = keep_accounting e l in
    let (one, all) = keep_events-settled k events (record kept { dropped = kept.dropped + 1 }) in
    (
      one
          ∙ ap (λ (s : Stats). add_stats s (shares k events)) (settled-keep_accounting e l k)
          ∙ add_stats_assoc (settled k l) (share k e) (shares k events),
      all
          ∙ ap (λ (s : Stats). add_stats s (all_stats events)) (settled_total-keep_accounting e l)
          ∙ add_stats_assoc (settled_total l) (event_stats e) (all_stats events),
    )

keep_jobs-cons :
    (j : Job) (jobs : List Job) (l : Logs)
    → j.replies ≡ false
    → keep_jobs (j ∷ jobs) l ≡ keep_jobs jobs (keep_events j.events l)
unfolding keep_jobs
keep_jobs-cons j jobs l quiet = ground arith

pub keep_jobs-settled :
    (k : TrafficKey) (jobs : List Job) (l : Logs)
    → All IsPlain jobs
    → (settled k (keep_jobs jobs l) ≡ add_stats (settled k l) (shares k (job_events jobs)))
      × (settled_total (keep_jobs jobs l)
          ≡ add_stats (settled_total l) (all_stats (job_events jobs)))
unfolding keep_jobs
keep_jobs-settled k [] l p =
    (sym (add_stats-none (settled k l)), sym (add_stats-none (settled_total l)))
keep_jobs-settled k (j ∷ jobs) l ((quiet, _), p) =
    let l' = keep_events j.events l in
    let (one, all) = keep_events-settled k j.events l in
    let (later, later_all) = keep_jobs-settled k jobs l' p in
    let same = keep_jobs-cons j jobs l quiet in
    (
      ap (settled k) same
          ∙ later
          ∙ ap (λ (s : Stats). add_stats s (shares k (job_events jobs))) one
          ∙ add_stats_assoc (settled k l) (shares k j.events) (shares k (job_events jobs))
          ∙ ap (add_stats (settled k l)) (sym (shares-append k j.events (job_events jobs))),
      ap settled_total same
          ∙ later_all
          ∙ ap (λ (s : Stats). add_stats s (all_stats (job_events jobs))) all
          ∙ add_stats_assoc (settled_total l) (all_stats j.events) (all_stats (job_events jobs))
          ∙ ap (add_stats (settled_total l)) (sym (all_stats-append j.events (job_events jobs))),
    )
