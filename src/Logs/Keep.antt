-- ===== src/Logs/Keep.antt =====
-- What keeping accounts and writing a batch change, and what they leave alone.
use gosshd_bastion.Base.{
  ◌+◌, Bool, true, false, List, [], ◌∷◌, none, some, if◌then◌else◌, length, ◌≡◌, refl, sym, ap, ap₂,
  ◌∙◌, arith, ◌⊎◌, inl, inr, All,
}
use gosshd_bastion.Base.Fresh.{AreFresh, with_ids}
use gosshd_bastion.Logs.{Event, Stats, TrafficKey}
use gosshd_bastion.Logs.Sums.{add_stats, sum_at, event_stats, add_stats-none, add_stats_swap}
use gosshd_bastion.Logs.Overflow.{Database, Job, Logs, keep_accounting}
use gosshd_bastion.Logs.Writer.{commit, commit_tx, job_events, keep_events, keep_jobs, write_batch}
use gosshd_bastion.Logs.Persist.{
  shares, all_stats, sum_buckets, commit_tx-access, commit_tx-totals, sum_buckets-commit_tx,
}
use gosshd_bastion.Logs.Insert.{ids, known, IsNamed, IsPlain, commit-cases}
use gosshd_bastion.Logs.Account.{
  settled, settled_total, IsBalanced, sum_flushing, total_flushing, keep_jobs-settled,
}

pub keep_accounting-IsBalanced :
    (e : Event) (l : Logs)
    → IsBalanced (keep_accounting e l).overflow_total (keep_accounting e l).overflow
unfolding keep_accounting add_stats event_stats
keep_accounting-IsBalanced e l zero_requests = absurd (omega arith)

pub put_back-IsBalanced :
    (total waiting : Stats) (values m : List (TrafficKey × Stats))
    → ((total.requests ≡ 0) → ⊥)
    → IsBalanced (add_stats waiting total) m
unfolding add_stats
put_back-IsBalanced total waiting values m some_requests zero_requests =
    absurd (some_requests (omega arith))

-- What keeping accounts of events leaves alone.
abbrev IsOtherwise : Logs → Logs → Type 0
IsOtherwise l l' =
    (l'.db ≡ l.db)
    × (l'.jobs ≡ l.jobs)
    × (l'.batch ≡ l.batch)
    × (l'.flushing ≡ l.flushing)
    × (l'.closed ≡ l.closed)
    × (IsBalanced l.overflow_total l.overflow → IsBalanced l'.overflow_total l'.overflow)

keep_events-IsOtherwise : (events : List Event) (l : Logs) → IsOtherwise l (keep_events events l)
unfolding keep_events
keep_events-IsOtherwise [] l = (refl, refl, refl, refl, refl, λ h. h)
keep_events-IsOtherwise (e ∷ events) l =
    let kept = keep_accounting e l in
    let (a, b, c, d, f, g) =
      keep_events-IsOtherwise events (record kept { dropped = kept.dropped + 1 }) in
    unfold keep_accounting in (a, b, c, d, f, λ h. g (keep_accounting-IsBalanced e l))

IsOtherwise-trans : (a b c : Logs) → IsOtherwise a b → IsOtherwise b c → IsOtherwise a c
IsOtherwise-trans a b c (p0, p1, p2, p3, p4, p5) (q0, q1, q2, q3, q4, q5) =
    (q0 ∙ p0, q1 ∙ p1, q2 ∙ p2, q3 ∙ p3, q4 ∙ p4, λ h. q5 (p5 h))

kept_job-IsOtherwise :
    (replies : Bool) (events : List Event) (l : Logs)
    → IsOtherwise l (if replies then l else keep_events events l)
kept_job-IsOtherwise true events l = (refl, refl, refl, refl, refl, λ h. h)
kept_job-IsOtherwise false events l = keep_events-IsOtherwise events l

keep_jobs-IsOtherwise : (jobs : List Job) (l : Logs) → IsOtherwise l (keep_jobs jobs l)
unfolding keep_jobs
keep_jobs-IsOtherwise [] l = (refl, refl, refl, refl, refl, λ h. h)
keep_jobs-IsOtherwise (j ∷ jobs) l =
    let l' = if j.replies then l else keep_events j.events l in
    IsOtherwise-trans l l' (keep_jobs jobs l') (kept_job-IsOtherwise j.replies j.events l)
      (keep_jobs-IsOtherwise jobs l')

module _ (accepted : Bool) (l : Logs) where
  write_batch-some :
      (db : Database)
      → commit accepted l.batch l.db ≡ some db
      → write_batch accepted l ≡ record l { batch = []; db = db }
  unfolding write_batch
  write_batch-some db h = rw (h, write_batch) refl

  abbrev refused_batch : Logs
  refused_batch = record l { batch = []; failures = l.failures + length (job_events l.batch) }

  write_batch-none :
      commit accepted l.batch l.db ≡ none → write_batch accepted l ≡ keep_jobs l.batch refused_batch
  unfolding write_batch
  write_batch-none h = rw (h, write_batch) refl

  -- The events of the batch are settled, whatever the database does.
  abbrev pub Written : Type 0
  Written =
      ((k : TrafficKey)
        → settled k (write_batch accepted l)
          ≡ add_stats (settled k l) (shares k (job_events l.batch)))
      × (settled_total (write_batch accepted l)
          ≡ add_stats (settled_total l) (all_stats (job_events l.batch)))
      × ((write_batch accepted l).batch ≡ [])
      × ((write_batch accepted l).jobs ≡ l.jobs)
      × ((write_batch accepted l).flushing ≡ l.flushing)
      × ((write_batch accepted l).closed ≡ l.closed)
      × (IsBalanced l.overflow_total l.overflow
          → IsBalanced (write_batch accepted l).overflow_total (write_batch accepted l).overflow)
      × ((known (write_batch accepted l).db.access ≡ known l.db.access)
          ⊎ (known (write_batch accepted l).db.access
              ≡ with_ids (ids (job_events l.batch)) (known l.db.access)))

  pub write_batch-Written :
      AreFresh (ids (job_events l.batch)) (known l.db.access)
      → All IsNamed (job_events l.batch)
      → All IsPlain l.batch
      → Written
  write_batch-Written fresh named plain =
      elim (commit-cases accepted l.batch l.db fresh named plain) [
        | inl (quiet, done) ↦ rw (write_batch-some l.db done) (
          (λ k.
              sym (add_stats-none (settled k l))
              ∙ ap (λ (es : List Event). add_stats (settled k l) (shares k es)) (sym quiet)),
          sym (add_stats-none (settled_total l))
              ∙ ap (λ (es : List Event). add_stats (settled_total l) (all_stats es)) (sym quiet),
          refl,
          refl,
          refl,
          refl,
          λ h. h,
          inl refl,
        )
        | inr (inl (_, failed)) ↦
            let (a, b, c, d, f, g) = keep_jobs-IsOtherwise l.batch refused_batch in
            rw (write_batch-none failed) (
              (λ k. (keep_jobs-settled k l.batch refused_batch plain).0),
              (keep_jobs-settled (record { source = []; bucket = 0 }) l.batch refused_batch
                  plain).1,
              c,
              b,
              d,
              f,
              g,
              inl (ap (λ (db : Database). known db.access) a),
            )
        | inr (inr (tx, done, inserted, kept)) ↦ rw (write_batch-some (commit_tx l.db tx) done) (
          (λ k.
              ap₂ add_stats (sum_buckets-commit_tx l.db tx k) refl
              ∙ add_stats_swap (sum_buckets k l.db.buckets) (shares k tx.inserted)
                  (add_stats (sum_flushing k l.flushing) (sum_at k l.overflow))
              ∙ ap (λ (es : List Event). add_stats (settled k l) (shares k es)) inserted),
          ap₂ add_stats (commit_tx-totals l.db tx) refl
              ∙ add_stats_swap l.db.totals (all_stats tx.inserted)
                  (add_stats (total_flushing l.flushing) l.overflow_total)
              ∙ ap (λ (es : List Event). add_stats (settled_total l) (all_stats es)) inserted,
          refl,
          refl,
          refl,
          refl,
          λ h. h,
          inr (ap known (commit_tx-access l.db tx) ∙ kept),
        )
      ]
