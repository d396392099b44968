-- ===== src/Logs/Sound.antt =====
-- The invariant of a log, and the steps that only move events or forget rows.
use gosshd_bastion.Base.{
  ℕ, Bool, List, [], ◌∷◌, ◌++◌, none, some, ltb, ◌≡◌, refl, sym, ap, ◌∙◌, subst, arith, Bool-cases,
  Option-cases, ◌⊎◌, inl, inr, All, All-append, append_assoc, append-nil,
}
use gosshd_bastion.Base.Fresh.{AreFresh, AreFresh-IsPart, IsPart, IsPart-add, IsPart-cons}
use gosshd_bastion.Logs.{Event, Stats, TrafficKey}
use gosshd_bastion.Logs.Sums.{no_stats, add_stats, sum_at, add_stats-none, add_stats_comm}
use gosshd_bastion.Logs.Overflow.{Job, Logs, begin_flush}
use gosshd_bastion.Logs.Writer.{job_events, take_job, prune, kept_rows, close}
use gosshd_bastion.Logs.Persist.{shares, all_stats, sum_buckets}
use gosshd_bastion.Logs.Insert.{ids, known, IsNamed, IsPlain}
use gosshd_bastion.Logs.Account.{
  pending, settled, settled_total, IsBalanced, account, overall, sum_flushing, total_flushing,
}
use gosshd_bastion.Logs.Schedule.{
  Step, takes, begins, prunes, closes, step, begin_step, news, closed_after,
}

-- The IDs of the events to come and of those in jobs are new; the jobs are those of `Record`; what
-- waits without requests is empty.
pub record IsSound (l : Logs) (upcoming : List Event) : Type 0 where
  pub fresh : AreFresh (ids (pending l ++ upcoming)) (known l.db.access)
  pub named : All IsNamed (pending l ++ upcoming)
  pub plain_batch : All IsPlain l.batch
  pub plain_jobs : All IsPlain l.jobs
  pub waiting : IsBalanced l.overflow_total l.overflow
  pub flushing :
      (total : Stats) (values : List (TrafficKey × Stats))
      → l.flushing ≡ some (total, values)
      → IsBalanced total values

-- That a state follows from one with `news` recorded, given the events that will be logged later.
abbrev pub Follows : Logs → List Event → List Event → Bool → Logs → Type 0
Follows l upcoming recorded_now closed l' =
    IsSound l' upcoming
    × (l'.closed ≡ closed)
    × ((k : TrafficKey) → account k l' ≡ add_stats (account k l) (shares k recorded_now))
    × (overall l' ≡ add_stats (overall l) (all_stats recorded_now))

abbrev pub IsKept : Step → Logs → List Event → Type 0
IsKept s l upcoming = Follows l upcoming (news s l.closed) (closed_after s l.closed) (step s l)

-- Nothing happens.
pub stay-Follows :
    (l : Logs) (upcoming : List Event) → IsSound l upcoming → Follows l upcoming [] l.closed l
stay-Follows l upcoming h =
    (h, refl, λ k. sym (add_stats-none (account k l)), sym (add_stats-none (overall l)))

List-cases {ℓ} :
    {A : Type ℓ} (xs : List A) → (xs ≡ []) ⊎ ((x : A) × (rest : List A) × (xs ≡ x ∷ rest))
List-cases [] = inl refl
List-cases (x ∷ xs) = inr (x, xs, refl)

abbrev taken_job : Job → List Job → Logs → Logs
taken_job j rest l = record l { jobs = rest; batch = l.batch ++ j ∷ [] }

take_job-nil : (l : Logs) → l.jobs ≡ [] → (take_job l).0 ≡ l
unfolding take_job
take_job-nil l h = ground arith

take_job-cons :
    (l : Logs) (j : Job) (rest : List Job) → l.jobs ≡ j ∷ rest → (take_job l).0 ≡ taken_job j rest l
unfolding take_job
take_job-cons l j rest h = ground arith

pub job_events-append : (xs ys : List Job) → job_events (xs ++ ys) ≡ job_events xs ++ job_events ys
job_events-append [] ys = refl
job_events-append (x ∷ xs) ys =
    ap (λ (t : List Event). x.events ++ t) (job_events-append xs ys)
    ∙ sym (append_assoc x.events (job_events xs) (job_events ys))

taken_job-pending :
    (l : Logs) (j : Job) (rest : List Job)
    → l.jobs ≡ j ∷ rest
    → pending (taken_job j rest l) ≡ pending l
taken_job-pending l j rest h =
    ap (λ (t : List Event). t ++ job_events rest)
      (job_events-append l.batch (j ∷ [])
        ∙ ap (λ (t : List Event). job_events l.batch ++ t) (append-nil j.events))
    ∙ append_assoc (job_events l.batch) j.events (job_events rest)
    ∙ ap (λ (t : List Job). job_events l.batch ++ job_events t) (sym h)

taken_job-Follows :
    (l : Logs) (j : Job) (rest : List Job) (upcoming : List Event)
    → IsSound l upcoming
    → l.jobs ≡ j ∷ rest
    → Follows l upcoming [] l.closed (taken_job j rest l)
taken_job-Follows l j rest upcoming h e =
    let same = sym (taken_job-pending l j rest e) in
    let plain = subst (All IsPlain) e h.plain_jobs in
    (
      record {
        fresh = subst (λ es. AreFresh (ids (es ++ upcoming)) (known l.db.access)) same h.fresh;
        named = subst (λ es. All IsNamed (es ++ upcoming)) same h.named;
        plain_batch = All-append IsPlain l.batch (j ∷ []) h.plain_batch (plain.0, tt);
        plain_jobs = plain.1;
        waiting = h.waiting;
        flushing = h.flushing;
      },
      refl,
      λ k.
          ap (λ es. add_stats (settled k l) (shares k es)) (sym same)
          ∙ sym (add_stats-none (account k l)),
      ap (λ es. add_stats (settled_total l) (all_stats es)) (sym same)
          ∙ sym (add_stats-none (overall l)),
    )

pub take-IsKept : (l : Logs) (upcoming : List Event) → IsSound l upcoming → IsKept takes l upcoming
unfolding step
take-IsKept l upcoming h = elim (List-cases l.jobs) [
  | inl e ↦
      subst (Follows l upcoming [] l.closed) (sym (take_job-nil l e)) (stay-Follows l upcoming h)
  | inr (j, rest, e) ↦
      subst (Follows l upcoming [] l.closed) (sym (take_job-cons l j rest e))
        (taken_job-Follows l j rest upcoming h e)
]

begin_step-idle : (l : Logs) → l.flushing ≡ none → begin_step l ≡ begin_flush l
unfolding begin_step
begin_step-idle l h = ground arith

begin_step-busy :
    (l : Logs) (f : Stats × List (TrafficKey × Stats)) → l.flushing ≡ some f → begin_step l ≡ l
unfolding begin_step
begin_step-busy l f h = ground arith

begun : (a b : Stats) → add_stats a (add_stats b no_stats) ≡ add_stats a (add_stats no_stats b)
begun a b = ap (add_stats a) (add_stats_comm b no_stats)

begun_sum :
    (k : TrafficKey) (a : Stats) (m : List (TrafficKey × Stats))
    → add_stats a (add_stats (sum_at k m) (sum_at k []))
      ≡ add_stats a (add_stats no_stats (sum_at k m))
unfolding sum_at
begun_sum k a m = begun a (sum_at k m)

begin_flush-Follows :
    (l : Logs) (upcoming : List Event)
    → IsSound l upcoming
    → l.flushing ≡ none
    → Follows l upcoming [] l.closed (begin_flush l)
unfolding begin_flush
begin_flush-Follows l upcoming h idle = (
  record {
    fresh = h.fresh;
    named = h.named;
    plain_batch = h.plain_batch;
    plain_jobs = h.plain_jobs;
    waiting = λ _. (refl, refl);
    flushing = λ total values e.
        let p : l.overflow_total ≡ total = cc in
        let q : l.overflow ≡ values = cc in
        subst (λ t. IsBalanced t values) p (subst (λ v. IsBalanced l.overflow_total v) q h.waiting);
  },
  refl,
  λ k.
      ap (λ (s : Stats). add_stats s (shares k (pending l)))
        (begun_sum k (sum_buckets k l.db.buckets) l.overflow
          ∙ ap
              (λ (s : Stats).
                add_stats (sum_buckets k l.db.buckets) (add_stats s (sum_at k l.overflow)))
              (sym (ap (sum_flushing k) idle)))
      ∙ sym (add_stats-none (account k l)),
  ap (λ (s : Stats). add_stats s (all_stats (pending l)))
        (begun l.db.totals l.overflow_total
          ∙ ap (λ (s : Stats). add_stats l.db.totals (add_stats s l.overflow_total))
              (sym (ap total_flushing idle)))
      ∙ sym (add_stats-none (overall l)),
)

pub begin-IsKept :
    (l : Logs) (upcoming : List Event) → IsSound l upcoming → IsKept begins l upcoming
unfolding step
begin-IsKept l upcoming h = elim (Option-cases l.flushing) [
  | inl e ↦
      subst (Follows l upcoming [] l.closed) (sym (begin_step-idle l e))
        (begin_flush-Follows l upcoming h e)
  | inr (f, e) ↦
      subst (Follows l upcoming [] l.closed) (sym (begin_step-busy l f e))
        (stay-Follows l upcoming h)
]

kept_rows-IsPart :
    (cutoff : ℕ) (table : List (ℕ × Event)) → IsPart (known (kept_rows cutoff table)) (known table)
unfolding kept_rows
kept_rows-IsPart cutoff [] x h = h
kept_rows-IsPart cutoff ((seq, e) ∷ table) x h = elim (Bool-cases (ltb e.time cutoff)) [
  | inl old ↦
      rw (old, kept_rows) (kept_rows-IsPart cutoff table x (IsPart-add e.id (known table) x h))
  | inr young ↦
      rw (young, kept_rows)
        (IsPart-cons e.id (known (kept_rows cutoff table)) (known table)
          (kept_rows-IsPart cutoff table) x h)
]

pub prune-IsKept :
    (cutoff : ℕ) (l : Logs) (upcoming : List Event)
    → IsSound l upcoming
    → IsKept (prunes cutoff) l upcoming
unfolding step prune
prune-IsKept cutoff l upcoming h = (
  record {
    fresh =
        AreFresh-IsPart (ids (pending l ++ upcoming)) _ (known l.db.access)
          (kept_rows-IsPart cutoff l.db.access) h.fresh;
    named = h.named;
    plain_batch = h.plain_batch;
    plain_jobs = h.plain_jobs;
    waiting = h.waiting;
    flushing = h.flushing;
  },
  refl,
  λ k. sym (add_stats-none (account k l)),
  sym (add_stats-none (overall l)),
)

pub close-IsKept :
    (l : Logs) (upcoming : List Event) → IsSound l upcoming → IsKept closes l upcoming
unfolding step close
close-IsKept l upcoming h = (
  record {
    fresh = h.fresh;
    named = h.named;
    plain_batch = h.plain_batch;
    plain_jobs = h.plain_jobs;
    waiting = h.waiting;
    flushing = h.flushing;
  },
  refl,
  λ k. sym (add_stats-none (account k l)),
  sym (add_stats-none (overall l)),
)
