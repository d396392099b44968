-- ===== src/Logs/Writing.antt =====
-- The steps that write to the database: what it does not accept stays counted.
use gosshd_bastion.Base.{
  ℕ, Bool, List, [], ◌++◌, none, some, ◌≡◌, sym, ap, ap₂, ◌∙◌, subst, arith, Option-cases, inl, inr,
  All, append_assoc,
}
use gosshd_bastion.Base.Bytes.{Bytes}
use gosshd_bastion.Base.Fresh.{AreFresh, with_ids, AreFresh-split, AreFresh-after}
use gosshd_bastion.Logs.{Event, Stats, TrafficKey}
use gosshd_bastion.Logs.Sums.{add_stats, merge, add_stats-none, add_stats_assoc}
use gosshd_bastion.Logs.Overflow.{Job, Logs, finish_flush, end_flush}
use gosshd_bastion.Logs.Writer.{job_events, write_batch}
use gosshd_bastion.Logs.Persist.{shares, all_stats, shares-append, all_stats-append}
use gosshd_bastion.Logs.Insert.{ids, known, IsNamed, IsPlain, ids-append, All-split}
use gosshd_bastion.Logs.Account.{pending, settled, settled_total, account, overall}
use gosshd_bastion.Logs.Keep.{Written, write_batch-Written, put_back-IsBalanced}
use gosshd_bastion.Logs.Schedule.{writes, ends, step}
use gosshd_bastion.Logs.Sound.{IsSound, Follows, IsKept, stay-Follows}
use gosshd_bastion.Logs.Account.{
  settled-finish_flush, settled_total-finish_flush, finish_flush-cases, persisted-access,
}

end_flush-idle : (accepted : Bool) (l : Logs) → l.flushing ≡ none → end_flush accepted l ≡ l
unfolding end_flush
end_flush-idle accepted l h = ground arith

end_flush-busy :
    (accepted : Bool) (l : Logs) (total : Stats) (values : List (TrafficKey × Stats))
    → l.flushing ≡ some (total, values)
    → end_flush accepted l ≡ finish_flush accepted total values l
unfolding end_flush
end_flush-busy accepted l total values h = ground arith

finish_flush-IsSound :
    (accepted : Bool) (total : Stats) (values : List (TrafficKey × Stats)) (l : Logs)
    (upcoming : List Event)
    → IsSound l upcoming
    → IsSound (finish_flush accepted total values l) upcoming
finish_flush-IsSound accepted total values l upcoming h =
    let sound = λ (l' : Logs). IsSound l' upcoming in
    elim (finish_flush-cases accepted total values l) [
      | inl (_, e) ↦ subst sound (sym e) (record {
        fresh = h.fresh;
        named = h.named;
        plain_batch = h.plain_batch;
        plain_jobs = h.plain_jobs;
        waiting = h.waiting;
        flushing = λ t v busy. absurd (cc);
      })
      | inr (inl e) ↦ subst sound (sym e) (record {
        fresh =
            subst
              (λ (table : List (ℕ × Event)). AreFresh (ids (pending l ++ upcoming)) (known table))
              (sym (persisted-access total values l.db)) h.fresh;
        named = h.named;
        plain_batch = h.plain_batch;
        plain_jobs = h.plain_jobs;
        waiting = h.waiting;
        flushing = λ t v busy. absurd (cc);
      })
      | inr (inr (some_requests, e)) ↦ subst sound (sym e) (record {
        fresh = h.fresh;
        named = h.named;
        plain_batch = h.plain_batch;
        plain_jobs = h.plain_jobs;
        waiting =
            put_back-IsBalanced total l.overflow_total values (merge values l.overflow)
              some_requests;
        flushing = λ t v busy. absurd (cc);
      })
    ]

finish_flush-closed :
    (accepted : Bool) (total : Stats) (values : List (TrafficKey × Stats)) (l : Logs)
    → ((finish_flush accepted total values l).closed ≡ l.closed)
      × (pending (finish_flush accepted total values l) ≡ pending l)
unfolding finish_flush
finish_flush-closed accepted total values l = ground arith

finish_flush-Follows :
    (accepted : Bool) (total : Stats) (values : List (TrafficKey × Stats)) (l : Logs)
    (upcoming : List Event)
    → IsSound l upcoming
    → l.flushing ≡ some (total, values)
    → Follows l upcoming [] l.closed (finish_flush accepted total values l)
finish_flush-Follows accepted total values l upcoming h busy =
    let balanced = h.flushing total values busy in
    let (open_still, same) = finish_flush-closed accepted total values l in
    (
      finish_flush-IsSound accepted total values l upcoming h,
      open_still,
      λ k.
          ap₂ add_stats (settled-finish_flush accepted total values l balanced busy k)
            (ap (shares k) same)
          ∙ sym (add_stats-none (account k l)),
      ap₂ add_stats (settled_total-finish_flush accepted total values l balanced busy)
            (ap all_stats same)
          ∙ sym (add_stats-none (overall l)),
    )

pub end-IsKept :
    (accepted : Bool) (l : Logs) (upcoming : List Event)
    → IsSound l upcoming
    → IsKept (ends accepted) l upcoming
unfolding step
end-IsKept accepted l upcoming h = elim (Option-cases l.flushing) [
  | inl e ↦
      subst (Follows l upcoming [] l.closed) (sym (end_flush-idle accepted l e))
        (stay-Follows l upcoming h)
  | inr ((total, values), e) ↦
      subst (Follows l upcoming [] l.closed) (sym (end_flush-busy accepted l total values e))
        (finish_flush-Follows accepted total values l upcoming h e)
]

-- What is left of the IDs once the first events are dealt with.
fresh_rest :
    (xs ys zs : List Event) (old : List Bytes)
    → AreFresh (ids ((xs ++ ys) ++ zs)) old
    → AreFresh (ids xs) old
      × AreFresh (ids (ys ++ zs)) old
      × AreFresh (ids (ys ++ zs)) (with_ids (ids xs) old)
fresh_rest xs ys zs old h =
    let all =
      subst (λ t. AreFresh t old) (ap ids (append_assoc xs ys zs) ∙ ids-append xs (ys ++ zs)) h in
    let (first, rest) = AreFresh-split (ids xs) (ids (ys ++ zs)) old all in
    (first, AreFresh-after (ids xs) (ids (ys ++ zs)) old all, rest)

named_rest :
    (xs ys zs : List Event)
    → All IsNamed ((xs ++ ys) ++ zs)
    → All IsNamed xs × All IsNamed (ys ++ zs)
named_rest xs ys zs h =
    All-split IsNamed xs (ys ++ zs) (subst (All IsNamed) (append_assoc xs ys zs) h)

write_batch-IsSound :
    (accepted : Bool) (l : Logs) (upcoming : List Event)
    → IsSound l upcoming
    → Written accepted l
    → IsSound (write_batch accepted l) upcoming
write_batch-IsSound accepted l upcoming h (_, _, batch, jobs, flushing, _, waiting, table) =
    let w = write_batch accepted l in
    let eb = job_events l.batch in
    let ej = job_events l.jobs in
    let left : pending w ≡ ej = ap₂ (λ (a b : List Job). job_events a ++ job_events b) batch jobs in
    let (_, fresh, fresh_after) = fresh_rest eb ej upcoming (known l.db.access) h.fresh in
    let fresh' : AreFresh (ids (ej ++ upcoming)) (known w.db.access) = elim table [
      | inl e ↦ subst (AreFresh (ids (ej ++ upcoming))) (sym e) fresh
      | inr e ↦ subst (AreFresh (ids (ej ++ upcoming))) (sym e) fresh_after
    ] in
    record {
      fresh =
          subst (λ (t : List Event). AreFresh (ids (t ++ upcoming)) (known w.db.access)) (sym left)
            fresh';
      named =
          subst (λ (t : List Event). All IsNamed (t ++ upcoming)) (sym left)
            (named_rest eb ej upcoming h.named).1;
      plain_batch = subst (All IsPlain) (sym batch) tt;
      plain_jobs = subst (All IsPlain) (sym jobs) h.plain_jobs;
      waiting = waiting h.waiting;
      flushing = λ t v busy. h.flushing t v (sym flushing ∙ busy);
    }

pub write-IsKept :
    (accepted : Bool) (l : Logs) (upcoming : List Event)
    → IsSound l upcoming
    → IsKept (writes accepted) l upcoming
unfolding step
write-IsKept accepted l upcoming h =
    let eb = job_events l.batch in
    let ej = job_events l.jobs in
    let fresh = (fresh_rest eb ej upcoming (known l.db.access) h.fresh).0 in
    let named = (named_rest eb ej upcoming h.named).0 in
    let written = write_batch-Written accepted l fresh named h.plain_batch in
    let (one, all, batch, jobs, _, open_still, _, _) = written in
    let left : pending (write_batch accepted l) ≡ ej =
      ap₂ (λ (a b : List Job). job_events a ++ job_events b) batch jobs in
    (
      write_batch-IsSound accepted l upcoming h written,
      open_still,
      λ k.
          ap₂ add_stats (one k) (ap (shares k) left)
          ∙ add_stats_assoc (settled k l) (shares k eb) (shares k ej)
          ∙ ap (add_stats (settled k l)) (sym (shares-append k eb ej))
          ∙ sym (add_stats-none (account k l)),
      ap₂ add_stats all (ap all_stats left)
          ∙ add_stats_assoc (settled_total l) (all_stats eb) (all_stats ej)
          ∙ ap (add_stats (settled_total l)) (sym (all_stats-append eb ej))
          ∙ sym (add_stats-none (overall l)),
    )
