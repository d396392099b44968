-- ===== src/Review/Desk.antt =====
-- The hub at work: the steps of the server, the sessions, the reviewers and the timers in any order,
-- with the requests created and the events so far.
use gosshd_bastion.Base.{
  ℕ, ◌+◌, ◌≤◌, Bool, List, [], ◌∷◌, Option, ◌≡◌, ap, arith, inl, inr, Option-cases,
}
use gosshd_bastion.Base.Bytes.{Bytes, bytes_eq}
use gosshd_bastion.Review.{
  Verdict, Hub, Event, answered, signalled, find_review, delete_review, update_auto_allow,
  active_auto_allow, choice_key,
}
use gosshd_bastion.Review.Resolve.{
  expire_reviews, expired_answer, expire_all, decide, withdraw, expire,
}
use gosshd_bastion.Review.Once.{
  count_pending, count_ended, count_ended-append, expire_reviews-count, find_review-some, taken_out,
}

-- Nothing gets lost in a step: what is no longer pending was ended.
abbrev pub Balance : Bytes → Hub → Hub → List Event → Type 0
Balance x h h' events =
    count_pending x h'.pending + count_ended x events ≡ count_pending x h.pending

pub active_auto_allow-pending :
    (key : Bytes) (now : ℕ) (h : Hub) → (active_auto_allow key now h).0.pending ≡ h.pending
unfolding active_auto_allow
active_auto_allow-pending key now h = ground arith

pub update_auto_allow-pending :
    (key : Bytes) (minutes : ℕ) (allow : Bool) (targets : List Bytes) (now : ℕ) (h : Hub)
    → (update_auto_allow key minutes allow targets now h).0.pending ≡ h.pending
unfolding update_auto_allow
update_auto_allow-pending key minutes allow targets now h =
    ground (arith, active_auto_allow-pending key now h)

pub expire_all-Balance :
    (x : Bytes) (now : ℕ) (h : Hub) → Balance x h (expire_all now h).0 (expire_all now h).1
unfolding expire_all
expire_all-Balance x now h =
    let events = (expire_reviews now h.pending).1 in
    ground
      (arith, expire_reviews-count x now h.pending, count_ended-append x events (signalled ∷ []))

pub withdraw-Balance :
    (x id : Bytes) (h : Hub)
    → count_pending x h.pending ≤ 1
    → Balance x h (withdraw id h).0 (withdraw id h).1
unfolding withdraw
withdraw-Balance x id h single = elim (Option-cases (find_review id h.pending)) [
  | inl none_there ↦ rw (none_there, withdraw) (omega arith)
  | inr (r, found) ↦
      rw (found, withdraw) (omega (arith, taken_out id x h.pending {r = r} found single))
]

pub expire-Balance :
    (x : Bytes) (now : ℕ) (id : Bytes) (h : Hub)
    → count_pending x h.pending ≤ 1
    → Balance x h (expire now id h).0 (expire now id h).1
unfolding expire expired_answer
expire-Balance x now id h single = elim (Option-cases (find_review id h.pending)) [
  | inl none_there ↦ rw (none_there, expire) (omega arith)
  | inr (r, found) ↦
      let same = (find_review-some id h.pending {r = r} found).1 in
      ground (arith, taken_out id x h.pending {r = r} found single, ap (λ t. bytes_eq t x) same)
]

pub decide-Balance :
    (x : Bytes) (now : ℕ) (id : Bytes) (verdict : Verdict) (minutes : Option ℕ)
    (targets : List Bytes) (h : Hub)
    → count_pending x h.pending ≤ 1
    → Balance x h
        (decide now id verdict minutes targets h).0
        (decide now id verdict minutes targets h).1
unfolding decide
decide-Balance x now id verdict minutes targets h single =
    let h' = (expire_all now h).0 in
    let early = (expire_all now h).1 in
    let balanced = expire_all-Balance x now h in
    elim (Option-cases (find_review id h'.pending)) [
      | inl none_there ↦ rw (none_there, decide) balanced
      | inr (r, found) ↦
          let without = record h' { pending = delete_review id h'.pending } in
          let taken = taken_out id x h'.pending {r = r} found (omega (arith, balanced)) in
          let last = answered id (record verdict { decided_at = now }) ∷ signalled ∷ [] in
          elim (Option-cases minutes) [
            | inl unsaid ↦
                rw (found, unsaid, decide)
                  (omega (arith, balanced, taken, count_ended-append x early last))
            | inr (m, said) ↦
                let key = choice_key r.organization_id r.user_id in
                rw
                  (
                    found,
                    said,
                    decide,
                    update_auto_allow-pending key m verdict.allow targets now without,
                  )
                  (omega (arith, balanced, taken, count_ended-append x early last))
          ]
    ]
