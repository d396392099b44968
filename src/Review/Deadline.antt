-- ===== src/Review/Deadline.antt =====
-- Deadlines and remembered choices.
use gosshd_bastion.Base.{
  ℕ, ◌<◌, true, false, List, [], ◌∷◌, Option, some, ◌≡◌, arith, inl, inr, Bool-cases, Option-cases,
  AnyOf,
}
use gosshd_bastion.Base.Bytes.{Bytes, bytes_eq}
use gosshd_bastion.Base.Result.{ok}
use gosshd_bastion.Review.{
  Choice, Review, Verdict, Hub, find_review, create, active_auto_allow, choice_key, is_over,
  with_choice, find_choice, contains_string,
}
use gosshd_bastion.Review.Resolve.{expire_reviews, expire_all, decide}

-- A pending request with this id whose deadline is not reached.
abbrev pub IsOpen : Bytes → ℕ → Review → Type 0
IsOpen id now r = (bytes_eq r.id id ≡ true) × (now < r.expires_at)

find_review-expire_reviews :
    (id : Bytes) (now : ℕ) (rs : List Review) {q : Review}
    → find_review id (expire_reviews now rs).0 ≡ some q
    → AnyOf (IsOpen id now) rs
unfolding find_review expire_reviews
find_review-expire_reviews id now [] h = absurd (cc)
find_review-expire_reviews id now (r ∷ rs) {q} h = elim (Bool-cases (is_over now r.expires_at)) [
  | inl over ↦ inr (find_review-expire_reviews id now rs {q = q} (rw (over, expire_reviews) at h))
  | inr early ↦ elim (Bool-cases (bytes_eq r.id id)) [
    | inl e ↦ inl (e, ground arith)
    | inr n ↦ inr (find_review-expire_reviews id now rs {q = q} (ground arith))
  ]
]

-- A reviewer's decision is accepted only for a request that is pending and whose deadline is not
-- reached: at the deadline and later `DecideWithAutoAllow` returns the error.
pub decide_ok :
    (now : ℕ) (id : Bytes) (verdict : Verdict) (minutes : Option ℕ) (targets : List Bytes) (h : Hub)
    → (decide now id verdict minutes targets h).2 ≡ ok tt
    → AnyOf (IsOpen id now) h.pending
unfolding decide
decide_ok now id verdict minutes targets h accepted =
    let h' = (expire_all now h).0 in
    elim (Option-cases (find_review id h'.pending)) [
      | inl none_there ↦ absurd (let bad = rw (none_there, decide) at accepted in cc)
      | inr (r, found) ↦
          find_review-expire_reviews id now h.pending {q = r} (unfold expire_all in found)
    ]

-- The request's user has a choice to allow that is remembered, not over, and covers the target.
abbrev pub IsRemembered : ℕ → Review → Hub → Type 0
IsRemembered now review h =
    (c : Choice) × (find_choice (choice_key review.organization_id review.user_id) h.auto_allow
      ≡ some c)
    × (now < c.expires_at)
    × (contains_string c.target_ids review.target_id ≡ true)
    × (c.allow ≡ true)

-- A request that would be allowed at its deadline, without a reviewer, though it was not asked to be,
-- comes from a user of that organization with a remembered choice to allow, which is not over and
-- names the target.
pub create_allows :
    (id : Bytes) (now : ℕ) (review : Review) (timeout : ℕ) (h : Hub)
    → review.default_allow ≡ false
    → (create id now review timeout h).2.default_allow ≡ true
    → IsRemembered now review h
unfolding create with_choice active_auto_allow
create_allows id now review timeout h unasked allows =
    let key = choice_key review.organization_id review.user_id in
    elim (Option-cases (find_choice key h.auto_allow)) [
      | inl unknown ↦ absurd (ground arith)
      | inr (c, known) ↦ (c, known, ground arith, ground arith, ground arith)
    ]
