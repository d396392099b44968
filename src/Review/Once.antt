-- ===== src/Review/Once.antt =====
-- Every request that was created is pending or was ended, and it is ended once at most: what a waiting
-- session gets on the channel of its request.
use gosshd_bastion.Base.{
  ℕ, ◌+◌, ◌≤◌, Bool, true, false, List, [], ◌∷◌, ◌++◌, none, some, ◌≡◌, refl, ap, subst, arith, inl,
  inr, Bool-cases,
}
use gosshd_bastion.Base.Bytes.{Bytes, bytes_eq, bytes_eq_iff}
use gosshd_bastion.Review.{
  Review, Event, answered, closed, scheduled, signalled, find_review, delete_review,
}
use gosshd_bastion.Review.Resolve.{expire_reviews, expired_answer}

abbrev pub one_if : Bool → ℕ
one_if true = 1
one_if false = 0

-- How many requests with this id are pending.
abbrev pub count_pending : Bytes → List Review → ℕ
count_pending x [] = 0
count_pending x (r ∷ rs) = one_if (bytes_eq r.id x) + count_pending x rs

abbrev pub ends : Bytes → Event → Bool
ends x (answered id verdict) = bytes_eq id x
ends x (closed id) = bytes_eq id x
ends x (scheduled id delay) = false
ends x signalled = false

-- How often the channel of the request was closed.
abbrev pub count_ended : Bytes → List Event → ℕ
count_ended x [] = 0
count_ended x (e ∷ es) = one_if (ends x e) + count_ended x es

abbrev pub count_ids : Bytes → List Bytes → ℕ
count_ids x [] = 0
count_ids x (id ∷ ids) = one_if (bytes_eq id x) + count_ids x ids

pub count_ended-append :
    (x : Bytes) (es fs : List Event)
    → count_ended x (es ++ fs) ≡ count_ended x es + count_ended x fs
count_ended-append x [] fs = omega arith
count_ended-append x (e ∷ es) fs = omega (arith, count_ended-append x es fs)

pub expire_reviews-count :
    (x : Bytes) (now : ℕ) (rs : List Review)
    → count_pending x (expire_reviews now rs).0 + count_ended x (expire_reviews now rs).1
      ≡ count_pending x rs
unfolding expire_reviews expired_answer
expire_reviews-count x now [] = omega arith
expire_reviews-count x now (r ∷ rs) = ground (arith, expire_reviews-count x now rs)

pub delete_review-same :
    (id : Bytes) (rs : List Review) → count_pending id (delete_review id rs) ≡ 0
unfolding delete_review
delete_review-same id [] = refl
delete_review-same id (r ∷ rs) = ground (arith, delete_review-same id rs)

pub delete_review-other :
    (id x : Bytes) (rs : List Review)
    → bytes_eq id x ≡ false
    → count_pending x (delete_review id rs) ≡ count_pending x rs
unfolding delete_review
delete_review-other id x [] h = refl
delete_review-other id x (r ∷ rs) h = elim (Bool-cases (bytes_eq r.id id)) [
  | inl e ↦
      let same = (bytes_eq_iff r.id id).0 e in
      ground (arith, delete_review-other id x rs h, ap (λ t. bytes_eq t x) same)
  | inr n ↦ ground (arith, delete_review-other id x rs h)
]

pub find_review-none :
    (id : Bytes) (rs : List Review) → find_review id rs ≡ none → count_pending id rs ≡ 0
unfolding find_review
find_review-none id [] h = refl
find_review-none id (r ∷ rs) h = ground (arith, find_review-none id rs)

pub find_review-some :
    (id : Bytes) (rs : List Review) {r : Review}
    → find_review id rs ≡ some r
    → (1 ≤ count_pending id rs) × (r.id ≡ id)
unfolding find_review
find_review-some id [] h = absurd (cc)
find_review-some id (q ∷ rs) {r} h = elim (Bool-cases (bytes_eq q.id id)) [
  | inl e ↦
      let same : q ≡ r = ground arith in
      (rw e (omega arith), subst (λ (t : Review). t.id ≡ id) same ((bytes_eq_iff q.id id).0 e))
  | inr n ↦ ground (arith, find_review-some id rs {r = r})
]

-- A request that is taken out counts one less.
pub taken_out :
    (id x : Bytes) (rs : List Review) {r : Review}
    → find_review id rs ≡ some r
    → count_pending x rs ≤ 1
    → count_pending x (delete_review id rs) + one_if (bytes_eq id x) ≡ count_pending x rs
taken_out id x rs {r} found single = elim (Bool-cases (bytes_eq id x)) [
  | inl e ↦
      let same = (bytes_eq_iff id x).0 e in
      let here = (find_review-some id rs {r = r} found).0 in
      let gone =
        subst (λ t. count_pending t (delete_review id rs) ≡ 0) same (delete_review-same id rs) in
      let there = subst (λ t. 1 ≤ count_pending t rs) same here in rw e (omega arith)
  | inr n ↦ rw n (omega (arith, delete_review-other id x rs n))
]
