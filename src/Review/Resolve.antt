-- ===== src/Review/Resolve.antt =====
-- internal/server/manual_review.go: the methods of the hub by which a request ends, and the pollers.
use gosshd_bastion.Base.{
  ℕ, ◌+◌, ◌-◌, Bool, true, false, not, ◌&&◌, List, [], ◌∷◌, ◌++◌, Option, none, some, ltb, leb,
  if◌then◌else◌, is_empty,
}
use gosshd_bastion.Base.Bytes.{Bytes, codes, bytes_eq}
use gosshd_bastion.Base.Result.{Result, ok, err}
use gosshd_bastion.Review.{
  Choice, Review, Verdict, Hub, Event, answered, closed, scheduled, signalled, choice_key,
  poller_key, find_review, delete_review, update_auto_allow, is_over, contains_string,
}

-- `resolveExpiredLocked`, but for the entry of the map.
unfoldable pub expired_answer : ℕ → Review → Event
expired_answer now r = answered r.id (record {
  allow = r.default_allow;
  reviewer_id = [];
  reviewer =
      if ltb 0 r.auto_allow_minutes then codes "remembered choice" else codes "automatic deadline";
  decided_at = now;
})

-- The loop over `pending` of `expireLocked`.
unfoldable pub expire_reviews : ℕ → List Review → List Review × List Event
unfolding expired_answer
expire_reviews now [] = ([], [])
expire_reviews now (r ∷ rs) =
    let (kept, events) = expire_reviews now rs in
    if is_over now r.expires_at then (kept, expired_answer now r ∷ events) else (r ∷ kept, events)

unfoldable pub live_choices : ℕ → List (Bytes × Choice) → List (Bytes × Choice)
live_choices now [] = []
live_choices now ((k, c) ∷ cs) =
    let rest = live_choices now cs in if is_over now c.expires_at then rest else (k, c) ∷ rest

unfoldable pub expire_all : ℕ → Hub → Hub × List Event
unfolding expire_reviews live_choices
expire_all now h =
    let (kept, events) = expire_reviews now h.pending in
    (
      record h { pending = kept; auto_allow = live_choices now h.auto_allow },
      (if is_empty events then [] else events ++ signalled ∷ []),
    )

-- `DecideWithAutoAllow`; `minutes` is `none` for a nil pointer.
unfoldable pub decide :
    ℕ → Bytes → Verdict → Option ℕ → List Bytes → Hub → Hub × List Event × Result (Unit {0})
unfolding expire_all find_review delete_review update_auto_allow
decide now id verdict minutes targets h =
    let (h', expired) = expire_all now h in
    elim (find_review id h'.pending) [
      | none ↦ (h', expired, err (codes "manual review request not found"))
      | some r ↦
          let without = record h' { pending = delete_review id h'.pending } in
          let key = choice_key r.organization_id r.user_id in
          let chosen : Hub = elim minutes [
            | none ↦ without
            | some m ↦ (update_auto_allow key m verdict.allow targets now without).0
          ] in
          (
            chosen,
            expired ++ (answered id (record verdict { decided_at = now }) ∷ signalled ∷ []),
            ok tt,
          )
    ]

-- `Expire`: the request is withdrawn.
unfoldable pub withdraw : Bytes → Hub → Hub × List Event
unfolding find_review delete_review
withdraw id h = elim (find_review id h.pending) [
  | none ↦ (h, [])
  | some r ↦ (record h { pending = delete_review id h.pending }, closed id ∷ signalled ∷ [])
]

-- `expire`, which a timer calls.
unfoldable pub expire : ℕ → Bytes → Hub → Hub × List Event
unfolding find_review delete_review expired_answer
expire now id h = elim (find_review id h.pending) [
  | none ↦ (h, [])
  | some r ↦
      if is_over now r.expires_at
      then (
        record h { pending = delete_review id h.pending },
        expired_answer now r ∷ signalled ∷ [],
      )
      else (h, scheduled id (r.expires_at - now) ∷ [])
]

-- `Get`.
unfoldable pub get : ℕ → Bytes → Hub → Hub × List Event × Option Review
unfolding expire_all find_review
get now id h = let (h', events) = expire_all now h in (h', events, find_review id h'.pending)

abbrev is_listed : Bytes → Bytes → List Bytes → Review → Bool
is_listed organization session known r =
    bytes_eq r.organization_id organization
    && bytes_eq r.session_id session
    && not (contains_string known r.id)

-- `listLocked`; `known` are the keys of `knownIDs`.
unfoldable pub list_reviews : Bytes → Bytes → List Bytes → List Review → List Review
unfolding bytes_eq
list_reviews organization session known [] = []
list_reviews organization session known (r ∷ rs) =
    let rest = list_reviews organization session known rs in
    if is_listed organization session known r then r ∷ rest else rest

abbrev set_pollers : Bytes → ℕ → Hub → Hub
set_pollers key n h = record h {
  active_pollers = λ k. if bytes_eq k key then n else h.active_pollers k;
}

-- `listOrNotify`, a round of `List`: the reviews, and whether the poller was registered.
unfoldable pub list_or_notify :
    ℕ → Bytes → Bytes → List Bytes → Bool → Hub → Hub × List Event × List Review × Bool
unfolding expire_all list_reviews
list_or_notify now organization session known register h =
    let (h', events) = expire_all now h in
    let reviews = list_reviews organization session known h'.pending in
    let key = poller_key organization session in
    if register && is_empty reviews
    then (set_pollers key (h'.active_pollers key + 1) h', events, reviews, true)
    else (h', events, reviews, false)

unfoldable pub has_active_pollers : Bytes → Bytes → Hub → Bool
has_active_pollers organization session h =
    ltb 0 (h.active_pollers (poller_key organization session))

unfoldable pub unregister_poller : Bytes → Hub → Hub
unregister_poller key h =
    if leb (h.active_pollers key) 1
    then set_pollers key 0 h
    else set_pollers key (h.active_pollers key - 1) h
