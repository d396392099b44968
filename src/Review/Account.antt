-- ===== src/Review/Account.antt =====
-- Every request is answered once at most, over all runs of the hub.
use gosshd_bastion.Base.{
  ℕ, ◌+◌, ◌≤◌, Bool, List, [], ◌∷◌, ◌++◌, Option, ◌==◌, if◌then◌else◌, ◌≡◌, sym, ap, ◌∙◌, subst,
  arith, inl, inr, Bool-cases,
}
use gosshd_bastion.Base.Bytes.{Bytes, bytes_eq, bytes_eq_iff}
use gosshd_bastion.Review.{
  Choice, Review, Verdict, Hub, Event, new_hub, delete_review, create, active_auto_allow,
  choice_key, with_choice, default_timeout, set_auto_allow, auto_allow_state,
}
use gosshd_bastion.Review.Resolve.{decide, withdraw, expire, get, list_or_notify, unregister_poller}
use gosshd_bastion.Review.Once.{
  one_if, count_pending, count_ended, count_ids, count_ended-append, delete_review-same,
  delete_review-other,
}
use gosshd_bastion.Review.Desk.{
  Balance, expire_all-Balance, withdraw-Balance, expire-Balance, decide-Balance,
  update_auto_allow-pending, active_auto_allow-pending,
}

-- `created` and `log` record what happened; the code has no such variables.
pub record Desk : Type 0 where
  pub hub : Hub
  pub created : List Bytes
  pub log : List Event

abbrev pub empty_desk : Desk
empty_desk = record { hub = new_hub; created = []; log = [] }

abbrev seen : Hub × List Event → Desk → Desk
seen (h, events) d = record d { hub = h; log = d.log ++ events }

-- A new UUID was not given out before.
pub data Step : Desk → Desk → Type 0 where
  creates :
      (d : Desk) (id : Bytes) (now : ℕ) (review : Review) (timeout : ℕ)
      → count_ids id d.created ≡ 0
      → Step d (record {
        hub = (create id now review timeout d.hub).0;
        created = id ∷ d.created;
        log = d.log ++ (create id now review timeout d.hub).1;
      })
  decides :
      (d : Desk) (now : ℕ) (id : Bytes) (verdict : Verdict) (minutes : Option ℕ)
      (targets : List Bytes)
      → Step d (
          seen
            (
              (decide now id verdict minutes targets d.hub).0,
              (decide now id verdict minutes targets d.hub).1,
            )
            d)
  withdraws : (d : Desk) (id : Bytes) → Step d (seen (withdraw id d.hub) d)
  times_out : (d : Desk) (now : ℕ) (id : Bytes) → Step d (seen (expire now id d.hub) d)
  looks_up :
      (d : Desk) (now : ℕ) (id : Bytes)
      → Step d (seen ((get now id d.hub).0, (get now id d.hub).1) d)
  polls :
      (d : Desk) (now : ℕ) (organization session : Bytes) (known : List Bytes) (register : Bool)
      → Step d (
          seen
            (
              (list_or_notify now organization session known register d.hub).0,
              (list_or_notify now organization session known register d.hub).1,
            )
            d)
  chooses :
      (d : Desk) (organization user : Bytes) (minutes : ℕ) (allow : Bool) (targets : List Bytes)
      (now : ℕ)
      → Step d
          (record d { hub = (set_auto_allow organization user minutes allow targets now d.hub).0 })
  recalls :
      (d : Desk) (organization user : Bytes) (now : ℕ)
      → Step d (record d { hub = (auto_allow_state organization user now d.hub).0 })
  leaves : (d : Desk) (key : Bytes) → Step d (record d { hub = unregister_poller key d.hub })

pub data Reached : Desk → Type 0 where
  opened : Reached empty_desk
  after : {d e : Desk} → Step d e → Reached d → Reached e

-- A request that was created is pending or was ended, and it was created once.
abbrev pub Accounted : Bytes → Desk → Type 0
Accounted x d =
    (count_pending x d.hub.pending + count_ended x d.log ≡ count_ids x d.created)
    × (count_ids x d.created ≤ 1)

seen-Accounted :
    (x : Bytes) (d : Desk) (h : Hub) (events : List Event)
    → Accounted x d
    → Balance x d.hub h events
    → Accounted x (seen (h, events) d)
seen-Accounted x d h events (total, single) b =
    (omega (arith, count_ended-append x d.log events), single)

with_choice-id : (c : Option Choice) (r : Review) → (with_choice c r).id ≡ r.id
unfolding with_choice
with_choice-id c r = ground arith

delete_unused :
    (id x : Bytes) (rs : List Review)
    → count_pending id rs ≡ 0
    → count_pending x (delete_review id rs) ≡ count_pending x rs
delete_unused id x rs unused = elim (Bool-cases (bytes_eq id x)) [
  | inl e ↦
      subst (λ t. count_pending t (delete_review id rs) ≡ count_pending t rs)
        ((bytes_eq_iff id x).0 e) (delete_review-same id rs ∙ sym unused)
  | inr n ↦ delete_review-other id x rs n
]

create-count :
    (x id : Bytes) (now : ℕ) (review : Review) (timeout : ℕ) (h : Hub)
    → count_pending id h.pending ≡ 0
    → (count_pending x (create id now review timeout h).0.pending
        ≡ one_if (bytes_eq id x) + count_pending x h.pending)
      × (count_ended x (create id now review timeout h).1 ≡ 0)
unfolding create
create-count x id now review timeout h unused =
    let key = choice_key review.organization_id review.user_id in
    let choice = (active_auto_allow key now h).1 in
    let lasting = if timeout == 0 then default_timeout else timeout in
    let dated = record review { id = id; created_at = now; expires_at = now + lasting } in
    rw (with_choice-id choice dated, active_auto_allow-pending key now h)
      (
        ap (λ (k : ℕ). one_if (bytes_eq id x) + k) (delete_unused id x h.pending unused),
        omega arith,
      )

creates-Accounted :
    (x : Bytes) (d : Desk) (id : Bytes) (now : ℕ) (review : Review) (timeout : ℕ)
    → count_ids id d.created ≡ 0
    → Accounted id d
    → Accounted x d
    → Accounted x (record {
      hub = (create id now review timeout d.hub).0;
      created = id ∷ d.created;
      log = d.log ++ (create id now review timeout d.hub).1;
    })
creates-Accounted x d id now review timeout fresh own other =
    let (more, no_end) = create-count x id now review timeout d.hub (omega (arith, own.0)) in
    let events = (create id now review timeout d.hub).1 in
    elim (Bool-cases (bytes_eq id x)) [
      | inl e ↦
          let same = (bytes_eq_iff id x).0 e in
          let unused = subst (λ t. count_ids t d.created ≡ 0) same fresh in
          (
            omega (arith, count_ended-append x d.log events, more, no_end, other.0),
            rw e (omega (arith, unused)),
          )
      | inr n ↦ (
        omega (arith, count_ended-append x d.log events, more, no_end, other.0),
        rw n (omega (arith, other.1)),
      )
    ]

get-Balance :
    (x : Bytes) (now : ℕ) (id : Bytes) (h : Hub) → Balance x h (get now id h).0 (get now id h).1
unfolding get
get-Balance x now id h = expire_all-Balance x now h

list_or_notify-Balance :
    (x : Bytes) (now : ℕ) (organization session : Bytes) (known : List Bytes) (register : Bool)
    (h : Hub)
    → Balance x h
        (list_or_notify now organization session known register h).0
        (list_or_notify now organization session known register h).1
unfolding list_or_notify
list_or_notify-Balance x now organization session known register h =
    ground (arith, expire_all-Balance x now h)

leaves-Accounted :
    (x : Bytes) (d : Desk) (key : Bytes)
    → Accounted x d
    → Accounted x (record d { hub = unregister_poller key d.hub })
unfolding unregister_poller
leaves-Accounted x d key own = ground arith

-- Whatever the sessions, the reviewers, the pollers and the timers do, and in whatever order: the
-- channel of a request is closed once at most, with or without a decision, it is closed exactly when
-- the request is no longer pending, and a request that was never created is neither. (No UUID is
-- given out twice.)
pub reviews_end_once :
    {d : Desk}
    → Reached d
    → (x : Bytes)
    → (count_pending x d.hub.pending + count_ended x d.log ≡ count_ids x d.created)
      × (count_ids x d.created ≤ 1)
reviews_end_once opened x = (omega arith, omega arith)
reviews_end_once (after (creates d id now review timeout fresh) r) x =
    creates-Accounted x d id now review timeout fresh (reviews_end_once r id) (reviews_end_once r x)
reviews_end_once (after (decides d now id verdict minutes targets) r) x =
    let own = reviews_end_once r x in
    seen-Accounted x d (decide now id verdict minutes targets d.hub).0
      (decide now id verdict minutes targets d.hub).1 own
      (decide-Balance x now id verdict minutes targets d.hub (omega (arith, own.0, own.1)))
reviews_end_once (after (withdraws d id) r) x =
    let own = reviews_end_once r x in
    seen-Accounted x d (withdraw id d.hub).0 (withdraw id d.hub).1 own
      (withdraw-Balance x id d.hub (omega (arith, own.0, own.1)))
reviews_end_once (after (times_out d now id) r) x =
    let own = reviews_end_once r x in
    seen-Accounted x d (expire now id d.hub).0 (expire now id d.hub).1 own
      (expire-Balance x now id d.hub (omega (arith, own.0, own.1)))
reviews_end_once (after (looks_up d now id) r) x =
    seen-Accounted x d (get now id d.hub).0 (get now id d.hub).1 (reviews_end_once r x)
      (get-Balance x now id d.hub)
reviews_end_once (after (polls d now organization session known register) r) x =
    seen-Accounted x d (list_or_notify now organization session known register d.hub).0
      (list_or_notify now organization session known register d.hub).1 (reviews_end_once r x)
      (list_or_notify-Balance x now organization session known register d.hub)
reviews_end_once (after (chooses d organization user minutes allow targets now) r) x =
    rw (update_auto_allow-pending (choice_key organization user) minutes allow targets now d.hub)
      (reviews_end_once r x)
reviews_end_once (after (recalls d organization user now) r) x =
    rw (active_auto_allow-pending (choice_key organization user) now d.hub) (reviews_end_once r x)
reviews_end_once (after (leaves d key) r) x = leaves-Accounted x d key (reviews_end_once r x)
