-- ===== src/Review.antt =====
-- internal/server/manual_review.go: the hub of manual reviews. A method is a function from the state
-- to the new state and the events that others see; its lock makes it one step. The maps are lists
-- of entries with different keys, times count nanoseconds, and a request holds the fields that the
-- hub reads or sets (a snapshot copies all of them). Timers are steps that may come at any time.
pub mod Resolve
pub mod Once
pub mod Desk
pub mod Account
pub mod Deadline
mod Tests
use gosshd_bastion.Base.{
  ℕ, ◌+◌, ◌-◌, ◌*◌, Bool, true, false, not, ◌&&◌, ◌||◌, List, [], ◌∷◌, ◌++◌, Option, none, some,
  ltb, leb, ◌==◌, if◌then◌else◌, is_empty, any, map,
}
use gosshd_bastion.Base.Bytes.{Bytes, codes, bytes_eq}
use gosshd_bastion.Base.Result.{Result, ok, err}

pub record Choice : Type 0 where
  pub allow : Bool
  pub minutes : ℕ
  pub expires_at : ℕ
  pub target_ids : List Bytes

pub record Review : Type 0 where
  pub id : Bytes
  pub organization_id : Bytes
  pub session_id : Bytes
  pub target_id : Bytes
  pub user_id : Bytes
  pub command : Bytes
  pub created_at : ℕ
  pub expires_at : ℕ
  pub default_allow : Bool
  pub auto_allow_minutes : ℕ
  pub auto_allow_expires_at : ℕ
  pub auto_allow_target_ids : List Bytes

pub record Verdict : Type 0 where
  pub allow : Bool
  pub reviewer_id : Bytes
  pub reviewer : Bytes
  pub decided_at : ℕ

pub record Hub : Type 0 where
  pub pending : List Review
  pub active_pollers : Bytes → ℕ
  pub auto_allow : List (Bytes × Choice)

-- What others see: a decision on the channel of a request and its end, its end alone, a deadline
-- set, and the signal to the pollers.
pub data Event : Type 0 where
  answered : Bytes → Verdict → Event
  closed : Bytes → Event
  scheduled : Bytes → ℕ → Event
  signalled : Event

abbrev pub new_hub : Hub
new_hub = record { pending = []; active_pollers = λ _. 0; auto_allow = [] }

abbrev pub second : ℕ
second = 1_000_000_000

-- `store.DefaultManualReviewTimeoutSeconds`.
abbrev pub default_timeout : ℕ
default_timeout = 30 * second

abbrev pub choice_key : Bytes → Bytes → Bytes
choice_key organization user = organization ++ 0 ∷ user

abbrev pub poller_key : Bytes → Bytes → Bytes
poller_key organization session =
    if is_empty session then organization else organization ++ 0 ∷ session

unfoldable pub find_review : Bytes → List Review → Option Review
unfolding bytes_eq
find_review id [] = none
find_review id (r ∷ rs) = if bytes_eq r.id id then some r else find_review id rs

unfoldable pub delete_review : Bytes → List Review → List Review
unfolding bytes_eq
delete_review id [] = []
delete_review id (r ∷ rs) =
    let rest = delete_review id rs in if bytes_eq r.id id then rest else r ∷ rest

unfoldable pub find_choice : Bytes → List (Bytes × Choice) → Option Choice
unfolding bytes_eq
find_choice key [] = none
find_choice key ((k, c) ∷ cs) = if bytes_eq k key then some c else find_choice key cs

unfoldable pub delete_choice : Bytes → List (Bytes × Choice) → List (Bytes × Choice)
unfolding bytes_eq
delete_choice key [] = []
delete_choice key ((k, c) ∷ cs) =
    let rest = delete_choice key cs in if bytes_eq k key then rest else (k, c) ∷ rest

-- `!now.Before(t)`.
abbrev pub is_over : ℕ → ℕ → Bool
is_over now t = leb t now

abbrev no_choice : Choice
no_choice = record { allow = false; minutes = 0; expires_at = 0; target_ids = [] }

-- `activeAutoAllowLocked`.
unfoldable pub active_auto_allow : Bytes → ℕ → Hub → Hub × Option Choice
active_auto_allow key now h = elim (find_choice key h.auto_allow) [
  | none ↦ (h, none)
  | some c ↦
      if is_over now c.expires_at
      then (record h { auto_allow = delete_choice key h.auto_allow }, none)
      else (h, some c)
]

-- `updateAutoAllowLocked`; minutes below zero are taken as zero.
unfoldable pub update_auto_allow : Bytes → ℕ → Bool → List Bytes → ℕ → Hub → Hub × Choice
unfolding active_auto_allow
update_auto_allow key minutes allow targets now h =
    let (h', active) = active_auto_allow key now h in
    let until = now + minutes * (60 * second) in
    let expires_at : ℕ = elim active [
      | none ↦ until
      | some c ↦ if c.minutes == minutes then c.expires_at else until
    ] in
    let c : Choice = record {
      allow = allow;
      minutes = minutes;
      expires_at = expires_at;
      target_ids = targets;
    } in
    if minutes == 0
    then (record h' { auto_allow = delete_choice key h'.auto_allow }, no_choice)
    else (record h' { auto_allow = (key, c) ∷ delete_choice key h'.auto_allow }, c)

abbrev pub auto_allow_state : Bytes → Bytes → ℕ → Hub → Hub × Option Choice
auto_allow_state organization user now h = active_auto_allow (choice_key organization user) now h

abbrev pub set_auto_allow : Bytes → Bytes → ℕ → Bool → List Bytes → ℕ → Hub → Hub × Choice
set_auto_allow organization user minutes allow targets now h =
    update_auto_allow (choice_key organization user) minutes allow targets now h

abbrev pub contains_string : List Bytes → Bytes → Bool
contains_string values value = any (λ item. bytes_eq item value) values

-- The request as `Create` fills it in.
unfoldable pub with_choice : Option Choice → Review → Review
unfolding bytes_eq
with_choice none r = r
with_choice (some c) r =
    if contains_string c.target_ids r.target_id
    then record r {
      default_allow = c.allow;
      auto_allow_minutes = c.minutes;
      auto_allow_expires_at = c.expires_at;
      auto_allow_target_ids = c.target_ids;
    }
    else r

-- `Create`; `id` is the new UUID.
unfoldable pub create : Bytes → ℕ → Review → ℕ → Hub → Hub × List Event × Review
unfolding with_choice active_auto_allow delete_review
create id now review timeout h =
    let lasting = if timeout == 0 then default_timeout else timeout in
    let dated = record review { id = id; created_at = now; expires_at = now + lasting } in
    let (h', choice) = active_auto_allow (choice_key review.organization_id review.user_id) now h in
    let r = with_choice choice dated in
    (
      record h' { pending = r ∷ delete_review id h'.pending },
      scheduled id lasting ∷ signalled ∷ [],
      r,
    )
