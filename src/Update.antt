-- ===== src/Update.antt =====
-- internal/agent/update_state.go: the budget of update attempts, which the agent keeps in a file so that
-- a restart cannot reset it. Times count nanoseconds; a zero time is `none`. The file and its JSON
-- are a value that says what reading it gives.
pub mod Budget
pub mod Spacing
mod Tests
use gosshd_bastion.Base.{
  ℕ, ◌+◌, ◌*◌, Bool, true, false, ◌||◌, List, [], ◌∷◌, Option, none, some, ltb, leb, if◌then◌else◌,
}
use gosshd_bastion.Base.Bytes.{Bytes, codes, bytes_eq, to_lower}
use gosshd_bastion.Base.Result.{Result, ok, err}

abbrev minute : ℕ
minute = 60_000_000_000

abbrev pub update_retry_interval : ℕ
update_retry_interval = 15 * minute

abbrev pub update_attempt_window : ℕ
update_attempt_window = 24 * (60 * minute)

abbrev pub max_update_attempts : ℕ
max_update_attempts = 3

abbrev pub max_total_update_attempts : ℕ
max_total_update_attempts = 12

pub record AttemptState : Type 0 where
  pub window_started : Option ℕ
  pub last_attempt : Option ℕ
  pub attempts : List (Bytes × ℕ)

pub data File : Type 0 where
  missing unreadable malformed : File
  holds : AttemptState → File

-- `state.Attempts[checksum]`, and the same with one more.
unfoldable pub count_of : Bytes → List (Bytes × ℕ) → ℕ
unfolding bytes_eq
count_of checksum [] = 0
count_of checksum ((k, n) ∷ rest) = if bytes_eq k checksum then n else count_of checksum rest

unfoldable pub count_more : Bytes → List (Bytes × ℕ) → List (Bytes × ℕ)
unfolding bytes_eq
count_more checksum [] = (checksum, 1) ∷ []
count_more checksum ((k, n) ∷ rest) =
    let more = count_more checksum rest in
    if bytes_eq k checksum then (k, n + 1) ∷ rest else (k, n) ∷ more

unfoldable pub total_attempts : List (Bytes × ℕ) → ℕ
total_attempts [] = 0
total_attempts ((k, n) ∷ rest) = n + total_attempts rest

abbrev window_over : ℕ → Option ℕ → Bool
window_over now none = true
window_over now (some start) = leb (start + update_attempt_window) now

unfoldable pub current_window : ℕ → AttemptState → AttemptState
current_window now s =
    if window_over now s.window_started
    then record { window_started = some now; last_attempt = s.last_attempt; attempts = [] }
    else s

abbrev pub too_soon : ℕ → Option ℕ → Bool
too_soon now none = false
too_soon now (some last) = ltb now (last + update_retry_interval)

-- Behind the reading of the file; the file after a failed write is `broken`.
unfoldable pub reserve_in : Bool → File → Bytes → ℕ → File → AttemptState → File × Result Bool
unfolding current_window count_of count_more total_attempts
reserve_in writes broken checksum now file state =
    let s = current_window now state in
    let counted = record s { attempts = count_more checksum s.attempts; last_attempt = some now } in
    if leb max_update_attempts (count_of checksum s.attempts)
      || leb max_total_update_attempts (total_attempts s.attempts)
      || too_soon now s.last_attempt
    then (file, ok false)
    else if writes
    then (holds counted, ok true)
    else (broken, err (codes "save update retry state"))

abbrev pub no_state : AttemptState
no_state = record { window_started = none; last_attempt = none; attempts = [] }

-- `reserveUpdateAttempt`: the file left, and whether an attempt may be made.
unfoldable pub reserve_update_attempt : Bool → File → Bytes → ℕ → File → File × Result Bool
unfolding reserve_in to_lower
reserve_update_attempt writes broken checksum now unreadable = (unreadable, err (codes "read"))
reserve_update_attempt writes broken checksum now malformed =
    (malformed, err (codes "read update retry state"))
reserve_update_attempt writes broken checksum now missing =
    reserve_in writes broken (to_lower checksum) now missing no_state
reserve_update_attempt writes broken checksum now (holds s) =
    reserve_in writes broken (to_lower checksum) now (holds s) s
