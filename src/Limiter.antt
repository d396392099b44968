-- ===== src/Limiter.antt =====
-- internal/server/rate_limit.go: the limiter of authentication attempts. Times are nanoseconds.
pub mod Window
mod Tests
use gosshd_bastion.Base.{
  ℕ, ◌+◌, Bool, true, false, List, [], ◌∷◌, ◌++◌, ltb, leb, if◌then◌else◌, length, is_empty,
}
use gosshd_bastion.Base.Bytes.{Bytes, codes, bytes_eq, to_lower, trim_space}

-- `attempts`: the times under each key.
abbrev pub Attempts : Type 0
Attempts = List (Bytes × List ℕ)

unfoldable pub times_of : Bytes → Attempts → List ℕ
unfolding bytes_eq
times_of key [] = []
times_of key ((k, times) ∷ rest) = if bytes_eq k key then times else times_of key rest

unfoldable pub set_times : Bytes → List ℕ → Attempts → Attempts
unfolding bytes_eq
set_times key times [] = (key, times) ∷ []
set_times key times ((k, old) ∷ rest) =
    if bytes_eq k key then (k, times) ∷ rest else (k, old) ∷ set_times key times rest

-- The loop that keeps what is after `now` less the window.
unfoldable pub kept : ℕ → ℕ → List ℕ → List ℕ
kept window now [] = []
kept window now (t ∷ ts) =
    let rest = kept window now ts in if ltb now (t + window) then t ∷ rest else rest

-- On a limiter that is there; a nil one grants all.
unfoldable pub allow : ℕ → ℕ → Bytes → ℕ → Attempts → Attempts × Bool
unfolding times_of set_times kept
allow limit window key now attempts =
    let recent = kept window now (times_of key attempts) in
    if leb limit (length recent)
    then (set_times key recent attempts, false)
    else (set_times key (recent ++ now ∷ []) attempts, true)

-- `allowAuthAttempt`: an attempt counts for its subject, and for the subject at its address.
unfoldable pub allow_auth_attempt : ℕ → ℕ → Bytes → Bytes → ℕ → Attempts → Attempts × Bool
unfolding allow to_lower trim_space
allow_auth_attempt limit window ip subject now attempts =
    let name = to_lower (trim_space subject) in
    let source = if is_empty ip then codes "unknown" else ip in
    let first = allow limit window (codes "subject|" ++ name) now attempts in
    if first.1
    then allow limit window (codes "ip|" ++ source ++ codes "|" ++ name) now first.0
    else first
