-- ===== src/Update/Spacing.antt =====
-- Attempts over a run of the agent, restarts included: all that is kept between two calls is the file.
use gosshd_bastion.Base.{
  ℕ, ◌+◌, ◌≤◌, Bool, true, false, List, [], ◌∷◌, Option, none, some, if◌then◌else◌, ◌≡◌, refl, ◌⊎◌,
  inl, inr, arith, subst, ltb→le,
}
use gosshd_bastion.Base.Bytes.{Bytes, to_lower}
use gosshd_bastion.Base.Result.{Result, ok, err}
use gosshd_bastion.Update.{
  AttemptState, File, missing, unreadable, malformed, holds, current_window, reserve_in,
  reserve_update_attempt, update_retry_interval, too_soon, no_state,
}

abbrev pub is_granted : Result Bool → Bool
is_granted (ok granted) = granted
is_granted (err message) = false

-- The times at which the calls, each with a checksum and a time, were granted an attempt.
unfoldable pub granted_times : File → List (Bytes × ℕ) → List ℕ
unfolding reserve_update_attempt
granted_times file [] = []
granted_times file ((checksum, now) ∷ calls) =
    let r = reserve_update_attempt true missing checksum now file in
    let later = granted_times r.0 calls in if is_granted r.1 then now ∷ later else later

-- Each time is 15 minutes or more behind the one before, and the first one behind `last`.
abbrev pub IsSpaced : Option ℕ → List ℕ → Type 0
IsSpaced last [] = Unit
IsSpaced none (t ∷ ts) = IsSpaced (some t) ts
IsSpaced (some last) (t ∷ ts) = (last + update_retry_interval ≤ t) × IsSpaced (some t) ts

abbrev pub last_of : File → Option ℕ
last_of missing = none
last_of unreadable = none
last_of malformed = none
last_of (holds s) = s.last_attempt

-- What a call comes to.
abbrev Outcome : Option ℕ → ℕ → File × Result Bool → Type 0
Outcome last now r =
    ((is_granted r.1 ≡ true) × (last_of r.0 ≡ some now) × (too_soon now last ≡ false))
    ⊎ ((is_granted r.1 ≡ false) × (last_of r.0 ≡ last))

current_window-last :
    (now : ℕ) (s : AttemptState) → (current_window now s).last_attempt ≡ s.last_attempt
unfolding current_window
current_window-last now s = ground arith

reserve_in-Outcome :
    (checksum : Bytes) (now : ℕ) (file : File) (s : AttemptState)
    → last_of file ≡ s.last_attempt
    → Outcome (last_of file) now (reserve_in true missing checksum now file s)
unfolding reserve_in
reserve_in-Outcome checksum now file s same = ground (arith, current_window-last now s)

reserve_update_attempt-Outcome :
    (checksum : Bytes) (now : ℕ) (file : File)
    → Outcome (last_of file) now (reserve_update_attempt true missing checksum now file)
unfolding reserve_update_attempt
reserve_update_attempt-Outcome checksum now missing =
    reserve_in-Outcome (to_lower checksum) now missing no_state refl
reserve_update_attempt-Outcome checksum now unreadable = inr (refl, refl)
reserve_update_attempt-Outcome checksum now malformed = inr (refl, refl)
reserve_update_attempt-Outcome checksum now (holds s) =
    reserve_in-Outcome (to_lower checksum) now (holds s) s refl

IsSpaced-first :
    (last : Option ℕ) (now : ℕ) (ts : List ℕ)
    → too_soon now last ≡ false
    → IsSpaced (some now) ts
    → IsSpaced last (now ∷ ts)
IsSpaced-first none now ts late h = h
IsSpaced-first (some last) now ts late h = (ltb→le now (last + update_retry_interval) late, h)

-- Where the file can be written, whatever the calls and their times: two attempts that are granted one after the
-- other are 15 minutes apart or more, and the first one is from the last one in the file.
pub granted_times-IsSpaced :
    (file : File) (calls : List (Bytes × ℕ)) → IsSpaced (last_of file) (granted_times file calls)
unfolding granted_times
granted_times-IsSpaced file [] = tt
granted_times-IsSpaced file ((checksum, now) ∷ calls) =
    let r = reserve_update_attempt true missing checksum now file in
    let later = granted_times-IsSpaced r.0 calls in
    elim (reserve_update_attempt-Outcome checksum now file) [
      | inl (granted, last, late) ↦
          rw (granted, granted_times)
            (IsSpaced-first (last_of file) now (granted_times r.0 calls) late
              (subst (λ l. IsSpaced l (granted_times r.0 calls)) last later))
      | inr (refused, last) ↦
          rw (refused, granted_times) (subst (λ l. IsSpaced l (granted_times r.0 calls)) last later)
    ]
