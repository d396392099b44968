-- ===== src/Update/Budget.antt =====
-- The limits that the budget keeps.
use gosshd_bastion.Base.{
  ℕ, ◌+◌, ◌≤◌, true, false, List, [], ◌∷◌, none, leb, ◌≡◌, refl, arith, inl, inr, Bool-cases, All,
}
use gosshd_bastion.Base.Bytes.{Bytes, bytes_eq, to_lower}
use gosshd_bastion.Update.{
  AttemptState, File, missing, unreadable, malformed, holds, count_of, count_more, total_attempts,
  current_window, reserve_in, reserve_update_attempt, max_update_attempts,
  max_total_update_attempts,
}

abbrev HasFew : Bytes × ℕ → Type 0
HasFew (checksum, n) = n ≤ max_update_attempts

-- No checksum has more than 3 attempts, and all have 12 at most together.
abbrev pub IsWithin : File → Type 0
IsWithin missing = Unit
IsWithin unreadable = Unit
IsWithin malformed = Unit
IsWithin (holds s) = All HasFew s.attempts × (total_attempts s.attempts ≤ max_total_update_attempts)

count_more-All :
    (checksum : Bytes) (xs : List (Bytes × ℕ))
    → All HasFew xs
    → leb max_update_attempts (count_of checksum xs) ≡ false
    → All HasFew (count_more checksum xs)
unfolding count_more count_of
count_more-All checksum [] h few = (omega arith, tt)
count_more-All checksum ((k, n) ∷ xs) (hn, hs) few = elim (Bool-cases (bytes_eq k checksum)) [
  | inl e ↦ rw (e, count_more) (ground arith, hs)
  | inr d ↦ rw (d, count_more) (hn, count_more-All checksum xs hs (rw d at few))
]

count_more-total :
    (checksum : Bytes) (xs : List (Bytes × ℕ))
    → total_attempts (count_more checksum xs) ≡ total_attempts xs + 1
unfolding count_more total_attempts
count_more-total checksum [] = refl
count_more-total checksum ((k, n) ∷ xs) = ground (arith, count_more-total checksum xs)

current_window-IsWithin :
    (now : ℕ) (s : AttemptState) → IsWithin (holds s) → IsWithin (holds (current_window now s))
unfolding current_window total_attempts
current_window-IsWithin now s h = ground arith

reserve_in-IsWithin :
    (broken : File) (checksum : Bytes) (now : ℕ) (file : File) (state : AttemptState)
    → IsWithin file
    → IsWithin (holds state)
    → IsWithin (reserve_in true broken checksum now file state).0
unfolding reserve_in
reserve_in-IsWithin broken checksum now file state old h =
    let s = current_window now state in
    let (few, total) = current_window-IsWithin now state h in
    ground (
      arith,
      count_more-All checksum s.attempts few,
      count_more-total checksum s.attempts,
      few,
      total,
      old,
    )

-- Where the file can be written, and it has at most 3 attempts for each checksum and 12 for all of
-- them, or cannot be read: so it has after a call, whether the attempt is reserved or refused.
pub reserve_update_attempt-IsWithin :
    (broken : File) (checksum : Bytes) (now : ℕ) (file : File)
    → IsWithin file
    → IsWithin (reserve_update_attempt true broken checksum now file).0
unfolding reserve_update_attempt
reserve_update_attempt-IsWithin broken checksum now missing h =
    reserve_in-IsWithin broken (to_lower checksum) now missing
      (record { window_started = none; last_attempt = none; attempts = [] }) tt
      (tt, unfold total_attempts in omega arith)
reserve_update_attempt-IsWithin broken checksum now unreadable h = tt
reserve_update_attempt-IsWithin broken checksum now malformed h = tt
reserve_update_attempt-IsWithin broken checksum now (holds s) h =
    reserve_in-IsWithin broken (to_lower checksum) now (holds s) s h h
