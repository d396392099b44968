-- ===== src/Update/Tests.antt =====
-- Runs of the budget, and the theorems at a file with one attempt.
use gosshd_bastion.Base.{ℕ, ◌+◌, ◌*◌, List, [], ◌∷◌, some, true, ◌≡◌, refl, arith}
use gosshd_bastion.Base.Bytes.{Bytes, codes, bytes_eq, to_lower}
use gosshd_bastion.Update.{
  File, missing, holds, count_of, count_more, total_attempts, current_window, reserve_in,
  reserve_update_attempt, update_retry_interval,
}
use gosshd_bastion.Update.Budget.{IsWithin, reserve_update_attempt-IsWithin}
use gosshd_bastion.Update.Spacing.{granted_times, IsSpaced, last_of, granted_times-IsSpaced}

abbrev one_attempt : File
one_attempt =
    holds
      (record { window_started = some 5; last_attempt = some 5; attempts = (codes "ab", 1) ∷ [] })

abbrev calls : List (Bytes × ℕ)
calls =
    (codes "AB", 5 + update_retry_interval)
    ∷ (codes "cd", 6 + update_retry_interval)
    ∷ (codes "ab", 5 + 2 * update_retry_interval)
    ∷ (codes "ab", 5 + 3 * update_retry_interval)
    ∷ []

two_granted :
    granted_times one_attempt calls
    ≡ (5 + update_retry_interval) ∷ (5 + 2 * update_retry_interval) ∷ []
unfolding granted_times reserve_update_attempt reserve_in current_window count_of count_more
    total_attempts to_lower bytes_eq
two_granted = refl

granted_times-IsSpaced_example : IsSpaced (last_of one_attempt) (granted_times one_attempt calls)
granted_times-IsSpaced_example = granted_times-IsSpaced one_attempt calls

reserve_update_attempt-IsWithin_example :
    IsWithin
      (reserve_update_attempt true missing (codes "ab") (5 + update_retry_interval) one_attempt).0
unfolding total_attempts
reserve_update_attempt-IsWithin_example =
    reserve_update_attempt-IsWithin missing (codes "ab") (5 + update_retry_interval) one_attempt
      ((omega arith, tt), omega arith)
