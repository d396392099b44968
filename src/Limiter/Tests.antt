-- ===== src/Limiter/Tests.antt =====
-- Runs of the limiter, and the theorem at one of them.
use gosshd_bastion.Base.{ℕ, Bool, false, List, [], ◌∷◌, ◌≡◌, refl, arith}
use gosshd_bastion.Base.Bytes.{Bytes, codes}
use gosshd_bastion.Limiter.{Attempts, times_of, allow_auth_attempt}
use gosshd_bastion.Limiter.Window.{granted, IsLimited, granted-IsLimited}

abbrev calls : List (Bytes × ℕ)
calls =
    (codes "a", 100)
    ∷ (codes "b", 101)
    ∷ (codes "a", 105)
    ∷ (codes "a", 108)
    ∷ (codes "a", 111)
    ∷ []

-- The third attempt under `a` is one too many; at the fourth, the first is out of the window.
two_in_ten : granted 2 10 (codes "a") calls [] [] ≡ 111 ∷ 105 ∷ 100 ∷ []
unfolding granted
two_in_ten = refl

granted-IsLimited_example : IsLimited 2 10 (granted 2 10 (codes "a") calls [] [])
unfolding times_of
granted-IsLimited_example =
    granted-IsLimited 2 10 (codes "a") calls 100 [] [] (omega arith) (λ now h. refl) tt

abbrev second_try : Attempts × Bool
second_try = allow_auth_attempt 1 10 [] (codes " Bob") 3 []

other_address_refused :
    (allow_auth_attempt 1 10 (codes "1.2.3.4") (codes "bob") 5 second_try.0).1 ≡ false
unfolding allow_auth_attempt
other_address_refused = refl
