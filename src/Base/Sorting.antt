-- ===== src/Base/Sorting.antt =====
-- `sort.SliceStable` by falling size, and the first match in the sorted list: it is the longest match.
use Prim.Native.Nat.{ℕ, ◌≤◌}
use mathlib.Core.Path.{◌≡◌, refl, ◌∙◌, subst}
use mathlib.Core.Logic.{inl, inr}
use mathlib.Core.Bool.{Bool, ◌&&◌}
use mathlib.Core.Option.{Option, none, some}
use mathlib.Core.List.{List, [], ◌∷◌}
use native.Mathlib.Omega.{arith}
use gosshd_bastion.Base.Tests.{ltb, if◌then◌else◌, Bool-cases}
use gosshd_bastion.Base.Lists.{All}

module _ {ℓ} {A : Type ℓ} (matches : A → Bool) where
  unfoldable pub first_match : List A → Option A
  first_match [] = none
  first_match (x ∷ xs) = if matches x then some x else first_match xs

  -- The elements that match, in their order.
  unfoldable pub select : List A → List A
  select [] = []
  select (x ∷ xs) = let rest = select xs in if matches x then x ∷ rest else rest

module _ {ℓ} {A : Type ℓ} (size : A → ℕ) where
  -- In front of the first element that is no larger.
  unfoldable pub insert_by : A → List A → List A
  insert_by x [] = x ∷ []
  insert_by x (y ∷ ys) = if ltb (size x) (size y) then y ∷ insert_by x ys else x ∷ y ∷ ys

  unfoldable pub sort_by : List A → List A
  unfolding insert_by
  sort_by [] = []
  sort_by (x ∷ xs) = insert_by x (sort_by xs)

  -- The larger one; the first of two of the same size.
  abbrev pub larger : A → Option A → A
  larger x none = x
  larger x (some y) = if ltb (size x) (size y) then y else x

  module _ (matches : A → Bool) where
    -- The largest match; of several, the first.
    unfoldable pub largest_match : List A → Option A
    largest_match [] = none
    largest_match (x ∷ xs) =
        if matches x then some (larger x (largest_match xs)) else largest_match xs

  abbrev IsBelow : ℕ → List A → Type 0
  IsBelow n = All (λ y. size y ≤ n)

  -- Sizes fall.
  abbrev IsFalling : List A → Type 0
  IsFalling [] = Unit
  IsFalling (x ∷ xs) = IsBelow (size x) xs × IsFalling xs

  IsBelow-insert_by :
      (n : ℕ) (x : A) (ys : List A) → size x ≤ n → IsBelow n ys → IsBelow n (insert_by x ys)
  unfolding insert_by
  IsBelow-insert_by n x [] hx h = (hx, tt)
  IsBelow-insert_by n x (y ∷ ys) hx (hy, hs) = elim (Bool-cases (ltb (size x) (size y))) [
    | inl e ↦ rw (e, insert_by) (hy, IsBelow-insert_by n x ys hx hs)
    | inr e ↦ rw (e, insert_by) (hx, (hy, hs))
  ]

  IsBelow-trans : (m n : ℕ) (ys : List A) → m ≤ n → IsBelow m ys → IsBelow n ys
  IsBelow-trans m n [] h b = tt
  IsBelow-trans m n (y ∷ ys) h (hy, hs) = (omega arith, IsBelow-trans m n ys h hs)

  insert_by-IsFalling : (x : A) (ys : List A) → IsFalling ys → IsFalling (insert_by x ys)
  unfolding insert_by
  insert_by-IsFalling x [] h = (tt, tt)
  insert_by-IsFalling x (y ∷ ys) (hy, hs) = elim (Bool-cases (ltb (size x) (size y))) [
    | inl e ↦
        rw (e, insert_by)
          (IsBelow-insert_by (size y) x ys (ground arith) hy, insert_by-IsFalling x ys hs)
    | inr e ↦
        let le : size y ≤ size x = ground arith in
        rw (e, insert_by) ((le, IsBelow-trans (size y) (size x) ys le hy), (hy, hs))
  ]

  sort_by-IsFalling : (xs : List A) → IsFalling (sort_by xs)
  unfolding sort_by
  sort_by-IsFalling [] = tt
  sort_by-IsFalling (x ∷ xs) = insert_by-IsFalling x (sort_by xs) (sort_by-IsFalling xs)

  module _ (matches : A → Bool) where
    first_match-IsBelow :
        (n : ℕ) (ys : List A) (y : A) → IsBelow n ys → first_match matches ys ≡ some y → size y ≤ n
    unfolding first_match
    first_match-IsBelow n [] y h e = absurd (cc)
    first_match-IsBelow n (x ∷ xs) y (hx, hs) e = elim (Bool-cases (matches x)) [
      | inl m ↦ let same : x ≡ y = ground arith in subst (λ z. size z ≤ n) same hx
      | inr m ↦ first_match-IsBelow n xs y hs (rw m at e)
    ]

    larger-below :
        (x : A) (o : Option A) → ((y : A) → o ≡ some y → size y ≤ size x) → larger x o ≡ x
    larger-below x none h = refl
    larger-below x (some y) h = let le = h y refl in ground arith

    first_match-insert_by :
        (x : A) (ys : List A)
        → IsFalling ys
        → first_match matches (insert_by x ys)
          ≡ (if matches x then some (larger x (first_match matches ys)) else first_match matches ys)
    unfolding insert_by first_match
    first_match-insert_by x [] h = refl
    first_match-insert_by x (y ∷ ys) (hy, hs) = elim (Bool-cases (ltb (size x) (size y))) [
      | inl e ↦ ground (arith, first_match-insert_by x ys hs)
      | inr e ↦
          let le : size y ≤ size x = ground arith in
          let below : IsBelow (size x) (y ∷ ys) = (le, IsBelow-trans (size y) (size x) ys le hy) in
          let keep =
            larger-below x (first_match matches (y ∷ ys))
              (λ z. first_match-IsBelow (size x) (y ∷ ys) z below) in
          ground (arith, keep)
    ]

    -- The first match in the sorted list is the largest match in the list.
    pub first_match-sort_by :
        (xs : List A) → first_match matches (sort_by xs) ≡ largest_match matches xs
    unfolding sort_by first_match largest_match
    first_match-sort_by [] = refl
    first_match-sort_by (x ∷ xs) =
        first_match-insert_by x (sort_by xs) (sort_by-IsFalling xs) ∙ rw (first_match-sort_by xs)

    -- Of the elements that are selected first.
    pub largest_match-select :
        (wanted : A → Bool) (xs : List A)
        → largest_match matches (select wanted xs) ≡ largest_match (λ x. wanted x && matches x) xs
    unfolding select largest_match
    largest_match-select wanted [] = refl
    largest_match-select wanted (x ∷ xs) = ground (arith, largest_match-select wanted xs)
