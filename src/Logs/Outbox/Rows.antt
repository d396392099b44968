-- ===== src/Logs/Outbox/Rows.antt =====
-- The rows of a log in the order of their numbers, and what a page of the unacknowledged ones covers.
use gosshd_bastion.Base.{
  ℕ, ◌≤◌, ◌<◌, true, false, List, [], ◌∷◌, ◌++◌, ltb, ◌≡◌, refl, subst, arith, Bool-cases, ◌⊎◌, inl,
  inr, All, All-append, take, drop, take-append-drop, max, ltb→lt, ltb→le, suc, zero,
}
use gosshd_bastion.Base.Bytes.{bytes_eq_iff}
use gosshd_bastion.Logs.Writer.{has_id}
use gosshd_bastion.Logs.Insert.{All-split}
use gosshd_bastion.Logs.Outbox.{Row, unacked, highest}

-- Numbers fall, and are less than `n`.
abbrev pub AreBelow : ℕ → List Row → Type 0
AreBelow n [] = Unit
AreBelow n (row ∷ rows) = (row.0 < n) × AreBelow row.0 rows

-- Numbers rise, and are more than `m`.
abbrev AreAbove : ℕ → List Row → Type 0
AreAbove m [] = Unit
AreAbove m (row ∷ rows) = (m < row.0) × AreAbove row.0 rows

pub AreBelow-le : (n k : ℕ) (rows : List Row) → n ≤ k → AreBelow n rows → AreBelow k rows
AreBelow-le n k [] le h = tt
AreBelow-le n k (row ∷ rows) le (lt, h) = (omega arith, h)

pub All-map {ℓ} :
    {A : Type ℓ} (P Q : A → Type 0) (xs : List A) → ((x : A) → P x → Q x) → All P xs → All Q xs
All-map P Q [] f h = tt
All-map P Q (x ∷ xs) f (hx, h) = (f x hx, All-map P Q xs f h)

pub AreBelow-All : (n : ℕ) (rows : List Row) → AreBelow n rows → All (λ row. row.0 < n) rows
AreBelow-All n [] h = tt
AreBelow-All n (row ∷ rows) (lt, h) =
    (lt, AreBelow-All n rows (AreBelow-le row.0 n rows (omega arith) h))

AreAbove-le : (m k : ℕ) (rows : List Row) → k ≤ m → AreAbove m rows → AreAbove k rows
AreAbove-le m k [] le h = tt
AreAbove-le m k (row ∷ rows) le (lt, h) = (omega arith, h)

AreAbove-All : (m : ℕ) (rows : List Row) → AreAbove m rows → All (λ row. m < row.0) rows
AreAbove-All m [] h = tt
AreAbove-All m (row ∷ rows) (lt, h) =
    (lt, AreAbove-All m rows (AreAbove-le row.0 m rows (omega arith) h))

AreAbove-snoc :
    (m : ℕ) (rows : List Row) (row : Row)
    → AreAbove m rows
    → All (λ r. r.0 < row.0) rows
    → m < row.0
    → AreAbove m (rows ++ row ∷ [])
AreAbove-snoc m [] row h below lt = (lt, tt)
AreAbove-snoc m (r ∷ rows) row (above, h) (last, below) lt =
    (above, AreAbove-snoc r.0 rows row h below last)

pub unacked-All :
    (P : Row → Type 0) (ack : ℕ) (rows : List Row) → All P rows → All P (unacked ack rows)
unfolding unacked
unacked-All P ack [] h = tt
unacked-All P ack (row ∷ rows) (hr, h) = elim (Bool-cases (ltb ack row.0)) [
  | inl new ↦
      rw new (All-append P (unacked ack rows) (row ∷ []) (unacked-All P ack rows h) (hr, tt))
  | inr old ↦ rw old (unacked-All P ack rows h)
]

unacked-AreAbove : (ack n : ℕ) (rows : List Row) → AreBelow n rows → AreAbove ack (unacked ack rows)
unfolding unacked
unacked-AreAbove ack n [] h = tt
unacked-AreAbove ack n (row ∷ rows) (lt, h) = elim (Bool-cases (ltb ack row.0)) [
  | inl new ↦ rw new (
      AreAbove-snoc ack (unacked ack rows) row (unacked-AreAbove ack row.0 rows h)
        (unacked-All (λ r. r.0 < row.0) ack rows (AreBelow-All row.0 rows h))
        (ltb→lt ack row.0 new))
  | inr old ↦ rw old (unacked-AreAbove ack row.0 rows h)
]

unacked-new :
    (ack : ℕ) (row : Row) (rows : List Row)
    → ltb ack row.0 ≡ true
    → unacked ack (row ∷ rows) ≡ unacked ack rows ++ row ∷ []
unfolding unacked
unacked-new ack row rows h = rw h refl

unacked-old :
    (ack : ℕ) (row : Row) (rows : List Row)
    → ltb ack row.0 ≡ false
    → unacked ack (row ∷ rows) ≡ unacked ack rows
unfolding unacked
unacked-old ack row rows h = rw h refl

-- A row is acknowledged or among those that are not.
unacked-covers :
    (P : Row → Type 0) (ack : ℕ) (rows : List Row)
    → All P (unacked ack rows)
    → All (λ row. (row.0 ≤ ack) ⊎ P row) rows
unacked-covers P ack [] h = tt
unacked-covers P ack (row ∷ rows) h = elim (Bool-cases (ltb ack row.0)) [
  | inl new ↦
      let (older, (own, _)) =
        All-split P (unacked ack rows) (row ∷ [])
          (subst (All P) (unacked-new ack row rows new) h) in
      (inr own, unacked-covers P ack rows older)
  | inr old ↦ (
    inl (ltb→le ack row.0 old),
    unacked-covers P ack rows (subst (All P) (unacked-old ack row rows old) h),
  )
]

-- Behind a page, numbers are higher than all of the page.
drop-highest :
    (m n : ℕ) (rows : List Row)
    → AreAbove m rows
    → All (λ row. max m (highest (take n rows)) < row.0) (drop n rows)
unfolding highest
drop-highest m zero rows h = All-map _ _ rows (λ r lt. ground (arith, lt)) (AreAbove-All m rows h)
drop-highest m (suc n) [] h = tt
drop-highest m (suc n) (row ∷ rows) (lt, h) =
    All-map _ _ (drop n rows) (λ r above. ground (arith, above, lt)) (drop-highest row.0 n rows h)

has_id-all : (rows : List Row) → All (λ row. has_id row.1.id rows ≡ true) rows
unfolding has_id
has_id-all [] = tt
has_id-all (row ∷ rows) = (
  ground (arith, bytes_eq_iff row.1.id row.1.id),
  All-map (λ r. has_id r.1.id rows ≡ true) _ rows (λ r h. ground (arith, h)) (has_id-all rows),
)

-- A page covers: a row that is not on it is acknowledged or behind the page.
pub page-covers :
    (ack limit n : ℕ) (rows : List Row)
    → AreBelow n rows
    → let page = take limit (unacked ack rows) in
      All (λ row. (row.0 ≤ ack) ⊎ ((highest page < row.0) ⊎ (has_id row.1.id page ≡ true))) rows
page-covers ack limit n rows h =
    let queue = unacked ack rows in
    let page = take limit queue in
    let Covers = λ (row : Row). (highest page < row.0) ⊎ (has_id row.1.id page ≡ true) in
    unacked-covers Covers ack rows (
      subst (All Covers) (take-append-drop limit queue) (
        All-append Covers page (drop limit queue)
          (All-map (λ row. has_id row.1.id page ≡ true) Covers page (λ row here. inr here)
            (has_id-all page))
          (All-map _ Covers (drop limit queue) (λ row behind. inl (ground (arith, behind)))
            (drop-highest ack limit queue (unacked-AreAbove ack n rows h)))))

pub highest-lt : (n : ℕ) (rows : List Row) → All (λ row. row.0 ≤ n) rows → highest rows ≤ n
unfolding highest
highest-lt n [] h = omega arith
highest-lt n (row ∷ rows) (le, h) = ground (arith, highest-lt n rows h)
