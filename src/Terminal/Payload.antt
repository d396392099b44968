-- ===== src/Terminal/Payload.antt =====
-- A byte behind the beginning of a mark: it ends the mark, or the mark is still open.
use gosshd_bastion.Base.{
  ℕ, false, [], ◌∷◌, ◌++◌, none, some, ◌==◌, ==_iff, ◌≡◌, refl, ap, ◌∙◌, subst, arith, Bool-cases,
  Option-cases, inl, inr, ◌⊎◌, append_assoc,
}
use gosshd_bastion.Base.Bytes.{Bytes, has_prefix}
use gosshd_bastion.Terminal.Integration.{
  escape, bell, intro, index_of, whole_mark, first_mark, mark_between, with_mark,
}
use gosshd_bastion.Terminal.Marks.{consume_all, consume_all-eq, after_mark}
use gosshd_bastion.Terminal.Skip.{first_mark-some}
use gosshd_bastion.Terminal.Ends.{IsOpen}
use gosshd_bastion.Terminal.Feed.{before_escape}

pub IsOpen-front : (r t : Bytes) → IsOpen (r ++ t) → IsOpen r
unfolding has_prefix
IsOpen-front [] t h = tt
IsOpen-front (y ∷ []) t (b, e, h) = (b, ground arith, tt)
IsOpen-front (y ∷ z ∷ r) t (b, e, h) = (b, ground arith, IsOpen-front (z ∷ r) t h)

pub before_escape-some : (p q : Bytes) → before_escape p ≡ some q → p ≡ q ++ escape ∷ []
unfolding before_escape
before_escape-some [] q h = absurd (cc)
before_escape-some (y ∷ []) q h = elim (Bool-cases (y == escape)) [
  | inl e ↦
      let same : ◌≡◌ {A = Bytes} [] q = ground arith in rw ((==_iff y escape).0 e, ← same) refl
  | inr e ↦ absurd (ground arith)
]
before_escape-some (y ∷ z ∷ s) q h = elim (Option-cases (before_escape (z ∷ s))) [
  | inl e ↦ absurd (ground arith)
  | inr (q', e) ↦
      let same : y ∷ q' ≡ q = ground arith in
      ap (λ (t : Bytes). y ∷ t) (before_escape-some (z ∷ s) q' e)
      ∙ ap (λ (t : Bytes). t ++ escape ∷ []) same
]

before_escape-tail :
    (y z : ℕ) (s : Bytes) → before_escape (y ∷ z ∷ s) ≡ none → before_escape (z ∷ s) ≡ none
unfolding before_escape
before_escape-tail y z s h = elim (Option-cases (before_escape (z ∷ s))) [
  | inl e ↦ e
  | inr (q, e) ↦ absurd (ground arith)
]

-- The byte does not end the text either.
IsOpen-snoc :
    (x : ℕ) (r : Bytes)
    → IsOpen r
    → (bell == x) ≡ false
    → ((x == 0x5C) ≡ false) ⊎ (before_escape r ≡ none)
    → IsOpen (r ++ x ∷ [])
unfolding has_prefix
IsOpen-snoc x [] h b c = (b, ground arith, tt)
IsOpen-snoc x (y ∷ []) (by, ey, h) b (inl c) = (by, ground arith, (b, ground arith, tt))
IsOpen-snoc x (y ∷ []) (by, ey, h) b (inr c) =
    (by, unfold before_escape in ground arith, (b, ground arith, tt))
IsOpen-snoc x (y ∷ z ∷ r) (by, ey, h) b (inl c) =
    (by, ground arith, IsOpen-snoc x (z ∷ r) h b (inl c))
IsOpen-snoc x (y ∷ z ∷ r) (by, ey, h) b (inr c) =
    (by, ground arith, IsOpen-snoc x (z ∷ r) h b (inr (before_escape-tail y z r c)))

before_escape-cons :
    (y z : ℕ) (s : Bytes) → before_escape (z ∷ s) ≡ none → before_escape (y ∷ z ∷ s) ≡ none
unfolding before_escape
before_escape-cons y z s h = ground arith

before_escape-intro : (p : Bytes) → before_escape p ≡ none → before_escape (intro ++ p) ≡ none
before_escape-intro [] h = unfold before_escape in refl
before_escape-intro (y ∷ p) h = before_escape-cons escape b']' (b'6' ∷ b'3' ∷ b'3' ∷ b';' ∷ y ∷ p) (
    before_escape-cons b']' b'6' (b'3' ∷ b'3' ∷ b';' ∷ y ∷ p) (
      before_escape-cons b'6' b'3' (b'3' ∷ b';' ∷ y ∷ p) (
        before_escape-cons b'3' b'3' (b';' ∷ y ∷ p)
          (before_escape-cons b'3' b';' (y ∷ p) (before_escape-cons b';' y p h)))))

pub IsOpen-payload :
    (x : ℕ) (p : Bytes)
    → IsOpen (intro ++ p)
    → (bell == x) ≡ false
    → ((x == 0x5C) ≡ false) ⊎ (before_escape p ≡ none)
    → IsOpen (intro ++ (p ++ x ∷ []))
IsOpen-payload x p h b (inl c) =
    subst IsOpen (append_assoc intro p (x ∷ [])) (IsOpen-snoc x (intro ++ p) h b (inl c))
IsOpen-payload x p h b (inr c) =
    subst IsOpen (append_assoc intro p (x ∷ []))
      (IsOpen-snoc x (intro ++ p) h b (inr (before_escape-intro p c)))

-- A text that begins as a mark does.
pub first_mark-intro : (t : Bytes) → first_mark (intro ++ t) ≡ mark_between [] (intro ++ t)
first_mark-intro t = unfold index_of has_prefix in first_mark-some (intro ++ t) 0 refl

pub consume_all-ended :
    (p t s : Bytes)
    → mark_between [] (intro ++ t) ≡ whole_mark [] p s
    → consume_all (intro ++ t) ≡ with_mark [] p (consume_all s)
consume_all-ended p t s e =
    consume_all-eq (intro ++ t) ∙ ap (after_mark (intro ++ t)) (first_mark-intro t ∙ e)
