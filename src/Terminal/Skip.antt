-- ===== src/Terminal/Skip.antt =====
-- A byte that begins no mark goes to the clean text.
use gosshd_bastion.Base.{
  ℕ, zero, suc, ◌-◌, ◌≤◌, true, false, [], ◌∷◌, ◌++◌, Option, none, some, length, take, drop, ◌≡◌,
  refl, sym, ap, ◌∙◌, subst, arith, Bool-cases, Option-cases, inl, inr, length-take,
}
use gosshd_bastion.Base.Bytes.{Bytes, bytes_eq, bytes_eq_iff, has_prefix}
use gosshd_bastion.Base.Texts.{has_suffix}
use gosshd_bastion.Terminal.Integration.{
  intro, index_of, osc_sequence_end, Consumed, held_back, without_mark, Mark, no_mark, open_mark,
  whole_mark, first_mark, mark_between,
}
use gosshd_bastion.Terminal.Marks.{consume_all, consume_all-eq, after_mark}

-- Clean text in front.
abbrev pub prepend : Bytes → Consumed → Consumed
prepend text r = record { buffer = r.buffer; clean = text ++ r.clean; events = r.events }

abbrev shift : ℕ → Mark → Mark
shift y no_mark = no_mark
shift y (open_mark before remaining) = open_mark (y ∷ before) remaining
shift y (whole_mark before payload after) = whole_mark (y ∷ before) payload after

length-suffix : (p s : Bytes) → has_suffix p s ≡ true → length p ≤ length s
unfolding has_suffix
length-suffix p [] h = let same = (bytes_eq_iff p []).0 h in rw same (omega arith)
length-suffix p (c ∷ s) h = elim (Bool-cases (bytes_eq p (c ∷ s))) [
  | inl e ↦ rw ((bytes_eq_iff p (c ∷ s)).0 e) (omega arith)
  | inr e ↦ let shorter = length-suffix p s (ground arith) in omega arith
]

held_back_le : (n : ℕ) (s : Bytes) → n ≤ 6 → held_back n s ≤ length s
unfolding held_back
held_back_le zero s h = omega arith
held_back_le (suc n) s h = elim (Bool-cases (has_suffix (take (suc n) intro) s)) [
  | inl e ↦
      rw (e, held_back)
        (omega (arith, length-suffix (take (suc n) intro) s e, length-take (suc n) intro))
  | inr e ↦ rw (e, held_back) (held_back_le n s (omega arith))
]

pub first_mark-none : (s : Bytes) → index_of intro s ≡ none → first_mark s ≡ no_mark
unfolding first_mark
first_mark-none s e = ground (arith, e)

pub first_mark-some :
    (s : Bytes) (i : ℕ)
    → index_of intro s ≡ some i
    → first_mark s ≡ mark_between (take i s) (drop i s)
unfolding first_mark
first_mark-some s i e = ground (arith, e)

mark_between-shift :
    (y : ℕ) (before remaining : Bytes)
    → mark_between (y ∷ before) remaining ≡ shift y (mark_between before remaining)
unfolding mark_between
mark_between-shift y before remaining = elim (Option-cases (osc_sequence_end remaining)) [
  | inl e ↦ rw (e, mark_between) refl
  | inr ((end, size), e) ↦ rw (e, mark_between) refl
]

module _ (y : ℕ) (t : Bytes) (part : has_prefix (y ∷ t) intro ≡ false) where
  -- The whole text is no beginning of a mark.
  other_text : (p : Bytes) → has_prefix p intro ≡ true → has_suffix p (y ∷ t) ≡ has_suffix p t
  unfolding has_suffix
  other_text p h = elim (Bool-cases (bytes_eq p (y ∷ t))) [
    | inl e ↦
        let same = (bytes_eq_iff p (y ∷ t)).0 e in
        let whole : has_prefix (y ∷ t) intro ≡ true =
          subst (λ (q : Bytes). has_prefix q intro ≡ true) same h in
        absurd (cc)
    | inr e ↦ rw (e, has_suffix)
  ]

  held_back-cons : held_back 5 (y ∷ t) ≡ held_back 5 t
  unfolding held_back has_prefix
  held_back-cons =
      rw
        (
          other_text (take 1 intro) refl,
          other_text (take 2 intro) refl,
          other_text (take 3 intro) refl,
          other_text (take 4 intro) refl,
          other_text (take 5 intro) refl,
        )
        refl

  without_mark-cons : without_mark (y ∷ t) ≡ prepend (y ∷ []) (without_mark t)
  without_mark-cons =
      let le = held_back_le 5 t (omega arith) in
      let at : length (y ∷ t) - held_back 5 (y ∷ t) ≡ suc (length t - held_back 5 t) =
        omega (arith, held_back-cons) in
      rw at refl

  module _ (other : has_prefix intro (y ∷ t) ≡ false) where
    index_of-cons :
        (o : Option ℕ)
        → index_of intro t ≡ o
        → index_of intro (y ∷ t) ≡ elim o [ none ↦ none | some i ↦ some (suc i) ]
    unfolding index_of
    index_of-cons o e = rw (other, index_of, e) refl

    first_mark-cons : first_mark (y ∷ t) ≡ shift y (first_mark t)
    first_mark-cons = elim (Option-cases (index_of intro t)) [
      | inl e ↦
          first_mark-none (y ∷ t) (index_of-cons none e) ∙ ap (shift y) (sym (first_mark-none t e))
      | inr (i, e) ↦
          first_mark-some (y ∷ t) (suc i) (index_of-cons (some i) e)
          ∙ mark_between-shift y (take i t) (drop i t)
          ∙ ap (shift y) (sym (first_mark-some t i e))
    ]

    after_mark-cons :
        (m : Mark) → after_mark (y ∷ t) (shift y m) ≡ prepend (y ∷ []) (after_mark t m)
    after_mark-cons no_mark = without_mark-cons
    after_mark-cons (open_mark before remaining) = ground arith
    after_mark-cons (whole_mark before payload after) = refl

    pub skip : consume_all (y ∷ t) ≡ prepend (y ∷ []) (consume_all t)
    skip =
        consume_all-eq (y ∷ t)
        ∙ ap (after_mark (y ∷ t)) first_mark-cons
        ∙ after_mark-cons (first_mark t)
        ∙ ap (prepend (y ∷ [])) (sym (consume_all-eq t))
