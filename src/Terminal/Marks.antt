-- ===== src/Terminal/Marks.antt =====
-- Where marks begin and end in a text that goes on.
use gosshd_bastion.Base.{
  ℕ, zero, suc, ◌+◌, ◌≤◌, ◌<◌, [], ◌∷◌, Option, none, some, length, drop, ◌≡◌, refl, ◌∙◌, arith,
  Option-cases, inl, inr, ◌⊎◌, length-drop,
}
use gosshd_bastion.Base.Bytes.{Bytes}
use gosshd_bastion.Terminal.Integration.{
  bell, intro, terminator, index_of, osc_sequence_end, earlier_end, Consumed, held_back,
  without_mark, unfinished, Mark, no_mark, open_mark, whole_mark, first_mark, with_mark,
  consume_loop,
}

length-drop_lt : (n : ℕ) (s : Bytes) → 1 ≤ n → 1 ≤ length s → length (drop n s) < length s
length-drop_lt n s h k = omega (arith, length-drop n s)

earlier_end-size :
    (bel st : Option ℕ) (end size : ℕ) → earlier_end bel st ≡ some (end, size) → 1 ≤ size
earlier_end-size none none end size h = absurd (cc)
earlier_end-size none (some st) end size h = ground arith
earlier_end-size (some bel) none end size h = ground arith
earlier_end-size (some bel) (some st) end size h = ground arith

osc_sequence_end-size :
    (s : Bytes) (end size : ℕ) → osc_sequence_end s ≡ some (end, size) → 1 ≤ size
unfolding osc_sequence_end
osc_sequence_end-size s end size h =
    earlier_end-size (index_of (bell ∷ []) s) (index_of terminator s) end size h

-- What follows a mark is shorter.
first_mark-shorter :
    (c : ℕ) (s before payload after : Bytes)
    → first_mark (c ∷ s) ≡ whole_mark before payload after
    → length after < length (c ∷ s)
unfolding first_mark
first_mark-shorter c s before payload after h = elim (Option-cases (index_of intro (c ∷ s))) [
  | inl none_found ↦ absurd (cc)
  | inr (start, found) ↦
      let remaining = drop start (c ∷ s) in
      elim (Option-cases (osc_sequence_end remaining)) [
        | inl endless ↦ absurd (cc)
        | inr ((end, size), ended) ↦
            let long = osc_sequence_end-size remaining end size ended in
            let same : drop (end + size) remaining ≡ after = cc in
            rw (← same)
              (omega (arith, length-drop (end + size) remaining, length-drop start (c ∷ s)))
      ]
]

pub Mark-cases :
    (m : Mark)
    → (m ≡ no_mark)
      ⊎ ((before : Bytes) × (remaining : Bytes) × (m ≡ open_mark before remaining))
      ⊎ ((before : Bytes) × (payload : Bytes) × (after : Bytes) × (m
            ≡ whole_mark before payload after))
Mark-cases no_mark = inl refl
Mark-cases (open_mark before remaining) = inr (inl (before, remaining, refl))
Mark-cases (whole_mark before payload after) = inr (inr (before, payload, after, refl))

-- The fuel does not matter as long as it is more than the length.
consume_loop-fuel :
    (f g : ℕ) (s : Bytes) → length s < f → length s < g → consume_loop f s ≡ consume_loop g s
unfolding consume_loop
consume_loop-fuel zero g s h k = absurd (omega arith)
consume_loop-fuel (suc f) zero s h k = absurd (omega arith)
consume_loop-fuel (suc f) (suc g) [] h k = refl
consume_loop-fuel (suc f) (suc g) (c ∷ s) h k = elim (Mark-cases (first_mark (c ∷ s))) [
  | inl e ↦ ground (arith, e)
  | inr (inl (before, remaining, e)) ↦ ground (arith, e)
  | inr (inr (before, payload, after, e)) ↦
      let short = first_mark-shorter c s before payload after e in
      let rest = consume_loop-fuel f g after (omega arith) (omega arith) in ground (arith, e, rest)
]

-- Whole inputs.
abbrev pub consume_all : Bytes → Consumed
consume_all s = consume_loop (length s + 1) s

enough : (f : ℕ) (s : Bytes) → length s < f → consume_loop f s ≡ consume_all s
enough f s h = consume_loop-fuel f (length s + 1) s h (omega arith)

abbrev pub after_mark : Bytes → Mark → Consumed
after_mark s no_mark = without_mark s
after_mark s (open_mark before remaining) = unfinished before remaining
after_mark s (whole_mark before payload after) = with_mark before payload (consume_all after)

consume_loop-whole :
    (f c : ℕ) (s before payload after : Bytes)
    → length s < f
    → first_mark (c ∷ s) ≡ whole_mark before payload after
    → consume_loop (suc f) (c ∷ s) ≡ with_mark before payload (consume_all after)
unfolding consume_loop
consume_loop-whole f c s before payload after h e =
    let short = first_mark-shorter c s before payload after e in
    let rest = enough f after (omega arith) in ground (arith, e, rest)

consume_loop-one :
    (f c : ℕ) (s : Bytes)
    → length s < f
    → consume_loop (suc f) (c ∷ s) ≡ after_mark (c ∷ s) (first_mark (c ∷ s))
consume_loop-one f c s h = elim (Mark-cases (first_mark (c ∷ s))) [
  | inl e ↦ rw e (unfold consume_loop in ground (arith, e))
  | inr (inl (before, remaining, e)) ↦ rw e (unfold consume_loop in ground (arith, e))
  | inr (inr (before, payload, after, e)) ↦ rw e (consume_loop-whole f c s before payload after h e)
]

-- The loop as an equation without fuel.
pub consume_all-eq : (s : Bytes) → consume_all s ≡ after_mark s (first_mark s)
consume_all-eq [] = unfold consume_loop first_mark index_of held_back in refl
consume_all-eq (c ∷ s) =
    consume_loop-fuel (length (c ∷ s) + 1) (suc (length s + 1)) (c ∷ s) (omega arith) (omega arith)
    ∙ consume_loop-one (length s + 1) c s (omega arith)
