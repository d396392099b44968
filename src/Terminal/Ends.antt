-- ===== src/Terminal/Ends.antt =====
-- Where a mark ends: at the first BEL or `ESC \`.
use gosshd_bastion.Base.{
  ℕ, suc, ◌+◌, Bool, true, false, [], ◌∷◌, ◌++◌, Option, none, some, ltb, leb, ◌==◌, length, take,
  drop, ◌≡◌, refl, sym, ap, ap₂, ◌∙◌, arith, Option-cases, inl, inr, length-append, append_assoc,
  take-append, drop-append_exact,
}
use gosshd_bastion.Base.Bytes.{Bytes, has_prefix}
use gosshd_bastion.Terminal.Integration.{
  escape, bell, intro, terminator, index_of, osc_sequence_end, earlier_end, open_mark, whole_mark,
  mark_between,
}

-- Neither BEL nor `ESC \` stands in a text.
abbrev pub IsOpen : Bytes → Type 0
IsOpen [] = Unit
IsOpen (y ∷ s) = ((bell == y) ≡ false) × (has_prefix terminator (y ∷ s) ≡ false) × IsOpen s

index_of-open_bell : (r : Bytes) → IsOpen r → index_of (bell ∷ []) r ≡ none
unfolding index_of has_prefix
index_of-open_bell [] h = refl
index_of-open_bell (y ∷ s) (b, t, h) = rw (b, index_of-open_bell s h) refl

index_of-open_terminator : (r : Bytes) → IsOpen r → index_of terminator r ≡ none
unfolding index_of
index_of-open_terminator [] h = refl
index_of-open_terminator (y ∷ s) (b, t, h) = rw (t, index_of, index_of-open_terminator s h) refl

index_of-bell : (r s : Bytes) → IsOpen r → index_of (bell ∷ []) (r ++ bell ∷ s) ≡ some (length r)
unfolding index_of has_prefix
index_of-bell [] s h = refl
index_of-bell (y ∷ r) s (b, t, h) = rw (b, index_of-bell r s h) refl

-- A byte that does not end the text does not complete a terminator either.
pub has_prefix-terminator_append :
    (y c : ℕ) (r s : Bytes)
    → has_prefix terminator (y ∷ r) ≡ false
    → (c == 0x5C) ≡ false
    → has_prefix terminator (y ∷ r ++ c ∷ s) ≡ false
unfolding has_prefix
has_prefix-terminator_append y c [] s h n = ground arith
has_prefix-terminator_append y c (z ∷ r) s h n = ground arith

after_bell : Option ℕ → ℕ → Bool
after_bell none n = true
after_bell (some i) n = ltb n i

index_of-after_bell :
    (r s : Bytes) → IsOpen r → after_bell (index_of terminator (r ++ bell ∷ s)) (length r) ≡ true
unfolding index_of after_bell
index_of-after_bell [] s h = unfold has_prefix in ground arith
index_of-after_bell (y ∷ r) s (b, t, h) =
    let no_end = has_prefix-terminator_append y bell r s t refl in
    let later = index_of-after_bell r s h in
    elim (Option-cases (index_of terminator (r ++ bell ∷ s))) [
      | inl e ↦ rw (no_end, index_of, e) refl
      | inr (i, e) ↦ rw (no_end, index_of, e) (ground (arith, ap (λ o. after_bell o (length r)) e))
    ]

pub osc_sequence_end-open : (r : Bytes) → IsOpen r → osc_sequence_end r ≡ none
unfolding osc_sequence_end
osc_sequence_end-open r h = ap₂ earlier_end (index_of-open_bell r h) (index_of-open_terminator r h)

bell_first : (n : ℕ) (o : Option ℕ) → after_bell o n ≡ true → earlier_end (some n) o ≡ some (n, 1)
unfolding after_bell
bell_first n none h = refl
bell_first n (some st) h = ground arith

pub osc_sequence_end-bell :
    (r s : Bytes) → IsOpen r → osc_sequence_end (r ++ bell ∷ s) ≡ some (length r, 1)
unfolding osc_sequence_end
osc_sequence_end-bell r s h =
    ap (λ (o : Option ℕ). earlier_end o (index_of terminator (r ++ bell ∷ s))) (index_of-bell r s h)
    ∙ bell_first (length r) (index_of terminator (r ++ bell ∷ s)) (index_of-after_bell r s h)

index_of-terminator :
    (r s : Bytes) → IsOpen r → index_of terminator (r ++ escape ∷ 0x5C ∷ s) ≡ some (length r)
unfolding index_of
index_of-terminator [] s h = unfold has_prefix in refl
index_of-terminator (y ∷ r) s (b, t, h) =
    rw
      (
        has_prefix-terminator_append y escape r (0x5C ∷ s) t refl,
        index_of,
        index_of-terminator r s h,
      )
      refl

not_before : Option ℕ → ℕ → Bool
not_before none n = true
not_before (some i) n = leb n i

abbrev lifted : Option ℕ → Option ℕ
lifted none = none
lifted (some i) = some (suc i)

not_before-lifted :
    (o : Option ℕ) (n : ℕ) → not_before o n ≡ true → not_before (lifted o) (suc n) ≡ true
unfolding not_before
not_before-lifted none n h = refl
not_before-lifted (some i) n h = ground arith

join : (o : Option ℕ) → elim o [ none ↦ none | some i ↦ some (suc i) ] ≡ lifted o
join none = refl
join (some i) = refl

zero_first : (o : Option ℕ) → not_before o 0 ≡ true
unfolding not_before
zero_first none = refl
zero_first (some i) = ground arith

index_of-next :
    (pattern : Bytes) (y : ℕ) (s : Bytes)
    → has_prefix pattern (y ∷ s) ≡ false
    → index_of pattern (y ∷ s) ≡ lifted (index_of pattern s)
unfolding index_of
index_of-next pattern y s h = rw (h, index_of) (join (index_of pattern s))

index_of-not_before :
    (r s : Bytes)
    → IsOpen r
    → not_before (index_of (bell ∷ []) (r ++ escape ∷ 0x5C ∷ s)) (length r) ≡ true
unfolding not_before
index_of-not_before [] s h = zero_first (index_of (bell ∷ []) (escape ∷ 0x5C ∷ s))
index_of-not_before (y ∷ r) s (b, t, h) =
    let rest = r ++ escape ∷ 0x5C ∷ s in
    let no_bell : has_prefix (bell ∷ []) (y ∷ rest) ≡ false = unfold has_prefix in rw b refl in
    rw (index_of-next (bell ∷ []) y rest no_bell)
      (not_before-lifted (index_of (bell ∷ []) rest) (length r) (index_of-not_before r s h))

terminator_first :
    (n : ℕ) (o : Option ℕ) → not_before o n ≡ true → earlier_end o (some n) ≡ some (n, 2)
unfolding not_before
terminator_first n none h = refl
terminator_first n (some bel) h = ground arith

pub osc_sequence_end-terminator :
    (r s : Bytes) → IsOpen r → osc_sequence_end (r ++ escape ∷ 0x5C ∷ s) ≡ some (length r, 2)
unfolding osc_sequence_end
osc_sequence_end-terminator r s h =
    ap (λ (o : Option ℕ). earlier_end (index_of (bell ∷ []) (r ++ escape ∷ 0x5C ∷ s)) o)
      (index_of-terminator r s h)
    ∙ terminator_first (length r) (index_of (bell ∷ []) (r ++ escape ∷ 0x5C ∷ s))
        (index_of-not_before r s h)

mark_between-whole :
    (before r : Bytes) (end size : ℕ)
    → osc_sequence_end r ≡ some (end, size)
    → mark_between before r
      ≡ whole_mark before (drop (length intro) (take end r)) (drop (end + size) r)
unfolding mark_between
mark_between-whole before r end size e = rw (e, mark_between) refl

-- A mark whose payload has come whole, at the front of a text.
module _ (p s : Bytes) (open_still : IsOpen (intro ++ p)) where
  after_end :
      (end : Bytes) → drop (length (intro ++ p) + length end) ((intro ++ p) ++ (end ++ s)) ≡ s
  after_end end =
      ap (λ (t : Bytes). drop (length (intro ++ p) + length end) t)
        (sym (append_assoc (intro ++ p) end s))
      ∙ drop-append_exact (length (intro ++ p) + length end) ((intro ++ p) ++ end) s
          (length-append (intro ++ p) end)

  mark_between-end :
      (end : Bytes)
      → osc_sequence_end ((intro ++ p) ++ (end ++ s)) ≡ some (length (intro ++ p), length end)
      → mark_between [] ((intro ++ p) ++ (end ++ s)) ≡ whole_mark [] p s
  mark_between-end end e =
      mark_between-whole [] ((intro ++ p) ++ (end ++ s)) (length (intro ++ p)) (length end) e
      ∙ ap₂ (whole_mark [])
          (ap (λ (t : Bytes). drop (length intro) t) (take-append (intro ++ p) (end ++ s)))
          (after_end end)

  pub mark_between-bell : mark_between [] (intro ++ p ++ bell ∷ s) ≡ whole_mark [] p s
  mark_between-bell = mark_between-end (bell ∷ []) (osc_sequence_end-bell (intro ++ p) s open_still)

  pub mark_between-terminator :
      mark_between [] (intro ++ p ++ escape ∷ 0x5C ∷ s) ≡ whole_mark [] p s
  mark_between-terminator =
      mark_between-end terminator (osc_sequence_end-terminator (intro ++ p) s open_still)

pub mark_between-open : (r : Bytes) → IsOpen r → mark_between [] r ≡ open_mark [] r
unfolding mark_between
mark_between-open r h = rw (osc_sequence_end-open r h, mark_between) refl
