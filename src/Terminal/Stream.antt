-- ===== src/Terminal/Stream.antt =====
-- The code, which is given the output in chunks and searches each for whole marks, does what the
-- reference does byte by byte.
use gosshd_bastion.Base.{
  ℕ, true, false, [], ◌∷◌, ◌++◌, none, some, ltb, ◌==◌, ==_iff, length, ◌≡◌, refl, sym, ap, ap₂,
  ◌∙◌, subst, Bool-cases, Option-cases, inl, inr, ◌⊎◌, append_assoc, append-nil,
}
use gosshd_bastion.Base.Bytes.{Bytes, has_prefix, bytes_eq}
use gosshd_bastion.Base.Texts.{has_suffix}
use gosshd_bastion.Terminal.Integration.{
  escape, bell, intro, index_of, held_back, Consumed, unfinished, first_mark, with_mark, event_list,
  parse_event, buffer_limit, consume,
}
use gosshd_bastion.Terminal.Marks.{consume_all, consume_all-eq, after_mark}
use gosshd_bastion.Terminal.Skip.{prepend}
use gosshd_bastion.Terminal.Ends.{
  IsOpen, mark_between-bell, mark_between-terminator, mark_between-open,
}
use gosshd_bastion.Terminal.Feed.{
  Held, matched0, matched1, matched2, matched3, matched4, matched5, inside, held_bytes, Fed, fed,
  before_escape, match_byte, payload_byte, joined, feed, with_events, finish, IsHeld,
}
use gosshd_bastion.Terminal.Payload.{
  IsOpen-front, before_escape-some, IsOpen-payload, first_mark-intro, consume_all-ended,
}
use gosshd_bastion.Terminal.Mismatch.{
  mismatch0, mismatch1, mismatch2, mismatch3, mismatch4, mismatch5,
}

-- What is said of all chunks: the text behind what is held is fed byte by byte.
abbrev IsFed : Bytes → Type 0
IsFed s = (h : Held) → IsHeld h → consume_all (held_bytes h ++ s) ≡ finish (feed h s)

prepend-finish :
    (c : Bytes) (f : Fed) → prepend c (finish f) ≡ finish (joined (fed matched0 c []) f)
prepend-finish c f = elim (Bool-cases (ltb buffer_limit (length (held_bytes f.held)))) [
  | inl e ↦ rw e (
      ap (λ t. with_events f.events (record { buffer = []; clean = t; events = [] }))
        (sym (append_assoc c f.clean (held_bytes f.held))))
  | inr e ↦ rw e refl
]

prepend-prepend : (a b : Bytes) (r : Consumed) → prepend a (prepend b r) ≡ prepend (a ++ b) r
prepend-prepend a b r =
    ap (λ t. record { buffer = r.buffer; clean = t; events = r.events })
      (sym (append_assoc a b r.clean))

module _ (h next : Held) (expected x : ℕ) (s : Bytes) (ih : IsFed s) where
  abbrev Yields : Fed → Type 0
  Yields f = consume_all (held_bytes h ++ x ∷ s) ≡ finish (joined f (feed f.held s))

  match_byte-true : (x == expected) ≡ true → match_byte h expected next x ≡ fed next [] []
  match_byte-true e = rw e refl

  match_byte-escape :
      (x == expected) ≡ false
      → (x == escape) ≡ true
      → match_byte h expected next x ≡ fed matched1 (held_bytes h) []
  match_byte-escape e f = rw (e, f) refl

  match_byte-other :
      (x == expected) ≡ false
      → (x == escape) ≡ false
      → match_byte h expected next x ≡ fed matched0 (held_bytes h ++ x ∷ []) []
  match_byte-other e f = rw (e, f) refl

  match_byte-Yields :
      IsHeld next
      → held_bytes next ≡ held_bytes h ++ expected ∷ []
      → ((x == expected) ≡ false
          → consume_all (held_bytes h ++ x ∷ s) ≡ prepend (held_bytes h) (consume_all (x ∷ s)))
      → Yields (match_byte h expected next x)
  match_byte-Yields sound goes_on refuse = elim (Bool-cases (x == expected)) [
    | inl e ↦ subst Yields (sym (match_byte-true e)) (
        ap consume_all (
          sym (append_assoc (held_bytes h) (x ∷ []) s)
          ∙ ap (λ t. (held_bytes h ++ t ∷ []) ++ s) ((==_iff x expected).0 e)
          ∙ ap (λ t. t ++ s) (sym goes_on))
        ∙ ih next sound)
    | inr e ↦ elim (Bool-cases (x == escape)) [
      | inl f ↦ subst Yields (sym (match_byte-escape e f)) (
          refuse e
          ∙ ap (prepend (held_bytes h))
              (ap (λ t. consume_all (t ∷ s)) ((==_iff x escape).0 f) ∙ ih matched1 tt)
          ∙ prepend-finish (held_bytes h) (feed matched1 s))
      | inr f ↦ subst Yields (sym (match_byte-other e f)) (
          refuse e
          ∙ ap (prepend (held_bytes h)) (mismatch0 x s f)
          ∙ prepend-prepend (held_bytes h) (x ∷ []) (consume_all s)
          ∙ ap (prepend (held_bytes h ++ x ∷ [])) (ih matched0 tt)
          ∙ prepend-finish (held_bytes h ++ x ∷ []) (feed matched0 s))
    ]
  ]

module _ (p : Bytes) (x : ℕ) where
  pub payload_byte-bell :
      (bell == x) ≡ true → payload_byte p x ≡ fed matched0 [] (event_list (parse_event p))
  payload_byte-bell e = rw e refl

  pub payload_byte-other :
      (bell == x) ≡ false
      → (x == 0x5C) ≡ false
      → payload_byte p x ≡ fed (inside (p ++ x ∷ [])) [] []
  payload_byte-other b c = rw (b, c) refl

  pub payload_byte-none :
      (bell == x) ≡ false
      → (x == 0x5C) ≡ true
      → before_escape p ≡ none
      → payload_byte p x ≡ fed (inside (p ++ x ∷ [])) [] []
  payload_byte-none b c e = rw (b, c, e) refl

  pub payload_byte-some :
      (q : Bytes)
      → (bell == x) ≡ false
      → (x == 0x5C) ≡ true
      → before_escape p ≡ some q
      → payload_byte p x ≡ fed matched0 [] (event_list (parse_event q))
  payload_byte-some q b c e = rw (b, c, e) refl

module _ (p : Bytes) (x : ℕ) (s : Bytes) (ih : IsFed s) (sound : IsOpen (intro ++ p)) where
  abbrev Ends : Fed → Type 0
  Ends f = consume_all ((intro ++ p) ++ x ∷ s) ≡ finish (joined f (feed f.held s))

  -- The payload `q` is whole, and `s` is what follows.
  ended :
      (q : Bytes)
      → consume_all ((intro ++ p) ++ x ∷ s) ≡ with_mark [] q (consume_all s)
      → Ends (fed matched0 [] (event_list (parse_event q)))
  ended q e = e ∙ ap (with_mark [] q) (ih matched0 tt)

  going_on :
      (bell == x) ≡ false
      → ((x == 0x5C) ≡ false) ⊎ (before_escape p ≡ none)
      → Ends (fed (inside (p ++ x ∷ [])) [] [])
  going_on b c =
      ap consume_all (
        append_assoc intro p (x ∷ s)
        ∙ ap (λ (t : Bytes). intro ++ t) (sym (append_assoc p (x ∷ []) s))
        ∙ sym (append_assoc intro (p ++ x ∷ []) s))
      ∙ ih (inside (p ++ x ∷ [])) (IsOpen-payload x p sound b c)

  bell_ended : (bell == x) ≡ true → Ends (fed matched0 [] (event_list (parse_event p)))
  bell_ended e = ended p (
      ap (λ (t : ℕ). consume_all ((intro ++ p) ++ t ∷ s)) (sym ((==_iff bell x).0 e))
      ∙ consume_all-ended p (p ++ bell ∷ s) s (mark_between-bell p s sound))

  terminator_ended :
      (q : Bytes)
      → (x == 0x5C) ≡ true
      → before_escape p ≡ some q
      → Ends (fed matched0 [] (event_list (parse_event q)))
  terminator_ended q e found =
      let split = before_escape-some p q found in
      let whole : (intro ++ p) ++ x ∷ s ≡ intro ++ (q ++ escape ∷ 0x5C ∷ s) =
        ap₂ (λ (t : Bytes) (c : ℕ). (intro ++ t) ++ c ∷ s) split ((==_iff x 0x5C).0 e)
        ∙ append_assoc intro (q ++ escape ∷ []) (0x5C ∷ s)
        ∙ ap (λ (t : Bytes). intro ++ t) (append_assoc q (escape ∷ []) (0x5C ∷ s)) in
      let open_still = IsOpen-front (intro ++ q) (escape ∷ []) (
        subst IsOpen
          (ap (λ (t : Bytes). intro ++ t) split ∙ sym (append_assoc intro q (escape ∷ [])))
          sound) in
      ended q (
        ap consume_all whole
        ∙ consume_all-ended q (q ++ escape ∷ 0x5C ∷ s) s (mark_between-terminator q s open_still))

  payload_byte-Ends : Ends (payload_byte p x)
  payload_byte-Ends = elim (Bool-cases (bell == x)) [
    | inl e ↦ subst Ends (sym (payload_byte-bell p x e)) (bell_ended e)
    | inr b ↦ elim (Bool-cases (x == 0x5C)) [
      | inr c ↦ subst Ends (sym (payload_byte-other p x b c)) (going_on b (inl c))
      | inl c ↦ elim (Option-cases (before_escape p)) [
        | inl e ↦ subst Ends (sym (payload_byte-none p x b c e)) (going_on b (inr e))
        | inr (q, e) ↦ subst Ends (sym (payload_byte-some p x q b c e)) (terminator_ended q c e)
      ]
    ]
  ]

unfinished_alone : (r : Bytes) → unfinished [] r ≡ with_events [] (unfinished [] r)
unfinished_alone r = elim (Bool-cases (ltb buffer_limit (length r))) [
  | inl e ↦ rw e refl
  | inr e ↦ rw e refl
]

held-alone : (h : Held) → IsHeld h → consume_all (held_bytes h ++ []) ≡ finish (feed h [])
unfolding feed
held-alone matched0 h =
    unfold consume index_of first_mark held_back has_prefix has_suffix bytes_eq in refl
held-alone matched1 h =
    unfold consume index_of first_mark held_back has_prefix has_suffix bytes_eq in refl
held-alone matched2 h =
    unfold consume index_of first_mark held_back has_prefix has_suffix bytes_eq in refl
held-alone matched3 h =
    unfold consume index_of first_mark held_back has_prefix has_suffix bytes_eq in refl
held-alone matched4 h =
    unfold consume index_of first_mark held_back has_prefix has_suffix bytes_eq in refl
held-alone matched5 h =
    unfold consume index_of first_mark held_back has_prefix has_suffix bytes_eq in refl
held-alone (inside p) h =
    ap consume_all (append-nil (intro ++ p))
    ∙ consume_all-eq (intro ++ p)
    ∙ ap (after_mark (intro ++ p)) (first_mark-intro p ∙ mark_between-open (intro ++ p) h)
    ∙ unfinished_alone (intro ++ p)

pub intro-IsOpen : IsOpen (intro ++ [])
unfolding has_prefix
intro-IsOpen =
    (refl, refl, (refl, refl, (refl, refl, (refl, refl, (refl, refl, (refl, refl, tt))))))

-- What is held behind any text is fed byte by byte.
feed-IsFed : (s : Bytes) → IsFed s
unfolding feed
feed-IsFed [] h sound = held-alone h sound
feed-IsFed (x ∷ s) matched0 h =
    match_byte-Yields matched0 matched1 escape x s (feed-IsFed s) tt refl (λ _. refl)
feed-IsFed (x ∷ s) matched1 h =
    match_byte-Yields matched1 matched2 b']' x s (feed-IsFed s) tt refl (mismatch1 x s)
feed-IsFed (x ∷ s) matched2 h =
    match_byte-Yields matched2 matched3 b'6' x s (feed-IsFed s) tt refl (mismatch2 x s)
feed-IsFed (x ∷ s) matched3 h =
    match_byte-Yields matched3 matched4 b'3' x s (feed-IsFed s) tt refl (mismatch3 x s)
feed-IsFed (x ∷ s) matched4 h =
    match_byte-Yields matched4 matched5 b'3' x s (feed-IsFed s) tt refl (mismatch4 x s)
feed-IsFed (x ∷ s) matched5 h =
    match_byte-Yields matched5 (inside []) b';' x s (feed-IsFed s) intro-IsOpen refl (mismatch5 x s)
feed-IsFed (x ∷ s) (inside p) h = payload_byte-Ends p x s (feed-IsFed s) h

-- Consuming a chunk behind a buffer of any text that begins a mark and has no end of one gives what the
-- reference does byte by byte: the same clean text and the same events; the buffer holds the bytes of an unfinished mark, of which those of
-- more than 4096 bytes go to the clean text.
pub consume-feed :
    (h : Held) (text : Bytes) → IsHeld h → consume (held_bytes h) text ≡ finish (feed h text)
unfolding consume
consume-feed h text sound = feed-IsFed text h sound
