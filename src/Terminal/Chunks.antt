-- ===== src/Terminal/Chunks.antt =====
-- Output that comes in chunks is cleaned as if it came at once.
use gosshd_bastion.Base.{
  ℕ, ◌≤◌, List, [], ◌∷◌, ◌++◌, ◌==◌, length, ◌≡◌, refl, sym, ap, ap₂, ◌∙◌, le→ltb, subst,
  Bool-cases, Option-cases, inl, inr, append_assoc,
}
use gosshd_bastion.Base.Bytes.{Bytes}
use gosshd_bastion.Terminal.Integration.{escape, bell, intro, Consumed, buffer_limit, consume}
use gosshd_bastion.Terminal.Ends.{IsOpen}
use gosshd_bastion.Terminal.Feed.{
  Held, matched0, matched1, matched2, matched3, matched4, matched5, inside, held_bytes, Fed, fed,
  before_escape, match_byte, payload_byte, feed_byte, joined, feed, finish, IsHeld,
}
use gosshd_bastion.Terminal.Payload.{IsOpen-payload}
use gosshd_bastion.Terminal.Stream.{
  consume-feed, intro-IsOpen, payload_byte-bell, payload_byte-other, payload_byte-none,
  payload_byte-some,
}

match_byte-IsHeld :
    (h next : Held) (expected x : ℕ) → IsHeld next → IsHeld (match_byte h expected next x).held
match_byte-IsHeld h next expected x sound = elim (Bool-cases (x == expected)) [
  | inl e ↦ rw e sound
  | inr e ↦ elim (Bool-cases (x == escape)) [ inl f ↦ rw (e, f) tt | inr f ↦ rw (e, f) tt ]
]

payload_byte-IsHeld : (p : Bytes) (x : ℕ) → IsOpen (intro ++ p) → IsHeld (payload_byte p x).held
payload_byte-IsHeld p x sound =
    let held = λ (f : Fed). IsHeld f.held in
    elim (Bool-cases (bell == x)) [
      | inl e ↦ subst held (sym (payload_byte-bell p x e)) tt
      | inr b ↦ elim (Bool-cases (x == 0x5C)) [
        | inr c ↦ subst held (sym (payload_byte-other p x b c)) (IsOpen-payload x p sound b (inl c))
        | inl c ↦ elim (Option-cases (before_escape p)) [
          | inl e ↦
              subst held (sym (payload_byte-none p x b c e)) (IsOpen-payload x p sound b (inr e))
          | inr (q, e) ↦ subst held (sym (payload_byte-some p x q b c e)) tt
        ]
      ]
    ]

feed_byte-IsHeld : (h : Held) (x : ℕ) → IsHeld h → IsHeld (feed_byte h x).held
unfolding feed_byte
feed_byte-IsHeld matched0 x h = match_byte-IsHeld matched0 matched1 escape x tt
feed_byte-IsHeld matched1 x h = match_byte-IsHeld matched1 matched2 b']' x tt
feed_byte-IsHeld matched2 x h = match_byte-IsHeld matched2 matched3 b'6' x tt
feed_byte-IsHeld matched3 x h = match_byte-IsHeld matched3 matched4 b'3' x tt
feed_byte-IsHeld matched4 x h = match_byte-IsHeld matched4 matched5 b'3' x tt
feed_byte-IsHeld matched5 x h = match_byte-IsHeld matched5 (inside []) b';' x intro-IsOpen
feed_byte-IsHeld (inside p) x h = payload_byte-IsHeld p x h

-- The invariant of the buffer.
feed-IsHeld : (s : Bytes) (h : Held) → IsHeld h → IsHeld (feed h s).held
unfolding feed
feed-IsHeld [] h sound = sound
feed-IsHeld (x ∷ s) h sound =
    feed-IsHeld s (feed_byte h x).held (unfold feed_byte in feed_byte-IsHeld h x sound)

joined_assoc : (a b c : Fed) → joined a (joined b c) ≡ joined (joined a b) c
joined_assoc a b c =
    ap₂ (fed c.held) (sym (append_assoc a.clean b.clean c.clean))
      (sym (append_assoc a.events b.events c.events))

feed-append :
    (s t : Bytes) (h : Held) → feed h (s ++ t) ≡ joined (feed h s) (feed (feed h s).held t)
unfolding feed
feed-append [] t h = refl
feed-append (x ∷ s) t h =
    let first = feed_byte h x in
    ap (joined first) (feed-append s t first.held)
    ∙ joined_assoc first (feed first.held s) (feed (feed first.held s).held t)

-- What two calls give together.
abbrev followed : Consumed → Consumed → Consumed
followed first rest = record {
  buffer = rest.buffer;
  clean = first.clean ++ rest.clean;
  events = first.events ++ rest.events;
}

-- The calls for one chunk after the other.
unfoldable pub consume_chunks : Bytes → List Bytes → Consumed
unfolding consume
consume_chunks buffer [] = record { buffer = buffer; clean = []; events = [] }
consume_chunks buffer (chunk ∷ chunks) =
    let first = consume buffer chunk in followed first (consume_chunks first.buffer chunks)

abbrev pub concat : List Bytes → Bytes
concat [] = []
concat (chunk ∷ chunks) = chunk ++ concat chunks

-- No unfinished mark is over the limit where a chunk ends.
abbrev pub AreShort : Held → List Bytes → Type 0
AreShort h [] = Unit
AreShort h (chunk ∷ chunks) =
    (length (held_bytes (feed h chunk).held) ≤ buffer_limit) × AreShort (feed h chunk).held chunks

abbrev pub fits : Fed → Consumed
fits f = record { buffer = held_bytes f.held; clean = f.clean; events = f.events }

finish-fits : (f : Fed) → length (held_bytes f.held) ≤ buffer_limit → finish f ≡ fits f
finish-fits f h = rw (le→ltb buffer_limit (length (held_bytes f.held)) h) refl

-- If the buffer is the beginning of a mark without an end of one, and no unfinished mark of more than
-- 4096 bytes stands where a chunk ends, the calls for the chunks give
-- together the clean text, the events and the buffer of the whole output, however it is cut.
pub consume_chunks-feed :
    (chunks : List Bytes) (h : Held)
    → IsHeld h
    → AreShort h chunks
    → consume_chunks (held_bytes h) chunks ≡ fits (feed h (concat chunks))
unfolding consume_chunks
consume_chunks-feed [] h sound short = unfold feed in refl
consume_chunks-feed (chunk ∷ chunks) h sound (fit, short) =
    let f = feed h chunk in
    let after = λ (first : Consumed). followed first (consume_chunks first.buffer chunks) in
    ap after (consume-feed h chunk sound ∙ finish-fits f fit)
    ∙ ap (followed (fits f)) (consume_chunks-feed chunks f.held (feed-IsHeld chunk h sound) short)
    ∙ ap fits (sym (feed-append chunk (concat chunks) h))
