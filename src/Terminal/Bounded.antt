-- ===== src/Terminal/Bounded.antt =====
-- What a session keeps is bounded, and its directory is plain text.
use gosshd_bastion.Base.{
  ℕ, ◌+◌, ◌-◌, ◌≤◌, Bool, true, false, not, ◌&&◌, ◌||◌, zero, suc, List, [], ◌∷◌, ◌++◌, Option,
  none, ltb, if◌then◌else◌, length, take, drop, is_empty, ◌≡◌, refl, arith, Bool-cases, inl, inr,
  All, All-append, ltb→lt, and_split, length-append, length-drop, length-take,
}
use gosshd_bastion.Base.Bytes.{Bytes, codes, bytes_eq, has_prefix}
use gosshd_bastion.Base.Texts.{contains_any}
use gosshd_bastion.Terminal.{IntegrationEvent}
use gosshd_bastion.Terminal.Integration.{
  Consumed, consume, consume_loop, escape, bell, parse_event, field_event, done_event, event_list,
  first_mark, split_fields,
}
use gosshd_bastion.Terminal.Marks.{Mark-cases}
use gosshd_bastion.Terminal.Screen.{
  Screen, Text, screen_write, put_rune, put_runes, push_line, strip_ansi,
}
use gosshd_bastion.Terminal.Session.{
  Session, Waiter, Message, output_limit, stored, apply_event, apply_events, feed_waiter,
  feed_waiters, done_with, filter_legacy, write_output,
}

abbrev pub plain : Bytes → Bool
plain directory = not (contains_any (0 ∷ escape ∷ bell ∷ codes "\r\n") directory)

abbrev IsPlainEvent : IntegrationEvent → Type 0
IsPlainEvent e = plain e.directory ≡ true

abbrev ArePlain : List IntegrationEvent → Type 0
ArePlain = All IsPlainEvent

either {ℓ κ} :
    {A : Type ℓ} (P : A → Type κ) (b : Bool) (x y : A) → P x → P y → P (if b then x else y)
either P true x y hx hy = hx
either P false x y hx hy = hy

abbrev IsPlainResult : Option IntegrationEvent → Type 0
IsPlainResult o = ArePlain (event_list o)

done_event-IsPlain : (fields : List Bytes) → ArePlain (event_list (done_event fields))
unfolding done_event contains_any
done_event-IsPlain [] = tt
done_event-IsPlain (c ∷ []) = (refl, tt)
done_event-IsPlain (i ∷ c ∷ r) = (refl, tt)

field_event-IsPlain : (fields : List Bytes) → ArePlain (event_list (field_event fields))
unfolding field_event contains_any
field_event-IsPlain [] = tt
field_event-IsPlain (kind ∷ fields) = either IsPlainResult (is_empty kind) none _ tt (
    either IsPlainResult
      (bytes_eq kind (codes "A") || bytes_eq kind (codes "C") || bytes_eq kind (codes "E")) _ _
      (refl, tt)
      (either IsPlainResult (bytes_eq kind (codes "D")) (done_event fields) _
        (done_event-IsPlain fields)
        (either IsPlainResult (bytes_eq kind (codes "P")) _ none (refl, tt) tt)))

plain_or_empty :
    (directory : Bytes)
    → plain (if contains_any (0 ∷ escape ∷ bell ∷ codes "\r\n") directory then [] else directory)
      ≡ true
plain_or_empty directory =
    elim (Bool-cases (contains_any (0 ∷ escape ∷ bell ∷ codes "\r\n") directory)) [
      | inl e ↦ rw e (unfold contains_any in refl)
      | inr e ↦ rw e (rw e refl)
    ]

parse_event-IsPlain : (payload : Bytes) → ArePlain (event_list (parse_event payload))
unfolding parse_event
parse_event-IsPlain payload =
    either IsPlainResult (has_prefix (codes "P;Cwd=") payload) _
      (field_event (split_fields payload)) (plain_or_empty (drop 6 payload), tt)
      (field_event-IsPlain (split_fields payload))

consume_loop-ArePlain : (fuel : ℕ) (s : Bytes) → ArePlain (consume_loop fuel s).events
unfolding consume_loop
consume_loop-ArePlain zero s = tt
consume_loop-ArePlain (suc fuel) [] = tt
consume_loop-ArePlain (suc fuel) (c ∷ s) = elim (Mark-cases (first_mark (c ∷ s))) [
  | inl e ↦ rw (e, consume_loop) tt
  | inr (inl (before, remaining, e)) ↦
      rw (e, consume_loop)
        (either (λ (r : Consumed). ArePlain r.events) (ltb 4096 (length remaining)) _ _ tt tt)
  | inr (inr (before, payload, after, e)) ↦
      rw (e, consume_loop)
        (All-append IsPlainEvent (event_list (parse_event payload)) (consume_loop fuel after).events
          (parse_event-IsPlain payload) (consume_loop-ArePlain fuel after))
]

push_line-le :
    (line : List ℕ) (b : Screen) → length (push_line line b).lines ≤ (push_line line b).rows
unfolding push_line
push_line-le line b =
    let all = b.lines ++ line ∷ [] in ground (arith, length-drop (length all - b.rows) all)

abbrev IsFull : Screen → Type 0
IsFull b = length b.lines ≤ b.rows

put_rune-IsFull : (r : ℕ) (behind : List ℕ) (b : Screen) → IsFull b → IsFull (put_rune r behind b)
unfolding put_rune
put_rune-IsFull r behind b h = ground (arith, push_line-le b.cur b)

put_runes-IsFull : (rs : List ℕ) (b : Screen) → IsFull b → IsFull (put_runes rs b)
unfolding put_runes
put_runes-IsFull [] b h = h
put_runes-IsFull (r ∷ rs) b h = put_runes-IsFull rs (put_rune r rs b) (put_rune-IsFull r rs b h)

stored_le :
    (text output : Bytes)
    → length output ≤ output_limit
    → length (stored text output) ≤ output_limit
unfolding stored
stored_le text output h = ground (
  arith,
  length-append output (take (output_limit - length output) text),
  length-take (output_limit - length output) text,
)

-- The channel of a waiter has 64 places.
abbrev IsServed : Waiter → Type 0
IsServed w = length w.output ≤ 64

done_with-output :
    (events : List IntegrationEvent) (w : Waiter) → (done_with events w).output ≡ w.output
unfolding done_with
done_with-output [] w = refl
done_with-output (e ∷ events) w = done_with-output events _

more_output :
    (text : Bytes) (output : List Bytes)
    → length output ≤ 64
    → length (if not (is_empty text) && ltb (length output) 64 then output ++ text ∷ [] else output)
      ≤ 64
more_output text output h = elim (Bool-cases (not (is_empty text) && ltb (length output) 64)) [
  | inl e ↦ rw e (
      omega
        (arith, length-append output (text ∷ []), ltb→lt (length output) 64 (and_split _ _ e).1))
  | inr e ↦ rw e h
]

feed_waiter-IsServed :
    (text : Bytes) (events : List IntegrationEvent) (w : Waiter)
    → IsServed w
    → IsServed (feed_waiter text events w)
unfolding feed_waiter
feed_waiter-IsServed text events w h = rw (done_with-output events _) (more_output text w.output h)

feed_waiters-IsServed :
    (text : Bytes) (events : List IntegrationEvent) (ws : List Waiter)
    → All IsServed ws
    → All IsServed (feed_waiters text events ws)
unfolding feed_waiters
feed_waiters-IsServed text events [] h = tt
feed_waiters-IsServed text events (w ∷ ws) (h, hs) =
    (feed_waiter-IsServed text events w h, feed_waiters-IsServed text events ws hs)

-- The invariant of a session.
pub record IsSafe (s : Session) : Type 0 where
  pub output : length s.output ≤ output_limit
  pub screen : length s.screen.lines ≤ s.screen.rows
  pub waiters : All IsServed s.waiters
  pub directory : plain s.current_directory ≡ true

with_busy : (b : Bool) (s : Session) → IsSafe s → IsSafe (record s { shell_busy = b })
with_busy b s h = record {
  output = h.output;
  screen = h.screen;
  waiters = h.waiters;
  directory = h.directory;
}

with_buffer : (b : Bytes) (s : Session) → IsSafe s → IsSafe (record s { osc_buffer = b })
with_buffer b s h = record {
  output = h.output;
  screen = h.screen;
  waiters = h.waiters;
  directory = h.directory;
}

-- Each event keeps the invariant.
apply_event-IsSafe :
    (e : IntegrationEvent) (s : Session) (sent : List Message)
    → IsPlainEvent e
    → IsSafe s
    → IsSafe (apply_event e (s, sent)).0
unfolding apply_event
apply_event-IsSafe e s sent p h =
    let safe = λ (r : Session × List Message). IsSafe r.0 in
    either safe (bytes_eq e.kind (codes "C")) _ _ (with_busy true s h) (
      either safe (bytes_eq e.kind (codes "A") || bytes_eq e.kind (codes "D")) _ _
        (with_busy false s h)
        (either safe
          (bytes_eq e.kind (codes "P")
            && (not (is_empty e.directory) && not (bytes_eq e.directory s.current_directory)))
          _ (s, sent)
          (record { output = h.output; screen = h.screen; waiters = h.waiters; directory = p }) h))

apply_events-IsSafe :
    (events : List IntegrationEvent) (r : Session × List Message)
    → ArePlain events
    → IsSafe r.0
    → IsSafe (apply_events events r).0
unfolding apply_events
apply_events-IsSafe [] r p h = h
apply_events-IsSafe (e ∷ events) (s, sent) (pe, p) h =
    apply_events-IsSafe events (apply_event e (s, sent)) p (apply_event-IsSafe e s sent pe h)

consume-ArePlain : (buffer chunk : Bytes) → ArePlain (consume buffer chunk).events
unfolding consume
consume-ArePlain buffer chunk =
    consume_loop-ArePlain (length (buffer ++ chunk) + 1) (buffer ++ chunk)

written-IsSafe :
    (t : Text) (text : Bytes) (s : Session)
    → IsSafe s
    → IsSafe (record s { output = stored text s.output; screen = screen_write t text s.screen })
unfolding screen_write
written-IsSafe t text s h = record {
  output = stored_le text s.output h.output;
  screen = put_runes-IsFull (t.runes (strip_ansi (t.to_valid_utf8 text))) s.screen h.screen;
  waiters = h.waiters;
  directory = h.directory;
}

told-IsSafe :
    (text : Bytes) (events : List IntegrationEvent) (s : Session)
    → IsSafe s
    → IsSafe (record s { waiters = feed_waiters text events s.waiters })
told-IsSafe text events s h = record {
  output = h.output;
  screen = h.screen;
  waiters = feed_waiters-IsServed text events s.waiters h.waiters;
  directory = h.directory;
}

-- A session that keeps at most 256 KiB of output, no more lines than its screen has rows and at most 64
-- chunks for each waiting command, and whose directory has no NUL, ESC, BEL, CR or LF, still does so
-- after any output of its terminal.
pub write_output-IsSafe :
    (t : Text) (kind chunk : Bytes) (s : Session)
    → IsSafe s
    → IsSafe (write_output t kind chunk s).0
unfolding write_output
write_output-IsSafe t kind chunk s h =
    let safe = λ (r : Session × List Message). IsSafe r.0 in
    let c = consume s.osc_buffer chunk in
    let text = filter_legacy c.clean in
    let taken : Session = record s { osc_buffer = c.buffer } in
    let written : Session = record taken {
      output = stored text s.output;
      screen = screen_write t text s.screen;
    } in
    either safe (is_empty chunk) _ _ h (
      either safe (is_empty text && is_empty c.events) _ _ (with_buffer c.buffer s h) (
        told-IsSafe text c.events (apply_events c.events (written, [])).0 (
          apply_events-IsSafe c.events (written, []) (consume-ArePlain s.osc_buffer chunk)
            (written-IsSafe t text taken (with_buffer c.buffer s h)))))
