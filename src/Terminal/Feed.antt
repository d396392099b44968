-- ===== src/Terminal/Feed.antt =====
-- The reference: marks taken out of the output byte by byte.
use gosshd_bastion.Base.{
  ℕ, List, [], ◌∷◌, ◌++◌, Option, none, some, ◌==◌, if◌then◌else◌, take, is_empty,
}
use gosshd_bastion.Base.Bytes.{Bytes}
use gosshd_bastion.Terminal.{IntegrationEvent}
use gosshd_bastion.Terminal.Integration.{
  escape, bell, intro, Consumed, unfinished, event_list, parse_event,
}
use gosshd_bastion.Terminal.Ends.{IsOpen}

-- How much of a mark has come: up to five bytes of its beginning, or the beginning and a payload.
pub data Held : Type 0 where
  matched0 : Held
  matched1 : Held
  matched2 : Held
  matched3 : Held
  matched4 : Held
  matched5 : Held
  inside : (payload : Bytes) → Held

abbrev pub held_bytes : Held → Bytes
held_bytes matched0 = []
held_bytes matched1 = take 1 intro
held_bytes matched2 = take 2 intro
held_bytes matched3 = take 3 intro
held_bytes matched4 = take 4 intro
held_bytes matched5 = take 5 intro
held_bytes (inside payload) = intro ++ payload

pub record Fed : Type 0 where
  pub held : Held
  pub clean : Bytes
  pub events : List IntegrationEvent

-- The text before an ESC at its end.
unfoldable pub before_escape : Bytes → Option Bytes
before_escape [] = none
before_escape (y ∷ s) =
    let later = before_escape s in
    if is_empty s
    then (if y == escape then some [] else none)
    else elim later [ none ↦ none | some q ↦ some (y ∷ q) ]

abbrev pub fed : Held → Bytes → List IntegrationEvent → Fed
fed held clean events = record { held = held; clean = clean; events = events }

-- A byte that goes on as the beginning of a mark does, or not.
abbrev pub match_byte : Held → ℕ → Held → ℕ → Fed
match_byte h expected next x =
    if x == expected
    then fed next [] []
    else if x == escape
    then fed matched1 (held_bytes h) []
    else fed matched0 (held_bytes h ++ x ∷ []) []

abbrev pub payload_byte : Bytes → ℕ → Fed
payload_byte p x =
    if bell == x
    then fed matched0 [] (event_list (parse_event p))
    else if x == 0x5C
    then elim (before_escape p) [
      | none ↦ fed (inside (p ++ x ∷ [])) [] []
      | some q ↦ fed matched0 [] (event_list (parse_event q))
    ]
    else fed (inside (p ++ x ∷ [])) [] []

unfoldable pub feed_byte : Held → ℕ → Fed
feed_byte matched0 x = match_byte matched0 escape matched1 x
feed_byte matched1 x = match_byte matched1 b']' matched2 x
feed_byte matched2 x = match_byte matched2 b'6' matched3 x
feed_byte matched3 x = match_byte matched3 b'3' matched4 x
feed_byte matched4 x = match_byte matched4 b'3' matched5 x
feed_byte matched5 x = match_byte matched5 b';' (inside []) x
feed_byte (inside p) x = payload_byte p x

-- What comes of a byte, and of those behind it.
abbrev pub joined : Fed → Fed → Fed
joined first rest = fed rest.held (first.clean ++ rest.clean) (first.events ++ rest.events)

unfoldable pub feed : Held → Bytes → Fed
unfolding feed_byte
feed h [] = fed h [] []
feed h (x ∷ s) = let first = feed_byte h x in joined first (feed first.held s)

abbrev pub with_events : List IntegrationEvent → Consumed → Consumed
with_events events r = record { buffer = r.buffer; clean = r.clean; events = events }

-- What is left at the end of a chunk goes to the buffer, or to the clean text if it is too long.
abbrev pub finish : Fed → Consumed
finish f = with_events f.events (unfinished f.clean (held_bytes f.held))

abbrev pub IsHeld : Held → Type 0
IsHeld (inside p) = IsOpen (intro ++ p)
IsHeld matched0 = Unit
IsHeld matched1 = Unit
IsHeld matched2 = Unit
IsHeld matched3 = Unit
IsHeld matched4 = Unit
IsHeld matched5 = Unit
