-- ===== src/Terminal/Integration.antt =====
-- internal/server/terminal_session_manager.go: the marks that the shell integration writes into the
-- output, `ESC ] 633 ; … BEL` or `… ESC \`, and how they are taken out of it.
use gosshd_bastion.Base.{
  ℕ, zero, suc, ◌+◌, ◌-◌, ◌*◌, ◌^◌, Bool, ◌&&◌, ◌||◌, List, [], ◌∷◌, ◌++◌, Option, none, some, ltb,
  leb, ◌==◌, if◌then◌else◌, length, take, drop, is_empty,
}
use gosshd_bastion.Base.Bytes.{Bytes, codes, bytes_eq, has_prefix, trim_space}
use gosshd_bastion.Base.Texts.{has_suffix, contains_any}
use gosshd_bastion.Terminal.{ℤ, pos, negsuc, IntegrationEvent}

abbrev pub escape : ℕ
escape = 0x1B

abbrev pub bell : ℕ
bell = 7

-- `ESC ] 633 ;`
abbrev pub intro : Bytes
intro = escape ∷ b']' ∷ b'6' ∷ b'3' ∷ b'3' ∷ b';' ∷ []

-- `ESC \`
abbrev pub terminator : Bytes
terminator = escape ∷ 0x5C ∷ []

-- `strings.Index`, arguments in the order pattern, text.
unfoldable pub index_of : Bytes → Bytes → Option ℕ
unfolding has_prefix
index_of pattern [] = if is_empty pattern then some 0 else none
index_of pattern (x ∷ s) =
    let later = index_of pattern s in
    if has_prefix pattern (x ∷ s)
    then some 0
    else elim later [ none ↦ none | some i ↦ some (suc i) ]

-- The `switch` on the positions of BEL and `ESC \`.
abbrev pub earlier_end : Option ℕ → Option ℕ → Option (ℕ × ℕ)
earlier_end none none = none
earlier_end none (some st) = some (st, 2)
earlier_end (some bel) none = some (bel, 1)
earlier_end (some bel) (some st) = if ltb bel st then some (bel, 1) else some (st, 2)

-- Where a sequence ends, and the length of what ends it.
unfoldable pub osc_sequence_end : Bytes → Option (ℕ × ℕ)
unfolding index_of
osc_sequence_end input = earlier_end (index_of (bell ∷ []) input) (index_of terminator input)

-- `strings.Split(payload, ";")`.
unfoldable pub split_fields : Bytes → List Bytes
split_fields [] = [] ∷ []
split_fields (c ∷ s) =
    let later = split_fields s in
    if c == b';' then [] ∷ later else elim later [ [] ↦ (c ∷ []) ∷ [] | f ∷ fs ↦ (c ∷ f) ∷ fs ]

abbrev is_digit : ℕ → Bool
is_digit c = leb b'0' c && leb c b'9'

-- The digits of a number behind those that `n` holds.
unfoldable pub digits : ℕ → Bytes → Option ℕ
digits n [] = some n
digits n (c ∷ s) = let later = digits (n * 10 + (c - b'0')) s in if is_digit c then later else none

abbrev number : Bytes → Option ℕ
number s = if is_empty s then none else digits 0 s

abbrev negated : ℕ → ℤ
negated zero = pos zero
negated (suc n) = negsuc n

-- `strconv.Atoi`, where `int` has 64 bits.
unfoldable pub atoi : Bytes → Option ℤ
unfolding digits
atoi [] = none
atoi (c ∷ s) =
    if c == b'-'
    then elim (number s) [
      | none ↦ none
      | some n ↦ if leb n (2 ^ 63) then some (negated n) else none
    ]
    else elim (number (if c == b'+' then s else c ∷ s)) [
      | none ↦ none
      | some n ↦ if ltb n (2 ^ 63) then some (pos n) else none
    ]

unfoldable pub exit_code : Bytes → ℤ
unfolding atoi trim_space
exit_code field = elim (atoi (trim_space field)) [ none ↦ pos 255 | some code ↦ code ]

abbrev event : Bytes → Bytes → ℤ → Bytes → IntegrationEvent
event kind id code directory = record {
  kind = kind;
  id = id;
  exit_code = code;
  directory = directory;
}

abbrev first_or_empty : List Bytes → Bytes
first_or_empty [] = []
first_or_empty (f ∷ fs) = f

-- The fields behind the kind `D`: an identifier and a code, or a code.
unfoldable pub done_event : List Bytes → Option IntegrationEvent
unfolding exit_code
done_event [] = none
done_event (code ∷ []) = some (event (codes "D") [] (exit_code code) [])
done_event (id ∷ code ∷ rest) = some (event (codes "D") id (exit_code code) [])

unfoldable pub field_event : List Bytes → Option IntegrationEvent
unfolding bytes_eq done_event
field_event [] = none
field_event (kind ∷ fields) =
    if is_empty kind
    then none
    else if bytes_eq kind (codes "A") || bytes_eq kind (codes "C") || bytes_eq kind (codes "E")
    then some (event kind (first_or_empty fields) (pos 0) [])
    else if bytes_eq kind (codes "D")
    then done_event fields
    else if bytes_eq kind (codes "P")
    then some (event kind [] (pos 0) [])
    else none

unfoldable pub parse_event : Bytes → Option IntegrationEvent
unfolding has_prefix contains_any field_event split_fields
parse_event payload =
    let directory = drop 6 payload in
    if has_prefix (codes "P;Cwd=") payload
    then some (
        event (codes "P") [] (pos 0)
          (if contains_any (0 ∷ escape ∷ bell ∷ codes "\r\n") directory then [] else directory))
    else field_event (split_fields payload)

-- What a call leaves in the buffer, the text without marks, and the events of the marks.
pub record Consumed : Type 0 where
  pub buffer : Bytes
  pub clean : Bytes
  pub events : List IntegrationEvent

-- The end of the input that may be the start of a mark: its length is at most `n`.
unfoldable pub held_back : ℕ → Bytes → ℕ
unfolding has_suffix
held_back zero input = 0
held_back (suc n) input =
    let fewer = held_back n input in if has_suffix (take (suc n) intro) input then suc n else fewer

abbrev pub without_mark : Bytes → Consumed
without_mark input =
    let n = held_back 5 input in
    record {
      buffer = drop (length input - n) input;
      clean = take (length input - n) input;
      events = [];
    }

abbrev pub buffer_limit : ℕ
buffer_limit = 4096

abbrev pub event_list : Option IntegrationEvent → List IntegrationEvent
event_list none = []
event_list (some e) = e ∷ []

abbrev pub unfinished : Bytes → Bytes → Consumed
unfinished before remaining =
    if ltb buffer_limit (length remaining)
    then record { buffer = []; clean = before ++ remaining; events = [] }
    else record { buffer = remaining; clean = before; events = [] }

-- The first mark of an input: there is none, it has no end, or it stands between two texts.
pub data Mark : Type 0 where
  no_mark : Mark
  open_mark : (before : Bytes) → (remaining : Bytes) → Mark
  whole_mark : (before : Bytes) → (payload : Bytes) → (after : Bytes) → Mark

-- The mark that begins at the front of the second text.
unfoldable pub mark_between : Bytes → Bytes → Mark
unfolding osc_sequence_end
mark_between before remaining = elim (osc_sequence_end remaining) [
  | none ↦ open_mark before remaining
  | some (end, size) ↦
      whole_mark before (drop (length intro) (take end remaining)) (drop (end + size) remaining)
]

unfoldable pub first_mark : Bytes → Mark
unfolding index_of mark_between
first_mark input = elim (index_of intro input) [
  | none ↦ no_mark
  | some start ↦ mark_between (take start input) (drop start input)
]

abbrev pub nothing : Consumed
nothing = record { buffer = []; clean = []; events = [] }

abbrev pub with_mark : Bytes → Bytes → Consumed → Consumed
with_mark before payload rest = record {
  buffer = rest.buffer;
  clean = before ++ rest.clean;
  events = event_list (parse_event payload) ++ rest.events;
}

-- The loop, with fuel for each round.
unfoldable pub consume_loop : ℕ → Bytes → Consumed
consume_loop zero input = nothing
consume_loop (suc fuel) [] = nothing
consume_loop (suc fuel) (c ∷ s) =
    let input = c ∷ s in
    elim (first_mark input) [
      | no_mark ↦ without_mark input
      | open_mark before remaining ↦ unfinished before remaining
      | whole_mark before payload after ↦ with_mark before payload (consume_loop fuel after)
    ]

-- `consumeTerminalIntegrationText`; each round that goes on takes a byte off the input.
unfoldable pub consume : Bytes → Bytes → Consumed
unfolding consume_loop
consume buffer text = let input = buffer ++ text in consume_loop (length input + 1) input
