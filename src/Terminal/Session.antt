-- ===== src/Terminal/Session.antt =====
-- internal/server/terminal_session_manager.go: a session of a web terminal. Times are nanoseconds; the
-- lists of clients stand for the keys of a map.
use gosshd_bastion.Base.{
  ℕ, ◌-◌, ◌*◌, Bool, true, false, not, ◌&&◌, ◌||◌, List, [], ◌∷◌, ◌++◌, Option, none, some, ltb,
  ◌==◌, if◌then◌else◌, length, take, is_empty, any,
}
use gosshd_bastion.Base.Bytes.{Bytes, codes, bytes_eq, contains, to_lower, trim_space}
use gosshd_bastion.Terminal.{ℤ, IntegrationEvent}
use gosshd_bastion.Terminal.Integration.{consume}
use gosshd_bastion.Terminal.Screen.{Screen, Text, screen_write, strip_ansi}

-- A command that waits for its output and its exit code, and the two channels.
pub record Waiter : Type 0 where
  pub id : Bytes
  pub command : Bytes
  pub output : List Bytes
  pub done : Option ℤ

pub record Session : Type 0 where
  pub id : Bytes
  pub user_id : Bytes
  pub target_id : Bytes
  pub started_at : ℕ
  pub input_ready : Bool
  pub clients : List ℕ
  pub output : Bytes
  pub screen : Screen
  pub last_heartbeat : ℕ
  pub closed : Bool
  pub shell_busy : Bool
  pub collaboration : Bool
  pub waiters : List Waiter
  pub osc_buffer : Bytes
  pub current_directory : Bytes

-- What a client is sent.
pub record Message : Type 0 where
  pub kind : Bytes
  pub body : Bytes

abbrev pub seconds : ℕ → ℕ
seconds n = n * 1000000000

abbrev pub heartbeat_timeout : ℕ
heartbeat_timeout = seconds 30

abbrev pub detached_timeout : ℕ
detached_timeout = seconds 600

abbrev pub output_limit : ℕ
output_limit = 262144

abbrev is_client : ℕ → List ℕ → Bool
is_client w = any (λ c. c == w)

unfoldable pub without_client : ℕ → List ℕ → List ℕ
without_client w [] = []
without_client w (c ∷ cs) = let rest = without_client w cs in if c == w then rest else c ∷ rest

unfoldable pub attach : ℕ → ℕ → Session → Session × List Message
attach w now s = (
  record s {
    clients = if is_client w s.clients then s.clients else w ∷ s.clients;
    last_heartbeat = now;
  },
  (if is_empty s.output then [] else record { kind = codes "output"; body = s.output } ∷ [])
      ++ (if is_empty s.current_directory
          then []
          else record { kind = codes "cwd"; body = s.current_directory } ∷ []),
)

unfoldable pub detach : ℕ → ℕ → Session → Session
unfolding without_client
detach w now s =
    let left = without_client w s.clients in
    record s { clients = left; last_heartbeat = if is_empty left then now else s.last_heartbeat }

unfoldable pub heartbeat : ℕ → Session → Session
heartbeat now s = record s { last_heartbeat = now }

unfoldable pub expired : ℕ → Session → Bool
expired now s = not s.closed && is_empty s.clients && ltb detached_timeout (now - s.last_heartbeat)

-- The session, the text that its clients are sent, and whether the input is closed.
unfoldable pub close_session : Bytes → Session → Session × List Message × Bool
close_session reason s = if s.closed then (s, [], false) else (
  record s { closed = true },
  (if is_empty reason
      then []
      else record {
        kind = codes "output";
        body =
            codes "\r\n"
            ++ (0x1B ∷ codes "[2;37mSession closed: ")
            ++ reason
            ++ (0x1B ∷ codes "[0m\r\n");
      }
        ∷ []),
  s.input_ready,
)

pub data Readiness : Type 0 where
  ready : Readiness
  is_closed : Readiness
  waits_for_input : Readiness
  is_busy : Readiness

-- `commandReadinessError`
unfoldable pub readiness : Session → Readiness
readiness s =
    if s.closed
    then is_closed
    else if not s.input_ready
    then waits_for_input
    else if s.shell_busy
    then is_busy
    else ready

abbrev legacy_line : Bytes → Bool
legacy_line line =
    let l = to_lower (strip_ansi (trim_space line)) in
    contains (codes "for /f") l
    && contains (codes "delims=") l
    && contains (codes "echo prompt") l
    && contains (codes "633;d") l

-- The lines of a text, each with its newline.
unfoldable pub lines_of : Bytes → List Bytes
lines_of [] = []
lines_of (c ∷ s) =
    let later = lines_of s in
    if c == 0x0A
    then (c ∷ []) ∷ later
    else elim later [ [] ↦ (c ∷ []) ∷ [] | l ∷ ls ↦ (c ∷ l) ∷ ls ]

unfoldable pub kept_lines : List Bytes → Bytes
unfolding to_lower contains strip_ansi trim_space
kept_lines [] = []
kept_lines (l ∷ ls) = let rest = kept_lines ls in if legacy_line l then rest else l ++ rest

-- `filterLegacyWindowsCmdPromptEcho`
unfoldable pub filter_legacy : Bytes → Bytes
unfolding kept_lines lines_of
filter_legacy text =
    if is_empty text || not (contains (codes "delims=") (to_lower text))
    then text
    else kept_lines (lines_of text)

abbrev is_none {ℓ} : {A : Type ℓ} → Option A → Bool
is_none none = true
is_none (some a) = false

-- The `switch event.Kind`, and the message it sends.
unfoldable pub apply_event : IntegrationEvent → Session × List Message → Session × List Message
unfolding bytes_eq
apply_event e (s, sent) =
    if bytes_eq e.kind (codes "C")
    then (record s { shell_busy = true }, sent)
    else if bytes_eq e.kind (codes "A") || bytes_eq e.kind (codes "D")
    then (record s { shell_busy = false }, sent)
    else if bytes_eq e.kind (codes "P")
        && (not (is_empty e.directory) && not (bytes_eq e.directory s.current_directory))
    then (
      record s { current_directory = e.directory },
      sent ++ record { kind = codes "cwd"; body = e.directory } ∷ [],
    )
    else (s, sent)

unfoldable pub apply_events :
    List IntegrationEvent → Session × List Message → Session × List Message
unfolding apply_event
apply_events [] r = r
apply_events (e ∷ events) r = apply_events events (apply_event e r)

abbrev ends_waiter : Waiter → IntegrationEvent → Bool
ends_waiter w e =
    bytes_eq e.kind (codes "D") && (is_empty w.id || (is_empty e.id || bytes_eq e.id w.id))

-- The exit code goes into a channel of one place.
unfoldable pub done_with : List IntegrationEvent → Waiter → Waiter
unfolding bytes_eq
done_with [] w = w
done_with (e ∷ events) w =
    done_with events
      (record w { done = if ends_waiter w e && is_none w.done then some e.exit_code else w.done })

-- A chunk goes into a channel of 64 places, or is lost.
unfoldable pub feed_waiter : Bytes → List IntegrationEvent → Waiter → Waiter
unfolding done_with
feed_waiter text events w = done_with events (record w {
  output =
      if not (is_empty text) && ltb (length w.output) 64 then w.output ++ text ∷ [] else w.output;
})

unfoldable pub feed_waiters : Bytes → List IntegrationEvent → List Waiter → List Waiter
unfolding feed_waiter
feed_waiters text events [] = []
feed_waiters text events (w ∷ ws) = feed_waiter text events w ∷ feed_waiters text events ws

-- What `output` keeps of a text.
unfoldable pub stored : Bytes → Bytes → Bytes
stored text output =
    if not (is_empty text) && ltb (length output) output_limit
    then output ++ take (output_limit - length output) text
    else output

-- `writeOutput`, with the messages that each client is sent in their order.
unfoldable pub write_output : Text → Bytes → Bytes → Session → Session × List Message
unfolding consume filter_legacy screen_write apply_events feed_waiters stored
write_output t kind chunk s =
    let c = consume s.osc_buffer chunk in
    let text = filter_legacy c.clean in
    let taken : Session = record s { osc_buffer = c.buffer } in
    let written : Session = record taken {
      output = stored text s.output;
      screen = screen_write t text s.screen;
    } in
    let (shown, sent) = apply_events c.events (written, []) in
    let told = record shown { waiters = feed_waiters text c.events shown.waiters } in
    if is_empty chunk
    then (s, [])
    else if is_empty text && is_empty c.events
    then (taken, [])
    else (told, sent ++ (if is_empty text then [] else record { kind = kind; body = text } ∷ []))
