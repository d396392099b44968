-- ===== src/Terminal/Routing.antt =====
-- internal/server/terminal_session_manager.go: which session a command is routed to.
use gosshd_bastion.Base.{
  ℕ, ◌-◌, Bool, true, false, not, ◌&&◌, List, [], ◌∷◌, ◌++◌, Option, none, some, ltb, if◌then◌else◌,
  is_empty,
}
use gosshd_bastion.Base.Bytes.{Bytes, bytes_eq}
use gosshd_bastion.Terminal.Session.{Session, heartbeat_timeout}

pub data Reason : Type 0 where
  user_mismatch : Reason
  target_mismatch : Reason
  closed : Reason
  input_wait : Reason
  no_client : Reason
  shell_busy : Reason
  stale_heartbeat : Reason
  collaboration_disabled : Reason
  candidate : Reason

unfoldable pub is_stale : ℕ → Session → Bool
is_stale now s = ltb heartbeat_timeout (now - s.last_heartbeat)

-- The `switch` on a snapshot.
unfoldable pub reason_of : Bytes → Bytes → ℕ → Session → Reason
unfolding bytes_eq is_stale
reason_of user target now s =
    if not (bytes_eq s.user_id user)
    then user_mismatch
    else if not (bytes_eq s.target_id target)
    then target_mismatch
    else if s.closed
    then closed
    else if not s.input_ready
    then input_wait
    else if is_empty s.clients
    then no_client
    else if s.shell_busy
    then shell_busy
    else if is_stale now s
    then stale_heartbeat
    else if not s.collaboration
    then collaboration_disabled
    else candidate

abbrev pub is_candidate : Reason → Bool
is_candidate candidate = true
is_candidate user_mismatch = false
is_candidate target_mismatch = false
is_candidate closed = false
is_candidate input_wait = false
is_candidate no_client = false
is_candidate shell_busy = false
is_candidate stale_heartbeat = false
is_candidate collaboration_disabled = false

pub record Lookup : Type 0 where
  pub session : Option Session
  pub reasons : List (Bytes × Reason)

abbrev pub earlier : Session → Option Session → Bool
earlier s none = true
earlier s (some selected) = ltb s.started_at selected.started_at

-- The loop over the sessions, in the order that the map gives them.
unfoldable pub look_up : Bytes → Bytes → ℕ → List Session → Lookup → Lookup
unfolding reason_of
look_up user target now [] found = found
look_up user target now (s ∷ sessions) found =
    let reason = reason_of user target now s in
    look_up user target now sessions (record {
      session = if is_candidate reason && earlier s found.session then some s else found.session;
      reasons = found.reasons ++ (s.id, reason) ∷ [];
    })

unfoldable pub earliest_online : Bytes → Bytes → ℕ → List Session → Lookup
unfolding look_up
earliest_online user target now sessions =
    look_up user target now sessions (record { session = none; reasons = [] })
