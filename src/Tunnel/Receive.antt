-- ===== src/Tunnel/Receive.antt =====
-- internal/tunnel/conn.go: what a connection does with a packet that arrives, and acknowledgements.
use gosshd_bastion.Base.{
  ℕ, zero, suc, ◌+◌, ◌%◌, Bool, true, false, not, ◌&&◌, ◌||◌, List, [], ◌∷◌, ◌++◌, Option, none,
  some, ltb, leb, ◌==◌, if◌then◌else◌, length,
}
use gosshd_bastion.Base.Bytes.{Bytes}
use gosshd_bastion.Tunnel.Wire.{
  Packet, kind_data, kind_ack, kind_fin, kind_signal, kind_probe, kind_probe_ack,
  kind_file_operation, max_payload, window,
}
use gosshd_bastion.Tunnel.Conn.{
  PendingPacket, Conn, Env, Output, to_relay, to_direct, signal, file_operation, control, shutdown,
}

-- `acknowledge`.
unfoldable pub acknowledge : Env → ℕ → ℕ → Bool → Conn → List Output
acknowledge env seq path prefer_direct c =
    let p : Packet = record { kind = kind_ack; seq = seq; body = path ∷ [] } in
    if (prefer_direct || c.relay_lost) && c.has_direct && env.direct_ok
    then to_direct p ∷ []
    else if env.relay_ok
    then to_relay p ∷ []
    else []

-- The packet of a map with this sequence number.
unfoldable pub find_seq : ℕ → List Packet → Option Packet
find_seq n [] = none
find_seq n (p ∷ ps) = if p.seq == n then some p else find_seq n ps

unfoldable pub remove_seq : ℕ → List Packet → List Packet
remove_seq n [] = []
remove_seq n (p ∷ ps) = if p.seq == n then remove_seq n ps else p ∷ remove_seq n ps

abbrev pub is_some {ℓ} : {A : Type ℓ} → Option A → Bool
is_some none = false
is_some (some _) = true

abbrev pub pass_on : Packet → Conn → Conn
pass_on p c = record c {
  incoming = c.incoming ++ p ∷ [];
  buffered = remove_seq c.receive_next c.buffered;
  receive_next = c.receive_next + 1;
}

-- How the loop stops: nothing is next, the channel is full and the call waits for the reader, or the
-- connection is closed.
pub data Drained : Type 0 where
  passed_all : Drained
  waits_for_room : Drained
  gave_up : Drained

-- The channel `incoming` has as many places as the window.
abbrev pub is_full : Conn → Bool
is_full c = not (ltb (length c.incoming) window)

-- The loop that passes buffered packets on in order, up to where it stops or waits; each round takes
-- one, so their count is enough fuel.
unfoldable pub drain : Env → ℕ → Conn → Conn × Drained
drain env zero c = (c, passed_all)
drain env (suc fuel) c = elim (find_seq c.receive_next c.buffered) [
  | none ↦ (c, passed_all)
  | some p ↦
      let rest = drain env fuel (pass_on p c) in
      if c.closed && (is_full c || env.stops_at c.receive_next)
      then (c, gave_up)
      else if is_full c
      then (c, waits_for_room)
      else rest
]

abbrev slot_count : ℕ
slot_count = 128

-- A new packet is buffered, and its slot remembers the path.
unfoldable pub store_fresh : Packet → Bool → Conn → Conn
store_fresh p direct c = record c {
  buffered = c.buffered ++ p ∷ [];
  delivered = λ i.
      if i == p.seq % slot_count
      then record { seq = p.seq; path = if direct then 1 else 0 }
      else c.delivered i;
  received_direct =
      if direct && p.kind == kind_data
      then c.received_direct + length p.body
      else c.received_direct;
}

abbrev pub is_fresh : Packet → Conn → Bool
is_fresh p c = leb c.receive_next p.seq && not (is_some (find_seq p.seq c.buffered))

unfoldable pub store : Packet → Bool → Conn → Conn
unfolding store_fresh
store p direct c = if is_fresh p c then store_fresh p direct c else c

abbrev has_passed : Drained → Bool
has_passed passed_all = true
has_passed waits_for_room = false
has_passed gave_up = false

-- The end of the case `Data, Fin`, from the loop on. A call that waits for room goes on here when the
-- reader has taken a packet, and acknowledges only then.
unfoldable pub deliver : Env → Packet → Bool → ℕ → Conn → Conn × List Output
unfolding drain acknowledge
deliver env p direct path c =
    let (done, stop) = drain env (length c.buffered) c in
    (
      done,
      (if has_passed stop && (not (p.kind == kind_fin) || leb p.seq done.fin_read_seq)
          then acknowledge env p.seq path (direct && p.kind == kind_data && path == 1) done
          else []),
    )

-- The case `Data, Fin` of `receive`, up to where it waits if the channel is full.
unfoldable pub receive_payload : Env → Packet → Bool → Conn → Conn × List Output
unfolding store deliver
receive_payload env p direct c =
    let stored = store p direct c in
    let slot = stored.delivered (p.seq % slot_count) in
    let path = if slot.seq == p.seq then slot.path else 2 in
    if ltb max_payload (length p.body)
    then (shutdown c, [])
    else if leb (c.receive_next + window) p.seq
    then (c, [])
    else deliver env p direct path stored

abbrev pub without_pending : ℕ → List PendingPacket → List PendingPacket
without_pending n [] = []
without_pending n (q ∷ qs) =
    if q.packet.seq == n then without_pending n qs else q ∷ without_pending n qs

unfoldable pub find_pending : ℕ → List PendingPacket → Option Packet
find_pending n [] = none
find_pending n (q ∷ qs) = if q.packet.seq == n then some q.packet else find_pending n qs

-- The body of an acknowledgement says that the packet came on the direct path.
abbrev says_direct : Bytes → Bool
says_direct (c ∷ []) = c == 1
says_direct [] = false
says_direct (c ∷ d ∷ ds) = false

unfoldable pub receive_ack : Packet → Conn → Conn
receive_ack p c = elim (find_pending p.seq c.pending) [
  | none ↦ c
  | some q ↦ record c {
    pending = without_pending p.seq c.pending;
    sent_direct =
        if says_direct p.body && q.kind == kind_data
        then c.sent_direct + length q.body
        else c.sent_direct;
  }
]

unfoldable pub receive_probe : Env → Bool → Conn → List Output
receive_probe env direct c =
    if c.has_direct && env.direct_ok
    then to_direct (control kind_probe_ack)
      ∷ (if direct && not c.use_direct then to_direct (control kind_probe) ∷ [] else [])
    else []

abbrev pub is_payload : Packet → Bool
is_payload p = p.kind == kind_data || p.kind == kind_fin

-- The other cases of `receive`, with both handlers set.
unfoldable pub receive_control : Env → Packet → Bool → Conn → Conn × List Output
unfolding receive_ack receive_probe
receive_control env p direct c =
    if p.kind == kind_ack
    then (receive_ack p c, [])
    else if p.kind == kind_signal
    then (c, signal p.body ∷ [])
    else if p.kind == kind_file_operation
    then (c, (if not direct then file_operation p.body ∷ [] else []))
    else if p.kind == kind_probe
    then (c, receive_probe env direct c)
    else if p.kind == kind_probe_ack && direct && c.has_direct
    then (record c { use_direct = true }, [])
    else (c, [])

abbrev pub touch : Env → Bool → Conn → Conn
touch env direct c = if direct then record c { last_direct_receive = env.now } else c

unfoldable pub receive : Env → Packet → Bool → Conn → Conn × List Output
unfolding receive_payload receive_control
receive env p direct c =
    if is_payload p
    then receive_payload env p direct (touch env direct c)
    else receive_control env p direct (touch env direct c)
