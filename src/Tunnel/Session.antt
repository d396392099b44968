-- ===== src/Tunnel/Session.antt =====
-- internal/tunnel/conn.go: the methods of `Conn` that its owner calls, `Read`, `Write`,
-- `CloseWrite`, `SetDirect` and `ReportStats`, one tick of `retransmit`, and the end of `Run`.
-- A call that would wait says so.
use gosshd_bastion.Base.{
  ℕ, zero, suc, ◌-◌, ◌*◌, ◌%◌, Bool, true, false, not, ◌&&◌, ◌||◌, List, [], ◌∷◌, ◌++◌, ltb, ◌==◌,
  if◌then◌else◌, length, is_empty, take, drop,
}
use gosshd_bastion.Base.Bytes.{Bytes}
use gosshd_bastion.Base.BigEndian.{put_be}
use gosshd_bastion.Tunnel.Wire.{Packet, kind_data, kind_fin, kind_probe, kind_stats, max_payload}
use gosshd_bastion.Tunnel.Conn.{
  Conn, Env, Output, to_direct, to_relay, PendingPacket, Queued, waits, is_closed, queued, failed,
  queue, send, shutdown,
}
use gosshd_bastion.Tunnel.Receive.{acknowledge}

-- What `Read` returns: nothing yet, the end of the stream, or bytes.
pub data ReadResult : Type 0 where
  blocks : ReadResult
  eof : ReadResult
  bytes : Bytes → ReadResult

-- The path of a packet that `delivered` still remembers; 0 for another.
abbrev fin_path : Packet → Conn → ℕ
fin_path p c = let slot = c.delivered (p.seq % 128) in if slot.seq == p.seq then slot.path else 0

abbrev take_buffer : ℕ → Conn → Conn × ReadResult × List Output
take_buffer n c =
    (record c { read_buffer = drop n c.read_buffer }, bytes (take n c.read_buffer), [])

abbrev read_fin : Env → Packet → Conn → Conn × ReadResult × List Output
read_fin env p c =
    let c' = record c { read_eof = true; fin_read_seq = p.seq } in
    (c', eof, acknowledge env p.seq (fin_path p c) (fin_path p c == 1) c')

-- The loop over `incoming` while the read buffer is empty; the list is what the channel holds.
unfoldable pub read_loop : Env → ℕ → List Packet → Conn → Conn × ReadResult × List Output
read_loop env n [] c = (record c { incoming = [] }, (if c.closed then eof else blocks), [])
read_loop env n (p ∷ ps) c =
    let rest = read_loop env n ps c in
    if p.kind == kind_fin
    then read_fin env p (record c { incoming = ps })
    else if is_empty p.body
    then rest
    else take_buffer n (record c { incoming = ps; read_buffer = p.body })

unfoldable pub read : Env → ℕ → Conn → Conn × ReadResult × List Output
unfolding read_loop acknowledge
read env n c =
    if n == 0
    then (c, bytes [], [])
    else if c.read_eof
    then (c, eof, [])
    else if not (is_empty c.read_buffer)
    then take_buffer n c
    else read_loop env n c.incoming c

-- What `Write` has done when it stops: all is queued, it waits for the window with these bytes left,
-- or it failed with these bytes left.
pub data WriteResult : Type 0 where
  written : Conn → List Output → WriteResult
  write_waits : Conn → List Output → Bytes → WriteResult
  write_failed : Conn → List Output → Bytes → WriteResult

abbrev append_output : List Output → WriteResult → WriteResult
append_output out (written c o) = written c (out ++ o)
append_output out (write_waits c o b) = write_waits c (out ++ o) b
append_output out (write_failed c o b) = write_failed c (out ++ o) b

-- A round takes a byte at least, so the count of the bytes is enough fuel.
unfoldable pub write_loop : Env → ℕ → Bytes → Conn → WriteResult
write_loop env zero b c = written c []
write_loop env (suc fuel) [] c = written c []
write_loop env (suc fuel) (x ∷ b) c = elim (queue env kind_data (take max_payload (x ∷ b)) c) [
  | waits ↦ write_waits c [] (x ∷ b)
  | is_closed ↦ write_failed c [] (x ∷ b)
  | failed c' out ↦ write_failed c' out (x ∷ b)
  | queued c' out ↦ append_output out (write_loop env fuel (drop max_payload (x ∷ b)) c')
]

unfoldable pub write : Env → Bytes → Conn → WriteResult
unfolding write_loop
write env b c = if c.closed_write then write_failed c [] b else write_loop env (length b) b c

unfoldable pub close_write : Env → Conn → Queued
close_write env c =
    if c.closed_write then queued c [] else queue env kind_fin [] (record c { closed_write = true })

-- `SetDirect`: a path is installed, or taken away.
unfoldable pub set_direct : Env → Bool → Conn → Conn × List Output
set_direct env installed c = (
  record c { has_direct = installed; use_direct = false },
  (if installed && env.direct_ok
      then to_direct (record { kind = kind_probe; seq = 0; body = [] }) ∷ []
      else []),
)

unfoldable pub report_stats : Conn → Packet
unfolding put_be
report_stats c = record {
  kind = kind_stats;
  seq = 0;
  body =
      put_be 8 c.sent_direct
      ++ put_be 8 c.received_direct
      ++ (if c.use_direct && c.has_direct then 1 else 0) ∷ [];
}

-- The end of `Run`: reading the relay has failed.
unfoldable pub lose_relay : Env → Conn → Conn
unfolding shutdown
lose_relay env c =
    if c.keep_direct_on_relay_loss && c.use_direct && c.has_direct
    then record c { relay_lost = true; last_direct_receive = env.now }
    else shutdown (record c { relay_lost = true })

abbrev pub second : ℕ
second = 1_000_000_000

-- `now.Sub(p.last) > time.Second`.
abbrev overdue : ℕ → PendingPacket → Bool
overdue now q = ltb second (now - q.last)

unfoldable pub overdue_packets : ℕ → List PendingPacket → List Packet
overdue_packets now [] = []
overdue_packets now (q ∷ qs) =
    if overdue now q then q.packet ∷ overdue_packets now qs else overdue_packets now qs

unfoldable pub restamp : ℕ → List PendingPacket → List PendingPacket
restamp now [] = []
restamp now (q ∷ qs) = (if overdue now q then record q { last = now } else q) ∷ restamp now qs

-- A packet that is due goes over the relay, or by `send` if the relay is lost.
unfoldable pub resend_one : Env → Packet → Conn → Conn × List Output × Bool
unfolding send
resend_one env p c =
    if c.relay_lost
    then send env p c
    else (c, (if env.relay_ok then to_relay p ∷ [] else []), env.relay_ok)

-- At the first failure, which the flag tells, the connection is shut down.
unfoldable pub resend : Env → List Packet → Conn → Conn × List Output × Bool
unfolding resend_one shutdown
resend env [] c = (c, [], true)
resend env (p ∷ ps) c =
    let (c', out, sent) = resend_one env p c in
    let rest = resend env ps c' in
    if sent then (rest.0, out ++ rest.1, rest.2) else (shutdown c', out, false)

-- The packets that are due get a new time, and stop the use of the direct path while the relay is
-- there.
unfoldable pub stamp : Env → Conn → Conn
unfolding overdue_packets restamp
stamp env c = record c {
  pending = restamp env.now c.pending;
  use_direct = c.use_direct && (c.relay_lost || is_empty (overdue_packets env.now c.pending));
}

-- Without the relay the connection ends with the direct path, or 15 seconds after its last packet.
unfoldable pub is_expired : Env → Conn → Bool
is_expired env c =
    c.relay_lost && (not c.use_direct || ltb (15 * second) (env.now - c.last_direct_receive))

-- One tick of the timer; the flag says that it is a fourth one, which probes the direct path.
unfoldable pub retransmit : Env → Bool → Conn → Conn × List Output
unfolding resend stamp is_expired overdue_packets
retransmit env probes c =
    let stamped = stamp env c in
    let done = resend env (overdue_packets env.now c.pending) stamped in
    if is_expired env stamped then (shutdown stamped, []) else (
      done.0,
      done.1
          ++ (if probes && c.has_direct && env.direct_ok && done.2
              then to_direct (record { kind = kind_probe; seq = 0; body = [] }) ∷ []
              else []),
    )
