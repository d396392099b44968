-- ===== src/Tunnel/Conn.antt =====
-- internal/tunnel/conn.go: the state of one end of a connection, and what it sends. A method is a
-- function from the state to the new state and the packets that it sends; its locks make it one
-- step. The map `pending` is a list of packets with the time of their last transmission, `buffered`
-- a list of packets, both keyed by the sequence number of the packet; `delivered` is a function from
-- the slot. Sequence numbers do not reach 2^64. What the clock and the two paths answer is an
-- argument, `Env`. A send to the channel `incoming` waits while 64 packets are unread; the model has
-- it done at once.
use gosshd_bastion.Base.{
  ℕ, ◌+◌, Bool, true, false, not, ◌&&◌, List, [], ◌∷◌, ◌++◌, ltb, if◌then◌else◌, length,
}
use gosshd_bastion.Base.Bytes.{Bytes}
use gosshd_bastion.Tunnel.Wire.{Packet, window}

pub record PendingPacket : Type 0 where
  pub packet : Packet
  pub last : ℕ

pub record Slot : Type 0 where
  pub seq : ℕ
  pub path : ℕ

pub record Conn : Type 0 where
  pub keep_direct_on_relay_loss : Bool
  pub relay_lost : Bool
  pub last_direct_receive : ℕ
  pub fin_read_seq : ℕ
  pub next : ℕ
  pub receive_next : ℕ
  pub pending : List PendingPacket
  pub buffered : List Packet
  pub has_direct : Bool
  pub use_direct : Bool
  pub sent_direct : ℕ
  pub received_direct : ℕ
  pub delivered : ℕ → Slot
  pub incoming : List Packet
  pub read_eof : Bool
  pub read_buffer : Bytes
  pub closed_write : Bool
  pub closed : Bool

abbrev pub new_conn : Conn
new_conn = record {
  keep_direct_on_relay_loss = false;
  relay_lost = false;
  last_direct_receive = 0;
  fin_read_seq = 0;
  next = 1;
  receive_next = 1;
  pending = [];
  buffered = [];
  has_direct = false;
  use_direct = false;
  sent_direct = 0;
  received_direct = 0;
  delivered = λ _. record { seq = 0; path = 0 };
  incoming = [];
  read_eof = false;
  read_buffer = [];
  closed_write = false;
  closed = false;
}

-- The time in nanoseconds, whether a send on each path succeeds now, and whether a `select` between
-- room in a channel and the end of the connection takes the end, at the packet with this number.
pub record Env : Type 0 where
  pub now : ℕ
  pub direct_ok : Bool
  pub relay_ok : Bool
  pub stops_at : ℕ → Bool

pub data Output : Type 0 where
  to_relay to_direct : Packet → Output
  signal file_operation : Bytes → Output

abbrev pub control : ℕ → Packet
control kind = record { kind = kind; seq = 0; body = [] }

unfoldable pub shutdown : Conn → Conn
shutdown c = if c.closed then c else record c { closed = true; has_direct = false }

unfoldable pub disable_direct : Conn → Conn
unfolding shutdown
disable_direct c =
    let c' = record c { use_direct = false } in if c.relay_lost then shutdown c' else c'

-- `send`; the flag is false if both paths refuse the packet.
unfoldable pub send : Env → Packet → Conn → Conn × List Output × Bool
unfolding disable_direct
send env p c =
    if c.use_direct && c.has_direct && env.direct_ok then (c, to_direct p ∷ [], true) else (
      if c.use_direct && c.has_direct then disable_direct c else c,
      (if env.relay_ok then to_relay p ∷ [] else []),
      env.relay_ok,
    )

-- `queue` waits while the window is full.
pub data Queued : Type 0 where
  waits is_closed : Queued
  queued failed : Conn → List Output → Queued

abbrev pub fresh_packet : ℕ → Bytes → Conn → Packet
fresh_packet kind body c = record { kind = kind; seq = c.next; body = body }

abbrev pub enqueue : Env → Packet → Conn → Conn
enqueue env p c = record c {
  next = c.next + 1;
  pending = c.pending ++ (record { packet = p; last = env.now } ∷ []);
}

unfoldable pub queue : Env → ℕ → Bytes → Conn → Queued
unfolding send shutdown
queue env kind body c =
    let p = fresh_packet kind body c in
    let (c', out, sent) = send env p (enqueue env p c) in
    if c.closed
    then is_closed
    else if not (ltb (length c.pending) window)
    then waits
    else if sent
    then queued c' out
    else failed (shutdown c') out
