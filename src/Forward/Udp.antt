-- ===== src/Forward/Udp.antt =====
-- internal/forward/udp.go: the sessions of a UDP listener. A packet that waits is its bytes.
pub mod Queues
pub mod Bounds
use gosshd_bastion.Base.{
  ℕ, ◌+◌, ◌-◌, Bool, true, false, not, ◌&&◌, List, [], ◌∷◌, ◌++◌, Option, none, some, ltb, leb,
  if◌then◌else◌, length,
}
use gosshd_bastion.Base.Bytes.{Bytes, bytes_eq}

-- A packet between `queued.Add` and the channel; `fits` says that the sum was not over the bound. The
-- loop holds the lock of the sessions meanwhile.
pub record Arriving : Type 0 where
  pub key : Bytes
  pub payload : Bytes
  pub fits : Bool

-- `sources` and `queued`; and what is under way: the packet that the loop has, and for each sender
-- the bytes of a packet that it took off its channel and has not subtracted yet.
pub record UdpSessions : Type 0 where
  pub sources : List (Bytes × List Bytes)
  pub queued : ℕ
  pub arriving : Option Arriving
  pub sending : List (Bytes × Bytes)

abbrev pub max_udp_sessions : ℕ
max_udp_sessions = 1024

abbrev pub max_udp_queued_bytes : ℕ
max_udp_queued_bytes = 8388608

-- The capacity of the channel `packets`.
abbrev pub max_packets : ℕ
max_packets = 16

unfoldable pub queue_of : Bytes → List (Bytes × List Bytes) → Option (List Bytes)
unfolding bytes_eq
queue_of key [] = none
queue_of key ((k, packets) ∷ rest) = if bytes_eq k key then some packets else queue_of key rest

unfoldable pub set_queue :
    Bytes → List Bytes → List (Bytes × List Bytes) → List (Bytes × List Bytes)
unfolding bytes_eq
set_queue key packets [] = []
set_queue key packets ((k, old) ∷ rest) =
    if bytes_eq k key then (k, packets) ∷ rest else (k, old) ∷ set_queue key packets rest

unfoldable pub drop_source : Bytes → List (Bytes × List Bytes) → List (Bytes × List Bytes)
unfolding bytes_eq
drop_source key [] = []
drop_source key ((k, old) ∷ rest) = if bytes_eq k key then rest else (k, old) ∷ drop_source key rest

-- A source for the address, if there is room for one and the runtime is not cancelled.
unfoldable pub with_source : Bool → Bytes → UdpSessions → UdpSessions
unfolding queue_of
with_source cancelled key s = elim (queue_of key s.sources) [
  | some packets ↦ s
  | none ↦
      if ltb (length s.sources) max_udp_sessions && not cancelled
      then record s { sources = (key, []) ∷ s.sources }
      else s
]

-- The size of a packet, and one.
abbrev pub cost : Bytes → ℕ
cost b = length b + 1

-- The packet of a source that is there is counted first.
unfoldable pub reserve_packet : Bytes → Bytes → UdpSessions → UdpSessions
unfolding queue_of
reserve_packet key payload s = elim (queue_of key s.sources) [
  | none ↦ s
  | some packets ↦ record s {
    queued = s.queued + cost payload;
    arriving = some (record {
      key = key;
      payload = payload;
      fits = leb (s.queued + cost payload) max_udp_queued_bytes;
    });
  }
]

-- The loop takes the lock and a packet, up to where it is counted; nothing if it still has one.
unfoldable pub receive_packet : Bool → Bytes → Bytes → UdpSessions → UdpSessions
unfolding with_source reserve_packet
receive_packet cancelled key payload s = elim s.arriving [
  | none ↦ reserve_packet key payload (with_source cancelled key s)
  | some a ↦ s
]

-- It is not counted any more.
abbrev pub undone : Arriving → UdpSessions → UdpSessions
undone a s = record s { queued = s.queued - cost a.payload; arriving = none }

-- The rest of the loop's body: the packet goes into the channel, if it fits and there is room.
unfoldable pub queue_packet : Arriving → UdpSessions → UdpSessions
unfolding queue_of set_queue
queue_packet a s = elim (queue_of a.key s.sources) [
  | none ↦ undone a s
  | some packets ↦
      if a.fits && ltb (length packets) max_packets
      then record s {
        sources = set_queue a.key (packets ++ a.payload ∷ []) s.sources;
        arriving = none;
      }
      else undone a s
]

unfoldable pub settle_packet : UdpSessions → UdpSessions
unfolding queue_packet
settle_packet s = elim s.arriving [ none ↦ s | some a ↦ queue_packet a s ]

-- The sender of a session takes a packet off its channel, without the lock.
unfoldable pub take_packet : Bytes → UdpSessions → UdpSessions
unfolding queue_of set_queue
take_packet key s = elim (queue_of key s.sources) [
  | none ↦ s
  | some packets ↦ elim packets [
    | [] ↦ s
    | b ∷ rest ↦ record s { sources = set_queue key rest s.sources; sending = (key, b) ∷ s.sending }
  ]
]

unfoldable pub taken_of : Bytes → List (Bytes × Bytes) → Option Bytes
unfolding bytes_eq
taken_of key [] = none
taken_of key ((k, b) ∷ rest) = if bytes_eq k key then some b else taken_of key rest

unfoldable pub without_taken : Bytes → List (Bytes × Bytes) → List (Bytes × Bytes)
unfolding bytes_eq
without_taken key [] = []
without_taken key ((k, b) ∷ rest) = if bytes_eq k key then rest else (k, b) ∷ without_taken key rest

-- Then it subtracts the packet's bytes from the counter.
unfoldable pub uncount_packet : Bytes → UdpSessions → UdpSessions
unfolding taken_of without_taken
uncount_packet key s = elim (taken_of key s.sending) [
  | none ↦ s
  | some b ↦ record s { queued = s.queued - cost b; sending = without_taken key s.sending }
]

-- What the packets of a queue count for.
unfoldable pub queue_bytes : List Bytes → ℕ
queue_bytes [] = 0
queue_bytes (b ∷ packets) = cost b + queue_bytes packets

-- The end of a session, under the lock, so not while the loop has a packet: its source is deleted and
-- its queue drained.
unfoldable pub end_session : Bytes → UdpSessions → UdpSessions
unfolding queue_of drop_source queue_bytes
end_session key s = elim s.arriving [
  | some a ↦ s
  | none ↦ elim (queue_of key s.sources) [
    | none ↦ s
    | some packets ↦ record s {
      sources = drop_source key s.sources;
      queued = s.queued - queue_bytes packets;
    }
  ]
]
