-- ===== src/Tunnel/Wire/RoundTrip.antt =====
-- What `Send` writes to the relay, `Read` reads back.
use gosshd_bastion.Base.{
  ℕ, zero, suc, ◌+◌, ◌^◌, ◌≤◌, ◌<◌, List, [], ◌∷◌, ◌++◌, length, ◌≡◌, refl, arith, All,
  length-append, append_assoc, take-append_exact, drop-append_exact,
}
use gosshd_bastion.Base.Bytes.{Bytes}
use gosshd_bastion.Base.Result.{Result, ok, ◌>>=◌}
use gosshd_bastion.Base.BigEndian.{put_be, get_be-put_be, length-put_be, read_full-append, IsByte}
use gosshd_bastion.Tunnel.Wire.{
  Packet, max_packet, packet_bytes, parse, read_sized, relay_read, relay_send,
}

-- The ranges of the Go fields, and a body that fits a packet.
pub record IsPacket (p : Packet) : Type 0 where
  pub kind_byte : IsByte p.kind
  pub seq_fits : p.seq < 256 ^ 8
  pub body_fits : length p.body + 9 ≤ max_packet

length-packet_bytes : (p : Packet) → length (packet_bytes p) ≡ length p.body + 9
unfolding packet_bytes
length-packet_bytes p = omega (arith, length-append (put_be 8 p.seq) p.body, length-put_be 8 p.seq)

-- `Parse` undoes `Bytes` on a packet that has a kind of one byte, a sequence number of 64 bits and a
-- body of at most 65527 bytes.
pub parse-packet_bytes : (p : Packet) → IsPacket p → parse (packet_bytes p) ≡ ok p
unfolding parse packet_bytes
parse-packet_bytes p h =
    let width = length-put_be 8 p.seq in
    ground (
      arith,
      length-packet_bytes p,
      take-append_exact 8 (put_be 8 p.seq) p.body width,
      drop-append_exact 8 (put_be 8 p.seq) p.body width,
      get_be-put_be 8 p.seq h.seq_fits,
    )

pub relay_send_ok :
    (p : Packet) → IsPacket p → relay_send p ≡ ok (put_be 4 (length p.body + 9) ++ packet_bytes p)
unfolding relay_send
relay_send_ok p h = rw (length-packet_bytes p) (ground arith)

-- Reading the frame of a packet gives the packet, and leaves what follows.
read_sized_frame :
    (p : Packet) (rest : Bytes)
    → IsPacket p
    → read_sized (length p.body + 9) (packet_bytes p ++ rest) ≡ ok (p, rest)
unfolding read_sized
read_sized_frame p rest h = ground (
  arith,
  read_full-append (length p.body + 9) (packet_bytes p) rest (length-packet_bytes p),
  parse-packet_bytes p h,
)

relay_read_frame :
    (p : Packet) (rest : Bytes)
    → IsPacket p
    → relay_read (put_be 4 (length p.body + 9) ++ (packet_bytes p ++ rest)) ≡ ok (p, rest)
unfolding relay_read
relay_read_frame p rest h =
    let size = put_be 4 (length p.body + 9) in
    ground (
      arith,
      read_full-append 4 size (packet_bytes p ++ rest) (length-put_be 4 (length p.body + 9)),
      get_be-put_be 4 (length p.body + 9) (omega (arith, h.body_fits)),
      read_sized_frame p rest h,
    )

-- Send and read a list of packets, one after the other.
abbrev pub send_all : List Packet → Result Bytes
send_all [] = ok []
send_all (p ∷ ps) = relay_send p >>= λ b. send_all ps >>= λ bs. ok (b ++ bs)

abbrev pub read_count : ℕ → Bytes → Result (List Packet × Bytes)
read_count zero stream = ok ([], stream)
read_count (suc n) stream =
    relay_read stream >>= λ r. read_count n r.1 >>= λ rs. ok (r.0 ∷ rs.0, rs.1)

abbrev frames : List Packet → Bytes
frames [] = []
frames (p ∷ ps) = (put_be 4 (length p.body + 9) ++ packet_bytes p) ++ frames ps

send_all_ok : (ps : List Packet) → All IsPacket ps → send_all ps ≡ ok (frames ps)
send_all_ok [] h = refl
send_all_ok (p ∷ ps) (hp, hs) = ground (arith, relay_send_ok p hp, send_all_ok ps hs)

read_count-frames :
    (ps : List Packet) (rest : Bytes)
    → All IsPacket ps
    → read_count (length ps) (frames ps ++ rest) ≡ ok (ps, rest)
read_count-frames [] rest h = refl
read_count-frames (p ∷ ps) rest (hp, hs) =
    let size = put_be 4 (length p.body + 9) in
    ground (
      arith,
      append_assoc (size ++ packet_bytes p) (frames ps) rest,
      append_assoc size (packet_bytes p) (frames ps ++ rest),
      relay_read_frame p (frames ps ++ rest) hp,
      read_count-frames ps rest hs,
    )

-- Packets sent one after the other are all accepted, and are read back in their order, with what
-- follows them left on the stream, if each has a kind of one byte, a sequence number of 64 bits and
-- a body of at most 65527 bytes.
pub read_count-send_all :
    (ps : List Packet) (rest : Bytes)
    → All IsPacket ps
    → (send_all ps >>= λ stream. read_count (length ps) (stream ++ rest)) ≡ ok (ps, rest)
read_count-send_all ps rest h = rw (send_all_ok ps h) (read_count-frames ps rest h)
