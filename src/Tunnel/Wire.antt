-- ===== src/Tunnel/Wire.antt =====
-- internal/tunnel/wire.go: packets, and their length-prefixed frames on the relay stream.
pub mod RoundTrip
use gosshd_bastion.Base.{
  ℕ, zero, suc, ◌+◌, ◌^◌, ◌≤◌, ◌<◌, Bool, ◌||◌, List, [], ◌∷◌, ◌++◌, ltb, if◌then◌else◌, length,
  take, drop, ◌≡◌, refl, arith, All, ap, ◌∙◌, length-append, append_assoc, le→ltb,
}
use gosshd_bastion.Base.Bytes.{Bytes, codes}
use gosshd_bastion.Base.Result.{Result, ok, err, ◌>>=◌}
use gosshd_bastion.Base.BigEndian.{
  put_be, get_be, get_be-put_be, length-put_be, read_full, read_full-append,
}

-- The kinds; a received packet may carry any other byte.
abbrev pub kind_data : ℕ
kind_data = 1

abbrev pub kind_ack : ℕ
kind_ack = 2

abbrev pub kind_fin : ℕ
kind_fin = 3

abbrev pub kind_signal : ℕ
kind_signal = 4

abbrev pub kind_stats : ℕ
kind_stats = 5

abbrev pub kind_probe : ℕ
kind_probe = 6

abbrev pub kind_probe_ack : ℕ
kind_probe_ack = 7

abbrev pub kind_file_operation : ℕ
kind_file_operation = 10

abbrev pub max_payload : ℕ
max_payload = 8192

abbrev pub max_packet : ℕ
max_packet = 65536

abbrev pub window : ℕ
window = 64

pub record Packet : Type 0 where
  pub kind : ℕ
  pub seq : ℕ
  pub body : Bytes

unfoldable pub packet_bytes : Packet → Bytes
packet_bytes p = p.kind ∷ (put_be 8 p.seq ++ p.body)

unfoldable pub parse : Bytes → Result Packet
parse [] = err (codes "invalid tunnel packet")
parse (kind ∷ rest) =
    if ltb (suc (length rest)) 9 || ltb max_packet (suc (length rest))
    then err (codes "invalid tunnel packet")
    else ok (record { kind = kind; seq = get_be (take 8 rest); body = drop 8 rest })

-- `Relay.Read` behind the size: on the bytes that the relay still has to give, with those that it
-- leaves.
unfoldable pub read_sized : ℕ → Bytes → Result (Packet × Bytes)
unfolding parse
read_sized n stream =
    if ltb n 9 || ltb max_packet n
    then err (codes "invalid tunnel packet size")
    else read_full n stream >>= λ r. parse r.0 >>= λ p. ok (p, r.1)

unfoldable pub relay_read : Bytes → Result (Packet × Bytes)
unfolding read_sized
relay_read stream = do (size, rest) ← read_full 4 stream; read_sized (get_be size) rest

-- `Relay.Send`: what is written to the relay.
unfoldable pub relay_send : Packet → Result Bytes
unfolding packet_bytes
relay_send p =
    let b = packet_bytes p in
    if ltb max_packet (length b)
    then err (codes "tunnel packet too large")
    else ok (put_be 4 (length b) ++ b)
