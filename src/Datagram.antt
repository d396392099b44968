-- ===== src/Datagram.antt =====
-- internal/forward/datagram.go: UDP datagrams on a byte stream, each behind its length in two bytes.
pub mod Chunks
mod Tests
use gosshd_bastion.Base.{
  ℕ, zero, suc, ◌+◌, ◌-◌, Bool, List, [], ◌∷◌, ◌++◌, Option, none, some, ltb, ◌==◌, if◌then◌else◌,
  length, take, drop, is_empty,
}
use gosshd_bastion.Base.Bytes.{Bytes, codes}
use gosshd_bastion.Base.Result.{Result, ok, err, ◌>>=◌}
use gosshd_bastion.Base.BigEndian.{put_be, get_be, read_full}

abbrev pub max_datagram_size : ℕ
max_datagram_size = 65535

abbrev pub frame_of : Bytes → Bytes
frame_of d = put_be 2 (length d) ++ d

-- What a write to the socket answers: the count of bytes written, or `none` for an error.
abbrev pub Socket : Type 0
Socket = Bytes → Option ℕ

-- The end of `datagramStream.Write`: the datagrams that the socket was given, the bytes kept in
-- `writeBuf`, and the error.
pub record Sent : Type 0 where
  pub datagrams : List Bytes
  pub kept : Bytes
  pub failure : Option Bytes

abbrev prepend : Bytes → Sent → Sent
prepend d s = record s { datagrams = d ∷ s.datagrams }

abbrev pub stop : Bytes → Option Bytes → Sent
stop kept failure = record { datagrams = []; kept = kept; failure = failure }

-- What follows a write of `d` to the socket; `rest` is the loop on the bytes behind.
abbrev pub after_write : Option ℕ → Bytes → Bytes → Sent → Sent
after_write none d buffer rest = stop buffer (some (codes "write failed"))
after_write (some n) d buffer rest =
    if n == length d then prepend d rest else stop buffer (some (codes "short write"))

-- The loop over `writeBuf`. A round takes two bytes at least, so their count is enough fuel.
unfoldable pub flush_loop : Socket → ℕ → Bytes → Sent
flush_loop socket zero buffer = stop buffer none
flush_loop socket (suc fuel) buffer =
    let n = get_be (take 2 buffer) in
    let d = take n (drop 2 buffer) in
    let rest = flush_loop socket fuel (drop (n + 2) buffer) in
    if ltb (length buffer) 2
    then stop buffer none
    else if ltb (length buffer) (n + 2)
    then stop buffer none
    else after_write (socket d) d buffer rest

-- `datagramStream.Write` of `b` with `kept` in the buffer.
unfoldable pub stream_write : Socket → Bytes → Bytes → Sent
unfolding flush_loop
stream_write socket kept b = flush_loop socket (length (kept ++ b)) (kept ++ b)

-- `datagramStream.Read` of up to `n` bytes, with `buffer` unread of the last frame and the datagrams
-- that the socket still gives: the bytes, the new buffer and the datagrams left.
unfoldable pub stream_read : ℕ → Bytes → List Bytes → Result (Bytes × Bytes × List Bytes)
stream_read n (c ∷ buffer) socket = ok (take n (c ∷ buffer), drop n (c ∷ buffer), socket)
stream_read n [] [] = if n == 0 then ok ([], [], []) else err (codes "read failed")
stream_read n [] (d ∷ socket) =
    if n == 0
    then ok ([], [], d ∷ socket)
    else ok (take n (frame_of d), drop n (frame_of d), socket)

-- `writeDatagram`: what is written to the stream. (A writer that takes a part gets the rest again.)
unfoldable pub write_datagram : Bytes → Result Bytes
write_datagram b =
    if ltb max_datagram_size (length b)
    then err (codes "UDP datagram too large")
    else ok (frame_of b)

-- `readDatagram` into a buffer of `space` bytes: the datagram, and the bytes left on the stream.
unfoldable pub read_datagram : ℕ → Bytes → Result (Bytes × Bytes)
unfolding read_full
read_datagram space stream = do
  (header, rest) ← read_full 2 stream
  if ltb space (get_be header) then err (codes "short buffer") else read_full (get_be header) rest
