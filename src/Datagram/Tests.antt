-- ===== src/Datagram/Tests.antt =====
-- The theorems on datagrams at small streams.
use gosshd_bastion.Base.{[], ◌∷◌, ◌++◌, ◌≡◌, refl, arith}
use gosshd_bastion.Base.Bytes.{codes}
use gosshd_bastion.Base.Result.{ok}
use gosshd_bastion.Base.BigEndian.{get_be}
use gosshd_bastion.Datagram.{stream_write, flush_loop, write_datagram, read_datagram, frame_of}
use gosshd_bastion.Datagram.Chunks.{
  all_taken, after, stream_write-append, read_datagram-write_datagram,
}

-- Two datagrams of one byte, and the first byte of a third, come out of a buffer.
two_of_three :
    (stream_write all_taken [] (0 ∷ 1 ∷ 7 ∷ 0 ∷ 1 ∷ 8 ∷ 0 ∷ [])).datagrams
    ≡ (7 ∷ []) ∷ (8 ∷ []) ∷ []
unfolding stream_write flush_loop get_be
two_of_three = refl

stream_write-append_example :
    stream_write all_taken (0 ∷ []) ((2 ∷ 7 ∷ []) ++ (8 ∷ 0 ∷ []))
    ≡ after
        (stream_write all_taken (0 ∷ []) (2 ∷ 7 ∷ []))
        (stream_write all_taken (stream_write all_taken (0 ∷ []) (2 ∷ 7 ∷ [])).kept (8 ∷ 0 ∷ []))
stream_write-append_example = stream_write-append (0 ∷ []) (2 ∷ 7 ∷ []) (8 ∷ 0 ∷ [])

read_datagram-write_datagram_example :
    read_datagram 1500 (frame_of (codes "hi") ++ codes "rest") ≡ ok (codes "hi", codes "rest")
unfolding write_datagram
read_datagram-write_datagram_example =
    read_datagram-write_datagram 1500 (codes "hi") (codes "rest") (frame_of (codes "hi"))
      (omega arith) refl
