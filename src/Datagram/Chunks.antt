-- ===== src/Datagram/Chunks.antt =====
-- The stream writer cuts the same datagrams out of a byte stream however it is divided into writes.
use gosshd_bastion.Base.{
  ℕ, zero, suc, ◌+◌, ◌≤◌, Bool, true, false, ◌∷◌, ◌++◌, none, some, ltb, if◌then◌else◌, length,
  take, drop, ◌≡◌, refl, sym, ap, ◌∙◌, subst, arith, append_assoc, length-append, length-drop,
  take-append_le, drop-append_le, Bool-cases, inl, inr, ==_refl, le→ltb,
}
use gosshd_bastion.Base.Bytes.{Bytes}
use gosshd_bastion.Base.Result.{ok}
use gosshd_bastion.Base.BigEndian.{put_be, get_be, get_be-put_be, length-put_be, read_full-append}
use gosshd_bastion.Datagram.{
  Socket, Sent, stop, flush_loop, stream_write, frame_of, write_datagram, read_datagram,
  max_datagram_size,
}

-- A socket that takes every datagram whole.
abbrev pub all_taken : Socket
all_taken d = some (length d)

abbrev flush : ℕ → Bytes → Sent
flush = flush_loop all_taken

-- Whether the buffer holds a whole frame.
abbrev has_frame : Bytes → Bool
has_frame b =
    if ltb (length b) 2
    then false
    else if ltb (length b) (get_be (take 2 b) + 2)
    then false
    else true

abbrev first_datagram : Bytes → Bytes
first_datagram b = take (get_be (take 2 b)) (drop 2 b)

abbrev behind_frame : Bytes → Bytes
behind_frame b = drop (get_be (take 2 b) + 2) b

flush_partial : (fuel : ℕ) (b : Bytes) → has_frame b ≡ false → flush fuel b ≡ stop b none
unfolding flush_loop
flush_partial zero b h = refl
flush_partial (suc fuel) b h = ground arith

flush_frame :
    (fuel : ℕ) (b : Bytes)
    → has_frame b ≡ true
    → flush (suc fuel) b ≡ record (flush fuel (behind_frame b)) {
      datagrams = first_datagram b ∷ (flush fuel (behind_frame b)).datagrams;
    }
unfolding flush_loop
flush_frame fuel b h = ground (arith, ==_refl (length (first_datagram b)))

has_frame-append :
    (x y : Bytes)
    → has_frame x ≡ true
    → (has_frame (x ++ y) ≡ true)
      × (first_datagram (x ++ y) ≡ first_datagram x)
      × (behind_frame (x ++ y) ≡ behind_frame x ++ y)
has_frame-append x y h =
    let n = get_be (take 2 x) in
    let big : n + 2 ≤ length x = ground arith in
    let size = take-append_le 2 x y (omega arith) in
    let tail = drop-append_le 2 x y (omega arith) in
    let inner = take-append_le n (drop 2 x) y (omega (arith, length-drop 2 x)) in
    (
      rw size (ground (arith, length-append x y)),
      rw (size, tail) inner,
      rw size (drop-append_le (n + 2) x y big),
    )

length-behind_frame : (b : Bytes) → has_frame b ≡ true → length (behind_frame b) + 2 ≤ length b
length-behind_frame b h = ground (arith, length-drop (get_be (take 2 b) + 2) b)

-- A first datagram, and the loop on the bytes behind it.
abbrev and_then : Bytes → Sent → Sent
and_then d s = record s { datagrams = d ∷ s.datagrams }

is_short : (b : Bytes) → length b ≤ 0 → has_frame b ≡ false
is_short b h = ground arith

-- Enough fuel gives one result.
flush_enough : (f g : ℕ) (b : Bytes) → length b ≤ f → length b ≤ g → flush f b ≡ flush g b
flush_enough zero g b hf hg =
    flush_partial zero b (is_short b hf) ∙ sym (flush_partial g b (is_short b hf))
flush_enough (suc f) zero b hf hg =
    flush_partial (suc f) b (is_short b hg) ∙ sym (flush_partial zero b (is_short b hg))
flush_enough (suc f) (suc g) b hf hg = elim (Bool-cases (has_frame b)) [
  | inr partial ↦ flush_partial (suc f) b partial ∙ sym (flush_partial (suc g) b partial)
  | inl whole ↦
      flush_frame f b whole
      ∙ ap (and_then (first_datagram b)) (
          flush_enough f g (behind_frame b) (omega (arith, length-behind_frame b whole))
            (omega (arith, length-behind_frame b whole)))
      ∙ sym (flush_frame g b whole)
]

-- One write after another.
abbrev pub after : Sent → Sent → Sent
after first second = record second { datagrams = first.datagrams ++ second.datagrams }

flush-append_partial :
    (f g h : ℕ) (x y : Bytes)
    → length (x ++ y) ≤ g
    → length ((flush f x).kept ++ y) ≤ h
    → has_frame x ≡ false
    → flush g (x ++ y) ≡ after (flush f x) (flush h ((flush f x).kept ++ y))
flush-append_partial f g h x y hg hh partial =
    let e = flush_partial f x partial in
    rw e (flush_enough g h (x ++ y) hg (subst (λ s. length (s.kept ++ y) ≤ h) e hh))

flush-append :
    (f g h : ℕ) (x y : Bytes)
    → length x ≤ f
    → length (x ++ y) ≤ g
    → length ((flush f x).kept ++ y) ≤ h
    → flush g (x ++ y) ≡ after (flush f x) (flush h ((flush f x).kept ++ y))
flush-append zero g h x y hf hg hh = flush-append_partial zero g h x y hg hh (is_short x hf)
flush-append (suc f) zero h x y hf hg hh =
    flush-append_partial (suc f) zero h x y hg hh (is_short x (omega (arith, length-append x y)))
flush-append (suc f) (suc g) h x y hf hg hh = elim (Bool-cases (has_frame x)) [
  | inr partial ↦ flush-append_partial (suc f) (suc g) h x y hg hh partial
  | inl whole ↦
      let (still, same, behind) = has_frame-append x y whole in
      let size = length-behind_frame x whole in
      let rest = behind_frame x in
      let ih =
        flush-append f g h rest y (omega (arith, size))
          (omega (arith, size, length-append x y, length-append rest y))
          (subst (λ s. length (s.kept ++ y) ≤ h) (flush_frame f x whole) hh) in
      rw (flush_frame f x whole, flush_frame g (x ++ y) still, same, behind)
        (ap (and_then (first_datagram x)) ih)
]

-- Whatever was kept, writing `a` and then `b` hands the socket the datagrams that one write of
-- `a ++ b` hands it, in the same order, and keeps the same bytes: where the relay cuts the stream
-- does not matter. (The socket takes every datagram whole.)
pub stream_write-append :
    (kept a b : Bytes)
    → stream_write all_taken kept (a ++ b)
      ≡ after
          (stream_write all_taken kept a)
          (stream_write all_taken (stream_write all_taken kept a).kept b)
unfolding stream_write
stream_write-append kept a b =
    let x = kept ++ a in
    ap (λ s. flush (length s) s) (sym (append_assoc kept a b))
    ∙ flush-append (length x) (length (x ++ b)) (length ((flush (length x) x).kept ++ b)) x b
        (omega arith) (omega arith) (omega arith)

write_datagram-ok :
    (d stream : Bytes)
    → write_datagram d ≡ ok stream
    → (length d ≤ max_datagram_size) × (stream ≡ frame_of d)
unfolding write_datagram
write_datagram-ok d stream h = ground arith

-- A datagram that `writeDatagram` puts on a stream is what `readDatagram` takes off it, and the
-- stream behind it is untouched, when the reader's buffer has room for the datagram.
pub read_datagram-write_datagram :
    (space : ℕ) (d rest stream : Bytes)
    → length d ≤ space
    → write_datagram d ≡ ok stream
    → read_datagram space (stream ++ rest) ≡ ok (d, rest)
unfolding read_datagram
read_datagram-write_datagram space d rest stream fits wrote =
    let (small, framed) = write_datagram-ok d stream wrote in
    let size = get_be-put_be 2 (length d) (omega arith) in
    rw
      (
        framed,
        append_assoc (put_be 2 (length d)) d rest,
        read_full-append 2 (put_be 2 (length d)) (d ++ rest) (length-put_be 2 (length d)),
        size,
        le→ltb space (length d) fits,
      )
      (read_full-append (length d) d rest refl)
