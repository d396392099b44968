-- ===== src/FileTransfer/RoundTrip.antt =====
-- A file that `Send` puts on a stream is what `Receive` hands on, where both writers take all bytes.
use gosshd_bastion.Base.{
  ℕ, zero, suc, ◌+◌, ◌-◌, ◌≤◌, ◌<◌, ◌^◌, false, List, [], ◌∷◌, ◌++◌, none, some, length, take, drop,
  min, ◌≡◌, refl, sym, ap, ◌∙◌, subst, arith, length-append, length-take, length-drop, append_assoc,
  append-nil, take-append-drop, take-append_exact, drop-append_exact, ==_refl, le→ltb,
}
use gosshd_bastion.Base.Bytes.{Bytes}
use gosshd_bastion.Base.Result.{ok}
use gosshd_bastion.Base.BigEndian.{
  read_full, read_full-append, get_be, put_be, get_be-put_be, length-put_be,
}
use gosshd_bastion.FileTransfer.{
  Checksums, Writer, Outcome, after_write, behind, send, send_loop, send_end, receive, receive_loop,
  receive_end, read_record, open_record, check_chunk, chunk_record, finish_record, max_chunk_size,
  max_size, kind_chunk,
}

abbrev pub accept_all : Writer
accept_all i b = (length b, false)

after_write-accept_all :
    (i : ℕ) (b : Bytes) (progress : List ℕ) (rest : Outcome)
    → after_write (accept_all i b) b progress rest ≡ behind b progress rest
unfolding after_write
after_write-accept_all i b progress rest = rw (==_refl (length b)) refl

module _ (sums : Checksums) where
  open sums use {crc32, sha256}

  check_chunk-append :
      (d rest : Bytes)
      → crc32 d < 256 ^ 4
      → check_chunk sums (put_be 4 (crc32 d) ++ d) rest ≡ ok (some (d, rest))
  unfolding check_chunk
  check_chunk-append d rest small =
      let sum = put_be 4 (crc32 d) in
      rw
        (
          take-append_exact 4 sum d (length-put_be 4 (crc32 d)),
          drop-append_exact 4 sum d (length-put_be 4 (crc32 d)),
          get_be-put_be 4 (crc32 d) small,
          ==_refl (crc32 d),
        )
        refl

  open_record-chunk :
      (size written : ℕ) (d rest : Bytes)
      → crc32 d < 256 ^ 4
      → 0 < length d
      → length d ≤ max_chunk_size
      → written + length d ≤ size
      → open_record sums size written kind_chunk (4 + length d) ((put_be 4 (crc32 d) ++ d) ++ rest)
        ≡ ok (some (d, rest))
  unfolding open_record
  open_record-chunk size written d rest small some_bytes fits room =
      let content = put_be 4 (crc32 d) ++ d in
      ground (
        arith,
        read_full-append (4 + length d) content rest
            (length-append (put_be 4 (crc32 d)) d ∙ omega (arith, length-put_be 4 (crc32 d))),
        check_chunk-append d rest small,
      )

  read_record-chunk_record :
      (size written : ℕ) (d rest : Bytes)
      → crc32 d < 256 ^ 4
      → 0 < length d
      → length d ≤ max_chunk_size
      → written + length d ≤ size
      → read_record sums size written (chunk_record sums d ++ rest) ≡ ok (some (d, rest))
  unfolding read_record chunk_record get_be
  read_record-chunk_record size written d rest small some_bytes fits room =
      let count = put_be 4 (4 + length d) in
      let content = put_be 4 (crc32 d) ++ d in
      rw
        (
          append_assoc count content rest,
          read_full-append 5 (kind_chunk ∷ count) (content ++ rest)
              (omega (arith, length-put_be 4 (4 + length d))),
          get_be-put_be 4 (4 + length d) (omega arith),
        )
        (open_record-chunk size written d rest small some_bytes fits room)

  length-chunk_record : (d : Bytes) → 0 < length (chunk_record sums d)
  unfolding chunk_record
  length-chunk_record d = omega arith

  read_record-finish_record :
      (size written : ℕ) → read_record sums size written finish_record ≡ ok none
  unfolding read_record open_record read_full get_be
  read_record-finish_record size written = refl

  -- What a sender leaves on the stream for `rest`, the bytes not yet sent.
  record Delivers (size g j written : ℕ) (rest hashed : Bytes) (s : Outcome) : Type 0 where
    pub sent : s.answer ≡ ok (sha256 (hashed ++ rest))
    pub arrived : (receive_loop sums accept_all g size j written s.output hashed).output ≡ rest
    pub agreed :
        (receive_loop sums accept_all g size j written s.output hashed).answer
        ≡ ok (sha256 (hashed ++ rest))

  send_end-Delivers :
      (size g i j : ℕ) (hashed : Bytes)
      → Delivers size (suc g) j size [] hashed (send_end sums accept_all i [] hashed)
  unfolding send_end receive_loop receive_end
  send_end-Delivers size g i j hashed =
      let e = read_record-finish_record size size in
      rw
        (after_write-accept_all i finish_record []
          (record { output = []; progress = []; answer = ok (sha256 hashed) }))
        (record {
          sent = ap (λ t. ok (sha256 t)) (sym (append-nil hashed));
          arrived = rw (e, receive_loop, ==_refl size) refl;
          agreed =
              rw (e, receive_loop, ==_refl size)
                (ap (λ t. ok (sha256 t)) (sym (append-nil hashed)));
        })

  chunk-Delivers :
      (size g i j written : ℕ) (d rest hashed : Bytes) (s : Outcome)
      → crc32 d < 256 ^ 4
      → 0 < length d
      → length d ≤ max_chunk_size
      → written + length d ≤ size
      → Delivers size g (suc j) (written + length d) rest (hashed ++ d) s
      → Delivers size (suc g) j written (d ++ rest) hashed (behind (chunk_record sums d) [] s)
  unfolding receive_loop
  chunk-Delivers size g i j written d rest hashed s small some_bytes fits room h =
      let e = read_record-chunk_record size written d s.output small some_bytes fits room in
      let assoc = append_assoc hashed d rest in
      record {
        sent = h.sent ∙ ap (λ t. ok (sha256 t)) assoc;
        arrived = rw (e, receive_loop, after_write-accept_all) (ap (λ t. d ++ t) h.arrived);
        agreed =
            rw (e, receive_loop, after_write-accept_all) (h.agreed ∙ ap (λ t. ok (sha256 t)) assoc);
      }

  empty-Delivers :
      (size g i j written : ℕ) (src hashed : Bytes)
      → length src ≡ 0
      → written ≡ size
      → length (send_end sums accept_all i src hashed).output < g
      → Delivers size g j written src hashed (send_end sums accept_all i src hashed)
  empty-Delivers size zero i j written src hashed none_left all_sent enough = absurd (omega arith)
  empty-Delivers size (suc g) i j written [] hashed none_left all_sent enough =
      subst (λ w. Delivers size (suc g) j w [] hashed (send_end sums accept_all i [] hashed))
        (sym all_sent) (send_end-Delivers size g i j hashed)
  empty-Delivers size (suc g) i j written (c ∷ src) hashed none_left all_sent enough =
      absurd (omega arith)

  send_loop-step :
      (fuel remaining i n : ℕ) (src hashed : Bytes)
      → 0 < remaining
      → n ≡ min remaining max_chunk_size
      → n ≤ length src
      → send_loop sums accept_all (suc fuel) remaining i src hashed
        ≡ behind (chunk_record sums (take n src)) [] (
            send_loop sums accept_all fuel
              (remaining - n)
              (suc i)
              (drop n src)
              (hashed ++ take n src))
  unfolding send_loop
  send_loop-step fuel remaining i n src hashed some_left same enough =
      let b = chunk_record sums (take n src) in
      let rest =
        send_loop sums accept_all fuel (remaining - n) (suc i) (drop n src)
          (hashed ++ take n src) in
      rw (← same) (ground (arith, after_write-accept_all i b [] rest))

  module _ (crc_word : (d : Bytes) → crc32 d < 256 ^ 4) where
    send_loop-Delivers :
        (fuel remaining size g i j written : ℕ) (src hashed : Bytes)
        → remaining ≤ fuel
        → length src ≡ remaining
        → written + remaining ≡ size
        → length (send_loop sums accept_all fuel remaining i src hashed).output < g
        → Delivers size g j written src hashed
            (send_loop sums accept_all fuel remaining i src hashed)
    send_loop-Delivers zero remaining size g i j written src hashed bound left total enough =
        let e : send_loop sums accept_all zero remaining i src hashed
            ≡ send_end sums accept_all i src hashed =
          unfold send_loop in refl in
        rw e (
          empty-Delivers size g i j written src hashed (omega arith) (omega arith) (rw e at enough))
    send_loop-Delivers (suc fuel) zero size g i j written src hashed bound left total enough =
        let e : send_loop sums accept_all (suc fuel) zero i src hashed
            ≡ send_end sums accept_all i src hashed =
          unfold send_loop in refl in
        rw e (empty-Delivers size g i j written src hashed left (omega arith) (rw e at enough))
    send_loop-Delivers (suc fuel) (suc r) size zero i j written src hashed bound left total enough =
        absurd (omega arith)
    send_loop-Delivers (suc fuel) (suc r) size (suc g) i j written src hashed bound left total
          enough =
        let n = min (suc r) max_chunk_size in
        let d = take n src in
        let behind_d = drop n src in
        let s = send_loop sums accept_all fuel (suc r - n) (suc i) behind_d (hashed ++ d) in
        let e = send_loop-step fuel (suc r) i n src hashed (omega arith) refl (omega arith) in
        let count : length d ≡ n = omega (arith, length-take n src) in
        let shorter : length (chunk_record sums d ++ s.output) < suc g = rw e at enough in
        let later =
          send_loop-Delivers fuel (suc r - n) size g (suc i) (suc j) (written + length d) behind_d
            (hashed ++ d) (omega arith) (omega (arith, length-drop n src)) (omega arith)
            (omega (arith, length-append (chunk_record sums d) s.output, length-chunk_record d)) in
        rw e (
          subst (λ t. Delivers size (suc g) j written t hashed (behind (chunk_record sums d) [] s))
            (take-append-drop n src)
            (chunk-Delivers size g i j written d behind_d hashed s (crc_word d) (omega arith)
              (omega arith) (omega arith) later))

    -- A file of at most 2^30 bytes that is sent and received whole: `Send` returns no error, the
    -- receiver's writer gets exactly the bytes of the file, and both ends return the digest of
    -- them. The writers take all bytes, and a CRC-32 has 32 bits.
    pub receive-send :
        (src : Bytes)
        → length src ≤ max_size
        → (let s = send sums accept_all src (length src) in
            (s.answer ≡ ok (sha256 src))
            × ((receive sums accept_all s.output (length src)).output ≡ src)
            × ((receive sums accept_all s.output (length src)).answer ≡ ok (sha256 src)))
    unfolding send receive
    receive-send src fits =
        let size = length src in
        let s = send_loop sums accept_all size size 0 src [] in
        let h =
          send_loop-Delivers size size size (suc (length s.output)) 0 0 0 src [] (omega arith) refl
            (omega arith) (omega arith) in
        rw (le→ltb max_size size fits) (h.sent, h.arrived, h.agreed)
