-- ===== src/FileTransfer/Exact.antt =====
-- What `Receive` hands on, and when `Send` and `Receive` succeed, for every writer.
use gosshd_bastion.Base.{
  ℕ, zero, suc, ◌+◌, ◌-◌, ◌≤◌, ◌<◌, Bool, List, [], ◌∷◌, ◌++◌, Option, none, some, ltb, ltb→le,
  length, take, drop, min, ◌≡◌, refl, ap, ◌∙◌, arith, inl, inr, ◌⊎◌, Bool-cases, length-append,
  length-take, length-drop, append_assoc, append-nil, take-append-drop,
}
use gosshd_bastion.Base.Bytes.{Bytes}
use gosshd_bastion.Base.Result.{Result, ok, err}
use gosshd_bastion.Base.BigEndian.{read_full, get_be}
use gosshd_bastion.FileTransfer.{
  Checksums, Writer, Outcome, after_write, send, send_loop, send_end, receive, receive_loop,
  receive_end, read_record, open_record, check_chunk, chunk_record, max_chunk_size, max_size,
}

after_write-bounded :
    (w : ℕ × Bool) (b : Bytes) (progress : List ℕ) (rest : Outcome)
    → length (after_write w b progress rest).output ≤ length b + length rest.output
unfolding after_write
after_write-bounded (count, failed) b progress rest =
    ground (arith, length-take count b, length-append b rest.output)

after_write-ok :
    (w : ℕ × Bool) (b : Bytes) (progress : List ℕ) (rest : Outcome) {x : Bytes}
    → (after_write w b progress rest).answer ≡ ok x
    → ((after_write w b progress rest).output ≡ b ++ rest.output) × (rest.answer ≡ ok x)
unfolding after_write
after_write-ok (count, failed) b progress rest h = ground arith

read_full-rest :
    (n : ℕ) (stream d rest : Bytes)
    → read_full n stream ≡ ok (d, rest)
    → (length d ≡ n) × (length rest + n ≡ length stream)
unfolding read_full
read_full-rest n stream d rest h = ground (arith, length-take n stream, length-drop n stream)

Result-split {κ} :
    {A : Type κ} (r : Result A) → ((a : A) × (r ≡ ok a)) ⊎ ((e : Bytes) × (r ≡ err e))
Result-split (ok a) = inl (a, refl)
Result-split (err e) = inr (e, refl)

-- What the reading of a record can come to.
record_cases :
    (r : Result (Option (Bytes × Bytes)))
    → ((e : Bytes) × (r ≡ err e))
      ⊎ ((r ≡ ok none) ⊎ ((d : Bytes) × (rest : Bytes) × (r ≡ ok (some (d, rest)))))
record_cases (err e) = inl (e, refl)
record_cases (ok none) = inr (inl refl)
record_cases (ok (some (d, rest))) = inr (inr (d, rest, refl))

module _ (sums : Checksums) where
  open sums use {crc32, sha256}

  open_record-some :
      (size written kind n : ℕ) (stream d rest : Bytes)
      → open_record sums size written kind n stream ≡ ok (some (d, rest))
      → (written + length d ≤ size) × (length rest ≤ length stream)
  unfolding open_record check_chunk
  open_record-some size written kind n stream d rest h = elim (Result-split (read_full n stream)) [
    | inr (e, k) ↦ ground arith
    | inl ((a, b), k) ↦ ground (arith, read_full-rest n stream a b k, length-drop 4 a)
  ]

  read_record-some :
      (size written : ℕ) (stream d rest : Bytes)
      → read_record sums size written stream ≡ ok (some (d, rest))
      → (written + length d ≤ size) × (length rest < length stream)
  unfolding read_record
  read_record-some size written stream d rest h = elim (Result-split (read_full 5 stream)) [
    | inr (e, k) ↦ ground arith
    | inl ((a, b), k) ↦ ground (
      arith,
      read_full-rest 5 stream a b k,
      open_record-some size written (get_be (take 1 a)) (get_be (drop 1 a)) b d rest,
    )
  ]

  module _ (dst : Writer) (size : ℕ) where
    receive_loop_bounded :
        (fuel i written : ℕ) (stream hashed : Bytes)
        → written ≤ size
        → written + length (receive_loop sums dst fuel size i written stream hashed).output ≤ size
    unfolding receive_loop
    receive_loop_bounded zero i written stream hashed h = omega arith
    receive_loop_bounded (suc fuel) i written stream hashed h =
        elim (record_cases (read_record sums size written stream)) [
          | inl (e, k) ↦ rw (k, receive_loop) (omega arith)
          | inr (inl k) ↦ rw (k, receive_loop) (unfold receive_end in ground arith)
          | inr (inr (d, rest, k)) ↦
              let total = written + length d in
              let (fits, _) = read_record-some size written stream d rest k in
              let later = receive_loop sums dst fuel size (suc i) total rest (hashed ++ d) in
              rw (k, receive_loop)
                (omega (
                  arith,
                  after_write-bounded (dst i d) d (total ∷ []) later,
                  receive_loop_bounded fuel (suc i) total rest (hashed ++ d) fits,
                ))
        ]

    receive_loop_ok :
        (fuel i written : ℕ) (stream hashed : Bytes) {x : Bytes}
        → (receive_loop sums dst fuel size i written stream hashed).answer ≡ ok x
        → (written + length (receive_loop sums dst fuel size i written stream hashed).output ≡ size)
          × (x
              ≡ sha256 (hashed ++ (receive_loop sums dst fuel size i written stream hashed).output))
    unfolding receive_loop
    receive_loop_ok zero i written stream hashed h = ground arith
    receive_loop_ok (suc fuel) i written stream hashed {x} h =
        elim (record_cases (read_record sums size written stream)) [
          | inl (e, k) ↦ absurd (let bad = rw (k, receive_loop) at h in cc)
          | inr (inl k) ↦
              let fine = rw (k, receive_loop) at h in
              rw (k, receive_loop) (unfold receive_end in ground (arith, append-nil hashed))
          | inr (inr (d, rest, k)) ↦
              let total = written + length d in
              let later = receive_loop sums dst fuel size (suc i) total rest (hashed ++ d) in
              let fine = rw (k, receive_loop) at h in
              let (out, answered) = after_write-ok (dst i d) d (total ∷ []) later fine in
              let (count, digest) =
                receive_loop_ok fuel (suc i) total rest (hashed ++ d) answered in
              rw (k, receive_loop, out)
                (
                  omega (arith, length-append d later.output),
                  digest ∙ ap sha256 (append_assoc hashed d later.output),
                )
        ]

  -- Whatever comes on the stream and whatever the writer answers, the writer gets no more bytes than
  -- the size announced.
  pub length-receive :
      (dst : Writer) (stream : Bytes) (size : ℕ)
      → length (receive sums dst stream size).output ≤ size
  unfolding receive
  length-receive dst stream size =
      ground
        (arith, receive_loop_bounded dst size (suc (length stream)) 0 0 stream [] (omega arith))

  -- If `Receive` returns no error, the writer got exactly as many bytes as announced, at most 2^30,
  -- and the digest returned is the one of these bytes.
  pub receive_ok :
      (dst : Writer) (stream : Bytes) (size : ℕ) (digest : Bytes)
      → (receive sums dst stream size).answer ≡ ok digest
      → (length (receive sums dst stream size).output ≡ size)
        × (digest ≡ sha256 (receive sums dst stream size).output)
        × (size ≤ max_size)
  unfolding receive
  receive_ok dst stream size digest h = elim (Bool-cases (ltb max_size size)) [
    | inl large ↦ absurd (ground arith)
    | inr small ↦
        let (count, same) =
          receive_loop_ok dst size (suc (length stream)) 0 0 stream [] (rw small at h) in
        rw small (omega (arith, count), same, omega (arith, ltb→le max_size size small))
  ]

  send_end_ok :
      (dst : Writer) (i : ℕ) (src hashed : Bytes) {x : Bytes}
      → (send_end sums dst i src hashed).answer ≡ ok x
      → (length src ≡ 0) × (x ≡ sha256 (hashed ++ src))
  unfolding send_end after_write
  send_end_ok dst i [] hashed h = (refl, ground (arith, append-nil hashed))
  send_end_ok dst i (c ∷ src) hashed h = absurd (cc)

  send_loop_ok :
      (dst : Writer) (fuel remaining i : ℕ) (src hashed : Bytes) {x : Bytes}
      → remaining ≤ fuel
      → (send_loop sums dst fuel remaining i src hashed).answer ≡ ok x
      → (length src ≡ remaining) × (x ≡ sha256 (hashed ++ src))
  unfolding send_loop
  send_loop_ok dst zero remaining i src hashed bound h =
      let (none_left, digest) = send_end_ok dst i src hashed h in (omega arith, digest)
  send_loop_ok dst (suc fuel) zero i src hashed bound h = send_end_ok dst i src hashed h
  send_loop_ok dst (suc fuel) (suc r) i src hashed {x} bound h =
      let n = min (suc r) max_chunk_size in
      let d = take n src in
      let b = chunk_record sums d in
      let rest = send_loop sums dst fuel (suc r - n) (suc i) (drop n src) (hashed ++ d) in
      elim (Bool-cases (ltb (length src) n)) [
        | inl short ↦ absurd (ground arith)
        | inr long ↦
            let went : (after_write (dst i b) b [] rest).answer ≡ ok x = ground arith in
            let (_, answered) = after_write-ok (dst i b) b [] rest went in
            let (count, digest) =
              send_loop_ok dst fuel (suc r - n) (suc i) (drop n src) (hashed ++ d) (omega arith)
                answered in
            (
              omega (arith, length-drop n src, ltb→le (length src) n long),
              digest
                  ∙ ap sha256 (
                      append_assoc hashed d (drop n src)
                      ∙ ap (λ t. hashed ++ t) (take-append-drop n src)),
            )
      ]

  -- If `Send` returns no error, the source had exactly as many bytes as announced, and the digest
  -- returned is the one of these bytes: a file that grew or shrank is refused.
  pub send_ok :
      (dst : Writer) (src : Bytes) (size : ℕ) (digest : Bytes)
      → (send sums dst src size).answer ≡ ok digest
      → (length src ≡ size) × (digest ≡ sha256 src)
  unfolding send
  send_ok dst src size digest h = send_loop_ok dst size size 0 src [] (omega arith) h
