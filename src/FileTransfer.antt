-- ===== src/FileTransfer.antt =====
-- internal/filetransfer/records.go: a file as checksummed records on a reliable stream. Sizes are
-- natural numbers: the code refuses negative ones.
pub mod Exact
pub mod RoundTrip
mod Tests
use gosshd_bastion.Base.{
  ℕ, zero, suc, ◌+◌, ◌-◌, Bool, true, false, not, ◌&&◌, ◌||◌, List, [], ◌∷◌, ◌++◌, Option, none,
  some, ltb, leb, ◌==◌, if◌then◌else◌, length, take, drop, is_empty, min,
}
use gosshd_bastion.Base.Bytes.{Bytes, codes}
use gosshd_bastion.Base.Result.{Result, ok, err, ◌>>=◌}
use gosshd_bastion.Base.BigEndian.{put_be, get_be, read_full}

abbrev pub kind_chunk : ℕ
kind_chunk = 1

abbrev pub kind_finish : ℕ
kind_finish = 2

-- `tunnel.MaxPayload - 9`.
abbrev pub max_chunk_size : ℕ
max_chunk_size = 8183

abbrev pub max_size : ℕ
max_size = 1_073_741_824

-- `crc32.ChecksumIEEE`, and the hexadecimal SHA-256.
pub record Checksums : Type 0 where
  pub crc32 : Bytes → ℕ
  pub sha256 : Bytes → Bytes

-- What a writer answers to its write number `i`: the count of bytes written, and whether there is an
-- error.
abbrev pub Writer : Type 0
Writer = ℕ → Bytes → ℕ × Bool

-- What reached the writer, the values passed to `progress`, and the digest or the error returned.
pub record Outcome : Type 0 where
  pub output : Bytes
  pub progress : List ℕ
  pub answer : Result Bytes

abbrev pub stopped : Bytes → Bytes → Outcome
stopped output message = record { output = output; progress = []; answer = err message }

abbrev finished : Bytes → Outcome
finished digest = record { output = []; progress = []; answer = ok digest }

abbrev pub behind : Bytes → List ℕ → Outcome → Outcome
behind output progress rest = record {
  output = output ++ rest.output;
  progress = progress ++ rest.progress;
  answer = rest.answer;
}

-- What follows a write of `b`; `rest` is what the code does after a complete one.
unfoldable pub after_write : ℕ × Bool → Bytes → List ℕ → Outcome → Outcome
after_write (count, failed) b progress rest =
    if failed
    then stopped (take count b) (codes "write failed")
    else if count == length b
    then behind b progress rest
    else stopped (take count b) (codes "short write")

abbrev pub finish_record : Bytes
finish_record = kind_finish ∷ 0 ∷ 0 ∷ 0 ∷ 0 ∷ []

module _ (sums : Checksums) where
  open sums use {crc32, sha256}

  unfoldable pub chunk_record : Bytes → Bytes
  chunk_record d = kind_chunk ∷ (put_be 4 (4 + length d) ++ (put_be 4 (crc32 d) ++ d))

  -- Behind the loop of `Send`.
  unfoldable pub send_end : Writer → ℕ → Bytes → Bytes → Outcome
  unfolding after_write
  send_end dst i src hashed =
      if is_empty src
      then after_write (dst i finish_record) finish_record [] (finished (sha256 hashed))
      else stopped [] (codes "file transfer size changed")

  -- The loop of `Send`, and what is behind it: write number `i` is the next one, and `hashed` are the
  -- bytes hashed. A round takes one byte at least, so `remaining` is enough fuel.
  unfoldable pub send_loop : Writer → ℕ → ℕ → ℕ → Bytes → Bytes → Outcome
  unfolding chunk_record send_end after_write
  send_loop dst zero remaining i src hashed = send_end dst i src hashed
  send_loop dst (suc fuel) remaining i src hashed =
      let n = min remaining max_chunk_size in
      let b = chunk_record (take n src) in
      let rest = send_loop dst fuel (remaining - n) (suc i) (drop n src) (hashed ++ take n src) in
      if remaining == 0
      then send_end dst i src hashed
      else if ltb (length src) n
      then stopped [] (codes "EOF")
      else after_write (dst i b) b [] rest

  unfoldable pub send : Writer → Bytes → ℕ → Outcome
  unfolding send_loop
  send dst src size = send_loop dst size size 0 src []

  -- Data of a chunk behind its header.
  unfoldable pub check_chunk : Bytes → Bytes → Result (Option (Bytes × Bytes))
  check_chunk d rest =
      if crc32 (drop 4 d) == get_be (take 4 d)
      then ok (some (drop 4 d, rest))
      else err (codes "file transfer checksum mismatch")

  -- A header with kind `kind` and length `n`: `none` for the end of the file, or the bytes of a chunk
  -- and the rest of the stream.
  unfoldable pub open_record : ℕ → ℕ → ℕ → ℕ → Bytes → Result (Option (Bytes × Bytes))
  unfolding check_chunk
  open_record size written kind n stream =
      if kind == kind_finish && n == 0
      then ok none
      else if not (kind == kind_chunk)
          || leb n 4
          || ltb (max_chunk_size + 4) n
          || ltb size (written + (n - 4))
      then err (codes "invalid file transfer chunk")
      else read_full n stream >>= λ r. check_chunk r.0 r.1

  unfoldable pub read_record : ℕ → ℕ → Bytes → Result (Option (Bytes × Bytes))
  unfolding open_record
  read_record size written stream = read_full 5 stream >>= λ r.
      open_record size written (get_be (take 1 r.0)) (get_be (drop 1 r.0)) r.1

  unfoldable pub receive_end : ℕ → ℕ → Bytes → Outcome
  receive_end size written hashed =
      if written == size
      then finished (sha256 hashed)
      else stopped [] (codes "file transfer size mismatch")

  -- The loop of `Receive`. A round takes five bytes at least, so one more than the count of bytes is
  -- enough fuel.
  unfoldable pub receive_loop : Writer → ℕ → ℕ → ℕ → ℕ → Bytes → Bytes → Outcome
  unfolding read_record receive_end after_write
  receive_loop dst zero size i written stream hashed = stopped [] (codes "EOF")
  receive_loop dst (suc fuel) size i written stream hashed =
      elim (read_record size written stream) [
        | err message ↦ stopped [] message
        | ok none ↦ receive_end size written hashed
        | ok (some (d, rest)) ↦
            let total = written + length d in
            after_write (dst i d) d (total ∷ [])
              (receive_loop dst fuel size (suc i) total rest (hashed ++ d))
      ]

  unfoldable pub receive : Writer → Bytes → ℕ → Outcome
  unfolding receive_loop
  receive dst stream size =
      if ltb max_size size
      then stopped [] (codes "invalid file transfer size")
      else receive_loop dst (suc (length stream)) size 0 0 stream []
