-- ===== src/FileTransfer/Tests.antt =====
-- The theorems on file transfers at a file of four bytes, and one with a wrong checksum.
use gosshd_bastion.Base.{◌++◌, ◌%◌, ◌≤◌, ◌^◌, ◌∷◌, ◌≡◌, refl, arith, length}
use gosshd_bastion.Base.Bytes.{Bytes, codes}
use gosshd_bastion.Base.Result.{ok, err}
use gosshd_bastion.Base.BigEndian.{put_be, get_be, read_full}
use gosshd_bastion.FileTransfer.{
  Checksums, send, send_loop, send_end, receive, receive_loop, receive_end, read_record,
  open_record, check_chunk, chunk_record, after_write, max_size, finish_record,
}
use gosshd_bastion.FileTransfer.Exact.{length-receive, receive_ok, send_ok}
use gosshd_bastion.FileTransfer.RoundTrip.{accept_all, receive-send}

-- The length, and the bytes themselves, as checksums.
abbrev checksums : Checksums
checksums = record { crc32 = λ d. length d % 2 ^ 32; sha256 = λ d. d }

abbrev file : Bytes
file = codes "text"

abbrev stream : Bytes
stream = (1 ∷ 0 ∷ 0 ∷ 0 ∷ 8 ∷ 0 ∷ 0 ∷ 0 ∷ 4 ∷ file) ++ finish_record

corrupted_is_refused :
    (receive checksums accept_all
      ((1 ∷ 0 ∷ 0 ∷ 0 ∷ 8 ∷ 0 ∷ 0 ∷ 0 ∷ 5 ∷ file) ++ finish_record)
      4).answer
    ≡ err (codes "file transfer checksum mismatch")
unfolding receive receive_loop read_record open_record check_chunk read_full get_be after_write
corrupted_is_refused = refl

sent_file : (send checksums accept_all file 4).answer ≡ ok file
unfolding send send_loop send_end after_write chunk_record put_be
sent_file = refl

received_file : (receive checksums accept_all stream 4).answer ≡ ok file
unfolding receive receive_loop read_record open_record check_chunk read_full get_be after_write
    receive_end
received_file = refl

receive-send_example :
    ((send checksums accept_all file 4).answer ≡ ok file)
    × ((receive checksums accept_all (send checksums accept_all file 4).output 4).output ≡ file)
    × ((receive checksums accept_all (send checksums accept_all file 4).output 4).answer ≡ ok file)
receive-send_example = receive-send checksums (λ d. omega arith) file (omega arith)

send_ok_example : (length file ≡ 4) × (file ≡ file)
send_ok_example = send_ok checksums accept_all file 4 file sent_file

receive_ok_example :
    (length (receive checksums accept_all stream 4).output ≡ 4)
    × (file ≡ (receive checksums accept_all stream 4).output)
    × (4 ≤ max_size)
receive_ok_example = receive_ok checksums accept_all stream 4 file received_file

length-receive_example : length (receive checksums accept_all stream 3).output ≤ 3
length-receive_example = length-receive checksums accept_all stream 3
