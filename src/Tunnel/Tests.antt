-- ===== src/Tunnel/Tests.antt =====
-- The theorems on connections at a run in which the second packet arrives before the first one, and
-- the first one twice.
use gosshd_bastion.Base.{◌++◌, ◌≤◌, List, [], ◌∷◌, true, false, ◌≡◌, refl, arith, length, inr}
use gosshd_bastion.Base.Bytes.{codes}
use gosshd_bastion.Base.Result.{ok, ◌>>=◌}
use gosshd_bastion.Tunnel.Wire.{Packet, kind_data, window, packet_bytes, parse}
use gosshd_bastion.Tunnel.Wire.RoundTrip.{
  IsPacket, send_all, read_count, read_count-send_all, parse-packet_bytes,
}
use gosshd_bastion.Tunnel.Conn.{Conn, Env, queued, queue, send, new_conn, to_relay}
use gosshd_bastion.Tunnel.Receive.{receive, find_seq}
use gosshd_bastion.Tunnel.System.{
  System, start, queues, arrives, Reached, initially, by_step, delivery_in_order,
}
use gosshd_bastion.Tunnel.Progress.{PassesOn, receive_expected, pending-le-window}

abbrev first : Packet
first = record { kind = kind_data; seq = 1; body = codes "a" }

abbrev second : Packet
second = record { kind = kind_data; seq = 2; body = codes "b" }

abbrev env : Env
env = record { now = 5; direct_ok = false; relay_ok = true; stops_at = λ _. false }

first-IsPacket : IsPacket first
first-IsPacket = record { kind_byte = omega arith; seq_fits = omega arith; body_fits = omega arith }

second-IsPacket : IsPacket second
second-IsPacket = record {
  kind_byte = omega arith;
  seq_fits = omega arith;
  body_fits = omega arith;
}

parse-packet_bytes_example : parse (packet_bytes first) ≡ ok first
parse-packet_bytes_example = parse-packet_bytes first first-IsPacket

read_count-send_all_example :
    (send_all (first ∷ second ∷ []) >>= λ stream. read_count 2 (stream ++ codes "rest"))
    ≡ ok (first ∷ second ∷ [], codes "rest")
read_count-send_all_example =
    read_count-send_all (first ∷ second ∷ []) (codes "rest") (first-IsPacket, (second-IsPacket, tt))

abbrev sent_one : Conn
sent_one = record new_conn { next = 2; pending = (record { packet = first; last = 5 }) ∷ [] }

abbrev sent_two : Conn
sent_two = record new_conn {
  next = 3;
  pending = (record { packet = first; last = 5 }) ∷ (record { packet = second; last = 5 }) ∷ [];
}

queue-first : queue env kind_data (codes "a") new_conn ≡ queued sent_one (to_relay first ∷ [])
unfolding queue send
queue-first = refl

queue-second : queue env kind_data (codes "b") sent_one ≡ queued sent_two (to_relay second ∷ [])
unfolding queue send
queue-second = refl

abbrev both_sent : System
both_sent = record start { sender = sent_two; log = first ∷ second ∷ [] }

both_sent-Reached : Reached both_sent
both_sent-Reached =
    by_step
      (queues (record start { sender = sent_one; log = first ∷ [] }) env kind_data (codes "b")
        sent_two (to_relay second ∷ []) queue-second)
      (by_step (queues start env kind_data (codes "a") sent_one (to_relay first ∷ []) queue-first)
        initially)

-- What one arrival makes of the system.
abbrev with_arrival : Packet → System → System
with_arrival p s = record s { receiver = (receive env p false s.receiver).0 }

abbrev reordered : System
reordered = with_arrival first (with_arrival first (with_arrival second both_sent))

reordered-Reached : Reached reordered
unfolding find_seq
reordered-Reached =
    by_step
      (arrives (with_arrival first (with_arrival second both_sent)) env first false (inr refl))
      (by_step (arrives (with_arrival second both_sent) env first false (inr refl))
        (by_step (arrives both_sent env second false (inr refl)) both_sent-Reached))

delivery_in_order_example :
    (ahead : List Packet) × (reordered.log
      ≡ (reordered.taken ++ reordered.receiver.incoming) ++ ahead)
delivery_in_order_example = delivery_in_order {s = reordered} reordered-Reached

pending-le-window_example : length sent_two.pending ≤ window
pending-le-window_example = pending-le-window {s = both_sent} both_sent-Reached

receive_expected_example : PassesOn first new_conn (receive env first false new_conn).0
unfolding find_seq
receive_expected_example =
    receive_expected env first false new_conn refl (refl, omega arith) (omega arith) refl refl
