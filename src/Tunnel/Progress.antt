-- ===== src/Tunnel/Progress.antt =====
-- The packet that the receiver waits for is passed on at once where the channel has room for it; and
-- the sender never has more than a window of packets unacknowledged.
use gosshd_bastion.Base.{
  ℕ, zero, suc, ◌+◌, ◌≤◌, ◌<◌, Bool, true, false, ◌&&◌, ◌||◌, sym, List, [], ◌∷◌, ◌++◌, none, some,
  ◌==◌, ltb, leb, length, ◌≡◌, refl, ap, ◌∙◌, arith, append_assoc, append-nil, length-append,
  Bool-cases, Option-cases, inl, inr,
}
use gosshd_bastion.Base.Bytes.{Bytes}
use gosshd_bastion.Tunnel.Wire.{Packet, max_payload, window}
use gosshd_bastion.Tunnel.Conn.{
  Conn, Env, Output, PendingPacket, queued, failed, queue, enqueue, fresh_packet, send, shutdown,
}
use gosshd_bastion.Tunnel.Receive.{
  receive, receive_payload, without_pending, is_payload, find_seq, is_full, deliver, drain, pass_on,
  store, store_fresh, touch,
}
use gosshd_bastion.Tunnel.Session.{retransmit, resend, resend_one, stamp, overdue_packets, restamp}
use gosshd_bastion.Tunnel.System.{
  System, queues, queue_fails, arrives, goes_on, answers, reads, resends, receiver_resends, Reached,
  initially, by_step,
}

-- What `drain` passes on.
abbrev Extends : Conn → Conn → Type 0
Extends c c' =
    (more : List Packet) × (c'.incoming ≡ c.incoming ++ more)
    × (c'.receive_next ≡ c.receive_next + length more)

Extends-refl : (c : Conn) → Extends c c
Extends-refl c = ([], sym (append-nil c.incoming), omega arith)

drain-Extends : (env : Env) (fuel : ℕ) (c : Conn) → Extends c (drain env fuel c).0
unfolding drain
drain-Extends env zero c = Extends-refl c
drain-Extends env (suc fuel) c = elim (Option-cases (find_seq c.receive_next c.buffered)) [
  | inl stop ↦ rw (stop, drain) (Extends-refl c)
  | inr (q, found) ↦
      let (more, i, r) = drain-Extends env fuel (pass_on q c) in
      let further : Extends c (drain env fuel (pass_on q c)).0 =
        (q ∷ more, i ∙ append_assoc c.incoming (q ∷ []) more, r ∙ omega arith) in
      elim (Bool-cases (c.closed && (is_full c || env.stops_at c.receive_next))) [
        | inl over ↦ rw (found, drain, over) (Extends-refl c)
        | inr open_ ↦ elim (Bool-cases (is_full c)) [
          | inl full ↦ rw (found, drain, open_, full) (Extends-refl c)
          | inr room ↦ rw (found, drain, open_, room) further
        ]
      ]
]

find_seq_last :
    (n : ℕ) (ps : List Packet) (p : Packet)
    → find_seq n ps ≡ none
    → p.seq ≡ n
    → find_seq n (ps ++ p ∷ []) ≡ some p
unfolding find_seq
find_seq_last n [] p e h = ground arith
find_seq_last n (q ∷ ps) p e h = elim (Bool-cases (q.seq == n)) [
  | inl hit ↦ absurd (ground arith)
  | inr later ↦ rw later (find_seq_last n ps p (ground arith) h)
]

store_expected :
    (p : Packet) (direct : Bool) (c : Conn)
    → p.seq ≡ c.receive_next
    → find_seq c.receive_next c.buffered ≡ none
    → store p direct c ≡ store_fresh p direct c
unfolding store
store_expected p direct c at missing = rw at (ground arith)

-- What is new behind the expected packet `p`.
abbrev pub PassesOn : Packet → Conn → Conn → Type 0
PassesOn p c c' =
    (more : List Packet) × (c'.incoming ≡ c.incoming ++ (p ∷ more))
    × (c'.receive_next ≡ c.receive_next + suc (length more))

-- The connection is open, and the channel to the reader has a place.
abbrev pub IsOpen : Conn → Type 0
IsOpen c = (c.closed ≡ false) × (length c.incoming < window)

drain_expected :
    (env : Env) (fuel : ℕ) (c : Conn) (p : Packet)
    → 0 < fuel
    → IsOpen c
    → find_seq c.receive_next c.buffered ≡ some p
    → PassesOn p c (drain env fuel c).0
unfolding drain
drain_expected env zero c p h o found = absurd (omega arith)
drain_expected env (suc fuel) c p h (open_, room) found =
    let (more, i, r) = drain-Extends env fuel (pass_on p c) in
    let goes_on_ : (c.closed && (is_full c || env.stops_at c.receive_next)) ≡ false =
      ground (arith, open_) in
    let has_room : is_full c ≡ false = ground (arith, room) in
    rw (found, drain, goes_on_, has_room)
      (more, i ∙ append_assoc c.incoming (p ∷ []) more, r ∙ omega arith)

receive_payload_expected :
    (env : Env) (p : Packet) (direct : Bool) (c : Conn)
    → IsOpen c
    → length p.body ≤ max_payload
    → p.seq ≡ c.receive_next
    → find_seq c.receive_next c.buffered ≡ none
    → PassesOn p c (receive_payload env p direct c).0
unfolding receive_payload store_fresh deliver
receive_payload_expected env p direct c (open_, room) short at missing =
    let fresh = store_fresh p direct c in
    let fits : ltb max_payload (length p.body) ≡ false = ground arith in
    let near : leb (c.receive_next + window) p.seq ≡ false = ground arith in
    rw (fits, near, store_expected p direct c at missing, receive_payload)
      (drain_expected env (length fresh.buffered) fresh p
        (omega (arith, length-append c.buffered (p ∷ []))) (open_, room)
        (find_seq_last c.receive_next c.buffered p missing at))

-- If the connection is open, its channel to the reader has a place among 64, and the packet comes that
-- the receiver waits for, with a body that is not too long, it is passed on to the reader behind what
-- was passed on before, at once, and the counter moves past it and those passed on behind it.
pub receive_expected :
    (env : Env) (p : Packet) (direct : Bool) (c : Conn)
    → is_payload p ≡ true
    → IsOpen c
    → length p.body ≤ max_payload
    → p.seq ≡ c.receive_next
    → find_seq c.receive_next c.buffered ≡ none
    → PassesOn p c (receive env p direct c).0
unfolding receive
receive_expected env p direct c payload (open_, room) short at missing =
    let c' = touch env direct c in
    let kept : c'.incoming ≡ c.incoming = ground arith in
    let count : c'.receive_next ≡ c.receive_next = ground arith in
    let (more, i, r) =
      receive_payload_expected env p direct c' (ground arith, rw kept room) short (ground arith)
        (ground arith) in
    (
      more,
      rw (payload, receive) (i ∙ ap (λ (l : List Packet). l ++ (p ∷ more)) kept),
      rw (payload, receive) (r ∙ omega arith),
    )

-- The methods that only send, and acknowledgements, add nothing to the pending packets.
abbrev NoMore : Conn → Conn → Type 0
NoMore c c' = length c'.pending ≤ length c.pending

length-without_pending :
    (n : ℕ) (qs : List PendingPacket) → length (without_pending n qs) ≤ length qs
length-without_pending n [] = omega arith
length-without_pending n (q ∷ qs) = ground (arith, length-without_pending n qs)

length-restamp : (now : ℕ) (qs : List PendingPacket) → length (restamp now qs) ≡ length qs
unfolding restamp
length-restamp now [] = refl
length-restamp now (q ∷ qs) = ap suc (length-restamp now qs)

send-pending : (env : Env) (p : Packet) (c : Conn) → (send env p c).0.pending ≡ c.pending
unfolding send
send-pending env p c = ground arith

shutdown-pending : (c : Conn) → (shutdown c).pending ≡ c.pending
unfolding shutdown
shutdown-pending c = ground arith

resend-pending : (env : Env) (ps : List Packet) (c : Conn) → (resend env ps c).0.pending ≡ c.pending
unfolding resend
resend-pending env [] c = refl
resend-pending env (p ∷ ps) c =
    let one : (resend_one env p c).0.pending ≡ c.pending =
      unfold resend_one in ground (arith, send-pending env p c) in
    ground (
      arith,
      one,
      resend-pending env ps (resend_one env p c).0,
      shutdown-pending (resend_one env p c).0,
    )

retransmit-NoMore : (env : Env) (probes : Bool) (c : Conn) → NoMore c (retransmit env probes c).0
unfolding retransmit
retransmit-NoMore env probes c =
    let stamped = stamp env c in
    let kept : length stamped.pending ≡ length c.pending =
      unfold stamp in length-restamp env.now c.pending in
    ground (
      arith,
      kept,
      shutdown-pending stamped,
      resend-pending env (overdue_packets env.now c.pending) stamped,
    )

answers-NoMore :
    (env : Env) (p : Packet) (direct : Bool) (c : Conn)
    → is_payload p ≡ false
    → NoMore c (receive env p direct c).0
unfolding receive
answers-NoMore env p direct c h = ground (arith, length-without_pending p.seq c.pending)

queue-window :
    (env : Env) (kind : ℕ) (body : Bytes) (c c' : Conn) (out : List Output)
    → queue env kind body c ≡ queued c' out
    → length c'.pending ≤ window
unfolding queue
queue-window env kind body c c' out e =
    let p = fresh_packet kind body c in
    ground (
      arith,
      send-pending env p (enqueue env p c),
      length-append c.pending (record { packet = p; last = env.now } ∷ []),
    )

queue_fails-window :
    (env : Env) (kind : ℕ) (body : Bytes) (c c' : Conn) (out : List Output)
    → queue env kind body c ≡ failed c' out
    → length c'.pending ≤ window
unfolding queue
queue_fails-window env kind body c c' out e =
    let p = fresh_packet kind body c in
    let sent = (send env p (enqueue env p c)).0 in
    ground (
      arith,
      shutdown-pending sent,
      send-pending env p (enqueue env p c),
      length-append c.pending (record { packet = p; last = env.now } ∷ []),
    )

-- In every state that the system reaches the sender has at most 64 packets unacknowledged.
pub pending-le-window : {s : System} → Reached s → length s.sender.pending ≤ window
pending-le-window initially = omega arith
pending-le-window (by_step (queues s env kind body sender' out e) r) =
    queue-window env kind body s.sender sender' out e
pending-le-window (by_step (queue_fails s env kind body sender' out e) r) =
    queue_fails-window env kind body s.sender sender' out e
pending-le-window (by_step (arrives s env p direct from) r) = pending-le-window r
pending-le-window (by_step (goes_on s env p direct path) r) = pending-le-window r
pending-le-window (by_step (answers s env p direct other) r) =
    omega (arith, answers-NoMore env p direct s.sender other, pending-le-window r)
pending-le-window (by_step (reads s env n removed e) r) = pending-le-window r
pending-le-window (by_step (resends s env probes) r) =
    omega (arith, retransmit-NoMore env probes s.sender, pending-le-window r)
pending-le-window (by_step (receiver_resends s env probes) r) = pending-le-window r
