-- ===== src/Tunnel/SameStream.antt =====
-- What the methods of a connection that only send, and those that only read, leave alone.
use gosshd_bastion.Base.{ℕ, Bool, false, List, [], ◌∷◌, ◌≡◌, refl, ◌∙◌, arith, Bool-cases, inl, inr}
use gosshd_bastion.Base.Bytes.{Bytes}
use gosshd_bastion.Tunnel.Wire.{Packet}
use gosshd_bastion.Tunnel.Conn.{
  Conn, Env, Output, queued, failed, queue, enqueue, fresh_packet, send, shutdown,
}
use gosshd_bastion.Tunnel.Receive.{receive, is_payload}
use gosshd_bastion.Tunnel.Session.{
  read, read_loop, retransmit, resend, resend_one, stamp, is_expired, overdue_packets,
}

-- What `send` and the methods that only send leave alone.
pub record SameStream (c c' : Conn) : Type 0 where
  pub same_next : c'.next ≡ c.next
  pub same_incoming : c'.incoming ≡ c.incoming
  pub same_receive_next : c'.receive_next ≡ c.receive_next
  pub same_buffered : c'.buffered ≡ c.buffered

pub SameStream-trans : {a b c : Conn} → SameStream a b → SameStream b c → SameStream a c
SameStream-trans f g = record {
  same_next = g.same_next ∙ f.same_next;
  same_incoming = g.same_incoming ∙ f.same_incoming;
  same_receive_next = g.same_receive_next ∙ f.same_receive_next;
  same_buffered = g.same_buffered ∙ f.same_buffered;
}

pub send-SameStream : (env : Env) (p : Packet) (c : Conn) → SameStream c (send env p c).0
unfolding send shutdown
send-SameStream env p c = ground arith

pub shutdown-SameStream : (c : Conn) → SameStream c (shutdown c)
unfolding shutdown
shutdown-SameStream c = ground arith

pub receive_control-SameStream :
    (env : Env) (p : Packet) (direct : Bool) (c : Conn)
    → is_payload p ≡ false
    → SameStream c (receive env p direct c).0
unfolding receive
receive_control-SameStream env p direct c h = ground arith

pub resend_one-SameStream :
    (env : Env) (p : Packet) (c : Conn) → SameStream c (resend_one env p c).0
unfolding resend_one
resend_one-SameStream env p c = ground (arith, send-SameStream env p c)

pub resend-SameStream : (env : Env) (ps : List Packet) (c : Conn) → SameStream c (resend env ps c).0
unfolding resend
resend-SameStream env [] c = ground arith
resend-SameStream env (p ∷ ps) c =
    let c' = (resend_one env p c).0 in
    elim (Bool-cases (resend_one env p c).2) [
      | inl sent ↦
          rw (sent, resend)
            (SameStream-trans (resend_one-SameStream env p c) (resend-SameStream env ps c'))
      | inr lost ↦
          rw (lost, resend)
            (SameStream-trans (resend_one-SameStream env p c) (shutdown-SameStream c'))
    ]

pub retransmit-SameStream :
    (env : Env) (probes : Bool) (c : Conn) → SameStream c (retransmit env probes c).0
unfolding retransmit
retransmit-SameStream env probes c =
    let stamped = stamp env c in
    let due = overdue_packets env.now c.pending in
    let kept : SameStream c stamped = unfold stamp in ground arith in
    elim (Bool-cases (is_expired env stamped)) [
      | inl late ↦ rw (late, retransmit) (SameStream-trans kept (shutdown-SameStream stamped))
      | inr early ↦
          rw (early, retransmit) (SameStream-trans kept (resend-SameStream env due stamped))
    ]

pub queue-queued :
    (env : Env) (kind : ℕ) (body : Bytes) (c c' : Conn) (out : List Output)
    → queue env kind body c ≡ queued c' out
    → SameStream (enqueue env (fresh_packet kind body c) c) c'
unfolding queue
queue-queued env kind body c c' out e =
    let p = fresh_packet kind body c in ground (arith, send-SameStream env p (enqueue env p c))

pub queue-failed :
    (env : Env) (kind : ℕ) (body : Bytes) (c c' : Conn) (out : List Output)
    → queue env kind body c ≡ failed c' out
    → SameStream (enqueue env (fresh_packet kind body c) c) c'
unfolding queue
queue-failed env kind body c c' out e =
    let p = fresh_packet kind body c in
    let sent = (send env p (enqueue env p c)).0 in
    ground
      (arith, SameStream-trans (send-SameStream env p (enqueue env p c)) (shutdown-SameStream sent))

pub read_loop-keeps :
    (env : Env) (n : ℕ) (ps : List Packet) (c : Conn)
    → ((read_loop env n ps c).0.receive_next ≡ c.receive_next)
      × ((read_loop env n ps c).0.buffered ≡ c.buffered)
unfolding read_loop
read_loop-keeps env n [] c = (refl, refl)
read_loop-keeps env n (p ∷ ps) c = ground (arith, read_loop-keeps env n ps c)

pub read-keeps :
    (env : Env) (n : ℕ) (c : Conn)
    → ((read env n c).0.receive_next ≡ c.receive_next) × ((read env n c).0.buffered ≡ c.buffered)
unfolding read
read-keeps env n c = ground (arith, read_loop-keeps env n c.incoming c)
