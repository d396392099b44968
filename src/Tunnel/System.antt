-- ===== src/Tunnel/System.antt =====
-- Two ends of a connection and the network between them, in one direction: the sender queues
-- packets, and the network hands the receiver any packet that was ever queued, at any time, any
-- number of times, over either path. What the reader takes is a prefix of what was queued.
use gosshd_bastion.Base.{
  ℕ, suc, ◌+◌, Bool, false, List, [], ◌∷◌, ◌++◌, length, ◌≡◌, refl, sym, ap, subst, ◌∙◌, arith, All,
  append_assoc, length-append, ◌⊎◌,
}
use gosshd_bastion.Base.Bytes.{Bytes}
use gosshd_bastion.Tunnel.Wire.{Packet}
use gosshd_bastion.Tunnel.Conn.{
  Conn, Env, Output, queued, failed, queue, enqueue, fresh_packet, new_conn,
}
use gosshd_bastion.Tunnel.Receive.{receive, deliver, is_payload}
use gosshd_bastion.Tunnel.Session.{read, retransmit}
use gosshd_bastion.Tunnel.Delivery.{
  Numbered, IsFrom, find_seq-append, Delivers, Delivers-same, deliver-Delivers, receive-Delivers,
}
use gosshd_bastion.Tunnel.SameStream.{
  SameStream, queue-failed, queue-queued, read-keeps, receive_control-SameStream,
  retransmit-SameStream,
}

pub record System : Type 0 where
  pub sender : Conn
  pub receiver : Conn
  pub log : List Packet
  pub taken : List Packet

abbrev pub start : System
start = record { sender = new_conn; receiver = new_conn; log = []; taken = [] }

-- `goes_on` is a `receive` that waited for room in the channel: it passes on what it can now. `log` and
-- `taken` record what happened; the code has no such variables.
pub data Step : System → System → Type 0 where
  queues :
      (s : System) (env : Env) (kind : ℕ) (body : Bytes) (sender' : Conn) (out : List Output)
      → queue env kind body s.sender ≡ queued sender' out
      → Step s (record s { sender = sender'; log = s.log ++ fresh_packet kind body s.sender ∷ [] })
  queue_fails :
      (s : System) (env : Env) (kind : ℕ) (body : Bytes) (sender' : Conn) (out : List Output)
      → queue env kind body s.sender ≡ failed sender' out
      → Step s (record s { sender = sender'; log = s.log ++ fresh_packet kind body s.sender ∷ [] })
  arrives :
      (s : System) (env : Env) (p : Packet) (direct : Bool)
      → (is_payload p ≡ false) ⊎ IsFrom s.log p
      → Step s (record s { receiver = (receive env p direct s.receiver).0 })
  goes_on :
      (s : System) (env : Env) (p : Packet) (direct : Bool) (path : ℕ)
      → Step s (record s { receiver = (deliver env p direct path s.receiver).0 })
  answers :
      (s : System) (env : Env) (p : Packet) (direct : Bool)
      → is_payload p ≡ false
      → Step s (record s { sender = (receive env p direct s.sender).0 })
  reads :
      (s : System) (env : Env) (n : ℕ) (removed : List Packet)
      → s.receiver.incoming ≡ removed ++ (read env n s.receiver).0.incoming
      → Step s (record s { receiver = (read env n s.receiver).0; taken = s.taken ++ removed })
  resends :
      (s : System) (env : Env) (probes : Bool)
      → Step s (record s { sender = (retransmit env probes s.sender).0 })
  receiver_resends :
      (s : System) (env : Env) (probes : Bool)
      → Step s (record s { receiver = (retransmit env probes s.receiver).0 })

-- The states that the system gets to.
pub data Reached : System → Type 0 where
  initially : Reached start
  by_step : {s t : System} → Step s t → Reached s → Reached t

-- The invariant of the system.
pub record IsSound (s : System) : Type 0 where
  pub numbered : Numbered 1 s.log
  pub counted : s.sender.next ≡ suc (length s.log)
  pub delivers : Delivers s.log s.taken s.receiver

Numbered-snoc :
    (k : ℕ) (ps : List Packet) (p : Packet)
    → Numbered k ps
    → p.seq ≡ k + length ps
    → Numbered k (ps ++ p ∷ [])
Numbered-snoc k [] p h e = (omega arith, tt)
Numbered-snoc k (q ∷ ps) p (hq, hs) e = (hq, Numbered-snoc (suc k) ps p hs (omega arith))

IsFrom-snoc :
    (log : List Packet) (p : Packet) (ps : List Packet)
    → All (IsFrom log) ps
    → All (IsFrom (log ++ p ∷ [])) ps
IsFrom-snoc log p [] h = tt
IsFrom-snoc log p (q ∷ ps) (hq, hs) =
    (find_seq-append q.seq log (p ∷ []) {q = q} hq, IsFrom-snoc log p ps hs)

Delivers-snoc :
    (log taken : List Packet) (p : Packet) (c : Conn)
    → Delivers log taken c
    → Delivers (log ++ p ∷ []) taken c
Delivers-snoc log taken p c d = record {
  ahead = d.ahead ++ p ∷ [];
  splits =
      ap (λ (l : List Packet). l ++ p ∷ []) d.splits
      ∙ append_assoc (taken ++ c.incoming) d.ahead (p ∷ []);
  counts = d.counts;
  stored = IsFrom-snoc log p c.buffered d.stored;
}

Delivers-read :
    (log taken removed : List Packet) (c c' : Conn)
    → c.incoming ≡ removed ++ c'.incoming
    → c'.receive_next ≡ c.receive_next
    → c'.buffered ≡ c.buffered
    → Delivers log taken c
    → Delivers log (taken ++ removed) c'
Delivers-read log taken removed c c' i r b d =
    let joined : (taken ++ removed) ++ c'.incoming ≡ taken ++ c.incoming =
      append_assoc taken removed c'.incoming ∙ ap (λ (l : List Packet). taken ++ l) (sym i) in
    record {
      ahead = d.ahead;
      splits = d.splits ∙ ap (λ (l : List Packet). l ++ d.ahead) (sym joined);
      counts = r ∙ d.counts ∙ ap (λ (l : List Packet). suc (length l)) (sym joined);
      stored = subst (All (IsFrom log)) (sym b) d.stored;
    }

-- A sender that only sends keeps the claim, and so does such a receiver.
sender-IsSound :
    (s : System) (c : Conn) → SameStream s.sender c → IsSound s → IsSound (record s { sender = c })
sender-IsSound s c same h = record {
  numbered = h.numbered;
  counted = same.same_next ∙ h.counted;
  delivers = h.delivers;
}

queues-IsSound :
    (s : System) (env : Env) (kind : ℕ) (body : Bytes) (sender' : Conn)
    → SameStream (enqueue env (fresh_packet kind body s.sender) s.sender) sender'
    → IsSound s
    → IsSound (record s { sender = sender'; log = s.log ++ fresh_packet kind body s.sender ∷ [] })
queues-IsSound s env kind body sender' same h =
    let p = fresh_packet kind body s.sender in
    record {
      numbered = Numbered-snoc 1 s.log p h.numbered (omega (arith, h.counted));
      counted = same.same_next ∙ omega (arith, h.counted, length-append s.log (p ∷ []));
      delivers = Delivers-snoc s.log s.taken p s.receiver h.delivers;
    }

pub Step-IsSound : {s t : System} → Step s t → IsSound s → IsSound t
Step-IsSound (queues s env kind body sender' out e) h =
    queues-IsSound s env kind body sender' (queue-queued env kind body s.sender sender' out e) h
Step-IsSound (queue_fails s env kind body sender' out e) h =
    queues-IsSound s env kind body sender' (queue-failed env kind body s.sender sender' out e) h
Step-IsSound (arrives s env p direct from) h = record {
  numbered = h.numbered;
  counted = h.counted;
  delivers = receive-Delivers s.log s.taken h.numbered env p direct s.receiver from h.delivers;
}
Step-IsSound (goes_on s env p direct path) h = record {
  numbered = h.numbered;
  counted = h.counted;
  delivers = deliver-Delivers s.log s.taken h.numbered env p direct path s.receiver h.delivers;
}
Step-IsSound (answers s env p direct other) h =
    sender-IsSound s (receive env p direct s.sender).0
      (receive_control-SameStream env p direct s.sender other) h
Step-IsSound (reads s env n removed e) h = record {
  numbered = h.numbered;
  counted = h.counted;
  delivers =
      let kept = read-keeps env n s.receiver in
      Delivers-read s.log s.taken removed s.receiver (read env n s.receiver).0 e kept.0 kept.1
        h.delivers;
}
Step-IsSound (resends s env probes) h =
    sender-IsSound s (retransmit env probes s.sender).0 (retransmit-SameStream env probes s.sender)
      h
Step-IsSound (receiver_resends s env probes) h =
    let same = retransmit-SameStream env probes s.receiver in
    record {
      numbered = h.numbered;
      counted = h.counted;
      delivers =
          Delivers-same s.log s.taken h.numbered s.receiver (retransmit env probes s.receiver).0
            same.same_incoming same.same_receive_next same.same_buffered h.delivers;
    }

start-IsSound : IsSound start
start-IsSound = record {
  numbered = tt;
  counted = refl;
  delivers = record { ahead = []; splits = refl; counts = refl; stored = tt };
}

Reached-IsSound : {s : System} → Reached s → IsSound s
Reached-IsSound initially = start-IsSound
Reached-IsSound (by_step step before) = Step-IsSound step (Reached-IsSound before)

-- Whatever the network loses, repeats, delays or reorders, and whichever path it uses: the packets
-- that the reader has taken and those that wait in the channel are, in this order, the first ones
-- that the sender queued, each once and none left out.
pub delivery_in_order :
    {s : System}
    → Reached s
    → (ahead : List Packet) × (s.log ≡ (s.taken ++ s.receiver.incoming) ++ ahead)
delivery_in_order r = let d = (Reached-IsSound r).delivers in (d.ahead, d.splits)
