-- ===== src/Tunnel/Delivery.antt =====
-- The receiving end: what is passed on is, in its order, what the peer queued, whatever the network
-- loses, repeats or reorders.
use gosshd_bastion.Base.{
  ℕ, zero, suc, ◌+◌, Bool, false, ◌&&◌, ◌||◌, List, [], ◌∷◌, ◌++◌, some, ◌==◌, ◌%◌, if◌then◌else◌,
  leb, ltb, length, ◌≡◌, sym, ap, subst, ◌∙◌, arith, All, All-append, append_assoc, length-append,
  Option-cases, Bool-cases, inl, inr, ◌⊎◌,
}
use gosshd_bastion.Tunnel.Wire.{Packet, max_payload, window}
use gosshd_bastion.Tunnel.Conn.{Conn, Env, shutdown}
use gosshd_bastion.Tunnel.Receive.{
  find_seq, remove_seq, is_full, drain, deliver, pass_on, store, store_fresh, is_fresh,
  receive_payload, receive, receive_control, touch, is_payload,
}

-- The packets carry the numbers from `k` on.
abbrev pub Numbered : ℕ → List Packet → Type 0
Numbered k [] = Unit {0}
Numbered k (p ∷ ps) = (p.seq ≡ k) × Numbered (suc k) ps

-- The packet is one of those that the peer has queued.
abbrev pub IsFrom : List Packet → Packet → Type 0
IsFrom log p = find_seq p.seq log ≡ some p

pub find_seq-append :
    (n : ℕ) (xs ys : List Packet) {q : Packet}
    → find_seq n xs ≡ some q
    → find_seq n (xs ++ ys) ≡ some q
unfolding find_seq
find_seq-append n [] ys e = cc
find_seq-append n (x ∷ xs) ys {q} e = elim (Bool-cases (x.seq == n)) [
  | inl here ↦ ground arith
  | inr later ↦ rw later (find_seq-append n xs ys {q = q} (ground arith))
]

find_seq-All {ℓ} :
    (P : Packet → Type ℓ) (n : ℕ) (ps : List Packet) {q : Packet}
    → All P ps
    → find_seq n ps ≡ some q
    → P q × (q.seq ≡ n)
unfolding find_seq
find_seq-All P n [] h e = absurd (cc)
find_seq-All P n (p ∷ ps) {q} (hp, hs) e = elim (Bool-cases (p.seq == n)) [
  | inl here ↦ let same : p ≡ q = ground arith in (subst P same hp, ground arith)
  | inr later ↦ find_seq-All P n ps hs (ground arith)
]

remove_seq-All {ℓ} :
    (P : Packet → Type ℓ) (n : ℕ) (ps : List Packet) → All P ps → All P (remove_seq n ps)
unfolding remove_seq
remove_seq-All P n [] h = h
remove_seq-All P n (p ∷ ps) (hp, hs) = elim (Bool-cases (p.seq == n)) [
  | inl here ↦ rw here (remove_seq-All P n ps hs)
  | inr later ↦ rw later (hp, remove_seq-All P n ps hs)
]

-- The packet with the number behind those of `before` is the next one.
find_seq-Numbered :
    (before rest : List Packet) (k n : ℕ) {q : Packet}
    → Numbered k (before ++ rest)
    → n ≡ k + length before
    → find_seq n (before ++ rest) ≡ some q
    → (rest' : List Packet) × (rest ≡ q ∷ rest')
unfolding find_seq
find_seq-Numbered [] [] k n h e f = absurd (cc)
find_seq-Numbered [] (p ∷ ps) k n h e f = (ps, ground arith)
find_seq-Numbered (p ∷ before) rest k n h e f =
    find_seq-Numbered before rest (suc k) n h.1 (omega arith) (ground arith)

-- The receiver's state against the packets `log` that the peer has queued and those that the reader
-- has `taken` from the channel.
pub record Delivers (log taken : List Packet) (c : Conn) : Type 0 where
  pub ahead : List Packet
  pub splits : log ≡ (taken ++ c.incoming) ++ ahead
  pub counts : c.receive_next ≡ suc (length (taken ++ c.incoming))
  pub stored : All (IsFrom log) c.buffered

module _ (log taken : List Packet) (numbered : Numbered 1 log) where
  pass_on-Delivers :
      (c : Conn) {q : Packet}
      → Delivers log taken c
      → find_seq c.receive_next c.buffered ≡ some q
      → Delivers log taken (pass_on q c)
  pass_on-Delivers c {q} d e =
      let before = taken ++ c.incoming in
      let (from, at) = find_seq-All (IsFrom log) c.receive_next c.buffered d.stored e in
      let (ahead', more) =
        find_seq-Numbered before d.ahead 1 c.receive_next {q = q} (rw d.splits at numbered)
          (omega (arith, d.counts))
          (rw d.splits at (ap (λ (n : ℕ). find_seq n log) (sym at) ∙ from)) in
      record {
        ahead = ahead';
        splits = d.splits ∙ rw more (simp append_assoc);
        counts = omega (
          arith,
          d.counts,
          length-append before (q ∷ []),
          ap length (append_assoc taken c.incoming (q ∷ [])),
        );
        stored = remove_seq-All (IsFrom log) c.receive_next c.buffered d.stored;
      }

  drain-Delivers :
      (env : Env) (fuel : ℕ) (c : Conn)
      → Delivers log taken c
      → Delivers log taken (drain env fuel c).0
  unfolding drain
  drain-Delivers env zero c d = d
  drain-Delivers env (suc fuel) c d = elim (Option-cases (find_seq c.receive_next c.buffered)) [
    | inl none_left ↦ rw (none_left, drain) d
    | inr (q, found) ↦
        let further = drain-Delivers env fuel (pass_on q c) (pass_on-Delivers c {q = q} d found) in
        elim (Bool-cases (c.closed && (is_full c || env.stops_at c.receive_next))) [
          | inl over ↦ rw (found, drain, over) d
          | inr open_ ↦ elim (Bool-cases (is_full c)) [
            | inl full ↦ rw (found, drain, open_, full) d
            | inr room ↦ rw (found, drain, open_, room) further
          ]
        ]
  ]

  pub deliver-Delivers :
      (env : Env) (p : Packet) (direct : Bool) (path : ℕ) (c : Conn)
      → Delivers log taken c
      → Delivers log taken (deliver env p direct path c).0
  unfolding deliver
  deliver-Delivers env p direct path c d = drain-Delivers env (length c.buffered) c d

  store-Delivers :
      (p : Packet) (direct : Bool) (c : Conn)
      → IsFrom log p
      → Delivers log taken c
      → Delivers log taken (store p direct c)
  unfolding store store_fresh
  store-Delivers p direct c from d = elim (Bool-cases (is_fresh p c)) [
    | inr known ↦ rw (known, store) d
    | inl fresh ↦
        rw (fresh, store)
          (record {
            ahead = d.ahead;
            splits = d.splits;
            counts = d.counts;
            stored = All-append (IsFrom log) c.buffered (p ∷ []) d.stored (from, tt);
          })
  ]

  -- What leaves the four fields alone keeps the claim.
  pub Delivers-same :
      (c c' : Conn)
      → c'.incoming ≡ c.incoming
      → c'.receive_next ≡ c.receive_next
      → c'.buffered ≡ c.buffered
      → Delivers log taken c
      → Delivers log taken c'
  Delivers-same c c' i r b d = record {
    ahead = d.ahead;
    splits = d.splits ∙ rw i;
    counts = r ∙ d.counts ∙ rw i;
    stored = subst (All (IsFrom log)) (sym b) d.stored;
  }

  receive_payload-Delivers :
      (env : Env) (p : Packet) (direct : Bool) (c : Conn)
      → IsFrom log p
      → Delivers log taken c
      → Delivers log taken (receive_payload env p direct c).0
  unfolding receive_payload
  receive_payload-Delivers env p direct c from d =
      let stored = store p direct c in
      let slot = stored.delivered (p.seq % 128) in
      let path = if slot.seq == p.seq then slot.path else 2 in
      elim (Bool-cases (ltb max_payload (length p.body))) [
        | inl big ↦
            rw (big, receive_payload)
              (Delivers-same c (shutdown c) (unfold shutdown in ground arith)
                (unfold shutdown in ground arith) (unfold shutdown in ground arith) d)
        | inr fits ↦ elim (Bool-cases (leb (c.receive_next + window) p.seq)) [
          | inl far ↦ rw (fits, far, receive_payload) d
          | inr near ↦
              rw (fits, near, receive_payload)
                (deliver-Delivers env p direct path stored (store-Delivers p direct c from d))
        ]
      ]

  touch-Delivers :
      (env : Env) (direct : Bool) (c : Conn)
      → Delivers log taken c
      → Delivers log taken (touch env direct c)
  touch-Delivers env direct c =
      Delivers-same c (touch env direct c) (ground arith) (ground arith) (ground arith)

  receive_control-Delivers :
      (env : Env) (p : Packet) (direct : Bool) (c : Conn)
      → Delivers log taken c
      → Delivers log taken (receive_control env p direct c).0
  unfolding receive_control
  receive_control-Delivers env p direct c =
      Delivers-same c (receive_control env p direct c).0 (ground arith) (ground arith)
        (ground arith)

  -- A packet of any kind is received; data must be what the peer has queued.
  pub receive-Delivers :
      (env : Env) (p : Packet) (direct : Bool) (c : Conn)
      → (is_payload p ≡ false) ⊎ IsFrom log p
      → Delivers log taken c
      → Delivers log taken (receive env p direct c).0
  unfolding receive
  receive-Delivers env p direct c from d = elim (Bool-cases (is_payload p)) [
    | inr other ↦
        rw (other, receive)
          (receive_control-Delivers env p direct (touch env direct c)
            (touch-Delivers env direct c d))
    | inl payload ↦
        rw (payload, receive)
          (receive_payload-Delivers env p direct (touch env direct c) (ground arith)
            (touch-Delivers env direct c d))
  ]
