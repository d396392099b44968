-- ===== src/Forward/Udp/Bounds.antt =====
-- The bounds of the UDP sessions hold in every run.
use gosshd_bastion.Base.{
  ℕ, ◌+◌, ◌≤◌, Bool, not, ◌&&◌, List, [], ◌∷◌, ◌++◌, ◌∙◌, Option, none, some, if◌then◌else◌, ltb,
  length, ◌≡◌, refl, arith, Bool-cases, Option-cases, inl, inr, All, length-append, and_split,
  ltb→lt,
}
use gosshd_bastion.Base.Bytes.{Bytes}
use gosshd_bastion.Forward.Udp.{
  UdpSessions, max_udp_sessions, max_udp_queued_bytes, max_packets, queue_of, with_source, cost,
  Arriving, reserve_packet, receive_packet, undone, queue_packet, settle_packet, take_packet,
  taken_of, uncount_packet, queue_bytes, end_session,
}
use gosshd_bastion.Forward.Udp.Queues.{
  all_bytes, sent_bytes, queue_bytes-snoc, all_bytes-set_queue, length-set_queue, short-set_queue,
  short-queue_of, all_bytes-drop_source, length-drop_source, short-drop_source,
  sent_bytes-without_taken,
}

pub data UdpStep : Type 0 where
  receives : (cancelled : Bool) → (key : Bytes) → (payload : Bytes) → UdpStep
  settles : UdpStep
  takes : (key : Bytes) → UdpStep
  uncounts : (key : Bytes) → UdpStep
  ends : (key : Bytes) → UdpStep

unfoldable pub udp_step : UdpStep → UdpSessions → UdpSessions
unfolding receive_packet settle_packet take_packet uncount_packet end_session
udp_step (receives cancelled key payload) s = receive_packet cancelled key payload s
udp_step settles s = settle_packet s
udp_step (takes key) s = take_packet key s
udp_step (uncounts key) s = uncount_packet key s
udp_step (ends key) s = end_session key s

unfoldable pub udp_run : List UdpStep → UdpSessions → UdpSessions
unfolding udp_step
udp_run [] s = s
udp_run (step ∷ steps) s = udp_run steps (udp_step step s)

-- What the packet that the loop has counts for, and what it counts for if it fits.
abbrev pub arriving_bytes : Option Arriving → ℕ
arriving_bytes none = 0
arriving_bytes (some a) = cost a.payload

abbrev pub fitting_bytes : Option Arriving → ℕ
fitting_bytes none = 0
fitting_bytes (some a) = if a.fits then cost a.payload else 0

-- The counter is the sum over the packets that wait, those taken off and not subtracted yet, and the one
-- that the loop has; the first two, and the last one if it fits, are within the bound.
pub record IsWithin (s : UdpSessions) : Type 0 where
  pub counted : s.queued ≡ all_bytes s.sources + sent_bytes s.sending + arriving_bytes s.arriving
  pub bounded :
      all_bytes s.sources + sent_bytes s.sending + fitting_bytes s.arriving ≤ max_udp_queued_bytes
  pub few : length s.sources ≤ max_udp_sessions
  pub short : All (λ source. length source.1 ≤ max_packets) s.sources

with_source-IsWithin :
    (cancelled : Bool) (key : Bytes) (s : UdpSessions)
    → IsWithin s
    → IsWithin (with_source cancelled key s)
unfolding with_source queue_bytes
with_source-IsWithin cancelled key s h = elim (Option-cases (queue_of key s.sources)) [
  | inr (packets, e) ↦ rw (e, with_source) h
  | inl e ↦ elim (Bool-cases (ltb (length s.sources) max_udp_sessions && not cancelled)) [
    | inr f ↦ rw (e, with_source, f) h
    | inl f ↦
        let room = (and_split (ltb (length s.sources) max_udp_sessions) (not cancelled) f).0 in
        rw (e, with_source, f)
          (record {
            counted = omega (arith, h.counted);
            bounded = omega (arith, h.bounded);
            few = omega (arith, ltb→lt (length s.sources) max_udp_sessions room);
            short = (omega arith, h.short);
          })
  ]
]

with_source-arriving :
    (cancelled : Bool) (key : Bytes) (s : UdpSessions)
    → (with_source cancelled key s).arriving ≡ s.arriving
unfolding with_source
with_source-arriving cancelled key s = ground arith

reserve_packet-IsWithin :
    (key payload : Bytes) (s : UdpSessions)
    → s.arriving ≡ none
    → IsWithin s
    → IsWithin (reserve_packet key payload s)
unfolding reserve_packet
reserve_packet-IsWithin key payload s idle h = elim (Option-cases (queue_of key s.sources)) [
  | inl e ↦ rw (e, reserve_packet) h
  | inr (packets, e) ↦
      let none_yet : arriving_bytes s.arriving ≡ 0 = rw idle refl in
      let none_fits : fitting_bytes s.arriving ≡ 0 = rw idle refl in
      rw (e, reserve_packet)
        (record {
          counted = omega (arith, h.counted, none_yet);
          bounded = ground (arith, h.counted, h.bounded, none_yet, none_fits);
          few = h.few;
          short = h.short;
        })
]

undone-IsWithin :
    (a : Arriving) (s : UdpSessions) → s.arriving ≡ some a → IsWithin s → IsWithin (undone a s)
undone-IsWithin a s here h =
    let bytes : arriving_bytes s.arriving ≡ cost a.payload = rw here refl in
    record {
      counted = omega (arith, h.counted, bytes);
      bounded = omega (arith, h.bounded);
      few = h.few;
      short = h.short;
    }

queue_packet-IsWithin :
    (a : Arriving) (s : UdpSessions)
    → s.arriving ≡ some a
    → IsWithin s
    → IsWithin (queue_packet a s)
unfolding queue_packet
queue_packet-IsWithin a s here h = elim (Option-cases (queue_of a.key s.sources)) [
  | inl e ↦ rw (e, queue_packet) (undone-IsWithin a s here h)
  | inr (packets, e) ↦ elim (Bool-cases (a.fits && ltb (length packets) max_packets)) [
    | inr f ↦ rw (e, queue_packet, f) (undone-IsWithin a s here h)
    | inl f ↦
        let (fit, room) = and_split a.fits (ltb (length packets) max_packets) f in
        let new = packets ++ a.payload ∷ [] in
        let bytes : arriving_bytes s.arriving ≡ cost a.payload = rw here refl in
        let fitting : fitting_bytes s.arriving ≡ cost a.payload = rw (here, fit) refl in
        let moved = all_bytes-set_queue a.key packets new s.sources e in
        let one = queue_bytes-snoc packets a.payload in
        rw (e, queue_packet, f)
          (record {
            counted = omega (arith, h.counted, bytes, moved, one);
            bounded = omega (arith, h.bounded, fitting, moved, one);
            few = omega (arith, length-set_queue a.key packets new s.sources, h.few);
            short =
                short-set_queue a.key packets new s.sources
                  (omega (
                    arith,
                    length-append packets (a.payload ∷ []),
                    ltb→lt (length packets) max_packets room,
                  ))
                  h.short;
          })
  ]
]

take_packet-IsWithin : (key : Bytes) (s : UdpSessions) → IsWithin s → IsWithin (take_packet key s)
unfolding take_packet
take_packet-IsWithin key s h = elim (Option-cases (queue_of key s.sources)) [
  | inl e ↦ rw (e, take_packet) h
  | inr ([], e) ↦ rw (e, take_packet) h
  | inr (b ∷ rest, e) ↦
      let moved = all_bytes-set_queue key (b ∷ rest) rest s.sources e in
      rw (e, take_packet)
        (record {
          counted = unfold queue_bytes in omega (arith, h.counted, moved);
          bounded = unfold queue_bytes in omega (arith, h.bounded, moved);
          few = omega (arith, length-set_queue key (b ∷ rest) rest s.sources, h.few);
          short =
              short-set_queue key (b ∷ rest) rest s.sources
                (omega (arith, short-queue_of key (b ∷ rest) s.sources e h.short)) h.short;
        })
]

uncount_packet-IsWithin :
    (key : Bytes) (s : UdpSessions) → IsWithin s → IsWithin (uncount_packet key s)
unfolding uncount_packet
uncount_packet-IsWithin key s h = elim (Option-cases (taken_of key s.sending)) [
  | inl e ↦ rw (e, uncount_packet) h
  | inr (b, e) ↦
      let less = sent_bytes-without_taken key b s.sending e in
      rw (e, uncount_packet)
        (record {
          counted = omega (arith, h.counted, less);
          bounded = omega (arith, h.bounded, less);
          few = h.few;
          short = h.short;
        })
]

end_session-IsWithin : (key : Bytes) (s : UdpSessions) → IsWithin s → IsWithin (end_session key s)
unfolding end_session
end_session-IsWithin key s h = elim (Option-cases s.arriving) [
  | inr (a, here) ↦ rw (here, end_session) h
  | inl idle ↦ elim (Option-cases (queue_of key s.sources)) [
    | inl e ↦ rw (idle, e, end_session) h
    | inr (packets, e) ↦
        let gone = all_bytes-drop_source key packets s.sources e in
        rw (idle, e, end_session)
          (record {
            counted = omega (arith, h.counted, gone);
            bounded = omega (arith, h.bounded, gone);
            few = omega (arith, length-drop_source key s.sources, h.few);
            short = short-drop_source key s.sources h.short;
          })
  ]
]

receive_packet-IsWithin :
    (cancelled : Bool) (key payload : Bytes) (s : UdpSessions)
    → IsWithin s
    → IsWithin (receive_packet cancelled key payload s)
unfolding receive_packet
receive_packet-IsWithin cancelled key payload s h = elim (Option-cases s.arriving) [
  | inr (a, here) ↦ rw (here, receive_packet) h
  | inl idle ↦
      rw (idle, receive_packet)
        (reserve_packet-IsWithin key payload (with_source cancelled key s)
          (with_source-arriving cancelled key s ∙ idle) (with_source-IsWithin cancelled key s h))
]

settle_packet-IsWithin : (s : UdpSessions) → IsWithin s → IsWithin (settle_packet s)
unfolding settle_packet
settle_packet-IsWithin s h = elim (Option-cases s.arriving) [
  | inl idle ↦ rw (idle, settle_packet) h
  | inr (a, here) ↦ rw (here, settle_packet) (queue_packet-IsWithin a s here h)
]

udp_step-IsWithin : (step : UdpStep) (s : UdpSessions) → IsWithin s → IsWithin (udp_step step s)
unfolding udp_step
udp_step-IsWithin (receives cancelled key payload) s h =
    receive_packet-IsWithin cancelled key payload s h
udp_step-IsWithin settles s h = settle_packet-IsWithin s h
udp_step-IsWithin (takes key) s h = take_packet-IsWithin key s h
udp_step-IsWithin (uncounts key) s h = uncount_packet-IsWithin key s h
udp_step-IsWithin (ends key) s h = end_session-IsWithin key s h

-- Every run of the loop, the senders and the ends of sessions, in which the loop counts a packet before
-- it queues it or undoes this, and a sender takes a packet before it subtracts it, keeps this: the
-- counter is the bytes, and one for each, of the packets that wait, of those taken and not yet
-- subtracted, and of the one that the loop has; those that wait or were taken are at most 8 MiB, with
-- the one that the loop has if it found that it fits; there are at most 1024 sources, and at most 16
-- packets wait for each.
pub udp_run-IsWithin :
    (steps : List UdpStep) (s : UdpSessions) → IsWithin s → IsWithin (udp_run steps s)
unfolding udp_run
udp_run-IsWithin [] s h = h
udp_run-IsWithin (step ∷ steps) s h =
    udp_run-IsWithin steps (udp_step step s) (udp_step-IsWithin step s h)
