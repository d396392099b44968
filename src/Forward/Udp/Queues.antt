-- ===== src/Forward/Udp/Queues.antt =====
-- What the queues of UDP sessions hold, and what a change of one queue does to the sums.
use gosshd_bastion.Base.{
  ℕ, ◌+◌, ◌≤◌, List, [], ◌∷◌, ◌++◌, some, length, ◌≡◌, refl, arith, Bool-cases, inl, inr, All,
}
use gosshd_bastion.Base.Bytes.{Bytes, bytes_eq}
use gosshd_bastion.Forward.Udp.{
  max_packets, queue_of, set_queue, drop_source, cost, taken_of, without_taken, queue_bytes,
}

abbrev pub all_bytes : List (Bytes × List Bytes) → ℕ
all_bytes [] = 0
all_bytes ((k, packets) ∷ rest) = queue_bytes packets + all_bytes rest

abbrev pub sent_bytes : List (Bytes × Bytes) → ℕ
sent_bytes [] = 0
sent_bytes ((k, b) ∷ rest) = cost b + sent_bytes rest

pub queue_bytes-snoc :
    (packets : List Bytes) (b : Bytes)
    → queue_bytes (packets ++ b ∷ []) ≡ queue_bytes packets + (length b + 1)
unfolding queue_bytes
queue_bytes-snoc [] b = omega arith
queue_bytes-snoc (p ∷ packets) b = omega (arith, queue_bytes-snoc packets b)

module _ (key : Bytes) (packets : List Bytes) where
  pub all_bytes-set_queue :
      (new : List Bytes) (sources : List (Bytes × List Bytes))
      → queue_of key sources ≡ some packets
      → all_bytes (set_queue key new sources) + queue_bytes packets
        ≡ all_bytes sources + queue_bytes new
  unfolding queue_of set_queue
  all_bytes-set_queue new [] h = absurd (cc)
  all_bytes-set_queue new ((k, old) ∷ rest) h = elim (Bool-cases (bytes_eq k key)) [
    | inl e ↦ let same : old ≡ packets = ground arith in rw (e, set_queue, same) (omega arith)
    | inr e ↦
        let ih = all_bytes-set_queue new rest (ground arith) in rw (e, set_queue) (omega arith)
  ]

  pub length-set_queue :
      (new : List Bytes) (sources : List (Bytes × List Bytes))
      → length (set_queue key new sources) ≡ length sources
  unfolding set_queue
  length-set_queue new [] = refl
  length-set_queue new ((k, old) ∷ rest) = ground (arith, length-set_queue new rest)

  pub short-set_queue :
      (new : List Bytes) (sources : List (Bytes × List Bytes))
      → length new ≤ max_packets
      → All (λ source. length source.1 ≤ max_packets) sources
      → All (λ source. length source.1 ≤ max_packets) (set_queue key new sources)
  unfolding set_queue
  short-set_queue new [] le h = tt
  short-set_queue new ((k, old) ∷ rest) le (h, hs) = elim (Bool-cases (bytes_eq k key)) [
    | inl e ↦ rw (e, set_queue) (le, hs)
    | inr e ↦ rw (e, set_queue) (h, short-set_queue new rest le hs)
  ]

  pub short-queue_of :
      (sources : List (Bytes × List Bytes))
      → queue_of key sources ≡ some packets
      → All (λ source. length source.1 ≤ max_packets) sources
      → length packets ≤ max_packets
  unfolding queue_of
  short-queue_of [] h s = absurd (cc)
  short-queue_of ((k, old) ∷ rest) h (s, ss) = elim (Bool-cases (bytes_eq k key)) [
    | inl e ↦ let same : old ≡ packets = ground arith in rw (← same) s
    | inr e ↦ short-queue_of rest (ground arith) ss
  ]

  pub all_bytes-drop_source :
      (sources : List (Bytes × List Bytes))
      → queue_of key sources ≡ some packets
      → all_bytes (drop_source key sources) + queue_bytes packets ≡ all_bytes sources
  unfolding queue_of drop_source
  all_bytes-drop_source [] h = absurd (cc)
  all_bytes-drop_source ((k, old) ∷ rest) h = elim (Bool-cases (bytes_eq k key)) [
    | inl e ↦ let same : old ≡ packets = ground arith in rw (e, drop_source, same) (omega arith)
    | inr e ↦
        let ih = all_bytes-drop_source rest (ground arith) in rw (e, drop_source) (omega arith)
  ]

pub length-drop_source :
    (key : Bytes) (sources : List (Bytes × List Bytes))
    → length (drop_source key sources) ≤ length sources
unfolding drop_source
length-drop_source key [] = omega arith
length-drop_source key ((k, old) ∷ rest) = ground (arith, length-drop_source key rest)

pub short-drop_source :
    (key : Bytes) (sources : List (Bytes × List Bytes))
    → All (λ source. length source.1 ≤ max_packets) sources
    → All (λ source. length source.1 ≤ max_packets) (drop_source key sources)
unfolding drop_source
short-drop_source key [] h = tt
short-drop_source key ((k, old) ∷ rest) (h, hs) = elim (Bool-cases (bytes_eq k key)) [
  | inl e ↦ rw (e, drop_source) hs
  | inr e ↦ rw (e, drop_source) (h, short-drop_source key rest hs)
]

pub sent_bytes-without_taken :
    (key b : Bytes) (sending : List (Bytes × Bytes))
    → taken_of key sending ≡ some b
    → sent_bytes (without_taken key sending) + cost b ≡ sent_bytes sending
unfolding taken_of without_taken
sent_bytes-without_taken key b [] h = absurd (cc)
sent_bytes-without_taken key b ((k, x) ∷ rest) h = elim (Bool-cases (bytes_eq k key)) [
  | inl e ↦ let same : x ≡ b = ground arith in rw (e, without_taken, same) (omega arith)
  | inr e ↦
      let ih = sent_bytes-without_taken key b rest (ground arith) in
      rw (e, without_taken) (omega arith)
]
