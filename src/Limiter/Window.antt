-- ===== src/Limiter/Window.antt =====
-- No window holds more granted attempts than the limit.
use gosshd_bastion.Base.{
  ℕ, ◌+◌, ◌≤◌, ◌<◌, true, false, ◌&&◌, List, [], ◌∷◌, ◌++◌, ltb, leb, if◌then◌else◌, length, ◌≡◌,
  refl, sym, ap, ◌∙◌, subst, arith, Bool-cases, inl, inr, ◌⊎◌,
}
use gosshd_bastion.Base.Bytes.{Bytes, bytes_eq, bytes_eq_iff, bytes_eq_refl}
use gosshd_bastion.Limiter.{Attempts, times_of, set_times, kept, allow}

module _ (limit window : ℕ) where
  -- The calls for any keys, each with its time; the times at which those for one key were granted, the
  -- last one in front.
  unfoldable pub granted : Bytes → List (Bytes × ℕ) → Attempts → List ℕ → List ℕ
  unfolding allow
  granted key [] attempts past = past
  granted key ((k, now) ∷ calls) attempts past =
      let r = allow limit window k now attempts in
      granted key calls r.0 (if bytes_eq k key && r.1 then now ∷ past else past)

  -- How many of the times lie in the window that ends now.
  abbrev pub count_in : ℕ → List ℕ → ℕ
  count_in now [] = 0
  count_in now (t ∷ ts) = (if ltb now (t + window) then 1 else 0) + count_in now ts

  abbrev pub IsLimited : List ℕ → Type 0
  IsLimited [] = Unit
  IsLimited (t ∷ ts) = (1 + count_in t ts ≤ limit) × IsLimited ts

  -- The times of the calls do not go back.
  abbrev pub IsRising : ℕ → List (Bytes × ℕ) → Type 0
  IsRising last [] = Unit
  IsRising last ((k, now) ∷ calls) = (last ≤ now) × IsRising now calls

  length-kept : (now : ℕ) (ts : List ℕ) → length (kept window now ts) ≡ count_in now ts
  unfolding kept
  length-kept now [] = refl
  length-kept now (t ∷ ts) = ground (arith, length-kept now ts)

  -- What has left the window does not come back.
  count_in-kept :
      (now later : ℕ) (ts : List ℕ)
      → now ≤ later
      → count_in later (kept window now ts) ≡ count_in later ts
  unfolding kept
  count_in-kept now later [] h = refl
  count_in-kept now later (t ∷ ts) h = ground (arith, count_in-kept now later ts)

  count_in-snoc : (now t : ℕ) (ts : List ℕ) → count_in now (ts ++ t ∷ []) ≡ count_in now (t ∷ ts)
  count_in-snoc now t [] = refl
  count_in-snoc now t (u ∷ ts) = omega (arith, count_in-snoc now t ts)

  times_of-set_times :
      (key k : Bytes) (ts : List ℕ) (attempts : Attempts)
      → times_of key (set_times k ts attempts)
        ≡ (if bytes_eq k key then ts else times_of key attempts)
  unfolding times_of set_times
  times_of-set_times key k ts [] = refl
  times_of-set_times key k ts ((j, old) ∷ rest) = ground (
    arith,
    times_of-set_times key k ts rest,
    bytes_eq_iff j k,
    bytes_eq_iff j key,
    bytes_eq_iff k key,
  )

  -- What the map holds counts as the granted times do, from now on.
  abbrev IsCounted : Bytes → ℕ → Attempts → List ℕ → Type 0
  IsCounted key last attempts past =
      (now : ℕ) → last ≤ now → count_in now (times_of key attempts) ≡ count_in now past

  allow-other :
      (key k : Bytes) (now : ℕ) (attempts : Attempts)
      → bytes_eq k key ≡ false
      → times_of key (allow limit window k now attempts).0 ≡ times_of key attempts
  unfolding allow
  allow-other key k now attempts h =
      let recent = kept window now (times_of k attempts) in
      elim (Bool-cases (leb limit (length recent))) [
        | inl e ↦ rw (e, allow) (times_of-set_times key k recent attempts ∙ rw h refl)
        | inr e ↦ rw (e, allow) (times_of-set_times key k (recent ++ now ∷ []) attempts ∙ rw h refl)
      ]

  allow-cases :
      (key : Bytes) (now : ℕ) (attempts : Attempts)
      → let r = allow limit window key now attempts in
        let recent = kept window now (times_of key attempts) in
        ((r.1 ≡ false) × (times_of key r.0 ≡ recent))
        ⊎ ((r.1 ≡ true) × (length recent < limit) × (times_of key r.0 ≡ recent ++ now ∷ []))
  unfolding allow
  allow-cases key now attempts =
      let recent = kept window now (times_of key attempts) in
      let same = bytes_eq_refl key in
      elim (Bool-cases (leb limit (length recent))) [
        | inl e ↦
            rw (e, allow) (inl (refl, times_of-set_times key key recent attempts ∙ rw same refl))
        | inr e ↦
            rw (e, allow)
              (inr (
                refl,
                ground arith,
                times_of-set_times key key (recent ++ now ∷ []) attempts ∙ rw same refl,
              ))
      ]

  -- One call: what is granted stays limited, and what is stored counts as what is granted.
  abbrev After : Bytes → ℕ → Attempts → List ℕ → Type 0
  After key now attempts past = IsCounted key now attempts past × IsLimited past

  allow-After :
      (key : Bytes) (now last : ℕ) (attempts : Attempts) (past : List ℕ)
      → last ≤ now
      → IsCounted key last attempts past
      → IsLimited past
      → let r = allow limit window key now attempts in
        After key now r.0 (if r.1 then now ∷ past else past)
  allow-After key now last attempts past le counted h =
      let r = allow limit window key now attempts in
      let times = times_of key attempts in
      elim (allow-cases key now attempts) [
        | inl (refused, stored) ↦ rw refused (
          (λ later hl.
              ap (count_in later) stored
              ∙ count_in-kept now later times hl
              ∙ counted later (omega arith)),
          h,
        )
        | inr (taken, room, stored) ↦ rw taken (
          (λ later hl.
              ap (count_in later) stored
              ∙ count_in-snoc later now (kept window now times)
              ∙ ap (λ (n : ℕ). (if ltb later (now + window) then 1 else 0) + n)
                  (count_in-kept now later times hl ∙ counted later (omega arith))),
          (omega (arith, length-kept now times, counted now le), h),
        )
      ]

  -- If the map counts for a key as the times granted for it before do, at most `limit` of them in the
  -- window that ends with any one of them, and calls of any keys follow at times that do not go back,
  -- then of all times granted for the key at most `limit` lie in the window that ends with any one.
  pub granted-IsLimited :
      (key : Bytes) (calls : List (Bytes × ℕ)) (last : ℕ) (attempts : Attempts) (past : List ℕ)
      → IsRising last calls
      → IsCounted key last attempts past
      → IsLimited past
      → IsLimited (granted key calls attempts past)
  unfolding granted
  granted-IsLimited key [] last attempts past rising counted h = h
  granted-IsLimited key ((k, now) ∷ calls) last attempts past (le, rising) counted h =
      let r = allow limit window k now attempts in
      elim (Bool-cases (bytes_eq k key)) [
        | inr e ↦ rw e (
            granted-IsLimited key calls now r.0 past rising
              (λ later hl.
                ap (count_in later) (allow-other key k now attempts e)
                ∙ counted later (omega arith))
              h)
        | inl e ↦ rw e (
            let same = (bytes_eq_iff k key).0 e in
            let past' = if r.1 then now ∷ past else past in
            let after : After key now r.0 past' =
              subst
                (λ (j : Bytes).
                  let r = allow limit window j now attempts in
                  After key now r.0 (if r.1 then now ∷ past else past))
                (sym same) (allow-After key now last attempts past le counted h) in
            granted-IsLimited key calls now r.0 past' rising after.0 after.1)
      ]
