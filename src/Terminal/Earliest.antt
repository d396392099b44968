-- ===== src/Terminal/Earliest.antt =====
-- The session that a command is routed to is the earliest usable one.
use gosshd_bastion.Base.{
  ℕ, ◌≤◌, Bool, true, false, not, ◌&&◌, List, [], ◌∷◌, ◌++◌, Option, none, some, ltb, leb, is_empty,
  ◌-◌, if◌then◌else◌, ◌≡◌, refl, sym, ◌∙◌, subst, arith, Bool-cases, inl, inr, ◌⊎◌, All, AnyOf,
}
use gosshd_bastion.Base.Bytes.{Bytes, bytes_eq}
use gosshd_bastion.Terminal.Session.{Session, heartbeat_timeout}
use gosshd_bastion.Terminal.Routing.{
  Lookup, earlier, is_stale, is_candidate, reason_of, look_up, earliest_online,
}

-- The user's session of the target, open, ready for input, with a client, not busy, with a heartbeat in the last
-- 30 seconds, and open to collaboration.
abbrev pub is_usable : Bytes → Bytes → ℕ → Session → Bool
is_usable user target now s =
    bytes_eq s.user_id user
    && bytes_eq s.target_id target
    && not s.closed
    && s.input_ready
    && not (is_empty s.clients)
    && not s.shell_busy
    && leb (now - s.last_heartbeat) heartbeat_timeout
    && s.collaboration

is_candidate-reason_of :
    (user target : Bytes) (now : ℕ) (s : Session)
    → is_candidate (reason_of user target now s) ≡ is_usable user target now s
unfolding reason_of is_stale
is_candidate-reason_of user target now s = ground arith

abbrev pub IsNotLater : Option Session → Session → Type 0
IsNotLater none t = ⊥
IsNotLater (some s) t = s.started_at ≤ t.started_at

abbrev IsNotLaterThan : Option Session → Option Session → Type 0
IsNotLaterThan r none = Unit
IsNotLaterThan r (some t) = IsNotLater r t

IsNotLater-trans :
    (r : Option Session) (a b : Session)
    → IsNotLater r a
    → a.started_at ≤ b.started_at
    → IsNotLater r b
IsNotLater-trans none a b h k = h
IsNotLater-trans (some s) a b h k = omega arith

same_time : (o : Option Session) → IsNotLaterThan o o
same_time none = tt
same_time (some s) = omega arith

than_trans :
    (r : Option Session) (s : Session) (o : Option Session)
    → IsNotLater r s
    → IsNotLaterThan (some s) o
    → IsNotLaterThan r o
than_trans r s none h k = tt
than_trans r s (some t) h k = IsNotLater-trans r s t h k

trans_than :
    (r o : Option Session) (s : Session) → IsNotLaterThan r o → IsNotLater o s → IsNotLater r s
trans_than r none s h k = absurd k
trans_than r (some t) s h k = IsNotLater-trans r t s h k

module _ (user target : Bytes) (now : ℕ) where
  abbrev pub IsOneOf : Option Session → List Session → Type 0
  IsOneOf none sessions = ⊥
  IsOneOf (some s) sessions = AnyOf (λ t. t ≡ s) sessions × (is_usable user target now s ≡ true)

  abbrev pub AreNotEarlier : Option Session → List Session → Type 0
  AreNotEarlier r = All (λ t. is_usable user target now t ≡ true → IsNotLater r t)

  abbrev next : Session → Option Session → Option Session
  next s o = if is_usable user target now s && earlier s o then some s else o

  -- What the loop makes of the sessions that are left, given the best one so far.
  IsBest : List Session → Option Session → Option Session → Type 0
  IsBest sessions so_far r =
      ((r ≡ so_far) ⊎ IsOneOf r sessions) × AreNotEarlier r sessions × IsNotLaterThan r so_far

  next-cases :
      (s : Session) (o : Option Session)
      → ((next s o ≡ some s) × (is_usable user target now s ≡ true) × IsNotLaterThan (some s) o)
        ⊎ ((next s o ≡ o) × (is_usable user target now s ≡ true → IsNotLater o s))
  next-cases s none = elim (Bool-cases (is_usable user target now s)) [
    | inl e ↦ inl (rw e refl, e, tt)
    | inr e ↦ inr (rw e refl, λ h. absurd (cc))
  ]
  next-cases s (some t) = elim (Bool-cases (is_usable user target now s)) [
    | inl e ↦ elim (Bool-cases (ltb s.started_at t.started_at)) [
      | inl f ↦ inl (rw (e, f) refl, e, ground arith)
      | inr f ↦ inr (rw (e, f) refl, λ h. ground arith)
    ]
    | inr e ↦ inr (rw e refl, λ h. absurd (cc))
  ]

  later :
      (s : Session) (sessions : List Session) (r : Option Session)
      → IsOneOf r sessions
      → IsOneOf r (s ∷ sessions)
  later s sessions none h = h
  later s sessions (some t) (h, u) = (inr h, u)

  step-IsBest :
      (s : Session) (sessions : List Session) (so_far r : Option Session)
      → IsBest sessions (next s so_far) r
      → IsBest (s ∷ sessions) so_far r
  unfolding IsBest
  step-IsBest s sessions so_far r (chosen, others, first) = elim (next-cases s so_far) [
    | inl (e, usable, before) ↦
        let first' : IsNotLater r s = subst (λ o. IsNotLaterThan r o) e first in
        let found : IsOneOf r (s ∷ sessions) = elim chosen [
          | inl p ↦ subst (λ o. IsOneOf o (s ∷ sessions)) (sym (p ∙ e)) (inl refl, usable)
          | inr q ↦ later s sessions r q
        ] in
        (inr found, (λ _. first', others), than_trans r s so_far first' before)
    | inr (e, before) ↦
        let first' : IsNotLaterThan r so_far = subst (λ o. IsNotLaterThan r o) e first in
        let found : (r ≡ so_far) ⊎ IsOneOf r (s ∷ sessions) = elim chosen [
          | inl p ↦ inl (p ∙ e)
          | inr q ↦ inr (later s sessions r q)
        ] in
        (found, (λ u. trans_than r so_far s first' (before u), others), first')
  ]

  look_up-IsBest :
      (sessions : List Session) (found : Lookup)
      → IsBest sessions found.session (look_up user target now sessions found).session
  unfolding look_up
  look_up-IsBest [] found = unfold IsBest in (inl refl, tt, same_time found.session)
  look_up-IsBest (s ∷ sessions) found =
      let o = found.session in
      let reason = reason_of user target now s in
      let next_found : Lookup = record {
        session = if is_candidate reason && earlier s o then some s else o;
        reasons = found.reasons ++ (s.id, reason) ∷ [];
      } in
      let r = (look_up user target now sessions next_found).session in
      step-IsBest s sessions o r (
        subst (λ b. IsBest sessions (if b && earlier s o then some s else o) r)
          (is_candidate-reason_of user target now s) (look_up-IsBest sessions next_found))

  -- What is found among the sessions: an earliest usable one, or none if there is none.
  abbrev pub IsEarliest : List Session → Option Session → Type 0
  IsEarliest sessions none = All (λ t. is_usable user target now t ≡ false) sessions
  IsEarliest sessions (some s) =
      AnyOf (λ t. t ≡ s) sessions
      × (is_usable user target now s ≡ true)
      × All (λ t. is_usable user target now t ≡ true → s.started_at ≤ t.started_at) sessions

  none_usable :
      (sessions : List Session)
      → AreNotEarlier none sessions
      → All (λ t. is_usable user target now t ≡ false) sessions
  none_usable [] h = tt
  none_usable (s ∷ sessions) (h, hs) = (
    elim (Bool-cases (is_usable user target now s)) [ inl e ↦ absurd (h e) | inr e ↦ e ],
    none_usable sessions hs,
  )

  best-IsEarliest :
      (sessions : List Session) (r : Option Session)
      → IsBest sessions none r
      → IsEarliest sessions r
  unfolding IsBest
  best-IsEarliest sessions none (chosen, others, _) = none_usable sessions others
  best-IsEarliest sessions (some s) (inl e, others, _) = absurd (cc)
  best-IsEarliest sessions (some s) (inr (found, usable), others, _) = (found, usable, others)

-- Of any sessions, a command of a user for a target is routed to one of them that is usable, which is
-- started no later than any other usable one; it is routed nowhere exactly if none is usable. A usable session is the user's and of this target,
-- open, ready for input, with a client, not busy, with a heartbeat of the last 30 seconds, and open to collaboration.
pub earliest_online-IsEarliest :
    (user target : Bytes) (now : ℕ) (sessions : List Session)
    → IsEarliest user target now sessions (earliest_online user target now sessions).session
unfolding earliest_online
earliest_online-IsEarliest user target now sessions =
    best-IsEarliest user target now sessions _
      (look_up-IsBest user target now sessions (record { session = none; reasons = [] }))
