-- ===== src/Policy/Access/Exact.antt =====
-- The sessions and transfers that the policies of a target grant, by quantifiers over the policies.
use gosshd_bastion.Base.{
  Bool, true, false, not, ◌&&◌, ◌||◌, List, [], ◌∷◌, Option, none, some, ◌≡◌, inl, inr, arith,
  every, any, is_empty, refl, sym, subst, Bool-cases, Option-cases, if◌then◌else◌,
}
use gosshd_bastion.Base.Bytes.{Bytes, codes, bytes_eq, bytes_eq_refl, bytes_eq_iff}
use gosshd_bastion.Base.Result.{Result, ok, err}
use gosshd_bastion.Policy.{
  CommandPolicy, Decision, decide_as, decision_allow, decision_deny, denies, allow-ne-deny,
}
use gosshd_bastion.Policy.Source.{Netip, evaluate_source_ip}
use gosshd_bastion.Policy.Command.{Services, policy_applies}
use gosshd_bastion.Policy.Command.Rounds.{Result-cases, evaluate_source_ip-denies}
use gosshd_bastion.Policy.Access.{
  request_shell, request_web_terminal, request_system, request_sftp, request_forward,
  capability_refusal, access_check, access_loop, evaluate_access, Transfer, note_transfer, Grant,
  transfer_finish, transfer_loop, evaluate_sftp_access,
}

abbrev is_none {ℓ} : {A : Type ℓ} → Option A → Bool
is_none none = true
is_none (some _) = false

abbrev needs : Bool → Bool → Bool
needs asked flag = not asked || flag

-- What a policy must allow for each kind of session; another kind needs nothing.
abbrev pub is_capable : Bytes → CommandPolicy → Bool
is_capable kind p =
    needs (bytes_eq kind (codes "forward")) p.allow_port_forward
    && needs (bytes_eq kind (codes "sftp")) (p.allow_upload || p.allow_download)
    && needs (bytes_eq kind (codes "system")) (p.allow_web_terminal || p.allow_ssh_interactive)
    && needs (bytes_eq kind (codes "web_terminal")) p.allow_web_terminal
    && needs (bytes_eq kind (codes "shell")) p.allow_ssh_interactive

-- The policy lets the source in and has the capability for this kind of session.
abbrev pub permits : Netip → Bytes → Bytes → CommandPolicy → Bool
permits n kind source policy =
    is_none (evaluate_source_ip n policy source) && is_capable kind policy

-- A kind is one of the five, and no other one then, or none of them.
kind_cases :
    (P : Bytes → Type 0) (kind : Bytes)
    → P request_shell
    → P request_web_terminal
    → P request_system
    → P request_sftp
    → P request_forward
    → ((bytes_eq kind request_shell ≡ false)
        → (bytes_eq kind request_web_terminal ≡ false)
        → (bytes_eq kind request_system ≡ false)
        → (bytes_eq kind request_sftp ≡ false)
        → (bytes_eq kind request_forward ≡ false)
        → P kind)
    → P kind
kind_cases P kind a b c d e other = elim (Bool-cases (bytes_eq kind request_shell)) [
  | inl h ↦ subst P (sym ((bytes_eq_iff kind request_shell).0 h)) a
  | inr no_a ↦ elim (Bool-cases (bytes_eq kind request_web_terminal)) [
    | inl h ↦ subst P (sym ((bytes_eq_iff kind request_web_terminal).0 h)) b
    | inr no_b ↦ elim (Bool-cases (bytes_eq kind request_system)) [
      | inl h ↦ subst P (sym ((bytes_eq_iff kind request_system).0 h)) c
      | inr no_c ↦ elim (Bool-cases (bytes_eq kind request_sftp)) [
        | inl h ↦ subst P (sym ((bytes_eq_iff kind request_sftp).0 h)) d
        | inr no_d ↦ elim (Bool-cases (bytes_eq kind request_forward)) [
          | inl h ↦ subst P (sym ((bytes_eq_iff kind request_forward).0 h)) e
          | inr no_e ↦ other no_a no_b no_c no_d no_e
        ]
      ]
    ]
  ]
]

capability_refusal-is_capable :
    (kind : Bytes) (p : CommandPolicy) → is_none (capability_refusal kind p) ≡ is_capable kind p
unfolding capability_refusal bytes_eq
capability_refusal-is_capable kind p =
    kind_cases (λ k. is_none (capability_refusal k p) ≡ is_capable k p) kind (ground arith)
      (ground arith) (ground arith) (ground arith) (ground arith)
      (λ a b c d e. rw (a, b, c, d, e) refl)

access_check_lem :
    (n : Netip) (kind source : Bytes) (policy : CommandPolicy)
    → ((access_check n kind source policy).0 ≡ permits n kind source policy)
      × (denies (access_check n kind source policy).1 ≡ not (permits n kind source policy))
unfolding access_check
access_check_lem n kind source policy = elim (Option-cases (evaluate_source_ip n policy source)) [
  | inr (d, k) ↦ ground (arith, evaluate_source_ip-denies n policy source d k)
  | inl k ↦
      ground (
        arith,
        bytes_eq_refl decision_deny,
        allow-ne-deny,
        capability_refusal-is_capable kind policy,
      )
]

abbrev is_yes : Result Bool → Bool
is_yes (ok b) = b
is_yes (err _) = false

-- The policies of the list that apply to the user.
abbrev pub applying : Services → Bytes → List CommandPolicy → List CommandPolicy
applying v user [] = []
applying v user (policy ∷ policies) =
    if is_yes (policy_applies v policy user)
    then policy ∷ applying v user policies
    else applying v user policies

module _ (n : Netip) (v : Services) (user target source : Bytes) where
  access_loop_exact :
      (kind : Bytes) (policies : List CommandPolicy) (result d : Decision)
      → denies result ≡ false
      → access_loop n v user target source kind policies result ≡ ok d
      → denies d ≡ not (every (permits n kind source) (applying v user policies))
  unfolding access_loop
  access_loop_exact kind [] result d h e = ground arith
  access_loop_exact kind (policy ∷ policies) result d h e =
      let (passed, verdict) = access_check_lem n kind source policy in
      elim (Result-cases (policy_applies v policy user)) [
        | inr (x, k) ↦ ground arith
        | inl (false, k) ↦ ground (arith, access_loop_exact kind policies result d h)
        | inl (true, k) ↦
            ground (arith, access_loop_exact kind policies (access_check n kind source policy).1 d)
      ]

  -- Where the policies can be read, a session of a kind is denied exactly when some policy that
  -- applies to the user does not let the source in or lacks the capability: interactive SSH for a
  -- shell, the web terminal for a web terminal, one of these two for system information, uploads or
  -- downloads for file transfer, port forwarding for a forward, and none for another kind.
  pub evaluate_access_exact :
      (kind : Bytes) (policies : List CommandPolicy) (d : Decision)
      → v.policies_for_target target ≡ ok policies
      → evaluate_access n v user target source kind ≡ ok d
      → denies d ≡ not (every (permits n kind source) (applying v user policies))
  unfolding evaluate_access
  evaluate_access_exact kind policies d listed e =
      access_loop_exact kind policies (decide_as decision_allow (codes "no policy")) d allow-ne-deny
        (rw listed at e)

  abbrev source_passes : CommandPolicy → Bool
  source_passes policy = is_none (evaluate_source_ip n policy source)

  -- One direction of a transfer: no policy applies, or each that does lets the source in and one of
  -- them has the capability.
  abbrev pub direction : (CommandPolicy → Bool) → List CommandPolicy → Bool
  direction capable ps = is_empty ps || (every source_passes ps && any capable ps)

  -- The same with the flags of the policies before.
  abbrev onward : Bool → Bool → (CommandPolicy → Bool) → List CommandPolicy → Bool
  onward applied before capable ps =
      (not applied && is_empty ps) || (every source_passes ps && (before || any capable ps))

  transfer_finish_lem :
      (t : Transfer)
      → denies t.result ≡ false
      → ((transfer_finish t).1 ≡ (not t.applied || t.allow_upload))
        × ((transfer_finish t).2 ≡ (not t.applied || t.allow_download))
        × (denies (transfer_finish t).0 ≡ not ((transfer_finish t).1 || (transfer_finish t).2))
  unfolding transfer_finish
  transfer_finish_lem t h = ground (arith, bytes_eq_refl decision_deny)

  transfer_loop_exact :
      (policies : List CommandPolicy) (t : Transfer) (g : Grant)
      → denies t.result ≡ false
      → transfer_loop n v user target source policies t ≡ ok g
      → (let ps = applying v user policies in
          (g.1 ≡ onward t.applied t.allow_upload (λ p. p.allow_upload) ps)
          × (g.2 ≡ onward t.applied t.allow_download (λ p. p.allow_download) ps)
          × (denies g.0 ≡ not (g.1 || g.2)))
  unfolding transfer_loop
  transfer_loop_exact [] t g h e = ground (arith, transfer_finish_lem t h)
  transfer_loop_exact (policy ∷ policies) t g h e =
      elim (Result-cases (policy_applies v policy user)) [
        | inr (x, k) ↦ absurd (ground arith)
        | inl (false, k) ↦ ground (arith, transfer_loop_exact policies t g h)
        | inl (true, k) ↦ elim (Option-cases (evaluate_source_ip n policy source)) [
          | inr (d, b) ↦ ground (arith, evaluate_source_ip-denies n policy source d b)
          | inl b ↦
              ground (arith, transfer_loop_exact policies (note_transfer policy t) g allow-ne-deny)
        ]
      ]

  -- Where the policies can be read, uploads are allowed exactly when no policy applies to the user,
  -- or each one that does lets the source in and some of them allows uploads; downloads likewise;
  -- and the decision is a denial exactly when neither is allowed.
  pub evaluate_sftp_access_exact :
      (policies : List CommandPolicy) (g : Grant)
      → v.policies_for_target target ≡ ok policies
      → evaluate_sftp_access n v user target source ≡ ok g
      → (g.1 ≡ direction (λ p. p.allow_upload) (applying v user policies))
        × (g.2 ≡ direction (λ p. p.allow_download) (applying v user policies))
        × (denies g.0 ≡ not (g.1 || g.2))
  unfolding evaluate_sftp_access
  evaluate_sftp_access_exact policies g listed e =
      transfer_loop_exact policies
        (record {
          applied = false;
          allow_upload = false;
          allow_download = false;
          result = decide_as decision_allow (codes "no policy");
        })
        g allow-ne-deny (rw listed at e)
