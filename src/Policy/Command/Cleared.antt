-- ===== src/Policy/Command/Cleared.antt =====
-- What an allowed command has passed, over SSH and over MCP alike.
use gosshd_bastion.Base.{
  Bool, true, false, not, ◌&&◌, List, [], ◌∷◌, none, some, ◌≡◌, ◌⊎◌, inl, inr, refl, arith, All,
  subst, is_empty, Option-cases, Bool-cases,
}
use gosshd_bastion.Base.Bytes.{Bytes, codes, trim_space, bytes_eq_refl}
use gosshd_bastion.Base.Result.{ok, err}
use gosshd_bastion.Shell.{command_has_channel, command_segments}
use gosshd_bastion.Policy.{
  CommandPolicy, Decision, decide_as, decision_allow, decision_deny, denies,
}
use gosshd_bastion.Policy.Source.{Netip, evaluate_source_ip}
use gosshd_bastion.Policy.Rules.{RuleOutcome, evaluate_policy_rules}
use gosshd_bastion.Policy.Rules.Exact.{blacklisted, ruling_of, evaluate_policy_rules_exact}
use gosshd_bastion.Policy.Command.{
  Services, Request, Round, go_on, return, verdict_of, rule_verdict, policy_applies, conclude,
  ask_reviewer, judge, policy_round, policy_loop, evaluate_command,
}
use gosshd_bastion.Policy.Command.Rounds.{
  Approves, RoundSpec, ask_reviewer-RoundSpec, policy_round-RoundSpec, Result-cases, denies_deny,
  after_round, policy_loop_step,
}

-- The blacklist has its say: the command has no channel, and a blacklist rule matches it.
abbrev pub is_blacklisted : CommandPolicy → Bytes → Bool
is_blacklisted policy text =
    not (command_has_channel text) && blacklisted policy.rules text (command_segments text)

verdict_of_denied :
    (policy : CommandPolicy) (channel : Bool) (o : RuleOutcome)
    → ruling_of o ≡ some decision_deny
    → ((verdict_of policy channel o).matched ≡ true)
      × (denies (verdict_of policy channel o).decision ≡ true)
unfolding verdict_of
verdict_of_denied policy channel o h = ground (arith, denies_deny o.decision)

rule_verdict_blacklisted :
    (policy : CommandPolicy) (text : Bytes)
    → is_blacklisted policy text ≡ true
    → ((rule_verdict policy text).matched ≡ true)
      × (denies (rule_verdict policy text).decision ≡ true)
unfolding rule_verdict
rule_verdict_blacklisted policy text h =
    let channel = command_has_channel text in
    verdict_of_denied policy channel (evaluate_policy_rules policy.rules text channel)
      (ground (arith, evaluate_policy_rules_exact policy.rules text channel))

-- With a channel the rules do not match: a policy without a reviewer denies, another one asks it.
rule_verdict_channel :
    (policy : CommandPolicy) (text : Bytes)
    → command_has_channel text ≡ true
    → ((rule_verdict policy text).matched ≡ is_empty policy.llm_config_id)
      × ((is_empty policy.llm_config_id && not (denies (rule_verdict policy text).decision))
          ≡ false)
unfolding rule_verdict verdict_of evaluate_policy_rules
rule_verdict_channel policy text h = ground (arith, bytes_eq_refl decision_deny)

-- A reviewer that lets the loop go on has approved.
ask_reviewer_go_on :
    (v : Services) (req : Request) (policy : CommandPolicy) (result result' : Decision) (ai : Bool)
    → ask_reviewer v req policy result ≡ go_on result' ai
    → Approves v req policy
ask_reviewer_go_on v req policy result result' ai e =
    elim (subst (RoundSpec v req policy (not ai)) e
      (ask_reviewer-RoundSpec v req policy result (not ai))) [
        | inl other ↦ absurd (ground arith)
        | inr approved ↦ approved
      ]

-- The command has no channel and no blacklist rule of the policy matches it or one of its segments, or
-- it has one and the policy's reviewer approved it.
abbrev pub Vetted : Services → Request → CommandPolicy → Type 0
Vetted v req policy =
    let text = trim_space req.command in
    ((command_has_channel text ≡ false)
      × (blacklisted policy.rules text (command_segments text) ≡ false))
    ⊎ ((command_has_channel text ≡ true) × Approves v req policy)

judge_go_on :
    (v : Services) (req : Request) (policy : CommandPolicy) (result result' : Decision)
    (ai ai' : Bool)
    → judge v req policy result ai ≡ go_on result' ai'
    → Vetted v req policy
unfolding judge conclude
judge_go_on v req policy result result' ai ai' e =
    let text = trim_space req.command in
    elim (Bool-cases (command_has_channel text)) [
      | inl channel ↦
          let (matched, denied) = rule_verdict_channel policy text channel in
          inr (channel, ask_reviewer_go_on v req policy result result' ai' (ground arith))
      | inr plain_text ↦ elim (Bool-cases (is_blacklisted policy text)) [
        | inr clear ↦ inl (plain_text, ground arith)
        | inl black ↦ ground (arith, rule_verdict_blacklisted policy text black)
      ]
    ]

-- The policy does not apply to the user, or it lets the source in and the command is vetted by it.
abbrev pub Clears : Netip → Services → Request → CommandPolicy → Type 0
Clears n v req policy =
    (policy_applies v policy req.user_id ≡ ok false)
    ⊎ ((evaluate_source_ip n policy req.source_ip ≡ none) × Vetted v req policy)

policy_round_go_on :
    (n : Netip) (v : Services) (req : Request) (policy : CommandPolicy) (result result' : Decision)
    (ai ai' : Bool)
    → policy_round n v req policy result ai ≡ go_on result' ai'
    → Clears n v req policy
unfolding policy_round
policy_round_go_on n v req policy result result' ai ai' e =
    elim (Result-cases (policy_applies v policy req.user_id)) [
      | inr (x, h) ↦ ground arith
      | inl (false, h) ↦ inl h
      | inl (true, h) ↦ elim (Option-cases (evaluate_source_ip n policy req.source_ip)) [
        | inr (d, k) ↦ ground arith
        | inl k ↦ inr (k, judge_go_on v req policy result result' ai ai' (ground arith))
      ]
    ]

module _ (n : Netip) (v : Services) (req : Request) where
  after_round-Clears :
      (policy : CommandPolicy) (policies : List CommandPolicy) (d : Decision) (r : Round)
      → ((result' : Decision) (ai' : Bool)
          → policy_loop n v req policies result' ai' ≡ ok d
          → All (Clears n v req) policies)
      → ((result' : Decision) (ai' : Bool) → r ≡ go_on result' ai' → Clears n v req policy)
      → (ai : Bool) → RoundSpec v req policy ai r
      → after_round n v req policies r ≡ ok d
      → denies d ≡ false
      → All (Clears n v req) (policy ∷ policies)
  unfolding after_round
  after_round-Clears policy policies d (go_on result ai') later here ai spec e a =
      (here result ai' refl, later result ai' e)
  after_round-Clears policy policies d (return (ok d')) later here ai spec e a =
      absurd (ground arith)
  after_round-Clears policy policies d (return (err x)) later here ai spec e a = absurd (cc)

  policy_loop-Clears :
      (policies : List CommandPolicy) (result : Decision) (ai : Bool) (d : Decision)
      → policy_loop n v req policies result ai ≡ ok d
      → denies d ≡ false
      → All (Clears n v req) policies
  policy_loop-Clears [] result ai d e a = tt
  policy_loop-Clears (policy ∷ policies) result ai d e a =
      after_round-Clears policy policies d (policy_round n v req policy result ai)
        (λ result' ai' e'. policy_loop-Clears policies result' ai' d e' a)
        (λ result' ai'. policy_round_go_on n v req policy result result' ai ai') ai
        (policy_round-RoundSpec n v req policy result ai)
        (rw (policy_loop_step n v req policy policies result ai) at e) a

-- A command that is not denied has passed every policy of the target that applies to the user: its
-- source address is let in; if the command has no channel (a pipe outside quotes), no blacklist rule
-- matches it or one of its segments; if it has one, the policy's LLM reviewer was asked about it,
-- answered, and did not deny it.
pub allowed-Clears :
    (n : Netip) (v : Services) (req : Request) (policies : List CommandPolicy) (d : Decision)
    → v.policies_for_target req.target_id ≡ ok policies
    → evaluate_command n v req ≡ ok d
    → denies d ≡ false
    → All (Clears n v req) policies
unfolding evaluate_command
allowed-Clears n v req policies d listed e a =
    policy_loop-Clears n v req policies (decide_as decision_allow (codes "no policy")) false d
      (rw listed at e) a
