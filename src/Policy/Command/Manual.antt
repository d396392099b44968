-- ===== src/Policy/Command/Manual.antt =====
-- When a denied command may be put to a human reviewer.
use gosshd_bastion.Base.{
  Bool, true, false, not, ◌&&◌, ◌||◌, List, [], ◌∷◌, ◌≡◌, ◌⊎◌, inl, inr, refl, arith, AnyOf, any,
  Option-cases, is_empty, Bool-cases, if◌then◌else◌,
}
use gosshd_bastion.Base.Bytes.{Bytes, codes, trim_space}
use gosshd_bastion.Base.Result.{ok, err}
use gosshd_bastion.Policy.{
  CommandPolicy, Decision, decide_as, decision_allow, denies, mark_manual_review,
}
use gosshd_bastion.Policy.Source.{Netip, evaluate_source_ip}
use gosshd_bastion.Policy.Rules.{whitelist_outcome, evaluate_policy_rules}
use gosshd_bastion.Policy.Reviewer.{
  LlmPolicyConfig, LlmReviewInput, Review, review_command, review_command_unflagged,
}
use gosshd_bastion.Policy.Command.{
  Services, Request, Round, go_on, return, verdict_of, rule_verdict, policy_applies,
  review_prompt_for, conclude, after_review, ask_reviewer, judge, policy_round, policy_loop, finish,
  evaluate_command, timed, labelled,
}
use gosshd_bastion.Policy.Command.Rounds.{
  review_input, Result-cases, evaluate_source_ip-denies, after_round, policy_loop_step,
}

abbrev pub has_reviewer : CommandPolicy → Bool
has_reviewer policy = not (is_empty policy.llm_config_id)

-- The policy offers a manual review, with the timeout of the decision.
abbrev pub Offers : Decision → CommandPolicy → Type 0
Offers d policy =
    (policy.allow_manual_review ≡ true)
    × (d.manual_review_timeout_seconds ≡ policy.manual_review_timeout_seconds)

-- A round offers a manual review only with a denial, by its own policy, and over MCP only where a
-- reviewer was asked before or is configured here.
abbrev FlagSpec : Request → CommandPolicy → Bool → Round → Type 0
FlagSpec req policy ai (go_on result ai') =
    (result.allow_manual_review ≡ false) × ((ai' && not ai && not (has_reviewer policy)) ≡ false)
FlagSpec req policy ai (return (ok d)) =
    (d.allow_manual_review ≡ false)
    ⊎ ((denies d ≡ true)
        × Offers d policy
        × ((not req.require_ai || ai || has_reviewer policy) ≡ true))
FlagSpec req policy ai (return (err e)) = Unit

marked :
    (req : Request) (policy : CommandPolicy) (ai : Bool) (d : Decision)
    → d.allow_manual_review ≡ false
    → (not req.require_ai || ai || has_reviewer policy) ≡ true
    → FlagSpec req policy ai (return (ok (mark_manual_review policy d)))
unfolding mark_manual_review
marked req policy ai d h m = ground arith

conclude-FlagSpec :
    (req : Request) (policy : CommandPolicy) (reviewed : Bool) (d result : Decision) (ai ai' : Bool)
    → d.allow_manual_review ≡ false
    → result.allow_manual_review ≡ false
    → (ai' && not ai && not (has_reviewer policy)) ≡ false
    → FlagSpec req policy ai (conclude req policy reviewed d result ai')
unfolding conclude
conclude-FlagSpec req policy reviewed d result ai ai' h k m =
    ground (arith, marked req policy ai d h)

after_review-FlagSpec :
    (v : Services) (req : Request) (policy : CommandPolicy) (config : LlmPolicyConfig)
    (input : LlmReviewInput) (review : Review) (result : Decision) (ai : Bool)
    → review.decision.allow_manual_review ≡ false
    → result.allow_manual_review ≡ false
    → has_reviewer policy ≡ true
    → FlagSpec req policy ai (after_review v req policy config input review result)
unfolding after_review
after_review-FlagSpec v req policy config input review result ai h k m =
    let d = timed v config input review.decision in
    elim (Bool-cases review.failed) [
      | inl f ↦ rw (f, after_review) (marked req policy ai d h (ground arith))
      | inr f ↦
          rw (f, after_review)
            (conclude-FlagSpec req policy true (labelled d) result ai true (ground arith) k
              (ground arith))
    ]

rule_verdict_unflagged :
    (policy : CommandPolicy) (text : Bytes)
    → (rule_verdict policy text).decision.allow_manual_review ≡ false
unfolding rule_verdict verdict_of evaluate_policy_rules whitelist_outcome
rule_verdict_unflagged policy text = ground arith

ask_reviewer-FlagSpec :
    (v : Services) (req : Request) (policy : CommandPolicy) (result : Decision) (ai : Bool)
    → result.allow_manual_review ≡ false
    → has_reviewer policy ≡ true
    → FlagSpec req policy ai (ask_reviewer v req policy result)
unfolding ask_reviewer
ask_reviewer-FlagSpec v req policy result ai k m =
    elim (Result-cases (v.llm_config policy.llm_config_id)) [
      | inr (e, h) ↦ rw (h, ask_reviewer) tt
      | inl (config, h) ↦ elim (Result-cases (review_prompt_for v policy)) [
        | inr (e, p) ↦ rw (h, p, ask_reviewer) tt
        | inl (prompt, p) ↦
            let input = review_input req prompt in
            let review = review_command v.texts v.ask config input in
            rw (h, p, ask_reviewer)
              (after_review-FlagSpec v req policy config input review result ai
                (review_command_unflagged v.texts v.ask config input) k m)
      ]
    ]

judge-FlagSpec :
    (v : Services) (req : Request) (policy : CommandPolicy) (result : Decision) (ai : Bool)
    → result.allow_manual_review ≡ false
    → FlagSpec req policy ai (judge v req policy result ai)
unfolding judge
judge-FlagSpec v req policy result ai k =
    let text = trim_space req.command in
    let verdict = rule_verdict policy text in
    let test =
      (not verdict.matched || (req.require_ai && not (denies verdict.decision)))
      && has_reviewer policy in
    elim (Bool-cases test) [
      | inl t ↦ rw (t, judge) (ask_reviewer-FlagSpec v req policy result ai k (ground arith))
      | inr t ↦
          rw (t, judge)
            (conclude-FlagSpec req policy false verdict.decision result ai ai
              (rule_verdict_unflagged policy text) k (ground arith))
    ]

refused_source-FlagSpec :
    (req : Request) (policy : CommandPolicy) (ai : Bool) (d : Decision)
    → d.allow_manual_review ≡ false
    → FlagSpec req policy ai
        (return (ok (if req.require_ai then d else mark_manual_review policy d)))
refused_source-FlagSpec req policy ai d h = ground (arith, marked req policy ai d h)

policy_round-FlagSpec :
    (n : Netip) (v : Services) (req : Request) (policy : CommandPolicy) (result : Decision)
    (ai : Bool)
    → result.allow_manual_review ≡ false
    → FlagSpec req policy ai (policy_round n v req policy result ai)
unfolding policy_round
policy_round-FlagSpec n v req policy result ai k =
    elim (Result-cases (policy_applies v policy req.user_id)) [
      | inr (e, h) ↦ rw (h, policy_round) tt
      | inl (false, h) ↦ rw (h, policy_round) (k, ground arith)
      | inl (true, h) ↦ elim (Option-cases (evaluate_source_ip n policy req.source_ip)) [
        | inl b ↦ rw (h, b, policy_round) (judge-FlagSpec v req policy result ai k)
        | inr (d, b) ↦
            rw (h, b, policy_round)
              (refused_source-FlagSpec req policy ai d
                (evaluate_source_ip-denies n policy req.source_ip d b).1)
      ]
    ]

module _ (n : Netip) (v : Services) (req : Request) where
  -- What an offer of a manual review says of the policies that the loop still had to read.
  abbrev Offered : Bool → Decision → List CommandPolicy → Type 0
  Offered ai d policies =
      (denies d ≡ true)
      × AnyOf (Offers d) policies
      × ((not req.require_ai || ai || any has_reviewer policies) ≡ true)

  Offered-cons :
      (policy : CommandPolicy) (policies : List CommandPolicy) (ai ai' : Bool) (d : Decision)
      → (ai' && not ai && not (has_reviewer policy)) ≡ false
      → Offered ai' d policies
      → Offered ai d (policy ∷ policies)
  Offered-cons policy policies ai ai' d m o = (o.0, inr o.1, ground arith)

  after_round-Offered :
      (policy : CommandPolicy) (policies : List CommandPolicy) (ai : Bool) (d : Decision)
      (r : Round)
      → ((result' : Decision) (ai' : Bool)
          → result'.allow_manual_review ≡ false
          → policy_loop n v req policies result' ai' ≡ ok d
          → Offered ai' d policies)
      → FlagSpec req policy ai r
      → after_round n v req policies r ≡ ok d
      → d.allow_manual_review ≡ true
      → Offered ai d (policy ∷ policies)
  unfolding after_round
  after_round-Offered policy policies ai d (go_on result ai') later (k, m) e a =
      Offered-cons policy policies ai ai' d m (later result ai' k e)
  after_round-Offered policy policies ai d (return (ok d')) later (inl h) e a =
      absurd (ground arith)
  after_round-Offered policy policies ai d (return (ok d')) later (inr (x, y, z)) e a =
      let same : d' ≡ d = cc in (rw (← same) x, inl (rw (← same) y), ground arith)
  after_round-Offered policy policies ai d (return (err x)) later spec e a = absurd (cc)

  finish_unflagged :
      (result : Decision) (ai : Bool) (d : Decision)
      → finish n v req result ai ≡ ok d
      → result.allow_manual_review ≡ false
      → d.allow_manual_review ≡ false
  unfolding finish
  finish_unflagged result ai d e k = ground arith

  policy_loop-Offered :
      (policies : List CommandPolicy) (result : Decision) (ai : Bool) (d : Decision)
      → result.allow_manual_review ≡ false
      → policy_loop n v req policies result ai ≡ ok d
      → d.allow_manual_review ≡ true
      → Offered ai d policies
  policy_loop-Offered [] result ai d k e a =
      absurd (ground (arith, finish_unflagged result ai d (unfold policy_loop in e) k))
  policy_loop-Offered (policy ∷ policies) result ai d k e a =
      after_round-Offered policy policies ai d (policy_round n v req policy result ai)
        (λ result' ai' k' e'. policy_loop-Offered policies result' ai' d k' e' a)
        (policy_round-FlagSpec n v req policy result ai k)
        (rw (policy_loop_step n v req policy policies result ai) at e) a

-- A manual review is offered only with a denial and with the timeout of some policy of the target
-- that allows it; and for a command over MCP only where some policy has an LLM reviewer.
pub manual_review_offered :
    (n : Netip) (v : Services) (req : Request) (policies : List CommandPolicy) (d : Decision)
    → v.policies_for_target req.target_id ≡ ok policies
    → evaluate_command n v req ≡ ok d
    → d.allow_manual_review ≡ true
    → (denies d ≡ true)
      × AnyOf (Offers d) policies
      × ((not req.require_ai || any has_reviewer policies) ≡ true)
unfolding evaluate_command
manual_review_offered n v req policies d listed e a =
    let first = decide_as decision_allow (codes "no policy") in
    let offered = policy_loop-Offered n v req policies first false d refl (rw listed at e) a in
    (offered.0, offered.1, ground arith)
