-- ===== src/Policy/Command.antt =====
-- internal/bastion/service.go: `evaluateCommandForSource`, the decision on a command. The control
-- database is a record of the reads that the function makes, the LLM service a function.
pub mod Rounds
pub mod Mcp
pub mod Cleared
pub mod Manual
use gosshd_bastion.Base.{
  ℕ, Bool, true, false, not, ◌&&◌, ◌||◌, List, [], ◌∷◌, ◌++◌, Option, none, some, if◌then◌else◌,
  is_empty,
}
use gosshd_bastion.Base.Bytes.{Bytes, codes, bytes_eq, has_prefix, to_lower, trim_space}
use gosshd_bastion.Base.Result.{Result, ok, err, ◌>>=◌}
use gosshd_bastion.Shell.{command_has_channel}
use gosshd_bastion.Policy.{
  CommandPolicy, Decision, decide_as, decision_allow, decision_deny, denies, mark_manual_review,
}
use gosshd_bastion.Policy.Source.{Netip, evaluate_source_ip}
use gosshd_bastion.Policy.Rules.{RuleOutcome, evaluate_policy_rules}
use gosshd_bastion.Policy.Reviewer.{
  LlmPolicyConfig, LlmReviewInput, Question, Reply, Texts, Review, review_command,
  append_llm_duration,
}

-- The reads of `store.Repository`, and the LLM service with the nanoseconds that a review takes.
pub record Services : Type 0 where
  pub policies_for_target : Bytes → Result (List CommandPolicy)
  pub user_in_group : Bytes → Bytes → Result Bool
  pub llm_config : Bytes → Result LlmPolicyConfig
  pub llm_prompt : Bytes → Result Bytes
  pub llm_prompts : Bytes → Bytes → Result (List Bytes)
  pub texts : Texts
  pub ask : Question → Reply
  pub elapsed : LlmPolicyConfig → LlmReviewInput → ℕ

-- The loop of `policyAppliesToUser` over the groups of a policy that has some.
unfoldable pub in_some_group : (Bytes → Bytes → Result Bool) → List Bytes → Bytes → Result Bool
in_some_group member [] user = ok false
in_some_group member (group ∷ groups) user =
    let rest = in_some_group member groups user in
    elim (member group user) [ err e ↦ err e | ok true ↦ ok true | ok false ↦ rest ]

unfoldable pub policy_applies : Services → CommandPolicy → Bytes → Result Bool
policy_applies v policy user =
    if is_empty policy.user_group_ids
    then ok true
    else in_some_group v.user_in_group policy.user_group_ids user

-- One call of the public evaluations: whom it is about, and whether an LLM approval is required.
pub record Request : Type 0 where
  pub user_id : Bytes
  pub target_id : Bytes
  pub command : Bytes
  pub source_ip : Bytes
  pub require_ai : Bool

-- What a round of the loop does: it goes on with new values of `result` and `aiReviewed`, or it
-- returns.
pub data Round : Type 0 where
  go_on : Decision → Bool → Round
  return : Result Decision → Round

-- The decision of the rules, and whether they matched, before any review.
pub record Verdict : Type 0 where
  pub decision : Decision
  pub matched : Bool

first_missing : List Bytes → Bytes
first_missing [] = []
first_missing (segment ∷ _) = segment

-- The three tests behind `evaluatePolicyRules`; `channel` is `requiresLLM`.
unfoldable pub verdict_of : CommandPolicy → Bool → RuleOutcome → Verdict
unfolding first_missing
verdict_of policy channel o =
    let silent = is_empty policy.llm_config_id in
    if o.matched
    then record { decision = o.decision; matched = true }
    else if channel && silent
    then record {
      decision = decide_as decision_deny (codes "channel requires LLM review: " ++ policy.name);
      matched = true;
    }
    else if not (is_empty o.missing) && bytes_eq policy.default_action decision_deny && silent
    then record {
      decision = decide_as decision_deny (codes "whitelist missing: " ++ first_missing o.missing);
      matched = true;
    }
    else record {
      decision = decide_as policy.default_action (codes "default " ++ policy.default_action);
      matched = false;
    }

unfoldable pub rule_verdict : CommandPolicy → Bytes → Verdict
rule_verdict policy command =
    let channel = command_has_channel command in
    verdict_of policy channel (evaluate_policy_rules policy.rules command channel)

-- The prompt of a review; an error of the list, and an empty list, leave the default one.
unfoldable pub review_prompt_for : Services → CommandPolicy → Result Bytes
review_prompt_for v policy =
    if not (is_empty policy.llm_prompt_id)
    then v.llm_prompt policy.llm_prompt_id
    else elim (v.llm_prompts policy.owner_type policy.owner_id) [
      | ok (prompt ∷ _) ↦ ok prompt
      | ok [] ↦ ok v.texts.default_prompt
      | err _ ↦ ok v.texts.default_prompt
    ]

-- The end of a round: `reviewed` says that this policy's reviewer was asked, `ai` that some
-- policy's was, this one's included.
unfoldable pub conclude : Request → CommandPolicy → Bool → Decision → Decision → Bool → Round
conclude req policy reviewed d result ai =
    if denies d
    then return (ok (if req.require_ai && not ai then d else mark_manual_review policy d))
    else if not req.require_ai || not ai || reviewed
    then go_on d ai
    else go_on result ai

-- The two changes to the reason of a review's decision.
abbrev pub timed : Services → LlmPolicyConfig → LlmReviewInput → Decision → Decision
timed v config input d = record d { reason = append_llm_duration d.reason (v.elapsed config input) }

abbrev pub labelled : Decision → Decision
labelled d =
    if has_prefix (codes "llm") (to_lower d.reason)
    then d
    else record d { reason = codes "llm: " ++ d.reason }

unfoldable pub after_review :
    Services
    → Request
    → CommandPolicy
    → LlmPolicyConfig
    → LlmReviewInput
    → Review
    → Decision
    → Round
after_review v req policy config input review result =
    let d = timed v config input review.decision in
    if review.failed
    then return (ok (mark_manual_review policy d))
    else conclude req policy true (labelled d) result true

unfoldable pub ask_reviewer : Services → Request → CommandPolicy → Decision → Round
unfolding after_review
ask_reviewer v req policy result = elim (v.llm_config policy.llm_config_id) [
  | err e ↦ return (err e)
  | ok config ↦ elim (review_prompt_for v policy) [
    | err e ↦ return (err e)
    | ok prompt ↦
        let input : LlmReviewInput = record {
          user_id = req.user_id;
          target_id = req.target_id;
          command = trim_space req.command;
          prompt = prompt;
        } in
        after_review v req policy config input (review_command v.texts v.ask config input) result
  ]
]

-- A policy that applies and lets the source in.
unfoldable pub judge : Services → Request → CommandPolicy → Decision → Bool → Round
judge v req policy result ai =
    let verdict = rule_verdict policy (trim_space req.command) in
    let review = not verdict.matched || (req.require_ai && not (denies verdict.decision)) in
    if review && not (is_empty policy.llm_config_id)
    then ask_reviewer v req policy result
    else conclude req policy false verdict.decision result ai

module _ (n : Netip) (v : Services) (req : Request) where
  unfoldable pub policy_round : CommandPolicy → Decision → Bool → Round
  unfolding judge
  policy_round policy result ai = elim (policy_applies v policy req.user_id) [
    | err e ↦ return (err e)
    | ok false ↦ go_on result ai
    | ok true ↦ elim (evaluate_source_ip n policy req.source_ip) [
      | some d ↦ return (ok (if req.require_ai then d else mark_manual_review policy d))
      | none ↦ judge v req policy result ai
    ]
  ]

  -- Behind the loop.
  unfoldable pub finish : Decision → Bool → Result Decision
  finish result ai =
      if req.require_ai && not ai
      then ok (
          decide_as decision_deny
            (codes "MCP commands require AI review: no applicable LLM reviewer configured"))
      else ok result

  unfoldable pub policy_loop : List CommandPolicy → Decision → Bool → Result Decision
  policy_loop [] result ai = finish result ai
  policy_loop (policy ∷ policies) result ai = elim (policy_round policy result ai) [
    | go_on result' ai' ↦ policy_loop policies result' ai'
    | return r ↦ r
  ]

  unfoldable pub evaluate_command : Result Decision
  unfolding policy_loop policy_round finish
  evaluate_command = do
    policies ← v.policies_for_target req.target_id
    policy_loop policies (decide_as decision_allow (codes "no policy")) false
