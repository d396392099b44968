-- ===== src/Policy/Command/Rounds.antt =====
-- What one round of the loop over the policies can do.
use gosshd_bastion.Base.{
  Bool, true, false, not, ◌&&◌, ◌||◌, List, ◌∷◌, some, ◌≡◌, ◌⊎◌, inl, inr, refl, arith, Bool-cases,
  Option-cases, is_empty,
}
use gosshd_bastion.Base.Bytes.{Bytes, bytes_eq_refl, trim_space}
use gosshd_bastion.Base.Result.{Result, ok, err}
use gosshd_bastion.Policy.{CommandPolicy, Decision, decision_deny, denies, mark_manual_review}
use gosshd_bastion.Policy.Source.{Netip, evaluate_source_ip}
use gosshd_bastion.Policy.Reviewer.{
  LlmPolicyConfig, LlmReviewInput, Review, review_command, review_command_failed,
}
use gosshd_bastion.Policy.Command.{
  Services, Request, Round, go_on, return, policy_applies, rule_verdict, review_prompt_for,
  conclude, after_review, ask_reviewer, judge, policy_round, policy_loop, timed, labelled,
}

-- What a reviewer is asked about the request.
abbrev pub review_input : Request → Bytes → LlmReviewInput
review_input req prompt = record {
  user_id = req.user_id;
  target_id = req.target_id;
  command = trim_space req.command;
  prompt = prompt;
}

-- The LLM of the policy answered, and did not deny.
pub record Approves (v : Services) (req : Request) (policy : CommandPolicy) : Type 0 where
  pub config : LlmPolicyConfig
  pub prompt : Bytes
  pub configured : v.llm_config policy.llm_config_id ≡ ok config
  pub prompted : review_prompt_for v policy ≡ ok prompt
  pub succeeded : (review_command v.texts v.ask config (review_input req prompt)).failed ≡ false
  pub not_denied :
      denies (review_command v.texts v.ask config (review_input req prompt)).decision ≡ false

mark_manual_review_action :
    (policy : CommandPolicy) (d : Decision) → denies (mark_manual_review policy d) ≡ denies d
unfolding mark_manual_review
mark_manual_review_action policy d = ground arith

-- A decision that a round returns is a denial.
abbrev Denied : Round → Type 0
Denied (go_on result ai) = Unit
Denied (return (ok d)) = denies d ≡ true
Denied (return (err e)) = Unit

conclude-Denied :
    (req : Request) (policy : CommandPolicy) (reviewed : Bool) (d result : Decision) (ai : Bool)
    → Denied (conclude req policy reviewed d result ai)
unfolding conclude
conclude-Denied req policy reviewed d result ai = ground (arith, mark_manual_review_action policy d)

-- What a round establishes: it goes on with the flag `ai` as it was, or with an approval by the
-- policy's LLM, or it returns a denial or an error.
abbrev pub RoundSpec : Services → Request → CommandPolicy → Bool → Round → Type 0
RoundSpec v req policy ai (go_on result ai') = (ai' ≡ ai) ⊎ Approves v req policy
RoundSpec v req policy ai (return r) = Denied (return r)

conclude-RoundSpec :
    (v : Services) (req : Request) (policy : CommandPolicy) (d result : Decision) (ai : Bool)
    → RoundSpec v req policy ai (conclude req policy false d result ai)
unfolding conclude
conclude-RoundSpec v req policy d result ai = ground (arith, mark_manual_review_action policy d)

pub denies_deny : (d : Decision) → d.action ≡ decision_deny → denies d ≡ true
denies_deny d e = rw e (bytes_eq_refl decision_deny)

module _ (v : Services) (req : Request) (policy : CommandPolicy) (config : LlmPolicyConfig) where
  after_review-Denied :
      (input : LlmReviewInput) (review : Review) (result : Decision)
      → (review.failed ≡ true → review.decision.action ≡ decision_deny)
      → Denied (after_review v req policy config input review result)
  unfolding after_review conclude
  after_review-Denied input review result shape =
      let d = timed v config input review.decision in
      ground (
        arith,
        λ (f : review.failed ≡ true). denies_deny d (shape f),
        mark_manual_review_action policy d,
        mark_manual_review_action policy (labelled d),
      )

  after_review_go_on :
      (input : LlmReviewInput) (review : Review) (result result' : Decision) (ai : Bool)
      → after_review v req policy config input review result ≡ go_on result' ai
      → (review.failed ≡ false) × (denies review.decision ≡ false)
  unfolding after_review conclude
  after_review_go_on input review result result' ai e = ground arith

RoundSpec-intro :
    (v : Services) (req : Request) (policy : CommandPolicy) (ai : Bool) (r : Round)
    → Denied r
    → ((result : Decision) (ai' : Bool) → r ≡ go_on result ai' → Approves v req policy)
    → RoundSpec v req policy ai r
RoundSpec-intro v req policy ai (go_on result ai') d f = inr (f result ai' refl)
RoundSpec-intro v req policy ai (return r) d f = d

pub Result-cases {ℓ} :
    {A : Type ℓ} (r : Result A) → ((a : A) × (r ≡ ok a)) ⊎ ((e : Bytes) × (r ≡ err e))
Result-cases (ok a) = inl (a, refl)
Result-cases (err e) = inr (e, refl)

pub ask_reviewer-RoundSpec :
    (v : Services) (req : Request) (policy : CommandPolicy) (result : Decision) (ai : Bool)
    → RoundSpec v req policy ai (ask_reviewer v req policy result)
unfolding ask_reviewer
ask_reviewer-RoundSpec v req policy result ai =
    elim (Result-cases (v.llm_config policy.llm_config_id)) [
      | inr (e, h) ↦ rw (h, ask_reviewer) tt
      | inl (config, h) ↦ elim (Result-cases (review_prompt_for v policy)) [
        | inr (e, k) ↦ rw (h, k, ask_reviewer) tt
        | inl (prompt, k) ↦
            let review = review_command v.texts v.ask config (review_input req prompt) in
            rw (h, k, ask_reviewer)
              (RoundSpec-intro v req policy ai _
                (after_review-Denied v req policy config (review_input req prompt) review result
                  (review_command_failed v.texts v.ask config (review_input req prompt)))
                (λ result' ai' e.
                  let fact =
                    after_review_go_on v req policy config (review_input req prompt) review result
                      result' ai' e in
                  record {
                    config = config;
                    prompt = prompt;
                    configured = h;
                    prompted = k;
                    succeeded = fact.0;
                    not_denied = fact.1;
                  }))
      ]
    ]

judge-RoundSpec :
    (v : Services) (req : Request) (policy : CommandPolicy) (result : Decision) (ai : Bool)
    → RoundSpec v req policy ai (judge v req policy result ai)
unfolding judge
judge-RoundSpec v req policy result ai =
    let verdict = rule_verdict policy (trim_space req.command) in
    let test =
      (not verdict.matched || (req.require_ai && not (denies verdict.decision)))
      && not (is_empty policy.llm_config_id) in
    elim (Bool-cases test) [
      | inl t ↦ rw (t, judge) (ask_reviewer-RoundSpec v req policy result ai)
      | inr t ↦ rw (t, judge) (conclude-RoundSpec v req policy verdict.decision result ai)
    ]

pub evaluate_source_ip-denies :
    (n : Netip) (policy : CommandPolicy) (source : Bytes) (d : Decision)
    → evaluate_source_ip n policy source ≡ some d
    → (denies d ≡ true) × (d.allow_manual_review ≡ false)
unfolding evaluate_source_ip
evaluate_source_ip-denies n policy source d e = ground (arith, denies_deny d)

pub policy_round-RoundSpec :
    (n : Netip) (v : Services) (req : Request) (policy : CommandPolicy) (result : Decision)
    (ai : Bool)
    → RoundSpec v req policy ai (policy_round n v req policy result ai)
unfolding policy_round
policy_round-RoundSpec n v req policy result ai =
    elim (Result-cases (policy_applies v policy req.user_id)) [
      | inr (e, h) ↦ rw (h, policy_round) tt
      | inl (false, h) ↦ rw (h, policy_round) (inl refl)
      | inl (true, h) ↦ elim (Option-cases (evaluate_source_ip n policy req.source_ip)) [
        | inl k ↦ rw (h, k, policy_round) (judge-RoundSpec v req policy result ai)
        | inr (d, k) ↦
            rw (h, k, policy_round)
              (ground (
                arith,
                evaluate_source_ip-denies n policy req.source_ip d k,
                mark_manual_review_action policy d,
              ))
      ]
    ]

module _ (n : Netip) (v : Services) (req : Request) where
  -- The rest of the loop after a round with a known outcome.
  unfoldable pub after_round : (policies : List CommandPolicy) → Round → Result Decision
  after_round policies (go_on result ai) = policy_loop n v req policies result ai
  after_round policies (return r) = r

  pub policy_loop_step :
      (policy : CommandPolicy) (policies : List CommandPolicy) (result : Decision) (ai : Bool)
      → policy_loop n v req (policy ∷ policies) result ai
        ≡ after_round policies (policy_round n v req policy result ai)
  unfolding policy_loop after_round
  policy_loop_step policy policies result ai = ground arith
