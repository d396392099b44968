-- ===== src/Policy/Command/Mcp.antt =====
-- Commands that arrive over MCP: without an approval by an LLM they are denied.
use gosshd_bastion.Base.{Bool, true, false, List, [], ◌∷◌, ◌≡◌, ◌⊎◌, inl, inr, refl, arith, AnyOf}
use gosshd_bastion.Base.Bytes.{codes, bytes_eq_refl}
use gosshd_bastion.Base.Result.{ok, err}
use gosshd_bastion.Policy.{
  CommandPolicy, Decision, decide_as, decision_allow, decision_deny, denies,
}
use gosshd_bastion.Policy.Source.{Netip}
use gosshd_bastion.Policy.Command.{
  Services, Request, Round, go_on, return, policy_round, policy_loop, finish, evaluate_command,
}
use gosshd_bastion.Policy.Command.Rounds.{
  Approves, RoundSpec, policy_round-RoundSpec, after_round, policy_loop_step,
}

module _ (n : Netip) (v : Services) (req : Request) where
  finish_reviewed :
      (result : Decision) (ai : Bool) (d : Decision)
      → finish n v req result ai ≡ ok d
      → req.require_ai ≡ true
      → denies d ≡ false
      → ai ≡ true
  unfolding finish
  finish_reviewed result true d e m a = refl
  finish_reviewed result false d e m a = ground (arith, bytes_eq_refl decision_deny)

  -- `later` is the claim for the policies behind.
  after_round_reviewed :
      (policy : CommandPolicy) (policies : List CommandPolicy) (ai : Bool) (d : Decision)
      (r : Round)
      → ((result' : Decision) (ai' : Bool)
          → policy_loop n v req policies result' ai' ≡ ok d
          → (ai' ≡ true) ⊎ AnyOf (Approves v req) policies)
      → RoundSpec v req policy ai r
      → after_round n v req policies r ≡ ok d
      → denies d ≡ false
      → (ai ≡ true) ⊎ AnyOf (Approves v req) (policy ∷ policies)
  unfolding after_round
  after_round_reviewed policy policies ai d (go_on result ai') later (inr yes_) e a = inr (inl yes_)
  after_round_reviewed policy policies ai d (go_on result ai') later (inl same) e a =
      elim (later result ai' e) [ inl t ↦ inl (rw (← same) t) | inr t ↦ inr (inr t) ]
  after_round_reviewed policy policies ai d (return (ok d')) later spec e a = ground arith
  after_round_reviewed policy policies ai d (return (err x)) later spec e a = cc

  policy_loop_reviewed :
      (policies : List CommandPolicy) (result : Decision) (ai : Bool) (d : Decision)
      → policy_loop n v req policies result ai ≡ ok d
      → req.require_ai ≡ true
      → denies d ≡ false
      → (ai ≡ true) ⊎ AnyOf (Approves v req) policies
  policy_loop_reviewed [] result ai d e m a =
      inl (finish_reviewed result ai d (unfold policy_loop in e) m a)
  policy_loop_reviewed (policy ∷ policies) result ai d e m a =
      after_round_reviewed policy policies ai d (policy_round n v req policy result ai)
        (λ result' ai' e'. policy_loop_reviewed policies result' ai' d e' m a)
        (policy_round-RoundSpec n v req policy result ai)
        (rw (policy_loop_step n v req policy policies result ai) at e) a

-- A command over MCP is allowed only if some policy of the target has an LLM reviewer that was
-- asked about this command, answered, and did not deny it.
pub mcp_needs_approval :
    (n : Netip) (v : Services) (req : Request) (policies : List CommandPolicy) (d : Decision)
    → v.policies_for_target req.target_id ≡ ok policies
    → evaluate_command n v req ≡ ok d
    → req.require_ai ≡ true
    → denies d ≡ false
    → AnyOf (Approves v req) policies
unfolding evaluate_command
mcp_needs_approval n v req policies d listed e m a =
    elim (policy_loop_reviewed n v req policies (decide_as decision_allow (codes "no policy")) false
      d (rw listed at e) m a) [ inl never ↦ cc | inr some_policy ↦ some_policy ]
