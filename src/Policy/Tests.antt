-- ===== src/Policy/Tests.antt =====
-- Runs of the policy evaluations on one policy with an LLM reviewer, and the theorems at these runs.
use gosshd_bastion.Base.{
  Bool, true, false, [], ◌∷◌, some, All, AnyOf, not, any, every, ◌||◌, ◌≡◌, refl,
}
use gosshd_bastion.Base.Bytes.{Bytes, codes, bytes_eq, has_prefix, trim_space, to_lower, itoa}
use gosshd_bastion.Base.Result.{ok}
use gosshd_bastion.Shell.{
  command_segments, command_has_channel, parts_loop, parts_step, flushed, command_parts,
  is_redirection_ampersand,
}
use gosshd_bastion.Policy.{
  PolicyRule, CommandPolicy, Decision, decide_as, decision_allow, decision_deny, denies,
  rule_blacklist, pattern_prefix, mark_manual_review, rule_matches,
}
use gosshd_bastion.Policy.Source.{
  Netip, split_allowlist, item_allows, source_ip_allowed, evaluate_source_ip,
}
use gosshd_bastion.Policy.Rules.{
  evaluate_policy_rules, blacklist_hit, whitelist_loop, whitelist_outcome, match_segment,
}
use gosshd_bastion.Policy.Rules.Exact.{evaluate_policy_rules_exact, ruling_of, expected_ruling}
use gosshd_bastion.Policy.Reviewer.{
  answered, review_command, read_reply, review_answer, append_llm_duration,
}
use gosshd_bastion.Policy.Command.{
  Services, Request, policy_applies, in_some_group, rule_verdict, verdict_of, review_prompt_for,
  conclude, after_review, ask_reviewer, judge, policy_round, finish, policy_loop, evaluate_command,
}
use gosshd_bastion.Policy.Command.Rounds.{Approves}
use gosshd_bastion.Policy.Command.Mcp.{mcp_needs_approval}
use gosshd_bastion.Policy.Command.Cleared.{Clears, allowed-Clears}
use gosshd_bastion.Policy.Command.Manual.{Offers, has_reviewer, manual_review_offered}
use gosshd_bastion.Policy.Access.{
  Grant, evaluate_access, access_loop, access_check, capability_refusal, evaluate_sftp_access,
  transfer_loop, transfer_finish, request_shell,
}
use gosshd_bastion.Policy.Access.Exact.{
  permits, applying, direction, evaluate_access_exact, evaluate_sftp_access_exact,
}

-- Addresses are their texts, and a prefix is one of addresses.
abbrev texts_as_addresses : Netip
texts_as_addresses = record {
  Addr = Bytes;
  Prefix = Bytes;
  parse_addr = λ text. some text;
  parse_prefix = λ text. some text;
  prefix_contains = has_prefix;
  at_most = λ a b. true;
  same = bytes_eq;
  is_private = has_prefix (codes "10.");
  is_loopback = has_prefix (codes "127.");
}

abbrev no_removal : PolicyRule
no_removal = record { rule_type = rule_blacklist; pattern_type = pattern_prefix; text = codes "rm" }

abbrev reviewed_policy : CommandPolicy
reviewed_policy = record {
  owner_type = codes "user";
  owner_id = codes "u";
  name = codes "p";
  default_action = decision_allow;
  llm_config_id = codes "c";
  llm_prompt_id = [];
  ip_allowlist = codes "private";
  allow_port_forward = false;
  allow_upload = true;
  allow_download = false;
  allow_ssh_interactive = true;
  allow_web_terminal = false;
  allow_manual_review = true;
  manual_review_timeout_seconds = 60;
  rules = no_removal ∷ [];
  user_group_ids = codes "g" ∷ [];
}

-- A reviewer that answers every question with one verdict.
abbrev services : Bool → Services
services allow = record {
  policies_for_target = λ _. ok (reviewed_policy ∷ []);
  user_in_group = λ group user. ok true;
  llm_config = λ _. ok (record {
    base_url = codes "http://llm";
    encrypted_api_key = [];
    model = codes "m";
    timeout_seconds = 30;
  });
  llm_prompt = λ _. ok [];
  llm_prompts = λ _ _. ok [];
  texts = record { default_prompt = codes "p"; output_contract = codes "c" };
  ask = λ _. answered 200 (some (some (allow, codes "seen") ∷ []));
  elapsed = λ _ _. 1_500_000_000;
}

abbrev request : Request
request = record {
  user_id = codes "u";
  target_id = codes "t";
  command = codes "ls";
  source_ip = codes "10.0.0.1";
  require_ai = true;
}

abbrev allowed : Decision
allowed = decide_as decision_allow (codes "llm: seen (2s)")

abbrev refused : Decision
refused = record {
  action = decision_deny;
  reason = codes "llm: seen (2s)";
  allow_manual_review = true;
  manual_review_timeout_seconds = 60;
}

evaluated : evaluate_command texts_as_addresses (services true) request ≡ ok allowed
unfolding evaluate_command policy_loop policy_round finish judge ask_reviewer after_review conclude
    policy_applies in_some_group rule_verdict verdict_of review_prompt_for review_command read_reply
    review_answer append_llm_duration trim_space to_lower has_prefix bytes_eq itoa
    command_has_channel command_segments command_parts parts_loop parts_step flushed
    is_redirection_ampersand evaluate_policy_rules blacklist_hit whitelist_loop whitelist_outcome
    rule_matches match_segment evaluate_source_ip source_ip_allowed item_allows split_allowlist
    mark_manual_review
evaluated = refl

evaluated_refused : evaluate_command texts_as_addresses (services false) request ≡ ok refused
unfolding evaluate_command policy_loop policy_round finish judge ask_reviewer after_review conclude
    policy_applies in_some_group rule_verdict verdict_of review_prompt_for review_command read_reply
    review_answer append_llm_duration trim_space to_lower has_prefix bytes_eq itoa
    command_has_channel command_segments command_parts parts_loop parts_step flushed
    is_redirection_ampersand evaluate_policy_rules blacklist_hit whitelist_loop whitelist_outcome
    rule_matches match_segment evaluate_source_ip source_ip_allowed item_allows split_allowlist
    mark_manual_review
evaluated_refused = refl

mcp_needs_approval_example : AnyOf (Approves (services true) request) (reviewed_policy ∷ [])
unfolding bytes_eq
mcp_needs_approval_example =
    mcp_needs_approval texts_as_addresses (services true) request (reviewed_policy ∷ []) allowed
      refl evaluated refl refl

allowed-Clears_example :
    All (Clears texts_as_addresses (services true) request) (reviewed_policy ∷ [])
unfolding bytes_eq
allowed-Clears_example =
    allowed-Clears texts_as_addresses (services true) request (reviewed_policy ∷ []) allowed refl
      evaluated refl

manual_review_offered_example :
    (denies refused ≡ true)
    × AnyOf (Offers refused) (reviewed_policy ∷ [])
    × ((not request.require_ai || any has_reviewer (reviewed_policy ∷ [])) ≡ true)
manual_review_offered_example =
    manual_review_offered texts_as_addresses (services false) request (reviewed_policy ∷ []) refused
      refl evaluated_refused refl

evaluate_policy_rules_exact_example :
    ruling_of (evaluate_policy_rules (no_removal ∷ []) (codes "rm -r /") false)
    ≡ expected_ruling (no_removal ∷ []) (codes "rm -r /") false
evaluate_policy_rules_exact_example =
    evaluate_policy_rules_exact (no_removal ∷ []) (codes "rm -r /") false

abbrev shell_decision : Decision
shell_decision = decide_as decision_allow (codes "policy capability allowed: p")

shell_access :
    evaluate_access texts_as_addresses
      (services true)
      (codes "u")
      (codes "t")
      (codes "10.0.0.1")
      request_shell
    ≡ ok shell_decision
unfolding evaluate_access access_loop access_check capability_refusal policy_applies in_some_group
    evaluate_source_ip source_ip_allowed item_allows split_allowlist trim_space to_lower has_prefix
    bytes_eq
shell_access = refl

evaluate_access_exact_example :
    denies shell_decision
    ≡ not (
        every
          (permits texts_as_addresses request_shell (codes "10.0.0.1"))
          (applying (services true) (codes "u") (reviewed_policy ∷ [])))
evaluate_access_exact_example =
    evaluate_access_exact texts_as_addresses (services true) (codes "u") (codes "t")
      (codes "10.0.0.1") request_shell (reviewed_policy ∷ []) shell_decision refl shell_access

abbrev upload_only : Grant
upload_only = (decide_as decision_allow (codes "file transfer policy: p"), true, false)

sftp_access :
    evaluate_sftp_access texts_as_addresses
      (services true)
      (codes "u")
      (codes "t")
      (codes "10.0.0.1")
    ≡ ok upload_only
unfolding evaluate_sftp_access transfer_loop transfer_finish policy_applies in_some_group
    evaluate_source_ip source_ip_allowed item_allows split_allowlist trim_space to_lower has_prefix
    bytes_eq
sftp_access = refl

evaluate_sftp_access_exact_example :
    (upload_only.1
      ≡ direction texts_as_addresses
          (services true)
          (codes "u")
          (codes "t")
          (codes "10.0.0.1")
          (λ p. p.allow_upload)
          (applying (services true) (codes "u") (reviewed_policy ∷ [])))
    × (upload_only.2
        ≡ direction texts_as_addresses
            (services true)
            (codes "u")
            (codes "t")
            (codes "10.0.0.1")
            (λ p. p.allow_download)
            (applying (services true) (codes "u") (reviewed_policy ∷ [])))
    × (denies upload_only.0 ≡ not (upload_only.1 || upload_only.2))
evaluate_sftp_access_exact_example =
    evaluate_sftp_access_exact texts_as_addresses (services true) (codes "u") (codes "t")
      (codes "10.0.0.1") (reviewed_policy ∷ []) upload_only refl sftp_access
