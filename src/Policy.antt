-- ===== src/Policy.antt =====
-- internal/bastion: the command policies. Here are their data (types.go, and the records of
-- internal/store/models.go that they use) and `ruleMatches`; the children hold the source address
-- check, the rules, the LLM reviewer and the evaluations of service.go.
pub mod Source
pub mod Rules
pub mod Reviewer
pub mod Command
pub mod Access
mod Tests
use gosshd_bastion.Base.{ℕ, Bool, true, false, ◌&&◌, ◌||◌, List, [], ◌∷◌, ◌≡◌, refl, if◌then◌else◌}
use gosshd_bastion.Base.Bytes.{Bytes, codes, bytes_eq, has_prefix, contains, trim_space}
use gosshd_bastion.Shell.Names.{is_bare_pattern, command_name_matches}
use gosshd_bastion.Shell.Redirect.{has_unsafe_redirection}

abbrev pub decision_allow : Bytes
decision_allow = codes "allow"

abbrev pub decision_deny : Bytes
decision_deny = codes "deny"

abbrev pub rule_whitelist : Bytes
rule_whitelist = codes "whitelist"

abbrev pub rule_blacklist : Bytes
rule_blacklist = codes "blacklist"

abbrev pub pattern_exact : Bytes
pattern_exact = codes "exact"

abbrev pub pattern_prefix : Bytes
pattern_prefix = codes "prefix"

abbrev pub pattern_contains : Bytes
pattern_contains = codes "contains"

-- The fields of `PolicyRule` and `CommandPolicy` that the evaluations read.
pub record PolicyRule : Type 0 where
  pub rule_type : Bytes
  pub pattern_type : Bytes
  pub text : Bytes

pub record CommandPolicy : Type 0 where
  pub owner_type : Bytes
  pub owner_id : Bytes
  pub name : Bytes
  pub default_action : Bytes
  pub llm_config_id : Bytes
  pub llm_prompt_id : Bytes
  pub ip_allowlist : Bytes
  pub allow_port_forward : Bool
  pub allow_upload : Bool
  pub allow_download : Bool
  pub allow_ssh_interactive : Bool
  pub allow_web_terminal : Bool
  pub allow_manual_review : Bool
  pub manual_review_timeout_seconds : ℕ
  pub rules : List PolicyRule
  pub user_group_ids : List Bytes

pub record Decision : Type 0 where
  pub action : Bytes
  pub reason : Bytes
  pub allow_manual_review : Bool
  pub manual_review_timeout_seconds : ℕ

-- `Decision{Action: …, Reason: …}`.
abbrev pub decide_as : Bytes → Bytes → Decision
decide_as action reason = record {
  action = action;
  reason = reason;
  allow_manual_review = false;
  manual_review_timeout_seconds = 0;
}

abbrev pub denies : Decision → Bool
denies d = bytes_eq d.action decision_deny

pub allow-ne-deny : bytes_eq decision_allow decision_deny ≡ false
unfolding bytes_eq
allow-ne-deny = refl

unfoldable pub mark_manual_review : CommandPolicy → Decision → Decision
mark_manual_review policy d =
    if denies d && policy.allow_manual_review
    then record d {
      allow_manual_review = true;
      manual_review_timeout_seconds = policy.manual_review_timeout_seconds;
    }
    else d

unfoldable pub rule_matches : PolicyRule → Bytes → Bool
unfolding bytes_eq has_prefix contains trim_space is_bare_pattern command_name_matches
    has_unsafe_redirection
rule_matches rule command =
    let pattern = trim_space rule.text in
    if bytes_eq rule.pattern_type pattern_exact
    then bytes_eq command pattern
    else if bytes_eq rule.pattern_type pattern_prefix
    then has_prefix pattern command
    else if bytes_eq rule.pattern_type pattern_contains
    then (if bytes_eq pattern (codes ">") || bytes_eq pattern (codes ">>")
        then has_unsafe_redirection command (bytes_eq pattern (codes ">>"))
        else if is_bare_pattern pattern
        then command_name_matches command pattern
        else contains pattern command)
    else false
