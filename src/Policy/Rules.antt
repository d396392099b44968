-- ===== src/Policy/Rules.antt =====
-- internal/bastion/service.go: `evaluatePolicyRules`, the blacklist and whitelist of one policy.
pub mod Exact
use gosshd_bastion.Base.{
  ℕ, Bool, true, false, not, ◌&&◌, ◌||◌, List, [], ◌∷◌, ◌++◌, Option, none, some, if◌then◌else◌,
  is_empty, any,
}
use gosshd_bastion.Base.Bytes.{Bytes, codes, bytes_eq}
use gosshd_bastion.Shell.{command_segments}
use gosshd_bastion.Policy.{
  PolicyRule, Decision, decide_as, decision_allow, decision_deny, rule_whitelist, rule_blacklist,
  rule_matches,
}

abbrev pub is_blacklist : PolicyRule → Bool
is_blacklist rule = bytes_eq rule.rule_type rule_blacklist

abbrev pub is_whitelist : PolicyRule → Bool
is_whitelist rule = bytes_eq rule.rule_type rule_whitelist

-- The pattern of the first blacklist rule that matches the command or one of its segments.
unfoldable pub blacklist_hit : List PolicyRule → Bytes → List Bytes → Option Bytes
blacklist_hit [] command segments = none
blacklist_hit (rule ∷ rules) command segments =
    let rest = blacklist_hit rules command segments in
    if not (is_blacklist rule)
    then rest
    else if rule_matches rule command || any (rule_matches rule) segments
    then some rule.text
    else rest

-- The inner loop over the rules for one segment: whether a whitelist rule was met, and the pattern
-- of the first one that matches.
unfoldable pub match_segment : List PolicyRule → Bytes → Bool × Option Bytes
match_segment [] segment = (false, none)
match_segment (rule ∷ rules) segment =
    let rest = match_segment rules segment in
    if not (is_whitelist rule)
    then rest
    else if rule_matches rule segment
    then (true, some rule.text)
    else (true, rest.1)

pub record Whitelist : Type 0 where
  pub has_whitelist : Bool
  pub missing : List Bytes
  pub last_pattern : Bytes

-- What one segment does to the variables of the outer loop.
abbrev pub note_segment : Bytes → Bool × Option Bytes → Whitelist → Whitelist
note_segment segment (seen, some text) w = record w {
  has_whitelist = w.has_whitelist || seen;
  last_pattern = text;
}
note_segment segment (seen, none) w = record w {
  has_whitelist = w.has_whitelist || seen;
  missing = w.missing ++ segment ∷ [];
}

unfoldable pub whitelist_loop : List PolicyRule → List Bytes → Whitelist → Whitelist
whitelist_loop rules [] w = w
whitelist_loop rules (segment ∷ segments) w =
    whitelist_loop rules segments (note_segment segment (match_segment rules segment) w)

abbrev pub no_segments : Whitelist
no_segments = record { has_whitelist = false; missing = []; last_pattern = [] }

-- The three results of `evaluatePolicyRules`.
pub record RuleOutcome : Type 0 where
  pub decision : Decision
  pub matched : Bool
  pub missing : List Bytes

abbrev pub no_match : List Bytes → RuleOutcome
no_match missing = record { decision = decide_as [] []; matched = false; missing = missing }

abbrev pub match : Decision → RuleOutcome
match d = record { decision = d; matched = true; missing = [] }

unfoldable pub whitelist_outcome : Whitelist → RuleOutcome
whitelist_outcome w =
    if not w.has_whitelist
    then no_match []
    else if not (is_empty w.missing)
    then no_match w.missing
    else match (decide_as decision_allow (codes "whitelist: " ++ w.last_pattern))

unfoldable pub evaluate_policy_rules : List PolicyRule → Bytes → Bool → RuleOutcome
unfolding whitelist_outcome
evaluate_policy_rules rules command requires_llm =
    let segments = command_segments command in
    if requires_llm then no_match [] else elim (blacklist_hit rules command segments) [
      | some text ↦ match (decide_as decision_deny (codes "blacklist: " ++ text))
      | none ↦ whitelist_outcome (whitelist_loop rules segments no_segments)
    ]
