-- ===== src/Policy/Rules/Exact.antt =====
-- `evaluatePolicyRules` against a description by quantifiers over rules and segments.
use gosshd_bastion.Base.{
  Bool, true, false, not, ◌&&◌, ◌||◌, List, [], ◌∷◌, ◌++◌, Option, none, some, if◌then◌else◌, ◌≡◌,
  refl, arith, is_empty, any, every, append-nil, append_assoc, ◌∙◌,
}
use gosshd_bastion.Base.Bytes.{Bytes}
use gosshd_bastion.Shell.{command_segments}
use gosshd_bastion.Policy.{PolicyRule, decision_allow, decision_deny, rule_matches}
use gosshd_bastion.Policy.Rules.{
  is_blacklist, is_whitelist, blacklist_hit, match_segment, Whitelist, note_segment, whitelist_loop,
  whitelist_outcome, no_segments, RuleOutcome, evaluate_policy_rules,
}

-- Some blacklist rule matches the command or one of its segments.
abbrev pub blacklisted : List PolicyRule → Bytes → List Bytes → Bool
blacklisted rules command segments =
    any
      (λ rule. is_blacklist rule && (rule_matches rule command || any (rule_matches rule) segments))
      rules

-- Some whitelist rule matches the segment.
abbrev pub whitelisted : List PolicyRule → Bytes → Bool
whitelisted rules segment = any (λ rule. is_whitelist rule && rule_matches rule segment) rules

abbrev is_some {ℓ} : {A : Type ℓ} → Option A → Bool
is_some none = false
is_some (some a) = true

blacklist_hit-blacklisted :
    (rules : List PolicyRule) (command : Bytes) (segments : List Bytes)
    → is_some (blacklist_hit rules command segments) ≡ blacklisted rules command segments
unfolding blacklist_hit
blacklist_hit-blacklisted [] command segments = refl
blacklist_hit-blacklisted (rule ∷ rules) command segments =
    ground (arith, blacklist_hit-blacklisted rules command segments)

match_segment-whitelisted :
    (rules : List PolicyRule) (segment : Bytes)
    → (is_some (match_segment rules segment).1 ≡ whitelisted rules segment)
      × ((match_segment rules segment).0 ≡ any is_whitelist rules)
unfolding match_segment
match_segment-whitelisted [] segment = (refl, refl)
match_segment-whitelisted (rule ∷ rules) segment =
    ground (arith, match_segment-whitelisted rules segment)

abbrev not_whitelisted : List PolicyRule → List Bytes → List Bytes
not_whitelisted rules [] = []
not_whitelisted rules (segment ∷ segments) =
    if whitelisted rules segment
    then not_whitelisted rules segments
    else segment ∷ not_whitelisted rules segments

note_segment_lem :
    (segment : Bytes) (m : Bool × Option Bytes) (w : Whitelist) (seen hit : Bool)
    → m.0 ≡ seen
    → is_some m.1 ≡ hit
    → ((note_segment segment m w).has_whitelist ≡ (w.has_whitelist || seen))
      × ((note_segment segment m w).missing
          ≡ (if hit then w.missing else w.missing ++ segment ∷ []))
note_segment_lem segment (seen, none) w s hit e f = ground arith
note_segment_lem segment (seen, some text) w s hit e f = ground arith

-- The loop collects the segments that no whitelist rule matches, in their order.
whitelist_loop_lem :
    (rules : List PolicyRule) (segments : List Bytes) (w : Whitelist)
    → ((whitelist_loop rules segments w).has_whitelist
        ≡ (w.has_whitelist || (not (is_empty segments) && any is_whitelist rules)))
      × ((whitelist_loop rules segments w).missing ≡ w.missing ++ not_whitelisted rules segments)
unfolding whitelist_loop
whitelist_loop_lem rules [] w = (ground arith, rw append-nil)
whitelist_loop_lem rules (segment ∷ segments) w =
    let m = match_segment rules segment in
    let (hit, seen) = match_segment-whitelisted rules segment in
    let (h, k) =
      note_segment_lem segment m w (any is_whitelist rules) (whitelisted rules segment) seen hit in
    let (h', k') = whitelist_loop_lem rules segments (note_segment segment m w) in
    (
      ground arith,
      k' ∙ ground (arith, append_assoc w.missing (segment ∷ []) (not_whitelisted rules segments)),
    )

not_whitelisted_empty :
    (rules : List PolicyRule) (segments : List Bytes)
    → is_empty (not_whitelisted rules segments) ≡ every (whitelisted rules) segments
not_whitelisted_empty rules [] = refl
not_whitelisted_empty rules (segment ∷ segments) =
    ground (arith, not_whitelisted_empty rules segments)

-- A whitelist rule that matches is a whitelist rule.
whitelisted-any :
    (rules : List PolicyRule) (segment : Bytes)
    → whitelisted rules segment ≡ true
    → any is_whitelist rules ≡ true
whitelisted-any [] segment h = cc
whitelisted-any (rule ∷ rules) segment h = ground (arith, whitelisted-any rules segment)

every-any :
    (rules : List PolicyRule) (segments : List Bytes)
    → (not (is_empty segments) && any is_whitelist rules && every (whitelisted rules) segments)
      ≡ (not (is_empty segments) && every (whitelisted rules) segments)
every-any rules [] = refl
every-any rules (segment ∷ segments) = ground (arith, whitelisted-any rules segment)

-- The action that an outcome carries, `none` if no rule decided.
abbrev pub ruling_of : RuleOutcome → Option Bytes
ruling_of o = if o.matched then some o.decision.action else none

-- The ruling by quantifiers over the rules and the segments.
abbrev pub expected_ruling : List PolicyRule → Bytes → Bool → Option Bytes
expected_ruling rules command channel =
    let segments = command_segments command in
    if channel
    then none
    else if blacklisted rules command segments
    then some decision_deny
    else if not (is_empty segments) && every (whitelisted rules) segments
    then some decision_allow
    else none

whitelist_outcome_lem :
    (rules : List PolicyRule) (segments : List Bytes)
    → ruling_of (whitelist_outcome (whitelist_loop rules segments no_segments)) ≡ (
        if not (is_empty segments) && every (whitelisted rules) segments
        then some decision_allow
        else none)
unfolding whitelist_outcome
whitelist_outcome_lem rules segments = ground (
  arith,
  whitelist_loop_lem rules segments no_segments,
  not_whitelisted_empty rules segments,
  every-any rules segments,
)

-- A command with a channel is left undecided. Of another one the rules deny it exactly when a
-- blacklist rule matches it or one of its segments; they allow it exactly when none does, it has a
-- segment, and a whitelist rule matches each segment; else they decide nothing.
pub evaluate_policy_rules_exact :
    (rules : List PolicyRule) (command : Bytes) (channel : Bool)
    → ruling_of (evaluate_policy_rules rules command channel)
      ≡ expected_ruling rules command channel
unfolding evaluate_policy_rules
evaluate_policy_rules_exact rules command channel =
    let segments = command_segments command in
    ground (
      arith,
      blacklist_hit-blacklisted rules command segments,
      whitelist_outcome_lem rules segments,
    )
