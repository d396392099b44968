-- ===== src/Policy/Access.antt =====
-- internal/bastion/service.go: `EvaluateAccess` and `EvaluateSFTPAccess`, the capabilities of a
-- session.
pub mod Exact
use gosshd_bastion.Base.{
  Bool, true, false, not, ◌&&◌, ◌||◌, List, [], ◌∷◌, ◌++◌, Option, none, some, if◌then◌else◌,
}
use gosshd_bastion.Base.Bytes.{Bytes, codes, bytes_eq}
use gosshd_bastion.Base.Result.{Result, ok, err, ◌>>=◌}
use gosshd_bastion.Policy.{CommandPolicy, Decision, decide_as, decision_allow, decision_deny}
use gosshd_bastion.Policy.Source.{Netip, evaluate_source_ip}
use gosshd_bastion.Policy.Command.{Services, policy_applies}

abbrev pub request_shell : Bytes
request_shell = codes "shell"

abbrev pub request_web_terminal : Bytes
request_web_terminal = codes "web_terminal"

abbrev pub request_system : Bytes
request_system = codes "system"

abbrev pub request_sftp : Bytes
request_sftp = codes "sftp"

abbrev pub request_forward : Bytes
request_forward = codes "forward"

abbrev pub refuse_when : Bool → Bytes → Option Bytes
refuse_when true text = some text
refuse_when false text = none

-- The `switch requestType`: the text of the refusal, `none` if the policy has the capability.
unfoldable pub capability_refusal : Bytes → CommandPolicy → Option Bytes
unfolding bytes_eq
capability_refusal kind p =
    if bytes_eq kind request_shell
    then refuse_when (not p.allow_ssh_interactive)
        (codes "ssh interactive terminal disabled by policy: ")
    else if bytes_eq kind request_web_terminal
    then refuse_when (not p.allow_web_terminal) (codes "web terminal disabled by policy: ")
    else if bytes_eq kind request_system
    then refuse_when (not p.allow_web_terminal && not p.allow_ssh_interactive)
        (codes "system information access disabled by policy: ")
    else if bytes_eq kind request_sftp
    then refuse_when (not p.allow_upload && not p.allow_download)
        (codes "file transfer disabled by policy: ")
    else if bytes_eq kind request_forward
    then refuse_when (not p.allow_port_forward) (codes "port forwarding disabled by policy: ")
    else none

-- What one policy that applies does: it refuses, or it lets the loop go on with a new `result`.
unfoldable pub access_check : Netip → Bytes → Bytes → CommandPolicy → Bool × Decision
access_check n kind source policy = elim (evaluate_source_ip n policy source) [
  | some d ↦ (false, d)
  | none ↦ elim (capability_refusal kind policy) [
    | some text ↦ (false, decide_as decision_deny (text ++ policy.name))
    | none ↦ (true, decide_as decision_allow (codes "policy capability allowed: " ++ policy.name))
  ]
]

module _ (n : Netip) (v : Services) (user target source : Bytes) where
  -- The recursive call waits in `rest` until the policy has passed.
  unfoldable pub access_loop : Bytes → List CommandPolicy → Decision → Result Decision
  access_loop kind [] result = ok result
  access_loop kind (policy ∷ policies) result =
      let checked = access_check n kind source policy in
      elim (policy_applies v policy user) [
        | err e ↦ err e
        | ok false ↦ access_loop kind policies result
        | ok true ↦
            let rest = access_loop kind policies checked.1 in
            if checked.0 then rest else ok checked.1
      ]

  unfoldable pub evaluate_access : Bytes → Result Decision
  unfolding access_loop
  evaluate_access kind = do
    policies ← v.policies_for_target target
    access_loop kind policies (decide_as decision_allow (codes "no policy"))

-- The variables of `EvaluateSFTPAccess`.
pub record Transfer : Type 0 where
  pub applied : Bool
  pub allow_upload : Bool
  pub allow_download : Bool
  pub result : Decision

abbrev pub note_transfer : CommandPolicy → Transfer → Transfer
note_transfer policy t = record {
  applied = true;
  allow_upload = t.allow_upload || policy.allow_upload;
  allow_download = t.allow_download || policy.allow_download;
  result = decide_as decision_allow (codes "file transfer policy: " ++ policy.name);
}

-- The decision, and whether uploads and downloads are allowed.
abbrev pub Grant : Type 0
Grant = Decision × Bool × Bool

unfoldable pub transfer_finish : Transfer → Grant
transfer_finish t =
    if not t.applied
    then (t.result, true, true)
    else if not t.allow_upload && not t.allow_download
    then (decide_as decision_deny (codes "file transfer disabled by policy"), false, false)
    else (t.result, t.allow_upload, t.allow_download)

module _ (n : Netip) (v : Services) (user target source : Bytes) where
  unfoldable pub transfer_loop : List CommandPolicy → Transfer → Result Grant
  transfer_loop [] t = ok (transfer_finish t)
  transfer_loop (policy ∷ policies) t = elim (policy_applies v policy user) [
    | err e ↦ err e
    | ok false ↦ transfer_loop policies t
    | ok true ↦ elim (evaluate_source_ip n policy source) [
      | some d ↦ ok (d, false, false)
      | none ↦ transfer_loop policies (note_transfer policy t)
    ]
  ]

  unfoldable pub evaluate_sftp_access : Result Grant
  unfolding transfer_loop transfer_finish
  evaluate_sftp_access = do
    policies ← v.policies_for_target target
    transfer_loop policies (record {
      applied = false;
      allow_upload = false;
      allow_download = false;
      result = decide_as decision_allow (codes "no policy");
    })
