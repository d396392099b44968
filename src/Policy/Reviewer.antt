-- ===== src/Policy/Reviewer.antt =====
-- internal/bastion/llm.go: `ReviewCommand`. The HTTP exchange with the model, and the decoding of
-- its JSON, are taken as a function from the request to a `Reply`.
use gosshd_bastion.Base.{
  ◌≡◌, arith, true, ℕ, Bool, false, ◌+◌, ◌/◌, ◌||◌, List, [], ◌∷◌, ◌++◌, Option, none, some,
  if◌then◌else◌, is_empty, ltb, leb,
}
use gosshd_bastion.Base.Bytes.{Bytes, codes, trim_space, itoa, trim_slashes}
use gosshd_bastion.Policy.{Decision, decide_as, decision_allow, decision_deny}

pub record LlmPolicyConfig : Type 0 where
  pub base_url : Bytes
  pub encrypted_api_key : Bytes
  pub model : Bytes
  pub timeout_seconds : ℕ

pub record LlmReviewInput : Type 0 where
  pub user_id : Bytes
  pub target_id : Bytes
  pub command : Bytes
  pub prompt : Bytes

-- How far the exchange came. `answered` has the status of the response, and its body: `none` if it
-- is no JSON of the expected shape, else the content of each choice, which is `none` if it is no
-- JSON review, else its fields `allow` and `reason`.
pub data Reply : Type 0 where
  not_marshalled not_created not_sent : Reply
  answered : ℕ → Option (List (Option (Bool × Bytes))) → Reply

-- What the client asks: the endpoint, the system prompt, and the input.
pub record Question : Type 0 where
  pub endpoint : Bytes
  pub config : LlmPolicyConfig
  pub system : Bytes
  pub input : LlmReviewInput

-- `ReviewCommand` returns a decision also with an error; `failed` says that there is one.
pub record Review : Type 0 where
  pub decision : Decision
  pub failed : Bool

abbrev deny_with_error : Bytes → Review
deny_with_error reason = record { decision = decide_as decision_deny reason; failed = true }

unfoldable pub review_answer : Bool → Bytes → Review
review_answer allow raw =
    let text = trim_space raw in
    let reason = if is_empty text then (if allow then text else codes "deny") else text in
    record {
      decision = decide_as (if allow then decision_allow else decision_deny) reason;
      failed = false;
    }

read_choices : Option (List (Option (Bool × Bytes))) → Review
unfolding review_answer trim_space
read_choices none = deny_with_error (codes "llm response decode failed")
read_choices (some []) = deny_with_error (codes "llm response missing choices")
read_choices (some (none ∷ _)) = deny_with_error (codes "llm response content decode failed")
read_choices (some (some (allow, reason) ∷ _)) = review_answer allow reason

unfoldable pub read_reply : Reply → Review
unfolding read_choices
read_reply not_marshalled = deny_with_error (codes "llm request marshal failed")
read_reply not_created = deny_with_error (codes "llm request creation failed")
read_reply not_sent = deny_with_error (codes "llm request failed")
read_reply (answered status body) =
    if ltb status 200 || leb 300 status
    then deny_with_error (codes "llm request rejected")
    else read_choices body

-- The texts `DefaultLLMPromptContent` and `llmOutputContract` are parameters: the code only
-- passes them on.
pub record Texts : Type 0 where
  pub default_prompt : Bytes
  pub output_contract : Bytes

unfoldable pub review_system_prompt : Texts → Bytes → Bytes
unfolding trim_space
review_system_prompt texts prompt =
    let text = trim_space prompt in
    (if is_empty text then texts.default_prompt else text) ++ codes "\n\n" ++ texts.output_contract

unfoldable pub question : Texts → LlmPolicyConfig → LlmReviewInput → Question
unfolding review_system_prompt trim_slashes
question texts config input = record {
  endpoint = trim_slashes config.base_url ++ codes "/chat/completions";
  config = config;
  system = review_system_prompt texts input.prompt;
  input = input;
}

unfoldable pub review_command :
    Texts → (Question → Reply) → LlmPolicyConfig → LlmReviewInput → Review
unfolding read_reply
review_command texts ask config input = read_reply (ask (question texts config input))

-- service.go. `elapsed` counts nanoseconds; up to 2^53 of them the quotient of floats rounds up as
-- the one of numbers does.
unfoldable pub append_llm_duration : Bytes → ℕ → Bytes
unfolding trim_space itoa
append_llm_duration reason elapsed =
    let text = trim_space reason in
    let seconds = (elapsed + 999_999_999) / 1_000_000_000 in
    (if is_empty text then codes "llm" else text)
    ++ codes " ("
    ++ itoa (if ltb seconds 1 then 1 else seconds)
    ++ codes "s)"

-- Every way in which a review can fail denies, and no review asks for a manual one.
read_reply_shape :
    (r : Reply)
    → ((read_reply r).failed ≡ true → (read_reply r).decision.action ≡ decision_deny)
      × ((read_reply r).decision.allow_manual_review ≡ false)
unfolding read_reply
read_reply_shape not_marshalled = ground arith
read_reply_shape not_created = ground arith
read_reply_shape not_sent = ground arith
read_reply_shape (answered status none) = ground arith
read_reply_shape (answered status (some [])) = ground arith
read_reply_shape (answered status (some (none ∷ _))) = ground arith
read_reply_shape (answered status (some (some (allow, reason) ∷ _))) = ground arith

pub review_command_failed :
    (texts : Texts) (ask : Question → Reply) (config : LlmPolicyConfig) (input : LlmReviewInput)
    → (review_command texts ask config input).failed ≡ true
    → (review_command texts ask config input).decision.action ≡ decision_deny
unfolding review_command
review_command_failed texts ask config input =
    (read_reply_shape (ask (question texts config input))).0

pub review_command_unflagged :
    (texts : Texts) (ask : Question → Reply) (config : LlmPolicyConfig) (input : LlmReviewInput)
    → (review_command texts ask config input).decision.allow_manual_review ≡ false
unfolding review_command
review_command_unflagged texts ask config input =
    (read_reply_shape (ask (question texts config input))).1
