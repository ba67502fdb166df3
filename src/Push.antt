-- ===== src/Push.antt =====
-- src/infrastructure/firebase/firebase-push-notification.service.ts, with the code sets of
-- src/infrastructure/firebase/firebase.constants.ts and the decision of
-- src/infrastructure/queue/workers/notification.worker.ts. `messaging.send` is a parameter: its answer
-- by the number of the attempt. The texts and the settings of the message are left out.
pub mod Retries
use spotq_queue_service.Base.{
  ℕ, zero, suc, ◌+◌, ◌*◌, leb, String, Bool, true, false, not, ◌&&◌, ◌||◌, Option, none, some, List,
  [], ◌∷◌, is_truthy, or_else, str_eq, if◌then◌else◌,
}

-- What one call of `messaging.send` comes to: the id of the message, or the code and the text of the
-- error.
pub data Attempt : Type 0 where
  delivered : String → Attempt
  rejected : String → String → Attempt

pub record PushResult : Type 0 where
  pub success : Bool
  pub message_id : Option String
  pub error : Option String
  pub is_token_invalid : Option Bool

-- The result with the number of attempts and the pauses between them.
pub record Delivery : Type 0 where
  pub result : PushResult
  pub attempts : ℕ
  pub waits : List ℕ

is_one_of : List String → String → Bool
is_one_of [] code = false
is_one_of (c ∷ cs) code = str_eq c code || is_one_of cs code

-- `INVALID_TOKEN_ERROR_CODES.has(errorCode)`
unfoldable pub is_invalid_token : String → Bool
unfolding is_one_of
is_invalid_token = is_one_of (
    "messaging/invalid-registration-token" ∷ "messaging/registration-token-not-registered"
    ∷ "messaging/invalid-argument" ∷ [])

-- `PERMANENT_CLIENT_ERROR_CODES.has(errorCode)`
unfoldable pub is_permanent : String → Bool
unfolding is_one_of
is_permanent = is_one_of (
    "messaging/authentication-error" ∷ "messaging/mismatched-credential" ∷ "messaging/forbidden"
    ∷ "messaging/invalid-payload" ∷ "messaging/payload-size-limit-exceeded"
    ∷ "messaging/invalid-data-payload-key" ∷ "messaging/third-party-auth-error"
    ∷ "messaging/invalid-recipient" ∷ "messaging/invalid-options" ∷ [])

abbrev pub succeeded : String → PushResult
succeeded id = record {
  success = true;
  message_id = some id;
  error = none;
  is_token_invalid = none;
}

abbrev pub failed : String → Bool → PushResult
failed message invalid = record {
  success = false;
  message_id = none;
  error = some message;
  is_token_invalid = some invalid;
}

abbrev finished : ℕ → PushResult → Option Delivery
finished attempt result = some (record { result = result; attempts = attempt; waits = [] })

abbrev pub with_wait : ℕ → Option Delivery → Option Delivery
with_wait ms none = none
with_wait ms (some d) = some (record d { waits = ms ∷ d.waits })

-- One pass through the loop's body; `rest` is the run from `continue` on.
unfoldable pub settle_attempt : ℕ → ℕ → ℕ → Attempt → Option Delivery → Option Delivery
settle_attempt max_retries delay_ms attempt (delivered id) rest = finished attempt (succeeded id)
settle_attempt max_retries delay_ms attempt (rejected code message) rest =
    if is_invalid_token code
    then finished attempt (failed message true)
    else if is_permanent code
    then finished attempt (failed message false)
    else if leb attempt max_retries
    then with_wait (delay_ms * attempt) rest
    else finished attempt (failed message false)

-- `while (attempt <= this.maxRetries)` on fuel; `none` is out of fuel.
unfoldable pub attempt_loop : ℕ → ℕ → (ℕ → Attempt) → ℕ → ℕ → Option Delivery
unfolding settle_attempt
attempt_loop max_retries delay_ms answer zero attempt = none
attempt_loop max_retries delay_ms answer (suc fuel) attempt =
    let rest = attempt_loop max_retries delay_ms answer fuel (attempt + 1) in
    if leb attempt max_retries
    then settle_attempt max_retries delay_ms (attempt + 1) (answer (attempt + 1)) rest
    else finished attempt (failed "Max bounded retries exceeded" false)

-- The client may not be configured; the device id may be missing.
unfoldable pub send : Bool → Option String → ℕ → ℕ → (ℕ → Attempt) → Option Delivery
unfolding attempt_loop
send configured fid max_retries delay_ms answer =
    let run = attempt_loop max_retries delay_ms answer (max_retries + 1) 0 in
    if not configured
    then finished 0 (succeeded "mock-fcm-id")
    else if not (is_truthy fid)
    then finished 0 (failed "Missing or invalid token format" true)
    else run

-- Whether the worker throws, so that the job is queued again.
unfoldable pub is_requeued : PushResult → Bool
is_requeued r = not r.success && not (or_else r.is_token_invalid false)
