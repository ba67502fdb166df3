-- ===== src/Requests.antt =====
-- The HTTP layer before and after a handler: src/shared/response/api-response.ts, and below
-- src/presentation/http. Of an error it is kept which code and which message are sent.
pub mod Gate
pub mod Bodies
pub mod Staff
pub mod Guests
pub mod Replies
use Prim.Native.Char.{code}
use Prim.Native.String.{[], ◌∷◌}
use spotq_queue_service.Base.{
  ℕ, String, Bool, true, false, not, ◌&&◌, ◌||◌, Option, none, some, ◌==◌, is_empty, or_else,
  if◌then◌else◌,
}
use spotq_queue_service.Http.{ErrorResponse}

-- `s.includes(' ')`
unfoldable pub has_space : String → Bool
has_space [] = false
has_space (c ∷ s) = code c == 32 || has_space s

pub record ErrorBody : Type 0 where
  pub status : ℕ
  pub code : String
  pub message : String

-- A message or a code that may be absent, in a condition.
abbrev pub given_and : (String → Bool) → Option String → Bool
given_and p none = false
given_and p (some s) = p s

abbrev pub text_or : Option String → String → String
text_or none b = b
text_or (some s) b = if is_empty s then b else s

-- `sendErrorResponse`
unfoldable pub send_error_response : String → Option String → ℕ → ErrorBody
unfolding has_space
send_error_response error_or_message message_or_code status =
    if has_space error_or_message
      && given_and (λ s. not (is_empty s) && not (has_space s)) message_or_code
    then record {
      status = status;
      code = or_else message_or_code error_or_message;
      message = error_or_message;
    }
    else record {
      status = status;
      code = error_or_message;
      message = text_or message_or_code error_or_message;
    }

-- What is answered: a refusal before the handler, a success, or the answer to what it threw.
pub data Reply : Type 0 where
  refused : ErrorBody → Reply
  succeeded : ℕ → Reply
  failed : ErrorResponse → Reply
  -- The headers were already sent.
  unanswered : Reply

-- `ApiResponse.error` with a code, as the middleware uses it.
abbrev pub api_error : String → String → ℕ → ErrorBody
api_error message code status = record { status = status; code = code; message = message }

-- A middleware answers, or calls the next one.
pub data Next (A : Type 0) : Type 0 where
  stops : ErrorBody → Next A
  goes : A → Next A
