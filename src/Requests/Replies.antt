-- ===== src/Requests/Replies.antt =====
-- `sendErrorResponse` of src/shared/response/api-response.ts.
use Prim.Native.String.{[], ◌∷◌}
use spotq_queue_service.Base.{ℕ, String, ◌≡◌, refl, true, false, some, is_empty, arith}
use spotq_queue_service.Requests.{has_space, send_error_response}

space-text : (s : String) → has_space s ≡ true → is_empty s ≡ false
unfolding has_space
space-text [] h = ground (arith, h)
space-text (c ∷ s) h = refl

-- A code, which has no space and is not empty, and a message, which has one, are told apart in either
-- order: the response has the one as its code and the other as its message.
pub send_error_response_lem :
    (code message : String) (status : ℕ)
    → is_empty code ≡ false
    → has_space code ≡ false
    → has_space message ≡ true
    → (send_error_response code (some message) status
        ≡ record { status = status; code = code; message = message })
      × (send_error_response message (some code) status
          ≡ record { status = status; code = code; message = message })
unfolding send_error_response
send_error_response_lem code message status e c m = rw (c, m, e, space-text message m) (refl, refl)
