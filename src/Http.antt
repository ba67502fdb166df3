-- ===== src/Http.antt =====
-- The answer to an error: src/shared/utils/domain-error-mapper.ts and
-- src/presentation/http/middleware/error.middleware.ts. Of the texts it is kept whether they are the
-- error's own.
pub mod Classes
use spotq_queue_service.Base.{
  ℕ, String, Bool, true, false, not, ◌&&◌, Option, none, some, leb, ltb, ◌==◌, if◌then◌else◌,
}
use spotq_queue_service.Errors.{
  DomainError, tables_available, restaurant_not_accepting, active_queue_entry_exists,
  active_user_queue_entry_exists, queue_entry_not_found, unauthorized_staff_access,
  invalid_party_size, restaurant_blocked, subscription_required, restaurant_not_found,
  upstream_service_unavailable, queue_entry_not_waiting, insufficient_table_capacity,
  cannot_ring_walk_in_customer, unauthorized, Failure, domain, persistence,
}

-- The codes of the errors.
pub data ErrorCode : Type 0 where
  c_tables_available c_restaurant_not_accepting c_active_queue_entry_exists : ErrorCode
  c_queue_entry_not_found c_forbidden c_invalid_party_size c_restaurant_blocked : ErrorCode
  c_subscription_required c_restaurant_not_found c_upstream_service_unavailable : ErrorCode
  c_queue_entry_not_waiting c_insufficient_table_capacity c_cannot_ring_walk_in : ErrorCode
  c_unauthorized c_validation_error c_database_error c_internal_server_error : ErrorCode

unfoldable pub code_of : DomainError → ErrorCode
code_of (tables_available n) = c_tables_available
code_of restaurant_not_accepting = c_restaurant_not_accepting
code_of (active_queue_entry_exists phone) = c_active_queue_entry_exists
code_of active_user_queue_entry_exists = c_active_queue_entry_exists
code_of (queue_entry_not_found id) = c_queue_entry_not_found
code_of unauthorized_staff_access = c_forbidden
code_of invalid_party_size = c_invalid_party_size
code_of (restaurant_blocked id reason) = c_restaurant_blocked
code_of (subscription_required id plan) = c_subscription_required
code_of (restaurant_not_found id) = c_restaurant_not_found
code_of (upstream_service_unavailable status) = c_upstream_service_unavailable
code_of (queue_entry_not_waiting id status) = c_queue_entry_not_waiting
code_of (insufficient_table_capacity n m) = c_insufficient_table_capacity
code_of (cannot_ring_walk_in_customer id) = c_cannot_ring_walk_in
code_of unauthorized = c_unauthorized

-- `details?.upstreamStatusCode || 503`
upstream_status : Option ℕ → ℕ
upstream_status none = 503
upstream_status (some n) = if n == 0 then 503 else n

details_status : DomainError → Option ℕ
details_status (upstream_service_unavailable status) = status
details_status _ = none

status_of_code : ErrorCode → Option ℕ → ℕ
unfolding upstream_status
status_of_code c_tables_available upstream = 409
status_of_code c_restaurant_not_accepting upstream = 409
status_of_code c_active_queue_entry_exists upstream = 409
status_of_code c_queue_entry_not_waiting upstream = 409
status_of_code c_queue_entry_not_found upstream = 404
status_of_code c_restaurant_not_found upstream = 404
status_of_code c_unauthorized upstream = 401
status_of_code c_forbidden upstream = 403
status_of_code c_restaurant_blocked upstream = 403
status_of_code c_subscription_required upstream = 403
status_of_code c_upstream_service_unavailable upstream = upstream_status upstream
status_of_code _ upstream = 400

-- `mapDomainErrorToHttpStatus`
unfoldable pub map_domain_error_to_http_status : DomainError → ℕ
unfolding code_of details_status status_of_code
map_domain_error_to_http_status e = status_of_code (code_of e) (details_status e)

-- What reaches the middleware: a validation error of the request, or what a handler threw.
pub data Thrown : Type 0 where
  invalid_request : Thrown
  threw : Failure → Thrown

pub record ErrorResponse : Type 0 where
  pub code : ErrorCode
  pub status : ℕ
  -- Whether the text of the error itself is sent.
  pub is_verbatim : Bool

other_response : Bool → ℕ → ErrorResponse
other_response production current = record {
  code = c_internal_server_error;
  status = if leb 400 current && ltb current 600 then current else 500;
  is_verbatim = not production;
}

answer_to : Bool → ℕ → Failure → ErrorResponse
unfolding map_domain_error_to_http_status other_response
answer_to production current (domain e) = record {
  code = code_of e;
  status = map_domain_error_to_http_status e;
  is_verbatim = true;
}
answer_to production current (persistence c) = record {
  code = c_database_error;
  status = 500;
  is_verbatim = not production;
}
answer_to production current _ = other_response production current

-- `errorMiddleware`: nothing is sent once the headers are, and `current` is the status of the
-- response so far.
unfoldable pub error_middleware : Bool → Bool → ℕ → Thrown → Option ErrorResponse
unfolding answer_to
error_middleware production true current x = none
error_middleware production false current invalid_request =
    some (record { code = c_validation_error; status = 400; is_verbatim = false })
error_middleware production false current (threw x) = some (answer_to production current x)
