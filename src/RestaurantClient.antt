-- ===== src/RestaurantClient.antt =====
-- src/infrastructure/external/restaurant-service.client.ts. The HTTP library, the circuit breaker and
-- the token issuer are not of this repository: what a request comes to, whether the breaker lets a
-- call through and what the issuer gives are parameters. The texts of the messages are left out.
pub mod Failures
use Prim.Native.String.{◌++◌ as str_append}
use spotq_queue_service.Base.{
  ℕ, String, Bool, true, false, not, ◌&&◌, ◌||◌, Option, none, some, leb, ltb, ◌==◌, is_truthy,
  if◌then◌else◌,
}
use spotq_queue_service.Errors.{
  DomainError, restaurant_not_found, upstream_service_unavailable, domain, Result, ok, err,
}
use spotq_queue_service.World.{RestaurantStatus, TableAvailability}

-- `IApiResponseEnvelope`
pub record Envelope {ℓ} (A : Type ℓ) : Type ℓ where
  pub is_success : Bool
  pub data_of : Option A

-- What a request comes to: a response with or without a body, an error of the HTTP library with the
-- status of the response if there was one, or another error.
pub data HttpOutcome {ℓ} (A : Type ℓ) : Type ℓ where
  replied : Option (Envelope A) → HttpOutcome A
  request_failed : Option ℕ → HttpOutcome A
  broke : HttpOutcome A

-- What is caught or judged: an error of the domain, one of the HTTP library, or another.
pub data CallError : Type 0 where
  domain_error : DomainError → CallError
  axios_error : Option ℕ → CallError
  unexpected : CallError

-- Whether a status is one of 400 to 499.
abbrev pub is_client_error : ℕ → Bool
is_client_error n = leb 400 n && ltb n 500

abbrev pub has_status : Option ℕ → ℕ → Bool
has_status none n = false
has_status (some m) n = m == n

-- `status && status >= 400 && status < 500`
abbrev pub carries_client_error : Option ℕ → Bool
carries_client_error none = false
carries_client_error (some n) = not (n == 0) && is_client_error n

-- `checkIsFailure`: which errors the circuit breaker counts.
unfoldable pub check_is_failure : CallError → Bool
check_is_failure (domain_error (restaurant_not_found id)) = false
check_is_failure (domain_error (upstream_service_unavailable status)) =
    not (carries_client_error status)
check_is_failure (domain_error e) = false
check_is_failure (axios_error status) =
    not (has_status status 404) && not (carries_client_error status)
check_is_failure unexpected = true

-- `statusCode` of an error of the HTTP library
abbrev pub status_code : Option ℕ → ℕ
status_code none = 503
status_code (some n) = if carries_client_error (some n) then n else 503

-- The `catch` of each of the four calls.
unfoldable pub translate : String → CallError → DomainError
translate restaurant_id (domain_error e) = e
translate restaurant_id (axios_error status) =
    if has_status status 404
    then restaurant_not_found restaurant_id
    else upstream_service_unavailable (some (status_code status))
translate restaurant_id unexpected = upstream_service_unavailable none

module _ {ℓ} {A : Type ℓ} where
  abbrev pub fail : String → CallError → Result A
  fail restaurant_id e = err (domain (translate restaurant_id e))

  -- `success !== true || !data`
  abbrev pub data_given : Option A → String → Result A
  data_given none restaurant_id =
      fail restaurant_id (domain_error (upstream_service_unavailable none))
  data_given (some a) restaurant_id = ok a

  unfoldable pub read_data : String → HttpOutcome A → Result A
  unfolding translate
  read_data restaurant_id (replied none) =
      fail restaurant_id (domain_error (upstream_service_unavailable none))
  read_data restaurant_id (replied (some body)) =
      if body.is_success
      then data_given body.data_of restaurant_id
      else fail restaurant_id (domain_error (upstream_service_unavailable none))
  read_data restaurant_id (request_failed status) = fail restaurant_id (axios_error status)
  read_data restaurant_id broke = fail restaurant_id unexpected

-- The same where no data is expected: `success !== true`.
unfoldable pub read_success : String → HttpOutcome (Unit {0}) → Result (Unit {0})
unfolding translate
read_success restaurant_id (replied none) =
    fail restaurant_id (domain_error (upstream_service_unavailable none))
read_success restaurant_id (replied (some body)) =
    if body.is_success
    then ok tt
    else fail restaurant_id (domain_error (upstream_service_unavailable none))
read_success restaurant_id (request_failed status) = fail restaurant_id (axios_error status)
read_success restaurant_id broke = fail restaurant_id unexpected

-- Whether the breaker lets a call through, is open, or times out on it.
pub data Breaker : Type 0 where
  lets_through is_open times_out : Breaker

-- `executeWithBreaker`
unfoldable pub execute_with_breaker {ℓ} : {A : Type ℓ} → Breaker → Result A → Result A
execute_with_breaker lets_through r = r
execute_with_breaker is_open r = err (domain (upstream_service_unavailable (some 503)))
execute_with_breaker times_out r = err (domain (upstream_service_unavailable (some 503)))

unfoldable pub get_restaurant_status :
    Breaker → String → HttpOutcome RestaurantStatus → Result RestaurantStatus
unfolding execute_with_breaker read_data
get_restaurant_status b restaurant_id http = execute_with_breaker b (read_data restaurant_id http)

-- `checkAvailability`, and the answer it gives without a call where `useMock` is set.
unfoldable pub check_availability :
    Bool → Breaker → String → HttpOutcome TableAvailability → Result TableAvailability
unfolding execute_with_breaker read_data
check_availability true b restaurant_id http = ok (record {
  is_open = true;
  accepts_queue = true;
  is_table_available = false;
  available_count = 0;
})
check_availability false b restaurant_id http =
    execute_with_breaker b (read_data restaurant_id http)

unfoldable pub assign_tables : Breaker → String → HttpOutcome (Unit {0}) → Result (Unit {0})
unfolding execute_with_breaker read_success
assign_tables b restaurant_id http = execute_with_breaker b (read_success restaurant_id http)

unfoldable pub release_tables : Breaker → String → HttpOutcome (Unit {0}) → Result (Unit {0})
unfolding execute_with_breaker read_success
release_tables b restaurant_id http = execute_with_breaker b (read_success restaurant_id http)

pub record Headers : Type 0 where
  pub accept : String
  pub x_caller_service : String
  pub authorization : Option String

abbrev pub bearer : Option String → Option String
bearer none = none
bearer (some token) = some (str_append "Bearer " token)

-- `getInternalHeaders`: with a key the issuer gives a token, or throws, which is logged.
unfoldable pub get_internal_headers : String → Option String → (String → Option String) → Headers
get_internal_headers service none issue = record {
  accept = "application/json";
  x_caller_service = service;
  authorization = none;
}
get_internal_headers service (some key) issue = record {
  accept = "application/json";
  x_caller_service = service;
  authorization = if is_truthy (some key) then bearer (issue key) else none;
}
