-- ===== src/RestaurantClient/Failures.antt =====
-- The errors of src/infrastructure/external/restaurant-service.client.ts, and the answers to them.
use spotq_queue_service.Base.{
  ℕ, String, ◌≡◌, refl, ◌≤◌, ◌<◌, ◌⊎◌, inl, inr, Bool, true, false, ◌==◌, Option, none, some, arith,
  Bool-cases,
}
use spotq_queue_service.Errors.{
  restaurant_not_found, upstream_service_unavailable, Failure, domain, Result, ok, err,
}
use spotq_queue_service.World.{RestaurantStatus, TableAvailability}
use spotq_queue_service.Http.{map_domain_error_to_http_status}
use spotq_queue_service.Http.Classes.{upstream-class, missing-class}
use spotq_queue_service.RestaurantClient.{
  HttpOutcome, replied, request_failed, broke, domain_error, axios_error, check_is_failure,
  translate, read_data, read_success, Breaker, lets_through, is_open, times_out,
  execute_with_breaker, get_restaurant_status, check_availability, assign_tables, release_tables,
  status_code, carries_client_error,
}

-- An error of the client: the restaurant is not there, answered with 404; or the service failed, and
-- the answer has the status of a client error that it gave, or 503.
abbrev pub IsClientError : String → Failure → Type 0
IsClientError id (domain e) =
    (e ≡ restaurant_not_found id) × (map_domain_error_to_http_status e ≡ 404)
    ⊎ (status : Option ℕ) × (e ≡ upstream_service_unavailable status)
      × ((map_domain_error_to_http_status e ≡ 503)
          ⊎ ((400 ≤ map_domain_error_to_http_status e) × (map_domain_error_to_http_status e < 500)))
IsClientError id x = ⊥

abbrev pub IsClientResult {ℓ} : {A : Type ℓ} → String → Result A → Type 0
IsClientResult id (ok a) = Unit
IsClientResult id (err x) = IsClientError id x

upstream-IsClientError :
    (id : String) (status : Option ℕ)
    → (status ≡ none) ⊎ (carries_client_error status ≡ true) ⊎ (status ≡ some 503)
    → IsClientError id (domain (upstream_service_unavailable status))
upstream-IsClientError id none h = inr (none, refl, inl (upstream-class none))
upstream-IsClientError id (some n) h =
    inr (some n, refl, ground (arith, h, upstream-class (some n)))

missing-IsClientError : (id : String) → IsClientError id (domain (restaurant_not_found id))
missing-IsClientError id = inl (refl, missing-class id)

axios-IsClientError :
    (id : String) (status : Option ℕ)
    → IsClientError id (domain (translate id (axios_error status)))
unfolding translate
axios-IsClientError id none = upstream-IsClientError id (some 503) (inr (inr refl))
axios-IsClientError id (some n) = elim (Bool-cases (n == 404)) [
  | inl missing ↦ rw missing (missing-IsClientError id)
  | inr other ↦ rw other (upstream-IsClientError id (some (status_code (some n))) (ground arith))
]

-- The circuit breaker judges an error of the HTTP library after its translation as it would judge it
-- before.
pub check_is_failure-translate :
    (id : String) (status : Option ℕ)
    → check_is_failure (domain_error (translate id (axios_error status)))
      ≡ check_is_failure (axios_error status)
unfolding check_is_failure translate
check_is_failure-translate id none = refl
check_is_failure-translate id (some n) = ground arith

broken-IsClientError : (id : String) → IsClientError id (domain (upstream_service_unavailable none))
broken-IsClientError id = upstream-IsClientError id none (inl refl)

module _ {ℓ} {A : Type ℓ} where
  breaker-IsClientResult :
      (id : String) (b : Breaker) (r : Result A)
      → IsClientResult id r
      → IsClientResult id (execute_with_breaker b r)
  unfolding execute_with_breaker
  breaker-IsClientResult id lets_through r h = h
  breaker-IsClientResult id is_open r h = upstream-IsClientError id (some 503) (inr (inr refl))
  breaker-IsClientResult id times_out r h = upstream-IsClientError id (some 503) (inr (inr refl))

  data-IsClientResult :
      (id : String) (is_success : Bool) (value : Option A)
      → IsClientResult id
          (read_data id (replied (some (record { is_success = is_success; data_of = value }))))
  unfolding read_data translate
  data-IsClientResult id true none = broken-IsClientError id
  data-IsClientResult id true (some a) = tt
  data-IsClientResult id false value = broken-IsClientError id

  read_data-IsClientResult :
      (id : String) (http : HttpOutcome A) → IsClientResult id (read_data id http)
  unfolding read_data translate
  read_data-IsClientResult id (replied none) = broken-IsClientError id
  read_data-IsClientResult id (replied (some body)) =
      data-IsClientResult id body.is_success body.data_of
  read_data-IsClientResult id (request_failed status) = axios-IsClientError id status
  read_data-IsClientResult id broke = broken-IsClientError id

success-IsClientResult :
    (id : String) (is_success : Bool) (value : Option (Unit {0}))
    → IsClientResult id
        (read_success id (replied (some (record { is_success = is_success; data_of = value }))))
unfolding read_success translate
success-IsClientResult id true value = tt
success-IsClientResult id false value = broken-IsClientError id

read_success-IsClientResult :
    (id : String) (http : HttpOutcome (Unit {0})) → IsClientResult id (read_success id http)
unfolding read_success translate
read_success-IsClientResult id (replied none) = broken-IsClientError id
read_success-IsClientResult id (replied (some body)) =
    success-IsClientResult id body.is_success body.data_of
read_success-IsClientResult id (request_failed status) = axios-IsClientError id status
read_success-IsClientResult id broke = broken-IsClientError id

check-IsClientResult :
    (mock : Bool) (b : Breaker) (id : String) (http : HttpOutcome TableAvailability)
    → IsClientResult id (check_availability mock b id http)
unfolding check_availability
check-IsClientResult true b id http = tt
check-IsClientResult false b id http =
    breaker-IsClientResult id b (read_data id http) (read_data-IsClientResult id http)

-- Whatever the request comes to and whatever the breaker does, each of the four calls returns, or
-- throws an error of the domain: that the restaurant is not there, which is answered with 404, or
-- that the service failed, which is answered with 503 or with the status of a client error.
pub calls-IsClientResult :
    (b : Breaker) (mock : Bool) (id : String) (status : HttpOutcome RestaurantStatus)
    (availability : HttpOutcome TableAvailability) (tables : HttpOutcome (Unit {0}))
    → IsClientResult id (get_restaurant_status b id status)
      × IsClientResult id (check_availability mock b id availability)
      × IsClientResult id (assign_tables b id tables)
      × IsClientResult id (release_tables b id tables)
unfolding get_restaurant_status assign_tables release_tables
calls-IsClientResult b mock id status availability tables =
    let changed =
      breaker-IsClientResult id b (read_success id tables)
        (read_success-IsClientResult id tables) in
    (
      breaker-IsClientResult id b (read_data id status) (read_data-IsClientResult id status),
      check-IsClientResult mock b id availability,
      changed,
      changed,
    )
