-- ===== src/Http/Classes.antt =====
-- The classes of the answers of src/presentation/http/middleware/error.middleware.ts.
use spotq_queue_service.Base.{
  ℕ, ◌≡◌, refl, ◌≤◌, ◌<◌, Bool, true, false, not, some, arith, ◌⊎◌, ◌||◌, String, Option, none,
  same_number, or_else, if◌then◌else◌,
}
use spotq_queue_service.Errors.{
  DomainError, restaurant_not_found, upstream_service_unavailable, domain,
}
use spotq_queue_service.Http.{
  code_of, details_status, status_of_code, upstream_status, map_domain_error_to_http_status, Thrown,
  invalid_request, threw, ErrorResponse,
}

-- The status that an upstream failure carries, if any, is one of an error.
abbrev pub CarriesError : DomainError → Type 0
CarriesError (upstream_service_unavailable (some n)) = (n ≡ 0) ⊎ ((400 ≤ n) × (n < 600))
CarriesError _ = Unit

abbrev pub ThrownError : Thrown → Type 0
ThrownError (threw (domain e)) = CarriesError e
ThrownError _ = Unit

-- An error of the rules of the domain, or of the request.
abbrev pub is_rule : Thrown → Bool
is_rule invalid_request = true
is_rule (threw (domain (upstream_service_unavailable status))) = false
is_rule (threw (domain e)) = true
is_rule (threw x) = false

abbrev pub IsRuleStatus : Bool → ℕ → Type 0
IsRuleStatus true n = n < 500
IsRuleStatus false n = Unit

pub upstream-class :
    (status : Option ℕ)
    → map_domain_error_to_http_status (upstream_service_unavailable status)
      ≡ (if same_number status none || same_number status (some 0) then 503 else or_else status 503)
unfolding map_domain_error_to_http_status code_of details_status status_of_code upstream_status
upstream-class none = refl
upstream-class (some n) = ground arith

pub missing-class : (id : String) → map_domain_error_to_http_status (restaurant_not_found id) ≡ 404
unfolding map_domain_error_to_http_status code_of details_status status_of_code
missing-class id = refl

abbrev pub is_domain : Thrown → Bool
is_domain (threw (domain e)) = true
is_domain x = false

-- The answer `r` to `x`.
abbrev pub IsSafe : Bool → Thrown → ErrorResponse → Type 0
IsSafe production x r =
    (400 ≤ r.status)
    × (r.status < 600)
    × IsRuleStatus (is_rule x) r.status
    × (not production || is_domain x || not r.is_verbatim ≡ true)
