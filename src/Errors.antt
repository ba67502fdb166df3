-- ===== src/Errors.antt =====
-- src/domain/errors/queue.errors.ts, src/infrastructure/errors/persistence.error.ts and the enums of
-- src/domain/enums/queue.enums.ts. A class of errors is a constructor that holds what the class
-- keeps in `details`; the message texts are left out.
use spotq_queue_service.Base.{ℕ, String, Option}

pub data QueueStatus : Type 0 where
  waiting seated skipped cancelled no_show : QueueStatus

pub data RegistrationType : Type 0 where
  online walk_in : RegistrationType

pub data DomainError : Type 0 where
  tables_available : ℕ → DomainError
  restaurant_not_accepting : DomainError
  active_queue_entry_exists : String → DomainError
  active_user_queue_entry_exists : DomainError
  queue_entry_not_found : String → DomainError
  unauthorized_staff_access : DomainError
  invalid_party_size : DomainError
  restaurant_blocked : String → Option String → DomainError
  subscription_required : String → Option String → DomainError
  restaurant_not_found : String → DomainError
  upstream_service_unavailable : Option ℕ → DomainError
  queue_entry_not_waiting : String → QueueStatus → DomainError
  insufficient_table_capacity : ℕ → ℕ → DomainError
  cannot_ring_walk_in_customer : String → DomainError
  unauthorized : DomainError

-- What a call may throw: an error of the domain, of the database layer with its code, the runtime's
-- own, or one of the database client's, which `translateError` turns into the others.
pub data Failure : Type 0 where
  domain : DomainError → Failure
  persistence : String → Failure
  type_error reference_error range_error : Failure
  known_request : String → Failure
  initialization : Failure
  other_error : Failure

pub data Result {ℓ} (A : Type ℓ) : Type ℓ where
  ok : A → Result A
  err : Failure → Result A
