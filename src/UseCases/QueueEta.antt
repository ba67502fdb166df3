-- ===== src/UseCases/QueueEta.antt =====
-- src/application/use-cases/get-queue-eta.use-case.ts, and
-- src/application/use-cases/get-active-queue-by-user.use-case.ts: handlers that only read.
use spotq_queue_service.Base.{ℕ, String, ◌&&◌, Option, none, some, ◌==◌, if◌then◌else◌}
use spotq_queue_service.Errors.{QueueStatus}
use spotq_queue_service.Entity.{QueueEntry}
use spotq_queue_service.World.{TableAvailability, Env, Client}
use spotq_queue_service.Exec.{Exec, pure, ◌>>=◌, ◌>>◌, new_date}
use spotq_queue_service.Services.{get_restaurant_status, check_availability, predict_eta}
use spotq_queue_service.Repository.Queries.{
  get_active_queue_metrics, find_active_by_user_id_and_restaurant_id,
}
use spotq_queue_service.UseCases.Register.{validate_subscription, require_accepting}

pub record Output : Type 0 where
  pub restaurant_id : String
  pub party_size : ℕ
  pub estimated_wait_minutes : ℕ
  pub queue_depth : ℕ
  pub calculated_at : ℕ

pub record ActiveEntry : Type 0 where
  pub queue_entry_id : String
  pub restaurant_id : String
  pub user_id : Option String
  pub queue_number : String
  pub party_size : ℕ
  pub status : QueueStatus
  pub position : Option ℕ
  pub estimated_wait_minutes : Option ℕ
  pub joined_at : ℕ

-- The answer of `GetActiveQueueByUserUseCase`; `hasActiveQueue` is whether there is one.
unfoldable pub active_entry : Option QueueEntry → Option ActiveEntry
active_entry none = none
active_entry (some e) = some (record {
  queue_entry_id = e.id;
  restaurant_id = e.restaurant_id;
  user_id = e.user_id;
  queue_number = e.queue_number;
  party_size = e.party_size;
  status = e.status;
  position = e.position;
  estimated_wait_minutes = e.estimated_wait_minutes;
  joined_at = e.joined_at;
})

module _ (env : Env) (client : Client) where
  unfoldable pub get_active_queue : String → String → Exec (Option ActiveEntry)
  unfolding ◌>>=◌ active_entry
  get_active_queue restaurant_id user_id = do
    found ← find_active_by_user_id_and_restaurant_id env client restaurant_id user_id
    pure (active_entry found)

  answer : String → ℕ → ℕ → ℕ → Exec Output
  unfolding ◌>>=◌
  answer restaurant_id party_size eta depth = do
    now ← new_date env
    pure (record {
      restaurant_id = restaurant_id;
      party_size = party_size;
      estimated_wait_minutes = eta;
      queue_depth = depth;
      calculated_at = now;
    })

  predicted : String → ℕ → ℕ × ℕ → Exec Output
  unfolding ◌>>=◌ answer
  predicted restaurant_id party_size (depth, ahead) = do
    eta ← predict_eta env restaurant_id ahead party_size
    answer restaurant_id party_size eta depth

  estimate : String → ℕ → TableAvailability → ℕ × ℕ → Exec Output
  unfolding answer predicted
  estimate restaurant_id party_size t (depth, ahead) =
      if t.is_table_available && depth == 0
      then answer restaurant_id party_size 0 depth
      else predicted restaurant_id party_size (depth, ahead)

  unfoldable pub get_queue_eta : String → ℕ → Exec Output
  unfolding ◌>>=◌ estimate
  get_queue_eta restaurant_id party_size = do
    status ← get_restaurant_status env restaurant_id
    validate_subscription status
    tables ← check_availability env restaurant_id party_size
    require_accepting tables
    metrics ← get_active_queue_metrics env client restaurant_id
    estimate restaurant_id party_size tables metrics
