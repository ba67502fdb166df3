-- ===== src/UseCases/Register.antt =====
-- src/application/use-cases/register-queue.use-case.ts, with
-- src/application/helpers/restaurant-validation.helper.ts and the mapper of its output.
pub mod Atomic
use spotq_queue_service.Base.{
  ℕ, ◌+◌, String, not, ◌&&◌, ◌||◌, Option, none, some, or_else, is_truthy, if◌then◌else◌,
}
use spotq_queue_service.Errors.{
  QueueStatus, RegistrationType, online, walk_in, tables_available, restaurant_not_accepting,
  active_queue_entry_exists, active_user_queue_entry_exists, restaurant_blocked,
  subscription_required,
}
use spotq_queue_service.Entity.{QueueEntry, CreateProps, create}
use spotq_queue_service.Entity.Number.{generate_queue_number}
use spotq_queue_service.World.{
  RestaurantStatus, TableAvailability, to_restaurant, queue_entry_created, Env, Client,
}
use spotq_queue_service.Exec.{Exec, pure, throw, recover, tick, ◌>>=◌, ◌>>◌, new_date}
use spotq_queue_service.Services.{
  save_live_entry, emit, get_restaurant_status, check_availability, predict_eta,
}
use spotq_queue_service.Repository.Queries.{
  Metrics, same_text, find_active_by_phone, find_active_by_user_id, get_registration_metrics,
}
use spotq_queue_service.Repository.Writes.{create_with_history}

pub record Input : Type 0 where
  pub restaurant_id : String
  pub user_id : Option String
  pub staff_user_id : Option String
  pub guest_name : String
  pub guest_phone : String
  pub party_size : ℕ
  pub special_notes : Option String
  pub fid : Option String
  pub registration_type : Option RegistrationType

pub record Output : Type 0 where
  pub queue_entry_id : String
  pub restaurant_id : String
  pub user_id : Option String
  pub guest_name : String
  pub guest_phone : String
  pub queue_number : String
  pub party_size : ℕ
  pub special_notes : Option String
  pub registration_type : RegistrationType
  pub position : ℕ
  pub estimated_wait_minutes : ℕ
  pub status : QueueStatus
  pub joined_at : ℕ

unfoldable pub to_output : QueueEntry → Output
to_output e = record {
  queue_entry_id = e.id;
  restaurant_id = e.restaurant_id;
  user_id = e.user_id;
  guest_name = e.guest_name;
  guest_phone = e.phone;
  queue_number = e.queue_number;
  party_size = e.party_size;
  special_notes = e.special_notes;
  registration_type = e.registration_type;
  position = or_else e.position 0;
  estimated_wait_minutes = or_else e.estimated_wait_minutes 0;
  status = e.status;
  joined_at = e.joined_at;
}

-- `validateRestaurantActiveSubscription`
unfoldable pub validate_subscription : RestaurantStatus → Exec (Unit {0})
validate_subscription s =
    if s.is_blocked
    then throw (restaurant_blocked s.restaurant_id s.block_reason)
    else if not s.is_subscription_active || not (same_text s.subscription_plan_code "QUEUE_PRO")
    then throw (subscription_required s.restaurant_id s.subscription_plan_code)
    else pure tt

unfoldable pub require_accepting : TableAvailability → Exec (Unit {0})
require_accepting t =
    if not t.is_open || not t.accepts_queue then throw restaurant_not_accepting else pure tt

unfoldable pub require_full : TableAvailability → Exec (Unit {0})
require_full t =
    if t.is_table_available then throw (tables_available t.available_count) else pure tt

-- `a || b`
abbrev truthy_or : Option String → String → String
truthy_or a b = if is_truthy a then or_else a b else b

unfoldable pub changed_by : Input → String
changed_by input = truthy_or input.staff_user_id (truthy_or input.user_id "system")

unfoldable pub resolved_type : Input → RegistrationType
resolved_type input =
    or_else input.registration_type
      (if is_truthy input.user_id && not (is_truthy input.staff_user_id) then online else walk_in)

unfoldable pub props_of : Input → Metrics → ℕ → CreateProps
unfolding resolved_type
props_of input metrics eta = record {
  id = none;
  restaurant_id = input.restaurant_id;
  user_id = input.user_id;
  guest_name = input.guest_name;
  phone = input.guest_phone;
  queue_number = generate_queue_number (resolved_type input) (metrics.count_today + 1);
  party_size = input.party_size;
  special_notes = input.special_notes;
  registration_type = some (resolved_type input);
  position = metrics.queue_depth + 1;
  estimated_wait_minutes = eta;
  fid = input.fid;
}

unfoldable pub reject_phone : String → Option QueueEntry → Exec (Unit {0})
reject_phone phone none = pure tt
reject_phone phone (some e) = throw (active_queue_entry_exists phone)

unfoldable pub reject_user : Option QueueEntry → Exec (Unit {0})
reject_user none = pure tt
reject_user (some e) = throw active_user_queue_entry_exists

module _ (env : Env) (client : Client) where
  unfoldable pub active_user : Option String → Exec (Option QueueEntry)
  active_user none = pure none
  active_user (some user_id) =
      if is_truthy (some user_id) then find_active_by_user_id env client user_id else pure none

  -- The checks before anything is written.
  unfoldable pub check : Input → Exec (Unit {0})
  unfolding ◌>>=◌ validate_subscription require_accepting require_full active_user reject_phone
      reject_user
  check input = do
    status ← get_restaurant_status env input.restaurant_id
    validate_subscription status
    tables ← check_availability env input.restaurant_id input.party_size
    require_accepting tables
    require_full tables
    by_phone ← find_active_by_phone env client input.restaurant_id input.guest_phone
    by_user ← active_user input.user_id
    reject_phone input.guest_phone by_phone
    reject_user by_user

  unfoldable pub announce : Input → ℕ → ℕ → QueueEntry → Exec Output
  unfolding ◌>>=◌ recover to_output
  announce input position eta persisted = do
    recover tt (save_live_entry env persisted.id input.restaurant_id position eta)
    recover tt (
        emit env (record {
          audience = to_restaurant input.restaurant_id;
          event = queue_entry_created;
          subject = some persisted.id;
          status = some persisted.status;
          position = persisted.position;
        }))
    pure (to_output persisted)

  unfoldable pub execute : Input → Exec Output
  unfolding ◌>>=◌ check announce
  execute input = do
    check input
    metrics ← get_registration_metrics env client input.restaurant_id
    eta ← predict_eta env input.restaurant_id metrics.total_people_ahead input.party_size
    k ← tick
    now ← new_date env
    let e = create (env.uuid k) now (props_of input metrics eta)
    persisted ← create_with_history env client e (some (changed_by input))
    announce input (metrics.queue_depth + 1) eta persisted
