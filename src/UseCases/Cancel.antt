-- ===== src/UseCases/Cancel.antt =====
-- src/application/use-cases/queue/cancel-queue-entry.use-case.ts
pub mod Release
pub mod Effect
use spotq_queue_service.Base.{
  ℕ, String, Bool, true, false, Option, none, some, List, [], ◌∷◌, or_else, trim, str_eq,
}
use spotq_queue_service.Errors.{QueueStatus}
use spotq_queue_service.Entity.{QueueEntry, CancelTarget, as_cancelled, as_no_show, cancel}
use spotq_queue_service.World.{
  TableAssignment, Emission, Audience, to_restaurant, to_ticket, Event, queue_entry_cancelled,
  queue_entry_no_show, released, Env, Client,
}
use spotq_queue_service.Exec.{Exec, pure, lift, ◌>>=◌, ◌>>◌, new_date}
use spotq_queue_service.Services.{remove_live_entry, emit, call_upstream}
use spotq_queue_service.Repository.Queries.{find_active_table_assignments}
use spotq_queue_service.Repository.Writes.{release_table_assignments, update_status_with_history}
use spotq_queue_service.Recalculator.{recalculate}
use spotq_queue_service.UseCases.Lookup.{require_entry}
use spotq_queue_service.UseCases.Occupancy.{release_payload}

pub record Input : Type 0 where
  pub restaurant_id : String
  pub queue_entry_id : String
  pub staff_user_id : String
  pub reason : String
  pub notes : Option String

pub record Output : Type 0 where
  pub queue_entry_id : String
  pub restaurant_id : String
  pub status : QueueStatus
  pub reason : String
  pub notes : Option String
  pub cancelled_at : ℕ

-- `reason.trim().toUpperCase() === 'NO_SHOW'`, over the runtime's case mapping.
unfoldable pub is_no_show : (String → String) → String → Bool
is_no_show to_upper reason = str_eq (to_upper (trim reason)) "NO_SHOW"

abbrev pub target : Bool → CancelTarget
target true = as_no_show
target false = as_cancelled

abbrev cancelled_event : Audience → Event → QueueEntry → Emission
cancelled_event audience event e = record {
  audience = audience;
  event = event;
  subject = some e.id;
  status = some e.status;
  position = none;
}

module _ (env : Env) (client : Client) where
  -- The tables that the party still holds go back to the restaurant, if there are any.
  unfoldable pub release_held : Input → QueueEntry → List TableAssignment → Exec (Unit {0})
  unfolding ◌>>=◌
  release_held input e [] = pure tt
  release_held input e (a ∷ active) =
      call_upstream env (released input.restaurant_id (release_payload e.party_size (a ∷ active)))
      >> release_table_assignments env client input.queue_entry_id

  abbrev event_of : Bool → Event
  event_of true = queue_entry_no_show
  event_of false = queue_entry_cancelled

  unfoldable pub notify_no_show : Input → QueueEntry → Bool → Exec (Unit {0})
  notify_no_show input e false = pure tt
  notify_no_show input e true =
      emit env (cancelled_event (to_ticket input.queue_entry_id) queue_entry_cancelled e)

  unfoldable pub announce : Input → Bool → QueueEntry → Exec Output
  unfolding ◌>>=◌ notify_no_show
  announce input no_show persisted = do
    remove_live_entry env input.queue_entry_id
    recalculate env client input.restaurant_id
    now ← new_date env
    emit env (cancelled_event (to_restaurant input.restaurant_id) (event_of no_show) persisted)
    emit env (cancelled_event (to_ticket input.queue_entry_id) (event_of no_show) persisted)
    notify_no_show input persisted no_show
    pure (record {
      queue_entry_id = persisted.id;
      restaurant_id = persisted.restaurant_id;
      status = persisted.status;
      reason = input.reason;
      notes = input.notes;
      cancelled_at = or_else persisted.cancelled_at now;
    })

  -- From the mutated entity on: the tables that are held, then the status and its history.
  unfoldable pub commit : Input → QueueStatus → QueueEntry → Exec QueueEntry
  unfolding ◌>>=◌ release_held
  commit input previous_status e = do
    active ← find_active_table_assignments env client input.queue_entry_id
    release_held input e active
    update_status_with_history env client (record {
      entry = e;
      previous_status = previous_status;
      changed_by = input.staff_user_id;
      reason = some input.reason;
      notes = input.notes;
    })

  unfoldable pub execute : Input → Exec Output
  unfolding ◌>>=◌ announce commit
  execute input = do
    e ← require_entry env client input.restaurant_id input.queue_entry_id
    now ← new_date env
    now' ← new_date env
    e' ← lift (cancel now now' (target (is_no_show env.to_upper input.reason)) e)
    persisted ← commit input e.status e'
    announce input (is_no_show env.to_upper input.reason) persisted
