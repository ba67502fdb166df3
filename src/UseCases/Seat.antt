-- ===== src/UseCases/Seat.antt =====
-- src/application/use-cases/queue/seat-party.use-case.ts
pub mod Atomic
pub mod Progress
use spotq_queue_service.Base.{ℕ, String, none, some, List, or_else}
use spotq_queue_service.Errors.{QueueStatus}
use spotq_queue_service.Entity.{QueueEntry, seat}
use spotq_queue_service.World.{
  Emission, Audience, to_restaurant, to_ticket, queue_entry_seated, assigned, Env, Client,
}
use spotq_queue_service.Exec.{Exec, pure, lift, ◌>>=◌, ◌>>◌, new_date}
use spotq_queue_service.Services.{remove_live_entry, emit, call_upstream}
use spotq_queue_service.Repository.Writes.{assign_tables_with_history}
use spotq_queue_service.Recalculator.{recalculate}
use spotq_queue_service.UseCases.Lookup.{require_entry}
use spotq_queue_service.UseCases.Occupancy.{assignment_payload}

pub record Input : Type 0 where
  pub restaurant_id : String
  pub queue_entry_id : String
  pub staff_user_id : String
  pub table_ids : List String

pub record Output : Type 0 where
  pub queue_entry_id : String
  pub restaurant_id : String
  pub status : QueueStatus
  pub table_ids : List String
  pub seated_at : ℕ

abbrev seated_event : Audience → QueueEntry → Emission
seated_event audience e = record {
  audience = audience;
  event = queue_entry_seated;
  subject = some e.id;
  status = some e.status;
  position = none;
}

module _ (env : Env) (client : Client) where
  -- From the commit on: the cache, the positions of the others, and the events.
  unfoldable pub announce : Input → QueueEntry → Exec Output
  unfolding ◌>>=◌
  announce input persisted = do
    remove_live_entry env input.queue_entry_id
    recalculate env client input.restaurant_id
    now ← new_date env
    emit env (seated_event (to_restaurant input.restaurant_id) persisted)
    emit env (seated_event (to_ticket input.queue_entry_id) persisted)
    pure (record {
      queue_entry_id = persisted.id;
      restaurant_id = persisted.restaurant_id;
      status = persisted.status;
      table_ids = input.table_ids;
      seated_at = or_else persisted.seated_at now;
    })

  -- From the mutated entity on: the restaurant service, then the database.
  unfoldable pub commit : Input → QueueStatus → QueueEntry → Exec QueueEntry
  unfolding ◌>>=◌
  commit input previous_status e = do
    call_upstream env
        (assigned input.restaurant_id (assignment_payload e.party_size input.table_ids))
    assign_tables_with_history env client e input.table_ids input.staff_user_id previous_status

  unfoldable pub execute : Input → Exec Output
  unfolding ◌>>=◌ announce commit
  execute input = do
    e ← require_entry env client input.restaurant_id input.queue_entry_id
    now ← new_date env
    now' ← new_date env
    e' ← lift (seat now now' e)
    persisted ← commit input e.status e'
    announce input persisted
