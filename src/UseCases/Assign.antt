-- ===== src/UseCases/Assign.antt =====
-- src/application/use-cases/assign-table.use-case.ts and src/application/mappers/assign-table.mapper.ts.
-- `publishToMlEta` is not awaited and its failure is logged, so it only adds the event.
pub mod Atomic
use spotq_queue_service.Base.{
  ℕ, String, Option, none, some, List, [], ◌∷◌, ◌++◌, map, ltb, or_else, sum_by, if◌then◌else◌,
}
use spotq_queue_service.Errors.{QueueStatus, insufficient_table_capacity, ok}
use spotq_queue_service.Entity.{QueueEntry, seat}
use spotq_queue_service.World.{
  Emission, Audience, to_restaurant, to_ticket, ticket_seated, assigned, TrainingEvent, Env, Client,
}
use spotq_queue_service.Exec.{Exec, pure, throw, lift, recover, ◌>>=◌, ◌>>◌, new_date}
use spotq_queue_service.Services.{remove_live_entry, emit, call_upstream}
use spotq_queue_service.Repository.Queries.{count_people_ahead_at_join}
use spotq_queue_service.Repository.Writes.{assign_tables_with_history}
use spotq_queue_service.UseCases.Lookup.{require_entry}

pub record Input : Type 0 where
  pub restaurant_id : String
  pub queue_entry_id : String
  pub staff_user_id : String
  pub tables : List (String × ℕ)

pub record Output : Type 0 where
  pub queue_entry_id : String
  pub restaurant_id : String
  pub table_ids : List String
  pub status : QueueStatus
  pub seated_at : ℕ

abbrev pub table_ids_of : Input → List String
table_ids_of input = map (λ t. t.0) input.tables

abbrev pub total_seats : List (String × ℕ) → ℕ
total_seats = sum_by (λ t. t.1)

abbrev seated_event : Audience → QueueEntry → Emission
seated_event audience e = record {
  audience = audience;
  event = ticket_seated;
  subject = some e.id;
  status = some e.status;
  position = none;
}

training_event : ℕ → QueueEntry → ℕ → TrainingEvent
training_event now e ahead = record {
  queue_entry_id = e.id;
  restaurant_id = e.restaurant_id;
  party_size = e.party_size;
  joined_at = e.joined_at;
  seated_at = or_else e.seated_at now;
  total_people_ahead_at_join = ahead;
}

module _ (env : Env) (client : Client) where
  unfoldable pub publish : TrainingEvent → Exec (Unit {0})
  publish event w = (ok tt, record w { published = w.published ++ event ∷ [] })

  unfoldable pub train : QueueEntry → Option ℕ → Exec (Unit {0})
  unfolding ◌>>=◌ training_event publish
  train e none = pure tt
  train e (some ahead) = do now ← new_date env; publish (training_event now e ahead)

  unfoldable pub require_capacity : QueueEntry → Input → Exec (Unit {0})
  require_capacity e input =
      if ltb (total_seats input.tables) e.party_size
      then throw (insufficient_table_capacity e.party_size (total_seats input.tables))
      else pure tt

  unfoldable pub some_count : Input → QueueEntry → Exec (Option ℕ)
  unfolding ◌>>=◌
  some_count input e = do
    ahead ← count_people_ahead_at_join env client input.restaurant_id e.joined_at
    pure (some ahead)

  unfoldable pub announce : Input → Option ℕ → QueueEntry → Exec Output
  unfolding ◌>>=◌ recover train
  announce input ahead persisted = do
    recover tt (remove_live_entry env input.queue_entry_id)
    recover tt (
        emit env (seated_event (to_restaurant input.restaurant_id) persisted)
        >> emit env (seated_event (to_ticket input.queue_entry_id) persisted))
    train persisted ahead
    now ← new_date env
    pure (record {
      queue_entry_id = persisted.id;
      restaurant_id = persisted.restaurant_id;
      table_ids = table_ids_of input;
      status = persisted.status;
      seated_at = or_else persisted.seated_at now;
    })

  unfoldable pub commit : Input → QueueStatus → QueueEntry → Exec QueueEntry
  unfolding ◌>>=◌
  commit input previous_status e = do
    call_upstream env (assigned input.restaurant_id input.tables)
    assign_tables_with_history env client e (table_ids_of input) input.staff_user_id previous_status

  unfoldable pub execute : Input → Exec Output
  unfolding ◌>>=◌ recover require_capacity some_count announce commit
  execute input = do
    e ← require_entry env client input.restaurant_id input.queue_entry_id
    require_capacity e input
    ahead ← recover none (some_count input e)
    now ← new_date env
    now' ← new_date env
    e' ← lift (seat now now' e)
    persisted ← commit input e.status e'
    announce input ahead persisted
