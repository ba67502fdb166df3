-- ===== src/Recalculator.antt =====
-- src/infrastructure/services/queue-position-recalculator.service.ts: new positions and waiting
-- times for the parties that wait at a restaurant, in the order of the queue.
pub mod Keeps
pub mod Order
pub mod Settled
use spotq_queue_service.Base.{
  ℕ, ◌+◌, String, Bool, not, ◌||◌, Option, none, some, List, [], ◌∷◌, map, length, same_number,
  if◌then◌else◌,
}
use spotq_queue_service.Entity.{QueueEntry}
use spotq_queue_service.World.{to_restaurant, to_ticket, position_updated, Env, Client}
use spotq_queue_service.Exec.{Exec, pure, recover, ◌>>=◌, ◌>>◌}
use spotq_queue_service.Services.{save_live_entry, emit, predict_eta}
use spotq_queue_service.Repository.Queries.{find_active_entries}
use spotq_queue_service.Repository.Writes.{PositionUpdate, batch_update_positions}

pub record EntryInput : Type 0 where
  pub entry : QueueEntry
  pub new_position : ℕ
  pub people_ahead : ℕ

-- The `map` over the active entries; `i` and `running` are its index and `runningPeopleAhead`.
unfoldable pub entry_inputs : ℕ → ℕ → List QueueEntry → List EntryInput
entry_inputs i running [] = []
entry_inputs i running (e ∷ es) =
    record { entry = e; new_position = i + 1; people_ahead = running }
    ∷ entry_inputs (i + 1) (running + e.party_size) es

pub record PositionDelta : Type 0 where
  pub id : String
  pub old_position : Option ℕ
  pub new_position : ℕ
  pub old_eta : Option ℕ
  pub new_eta : ℕ
  pub party_size : ℕ

abbrev delta_of : EntryInput → ℕ → PositionDelta
delta_of x eta = record {
  id = x.entry.id;
  old_position = x.entry.position;
  new_position = x.new_position;
  old_eta = x.entry.estimated_wait_minutes;
  new_eta = eta;
  party_size = x.entry.party_size;
}

abbrev pub has_changed : EntryInput → ℕ → Bool
has_changed x eta =
    not (same_number x.entry.position (some x.new_position))
    || not (same_number x.entry.estimated_wait_minutes (some eta))

-- The loop that collects the deltas. The entries that it also updates are not read again.
unfoldable pub deltas : List EntryInput → List ℕ → List PositionDelta
deltas [] etas = []
deltas (x ∷ xs) [] = []
deltas (x ∷ xs) (eta ∷ etas) =
    let rest = deltas xs etas in if has_changed x eta then delta_of x eta ∷ rest else rest

abbrev pub update_of : PositionDelta → PositionUpdate
update_of d = record {
  id = d.id;
  position = some d.new_position;
  estimated_wait_minutes = some (some d.new_eta);
}

pub record Recalculation : Type 0 where
  pub affected_count : ℕ
  pub updated_entry_ids : List String

module _ (env : Env) (client : Client) where
  -- `Promise.all` over the predictions.
  unfoldable pub predict_all : String → List EntryInput → Exec (List ℕ)
  unfolding ◌>>=◌
  predict_all restaurant_id [] = pure []
  predict_all restaurant_id (x ∷ xs) = do
    eta ← predict_eta env restaurant_id x.people_ahead x.entry.party_size
    etas ← predict_all restaurant_id xs
    pure (eta ∷ etas)

  unfoldable pub cache_all : String → List PositionDelta → Exec (Unit {0})
  unfolding ◌>>=◌ recover
  cache_all restaurant_id [] = pure tt
  cache_all restaurant_id (d ∷ ds) =
      recover tt (save_live_entry env d.id restaurant_id d.new_position d.new_eta)
      >> cache_all restaurant_id ds

  unfoldable pub notify_all : List PositionDelta → Exec (Unit {0})
  unfolding ◌>>=◌ recover
  notify_all [] = pure tt
  notify_all (d ∷ ds) =
      recover tt (
        emit env (record {
          audience = to_ticket d.id;
          event = position_updated;
          subject = some d.id;
          status = none;
          position = some d.new_position;
        }))
      >> notify_all ds

  abbrev pub nothing_affected : Recalculation
  nothing_affected = record { affected_count = 0; updated_entry_ids = [] }

  -- From the first write on.
  unfoldable pub publish : String → List PositionDelta → Exec Recalculation
  unfolding cache_all notify_all ◌>>=◌ recover
  publish restaurant_id [] = pure nothing_affected
  publish restaurant_id (d ∷ ds) = do
    batch_update_positions env client (map update_of (d ∷ ds))
    cache_all restaurant_id (d ∷ ds)
    notify_all (d ∷ ds)
    recover tt (
        emit env (record {
          audience = to_restaurant restaurant_id;
          event = position_updated;
          subject = none;
          status = none;
          position = none;
        }))
    pure (record { affected_count = length (d ∷ ds); updated_entry_ids = map (λ x. x.id) (d ∷ ds) })

  unfoldable pub recalculate_entries : String → List QueueEntry → Exec Recalculation
  unfolding ◌>>=◌
  recalculate_entries restaurant_id [] = pure nothing_affected
  recalculate_entries restaurant_id (e ∷ es) = do
    let inputs = entry_inputs 0 0 (e ∷ es)
    etas ← predict_all restaurant_id inputs
    publish restaurant_id (deltas inputs etas)

  unfoldable pub recalculate : String → Exec Recalculation
  unfolding recalculate_entries ◌>>=◌
  recalculate restaurant_id = do
    active ← find_active_entries env client restaurant_id
    recalculate_entries restaurant_id active
