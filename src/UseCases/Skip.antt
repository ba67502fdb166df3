-- ===== src/UseCases/Skip.antt =====
-- src/application/use-cases/queue/skip-party.use-case.ts
pub mod Splice
pub mod Change
pub mod Effect
use Prim.Native.String.{◌++◌ as str_append}
use spotq_queue_service.Base.{
  ℕ, zero, suc, ◌+◌, ◌-◌, min, String, Option, none, some, List, [], ◌∷◌, length,
}
use spotq_queue_service.Errors.{QueueStatus, queue_entry_not_waiting}
use spotq_queue_service.Entity.{QueueEntry, is_waiting, skip, update_position}
use spotq_queue_service.Entity.Number.{print_nat}
use spotq_queue_service.World.{
  Emission, Audience, to_restaurant, to_ticket, queue_entry_skipped, Env, Client,
}
use spotq_queue_service.Exec.{Exec, pure, throw, lift, ◌>>=◌, ◌>>◌, new_date}
use spotq_queue_service.Services.{remove_live_entry, emit}
use spotq_queue_service.Repository.Queries.{find_active_entries}
use spotq_queue_service.Repository.Writes.{
  StatusChange, batch_update_positions, update_status_with_history,
}
use spotq_queue_service.Recalculator.{recalculate}
use spotq_queue_service.UseCases.Lookup.{require_entry}
use Splice.{find_index, target_index, shifted, renumber}

pub record Input : Type 0 where
  pub restaurant_id : String
  pub queue_entry_id : String
  pub staff_user_id : String
  pub reason : String
  pub skip_positions : Option ℕ

pub record Output : Type 0 where
  pub queue_entry_id : String
  pub restaurant_id : String
  pub status : QueueStatus
  pub reason : String
  pub position : Option ℕ

abbrev skipped_event : Audience → QueueEntry → Option ℕ → Emission
skipped_event audience e position = record {
  audience = audience;
  event = queue_entry_skipped;
  subject = some e.id;
  status = some e.status;
  position = position;
}

abbrev output_of : Input → QueueEntry → Option ℕ → Output
output_of input e position = record {
  queue_entry_id = e.id;
  restaurant_id = e.restaurant_id;
  status = e.status;
  reason = input.reason;
  position = position;
}

-- `${reason} (shifted by ${skipPositions} positions)`
unfoldable pub shift_reason : String → ℕ → String
unfolding print_nat
shift_reason reason n =
    str_append reason (str_append " (shifted by " (str_append (print_nat n) " positions)"))

abbrev pub change_of : Input → QueueEntry → String → QueueStatus → StatusChange
change_of input e reason previous_status = record {
  entry = e;
  previous_status = previous_status;
  changed_by = input.staff_user_id;
  reason = some reason;
  notes = none;
}

module _ (env : Env) (client : Client) where
  unfoldable pub emit_skipped : Input → QueueEntry → Option ℕ → Exec (Unit {0})
  unfolding ◌>>=◌
  emit_skipped input e position =
      emit env (skipped_event (to_restaurant input.restaurant_id) e position)
      >> emit env (skipped_event (to_ticket input.queue_entry_id) e position)

  -- What follows both writes: the positions of the others, the events and the answer.
  unfoldable pub announce : Input → QueueEntry → Option ℕ → Exec Output
  unfolding ◌>>=◌
  announce input e position = do
    recalculate env client input.restaurant_id
    emit_skipped input e position
    pure (output_of input e position)

  -- The entry at `current` goes `n` places down; all who wait are numbered anew.
  unfoldable pub shift : Input → QueueEntry → ℕ → List QueueEntry → ℕ → Exec Output
  unfolding ◌>>=◌ announce
  shift input e n active current = do
    let target = target_index current n (length active)
    now ← new_date env
    let e' = update_position now (target + 1) none e
    batch_update_positions env client (renumber 0 (shifted current target active))
    update_status_with_history env client
        (change_of input e' (shift_reason input.reason n) e.status)
    announce input e' (some (target + 1))

  -- The party leaves the queue as skipped.
  unfoldable pub skip_out : Input → QueueEntry → Exec Output
  unfolding ◌>>=◌ announce
  skip_out input e = do
    now ← new_date env
    e' ← lift (skip now e)
    persisted ← update_status_with_history env client (change_of input e' input.reason e.status)
    remove_live_entry env input.queue_entry_id
    announce input persisted none

  unfoldable pub shift_or_skip : Input → QueueEntry → ℕ → List QueueEntry → Option ℕ → Exec Output
  unfolding shift skip_out
  shift_or_skip input e n active none = skip_out input e
  shift_or_skip input e n active (some current) = shift input e n active current

  unfoldable pub dispatch : Input → QueueEntry → Option ℕ → Exec Output
  unfolding ◌>>=◌ shift_or_skip
  dispatch input e none = skip_out input e
  dispatch input e (some zero) = skip_out input e
  dispatch input e (some (suc n)) = do
    active ← find_active_entries env client input.restaurant_id
    shift_or_skip input e (suc n) active (find_index input.queue_entry_id active)

  unfoldable pub require_waiting : Input → QueueStatus → Exec (Unit {0})
  require_waiting input QueueStatus.waiting = pure tt
  require_waiting input status = throw (queue_entry_not_waiting input.queue_entry_id status)

  unfoldable pub execute : Input → Exec Output
  unfolding ◌>>=◌ require_waiting dispatch
  execute input = do
    e ← require_entry env client input.restaurant_id input.queue_entry_id
    require_waiting input e.status
    dispatch input e input.skip_positions
