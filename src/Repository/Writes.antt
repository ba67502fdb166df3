-- ===== src/Repository/Writes.antt =====
-- The transactions of src/infrastructure/database/repositories/prisma-queue.repository.ts. A text in
-- a condition (`persistenceData.userId`) counts if it is there and not empty.
use spotq_queue_service.Base.{
  ℕ, String, Bool, true, not, ◌&&◌, Option, none, some, List, [], ◌∷◌, map, or_else, is_some,
  is_truthy, str_eq, if◌then◌else◌,
}
use spotq_queue_service.Errors.{
  QueueStatus, active_user_queue_entry_exists, active_queue_entry_exists, ok,
}
use spotq_queue_service.Entity.{QueueEntry}
use spotq_queue_service.World.{Tables, TableAssignment, StatusHistory, Env, Client}
use spotq_queue_service.Exec.{Exec, pure, throw, ◌>>=◌, ◌>>◌, new_date}
use spotq_queue_service.Repository.Calls.{run, call_db, query, transaction, update_row, create_row}
use spotq_queue_service.Repository.Queries.{waits_with_phone, waits_as_user}

pub record StatusChange : Type 0 where
  pub entry : QueueEntry
  pub previous_status : QueueStatus
  pub changed_by : String
  pub reason : Option String
  pub notes : Option String

pub record PositionUpdate : Type 0 where
  pub id : String
  pub position : Option ℕ
  pub estimated_wait_minutes : Option (Option ℕ)

abbrev pub moved : ℕ → PositionUpdate → QueueEntry → QueueEntry
moved now u r = record r {
  position = u.position;
  estimated_wait_minutes = or_else u.estimated_wait_minutes r.estimated_wait_minutes;
  updated_at = now;
}

module _ (env : Env) (client : Client) where
  unfoldable pub add_history : StatusHistory → Exec (Unit {0})
  unfolding call_db
  add_history h =
      call_db env client (λ t. (ok tt, record t { history = client.create_history h t.history }))

  abbrev pub reject_user : Option QueueEntry → Exec (Unit {0})
  reject_user none = pure tt
  reject_user (some e) = throw active_user_queue_entry_exists

  abbrev pub reject_phone : String → Option QueueEntry → Exec (Unit {0})
  reject_phone phone none = pure tt
  reject_phone phone (some e) = throw (active_queue_entry_exists phone)

  abbrev pub same_any : QueueEntry → QueueEntry → Bool
  same_any a b = true

  unfoldable pub check_user : Option String → Exec (Unit {0})
  unfolding query ◌>>=◌
  check_user none = pure tt
  check_user (some user_id) =
      if is_truthy (some user_id)
      then (do
        found ← query env client (λ t. client.find_first (waits_as_user user_id) same_any t.entries)
        reject_user found)
      else pure tt

  unfoldable pub check_phone : String → String → Exec (Unit {0})
  unfolding query ◌>>=◌
  check_phone restaurant_id phone = do
    found ←
        query env client
          (λ t. client.find_first (waits_with_phone restaurant_id phone) same_any t.entries)
    reject_phone phone found

  unfoldable pub created_record : QueueEntry → Option String → StatusHistory
  created_record e changed_by = record {
    queue_entry_id = e.id;
    previous_status = none;
    current_status = e.status;
    changed_by = changed_by;
    reason = none;
    notes = none;
  }

  unfoldable pub create_with_history : QueueEntry → Option String → Exec QueueEntry
  unfolding run transaction create_row add_history created_record ◌>>=◌
  create_with_history e changed_by = run (
      transaction env client (do
        check_user e.user_id
        check_phone e.restaurant_id e.phone
        create_row env client e
        add_history (created_record e changed_by)
        pure e))

  unfoldable pub new_assignment : QueueEntry → String → ℕ → String → TableAssignment
  new_assignment e assigned_by now table_id = record {
    queue_entry_id = e.id;
    table_id = table_id;
    assigned_by = assigned_by;
    assigned_at = or_else e.seated_at now;
    released_at = none;
  }

  unfoldable pub add_assignments : List TableAssignment → Exec (Unit {0})
  unfolding call_db
  add_assignments rows =
      call_db env client
        (λ t. (ok tt, record t { assignments = client.create_assignments rows t.assignments }))

  unfoldable pub assigned_record : QueueEntry → String → QueueStatus → StatusHistory
  assigned_record e assigned_by previous_status = record {
    queue_entry_id = e.id;
    previous_status = some previous_status;
    current_status = e.status;
    changed_by = some assigned_by;
    reason = none;
    notes = none;
  }

  unfoldable pub assign_tables_with_history :
      QueueEntry → List String → String → QueueStatus → Exec QueueEntry
  unfolding run transaction update_row add_history new_assignment assigned_record ◌>>=◌
  assign_tables_with_history e table_ids assigned_by previous_status = run (
      transaction env client (do
        now ← new_date env
        add_assignments (map (new_assignment e assigned_by now) table_ids)
        update_row env client e.id (λ _. e)
        add_history (assigned_record e assigned_by previous_status)
        pure e))

  unfoldable pub changed_record : StatusChange → StatusHistory
  changed_record p = record {
    queue_entry_id = p.entry.id;
    previous_status = some p.previous_status;
    current_status = p.entry.status;
    changed_by = some p.changed_by;
    reason = p.reason;
    notes = p.notes;
  }

  unfoldable pub update_status_with_history : StatusChange → Exec QueueEntry
  unfolding run transaction update_row add_history changed_record ◌>>=◌
  update_status_with_history p = run (
      transaction env client (do
        update_row env client p.entry.id (λ _. p.entry)
        add_history (changed_record p)
        pure p.entry))

  unfoldable pub released : String → ℕ → Tables → Tables
  released id now t = record t {
    assignments =
        client.update_assignments (λ a. str_eq a.queue_entry_id id && not (is_some a.released_at))
          (λ a. record a { released_at = some now }) t.assignments;
  }

  unfoldable pub release_table_assignments : String → Exec (Unit {0})
  unfolding run call_db released ◌>>=◌
  release_table_assignments id =
      run (do now ← new_date env; call_db env client (λ t. (ok tt, released id now t)))

  -- The updates of one batch, in order; the row's `updatedAt` is set by the client (`@updatedAt`).
  unfoldable pub move_rows : ℕ → List PositionUpdate → Exec (Unit {0})
  unfolding update_row ◌>>=◌
  move_rows now [] = pure tt
  move_rows now (u ∷ us) = update_row env client u.id (moved now u) >> move_rows now us

  unfoldable pub batch_update_positions : List PositionUpdate → Exec (Unit {0})
  unfolding run transaction move_rows ◌>>=◌
  batch_update_positions [] = pure tt
  batch_update_positions (u ∷ us) =
      run (transaction env client (do now ← new_date env; move_rows now (u ∷ us)))
