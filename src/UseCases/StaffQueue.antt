-- ===== src/UseCases/StaffQueue.antt =====
-- src/application/use-cases/get-staff-queue.use-case.ts, and
-- src/application/use-cases/internal/get-customer-queue-status.use-case.ts: handlers that only read.
-- Dates stay numbers where the answer has them as text.
pub mod Lines
pub mod Customer
use spotq_queue_service.Base.{
  ℕ, ◌+◌, String, Bool, Option, none, some, List, [], ◌∷◌, or_else, if◌then◌else◌,
}
use spotq_queue_service.Errors.{QueueStatus, waiting, RegistrationType}
use spotq_queue_service.Entity.{
  QueueEntry, is_waiting, calculate_wait_duration_minutes, calculate_response_deadline,
  default_response_timeout_ms,
}
use spotq_queue_service.World.{Env, Client}
use spotq_queue_service.Exec.{Exec, pure, ◌>>=◌, new_date}
use spotq_queue_service.Repository.Queries.{find_active_by_user_id}
use spotq_queue_service.Repository.Dashboard.{
  Filters, SnapshotItem, Snapshot, get_staff_queue_snapshot,
}

pub data PartySizeBucket : Type 0 where
  all_sizes small medium large : PartySizeBucket

-- `PARTY_SIZE_RANGE_MAP`, the least and the greatest party of a bucket; no bucket has no bounds.
unfoldable pub party_size_range : Option PartySizeBucket → Option ℕ × Option ℕ
party_size_range none = (none, none)
party_size_range (some all_sizes) = (none, none)
party_size_range (some small) = (some 1, some 2)
party_size_range (some medium) = (some 3, some 4)
party_size_range (some large) = (some 5, none)

pub record Input : Type 0 where
  pub restaurant_id : String
  pub status : Option QueueStatus
  pub party_size_bucket : Option PartySizeBucket

pub record LiveEntry : Type 0 where
  pub queue_entry_id : String
  pub queue_number : String
  pub position : Option ℕ
  pub guest_name : String
  pub guest_phone : String
  pub party_size : ℕ
  pub special_notes : Option String
  pub registration_type : RegistrationType
  pub status : QueueStatus
  pub assigned_table_id : Option String
  pub joined_at : ℕ
  pub ring_count : ℕ
  pub last_ring_at : Option ℕ
  pub response_deadline : Option ℕ
  pub wait_duration_minutes : ℕ

pub record Output : Type 0 where
  pub restaurant_id : String
  pub total_waiting : ℕ
  pub entries : List LiveEntry

unfoldable pub live_entry : ℕ → Option ℕ → SnapshotItem → LiveEntry
unfolding calculate_response_deadline calculate_wait_duration_minutes
live_entry now position item =
    let e = item.entry in
    record {
      queue_entry_id = e.id;
      queue_number = e.queue_number;
      position = position;
      guest_name = e.guest_name;
      guest_phone = e.phone;
      party_size = e.party_size;
      special_notes = e.special_notes;
      registration_type = e.registration_type;
      status = e.status;
      assigned_table_id = item.assigned_table_id;
      joined_at = e.joined_at;
      ring_count = e.ring_count;
      last_ring_at = e.last_ringed_at;
      response_deadline = calculate_response_deadline default_response_timeout_ms e;
      wait_duration_minutes = calculate_wait_duration_minutes now e;
    }

-- `mapToLiveQueueEntries`, from the next position in the line on.
unfoldable pub map_to_live_queue_entries : ℕ → List SnapshotItem → ℕ → List LiveEntry
unfolding live_entry
map_to_live_queue_entries next [] now = []
map_to_live_queue_entries next (item ∷ rest) now =
    let is_in_line = is_waiting item.entry.status in
    live_entry now (if is_in_line then some next else none) item
    ∷ map_to_live_queue_entries (if is_in_line then next + 1 else next) rest now

abbrev pub filters_of : Input → Filters
filters_of input = record {
  status = or_else input.status waiting;
  min_party_size = (party_size_range input.party_size_bucket).0;
  max_party_size = (party_size_range input.party_size_bucket).1;
}

pub record CustomerStatus : Type 0 where
  pub restaurant_id : String
  pub queue_entry_id : String

unfoldable pub customer_status : Option QueueEntry → Option CustomerStatus
customer_status none = none
customer_status (some e) =
    if is_waiting e.status
    then some (record { restaurant_id = e.restaurant_id; queue_entry_id = e.id })
    else none

module _ (env : Env) (client : Client) where
  unfoldable pub get_staff_queue : (String → String → Bool) → Input → Exec Output
  unfolding ◌>>=◌ map_to_live_queue_entries party_size_range
  get_staff_queue id_le input = do
    snapshot ← get_staff_queue_snapshot client id_le env input.restaurant_id (filters_of input)
    now ← new_date env
    pure (record {
      restaurant_id = input.restaurant_id;
      total_waiting = snapshot.total_waiting;
      entries = map_to_live_queue_entries 1 snapshot.items now;
    })

  unfoldable pub get_customer_queue_status : String → Exec (Option CustomerStatus)
  unfolding ◌>>=◌ customer_status
  get_customer_queue_status user_id = do
    found ← find_active_by_user_id env client user_id
    pure (customer_status found)
