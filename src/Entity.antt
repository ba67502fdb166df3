-- ===== src/Entity.antt =====
-- src/domain/entities/queue-entry.entity.ts. A method that mutates the entity returns the new
-- record, and `err` where it throws before it writes. A date is a number of milliseconds, and each
-- `new Date()` of a method is an argument. `null` and `undefined` are both `none`.
pub mod Number
pub mod Lifecycle
pub mod Outcomes
use spotq_queue_service.Base.{
  ℕ, ◌+◌, ◌-◌, ◌*◌, ◌/◌, String, Bool, true, false, Option, none, some, ltb, or_else, if◌then◌else◌,
  trim, or_null,
}
use spotq_queue_service.Errors.{
  QueueStatus, waiting, seated, skipped, cancelled, no_show, RegistrationType, online, walk_in,
  queue_entry_not_waiting, cannot_ring_walk_in_customer, domain, Result, ok, err,
}

pub record QueueEntry : Type 0 where
  pub id : String
  pub restaurant_id : String
  pub user_id : Option String
  pub guest_name : String
  pub phone : String
  pub queue_number : String
  pub party_size : ℕ
  pub special_notes : Option String
  pub registration_type : RegistrationType
  pub position : Option ℕ
  pub estimated_wait_minutes : Option ℕ
  pub estimated_wait_minutes_at_join : Option ℕ
  pub status : QueueStatus
  pub ring_count : ℕ
  pub last_ringed_at : Option ℕ
  pub fid : Option String
  pub joined_at : ℕ
  pub seated_at : Option ℕ
  pub cancelled_at : Option ℕ
  pub created_at : ℕ
  pub updated_at : ℕ

pub record CreateProps : Type 0 where
  pub id : Option String
  pub restaurant_id : String
  pub user_id : Option String
  pub guest_name : String
  pub phone : String
  pub queue_number : String
  pub party_size : ℕ
  pub special_notes : Option String
  pub registration_type : Option RegistrationType
  pub position : ℕ
  pub estimated_wait_minutes : ℕ
  pub fid : Option String

abbrev pub is_waiting : QueueStatus → Bool
is_waiting waiting = true
is_waiting _ = false

abbrev pub is_walk_in : RegistrationType → Bool
is_walk_in walk_in = true
is_walk_in online = false

trimmed_notes : Option String → Option String
trimmed_notes none = none
trimmed_notes (some s) = or_null (trim s)

-- `uuid` is the value of `crypto.randomUUID()`.
unfoldable pub create : String → ℕ → CreateProps → QueueEntry
unfolding trimmed_notes
create uuid now props = record {
  id = or_else props.id uuid;
  restaurant_id = props.restaurant_id;
  user_id = props.user_id;
  guest_name = trim props.guest_name;
  phone = trim props.phone;
  queue_number = props.queue_number;
  party_size = props.party_size;
  special_notes = trimmed_notes props.special_notes;
  registration_type = or_else props.registration_type walk_in;
  position = some props.position;
  estimated_wait_minutes = some props.estimated_wait_minutes;
  estimated_wait_minutes_at_join = some props.estimated_wait_minutes;
  status = waiting;
  ring_count = 0;
  last_ringed_at = none;
  fid = props.fid;
  joined_at = now;
  seated_at = none;
  cancelled_at = none;
  created_at = now;
  updated_at = now;
}

unfoldable pub create_walk_in : String → ℕ → CreateProps → QueueEntry
unfolding create
create_walk_in uuid now props =
    create uuid now (record props { user_id = none; registration_type = some walk_in; fid = none })

unfoldable pub seat : ℕ → ℕ → QueueEntry → Result QueueEntry
seat now now' e =
    if is_waiting e.status
    then ok (record e { status = seated; seated_at = some now; position = none; updated_at = now' })
    else err (domain (queue_entry_not_waiting e.id e.status))

unfoldable pub skip : ℕ → QueueEntry → Result QueueEntry
skip now e =
    if is_waiting e.status
    then ok (record e { status = skipped; position = none; updated_at = now })
    else err (domain (queue_entry_not_waiting e.id e.status))

-- The two statuses that `cancel` accepts.
pub data CancelTarget : Type 0 where
  as_cancelled as_no_show : CancelTarget

abbrev pub target_status : CancelTarget → QueueStatus
target_status as_cancelled = cancelled
target_status as_no_show = no_show

unfoldable pub cancel : ℕ → ℕ → CancelTarget → QueueEntry → Result QueueEntry
cancel now now' target e =
    if is_waiting e.status
    then ok (record e {
      status = target_status target;
      cancelled_at = some now;
      position = none;
      updated_at = now';
    })
    else err (domain (queue_entry_not_waiting e.id e.status))

-- `newEta` may be left out (`none`), or be `null` (`some none`).
unfoldable pub update_position : ℕ → ℕ → Option (Option ℕ) → QueueEntry → QueueEntry
update_position now new_position new_eta e =
    if is_waiting e.status
    then record e {
      position = some new_position;
      estimated_wait_minutes = or_else new_eta e.estimated_wait_minutes;
      updated_at = now;
    }
    else e

unfoldable pub ring : ℕ → ℕ → QueueEntry → Result QueueEntry
ring now now' e =
    if is_waiting e.status
    then if is_walk_in e.registration_type
      then err (domain (cannot_ring_walk_in_customer e.id))
      else ok
          (record e { ring_count = e.ring_count + 1; last_ringed_at = some now; updated_at = now' })
    else err (domain (queue_entry_not_waiting e.id e.status))

abbrev pub ms_per_minute : ℕ
ms_per_minute = 60 * 1000

abbrev pub default_response_timeout_ms : ℕ
default_response_timeout_ms = 120 * 1000

end_time : ℕ → QueueStatus → QueueEntry → ℕ
end_time reference seated e = or_else e.seated_at e.updated_at
end_time reference waiting e = reference
end_time reference _ e = e.updated_at

-- `Math.max(0, Math.floor(…))`: a negative difference floors to a negative number, so to 0.
unfoldable pub calculate_wait_duration_minutes : ℕ → QueueEntry → ℕ
unfolding end_time
calculate_wait_duration_minutes reference e =
    let finish = end_time reference e.status e in
    if ltb finish e.joined_at then 0 else (finish - e.joined_at) / ms_per_minute

unfoldable pub calculate_response_deadline : ℕ → QueueEntry → Option ℕ
calculate_response_deadline timeout_ms e = elim e.last_ringed_at [
  | none ↦ none
  | some rung ↦ some (rung + timeout_ms)
]
