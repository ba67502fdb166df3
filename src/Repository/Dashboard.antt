-- ===== src/Repository/Dashboard.antt =====
-- `getStaffQueueSnapshot` of src/infrastructure/database/repositories/prisma-queue.repository.ts. The
-- order of ids is the database's collation, a parameter.
use spotq_queue_service.Base.{
  ℕ, String, Bool, true, false, not, ◌&&◌, Option, none, some, List, [], ◌∷◌, map, ltb, leb, ◌==◌,
  is_some, str_eq, if◌then◌else◌,
}
use spotq_queue_service.Errors.{QueueStatus, waiting, seated, skipped, cancelled, no_show}
use spotq_queue_service.Entity.{QueueEntry}
use spotq_queue_service.World.{Tables, TableAssignment, Env, Client}
use spotq_queue_service.Exec.{Exec}
use spotq_queue_service.Repository.Calls.{run, query}
use spotq_queue_service.Repository.Queries.{waits_at}

-- `StaffQueueQueryFilters`
pub record Filters : Type 0 where
  pub status : QueueStatus
  pub min_party_size : Option ℕ
  pub max_party_size : Option ℕ

pub record SnapshotItem : Type 0 where
  pub entry : QueueEntry
  pub assigned_table_id : Option String

pub record Snapshot : Type 0 where
  pub total_waiting : ℕ
  pub items : List SnapshotItem

abbrev pub same_status : QueueStatus → QueueStatus → Bool
same_status waiting waiting = true
same_status seated seated = true
same_status skipped skipped = true
same_status cancelled cancelled = true
same_status no_show no_show = true
same_status _ _ = false

-- `gte` and `lte`, where the bound is given.
abbrev pub at_least : Option ℕ → ℕ → Bool
at_least none n = true
at_least (some low) n = leb low n

abbrev pub at_most : Option ℕ → ℕ → Bool
at_most none n = true
at_most (some high) n = leb n high

unfoldable pub is_listed : String → Filters → QueueEntry → Bool
is_listed restaurant_id f r =
    str_eq r.restaurant_id restaurant_id
    && same_status r.status f.status
    && at_least f.min_party_size r.party_size
    && at_most f.max_party_size r.party_size

-- `orderBy: [{ joinedAt: 'asc' }, { id: 'asc' }]`
unfoldable pub by_joined : (String → String → Bool) → QueueEntry → QueueEntry → Bool
by_joined id_le a b =
    if a.joined_at == b.joined_at then id_le a.id b.id else ltb a.joined_at b.joined_at

-- The later of two assignments; `take: 1` of those ordered by `assignedAt`, descending.
abbrev pub later : TableAssignment → Option TableAssignment → TableAssignment
later a none = a
later a (some b) = if ltb a.assigned_at b.assigned_at then b else a

unfoldable pub latest : List TableAssignment → Option TableAssignment
latest [] = none
latest (a ∷ rest) = some (later a (latest rest))

abbrev pub table_of : Option TableAssignment → Option String
table_of none = none
table_of (some a) = some a.table_id

abbrev pub is_held_by : String → TableAssignment → Bool
is_held_by id a = str_eq a.queue_entry_id id && not (is_some a.released_at)

module _ (client : Client) (id_le : String → String → Bool) where
  unfoldable pub item_of : List TableAssignment → QueueEntry → SnapshotItem
  unfolding latest
  item_of assignments r = record {
    entry = r;
    assigned_table_id = table_of (latest (client.find_assignments (is_held_by r.id) assignments));
  }

  unfoldable pub snapshot_of : String → Filters → Tables → Snapshot
  unfolding waits_at is_listed by_joined item_of
  snapshot_of restaurant_id f t = record {
    total_waiting = client.count (waits_at restaurant_id) t.entries;
    items =
        map (item_of t.assignments)
          (client.find_many (is_listed restaurant_id f) (by_joined id_le) t.entries);
  }

  -- The count and the search are one transaction.
  unfoldable pub get_staff_queue_snapshot : Env → String → Filters → Exec Snapshot
  unfolding run query snapshot_of
  get_staff_queue_snapshot env restaurant_id f =
      run (query env client (snapshot_of restaurant_id f))
