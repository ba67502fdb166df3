-- ===== src/Repository/Queries.antt =====
-- The read operations of src/infrastructure/database/repositories/prisma-queue.repository.ts.
use spotq_queue_service.Base.{
  ℕ, String, Bool, true, false, not, ◌&&◌, Option, none, some, List, ltb, leb, ◌==◌, or_else,
  is_some, if◌then◌else◌, str_eq,
}
use spotq_queue_service.Errors.{QueueStatus, skipped, cancelled, no_show}
use spotq_queue_service.Entity.{QueueEntry, is_waiting}
use spotq_queue_service.World.{Tables, TableAssignment, Env, Client}
use spotq_queue_service.Exec.{Exec, ◌>>=◌, new_date}
use spotq_queue_service.Repository.Calls.{run, query}

-- `where: { restaurantId, status: WAITING }`
unfoldable pub waits_at : String → QueueEntry → Bool
waits_at restaurant_id r = str_eq r.restaurant_id restaurant_id && is_waiting r.status

unfoldable pub waits_with_phone : String → String → QueueEntry → Bool
waits_with_phone restaurant_id phone r =
    str_eq r.restaurant_id restaurant_id && str_eq r.phone phone && is_waiting r.status

abbrev pub same_text : Option String → String → Bool
same_text none s = false
same_text (some t) s = str_eq t s

unfoldable pub waits_as_user : String → QueueEntry → Bool
waits_as_user user_id r = same_text r.user_id user_id && is_waiting r.status

unfoldable pub waits_as_user_at : String → String → QueueEntry → Bool
unfolding waits_as_user
waits_as_user_at restaurant_id user_id r =
    str_eq r.restaurant_id restaurant_id && waits_as_user user_id r

unfoldable pub created_since : String → ℕ → QueueEntry → Bool
created_since restaurant_id start r = str_eq r.restaurant_id restaurant_id && leb start r.created_at

abbrev has_left : QueueStatus → Bool
has_left cancelled = true
has_left no_show = true
has_left skipped = true
has_left _ = false

abbrev later_than : ℕ → Option ℕ → Bool
later_than joined none = true
later_than joined (some t) = ltb joined t

-- Who was in the queue when a party joined.
unfoldable pub was_ahead : String → ℕ → QueueEntry → Bool
was_ahead restaurant_id joined r =
    str_eq r.restaurant_id restaurant_id
    && ltb r.joined_at joined
    && later_than joined r.seated_at
    && not (has_left r.status && leb r.updated_at joined)

abbrev any_order : QueueEntry → QueueEntry → Bool
any_order a b = true

-- An ascending column with nulls last.
abbrev le_position : Option ℕ → Option ℕ → Bool → Bool
le_position (some a) (some b) tie = if a == b then tie else ltb a b
le_position (some a) none tie = true
le_position none (some b) tie = false
le_position none none tie = tie

-- `orderBy: [{ position: 'asc' }, { joinedAt: 'asc' }]`
unfoldable pub by_position : QueueEntry → QueueEntry → Bool
by_position a b = le_position a.position b.position (leb a.joined_at b.joined_at)

-- `orderBy: { joinedAt: 'desc' }`
unfoldable pub latest_first : QueueEntry → QueueEntry → Bool
latest_first a b = leb b.joined_at a.joined_at

abbrev pub Metrics : Type 0
Metrics = record { queue_depth : ℕ; total_people_ahead : ℕ; count_today : ℕ }

module _ (env : Env) (client : Client) where
  unfoldable pub find_active_entries : String → Exec (List QueueEntry)
  unfolding run query
  find_active_entries restaurant_id =
      run (query env client (λ t. client.find_many (waits_at restaurant_id) by_position t.entries))

  unfoldable pub count_active_ahead : String → Exec ℕ
  unfolding run query
  count_active_ahead restaurant_id =
      run (query env client (λ t. client.count (waits_at restaurant_id) t.entries))

  unfoldable pub sum_party_size_active_ahead : String → Exec ℕ
  unfolding run query
  sum_party_size_active_ahead restaurant_id =
      run (
        query env client
          (λ t. or_else (client.sum_party_size (waits_at restaurant_id) t.entries) 0))

  unfoldable pub count_people_ahead_at_join : String → ℕ → Exec ℕ
  unfolding run query
  count_people_ahead_at_join restaurant_id joined = run (
      query env client
        (λ t. or_else (client.sum_party_size (was_ahead restaurant_id joined) t.entries) 0))

  -- `queueDepth` and `totalPeopleAhead`, from one aggregate.
  unfoldable pub get_active_queue_metrics : String → Exec (ℕ × ℕ)
  unfolding run query
  get_active_queue_metrics restaurant_id = run (
      query env client (λ t. (
        client.count (waits_at restaurant_id) t.entries,
        or_else (client.sum_party_size (waits_at restaurant_id) t.entries) 0,
      )))

  unfoldable pub metrics_of : String → ℕ → Tables → Metrics
  metrics_of restaurant_id start t = record {
    queue_depth = client.count (waits_at restaurant_id) t.entries;
    total_people_ahead = or_else (client.sum_party_size (waits_at restaurant_id) t.entries) 0;
    count_today = client.count (created_since restaurant_id start) t.entries;
  }

  unfoldable pub get_registration_metrics : String → Exec Metrics
  unfolding run query metrics_of ◌>>=◌
  get_registration_metrics restaurant_id = do
    now ← new_date env
    run (query env client (metrics_of restaurant_id (env.start_of_day now)))

  unfoldable pub count_today : String → Exec ℕ
  unfolding run query ◌>>=◌
  count_today restaurant_id = do
    now ← new_date env
    run (
        query env client
          (λ t. client.count (created_since restaurant_id (env.start_of_day now)) t.entries))

  unfoldable pub find_active_by_phone : String → String → Exec (Option QueueEntry)
  unfolding run query
  find_active_by_phone restaurant_id phone = run (
      query env client
        (λ t. client.find_first (waits_with_phone restaurant_id phone) any_order t.entries))

  unfoldable pub find_active_by_user_id : String → Exec (Option QueueEntry)
  unfolding run query
  find_active_by_user_id user_id =
      run (query env client (λ t. client.find_first (waits_as_user user_id) latest_first t.entries))

  unfoldable pub find_active_by_user_id_and_restaurant_id :
      String → String → Exec (Option QueueEntry)
  unfolding run query
  find_active_by_user_id_and_restaurant_id restaurant_id user_id = run (
      query env client
        (λ t. client.find_first (waits_as_user_at restaurant_id user_id) latest_first t.entries))

  -- `where: { queueEntryId, releasedAt: null }`
  unfoldable pub find_active_table_assignments : String → Exec (List TableAssignment)
  unfolding run query
  find_active_table_assignments id = run (
      query env client (λ t.
        client.find_assignments (λ a. str_eq a.queue_entry_id id && not (is_some a.released_at))
          t.assignments))
