-- ===== src/World.antt =====
-- What the handlers act on: the tables of prisma/schema.prisma, the commands to Redis, the events
-- sent over WebSocket, the jobs and messages that are queued, and the table calls made to the
-- restaurant service. What stands outside this repository is a parameter, `Env` and `Client`.
use spotq_queue_service.Base.{ℕ, String, Bool, Option, List}
use spotq_queue_service.Errors.{QueueStatus, Failure, Result}
use spotq_queue_service.Entity.{QueueEntry}

pub record TableAssignment : Type 0 where
  pub queue_entry_id : String
  pub table_id : String
  pub assigned_by : String
  pub assigned_at : ℕ
  pub released_at : Option ℕ

pub record StatusHistory : Type 0 where
  pub queue_entry_id : String
  pub previous_status : Option QueueStatus
  pub current_status : QueueStatus
  pub changed_by : Option String
  pub reason : Option String
  pub notes : Option String

pub record Tables : Type 0 where
  pub entries : List QueueEntry
  pub assignments : List TableAssignment
  pub history : List StatusHistory

-- A state of an entry in Redis; `updatedAt` is kept as a date, and its ISO text is part of the JSON.
pub record LiveState : Type 0 where
  pub queue_entry_id : String
  pub restaurant_id : String
  pub position : ℕ
  pub current_eta : ℕ
  pub updated_at : ℕ

-- What Redis was asked to do: `set(key, text, 'EX', seconds)` and `del(key)`. A write has the number
-- of its call, at which `redis_time` is the time of the server.
pub data RedisCommand : Type 0 where
  set_ex : (key text : String) (seconds call : ℕ) → RedisCommand
  del : String → RedisCommand

pub record RestaurantStatus : Type 0 where
  pub restaurant_id : String
  pub is_blocked : Bool
  pub block_reason : Option String
  pub is_subscription_active : Bool
  pub subscription_plan_code : Option String

pub record TableAvailability : Type 0 where
  pub is_open : Bool
  pub accepts_queue : Bool
  pub is_table_available : Bool
  pub available_count : ℕ

-- The rooms that an event goes to: the staff of a restaurant, or the holder of a ticket.
pub data Audience : Type 0 where
  to_restaurant to_ticket : String → Audience

pub data Event : Type 0 where
  queue_entry_created queue_entry_seated queue_entry_skipped queue_entry_cancelled : Event
  queue_entry_no_show position_updated ticket_called ticket_seated : Event

-- An event with its audience, the entry that it is about, and that entry's status or new position.
pub record Emission : Type 0 where
  pub audience : Audience
  pub event : Event
  pub subject : Option String
  pub status : Option QueueStatus
  pub position : Option ℕ

pub data UpstreamCall : Type 0 where
  assigned released : String → List (String × ℕ) → UpstreamCall

pub record TrainingEvent : Type 0 where
  pub queue_entry_id : String
  pub restaurant_id : String
  pub party_size : ℕ
  pub joined_at : ℕ
  pub seated_at : ℕ
  pub total_people_ahead_at_join : ℕ

pub record World : Type 0 where
  pub calls : ℕ
  pub tables : Tables
  pub open tables use *
  pub redis : List RedisCommand
  pub emitted : List Emission
  pub upstream : List UpstreamCall
  pub jobs : List (String × String)
  pub published : List TrainingEvent

-- The k-th answer of each service outside the repository: the clock, `crypto.randomUUID`, whether
-- the database, Redis, Socket.IO and BullMQ fail and the socket server runs, the restaurant service behind its port, the ETA
-- service behind its port, and the case mapping of the runtime.
pub record Env : Type 0 where
  pub now : ℕ → ℕ
  pub uuid : ℕ → String
  pub start_of_day : ℕ → ℕ
  pub database_fault : ℕ → Option Failure
  pub redis_fault : ℕ → Bool
  -- The time of the Redis server in milliseconds, and its answer to `get` after the commands so far.
  pub redis_time : ℕ → ℕ
  pub redis_get : List RedisCommand → ℕ → String → Option String
  -- `JSON.stringify` and `JSON.parse` of a live state; `none` is a text that does not parse.
  pub stringify : LiveState → String
  pub parse : String → Option LiveState
  pub socket_active : ℕ → Bool
  pub emit_fault : ℕ → Option Failure
  pub job_fault : ℕ → Option Failure
  pub restaurant_status : ℕ → String → Result RestaurantStatus
  pub check_availability : ℕ → String → ℕ → Result TableAvailability
  pub table_call : ℕ → Option Failure
  pub predict_eta : ℕ → String → ℕ → ℕ → Result ℕ
  pub to_upper : String → String
  pub to_lower : String → String

-- The operations of the database client on the three tables. `none` is "no such row" of `update`
-- and `delete` and a taken id of `create`; `rollback` has the tables before and at the end of a failed transaction.
pub record Client : Type 0 where
  pub find_unique : String → List QueueEntry → Option QueueEntry
  pub find_first :
      (QueueEntry → Bool) → (QueueEntry → QueueEntry → Bool) → List QueueEntry → Option QueueEntry
  pub find_many :
      (QueueEntry → Bool) → (QueueEntry → QueueEntry → Bool) → List QueueEntry → List QueueEntry
  -- `findMany` with `skip` and `take`.
  pub find_page :
      (QueueEntry → Bool)
      → (QueueEntry → QueueEntry → Bool)
      → ℕ
      → ℕ
      → List QueueEntry
      → List QueueEntry
  pub count : (QueueEntry → Bool) → List QueueEntry → ℕ
  pub sum_party_size : (QueueEntry → Bool) → List QueueEntry → Option ℕ
  pub create : QueueEntry → List QueueEntry → Option (List QueueEntry)
  pub update : String → (QueueEntry → QueueEntry) → List QueueEntry → Option (List QueueEntry)
  pub delete : String → List QueueEntry → Option (List QueueEntry)
  pub create_history : StatusHistory → List StatusHistory → List StatusHistory
  pub create_assignments : List TableAssignment → List TableAssignment → List TableAssignment
  pub find_assignments : (TableAssignment → Bool) → List TableAssignment → List TableAssignment
  pub update_assignments :
      (TableAssignment → Bool)
      → (TableAssignment → TableAssignment)
      → List TableAssignment
      → List TableAssignment
  pub rollback : Tables → Tables → Tables
