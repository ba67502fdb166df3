-- ===== src/Recalculator/Settled/Whole.antt =====
-- What src/infrastructure/services/queue-position-recalculator.service.ts as a whole leaves in the
-- rows of the queue.
use spotq_queue_service.Base.{ℕ, ◌≡◌, String, List, map, length}
use spotq_queue_service.Entity.{QueueEntry}
use spotq_queue_service.World.{World, Tables, Env, Client}
use spotq_queue_service.Repository.Laws.{Lawful}
use spotq_queue_service.Repository.Queries.{waits_at, by_position}
use spotq_queue_service.Recalculator.{PositionDelta, update_of}
use spotq_queue_service.Recalculator.Settled.{applied, IsSettled}

module _ (env : Env) {client : Client} (lawful : Lawful client) (s : Tables) where
  -- The tables after the updates for some changes.
  abbrev IsUpdated : List PositionDelta → Tables → Type 0
  IsUpdated ds t = (now : ℕ) × (t ≡ record s { entries = applied now (map update_of ds) s.entries })

  -- The entries have their places and waits, each with a prediction of its own.
  abbrev pub AreSettled : List QueueEntry → Tables → Type 0
  AreSettled es t = (etas : List ℕ) × (length etas ≡ length es) × IsSettled 0 es etas t.entries

-- The queue of a restaurant, as the database gives it.
abbrev pub queue_at : Client → String → Tables → List QueueEntry
queue_at client id s = client.find_many (waits_at id) by_position s.entries
