-- ===== src/UseCases/Lookup.antt =====
-- The first steps that the handlers of src/application/use-cases share: an entry by its id, refused
-- if it belongs to another restaurant, and a reading of the clock for each date.
pub mod Found
use spotq_queue_service.Base.{String, Option, none, some, str_eq, if◌then◌else◌}
use spotq_queue_service.Errors.{queue_entry_not_found}
use spotq_queue_service.Entity.{QueueEntry}
use spotq_queue_service.World.{Env, Client}
use spotq_queue_service.Exec.{Exec, pure, throw, ◌>>=◌}
use spotq_queue_service.Repository.Calls.{find_by_id}

-- `if (!queueEntry || queueEntry.restaurantId !== restaurantId) throw …`
unfoldable pub owned_by : String → String → Option QueueEntry → Exec QueueEntry
owned_by restaurant_id id none = throw (queue_entry_not_found id)
owned_by restaurant_id id (some e) =
    if str_eq e.restaurant_id restaurant_id then pure e else throw (queue_entry_not_found id)

module _ (env : Env) (client : Client) where
  unfoldable pub require_entry : String → String → Exec QueueEntry
  unfolding owned_by ◌>>=◌
  require_entry restaurant_id id = do
    found ← find_by_id env client id
    owned_by restaurant_id id found
