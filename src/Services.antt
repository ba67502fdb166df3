-- ===== src/Services.antt =====
-- The services that the handlers call beside the repository:
-- src/infrastructure/redis/redis-queue-cache.service.ts, the broadcaster of
-- src/infrastructure/websocket/socket-broadcaster.ts, and the ports of the restaurant and the ETA
-- service. Redis and JSON are outside: commands are kept as a list, and `Env` has the answers.
pub mod Quiet
pub mod Cached
use Prim.Native.String.{◌++◌ as str_append}
use spotq_queue_service.Base.{
  ℕ, ◌+◌, String, Option, none, some, List, [], ◌∷◌, ◌++◌, is_truthy, if◌then◌else◌,
}
use spotq_queue_service.Errors.{Failure, other_error, Result, ok, err}
use spotq_queue_service.World.{
  World, LiveState, RedisCommand, set_ex, del, RestaurantStatus, TableAvailability, Emission,
  UpstreamCall, Env,
}
use spotq_queue_service.Exec.{Exec, tick, lift, pure, raise, recover, new_date, ◌>>=◌}

-- An effect on the world that fails, or is done.
abbrev pub settle : Option Failure → World → World → Result (Unit {0}) × World
settle (some x) before done = (err x, before)
settle none before done = (ok tt, done)

abbrev pub counted : World → World
counted w = record w { calls = w.calls + 1 }

abbrev pub ttl_seconds : ℕ
ttl_seconds = 86400

-- `getKey`
unfoldable pub get_key : String → String
get_key id = str_append "queue:live:" id

module _ (env : Env) where
  -- A command to Redis, and `get`; each may fail.
  unfoldable pub redis_write : (ℕ → RedisCommand) → Exec (Unit {0})
  redis_write command w =
      if env.redis_fault w.calls
      then (err other_error, counted w)
      else (ok tt, record (counted w) { redis = w.redis ++ command w.calls ∷ [] })

  unfoldable pub redis_read : String → Exec (Option String)
  redis_read key w =
      if env.redis_fault w.calls
      then (err other_error, counted w)
      else (ok (env.redis_get w.redis w.calls key), counted w)

  -- `saveLiveEntry`: a failure is logged and not thrown.
  unfoldable pub save_live_entry :
      (id restaurant_id : String) (position current_eta : ℕ) → Exec (Unit {0})
  unfolding ◌>>=◌ recover new_date redis_write get_key
  save_live_entry id restaurant_id position current_eta = recover tt (do
    now ← new_date env
    redis_write (
        set_ex (get_key id)
          (env.stringify (record {
            queue_entry_id = id;
            restaurant_id = restaurant_id;
            position = position;
            current_eta = current_eta;
            updated_at = now;
          }))
          ttl_seconds))

  -- `JSON.parse`, which throws.
  abbrev pub parsed : Option LiveState → Exec (Option LiveState)
  parsed none = raise other_error
  parsed (some s) = pure (some s)

  abbrev pub read_raw : Option String → Exec (Option LiveState)
  read_raw none = pure none
  read_raw (some raw) = if is_truthy (some raw) then parsed (env.parse raw) else pure none

  -- `getLiveEntry`: a failure is logged, and reads as no entry.
  unfoldable pub get_live_entry : String → Exec (Option LiveState)
  unfolding ◌>>=◌ recover redis_read get_key
  get_live_entry id = recover none (do raw ← redis_read (get_key id); read_raw raw)

  -- `removeLiveEntry`: a failure is logged here too.
  unfoldable pub remove_live_entry : String → Exec (Unit {0})
  unfolding recover redis_write get_key
  remove_live_entry id = recover tt (redis_write (λ k. del (get_key id)))

  -- `broadcastToRestaurant` and `sendToTicket`: without a server nothing is sent.
  unfoldable pub emit : Emission → Exec (Unit {0})
  emit e w =
      if env.socket_active w.calls
      then settle (env.emit_fault w.calls) (counted w)
          (record (counted w) { emitted = w.emitted ++ e ∷ [] })
      else (ok tt, counted w)

  -- `assignTables` and `releaseTables` of the restaurant service.
  unfoldable pub call_upstream : UpstreamCall → Exec (Unit {0})
  call_upstream c w =
      settle (env.table_call w.calls) (counted w)
        (record (counted w) { upstream = w.upstream ++ c ∷ [] })

  unfoldable pub get_restaurant_status : String → Exec RestaurantStatus
  unfolding ◌>>=◌
  get_restaurant_status id = do k ← tick; lift (env.restaurant_status k id)

  unfoldable pub check_availability : String → ℕ → Exec TableAvailability
  unfolding ◌>>=◌
  check_availability id party_size = do k ← tick; lift (env.check_availability k id party_size)

  unfoldable pub predict_eta : String → ℕ → ℕ → Exec ℕ
  unfolding ◌>>=◌
  predict_eta id people_ahead party_size = do
    k ← tick
    lift (env.predict_eta k id people_ahead party_size)
