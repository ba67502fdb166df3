-- ===== src/Services/Quiet.antt =====
-- The calls of the services beside the repository, and the tables.
use spotq_queue_service.Base.{
  [], ◌∷◌, ◌++◌, Bool, true, false, if◌then◌else◌, ℕ, ◌≡◌, refl, String, Option, none, some, arith,
}
use spotq_queue_service.Errors.{ok, Failure}
use spotq_queue_service.World.{World, RedisCommand, set_ex, del, Emission, UpstreamCall, Env}
use spotq_queue_service.Exec.Rules.{
  Quiet, Quiet-bind, Quiet-tick, Quiet-lift, Quiet-recover, Quiet-new_date,
}
use spotq_queue_service.Services.{
  settle, counted, get_key, ttl_seconds, redis_write, save_live_entry, remove_live_entry, emit,
  call_upstream, get_restaurant_status, check_availability, predict_eta,
}

pub settle-tables :
    (fault : Option Failure) (before done : World)
    → done.tables ≡ before.tables
    → (settle fault before done).1.tables ≡ before.tables
settle-tables none before done e = e
settle-tables (some x) before done e = refl

module _ (env : Env) where
  pub Quiet-emit : (e : Emission) → Quiet (emit env e)
  unfolding emit
  Quiet-emit e = record { at = λ w. either w (env.socket_active w.calls) }
    where
      either :
          (w : World) (b : Bool)
          → (if b
              then settle
                  (env.emit_fault w.calls)
                  (counted w)
                  (record (counted w) { emitted = w.emitted ++ e ∷ [] })
              else (ok tt, counted w)).1.tables
            ≡ w.tables
      either w true = settle-tables (env.emit_fault w.calls) _ _ refl
      either w false = refl

  pub Quiet-call_upstream : (c : UpstreamCall) → Quiet (call_upstream env c)
  unfolding call_upstream
  Quiet-call_upstream c = record { at = λ w. settle-tables (env.table_call w.calls) _ _ refl }

  Quiet-redis_write : (command : ℕ → RedisCommand) → Quiet (redis_write env command)
  unfolding redis_write
  Quiet-redis_write command = record { at = λ w. ground arith }

  pub Quiet-save_live_entry :
      (id restaurant_id : String) (position eta : ℕ)
      → Quiet (save_live_entry env id restaurant_id position eta)
  unfolding save_live_entry
  Quiet-save_live_entry id restaurant_id position eta = Quiet-recover tt (
      Quiet-bind (Quiet-new_date env) λ now. Quiet-redis_write (
        set_ex (get_key id)
          (env.stringify (record {
            queue_entry_id = id;
            restaurant_id = restaurant_id;
            position = position;
            current_eta = eta;
            updated_at = now;
          }))
          ttl_seconds))

  pub Quiet-remove_live_entry : (id : String) → Quiet (remove_live_entry env id)
  unfolding remove_live_entry
  Quiet-remove_live_entry id = Quiet-recover tt (Quiet-redis_write (λ k. del (get_key id)))

  pub Quiet-get_restaurant_status : (id : String) → Quiet (get_restaurant_status env id)
  unfolding get_restaurant_status
  Quiet-get_restaurant_status id = Quiet-bind Quiet-tick λ k. Quiet-lift _

  pub Quiet-check_availability : (id : String) (n : ℕ) → Quiet (check_availability env id n)
  unfolding check_availability
  Quiet-check_availability id n = Quiet-bind Quiet-tick λ k. Quiet-lift _

  pub Quiet-predict_eta : (id : String) (m n : ℕ) → Quiet (predict_eta env id m n)
  unfolding predict_eta
  Quiet-predict_eta id m n = Quiet-bind Quiet-tick λ k. Quiet-lift _
