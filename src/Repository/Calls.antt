-- ===== src/Repository/Calls.antt =====
-- `run`, `translateError`, `findById` and `save` of
-- src/infrastructure/database/repositories/prisma-base.repository.ts.
use Prim.Native.String.{◌++◌ as str_append}
use spotq_queue_service.Base.{◌+◌, String, Option, none, some, List}
use spotq_queue_service.Errors.{
  Failure, persistence, known_request, initialization, other_error, Result, ok, err,
}
use spotq_queue_service.Entity.{QueueEntry}
use spotq_queue_service.World.{World, Tables, Env, Client}
use spotq_queue_service.Exec.{Exec}

-- A factory of `PrismaErrorMap`, which may throw itself.
abbrev pub ErrorMap : Type 0
ErrorMap = String → Option (Result Failure)

abbrev pub no_error_map : ErrorMap
no_error_map code = none

abbrev from_factory : String → Option (Result Failure) → Failure
from_factory code none = persistence (str_append "PRISMA_" code)
from_factory code (some (ok x)) = x
from_factory code (some (err x)) = persistence "PERSISTENCE_ERROR"

-- `methodErrorMap?.[code] ?? this.errorMap[code]`
abbrev pick_factory : Option (Result Failure) → Option (Result Failure) → Option (Result Failure)
pick_factory none f = f
pick_factory (some g) f = some g

unfoldable pub translate_error : ErrorMap → ErrorMap → Failure → Failure
translate_error method_map error_map (known_request code) =
    from_factory code (pick_factory (method_map code) (error_map code))
translate_error method_map error_map initialization = persistence "PERSISTENCE_ERROR"
translate_error method_map error_map other_error = persistence "PERSISTENCE_ERROR"
translate_error method_map error_map x = x

abbrev pub rethrow {ℓ} : {A : Type ℓ} → Result A × World → Result A × World
rethrow (ok a, w) = (ok a, w)
rethrow (err x, w) = (err (translate_error no_error_map no_error_map x), w)

-- `this.run(operation)`; no repository passes an error map.
unfoldable pub run {ℓ} : {A : Type ℓ} → Exec A → Exec A
unfolding translate_error
run m w = rethrow (m w)

module _ (env : Env) (client : Client) where
  -- One call of the database client, which fails, or reads and writes the tables.
  abbrev pub answer {ℓ} :
      {A : Type ℓ} → Option Failure → World → (Tables → Result A × Tables) → Result A × World
  answer (some x) w f = (err x, w)
  answer none w f = let (r, t) = f w.tables in (r, record w { tables = t })

  unfoldable pub call_db {ℓ} : {A : Type ℓ} → (Tables → Result A × Tables) → Exec A
  call_db f w = answer (env.database_fault w.calls) (record w { calls = w.calls + 1 }) f

  unfoldable pub query {ℓ} : {A : Type ℓ} → (Tables → A) → Exec A
  unfolding call_db
  query f = call_db (λ t. (ok (f t), t))

  abbrev pub settled {ℓ} : {A : Type ℓ} → Tables → Result A × World → Result A × World
  settled start (ok a, w) = (ok a, w)
  settled start (err x, w) = (err x, record w { tables = client.rollback start w.tables })

  -- `$transaction`: what throws inside rolls the tables back.
  unfoldable pub transaction {ℓ} : {A : Type ℓ} → Exec A → Exec A
  transaction m w = settled w.tables (m w)

  -- `findById`
  unfoldable pub find_by_id : String → Exec (Option QueueEntry)
  unfolding run query
  find_by_id id = run (query (λ t. client.find_unique id t.entries))

  abbrev pub written : Tables → Option (List QueueEntry) → Failure → Result (Unit {0}) × Tables
  written t none x = (err x, t)
  written t (some rows) x = (ok tt, record t { entries = rows })

  -- A row written by `update`; an id that is not there is the client's error P2025.
  unfoldable pub update_row : String → (QueueEntry → QueueEntry) → Exec (Unit {0})
  unfolding call_db
  update_row id g = call_db (λ t. written t (client.update id g t.entries) (known_request "P2025"))

  -- A row written by `create`; a taken id is the client's error P2002.
  unfoldable pub create_row : QueueEntry → Exec (Unit {0})
  unfolding call_db
  create_row e = call_db (λ t. written t (client.create e t.entries) (known_request "P2002"))

  abbrev pub upserted : QueueEntry → QueueEntry → QueueEntry
  upserted e r = record e { id = r.id; created_at = r.created_at }

  abbrev pub upsert : Tables → QueueEntry → Option (List QueueEntry) → Result (Unit {0}) × Tables
  upsert t e none = written t (client.create e t.entries) (known_request "P2002")
  upsert t e (some rows) = (ok tt, record t { entries = rows })

  -- `save`: an update of all fields but the id and the creation date, or else a creation.
  unfoldable pub save : QueueEntry → Exec (Unit {0})
  unfolding run call_db
  save e = run (call_db (λ t. upsert t e (client.update e.id (upserted e) t.entries)))
