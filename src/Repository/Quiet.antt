-- ===== src/Repository/Quiet.antt =====
-- The calls of src/infrastructure/database/repositories that only read.
use spotq_queue_service.Base.{ℕ, ◌+◌, ◌≡◌, refl, String, Option, none, some}
use spotq_queue_service.Errors.{Failure, Result, ok, err}
use spotq_queue_service.World.{World, Tables, Env, Client}
use spotq_queue_service.Exec.{Exec}
use spotq_queue_service.Exec.Rules.{Quiet, Quiet-bind, Quiet-new_date}
use spotq_queue_service.Repository.Calls.{run, rethrow, answer, query, find_by_id}
use spotq_queue_service.Repository.Queries.{
  find_active_entries, count_people_ahead_at_join, get_registration_metrics, find_active_by_phone,
  find_active_by_user_id, find_active_table_assignments, metrics_of,
}

module _ {ℓ} {A : Type ℓ} where
  rethrow-tables : (r : Result A × World) → (rethrow r).1.tables ≡ r.1.tables
  rethrow-tables (ok a, w) = refl
  rethrow-tables (err x, w) = refl

  pub Quiet-run : {m : Exec A} → Quiet m → Quiet (run m)
  unfolding run
  Quiet-run {m} q = record { at = λ w. rw (rethrow-tables (m w)) (q.at w) }

  answer_query-tables :
      (env : Env) (client : Client) (fault : Option Failure) (w : World) (f : Tables → A)
      → (answer env client fault w (λ t. (ok (f t), t))).1.tables ≡ w.tables
  answer_query-tables env client none w f = refl
  answer_query-tables env client (some x) w f = refl

  pub Quiet-query : (env : Env) (client : Client) (f : Tables → A) → Quiet (query env client f)
  unfolding query
  Quiet-query env client f = record {
    at = λ w.
        answer_query-tables env client (env.database_fault w.calls)
          (record w { calls = w.calls + 1 }) f;
  }

module _ (env : Env) (client : Client) where
  pub Quiet-find_by_id : (id : String) → Quiet (find_by_id env client id)
  unfolding find_by_id
  Quiet-find_by_id id = Quiet-run (Quiet-query env client _)

  pub Quiet-find_active_entries : (id : String) → Quiet (find_active_entries env client id)
  unfolding find_active_entries
  Quiet-find_active_entries id = Quiet-run (Quiet-query env client _)

  pub Quiet-count_people_ahead_at_join :
      (id : String) (joined : ℕ) → Quiet (count_people_ahead_at_join env client id joined)
  unfolding count_people_ahead_at_join
  Quiet-count_people_ahead_at_join id joined = Quiet-run (Quiet-query env client _)

  pub Quiet-get_registration_metrics :
      (id : String) → Quiet (get_registration_metrics env client id)
  unfolding get_registration_metrics
  Quiet-get_registration_metrics id =
      Quiet-bind (Quiet-new_date env)
        λ now. Quiet-run (Quiet-query env client (metrics_of env client id (env.start_of_day now)))

  pub Quiet-find_active_by_phone :
      (id phone : String) → Quiet (find_active_by_phone env client id phone)
  unfolding find_active_by_phone
  Quiet-find_active_by_phone id phone = Quiet-run (Quiet-query env client _)

  pub Quiet-find_active_by_user_id : (id : String) → Quiet (find_active_by_user_id env client id)
  unfolding find_active_by_user_id
  Quiet-find_active_by_user_id id = Quiet-run (Quiet-query env client _)

  pub Quiet-find_active_table_assignments :
      (id : String) → Quiet (find_active_table_assignments env client id)
  unfolding find_active_table_assignments
  Quiet-find_active_table_assignments id = Quiet-run (Quiet-query env client _)
