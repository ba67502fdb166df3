-- ===== src/UseCases/Seat/Progress.antt =====
-- The writes of src/application/use-cases/queue/seat-party.use-case.ts where the services outside
-- have no faults.
use spotq_queue_service.Base.{ℕ, ◌≡◌, refl, true, none, arith}
use spotq_queue_service.Errors.{QueueStatus}
use spotq_queue_service.Entity.{QueueEntry}
use spotq_queue_service.World.{World, Tables, UpstreamCall, Env, Client}
use spotq_queue_service.Exec.Rules.{Post, Ensures, Ensures-bind}
use spotq_queue_service.Services.{call_upstream}
use spotq_queue_service.Repository.Laws.{Lawful, has_id}
use spotq_queue_service.Repository.Atomic.{assigned_tables, assign_tables_with_history-Ensures}
use spotq_queue_service.UseCases.Seat.{Input, commit}

abbrev pub Nowhere : Tables → Type 0
Nowhere t = ⊥

call_upstream-Ensures :
    {P E : Tables → Type 0} (env : Env) (c : UpstreamCall)
    → ((k : ℕ) → env.table_call k ≡ none)
    → Ensures P (call_upstream env c) (λ _. P) E
unfolding call_upstream
call_upstream-Ensures env c up = record { at = λ w p. rw (up w.calls) p }

-- If neither the database nor the restaurant service fails and the row of the entry is there, the
-- writes of the handler return the entry, with its row, its assignments and its history written.
pub commit_succeeds :
    (env : Env) {client : Client} (lawful : Lawful client) (input : Input) (previous : QueueStatus)
    (e : QueueEntry) (w : World)
    → ((k : ℕ) → env.database_fault k ≡ none)
    → ((k : ℕ) → env.table_call k ≡ none)
    → has_id e.id w.tables.entries ≡ true
    → Post
        (λ a t.
          (a ≡ e)
          × ((n : ℕ) × (t
                ≡ assigned_tables env client e input.table_ids input.staff_user_id previous n
                    w.tables)))
        Nowhere
        (commit env client input previous e w)
unfolding commit
commit_succeeds env lawful input previous e w db up there =
    (Ensures-bind (call_upstream-Ensures env _ up) λ _.
        assign_tables_with_history-Ensures env lawful w.tables (λ k x h. ground (arith, h, db k)) e
          _ _ _ (λ h. ground (arith, h, there))).at
      w refl
