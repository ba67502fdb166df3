-- ===== src/Repository/Atomic.antt =====
-- The transactions of src/infrastructure/database/repositories/prisma-queue.repository.ts on the
-- tables.
use spotq_queue_service.Base.{
  ℕ, ◌≡◌, refl, Bool, true, false, none, some, List, [], ◌∷◌, ◌++◌, map, String, if◌then◌else◌,
}
use spotq_queue_service.Errors.{QueueStatus, Failure, known_request}
use spotq_queue_service.Entity.{QueueEntry}
use spotq_queue_service.World.{Tables, StatusHistory, TableAssignment, Env, Client}
use spotq_queue_service.Exec.Rules.{Ensures, Ensures-bind, Ensures-return, Ensures-new_date}
use spotq_queue_service.Repository.Calls.{update_row, written}
use spotq_queue_service.Repository.Writes.{
  StatusChange, add_history, add_assignments, new_assignment, assigned_record, changed_record,
  assign_tables_with_history, update_status_with_history,
}
use spotq_queue_service.Repository.Laws.{Lawful, has_id, replace}
use spotq_queue_service.Repository.Rules.{Answer, Ensures-run, Ensures-call_db, Ensures-transaction}

abbrev pub with_row : QueueEntry → Tables → Tables
with_row e t = record t { entries = replace e.id (λ _. e) t.entries }

abbrev pub with_history : StatusHistory → Tables → Tables
with_history h t = record t { history = t.history ++ h ∷ [] }

abbrev pub with_assignments : List TableAssignment → Tables → Tables
with_assignments new t = record t { assignments = t.assignments ++ new }

-- The tables after `assignTablesWithHistory`, `now` being its clock.
unfoldable pub assigned_tables :
    Env → Client → QueueEntry → List String → String → QueueStatus → ℕ → Tables → Tables
unfolding new_assignment assigned_record
assigned_tables env client e ids by previous now t =
    with_history (assigned_record env client e by previous)
      (with_row e (with_assignments (map (new_assignment env client e by now) ids) t))

-- The tables after `updateStatusWithHistory`.
unfoldable pub changed_tables : Env → Client → StatusChange → Tables → Tables
unfolding changed_record
changed_tables env client p t = with_history (changed_record env client p) (with_row p.entry t)

module _ (env : Env) {client : Client} (lawful : Lawful client) {Err : Type 0}
    (faulty : (k : ℕ) (x : Failure) → env.database_fault k ≡ some x → Err) where
  pub add_history-Ensures :
      (h : StatusHistory) (t0 : Tables)
      → Ensures (λ t. t ≡ t0) (add_history env client h) (λ _ t. t ≡ with_history h t0) (λ _. Err)
  unfolding add_history
  add_history-Ensures h t0 =
      Ensures-call_db env client _ (λ k x t e p. faulty k x e)
        (λ t p. rw (p, lawful.create_history h t0.history) refl)

  pub add_assignments-Ensures :
      (new : List TableAssignment) (t0 : Tables)
      → Ensures
          (λ t. t ≡ t0)
          (add_assignments env client new)
          (λ _ t. t ≡ with_assignments new t0)
          (λ _. Err)
  unfolding add_assignments
  add_assignments-Ensures new t0 =
      Ensures-call_db env client _ (λ k x t e p. faulty k x e)
        (λ t p. rw (p, lawful.create_assignments new t0.assignments) refl)

  written-Answer :
      (x : Failure) (t0 : Tables) (g : QueueEntry → QueueEntry) (id : String) (b : Bool)
      → (b ≡ false → Err)
      → Answer
          (λ _ t. t ≡ record t0 { entries = replace id g t0.entries })
          (λ _. Err)
          (written env client t0 (if b then some (replace id g t0.entries) else none) x)
  written-Answer x t0 g id true missing = refl
  written-Answer x t0 g id false missing = missing refl

  pub update_row-Ensures :
      (id : String) (g : QueueEntry → QueueEntry) (t0 : Tables)
      → (has_id id t0.entries ≡ false → Err)
      → Ensures
          (λ t. t ≡ t0)
          (update_row env client id g)
          (λ _ t. t ≡ record t0 { entries = replace id g t0.entries })
          (λ _. Err)
  unfolding update_row
  update_row-Ensures id g t0 missing =
      Ensures-call_db env client _ (λ k x t e p. faulty k x e)
        (λ t p.
          rw (p, lawful.update id g t0.entries)
            (written-Answer (known_request "P2025") t0 g id (has_id id t0.entries) missing))

module _ (env : Env) {client : Client} (lawful : Lawful client) {E : Tables → Type 0} (s : Tables)
    (faulty : (k : ℕ) (x : Failure) → env.database_fault k ≡ some x → E s) where
  -- What `assignTablesWithHistory` comes to.
  pub assign_tables_with_history-Ensures :
      (e : QueueEntry) (ids : List String) (by : String) (previous : QueueStatus)
      → (has_id e.id s.entries ≡ false → E s)
      → Ensures
          (λ t. t ≡ s)
          (assign_tables_with_history env client e ids by previous)
          (λ a t. (a ≡ e) × ((now : ℕ) × (t ≡ assigned_tables env client e ids by previous now s)))
          E
  unfolding assign_tables_with_history assigned_tables
  assign_tables_with_history-Ensures e ids by previous missing = Ensures-run (
      Ensures-transaction env lawful s (
        Ensures-bind (Ensures-new_date env) λ now.
          Ensures-bind (add_assignments-Ensures env lawful faulty _ s) λ _.
            Ensures-bind (update_row-Ensures env lawful faulty e.id _ _ missing) λ _.
              Ensures-bind (add_history-Ensures env lawful faulty _ _)
                λ _. Ensures-return e (λ t p. (refl, (now, p)))))

  -- What `updateStatusWithHistory` comes to.
  pub update_status_with_history-Ensures :
      (p : StatusChange)
      → (has_id p.entry.id s.entries ≡ false → E s)
      → Ensures
          (λ t. t ≡ s)
          (update_status_with_history env client p)
          (λ a t. (a ≡ p.entry) × (t ≡ changed_tables env client p s))
          E
  unfolding update_status_with_history changed_tables
  update_status_with_history-Ensures p missing = Ensures-run (
      Ensures-transaction env lawful s (
        Ensures-bind (update_row-Ensures env lawful faulty p.entry.id _ s missing) λ _.
          Ensures-bind (add_history-Ensures env lawful faulty _ _)
            λ _. Ensures-return p.entry (λ t q. (refl, q))))
