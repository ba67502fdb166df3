-- ===== src/UseCases/Seat/Atomic.antt =====
-- What src/application/use-cases/queue/seat-party.use-case.ts does to the tables, whatever fails.
use spotq_queue_service.Base.{ℕ, ◌≡◌, refl, ◌∙◌, ap, ◌⊎◌, inl, inr}
use spotq_queue_service.Errors.{QueueStatus, seated, ok}
use spotq_queue_service.Entity.{QueueEntry, seat}
use spotq_queue_service.Entity.Outcomes.{seat-ok}
use spotq_queue_service.World.{World, Tables, Env, Client}
use spotq_queue_service.Exec.Rules.{
  Post, Ensures, Ensures-bind, Ensures-given, Ensures-lift, Ensures-exact, Ensures-post,
  Ensures-pre, Ensures-quiet, Ensures-new_date, Ensures-return,
}
use spotq_queue_service.Services.Quiet.{Quiet-emit, Quiet-call_upstream, Quiet-remove_live_entry}
use spotq_queue_service.Repository.Laws.{Lawful}
use spotq_queue_service.Repository.Atomic.{assigned_tables, assign_tables_with_history-Ensures}
use spotq_queue_service.Repository.View.{view, Keeps-Quiet}
use spotq_queue_service.Recalculator.Keeps.{recalculate-Keeps}
use spotq_queue_service.UseCases.Lookup.Found.{IsOwned, IsOwned-id, require_entry-Ensures}
use spotq_queue_service.UseCases.Seat.{Input, Output, announce, commit, execute}

-- The tables `t` come from `s` by seating the party of the request; `t` differs from the outcome of
-- the one transaction in positions and expected waits at most.
pub record IsSeating (env : Env) (client : Client) (input : Input) (s t : Tables) : Type 0 where
  pub before : QueueEntry
  pub after : QueueEntry
  pub owned : IsOwned input.restaurant_id input.queue_entry_id s before
  pub now : ℕ
  pub now' : ℕ
  pub seats : seat now now' before ≡ ok after
  pub written_at : ℕ
  pub tables :
      view t
      ≡ view (
          assigned_tables env client after input.table_ids input.staff_user_id before.status
            written_at s)

abbrev pub Outcome : Env → Client → Input → Tables → Output → Tables → Type 0
Outcome env client input s o t =
    (o.queue_entry_id ≡ input.queue_entry_id) × (o.status ≡ seated) × IsSeating env client input s t

abbrev pub Failed : Env → Client → Input → Tables → Tables → Type 0
Failed env client input s t = (t ≡ s) ⊎ IsSeating env client input s t

module _ (env : Env) {client : Client} (lawful : Lawful client) (input : Input) where
  announce-Ensures :
      (v : Tables) (e : QueueEntry)
      → Ensures
          (λ t. view t ≡ v)
          (announce env client input e)
          (λ o t. (o.queue_entry_id ≡ e.id) × (o.status ≡ e.status) × (view t ≡ v))
          (λ t. view t ≡ v)
  unfolding announce
  announce-Ensures v e = Ensures-bind (Keeps-Quiet v (Quiet-remove_live_entry env _)) λ _.
      Ensures-bind (recalculate-Keeps env lawful v _) λ _.
        Ensures-bind (Ensures-new_date env) λ now.
          Ensures-bind (Keeps-Quiet v (Quiet-emit env _)) λ _.
            Ensures-bind (Keeps-Quiet v (Quiet-emit env _))
              λ _. Ensures-return _ (λ t p. (refl, refl, p))

  commit-Ensures :
      (s : Tables) (previous : QueueStatus) (e : QueueEntry)
      → Ensures
          (λ t. t ≡ s)
          (commit env client input previous e)
          (λ a t.
            (a ≡ e)
            × ((n : ℕ) × (t
                  ≡ assigned_tables env client e input.table_ids input.staff_user_id previous n s)))
          (Failed env client input s)
  unfolding commit
  commit-Ensures s previous e =
      Ensures-bind (Ensures-quiet (λ t. t ≡ s) (λ t p. inl p) (Quiet-call_upstream env _)) λ _.
        assign_tables_with_history-Ensures env lawful s (λ k x h. inl refl) e _ _ _ (λ h. inl refl)

  module _ {s : Tables} {before after : QueueEntry} (now now' : ℕ)
      (owned : IsOwned input.restaurant_id input.queue_entry_id s before)
      (seats : seat now now' before ≡ ok after) where
    seating :
        (n : ℕ) (t : Tables)
        → view t
          ≡ view (
              assigned_tables env client after input.table_ids input.staff_user_id before.status n
                s)
        → IsSeating env client input s t
    seating n t p = record {
      before = before;
      after = after;
      owned = owned;
      now = now;
      now' = now';
      seats = seats;
      written_at = n;
      tables = p;
    }

    answered :
        (n : ℕ) (o : Output) (t : Tables)
        → (o.queue_entry_id ≡ after.id)
          × (o.status ≡ after.status)
          × (view t
              ≡ view (
                  assigned_tables env client after input.table_ids input.staff_user_id before.status
                    n s))
        → Outcome env client input s o t
    answered n o t (same_id, same_status, p) = (
      same_id ∙ (seat-ok now now' before after seats).0 ∙ IsOwned-id owned,
      same_status ∙ (seat-ok now now' before after seats).1,
      seating n t p,
    )

    announced :
        (a : QueueEntry)
        → Ensures
            (λ t.
              (a ≡ after)
              × ((n : ℕ) × (t
                    ≡ assigned_tables env client after input.table_ids input.staff_user_id
                        before.status n s)))
            (announce env client input a)
            (Outcome env client input s)
            (Failed env client input s)
    announced a = Ensures-exact λ t0 (same, (n, p)).
        Ensures-pre (λ t e. ap view e)
          (Ensures-post
            (λ o t (i, st, v).
              answered n o t (i ∙ ap (λ x. x.id) same, st ∙ ap (λ x. x.status) same, v ∙ ap view p))
            (λ t v. inr (seating n t (v ∙ ap view p))) (announce-Ensures (view t0) a))

  execute-Ensures :
      (s : Tables)
      → Ensures
          (λ t. t ≡ s)
          (execute env client input)
          (Outcome env client input s)
          (Failed env client input s)
  unfolding execute
  execute-Ensures s = Ensures-bind (require_entry-Ensures s (inl refl) env lawful _ _) λ e.
      Ensures-given λ owned. Ensures-bind (Ensures-new_date env) λ now.
        Ensures-bind (Ensures-new_date env) λ now'.
          Ensures-bind (Ensures-lift (seat now now' e) (λ t p. inl p)) λ e'. Ensures-given λ seats.
            Ensures-bind (commit-Ensures s e.status e') λ a. announced now now' owned seats a

-- Whatever fails, the tables are as before, or the party of the request is seated as a whole: its
-- row, its table assignments and one line of history, and nothing else but positions and expected
-- waits is changed. An answer is given only in the second case.
pub seat_atomic :
    (env : Env) {client : Client} (lawful : Lawful client) (input : Input) (w : World)
    → Post
        (Outcome env client input w.tables)
        (Failed env client input w.tables)
        (execute env client input w)
seat_atomic env lawful input w = (execute-Ensures env lawful input w.tables).at w refl
