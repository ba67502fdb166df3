-- ===== src/UseCases/Assign/Atomic.antt =====
-- What src/application/use-cases/assign-table.use-case.ts does to the tables, whatever fails.
use spotq_queue_service.Base.{ℕ, ◌≡◌, refl, ◌∙◌, ap, ◌≤◌, Option, none, some, ltb, arith}
use spotq_queue_service.Errors.{QueueStatus, seated, ok}
use spotq_queue_service.Entity.{QueueEntry, seat}
use spotq_queue_service.Entity.Outcomes.{seat-ok}
use spotq_queue_service.World.{World, Tables, Env, Client}
use spotq_queue_service.Exec.Rules.{
  Post, Ensures, Ensures-bind, Ensures-given, Ensures-lift, Ensures-quiet, Ensures-new_date,
  Ensures-return, Ensures-refuse, Ensures-if, Ensures-recover, Ensures-post, Quiet, Quiet-bind,
  Quiet-pure,
}
use spotq_queue_service.Services.Quiet.{Quiet-emit, Quiet-call_upstream, Quiet-remove_live_entry}
use spotq_queue_service.Repository.Laws.{Lawful}
use spotq_queue_service.Repository.Quiet.{Quiet-count_people_ahead_at_join}
use spotq_queue_service.Repository.Atomic.{assigned_tables, assign_tables_with_history-Ensures}
use spotq_queue_service.UseCases.Lookup.Found.{IsOwned, IsOwned-id, require_entry-Ensures}
use spotq_queue_service.UseCases.Assign.{
  Input, Output, table_ids_of, total_seats, train, publish, require_capacity, some_count, announce,
  commit, execute,
}

-- The tables `t` come from `s` by seating the party of the request at tables that are large enough.
pub record IsAssignment (env : Env) (client : Client) (input : Input) (s t : Tables) : Type 0 where
  pub before : QueueEntry
  pub after : QueueEntry
  pub owned : IsOwned input.restaurant_id input.queue_entry_id s before
  pub fits : before.party_size ≤ total_seats input.tables
  pub now : ℕ
  pub now' : ℕ
  pub seats : seat now now' before ≡ ok after
  pub written_at : ℕ
  pub tables :
      t
      ≡ assigned_tables env client after
          (table_ids_of input)
          input.staff_user_id
          before.status
          written_at
          s

abbrev pub Outcome : Env → Client → Input → Tables → Output → Tables → Type 0
Outcome env client input s o t =
    (o.queue_entry_id ≡ input.queue_entry_id)
    × (o.status ≡ seated)
    × IsAssignment env client input s t

module _ (env : Env) {client : Client} (lawful : Lawful client) (input : Input) where
  Quiet-some_count : (e : QueueEntry) → Quiet (some_count env client input e)
  unfolding some_count
  Quiet-some_count e =
      Quiet-bind (Quiet-count_people_ahead_at_join env client _ _) λ n. Quiet-pure _

  train-Ensures :
      {P E : Tables → Type 0} (e : QueueEntry) (ahead : Option ℕ)
      → Ensures P (train env client e ahead) (λ _. P) E
  unfolding train publish
  train-Ensures e none = Ensures-return tt (λ t p. p)
  train-Ensures e (some n) = Ensures-bind (Ensures-new_date env) λ now. record { at = λ w p. p }

  announce-Ensures :
      {P E : Tables → Type 0} (ahead : Option ℕ) (e : QueueEntry)
      → Ensures P
          (announce env client input ahead e)
          (λ o t. (o.queue_entry_id ≡ e.id) × (o.status ≡ e.status) × P t)
          E
  unfolding announce
  announce-Ensures ahead e = Ensures-bind (Ensures-recover tt (Quiet-remove_live_entry env _)) λ _.
      Ensures-bind (Ensures-recover tt (Quiet-bind (Quiet-emit env _) λ _. Quiet-emit env _)) λ _.
        Ensures-bind (train-Ensures e ahead)
          λ _. Ensures-bind (Ensures-new_date env) λ now. Ensures-return _ (λ t p. (refl, refl, p))

  commit-Ensures :
      (s : Tables) (previous : QueueStatus) (e : QueueEntry)
      → Ensures
          (λ t. t ≡ s)
          (commit env client input previous e)
          (λ a t.
            (a ≡ e)
            × ((n : ℕ) × (t
                  ≡ assigned_tables env client e
                      (table_ids_of input)
                      input.staff_user_id
                      previous
                      n
                      s)))
          (λ t. t ≡ s)
  unfolding commit
  commit-Ensures s previous e =
      Ensures-bind (Ensures-quiet (λ t. t ≡ s) (λ t p. p) (Quiet-call_upstream env _))
        λ _. assign_tables_with_history-Ensures env lawful s (λ k x h. refl) e _ _ _ (λ h. refl)

  require_capacity-Ensures :
      (s : Tables) (e : QueueEntry)
      → Ensures
          (λ t. t ≡ s)
          (require_capacity env client e input)
          (λ _ t. (t ≡ s) × (e.party_size ≤ total_seats input.tables))
          (λ t. t ≡ s)
  unfolding require_capacity
  require_capacity-Ensures s e =
      Ensures-if (ltb (total_seats input.tables) e.party_size) (λ b. Ensures-refuse _ (λ t p. p))
        (λ b. Ensures-return tt (λ t p. (p, ground (arith, b))))

  announced :
      {s : Tables} {before after : QueueEntry} (now now' : ℕ) (ahead : Option ℕ)
      → IsOwned input.restaurant_id input.queue_entry_id s before
      → before.party_size ≤ total_seats input.tables
      → seat now now' before ≡ ok after
      → (a : QueueEntry)
      → Ensures
          (λ t.
            (a ≡ after)
            × ((n : ℕ) × (t
                  ≡ assigned_tables env client after
                      (table_ids_of input)
                      input.staff_user_id
                      before.status
                      n
                      s)))
          (announce env client input ahead a)
          (Outcome env client input s)
          (λ t. t ≡ s)
  announced now now' ahead owned fits seats a =
      Ensures-post
        (λ o t (i, st, (same, (n, p))).
          let (id_same, is_seated) = seat-ok now now' _ _ seats in
          (
            i ∙ ap (λ x. x.id) same ∙ id_same ∙ IsOwned-id owned,
            st ∙ ap (λ x. x.status) same ∙ is_seated,
            record {
              before = _;
              after = _;
              owned = owned;
              fits = fits;
              now = now;
              now' = now';
              seats = seats;
              written_at = n;
              tables = p;
            },
          ))
        (λ t p. p) (announce-Ensures ahead a)

  execute-Ensures :
      (s : Tables)
      → Ensures (λ t. t ≡ s) (execute env client input) (Outcome env client input s) (λ t. t ≡ s)
  unfolding execute
  execute-Ensures s = Ensures-bind (require_entry-Ensures s refl env lawful _ _) λ e.
      Ensures-given λ owned. Ensures-bind (require_capacity-Ensures s e) λ _. Ensures-given λ fits.
        Ensures-bind (Ensures-recover none (Quiet-some_count e)) λ ahead.
          Ensures-bind (Ensures-new_date env) λ now. Ensures-bind (Ensures-new_date env) λ now'.
            Ensures-bind (Ensures-lift (seat now now' e) (λ t p. p)) λ e'. Ensures-given λ seats.
              Ensures-bind (commit-Ensures s e.status e')
                λ a. announced now now' ahead owned fits seats a

-- If the handler throws, the tables are as before. If it answers, the party of the request is seated
-- at tables with seats enough: its row, its assignments and one line of history are written, and
-- nothing else.
pub assign_exact :
    (env : Env) {client : Client} (lawful : Lawful client) (input : Input) (w : World)
    → Post (Outcome env client input w.tables) (λ t. t ≡ w.tables) (execute env client input w)
assign_exact env lawful input w = (execute-Ensures env lawful input w.tables).at w refl
