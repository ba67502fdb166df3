-- ===== src/UseCases/Cancel/Effect.antt =====
-- What src/application/use-cases/queue/cancel-queue-entry.use-case.ts does to the tables, whatever
-- fails.
use spotq_queue_service.Base.{ℕ, ◌≡◌, refl, ◌∙◌, ap, ◌⊎◌, inl, inr, Bool, true, false, some}
use spotq_queue_service.Errors.{QueueStatus, ok}
use spotq_queue_service.Entity.{QueueEntry, cancel, target_status}
use spotq_queue_service.Entity.Outcomes.{cancel-ok}
use spotq_queue_service.World.{World, Tables, Env, Client}
use spotq_queue_service.Exec.Rules.{
  Post, Ensures, Ensures-bind, Ensures-given, Ensures-lift, Ensures-exact, Ensures-post,
  Ensures-pre, Ensures-new_date, Ensures-return, Quiet, Quiet-pure,
}
use spotq_queue_service.Services.Quiet.{Quiet-emit, Quiet-remove_live_entry}
use spotq_queue_service.Repository.Laws.{Lawful}
use spotq_queue_service.Repository.Writes.{StatusChange}
use spotq_queue_service.Repository.Atomic.{changed_tables, update_status_with_history-Ensures}
use spotq_queue_service.Repository.View.{view, Keeps-Quiet}
use spotq_queue_service.Recalculator.Keeps.{recalculate-Keeps}
use spotq_queue_service.UseCases.Lookup.Found.{IsOwned, IsOwned-id, require_entry-Ensures}
use spotq_queue_service.UseCases.Cancel.Release.{
  IsRelease, MayRelease, find_held-Ensures, release_held-Ensures,
}
use spotq_queue_service.UseCases.Cancel.{
  Input, Output, is_no_show, target, notify_no_show, announce, commit, execute,
}

abbrev pub change_of : Input → QueueEntry → QueueStatus → StatusChange
change_of input e previous = record {
  entry = e;
  previous_status = previous;
  changed_by = input.staff_user_id;
  reason = some input.reason;
  notes = input.notes;
}

pub record IsCancelling (env : Env) (client : Client) (input : Input) (s t : Tables) : Type 0 where
  pub before : QueueEntry
  pub after : QueueEntry
  pub owned : IsOwned input.restaurant_id input.queue_entry_id s before
  pub now : ℕ
  pub now' : ℕ
  pub cancels : cancel now now' (target (is_no_show env.to_upper input.reason)) before ≡ ok after
  pub base : Tables
  pub release : IsRelease input.queue_entry_id s base
  pub tables : view t ≡ view (changed_tables env client (change_of input after before.status) base)

abbrev pub Outcome : Env → Client → Input → Tables → Output → Tables → Type 0
Outcome env client input s o t =
    (o.queue_entry_id ≡ input.queue_entry_id)
    × (o.status ≡ target_status (target (is_no_show env.to_upper input.reason)))
    × IsCancelling env client input s t

abbrev pub Failed : Env → Client → Input → Tables → Tables → Type 0
Failed env client input s t =
    MayRelease input.queue_entry_id s t ⊎ IsCancelling env client input s t

module _ (env : Env) {client : Client} (lawful : Lawful client) (input : Input) where
  Quiet-notify_no_show : (e : QueueEntry) (b : Bool) → Quiet (notify_no_show env client input e b)
  unfolding notify_no_show
  Quiet-notify_no_show e false = Quiet-pure _
  Quiet-notify_no_show e true = Quiet-emit env _

  announce-Ensures :
      (v : Tables) (b : Bool) (e : QueueEntry)
      → Ensures
          (λ t. view t ≡ v)
          (announce env client input b e)
          (λ o t. (o.queue_entry_id ≡ e.id) × (o.status ≡ e.status) × (view t ≡ v))
          (λ t. view t ≡ v)
  unfolding announce
  announce-Ensures v b e = Ensures-bind (Keeps-Quiet v (Quiet-remove_live_entry env _)) λ _.
      Ensures-bind (recalculate-Keeps env lawful v _) λ _.
        Ensures-bind (Ensures-new_date env) λ now.
          Ensures-bind (Keeps-Quiet v (Quiet-emit env _)) λ _.
            Ensures-bind (Keeps-Quiet v (Quiet-emit env _)) λ _.
              Ensures-bind (Keeps-Quiet v (Quiet-notify_no_show e b))
                λ _. Ensures-return _ (λ t p. (refl, refl, p))

  commit-Ensures :
      (s : Tables) (previous : QueueStatus) (e : QueueEntry)
      → Ensures
          (λ t. t ≡ s)
          (commit env client input previous e)
          (λ a t.
            (a ≡ e)
            × ((base : Tables) × IsRelease input.queue_entry_id s base
                × (t ≡ changed_tables env client (change_of input e previous) base)))
          (Failed env client input s)
  unfolding commit
  commit-Ensures s previous e =
      Ensures-bind
        (Ensures-post (λ a t p. p) (λ t p. inl (inl p)) (find_held-Ensures env lawful input s))
        λ active. Ensures-given λ h.
          Ensures-bind
            (Ensures-post (λ a t p. p) (λ t p. inl (inl p))
              (release_held-Ensures env lawful input s e active h))
            λ _. Ensures-exact λ base r.
              Ensures-post (λ a t (same, p). (same, (base, r, p))) (λ t p. p)
                (update_status_with_history-Ensures env lawful base (λ k x h'. inl (inr r))
                  (change_of input e previous) (λ h'. inl (inr r)))

  module _ {s : Tables} {before after : QueueEntry} (now now' : ℕ)
      (owned : IsOwned input.restaurant_id input.queue_entry_id s before)
      (cancels : cancel now now' (target (is_no_show env.to_upper input.reason)) before
        ≡ ok after) where
    cancelling :
        (base t : Tables)
        → IsRelease input.queue_entry_id s base
        → view t ≡ view (changed_tables env client (change_of input after before.status) base)
        → IsCancelling env client input s t
    cancelling base t r p = record {
      before = before;
      after = after;
      owned = owned;
      now = now;
      now' = now';
      cancels = cancels;
      base = base;
      release = r;
      tables = p;
    }

    announced :
        (b : Bool) (a : QueueEntry)
        → Ensures
            (λ t.
              (a ≡ after)
              × ((base : Tables) × IsRelease input.queue_entry_id s base
                  × (t ≡ changed_tables env client (change_of input after before.status) base)))
            (announce env client input b a)
            (Outcome env client input s)
            (Failed env client input s)
    announced b a = Ensures-exact λ t0 (same, (base, r, p)).
        let (id_same, is_cancelled) = cancel-ok now now' _ before after cancels in
        Ensures-pre (λ t e. ap view e)
          (Ensures-post
            (λ o t (i, st, v). (
              i ∙ ap (λ x. x.id) same ∙ id_same ∙ IsOwned-id owned,
              st ∙ ap (λ x. x.status) same ∙ is_cancelled,
              cancelling base t r (v ∙ ap view p),
            ))
            (λ t v. inr (cancelling base t r (v ∙ ap view p))) (announce-Ensures (view t0) b a))

  execute-Ensures :
      (s : Tables)
      → Ensures
          (λ t. t ≡ s)
          (execute env client input)
          (Outcome env client input s)
          (Failed env client input s)
  unfolding execute
  execute-Ensures s = Ensures-bind (require_entry-Ensures s (inl (inl refl)) env lawful _ _) λ e.
      Ensures-given λ owned. Ensures-bind (Ensures-new_date env) λ now.
        Ensures-bind (Ensures-new_date env) λ now'.
          Ensures-bind (Ensures-lift (cancel now now' _ e) (λ t p. inl (inl p))) λ e'.
            Ensures-given λ cancels.
              Ensures-bind (commit-Ensures s e.status e') λ a. announced now now' owned cancels _ a

-- If the handler answers, the party of the request is cancelled, or a no-show if the reason says so,
-- with one line of history, after every table that it held was released, and no other. If it throws,
-- all this has been written, or at most the release. Besides, only positions and expected waits change.
pub cancel_effect :
    (env : Env) {client : Client} (lawful : Lawful client) (input : Input) (w : World)
    → Post
        (Outcome env client input w.tables)
        (Failed env client input w.tables)
        (execute env client input w)
cancel_effect env lawful input w = (execute-Ensures env lawful input w.tables).at w refl
