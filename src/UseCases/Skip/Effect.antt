-- ===== src/UseCases/Skip/Effect.antt =====
-- What src/application/use-cases/queue/skip-party.use-case.ts does to the tables, whatever fails.
use spotq_queue_service.Base.{
  ℕ, zero, suc, ◌+◌, ◌≡◌, refl, ◌∙◌, ap, ◌⊎◌, inl, inr, String, Option, none, some, List, length,
  true, ◌≤◌, or_else, sym, arith,
}
use spotq_queue_service.Errors.{QueueStatus, waiting, seated, skipped, cancelled, no_show}
use spotq_queue_service.Entity.{QueueEntry, is_waiting, skip, update_position}
use spotq_queue_service.World.{World, Tables, Env, Client}
use spotq_queue_service.Exec.{◌>>=◌}
use spotq_queue_service.Exec.Rules.{
  Post, Ensures, Ensures-bind, Ensures-given, Ensures-lift, Ensures-exact, Ensures-post,
  Ensures-pre, Ensures-quiet, Ensures-new_date, Ensures-return, Ensures-refuse, Quiet, Quiet-bind,
}
use spotq_queue_service.Services.Quiet.{Quiet-emit, Quiet-remove_live_entry}
use spotq_queue_service.Repository.Laws.{Lawful}
use spotq_queue_service.Repository.Writes.{update_status_with_history}
use spotq_queue_service.Repository.Queries.{find_active_entries}
use spotq_queue_service.Repository.Rules.{Ensures-run, Ensures-query}
use spotq_queue_service.Repository.Atomic.{changed_tables, update_status_with_history-Ensures}
use spotq_queue_service.Repository.View.{
  view, Keeps-Quiet, batch_update_positions-Keeps, view-changed,
}
use spotq_queue_service.Recalculator.Keeps.{recalculate-Keeps}
use spotq_queue_service.UseCases.Lookup.Found.{IsOwned, require_entry-Ensures}
use spotq_queue_service.UseCases.Skip.Splice.{find_index, target_index}
use spotq_queue_service.UseCases.Skip.{
  Input, Output, shift_reason, change_of, announce, emit_skipped, shift, skip_out, shift_or_skip,
  dispatch, require_waiting, execute,
}
use spotq_queue_service.UseCases.Skip.Change.{
  queue_of, new_position, destination, IsChange, change-position, new_position-some,
  new_position-none,
}

pub record IsSkipping (env : Env) (client : Client) (input : Input) (s t : Tables) : Type 0 where
  pub before : QueueEntry
  pub after : QueueEntry
  pub reason : String
  pub owned : IsOwned input.restaurant_id input.queue_entry_id s before
  pub waits : is_waiting before.status ≡ true
  pub change : IsChange client input s before after reason
  pub placed : after.position ≡ destination client input s
  pub tables :
      view t ≡ view (changed_tables env client (change_of input after reason before.status) s)

abbrev pub Outcome : Env → Client → Input → Tables → Output → Tables → Type 0
Outcome env client input s o t =
    (p : IsSkipping env client input s t) × (o.queue_entry_id ≡ p.after.id)
    × (o.status ≡ p.after.status)
    × (o.position ≡ destination client input s)

abbrev pub Failed : Env → Client → Input → Tables → Tables → Type 0
Failed env client input s t = (view t ≡ view s) ⊎ IsSkipping env client input s t

module _ (env : Env) {client : Client} (lawful : Lawful client) (input : Input) where
  Quiet-emit_skipped : (e : QueueEntry) (p : Option ℕ) → Quiet (emit_skipped env client input e p)
  unfolding emit_skipped
  Quiet-emit_skipped e p = Quiet-bind (Quiet-emit env _) λ _. Quiet-emit env _

  announce-Ensures :
      (v : Tables) (e : QueueEntry) (p : Option ℕ)
      → Ensures
          (λ t. view t ≡ v)
          (announce env client input e p)
          (λ o t.
            (o.queue_entry_id ≡ e.id) × (o.status ≡ e.status) × (o.position ≡ p) × (view t ≡ v))
          (λ t. view t ≡ v)
  unfolding announce
  announce-Ensures v e p = Ensures-bind (recalculate-Keeps env lawful v _) λ _.
      Ensures-bind (Keeps-Quiet v (Quiet-emit_skipped e p))
        λ _. Ensures-return _ (λ t q. (refl, refl, refl, q))

  module _ {s : Tables} {before : QueueEntry}
      (owned : IsOwned input.restaurant_id input.queue_entry_id s before)
      (waits : is_waiting before.status ≡ true) where
    skipping :
        (after : QueueEntry) (reason : String) (t : Tables)
        → IsChange client input s before after reason
        → view t ≡ view (changed_tables env client (change_of input after reason before.status) s)
        → IsSkipping env client input s t
    skipping after reason t c p = record {
      before = before;
      after = after;
      reason = reason;
      owned = owned;
      waits = waits;
      change = c;
      placed = change-position client input s before after reason waits c;
      tables = p;
    }

    -- From the write of the change on.
    announced :
        (after : QueueEntry) (reason : String) (position : Option ℕ) (a : QueueEntry)
        → IsChange client input s before after reason
        → a ≡ after
        → position ≡ destination client input s
        → Ensures
            (λ t.
              view t
              ≡ view (changed_tables env client (change_of input after reason before.status) s))
            (announce env client input a position)
            (Outcome env client input s)
            (Failed env client input s)
    unfolding skipping
    announced after reason position a c same d =
        Ensures-post
          (λ o t (i, st, at, p). (
            skipping after reason t c p,
            i ∙ ap (λ x. x.id) same,
            st ∙ ap (λ x. x.status) same,
            at ∙ d,
          ))
          (λ t p. inr (skipping after reason t c p)) (announce-Ensures _ a position)

    skip_out-Ensures :
        destination client input s ≡ none
        → Ensures
            (λ t. t ≡ s)
            (skip_out env client input before)
            (Outcome env client input s)
            (Failed env client input s)
    unfolding skip_out
    skip_out-Ensures d = Ensures-bind (Ensures-new_date env) λ now.
        Ensures-bind (Ensures-lift (skip now before) (λ t p. inl (ap view p))) λ e'.
          Ensures-given λ skips.
            Ensures-bind
              (update_status_with_history-Ensures env lawful s (λ k x h. inl refl)
                (change_of input e' input.reason before.status) (λ h. inl refl))
              λ a. Ensures-exact λ t0 (same, p).
                Ensures-pre (λ t e. ap view (e ∙ p))
                  (Ensures-bind
                    (Ensures-quiet
                      (λ t.
                        view t
                        ≡ view (
                            changed_tables env client
                              (change_of input e' input.reason before.status) s))
                      (λ t q. inr (skipping e' input.reason t (inl (now, d, skips, refl)) q))
                      (Quiet-remove_live_entry env _))
                    λ _. announced e' input.reason none a (inl (now, d, skips, refl)) same (sym d))

    shift-Ensures :
        (n : ℕ) (active : List QueueEntry) (current : ℕ)
        → input.skip_positions ≡ some n
        → 1 ≤ n
        → destination client input s ≡ some (target_index current n (length active) + 1)
        → Ensures
            (λ t. t ≡ s)
            (shift env client input before n active current)
            (Outcome env client input s)
            (Failed env client input s)
    unfolding shift
    shift-Ensures n active current h many d = Ensures-bind (Ensures-new_date env) λ now.
        Ensures-bind
          (Ensures-pre (λ t p. ap view p)
            (Ensures-post (λ a t p. p) (λ t p. inl p)
              (batch_update_positions-Keeps env lawful (view s) _)))
          λ _. Ensures-exact λ s1 kept. written now s1 kept
      where
        written :
            (now : ℕ) (s1 : Tables)
            → view s1 ≡ view s
            → Ensures
                (λ t. t ≡ s1)
                (update_status_with_history env client (
                    change_of input
                      (update_position now (target_index current n (length active) + 1) none before)
                      (shift_reason input.reason n)
                      before.status)
                  >>= λ _.
                      announce env client input
                        (update_position now
                          (target_index current n (length active) + 1)
                          none
                          before)
                        (some (target_index current n (length active) + 1)))
                (Outcome env client input s)
                (Failed env client input s)
        written now s1 kept =
            Ensures-bind
              (update_status_with_history-Ensures env lawful s1 (λ k x e. inl kept) _
                (λ e. inl kept))
              λ a. Ensures-exact λ t0 (same, p).
                Ensures-pre (λ t e. ap view (e ∙ p) ∙ view-changed env client _ s1 s kept)
                  (announced _ _ _ _ (inr (now, n, _, d, h, many, refl, refl)) refl (sym d))

    shift_or_skip-Ensures :
        (n : ℕ) (active : List QueueEntry) (current : Option ℕ)
        → input.skip_positions ≡ some n
        → 1 ≤ n
        → active ≡ queue_of client input s
        → find_index input.queue_entry_id active ≡ current
        → Ensures
            (λ t. t ≡ s)
            (shift_or_skip env client input before n active current)
            (Outcome env client input s)
            (Failed env client input s)
    unfolding shift_or_skip
    shift_or_skip-Ensures n active none h many e k = skip_out-Ensures (
        new_position-none (or_else input.skip_positions 0) _ _
          (ap (find_index input.queue_entry_id) (sym e) ∙ k))
    shift_or_skip-Ensures n active (some current) h many e k =
        shift-Ensures n active current h many (
          ap
            (λ q.
              new_position (or_else input.skip_positions 0) (find_index input.queue_entry_id q)
                (length q))
            (sym e)
          ∙ new_position-some input.skip_positions n _ current (length active) h many k)

    dispatch-Ensures :
        (o : Option ℕ)
        → input.skip_positions ≡ o
        → Ensures
            (λ t. t ≡ s)
            (dispatch env client input before o)
            (Outcome env client input s)
            (Failed env client input s)
    unfolding dispatch find_active_entries
    dispatch-Ensures none h = skip_out-Ensures (rw h refl)
    dispatch-Ensures (some zero) h = skip_out-Ensures (rw h refl)
    dispatch-Ensures (some (suc n)) h =
        Ensures-bind
          (Ensures-run (
            Ensures-query {Q = λ active t. (t ≡ s) × (active ≡ queue_of client input s)} env client
              _ s (λ k x e. inl refl) (refl, refl)))
          λ active. Ensures-given λ e. shift_or_skip-Ensures (suc n) active _ h (omega arith) e refl

  require_waiting-Ensures :
      (s : Tables) (status : QueueStatus)
      → Ensures
          (λ t. t ≡ s)
          (require_waiting env client input status)
          (λ _ t. (t ≡ s) × (is_waiting status ≡ true))
          (Failed env client input s)
  unfolding require_waiting
  require_waiting-Ensures s waiting = Ensures-return tt (λ t p. (p, refl))
  require_waiting-Ensures s seated = Ensures-refuse _ (λ t p. inl (ap view p))
  require_waiting-Ensures s skipped = Ensures-refuse _ (λ t p. inl (ap view p))
  require_waiting-Ensures s cancelled = Ensures-refuse _ (λ t p. inl (ap view p))
  require_waiting-Ensures s no_show = Ensures-refuse _ (λ t p. inl (ap view p))

  execute-Ensures :
      (s : Tables)
      → Ensures
          (λ t. t ≡ s)
          (execute env client input)
          (Outcome env client input s)
          (Failed env client input s)
  unfolding execute
  execute-Ensures s = Ensures-bind (require_entry-Ensures s (inl refl) env lawful _ _) λ e.
      Ensures-given λ owned.
        Ensures-bind (require_waiting-Ensures s e.status)
          λ _. Ensures-given λ waits. dispatch-Ensures owned waits input.skip_positions refl

pub skip_effect :
    (env : Env) {client : Client} (lawful : Lawful client) (input : Input) (w : World)
    → Post
        (Outcome env client input w.tables)
        (Failed env client input w.tables)
        (execute env client input w)
skip_effect env lawful input w = (execute-Ensures env lawful input w.tables).at w refl
