-- ===== src/UseCases/Ring/Atomic.antt =====
-- What src/application/use-cases/ring-customer.use-case.ts does to the tables, whatever fails.
use spotq_queue_service.Base.{
  ℕ, ◌≡◌, refl, ap, ◌∙◌, ◌+◌, String, Bool, true, false, Option, none, some, is_truthy, arith,
  if◌then◌else◌,
}
use spotq_queue_service.Errors.{ok}
use spotq_queue_service.Entity.{QueueEntry, ring}
use spotq_queue_service.World.{World, Tables, Env, Client}
use spotq_queue_service.Exec.Rules.{
  Post, Ensures, Ensures-bind, Ensures-given, Ensures-lift, Ensures-new_date, Ensures-return,
  Ensures-if, Ensures-recover, Ensures-post, Quiet, Quiet-bind, Quiet-pure,
}
use spotq_queue_service.Services.Quiet.{Quiet-emit, settle-tables}
use spotq_queue_service.Repository.Calls.{save, upsert, upserted}
use spotq_queue_service.Repository.Laws.{Lawful, has_id, row_with, replace}
use spotq_queue_service.Repository.Rows.{row_with-replace, has_id-row_with}
use spotq_queue_service.Repository.Rules.{Answer, Ensures-run, Ensures-call_db}
use spotq_queue_service.UseCases.Lookup.Found.{IsOwned, IsOwned-id, require_entry-Ensures}
use spotq_queue_service.UseCases.Ring.{
  Input, Output, add_job, queued, notify_device, announce, execute,
}

-- The tables after `save` of an entry whose row is there.
abbrev pub saved_tables : Env → Client → QueueEntry → Tables → Tables
saved_tables env client e t = record t { entries = replace e.id (upserted env client e) t.entries }

-- The row of an entry after one more ring.
abbrev pub rung : QueueEntry → ℕ → ℕ → QueueEntry
rung e now now' = record e {
  ring_count = e.ring_count + 1;
  last_ringed_at = some now;
  updated_at = now';
}

-- The tables `t` come from `s` by ringing for the entry of the request, which is not a walk-in.
pub record IsRinging (env : Env) (client : Client) (input : Input) (s t : Tables) : Type 0 where
  pub before : QueueEntry
  pub after : QueueEntry
  pub owned : IsOwned input.restaurant_id input.queue_entry_id s before
  pub now : ℕ
  pub now' : ℕ
  pub rings : ring now now' before ≡ ok after
  pub tables : t ≡ saved_tables env client after s
  pub row : row_with input.queue_entry_id t.entries ≡ some (rung before now now')

abbrev pub Outcome : Env → Client → Input → Tables → Output → Tables → Type 0
Outcome env client input s o t =
    (p : IsRinging env client input s t) × (o.queue_entry_id ≡ input.queue_entry_id)
    × (o.ring_count ≡ p.before.ring_count + 1)

ring-ok :
    (now now' : ℕ) (e e' : QueueEntry)
    → ring now now' e ≡ ok e'
    → (e'.id ≡ e.id) × (e'.ring_count ≡ e.ring_count + 1)
unfolding ring
ring-ok now now' e e' h = ground arith

ring-rung :
    (env : Env) (client : Client) (now now' : ℕ) (e e' : QueueEntry)
    → ring now now' e ≡ ok e'
    → upserted env client e' e ≡ rung e now now'
unfolding ring
ring-rung env client now now' e e' h = ground arith

saved-row :
    (env : Env) (client : Client) (now now' : ℕ) (e e' : QueueEntry) (id : String) (s t : Tables)
    → row_with id s.entries ≡ some e
    → e.id ≡ id
    → ring now now' e ≡ ok e'
    → t ≡ saved_tables env client e' s
    → row_with id t.entries ≡ some (rung e now now')
saved-row env client now now' e e' id s t found same rings p =
    ap (λ v. row_with id v.entries) p
    ∙ ap (λ i. row_with id (replace i (upserted env client e') s.entries))
        ((ring-ok now now' e e' rings).0 ∙ same)
    ∙ row_with-replace id (upserted env client e') (λ r. refl) e s.entries found
    ∙ ap (λ x. some x) (ring-rung env client now now' e e' rings)

module _ (env : Env) {client : Client} (lawful : Lawful client) (input : Input) where
  upsert-Answer :
      (e : QueueEntry) (s : Tables) (b : Bool)
      → b ≡ true
      → Answer
          (λ _ t. t ≡ saved_tables env client e s)
          (λ t. t ≡ s)
          (upsert env client s e
            (if b then some (replace e.id (upserted env client e) s.entries) else none))
  upsert-Answer e s true h = refl
  upsert-Answer e s false h = ground (arith, h)

  save-Ensures :
      (e : QueueEntry) (s : Tables)
      → has_id e.id s.entries ≡ true
      → Ensures
          (λ t. t ≡ s)
          (save env client e)
          (λ _ t. t ≡ saved_tables env client e s)
          (λ t. t ≡ s)
  unfolding save
  save-Ensures e s there = Ensures-run (
      Ensures-call_db env client _ (λ k x t f p. p)
        (λ t p.
          rw (p, lawful.update e.id (upserted env client e) s.entries)
            (upsert-Answer e s (has_id e.id s.entries) there)))

  Quiet-add_job : (fid id : String) → Quiet (add_job env client fid id)
  unfolding add_job
  Quiet-add_job fid id = record { at = λ w. settle-tables (env.job_fault w.calls) _ _ refl }

  notify_device-Ensures :
      {P E : Tables → Type 0} (e : QueueEntry) (fid : Option String)
      → Ensures P (notify_device env client e fid) (λ _. P) E
  unfolding notify_device queued
  notify_device-Ensures e none = Ensures-return false (λ t p. p)
  notify_device-Ensures e (some fid) =
      Ensures-if (is_truthy (some fid))
        (λ b. Ensures-recover false (Quiet-bind (Quiet-add_job fid e.id) λ _. Quiet-pure true))
        (λ b. Ensures-return false (λ t p. p))

  announce-Ensures :
      {P E : Tables → Type 0} (e : QueueEntry)
      → Ensures P
          (announce env client e)
          (λ o t. (o.queue_entry_id ≡ e.id) × (o.ring_count ≡ e.ring_count) × P t)
          E
  unfolding announce
  announce-Ensures e = Ensures-bind (notify_device-Ensures e e.fid) λ d.
      Ensures-bind (Ensures-recover tt (Quiet-emit env _))
        λ _. Ensures-bind (Ensures-new_date env) λ now. Ensures-return _ (λ t p. (refl, refl, p))

  announced :
      {s : Tables} {before : QueueEntry} (now now' : ℕ) (after : QueueEntry)
      → IsOwned input.restaurant_id input.queue_entry_id s before
      → ring now now' before ≡ ok after
      → Ensures
          (λ t. t ≡ saved_tables env client after s)
          (announce env client after)
          (Outcome env client input s)
          (λ t. t ≡ s)
  announced now now' after owned rings =
      Ensures-post
        (λ o t (i, n, p).
          let (id_same, counted) = ring-ok now now' _ after rings in
          (
            record {
              before = _;
              after = after;
              owned = owned;
              now = now;
              now' = now';
              rings = rings;
              tables = p;
              row =
                  saved-row env client now now' _ after input.queue_entry_id _ t owned.found
                    (IsOwned-id owned) rings p;
            },
            i ∙ id_same ∙ IsOwned-id owned,
            n ∙ counted,
          ))
        (λ t p. p) (announce-Ensures after)

  row_there :
      {s : Tables} {before : QueueEntry} (now now' : ℕ) (after : QueueEntry)
      → IsOwned input.restaurant_id input.queue_entry_id s before
      → ring now now' before ≡ ok after
      → has_id after.id s.entries ≡ true
  row_there {s} {before} now now' after owned rings =
      rw ((ring-ok now now' before after rings).0 ∙ IsOwned-id owned)
        (has_id-row_with input.queue_entry_id s.entries before owned.found)

  execute-Ensures :
      (s : Tables)
      → Ensures (λ t. t ≡ s) (execute env client input) (Outcome env client input s) (λ t. t ≡ s)
  unfolding execute
  execute-Ensures s = Ensures-bind (require_entry-Ensures s refl env lawful _ _) λ e.
      Ensures-given λ owned. Ensures-bind (Ensures-new_date env) λ now.
        Ensures-bind (Ensures-new_date env) λ now'.
          Ensures-bind (Ensures-lift (ring now now' e) (λ t p. p)) λ e'. Ensures-given λ rings.
            Ensures-bind (save-Ensures e' s (row_there now now' e' owned rings))
              λ _. announced now now' e' owned rings

-- If the handler throws, the tables are as before. If it answers, the entry of the request was rung
-- for: its row is what it was but for one ring more, which the answer counts, and the dates of the
-- ring and of the update; and nothing else is written.
pub ring_exact :
    (env : Env) {client : Client} (lawful : Lawful client) (input : Input) (w : World)
    → Post (Outcome env client input w.tables) (λ t. t ≡ w.tables) (execute env client input w)
ring_exact env lawful input w = (execute-Ensures env lawful input w.tables).at w refl
