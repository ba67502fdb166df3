-- ===== src/UseCases/Machine/Changed.antt =====
-- What each handler of src/application/use-cases that writes turns its ticket into.
use mathlib.Core.Path.{ap}
use mathlib.Core.List.{Memᴰ}
use spotq_queue_service.Base.{
  ℕ, zero, suc, ◌≤◌, arith, ◌≡◌, ◌∙◌, inl, inr, Option, none, some, List, [], ◌∷◌, String,
}
use spotq_queue_service.Errors.{QueueStatus, waiting, seated, skipped}
use spotq_queue_service.Entity.{QueueEntry, create}
use spotq_queue_service.Entity.Outcomes.{seat-ok, cancel-ok, skip-ok}
use spotq_queue_service.World.{Tables, Env, Client}
use spotq_queue_service.Repository.Atomic.{assigned_tables, changed_tables}
use spotq_queue_service.Repository.Creation.{created_tables}
use spotq_queue_service.UseCases.Lookup.Found.{IsOwned, IsOwned-id}
use spotq_queue_service.UseCases.Register as Register
use spotq_queue_service.UseCases.Register.Atomic.{IsRegistration}
use spotq_queue_service.UseCases.Seat as Seat
use spotq_queue_service.UseCases.Seat.Atomic.{IsSeating}
use spotq_queue_service.UseCases.Assign as Assign
use spotq_queue_service.UseCases.Assign.Atomic.{IsAssignment}
use spotq_queue_service.UseCases.Cancel as Cancel
use spotq_queue_service.UseCases.Cancel.Effect.{IsCancelling}
use spotq_queue_service.UseCases.Skip as Skip
use spotq_queue_service.UseCases.Skip.Change.{IsChange}
use spotq_queue_service.UseCases.Skip.Effect.{IsSkipping}
use spotq_queue_service.UseCases.Ring as Ring
use spotq_queue_service.UseCases.Ring.Atomic.{IsRinging}
use spotq_queue_service.UseCases.Twins.{release-entries}
use spotq_queue_service.UseCases.Machine.{
  Board, turns, joins, Changes, board, board_of, set_status, skip_targets, cancel_target,
}
use spotq_queue_service.UseCases.Machine.Moves.{
  board-view, board_of-with_row, board_of-upserted, board_of-append, status_of-row_with,
  status_of-has_id, waiting_only, seat_waits, cancel_waits, ring_waits, update_position_keeps,
}

-- The row of the ticket of a request is replaced.
turned :
    {rid id : String} {s : Tables} {before : QueueEntry} (after : QueueEntry)
    (sts : List QueueStatus) (b : Board)
    → IsOwned rid id s before
    → before.status ≡ waiting
    → after.id ≡ before.id
    → Memᴰ after.status sts
    → b ≡ set_status after.id after.status (board s)
    → Changes (turns id sts) (board s) b
turned {id = id} {s = s} {before = before} after sts b owned waits same m h = (
  status_of-row_with id s.entries before owned.found ∙ ap some waits,
  (after.status, m, h ∙ ap (λ i. set_status i after.status (board s)) here),
)
  where
    here : after.id ≡ id
    here = same ∙ IsOwned-id owned

skipped_target :
    (st : QueueStatus) (places : Option ℕ) → st ≡ skipped → Memᴰ st (skip_targets places)
skipped_target st none h = Memᴰ.head h
skipped_target st (some zero) h = Memᴰ.head h
skipped_target st (some (suc n)) h = Memᴰ.head h

kept_target : (st : QueueStatus) (n : ℕ) → 1 ≤ n → st ≡ waiting → Memᴰ st (skip_targets (some n))
kept_target st zero h k = ground (arith, h)
kept_target st (suc n) h k = Memᴰ.tail (Memᴰ.head k)

skip_change :
    (client : Client) (input : Skip.Input) (s : Tables) (before after : QueueEntry)
    (reason : String)
    → before.status ≡ waiting
    → IsChange client input s before after reason
    → (after.id ≡ before.id) × Memᴰ after.status (skip_targets input.skip_positions)
skip_change client input s before after reason waits (inl (now, d, skipping, why)) =
    let (same, status) = skip-ok now before after skipping in
    (same, skipped_target after.status input.skip_positions status)
skip_change client input s before after reason waits
      (inr (now, n, p, d, places, many, moved, why)) =
    let (status, same) = update_position_keeps now p before in
    (
      ap (λ e. e.id) moved ∙ same,
      rw places (kept_target after.status n many (ap (λ e. e.status) moved ∙ status ∙ waits)),
    )

module _ {env : Env} {client : Client} where
  pub seating-Changes :
      {input : Seat.Input} {s t : Tables}
      → IsSeating env client input s t
      → Changes (turns input.queue_entry_id (seated ∷ [])) (board s) (board t)
  unfolding assigned_tables
  seating-Changes {s = s} {t = t} p =
      let (same, is_seated) = seat-ok p.now p.now' p.before p.after p.seats in
      turned p.after (seated ∷ []) (board t) p.owned
        (seat_waits p.now p.now' p.before p.after p.seats) same (Memᴰ.head is_seated)
        (board-view _ t p.tables ∙ board_of-with_row p.after s.entries)

  pub assignment-Changes :
      {input : Assign.Input} {s t : Tables}
      → IsAssignment env client input s t
      → Changes (turns input.queue_entry_id (seated ∷ [])) (board s) (board t)
  unfolding assigned_tables
  assignment-Changes {s = s} {t = t} p =
      let (same, is_seated) = seat-ok p.now p.now' p.before p.after p.seats in
      turned p.after (seated ∷ []) (board t) p.owned
        (seat_waits p.now p.now' p.before p.after p.seats) same (Memᴰ.head is_seated)
        (ap board p.tables ∙ board_of-with_row p.after s.entries)

  pub cancelling-Changes :
      {input : Cancel.Input} {s t : Tables}
      → IsCancelling env client input s t
      → Changes (turns input.queue_entry_id (cancel_target env input ∷ [])) (board s) (board t)
  unfolding changed_tables
  cancelling-Changes {input = input} {s = s} {t = t} p =
      let (same, status) = cancel-ok p.now p.now' _ p.before p.after p.cancels in
      turned p.after (cancel_target env input ∷ []) (board t) p.owned
        (cancel_waits p.now p.now' _ p.before p.after p.cancels) same (Memᴰ.head status)
        (board-view _ t p.tables
          ∙ board_of-with_row p.after p.base.entries
          ∙ ap (λ rows. set_status p.after.id p.after.status (board_of rows))
              (release-entries input.queue_entry_id s p.base (inr p.release)))

  pub skipping-Changes :
      {input : Skip.Input} {s t : Tables}
      → IsSkipping env client input s t
      → Changes (turns input.queue_entry_id (skip_targets input.skip_positions)) (board s) (board t)
  unfolding changed_tables
  skipping-Changes {input = input} {s = s} {t = t} p =
      let waits = waiting_only p.before.status p.waits in
      let (same, m) = skip_change client input s p.before p.after p.reason waits p.change in
      turned p.after (skip_targets input.skip_positions) (board t) p.owned waits same m
        (board-view _ t p.tables ∙ board_of-with_row p.after s.entries)

  pub ringing-Changes :
      {input : Ring.Input} {s t : Tables}
      → IsRinging env client input s t
      → Changes (turns input.queue_entry_id (waiting ∷ [])) (board s) (board t)
  ringing-Changes {s = s} {t = t} p =
      let (waits, stays, same) = ring_waits p.now p.now' p.before p.after p.rings in
      turned p.after (waiting ∷ []) (board t) p.owned waits same (Memᴰ.head stays)
        (ap board p.tables ∙ board_of-upserted env client p.after s.entries)

  pub registration-Changes :
      {input : Register.Input} {s t : Tables}
      → IsRegistration env client input s t
      → Changes joins (board s) (board t)
  unfolding created_tables create
  registration-Changes {s = s} {t = t} p = (
    _,
    status_of-has_id _ s.entries p.admissible.fresh,
    ap board p.tables ∙ board_of-append s.entries _,
  )
