-- ===== src/UseCases/Machine/Refined.antt =====
-- The handlers of src/application/use-cases that write, against the queue of UseCases/Machine.
use mathlib.Core.Path.{ap}
use spotq_queue_service.Base.{◌≡◌, refl, ◌⊎◌, inl, inr, List, [], ◌∷◌}
use spotq_queue_service.Errors.{Result, ok, err}
use spotq_queue_service.World.{World, Tables, Env, Client}
use spotq_queue_service.Exec.Rules.{Post}
use spotq_queue_service.Repository.Laws.{Lawful}
use spotq_queue_service.UseCases.Register as Register
use spotq_queue_service.UseCases.Register.Atomic.{register_exact}
use spotq_queue_service.UseCases.Seat as Seat
use spotq_queue_service.UseCases.Seat.Atomic.{seat_atomic}
use spotq_queue_service.UseCases.Assign as Assign
use spotq_queue_service.UseCases.Assign.Atomic.{assign_exact}
use spotq_queue_service.UseCases.Cancel as Cancel
use spotq_queue_service.UseCases.Cancel.Effect.{cancel_effect}
use spotq_queue_service.UseCases.Skip as Skip
use spotq_queue_service.UseCases.Skip.Effect.{skip_effect}
use spotq_queue_service.UseCases.Ring as Ring
use spotq_queue_service.UseCases.Ring.Atomic.{ring_exact}
use spotq_queue_service.UseCases.Twins.{release-entries}
use spotq_queue_service.UseCases.Machine.{
  Move, joins, Changes, Step, Steps, board, board_of, Command, registers, seats, assigns, cancels,
  skips, rings, move_of, outcome_of, perform, perform_all, log,
}
use spotq_queue_service.UseCases.Machine.Moves.{board-view}
use spotq_queue_service.UseCases.Machine.Changed.{
  seating-Changes, assignment-Changes, cancelling-Changes, skipping-Changes, ringing-Changes,
  registration-Changes,
}

pub outcome_of-world : {A : Type 0} (r : Result A × World) → (outcome_of r).1 ≡ r.1
outcome_of-world (ok a, w) = refl
outcome_of-world (err x, w) = refl

-- A handler whose outcome is known, as a step of the queue.
module _ {A : Type 0} (m : Move) (s : Tables) where
  handled :
      {Q : A → Tables → Type 0} {E : Tables → Type 0} (r : Result A × World)
      → ((a : A) (t : Tables) → Q a t → Changes m (board s) (board t))
      → ((t : Tables) → E t → (board t ≡ board s) ⊎ Changes m (board s) (board t))
      → Post Q E r
      → Step ((outcome_of r).0, m) (board s) (board (outcome_of r).1.tables)
  handled (ok a, w) f g p = f a w.tables p
  handled (err x, w) f g p = g w.tables p

either_way : {X X' Y Y' : Type 0} → (X → X') → (Y → Y') → X ⊎ Y → X' ⊎ Y'
either_way f g (inl x) = inl (f x)
either_way f g (inr y) = inr (g y)

module _ (env : Env) {client : Client} (lawful : Lawful client) where
  pub perform-Step :
      (c : Command) (w : World)
      → Step
          ((perform env client c w).0, move_of env c)
          (board w.tables)
          (board (perform env client c w).1.tables)
  perform-Step (registers input) w =
      handled joins w.tables (Register.execute env client input w)
        (λ o t p. registration-Changes p.0) (λ t e. inl (ap board e))
        (register_exact env lawful input w)
  perform-Step (seats input) w =
      handled (move_of env (seats input)) w.tables (Seat.execute env client input w)
        (λ o t (i, st, p). seating-Changes p) (λ t. either_way (ap board) seating-Changes)
        (seat_atomic env lawful input w)
  perform-Step (assigns input) w =
      handled (move_of env (assigns input)) w.tables (Assign.execute env client input w)
        (λ o t (i, st, p). assignment-Changes p) (λ t e. inl (ap board e))
        (assign_exact env lawful input w)
  perform-Step (cancels input) w =
      handled (move_of env (cancels input)) w.tables (Cancel.execute env client input w)
        (λ o t (i, st, p). cancelling-Changes p)
        (λ t.
          either_way (λ r. ap board_of (release-entries input.queue_entry_id w.tables t r))
            cancelling-Changes)
        (cancel_effect env lawful input w)
  perform-Step (skips input) w =
      handled (move_of env (skips input)) w.tables (Skip.execute env client input w)
        (λ o t p. skipping-Changes p.0) (λ t. either_way (board-view w.tables t) skipping-Changes)
        (skip_effect env lawful input w)
  perform-Step (rings input) w =
      handled (move_of env (rings input)) w.tables (Ring.execute env client input w)
        (λ o t (p, i, n). ringing-Changes p) (λ t e. inl (ap board e))
        (ring_exact env lawful input w)

-- Whatever requests to register, seat, assign tables, cancel, skip and ring come in, and whatever
-- fails, the tickets and their statuses go the steps of the abstract queue: a registration that is
-- answered adds a new waiting ticket; any other that is answered turns its ticket, which waited, into
-- a status that the request asks for; one that is refused does this or nothing.
pub perform_all-Steps :
    (env : Env) {client : Client}
    → Lawful client
    → (cs : List Command) (w : World)
    → Steps (log env client cs w) (board w.tables) (board (perform_all env client cs w).tables)
unfolding perform_all log
perform_all-Steps env lawful [] w = refl
perform_all-Steps env {client} lawful (c ∷ cs) w = (
  board (perform env client c w).1.tables,
  perform-Step env lawful c w,
  perform_all-Steps env lawful cs (perform env client c w).1,
)
