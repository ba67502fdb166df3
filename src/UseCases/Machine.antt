-- ===== src/UseCases/Machine.antt =====
-- What the handlers of src/application/use-cases that write promise together: a queue as a list of
-- tickets with their statuses, on which a party joins as waiting, and a waiting party takes the status
-- of the request. The runs of the handlers are below.
pub mod Moves
pub mod Changed
pub mod Refined
pub mod Final
pub mod Kept
pub mod Twins
use mathlib.Core.List.{Memᴰ}
use spotq_queue_service.Base.{
  ℕ, zero, suc, String, Bool, true, false, ◌≡◌, ◌⊎◌, Option, none, some, List, [], ◌∷◌, ◌++◌,
  str_eq, if◌then◌else◌, map,
}
use spotq_queue_service.Errors.{QueueStatus, waiting, seated, skipped, Result, ok, err}
use spotq_queue_service.Entity.{QueueEntry, target_status}
use spotq_queue_service.World.{World, Tables, Env, Client}
use spotq_queue_service.UseCases.Register as Register
use spotq_queue_service.UseCases.Seat as Seat
use spotq_queue_service.UseCases.Assign as Assign
use spotq_queue_service.UseCases.Cancel as Cancel
use spotq_queue_service.UseCases.Skip as Skip
use spotq_queue_service.UseCases.Ring as Ring

abbrev pub Board : Type 0
Board = List (String × QueueStatus)

abbrev pub status_of : String → Board → Option QueueStatus
status_of id [] = none
status_of id ((i, st) ∷ b) = let rest = status_of id b in if str_eq i id then some st else rest

abbrev pub set_status : String → QueueStatus → Board → Board
set_status id st [] = []
set_status id st ((i, old) ∷ b) = (i, if str_eq i id then st else old) ∷ set_status id st b

-- What a request asks of the queue: a new ticket, or one of some statuses for a ticket.
pub data Move : Type 0 where
  joins : Move
  turns : String → List QueueStatus → Move

abbrev pub Changes : Move → Board → Board → Type 0
Changes joins b b' = (id : String) × (status_of id b ≡ none) × (b' ≡ b ++ (id, waiting) ∷ [])
Changes (turns id sts) b b' =
    (status_of id b ≡ some waiting) × ((st : QueueStatus) × Memᴰ st sts × (b' ≡ set_status id st b))

-- A request that is answered has changed the queue; one that is refused may have.
abbrev pub Step : Bool × Move → Board → Board → Type 0
Step (true, m) b b' = Changes m b b'
Step (false, m) b b' = (b' ≡ b) ⊎ Changes m b b'

abbrev pub Steps : List (Bool × Move) → Board → Board → Type 0
Steps [] b b' = b' ≡ b
Steps (x ∷ xs) b b'' = (b' : Board) × Step x b b' × Steps xs b' b''

abbrev pub board_of : List QueueEntry → Board
board_of rows = map (λ e. (e.id, e.status)) rows

abbrev pub board : Tables → Board
board t = board_of t.entries

-- A request to one of the handlers.
pub data Command : Type 0 where
  registers : Register.Input → Command
  seats : Seat.Input → Command
  assigns : Assign.Input → Command
  cancels : Cancel.Input → Command
  skips : Skip.Input → Command
  rings : Ring.Input → Command

-- A skip by some places keeps the party waiting, if it is among those that wait.
abbrev pub skip_targets : Option ℕ → List QueueStatus
skip_targets none = skipped ∷ []
skip_targets (some zero) = skipped ∷ []
skip_targets (some (suc n)) = skipped ∷ waiting ∷ []

abbrev pub cancel_target : Env → Cancel.Input → QueueStatus
cancel_target env input =
    target_status (Cancel.target (Cancel.is_no_show env.to_upper input.reason))

abbrev pub move_of : Env → Command → Move
move_of env (registers input) = joins
move_of env (seats input) = turns input.queue_entry_id (seated ∷ [])
move_of env (assigns input) = turns input.queue_entry_id (seated ∷ [])
move_of env (cancels input) = turns input.queue_entry_id (cancel_target env input ∷ [])
move_of env (skips input) = turns input.queue_entry_id (skip_targets input.skip_positions)
move_of env (rings input) = turns input.queue_entry_id (waiting ∷ [])

-- Whether a handler answered, and the world after it.
abbrev pub outcome_of {ℓ} : {A : Type ℓ} → Result A × World → Bool × World
outcome_of (ok a, w) = (true, w)
outcome_of (err x, w) = (false, w)

abbrev pub perform : Env → Client → Command → World → Bool × World
perform env client (registers input) w = outcome_of (Register.execute env client input w)
perform env client (seats input) w = outcome_of (Seat.execute env client input w)
perform env client (assigns input) w = outcome_of (Assign.execute env client input w)
perform env client (cancels input) w = outcome_of (Cancel.execute env client input w)
perform env client (skips input) w = outcome_of (Skip.execute env client input w)
perform env client (rings input) w = outcome_of (Ring.execute env client input w)

unfoldable pub perform_all : Env → Client → List Command → World → World
perform_all env client [] w = w
perform_all env client (c ∷ cs) w = perform_all env client cs (perform env client c w).1

-- What each of the requests asked, and whether it was answered.
unfoldable pub log : Env → Client → List Command → World → List (Bool × Move)
log env client [] w = []
log env client (c ∷ cs) w =
    ((perform env client c w).0, move_of env c) ∷ log env client cs (perform env client c w).1
