-- ===== src/UseCases/Machine/Moves.antt =====
-- What the writes of src/application/use-cases come to on the tickets and their statuses.
use mathlib.Core.Path.{ap, sym}
use spotq_queue_service.Base.{
  ℕ, String, Bool, true, false, ◌≡◌, refl, ◌∙◌, none, some, List, [], ◌∷◌, ◌++◌, map, str_eq,
  if◌then◌else◌, arith, eq_iff,
}
use spotq_queue_service.Errors.{QueueStatus, waiting, ok}
use spotq_queue_service.Entity.{
  QueueEntry, is_waiting, seat, cancel, CancelTarget, ring, update_position,
}
use spotq_queue_service.World.{Tables, Env, Client}
use spotq_queue_service.Repository.Calls.{upserted}
use spotq_queue_service.Repository.Laws.{has_id, row_with, replace}
use spotq_queue_service.Repository.View.{view, placeless}
use spotq_queue_service.UseCases.Machine.{status_of, set_status, board_of, board}

board_of-placeless : (rows : List QueueEntry) → board_of (map placeless rows) ≡ board_of rows
board_of-placeless [] = refl
board_of-placeless (r ∷ rs) = ap (λ b. (r.id, r.status) ∷ b) (board_of-placeless rs)

-- Positions do not matter.
pub board-view : (s t : Tables) → view t ≡ view s → board t ≡ board s
unfolding view
board-view s t h =
    sym (board_of-placeless t.entries)
    ∙ ap (λ v. board_of v.entries) h
    ∙ board_of-placeless s.entries

-- An update of the rows with an id that leaves them their ids and gives them a status.
pub board_of-replace :
    (id : String) (g : QueueEntry → QueueEntry) (st : QueueStatus) (rows : List QueueEntry)
    → ((r : QueueEntry) → r.id ≡ id → ((g r).id ≡ r.id) × ((g r).status ≡ st))
    → board_of (replace id g rows) ≡ set_status id st (board_of rows)
board_of-replace id g st [] h = refl
board_of-replace id g st (r ∷ rs) h = chosen (str_eq r.id id) refl (board_of-replace id g st rs h)
  where
    chosen :
        (b : Bool)
        → str_eq r.id id ≡ b
        → board_of (replace id g rs) ≡ set_status id st (board_of rs)
        → board_of ((if b then g r else r) ∷ replace id g rs)
          ≡ (r.id, if b then st else r.status) ∷ set_status id st (board_of rs)
    chosen true q rest =
        let (same, status) = h r ((eq_iff r.id id).0 q) in rw (same, status, rest) refl
    chosen false q rest = rw rest refl

pub board_of-with_row :
    (e : QueueEntry) (rows : List QueueEntry)
    → board_of (replace e.id (λ _. e) rows) ≡ set_status e.id e.status (board_of rows)
board_of-with_row e rows = board_of-replace e.id (λ _. e) e.status rows (λ r q. (sym q, refl))

pub board_of-upserted :
    (env : Env) (client : Client) (e : QueueEntry) (rows : List QueueEntry)
    → board_of (replace e.id (upserted env client e) rows)
      ≡ set_status e.id e.status (board_of rows)
board_of-upserted env client e rows =
    board_of-replace e.id (upserted env client e) e.status rows (λ r q. (refl, refl))

pub board_of-append :
    (rows : List QueueEntry) (e : QueueEntry)
    → board_of (rows ++ e ∷ []) ≡ board_of rows ++ (e.id, e.status) ∷ []
board_of-append [] e = refl
board_of-append (r ∷ rs) e = ap (λ b. (r.id, r.status) ∷ b) (board_of-append rs e)

pub status_of-row_with :
    (id : String) (rows : List QueueEntry) (e : QueueEntry)
    → row_with id rows ≡ some e
    → status_of id (board_of rows) ≡ some e.status
status_of-row_with id [] e h = ground arith
status_of-row_with id (r ∷ rs) e h = ground (arith, h, status_of-row_with id rs e)

pub status_of-has_id :
    (id : String) (rows : List QueueEntry)
    → has_id id rows ≡ false
    → status_of id (board_of rows) ≡ none
status_of-has_id id [] h = refl
status_of-has_id id (r ∷ rs) h = ground (arith, h, status_of-has_id id rs)

pub waiting_only : (st : QueueStatus) → is_waiting st ≡ true → st ≡ waiting
waiting_only st h = ground arith

pub seat_waits : (now now' : ℕ) (e e' : QueueEntry) → seat now now' e ≡ ok e' → e.status ≡ waiting
unfolding seat
seat_waits now now' e e' h = ground arith

pub cancel_waits :
    (now now' : ℕ) (target : CancelTarget) (e e' : QueueEntry)
    → cancel now now' target e ≡ ok e'
    → e.status ≡ waiting
unfolding cancel
cancel_waits now now' target e e' h = ground arith

pub ring_waits :
    (now now' : ℕ) (e e' : QueueEntry)
    → ring now now' e ≡ ok e'
    → (e.status ≡ waiting) × (e'.status ≡ waiting) × (e'.id ≡ e.id)
unfolding ring
ring_waits now now' e e' h = ground arith

pub update_position_keeps :
    (now p : ℕ) (e : QueueEntry)
    → ((update_position now p none e).status ≡ e.status)
      × ((update_position now p none e).id ≡ e.id)
unfolding update_position
update_position_keeps now p e = ground arith
