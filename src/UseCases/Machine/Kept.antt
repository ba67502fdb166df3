-- ===== src/UseCases/Machine/Kept.antt =====
-- What any requests to the handlers of src/application/use-cases that write keep of the rows.
use mathlib.Core.Path.{ap, sym, subst}
use spotq_queue_service.Base.{ℕ, ◌≡◌, ◌∙◌, inl, inr, String, none, List, [], ◌∷◌, arith}
use spotq_queue_service.Errors.{ok}
use spotq_queue_service.Entity.{QueueEntry, is_waiting, ring, update_position}
use spotq_queue_service.Entity.Outcomes.{skip-ok}
use spotq_queue_service.World.{World, Tables, Env, Client}
use spotq_queue_service.Exec.Rules.{Post-weaken, Post-same}
use spotq_queue_service.Repository.Calls.{upserted}
use spotq_queue_service.Repository.Laws.{Lawful, replace}
use spotq_queue_service.Repository.Atomic.{changed_tables}
use spotq_queue_service.Repository.Twins.{NoTwins}
use spotq_queue_service.UseCases.Lookup.Found.{IsOwned, IsOwned-id}
use spotq_queue_service.UseCases.Register as Register
use spotq_queue_service.UseCases.Register.Atomic.{register-NoTwins}
use spotq_queue_service.UseCases.Seat as Seat
use spotq_queue_service.UseCases.Assign as Assign
use spotq_queue_service.UseCases.Cancel as Cancel
use spotq_queue_service.UseCases.Skip as Skip
use spotq_queue_service.UseCases.Skip.Change.{IsChange}
use spotq_queue_service.UseCases.Skip.Effect.{IsSkipping, skip_effect}
use spotq_queue_service.UseCases.Ring as Ring
use spotq_queue_service.UseCases.Ring.Atomic.{IsRinging, ring_exact}
use spotq_queue_service.UseCases.Twins.{
  NoTwins-replace, view-NoTwins, seat-NoTwins, assign-NoTwins, cancel-NoTwins,
}
use spotq_queue_service.UseCases.Machine.{
  board, Command, registers, seats, assigns, cancels, skips, rings, move_of, perform, perform_all,
}
use spotq_queue_service.UseCases.Machine.Moves.{ring_waits, update_position_keeps}
use spotq_queue_service.UseCases.Machine.Refined.{perform-Step, outcome_of-world}
use spotq_queue_service.UseCases.Machine.Final.{AreDistinct, Step-AreDistinct}
use spotq_queue_service.UseCases.Machine.Twins.{IsAlike, Alike-NoTwins, replace-Alike}

ring-IsAlike :
    (env : Env) (client : Client) (now now' : ℕ) (e e' : QueueEntry)
    → ring now now' e ≡ ok e'
    → IsAlike e (upserted env client e' e)
unfolding ring
ring-IsAlike env client now now' e e' h = ground arith

update_position-IsAlike : (now p : ℕ) (e : QueueEntry) → IsAlike e (update_position now p none e)
unfolding update_position
update_position-IsAlike now p e = ground arith

-- The row of the request is replaced by one that is alike.
replaced-NoTwins :
    {rid id : String} {s : Tables} {before : QueueEntry} (g : QueueEntry → QueueEntry) (i : String)
    → AreDistinct (board s)
    → IsOwned rid id s before
    → i ≡ id
    → IsAlike before (g before)
    → NoTwins s.entries
    → NoTwins (replace i g s.entries)
replaced-NoTwins {id = id} {s = s} {before = before} g i d owned same a h = rw same (
    Alike-NoTwins s.entries (replace id g s.entries)
      (replace-Alike id g before s.entries d owned.found a) h)

skip_change-NoTwins :
    (client : Client) (input : Skip.Input) {s : Tables} (before after : QueueEntry)
    (reason : String)
    → AreDistinct (board s)
    → IsOwned input.restaurant_id input.queue_entry_id s before
    → IsChange client input s before after reason
    → NoTwins s.entries
    → NoTwins (replace after.id (λ _. after) s.entries)
skip_change-NoTwins client input {s} before after reason d owned (inl (now, q, skipping, why)) h =
    NoTwins-replace after (ap is_waiting (skip-ok now before after skipping).1) after.id s.entries h
skip_change-NoTwins client input {s} before after reason d owned
      (inr (now, n, place, q, places, many, moved, why)) h =
    replaced-NoTwins (λ _. after) after.id d owned
      (ap (λ e. e.id) moved ∙ (update_position_keeps now place before).1 ∙ IsOwned-id owned)
      (subst (IsAlike before) (sym moved) (update_position-IsAlike now place before)) h

module _ (env : Env) {client : Client} (lawful : Lawful client) where
  skip-NoTwins :
      (input : Skip.Input) (w : World)
      → AreDistinct (board w.tables)
      → NoTwins w.tables.entries
      → NoTwins (Skip.execute env client input w).1.tables.entries
  unfolding changed_tables
  skip-NoTwins input w d h =
      Post-same (λ t. NoTwins t.entries) (Skip.execute env client input w)
        (Post-weaken (λ o t p. kept t p.0)
          (λ t p. elim p [ inl e ↦ view-NoTwins w.tables t e h | inr q ↦ kept t q ])
          (Skip.execute env client input w) (skip_effect env lawful input w))
    where
      kept : (t : Tables) → IsSkipping env client input w.tables t → NoTwins t.entries
      kept t p =
          view-NoTwins _ t p.tables
            (skip_change-NoTwins client input p.before p.after p.reason d p.owned p.change h)

  ring-NoTwins :
      (input : Ring.Input) (w : World)
      → AreDistinct (board w.tables)
      → NoTwins w.tables.entries
      → NoTwins (Ring.execute env client input w).1.tables.entries
  ring-NoTwins input w d h =
      Post-same (λ t. NoTwins t.entries) (Ring.execute env client input w)
        (Post-weaken (λ o t (p, i, n). kept t p) (λ t e. rw e h) (Ring.execute env client input w)
          (ring_exact env lawful input w))
    where
      kept : (t : Tables) → IsRinging env client input w.tables t → NoTwins t.entries
      kept t p =
          let (waits, stays, same) = ring_waits p.now p.now' p.before p.after p.rings in
          rw p.tables (
            replaced-NoTwins (upserted env client p.after) p.after.id d p.owned
              (same ∙ IsOwned-id p.owned)
              (ring-IsAlike env client p.now p.now' p.before p.after p.rings) h)

  perform-NoTwins :
      (c : Command) (w : World)
      → AreDistinct (board w.tables)
      → NoTwins w.tables.entries
      → NoTwins (perform env client c w).1.tables.entries
  perform-NoTwins (registers input) w d h =
      rw (outcome_of-world (Register.execute env client input w))
        (register-NoTwins env lawful input w h)
  perform-NoTwins (seats input) w d h =
      rw (outcome_of-world (Seat.execute env client input w)) (seat-NoTwins env lawful input w h)
  perform-NoTwins (assigns input) w d h =
      rw (outcome_of-world (Assign.execute env client input w))
        (assign-NoTwins env lawful input w h)
  perform-NoTwins (cancels input) w d h =
      rw (outcome_of-world (Cancel.execute env client input w))
        (cancel-NoTwins env lawful input w h)
  perform-NoTwins (skips input) w d h =
      rw (outcome_of-world (Skip.execute env client input w)) (skip-NoTwins input w d h)
  perform-NoTwins (rings input) w d h =
      rw (outcome_of-world (Ring.execute env client input w)) (ring-NoTwins input w d h)

-- If the ids of the entries are distinct and no two waiting entries share a phone number at one
-- restaurant or a user, this stays so, whatever requests to register, seat, assign tables, cancel,
-- skip and ring come in, and whatever fails.
pub perform_all-NoTwins :
    (env : Env) {client : Client}
    → Lawful client
    → (cs : List Command) (w : World) → AreDistinct (board w.tables)
    → NoTwins w.tables.entries
    → AreDistinct (board (perform_all env client cs w).tables)
      × NoTwins (perform_all env client cs w).tables.entries
unfolding perform_all
perform_all-NoTwins env lawful [] w d h = (d, h)
perform_all-NoTwins env {client} lawful (c ∷ cs) w d h =
    perform_all-NoTwins env lawful cs (perform env client c w).1
      (Step-AreDistinct ((perform env client c w).0, move_of env c) (board w.tables)
        (board (perform env client c w).1.tables) d (perform-Step env lawful c w))
      (perform-NoTwins env lawful c w d h)
