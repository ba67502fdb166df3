-- ===== src/UseCases/Lookup/Found.antt =====
-- What the first steps of a handler of src/application/use-cases come to.
use mathlib.Core.Path.{subst}
use spotq_queue_service.Base.{sym, ◌≡◌, refl, String, Option, none, some, str_eq, eq_iff}
use spotq_queue_service.Entity.{QueueEntry}
use spotq_queue_service.World.{Tables, Env, Client}
use spotq_queue_service.Exec.Rules.{
  Ensures, Ensures-bind, Ensures-return, Ensures-refuse, Ensures-if, Ensures-given,
}
use spotq_queue_service.Repository.Calls.{find_by_id}
use spotq_queue_service.Repository.Laws.{Lawful, row_with, row_with-id}
use spotq_queue_service.Repository.Rules.{Ensures-run, Ensures-query}
use spotq_queue_service.UseCases.Lookup.{owned_by, require_entry}

-- The entry that a request of a restaurant is about.
pub record IsOwned (restaurant_id id : String) (s : Tables) (e : QueueEntry) : Type 0 where
  pub found : row_with id s.entries ≡ some e
  pub owned : e.restaurant_id ≡ restaurant_id

pub IsOwned-id : {rid id : String} {s : Tables} {e : QueueEntry} → IsOwned rid id s e → e.id ≡ id
IsOwned-id {id = id} {s = s} {e = e} h = row_with-id id s.entries e h.found

module _ {E : Tables → Type 0} (s : Tables) (kept : E s) where
  owned_by-Ensures :
      (rid id : String) (found : Option QueueEntry)
      → row_with id s.entries ≡ found
      → Ensures (λ t. t ≡ s) (owned_by rid id found) (λ e t. (t ≡ s) × IsOwned rid id s e) E
  unfolding owned_by
  owned_by-Ensures rid id none h = Ensures-refuse _ (λ t p. subst E (sym p) kept)
  owned_by-Ensures rid id (some e) h =
      Ensures-if (str_eq e.restaurant_id rid)
        (λ b.
          Ensures-return e
            (λ t p. (p, record { found = h; owned = (eq_iff e.restaurant_id rid).0 b })))
        (λ b. Ensures-refuse _ (λ t p. subst E (sym p) kept))

  pub require_entry-Ensures :
      (env : Env) {client : Client} (lawful : Lawful client) (rid id : String)
      → Ensures
          (λ t. t ≡ s)
          (require_entry env client rid id)
          (λ e t. (t ≡ s) × IsOwned rid id s e)
          E
  unfolding require_entry find_by_id
  require_entry-Ensures env {client} lawful rid id =
      Ensures-bind
        (Ensures-run (
          Ensures-query {Q = λ o t. (t ≡ s) × (row_with id s.entries ≡ o)} env client _ s
            (λ k x e. kept) (refl, sym (lawful.find_unique id s.entries))))
        λ o. Ensures-given (owned_by-Ensures rid id o)
