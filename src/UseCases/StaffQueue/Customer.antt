-- ===== src/UseCases/StaffQueue/Customer.antt =====
-- What src/application/use-cases/internal/get-customer-queue-status.use-case.ts tells of a user.
use mathlib.Core.List.{Memᴰ}
use spotq_queue_service.Base.{◌≡◌, refl, String, true, false, Option, none, some, List, All, arith}
use spotq_queue_service.Entity.{QueueEntry, is_waiting}
use spotq_queue_service.World.{World, Tables, Env, Client}
use spotq_queue_service.Exec.Rules.{Post, Ensures, Ensures-bind, Ensures-given, Ensures-return}
use spotq_queue_service.Repository.Laws.{Lawful, Found}
use spotq_queue_service.Repository.Rules.{Ensures-run, Ensures-query, Fails}
use spotq_queue_service.Repository.Queries.{waits_as_user, find_active_by_user_id}
use spotq_queue_service.UseCases.StaffQueue.{
  CustomerStatus, customer_status, get_customer_queue_status,
}

-- The answer for a user: no entry of his waits, or the one named is his and waits.
abbrev pub IsStatus : String → List QueueEntry → Option CustomerStatus → Type 0
IsStatus user_id rows none = All (λ r. waits_as_user user_id r ≡ false) rows
IsStatus user_id rows (some out) =
    (r : QueueEntry) × (waits_as_user user_id r ≡ true)
    × Memᴰ r rows
    × (out.restaurant_id ≡ r.restaurant_id)
    × (out.queue_entry_id ≡ r.id)

user-waiting :
    (user_id : String) (r : QueueEntry)
    → waits_as_user user_id r ≡ true
    → is_waiting r.status ≡ true
unfolding waits_as_user
user-waiting user_id r h = ground (arith, h)

Found-IsStatus :
    (user_id : String) (rows : List QueueEntry) (o : Option QueueEntry)
    → Found (waits_as_user user_id) rows o
    → IsStatus user_id rows (customer_status o)
unfolding customer_status
Found-IsStatus user_id rows none h = h
Found-IsStatus user_id rows (some r) h = rw (user-waiting user_id r h.0) (r, h.0, h.1, refl, refl)

customer-Ensures :
    (env : Env) (client : Client)
    → Lawful client
    → (user_id : String) (s : Tables)
    → Ensures
        (λ t. t ≡ s)
        (get_customer_queue_status env client user_id)
        (λ out t. (t ≡ s) × IsStatus user_id s.entries out)
        (λ t. (t ≡ s) × Fails env)
unfolding get_customer_queue_status find_active_by_user_id
customer-Ensures env client lawful user_id s =
    Ensures-bind
      (Ensures-run (
        Ensures-query {Q = λ o t. (t ≡ s) × Found (waits_as_user user_id) s.entries o} env client _
          s (λ k x e. (refl, (k, x, e))) (refl, lawful.find_first _ _ s.entries)))
      λ o. Ensures-given λ f. Ensures-return _ (λ t p. (p, Found-IsStatus user_id s.entries o f))

-- Asking for a user's status reads the tables and leaves them as they were: it answers with an entry
-- of the user that waits, or with none if there is no such entry, and throws only if the database
-- failed.
pub get_customer_queue_status_exact :
    (env : Env) (client : Client)
    → Lawful client
    → (user_id : String) (w : World)
    → Post
        (λ out t. (t ≡ w.tables) × IsStatus user_id w.tables.entries out)
        (λ t. (t ≡ w.tables) × Fails env)
        (get_customer_queue_status env client user_id w)
get_customer_queue_status_exact env client lawful user_id w =
    (customer-Ensures env client lawful user_id w.tables).at w refl
